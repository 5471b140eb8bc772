-- ===== src/Tmgi/Removed.antt =====
-- What a response to a deallocation removes from the context, and which callbacks it calls.
use rt_5gc_service_consumers.Common.{
  ℕ, Bool, true, false, List, [], ◌∷◌, ◌++◌, Option, none, some, ◌==◌, if◌then◌else◌, has, remove,
  remove-Distinct, Distinct, ◌≡◌, ◌⊎◌, refl, ap, arith, Option-cases, Bool-cases, inl, inr,
}
use rt_5gc_service_consumers.Callback.{Call, notify, ogs_done, ogs_error}
use rt_5gc_service_consumers.Tmgi.{Tmgi, ApiTmgi, matches, tmgi_find_matching_openapi_type}
use rt_5gc_service_consumers.Tmgi.Handle.{addrs}
use rt_5gc_service_consumers.Tmgi.Plmn.{PlmnOps}
use rt_5gc_service_consumers.Tmgi.Response.{
  Message, is_success, tell, context_remove_tmgi, do_tmgi_remove, nmbsmf_tmgi_deallocated,
}

notify-told :
    (success : Bool) (callback : Option ℕ) (a d : ℕ) (problem_details : Bool)
    → (if success
        then notify callback a ogs_done false d
        else notify callback a ogs_error problem_details d)
      ≡ elim callback [
        | none ↦ []
        | some f ↦
            record {
              function = f;
              object = a;
              result = if success then ogs_done else ogs_error;
              problem_details = if success then false else problem_details;
              callback_data = d;
            }
            ∷ []
      ]
unfolding notify
notify-told true none a d p = refl
notify-told true (some f) a d p = refl
notify-told false none a d p = refl
notify-told false (some f) a d p = refl

module _ {Plmn : Type 0} where
  addrs-context_remove_tmgi :
      (t : Tmgi Plmn) (ts : List (Tmgi Plmn))
      → addrs (context_remove_tmgi t ts) ≡ remove t.addr (addrs ts)
  unfolding context_remove_tmgi
  addrs-context_remove_tmgi t [] = refl
  addrs-context_remove_tmgi t (x ∷ ts) = ground (arith, addrs-context_remove_tmgi t ts)

  -- The call by which the application is told of the end of a TMGI: without a problem if the MB-SMF
  -- has deallocated it, else of an error with the details that the answer has.
  abbrev pub told : Message → Tmgi Plmn → List Call
  told m t = elim t.callback [
    | none ↦ []
    | some f ↦
        record {
          function = f;
          object = t.addr;
          result = if is_success m.res_status then ogs_done else ogs_error;
          problem_details = if is_success m.res_status then false else m.problem_details;
          callback_data = t.callback_data;
        }
        ∷ []
  ]

  tell-told :
      (m : Message) (t : Tmgi Plmn)
      → (if is_success m.res_status
          then tell t ogs_done false
          else tell t ogs_error m.problem_details)
        ≡ told m t
  unfolding tell
  tell-told m t =
      notify-told (is_success m.res_status) t.callback t.addr t.callback_data m.problem_details

module _ {Plmn : Type 0} (o : PlmnOps Plmn) where
  -- No TMGI of the list matches.
  abbrev pub NoneMatches : ApiTmgi → List (Tmgi Plmn) → Type 0
  NoneMatches api [] = Unit {0}
  NoneMatches api (t ∷ ts) = (matches o api t ≡ false) × NoneMatches api ts

  -- The first TMGI that matches has been taken out, and nothing else; the callback has been called.
  pub record FirstRemoved (api : ApiTmgi) (m : Message) (ts us : List (Tmgi Plmn))
      (calls : List Call) : Type 0 where
    pub before : List (Tmgi Plmn)
    pub tmgi : Tmgi Plmn
    pub after : List (Tmgi Plmn)
    pub in_order : ts ≡ before ++ tmgi ∷ after
    pub none_before : NoneMatches api before
    pub matching : matches o api tmgi ≡ true
    pub others_stay : us ≡ before ++ after
    pub calls_made : calls ≡ told m tmgi

  abbrev pub Removal : ApiTmgi → Message → List (Tmgi Plmn) → List (Tmgi Plmn) → List Call → Type 0
  Removal api m ts us calls =
      FirstRemoved api m ts us calls ⊎ (NoneMatches api ts × (us ≡ ts) × (calls ≡ []))

  -- One removal after the other for the elements that are understood.
  abbrev pub Removals :
      List (Option ApiTmgi) → Message → List (Tmgi Plmn) → List (Tmgi Plmn) → List Call → Type 0
  Removals [] m ts us calls = (us ≡ ts) × (calls ≡ [])
  Removals (none ∷ apis) m ts us calls = Removals apis m ts us calls
  Removals (some api ∷ apis) m ts us calls =
      (mid : List (Tmgi Plmn)) × (first more : List Call) × Removal api m ts mid first
      × Removals apis m mid us more
      × (calls ≡ first ++ more)

  none-NoneMatches :
      (api : ApiTmgi) (ts : List (Tmgi Plmn))
      → tmgi_find_matching_openapi_type o api ts ≡ none
      → NoneMatches api ts
  unfolding tmgi_find_matching_openapi_type
  none-NoneMatches api [] h = tt
  none-NoneMatches api (t ∷ ts) h = elim (Bool-cases (matches o api t)) [
    | inl k ↦ absurd (ground (arith, k))
    | inr k ↦ (k, none-NoneMatches api ts (ground (arith, k)))
  ]

  find-has :
      (api : ApiTmgi) (ts : List (Tmgi Plmn)) (t : Tmgi Plmn)
      → tmgi_find_matching_openapi_type o api ts ≡ some t
      → has t.addr (addrs ts) ≡ true
  unfolding tmgi_find_matching_openapi_type
  find-has api [] t h = cc
  find-has api (x ∷ ts) t h = ground (arith, find-has api ts t)

  -- What the search finds stands behind those that do not match, and is what the removal takes out.
  find-FirstRemoved :
      (api : ApiTmgi) (m : Message) (ts : List (Tmgi Plmn)) (t : Tmgi Plmn)
      → Distinct (addrs ts)
      → tmgi_find_matching_openapi_type o api ts ≡ some t
      → FirstRemoved api m ts (context_remove_tmgi t ts) (told m t)
  unfolding tmgi_find_matching_openapi_type context_remove_tmgi
  find-FirstRemoved api m [] t d h = cc
  find-FirstRemoved api m (x ∷ ts) t d h = elim (Bool-cases (matches o api x)) [
    | inl k ↦
        let here : x ≡ t = ground (arith, k) in
        record {
          before = [];
          tmgi = t;
          after = ts;
          in_order = ap (λ y. y ∷ ts) here;
          none_before = tt;
          matching = rw (← here) k;
          others_stay = ground (arith, here);
          calls_made = refl;
        }
    | inr k ↦
        let later : tmgi_find_matching_openapi_type o api ts ≡ some t = ground (arith, k) in
        let apart : (x.addr == t.addr) ≡ false = ground (arith, find-has api ts t later) in
        let r = find-FirstRemoved api m ts t d.1 later in
        record {
          before = x ∷ r.before;
          tmgi = r.tmgi;
          after = r.after;
          in_order = ap (λ l. x ∷ l) r.in_order;
          none_before = (k, r.none_before);
          matching = r.matching;
          others_stay = rw apart (ap (λ l. x ∷ l) r.others_stay);
          calls_made = r.calls_made;
        }
  ]

  -- One element that is understood, and the addresses that it leaves.
  do_tmgi_remove-Removal :
      (api : ApiTmgi) (m : Message) (ts : List (Tmgi Plmn))
      → Distinct (addrs ts)
      → let r = do_tmgi_remove o (some api) m ts in Removal api m ts r.0 r.1 × Distinct (addrs r.0)
  unfolding do_tmgi_remove
  do_tmgi_remove-Removal api m ts d =
      elim (Option-cases (tmgi_find_matching_openapi_type o api ts)) [
        | inl e ↦ rw (e, do_tmgi_remove) (inr (none-NoneMatches api ts e, refl, refl), d)
        | inr (t, e) ↦
            rw (e, do_tmgi_remove, tell-told)
              (
                inl (find-FirstRemoved api m ts t d e),
                rw addrs-context_remove_tmgi (remove-Distinct t.addr (addrs ts) d),
              )
      ]

  -- A response to a deallocation takes the elements of the request's list that are understood one
  -- after the other, whatever its status: each removes the first TMGI of the context that matches it
  -- then, if any, and no other, and the order of the rest stays. The callback of each TMGI removed is
  -- called once, in this order, without a problem for a success and with an error and the problem
  -- details else; addresses are distinct.
  pub nmbsmf_tmgi_deallocated-Removals :
      (apis : List (Option ApiTmgi)) (m : Message) (ts : List (Tmgi Plmn))
      → Distinct (addrs ts)
      → Removals apis m ts
          (nmbsmf_tmgi_deallocated o apis m ts).0
          (nmbsmf_tmgi_deallocated o apis m ts).1
  unfolding nmbsmf_tmgi_deallocated
  nmbsmf_tmgi_deallocated-Removals [] m ts d = (refl, refl)
  nmbsmf_tmgi_deallocated-Removals (none ∷ apis) m ts d =
      nmbsmf_tmgi_deallocated-Removals apis m ts d
  nmbsmf_tmgi_deallocated-Removals (some api ∷ apis) m ts d =
      let r = do_tmgi_remove o (some api) m ts in
      let (first, distinct) = do_tmgi_remove-Removal api m ts d in
      (
        r.0,
        r.1,
        (nmbsmf_tmgi_deallocated o apis m r.0).1,
        first,
        nmbsmf_tmgi_deallocated-Removals apis m r.0 distinct,
        refl,
      )
