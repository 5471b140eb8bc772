-- ===== src/Tmgi/Send.antt =====
-- The SBI objects across a request to allocate or to refresh TMGIs.
use rt_5gc_service_consumers.Common.{
  ℕ, ◌*◌, List, [], ◌∷◌, ◌++◌, map, Option, none, some, length, ok, fault, ◌≡◌, ◌≢◌, ◌↔◌, refl,
  arith, inl, inr, >>=-eq-ok, true, false, ◌&&◌, ◌==◌, if◌then◌else◌, Bool-cases, ==_self,
}
use rt_5gc_service_consumers.SbiObject.{
  Ref, Objects, ref_count_sbi_object_new, ref_count_sbi_object_ref, ref_count_sbi_object_unref,
}
use rt_5gc_service_consumers.SbiObject.Counted.{
  holds, holders, holders-append, Counted, ref_count_sbi_object_new-Counted,
  ref_count_sbi_object_ref-Counted, ref_count_sbi_object_unref-Counted, Counted-of_holders,
}
use rt_5gc_service_consumers.Tmgi.Request.{
  Request, has_expired, share, refresh_list, tmgi_list_send_allocate, tmgi_send_refresh_all,
  addresses,
}
use rt_5gc_service_consumers.Tmgi.{Tmgi}

module _ {Plmn : Type 0} where
  abbrev pub objects : List (Tmgi Plmn) → List (Option Ref)
  objects = map (λ t. t.sbi_object)

  -- Sharing keeps the counts exact: every node drops its object and holds the new one instead.
  share-Counted :
      (a : Ref) (ts : List (Tmgi Plmn)) (others : List (Option Ref)) (s : Objects)
      → Counted (some a ∷ objects ts ++ others) s
      → (us : List (Tmgi Plmn)) × (t : Objects) × (share a ts s ≡ ok (us, t))
        × Counted (some a ∷ objects us ++ others) t
        × (length us ≡ length ts)
        × ((b : Ref) → holders (objects us) b ≡ holds (some a) b * length ts)
        × (t.next ≡ s.next)
  unfolding share
  share-Counted a [] others s c = ([], s, refl, c, refl, λ b. omega arith, refl)
  share-Counted a (x ∷ ts) others s c =
      let (s₁, e₁, c₁, n₁) =
        ref_count_sbi_object_unref-Counted x.sbi_object (some a ∷ objects ts ++ others) s
          (Counted-of_holders _ _ s (λ b. omega arith) c) in
      let (s₂, e₂, c₂, n₂) =
        ref_count_sbi_object_ref-Counted (some a) (objects ts ++ others) s₁ c₁ in
      let (us, t, e, k, len, all, n) = share-Counted a ts (some a ∷ others) s₂ (
        Counted-of_holders _ _ s₂
          (λ b. omega (
            arith,
            holders-append (objects ts) others b,
            holders-append (objects ts) (some a ∷ others) b,
          ))
          c₂) in
      (
        record x { sbi_object = some a } ∷ us,
        t,
        rw (e₁, e₂, e),
        Counted-of_holders _ _ t
            (λ b. omega (
              arith,
              holders-append (objects us) others b,
              holders-append (objects us) (some a ∷ others) b,
            ))
            k,
        omega (arith, len),
        λ b. omega (arith, all b),
        omega (arith, n₁, n₂, n),
      )

  -- What a request with a list of new TMGIs leaves: the TMGIs, the request and the objects.
  pub record Sent (new : List (Tmgi Plmn)) (others : List (Option Ref)) (a : Ref)
      (us : List (Tmgi Plmn)) (r : Request) (t : Objects) : Type 0 where
    pub counted : Counted (objects us ++ others) t
    pub shared : objects us ≡ map (λ _. some a) new
    pub by_object : r.sbi_object ≡ some a
    pub live_as_many : t.ref_count a ≡ length new
    pub asked : r.tmgi_number ≡ length new

  share-objects :
      (a : Ref) (ts us : List (Tmgi Plmn)) (s t : Objects)
      → share a ts s ≡ ok (us, t)
      → objects us ≡ map (λ _. some a) ts
  unfolding share
  share-objects a [] us s t h = ground arith
  share-objects a (x ∷ ts) us s t h =
      let (s₁, e₁, h₁) = >>=-eq-ok (ref_count_sbi_object_unref x.sbi_object s) _ h in
      let (s₂, e₂, h₂) = >>=-eq-ok (ref_count_sbi_object_ref (some a) s₁) _ h₁ in
      let (rest, e₃, h₃) = >>=-eq-ok (share a ts s₂) _ h₂ in
      ground (arith, share-objects a ts rest.0 s₂ rest.1)

  -- The sharing, and the dropping of the first reference: the counts stay exact, and that of the new
  -- object is the number of new TMGIs.
  shared-Counted :
      (new : List (Tmgi Plmn)) (others : List (Option Ref)) (s : Objects)
      → Counted (objects new ++ others) s
      → (us : List (Tmgi Plmn)) × (t u : Objects) × (share s.next new (ref_count_sbi_object_new s).1
          ≡ ok (us, t))
        × (ref_count_sbi_object_unref (some s.next) t ≡ ok u)
        × Counted (objects us ++ others) u
        × (u.ref_count s.next ≡ length new)
        × (objects us ≡ map (λ _. some s.next) new)
  shared-Counted new others s c =
      let (us, t, e, k, len, all, n) =
        share-Counted s.next new others (ref_count_sbi_object_new s).1
          (ref_count_sbi_object_new-Counted (objects new ++ others) s c) in
      let (u, e', k', n') =
        ref_count_sbi_object_unref-Counted (some s.next) (objects us ++ others) t k in
      (
        us,
        t,
        u,
        e,
        e',
        k',
        omega (
          arith,
          k'.exact s.next,
          holders-append (objects us) others s.next,
          holders-append (objects new) others s.next,
          all s.next,
          own,
          c.exact s.next,
          c.fresh s.next (omega arith),
        ),
        share-objects s.next new us (ref_count_sbi_object_new s).1 t e,
      )
    where
      own : holds (some s.next) s.next * length new ≡ length new
      own = rw (==_self s.next) (omega arith)

  abbrev sent_request : Ref → List (Tmgi Plmn) → Option (List (Tmgi Plmn)) → Request
  sent_request a new refresh = record {
    sbi_object = some a;
    discovery = true;
    tmgi_number = length new;
    refresh = addresses refresh;
  }

  send-of_shared :
      (new : List (Tmgi Plmn)) (refresh : Option (List (Tmgi Plmn))) (us : List (Tmgi Plmn))
      (s t u : Objects)
      → share s.next new (ref_count_sbi_object_new s).1 ≡ ok (us, t)
      → ref_count_sbi_object_unref (some s.next) t ≡ ok u
      → tmgi_list_send_allocate (some new) refresh s ≡ (
          if u.ref_count s.next == 0
          then fault
          else ok (us, some (sent_request s.next new refresh), u))
  unfolding tmgi_list_send_allocate ref_count_sbi_object_new
  send-of_shared new refresh us s t u e e' = rw (e, e') refl

  -- When the reference counts are exact, a request with a list of new TMGIs is a fault, by the use of
  -- an object that has been freed, exactly when the list is empty. Else it keeps the counts exact;
  -- the new TMGIs come to share one fresh object, by which the request goes, and its count afterwards
  -- is the number of new TMGIs.
  pub tmgi_list_send_allocate-Sent :
      (new : List (Tmgi Plmn)) (refresh : Option (List (Tmgi Plmn))) (others : List (Option Ref))
      (s : Objects)
      → Counted (objects new ++ others) s
      → ((tmgi_list_send_allocate (some new) refresh s ≡ fault) ↔ (new ≡ []))
        × (new ≢ []
            → (us : List (Tmgi Plmn)) × (r : Request) × (t : Objects) × (tmgi_list_send_allocate
                  (some new)
                  refresh
                  s
                ≡ ok (us, some r, t))
              × Sent new others s.next us r t)
  tmgi_list_send_allocate-Sent [] refresh others s c =
      let (us, t, u, e, e', k, n, o) = shared-Counted [] others s c in
      (
        (λ h. refl, λ h. ground (arith, send-of_shared [] refresh us s t u e e', n)),
        λ h. absurd (h refl),
      )
  tmgi_list_send_allocate-Sent (x ∷ new) refresh others s c =
      let (us, t, u, e, e', k, n, o) = shared-Counted (x ∷ new) others s c in
      let sent : tmgi_list_send_allocate (some (x ∷ new)) refresh s
          ≡ ok (us, some (sent_request s.next (x ∷ new) refresh), u) =
        ground (arith, send-of_shared (x ∷ new) refresh us s t u e e', n) in
      (
        (λ h. cc, λ h. cc),
        λ h. (
          us,
          sent_request s.next (x ∷ new) refresh,
          u,
          sent,
          record { counted = k; shared = o; by_object = refl; live_as_many = n; asked = refl },
        ),
      )

  -- No TMGI of the list is due for a refresh.
  abbrev pub NoneExpired : ℕ → List (Tmgi Plmn) → Type 0
  NoneExpired now [] = Unit {0}
  NoneExpired now (t ∷ ts) = ((t.allocated && has_expired now t) ≡ false) × NoneExpired now ts

  refresh_list-nil :
      (now : ℕ) (ts : List (Tmgi Plmn)) → NoneExpired now ts → refresh_list now ts ≡ []
  unfolding refresh_list
  refresh_list-nil now [] h = refl
  refresh_list-nil now (t ∷ ts) h = rw h.0 (refresh_list-nil now ts h.1)

  nil-refresh_list :
      (now : ℕ) (ts : List (Tmgi Plmn)) → refresh_list now ts ≡ [] → NoneExpired now ts
  unfolding refresh_list
  nil-refresh_list now [] h = tt
  nil-refresh_list now (t ∷ ts) h = elim (Bool-cases (t.allocated && has_expired now t)) [
    | inl e ↦ absurd (ground (arith, e))
    | inr e ↦ (e, nil-refresh_list now ts (ground (arith, e)))
  ]

  -- Refreshing all expired TMGIs reads through NULL exactly when no TMGI of the context is due: each
  -- is unallocated, has no expiry time, or expires later.
  pub tmgi_send_refresh_all-fault_iff :
      (now : ℕ) (ts : List (Tmgi Plmn)) (s : Objects)
      → (tmgi_send_refresh_all now ts s ≡ fault) ↔ NoneExpired now ts
  unfolding tmgi_send_refresh_all
  tmgi_send_refresh_all-fault_iff now ts s = (
    λ h. nil-refresh_list now ts (empty_of_fault (refresh_list now ts) h),
    λ h. rw (refresh_list-nil now ts h),
  )
    where
      empty_of_fault :
          (rs : List (Tmgi Plmn)) → tmgi_list_send_allocate none (some rs) s ≡ fault → rs ≡ []
      empty_of_fault [] h = refl
      empty_of_fault (r ∷ rs) h = cc
