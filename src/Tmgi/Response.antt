-- ===== src/Tmgi/Response.antt =====
-- lib/mb-smf-service-consumer/nmbsmf-tmgi-handle.c: the responses to TMGI requests. The callbacks
-- of the application are recorded; they do not change the TMGIs themselves.
use rt_5gc_service_consumers.Common.{
  ℕ, Bool, false, ◌&&◌, List, [], ◌∷◌, ◌++◌, Option, none, some, Str, ◌==◌, leb, ltb, if◌then◌else◌,
}
use rt_5gc_service_consumers.Callback.{ResultCode, ogs_ok, ogs_error, ogs_done, Call, notify}
use rt_5gc_service_consumers.Tmgi.Plmn.{PlmnOps}
use rt_5gc_service_consumers.Tmgi.{
  Tmgi, ApiTmgi, tmgi_set_mbs_service_id, tmgi_set_plmn, tmgi_set_expiry_time,
  tmgi_find_matching_openapi_type,
}

-- `TmgiAllocated` of a response. A NULL entry of the list is `none`.
pub record TmgiAllocated : Type 0 where
  pub tmgi_list : Option (List (Option ApiTmgi))
  pub expiration_time : Option Str

-- What the handlers read of the message, and of the request it answers. `request_tmgi_list` is
-- `none` where the request's body is no TmgiAllocate.
pub record Message : Type 0 where
  pub res_status : ℕ
  pub tmgi_allocated : Option TmgiAllocated
  pub problem_details : Bool
  pub request_tmgi_list : Option (List (Option ApiTmgi))

module _ {Plmn : Type 0} where
  -- The change is made to the object, so to its entry in the context.
  unfoldable pub store : Tmgi Plmn → List (Tmgi Plmn) → List (Tmgi Plmn)
  store u [] = []
  store u (t ∷ ts) = if t.addr == u.addr then u ∷ ts else t ∷ store u ts

  -- `ogs_list_remove` of the entry.
  unfoldable pub context_remove_tmgi : Tmgi Plmn → List (Tmgi Plmn) → List (Tmgi Plmn)
  context_remove_tmgi u [] = []
  context_remove_tmgi u (t ∷ ts) = if t.addr == u.addr then ts else t ∷ context_remove_tmgi u ts

  unfoldable pub tell : Tmgi Plmn → ResultCode → Bool → List Call
  unfolding notify
  tell t result problem_details = notify t.callback t.addr result problem_details t.callback_data

abbrev pub is_success : ℕ → Bool
is_success status = leb 200 status && ltb status 300

module _ {Plmn : Type 0} (o : PlmnOps Plmn) where
  -- The TMGI with what the MB-SMF allocated to it.
  unfoldable pub assigned : ApiTmgi → ℕ → Tmgi Plmn → Tmgi Plmn
  assigned api expiry_time t =
      tmgi_set_expiry_time
        (tmgi_set_plmn o (tmgi_set_mbs_service_id t api.mbs_service_id) (o.number api.mcc)
          (o.number api.mnc))
        expiry_time

  -- One entry of the list that has been allocated.
  unfoldable pub allocate_one : ApiTmgi → ℕ → List (Tmgi Plmn) → List (Tmgi Plmn) × List Call
  unfolding store tell
  allocate_one api expiry_time ts = elim (tmgi_find_matching_openapi_type o api ts) [
    | none ↦ (ts, [])
    | some t ↦
        (store (assigned api expiry_time t) ts, tell (assigned api expiry_time t) ogs_ok false)
  ]

  -- The loop over the list; a NULL entry ends it with an error.
  unfoldable pub allocate_each :
      List (Option ApiTmgi) → ℕ → List (Tmgi Plmn) → List (Tmgi Plmn) × List Call × ResultCode
  allocate_each [] expiry_time ts = (ts, [], ogs_ok)
  allocate_each (none ∷ apis) expiry_time ts = (ts, [], ogs_error)
  allocate_each (some api ∷ apis) expiry_time ts =
      let (ts₁, calls) = allocate_one api expiry_time ts in
      let (ts₂, more, result) = allocate_each apis expiry_time ts₁ in (ts₂, calls ++ more, result)

  -- An expiry time that is missing, or not understood, is 0.
  unfoldable pub expiry : Option Str → ℕ
  expiry none = 0
  expiry (some text) = elim (o.parse_time text) [ none ↦ 0 | some t ↦ t ]

  unfoldable pub allocated_list :
      Option (List (Option ApiTmgi))
      → ℕ
      → List (Tmgi Plmn)
      → List (Tmgi Plmn) × List Call × ResultCode
  unfolding allocate_each
  allocated_list none expiry_time ts = (ts, [], ogs_error)
  allocated_list (some []) expiry_time ts = (ts, [], ogs_error)
  allocated_list (some (a ∷ apis)) expiry_time ts = allocate_each (a ∷ apis) expiry_time ts

  unfoldable pub allocated :
      Option TmgiAllocated → List (Tmgi Plmn) → List (Tmgi Plmn) × List Call × ResultCode
  unfolding allocated_list expiry
  allocated none ts = (ts, [], ogs_error)
  allocated (some a) ts = allocated_list a.tmgi_list (expiry a.expiration_time) ts

  -- The callbacks for the TMGIs that could not be refreshed.
  refused : List (Option ApiTmgi) → Bool → List (Tmgi Plmn) → List Call
  unfolding tell
  refused [] problem_details ts = []
  refused (none ∷ apis) problem_details ts = refused apis problem_details ts
  refused (some api ∷ apis) problem_details ts =
      elim (tmgi_find_matching_openapi_type o api ts) [
        | none ↦ []
        | some t ↦ tell t ogs_error problem_details
      ]
      ++ refused apis problem_details ts

  unfoldable pub not_allocated :
      Option (List (Option ApiTmgi))
      → Bool
      → List (Tmgi Plmn)
      → List (Tmgi Plmn) × List Call × ResultCode
  unfolding refused
  not_allocated none problem_details ts = (ts, [], ogs_error)
  not_allocated (some apis) problem_details ts = (ts, refused apis problem_details ts, ogs_ok)

  unfoldable pub nmbsmf_tmgi_allocated :
      Message → List (Tmgi Plmn) → List (Tmgi Plmn) × List Call × ResultCode
  unfolding allocated not_allocated
  nmbsmf_tmgi_allocated m ts =
      if is_success m.res_status
      then allocated m.tmgi_allocated ts
      else not_allocated m.request_tmgi_list m.problem_details ts

  -- `__do_tmgi_remove` for one element of the request's `tmgi-list`; `none` is not understood.
  unfoldable pub do_tmgi_remove :
      Option ApiTmgi → Message → List (Tmgi Plmn) → List (Tmgi Plmn) × List Call
  unfolding tell context_remove_tmgi
  do_tmgi_remove none m ts = (ts, [])
  do_tmgi_remove (some api) m ts = elim (tmgi_find_matching_openapi_type o api ts) [
    | none ↦ (ts, [])
    | some t ↦ (
      context_remove_tmgi t ts,
      if is_success m.res_status then tell t ogs_done false else tell t ogs_error m.problem_details,
    )
  ]

  -- The elements of the `tmgi-list` parameter, an object being a list of one.
  unfoldable pub nmbsmf_tmgi_deallocated :
      List (Option ApiTmgi) → Message → List (Tmgi Plmn) → List (Tmgi Plmn) × List Call
  unfolding do_tmgi_remove
  nmbsmf_tmgi_deallocated [] m ts = (ts, [])
  nmbsmf_tmgi_deallocated (api ∷ apis) m ts =
      let (ts₁, calls) = do_tmgi_remove api m ts in
      let (ts₂, more) = nmbsmf_tmgi_deallocated apis m ts₁ in (ts₂, calls ++ more)
