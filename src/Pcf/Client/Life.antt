-- ===== src/Pcf/Client/Life.antt =====
-- The life of the app sessions under the answers of the PCF.
use rt_5gc_service_consumers.Common.{
  ℕ, true, false, Option, none, some, Str, ◌==◌, Run, ok, fault, has, ◌≡◌, ◌⊎◌, refl, subst,
  Bool-cases, inl, inr,
}
use rt_5gc_service_consumers.Pcf.Context.{
  PcfContext, deref_session, app_session_exists, unlink, app_sess_remove, active_sessions_exists,
}
use rt_5gc_service_consumers.Pcf.Context.Listed.{IsValid, exists-owner, has-listed_in}
use rt_5gc_service_consumers.Pcf.Context.Search.{Found, find_by_id-Found}
use rt_5gc_service_consumers.Pcf.Context.Dropped.{app_sess_remove-unlink}
use rt_5gc_service_consumers.Pcf.Client.{
  Service, policyauthorization, other_service, Resource, app_sessions, other_resource, SubResource,
  events_subscription, delete, other_sub_resource, Method, patch, post, other_method, SbiMessage,
  RequestState, ogs_ok, ogs_done, ogs_timeup, ogs_other, ClientEvent, delete_handler, by_method,
  by_sub_resource, by_resource, by_state, process_client,
}
use rt_5gc_service_consumers.Pcf.Client.Changes.{
  Changes, nothing-Changes, removed, nothing, Result, Dropped-Changes,
}
use rt_5gc_service_consumers.Pcf.Client.Handlers.{
  subscribe_handler-Result, update_handler-Result, create_handler-Result,
}

-- The app session, or one of its PCF session, has no id.
abbrev pub Unnamed : ℕ → PcfContext → Type 0
Unnamed a c =
    ((c.app_session a).pcf_app_session_id ≡ none)
    ⊎ ((b : ℕ) × (has b (c.pcf_app_sessions ((c.app_session a).pcf_session)) ≡ true)
        × ((c.app_session b).pcf_app_session_id ≡ none))

-- The app session, or one that the context lists, with its id.
abbrev pub SameId : ℕ → ℕ → PcfContext → Type 0
SameId a b c =
    (app_session_exists b c ≡ true)
    × ((c.app_session b).pcf_app_session_id ≡ (c.app_session a).pcf_app_session_id)

abbrev Deletion : ℕ → PcfContext → Run PcfContext → Type 0
Deletion a c r =
    ((r ≡ fault) × Unnamed a c)
    ⊎ ((b : ℕ) × (d : PcfContext) × (r ≡ ok d) × SameId a b c × Changes b c d)

-- An app session that the context lists.
module _ (a : ℕ) (c : PcfContext) (v : IsValid c) (e : app_session_exists a c ≡ true) where
  abbrev owner : ℕ
  owner = (c.app_session a).pcf_session

  -- Those in the list of its PCF session are listed, too, and belong to it.
  listed :
      (b : ℕ)
      → has b (c.pcf_app_sessions owner) ≡ true
      → (app_session_exists b c ≡ true)
        × ((c.app_session b).pcf_session ≡ owner)
        × (c.live b ≡ true)
  unfolding app_session_exists
  listed b m =
      let (o, n, alive) = exists-owner a c v e in
      let (live, p) = v.owned owner b o m in
      (has-listed_in c.pcf_app_sessions c.pcf_sessions owner b o m, p, live)

  search : Found ((c.app_session a).pcf_app_session_id) (c.pcf_app_sessions owner) c
  search =
      find_by_id-Found ((c.app_session a).pcf_app_session_id) (c.pcf_app_sessions owner) c
        (λ b m. (listed b m).2)

  delete_handler-Deletion : Deletion a c (delete_handler a c)
  unfolding delete_handler active_sessions_exists deref_session
  delete_handler-Deletion =
      let (o, n, alive) = exists-owner a c v e in
      elim search [
        | inl (r, u) ↦ inl (rw alive (rw r refl), u)
        | inr (inl r) ↦ inr (a, c, rw alive (rw r refl), (e, refl), nothing-Changes a c v e)
        | inr (inr (b, r, m, same)) ↦
            let (there, p, live) = listed b m in
            let (d, f, w, k) = app_sess_remove-unlink b c v there in
            inr (
              b,
              d,
              rw alive (rw r (subst (λ q. app_sess_remove b (unlink q b c) ≡ ok d) p f)),
              (there, same),
              Dropped-Changes b c v there d w k,
            )
      ]

-- What the answer asks for is a deletion.
abbrev pub IsDeletion : RequestState → Option SbiMessage → Type 0
IsDeletion state message =
    (state ≡ ogs_ok) × (m : SbiMessage) × (message ≡ some m) × (m.component2 ≡ some delete)

module _ (parse_header : Str → Option (Option Str)) (from_string : Str → ℕ) where
  module _ (a : ℕ) (c : PcfContext) (v : IsValid c) (e : app_session_exists a c ≡ true) where
    abbrev Answered : Option SubResource → Run PcfContext → Type 0
    Answered sub r = ((sub ≡ some delete) × Deletion a c r) ⊎ Result a c v e r

    by_method-Answered :
        (sub : Option SubResource) (method : Method) (m : SbiMessage)
        → Answered sub (by_method parse_header from_string method a m c)
    unfolding by_method
    by_method-Answered sub post m = elim (Bool-cases (m.res_status == 201)) [
      | inl h ↦ inr (rw h (create_handler-Result parse_header from_string a c v e m))
      | inr h ↦ inr (rw h (removed a c v e))
    ]
    by_method-Answered sub patch m = inr (nothing a c v e)
    by_method-Answered sub other_method m = inr (nothing a c v e)

    by_sub_resource-Answered :
        (sub : Option SubResource) (method : Method) (m : SbiMessage)
        → Answered sub (by_sub_resource parse_header from_string sub method a m c)
    unfolding by_sub_resource
    by_sub_resource-Answered (some events_subscription) method m =
        inr (subscribe_handler-Result a c v e m)
    by_sub_resource-Answered (some delete) method m = inl (refl, delete_handler-Deletion a c v e)
    by_sub_resource-Answered (some other_sub_resource) method m = inr (nothing a c v e)
    by_sub_resource-Answered none patch m = elim (Bool-cases (m.res_status == 200)) [
      | inl h ↦ inr (rw h (update_handler-Result a c v e m))
      | inr h ↦ inr (rw h (nothing a c v e))
    ]
    by_sub_resource-Answered none post m = inr (nothing a c v e)
    by_sub_resource-Answered none other_method m = inr (nothing a c v e)

    by_resource-Answered :
        (service : Service) (resource : Resource) (id : Option Str) (m : SbiMessage)
        → Answered m.component2 (by_resource parse_header from_string service resource id a m c)
    unfolding by_resource
    by_resource-Answered other_service resource id m = inr (nothing a c v e)
    by_resource-Answered policyauthorization other_resource id m = inr (nothing a c v e)
    by_resource-Answered policyauthorization app_sessions none m =
        by_method-Answered m.component2 m.method m
    by_resource-Answered policyauthorization app_sessions (some id) m =
        by_sub_resource-Answered m.component2 m.method m

    by_state-Answered :
        (state : RequestState) (message : Option SbiMessage)
        → (IsDeletion state message
            × Deletion a c (by_state parse_header from_string state message a c))
          ⊎ Result a c v e (by_state parse_header from_string state message a c)
    unfolding by_state
    by_state-Answered ogs_ok none = inr (nothing a c v e)
    by_state-Answered ogs_ok (some m) =
        elim (by_resource-Answered m.service m.resource m.component1 m) [
          | inl (h, d) ↦ inl ((refl, m, refl, h), d)
          | inr r ↦ inr r
        ]
    by_state-Answered ogs_done message = inr (removed a c v e)
    by_state-Answered ogs_timeup message = inr (nothing a c v e)
    by_state-Answered ogs_other message = inr (removed a c v e)

  -- An event of the PCF client in a valid context. It is left alone, and nothing changes, if its app
  -- session is not listed. Otherwise either it answers a deletion and NULL is read as an id, of its
  -- app session or of one of the same PCF session; or it is taken and one app session goes a step of
  -- its life, its own or, on a deletion, one with the same id, while all others and the validity of
  -- the context are kept.
  pub process_client-Changes :
      (e : ClientEvent) (c : PcfContext)
      → IsValid c
      → ((app_session_exists e.app_session c ≡ false)
          × (process_client parse_header from_string e c ≡ ok (c, false)))
        ⊎ (((process_client parse_header from_string e c ≡ fault)
              × IsDeletion e.state e.message
              × Unnamed e.app_session c)
            ⊎ ((b : ℕ) × (d : PcfContext) × (process_client parse_header from_string e c
                  ≡ ok (d, true))
                × ((b ≡ e.app_session) ⊎ (IsDeletion e.state e.message × SameId e.app_session b c))
                × (app_session_exists b c ≡ true)
                × Changes b c d))
  unfolding process_client
  process_client-Changes e c v = elim (Bool-cases (app_session_exists e.app_session c)) [
    | inr h ↦ inl (h, rw h refl)
    | inl h ↦ inr (elim (by_state-Answered e.app_session c v h e.state e.message) [
      | inl (i, inl (r, u)) ↦ inl (rw h (rw r refl), i, u)
      | inl (i, inr (b, d, r, s, w)) ↦ inr (b, d, rw h (rw r refl), inr (i, s), s.0, w)
      | inr (d, r, w) ↦ inr (e.app_session, d, rw h (rw r refl), inl refl, h, w)
    ])
  ]
