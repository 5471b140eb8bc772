-- ===== src/Pcf/Client/Handlers.antt =====
-- What each handler of an answer of the PCF does to the app sessions.
use rt_5gc_service_consumers.Common.{
  ℕ, true, false, ◌&&◌, ◌||◌, Option, none, some, Str, ◌==◌, ok, is_some, ◌≡◌, refl, Bool-cases,
  Option-cases, inl, inr,
}
use rt_5gc_service_consumers.Pcf.Context.{
  SessionContext, AppSession, PcfContext, deref_session, store_session, app_session_exists,
}
use rt_5gc_service_consumers.Pcf.Context.Listed.{IsValid, store-IsValid}
use rt_5gc_service_consumers.Pcf.Client.{
  SbiMessage, update_handler, subscribe_handler, created, features_received, create_handler,
}
use rt_5gc_service_consumers.Pcf.Client.Changes.{
  Same, Changes, Same-refl, after_store-Changes, alive, store-Changes, informed-Changes,
  failed-Changes, nothing, callback-told, told_self, informed_self-Changes, Result,
}

module _ (a : ℕ) (c : PcfContext) (v : IsValid c) (e : app_session_exists a c ≡ true) where
  abbrev done : Result a c v e (ok c)
  done = nothing a c v e

  pub subscribe_handler-Result : (m : SbiMessage) → Result a c v e (subscribe_handler a m c)
  unfolding subscribe_handler
  subscribe_handler-Result m =
      let accepted =
        (m.res_status == 201 && m.content && is_some m.location)
        || (m.res_status == 200 && m.content)
        || m.res_status == 204 in
      elim (Bool-cases accepted) [
        | inl h ↦ rw h (_, told_self a c v e false, informed_self-Changes a c v e)
        | inr h ↦ rw h (_, told_self a c v e true, failed-Changes a c v e)
      ]

  pub update_handler-Result : (m : SbiMessage) → Result a c v e (update_handler a m c)
  unfolding update_handler deref_session
  update_handler-Result m = elim (Option-cases m.component1) [
    | inl f ↦ rw f done
    | inr (id, f) ↦ rw f (elim (Option-cases m.update_data_patch) [
      | inl g ↦ rw g done
      | inr (p, g) ↦
          let t : AppSession = record (c.app_session a) { updates_received = some p } in
          rw (g, alive a c v e)
            (elim (Bool-cases (is_some p.asc_req_data)) [
              | inl h ↦ rw h (
                _,
                callback-told a c v e t false,
                informed-Changes a c v e t (Same-refl (c.app_session a)),
              )
              | inr h ↦ rw h (_, refl, store-Changes a c v e t (Same-refl (c.app_session a)))
            ])
    ])
  ]

module _ (parse_header : Str → Option (Option Str)) (from_string : Str → ℕ) where
  module _ (a : ℕ) (c : PcfContext) (v : IsValid c) (e : app_session_exists a c ≡ true) where
    features_received-Result :
        (id : Str) (x : SessionContext)
        → Result a c v e (features_received parse_header from_string a id x c)
    unfolding features_received created deref_session
    features_received-Result id x = elim (Option-cases x.asc_req_data) [
      | inl f ↦ rw f (nothing a c v e)
      | inr (r, f) ↦ rw f (elim (Option-cases r.supp_feat) [
        | inl g ↦ rw g (nothing a c v e)
        | inr (feat, g) ↦
            let s = c.app_session a in
            let t : AppSession = created parse_header from_string id feat s in
            rw (g, alive a c v e)
              (_, callback-told a c v e t false, informed-Changes a c v e t (Same-refl s))
      ])
    ]

  module _ (a : ℕ) (c : PcfContext) (v : IsValid c) (e : app_session_exists a c ≡ true) where
    kept_listed : (t : AppSession) → app_session_exists a (store_session a t c) ≡ true
    unfolding app_session_exists
    kept_listed t = e

    pub create_handler-Result :
        (m : SbiMessage) → Result a c v e (create_handler parse_header from_string a m c)
    unfolding create_handler deref_session
    create_handler-Result m = elim (Option-cases m.location) [
      | inl f ↦ rw f (nothing a c v e)
      | inr (uri, f) ↦ rw f (elim (Option-cases (parse_header uri)) [
        | inl g ↦ rw (g, create_handler) (nothing a c v e)
        | inr (none, g) ↦ rw (g, create_handler) (nothing a c v e)
        | inr (some id, g) ↦
            rw (g, create_handler)
              (elim (Option-cases m.app_session_context) [
                | inl h ↦ rw (h, create_handler) (nothing a c v e)
                | inr (x, h) ↦
                    let t : AppSession = record (c.app_session a) { context_received = some x } in
                    let same : Same (c.app_session a) t = Same-refl (c.app_session a) in
                    rw (h, create_handler, alive a c v e) (learnt t same id x)
              ])
      ])
    ]
      where
        learnt :
            (t : AppSession)
            → Same (c.app_session a) t
            → (id : Str) (x : SessionContext)
            → (d : PcfContext) × (features_received parse_header from_string a id x
                  (store_session a t c)
                ≡ ok d)
              × Changes a c d
        learnt t s id x =
            let kept = store-IsValid a t c v s.0 in
            let (d, r, w) =
              features_received-Result a (store_session a t c) kept (kept_listed t) id x in
            (d, r, after_store-Changes a t c d e s w)
