-- ===== src/Pcf/Server/Answers.antt =====
-- How a request to a notification server is answered.
use rt_5gc_service_consumers.Common.{
  ℕ, Bool, true, false, List, [], ◌∷◌, Option, none, some, Str, ◌≡◌, ◌⊎◌, ◌↔◌, refl, sym, ap, ◌∙◌,
  arith, Bool-cases, Option-cases, inl, inr, subst,
}
use rt_5gc_service_consumers.Pcf.Events.{NpcfAfEvent, events_notification_to_events_mask}
use rt_5gc_service_consumers.Pcf.Notifications.{called_for, notifications_callback_call}
use rt_5gc_service_consumers.Pcf.Context.{PcfContext, app_session_exists}
use rt_5gc_service_consumers.Pcf.Client.{Service, policyauthorization, other_service}
use rt_5gc_service_consumers.Pcf.Server.{
  ObjectType, app_session_instance, other_type, PathOperation, notify, other_operation, PathHeader,
  Content, bad_json, not_notification, notification, ServerRequest, Served, error, own_server,
  by_content, by_operation, by_instance, by_type, by_service, by_header, process_server,
}

module _ (strtoull : Str → ℕ × Str) where
  -- The path names an instance by a number that is all of its component.
  abbrev pub Names : PathHeader → ℕ → Type 0
  Names h a =
      (h.service ≡ some policyauthorization)
      × (h.component0 ≡ some app_session_instance)
      × ((id : Str) × (h.component1 ≡ some id) × (strtoull id ≡ (a, [])))

  -- A notification of these events for a listed app session.
  abbrev pub Accepted : PathHeader → Content → PcfContext → ℕ → List NpcfAfEvent → Type 0
  Accepted h content c a events =
      Names h a
      × (app_session_exists a c ≡ true)
      × (h.component2 ≡ some notify)
      × (content ≡ notification events)

  -- One response: 204 to a notification for a listed app session, whose callbacks for its events are
  -- called; 404 where the instance that is named is not listed; else 400. In neither of these is a
  -- callback called.
  abbrev pub Answers : PathHeader → Content → PcfContext → Served → Type 0
  Answers h content c s =
      (s.taken ≡ true)
      × ((s.responses ≡ 204 ∷ []) ↔ (
          (a : ℕ) × (events : List NpcfAfEvent) × Accepted h content c a events
          × (s.calls
              ≡ called_for (events_notification_to_events_mask (some events))
                  (c.app_session a).pcf_event_notifications)))
      × ((s.responses ≡ 404 ∷ []) ↔ ((a : ℕ) × Names h a × (app_session_exists a c ≡ false)))
      × ((s.responses ≡ 204 ∷ [])
          ⊎ ((s.calls ≡ []) × ((s.responses ≡ 404 ∷ []) ⊎ (s.responses ≡ 400 ∷ []))))

  module _ (h : PathHeader) (content : Content) (c : PcfContext) where
    bad :
        ((a : ℕ) (events : List NpcfAfEvent) → ¬ Accepted h content c a events)
        → ((a : ℕ) → Names h a → ¬ (app_session_exists a c ≡ false))
        → Answers h content c (error 400)
    bad none_accepted none_unknown = (
      refl,
      (λ e. ground (arith, e), λ (a, events, acc, k). absurd (none_accepted a events acc)),
      (λ e. ground (arith, e), λ (a, n, u). absurd (none_unknown a n u)),
      inr (refl, inr refl),
    )

    unnamed : ((a : ℕ) → ¬ Names h a) → Answers h content c (error 400)
    unnamed none_named = bad (λ a events acc. none_named a acc.0) (λ a n u. none_named a n)

    module _ (a : ℕ) (id : Str) (named : h.component1 ≡ some id) (all : strtoull id ≡ (a, [])) where
      -- The instance that the path names is no other.
      only : (b : ℕ) → Names h b → b ≡ a
      only b (s, o, (j, k, l)) =
          let same : j ≡ id = cc in
          let pairs : ◌≡◌ {A = ℕ × Str} (b, []) (a, []) = sym l ∙ ap strtoull same ∙ all in
          ap (λ (p : ℕ × Str). p.0) pairs

      listed_only :
          app_session_exists a c ≡ true → (b : ℕ) → Names h b → ¬ (app_session_exists b c ≡ false)
      listed_only e b n u = cc (sym e ∙ ap (λ x. app_session_exists x c) (sym (only b n)) ∙ u)

      module _ (answer : ℕ → Option ℕ → Bool) (n : Names h a) where
        by_content-Answers :
            (content' : Content)
            → content ≡ content'
            → app_session_exists a c ≡ true
            → h.component2 ≡ some notify
            → Answers h content c (by_content answer content' a c)
        unfolding by_content notifications_callback_call
        by_content-Answers bad_json i e o = bad (λ b events acc. cc (acc.3)) (listed_only e)
        by_content-Answers not_notification i e o = bad (λ b events acc. cc (acc.3)) (listed_only e)
        by_content-Answers (notification events) i e o = (
          refl,
          (λ q. (a, events, (n, e, o, i), refl), λ q. refl),
          (λ q. ground (arith, q), λ (b, m, u). absurd (listed_only e b m u)),
          inl refl,
        )

        by_operation-Answers :
            (operation : Option PathOperation)
            → h.component2 ≡ operation
            → app_session_exists a c ≡ true
            → Answers h content c (by_operation answer operation content a c)
        unfolding by_operation
        by_operation-Answers none o e = bad (λ b events acc. cc (acc.2)) (listed_only e)
        by_operation-Answers (some other_operation) o e =
            bad (λ b events acc. cc (acc.2)) (listed_only e)
        by_operation-Answers (some notify) o e = by_content-Answers content refl e o

        instance-Answers : Answers h content c (by_instance answer a [] h.component2 content c)
        unfolding by_instance
        instance-Answers = elim (Bool-cases (app_session_exists a c)) [
          | inl e ↦ rw e (by_operation-Answers h.component2 refl e)
          | inr e ↦ rw e (
            refl,
            (
              λ q. ground (arith, q),
              λ (b, events, (m, l, o, i), k).
                  cc (sym l ∙ ap (λ x. app_session_exists x c) (only b m) ∙ e),
            ),
            (λ q. (a, n, e), λ q. refl),
            inr (refl, inl refl),
          )
        ]

    module _ (answer : ℕ → Option ℕ → Bool) where
      by_number-Answers :
          (id : Str) (a : ℕ) (rest : Str)
          → h.service ≡ some policyauthorization
          → h.component0 ≡ some app_session_instance
          → h.component1 ≡ some id
          → strtoull id ≡ (a, rest)
          → Answers h content c (by_instance answer a rest h.component2 content c)
      unfolding by_instance
      by_number-Answers id a [] s o i l = instance-Answers a id i l answer (s, o, (id, i, l))
      by_number-Answers id a (d ∷ rest) s o i l = unnamed (λ b (s', o', (j, k, m)).
          let same : j ≡ id = cc in
          let pairs : ◌≡◌ {A = ℕ × Str} (b, []) (a, d ∷ rest) = sym m ∙ ap strtoull same ∙ l in
          cc (ap (λ (p : ℕ × Str). p.1) pairs))

      by_type-Answers :
          (t : Option ObjectType) (id : Option Str)
          → h.service ≡ some policyauthorization
          → h.component0 ≡ t
          → h.component1 ≡ id
          → Answers h content c (by_type answer strtoull t id h.component2 content c)
      unfolding by_type
      by_type-Answers none id s o i = unnamed (λ b n. cc (n.1))
      by_type-Answers (some other_type) id s o i = unnamed (λ b n. cc (n.1))
      by_type-Answers (some app_session_instance) none s o i = unnamed (λ b n. cc (n.2.1))
      by_type-Answers (some app_session_instance) (some id) s o i =
          by_number-Answers id (strtoull id).0 (strtoull id).1 s o i refl

      by_service-Answers :
          (service : Option Service)
          → h.service ≡ service
          → Answers h content c (by_service answer strtoull service h content c)
      unfolding by_service
      by_service-Answers none s = unnamed (λ b n. cc (n.0))
      by_service-Answers (some other_service) s = unnamed (λ b n. cc (n.0))
      by_service-Answers (some policyauthorization) s =
          by_type-Answers h.component0 h.component1 s refl refl

  -- A request on one of the own notification servers whose header can be parsed is taken and has one
  -- response: 204 exactly if it is a notification for a listed app session, whose callbacks for its
  -- events are then called; 404 exactly if the path names an instance that is not listed; else 400.
  -- With 400 and 404 no callback is called. Any other request is not taken and has no response.
  pub process_server-Answers :
      (answer : ℕ → Option ℕ → Bool) (r : ServerRequest) (c : PcfContext)
      → ((h : PathHeader) × (r.header ≡ some h)
          × (own_server c.notif_server c.pcf_sessions r.server ≡ true)
          × Answers h r.content c (process_server answer strtoull r c))
        ⊎ (((r.header ≡ none) ⊎ (own_server c.notif_server c.pcf_sessions r.server ≡ false))
            × (process_server answer strtoull r c
                ≡ record { taken = false; responses = []; calls = [] }))
  unfolding process_server by_header
  process_server-Answers answer r c =
      elim (Bool-cases (own_server c.notif_server c.pcf_sessions r.server)) [
        | inr f ↦ inr (inr f, rw f refl)
        | inl f ↦ elim (Option-cases r.header) [
          | inl g ↦ inr (inl g, rw f (rw g refl))
          | inr (h, g) ↦ inl (
            h,
            g,
            f,
            rw f (
                subst (λ q. Answers h r.content c (by_header answer strtoull q r.content c)) (sym g)
                  (by_service-Answers h r.content c answer h.service refl)),
          )
        ]
      ]
