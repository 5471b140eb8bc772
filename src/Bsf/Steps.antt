-- ===== src/Bsf/Steps.antt =====
-- What one event does to the library when all keys of the cache have been freed.
use rt_5gc_service_consumers.Common.{
  ℕ, ◌+◌, Bool, true, false, List, [], ◌∷◌, ◌++◌, map, Option, none, some, Str, ◌==◌, is_some, ok,
  fault, ◌≡◌, ◌≢◌, ◌⊎◌, refl, arith, Option-cases, Bool-cases, ==_self, inl, inr,
}
use rt_5gc_service_consumers.Bsf.{
  Cached, Sess, Context, Family, inet, inet6, unknown, Answer, new_session, known_family, finish,
  pcf_bindings_cache_find, pcf_bindings_cache_add, pcf_bindings_cache_log_debug, cache_get,
  retrieve_pcf_binding_for_pdu_session, active_sessions_find, process_pcf_bindings, answered,
  process_client_wait, free_key,
}
use rt_5gc_service_consumers.Bsf.Counts.{
  Event, retrieve, pcf_bindings, client_wait, step, asked, settled, settled-finish,
  settled-new_session, AllFreed, AllFreed-map, log-AllFreed, find-AllFreed,
}

known_of : (family : Family) → family ≢ unknown → known_family family ≡ true
unfolding known_family
known_of inet h = refl
known_of inet6 h = refl
known_of unknown h = absurd (h refl)

module _ {Binding : Type 0} where
  -- Each retrieval is for an IPv4 or an IPv6 address.
  abbrev pub IsIp : Event Binding → Type 0
  IsIp (retrieve now fresh family ue_address callback user_data) = family ≢ unknown
  IsIp (pcf_bindings sess a) = Unit {0}
  IsIp (client_wait sess) = Unit {0}

  abbrev pub AreIp : List (Event Binding) → Type 0
  AreIp [] = Unit {0}
  AreIp (e ∷ es) = IsIp e × AreIp es

  -- The event needs the cache: a retrieval, or an answer for a session that waits.
  abbrev pub needs_cache : Event Binding → Context Binding → Bool
  needs_cache (retrieve now fresh family ue_address callback user_data) c = true
  needs_cache (pcf_bindings sess a) c =
      is_some (active_sessions_find Binding sess c.active_sessions_list)
  needs_cache (client_wait sess) c = false

  nil-cases : (m : List (Cached Binding)) → (m ≡ []) ⊎ (m ≢ [])
  nil-cases [] = inl refl
  nil-cases (e ∷ m) = inr (λ h. cc)

  log-nil : (m : List (Cached Binding)) → m ≡ [] → pcf_bindings_cache_log_debug Binding m ≡ ok []
  unfolding pcf_bindings_cache_log_debug
  log-nil [] h = refl
  log-nil (e ∷ m) h = cc

  AllFreed-nil : (m : List (Cached Binding)) → m ≡ [] → AllFreed m
  AllFreed-nil [] h = tt
  AllFreed-nil (e ∷ m) h = cc

  new_session-log :
      (fresh : ℕ) (family : Family) (k : Str) (callback : Option ℕ) (user_data : ℕ)
      (c : Context Binding)
      → family ≢ unknown
      → AllFreed c.pcf_bindings_cache
      → ((v : Context Binding) × (new_session Binding fresh family k callback user_data c ≡ ok v)
          × AllFreed v.pcf_bindings_cache)
        ⊎ ((c.pcf_bindings_cache ≢ [])
            × (new_session Binding fresh family k callback user_data c ≡ fault))
  unfolding new_session
  new_session-log fresh family k callback user_data c h all =
      elim (nil-cases c.pcf_bindings_cache) [
        | inl e ↦ inl (
          record c {
            active_sessions_list =
                c.active_sessions_list
                ++ record {
                  address = fresh;
                  ue_address = k;
                  callback = callback;
                  user_data = user_data;
                }
                  ∷ [];
            queries = c.queries ++ fresh ∷ [];
          },
          rw (known_of family h, log-nil c.pcf_bindings_cache e) refl,
          AllFreed-nil c.pcf_bindings_cache e,
        )
        | inr ne ↦ inr (ne, rw (known_of family h, log-AllFreed c.pcf_bindings_cache all ne) refl)
      ]

module _ {Binding : Type 0} (hash : Str → ℕ) where
  -- What one event does, when all keys of the cache have been freed: it goes on, and for each user
  -- data the calls and the retrievals that wait grow by those made; or it needs the cache and fails.
  abbrev pub Goes : Event Binding → Context Binding → Context Binding → Type 0
  Goes e c v =
      (step hash e c ≡ ok v)
      × AllFreed v.pcf_bindings_cache
      × ((d : ℕ) → settled d v ≡ settled d c + asked d (e ∷ []))

  abbrev pub Fails : Event Binding → Context Binding → Type 0
  Fails e c = (c.pcf_bindings_cache ≢ []) × (needs_cache e c ≡ true) × (step hash e c ≡ fault)

  find-nil :
      (now : ℕ) (m : List (Cached Binding)) (k : Str)
      → m ≡ []
      → pcf_bindings_cache_find Binding hash now m k ≡ ok (m, none)
  unfolding pcf_bindings_cache_find cache_get
  find-nil now [] k h = refl
  find-nil now (e ∷ m) k h = cc

  retrieve-outcome :
      (now fresh : ℕ) (family : Family) (k : Str) (callback : Option ℕ) (user_data : ℕ)
      (c : Context Binding)
      → family ≢ unknown
      → AllFreed c.pcf_bindings_cache
      → ((v : Context Binding) × Goes (retrieve now fresh family k callback user_data) c v)
        ⊎ Fails (retrieve now fresh family k callback user_data) c
  unfolding retrieve_pcf_binding_for_pdu_session
  retrieve-outcome now fresh family k callback user_data c h all =
      elim (find-AllFreed hash now c.pcf_bindings_cache k all) [
        | inl e ↦ elim (nil-cases c.pcf_bindings_cache) [
          | inl n ↦ absurd (cc (find-nil now c.pcf_bindings_cache k n))
          | inr ne ↦ inr (ne, refl, rw e refl)
        ]
        | inr e ↦ elim (new_session-log fresh family k callback user_data c h all) [
          | inl (v, made, freed) ↦ inl (
            v,
            (
              rw e made,
              freed,
              λ d. omega (arith, settled-new_session d fresh family k callback user_data c v made),
            ),
          )
          | inr (ne, failed) ↦ inr (ne, refl, rw e failed)
        ]
      ]

  add-nil :
      (m : List (Cached Binding)) (s : Sess Binding) (b : Option Binding) (expires : ℕ)
      → m ≡ []
      → (n : List (Cached Binding)) × (pcf_bindings_cache_add Binding hash m s.ue_address s.address
            b expires
          ≡ ok n)
        × AllFreed (map (free_key Binding s.address) n)
  unfolding pcf_bindings_cache_add cache_get free_key
  add-nil [] s b expires h = (_, refl, ground (arith, ==_self s.address))
  add-nil (e ∷ m) s b expires h = cc

  finish-AllFreed :
      (s : Sess Binding) (b : Option Binding) (c : Context Binding)
      → AllFreed (map (free_key Binding s.address) c.pcf_bindings_cache)
      → AllFreed (finish Binding s b c).pcf_bindings_cache
  unfolding finish
  finish-AllFreed s b c h = h

  -- The answer for a session that waits, over an empty cache.
  answered-outcome :
      (sess : ℕ) (s : Sess Binding) (a : Answer Binding) (c : Context Binding)
      → active_sessions_find Binding sess c.active_sessions_list ≡ some s
      → c.pcf_bindings_cache ≡ []
      → AllFreed c.pcf_bindings_cache
      → (r : Context Binding × Bool) × (answered Binding hash s a c ≡ ok r)
        × AllFreed r.0.pcf_bindings_cache
        × ((d : ℕ) → settled d r.0 ≡ settled d c)
  unfolding answered
  answered-outcome sess s a c h e all = elim (Bool-cases (a.status == 200)) [
    | inr k ↦ (
      (finish Binding s none c, true),
      rw k refl,
      finish-AllFreed s none c (AllFreed-map s.address c.pcf_bindings_cache all),
      λ d. settled-finish d sess s none c h,
    )
    | inl k ↦ elim (Option-cases a.parsed) [
      | inl p ↦ ((c, false), rw (k, p, answered) refl, all, λ d. refl)
      | inr (b, p) ↦
          let (n, added, freed) = add-nil c.pcf_bindings_cache s b a.expires e in
          let c₁ = record c { pcf_bindings_cache = n } in
          (
            (finish Binding s b c₁, true),
            rw (k, p, answered) (rw added refl),
            finish-AllFreed s b c₁ freed,
            λ d. settled-finish d sess s b c₁ h,
          )
    ]
  ]

  process-outcome :
      (sess : ℕ) (a : Answer Binding) (c : Context Binding)
      → AllFreed c.pcf_bindings_cache
      → ((v : Context Binding) × Goes (pcf_bindings sess a) c v) ⊎ Fails (pcf_bindings sess a) c
  unfolding process_pcf_bindings
  process-outcome sess a c all =
      elim (Option-cases (active_sessions_find Binding sess c.active_sessions_list)) [
        | inl none_waits ↦
            inl (c, (rw (none_waits, process_pcf_bindings) refl, all, λ d. omega arith))
        | inr (s, found) ↦ elim (nil-cases c.pcf_bindings_cache) [
          | inr ne ↦ inr (
            ne,
            rw found refl,
            rw (found, process_pcf_bindings) (rw (log-AllFreed c.pcf_bindings_cache all ne) refl),
          )
          | inl e ↦
              let (r, done, freed, same) = answered-outcome sess s a c found e all in
              inl (
                r.0,
                (
                  rw (found, process_pcf_bindings) (rw (log-nil c.pcf_bindings_cache e, done) refl),
                  freed,
                  λ d. omega (arith, same d),
                ),
              )
        ]
      ]

  wait-outcome :
      (sess : ℕ) (c : Context Binding)
      → AllFreed c.pcf_bindings_cache
      → (v : Context Binding) × Goes (client_wait sess) c v
  unfolding process_client_wait
  wait-outcome sess c all =
      elim (Option-cases (active_sessions_find Binding sess c.active_sessions_list)) [
        | inl e ↦ (c, (rw (e, process_client_wait) refl, all, λ d. omega arith))
        | inr (s, e) ↦ (
          finish Binding s none c,
          (
            rw (e, process_client_wait) refl,
            finish-AllFreed s none c (AllFreed-map s.address c.pcf_bindings_cache all),
            λ d. omega (arith, settled-finish d sess s none c e),
          ),
        )
      ]

  pub step-outcome :
      (e : Event Binding) (c : Context Binding)
      → IsIp e
      → AllFreed c.pcf_bindings_cache
      → ((v : Context Binding) × Goes e c v) ⊎ Fails e c
  step-outcome (retrieve now fresh family k callback user_data) c h all =
      retrieve-outcome now fresh family k callback user_data c h all
  step-outcome (pcf_bindings sess a) c h all = process-outcome sess a c all
  step-outcome (client_wait sess) c h all = inl (wait-outcome sess c all)
