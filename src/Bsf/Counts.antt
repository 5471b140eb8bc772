-- ===== src/Bsf/Counts.antt =====
-- Retrievals that were made, that wait and that were answered, over the events of the library, and
-- the keys of the cache that have been freed.
use rt_5gc_service_consumers.Common.{
  ℕ, ◌+◌, true, List, [], ◌∷◌, ◌++◌, map, Option, none, some, Str, ◌==◌, if◌then◌else◌, Run, ok,
  fault, ◌>>=◌, ◌≡◌, ◌≢◌, ◌⊎◌, refl, arith, Bool-cases, inl, inr,
}
use rt_5gc_service_consumers.Bsf.{
  Cached, Sess, Called, Context, Family, Answer, active_sessions_find, active_sessions_remove,
  cache_get, pcf_bindings_cache_find, pcf_bindings_cache_log_debug, new_session,
  retrieve_callback_call, free_key, retrieve_pcf_binding_for_pdu_session, finish,
  process_pcf_bindings, process_client_wait,
}

-- A retrieval counts for the user data if it has a callback.
abbrev pub counts : ℕ → Option ℕ → ℕ → ℕ
counts d none user_data = 0
counts d (some f) user_data = if d == user_data then 1 else 0

-- What happens to the library.
pub data Event (Binding : Type 0) : Type 0 where
  retrieve : ℕ → ℕ → Family → Str → Option ℕ → ℕ → Event Binding
  pcf_bindings : ℕ → Answer Binding → Event Binding
  client_wait : ℕ → Event Binding

-- How many retrievals with the user data were made.
abbrev pub asked : {Binding : Type 0} → ℕ → List (Event Binding) → ℕ
asked d [] = 0
asked d (retrieve now fresh family ue_address callback user_data ∷ es) =
    counts d callback user_data + asked d es
asked d (e ∷ es) = asked d es

pub asked-cons :
    {Binding : Type 0} (d : ℕ) (e : Event Binding) (es : List (Event Binding))
    → asked d (e ∷ es) ≡ asked d (e ∷ []) + asked d es
asked-cons d (retrieve now fresh family k callback user_data) es = omega arith
asked-cons d (pcf_bindings a x) es = omega arith
asked-cons d (client_wait a) es = omega arith

module _ {Binding : Type 0} where
  -- How many retrievals wait, and how many calls of a callback carried the user data.
  abbrev pub waiting : ℕ → List (Sess Binding) → ℕ
  waiting d [] = 0
  waiting d (s ∷ l) = counts d s.callback s.user_data + waiting d l

  abbrev pub called : ℕ → List (Called Binding) → ℕ
  called d [] = 0
  called d (s ∷ l) = (if d == s.data_of_user then 1 else 0) + called d l

  -- Those that wait and those that were answered.
  abbrev pub settled : ℕ → Context Binding → ℕ
  settled d c = called d c.calls + waiting d c.active_sessions_list

  waiting-append :
      (d : ℕ) (l k : List (Sess Binding)) → waiting d (l ++ k) ≡ waiting d l + waiting d k
  waiting-append d [] k = omega arith
  waiting-append d (s ∷ l) k = omega (arith, waiting-append d l k)

  called-append :
      (d : ℕ) (l k : List (Called Binding)) → called d (l ++ k) ≡ called d l + called d k
  called-append d [] k = omega arith
  called-append d (s ∷ l) k = omega (arith, called-append d l k)

  called-retrieve_callback_call :
      (d : ℕ) (callback : Option ℕ) (b : Option Binding) (user_data : ℕ)
      → called d (retrieve_callback_call Binding callback b user_data) ≡ counts d callback user_data
  unfolding retrieve_callback_call
  called-retrieve_callback_call d none b user_data = refl
  called-retrieve_callback_call d (some f) b user_data = omega arith

  pub find-address :
      (a : ℕ) (l : List (Sess Binding)) (s : Sess Binding)
      → active_sessions_find Binding a l ≡ some s
      → s.address ≡ a
  unfolding active_sessions_find
  find-address a [] s h = cc
  find-address a (x ∷ l) s h = ground (arith, find-address a l s)

  waiting-remove :
      (d a : ℕ) (l : List (Sess Binding)) (s : Sess Binding)
      → active_sessions_find Binding a l ≡ some s
      → waiting d (active_sessions_remove Binding a l) + counts d s.callback s.user_data
        ≡ waiting d l
  unfolding active_sessions_find active_sessions_remove
  waiting-remove d a [] s h = cc
  waiting-remove d a (x ∷ l) s h = elim (Bool-cases (x.address == a)) [
    | inl k ↦ let here : x ≡ s = ground (arith, k) in rw (k, here) (omega arith)
    | inr k ↦ rw k (omega (arith, waiting-remove d a l s (ground (arith, k))))
  ]

  -- The end of a session that waits settles it.
  pub settled-finish :
      (d a : ℕ) (s : Sess Binding) (b : Option Binding) (c : Context Binding)
      → active_sessions_find Binding a c.active_sessions_list ≡ some s
      → settled d (finish Binding s b c) ≡ settled d c
  unfolding finish
  settled-finish d a s b c h = rw (find-address a c.active_sessions_list s h) (
      omega (
        arith,
        waiting-remove d a c.active_sessions_list s h,
        called-append d c.calls (retrieve_callback_call Binding s.callback b s.user_data),
        called-retrieve_callback_call d s.callback b s.user_data,
      ))

  pub settled-new_session :
      (d fresh : ℕ) (family : Family) (k : Str) (callback : Option ℕ) (user_data : ℕ)
      (c v : Context Binding)
      → new_session Binding fresh family k callback user_data c ≡ ok v
      → settled d v ≡ settled d c + counts d callback user_data
  unfolding new_session
  settled-new_session d fresh family k callback user_data c v h = ground (
    arith,
    waiting-append d c.active_sessions_list (
        record { address = fresh; ue_address = k; callback = callback; user_data = user_data }
        ∷ []),
  )

  -- Each key of the cache has been freed.
  abbrev pub AllFreed : List (Cached Binding) → Type 0
  AllFreed [] = Unit {0}
  AllFreed (e ∷ m) = (e.key_freed ≡ true) × AllFreed m

  pub AllFreed-map :
      (a : ℕ) (m : List (Cached Binding)) → AllFreed m → AllFreed (map (free_key Binding a) m)
  unfolding free_key
  AllFreed-map a [] h = tt
  AllFreed-map a (e ∷ m) h = (ground arith, AllFreed-map a m h.1)

  pub log-AllFreed :
      (m : List (Cached Binding))
      → AllFreed m
      → m ≢ []
      → pcf_bindings_cache_log_debug Binding m ≡ fault
  unfolding pcf_bindings_cache_log_debug
  log-AllFreed [] h ne = absurd (ne refl)
  log-AllFreed (e ∷ m) h ne = ground arith

module _ {Binding : Type 0} (hash : Str → ℕ) where
  abbrev pub step : Event Binding → Context Binding → Run (Context Binding)
  step (retrieve now fresh family ue_address callback user_data) c =
      retrieve_pcf_binding_for_pdu_session Binding hash now fresh family ue_address callback
        user_data c
  step (pcf_bindings sess a) c = process_pcf_bindings Binding hash sess a c >>= λ r. ok r.0
  step (client_wait sess) c = ok (process_client_wait Binding sess c).0

  abbrev pub run : List (Event Binding) → Context Binding → Run (Context Binding)
  run [] c = ok c
  run (e ∷ es) c = step e c >>= run es

  -- In such a cache a search finds nothing, if it does not read a key.
  get-AllFreed :
      (m : List (Cached Binding)) (k : Str)
      → AllFreed m
      → (cache_get Binding hash m k ≡ fault) ⊎ (cache_get Binding hash m k ≡ ok none)
  unfolding cache_get
  get-AllFreed [] k h = inr refl
  get-AllFreed (e ∷ m) k h = ground (arith, get-AllFreed m k h.1)

  pub find-AllFreed :
      (now : ℕ) (m : List (Cached Binding)) (k : Str)
      → AllFreed m
      → (pcf_bindings_cache_find Binding hash now m k ≡ fault)
        ⊎ (pcf_bindings_cache_find Binding hash now m k ≡ ok (m, none))
  unfolding pcf_bindings_cache_find
  find-AllFreed now m k h = elim (get-AllFreed m k h) [
    | inl e ↦ inl (rw (e, pcf_bindings_cache_find))
    | inr e ↦ inr (rw (e, pcf_bindings_cache_find))
  ]
