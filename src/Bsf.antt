-- ===== src/Bsf.antt =====
-- lib/bsf-service-consumer: the retrieval of the PCF binding of a UE (pcf-bind.c), the cache of
-- bindings (pcf-bindings-cache.c), the sessions that wait for an answer (bsf-client-sess.c,
-- context.c) and the answers (nbsf-process.c). A binding is a type of the OpenAPI library, whose
-- copies are taken to be the same, that of NULL being NULL. A UE address is its bytes. A read of a
-- key that has been freed, of NULL as a function, and a failed assertion are a fault.
pub mod Counts
pub mod Steps
pub mod Once
mod Examples
use rt_5gc_service_consumers.Common.{
  ℕ, Bool, true, false, List, [], ◌∷◌, ◌++◌, map, Option, none, some, Str, str_eq, ◌==◌, ltb,
  if◌then◌else◌, Run, ok, fault, ◌>>=◌,
}

pub data Family : Type 0 where
  inet inet6 unknown : Family

-- The families for which the session gets a text of the address; another ends the program.
pub known_family : Family → Bool
known_family inet = true
known_family inet6 = true
known_family unknown = false

module _ (Binding : Type 0) where
  -- An entry of the table. The table keeps the hash of the key and the pointer to it, which is the
  -- address of the UE that the session `owner` holds; `key_freed` once the session has been freed.
  pub record Cached : Type 0 where
    pub key : Str
    pub owner : ℕ
    pub key_freed : Bool
    pub pcf_binding : Option Binding
    pub expires : ℕ

  -- `ogs_hash_set` of NULL for a key that has just been found.
  unfoldable pub cache_unset : List Cached → Str → List Cached
  cache_unset [] k = []
  cache_unset (e ∷ m) k = let rest = cache_unset m k in if str_eq k e.key then m else e ∷ rest

  -- An entry that is there is changed in its place and keeps its key.
  cache_change : List Cached → Str → Option Binding → ℕ → List Cached
  cache_change [] k b expires = []
  cache_change (e ∷ m) k b expires =
      let rest = cache_change m k b expires in
      if str_eq k e.key then record e { pcf_binding = b; expires = expires } ∷ m else e ∷ rest

  -- `_pcf_bindings_cache_log_debug` reads each key for its text, whatever the level of the log.
  unfoldable pub pcf_bindings_cache_log_debug : List Cached → Run (List Cached)
  pcf_bindings_cache_log_debug [] = ok []
  pcf_bindings_cache_log_debug (e ∷ m) =
      let rest = pcf_bindings_cache_log_debug m in
      if e.key_freed then fault else (rest >>= λ l. ok (e ∷ l))

  -- The session of a retrieval.
  pub record Sess : Type 0 where
    pub address : ℕ  -- of the object
    pub ue_address : Str
    pub callback : Option ℕ
    pub user_data : ℕ

  -- A call of the application's callback; no binding is NULL.
  pub record Called : Type 0 where
    pub function : ℕ
    pub binding : Option Binding
    pub data_of_user : ℕ

  -- A session is in the list from its creation until it is freed. `queries` are the sessions for
  -- which a query was sent.
  pub record Context : Type 0 where
    pub pcf_bindings_cache : List Cached
    pub active_sessions_list : List Sess
    pub calls : List Called
    pub queries : List ℕ

  unfoldable pub active_sessions_find : ℕ → List Sess → Option Sess
  active_sessions_find a [] = none
  active_sessions_find a (s ∷ l) = if s.address == a then some s else active_sessions_find a l

  unfoldable pub active_sessions_remove : ℕ → List Sess → List Sess
  active_sessions_remove a [] = []
  active_sessions_remove a (s ∷ l) =
      let rest = active_sessions_remove a l in if s.address == a then l else s ∷ rest

  -- `_bsf_client_sess_new` and its setters, the log of the context, and the query.
  pub new_session : ℕ → Family → Str → Option ℕ → ℕ → Context → Run Context
  unfolding known_family pcf_bindings_cache_log_debug
  new_session fresh family ue_address callback user_data c =
      let s : Sess = record {
        address = fresh;
        ue_address = ue_address;
        callback = callback;
        user_data = user_data;
      } in
      if known_family family
      then (pcf_bindings_cache_log_debug c.pcf_bindings_cache >>= λ m. ok (record c {
        active_sessions_list = c.active_sessions_list ++ s ∷ [];
        queries = c.queries ++ fresh ∷ [];
      }))
      else fault

  -- The callback as a function, which is called without a test for NULL.
  call_with_copy : Option ℕ → Binding → ℕ → Context → Run Context
  call_with_copy none b user_data c = fault
  call_with_copy (some f) b user_data c = ok (record c {
    calls = c.calls ++ record { function = f; binding = some b; data_of_user = user_data } ∷ [];
  })

  -- `_bsf_client_sess_retrieve_callback_call`: a callback that is NULL is not called.
  pub retrieve_callback_call : Option ℕ → Option Binding → ℕ → List Called
  retrieve_callback_call none binding user_data = []
  retrieve_callback_call (some f) binding user_data =
      record { function = f; binding = binding; data_of_user = user_data } ∷ []

  -- What `_bsf_client_sess_free` of the session does to a key that is its address of the UE.
  pub free_key : ℕ → Cached → Cached
  free_key a e = if e.owner == a then record e { key_freed = true } else e

  -- The callback of the session, and then its end.
  unfoldable pub finish : Sess → Option Binding → Context → Context
  unfolding active_sessions_remove retrieve_callback_call free_key
  finish s binding c = record c {
    active_sessions_list = active_sessions_remove s.address c.active_sessions_list;
    pcf_bindings_cache = map (free_key s.address) c.pcf_bindings_cache;
    calls = c.calls ++ retrieve_callback_call s.callback binding s.user_data;
  }

  -- The answer for the PCF bindings: its status, the time that `_response_to_expiry_time` finds for
  -- it, and what its body is parsed to: `none` if it cannot be, `some none` if it has no binding.
  pub record Answer : Type 0 where
    pub status : ℕ
    pub expires : ℕ
    pub parsed : Option (Option Binding)

  -- `_bsf_process_event` for the timer of the query.
  unfoldable pub process_client_wait : ℕ → Context → Context × Bool
  unfolding active_sessions_find finish
  process_client_wait sess c = elim (active_sessions_find sess c.active_sessions_list) [
    | none ↦ (c, false)
    | some s ↦ (finish s none c, true)
  ]

-- `hash` is the hash function of the tables of libogscore.
module _ (Binding : Type 0) (hash : Str → ℕ) where
  abbrev Table : Type 0
  Table = List (Cached Binding)

  -- `ogs_hash_get`: the key of an entry is read if its hash is that of the key that is searched.
  unfoldable pub cache_get : Table → Str → Run (Option (Cached Binding))
  cache_get [] k = ok none
  cache_get (e ∷ m) k =
      let rest = cache_get m k in
      if hash k == hash e.key
      then (if e.key_freed then fault else if str_eq k e.key then ok (some e) else rest)
      else rest

  -- The binding of an entry is NULL if the answer had none.
  unfoldable pub pcf_bindings_cache_find : ℕ → Table → Str → Run (Table × Option Binding)
  unfolding cache_get cache_unset
  pcf_bindings_cache_find now m k = do
    found ← cache_get m k
    elim found [
      | none ↦ ok (m, none)
      | some v ↦
          ok (if ltb v.expires now then (cache_unset Binding m k, none) else (m, v.pcf_binding))
    ]

  unfoldable pub pcf_bindings_cache_add : Table → Str → ℕ → Option Binding → ℕ → Run (Table)
  unfolding cache_get cache_change
  pcf_bindings_cache_add m k owner b expires = do
    found ← cache_get m k
    elim found [
      | some v ↦ ok (cache_change Binding m k b expires)
      | none ↦ ok (
          m
          ++ record {
            key = k;
            owner = owner;
            key_freed = false;
            pcf_binding = b;
            expires = expires;
          }
            ∷ [])
    ]

  -- `fresh` is what `ogs_calloc` gives for the session, if one is needed.
  unfoldable pub retrieve_pcf_binding_for_pdu_session :
      ℕ → ℕ → Family → Str → Option ℕ → ℕ → Context Binding → Run (Context Binding)
  unfolding pcf_bindings_cache_find new_session call_with_copy
  retrieve_pcf_binding_for_pdu_session now fresh family ue_address callback user_data c = do
    r ← pcf_bindings_cache_find now c.pcf_bindings_cache ue_address
    let c₁ = record c { pcf_bindings_cache = r.0 }
    elim r.1 [
      | some b ↦ call_with_copy Binding callback b user_data c₁
      | none ↦ new_session Binding fresh family ue_address callback user_data c₁
    ]

  -- The answer for the session `s`; one that cannot be parsed leaves the session as it is.
  answered : Sess Binding → Answer Binding → Context Binding → Run (Context Binding × Bool)
  unfolding finish pcf_bindings_cache_add
  answered s a c =
      if a.status == 200
      then elim a.parsed [
        | none ↦ ok (c, false)
        | some b ↦
            (pcf_bindings_cache_add c.pcf_bindings_cache s.ue_address s.address b a.expires >>= λ m.
            ok (finish Binding s b (record c { pcf_bindings_cache = m }), true))
      ]
      else ok (finish Binding s none c, true)

  -- `_bsf_process_event` for an answer to the query for the bindings, with the log of the context;
  -- whether the event was taken.
  unfoldable pub process_pcf_bindings :
      ℕ → Answer Binding → Context Binding → Run (Context Binding × Bool)
  unfolding active_sessions_find answered pcf_bindings_cache_log_debug
  process_pcf_bindings sess a c = elim (active_sessions_find Binding sess c.active_sessions_list) [
    | none ↦ ok (c, false)
    | some s ↦ (pcf_bindings_cache_log_debug Binding c.pcf_bindings_cache >>= λ m. answered s a c)
  ]
