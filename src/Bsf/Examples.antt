-- ===== src/Bsf/Examples.antt =====
-- Retrievals of bindings that are numbers, with a hash function that sends all keys to one bucket.
use rt_5gc_service_consumers.Common.{true, ℕ, List, [], ◌∷◌, none, some, Str, ok, fault, ◌≡◌, refl}
use rt_5gc_service_consumers.Bsf.{
  Context, inet, inet6, retrieve_pcf_binding_for_pdu_session, process_pcf_bindings,
  process_client_wait,
}
use rt_5gc_service_consumers.Bsf.Counts.{Event, retrieve, pcf_bindings, client_wait, run}

abbrev idle : Context ℕ
idle = record { pcf_bindings_cache = []; active_sessions_list = []; calls = []; queries = [] }

abbrev one_bucket : Str → ℕ
one_bucket k = 0

-- Two retrievals, the timeout of the first and the binding for the second, then a third.
abbrev events : List (Event ℕ)
events =
    retrieve 10 100 inet (1 ∷ []) (some 3) 8
    ∷ retrieve 11 101 inet6 (2 ∷ []) (some 3) 9
    ∷ client_wait 100
    ∷ pcf_bindings 101 (record { status = 200; expires = 90; parsed = some (some 7) })
    ∷ []

abbrev third : Event ℕ
third = retrieve 13 102 inet (2 ∷ []) (some 4) 9

events-calls :
    run one_bucket events idle
    ≡ ok (record {
      pcf_bindings_cache =
          record { key = 2 ∷ []; owner = 101; key_freed = true; pcf_binding = some 7; expires = 90 }
          ∷ [];
      active_sessions_list = [];
      calls =
          record { function = 3; binding = none; data_of_user = 8 }
          ∷ record { function = 3; binding = some 7; data_of_user = 9 }
          ∷ [];
      queries = 100 ∷ 101 ∷ [];
    })
unfolding retrieve_pcf_binding_for_pdu_session process_pcf_bindings process_client_wait
events-calls = refl

third-fault :
    run one_bucket
      (retrieve 10 100 inet (2 ∷ []) (some 3) 8
        ∷ pcf_bindings 100 (record { status = 200; expires = 90; parsed = some (some 7) })
        ∷ third
        ∷ [])
      idle
    ≡ fault
unfolding retrieve_pcf_binding_for_pdu_session process_pcf_bindings
third-fault = refl
