-- ===== src/Pcf/Examples.antt =====
-- The theorems on the PCF client at concrete contexts and events.
use rt_5gc_service_consumers.Common.{
  ℕ, ◌&&◌, ◌||◌, true, false, List, [], ◌∷◌, ◌++◌, Option, none, some, bytes, Str, ok, fault, ◌≡◌,
  ◌↔◌, ◌⊎◌, str_eq, refl, ◌==◌, if◌then◌else◌, length, has, ltb, arith,
}
use rt_5gc_service_consumers.Pcf.Merge.{merge_event_subsc_to_app_session_context}
use rt_5gc_service_consumers.Pcf.Merge.Ends.{
  AllAlike, Ends, copies, merge_event_subsc_to_app_session_context-Ends_iff,
}
use rt_5gc_service_consumers.Pcf.Events.{
  access_type_change, AfEventSubscription, one_time, other, bit, mask_or,
  npcf_af_event_to_event_mask, events_subsc_create, pcf_app_session_evts,
  events_subsc_req_data_to_events_mask,
}
use rt_5gc_service_consumers.Pcf.Events.Masks.{
  pcf_app_session_evts-events_subsc_create,
  pcf_app_session_evts-events_subsc_req_data_to_events_mask,
}
use rt_5gc_service_consumers.Pcf.Notifications.{notifications_callback_call}
use rt_5gc_service_consumers.Pcf.Notifications.Table.{
  Change, add, remove as remove_callback, callbacks_after, table_changed,
  notifications_callback_call-table,
}
use rt_5gc_service_consumers.Pcf.Context.{
  AppSession, PcfContext, app_session_exists, pcf_session_free,
}
use rt_5gc_service_consumers.Pcf.Context.Listed.{IsValid, view}
use rt_5gc_service_consumers.Pcf.Context.Freed.{ends, pcf_session_free-Ended}
use rt_5gc_service_consumers.Pcf.Client.{
  SbiMessage, ClientEvent, policyauthorization, app_sessions, delete, post, ogs_ok, process_client,
}
use rt_5gc_service_consumers.Pcf.Client.Changes.{Changes}
use rt_5gc_service_consumers.Pcf.Client.Life.{Unnamed, SameId, IsDeletion, process_client-Changes}
use rt_5gc_service_consumers.Pcf.Server.{
  ServerRequest, PathHeader, app_session_instance, notify, by_content, by_operation, by_instance,
  by_type, by_service, by_header, notification, own_server, process_server,
}
use rt_5gc_service_consumers.Pcf.Server.Answers.{Answers, process_server-Answers}

-- Events and methods by a name of one byte.
abbrev name : ℕ → Str
name n = n ∷ []

abbrev method : ℕ → Str
method n = []

abbrev held : List ℕ
held = 1 ∷ 2 ∷ []

-- The session has the events 1 and 2, and 2 is subscribed once more.
merge_event_subsc_to_app_session_context-Ends_iff_example :
    (Ends name method held (2 ∷ []) ↔ ((held ≡ []) ⊎ AllAlike name method (2 ∷ [])))
    × ((merge_event_subsc_to_app_session_context name method 9 held (2 ∷ []) ≡ none)
        ⊎ (merge_event_subsc_to_app_session_context name method 9 held (2 ∷ [])
            ≡ some (
              held ++ copies name method (2 ∷ []) held,
              length (copies name method (2 ∷ []) held),
            )))
merge_event_subsc_to_app_session_context-Ends_iff_example =
    merge_event_subsc_to_app_session_context-Ends_iff name method held (2 ∷ []) 9

-- With 2 and 3 subscribed the merge has not ended after 20 rounds.
merge_goes_on : merge_event_subsc_to_app_session_context name method 20 (1 ∷ []) (2 ∷ 3 ∷ []) ≡ none
unfolding merge_event_subsc_to_app_session_context str_eq
merge_goes_on = refl

-- Function 5 is called for the events 0 and 1, and 6 for 0; then 5 is removed from event 0.
abbrev changes : List Change
changes =
    add (mask_or (bit 0) (bit 1)) (some 5) none
    ∷ add (bit 0) (some 6) none
    ∷ remove_callback (bit 0) (some 5) none
    ∷ []

bit_zero : npcf_af_event_to_event_mask access_type_change ≡ bit 0
unfolding npcf_af_event_to_event_mask
bit_zero = refl

notifications_callback_call-table_example :
    (notifications_callback_call
      (λ f d. true)
      (some (access_type_change ∷ []))
      (callbacks_after changes [])).0
    ≡ table_changed changes (λ j. []) 0
notifications_callback_call-table_example =
    notifications_callback_call-table changes (λ f d. true) access_type_change 0 bit_zero
      (omega arith)

pcf_app_session_evts-events_subsc_create_example :
    pcf_app_session_evts (events_subsc_create (bit 3)) 3 ≡ (bit 3 3 && ltb 3 20)
pcf_app_session_evts-events_subsc_create_example =
    pcf_app_session_evts-events_subsc_create (bit 3) 3

abbrev subscriptions : List AfEventSubscription
subscriptions =
    record { event = access_type_change; notif_method = one_time }
    ∷ record { event = other 7; notif_method = one_time }
    ∷ []

pcf_app_session_evts-events_subsc_req_data_to_events_mask_example :
    pcf_app_session_evts subscriptions 0
    ≡ events_subsc_req_data_to_events_mask (some subscriptions) 0
pcf_app_session_evts-events_subsc_req_data_to_events_mask_example =
    pcf_app_session_evts-events_subsc_req_data_to_events_mask subscriptions 0

abbrev sample_session : AppSession
sample_session = record {
  policyauthorization_features = 0;
  pcf_app_session_id = some (bytes "a1");
  pcf_session = 9;
  context_received = none;
  updates_received = none;
  change_callback = some 77;
  change_user_data = none;
  pcf_event_notifications = record { callback = 5; events = bit 0; user_data = none } ∷ [];
}

-- The PCF session 9 has the app sessions 1 and 2.
abbrev two_sessions : PcfContext
two_sessions = record {
  pcf_sessions = 9 ∷ [];
  pcf_app_sessions = λ p. if p == 9 then 1 ∷ 2 ∷ [] else [];
  notif_server = λ p. some 40;
  live = λ a. a == 1 || a == 2;
  app_session = λ a. sample_session;
  calls = [];
}

two_sessions-IsValid : IsValid two_sessions
two_sessions-IsValid = record {
  owned = λ p a m n. ground (arith, m, n);
  once = λ p m. ground (arith, m);
}

abbrev deletion : SbiMessage
deletion = record {
  service = policyauthorization;
  resource = app_sessions;
  component1 = some (bytes "a1");
  component2 = some delete;
  method = post;
  res_status = 204;
  location = none;
  content = false;
  app_session_context = none;
  update_data_patch = none;
}

abbrev deleted : ClientEvent
deleted = record { app_session = 1; state = ogs_ok; message = some deletion }

abbrev path_of : Str → Option (Option Str)
path_of uri = some (some uri)

process_client-Changes_example :
    ((app_session_exists 1 two_sessions ≡ false)
      × (process_client path_of length deleted two_sessions ≡ ok (two_sessions, false)))
    ⊎ (((process_client path_of length deleted two_sessions ≡ fault)
          × IsDeletion ogs_ok (some deletion)
          × Unnamed 1 two_sessions)
        ⊎ ((b : ℕ) × (d : PcfContext) × (process_client path_of length deleted two_sessions
              ≡ ok (d, true))
            × ((b ≡ 1) ⊎ (IsDeletion ogs_ok (some deletion) × SameId 1 b two_sessions))
            × (app_session_exists b two_sessions ≡ true)
            × Changes b two_sessions d))
process_client-Changes_example =
    process_client-Changes path_of length deleted two_sessions two_sessions-IsValid

pcf_session_free-Ended_example :
    (d : PcfContext) × (pcf_session_free 9 two_sessions ≡ ok d)
    × IsValid d
    × (d.pcf_sessions ≡ [])
    × ((b : ℕ) → view d b ≡ (if has b (1 ∷ 2 ∷ []) then none else view two_sessions b))
    × (d.calls ≡ ends two_sessions.app_session (1 ∷ 2 ∷ []))
pcf_session_free-Ended_example = pcf_session_free-Ended 9 two_sessions two_sessions-IsValid refl

abbrev number : Str → ℕ × Str
number s = (length s, [])

abbrev sample_header : PathHeader
sample_header = record {
  service = some policyauthorization;
  component0 = some app_session_instance;
  component1 = some (bytes "x");
  component2 = some notify;
}

abbrev sample_request : ServerRequest
sample_request = record {
  server = 40;
  header = some sample_header;
  content = notification (access_type_change ∷ []);
}

process_server-Answers_example :
    ((h : PathHeader) × (some sample_header ≡ some h)
      × (own_server two_sessions.notif_server (9 ∷ []) 40 ≡ true)
      × Answers number h
          (notification (access_type_change ∷ []))
          two_sessions
          (process_server (λ f d. true) number sample_request two_sessions))
    ⊎ (((some sample_header ≡ none) ⊎ (own_server two_sessions.notif_server (9 ∷ []) 40 ≡ false))
        × (process_server (λ f d. true) number sample_request two_sessions
            ≡ record { taken = false; responses = []; calls = [] }))
process_server-Answers_example =
    process_server-Answers number (λ f d. true) sample_request two_sessions

sample_request_answered :
    (process_server (λ f d. true) number sample_request two_sessions).responses ≡ 204 ∷ []
unfolding process_server by_header by_service by_type by_instance by_operation by_content
    app_session_exists
sample_request_answered = refl
