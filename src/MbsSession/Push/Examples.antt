-- ===== src/MbsSession/Push/Examples.antt =====
-- What a push sends, at concrete sessions.
use rt_5gc_service_consumers.Common.{
  ℕ, arith, true, false, [], ◌∷◌, none, some, Option, ◌≡◌, ◌↔◌, refl,
}
use rt_5gc_service_consumers.MbsSession.Push.{
  Session, subscriptions, mbs_session_push_changes, mbs_session_patch_response,
}
use rt_5gc_service_consumers.MbsSession.Push.Recreate.{creates, push_changes-creates}
use rt_5gc_service_consumers.MbsSession.Push.Settled.{push_changes-patch_response}
use rt_5gc_service_consumers.MbsSession.Public.Copied.{PartsEqual}
use rt_5gc_service_consumers.Samples.{Plmn, ops, ops-ComparesBytes, parts, session}

abbrev changed : Session Plmn parts
changed = record {
  session = session;
  previous_session = some (record session { termination_time = none });
  deleted = false;
}

abbrev unsent : Session Plmn parts
unsent = record { session = session; previous_session = none; deleted = false }

push_changes-creates_example : creates (mbs_session_push_changes ops parts unsent) ≡ true
push_changes-creates_example = push_changes-creates ops parts unsent

abbrev no_time : Option ℕ
no_time = none

push_changes-patch_response_example :
    (mbs_session_push_changes ops parts (mbs_session_patch_response ops parts 204 30 changed)
      ≡ subscriptions ∷ [])
    ↔ ((no_time ≡ some 100) × PartsEqual parts changed.previous_session session)
push_changes-patch_response_example =
    push_changes-patch_response ops parts ops-ComparesBytes 204 30 changed (omega arith)
      (omega arith) refl tt tt
