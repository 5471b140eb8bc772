-- ===== src/Pcf/Merge.antt =====
-- merge_event_subsc_to_app_session_context of lib/pcf-service-consumer/pcf-client-sess.c: the
-- outer loop walks the list that its body appends to. The names of events and methods are those of
-- the OpenAPI types; a copy of a subscription is the same value.
pub mod Ends
use rt_5gc_service_consumers.Common.{
  ℕ, zero, suc, ◌+◌, Bool, not, ◌||◌, List, [], ◌∷◌, ◌++◌, Option, none, some, Str, str_eq,
  if◌then◌else◌, length,
}

module _ {AfEventSubscription : Type 0}
    (event_name notif_method_name : AfEventSubscription → Str) where
  -- The test of the inner loop.
  unfoldable pub events_differ : AfEventSubscription → AfEventSubscription → Bool
  events_differ event from_subsc =
      not (str_eq (event_name event) (event_name from_subsc))
      || not (str_eq (notif_method_name event) (notif_method_name from_subsc))

  -- What the inner loop adds to the list of the session for one of its events.
  unfoldable pub events_to_add :
      AfEventSubscription → List AfEventSubscription → List AfEventSubscription
  unfolding events_differ
  events_to_add event [] = []
  events_to_add event (from_subsc ∷ subsc) =
      if events_differ event from_subsc
      then from_subsc ∷ events_to_add event subsc
      else events_to_add event subsc

  -- The outer loop, at the node that `rest` starts with; `before` stands before it in the list.
  -- `none`: the fuel ran out.
  unfoldable pub merge_loop :
      ℕ
      → List AfEventSubscription
      → List AfEventSubscription
      → List AfEventSubscription
      → ℕ
      → Option (List AfEventSubscription × ℕ)
  unfolding events_to_add
  merge_loop zero subsc before rest merged = none
  merge_loop (suc fuel) subsc before [] merged = some (before, merged)
  merge_loop (suc fuel) subsc before (event ∷ rest) merged =
      let added = events_to_add event subsc in
      merge_loop fuel subsc (before ++ event ∷ []) (rest ++ added) (merged + length added)

  -- The list of events of the session, and the number of events added to it.
  unfoldable pub merge_event_subsc_to_app_session_context :
      ℕ
      → List AfEventSubscription
      → List AfEventSubscription
      → Option (List AfEventSubscription × ℕ)
  unfolding merge_loop
  merge_event_subsc_to_app_session_context fuel events subsc = merge_loop fuel subsc [] events 0
