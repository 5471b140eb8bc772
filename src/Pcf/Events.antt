-- ===== src/Pcf/Events.antt =====
-- The events of lib/pcf-service-consumer: pcf_app_session_event_type_t of pcf-service-consumer.h,
-- pcf-evsubsc.c and utils.c. A mask of events, an `int`, is the function that says which of its 32
-- bits are set. `other` stands for the values of the OpenAPI enumeration that the code does not name.
pub mod Masks
use native.Mathlib.Decide.{ℕ_discrete}
use mathlib.Core.Logic.{ite}
use rt_5gc_service_consumers.Common.{
  ℕ, zero, suc, Bool, true, false, not, ◌&&◌, ◌||◌, List, [], ◌∷◌, Option, none, some, ◌==◌,
  if◌then◌else◌,
}

pub data NpcfAfEvent : Type 0 where
  access_type_change ani_report app_detection charging_correlation up_path_chg_failure : NpcfAfEvent
  eps_fallback failed_qos_update failed_resources_allocation out_of_credit pdu_session_status :
      NpcfAfEvent
  plmn_chg qos_notif qos_monitoring ran_nas_cause reallocation_of_credit sat_category_chg :
      NpcfAfEvent
  successful_qos_update successful_resources_allocation tsn_bridge_info usage_report : NpcfAfEvent
  other : ℕ → NpcfAfEvent

unfoldable pub NpcfAfEvent-discrete : Discrete NpcfAfEvent
unfolding ℕ_discrete
NpcfAfEvent-discrete = hlevel ℕ_discrete

abbrev pub same_event : NpcfAfEvent → NpcfAfEvent → Bool
same_event a b = ite (NpcfAfEvent-discrete a b) true false

pub data AfNotifMethod : Type 0 where
  event_detection one_time periodic : AfNotifMethod

pub record AfEventSubscription : Type 0 where
  pub event : NpcfAfEvent
  pub notif_method : AfNotifMethod

abbrev pub Mask : Type 0
Mask = ℕ → Bool

abbrev pub none_set : Mask
none_set k = false

abbrev pub bit : ℕ → Mask
bit i k = k == i

abbrev pub mask_or : Mask → Mask → Mask
mask_or m n k = m k || n k

abbrev pub mask_without : Mask → Mask → Mask
mask_without m n k = m k && not (n k)

-- A bit below `width` is set.
unfoldable pub any_below : ℕ → Mask → Bool
any_below zero m = false
any_below (suc width) m = m width || any_below width m

abbrev pub width : ℕ
width = 32

-- `m & n`, as a truth value.
unfoldable pub intersects : Mask → Mask → Bool
unfolding any_below
intersects m n = any_below width (λ k. m k && n k)

unfoldable pub npcf_af_event_to_event_mask : NpcfAfEvent → Mask
npcf_af_event_to_event_mask access_type_change = bit 0
npcf_af_event_to_event_mask ani_report = bit 1
npcf_af_event_to_event_mask app_detection = bit 2
npcf_af_event_to_event_mask charging_correlation = bit 3
npcf_af_event_to_event_mask up_path_chg_failure = bit 4
npcf_af_event_to_event_mask eps_fallback = bit 5
npcf_af_event_to_event_mask failed_qos_update = bit 6
npcf_af_event_to_event_mask failed_resources_allocation = bit 7
npcf_af_event_to_event_mask out_of_credit = bit 8
npcf_af_event_to_event_mask pdu_session_status = bit 9
npcf_af_event_to_event_mask plmn_chg = bit 10
npcf_af_event_to_event_mask qos_notif = bit 11
npcf_af_event_to_event_mask qos_monitoring = bit 12
npcf_af_event_to_event_mask ran_nas_cause = bit 13
npcf_af_event_to_event_mask reallocation_of_credit = bit 14
npcf_af_event_to_event_mask sat_category_chg = bit 15
npcf_af_event_to_event_mask successful_qos_update = bit 16
npcf_af_event_to_event_mask successful_resources_allocation = bit 17
npcf_af_event_to_event_mask tsn_bridge_info = bit 18
npcf_af_event_to_event_mask usage_report = bit 19
npcf_af_event_to_event_mask (other n) = none_set

-- `events_map`: the bit and the event of each row.
abbrev pub events_map : List (ℕ × NpcfAfEvent)
events_map =
    (0, access_type_change)
    ∷ (1, ani_report)
    ∷ (2, app_detection)
    ∷ (3, charging_correlation)
    ∷ (5, eps_fallback)
    ∷ (6, failed_qos_update)
    ∷ (7, failed_resources_allocation)
    ∷ (8, out_of_credit)
    ∷ (9, pdu_session_status)
    ∷ (10, plmn_chg)
    ∷ (12, qos_monitoring)
    ∷ (11, qos_notif)
    ∷ (13, ran_nas_cause)
    ∷ (14, reallocation_of_credit)
    ∷ (15, sat_category_chg)
    ∷ (16, successful_qos_update)
    ∷ (17, successful_resources_allocation)
    ∷ (18, tsn_bridge_info)
    ∷ (4, up_path_chg_failure)
    ∷ (19, usage_report)
    ∷ []

-- One row after the other: an event where its bit is set.
unfoldable pub subscriptions_of : Mask → List (ℕ × NpcfAfEvent) → List AfEventSubscription
subscriptions_of events [] = []
subscriptions_of events ((i, e) ∷ rows) =
    let rest = subscriptions_of events rows in
    if events i then record { event = e; notif_method = event_detection } ∷ rest else rest

unfoldable pub events_subsc_create : Mask → List AfEventSubscription
unfolding subscriptions_of
events_subsc_create events = subscriptions_of events events_map

-- The inner loop: the bit of a row where one of the events is that of the row.
unfoldable pub row_events : ℕ → NpcfAfEvent → List AfEventSubscription → Mask → Mask
unfolding NpcfAfEvent-discrete
row_events i e [] events = events
row_events i e (x ∷ l) events =
    row_events i e l (if same_event x.event e then mask_or events (bit i) else events)

unfoldable pub rows_events : List (ℕ × NpcfAfEvent) → List AfEventSubscription → Mask → Mask
unfolding row_events
rows_events [] l events = events
rows_events ((i, e) ∷ rows) l events = rows_events rows l (row_events i e l events)

unfoldable pub pcf_app_session_evts : List AfEventSubscription → Mask
unfolding rows_events
pcf_app_session_evts l = rows_events events_map l none_set

abbrev pub masks_from : List NpcfAfEvent → Mask → Mask
masks_from [] events = events
masks_from (e ∷ l) events = masks_from l (mask_or events (npcf_af_event_to_event_mask e))

-- The events of a notification; NULL for no notification.
unfoldable pub events_notification_to_events_mask : Option (List NpcfAfEvent) → Mask
unfolding npcf_af_event_to_event_mask
events_notification_to_events_mask none = none_set
events_notification_to_events_mask (some l) = masks_from l none_set

abbrev pub subscribed : List AfEventSubscription → List NpcfAfEvent
subscribed [] = []
subscribed (x ∷ l) = x.event ∷ subscribed l

unfoldable pub events_subsc_req_data_to_events_mask : Option (List AfEventSubscription) → Mask
unfolding npcf_af_event_to_event_mask
events_subsc_req_data_to_events_mask none = none_set
events_subsc_req_data_to_events_mask (some l) = masks_from (subscribed l) none_set
