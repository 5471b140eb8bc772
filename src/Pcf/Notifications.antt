-- ===== src/Pcf/Notifications.antt =====
-- The notification callbacks of an app session: pcf-client.c of lib/pcf-service-consumer. A
-- function and a datum are addresses; a datum that is NULL is `none`. `answer` is what a callback
-- returns; it leaves the list of callbacks alone.
pub mod Table
use rt_5gc_service_consumers.Common.{
  ℕ, Bool, true, false, not, ◌&&◌, ◌||◌, List, [], ◌∷◌, ◌++◌, Option, none, some, ◌==◌,
  if◌then◌else◌, is_some,
}
use rt_5gc_service_consumers.Pcf.Events.{
  NpcfAfEvent, Mask, mask_without, any_below, width, intersects, events_notification_to_events_mask,
}

-- `pcf_event_notification_t`
pub record EventNotification : Type 0 where
  pub callback : ℕ
  pub events : Mask
  pub user_data : Option ℕ

-- Whether the call added the callback.
unfoldable pub add_event_notification :
    Mask → Option ℕ → Option ℕ → List EventNotification → List EventNotification × Bool
add_event_notification events_mask none user_data l = (l, false)
add_event_notification events_mask (some f) user_data l =
    (l ++ record { callback = f; events = events_mask; user_data = user_data } ∷ [], true)

abbrev pub same_data : Option ℕ → Option ℕ → Bool
same_data none none = true
same_data none (some b) = false
same_data (some a) none = false
same_data (some a) (some b) = a == b

-- Whether the removal is about this callback: NULL is about all.
unfoldable pub names_callback : Option ℕ → Option ℕ → ℕ → Option ℕ → Bool
names_callback none user_data f datum = true
names_callback (some g) user_data f datum =
    f == g && (not (is_some user_data) || same_data datum user_data)

unfoldable pub remove_event_notification :
    Mask → Option ℕ → Option ℕ → List EventNotification → List EventNotification
unfolding names_callback
remove_event_notification events_mask f user_data [] = []
remove_event_notification events_mask f user_data (node ∷ l) =
    let rest = remove_event_notification events_mask f user_data l in
    if names_callback f user_data node.callback node.user_data
    then (let events_left = mask_without node.events events_mask in
        if not (any_below width events_left)
        then rest
        else record node { events = events_left } ∷ rest)
    else node ∷ rest

-- The calls for a mask, each by its function and datum.
unfoldable pub called_for : Mask → List EventNotification → List (ℕ × Option ℕ)
called_for events_mask [] = []
called_for events_mask (node ∷ l) =
    let rest = called_for events_mask l in
    if intersects node.events events_mask then (node.callback, node.user_data) ∷ rest else rest

abbrev all_true : (ℕ → Option ℕ → Bool) → List (ℕ × Option ℕ) → Bool
all_true answer [] = true
all_true answer ((f, datum) ∷ l) = answer f datum && all_true answer l

-- The calls and the result. `events` are those of the notification, which may be NULL.
unfoldable pub notifications_callback_call :
    (ℕ → Option ℕ → Bool)
    → Option (List NpcfAfEvent)
    → List EventNotification
    → List (ℕ × Option ℕ) × Bool
unfolding called_for events_notification_to_events_mask
notifications_callback_call answer none l = ([], false)
notifications_callback_call answer (some events) l =
    let calls = called_for (events_notification_to_events_mask (some events)) l in
    (calls, all_true answer calls)
