-- ===== src/MbsSession/Status/Examples.antt =====
-- The text of a status subscription before and after it has an id.
use rt_5gc_service_consumers.Common.{true, false, [], ◌∷◌, none, bytes, ◌≡◌, refl}
use rt_5gc_service_consumers.MbsSession.Status.{
  Status, status_subscription_new, set_id, Printing, status_text, as_string,
}
use rt_5gc_service_consumers.MbsSession.Status.Current.{
  expiry_time, set_field, IsCurrent, as_string-set_field,
}

abbrev printing : Printing
printing = record { null = bytes "(null)"; local_time = λ t. t ∷ [] }

abbrev made : Status
made = record {
  area_session_id = 1;
  flags = 5;
  correlation_id = none;
  expiry_time = 90;
  callback = none;
  callback_data = 0;
  id = none;
  changed = false;
  repr_string = none;
  notif_url = none;
}

made_new : status_subscription_new 1 5 none 90 none 0 ≡ made
unfolding status_subscription_new
made_new = refl

made-IsCurrent : IsCurrent printing made
made-IsCurrent text e = cc

as_string-set_field_example :
    ((as_string printing (set_field (expiry_time 91) made)).1
      ≡ status_text printing (set_field (expiry_time 91) made))
    × ((set_field (expiry_time 91) made).changed ≡ true)
as_string-set_field_example = as_string-set_field printing (expiry_time 91) made made-IsCurrent

-- The text is cached; an id that the MB-SMF gives later does not show.
stale :
    (as_string printing (set_id (as_string printing made).0 (97 ∷ []))).1
    ≡ (as_string printing made).1
unfolding as_string set_id
stale = refl
