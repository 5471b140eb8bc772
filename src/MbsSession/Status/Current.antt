-- ===== src/MbsSession/Status/Current.antt =====
-- The setters of a status subscription against its cached text and its mark of a change.
use rt_5gc_service_consumers.Common.{
  ℕ, Bool, false, not, ◌||◌, Option, some, Str, opt_str_eq, ◌==◌, ◌≡◌, refl, arith, Option-cases,
  inl, inr,
}
use rt_5gc_service_consumers.MbsSession.Status.{
  Status, set_area_session_id, set_event_type_flags, set_correlation_id, set_expiry_time,
  set_notification_callback, Printing, status_text, as_string,
}

pub data Setter : Type 0 where
  area_session_id event_type_flags expiry_time : ℕ → Setter
  correlation_id : Option Str → Setter
  notification_callback : Option ℕ → ℕ → Setter

abbrev pub set_field : Setter → Status → Status
set_field (area_session_id n) t = set_area_session_id t n
set_field (event_type_flags n) t = set_event_type_flags t n
set_field (expiry_time n) t = set_expiry_time t n
set_field (correlation_id c) t = set_correlation_id t c
set_field (notification_callback c d) t = set_notification_callback t c d

-- The value that is set is one that the MB-SMF is told, and is new.
abbrev pub differs : Setter → Status → Bool
differs (area_session_id n) t = not (t.area_session_id == n)
differs (event_type_flags n) t = not (t.flags == n)
differs (expiry_time n) t = not (t.expiry_time == n)
differs (correlation_id c) t = not (opt_str_eq t.correlation_id c)
differs (notification_callback c d) t = false

module _ (p : Printing) where
  -- The cache is empty or holds the text of the fields as they are now.
  abbrev pub IsCurrent : Status → Type 0
  IsCurrent t = (text : Str) → t.repr_string ≡ some text → text ≡ status_text p t

  set_field-IsCurrent : (f : Setter) (t : Status) → IsCurrent t → IsCurrent (set_field f t)
  unfolding set_area_session_id set_event_type_flags set_correlation_id set_expiry_time
      set_notification_callback status_text
  set_field-IsCurrent (area_session_id n) t h text e = ground (arith, h text)
  set_field-IsCurrent (event_type_flags n) t h text e = ground (arith, h text)
  set_field-IsCurrent (expiry_time n) t h text e = ground (arith, h text)
  set_field-IsCurrent (correlation_id c) t h text e = ground (arith, h text)
  set_field-IsCurrent (notification_callback c d) t h text e = h text e

  set_field-changed :
      (f : Setter) (t : Status) → (set_field f t).changed ≡ (differs f t || t.changed)
  unfolding set_area_session_id set_event_type_flags set_correlation_id set_expiry_time
      set_notification_callback
  set_field-changed (area_session_id n) t = ground arith
  set_field-changed (event_type_flags n) t = ground arith
  set_field-changed (expiry_time n) t = ground arith
  set_field-changed (correlation_id c) t = ground arith
  set_field-changed (notification_callback c d) t = refl

  as_string_lem : (t : Status) → IsCurrent t → (as_string p t).1 ≡ status_text p t
  unfolding as_string
  as_string_lem t h = elim (Option-cases t.repr_string) [
    | inl e ↦ ground (arith, e)
    | inr (own, e) ↦ ground (arith, e, h own)
  ]

  -- After any setter on a status subscription whose cached text is current, the text that is returned
  -- is that of the fields as they are then, and the subscription is marked as changed exactly when it
  -- was before or the setter gave another value to a field that the MB-SMF is told.
  pub as_string-set_field :
      (f : Setter) (t : Status)
      → IsCurrent t
      → ((as_string p (set_field f t)).1 ≡ status_text p (set_field f t))
        × ((set_field f t).changed ≡ (differs f t || t.changed))
  as_string-set_field f t h =
      (as_string_lem (set_field f t) (set_field-IsCurrent f t h), set_field-changed f t)
