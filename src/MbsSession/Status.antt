-- ===== src/MbsSession/Status.antt =====
-- The fields of a status subscription, their setters, and its cached text
-- (mbs-status-subscription.c). The setters of a subscription that is NULL do nothing, so a
-- subscription is an object here. Flags are not negative.
pub mod Current
mod Examples
use rt_5gc_service_consumers.Common.{
  ℕ, ◌/◌, ◌%◌, Bool, true, false, List, [], ◌∷◌, ◌++◌, Option, none, some, Str, bytes, decimal,
  opt_str_eq, ◌==◌, if◌then◌else◌,
}

pub record Status : Type 0 where
  pub area_session_id : ℕ
  pub flags : ℕ
  pub correlation_id : Option Str
  pub expiry_time : ℕ
  pub callback : Option ℕ
  pub callback_data : ℕ
  pub id : Option Str
  pub changed : Bool
  pub repr_string : Option Str
  pub notif_url : Option Str

unfoldable pub status_subscription_new : ℕ → ℕ → Option Str → ℕ → Option ℕ → ℕ → Status
status_subscription_new area_session_id event_type_flags correlation_id expiry_time callback
      cb_data =
    record {
      area_session_id = area_session_id;
      flags = event_type_flags;
      correlation_id = correlation_id;
      expiry_time = expiry_time;
      callback = callback;
      callback_data = cb_data;
      id = none;
      changed = false;
      repr_string = none;
      notif_url = none;
    }

-- The end of the four setters: the cached text is freed and the change noted.
abbrev pub note_change : Status → Status
note_change t = record t { repr_string = none; changed = true }

unfoldable pub set_area_session_id : Status → ℕ → Status
set_area_session_id t n =
    if t.area_session_id == n then t else note_change (record t { area_session_id = n })

unfoldable pub set_event_type_flags : Status → ℕ → Status
set_event_type_flags t n = if t.flags == n then t else note_change (record t { flags = n })

unfoldable pub set_correlation_id : Status → Option Str → Status
set_correlation_id t c =
    if opt_str_eq t.correlation_id c then t else note_change (record t { correlation_id = c })

unfoldable pub set_expiry_time : Status → ℕ → Status
set_expiry_time t n = if n == t.expiry_time then t else note_change (record t { expiry_time = n })

unfoldable pub set_notification_callback : Status → Option ℕ → ℕ → Status
set_notification_callback t notify_cb cb_data = record t {
  callback = notify_cb;
  callback_data = cb_data;
}

-- The handler of a response to a creation sets the id alone.
unfoldable pub set_id : Status → Str → Status
set_id t i = record t { id = some i }

-- `sep` and the name, for a bit that is set.
flag_name : ℕ → ℕ → Str → Str → Str
flag_name flags bit sep name = if (flags / bit) % 2 == 1 then sep ++ name else []

-- The separator after a bit: `|` once a name has been written.
separator : ℕ → ℕ → Str → Str
separator flags bit sep = if (flags / bit) % 2 == 1 then bytes "|" else sep

flag_names : ℕ → Str
unfolding flag_name separator
flag_names flags =
    let sep₁ = separator flags 1 [] in
    let sep₂ = separator flags 2 sep₁ in
    flag_name flags 1 [] (bytes "MBS_REL_TMGI_EXPIRY")
    ++ (flag_name flags 2 sep₁ (bytes "BROADCAST_DELIVERY_STATUS")
        ++ flag_name flags 4 sep₂ (bytes "INGRESS_TUNNEL_ADD_CHANGE"))

-- What of the C library and of libogssbi goes into the text: `%s` of NULL, and the local time of
-- `ogs_sbi_localtime_string` for an expiry time.
pub record Printing : Type 0 where
  pub null : Str
  pub local_time : ℕ → Str

abbrev shown : Printing → Option Str → Str
shown p none = p.null
shown p (some s) = s

unfoldable pub status_text : Printing → Status → Str
unfolding flag_names
status_text p t =
    bytes "MBS Session Status Subscription(area_session_id="
    ++ (decimal t.area_session_id
        ++ (bytes ", event_type_flags="
            ++ (decimal t.flags
                ++ (bytes " ("
                    ++ (flag_names t.flags
                        ++ (bytes "), correlation_id="
                            ++ (shown p t.correlation_id
                                ++ (bytes ", expiry_time="
                                    ++ (p.local_time t.expiry_time
                                        ++ (bytes "): id="
                                            ++ (shown p t.id
                                                ++ (bytes ", url="
                                                    ++ shown p t.notif_url))))))))))))

unfoldable pub as_string : Printing → Status → Status × Str
unfolding status_text
as_string p t = elim t.repr_string [
  | some text ↦ (t, text)
  | none ↦ (record t { repr_string = some (status_text p t) }, status_text p t)
]
