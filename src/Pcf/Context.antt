-- ===== src/Pcf/Context.antt =====
-- The context of lib/pcf-service-consumer and its app sessions: context.c, pcf-client.c,
-- pcf-client-sess.c and pcf-service-consumer.c. PCF sessions and app sessions are addresses; `live`
-- says which addresses are app sessions, and to read another is a fault. Callbacks of the
-- application leave the library alone while they run. Copies of OpenAPI objects are equal to them.
pub mod Listed
pub mod Search
pub mod Dropped
pub mod Freed
use rt_5gc_service_consumers.Common.{
  ℕ, ◌+◌, Bool, true, false, ◌||◌, List, [], ◌∷◌, ◌++◌, Option, none, some, Str, ◌==◌,
  if◌then◌else◌, Run, ok, fault, ◌>>=◌, has, remove, str_eq,
}
use rt_5gc_service_consumers.Pcf.Notifications.{EventNotification}

-- What the handlers read of an OpenAPI_app_session_context_t.
pub record RequestData : Type 0 where
  pub supp_feat : Option Str

pub record SessionContext : Type 0 where
  pub asc_req_data : Option RequestData

-- `OpenAPI_app_session_context_update_data_patch_t`, with the text of its data
pub record UpdatePatch : Type 0 where
  pub asc_req_data : Option Str

-- `pcf_app_session_t`
pub record AppSession : Type 0 where
  pub policyauthorization_features : ℕ
  pub pcf_app_session_id : Option Str
  pub pcf_session : ℕ
  pub context_received : Option SessionContext
  pub updates_received : Option UpdatePatch
  pub change_callback : Option ℕ
  pub change_user_data : Option ℕ
  pub pcf_event_notifications : List EventNotification

-- A call of a change callback: the session is NULL on an error or a deletion.
pub record ChangeCall : Type 0 where
  pub function : ℕ
  pub session : Option ℕ
  pub user_data : Option ℕ

pub record PcfContext : Type 0 where
  pub pcf_sessions : List ℕ
  pub pcf_app_sessions : ℕ → List ℕ
  pub notif_server : ℕ → Option ℕ
  pub live : ℕ → Bool
  pub app_session : ℕ → AppSession
  pub calls : List ChangeCall

abbrev pub set {ℓ} : {A : Type ℓ} → ℕ → A → (ℕ → A) → ℕ → A
set a v f b = if b == a then v else f b

unfoldable pub deref_session : ℕ → PcfContext → Run AppSession
deref_session a c = if c.live a then ok (c.app_session a) else fault

abbrev pub store_session : ℕ → AppSession → PcfContext → PcfContext
store_session a s c = record c { app_session = set a s c.app_session }

-- `_pcf_app_session_exists`
abbrev pub listed_in : (ℕ → List ℕ) → List ℕ → ℕ → Bool
listed_in apps [] a = false
listed_in apps (p ∷ l) a = has a (apps p) || listed_in apps l a

unfoldable pub app_session_exists : ℕ → PcfContext → Bool
app_session_exists a c = listed_in c.pcf_app_sessions c.pcf_sessions a

abbrev pub call_of : Option ℕ → Option ℕ → Option ℕ → List ChangeCall
call_of none session user_data = []
call_of (some f) session user_data =
    record { function = f; session = session; user_data = user_data } ∷ []

abbrev pub change_call : AppSession → Option ℕ → List ChangeCall
change_call s session = call_of s.change_callback session s.change_user_data

unfoldable pub change_callback_call : ℕ → Bool → PcfContext → Run PcfContext
unfolding deref_session
change_callback_call a delete_or_error c = do
  s ← deref_session a c
  ok (record c { calls = c.calls ++ change_call s (if delete_or_error then none else some a) })

-- `ogs_list_remove(&app_session->pcf_session->pcf_app_sessions, app_session)`
abbrev pub unlink : ℕ → ℕ → PcfContext → PcfContext
unlink p a c = record c {
  pcf_app_sessions = set p (remove a (c.pcf_app_sessions p)) c.pcf_app_sessions;
}

-- The node is unlinked, and all that it owns is freed with it.
unfoldable pub app_session_free : ℕ → PcfContext → Run PcfContext
unfolding deref_session
app_session_free a c = do
  s ← deref_session a c
  let left = unlink s.pcf_session a c
  ok (record left { live = set a false left.live })

unfoldable pub app_sess_remove : ℕ → PcfContext → Run PcfContext
unfolding change_callback_call app_session_free
app_sess_remove a c = do told ← change_callback_call a true c; app_session_free a told

unfoldable pub remove_each : List ℕ → PcfContext → Run PcfContext
unfolding app_sess_remove
remove_each [] c = ok c
remove_each (a ∷ l) c = do removed ← app_sess_remove a c; remove_each l removed

unfoldable pub sess_remove_all : ℕ → PcfContext → Run PcfContext
unfolding remove_each
sess_remove_all p c = remove_each (c.pcf_app_sessions p) c

-- The memory of the PCF session itself is left out.
unfoldable pub pcf_session_free : ℕ → PcfContext → Run PcfContext
unfolding sess_remove_all
pcf_session_free p c = do
  emptied ← sess_remove_all p c
  ok (record emptied { pcf_sessions = remove p emptied.pcf_sessions })

unfoldable pub session_remove_each : List ℕ → PcfContext → Run PcfContext
unfolding pcf_session_free
session_remove_each [] c = ok c
session_remove_each (p ∷ l) c = do freed ← pcf_session_free p c; session_remove_each l freed

unfoldable pub session_remove_all : PcfContext → Run PcfContext
unfolding session_remove_each
session_remove_all c = session_remove_each c.pcf_sessions c

-- `ogs_calloc` gives the address `fresh` to an app session.
unfoldable pub app_session_new :
    ℕ → ℕ → List EventNotification → Option ℕ → Option ℕ → PcfContext → PcfContext
app_session_new fresh p notifications change_callback change_user_data c =
    let s : AppSession = record {
      policyauthorization_features = 0;
      pcf_app_session_id = none;
      pcf_session = p;
      context_received = none;
      updates_received = none;
      change_callback = change_callback;
      change_user_data = change_user_data;
      pcf_event_notifications = notifications;
    } in
    record c {
      live = set fresh true c.live;
      app_session = set fresh s c.app_session;
      pcf_app_sessions = set p (c.pcf_app_sessions p ++ fresh ∷ []) c.pcf_app_sessions;
    }

-- The search of `pcf_policyauthorization_delete` and of `_pcf_client_context_active_sessions_exists`:
-- the first with the same id. `strcmp` of NULL is a fault.
unfoldable pub same_id : Option Str → Option Str → Run Bool
same_id none j = fault
same_id (some i) none = fault
same_id (some i) (some j) = ok (str_eq i j)

unfoldable pub find_by_id : Option Str → List ℕ → PcfContext → Run (Option ℕ)
unfolding deref_session same_id
find_by_id i [] c = ok none
find_by_id i (a ∷ l) c = do
  s ← deref_session a c
  found ← same_id i s.pcf_app_session_id
  let rest = find_by_id i l c
  if found then ok (some a) else rest

unfoldable pub active_sessions_exists : ℕ → PcfContext → Run (Option ℕ)
unfolding find_by_id deref_session
active_sessions_exists a c = do
  s ← deref_session a c
  find_by_id s.pcf_app_session_id (c.pcf_app_sessions s.pcf_session) c
