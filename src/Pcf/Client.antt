-- ===== src/Pcf/Client.antt =====
-- The answers of the PCF: pcf-handler.c and the OGS_EVENT_SBI_CLIENT branch of npcf-process.c. What
-- a switch on a text of the header reads is a constructor. `parse_header` gives component[1] of the
-- path of a URI, or `none` if the URI cannot be parsed; `from_string` is ogs_uint64_from_string.
pub mod Changes
pub mod Handlers
pub mod Life
use Prim.Native.Nat.{bit_and}
use rt_5gc_service_consumers.Common.{
  ℕ, Bool, true, false, List, [], ◌∷◌, Option, none, some, Str, ◌==◌, if◌then◌else◌, is_some, Run,
  ok, fault, ◌>>=◌, ◌&&◌, ◌||◌,
}
use rt_5gc_service_consumers.Pcf.Context.{
  SessionContext, UpdatePatch, AppSession, PcfContext, deref_session, store_session, unlink,
  app_session_exists, change_callback_call, app_sess_remove, active_sessions_exists,
}

pub data Service : Type 0 where
  policyauthorization other_service : Service

pub data Resource : Type 0 where
  app_sessions other_resource : Resource

pub data SubResource : Type 0 where
  events_subscription delete other_sub_resource : SubResource

pub data Method : Type 0 where
  patch post other_method : Method

-- `ogs_sbi_message_t`, as the handlers read it, with the content of the response.
pub record SbiMessage : Type 0 where
  pub service : Service
  pub resource : Resource
  pub component1 : Option Str
  pub component2 : Option SubResource
  pub method : Method
  pub res_status : ℕ
  pub location : Option Str
  pub content : Bool
  pub app_session_context : Option SessionContext
  pub update_data_patch : Option UpdatePatch

pub data RequestState : Type 0 where
  ogs_ok ogs_done ogs_timeup ogs_other : RequestState

-- The event: the state of the request, and the response with what it parses to.
pub record ClientEvent : Type 0 where
  pub app_session : ℕ
  pub state : RequestState
  pub message : Option SbiMessage

abbrev modify : ℕ → (AppSession → AppSession) → PcfContext → Run PcfContext
modify a f c = do s ← deref_session a c; ok (store_session a (f s) c)

unfoldable pub update_handler : ℕ → SbiMessage → PcfContext → Run PcfContext
unfolding deref_session change_callback_call
update_handler a m c = elim m.component1 [
  | none ↦ ok c
  | some id ↦ elim m.update_data_patch [
    | none ↦ ok c
    | some p ↦ do
      stored ← modify a (λ s. record s { updates_received = some p }) c
      if is_some p.asc_req_data then change_callback_call a false stored else ok stored
  ]
]

unfoldable pub subscribe_handler : ℕ → SbiMessage → PcfContext → Run PcfContext
unfolding change_callback_call
subscribe_handler a m c =
    if (m.res_status == 201 && m.content && is_some m.location)
      || (m.res_status == 200 && m.content)
      || m.res_status == 204
    then change_callback_call a false c
    else change_callback_call a true c

unfoldable pub delete_handler : ℕ → PcfContext → Run PcfContext
unfolding active_sessions_exists deref_session app_sess_remove
delete_handler a c = do
  found ← active_sessions_exists a c
  s ← deref_session a c
  elim found [ none ↦ ok c | some b ↦ app_sess_remove b (unlink s.pcf_session b c) ]

module _ (parse_header : Str → Option (Option Str)) (from_string : Str → ℕ) where
  -- The id and the features of a creation that is understood.
  unfoldable pub created : Str → Str → AppSession → AppSession
  created id feat s = record s {
    policyauthorization_features = bit_and s.policyauthorization_features (from_string feat);
    pcf_app_session_id = some id;
  }

  unfoldable pub features_received : ℕ → Str → SessionContext → PcfContext → Run PcfContext
  unfolding deref_session change_callback_call created
  features_received a id x c = elim x.asc_req_data [
    | none ↦ ok c
    | some d ↦ elim d.supp_feat [
      | none ↦ ok c
      | some feat ↦ do stored ← modify a (created id feat) c; change_callback_call a false stored
    ]
  ]

  unfoldable pub create_handler : ℕ → SbiMessage → PcfContext → Run PcfContext
  unfolding deref_session features_received
  create_handler a m c = elim m.location [
    | none ↦ ok c
    | some uri ↦ elim (parse_header uri) [
      | none ↦ ok c
      | some none ↦ ok c
      | some (some id) ↦ elim m.app_session_context [
        | none ↦ ok c
        | some x ↦ do
          stored ← modify a (λ s. record s { context_received = some x }) c
          features_received a id x stored
      ]
    ]
  ]

  -- URL: .../app-sessions
  unfoldable pub by_method : Method → ℕ → SbiMessage → PcfContext → Run PcfContext
  by_method post a m c = if m.res_status == 201 then create_handler a m c else app_sess_remove a c
  by_method patch a m c = ok c
  by_method other_method a m c = ok c

  -- URL: .../app-sessions/<id>, with a sub-resource or without
  unfoldable pub by_sub_resource :
      Option SubResource → Method → ℕ → SbiMessage → PcfContext → Run PcfContext
  by_sub_resource (some events_subscription) method a m c = subscribe_handler a m c
  by_sub_resource (some delete) method a m c = delete_handler a c
  by_sub_resource (some other_sub_resource) method a m c = ok c
  by_sub_resource none patch a m c = if m.res_status == 200 then update_handler a m c else ok c
  by_sub_resource none post a m c = ok c
  by_sub_resource none other_method a m c = ok c

  unfoldable pub by_resource :
      Service → Resource → Option Str → ℕ → SbiMessage → PcfContext → Run PcfContext
  by_resource other_service resource id a m c = ok c
  by_resource policyauthorization other_resource id a m c = ok c
  by_resource policyauthorization app_sessions none a m c = by_method m.method a m c
  by_resource policyauthorization app_sessions (some id) a m c =
      by_sub_resource m.component2 m.method a m c

  -- `none`: the response cannot be parsed.
  unfoldable pub by_state : RequestState → Option SbiMessage → ℕ → PcfContext → Run PcfContext
  by_state ogs_ok none a c = ok c
  by_state ogs_ok (some m) a c = by_resource m.service m.resource m.component1 a m c
  by_state ogs_done message a c = app_sess_remove a c
  by_state ogs_timeup message a c = ok c
  by_state ogs_other message a c = app_sess_remove a c

  -- The context, and whether the event is taken.
  unfoldable pub process_client : ClientEvent → PcfContext → Run (PcfContext × Bool)
  process_client e c =
      if app_session_exists e.app_session c
      then (do after ← by_state e.state e.message e.app_session c; ok (after, true))
      else ok (c, false)
