-- ===== src/Pcf/Server.antt =====
-- The notifications of the PCF: the OGS_EVENT_SBI_SERVER branch of npcf-process.c, and the URL of
-- pcf-client.c that the PCF sends them to. `strtoull` gives the number and what follows it in the
-- text, and `pointer_text` is `%p`; both are libc's. What a switch on a text reads is a constructor.
pub mod Answers
use rt_5gc_service_consumers.Common.{
  ℕ, Bool, true, false, List, [], ◌∷◌, Option, none, some, Str, ◌==◌, if◌then◌else◌, ◌||◌,
}
use rt_5gc_service_consumers.Pcf.Events.{NpcfAfEvent}
use rt_5gc_service_consumers.Pcf.Notifications.{notifications_callback_call}
use rt_5gc_service_consumers.Pcf.Context.{AppSession, PcfContext, app_session_exists}
use rt_5gc_service_consumers.Pcf.Client.{Service, policyauthorization, other_service}

pub data ObjectType : Type 0 where
  app_session_instance other_type : ObjectType

pub data PathOperation : Type 0 where
  notify other_operation : PathOperation

pub record PathHeader : Type 0 where
  pub service : Option Service
  pub component0 : Option ObjectType
  pub component1 : Option Str
  pub component2 : Option PathOperation

pub data Content : Type 0 where
  bad_json not_notification : Content
  notification : List NpcfAfEvent → Content

-- `none`: the header cannot be parsed.
pub record ServerRequest : Type 0 where
  pub server : ℕ
  pub header : Option PathHeader
  pub content : Content

-- Whether the event is taken, the status of each response, and the calls of callbacks.
pub record Served : Type 0 where
  pub taken : Bool
  pub responses : List ℕ
  pub calls : List (ℕ × Option ℕ)

abbrev pub error : ℕ → Served
error status = record { taken = true; responses = status ∷ []; calls = [] }

-- `_pcf_session_has_notification_server`
abbrev pub has_notification_server : Option ℕ → ℕ → Bool
has_notification_server none server = false
has_notification_server (some s) server = s == server

abbrev pub own_server : (ℕ → Option ℕ) → List ℕ → ℕ → Bool
own_server servers [] server = false
own_server servers (p ∷ l) server =
    has_notification_server (servers p) server || own_server servers l server

module _ (answer : ℕ → Option ℕ → Bool) where
  unfoldable pub by_content : Content → ℕ → PcfContext → Served
  by_content bad_json a c = error 400
  by_content not_notification a c = error 400
  by_content (notification events) a c =
      let called =
        notifications_callback_call answer (some events)
          (c.app_session a).pcf_event_notifications in
      record { taken = true; responses = 204 ∷ []; calls = called.0 }

  unfoldable pub by_operation : Option PathOperation → Content → ℕ → PcfContext → Served
  by_operation none content a c = error 400
  by_operation (some other_operation) content a c = error 400
  by_operation (some notify) content a c = by_content content a c

  -- The text of component[1] with its number, which must be all of it.
  unfoldable pub by_instance : ℕ → Str → Option PathOperation → Content → PcfContext → Served
  by_instance a (d ∷ rest) operation content c = error 400
  by_instance a [] operation content c =
      if app_session_exists a c then by_operation operation content a c else error 404

  module _ (strtoull : Str → ℕ × Str) where
    unfoldable pub by_type :
        Option ObjectType → Option Str → Option PathOperation → Content → PcfContext → Served
    by_type none id operation content c = error 400
    by_type (some other_type) id operation content c = error 400
    by_type (some app_session_instance) none operation content c = error 400
    by_type (some app_session_instance) (some id) operation content c =
        by_instance (strtoull id).0 (strtoull id).1 operation content c

    unfoldable pub by_service : Option Service → PathHeader → Content → PcfContext → Served
    by_service none h content c = error 400
    by_service (some other_service) h content c = error 400
    by_service (some policyauthorization) h content c =
        by_type h.component0 h.component1 h.component2 content c

    unfoldable pub by_header : Option PathHeader → Content → PcfContext → Served
    by_header none content c = record { taken = false; responses = []; calls = [] }
    by_header (some h) content c = by_service h.service h content c

    unfoldable pub process_server : ServerRequest → PcfContext → Served
    process_server r c =
        if own_server c.notif_server c.pcf_sessions r.server
        then by_header r.header r.content c
        else record { taken = false; responses = []; calls = [] }

-- The path of the URL for the notifications of an app session.
unfoldable pub notif_header : (ℕ → Str) → ℕ → PathHeader
notif_header pointer_text a = record {
  service = some policyauthorization;
  component0 = some app_session_instance;
  component1 = some (pointer_text a);
  component2 = none;
}
