-- ===== src/TmgiTool.antt =====
-- tools/c/tmgi-tool: the state machine of app-sm.c and the loop of main.c that feeds it. `_exit` sets
-- the exit status, after which nothing runs. The local events have no other use than to be handled,
-- so freeing them is left out. A TMGI is named by its address.
pub mod Options
pub mod Config
pub mod Arguments
pub mod Accepted
pub mod Outcome
pub mod Runs
pub mod Batches
mod Examples
use rt_5gc_service_consumers.Common.{
  ℕ, zero, suc, Bool, true, false, List, [], ◌∷◌, ◌++◌, map, Option, none, some, Str, if◌then◌else◌,
  ◌≡◌,
}
use rt_5gc_service_consumers.Callback.{ResultCode, ogs_ok, ogs_error, ogs_done, ogs_etimedout}

pub data State : Type 0 where
  init create_tmgi delete_tmgi exit : State

pub data LocalId : Type 0 where
  event_tmgi_allocate event_tmgi_allocated event_tmgi_deallocate event_tmgi_deallocated : LocalId

-- What the tool prints of an `OpenAPI_problem_details_t`.
pub record Problem : Type 0 where
  pub cause : Option Str
  pub title : Str
  pub detail : Str
  pub invalid_params : Option (List (Str × Str))

-- `app_local_event_t`
pub record Local : Type 0 where
  pub id : LocalId
  pub tmgi : Option ℕ
  pub result : ResultCode
  pub problem_details : Option Problem

-- What stands in the event queue: an event of the tool, or one of the library by a number.
pub data Queued : Type 0 where
  app_local : Local → Queued
  library : ℕ → Queued

pub data FsmEvent : Type 0 where
  entry_sig exit_sig : FsmEvent
  queued : Queued → FsmEvent

-- The lines of the log.
pub data Said : Type 0 where
  requesting removing finished parameter_errors no_reason : Said
  created deleted : Option ℕ → Said
  caused_by : Str → Str → Str → Said
  failed parameter : Str → Str → Said
  unexpected : LocalId → Said

-- The requests that the library is asked to send.
pub data Asked : Type 0 where
  allocation : Asked
  deallocation : Option Str → ℕ → ℕ → Asked

pub record Tool : Type 0 where
  pub state : State
  pub queue : List Queued
  pub sent : List Asked
  pub said : List Said
  pub exit_status : Option ℕ

-- The call of a callback of the tool by the library.
pub data CallbackName : Type 0 where
  tmgi_allocate_cb tmgi_deallocate_cb : CallbackName

pub record CallbackCall : Type 0 where
  pub callback : CallbackName
  pub tmgi : Option ℕ
  pub result : ResultCode
  pub problem_details : Option Problem

-- The command line, as far as the state machine reads it: `plmn` holds the MCC and the MNC.
pub record Wanted : Type 0 where
  pub delete_tmgi : Bool
  pub mbs_service_id : Option Str
  pub plmn : Str × Str

unfoldable pub say : List Said → Tool → Tool
say lines w = record w { said = w.said ++ lines }

-- `ogs_queue_push` fails only when the queue has been terminated, which is on the way out.
unfoldable pub send_event : LocalId → Option ℕ → ResultCode → Option Problem → Tool → Tool
send_event id tmgi result problem_details w = record w {
  queue =
      w.queue
      ++ app_local
          (record { id = id; tmgi = tmgi; result = result; problem_details = problem_details })
        ∷ [];
}

-- app_tmgi_allocate_cb and app_tmgi_deallocate_cb
unfoldable pub result_id : CallbackName → LocalId
result_id tmgi_allocate_cb = event_tmgi_allocated
result_id tmgi_deallocate_cb = event_tmgi_deallocated

unfoldable pub call_back : CallbackCall → Tool → Tool
unfolding send_event result_id
call_back a w = send_event (result_id a.callback) a.tmgi a.result a.problem_details w

unfoldable pub call_each : List CallbackCall → Tool → Tool
unfolding call_back
call_each [] w = w
call_each (a ∷ more) w = call_each more (call_back a w)

unfoldable pub parameter_lines : Option (List (Str × Str)) → List Said
parameter_lines none = []
parameter_lines (some params) = parameter_errors ∷ map (λ p. parameter p.0 p.1) params

unfoldable pub problem_line : Problem → Option Str → Said
problem_line p none = failed p.title p.detail
problem_line p (some cause) = caused_by cause p.title p.detail

unfoldable pub failure : Option Problem → List Said
unfolding problem_line parameter_lines
failure none = no_reason ∷ []
failure (some p) = problem_line p p.cause ∷ parameter_lines p.invalid_params

unfoldable pub allocated_lines : Local → ResultCode → List Said
unfolding failure
allocated_lines l ogs_ok = created l.tmgi ∷ []
allocated_lines l _ = failure l.problem_details

unfoldable pub deallocated_lines : Local → ResultCode → List Said
unfolding failure
deallocated_lines l ogs_done = deleted l.tmgi ∷ []
deallocated_lines l _ = failure l.problem_details

-- OGS_FSM_TRAN
unfoldable pub transition : State → Tool → Tool
transition s w = record w { state = s }

-- `atoi` is the C library's; `calls x` are the callbacks that `mb_smf_sc_process_event` makes when
-- it handles the event `x` of the library. It handles no other events.
module _ (atoi : Str → ℕ) (calls : ℕ → List CallbackCall) (options : Wanted) where
  unfoldable pub app_tmgi_allocate : Tool → Tool
  app_tmgi_allocate w = record w { sent = w.sent ++ allocation ∷ [] }

  unfoldable pub app_tmgi_deallocate : Tool → Tool
  app_tmgi_deallocate w = record w {
    sent =
        w.sent
        ++ deallocation options.mbs_service_id (atoi options.plmn.0) (atoi options.plmn.1) ∷ [];
  }

  unfoldable pub state_init : FsmEvent → Tool → Tool
  unfolding transition
  state_init e w = transition (if options.delete_tmgi then delete_tmgi else create_tmgi) w

  unfoldable pub create_local : Local → LocalId → Tool → Tool
  unfolding app_tmgi_allocate transition say allocated_lines
  create_local l event_tmgi_allocate w = app_tmgi_allocate w
  create_local l event_tmgi_allocated w = transition exit (say (allocated_lines l l.result) w)
  create_local l other w = say (unexpected other ∷ []) w

  unfoldable pub state_create_tmgi : FsmEvent → Tool → Tool
  unfolding call_each create_local say send_event
  state_create_tmgi entry_sig w =
      send_event event_tmgi_allocate none ogs_ok none (say (requesting ∷ []) w)
  state_create_tmgi exit_sig w = w
  state_create_tmgi (queued (app_local l)) w = create_local l l.id w
  state_create_tmgi (queued (library x)) w = call_each (calls x) w

  unfoldable pub delete_local : Local → LocalId → Tool → Tool
  unfolding app_tmgi_deallocate transition say deallocated_lines
  delete_local l event_tmgi_deallocate w = app_tmgi_deallocate w
  delete_local l event_tmgi_deallocated w = transition exit (say (deallocated_lines l l.result) w)
  delete_local l other w = say (unexpected other ∷ []) w

  unfoldable pub state_delete_tmgi : FsmEvent → Tool → Tool
  unfolding call_each delete_local say send_event
  state_delete_tmgi entry_sig w =
      send_event event_tmgi_deallocate none ogs_ok none (say (removing ∷ []) w)
  state_delete_tmgi exit_sig w = w
  state_delete_tmgi (queued (app_local l)) w = delete_local l l.id w
  state_delete_tmgi (queued (library x)) w = call_each (calls x) w

  -- `_exit(1)`. The events of the library are left alone.
  unfoldable pub state_exit : FsmEvent → Tool → Tool
  unfolding say
  state_exit entry_sig w = record (say (finished ∷ []) w) { exit_status = some 1 }
  state_exit (queued (app_local l)) w = say (unexpected l.id ∷ []) w
  state_exit e w = w

  unfoldable pub handle : State → FsmEvent → Tool → Tool
  unfolding state_init state_create_tmgi state_delete_tmgi state_exit
  handle init = state_init
  handle create_tmgi = state_create_tmgi
  handle delete_tmgi = state_delete_tmgi
  handle exit = state_exit

abbrev pub same_state : State → State → Bool
same_state init init = true
same_state create_tmgi create_tmgi = true
same_state delete_tmgi delete_tmgi = true
same_state exit exit = true
same_state _ _ = false

-- The state machines of libogscore: `ogs_fsm_init` and `ogs_fsm_dispatch`.
pub record Fsm : Type 0 where
  pub fsm_init : (State → FsmEvent → Tool → Tool) → Tool → Tool
  pub fsm_dispatch : (State → FsmEvent → Tool → Tool) → FsmEvent → Tool → Tool

-- The event loop, as long as there are events.
module _ (fsm : Fsm) (h : State → FsmEvent → Tool → Tool) where
  abbrev next : Option ℕ → List Queued → (Queued → List Queued → Tool) → Tool → Tool
  next none (e ∷ q) go w = go e q
  next _ _ go w = w

  unfoldable pub event_loop : ℕ → Tool → Tool
  event_loop zero w = w
  event_loop (suc fuel) w =
      next w.exit_status w.queue
        (λ e q. event_loop fuel (fsm.fsm_dispatch h (queued e) (record w { queue = q }))) w

-- A machine is started in `init`; an initial transition is followed by the entry signal. When an
-- event has changed the state, the old one gets the exit signal and the new one the entry signal.
pub record Signals (fsm : Fsm) : Type 0 where
  pub started :
      (h : State → FsmEvent → Tool → Tool) (w : Tool)
      → w.state ≡ init
      → fsm.fsm_init h w ≡ (
          let v = h init entry_sig w in
          if same_state init v.state then v else h v.state entry_sig v)
  pub dispatched :
      (h : State → FsmEvent → Tool → Tool) (e : FsmEvent) (w : Tool)
      → fsm.fsm_dispatch h e w ≡ (
          let v = h w.state e w in
          if same_state w.state v.state
          then v
          else let u = h w.state exit_sig v in h u.state entry_sig u)
