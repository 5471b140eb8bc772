-- ===== src/TmgiTool/Examples.antt =====
-- The theorems on the TMGI tool at concrete command lines and events.
use rt_5gc_service_consumers.Common.{
  ℕ, ◌+◌, ◌*◌, ◌^◌, ◌≤◌, ◌<◌, true, false, List, [], ◌∷◌, ◌++◌, Option, none, some, Str, bytes,
  decimal, read_decimal, read_decimal-decimal, length, if◌then◌else◌, ◌≡◌, ◌↔◌, refl, ap, arith,
}
use rt_5gc_service_consumers.Callback.{ogs_ok}
use rt_5gc_service_consumers.ToolOptions.{Outcome, done, overrun, Address, split_address_and_port}
use rt_5gc_service_consumers.TmgiTool.{
  State, init, FsmEvent, entry_sig, exit_sig, Tool, CallbackCall, tmgi_allocate_cb, Wanted,
  same_state, Fsm, Signals,
}
use rt_5gc_service_consumers.TmgiTool.Outcome.{Ends, first_result}
use rt_5gc_service_consumers.TmgiTool.Runs.{
  answers, is_result, report, request, state_for, machine, tool_run,
}
use rt_5gc_service_consumers.TmgiTool.Batches.{wake_ups, wake_ups-Ends}
use rt_5gc_service_consumers.TmgiTool.Options.{Opt, Parsed, app_options_parse, tmgi_tool_arguments}
use rt_5gc_service_consumers.TmgiTool.Arguments.{passed_on, tmgi_tool_arguments-overrun}
use rt_5gc_service_consumers.TmgiTool.Accepted.{IsConsistent, app_options_parse-IsConsistent}
use rt_5gc_service_consumers.TmgiTool.Config.{uri_of, split_address_and_port-uri_of}

abbrev from_option : Option ℕ → ℕ
from_option none = 0
from_option (some n) = n

abbrev atoi : Str → ℕ
atoi s = from_option (read_decimal s)

abbrev start : (State → FsmEvent → Tool → Tool) → Tool → Tool
start h w =
    let v = h init entry_sig w in if same_state init v.state then v else h v.state entry_sig v

abbrev dispatch : (State → FsmEvent → Tool → Tool) → FsmEvent → Tool → Tool
dispatch h e w =
    let v = h w.state e w in
    if same_state w.state v.state then v else let u = h w.state exit_sig v in h u.state entry_sig u

abbrev fsm : Fsm
fsm = record { fsm_init = start; fsm_dispatch = dispatch }

fsm-Signals : Signals fsm
fsm-Signals = record { started = λ h w e. refl; dispatched = λ h e w. refl }

-- The library's second event brings the result of an allocation.
abbrev calls : ℕ → List CallbackCall
calls ℕ.zero = []
calls (ℕ.suc n) =
    record { callback = tmgi_allocate_cb; tmgi = some 5; result = ogs_ok; problem_details = none }
    ∷ []

abbrev allocate : Wanted
allocate = record { delete_tmgi = false; mbs_service_id = none; plmn = ([], []) }

wake_ups-Ends_example :
    let w =
      wake_ups fsm calls
        (machine fsm atoi calls allocate)
        ((1 ∷ []) ∷ (0 ∷ 1 ∷ []) ∷ [])
        (tool_run fsm atoi calls allocate 9 (0 ∷ 0 ∷ [])) in
    Ends
      (state_for false)
      (report false)
      (first_result (is_result false) (answers calls (0 ∷ 0 ∷ 1 ∷ 0 ∷ 1 ∷ [])))
      w
    × (w.sent ≡ request atoi allocate false ∷ [])
wake_ups-Ends_example =
    wake_ups-Ends fsm fsm-Signals atoi calls allocate (0 ∷ 0 ∷ []) ((1 ∷ []) ∷ (0 ∷ 1 ∷ []) ∷ []) 9
      (omega arith)

-- tmgi-tool -d -M abc123 -p 001-01 -n 127.0.0.10:7777
abbrev deletion : List Opt
deletion =
    record { letter = b'd'; optarg = [] }
    ∷ record { letter = b'M'; optarg = bytes "abc123" }
    ∷ record { letter = b'p'; optarg = bytes "001-01" }
    ∷ record { letter = b'n'; optarg = bytes "127.0.0.10:7777" }
    ∷ []

abbrev value_of : Outcome Parsed → Parsed → Parsed
value_of (done p) q = p
value_of _ q = q

abbrev nothing : Parsed
nothing = (
  record {
    delete_tmgi = false;
    mbs_service_id = none;
    plmn = none;
    nrf_address = none;
    scp_address = none;
  },
  [],
)

abbrev accepted : Parsed
accepted = value_of (app_options_parse atoi (bytes "tmgi-tool") deletion true) nothing

deletion_ok : app_options_parse atoi (bytes "tmgi-tool") deletion true ≡ done accepted
unfolding app_options_parse
deletion_ok = refl

app_options_parse-IsConsistent_example : IsConsistent accepted.0
app_options_parse-IsConsistent_example =
    app_options_parse-IsConsistent atoi (bytes "tmgi-tool") deletion true accepted deletion_ok

-- Six times -e.
abbrev levels : List Opt
levels =
    let e : Opt = record { letter = b'e'; optarg = bytes "info" } in
    e ∷ e ∷ e ∷ e ∷ e ∷ e ∷ record { letter = b'n'; optarg = bytes "127.0.0.10:7777" } ∷ []

tmgi_tool_arguments-overrun_example :
    let r = tmgi_tool_arguments atoi (bytes "tmgi-tool") (some (bytes "/tmp/x")) levels true in
    (r ≡ overrun → 5 < passed_on levels)
    × ((p : Parsed) → r ≡ done p → (passed_on levels ≤ 5) × (length p.1 ≡ 5 + 2 * passed_on levels))
tmgi_tool_arguments-overrun_example =
    tmgi_tool_arguments-overrun atoi (bytes "tmgi-tool") (some (bytes "/tmp/x")) levels true

split_address_and_port-uri_of_example :
    (a : Address) × (split_address_and_port atoi (bytes "::1" ++ b':' ∷ decimal 7777) ≡ done a)
    × ((uri_of a ≡ bytes "http://" ++ bytes "::1" ++ b':' ∷ decimal 7777) ↔ (7777 < 2 ^ 15))
split_address_and_port-uri_of_example =
    split_address_and_port-uri_of atoi (bytes "::1") 7777 (omega arith) reads
  where
    reads : atoi (decimal 7777) ≡ 7777
    reads = ap from_option (read_decimal-decimal 7777)
