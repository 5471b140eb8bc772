-- ===== src/TmgiTool/Runs.antt =====
-- A run of the tool: the machine is started, events of the library arrive, and the loop handles the
-- queue.
use mathlib.Core.List.{append-nil}
use rt_5gc_service_consumers.Common.{
  ℕ, suc, ◌<◌, Bool, true, false, List, [], ◌∷◌, ◌++◌, map, none, Str, Bool-cases, inl, inr, ◌≡◌,
  refl, ap, ◌∙◌, arith,
}
use rt_5gc_service_consumers.TmgiTool.{
  State, FsmEvent, init, create_tmgi, delete_tmgi, exit, LocalId, event_tmgi_allocate,
  event_tmgi_allocated, event_tmgi_deallocate, event_tmgi_deallocated, Local, Queued, app_local,
  library, Said, Asked, allocation, deallocation, Tool, CallbackCall, CallbackName,
  tmgi_allocate_cb, tmgi_deallocate_cb, Wanted, handle, state_init, state_create_tmgi,
  state_delete_tmgi, state_exit, create_local, delete_local, say, send_event, result_id, transition,
  app_tmgi_allocate, app_tmgi_deallocate, allocated_lines, deallocated_lines, Fsm, Signals,
  event_loop, requesting, removing, unexpected,
}
use rt_5gc_service_consumers.Callback.{ogs_ok}
use rt_5gc_service_consumers.TmgiTool.Outcome.{
  result_of, locals, later, rounds, first_result, requested, Ends, Waits, loop-Ends,
}

abbrev pub arrive : List ℕ → Tool → Tool
arrive xs w = record w { queue = w.queue ++ map library xs }

-- Before the machine is started.
abbrev pub idle : Tool
idle = record { state = init; queue = []; sent = []; said = []; exit_status = none }

module _ (fsm : Fsm) (atoi : Str → ℕ) (calls : ℕ → List CallbackCall) (options : Wanted) where
  abbrev pub machine : State → FsmEvent → Tool → Tool
  machine = handle atoi calls options

  abbrev pub tool_run : ℕ → List ℕ → Tool
  tool_run fuel xs = event_loop fsm machine fuel (arrive xs (fsm.fsm_init machine idle))

-- The state that waits, the result that it waits for, its report and its request, by whether a
-- TMGI is to be deleted.
abbrev pub state_for : Bool → State
state_for true = delete_tmgi
state_for false = create_tmgi

abbrev pub is_result : Bool → LocalId → Bool
is_result true event_tmgi_deallocated = true
is_result false event_tmgi_allocated = true
is_result _ _ = false

abbrev pub report : Bool → Local → List Said
report true l = deallocated_lines l l.result
report false l = allocated_lines l l.result

abbrev pub request : (Str → ℕ) → Wanted → Bool → Asked
request atoi options true =
    deallocation options.mbs_service_id (atoi options.plmn.0) (atoi options.plmn.1)
request atoi options false = allocation

-- The callbacks that are made while the events that arrive are handled, as events.
abbrev pub answers : (ℕ → List CallbackCall) → List ℕ → List Local
answers calls [] = []
answers calls (x ∷ xs) = map result_of (calls x) ++ answers calls xs

abbrev requests_of : (Str → ℕ) → Wanted → Bool → LocalId → List Asked
requests_of atoi options true event_tmgi_deallocate = request atoi options true ∷ []
requests_of atoi options false event_tmgi_allocate = request atoi options false ∷ []
requests_of atoi options _ _ = []

module _ (fsm : Fsm) (signals : Signals fsm) (atoi : Str → ℕ) (calls : ℕ → List CallbackCall)
    (options : Wanted) where
  abbrev WaitsFor : Bool → Type 0
  WaitsFor deleting =
      Waits fsm signals calls (machine fsm atoi calls options) (state_for deleting)
        (is_result deleting) (requests_of atoi options deleting) (report deleting)

  create_tmgi-Waits : WaitsFor false
  unfolding handle state_create_tmgi state_exit create_local app_tmgi_allocate say
  create_tmgi-Waits = record {
    stays = refl;
    leaves = refl;
    on_library = λ x w. refl;
    on_result = λ l w r. result l l.id w r;
    on_other = λ l q s d r. other l l.id q s d r;
    on_exit = λ w. refl;
    on_finish = λ w. refl;
  }
    where
      result :
          (l : Local) (id : LocalId) (w : Tool)
          → is_result false id ≡ true
          → create_local atoi calls options l id w
            ≡ transition exit (say (allocated_lines l l.result) w)
      result l event_tmgi_allocate w r = cc
      result l event_tmgi_allocated w r = refl
      result l event_tmgi_deallocate w r = cc
      result l event_tmgi_deallocated w r = cc

      other :
          (l : Local) (id : LocalId) (q : List Queued) (s : List Asked) (d : List Said)
          → is_result false id ≡ false
          → (more : List Said) × (create_local atoi calls options l id
                (record { state = create_tmgi; queue = q; sent = s; said = d; exit_status = none })
              ≡ record {
                state = create_tmgi;
                queue = q;
                sent = s ++ requests_of atoi options false id;
                said = d ++ more;
                exit_status = none;
              })
      other l event_tmgi_allocate q s d r = ([], rw (append-nil d))
      other l event_tmgi_allocated q s d r = cc
      other l event_tmgi_deallocate q s d r =
          (unexpected event_tmgi_deallocate ∷ [], rw (append-nil s))
      other l event_tmgi_deallocated q s d r =
          (unexpected event_tmgi_deallocated ∷ [], rw (append-nil s))

  delete_tmgi-Waits : WaitsFor true
  unfolding handle state_delete_tmgi state_exit delete_local app_tmgi_deallocate say
  delete_tmgi-Waits = record {
    stays = refl;
    leaves = refl;
    on_library = λ x w. refl;
    on_result = λ l w r. result l l.id w r;
    on_other = λ l q s d r. other l l.id q s d r;
    on_exit = λ w. refl;
    on_finish = λ w. refl;
  }
    where
      result :
          (l : Local) (id : LocalId) (w : Tool)
          → is_result true id ≡ true
          → delete_local atoi calls options l id w
            ≡ transition exit (say (deallocated_lines l l.result) w)
      result l event_tmgi_allocate w r = cc
      result l event_tmgi_allocated w r = cc
      result l event_tmgi_deallocate w r = cc
      result l event_tmgi_deallocated w r = refl

      other :
          (l : Local) (id : LocalId) (q : List Queued) (s : List Asked) (d : List Said)
          → is_result true id ≡ false
          → (more : List Said) × (delete_local atoi calls options l id
                (record { state = delete_tmgi; queue = q; sent = s; said = d; exit_status = none })
              ≡ record {
                state = delete_tmgi;
                queue = q;
                sent = s ++ requests_of atoi options true id;
                said = d ++ more;
                exit_status = none;
              })
      other l event_tmgi_allocate q s d r = (unexpected event_tmgi_allocate ∷ [], rw (append-nil s))
      other l event_tmgi_allocated q s d r =
          (unexpected event_tmgi_allocated ∷ [], rw (append-nil s))
      other l event_tmgi_deallocate q s d r = ([], rw (append-nil d))
      other l event_tmgi_deallocated q s d r = cc

  both-Waits : (deleting : Bool) → WaitsFor deleting
  both-Waits true = delete_tmgi-Waits
  both-Waits false = create_tmgi-Waits

  first_line : Bool → Said
  first_line true = removing
  first_line false = requesting

  first_event : Bool → LocalId
  first_event true = event_tmgi_deallocate
  first_event false = event_tmgi_allocate

  started :
      (xs : List ℕ)
      → arrive xs (fsm.fsm_init (machine fsm atoi calls options) idle) ≡ record {
        state = state_for options.delete_tmgi;
        queue =
            app_local (record {
              id = first_event options.delete_tmgi;
              tmgi = none;
              result = ogs_ok;
              problem_details = none;
            })
            ∷ map library xs;
        sent = [];
        said = first_line options.delete_tmgi ∷ [];
        exit_status = none;
      }
  unfolding handle state_init transition state_create_tmgi state_delete_tmgi send_event say
      first_line first_event
  started xs =
      ap (arrive xs) (signals.started (machine fsm atoi calls options) idle refl)
      ∙ elim (Bool-cases options.delete_tmgi) [ inl e ↦ rw e | inr e ↦ rw e ]

  locals-library : (xs : List ℕ) → locals (map library xs) ≡ []
  locals-library [] = refl
  locals-library (x ∷ xs) = locals-library xs

  later-library : (xs : List ℕ) → later calls (map library xs) ≡ answers calls xs
  later-library [] = refl
  later-library (x ∷ xs) = ap (λ ls. map result_of (calls x) ++ ls) (later-library xs)

  first-is_result : (deleting : Bool) → is_result deleting (first_event deleting) ≡ false
  unfolding first_event
  first-is_result true = refl
  first-is_result false = refl

  first-requests :
      (deleting : Bool)
      → requests_of atoi options deleting (first_event deleting)
        ≡ request atoi options deleting ∷ []
  unfolding first_event
  first-requests true = refl
  first-requests false = refl

  -- Callbacks queue no request.
  result-requests :
      (deleting : Bool) (c : CallbackName) → requests_of atoi options deleting (result_id c) ≡ []
  unfolding result_id
  result-requests true tmgi_allocate_cb = refl
  result-requests true tmgi_deallocate_cb = refl
  result-requests false tmgi_allocate_cb = refl
  result-requests false tmgi_deallocate_cb = refl

  results-requested :
      (deleting : Bool) (more : List CallbackCall) (ls : List Local)
      → requested (is_result deleting) (requests_of atoi options deleting) ls ≡ []
      → requested
          (is_result deleting)
          (requests_of atoi options deleting)
          (map result_of more ++ ls)
        ≡ []
  results-requested deleting [] ls h = h
  results-requested deleting (a ∷ more) ls h =
      elim (Bool-cases (is_result deleting (result_id a.callback))) [
        | inl e ↦ rw e
        | inr e ↦ rw (e, result-requests deleting a.callback) (results-requested deleting more ls h)
      ]

  answers-requested :
      (deleting : Bool) (xs : List ℕ)
      → requested (is_result deleting) (requests_of atoi options deleting) (answers calls xs) ≡ []
  answers-requested deleting [] = refl
  answers-requested deleting (x ∷ xs) =
      results-requested deleting (calls x) (answers calls xs) (answers-requested deleting xs)

  -- A tool that waits with an empty queue when events arrive.
  pub batch-Ends :
      (xs : List ℕ) (s : List Asked) (d : List Said)
      → let deleting = options.delete_tmgi in
        let w =
          event_loop fsm
            (machine fsm atoi calls options)
            (suc (rounds calls (map library xs)))
            (record {
              state = state_for deleting;
              queue = map library xs;
              sent = s;
              said = d;
              exit_status = none;
            }) in
        Ends
          (state_for deleting)
          (report deleting)
          (first_result (is_result deleting) (answers calls xs))
          w
        × (w.sent ≡ s)
  batch-Ends xs s d =
      let deleting = options.delete_tmgi in
      let ends =
        loop-Ends fsm signals calls (machine fsm atoi calls options) (state_for deleting)
          (is_result deleting) (requests_of atoi options deleting) (report deleting)
          (both-Waits deleting) (suc (rounds calls (map library xs))) (map library xs) s d
          (omega arith) in
      rw (locals-library xs, later-library xs, answers-requested deleting xs, append-nil s) at ends

  -- Whatever events of the library arrive, the loop comes to an end within as many rounds as there
  -- are events and callbacks, and one more. The tool has then sent one request, the one that the
  -- command line asks for. If no callback has brought the result of it, the tool waits with an empty
  -- queue; else it has told the first such result and exited with status 1, also when that is a
  -- success. The state machine signals changes of state as libogscore's does.
  pub tool_run-Ends :
      (xs : List ℕ) (fuel : ℕ)
      → rounds calls (map library xs) < fuel
      → let deleting = options.delete_tmgi in
        let w = tool_run fsm atoi calls options fuel xs in
        Ends
          (state_for deleting)
          (report deleting)
          (first_result (is_result deleting) (answers calls xs))
          w
        × (w.sent ≡ request atoi options deleting ∷ [])
  tool_run-Ends xs fuel enough =
      let deleting = options.delete_tmgi in
      let ends =
        loop-Ends fsm signals calls (machine fsm atoi calls options) (state_for deleting)
          (is_result deleting) (requests_of atoi options deleting) (report deleting)
          (both-Waits deleting) fuel
          (app_local (record {
            id = first_event deleting;
            tmgi = none;
            result = ogs_ok;
            problem_details = none;
          })
            ∷ map library xs)
          [] (first_line deleting ∷ []) (omega arith) in
      rw (started xs) (
        rw
          (
            locals-library xs,
            later-library xs,
            first-is_result deleting,
            first-requests deleting,
            answers-requested deleting xs,
          )
          at ends)
