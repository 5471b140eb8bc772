-- ===== src/TmgiTool/Outcome.antt =====
-- Which result ends the event loop: the first that stands in the queue or that a callback queues
-- while the events of the library are handled.
use mathlib.Core.List.{append_assoc, append-nil}
use rt_5gc_service_consumers.Common.{
  ℕ, zero, suc, ◌+◌, ◌≤◌, Bool, true, false, List, [], ◌∷◌, ◌++◌, map, Option, none, some,
  if◌then◌else◌, length, Bool-cases, inl, inr, ◌≡◌, refl, sym, ap, ◌∙◌, arith,
}
use rt_5gc_service_consumers.TmgiTool.{
  State, exit, LocalId, Local, Queued, app_local, library, FsmEvent, entry_sig, exit_sig, queued,
  Said, finished, Asked, Tool, CallbackCall, say, send_event, result_id, call_back, call_each,
  transition, same_state, Fsm, Signals, event_loop,
}

-- The event that a callback queues.
abbrev pub result_of : CallbackCall → Local
result_of a = record {
  id = result_id a.callback;
  tmgi = a.tmgi;
  result = a.result;
  problem_details = a.problem_details;
}

abbrev pub locals : List Queued → List Local
locals [] = []
locals (app_local l ∷ q) = l ∷ locals q
locals (library x ∷ q) = locals q

locals-append :
    (q : List Queued) (rs : List Local) → locals (q ++ map app_local rs) ≡ locals q ++ rs
locals-append [] rs = all rs
  where
    all : (rs : List Local) → locals (map app_local rs) ≡ rs
    all [] = refl
    all (r ∷ rs) = ap (λ l. r ∷ l) (all rs)
locals-append (app_local l ∷ q) rs = ap (λ ls. l ∷ ls) (locals-append q rs)
locals-append (library x ∷ q) rs = locals-append q rs

module _ (calls : ℕ → List CallbackCall) where
  abbrev pub later : List Queued → List Local
  later [] = []
  later (app_local l ∷ q) = later q
  later (library x ∷ q) = map result_of (calls x) ++ later q

  -- The local events in the order in which they are handled.
  abbrev pub pending : List Queued → List Local
  pending q = locals q ++ later q

  -- The rounds that the loop needs for a queue.
  abbrev pub rounds : List Queued → ℕ
  rounds [] = 0
  rounds (app_local l ∷ q) = suc (rounds q)
  rounds (library x ∷ q) = suc (length (calls x) + rounds q)

  later-append : (q : List Queued) (rs : List Local) → later (q ++ map app_local rs) ≡ later q
  later-append [] rs = none_later rs
    where
      none_later : (rs : List Local) → later (map app_local rs) ≡ []
      none_later [] = refl
      none_later (r ∷ rs) = none_later rs
  later-append (app_local l ∷ q) rs = later-append q rs
  later-append (library x ∷ q) rs = ap (λ l. map result_of (calls x) ++ l) (later-append q rs)

  rounds-append :
      (q : List Queued) (rs : List Local) → rounds (q ++ map app_local rs) ≡ length rs + rounds q
  rounds-append [] rs = as_many rs
    where
      as_many : (rs : List Local) → rounds (map app_local rs) ≡ length rs + 0
      as_many [] = refl
      as_many (r ∷ rs) = omega (arith, as_many rs)
  rounds-append (app_local l ∷ q) rs = omega (arith, rounds-append q rs)
  rounds-append (library x ∷ q) rs = omega (arith, rounds-append q rs)

  -- The events that the callbacks queue are handled after those that stand in the queue.
  pending-library :
      (x : ℕ) (q : List Queued)
      → pending (q ++ map app_local (map result_of (calls x))) ≡ pending (library x ∷ q)
  pending-library x q =
      let rs = map result_of (calls x) in
      rw (locals-append q rs, later-append q rs) (append_assoc (locals q) rs (later q))

call_each-queue :
    (as' : List CallbackCall) (w : Tool)
    → call_each as' w ≡ record w { queue = w.queue ++ map app_local (map result_of as') }
unfolding call_each call_back send_event
call_each-queue [] w = ap (λ q. record w { queue = q }) (sym (append-nil w.queue))
call_each-queue (a ∷ more) w =
    call_each-queue more (call_back a w)
    ∙ ap (λ q. record w { queue = q })
        (append_assoc w.queue (app_local (result_of a) ∷ []) (map app_local (map result_of more)))

length-map {ℓ κ} : {A : Type ℓ} {B : Type κ} (f : A → B) (l : List A) → length (map f l) ≡ length l
length-map f [] = refl
length-map f (x ∷ l) = ap suc (length-map f l)

module _ (is_result : LocalId → Bool) where
  abbrev pub first_result : List Local → Option Local
  first_result [] = none
  first_result (l ∷ ls) = if is_result l.id then some l else first_result ls

  -- The requests made before the first result.
  abbrev pub requested : (LocalId → List Asked) → List Local → List Asked
  requested requests [] = []
  requested requests (l ∷ ls) =
      if is_result l.id then [] else requests l.id ++ requested requests ls

-- Without a result the tool waits with an empty queue; with one it has told it and has exited with
-- status 1.
abbrev pub Ends : State → (Local → List Said) → Option Local → Tool → Type 0
Ends st lines none w = (w.exit_status ≡ none) × (w.state ≡ st) × (w.queue ≡ [])
Ends st lines (some l) w =
    (w.exit_status ≡ some 1)
    × ((before : List Said) × (w.said ≡ before ++ lines l ++ finished ∷ []))

-- The state that waits for a result: what its handler does, as far as the outcome goes.
module _ (fsm : Fsm) (signals : Signals fsm) (calls : ℕ → List CallbackCall)
    (h : State → FsmEvent → Tool → Tool) (st : State) (is_result : LocalId → Bool)
    (requests : LocalId → List Asked) (lines : Local → List Said) where
  abbrev pub waiting : List Queued → List Asked → List Said → Tool
  waiting q s d = record { state = st; queue = q; sent = s; said = d; exit_status = none }

  pub record Waits : Type 0 where
    pub stays : same_state st st ≡ true
    pub leaves : same_state st exit ≡ false
    pub on_library : (x : ℕ) (w : Tool) → h st (queued (library x)) w ≡ call_each (calls x) w
    pub on_result :
        (l : Local) (w : Tool)
        → is_result l.id ≡ true
        → h st (queued (app_local l)) w ≡ transition exit (say (lines l) w)
    pub on_other :
        (l : Local) (q : List Queued) (s : List Asked) (d : List Said)
        → is_result l.id ≡ false
        → (more : List Said) × (h st (queued (app_local l)) (waiting q s d)
            ≡ waiting q (s ++ requests l.id) (d ++ more))
    pub on_exit : (w : Tool) → h st exit_sig w ≡ w
    pub on_finish :
        (w : Tool) → h exit entry_sig w ≡ record (say (finished ∷ []) w) { exit_status = some 1 }

  module _ (waits : Waits) where
    abbrev loop : ℕ → Tool → Tool
    loop = event_loop fsm h

    loop-step :
        (fuel : ℕ) (e : Queued) (q : List Queued) (s : List Asked) (d : List Said)
        → loop (suc fuel) (waiting (e ∷ q) s d)
          ≡ loop fuel (fsm.fsm_dispatch h (queued e) (waiting q s d))
    unfolding event_loop
    loop-step fuel e q s d = refl

    loop-exited : (fuel : ℕ) (w : Tool) → w.exit_status ≡ some 1 → loop fuel w ≡ w
    unfolding event_loop
    loop-exited zero w e = refl
    loop-exited (suc fuel) w e = rw e

    dispatch-library :
        (x : ℕ) (q : List Queued) (s : List Asked) (d : List Said)
        → fsm.fsm_dispatch h (queued (library x)) (waiting q s d)
          ≡ waiting (q ++ map app_local (map result_of (calls x))) s d
    dispatch-library x q s d =
        signals.dispatched h (queued (library x)) (waiting q s d)
        ∙ rw (
          waits.on_library x (waiting q s d),
          call_each-queue (calls x) (waiting q s d),
          waits.stays,
        )

    dispatch-other :
        (l : Local) (q : List Queued) (s : List Asked) (d : List Said)
        → is_result l.id ≡ false
        → (more : List Said) × (fsm.fsm_dispatch h (queued (app_local l)) (waiting q s d)
            ≡ waiting q (s ++ requests l.id) (d ++ more))
    dispatch-other l q s d r =
        let (more, e) = waits.on_other l q s d r in
        (more, signals.dispatched h (queued (app_local l)) (waiting q s d) ∙ rw (e, waits.stays))

    dispatch-result :
        (l : Local) (q : List Queued) (s : List Asked) (d : List Said)
        → is_result l.id ≡ true
        → let w = fsm.fsm_dispatch h (queued (app_local l)) (waiting q s d) in
          (w.exit_status ≡ some 1) × (w.sent ≡ s) × (w.said ≡ d ++ lines l ++ finished ∷ [])
    unfolding transition say
    dispatch-result l q s d r =
        rw
          (
            signals.dispatched h (queued (app_local l)) (waiting q s d),
            waits.on_result l (waiting q s d) r,
            waits.leaves,
            waits.on_exit (transition exit (say (lines l) (waiting q s d))),
            waits.on_finish (transition exit (say (lines l) (waiting q s d))),
          )
          (refl, refl, refl)

    ended :
        (fuel : ℕ) (l : Local) (s : List Asked) (d : List Said) (w : Tool)
        → (w.exit_status ≡ some 1) × (w.sent ≡ s) × (w.said ≡ d ++ lines l ++ finished ∷ [])
        → (Ends st lines (some l) (loop fuel w)) × ((loop fuel w).sent ≡ s)
    ended fuel l s d w e = rw (loop-exited fuel w e.0) ((e.0, (d, e.2)), e.1)

    -- With enough rounds for the queue, the loop ends as the first result says, and has made the
    -- requests before it.
    pub loop-Ends :
        (fuel : ℕ) (q : List Queued) (s : List Asked) (d : List Said)
        → rounds calls q ≤ fuel
        → let w = loop fuel (waiting q s d) in
          Ends st lines (first_result is_result (pending calls q)) w
          × (w.sent ≡ s ++ requested is_result requests (pending calls q))
    unfolding event_loop
    loop-Ends zero [] s d enough = ((refl, refl, refl), sym (append-nil s))
    loop-Ends zero (app_local l ∷ q) s d enough = absurd (omega arith)
    loop-Ends zero (library x ∷ q) s d enough = absurd (omega arith)
    loop-Ends (suc fuel) [] s d enough = ((refl, refl, refl), sym (append-nil s))
    loop-Ends (suc fuel) (library x ∷ q) s d enough =
        let rs = map result_of (calls x) in
        let left : rounds calls (q ++ map app_local rs) ≤ fuel =
          omega (arith, rounds-append calls q rs, length-map result_of (calls x)) in
        rw (loop-step fuel (library x) q s d, dispatch-library x q s d, ← pending-library calls x q)
          (loop-Ends fuel (q ++ map app_local rs) s d left)
    loop-Ends (suc fuel) (app_local l ∷ q) s d enough = elim (Bool-cases (is_result l.id)) [
      | inl r ↦
          rw (loop-step fuel (app_local l) q s d, r, append-nil s)
            (ended fuel l s d _ (dispatch-result l q s d r))
      | inr r ↦
          let (more, e) = dispatch-other l q s d r in
          let rest = loop-Ends fuel q (s ++ requests l.id) (d ++ more) (omega arith) in
          rw (loop-step fuel (app_local l) q s d, e, r)
            (
              rest.0,
              rest.1
                  ∙ append_assoc s (requests l.id) (requested is_result requests (pending calls q)),
            )
    ]
