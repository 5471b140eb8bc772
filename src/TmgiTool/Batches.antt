-- ===== src/TmgiTool/Batches.antt =====
-- The event thread wakes up again and again: each time some events of the library have arrived, and
-- the loop handles the queue.
use mathlib.Core.List.{append_assoc}
use rt_5gc_service_consumers.Common.{
  ℕ, suc, ◌<◌, Bool, List, [], ◌∷◌, ◌++◌, map, Option, none, some, Str, Bool-cases, inl, inr, ◌≡◌,
  refl, sym, ap, ◌∙◌, subst,
}
use rt_5gc_service_consumers.TmgiTool.{
  State, LocalId, Local, library, FsmEvent, Said, Asked, Tool, CallbackCall, Wanted, Fsm, Signals,
  event_loop,
}
use rt_5gc_service_consumers.TmgiTool.Outcome.{rounds, first_result, Ends}
use rt_5gc_service_consumers.TmgiTool.Runs.{
  arrive, answers, machine, tool_run, tool_run-Ends, state_for, is_result, report, request,
  batch-Ends,
}

abbrev pub all_of : List (List ℕ) → List ℕ
all_of [] = []
all_of (xs ∷ batches) = xs ++ all_of batches

module _ (fsm : Fsm) (calls : ℕ → List CallbackCall) (h : State → FsmEvent → Tool → Tool) where
  -- Each time the loop goes on for as many rounds as the events need, and one more.
  pub wake_ups : List (List ℕ) → Tool → Tool
  wake_ups [] w = w
  wake_ups (xs ∷ batches) w =
      wake_ups batches (event_loop fsm h (suc (rounds calls (map library xs))) (arrive xs w))

answers-append :
    (calls : ℕ → List CallbackCall) (xs ys : List ℕ)
    → answers calls (xs ++ ys) ≡ answers calls xs ++ answers calls ys
answers-append calls [] ys = refl
answers-append calls (x ∷ xs) ys =
    rw (answers-append calls xs ys) (sym (append_assoc _ (answers calls xs) (answers calls ys)))

abbrev or_else : Option Local → Option Local → Option Local
or_else none r = r
or_else (some l) r = some l

-- The first result is that of the first part, if it has one.
first_result-append :
    (is_result : LocalId → Bool) (ls ms : List Local)
    → first_result is_result (ls ++ ms)
      ≡ or_else (first_result is_result ls) (first_result is_result ms)
first_result-append is_result [] ms = refl
first_result-append is_result (l ∷ ls) ms = elim (Bool-cases (is_result l.id)) [
  | inl e ↦ rw e
  | inr e ↦ rw e (first_result-append is_result ls ms)
]

module _ (fsm : Fsm) (signals : Signals fsm) (atoi : Str → ℕ) (calls : ℕ → List CallbackCall)
    (options : Wanted) where
  abbrev deleting : Bool
  deleting = options.delete_tmgi

  abbrev h : State → FsmEvent → Tool → Tool
  h = machine fsm atoi calls options

  abbrev idle_with : List Asked → List Said → Tool
  idle_with s d = record {
    state = state_for deleting;
    queue = [];
    sent = s;
    said = d;
    exit_status = none;
  }

  abbrev Told : List ℕ → Tool → Type 0
  Told xs w =
      Ends (state_for deleting) (report deleting)
        (first_result (is_result deleting) (answers calls xs)) w

  loop-exited : (fuel : ℕ) (w : Tool) → w.exit_status ≡ some 1 → event_loop fsm h fuel w ≡ w
  unfolding event_loop
  loop-exited ℕ.zero w e = refl
  loop-exited (ℕ.suc fuel) w e = rw e

  wake_ups-cons :
      (xs : List ℕ) (batches : List (List ℕ)) (w : Tool)
      → wake_ups fsm calls h (xs ∷ batches) w
        ≡ wake_ups fsm calls h batches
            (event_loop fsm h (suc (rounds calls (map library xs))) (arrive xs w))
  unfolding wake_ups
  wake_ups-cons xs batches w = refl

  wake_ups-exited :
      (batches : List (List ℕ)) (w : Tool)
      → w.exit_status ≡ some 1
      → let v = wake_ups fsm calls h batches w in
        (v.exit_status ≡ some 1) × (v.said ≡ w.said) × (v.sent ≡ w.sent)
  unfolding wake_ups
  wake_ups-exited [] w e = (e, refl, refl)
  wake_ups-exited (xs ∷ batches) w e =
      let stays = loop-exited (suc (rounds calls (map library xs))) (arrive xs w) e in
      let (f, said, sent) =
        wake_ups-exited batches
          (event_loop fsm h (suc (rounds calls (map library xs))) (arrive xs w))
          (ap (λ v. v.exit_status) stays ∙ e) in
      (f, said ∙ ap (λ v. v.said) stays, sent ∙ ap (λ v. v.sent) stays)

  abbrev Reports : Option Local → Tool → Type 0
  Reports r w = Ends (state_for deleting) (report deleting) r w

  -- What has been told stays told, and a tool that waits goes on.
  after :
      (batches : List (List ℕ)) (s : List Asked) (w : Tool) (r rest : Option Local)
      → ((d : List Said)
          → let v = wake_ups fsm calls h batches (idle_with s d) in Reports rest v × (v.sent ≡ s))
      → Reports r w
      → w.sent ≡ s
      → let v = wake_ups fsm calls h batches w in Reports (or_else r rest) v × (v.sent ≡ s)
  after batches s w (some l) rest next (e, told) k =
      let (f, said, sent) = wake_ups-exited batches w e in ((f, (told.0, said ∙ told.1)), sent ∙ k)
  after batches s w none rest next (e, f, g) k =
      let same : idle_with s w.said ≡ w = λ i. record {
        state = sym f i;
        queue = sym g i;
        sent = sym k i;
        said = w.said;
        exit_status = sym e i;
      } in
      subst (λ (u : Tool). let v = wake_ups fsm calls h batches u in Reports rest v × (v.sent ≡ s))
        same (next w.said)

  wake_ups-Reports :
      (batches : List (List ℕ)) (s : List Asked) (d : List Said)
      → let v = wake_ups fsm calls h batches (idle_with s d) in
        Reports (first_result (is_result deleting) (answers calls (all_of batches))) v
        × (v.sent ≡ s)
  unfolding wake_ups
  wake_ups-Reports [] s d = ((refl, refl, refl), refl)
  wake_ups-Reports (xs ∷ batches) s d =
      let w = event_loop fsm h (suc (rounds calls (map library xs))) (arrive xs (idle_with s d)) in
      let (ends, sent) = batch-Ends fsm signals atoi calls options xs s d in
      rw
        (
          answers-append calls xs (all_of batches),
          first_result-append (is_result deleting) (answers calls xs)
              (answers calls (all_of batches)),
        )
        (after batches s w (first_result (is_result deleting) (answers calls xs))
          (first_result (is_result deleting) (answers calls (all_of batches)))
          (wake_ups-Reports batches s) ends sent)

  -- Whatever events of the library arrive, in any number of batches, each before the event thread
  -- wakes up once more: the loop comes to an end each time within as many rounds as there are events
  -- and callbacks, and one or two more. The tool has then sent one request, the one that the command
  -- line asks for. If no callback has brought the result of it, the tool waits with an empty queue;
  -- else it has told the first such result and exited with status 1, also when that is a success. The
  -- state machine signals changes of state as libogscore's does.
  pub wake_ups-Ends :
      (xs : List ℕ) (batches : List (List ℕ)) (fuel : ℕ)
      → rounds calls (map library xs) < fuel
      → let w = wake_ups fsm calls h batches (tool_run fsm atoi calls options fuel xs) in
        Ends
          (state_for options.delete_tmgi)
          (report options.delete_tmgi)
          (first_result (is_result options.delete_tmgi) (answers calls (xs ++ all_of batches)))
          w
        × (w.sent ≡ request atoi options options.delete_tmgi ∷ [])
  wake_ups-Ends xs batches fuel enough =
      let (ends, sent) = tool_run-Ends fsm signals atoi calls options xs fuel enough in
      let asked = request atoi options deleting ∷ [] in
      rw
        (
          answers-append calls xs (all_of batches),
          first_result-append (is_result deleting) (answers calls xs)
              (answers calls (all_of batches)),
        )
        (after batches asked (tool_run fsm atoi calls options fuel xs)
          (first_result (is_result deleting) (answers calls xs))
          (first_result (is_result deleting) (answers calls (all_of batches)))
          (wake_ups-Reports batches asked) ends sent)
