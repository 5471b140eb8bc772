-- ===== src/Pcf/Merge/Ends.antt =====
-- When the merge of a subscription ends, and what it leaves then.
use mathlib.Core.List.{append_assoc, append-nil}
use native.Mathlib.Nat.{add-zero, add_assoc, zero-add}
use rt_5gc_service_consumers.Common.{
  ℕ, zero, suc, ◌+◌, false, List, [], ◌∷◌, ◌++◌, Option, none, some, Str, str_eq_iff, length,
  length-append, ◌≡◌, ◌⊎◌, inl, inr, ◌↔◌, refl, sym, ap, ◌∙◌, arith, Bool-cases, Option-cases,
}
use rt_5gc_service_consumers.Pcf.Merge.{
  events_differ, events_to_add, merge_loop, merge_event_subsc_to_app_session_context,
}

module _ {S : Type 0} (event_name notif_method_name : S → Str) where
  -- Of the same event and method.
  abbrev pub Alike : S → S → Type 0
  Alike x y = (event_name x ≡ event_name y) × (notif_method_name x ≡ notif_method_name y)

  abbrev AlikeTo : S → List S → Type 0
  AlikeTo x [] = Unit {0}
  AlikeTo x (y ∷ l) = Alike x y × AlikeTo x l

  -- All are of one event and method.
  abbrev pub AllAlike : List S → Type 0
  AllAlike [] = Unit {0}
  AllAlike (x ∷ l) = AlikeTo x l

  -- For each event that is not of the event and method of the subscription, a copy of it.
  abbrev pub copies : List S → List S → List S
  copies subsc [] = []
  copies subsc (x ∷ l) = events_to_add event_name notif_method_name x subsc ++ copies subsc l

  abbrev add : S → List S → List S
  add = events_to_add event_name notif_method_name

  abbrev loop : ℕ → List S → List S → List S → ℕ → Option (List S × ℕ)
  loop = merge_loop event_name notif_method_name

  events_differ-false :
      (x y : S) → (events_differ event_name notif_method_name x y ≡ false) ↔ Alike x y
  unfolding events_differ
  events_differ-false x y = ground (
    arith,
    str_eq_iff (event_name x) (event_name y),
    str_eq_iff (notif_method_name x) (notif_method_name y),
  )

  none_added : (x : S) (l : List S) → (add x l ≡ []) ↔ AlikeTo x l
  unfolding events_to_add
  none_added x [] = (λ e. tt, λ e. refl)
  none_added x (y ∷ l) = elim (Bool-cases (events_differ event_name notif_method_name x y)) [
    | inl e ↦ (λ h. ground (arith, e, h), λ h. ground (arith, e, (events_differ-false x y).1 h.0))
    | inr e ↦
        rw e
          (λ h. ((events_differ-false x y).0 e, (none_added x l).0 h), λ h. (none_added x l).1 h.1)
  ]

  abbrev Each : (S → Type 0) → List S → Type 0
  Each P [] = Unit {0}
  Each P (x ∷ l) = P x × Each P l

  add-Each : (P : S → Type 0) (x : S) (l : List S) → Each P l → Each P (add x l)
  unfolding events_to_add
  add-Each P x [] h = tt
  add-Each P x (y ∷ l) h = elim (Bool-cases (events_differ event_name notif_method_name x y)) [
    | inl e ↦ rw e (h.0, add-Each P x l h.1)
    | inr e ↦ rw e (add-Each P x l h.1)
  ]

  AlikeTo-change : (x y : S) (l : List S) → Alike x y → AlikeTo x l → AlikeTo y l
  AlikeTo-change x y [] a h = tt
  AlikeTo-change x y (z ∷ l) a h = ((cc, cc), AlikeTo-change x y l a h.1)

  -- Nothing is added for an event.
  abbrev Quiet : List S → List S → Type 0
  Quiet subsc = Each (λ y. add y subsc ≡ [])

  Quiet-of : (x : S) (subsc l : List S) → AlikeTo x subsc → AlikeTo x l → Quiet subsc l
  Quiet-of x subsc [] h k = tt
  Quiet-of x subsc (y ∷ l) h k =
      ((none_added y subsc).1 (AlikeTo-change x y subsc k.0 h), Quiet-of x subsc l h k.1)

  Quiet-self : (subsc : List S) → AllAlike subsc → Quiet subsc subsc
  Quiet-self [] h = tt
  Quiet-self (x ∷ l) h = Quiet-of x (x ∷ l) (x ∷ l) ((refl, refl), h) ((refl, refl), h)

  Quiet-AllAlike : (x : S) (subsc : List S) → add x subsc ≡ [] → AllAlike subsc
  Quiet-AllAlike x [] e = tt
  Quiet-AllAlike x (y ∷ l) e = let h = (none_added x (y ∷ l)).0 e in AlikeTo-change x y l h.0 h.1

  Each-append : (P : S → Type 0) (k l : List S) → Each P k → Each P l → Each P (k ++ l)
  Each-append P [] l h m = m
  Each-append P (x ∷ k) l h m = (h.0, Each-append P k l h.1 m)

  round :
      (fuel n : ℕ) (subsc before rest : List S) (x : S)
      → loop (suc fuel) subsc before (x ∷ rest) n
        ≡ loop fuel subsc (before ++ x ∷ []) (rest ++ add x subsc) (n + length (add x subsc))
  unfolding merge_loop
  round fuel n subsc before rest x = refl

  last_round :
      (fuel n : ℕ) (subsc before : List S) → loop (suc fuel) subsc before [] n ≡ some (before, n)
  unfolding merge_loop
  last_round fuel n subsc before = refl

  -- Where nothing is added any more, the loop ends at the end of the list.
  Quiet-merge_loop :
      (subsc rest before : List S) (n : ℕ)
      → Quiet subsc rest
      → loop (suc (length rest)) subsc before rest n ≡ some (before ++ rest, n)
  Quiet-merge_loop subsc [] before n q = last_round 0 n subsc before ∙ rw append-nil
  Quiet-merge_loop subsc (x ∷ rest) before n q =
      round (suc (length rest)) n subsc before rest x
      ∙ rw (q.0) (
          simp (
            append-nil,
            Quiet-merge_loop subsc rest (before ++ x ∷ []) n q.1,
            append_assoc,
            add-zero,
          ))

  alike_loop :
      (subsc : List S)
      → ((x : S) → Quiet subsc (add x subsc))
      → (rest more before : List S) (n : ℕ) → Quiet subsc more
      → (fuel : ℕ) × (loop fuel subsc before (rest ++ more) n
          ≡ some (before ++ (rest ++ (more ++ copies subsc rest)), n + length (copies subsc rest)))
  alike_loop subsc a [] more before n q =
      (suc (length more), simp (Quiet-merge_loop subsc more before n q, append-nil, add-zero))
  alike_loop subsc a (x ∷ rest) more before n q =
      let (fuel, ih) =
        alike_loop subsc a rest (more ++ add x subsc) (before ++ x ∷ []) (n + length (add x subsc))
          (Each-append _ more (add x subsc) q (a x)) in
      (
        suc fuel,
        round fuel n subsc before (rest ++ more) x
            ∙ rw (append_assoc rest more (add x subsc))
                (ih ∙ simp (append_assoc, length-append, add_assoc)),
      )

  loop_unique :
      (f g n : ℕ) (subsc rest before : List S) {r s : List S × ℕ}
      → loop f subsc before rest n ≡ some r
      → loop g subsc before rest n ≡ some s
      → r ≡ s
  unfolding merge_loop
  loop_unique zero g n subsc rest before p q = cc
  loop_unique (suc f) zero n subsc rest before p q = cc
  loop_unique (suc f) (suc g) n subsc [] before p q = cc
  loop_unique (suc f) (suc g) n subsc (x ∷ rest) before p q =
      loop_unique f g _ subsc (rest ++ add x subsc) (before ++ x ∷ []) p q

  append-nil_left : (k l : List S) → k ++ l ≡ [] → l ≡ []
  append-nil_left [] l e = e
  append-nil_left (x ∷ k) l e = cc

  ends_only :
      (f n : ℕ) (subsc rest before : List S) {r : List S × ℕ}
      → loop f subsc before rest n ≡ some r
      → (rest ≡ []) ⊎ AllAlike subsc
  unfolding merge_loop
  ends_only zero n subsc rest before p = cc
  ends_only (suc f) n subsc [] before p = inl refl
  ends_only (suc f) n subsc (x ∷ rest) before p =
      elim (ends_only f _ subsc (rest ++ add x subsc) (before ++ x ∷ []) p) [
        | inl e ↦ inr (Quiet-AllAlike x subsc (append-nil_left rest (add x subsc) e))
        | inr a ↦ inr a
      ]

  alike_ends :
      (events subsc : List S)
      → (events ≡ []) ⊎ AllAlike subsc
      → (fuel : ℕ) × (loop fuel subsc [] events 0
          ≡ some (events ++ copies subsc events, length (copies subsc events)))
  alike_ends [] subsc h = (1, last_round 0 0 subsc [])
  alike_ends (x ∷ events) subsc (inl e) = cc
  alike_ends (x ∷ events) subsc (inr a) =
      let (fuel, e) =
        alike_loop subsc (λ y. add-Each _ y subsc (Quiet-self subsc a)) (x ∷ events) [] [] 0 tt in
      (fuel, ap (λ l. loop fuel subsc [] l 0) (sym (append-nil (x ∷ events))) ∙ e ∙ rw zero-add)

  -- With some fuel the merge has a result.
  abbrev pub Ends : List S → List S → Type 0
  Ends events subsc =
      (fuel : ℕ) × (merged : List S × ℕ) × (merge_event_subsc_to_app_session_context event_name
          notif_method_name fuel events subsc
        ≡ some merged)

  -- The merge of a subscription into the events of a session ends exactly when the session has no
  -- event or all events of the subscription are of one event and method. With whatever fuel, it has
  -- no result or this one: each event of the session stays, in order; for each that is of another
  -- event or method than one of the subscription, that one is appended; and the number returned is
  -- that of the events appended.
  pub merge_event_subsc_to_app_session_context-Ends_iff :
      (events subsc : List S) (fuel : ℕ)
      → (Ends events subsc ↔ ((events ≡ []) ⊎ AllAlike subsc))
        × ((merge_event_subsc_to_app_session_context event_name notif_method_name fuel events subsc
              ≡ none)
            ⊎ (merge_event_subsc_to_app_session_context event_name notif_method_name fuel events
                  subsc
                ≡ some (events ++ copies subsc events, length (copies subsc events))))
  unfolding merge_event_subsc_to_app_session_context
  merge_event_subsc_to_app_session_context-Ends_iff events subsc fuel = (
    (
      λ (f, merged, e). ends_only f 0 subsc events [] e,
      λ h. let (f, e) = alike_ends events subsc h in (f, _, e),
    ),
    elim (Option-cases (loop fuel subsc [] events 0)) [
      | inl e ↦ inl e
      | inr (merged, e) ↦
          let (enough, e') = alike_ends events subsc (ends_only fuel 0 subsc events [] e) in
          inr (e ∙ ap some (loop_unique fuel enough 0 subsc events [] e e'))
    ],
  )
