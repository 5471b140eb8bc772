-- ===== src/ListPatch/Unchanged.antt =====
-- When two lists have no patches between them.
use rt_5gc_service_consumers.Common.{
  ℕ, ◌+◌, Bool, true, false, List, [], ◌∷◌, Option, none, some, Str, ◌==◌, ◌≡◌, ◌↔◌, refl, arith,
  Bool-cases, inl, inr,
}
use rt_5gc_service_consumers.JsonPatch.{Json, PatchItem, if_any}
use rt_5gc_service_consumers.ListPatch.Apply.{
  AddsLast, AllEqual, elements, NotEmpty, list_not_empty-NotEmpty, elements-list_not_empty,
  entry_loop-skip_equal, loop_from,
}
use rt_5gc_service_consumers.ListPatch.Removal.{skip_equal-none}
use rt_5gc_service_consumers.ListPatch.{
  list_not_empty, skip_equal, changed_entry, entry_loop, entries_patch_list, both_patch_list,
  list_patch_list,
}

if_any-none : (ps : List PatchItem) → (if_any ps ≡ none) ↔ (ps ≡ [])
if_any-none [] = (λ h. refl, λ e. refl)
if_any-none (p ∷ ps) = (λ h. cc, λ e. cc)

module _ {A : Type 0} (equal : A → A → Bool) (to_json : A → Json) (path : ℕ → Str) where
  entry_loop-nil :
      (i : ℕ) (a b : List A) → (entry_loop equal to_json path i a b ≡ []) ↔ AllEqual equal a b
  unfolding entry_loop changed_entry
  entry_loop-nil i [] [] = (λ h. tt, λ e. refl)
  entry_loop-nil i [] (y ∷ b) = (λ h. cc, λ e. absurd e)
  entry_loop-nil i (x ∷ a) [] = (λ h. cc, λ e. absurd e)
  entry_loop-nil i (x ∷ a) (y ∷ b) = elim (Bool-cases (equal x y)) [
    | inl e ↦ (
      λ h. (e, (entry_loop-nil (i + 1) a b).0 (rw e at h)),
      λ k. rw e ((entry_loop-nil (i + 1) a b).1 k.1),
    )
    | inr e ↦ (λ h. absurd (ground (arith, e)), λ k. absurd (ground (arith, e, k.0)))
  ]

  entries-whole_some :
      (a b : List A) (r : ℕ × List A × List A)
      → (r.0 == 0) ≡ true
      → entries_patch_list equal to_json path a b r ≡ none
      → ⊥
  unfolding entries_patch_list
  entries-whole_some a b (i, a', b') e h = ground (arith, e)

  module _ (last : AddsLast path) where
    entries-each_some :
        (a b : List A) (r : ℕ × List A × List A)
        → (r.0 == 0) ≡ false
        → entries_patch_list equal to_json path a b r ≡ if_any (loop_from equal to_json path last r)
    unfolding entries_patch_list
    entries-each_some a b (i, a', b') e = rw e

    entries-none_iff :
        (x y : A) (a b : List A)
        → (entries_patch_list equal to_json path
              (x ∷ a)
              (y ∷ b)
              (skip_equal equal 0 (x ∷ a) (y ∷ b))
            ≡ none)
          ↔ AllEqual equal (x ∷ a) (y ∷ b)
    entries-none_iff x y a b =
        let r = skip_equal equal 0 (x ∷ a) (y ∷ b) in
        let first = skip_equal-none equal to_json path x y a b in
        elim (Bool-cases (r.0 == 0)) [
          | inl e ↦ (
            λ h. absurd (entries-whole_some (x ∷ a) (y ∷ b) r e h),
            λ k. absurd (ground (arith, e, first, k.0)),
          )
          | inr e ↦
              rw
                (
                  entries-each_some (x ∷ a) (y ∷ b) r e,
                  entry_loop-skip_equal equal to_json path last 0 (x ∷ a) (y ∷ b),
                )
                (both_iff (if_any-none (entry_loop equal to_json path 0 (x ∷ a) (y ∷ b)))
                  (entry_loop-nil 0 (x ∷ a) (y ∷ b)))
        ]
      where
        both_iff : {P Q R : Type 0} → P ↔ Q → Q ↔ R → P ↔ R
        both_iff p q = (λ x. q.0 (p.0 x), λ z. p.1 (q.1 z))

    both-none_iff :
        (a b : Option (List A))
        → NotEmpty a
        → NotEmpty b
        → (both_patch_list equal to_json path a b ≡ none) ↔ AllEqual equal (elements a) (elements b)
    unfolding both_patch_list
    both-none_iff none none p q = (λ h. tt, λ e. refl)
    both-none_iff none (some []) p q = absurd q
    both-none_iff none (some (y ∷ b)) p q = (λ h. cc, λ e. absurd e)
    both-none_iff (some []) b p q = absurd p
    both-none_iff (some (x ∷ a)) none p q = (λ h. cc, λ e. absurd e)
    both-none_iff (some (x ∷ a)) (some []) p q = absurd q
    both-none_iff (some (x ∷ a)) (some (y ∷ b)) p q = entries-none_iff x y a b

    -- Two lists have no patches between them exactly when their elements are equal, place by place.
    pub list_patch_list-none_iff :
        (a b : Option (List A))
        → (list_patch_list equal to_json path a b ≡ none) ↔ AllEqual equal (elements a) (elements b)
    unfolding list_patch_list
    list_patch_list-none_iff a b =
        rw (elements-list_not_empty a, elements-list_not_empty b) at
          (both-none_iff (list_not_empty a) (list_not_empty b) (list_not_empty-NotEmpty a)
            (list_not_empty-NotEmpty b))
