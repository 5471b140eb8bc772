-- ===== src/ListPatch/Removal.antt =====
-- When the patches between two lists remove an element or the whole list: an item without a value.
use rt_5gc_service_consumers.Common.{
  ℕ, ◌+◌, ◌≤◌, Bool, true, false, not, ◌&&◌, List, [], ◌∷◌, Option, none, some, Str, ◌==◌, ltb, leb,
  length, fault, ◌≡◌, ◌↔◌, refl, arith, Bool-cases, inl, inr,
}
use rt_5gc_service_consumers.JsonPatch.{Json, made, json_patch_new, json_patches_append_list}
use rt_5gc_service_consumers.JsonPatch.Prefix.{all_valued}
use rt_5gc_service_consumers.JsonPatch.Elements.{appended-fault_iff}
use rt_5gc_service_consumers.ListPatch.Apply.{
  AddsLast, elements, NotEmpty, list_not_empty-NotEmpty, elements-list_not_empty, entries-each,
  entry_loop-skip_equal,
}
use rt_5gc_service_consumers.ListPatch.{
  list_not_empty, skip_equal, changed_entry, entry_loop, entries_patch_list, both_patch_list,
  list_patch_list,
}

module _ {A : Type 0} (equal : A → A → Bool) where
  -- The first list has elements and the second none, or they begin with equal elements and the
  -- second is shorter.
  abbrev pub removes : List A → List A → Bool
  removes [] b = false
  removes (x ∷ a) [] = true
  removes (x ∷ a) (y ∷ b) = equal x y && ltb (length b) (length a)

module _ {A : Type 0} (equal : A → A → Bool) (to_json : A → Json) (path : ℕ → Str) where
  entry_loop-valued :
      (i : ℕ) (a b : List A)
      → all_valued (entry_loop equal to_json path i a b) ≡ leb (length a) (length b)
  unfolding entry_loop changed_entry all_valued json_patch_new
  entry_loop-valued i [] [] = refl
  entry_loop-valued i [] (y ∷ b) = ground (arith, entry_loop-valued (i + 1) [] b)
  entry_loop-valued i (x ∷ a) [] = ground arith
  entry_loop-valued i (x ∷ a) (y ∷ b) = ground (arith, entry_loop-valued (i + 1) a b)

  skip_equal-le : (i : ℕ) (a b : List A) → i ≤ (skip_equal equal i a b).0
  unfolding skip_equal
  skip_equal-le i [] b = omega arith
  skip_equal-le i (x ∷ a) [] = omega arith
  skip_equal-le i (x ∷ a) (y ∷ b) = ground (arith, skip_equal-le (i + 1) a b)

  pub skip_equal-none :
      (x y : A) (a b : List A) → ((skip_equal equal 0 (x ∷ a) (y ∷ b)).0 == 0) ≡ not (equal x y)
  unfolding skip_equal
  skip_equal-none x y a b = ground (arith, skip_equal-le 1 a b)

  entries-whole_valued :
      (a b : List A) (r : ℕ × List A × List A)
      → (r.0 == 0) ≡ true
      → all_valued (made (entries_patch_list equal to_json path a b r)) ≡ true
  unfolding entries_patch_list all_valued json_patch_new
  entries-whole_valued a b (i, a', b') e = rw e refl

  module _ (last : AddsLast path) where
    entries-valued :
        (x y : A) (a b : List A)
        → all_valued (
            made (
              entries_patch_list equal to_json path
                (x ∷ a)
                (y ∷ b)
                (skip_equal equal 0 (x ∷ a) (y ∷ b))))
          ≡ not (removes equal (x ∷ a) (y ∷ b))
    entries-valued x y a b =
        let r = skip_equal equal 0 (x ∷ a) (y ∷ b) in
        let first = skip_equal-none x y a b in
        elim (Bool-cases (r.0 == 0)) [
          | inl e ↦ ground (arith, first, entries-whole_valued (x ∷ a) (y ∷ b) r e)
          | inr e ↦
              rw
                (
                  entries-each equal to_json path last (x ∷ a) (y ∷ b) r e,
                  entry_loop-skip_equal equal to_json path last 0 (x ∷ a) (y ∷ b),
                  entry_loop-valued 0 (x ∷ a) (y ∷ b),
                )
                (ground (arith, first))
        ]

    both-valued :
        (a b : Option (List A))
        → NotEmpty a
        → NotEmpty b
        → all_valued (made (both_patch_list equal to_json path a b))
          ≡ not (removes equal (elements a) (elements b))
    unfolding both_patch_list all_valued json_patch_new
    both-valued none none p q = refl
    both-valued none (some b) p q = refl
    both-valued (some []) b p q = absurd p
    both-valued (some (x ∷ a)) none p q = refl
    both-valued (some (x ∷ a)) (some []) p q = absurd q
    both-valued (some (x ∷ a)) (some (y ∷ b)) p q = entries-valued x y a b

    -- Appending the patches between two lists below a prefix reads through NULL exactly when the
    -- first list has elements and the second none, or both begin with equal elements and the second
    -- is shorter.
    pub list_patch_list-fault_iff :
        (a b : Option (List A)) (prefix : Option Str)
        → (json_patches_append_list none (list_patch_list equal to_json path a b) prefix ≡ fault)
          ↔ (removes equal (elements a) (elements b) ≡ true)
    unfolding list_patch_list
    list_patch_list-fault_iff a b prefix =
        let valued =
          both-valued (list_not_empty a) (list_not_empty b) (list_not_empty-NotEmpty a)
            (list_not_empty-NotEmpty b) in
        ground (
          arith,
          appended-fault_iff
              (both_patch_list equal to_json path (list_not_empty a) (list_not_empty b)) prefix,
          valued,
          elements-list_not_empty a,
          elements-list_not_empty b,
        )
