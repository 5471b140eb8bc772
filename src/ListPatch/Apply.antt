-- ===== src/ListPatch/Apply.antt =====
-- What the patches between two lists do to the array that stands for the first.
use rt_5gc_service_consumers.Common.{
  ℕ, ◌+◌, Bool, true, false, List, [], ◌∷◌, ◌++◌, map, Option, none, some, Str, str_eq, bytes, ◌==◌,
  if◌then◌else◌, length, ◌≡◌, refl, ◌∙◌, sym, ap, arith, Bool-cases, inl, inr,
}
use rt_5gc_service_consumers.JsonPatch.{
  Json, PatchItem, Operation, json_patch_new, index_path, if_any, made,
}
use rt_5gc_service_consumers.JsonPatch.Rfc6902.{apply_at, apply_whole}
use rt_5gc_service_consumers.JsonPatch.Prefix.{apply_local}
use rt_5gc_service_consumers.JsonPatch.Elements.{
  doc, apply_local-nil, snoc, next_length, add_one, append_one, remove_one, replace_one,
}
use rt_5gc_service_consumers.ListPatch.{
  list_not_empty, list_to_json, skip_equal, changed_entry, entry_loop, entries_patch_list,
  both_patch_list, list_patch_list,
}

-- The path that is taken to add an element leads to the place behind the last.
abbrev pub AddsLast : (ℕ → Str) → Type 0
AddsLast path =
    (i : ℕ) (v : Json) (ps : List PatchItem) (pre : List Json)
    → i ≡ length pre
    → apply_local (json_patch_new Operation.add (path i) (some v) ∷ ps) (doc (pre ++ []))
      ≡ apply_local ps (doc ((pre ++ v ∷ []) ++ []))

pub index_path-AddsLast : AddsLast index_path
index_path-AddsLast = add_one

pub dash-AddsLast : AddsLast (λ i. bytes "/-")
dash-AddsLast i v ps pre h = append_one v ps pre

pub if_any-made : (ps : List PatchItem) → made (if_any ps) ≡ ps
if_any-made [] = refl
if_any-made (p ∷ ps) = refl

module _ {A : Type 0} where
  abbrev pub elements : Option (List A) → List A
  elements none = []
  elements (some l) = l

  abbrev pub NotEmpty : Option (List A) → Type 0
  NotEmpty none = Unit {0}
  NotEmpty (some []) = ⊥
  NotEmpty (some (x ∷ l)) = Unit {0}

  pub list_not_empty-NotEmpty : (a : Option (List A)) → NotEmpty (list_not_empty a)
  unfolding list_not_empty
  list_not_empty-NotEmpty none = tt
  list_not_empty-NotEmpty (some []) = tt
  list_not_empty-NotEmpty (some (x ∷ l)) = ground arith

  pub elements-list_not_empty : (a : Option (List A)) → elements (list_not_empty a) ≡ elements a
  unfolding list_not_empty
  elements-list_not_empty none = refl
  elements-list_not_empty (some []) = refl
  elements-list_not_empty (some (x ∷ l)) = ground arith

module _ {A : Type 0} (to_json : A → Json) where
  abbrev pub present : Option (List A) → Option Json
  present none = none
  present (some a) = some (list_to_json to_json a)

  -- The member that the MB-SMF holds for a list: absent for NULL and for the empty list.
  abbrev pub list_member : Option (List A) → Option Json
  list_member a = present (list_not_empty a)

module _ {A : Type 0} (equal : A → A → Bool) where
  -- The two lists have equal elements, place by place.
  abbrev pub AllEqual : List A → List A → Type 0
  AllEqual [] [] = Unit {0}
  AllEqual [] (y ∷ b) = ⊥
  AllEqual (x ∷ a) [] = ⊥
  AllEqual (x ∷ a) (y ∷ b) = (equal x y ≡ true) × AllEqual a b

  AllEqual-refl : ((x : A) → equal x x ≡ true) → (a : List A) → AllEqual a a
  AllEqual-refl r [] = tt
  AllEqual-refl r (x ∷ a) = (r x, AllEqual-refl r a)

  -- Element by element the first list's are kept where they are equal.
  merged : List A → List A → List A
  merged a [] = []
  merged [] (y ∷ b) = y ∷ merged [] b
  merged (x ∷ a) (y ∷ b) = (if equal x y then x else y) ∷ merged a b

  merged_eq :
      (x y : A) (a b : List A) → merged (x ∷ a) (y ∷ b) ≡ (if equal x y then x else y) ∷ merged a b
  unfolding merged
  merged_eq x y a b = refl

  merged-AllEqual : ((x : A) → equal x x ≡ true) → (a b : List A) → AllEqual (merged a b) b
  unfolding merged
  merged-AllEqual r [] [] = tt
  merged-AllEqual r (x ∷ a) [] = tt
  merged-AllEqual r [] (y ∷ b) = (r y, merged-AllEqual r [] b)
  merged-AllEqual r (x ∷ a) (y ∷ b) = (same x y, merged-AllEqual r a b)
    where
      same : (x y : A) → equal (if equal x y then x else y) y ≡ true
      same x y = elim (Bool-cases (equal x y)) [ inl e ↦ rw e e | inr e ↦ rw e (r y) ]

  module _ (to_json : A → Json) (path : ℕ → Str) (last : AddsLast path) where
    abbrev json : List A → List Json
    json = map to_json

    changed_entry-apply :
        (i : ℕ) (x y : A) (ps : List PatchItem) (pre xs : List Json)
        → i ≡ length pre
        → apply_local (changed_entry equal to_json path i x y ++ ps) (doc (pre ++ to_json x ∷ xs))
          ≡ apply_local ps (doc (pre ++ to_json (if equal x y then x else y) ∷ xs))
    unfolding changed_entry
    changed_entry-apply i x y ps pre xs e = elim (Bool-cases (equal x y)) [
      | inl k ↦ rw k refl
      | inr k ↦ rw k (replace_one i (to_json x) (to_json y) ps pre xs e)
    ]

    entry_loop-apply :
        (i : ℕ) (a b : List A) (pre : List Json)
        → i ≡ length pre
        → apply_local (entry_loop equal to_json path i a b) (doc (pre ++ json a))
          ≡ some (doc (pre ++ json (merged a b)))
    unfolding entry_loop merged
    entry_loop-apply i [] [] pre e = apply_local-nil (doc (pre ++ []))
    entry_loop-apply i [] (y ∷ b) pre e =
        let v = to_json y in
        last i v (entry_loop equal to_json path (i + 1) [] b) pre e
        ∙ rw (← snoc pre (json (merged [] b)) v)
            (entry_loop-apply (i + 1) [] b (pre ++ v ∷ []) (next_length pre v i e))
    entry_loop-apply i (x ∷ a) [] pre e =
        remove_one i (to_json x) (entry_loop equal to_json path i a []) pre (json a) e
        ∙ entry_loop-apply i a [] pre e
    entry_loop-apply i (x ∷ a) (y ∷ b) pre e =
        let v = to_json (if equal x y then x else y) in
        changed_entry-apply i x y (entry_loop equal to_json path (i + 1) a b) pre (json a) e
        ∙ rw (← snoc pre (json a) v, ← snoc pre (json (merged a b)) v)
            (entry_loop-apply (i + 1) a b (pre ++ v ∷ []) (next_length pre v i e))

    pub skip_equal-cons :
        (i : ℕ) (x y : A) (a b : List A)
        → skip_equal equal i (x ∷ a) (y ∷ b)
          ≡ (if equal x y then skip_equal equal (i + 1) a b else (i, x ∷ a, y ∷ b))
    unfolding skip_equal
    skip_equal-cons i x y a b = refl

    entry_loop-cons_equal :
        (i : ℕ) (x y : A) (a b : List A)
        → equal x y ≡ true
        → entry_loop equal to_json path i (x ∷ a) (y ∷ b)
          ≡ entry_loop equal to_json path (i + 1) a b
    unfolding entry_loop changed_entry
    entry_loop-cons_equal i x y a b e = rw e refl

    pub skip_equal-ends :
        (i : ℕ) (a b : List A)
        → (skip_equal equal i [] b ≡ (i, [], b)) × (skip_equal equal i a [] ≡ (i, a, []))
    unfolding skip_equal
    skip_equal-ends i [] b = (refl, refl)
    skip_equal-ends i (x ∷ a) b = (refl, refl)

    abbrev pub loop_from : ℕ × List A × List A → List PatchItem
    loop_from r = entry_loop equal to_json path r.0 r.1 r.2

    -- The rounds that the skipped front would have had make no patch.
    pub entry_loop-skip_equal :
        (i : ℕ) (a b : List A)
        → loop_from (skip_equal equal i a b) ≡ entry_loop equal to_json path i a b
    entry_loop-skip_equal i [] b = ap loop_from (skip_equal-ends i [] b).0
    entry_loop-skip_equal i (x ∷ a) [] = ap loop_from (skip_equal-ends i (x ∷ a) []).1
    entry_loop-skip_equal i (x ∷ a) (y ∷ b) =
        ap loop_from (skip_equal-cons i x y a b) ∙ elim (Bool-cases (equal x y)) [
          | inl e ↦
              rw e (entry_loop-skip_equal (i + 1) a b ∙ sym (entry_loop-cons_equal i x y a b e))
          | inr e ↦ rw e refl
        ]

    list_member-cons :
        (x : A) (l : List A) → list_member to_json (some (x ∷ l)) ≡ doc (json (x ∷ l))
    unfolding list_not_empty list_to_json
    list_member-cons x l = ground arith

    present-doc : (x : A) (l : List A) → present to_json (some (x ∷ l)) ≡ doc (json (x ∷ l))
    unfolding list_to_json
    present-doc x l = refl

    -- The patches turn the member into that of a list like the second.
    abbrev Turns : Option (List PatchItem) → Option (List A) → Option (List A) → Type 0
    Turns ps a b =
        (c : List A) × (apply_local (made ps) (present to_json a)
          ≡ some (list_member to_json (some c)))
        × AllEqual c (elements b)

    entries-whole :
        (a b : List A) (r : ℕ × List A × List A)
        → (r.0 == 0) ≡ true
        → apply_local
            (made (entries_patch_list equal to_json path a b r))
            (present to_json (some a))
          ≡ some (present to_json (some b))
    unfolding entries_patch_list apply_local json_patch_new apply_at apply_whole str_eq
    entries-whole a b (i, a', b') e = elim (Bool-cases (length a == 0)) [
      | inl k ↦ rw (e, k) refl
      | inr k ↦ rw (e, k) refl
    ]

    pub entries-each :
        (a b : List A) (r : ℕ × List A × List A)
        → (r.0 == 0) ≡ false
        → made (entries_patch_list equal to_json path a b r) ≡ loop_from r
    unfolding entries_patch_list
    entries-each a b (i, a', b') e = rw e (if_any-made (entry_loop equal to_json path i a' b'))

    entries-Turns :
        ((x : A) → equal x x ≡ true)
        → (x y : A) (a b : List A)
        → Turns
            (entries_patch_list equal to_json path
              (x ∷ a)
              (y ∷ b)
              (skip_equal equal 0 (x ∷ a) (y ∷ b)))
            (some (x ∷ a))
            (some (y ∷ b))
    entries-Turns r x y a b = elim (Bool-cases ((skip_equal equal 0 (x ∷ a) (y ∷ b)).0 == 0)) [
      | inl e ↦ (
        y ∷ b,
        entries-whole (x ∷ a) (y ∷ b) (skip_equal equal 0 (x ∷ a) (y ∷ b)) e
            ∙ ap some (present-cons y b),
        AllEqual-refl r (y ∷ b),
      )
      | inr e ↦ (
        merged (x ∷ a) (y ∷ b),
        rw
            (
              entries-each (x ∷ a) (y ∷ b) (skip_equal equal 0 (x ∷ a) (y ∷ b)) e,
              entry_loop-skip_equal 0 (x ∷ a) (y ∷ b),
              present-doc x a,
            )
            (entry_loop-apply 0 (x ∷ a) (y ∷ b) [] refl ∙ ap some (merged-cons x y a b)),
        merged-AllEqual r (x ∷ a) (y ∷ b),
      )
    ]
      where
        present-cons :
            (y : A) (b : List A)
            → present to_json (some (y ∷ b)) ≡ list_member to_json (some (y ∷ b))
        present-cons y b = present-doc y b ∙ sym (list_member-cons y b)

        merged-cons :
            (x y : A) (a b : List A)
            → doc ([] ++ json (merged (x ∷ a) (y ∷ b)))
              ≡ list_member to_json (some (merged (x ∷ a) (y ∷ b)))
        merged-cons x y a b =
            ap (λ (l : List A). doc (json l)) (merged_eq x y a b)
            ∙ sym (list_member-cons (if equal x y then x else y) (merged a b))
            ∙ ap (λ (l : List A). list_member to_json (some l)) (sym (merged_eq x y a b))

    both-Turns :
        ((x : A) → equal x x ≡ true)
        → (a b : Option (List A)) → NotEmpty a
        → NotEmpty b
        → Turns (both_patch_list equal to_json path a b) a b
    unfolding both_patch_list apply_local json_patch_new apply_at apply_whole str_eq list_not_empty
    both-Turns r none none p q = ([], refl, tt)
    both-Turns r none (some []) p q = absurd q
    both-Turns r none (some (y ∷ b)) p q =
        (y ∷ b, ap some (present-doc y b ∙ sym (list_member-cons y b)), AllEqual-refl r (y ∷ b))
    both-Turns r (some []) b p q = absurd p
    both-Turns r (some (x ∷ a)) none p q = ([], refl, tt)
    both-Turns r (some (x ∷ a)) (some []) p q = absurd q
    both-Turns r (some (x ∷ a)) (some (y ∷ b)) p q = entries-Turns r x y a b

    -- The patches between two lists, applied to the member that stands for the first, give the member
    -- of a list that has, place by place, elements equal to those of the second.
    pub list_patch_list-apply :
        ((x : A) → equal x x ≡ true)
        → (a b : Option (List A))
        → (c : List A) × (apply_local
              (made (list_patch_list equal to_json path a b))
              (list_member to_json a)
            ≡ some (list_member to_json (some c)))
          × AllEqual c (elements b)
    unfolding list_patch_list
    list_patch_list-apply r a b =
        let (c, e, k) =
          both-Turns r (list_not_empty a) (list_not_empty b) (list_not_empty-NotEmpty a)
            (list_not_empty-NotEmpty b) in
        (c, e, rw (elements-list_not_empty b) at k)
