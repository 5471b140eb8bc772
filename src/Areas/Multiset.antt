-- ===== src/Areas/Multiset.antt =====
-- The comparison of two lists in any order, for a test that is an equivalence.
use rt_5gc_service_consumers.Common.{
  ℕ, suc, ◌+◌, Bool, true, ◌&&◌, List, [], ◌∷◌, none, some, ◌==◌, if◌then◌else◌, length, Bool-cases,
  Option-cases, inl, inr, ◌≡◌, ◌↔◌, refl, sym, arith,
}
use rt_5gc_service_consumers.Areas.ServiceArea.{find_and_remove, all_found}

module _ {A : Type 0} (equal : A → A → Bool) where
  -- How many elements of a list are equal to the given one.
  abbrev pub count : A → List A → ℕ
  count z [] = 0
  count z (y ∷ b) = (if equal z y then 1 else 0) + count z b

  -- For each element the two lists have as many that are equal to it.
  abbrev pub SameCounts : List A → List A → Type 0
  SameCounts a b = (z : A) → count z a ≡ count z b

  -- Equal elements have the same equal elements.
  pub record IsEquivalence : Type 0 where
    pub self : (x : A) → equal x x ≡ true
    pub same : (x y z : A) → equal x y ≡ true → equal z x ≡ equal z y

  module _ (eqv : IsEquivalence) where
    found-count :
        (x : A) (b left : List A)
        → find_and_remove equal x b ≡ some left
        → ((z : A) → count z b ≡ (if equal z x then 1 else 0) + count z left)
          × (length b ≡ suc (length left))
    unfolding find_and_remove
    found-count x [] left h = cc
    found-count x (y ∷ b) left h = elim (Bool-cases (equal x y)) [
      | inl e ↦ (λ z. ground (arith, e, h, eqv.same x y z e), ground (arith, e, h))
      | inr e ↦ elim (Option-cases (find_and_remove equal x b)) [
        | inl n ↦ absurd (ground (arith, e, n, h))
        | inr (l, n) ↦
            let rest = found-count x b l n in
            (λ z. ground (arith, e, n, h, rest.0 z), ground (arith, e, n, h, rest.1))
      ]
    ]

    not_found-count : (x : A) (b : List A) → find_and_remove equal x b ≡ none → count x b ≡ 0
    unfolding find_and_remove
    not_found-count x [] h = refl
    not_found-count x (y ∷ b) h = elim (Bool-cases (equal x y)) [
      | inl e ↦ absurd (ground (arith, e, h))
      | inr e ↦ elim (Option-cases (find_and_remove equal x b)) [
        | inl n ↦ ground (arith, e, n, h, not_found-count x b n)
        | inr (l, n) ↦ absurd (ground (arith, e, n, h))
      ]
    ]

    all_found-counts :
        (a b : List A) → length a ≡ length b → all_found equal a b ≡ true → SameCounts a b
    unfolding all_found
    all_found-counts [] [] n h z = refl
    all_found-counts [] (y ∷ b) n h z = absurd (omega arith)
    all_found-counts (x ∷ a) b n h z = elim (Option-cases (find_and_remove equal x b)) [
      | inl e ↦ absurd (ground (arith, e, h))
      | inr (left, e) ↦
          let found = found-count x b left e in
          let rest = all_found-counts a left (omega (arith, found.1)) (ground (arith, e, h)) z in
          omega (arith, found.0 z, rest)
    ]

    nothing_left : (a : List A) → SameCounts a [] → a ≡ []
    nothing_left [] h = refl
    nothing_left (x ∷ a) h = absurd (ground (arith, h x, eqv.self x))

    counts-all_found :
        (a b : List A) → SameCounts a b → (length a ≡ length b) × (all_found equal a b ≡ true)
    unfolding all_found
    counts-all_found [] b h = let empty = nothing_left b (λ z. sym (h z)) in rw empty (refl, refl)
    counts-all_found (x ∷ a) b h = elim (Option-cases (find_and_remove equal x b)) [
      | inl e ↦ absurd (ground (arith, h x, eqv.self x, not_found-count x b e))
      | inr (left, e) ↦
          let found = found-count x b left e in
          let rest = counts-all_found a left (λ z. omega (arith, h z, found.0 z)) in
          (omega (arith, rest.0, found.1), ground (arith, e, rest.1))
    ]

    -- Every element of the first list is found in turn, and removed from what is left of the second,
    -- which is as long, exactly when each element has equally many equal to it in both.
    pub all_found_iff :
        (a b : List A) → (((length a == length b) && all_found equal a b) ≡ true) ↔ SameCounts a b
    all_found_iff a b = (
      λ h. all_found-counts a b (ground arith) (ground arith),
      λ h. let (n, k) = counts-all_found a b h in ground (arith, n, k),
    )
