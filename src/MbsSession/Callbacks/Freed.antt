-- ===== src/MbsSession/Callbacks/Freed.antt =====
-- Callback data is freed once, and never while a slot still holds it.
use rt_5gc_service_consumers.Common.{
  ℕ, Bool, true, false, ◌||◌, List, [], ◌∷◌, ◌++◌, map, Option, none, some, ◌==◌, has, Distinct,
  ◌≡◌, ◌≢◌, ◌⊎◌, refl, arith, Distinct-append,
}
use rt_5gc_service_consumers.MbsSession.Callbacks.{
  Slots, release_callback_data, set_create_callback_freefn, set_update_callback_freefn,
  set_delete_callback_freefn, set_callback_freefn,
}

abbrev pub is : Option ℕ → ℕ → Bool
is none d = false
is (some e) d = e == d

-- A slot holds the datum.
abbrev pub held : Slots → ℕ → Bool
held s d =
    is s.create_result_cb_data d || (is s.update_result_cb_data d || is s.delete_result_cb_data d)

abbrev pub freed_data : List (ℕ × ℕ) → List ℕ
freed_data = map (λ e. e.1)

-- From `s` to `t` the data `f` was freed, while the datum `p` was put into a slot, if any.
pub record Frees (p : Option ℕ) (s t : Slots) (f : List (ℕ × ℕ)) : Type 0 where
  pub was_held : (d : ℕ) → has d (freed_data f) ≡ true → held s d ≡ true
  pub let_go : (d : ℕ) → has d (freed_data f) ≡ true → held t d ≡ false
  pub once : Distinct (freed_data f)
  pub from_before : (d : ℕ) → held t d ≡ true → (held s d ≡ true) ⊎ (is p d ≡ true)
  pub put : (d : ℕ) → is p d ≡ true → held t d ≡ true

module _ (s : Slots) (callback p free : Option ℕ) where
  set_create-Frees : let (t, f) = set_create_callback_freefn s callback p free in Frees p s t f
  unfolding set_create_callback_freefn
  set_create-Frees = record {
    was_held = λ d h. ground arith;
    let_go = λ d h. ground arith;
    once = ground arith;
    from_before = λ d h. ground arith;
    put = λ d h. ground arith;
  }

  set_update-Frees : let (t, f) = set_update_callback_freefn s callback p free in Frees p s t f
  unfolding set_update_callback_freefn
  set_update-Frees = record {
    was_held = λ d h. ground arith;
    let_go = λ d h. ground arith;
    once = ground arith;
    from_before = λ d h. ground arith;
    put = λ d h. ground arith;
  }

  set_delete-Frees : let (t, f) = set_delete_callback_freefn s callback p free in Frees p s t f
  unfolding set_delete_callback_freefn
  set_delete-Frees = record {
    was_held = λ d h. ground arith;
    let_go = λ d h. ground arith;
    once = ground arith;
    from_before = λ d h. ground arith;
    put = λ d h. ground arith;
  }

has-freed :
    (d : ℕ) (f g : List (ℕ × ℕ))
    → has d (freed_data (f ++ g)) ≡ (has d (freed_data f) || has d (freed_data g))
has-freed d [] g = refl
has-freed d (x ∷ f) g = ground (arith, has-freed d f g)

freed-append : (f g : List (ℕ × ℕ)) → freed_data (f ++ g) ≡ freed_data f ++ freed_data g
freed-append [] g = refl
freed-append (x ∷ f) g = ground (arith, freed-append f g)

Frees-trans :
    (p : Option ℕ) (s t u : Slots) (f g : List (ℕ × ℕ))
    → Frees p s t f
    → Frees p t u g
    → Frees p s u (f ++ g)
Frees-trans p s t u f g a b = record {
  was_held = λ d h.
      ground
        (arith, has-freed d f g, a.was_held d, b.was_held d, a.from_before d, b.put d, b.let_go d);
  let_go = λ d h. ground (arith, has-freed d f g, a.let_go d, b.let_go d, b.from_before d, a.put d);
  once = rw (freed-append f g) (
      Distinct-append (freed_data f) (freed_data g) a.once b.once
        (λ d h. ground (arith, a.let_go d, b.was_held d)));
  from_before = λ d h. ground (arith, a.from_before d, b.from_before d);
  put = b.put;
}

-- To set the three callbacks of a session frees each datum at most once, frees only data that a slot
-- held before and that no slot holds afterwards, and leaves the new datum held.
pub set_callback_freefn-Frees :
    (s : Slots) (callback p free : Option ℕ)
    → let (t, f) = set_callback_freefn s callback p free in Frees p s t f
unfolding set_callback_freefn
set_callback_freefn-Frees s callback p free =
    let s₁ = set_create_callback_freefn s callback p free in
    let s₂ = set_update_callback_freefn s₁.0 callback p free in
    let s₃ = set_delete_callback_freefn s₂.0 callback p free in
    Frees-trans p s s₁.0 s₃.0 s₁.1 (s₂.1 ++ s₃.1) (set_create-Frees s callback p free) (
      Frees-trans p s₁.0 s₂.0 s₃.0 s₂.1 s₃.1 (set_update-Frees s₁.0 callback p free)
        (set_delete-Frees s₂.0 callback p free))

-- Every slot has a function that frees its datum.
abbrev pub AllFree : Slots → Type 0
AllFree s =
    (s.create_cb_data_free ≢ none) × (s.update_cb_data_free ≢ none) × (s.delete_cb_data_free ≢ none)

-- When the session is deleted each datum that a slot held is freed exactly once if every slot has a
-- free function, and no slot holds a datum afterwards.
pub release_callback_data_lem :
    (s : Slots)
    → AllFree s
    → let (t, f) = release_callback_data s in
      ((d : ℕ) → has d (freed_data f) ≡ held s d)
      × Distinct (freed_data f)
      × ((d : ℕ) → held t d ≡ false)
unfolding release_callback_data
release_callback_data_lem s h = (λ d. ground arith, ground arith, λ d. ground arith)
