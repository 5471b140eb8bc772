-- ===== src/Pcf/Context/Search.antt =====
-- The search for an app session by its id.
use rt_5gc_service_consumers.Common.{
  ℕ, true, false, List, [], ◌∷◌, Option, none, some, Str, ok, fault, has, str_eq, str_eq_iff, ◌≡◌,
  ◌⊎◌, refl, sym, ap, ◌∙◌, arith, Bool-cases, Option-cases, inl, inr,
}
use rt_5gc_service_consumers.Pcf.Context.{PcfContext, deref_session, same_id, find_by_id}

-- The search by id, over app sessions that are ones.
abbrev pub Found : Option Str → List ℕ → PcfContext → Type 0
Found i l c =
    ((find_by_id i l c ≡ fault)
      × ((i ≡ none) ⊎ ((b : ℕ) × (has b l ≡ true) × ((c.app_session b).pcf_app_session_id ≡ none))))
    ⊎ ((find_by_id i l c ≡ ok none)
        ⊎ ((b : ℕ) × (find_by_id i l c ≡ ok (some b))
            × (has b l ≡ true)
            × ((c.app_session b).pcf_app_session_id ≡ i)))

skip :
    (i : Str) (a : ℕ) (j : Str) (l : List ℕ) (c : PcfContext)
    → (c.app_session a).pcf_app_session_id ≡ some j
    → str_eq i j ≡ false
    → c.live a ≡ true
    → find_by_id (some i) (a ∷ l) c ≡ find_by_id (some i) l c
unfolding find_by_id deref_session
skip i a j l c f g now = rw now (rw (f, same_id) (rw g refl))

later :
    (i : Str) (a : ℕ) (j : Str) (l : List ℕ) (c : PcfContext)
    → (c.app_session a).pcf_app_session_id ≡ some j
    → str_eq i j ≡ false
    → c.live a ≡ true
    → Found (some i) l c
    → Found (some i) (a ∷ l) c
later i a j l c f g now (inl (r, inl none_given)) = cc
later i a j l c f g now (inl (r, inr (b, m, n))) =
    inl (skip i a j l c f g now ∙ r, inr (b, ground (arith, m), n))
later i a j l c f g now (inr (inl r)) = inr (inl (skip i a j l c f g now ∙ r))
later i a j l c f g now (inr (inr (b, r, m, n))) =
    inr (inr (b, skip i a j l c f g now ∙ r, ground (arith, m), n))

pub find_by_id-Found :
    (i : Option Str) (l : List ℕ) (c : PcfContext)
    → ((b : ℕ) → has b l ≡ true → c.live b ≡ true)
    → Found i l c
unfolding find_by_id deref_session
find_by_id-Found i [] c h = inr (inl refl)
find_by_id-Found none (a ∷ l) c h = inl (rw (h a (ground arith)) refl, inl refl)
find_by_id-Found (some i) (a ∷ l) c h =
    let now = h a (ground arith) in
    elim (Option-cases (c.app_session a).pcf_app_session_id) [
      | inl f ↦ inl (rw now (rw (f, same_id) refl), inr (a, ground arith, f))
      | inr (j, f) ↦ elim (Bool-cases (str_eq i j)) [
        | inl g ↦ inr (
            inr (
              a,
              rw now (rw (f, same_id) (rw g refl)),
              ground arith,
              rw f (ap some (sym ((str_eq_iff i j).0 g))),
            ))
        | inr g ↦
            later i a j l c f g now (find_by_id-Found (some i) l c (λ b m. h b (ground (arith, m))))
      ]
    ]
