-- ===== src/JsonPatch/Joined.antt =====
-- A patch that is put together from the patches below several members.
use rt_5gc_service_consumers.Common.{
  Bool, true, false, ◌&&◌, ◌||◌, List, [], ◌∷◌, ◌++◌, Str, str_eq, str_eq_iff, ◌==◌, if◌then◌else◌,
  Bool-cases, inl, inr, ◌≡◌, refl, ap, ◌∙◌, arith,
}
use rt_5gc_service_consumers.JsonPatch.{PatchItem}
use rt_5gc_service_consumers.JsonPatch.Rfc6902.{strip}
use rt_5gc_service_consumers.JsonPatch.Below.{
  Apart, Belong, items_below, items_below-append, items_below-Belong, items_below-Apart,
}

-- Two paths that differ in some byte.
abbrev pub differ : Str → Str → Bool
differ [] q = false
differ (c ∷ p) [] = false
differ (c ∷ p) (d ∷ q) = if c == d then differ p q else true

differ-Apart : (p q : Str) → differ p q ≡ true → Apart p q
unfolding strip
differ-Apart [] q h s = cc
differ-Apart (c ∷ p) [] h s = cc
differ-Apart (c ∷ p) (d ∷ q) h s = elim (Bool-cases (c == d)) [
  | inl e ↦ ground (arith, e, h, differ-Apart p q (ground (arith, e, h)) s)
  | inr e ↦ ground (arith, e)
]

abbrev pub joined : List (Str × List PatchItem) → List PatchItem
joined [] = []
joined (p ∷ ps) = p.1 ++ joined ps

abbrev pub AllBelong : List (Str × List PatchItem) → Type 0
AllBelong [] = Unit {0}
AllBelong (p ∷ ps) = Belong p.0 p.1 × AllBelong ps

-- Each path is the given one or differs from it in some byte.
abbrev pub told_apart : Str → List (Str × List PatchItem) → Bool
told_apart m [] = true
told_apart m (p ∷ ps) = (str_eq m p.0 || differ m p.0) && told_apart m ps

abbrev pub select : Str → List (Str × List PatchItem) → List PatchItem
select m [] = []
select m (p ∷ ps) = if str_eq m p.0 then p.1 ++ select m ps else select m ps

pub joined-select :
    (m : Str) (ps : List (Str × List PatchItem))
    → AllBelong ps
    → told_apart m ps ≡ true
    → items_below m (joined ps) ≡ select m ps
joined-select m [] b h = refl
joined-select m (p ∷ ps) (b, bs) h =
    items_below-append m p.1 (joined ps) ∙ elim (Bool-cases (str_eq m p.0)) [
      | inl e ↦
          let same : p.0 ≡ m = ground (arith, e, str_eq_iff m p.0) in
          let own : Belong m p.1 = rw same at b in
          rw (e, items_below-Belong m p.1 own)
            (ap (λ l. p.1 ++ l) (joined-select m ps bs (ground (arith, h))))
      | inr e ↦
          let other = differ-Apart m p.0 (ground (arith, h, e)) in
          rw (e, items_below-Apart m p.0 p.1 other b) (joined-select m ps bs (ground (arith, h)))
    ]
