-- ===== src/SbiObject/Counted.antt =====
-- The invariant of reference counting: each count is the number of pointers that hold the object.
use rt_5gc_service_consumers.Common.{
  ℕ, ◌+◌, ◌-◌, ◌≤◌, List, [], ◌∷◌, ◌++◌, Option, none, some, ◌==◌, if◌then◌else◌, ok, ◌≡◌, refl,
  arith,
}
use rt_5gc_service_consumers.SbiObject.{
  Ref, Objects, set_count, ref_count_sbi_object_new, ref_count_sbi_object_ref,
  ref_count_sbi_object_unref,
}

abbrev pub holds : Option Ref → Ref → ℕ
holds none a = 0
holds (some b) a = if b == a then 1 else 0

-- How many of the pointers hold the object.
abbrev pub holders : List (Option Ref) → Ref → ℕ
holders [] a = 0
holders (p ∷ ps) a = holds p a + holders ps a

pub holders-append :
    (ps qs : List (Option Ref)) (a : Ref) → holders (ps ++ qs) a ≡ holders ps a + holders qs a
holders-append [] qs a = omega arith
holders-append (p ∷ ps) qs a = omega (arith, holders-append ps qs a)

pub record Counted (ps : List (Option Ref)) (s : Objects) : Type 0 where
  pub exact : (a : Ref) → s.ref_count a ≡ holders ps a
  pub fresh : (a : Ref) → s.next ≤ a → s.ref_count a ≡ 0

-- A new object is held by the pointer that is returned, and by no other.
pub ref_count_sbi_object_new-Counted :
    (ps : List (Option Ref)) (s : Objects)
    → Counted ps s
    → Counted (some s.next ∷ ps) (ref_count_sbi_object_new s).1
unfolding ref_count_sbi_object_new
ref_count_sbi_object_new-Counted ps s c = record {
  exact = λ a. ground (arith, c.exact a, c.fresh a);
  fresh = λ a h. ground (arith, c.fresh a);
}

-- Another pointer to an object that is held: the object is live and its count stays exact.
pub ref_count_sbi_object_ref-Counted :
    (p : Option Ref) (ps : List (Option Ref)) (s : Objects)
    → Counted (p ∷ ps) s
    → (t : Objects) × (ref_count_sbi_object_ref p s ≡ ok t)
      × Counted (p ∷ p ∷ ps) t
      × (t.next ≡ s.next)
unfolding ref_count_sbi_object_ref
ref_count_sbi_object_ref-Counted none ps s c =
    (s, refl, record { exact = λ a. ground (arith, c.exact a); fresh = c.fresh }, refl)
ref_count_sbi_object_ref-Counted (some b) ps s c = (
  set_count s b (s.ref_count b + 1),
  ground (arith, c.exact b),
  record {
    exact = λ a. ground (arith, c.exact a);
    fresh = λ a h. ground (arith, c.fresh a, c.exact b);
  },
  refl,
)

-- Dropping a pointer that is counted never meets a freed object, and the count stays exact.
pub ref_count_sbi_object_unref-Counted :
    (p : Option Ref) (ps : List (Option Ref)) (s : Objects)
    → Counted (p ∷ ps) s
    → (t : Objects) × (ref_count_sbi_object_unref p s ≡ ok t) × Counted ps t × (t.next ≡ s.next)
unfolding ref_count_sbi_object_unref
ref_count_sbi_object_unref-Counted none ps s c =
    (s, refl, record { exact = λ a. ground (arith, c.exact a); fresh = c.fresh }, refl)
ref_count_sbi_object_unref-Counted (some b) ps s c = (
  set_count s b (s.ref_count b - 1),
  ground (arith, c.exact b),
  record {
    exact = λ a. ground (arith, c.exact a);
    fresh = λ a h. ground (arith, c.fresh a, c.exact b);
  },
  refl,
)

-- The order of the pointers does not matter.
pub Counted-of_holders :
    (ps qs : List (Option Ref)) (s : Objects)
    → ((a : Ref) → holders ps a ≡ holders qs a)
    → Counted ps s
    → Counted qs s
Counted-of_holders ps qs s h c = record {
  exact = λ a. ground (arith, c.exact a, h a);
  fresh = c.fresh;
}
