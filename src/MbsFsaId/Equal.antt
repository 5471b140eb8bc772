-- ===== src/MbsFsaId/Equal.antt =====
-- Equality of lists of area ids.
use rt_5gc_service_consumers.Common.{
  ℕ, suc, true, List, [], ◌∷◌, map, Option, none, some, ◌≡◌, ◌↔◌, refl, arith, ◌==◌, length,
  Bool-cases, inl, inr, ap,
}
use rt_5gc_service_consumers.MbsFsaId.{
  Store, Ptr, mbs_fsa_id_equal, all_equal, lists_equal, mbs_fsa_ids_equal,
}

-- The ids of a list, in order; `none` for NULL.
abbrev pub ids : Store → Option Ptr → Option (List ℕ)
ids s none = none
ids s (some l) = some (map s.fsa_id (s.list l))

pub mbs_fsa_id_equal_iff :
    (s : Store) (a b : Ptr)
    → (mbs_fsa_id_equal s (some a) (some b) ≡ true) ↔ (s.fsa_id a ≡ s.fsa_id b)
unfolding mbs_fsa_id_equal
mbs_fsa_id_equal_iff s a b = elim (Bool-cases (a == b)) [
  | inl e ↦ let p : a ≡ b = ground arith in (λ _. ap s.fsa_id p, λ _. rw e)
  | inr e ↦ rw e (ground arith)
]

all_equal-ids :
    (s : Store) (a b : List Ptr)
    → length a ≡ length b
    → (all_equal s a b ≡ true) ↔ (map s.fsa_id a ≡ map s.fsa_id b)
unfolding all_equal
all_equal-ids s [] [] h = (λ _. refl, λ _. refl)
all_equal-ids s [] (y ∷ b) h = absurd (omega arith)
all_equal-ids s (x ∷ a) [] h = absurd (omega arith)
all_equal-ids s (x ∷ a) (y ∷ b) h =
    ground (arith, mbs_fsa_id_equal_iff s x y, all_equal-ids s a b (omega arith))

length-ids : (s : Store) (a b : List Ptr) → map s.fsa_id a ≡ map s.fsa_id b → length a ≡ length b
length-ids s [] [] h = refl
length-ids s [] (y ∷ b) h = cc
length-ids s (x ∷ a) [] h = cc
length-ids s (x ∷ a) (y ∷ b) h = ap {B = ℕ} (λ n. suc n) (length-ids s a b (ground arith))

-- Two lists of area ids are equal exactly when both are NULL, or neither is and they hold the same
-- ids in the same order.
pub mbs_fsa_ids_equal_iff :
    (s : Store) (a b : Option Ptr) → (mbs_fsa_ids_equal s a b ≡ true) ↔ (ids s a ≡ ids s b)
unfolding mbs_fsa_ids_equal lists_equal
mbs_fsa_ids_equal_iff s none none = (λ _. refl, λ _. refl)
mbs_fsa_ids_equal_iff s none (some b) = (λ h. cc, λ h. cc)
mbs_fsa_ids_equal_iff s (some a) none = (λ h. cc, λ h. cc)
mbs_fsa_ids_equal_iff s (some a) (some b) = elim (Bool-cases (a == b)) [
  | inl e ↦ let p : a ≡ b = ground arith in (λ _. rw p, λ _. rw e)
  | inr e ↦ elim (Bool-cases (length (s.list a) == length (s.list b))) [
    | inl k ↦
        let iff = all_equal-ids s (s.list a) (s.list b) (ground arith) in
        rw (e, k) (ground (arith, iff))
    | inr k ↦ rw (e, k) (λ h. cc, λ h. absurd (ground (arith, length-ids s (s.list a) (s.list b))))
  ]
]
