-- ===== src/MbsFsaId/Copied.antt =====
-- What the copy of a list of area ids leaves.
use mathlib.Core.List.{append_assoc, append-nil}
use rt_5gc_service_consumers.Common.{
  ℕ, ◌+◌, ◌<◌, ◌≤◌, true, false, List, [], ◌∷◌, ◌++◌, map, none, some, if◌then◌else◌, ok, Distinct,
  has, ◌≡◌, refl, sym, ap, ◌∙◌, arith,
}
use rt_5gc_service_consumers.MbsFsaId.Copy.{
  Heap, set, mbs_fsa_id_new, mbs_fsa_id_free, set_fsa_id, get_id, fsa_id_destination,
  mbs_fsa_id_copy, mbs_fsa_ids_clear, copy_each, mbs_fsa_ids_copy,
}

-- Every object is below the next address that is given.
abbrev pub Below : Heap → Type 0
Below h = (a : ℕ) → h.live a ≡ true → a < h.fresh

-- Every entry is an object.
abbrev pub Live : Heap → List ℕ → Type 0
Live h l = (a : ℕ) → has a l ≡ true → h.live a ≡ true

clear_lem :
    (l : List ℕ) (h : Heap)
    → Distinct l
    → Live h l
    → (k : Heap) × (mbs_fsa_ids_clear l h ≡ ok k)
      × (k.id ≡ h.id)
      × (k.fresh ≡ h.fresh)
      × ((a : ℕ) → k.live a ≡ (if has a l then false else h.live a))
unfolding mbs_fsa_ids_clear mbs_fsa_id_free
clear_lem [] h d v = (h, refl, refl, refl, λ a. refl)
clear_lem (x ∷ l) h d v =
    let now : h.live x ≡ true = v x (ground arith) in
    let freed = record h { live = set x false h.live } in
    let (k, e, ids, same, gone) = clear_lem l freed d.1 (λ a m. ground (arith, v a, d.0, m)) in
    (k, rw now e, ids, same, λ a. ground (arith, gone a))

one_lem :
    (x : ℕ) (h : Heap)
    → h.live x ≡ true
    → Below h
    → (k : Heap) × (mbs_fsa_id_copy none (some x) h ≡ ok (k, some h.fresh))
      × (k.fresh ≡ h.fresh + 1)
      × (k.id h.fresh ≡ h.id x)
      × ((a : ℕ) → a < h.fresh → (k.id a ≡ h.id a) × (k.live a ≡ h.live a))
      × (k.live h.fresh ≡ true)
      × Below k
unfolding mbs_fsa_id_copy fsa_id_destination mbs_fsa_id_new get_id set_fsa_id
one_lem x h v b =
    let lower = b x v in
    let made : Heap = (mbs_fsa_id_new h).0 in
    (
      record made { id = set h.fresh (h.id x) made.id },
      ground (arith, v, lower),
      refl,
      ground arith,
      λ a m. (ground arith, ground arith),
      ground arith,
      λ a m. ground (arith, b a),
    )

map-same : (f g : ℕ → ℕ) (l : List ℕ) → ((a : ℕ) → has a l ≡ true → f a ≡ g a) → map f l ≡ map g l
map-same f g [] h = refl
map-same f g (x ∷ l) h =
    let here = h x (ground arith) in
    let rest = map-same f g l (λ a m. h a (ground (arith, m))) in cc

-- Every entry is an address that was not given before.
abbrev pub New : Heap → List ℕ → Type 0
New h l = (a : ℕ) → has a l ≡ true → h.fresh ≤ a

-- What was there is as it was.
abbrev pub Kept : Heap → Heap → Type 0
Kept h k = (a : ℕ) → a < h.fresh → (k.id a ≡ h.id a) × (k.live a ≡ h.live a)

-- The list is a fresh copy of the other.
abbrev Copies : Heap → Heap → List ℕ → List ℕ → Type 0
Copies h k l src =
    (map k.id l ≡ map h.id src) × Live k l × New h l × Distinct l × Kept h k × (h.fresh ≤ k.fresh)

copy_each-Copies :
    (src dst : List ℕ) (h : Heap)
    → Live h src
    → Below h
    → (k : Heap) × (l : List ℕ) × (copy_each dst src h ≡ ok (k, dst ++ l)) × Copies h k l src
unfolding copy_each
copy_each-Copies [] dst h v b = (
  h,
  [],
  ap (λ l. ok (h, l)) (sym (append-nil dst)),
  (refl, λ a m. cc, λ a m. cc, tt, λ a m. (refl, refl), omega arith),
)
copy_each-Copies (x ∷ src) dst h v b =
    let lower = λ (a : ℕ) (m : has a (x ∷ src) ≡ true). b a (v a m) in
    let (k₁, e, next, id, old, now, b₁) = one_lem x h (v x (ground arith)) b in
    let v₁ : Live k₁ src =
      λ a m. (old a (lower a (ground (arith, m)))).1 ∙ v a (ground (arith, m)) in
    let (k, l, f, copies) = copy_each-Copies src (dst ++ h.fresh ∷ []) k₁ v₁ b₁ in
    let (ids, live, new, apart, kept, up) = copies in
    let own = kept h.fresh (omega (arith, next)) in
    let others : map k₁.id src ≡ map h.id src =
      map-same k₁.id h.id src (λ a m. (old a (lower a (ground (arith, m)))).0) in
    let first : k.id h.fresh ≡ h.id x = own.0 ∙ id in
    (
      k,
      h.fresh ∷ l,
      rw (e, f) (ap (λ z. ok (k, z)) (append_assoc dst (h.fresh ∷ []) l)),
      (
        cc,
        λ a m. ground (arith, own.1, now, live a, m),
        λ a m. ground (arith, new a, next, m),
        (ground (arith, new h.fresh, next), apart),
        λ a m.
            let was = kept a (omega (arith, next, m)) in
            let is = old a m in (was.0 ∙ is.0, was.1 ∙ is.1),
        omega (arith, up, next),
      ),
    )

-- What a copy over the list `dst` leaves, when it is the list `l` in the heap `k`.
pub record Replaced (h k : Heap) (dst src l : List ℕ) : Type 0 where
  pub ids : map k.id l ≡ map h.id src
  pub objects : Live k l
  pub new : New h l
  pub distinct : Distinct l
  pub freed : (a : ℕ) → has a dst ≡ true → k.live a ≡ false
  pub others : (a : ℕ) → a < h.fresh → has a dst ≡ false → (k.id a ≡ h.id a) × (k.live a ≡ h.live a)

-- To copy a list of area ids over another meets no freed object when the lists name objects, the
-- other none twice, and share none: it frees each object of the other list, and makes a list of new
-- objects, none twice, with the ids of the copied list in order; nothing else changes.
pub mbs_fsa_ids_copy-Replaced :
    (dst src : List ℕ) (h : Heap)
    → Below h
    → Distinct dst
    → Live h dst
    → Live h src
    → ((a : ℕ) → has a src ≡ true → has a dst ≡ false)
    → (k : Heap) × (l : List ℕ) × (mbs_fsa_ids_copy dst src h ≡ ok (k, l)) × Replaced h k dst src l
unfolding mbs_fsa_ids_copy
mbs_fsa_ids_copy-Replaced dst src h b d v w apart =
    let (c, e, ids, fresh, gone) = clear_lem dst h d v in
    let still : Live c src = λ a m. ground (arith, gone a, apart a m, w a m) in
    let below : Below c = λ a m. ground (arith, gone a, fresh, b a, m) in
    let (k, l, f, copies) = copy_each-Copies src [] c still below in
    let (same, live, new, distinct, kept, up) = copies in
    (
      k,
      l,
      rw e f,
      record {
        ids = same ∙ ap (λ (g : ℕ → ℕ). map g src) ids;
        objects = live;
        new = λ a m. omega (arith, new a m, fresh);
        distinct = distinct;
        freed = λ a m.
            let was = kept a (omega (arith, b a (v a m), fresh)) in
            ground (arith, was.1, gone a, m);
        others = λ a m n.
            let was = kept a (omega (arith, m, fresh)) in
            (was.0 ∙ ap (λ (g : ℕ → ℕ). g a) ids, ground (arith, was.1, gone a, n));
      },
    )
