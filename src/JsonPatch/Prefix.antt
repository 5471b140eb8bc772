-- ===== src/JsonPatch/Prefix.antt =====
-- Copying the patches of a member below the member's path keeps their meaning; an item with no
-- value, such as every removal, is a fault.
use rt_5gc_service_consumers.Common.{
  Bool, true, false, ◌&&◌, List, [], ◌∷◌, ◌++◌, Option, none, some, Str, ok, fault, >>=-eq-ok,
  if◌then◌else◌, ◌≡◌, ◌↔◌, refl, ◌∙◌, arith, is_some, Bool-cases, inl, inr, Option-cases,
}
use mathlib.Core.List.{append-nil}
use rt_5gc_service_consumers.Common.{
  str_eq, str_eq_iff, bytes, length, ℕ, decimal, read_decimal, read_decimal-decimal,
  read_decimal-nil,
}
use rt_5gc_service_consumers.JsonPatch.{
  Operation, to_items, Json, PatchItem, is_root, prefixed_path, json_patch_new_copy_with_prefix,
  made, copy_all, json_patches_append_list,
}
use rt_5gc_service_consumers.JsonPatch.Rfc6902.{
  as_array, edit, element_index, apply_element, from_items-to_items, apply_at, strip, apply_item,
  apply, then_apply, strip-append,
}

-- Where an item acts, relative to the member that it was made for: `/` and no path are the member.
abbrev pub local_path : Option Str → Str
local_path none = []
local_path (some path) = if is_root path then [] else path

unfoldable pub apply_local : List PatchItem → Option Json → Option (Option Json)
apply_local [] m = some m
apply_local (p ∷ ps) m = then_apply (apply_local ps) (apply_at p.op p.value (local_path p.path) m)

unfoldable pub all_valued : List PatchItem → Bool
all_valued [] = true
all_valued (p ∷ ps) = is_some p.value && all_valued ps

apply-append :
    (member : Str) (ps qs : List PatchItem) (m : Option Json)
    → apply member (ps ++ qs) m ≡ then_apply (apply member qs) (apply member ps m)
unfolding apply
apply-append member [] qs m = refl
apply-append member (p ∷ ps) qs m = elim (Option-cases (apply_item member p m)) [
  | inl e ↦ rw e
  | inr (m', e) ↦ rw e (apply-append member ps qs m')
]

strip_all : (p : Str) → strip p p ≡ some []
strip_all p = rw append-nil at (strip-append p [])

strip-prefixed_path :
    (prefix : Str) (path : Option Str)
    → (s : Str) × (prefixed_path path (some prefix) ≡ some s)
      × (strip prefix s ≡ some (local_path path))
unfolding prefixed_path
strip-prefixed_path prefix none = (prefix, refl, strip_all prefix)
strip-prefixed_path prefix (some path) = elim (Bool-cases (is_root path)) [
  | inl e ↦ (prefix, rw e, rw e (strip_all prefix))
  | inr e ↦ (prefix ++ path, rw e, rw e (strip-append prefix path))
]

apply_item-copy :
    (prefix : Str) (p q : PatchItem) (m : Option Json)
    → json_patch_new_copy_with_prefix p (some prefix) ≡ ok q
    → apply_item prefix q m ≡ apply_at p.op p.value (local_path p.path) m
unfolding json_patch_new_copy_with_prefix apply_item
apply_item-copy prefix p q m h =
    let (s, e, k) = strip-prefixed_path prefix p.path in ground (arith, e, k)

apply_one :
    (prefix : Str) (q : PatchItem) (m : Option Json)
    → apply prefix (q ∷ []) m ≡ apply_item prefix q m
unfolding apply
apply_one prefix q m = elim (Option-cases (apply_item prefix q m)) [
  | inl e ↦ rw e
  | inr (m', e) ↦ rw e
]

copy_all-apply :
    (prefix : Str) (dst src qs : List PatchItem) (m : Option Json)
    → copy_all dst src (some prefix) ≡ ok qs
    → apply prefix qs m ≡ then_apply (apply_local src) (apply prefix dst m)
unfolding copy_all apply_local
copy_all-apply prefix dst [] qs m h = elim (Option-cases (apply prefix dst m)) [
  | inl e ↦ ground (arith, e)
  | inr (m', e) ↦ ground (arith, e)
]
copy_all-apply prefix dst (p ∷ src) qs m h =
    let (q, e, k) = >>=-eq-ok (json_patch_new_copy_with_prefix p (some prefix)) _ h in
    copy_all-apply prefix (dst ++ q ∷ []) src qs m k
    ∙ rw (apply-append prefix dst (q ∷ []) m) (elim (Option-cases (apply prefix dst m)) [
      | inl n ↦ rw n
      | inr (m', n) ↦ rw n (one_more p q src m' e)
    ])
  where
    one_more :
        (p q : PatchItem) (src : List PatchItem) (m' : Option Json)
        → json_patch_new_copy_with_prefix p (some prefix) ≡ ok q
        → then_apply (apply_local src) (apply prefix (q ∷ []) m') ≡ apply_local (p ∷ src) m'
    one_more p q src m' e = rw (apply_one prefix q m', apply_item-copy prefix p q m' e)

-- When patches are appended below a prefix and no item lacks a value, the new patch applied to the
-- member at the prefix does what the old patches do and then what the appended ones do relative to
-- the member, where the path `/` stands for the member itself.
pub json_patches_append_list-apply :
    (dst : Option (List PatchItem)) (src qs : List PatchItem) (prefix : Str) (m : Option Json)
    → json_patches_append_list dst (some src) (some prefix) ≡ ok (some qs)
    → apply prefix qs m ≡ then_apply (apply_local src) (apply prefix (made dst) m)
unfolding json_patches_append_list
json_patches_append_list-apply dst src qs prefix m h =
    copy_all-apply prefix (made dst) src qs m (ground arith)

copy_total :
    (p : PatchItem) (prefix : Option Str)
    → is_some p.value ≡ true
    → (q : PatchItem) × (json_patch_new_copy_with_prefix p prefix ≡ ok q)
unfolding json_patch_new_copy_with_prefix
copy_total p prefix h = elim (Option-cases p.value) [
  | inl e ↦ absurd (ground (arith, e))
  | inr (v, e) ↦ (
    record {
      op = p.op;
      path = prefixed_path p.path prefix;
      from = p.from;
      is_value_null = p.is_value_null;
      value = some v;
    },
    rw e,
  )
]

copy_fault :
    (p : PatchItem) (prefix : Option Str)
    → is_some p.value ≡ false
    → json_patch_new_copy_with_prefix p prefix ≡ fault
unfolding json_patch_new_copy_with_prefix
copy_fault p prefix h = ground arith

copy_all_total :
    (dst src : List PatchItem) (prefix : Option Str)
    → all_valued src ≡ true
    → (qs : List PatchItem) × (copy_all dst src prefix ≡ ok qs)
unfolding copy_all all_valued
copy_all_total dst [] prefix h = (dst, refl)
copy_all_total dst (p ∷ src) prefix h =
    let (q, e) = copy_total p prefix (ground arith) in
    rw e (copy_all_total (dst ++ q ∷ []) src prefix (ground arith))

copy_all_fault :
    (dst src : List PatchItem) (prefix : Option Str)
    → all_valued src ≡ false
    → copy_all dst src prefix ≡ fault
unfolding copy_all all_valued
copy_all_fault dst [] prefix h = cc
copy_all_fault dst (p ∷ src) prefix h = elim (Bool-cases (is_some p.value)) [
  | inl e ↦
      let (q, k) = copy_total p prefix e in
      rw k (copy_all_fault (dst ++ q ∷ []) src prefix (ground (arith, e)))
  | inr e ↦ rw (copy_fault p prefix e)
]

-- Appending patches reads through NULL exactly when an appended item has no value.
pub json_patches_append_list-fault_iff :
    (dst : Option (List PatchItem)) (src : List PatchItem) (prefix : Option Str)
    → (json_patches_append_list dst (some src) prefix ≡ fault) ↔ (all_valued src ≡ false)
unfolding json_patches_append_list
json_patches_append_list-fault_iff dst src prefix =
    (faulty, λ h. rw (copy_all_fault (made dst) src prefix h))
  where
    faulty : json_patches_append_list dst (some src) prefix ≡ fault → all_valued src ≡ false
    faulty h = elim (Bool-cases (all_valued src)) [
      | inl e ↦ let (qs, k) = copy_all_total (made dst) src prefix e in absurd (ground (arith, k))
      | inr e ↦ e
    ]

-- With a value in every item the append has a result.
pub json_patches_append_list-total :
    (dst : Option (List PatchItem)) (src : List PatchItem) (prefix : Option Str)
    → all_valued src ≡ true
    → (qs : List PatchItem) × (json_patches_append_list dst (some src) prefix ≡ ok (some qs))
unfolding json_patches_append_list
json_patches_append_list-total dst src prefix h =
    let (qs, k) = copy_all_total (made dst) src prefix h in (qs, rw k)

decimal-ne-nil : (n : ℕ) → is_root (b'/' ∷ decimal n) ≡ false
unfolding str_eq
decimal-ne-nil n = not_empty (decimal n) (read_decimal-decimal n)
  where
    not_empty : (s : Str) → read_decimal s ≡ some n → str_eq s [] ≡ false
    not_empty [] h = absurd (ground (arith, read_decimal-nil))
    not_empty (c ∷ s) h = refl

decimal-ne-dash : (n : ℕ) → str_eq (decimal n) (bytes "-") ≡ false
unfolding read_decimal
decimal-ne-dash n = elim (Bool-cases (str_eq (decimal n) (bytes "-"))) [
  | inl e ↦ absurd (ground (arith, read_decimal-decimal n, str_eq_iff (decimal n) (bytes "-")))
  | inr e ↦ e
]

-- An item with the path of an index acts on the element with the index.
pub apply_at-index :
    (op : Operation) (v : Option Json) (i : ℕ) (xs : List Json)
    → apply_at op v (local_path (some (b'/' ∷ decimal i))) (some (Json.array (to_items xs)))
      ≡ as_array (edit op v i xs)
unfolding apply_at element_index apply_element
apply_at-index op v i xs =
    rw (decimal-ne-nil i, from_items-to_items xs, decimal-ne-dash i, read_decimal-decimal i)

-- An item with the path `/-` that adds appends to the array.
pub apply_at-dash :
    (v : Option Json) (xs : List Json)
    → apply_at Operation.add v (local_path (some (bytes "/-"))) (some (Json.array (to_items xs)))
      ≡ as_array (edit Operation.add v (length xs) xs)
unfolding apply_at element_index apply_element str_eq
apply_at-dash v xs = rw (from_items-to_items xs)
