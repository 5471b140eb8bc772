-- ===== src/JsonPatch/Elements.antt =====
-- Items on the elements of an array, and lists of items appended to an empty list below a prefix.
use mathlib.Core.List.{append_assoc}
use rt_5gc_service_consumers.Common.{
  ℕ, ◌+◌, false, List, [], ◌∷◌, ◌++◌, Option, none, some, Str, ◌≡◌, ◌≢◌, ◌↔◌, refl, arith, length,
  length-append, Bool-cases, inl, inr, ok, fault, bytes,
}
use rt_5gc_service_consumers.JsonPatch.{
  Json, PatchItem, Operation, json_patch_new, to_items, made, json_patches_append_list, index_path,
}
use rt_5gc_service_consumers.JsonPatch.Rfc6902.{
  apply, edit, insert_at, insert_at-length, remove_at-length, replace_at-length,
}
use rt_5gc_service_consumers.JsonPatch.Prefix.{
  apply_local, all_valued, apply_at-index, apply_at-dash, json_patches_append_list-apply,
  json_patches_append_list-fault_iff, json_patches_append_list-total,
}

not_null :
    (src : List PatchItem) (prefix : Str)
    → json_patches_append_list none (some src) (some prefix) ≢ ok none
not_null src prefix h = elim (Bool-cases (all_valued src)) [
  | inl e ↦ let (qs, k) = json_patches_append_list-total none src (some prefix) e in cc
  | inr e ↦ let k = (json_patches_append_list-fault_iff none src (some prefix)).1 e in cc
]

-- Items that can be appended to none do below the prefix what they do on the member.
pub appended :
    (prefix : Str) (src q : Option (List PatchItem)) (m : Option Json)
    → json_patches_append_list none src (some prefix) ≡ ok q
    → apply prefix (made q) m ≡ apply_local (made src) m
unfolding json_patches_append_list apply apply_local
appended prefix none none m h = refl
appended prefix none (some q) m h = cc
appended prefix (some src) none m h = absurd (not_null src prefix h)
appended prefix (some src) (some q) m h = json_patches_append_list-apply none src q prefix m h

pub appended-fault_iff :
    (src : Option (List PatchItem)) (prefix : Option Str)
    → (json_patches_append_list none src prefix ≡ fault) ↔ (all_valued (made src) ≡ false)
unfolding json_patches_append_list all_valued
appended-fault_iff none prefix = (λ h. cc, λ h. cc)
appended-fault_iff (some src) prefix = json_patches_append_list-fault_iff none src prefix

abbrev pub doc : List Json → Option Json
doc xs = some (Json.array (to_items xs))

pub apply_local-nil : (m : Option Json) → apply_local [] m ≡ some m
unfolding apply_local
apply_local-nil m = refl

apply_local-cons :
    (op : Operation) (i : ℕ) (v : Option Json) (ps : List PatchItem) (xs ys : List Json)
    → edit op v i xs ≡ some ys
    → apply_local (json_patch_new op (index_path i) v ∷ ps) (doc xs) ≡ apply_local ps (doc ys)
unfolding apply_local json_patch_new
apply_local-cons op i v ps xs ys e = rw (apply_at-index op v i xs, e)

pub snoc : (pre xs : List Json) (x : Json) → (pre ++ x ∷ []) ++ xs ≡ pre ++ x ∷ xs
snoc pre xs x = append_assoc pre (x ∷ []) xs

pub next_length :
    (pre : List Json) (x : Json) (i : ℕ) → i ≡ length pre → i + 1 ≡ length (pre ++ x ∷ [])
next_length pre x i e = omega (arith, length-append pre (x ∷ []))

pub add_one :
    (i : ℕ) (v : Json) (ps : List PatchItem) (pre : List Json)
    → i ≡ length pre
    → apply_local (json_patch_new Operation.add (index_path i) (some v) ∷ ps) (doc (pre ++ []))
      ≡ apply_local ps (doc ((pre ++ v ∷ []) ++ []))
unfolding edit
add_one i v ps pre e =
    apply_local-cons Operation.add i (some v) ps (pre ++ []) _
      (rw (e, snoc pre [] v) (insert_at-length pre [] v))

-- The same by the path `/-`, at any index.
pub append_one :
    (v : Json) (ps : List PatchItem) (pre : List Json)
    → apply_local (json_patch_new Operation.add (bytes "/-") (some v) ∷ ps) (doc (pre ++ []))
      ≡ apply_local ps (doc ((pre ++ v ∷ []) ++ []))
unfolding apply_local json_patch_new edit
append_one v ps pre =
    let there : insert_at (length (pre ++ [])) v (pre ++ []) ≡ some (pre ++ v ∷ []) =
      rw (length-append pre [], add-zero (length pre)) (insert_at-length pre [] v) in
    rw (apply_at-dash (some v) (pre ++ []), there, snoc pre [] v)
  where
    add-zero : (n : ℕ) → n + 0 ≡ n
    add-zero n = omega arith

pub remove_one :
    (i : ℕ) (x : Json) (ps : List PatchItem) (pre xs : List Json)
    → i ≡ length pre
    → apply_local (json_patch_new Operation.remove (index_path i) none ∷ ps) (doc (pre ++ x ∷ xs))
      ≡ apply_local ps (doc (pre ++ xs))
unfolding edit
remove_one i x ps pre xs e =
    apply_local-cons Operation.remove i none ps (pre ++ x ∷ xs) _ (rw e (remove_at-length pre xs x))

pub replace_one :
    (i : ℕ) (x v : Json) (ps : List PatchItem) (pre xs : List Json)
    → i ≡ length pre
    → apply_local
        (json_patch_new Operation.replace (index_path i) (some v) ∷ ps)
        (doc (pre ++ x ∷ xs))
      ≡ apply_local ps (doc (pre ++ v ∷ xs))
unfolding edit
replace_one i x v ps pre xs e =
    apply_local-cons Operation.replace i (some v) ps (pre ++ x ∷ xs) _
      (rw e (replace_at-length pre xs x v))
