-- ===== src/MbsFsaId/PatchList.antt =====
-- The patches between two lists of area ids, read as a JSON Patch document.
use rt_5gc_service_consumers.Common.{
  ℕ, ◌+◌, ◌<◌, List, [], ◌∷◌, ◌++◌, map, Option, none, some, Str, ◌≡◌, ◌↔◌, refl, ◌∙◌, arith, ◌==◌,
  leb, length, Bool-cases, inl, inr, ok, fault, str_eq,
}
use rt_5gc_service_consumers.JsonPatch.{
  Json, PatchItem, json_patch_new, made, if_any, json_patches_append_list,
}
use rt_5gc_service_consumers.JsonPatch.Rfc6902.{apply, apply_at, apply_whole}
use rt_5gc_service_consumers.JsonPatch.Prefix.{apply_local, all_valued}
use rt_5gc_service_consumers.JsonPatch.Elements.{
  appended, appended-fault_iff, doc, apply_local-nil, snoc, next_length, add_one, remove_one,
  replace_one,
}
use rt_5gc_service_consumers.MbsFsaId.Equal.{mbs_fsa_id_equal_iff}
use rt_5gc_service_consumers.MbsFsaId.{
  Store, Ptr, mbs_fsa_id_equal, mbs_fsa_id_to_json, mbs_fsa_ids_to_json, changed, patch_loop,
  not_empty, patch_list, mbs_fsa_ids_patch_list,
}

-- The member that the MB-SMF holds for a list: absent for NULL and for the empty list.
abbrev pub member : Store → Option Ptr → Option Json
member s a = mbs_fsa_ids_to_json s (not_empty s a)

module _ (s : Store) where
  abbrev json : List Ptr → List Json
  json = map (mbs_fsa_id_to_json s)

  same_json :
      (a b : Ptr) → s.fsa_id a ≡ s.fsa_id b → mbs_fsa_id_to_json s a ≡ mbs_fsa_id_to_json s b
  unfolding mbs_fsa_id_to_json
  same_json a b e = rw e

  changed-apply :
      (i : ℕ) (x y : Ptr) (ps : List PatchItem) (pre xs : List Json)
      → i ≡ length pre
      → apply_local (changed s i x y ++ ps) (doc (pre ++ mbs_fsa_id_to_json s x ∷ xs))
        ≡ apply_local ps (doc (pre ++ mbs_fsa_id_to_json s y ∷ xs))
  unfolding changed
  changed-apply i x y ps pre xs e = elim (Bool-cases (mbs_fsa_id_equal s (some x) (some y))) [
    | inl k ↦ rw (k, same_json x y ((mbs_fsa_id_equal_iff s x y).0 k))
    | inr k ↦ rw k (replace_one i (mbs_fsa_id_to_json s x) (mbs_fsa_id_to_json s y) ps pre xs e)
  ]

  patch_loop-apply :
      (i : ℕ) (a b : List Ptr) (pre : List Json)
      → i ≡ length pre
      → apply_local (patch_loop s i a b) (doc (pre ++ json a)) ≡ some (doc (pre ++ json b))
  unfolding patch_loop
  patch_loop-apply i [] [] pre e = apply_local-nil (doc (pre ++ []))
  patch_loop-apply i [] (y ∷ b) pre e =
      let v = mbs_fsa_id_to_json s y in
      add_one i v (patch_loop s (i + 1) [] b) pre e
      ∙ rw (← snoc pre (json b) v)
          (patch_loop-apply (i + 1) [] b (pre ++ v ∷ []) (next_length pre v i e))
  patch_loop-apply i (x ∷ a) [] pre e =
      remove_one i (mbs_fsa_id_to_json s x) (patch_loop s i a []) pre (json a) e
      ∙ patch_loop-apply i a [] pre e
  patch_loop-apply i (x ∷ a) (y ∷ b) pre e =
      let v = mbs_fsa_id_to_json s y in
      changed-apply i x y (patch_loop s (i + 1) a b) pre (json a) e
      ∙ rw (← snoc pre (json a) v, ← snoc pre (json b) v)
          (patch_loop-apply (i + 1) a b (pre ++ v ∷ []) (next_length pre v i e))

  if_any-made : (ps : List PatchItem) → made (if_any ps) ≡ ps
  if_any-made [] = refl
  if_any-made (p ∷ ps) = refl

  patch_list-apply :
      (a b : Option Ptr)
      → apply_local (made (patch_list s a b)) (mbs_fsa_ids_to_json s a)
        ≡ some (mbs_fsa_ids_to_json s b)
  unfolding patch_list apply_local json_patch_new apply_at apply_whole str_eq
  patch_list-apply none none = refl
  patch_list-apply none (some b) = refl
  patch_list-apply (some a) none = refl
  patch_list-apply (some a) (some b) = elim (Bool-cases (a == b)) [
    | inl k ↦ let e : a ≡ b = ground arith in rw (k, e)
    | inr k ↦
        rw (k, if_any-made (patch_loop s 0 (s.list a) (s.list b)))
          (patch_loop-apply 0 (s.list a) (s.list b) [] refl)
  ]

  -- The patches between two lists of area ids, applied as a JSON Patch to the member that stands for
  -- the first list, give the member that stands for the second, where an empty list and NULL stand
  -- for an absent member.
  pub mbs_fsa_ids_patch_list-apply :
      (a b : Option Ptr)
      → apply_local (made (mbs_fsa_ids_patch_list s a b)) (member s a) ≡ some (member s b)
  unfolding mbs_fsa_ids_patch_list
  mbs_fsa_ids_patch_list-apply a b = patch_list-apply (not_empty s a) (not_empty s b)

  -- Whenever the patches between two lists of area ids can be appended below a prefix, the patch
  -- document applied to the member at the prefix turns the first list into the second.
  pub mbs_fsa_ids_patch_list-append :
      (a b : Option Ptr) (prefix : Str) (q : Option (List PatchItem))
      → json_patches_append_list none (mbs_fsa_ids_patch_list s a b) (some prefix) ≡ ok q
      → apply prefix (made q) (member s a) ≡ some (member s b)
  mbs_fsa_ids_patch_list-append a b prefix q h =
      appended prefix (mbs_fsa_ids_patch_list s a b) q (member s a) h
      ∙ mbs_fsa_ids_patch_list-apply a b

  -- The number of ids, NULL counting as none.
  abbrev pub count : Option Ptr → ℕ
  count none = 0
  count (some l) = length (s.list l)

  patch_loop-valued :
      (i : ℕ) (a b : List Ptr) → all_valued (patch_loop s i a b) ≡ leb (length a) (length b)
  unfolding patch_loop changed all_valued json_patch_new
  patch_loop-valued i [] [] = refl
  patch_loop-valued i [] (y ∷ b) = ground (arith, patch_loop-valued (i + 1) [] b)
  patch_loop-valued i (x ∷ a) [] = ground arith
  patch_loop-valued i (x ∷ a) (y ∷ b) = ground (arith, patch_loop-valued (i + 1) a b)

  patch_list-valued :
      (a b : Option Ptr)
      → all_valued (made (mbs_fsa_ids_patch_list s a b)) ≡ leb (count a) (count b)
  unfolding mbs_fsa_ids_patch_list patch_list not_empty all_valued json_patch_new
  patch_list-valued none none = refl
  patch_list-valued none (some b) = ground arith
  patch_list-valued (some a) none = ground arith
  patch_list-valued (some a) (some b) = ground (
    arith,
    if_any-made (patch_loop s 0 (s.list a) (s.list b)),
    patch_loop-valued 0 (s.list a) (s.list b),
  )

  -- Appending the patches between two lists of area ids below a prefix reads through NULL exactly
  -- when the second list is shorter: then some patch is a removal, and it has no value.
  pub mbs_fsa_ids_patch_list-fault_iff :
      (a b : Option Ptr) (prefix : Option Str)
      → (json_patches_append_list none (mbs_fsa_ids_patch_list s a b) prefix ≡ fault)
        ↔ (count b < count a)
  mbs_fsa_ids_patch_list-fault_iff a b prefix =
      ground
        (arith, appended-fault_iff (mbs_fsa_ids_patch_list s a b) prefix, patch_list-valued a b)
