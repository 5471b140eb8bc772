-- ===== src/MbsFsaId/Examples.antt =====
-- The theorems on area ids at concrete lists.
use rt_5gc_service_consumers.Common.{
  ℕ, ◌<◌, ◌%◌, ◌^◌, List, [], ◌∷◌, Option, none, some, bytes, Str, ok, fault, ◌≡◌, ◌↔◌, refl, ◌==◌,
  if◌then◌else◌, length, read_hex, Run,
}
use rt_5gc_service_consumers.JsonPatch.{PatchItem, json_patch_new, json_patches_append_list, made}
use rt_5gc_service_consumers.JsonPatch.Rfc6902.{apply}
use rt_5gc_service_consumers.MbsFsaId.{
  Store, Ptr, mbs_fsa_id_to_openapi, mbs_fsa_ids_patch_list, mbs_fsa_id_equal,
}
use rt_5gc_service_consumers.Common.{Distinct, ltb, arith}
use rt_5gc_service_consumers.MbsFsaId.Copy.{Heap, mbs_fsa_ids_copy}
use rt_5gc_service_consumers.MbsFsaId.Copied.{Below, Replaced, mbs_fsa_ids_copy-Replaced}
use rt_5gc_service_consumers.MbsFsaId.PatchList.{
  member, count, mbs_fsa_ids_patch_list-append, mbs_fsa_ids_patch_list-fault_iff,
}
use rt_5gc_service_consumers.MbsFsaId.ToOpenapi.{mbs_fsa_id_to_openapi-read_hex}

-- List 0 holds the ids 7 and 8, list 1 the ids 7, 9 and 8.
abbrev lists : Ptr → List Ptr
lists l = if l == 0 then 10 ∷ 11 ∷ [] else 20 ∷ 21 ∷ 22 ∷ []

abbrev id_at : Ptr → ℕ
id_at a = if (a == 10) then 7 else if a == 20 then 7 else if a == 21 then 9 else 8

abbrev heap : Store
heap = record { fsa_id = id_at; list = lists }

abbrev grown : Run (Option (List PatchItem))
grown =
    json_patches_append_list none (mbs_fsa_ids_patch_list heap (some 0) (some 1))
      (some (bytes "/ids"))

abbrev value_of : Run (Option (List PatchItem)) → Option (List PatchItem)
value_of (ok q) = q
value_of fault = none

grown_ok : grown ≡ ok (value_of grown)
unfolding json_patches_append_list mbs_fsa_ids_patch_list json_patch_new mbs_fsa_id_equal
grown_ok = refl

mbs_fsa_ids_patch_list-append_example :
    apply (bytes "/ids") (made (value_of grown)) (member heap (some 0))
    ≡ some (member heap (some 1))
mbs_fsa_ids_patch_list-append_example =
    mbs_fsa_ids_patch_list-append heap (some 0) (some 1) (bytes "/ids") (value_of grown) grown_ok

mbs_fsa_ids_patch_list-fault_iff_example :
    (json_patches_append_list none
        (mbs_fsa_ids_patch_list heap (some 1) (some 0))
        (some (bytes "/ids"))
      ≡ fault)
    ↔ (count heap (some 0) < count heap (some 1))
mbs_fsa_ids_patch_list-fault_iff_example =
    mbs_fsa_ids_patch_list-fault_iff heap (some 1) (some 0) (some (bytes "/ids"))

mbs_fsa_id_to_openapi-read_hex_example :
    (t : Str) × (mbs_fsa_id_to_openapi heap (some 10) ≡ some t)
    × (length t ≡ 6)
    × (read_hex t ≡ some (heap.fsa_id 10 % 2 ^ 24))
mbs_fsa_id_to_openapi-read_hex_example = mbs_fsa_id_to_openapi-read_hex heap 10

-- Four objects, with the ids 7, 8, 9 and 7.
abbrev four : Heap
four = record {
  live = λ a. ltb a 4;
  id = λ a. if a == 1 then 8 else if a == 2 then 9 else 7;
  fresh = 4;
}

four-Below : Below four
four-Below a e = ground arith

mbs_fsa_ids_copy-Replaced_example :
    (k : Heap) × (l : List ℕ) × (mbs_fsa_ids_copy (0 ∷ 1 ∷ []) (2 ∷ 3 ∷ []) four ≡ ok (k, l))
    × Replaced four k (0 ∷ 1 ∷ []) (2 ∷ 3 ∷ []) l
mbs_fsa_ids_copy-Replaced_example =
    mbs_fsa_ids_copy-Replaced (0 ∷ 1 ∷ []) (2 ∷ 3 ∷ []) four four-Below distinct
      (λ a m. ground (arith, m)) (λ a m. ground (arith, m)) (λ a m. ground (arith, m))
  where
    distinct : Distinct (0 ∷ 1 ∷ [])
    distinct = (refl, (refl, tt))
