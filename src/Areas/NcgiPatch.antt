-- ===== src/Areas/NcgiPatch.antt =====
-- The patches between two cells, read as a JSON Patch document on the object of the first.
use mathlib.Core.List.{append_assoc}
use rt_5gc_service_consumers.Common.{
  false, List, ◌++◌, Option, none, some, Str, bytes, str_eq, ◌==◌, uint64_to_hex_str, Bool-cases,
  inl, inr, ◌≡◌, refl, ◌∙◌, ap, arith, ℕ,
}
use rt_5gc_service_consumers.JsonPatch.{Json, PatchItem, json_patch_new, made}
use rt_5gc_service_consumers.JsonPatch.Rfc6902.{apply_at, apply_whole}
use rt_5gc_service_consumers.JsonPatch.Prefix.{apply_local}
use rt_5gc_service_consumers.ListPatch.Apply.{if_any-made}
use rt_5gc_service_consumers.Tmgi.Plmn.{PlmnOps, ComparesBytes}
use rt_5gc_service_consumers.Areas.{ApiJson, WritesSchemas}
use rt_5gc_service_consumers.Areas.Object.{object, parts, apply-cell, nid_changed-apply}
use rt_5gc_service_consumers.Areas.Tai.{nid_text, nid_changed, plmn_changed}
use rt_5gc_service_consumers.Areas.TaiPatch.{plmn_changed-apply}
use rt_5gc_service_consumers.Areas.Ncgi.{
  Ncgi, ncgi_to_openapi, ncgi_to_json, cell_changed, ncgi_patch_list,
}

module _ {Plmn : Type 0} (o : PlmnOps Plmn) (api : ApiJson Plmn) where
  abbrev cell_json : ℕ → Json
  cell_json cell = Json.string (uint64_to_hex_str cell 9 9)

  cell_changed-apply :
      (a b : ℕ) (p : Json) (nid : Option Str) (ps : List PatchItem)
      → apply_local
          (cell_changed o api a b ++ ps)
          (object (parts (bytes "nrCellId") p (cell_json a) nid))
        ≡ apply_local ps (object (parts (bytes "nrCellId") p (cell_json b) nid))
  unfolding cell_changed
  cell_changed-apply a b p nid ps = elim (Bool-cases (a == b)) [
    | inl e ↦ let same : a ≡ b = ground arith in rw (e, same)
    | inr e ↦ rw e (apply-cell p (cell_json a) (cell_json b) nid ps)
  ]

  abbrev pub ncgi_member : Option (Ncgi Plmn) → Option Json
  ncgi_member none = none
  ncgi_member (some a) = some (ncgi_to_json o api a)

  ncgi_object :
      WritesSchemas api
      → (a : Ncgi Plmn)
      → some (ncgi_to_json o api a)
        ≡ object (
            parts
              (bytes "nrCellId")
              (api.plmn_json a.plmn_id)
              (cell_json a.nr_cell_id)
              (nid_text a.nid))
  unfolding ncgi_to_json ncgi_to_openapi
  ncgi_object writes a =
      ap some (writes.ncgi a.plmn_id (uint64_to_hex_str a.nr_cell_id 9 9) (nid_text a.nid))

  ncgi_patches :
      (a b : Ncgi Plmn)
      → made (ncgi_patch_list o api (some a) (some b))
        ≡ plmn_changed o api a.plmn_id b.plmn_id
          ++ cell_changed o api a.nr_cell_id b.nr_cell_id
          ++ nid_changed a.nid b.nid
  unfolding ncgi_patch_list
  ncgi_patches a b = if_any-made (
      plmn_changed o api a.plmn_id b.plmn_id
      ++ cell_changed o api a.nr_cell_id b.nr_cell_id
      ++ nid_changed a.nid b.nid)

  not_nid : str_eq (bytes "nid") (bytes "nrCellId") ≡ false
  unfolding str_eq
  not_nid = refl

  both_cells :
      ComparesBytes o
      → WritesSchemas api
      → (a b : Ncgi Plmn)
      → apply_local (made (ncgi_patch_list o api (some a) (some b))) (ncgi_member (some a))
        ≡ some (ncgi_member (some b))
  both_cells bytewise writes a b =
      let p = api.plmn_json b.plmn_id in
      rw
        (
          ncgi_patches a b,
          append_assoc (plmn_changed o api a.plmn_id b.plmn_id)
              (cell_changed o api a.nr_cell_id b.nr_cell_id) (nid_changed a.nid b.nid),
          ncgi_object writes a,
          ncgi_object writes b,
        )
        (plmn_changed-apply o api bytewise (bytes "nrCellId") a.plmn_id b.plmn_id
            (cell_json a.nr_cell_id) (nid_text a.nid)
            (cell_changed o api a.nr_cell_id b.nr_cell_id ++ nid_changed a.nid b.nid)
          ∙ cell_changed-apply a.nr_cell_id b.nr_cell_id p (nid_text a.nid)
              (nid_changed a.nid b.nid)
          ∙ nid_changed-apply (bytes "nrCellId") p (cell_json b.nr_cell_id) a.nid b.nid not_nid)

  -- The patches between two cells, applied to the object that stands for the first, give the object
  -- that stands for the second, where NULL stands for an absent object; PLMN ids compare by their
  -- bytes, and the generated code writes the schemas.
  pub ncgi_patch_list-apply :
      ComparesBytes o
      → WritesSchemas api
      → (a b : Option (Ncgi Plmn))
      → apply_local (made (ncgi_patch_list o api a b)) (ncgi_member a) ≡ some (ncgi_member b)
  unfolding ncgi_patch_list apply_local json_patch_new apply_at apply_whole str_eq
  ncgi_patch_list-apply bytewise writes none none = refl
  ncgi_patch_list-apply bytewise writes none (some b) = refl
  ncgi_patch_list-apply bytewise writes (some a) none = refl
  ncgi_patch_list-apply bytewise writes (some a) (some b) = both_cells bytewise writes a b
