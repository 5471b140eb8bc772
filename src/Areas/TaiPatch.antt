-- ===== src/Areas/TaiPatch.antt =====
-- The patches between two TAIs, read as a JSON Patch document on the object of the first.
use mathlib.Core.List.{append_assoc}
use rt_5gc_service_consumers.Common.{
  false, List, ◌++◌, Option, none, some, Str, bytes, str_eq, ◌==◌, uint32_to_hex_str, Bool-cases,
  inl, inr, ◌≡◌, refl, ◌∙◌, ap, arith, ℕ,
}
use rt_5gc_service_consumers.JsonPatch.{Json, PatchItem, json_patch_new, made}
use rt_5gc_service_consumers.JsonPatch.Rfc6902.{apply_at, apply_whole}
use rt_5gc_service_consumers.JsonPatch.Prefix.{apply_local}
use rt_5gc_service_consumers.ListPatch.Apply.{if_any-made}
use rt_5gc_service_consumers.Tmgi.Plmn.{PlmnOps, ComparesBytes}
use rt_5gc_service_consumers.Areas.{ApiJson, WritesSchemas}
use rt_5gc_service_consumers.Areas.Object.{object, parts, apply-plmn, apply-tac, nid_changed-apply}
use rt_5gc_service_consumers.Areas.Tai.{
  Tai, nid_text, nid_changed, tai_to_openapi, tai_to_json, plmn_changed, tac_changed,
  tai_patch_list,
}

module _ {Plmn : Type 0} (o : PlmnOps Plmn) (api : ApiJson Plmn) where
  -- The patch for the PLMN id makes it the second.
  pub plmn_changed-apply :
      ComparesBytes o
      → (name : Str) (a b : Plmn) (v : Json) (nid : Option Str) (ps : List PatchItem)
      → apply_local (plmn_changed o api a b ++ ps) (object (parts name (api.plmn_json a) v nid))
        ≡ apply_local ps (object (parts name (api.plmn_json b) v nid))
  unfolding plmn_changed
  plmn_changed-apply bytewise name a b v nid ps = elim (Bool-cases (o.equal a b)) [
    | inl e ↦ rw (e, (bytewise a b).0 e)
    | inr e ↦ rw e (apply-plmn name (api.plmn_json a) (api.plmn_json b) v nid ps)
  ]

  abbrev tac_json : ℕ → Json
  tac_json tac = Json.string (uint32_to_hex_str tac 4 6)

  tac_changed-apply :
      (a b : ℕ) (p : Json) (nid : Option Str) (ps : List PatchItem)
      → apply_local (tac_changed o api a b ++ ps) (object (parts (bytes "tac") p (tac_json a) nid))
        ≡ apply_local ps (object (parts (bytes "tac") p (tac_json b) nid))
  unfolding tac_changed
  tac_changed-apply a b p nid ps = elim (Bool-cases (a == b)) [
    | inl e ↦ let same : a ≡ b = ground arith in rw (e, same)
    | inr e ↦ rw e (apply-tac p (tac_json a) (tac_json b) nid ps)
  ]

  abbrev pub tai_member : Option (Tai Plmn) → Option Json
  tai_member none = none
  tai_member (some a) = some (tai_to_json o api a)

  tai_object :
      WritesSchemas api
      → (a : Tai Plmn)
      → some (tai_to_json o api a)
        ≡ object (parts (bytes "tac") (api.plmn_json a.plmn_id) (tac_json a.tac) (nid_text a.nid))
  unfolding tai_to_json tai_to_openapi
  tai_object writes a =
      ap some (writes.tai a.plmn_id (uint32_to_hex_str a.tac 4 6) (nid_text a.nid))

  tai_patches :
      (a b : Tai Plmn)
      → made (tai_patch_list o api (some a) (some b))
        ≡ plmn_changed o api a.plmn_id b.plmn_id
          ++ tac_changed o api a.tac b.tac
          ++ nid_changed a.nid b.nid
  unfolding tai_patch_list
  tai_patches a b = if_any-made (
      plmn_changed o api a.plmn_id b.plmn_id
      ++ tac_changed o api a.tac b.tac
      ++ nid_changed a.nid b.nid)

  not_nid : str_eq (bytes "nid") (bytes "tac") ≡ false
  unfolding str_eq
  not_nid = refl

  both_tais :
      ComparesBytes o
      → WritesSchemas api
      → (a b : Tai Plmn)
      → apply_local (made (tai_patch_list o api (some a) (some b))) (tai_member (some a))
        ≡ some (tai_member (some b))
  both_tais bytewise writes a b =
      let p = api.plmn_json b.plmn_id in
      rw
        (
          tai_patches a b,
          append_assoc (plmn_changed o api a.plmn_id b.plmn_id) (tac_changed o api a.tac b.tac)
              (nid_changed a.nid b.nid),
          tai_object writes a,
          tai_object writes b,
        )
        (plmn_changed-apply bytewise (bytes "tac") a.plmn_id b.plmn_id (tac_json a.tac)
            (nid_text a.nid) (tac_changed o api a.tac b.tac ++ nid_changed a.nid b.nid)
          ∙ tac_changed-apply a.tac b.tac p (nid_text a.nid) (nid_changed a.nid b.nid)
          ∙ nid_changed-apply (bytes "tac") p (tac_json b.tac) a.nid b.nid not_nid)

  -- The patches between two TAIs, applied to the object that stands for the first, give the object
  -- that stands for the second, where NULL stands for an absent object; PLMN ids compare by their
  -- bytes, and the generated code writes the schemas.
  pub tai_patch_list-apply :
      ComparesBytes o
      → WritesSchemas api
      → (a b : Option (Tai Plmn))
      → apply_local (made (tai_patch_list o api a b)) (tai_member a) ≡ some (tai_member b)
  unfolding tai_patch_list apply_local json_patch_new apply_at apply_whole str_eq
  tai_patch_list-apply bytewise writes none none = refl
  tai_patch_list-apply bytewise writes none (some b) = refl
  tai_patch_list-apply bytewise writes (some a) none = refl
  tai_patch_list-apply bytewise writes (some a) (some b) = both_tais bytewise writes a b
