-- ===== src/Areas/NcgiTai.antt =====
-- lib/mb-smf-service-consumer/ncgi-tai.c: cells within a tracking area. The cells are neither
-- copied, cleared nor compared.
use rt_5gc_service_consumers.Common.{
  Bool, List, [], ◌∷◌, map, Option, none, some, bytes, Run, ok, ◌>>=◌,
}
use rt_5gc_service_consumers.JsonPatch.{
  Json, PatchItem, Operation, json_patch_new, json_patches_append_list, index_path,
}
use rt_5gc_service_consumers.ListPatch.{list_patch_list}
use rt_5gc_service_consumers.Tmgi.Plmn.{PlmnOps}
use rt_5gc_service_consumers.Areas.{ApiJson}
use rt_5gc_service_consumers.Areas.Tai.{
  Tai, tai_create, tai_clear, tai_copy, tai_equal, tai_to_json, tai_patch_list,
}
use rt_5gc_service_consumers.Areas.Ncgi.{Ncgi, ncgi_copy, ncgi_to_json, ncgis_patch_list}

pub record NcgiTai (Plmn : Type 0) : Type 0 where
  pub tai : Tai Plmn
  pub ncgis : List (Ncgi Plmn)

module _ {Plmn : Type 0} (o : PlmnOps Plmn) where
  unfoldable pub ncgi_tai_new : NcgiTai Plmn
  unfolding tai_create
  ncgi_tai_new = record { tai = tai_create o; ncgis = [] }

  unfoldable pub ncgi_tai_clear : NcgiTai Plmn → NcgiTai Plmn
  unfolding tai_clear
  ncgi_tai_clear t = record t { tai = tai_clear o t.tai }

  -- The address of the TAI within `t` is not NULL, so the copy goes there.
  unfoldable pub with_tai : Option (Tai Plmn) → NcgiTai Plmn → NcgiTai Plmn
  with_tai none t = t
  with_tai (some tai) t = record t { tai = tai }

  unfoldable pub new_values_tai : Option (Tai Plmn) → NcgiTai Plmn → NcgiTai Plmn
  unfolding tai_copy with_tai
  new_values_tai none t = t
  new_values_tai (some tai) t = with_tai (tai_copy o (some t.tai) (some tai)) t

  unfoldable pub with_ncgi : Option (Ncgi Plmn) → NcgiTai Plmn → NcgiTai Plmn
  with_ncgi none t = t
  with_ncgi (some ncgi) t = record t { ncgis = ncgi ∷ [] }

  -- mb_smf_sc_ncgi_tai_new_values
  unfoldable pub ncgi_tai_new_values : Option (Tai Plmn) → Option (Ncgi Plmn) → NcgiTai Plmn
  unfolding new_values_tai with_ncgi ncgi_copy ncgi_tai_new
  ncgi_tai_new_values tai ncgi = with_ncgi (ncgi_copy o none ncgi) (new_values_tai tai ncgi_tai_new)

  unfoldable pub ncgi_tai_destination : Option (NcgiTai Plmn) → NcgiTai Plmn
  unfolding ncgi_tai_new ncgi_tai_clear
  ncgi_tai_destination none = ncgi_tai_new
  ncgi_tai_destination (some dst) = ncgi_tai_clear dst

  unfoldable pub ncgi_tai_copy :
      Option (NcgiTai Plmn) → Option (NcgiTai Plmn) → Option (NcgiTai Plmn)
  unfolding ncgi_tai_destination tai_copy with_tai
  ncgi_tai_copy dst none = none
  ncgi_tai_copy dst (some src) =
      let d = ncgi_tai_destination dst in some (with_tai (tai_copy o (some d.tai) (some src.tai)) d)

  unfoldable pub ncgi_tai_equal : NcgiTai Plmn → NcgiTai Plmn → Bool
  unfolding tai_equal
  ncgi_tai_equal a b = tai_equal o a.tai b.tai

  module _ (api : ApiJson Plmn) where
    unfoldable pub ncgi_tai_to_json : NcgiTai Plmn → Json
    unfolding tai_to_json ncgi_to_json
    ncgi_tai_to_json t =
        api.ncgi_tai_json (tai_to_json o api t.tai) (map (ncgi_to_json o api) t.ncgis)

    unfoldable pub ncgi_tai_patch_list :
        Option (NcgiTai Plmn) → Option (NcgiTai Plmn) → Run (Option (List PatchItem))
    unfolding json_patches_append_list tai_patch_list ncgis_patch_list ncgi_tai_to_json
    ncgi_tai_patch_list none none = ok none
    ncgi_tai_patch_list none (some b) =
        ok (some (json_patch_new Operation.add (bytes "/") (some (ncgi_tai_to_json b)) ∷ []))
    ncgi_tai_patch_list (some a) none =
        ok (some (json_patch_new Operation.remove (bytes "/") none ∷ []))
    ncgi_tai_patch_list (some a) (some b) = do
      patches ←
          json_patches_append_list none (tai_patch_list o api (some a.tai) (some b.tai))
            (some (bytes "/tai"))
      json_patches_append_list patches (ncgis_patch_list o api (some a.ncgis) (some b.ncgis))
          (some (bytes "/cellList"))

    unfoldable pub ncgi_tais_patch_list :
        Option (List (NcgiTai Plmn)) → Option (List (NcgiTai Plmn)) → Option (List PatchItem)
    unfolding ncgi_tai_equal ncgi_tai_to_json
    ncgi_tais_patch_list = list_patch_list ncgi_tai_equal ncgi_tai_to_json index_path
