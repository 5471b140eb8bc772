-- ===== src/Areas/ServiceArea.antt =====
-- lib/mb-smf-service-consumer/mbs-service-area.c: a service area is a list of TAIs with cells and a
-- list of TAIs.
use rt_5gc_service_consumers.Common.{
  Bool, true, false, ◌&&◌, List, [], ◌∷◌, ◌++◌, map, Option, none, some, bytes, ◌==◌, if◌then◌else◌,
  length, Run, ok, ◌>>=◌,
}
use rt_5gc_service_consumers.JsonPatch.{
  Json, PatchItem, Operation, json_patch_new, json_patches_append_list,
}
use rt_5gc_service_consumers.Tmgi.Plmn.{PlmnOps}
use rt_5gc_service_consumers.Areas.{ApiJson}
use rt_5gc_service_consumers.Areas.Tai.{Tai, tai_copy, tai_equal, tai_to_json, tais_patch_list}
use rt_5gc_service_consumers.Areas.NcgiTai.{
  NcgiTai, ncgi_tai_copy, ncgi_tai_equal, ncgi_tai_to_json, ncgi_tais_patch_list,
}

pub record ServiceArea (Plmn : Type 0) : Type 0 where
  pub ncgi_tais : List (NcgiTai Plmn)
  pub tais : List (Tai Plmn)

abbrev pub if_not_empty : List Json → Option (List Json)
if_not_empty [] = none
if_not_empty (x ∷ l) = some (x ∷ l)

module _ {A : Type 0} where
  -- `ogs_list_add`, of what is not NULL.
  unfoldable pub added : List A → Option A → List A
  added l none = l
  added l (some x) = l ++ x ∷ []

  -- The loop that adds a new copy of each element.
  unfoldable pub add_copies : (Option A → Option A → Option A) → List A → List A → List A
  unfolding added
  add_copies copy dst [] = dst
  add_copies copy dst (x ∷ src) = add_copies copy (added dst (copy none (some x))) src

  abbrev pub keep : A → Option (List A) → Option (List A)
  keep y none = none
  keep y (some l) = some (y ∷ l)

  -- The search for an element, which is removed when it is found.
  unfoldable pub find_and_remove : (A → A → Bool) → A → List A → Option (List A)
  find_and_remove equal x [] = none
  find_and_remove equal x (y ∷ b) = if equal x y then some b else keep y (find_and_remove equal x b)

  -- `ogs_list_for_each` over the first list, with what is left of the copy of the second.
  unfoldable pub all_found : (A → A → Bool) → List A → List A → Bool
  unfolding find_and_remove
  all_found equal [] b = true
  all_found equal (x ∷ a) b = elim (find_and_remove equal x b) [
    | none ↦ false
    | some left ↦ all_found equal a left
  ]

module _ {Plmn : Type 0} where
  unfoldable pub mbs_service_area_new : ServiceArea Plmn
  mbs_service_area_new = record { ncgi_tais = []; tais = [] }

  unfoldable pub mbs_service_area_clear : ServiceArea Plmn → ServiceArea Plmn
  mbs_service_area_clear area = record area { ncgi_tais = []; tais = [] }

  module _ (o : PlmnOps Plmn) where
    unfoldable pub mbs_service_area_new_ncgi_tai : Option (NcgiTai Plmn) → ServiceArea Plmn
    unfolding added ncgi_tai_copy mbs_service_area_new
    mbs_service_area_new_ncgi_tai ncgi_tai = record mbs_service_area_new {
      ncgi_tais = added [] (ncgi_tai_copy o none ncgi_tai);
    }

    unfoldable pub mbs_service_area_new_tai : Option (Tai Plmn) → ServiceArea Plmn
    unfolding added tai_copy mbs_service_area_new
    mbs_service_area_new_tai tai = record mbs_service_area_new {
      tais = added [] (tai_copy o none tai);
    }

    unfoldable pub area_destination : Option (ServiceArea Plmn) → ServiceArea Plmn
    unfolding mbs_service_area_new mbs_service_area_clear
    area_destination none = mbs_service_area_new
    area_destination (some dst) = mbs_service_area_clear dst

    unfoldable pub copy_into : ServiceArea Plmn → ServiceArea Plmn → ServiceArea Plmn
    unfolding add_copies ncgi_tai_copy tai_copy
    copy_into dst src = record dst {
      ncgi_tais = add_copies (ncgi_tai_copy o) dst.ncgi_tais src.ncgi_tais;
      tais = add_copies (tai_copy o) dst.tais src.tais;
    }

    unfoldable pub mbs_service_area_copy :
        Option (ServiceArea Plmn) → Option (ServiceArea Plmn) → Option (ServiceArea Plmn)
    unfolding area_destination copy_into
    mbs_service_area_copy dst none = none
    mbs_service_area_copy dst (some src) = some (copy_into (area_destination dst) src)

    -- Two areas that are not NULL, the second of which is copied; the same pointer is the case of
    -- equal lists.
    unfoldable pub mbs_service_area_equal : ServiceArea Plmn → ServiceArea Plmn → Bool
    unfolding all_found ncgi_tai_equal tai_equal copy_into
    mbs_service_area_equal a b =
        let b_copy = copy_into mbs_service_area_new b in
        (length a.ncgi_tais == length b.ncgi_tais)
        && (length a.tais == length b.tais)
        && all_found (ncgi_tai_equal o) a.ncgi_tais b_copy.ncgi_tais
        && all_found (tai_equal o) a.tais b_copy.tais

    -- `area_json` is OpenAPI_mbs_service_area_create and _convertToJSON; an absent list is NULL.
    module _ (api : ApiJson Plmn) (area_json : Option (List Json) → Option (List Json) → Json) where
      unfoldable pub mbs_service_area_to_json : ServiceArea Plmn → Json
      unfolding ncgi_tai_to_json tai_to_json
      mbs_service_area_to_json area =
          area_json (if_not_empty (map (ncgi_tai_to_json o api) area.ncgi_tais))
            (if_not_empty (map (tai_to_json o api) area.tais))

      unfoldable pub mbs_service_area_patch_list :
          Option (ServiceArea Plmn) → Option (ServiceArea Plmn) → Run (Option (List PatchItem))
      unfolding mbs_service_area_to_json json_patches_append_list ncgi_tais_patch_list
          tais_patch_list
      mbs_service_area_patch_list none none = ok none
      mbs_service_area_patch_list none (some b) =
          ok (
            some
              (json_patch_new Operation.add (bytes "/") (some (mbs_service_area_to_json b)) ∷ []))
      mbs_service_area_patch_list (some a) none =
          ok (some (json_patch_new Operation.remove (bytes "/") none ∷ []))
      mbs_service_area_patch_list (some a) (some b) = do
        patches ←
            json_patches_append_list none
              (ncgi_tais_patch_list o api (some a.ncgi_tais) (some b.ncgi_tais))
              (some (bytes "/ncgiList"))
        json_patches_append_list patches (tais_patch_list o api (some a.tais) (some b.tais))
            (some (bytes "/taiList"))
