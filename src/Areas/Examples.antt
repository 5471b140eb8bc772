-- ===== src/Areas/Examples.antt =====
-- The theorems on TAIs and cells at concrete lists: an identity is given by few numbers.
use rt_5gc_service_consumers.Common.{
  ℕ, ◌%◌, ◌^◌, true, List, [], ◌∷◌, ◌++◌, Option, none, some, bytes, ok, fault, Run, ◌≡◌, ◌↔◌, refl,
}
use rt_5gc_service_consumers.JsonPatch.{
  Json, end, field, PatchItem, to_items, made, json_patch_new, json_patches_append_list,
}
use rt_5gc_service_consumers.JsonPatch.Rfc6902.{apply}
use rt_5gc_service_consumers.JsonPatch.Prefix.{apply_local}
use rt_5gc_service_consumers.ListPatch.{list_patch_list}
use rt_5gc_service_consumers.ListPatch.Apply.{list_member}
use rt_5gc_service_consumers.Samples.{Plmn, ops, ops-ComparesBytes}
use rt_5gc_service_consumers.Areas.{ApiJson, WritesSchemas, nid_member}
use rt_5gc_service_consumers.Areas.Tai.{
  Tai, tai_new, tai_equal, tai_to_json, tai_to_openapi, tai_patch_list, tais_patch_list,
}
use rt_5gc_service_consumers.Areas.Ncgi.{
  Ncgi, ncgi_equal, ncgi_to_json, ncgi_patch_list, ncgis_patch_list,
}
use rt_5gc_service_consumers.Areas.NcgiTai.{
  NcgiTai, ncgi_tai_equal, ncgi_tai_to_json, ncgi_tais_patch_list,
}
use rt_5gc_service_consumers.Areas.TaiPatch.{tai_member, tai_patch_list-apply}
use rt_5gc_service_consumers.Areas.NcgiPatch.{ncgi_member, ncgi_patch_list-apply}
use rt_5gc_service_consumers.Areas.Lists.{ncgis_patch_list-append}
use rt_5gc_service_consumers.Areas.ServiceArea.{
  ServiceArea, mbs_service_area_equal, mbs_service_area_patch_list,
}
use rt_5gc_service_consumers.Areas.Multiset.{SameCounts}
use rt_5gc_service_consumers.Areas.SameAreas.{mbs_service_area_equal_iff}
use rt_5gc_service_consumers.JsonPatch.Below.{items_below}
use rt_5gc_service_consumers.Areas.AreaPatch.{
  ncgi_list, tai_list, Makes, mbs_service_area_patch_list-Makes,
}
use rt_5gc_service_consumers.Areas.Bounds.{Hex, NidHex, tai_new-Hex}

abbrev plmn_json : Plmn → Json
plmn_json p = Json.string (p.mcc ∷ p.mnc ∷ [])

abbrev api : ApiJson Plmn
api = record {
  plmn_json = plmn_json;
  tai_json = λ p tac nid. Json.object (
      field (bytes "plmnId") (plmn_json p)
        (field (bytes "tac") (Json.string tac) (nid_member nid)));
  ncgi_json = λ p cell nid. Json.object (
      field (bytes "plmnId") (plmn_json p)
        (field (bytes "nrCellId") (Json.string cell) (nid_member nid)));
  ncgi_tai_json = λ tai cells.
      Json.object
        (field (bytes "tai") tai (field (bytes "cellList") (Json.array (to_items cells)) end));
}

api-WritesSchemas : WritesSchemas api
api-WritesSchemas = record {
  tai = λ p tac nid. refl;
  ncgi = λ p cell nid. refl;
  ncgi_tai = λ tai cells. refl;
}

abbrev tai : ℕ → Option ℕ → Tai Plmn
tai tac nid = record { plmn_id = record { mcc = 1; mnc = 2 }; tac = tac; nid = nid }

abbrev cell : ℕ → Ncgi Plmn
cell id = record { plmn_id = record { mcc = 1; mnc = 2 }; nr_cell_id = id; nid = none }

abbrev two_tais : Option (List (Tai Plmn))
two_tais = some (tai 5 none ∷ tai 6 none ∷ [])

abbrev three_tais : Option (List (Tai Plmn))
three_tais = some (tai 5 none ∷ tai 7 (some 8) ∷ tai 9 none ∷ [])

abbrev two_cells : Option (List (Ncgi Plmn))
two_cells = some (cell 5 ∷ cell 6 ∷ [])

abbrev three_cells : Option (List (Ncgi Plmn))
three_cells = some (cell 5 ∷ cell 7 ∷ cell 8 ∷ [])

abbrev value_of : Run (Option (List PatchItem)) → Option (List PatchItem)
value_of (ok q) = q
value_of fault = none

abbrev cell_patches : Run (Option (List PatchItem))
cell_patches =
    json_patches_append_list none (ncgis_patch_list ops api two_cells three_cells)
      (some (bytes "/ncgiList"))

cell_patches_ok : cell_patches ≡ ok (value_of cell_patches)
unfolding json_patches_append_list ncgis_patch_list list_patch_list ncgi_equal json_patch_new
cell_patches_ok = refl

ncgis_patch_list-append_example :
    apply
      (bytes "/ncgiList")
      (made (value_of cell_patches))
      (list_member (ncgi_to_json ops api) two_cells)
    ≡ some (list_member (ncgi_to_json ops api) three_cells)
ncgis_patch_list-append_example =
    ncgis_patch_list-append ops api ops-ComparesBytes two_cells three_cells (bytes "/ncgiList")
      (value_of cell_patches) cell_patches_ok

abbrev with_cell : ℕ → Option (List (NcgiTai Plmn))
with_cell id = some (record { tai = tai 5 none; ncgis = cell id ∷ [] } ∷ [])

ncgi_patch_list-apply_example :
    apply_local
      (made (ncgi_patch_list ops api (some (cell 5)) (some (cell 7))))
      (ncgi_member ops api (some (cell 5)))
    ≡ some (ncgi_member ops api (some (cell 7)))
ncgi_patch_list-apply_example =
    ncgi_patch_list-apply ops api ops-ComparesBytes api-WritesSchemas (some (cell 5))
      (some (cell 7))

tai_patch_list-apply_example :
    apply_local
      (made (tai_patch_list ops api (some (tai 5 none)) (some (tai 7 (some 8)))))
      (tai_member ops api (some (tai 5 none)))
    ≡ some (tai_member ops api (some (tai 7 (some 8))))
tai_patch_list-apply_example =
    tai_patch_list-apply ops api ops-ComparesBytes api-WritesSchemas (some (tai 5 none))
      (some (tai 7 (some 8)))

tai_new-Hex_example :
    (t : Tai Plmn) × (tai_new ops none 16777217 (some 9) ≡ some t)
    × Hex (tai_to_openapi t).tac 4 6 (16777217 % 2 ^ 24)
    × NidHex (tai_to_openapi t).nid (some 9)
tai_new-Hex_example = tai_new-Hex ops none 16777217 (some 9)

abbrev area_json : Option (List Json) → Option (List Json) → Json
area_json cells tais = Json.object (
    field (bytes "ncgiList") (array_or_null cells)
      (field (bytes "taiList") (array_or_null tais) end))
  where
    array_or_null : Option (List Json) → Json
    array_or_null none = Json.null
    array_or_null (some l) = Json.array (to_items l)

abbrev small_area : ServiceArea Plmn
small_area = record {
  ncgi_tais = record { tai = tai 5 none; ncgis = cell 5 ∷ [] } ∷ [];
  tais = tai 5 none ∷ tai 6 none ∷ [];
}

abbrev large_area : ServiceArea Plmn
large_area = record {
  ncgi_tais = record { tai = tai 4 none; ncgis = cell 5 ∷ [] } ∷ [];
  tais = tai 5 none ∷ tai 7 (some 8) ∷ tai 9 none ∷ [];
}

abbrev area_patches : Run (Option (List PatchItem))
area_patches = mbs_service_area_patch_list ops api area_json (some small_area) (some large_area)

area_patches_ok : area_patches ≡ ok (value_of area_patches)
unfolding mbs_service_area_patch_list json_patches_append_list tais_patch_list ncgi_tais_patch_list
    list_patch_list tai_equal ncgi_tai_equal json_patch_new
area_patches_ok = refl

mbs_service_area_patch_list-Makes_example :
    let all = made (value_of area_patches) in
    let cells = items_below ncgi_list all in
    let tais = items_below tai_list all in
    (all ≡ cells ++ tais)
    × Makes ops api area_json
        (ncgi_tai_equal ops)
        (ncgi_tai_to_json ops api)
        ncgi_list
        cells
        small_area.ncgi_tais
        large_area.ncgi_tais
    × Makes ops api area_json
        (tai_equal ops)
        (tai_to_json ops api)
        tai_list
        tais
        small_area.tais
        large_area.tais
mbs_service_area_patch_list-Makes_example =
    mbs_service_area_patch_list-Makes ops api area_json small_area large_area
      (value_of area_patches) area_patches_ok

abbrev turned_area : ServiceArea Plmn
turned_area = record small_area { tais = tai 6 none ∷ tai 5 none ∷ [] }

mbs_service_area_equal_iff_example : (mbs_service_area_equal ops small_area turned_area ≡ true) ↔ (
    SameCounts (ncgi_tai_equal ops) small_area.ncgi_tais turned_area.ncgi_tais
    × SameCounts (tai_equal ops) small_area.tais turned_area.tais)
mbs_service_area_equal_iff_example = mbs_service_area_equal_iff ops small_area turned_area
