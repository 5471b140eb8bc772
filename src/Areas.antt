-- ===== src/Areas.antt =====
-- The TAIs and the cells of the service areas of lib/mb-smf-service-consumer: tai.c in Areas/Tai,
-- ncgi.c in Areas/Ncgi and ncgi-tai.c in Areas/NcgiTai. The three lists make their patches by the
-- scheme of ListPatch. An element of a list is its value; a `uint64_t *` is NULL (`none`) or the
-- number behind it, since nothing writes through it while two objects share it.
pub mod Tai
pub mod Ncgi
pub mod NcgiTai
pub mod Object
pub mod Equal
pub mod TaiPatch
pub mod NcgiPatch
pub mod Lists
pub mod Bounds
pub mod ServiceArea
pub mod Multiset
pub mod SameAreas
pub mod AreaPatch
mod Examples
use rt_5gc_service_consumers.Common.{
  ℕ, List, Option, none, some, Str, bytes, ◌≡◌, ltb, if◌then◌else◌,
}
use rt_5gc_service_consumers.JsonPatch.{Json, Items, Members, end, field, to_items}

-- What the generated OpenAPI code makes of the parts of an object.
pub record ApiJson (Plmn : Type 0) : Type 0 where
  pub plmn_json : Plmn → Json  -- ogs_sbi_build_plmn_id and OpenAPI_plmn_id_convertToJSON
  pub tai_json : Plmn → Str → Option Str → Json  -- OpenAPI_tai_create and _convertToJSON
  pub ncgi_json : Plmn → Str → Option Str → Json  -- OpenAPI_ncgi_create and _convertToJSON
  pub ncgi_tai_json : Json → List Json → Json  -- OpenAPI_ncgi_tai_create and _convertToJSON

-- The member `nid`, which is optional.
abbrev pub nid_member : Option Str → Members
nid_member none = end
nid_member (some nid) = field (bytes "nid") (Json.string nid) end

-- The generated code writes the objects of the schemas Tai, Ncgi and NcgiTai of TS 29.571.
pub record WritesSchemas {Plmn : Type 0} (api : ApiJson Plmn) : Type 0 where
  pub tai :
      (p : Plmn) (tac : Str) (nid : Option Str)
      → api.tai_json p tac nid
        ≡ Json.object (
            field
              (bytes "plmnId")
              (api.plmn_json p)
              (field (bytes "tac") (Json.string tac) (nid_member nid)))
  pub ncgi :
      (p : Plmn) (cell : Str) (nid : Option Str)
      → api.ncgi_json p cell nid
        ≡ Json.object (
            field
              (bytes "plmnId")
              (api.plmn_json p)
              (field (bytes "nrCellId") (Json.string cell) (nid_member nid)))
  pub ncgi_tai :
      (tai : Json) (cells : List Json)
      → api.ncgi_tai_json tai cells
        ≡ Json.object
            (field (bytes "tai") tai (field (bytes "cellList") (Json.array (to_items cells)) end))

-- `mnc > 99 ? 3 : 2`, and `mnc < 100 ? 2 : 3`
abbrev pub mnc_length : ℕ → ℕ
mnc_length mnc = if ltb 99 mnc then 3 else 2
