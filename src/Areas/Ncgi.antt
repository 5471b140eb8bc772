-- ===== src/Areas/Ncgi.antt =====
-- lib/mb-smf-service-consumer/ncgi.c: NR Cell Global Identities.
use rt_5gc_service_consumers.Common.{
  ℕ, ◌%◌, ◌^◌, Bool, ◌&&◌, List, [], ◌∷◌, ◌++◌, Option, none, some, Str, bytes, ◌==◌, if◌then◌else◌,
  uint64_to_hex_str,
}
use rt_5gc_service_consumers.JsonPatch.{
  Json, PatchItem, Operation, json_patch_new, index_path, if_any,
}
use rt_5gc_service_consumers.ListPatch.{list_patch_list}
use rt_5gc_service_consumers.Tmgi.Plmn.{PlmnOps}
use rt_5gc_service_consumers.Areas.{ApiJson, mnc_length}
use rt_5gc_service_consumers.Areas.Tai.{nid_text, nid_equal, nid_changed, plmn_changed}

pub record Ncgi (Plmn : Type 0) : Type 0 where
  pub plmn_id : Plmn
  pub nr_cell_id : ℕ  -- a bit field of 36 bits
  pub nid : Option ℕ

-- An `OpenAPI_ncgi_t`.
pub record ApiNcgi (Plmn : Type 0) : Type 0 where
  pub plmn_id : Plmn
  pub nr_cell_id : Str
  pub nid : Option Str

module _ {Plmn : Type 0} where
  module _ (o : PlmnOps Plmn) where
    unfoldable pub ncgi_new : Ncgi Plmn
    ncgi_new = record { plmn_id = o.zero_plmn; nr_cell_id = 0; nid = none }

    -- The list node is not cleared.
    unfoldable pub ncgi_clear : Ncgi Plmn → Ncgi Plmn
    ncgi_clear ncgi = record ncgi { plmn_id = o.zero_plmn; nr_cell_id = 0; nid = none }

    unfoldable pub ncgi_set_nid : Option ℕ → Ncgi Plmn → Ncgi Plmn
    ncgi_set_nid none ncgi = ncgi
    ncgi_set_nid (some nid) ncgi = record ncgi { nid = some nid }

    -- mb_smf_sc_ncgi_new_values: the cell id is cut to its bit field, the network id is not.
    unfoldable pub ncgi_new_values : ℕ → ℕ → ℕ → Option ℕ → Ncgi Plmn
    unfolding ncgi_new ncgi_set_nid
    ncgi_new_values mcc mnc nr_cell_id network_id = ncgi_set_nid network_id (record ncgi_new {
      plmn_id = o.build mcc mnc (mnc_length mnc);
      nr_cell_id = nr_cell_id % 2 ^ 36;
    })

    -- mb_smf_sc_ncgi_set_plmn_id
    unfoldable pub ncgi_set_plmn_id : Option (Ncgi Plmn) → ℕ → ℕ → Option (Ncgi Plmn)
    ncgi_set_plmn_id none mcc mnc = none
    ncgi_set_plmn_id (some ncgi) mcc mnc =
        some (record ncgi { plmn_id = o.build mcc mnc (mnc_length mnc) })

    unfoldable pub ncgi_destination : Option (Ncgi Plmn) → Ncgi Plmn
    unfolding ncgi_new ncgi_clear
    ncgi_destination none = ncgi_new
    ncgi_destination (some dst) = ncgi_clear dst

    unfoldable pub ncgi_copy : Option (Ncgi Plmn) → Option (Ncgi Plmn) → Option (Ncgi Plmn)
    unfolding ncgi_destination
    ncgi_copy dst none = none
    ncgi_copy dst (some src) = some (record (ncgi_destination dst) {
      plmn_id = src.plmn_id;
      nr_cell_id = src.nr_cell_id;
      nid = src.nid;
    })

    -- The bytes of the PLMN ids are compared. The same pointer is the case of equal fields.
    unfoldable pub ncgi_equal : Ncgi Plmn → Ncgi Plmn → Bool
    unfolding nid_equal
    ncgi_equal a b =
        (a.nr_cell_id == b.nr_cell_id) && o.equal a.plmn_id b.plmn_id && nid_equal a.nid b.nid

  unfoldable pub ncgi_to_openapi : Ncgi Plmn → ApiNcgi Plmn
  unfolding nid_text
  ncgi_to_openapi ncgi = record {
    plmn_id = ncgi.plmn_id;
    nr_cell_id = uint64_to_hex_str ncgi.nr_cell_id 9 9;
    nid = nid_text ncgi.nid;
  }

  module _ (o : PlmnOps Plmn) (api : ApiJson Plmn) where
    unfoldable pub ncgi_to_json : Ncgi Plmn → Json
    unfolding ncgi_to_openapi
    ncgi_to_json ncgi = let n = ncgi_to_openapi ncgi in api.ncgi_json n.plmn_id n.nr_cell_id n.nid

    unfoldable pub cell_changed : ℕ → ℕ → List PatchItem
    cell_changed a b =
        if a == b
        then []
        else json_patch_new Operation.replace (bytes "/nrCellId")
            (some (Json.string (uint64_to_hex_str b 9 9)))
          ∷ []

    unfoldable pub ncgi_patch_list :
        Option (Ncgi Plmn) → Option (Ncgi Plmn) → Option (List PatchItem)
    unfolding plmn_changed cell_changed nid_changed ncgi_to_json
    ncgi_patch_list none none = none
    ncgi_patch_list none (some b) =
        some (json_patch_new Operation.add (bytes "/") (some (ncgi_to_json b)) ∷ [])
    ncgi_patch_list (some a) none = some (json_patch_new Operation.remove (bytes "/") none ∷ [])
    ncgi_patch_list (some a) (some b) = if_any (
        plmn_changed o api a.plmn_id b.plmn_id
        ++ cell_changed a.nr_cell_id b.nr_cell_id
        ++ nid_changed a.nid b.nid)

    unfoldable pub ncgis_patch_list :
        Option (List (Ncgi Plmn)) → Option (List (Ncgi Plmn)) → Option (List PatchItem)
    unfolding ncgi_equal ncgi_to_json
    ncgis_patch_list = list_patch_list (ncgi_equal o) ncgi_to_json index_path
