-- ===== src/Areas/Tai.antt =====
-- lib/mb-smf-service-consumer/tai.c: Tracking Area Identities.
use rt_5gc_service_consumers.Common.{
  ℕ, ◌%◌, ◌^◌, Bool, true, false, ◌&&◌, List, [], ◌∷◌, ◌++◌, Option, none, some, Str, bytes, ◌==◌,
  if◌then◌else◌, uint32_to_hex_str, uint64_to_hex_str,
}
use rt_5gc_service_consumers.JsonPatch.{Json, PatchItem, Operation, json_patch_new, if_any}
use rt_5gc_service_consumers.ListPatch.{list_patch_list}
use rt_5gc_service_consumers.Tmgi.Plmn.{PlmnOps}
use rt_5gc_service_consumers.Areas.{ApiJson, mnc_length}

pub record Tai (Plmn : Type 0) : Type 0 where
  pub plmn_id : Plmn
  pub tac : ℕ
  pub nid : Option ℕ

-- An `OpenAPI_tai_t`.
pub record ApiTai (Plmn : Type 0) : Type 0 where
  pub plmn_id : Plmn
  pub tac : Str
  pub nid : Option Str

unfoldable pub nid_text : Option ℕ → Option Str
nid_text none = none
nid_text (some nid) = some (uint64_to_hex_str nid 11 11)

-- `!a->nid == !b->nid` and the same number
unfoldable pub nid_equal : Option ℕ → Option ℕ → Bool
nid_equal none none = true
nid_equal (some a) (some b) = a == b
nid_equal _ _ = false

-- The patches for the optional member `nid`; the same pointer is the case of equal numbers.
unfoldable pub nid_changed : Option ℕ → Option ℕ → List PatchItem
nid_changed none none = []
nid_changed none (some b) =
    json_patch_new Operation.add (bytes "/nid") (some (Json.string (uint64_to_hex_str b 11 11)))
    ∷ []
nid_changed (some a) none = json_patch_new Operation.remove (bytes "/nid") none ∷ []
nid_changed (some a) (some b) =
    if a == b
    then []
    else json_patch_new Operation.replace (bytes "/nid")
        (some (Json.string (uint64_to_hex_str b 11 11)))
      ∷ []

module _ {Plmn : Type 0} where
  unfoldable pub tai_set_plmn_id : Option (Tai Plmn) → Option Plmn → Option (Tai Plmn)
  tai_set_plmn_id (some tai) (some plmn_id) = some (record tai { plmn_id = plmn_id })
  tai_set_plmn_id tai plmn_id = tai

  unfoldable pub tai_set_tac : Option (Tai Plmn) → ℕ → Option (Tai Plmn)
  tai_set_tac none tac = none
  tai_set_tac (some tai) tac = some (record tai { tac = tac % 2 ^ 24 })

  unfoldable pub tai_set_network_id : Option (Tai Plmn) → Option ℕ → Option (Tai Plmn)
  tai_set_network_id none nid = none
  tai_set_network_id (some tai) (some nid) = some (record tai { nid = some (nid % 2 ^ 44) })
  tai_set_network_id (some tai) none = some (record tai { nid = none })

  module _ (o : PlmnOps Plmn) where
    unfoldable pub tai_create : Tai Plmn
    tai_create = record { plmn_id = o.zero_plmn; tac = 0; nid = none }

    unfoldable pub tai_clear : Tai Plmn → Tai Plmn
    tai_clear tai = record tai { plmn_id = o.zero_plmn; tac = 0; nid = none }

    unfoldable pub tai_new : Option Plmn → ℕ → Option ℕ → Option (Tai Plmn)
    unfolding tai_set_network_id tai_set_tac tai_set_plmn_id tai_create
    tai_new plmn_id tac nid =
        tai_set_network_id (tai_set_tac (tai_set_plmn_id (some tai_create) plmn_id) tac) nid

    -- mb_smf_sc_tai_new
    unfoldable pub sc_tai_new : ℕ → ℕ → ℕ → Option ℕ → Option (Tai Plmn)
    unfolding tai_new
    sc_tai_new mcc mnc tac nid = tai_new (some (o.build mcc mnc (mnc_length mnc))) tac nid

    -- mb_smf_sc_tai_set_plmn
    unfoldable pub sc_tai_set_plmn : Option (Tai Plmn) → ℕ → ℕ → Option (Tai Plmn)
    unfolding tai_set_plmn_id
    sc_tai_set_plmn tai mcc mnc = tai_set_plmn_id tai (some (o.build mcc mnc (mnc_length mnc)))

    -- Where a copy goes: what is there is cleared, and NULL is replaced by a new TAI.
    unfoldable pub tai_destination : Option (Tai Plmn) → Tai Plmn
    unfolding tai_create tai_clear
    tai_destination none = tai_create
    tai_destination (some dst) = tai_clear dst

    unfoldable pub copy_nid : Option ℕ → Tai Plmn → Tai Plmn
    copy_nid none dst = dst
    copy_nid (some nid) dst = record dst { nid = some nid }

    unfoldable pub tai_copy : Option (Tai Plmn) → Option (Tai Plmn) → Option (Tai Plmn)
    unfolding tai_destination copy_nid
    tai_copy dst none = none
    tai_copy dst (some src) =
        some
          (copy_nid src.nid (record (tai_destination dst) { plmn_id = src.plmn_id; tac = src.tac }))

    -- The numbers of the PLMN ids are compared. The same pointer is the case of equal fields.
    unfoldable pub tai_equal : Tai Plmn → Tai Plmn → Bool
    unfolding nid_equal
    tai_equal a b =
        (a.tac == b.tac)
        && nid_equal a.nid b.nid
        && (o.mcc a.plmn_id == o.mcc b.plmn_id)
        && (o.mnc a.plmn_id == o.mnc b.plmn_id)

  unfoldable pub tai_to_openapi : Tai Plmn → ApiTai Plmn
  unfolding nid_text
  tai_to_openapi tai = record {
    plmn_id = tai.plmn_id;
    tac = uint32_to_hex_str tai.tac 4 6;
    nid = nid_text tai.nid;
  }

  module _ (o : PlmnOps Plmn) (api : ApiJson Plmn) where
    unfoldable pub tai_to_json : Tai Plmn → Json
    unfolding tai_to_openapi
    tai_to_json tai = let t = tai_to_openapi tai in api.tai_json t.plmn_id t.tac t.nid

    unfoldable pub plmn_changed : Plmn → Plmn → List PatchItem
    plmn_changed a b =
        if o.equal a b
        then []
        else json_patch_new Operation.replace (bytes "/plmnId") (some (api.plmn_json b)) ∷ []

    unfoldable pub tac_changed : ℕ → ℕ → List PatchItem
    tac_changed a b =
        if a == b
        then []
        else json_patch_new Operation.replace (bytes "/tac")
            (some (Json.string (uint32_to_hex_str b 4 6)))
          ∷ []

    unfoldable pub tai_patch_list : Option (Tai Plmn) → Option (Tai Plmn) → Option (List PatchItem)
    unfolding plmn_changed tac_changed nid_changed tai_to_json
    tai_patch_list none none = none
    tai_patch_list none (some b) =
        some (json_patch_new Operation.add (bytes "/") (some (tai_to_json b)) ∷ [])
    tai_patch_list (some a) none = some (json_patch_new Operation.remove (bytes "/") none ∷ [])
    tai_patch_list (some a) (some b) =
        if_any
          (plmn_changed a.plmn_id b.plmn_id ++ tac_changed a.tac b.tac ++ nid_changed a.nid b.nid)

    -- An element that is added goes to the path `/-`.
    unfoldable pub tais_patch_list :
        Option (List (Tai Plmn)) → Option (List (Tai Plmn)) → Option (List PatchItem)
    unfolding tai_equal tai_to_json
    tais_patch_list = list_patch_list (tai_equal o) tai_to_json (λ idx. bytes "/-")
