-- ===== src/MbsSession/Update.antt =====
-- The patches of an update of an MBS Session (mbs-session.c). The patches of the areas and of the
-- service information, which other files make, enter as functions, as do those of the area ids.
pub mod Members
pub mod Composed
mod Examples
use rt_5gc_service_consumers.Common.{
  ℕ, Bool, true, false, List, [], ◌∷◌, ◌++◌, Option, none, some, Str, bytes, if◌then◌else◌, Run, ok,
  ◌>>=◌,
}
use rt_5gc_service_consumers.JsonPatch.{
  Json, PatchItem, Operation, json_patch_new, json_patches_append_list,
}
use rt_5gc_service_consumers.MbsSession.Public.{
  ServiceType, multicast, broadcast, ActivityStatus, unset, active, inactive, bool_eq, activity_eq,
  Parts, Public,
}
use rt_5gc_service_consumers.MbsSession.Push.{Session}

-- `_mbs_service_area_patch_list` and its neighbours for the other members.
pub record PartPatches (parts : Parts) : Type 0 where
  pub area_patch_list :
      Option parts.ServiceArea → Option parts.ServiceArea → Run (Option (List PatchItem))
  pub ext_area_patch_list :
      Option parts.ExtServiceArea → Option parts.ExtServiceArea → Run (Option (List PatchItem))
  pub info_patch_list :
      Option parts.ServiceInfo → Option parts.ServiceInfo → Run (Option (List PatchItem))
  pub fsa_ids_patch_list : List ℕ → List ℕ → Option (List PatchItem)

unfoldable pub activity_status_to_json : ActivityStatus → Json
activity_status_to_json active = Json.string (bytes "ACTIVE")
activity_status_to_json inactive = Json.string (bytes "INACTIVE")
activity_status_to_json unset = Json.null

-- PATCH_FIELD of contact_pcf_ind: the first patch, if any.
unfoldable pub contact_changed : Bool → Bool → Option (List PatchItem)
contact_changed a b =
    if bool_eq a b
    then none
    else some (json_patch_new Operation.replace (bytes "/contactPcfInd") (some (Json.bool b)) ∷ [])

-- PATCH_NULLABLE_FIELD of activity_status, where the two differ.
unfoldable pub activity_patch : ActivityStatus → ActivityStatus → PatchItem
unfolding activity_status_to_json
activity_patch unset b =
    json_patch_new Operation.add (bytes "/activityStatus") (some (activity_status_to_json b))
activity_patch a unset = json_patch_new Operation.remove (bytes "/activityStatus") none
activity_patch a b =
    json_patch_new Operation.replace (bytes "/activityStatus") (some (activity_status_to_json b))

-- `ogs_list_add`, where the list is made with its first patch.
unfoldable pub add_patch : PatchItem → Option (List PatchItem) → Option (List PatchItem)
add_patch p none = some (p ∷ [])
add_patch p (some ps) = some (ps ++ p ∷ [])

unfoldable pub activity_changed :
    ActivityStatus → ActivityStatus → Option (List PatchItem) → Option (List PatchItem)
unfolding activity_patch add_patch
activity_changed a b patches =
    if activity_eq a b then patches else add_patch (activity_patch a b) patches

module _ {Plmn : Type 0} {parts : Parts} (patch : PartPatches parts) where
  -- What depends on the service type of the first session.
  unfoldable pub typed_patches :
      ServiceType
      → Public Plmn parts
      → Public Plmn parts
      → Option (List PatchItem)
      → Run (Option (List PatchItem))
  unfolding json_patches_append_list activity_changed
  typed_patches broadcast a b patches =
      json_patches_append_list patches (patch.fsa_ids_patch_list a.mbs_fsa_ids b.mbs_fsa_ids)
        (some (bytes "/mbsFsaIdList"))
  typed_patches multicast a b patches =
      ok (activity_changed a.activity_status b.activity_status patches)

  -- Changes of the other fields are ignored with a warning.
  unfoldable pub mbs_session_public_patch_list :
      Option (Public Plmn parts) → Option (Public Plmn parts) → Run (Option (List PatchItem))
  unfolding typed_patches contact_changed json_patches_append_list
  mbs_session_public_patch_list none b = ok none
  mbs_session_public_patch_list (some a) none = ok none
  mbs_session_public_patch_list (some a) (some b) = do
    area ← patch.area_patch_list a.mbs_service_area b.mbs_service_area
    with_area ←
        json_patches_append_list (contact_changed a.contact_pcf_ind b.contact_pcf_ind) area
          (some (bytes "/mbsServiceArea"))
    ext ← patch.ext_area_patch_list a.ext_mbs_service_area b.ext_mbs_service_area
    with_ext ← json_patches_append_list with_area ext (some (bytes "/extMbsServiceArea"))
    info ← patch.info_patch_list a.mbs_service_info b.mbs_service_info
    with_info ← json_patches_append_list with_ext info (some (bytes "/mbsServInfo"))
    typed_patches a.service_type a b with_info

  unfoldable pub mbs_session_patch_list : Session Plmn parts → Run (Option (List PatchItem))
  unfolding mbs_session_public_patch_list
  mbs_session_patch_list s = mbs_session_public_patch_list s.previous_session (some s.session)
