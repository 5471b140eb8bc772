-- ===== src/MbsSession/Update/Examples.antt =====
-- The update of an MBS Session at two concrete sessions, whose areas and information are numbers.
use rt_5gc_service_consumers.Common.{
  ℕ, true, List, [], ◌∷◌, Option, none, some, bytes, Run, ok, fault, ◌==◌, if◌then◌else◌, ◌≡◌, refl,
}
use rt_5gc_service_consumers.JsonPatch.{
  Json, PatchItem, Operation, json_patch_new, json_patches_append_list, made,
}
use rt_5gc_service_consumers.MbsSession.Public.{Public, active, inactive, multicast}
use rt_5gc_service_consumers.MbsSession.Update.{PartPatches, mbs_session_public_patch_list}
use rt_5gc_service_consumers.MbsSession.Update.Composed.{
  Updates, mbs_session_public_patch_list-Updates,
}
use rt_5gc_service_consumers.Samples.{Plmn, parts, session}

abbrev replace_number : ℕ → ℕ → Option (List PatchItem)
replace_number a b =
    if a == b
    then none
    else some (json_patch_new Operation.replace (bytes "/") (some (Json.string (b ∷ []))) ∷ [])

abbrev number_patches : Option ℕ → Option ℕ → Run (Option (List PatchItem))
number_patches (some a) (some b) = ok (replace_number a b)
number_patches _ _ = ok none

abbrev patch : PartPatches parts
patch = record {
  area_patch_list = number_patches;
  ext_area_patch_list = number_patches;
  info_patch_list = number_patches;
  fsa_ids_patch_list = λ a b. none;
}

abbrev old_session : Public Plmn parts
old_session = record session { service_type = multicast; activity_status = active }

abbrev new_session : Public Plmn parts
new_session = record old_session {
  mbs_service_area = some 9;
  contact_pcf_ind = true;
  activity_status = inactive;
}

abbrev patches : Run (Option (List PatchItem))
patches = mbs_session_public_patch_list patch (some old_session) (some new_session)

abbrev value_of : Run (Option (List PatchItem)) → Option (List PatchItem)
value_of (ok q) = q
value_of fault = none

patches_ok : patches ≡ ok (value_of patches)
unfolding mbs_session_public_patch_list json_patches_append_list json_patch_new
patches_ok = refl

mbs_session_public_patch_list-Updates_example :
    Updates patch old_session new_session (made (value_of patches))
mbs_session_public_patch_list-Updates_example =
    mbs_session_public_patch_list-Updates patch old_session new_session (value_of patches)
      patches_ok
