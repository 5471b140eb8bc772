-- ===== src/MbsSession/Update/Composed.antt =====
-- A session is updated by its patches.
use mathlib.Core.List.{append-nil}
use rt_5gc_service_consumers.Common.{
  List, [], ◌∷◌, ◌++◌, Option, some, ok, >>=-eq-ok, ◌≡◌, refl, ap, ◌∙◌,
}
use rt_5gc_service_consumers.JsonPatch.{Json, PatchItem, json_patches_append_list, made}
use rt_5gc_service_consumers.JsonPatch.Rfc6902.{apply}
use rt_5gc_service_consumers.JsonPatch.Below.{Belong, items_below}
use rt_5gc_service_consumers.JsonPatch.Joined.{joined}
use rt_5gc_service_consumers.MbsSession.Public.{ServiceType, multicast, broadcast, Parts, Public}
use rt_5gc_service_consumers.MbsSession.Update.Members.{
  contact_member, area_member, ext_area_member, info_member, activity_member, fsa_member, status,
  Relays, contact-Belong, contact-apply, activity_items, activity-made, activity-Belong,
  activity-apply, relayed, regroup, members, own,
}
use rt_5gc_service_consumers.MbsSession.Update.{
  PartPatches, contact_changed, activity_changed, typed_patches, mbs_session_public_patch_list,
}

module _ {Plmn : Type 0} {parts : Parts} (patch : PartPatches parts) where
  -- What depends on the service type: the area ids of a broadcast session are updated, and the
  -- activity status of a multicast one.
  abbrev pub Typed :
      ServiceType → Public Plmn parts → Public Plmn parts → List PatchItem → List PatchItem → Type 0
  Typed broadcast a b activity fsa =
      (activity ≡ [])
      × Relays (ok (patch.fsa_ids_patch_list a.mbs_fsa_ids b.mbs_fsa_ids)) fsa_member fsa
  Typed multicast a b activity fsa =
      (apply activity_member activity (status a.activity_status) ≡ some (status b.activity_status))
      × (fsa ≡ [])

  typed_patches_lem :
      (t : ServiceType) (a b : Public Plmn parts) (p q : Option (List PatchItem))
      → typed_patches patch t a b p ≡ ok q
      → (activity fsa : List PatchItem) × (made q ≡ made p ++ (activity ++ fsa))
        × Belong activity_member activity
        × Belong fsa_member fsa
        × Typed t a b activity fsa
  unfolding typed_patches
  typed_patches_lem broadcast a b p q h =
      let fsa_ids = patch.fsa_ids_patch_list a.mbs_fsa_ids b.mbs_fsa_ids in
      let (r, split, belong, relays) = relayed (ok fsa_ids) p fsa_ids q fsa_member refl h in
      ([], r, split, tt, belong, (refl, relays))
  typed_patches_lem multicast a b p q h =
      let x = a.activity_status in
      let y = b.activity_status in
      let same : q ≡ activity_changed x y p = cc in
      (
        activity_items x y,
        [],
        rw (same, append-nil (activity_items x y)) (activity-made x y p),
        activity-Belong x y,
        tt,
        (activity-apply x y, refl),
      )

  -- The update of a session by patches.
  pub record Updates (a b : Public Plmn parts) (all : List PatchItem) : Type 0 where
    pub contact :
        apply contact_member (items_below contact_member all) (some (Json.bool a.contact_pcf_ind))
        ≡ some (some (Json.bool b.contact_pcf_ind))
    pub area :
        Relays
          (patch.area_patch_list a.mbs_service_area b.mbs_service_area)
          area_member
          (items_below area_member all)
    pub ext_area :
        Relays
          (patch.ext_area_patch_list a.ext_mbs_service_area b.ext_mbs_service_area)
          ext_area_member
          (items_below ext_area_member all)
    pub info :
        Relays
          (patch.info_patch_list a.mbs_service_info b.mbs_service_info)
          info_member
          (items_below info_member all)
    pub typed :
        Typed a.service_type a b (items_below activity_member all) (items_below fsa_member all)
    pub nothing_else :
        all
        ≡ joined (
            (contact_member, items_below contact_member all)
            ∷ (area_member, items_below area_member all)
            ∷ (ext_area_member, items_below ext_area_member all)
            ∷ (info_member, items_below info_member all)
            ∷ (activity_member, items_below activity_member all)
            ∷ (fsa_member, items_below fsa_member all)
            ∷ [])

  -- Items that are put together from those of the members update the session.
  collected :
      (a b : Public Plmn parts) (r s t u v all : List PatchItem)
      → Belong area_member r
        × Relays (patch.area_patch_list a.mbs_service_area b.mbs_service_area) area_member r
      → Belong ext_area_member s
        × Relays
            (patch.ext_area_patch_list a.ext_mbs_service_area b.ext_mbs_service_area)
            ext_area_member
            s
      → Belong info_member t
        × Relays (patch.info_patch_list a.mbs_service_info b.mbs_service_info) info_member t
      → Belong activity_member u × Belong fsa_member v × Typed a.service_type a b u v
      → all
        ≡ joined (members (made (contact_changed a.contact_pcf_ind b.contact_pcf_ind)) r s t u v)
      → Updates a b all
  collected a b r s t u v all area ext info typed whole =
      let c = made (contact_changed a.contact_pcf_ind b.contact_pcf_ind) in
      let contact_in = contact-Belong a.contact_pcf_ind b.contact_pcf_ind in
      let (at_c, at_r, at_s, at_t, at_u, at_v) =
        own c r s t u v all (contact_in, (area.0, (ext.0, (info.0, (typed.0, (typed.1, tt))))))
          whole in
      record {
        contact = rw at_c (contact-apply a.contact_pcf_ind b.contact_pcf_ind);
        area = rw at_r area.1;
        ext_area = rw at_s ext.1;
        info = rw at_t info.1;
        typed = rw (at_u, at_v) typed.2;
        nothing_else = rw (at_c, at_r, at_s, at_t, at_u, at_v) whole;
      }

  -- Whenever the patches of an update can be made, the patch document sets the contact flag of the
  -- first session to that of the second; does on each of the service area, the extended area and the
  -- service information what the patches made for it do; for a broadcast session does the same for
  -- the area ids, and for a multicast session sets the activity status, where one that is not set
  -- is absent; and acts on no other member, in this order.
  pub mbs_session_public_patch_list-Updates :
      (a b : Public Plmn parts) (q : Option (List PatchItem))
      → mbs_session_public_patch_list patch (some a) (some b) ≡ ok q
      → Updates a b (made q)
  unfolding mbs_session_public_patch_list
  mbs_session_public_patch_list-Updates a b q h =
      let c = contact_changed a.contact_pcf_ind b.contact_pcf_ind in
      let area_run = patch.area_patch_list a.mbs_service_area b.mbs_service_area in
      let ext_run = patch.ext_area_patch_list a.ext_mbs_service_area b.ext_mbs_service_area in
      let info_run = patch.info_patch_list a.mbs_service_info b.mbs_service_info in
      let (area, e1, h1) = >>=-eq-ok area_run _ h in
      let (p1, f1, g1) = >>=-eq-ok (json_patches_append_list c area (some area_member)) _ h1 in
      let (ext, e2, h2) = >>=-eq-ok ext_run _ g1 in
      let (p2, f2, g2) = >>=-eq-ok (json_patches_append_list p1 ext (some ext_area_member)) _ h2 in
      let (info, e3, h3) = >>=-eq-ok info_run _ g2 in
      let (p3, f3, g3) = >>=-eq-ok (json_patches_append_list p2 info (some info_member)) _ h3 in
      let (r, r_split, r_in, r_relays) = relayed area_run c area p1 area_member e1 f1 in
      let (s, s_split, s_in, s_relays) = relayed ext_run p1 ext p2 ext_area_member e2 f2 in
      let (t, t_split, t_in, t_relays) = relayed info_run p2 info p3 info_member e3 f3 in
      let (u, v, split, u_in, v_in, typed) = typed_patches_lem a.service_type a b p3 q g3 in
      collected a b r s t u v (made q) (r_in, r_relays) (s_in, s_relays) (t_in, t_relays)
        (u_in, v_in, typed)
        (split
          ∙ ap (λ l. l ++ (u ++ v))
              (t_split ∙ ap (λ l. l ++ t) (s_split ∙ ap (λ l. l ++ s) r_split))
          ∙ regroup (made c) r s t u v)
