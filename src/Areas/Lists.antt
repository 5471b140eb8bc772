-- ===== src/Areas/Lists.antt =====
-- The patches between two lists of TAIs, of cells and of TAIs with cells.
use rt_5gc_service_consumers.Common.{
  Bool, true, List, [], ◌∷◌, Option, none, some, Str, bytes, ok, fault, ◌≡◌, ◌↔◌, refl, ap, ◌∙◌,
}
use rt_5gc_service_consumers.JsonPatch.{Json, PatchItem, made, json_patches_append_list, index_path}
use rt_5gc_service_consumers.JsonPatch.Rfc6902.{apply}
use rt_5gc_service_consumers.JsonPatch.Elements.{appended}
use rt_5gc_service_consumers.ListPatch.{list_not_empty}
use rt_5gc_service_consumers.ListPatch.Apply.{
  AllEqual, elements, list_member, index_path-AddsLast, dash-AddsLast, list_patch_list-apply,
}
use rt_5gc_service_consumers.ListPatch.Removal.{removes, list_patch_list-fault_iff}
use rt_5gc_service_consumers.ListPatch.Unchanged.{list_patch_list-none_iff}
use rt_5gc_service_consumers.Tmgi.Plmn.{PlmnOps, ComparesBytes}
use rt_5gc_service_consumers.Areas.{ApiJson}
use rt_5gc_service_consumers.Areas.Equal.{tai_equal_self, ncgi_equal_iff}
use rt_5gc_service_consumers.Areas.Tai.{Tai, tai_equal, tai_to_json, tais_patch_list}
use rt_5gc_service_consumers.Areas.Ncgi.{Ncgi, ncgi_equal, ncgi_to_json, ncgis_patch_list}
use rt_5gc_service_consumers.Areas.NcgiTai.{
  NcgiTai, ncgi_tai_equal, ncgi_tai_to_json, ncgi_tais_patch_list,
}

module _ {A : Type 0} where
  AllEqual-eq :
      (equal : A → A → Bool)
      → ((x y : A) → (equal x y ≡ true) ↔ (x ≡ y))
      → (a b : List A) → AllEqual equal a b
      → a ≡ b
  AllEqual-eq equal exact [] [] h = refl
  AllEqual-eq equal exact [] (y ∷ b) h = absurd h
  AllEqual-eq equal exact (x ∷ a) [] h = absurd h
  AllEqual-eq equal exact (x ∷ a) (y ∷ b) h =
      let e = (exact x y).0 h.0 in let k = AllEqual-eq equal exact a b h.1 in cc

  list_member-elements :
      (to_json : A → Json) (b : Option (List A))
      → list_member to_json (some (elements b)) ≡ list_member to_json b
  unfolding list_not_empty
  list_member-elements to_json none = refl
  list_member-elements to_json (some l) = refl

module _ {Plmn : Type 0} (o : PlmnOps Plmn) (api : ApiJson Plmn) where
  -- Whenever the patches between two lists of TAIs can be appended below a prefix, the patch
  -- document applied to the member at the prefix turns the first list into one that equals the
  -- second by `_tai_equal`, place by place.
  pub tais_patch_list-append :
      (a b : Option (List (Tai Plmn))) (prefix : Str) (q : Option (List PatchItem))
      → json_patches_append_list none (tais_patch_list o api a b) (some prefix) ≡ ok q
      → (c : List (Tai Plmn)) × (apply prefix (made q) (list_member (tai_to_json o api) a)
          ≡ some (list_member (tai_to_json o api) (some c)))
        × AllEqual (tai_equal o) c (elements b)
  unfolding tais_patch_list
  tais_patch_list-append a b prefix q h =
      let (c, e, k) =
        list_patch_list-apply (tai_equal o) (tai_to_json o api) (λ idx. bytes "/-") dash-AddsLast
          (tai_equal_self o) a b in
      (
        c,
        appended prefix (tais_patch_list o api a b) q (list_member (tai_to_json o api) a) h ∙ e,
        k,
      )

  -- Whenever the patches between two lists of cells can be appended below a prefix, the patch
  -- document applied to the member at the prefix turns the first list into the second; PLMN ids
  -- compare by their bytes.
  pub ncgis_patch_list-append :
      ComparesBytes o
      → (a b : Option (List (Ncgi Plmn))) (prefix : Str) (q : Option (List PatchItem))
      → json_patches_append_list none (ncgis_patch_list o api a b) (some prefix) ≡ ok q
      → apply prefix (made q) (list_member (ncgi_to_json o api) a)
        ≡ some (list_member (ncgi_to_json o api) b)
  unfolding ncgis_patch_list
  ncgis_patch_list-append bytewise a b prefix q h =
      let exact = ncgi_equal_iff o bytewise in
      let (c, e, k) =
        list_patch_list-apply (ncgi_equal o) (ncgi_to_json o api) index_path index_path-AddsLast
          (λ x. (exact x x).1 refl) a b in
      appended prefix (ncgis_patch_list o api a b) q (list_member (ncgi_to_json o api) a) h
      ∙ e
      ∙ ap (λ (l : List (Ncgi Plmn)). some (list_member (ncgi_to_json o api) (some l)))
          (AllEqual-eq (ncgi_equal o) exact c (elements b) k)
      ∙ ap some (list_member-elements (ncgi_to_json o api) b)

  -- Appending the patches between two lists of cells below a prefix reads through NULL exactly when
  -- the first list has elements and the second none, or both begin with equal cells and the second
  -- is shorter.
  pub ncgis_patch_list-fault_iff :
      (a b : Option (List (Ncgi Plmn))) (prefix : Option Str)
      → (json_patches_append_list none (ncgis_patch_list o api a b) prefix ≡ fault)
        ↔ (removes (ncgi_equal o) (elements a) (elements b) ≡ true)
  unfolding ncgis_patch_list
  ncgis_patch_list-fault_iff a b prefix =
      list_patch_list-fault_iff (ncgi_equal o) (ncgi_to_json o api) index_path index_path-AddsLast a
        b prefix

  -- Two lists of TAIs with cells have no patches between them exactly when their TAIs are equal by
  -- `_tai_equal`, place by place, whatever their cells are.
  pub ncgi_tais_patch_list-none_iff :
      (a b : Option (List (NcgiTai Plmn)))
      → (ncgi_tais_patch_list o api a b ≡ none)
        ↔ AllEqual (λ x y. tai_equal o x.tai y.tai) (elements a) (elements b)
  unfolding ncgi_tais_patch_list ncgi_tai_equal
  ncgi_tais_patch_list-none_iff a b =
      list_patch_list-none_iff (ncgi_tai_equal o) (ncgi_tai_to_json o api) index_path
        index_path-AddsLast a b
