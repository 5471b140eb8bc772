-- ===== src/Areas/AreaPatch.antt =====
-- The patches between two service areas, by the member that they act on.
use mathlib.Core.List.{append-nil}
use rt_5gc_service_consumers.Common.{
  Bool, List, ◌++◌, Option, none, some, Str, bytes, ok, >>=-eq-ok, ◌≡◌, refl, ap, ◌∙◌,
}
use rt_5gc_service_consumers.JsonPatch.{Json, PatchItem, made, json_patches_append_list, index_path}
use rt_5gc_service_consumers.JsonPatch.Rfc6902.{apply, strip}
use rt_5gc_service_consumers.JsonPatch.Elements.{appended}
use rt_5gc_service_consumers.JsonPatch.Below.{
  Apart, Belong, items_below, items_below-append, items_below-Belong, items_below-Apart,
  append-Belong,
}
use rt_5gc_service_consumers.ListPatch.Apply.{
  AllEqual, list_member, index_path-AddsLast, list_patch_list-apply,
}
use rt_5gc_service_consumers.Tmgi.Plmn.{PlmnOps}
use rt_5gc_service_consumers.Areas.{ApiJson}
use rt_5gc_service_consumers.Areas.Tai.{tai_equal, tai_to_json, tais_patch_list}
use rt_5gc_service_consumers.Areas.NcgiTai.{
  NcgiTai, ncgi_tai_equal, ncgi_tai_to_json, ncgi_tais_patch_list,
}
use rt_5gc_service_consumers.Areas.Equal.{ncgi_tai_equal_self}
use rt_5gc_service_consumers.Areas.Lists.{tais_patch_list-append}
use rt_5gc_service_consumers.Areas.ServiceArea.{ServiceArea, mbs_service_area_patch_list}

abbrev pub ncgi_list : Str
ncgi_list = bytes "/ncgiList"

abbrev pub tai_list : Str
tai_list = bytes "/taiList"

tai_list-Apart : Apart tai_list ncgi_list
unfolding strip
tai_list-Apart s = refl

ncgi_list-Apart : Apart ncgi_list tai_list
unfolding strip
ncgi_list-Apart s = refl

-- Items below two paths, one behind the other.
pub two_members :
    (p q : Str) (all ps qs : List PatchItem)
    → Apart p q
    → Apart q p
    → Belong p ps
    → Belong q qs
    → all ≡ ps ++ qs
    → (items_below p all ≡ ps) × (items_below q all ≡ qs)
two_members p q all ps qs pq qp in_p in_q e = (
  rw (e, items_below-append p ps qs, items_below-Belong p ps in_p, items_below-Apart p q qs pq in_q)
      (append-nil ps),
  rw (e, items_below-append q ps qs, items_below-Belong q qs in_q, items_below-Apart q p ps qp in_p)
      refl,
)

module _ {Plmn : Type 0} (o : PlmnOps Plmn) (api : ApiJson Plmn)
    (area_json : Option (List Json) → Option (List Json) → Json) where
  -- A patch of a member makes its list equal to the second, place by place.
  abbrev pub Makes :
      {A : Type 0} → (A → A → Bool) → (A → Json) → Str → List PatchItem → List A → List A → Type 0
  Makes {A} equal to_json member ps a b =
      (c : List A) × (apply member ps (list_member to_json (some a))
        ≡ some (list_member to_json (some c)))
      × AllEqual equal c b

  cells-Makes :
      (a b : List (NcgiTai Plmn)) (r : Option (List PatchItem))
      → json_patches_append_list none
          (ncgi_tais_patch_list o api (some a) (some b))
          (some ncgi_list)
        ≡ ok r
      → Makes (ncgi_tai_equal o) (ncgi_tai_to_json o api) ncgi_list (made r) a b
  unfolding ncgi_tais_patch_list
  cells-Makes a b r h =
      let (c, e, k) =
        list_patch_list-apply (ncgi_tai_equal o) (ncgi_tai_to_json o api) index_path
          index_path-AddsLast (ncgi_tai_equal_self o) (some a) (some b) in
      (
        c,
        appended ncgi_list (ncgi_tais_patch_list o api (some a) (some b)) r
              (list_member (ncgi_tai_to_json o api) (some a)) h
            ∙ e,
        k,
      )

  -- Whenever the patches between two service areas can be made, each acts on one of the two lists,
  -- those on the TAIs with cells first. Applied to the member that stands for the first area's list,
  -- those of a list turn it into one that equals the second area's, place by place, by
  -- `_ncgi_tai_equal` and by `_tai_equal`.
  pub mbs_service_area_patch_list-Makes :
      (a b : ServiceArea Plmn) (q : Option (List PatchItem))
      → mbs_service_area_patch_list o api area_json (some a) (some b) ≡ ok q
      → let cells = items_below ncgi_list (made q) in
        let tais = items_below tai_list (made q) in
        (made q ≡ cells ++ tais)
        × Makes (ncgi_tai_equal o) (ncgi_tai_to_json o api) ncgi_list cells a.ncgi_tais b.ncgi_tais
        × Makes (tai_equal o) (tai_to_json o api) tai_list tais a.tais b.tais
  unfolding mbs_service_area_patch_list
  mbs_service_area_patch_list-Makes a b q h =
      let cell_patches = ncgi_tais_patch_list o api (some a.ncgi_tais) (some b.ncgi_tais) in
      let tai_patches = tais_patch_list o api (some a.tais) (some b.tais) in
      let (first, e, k) =
        >>=-eq-ok (json_patches_append_list none cell_patches (some ncgi_list))
          (λ patches. json_patches_append_list patches tai_patches (some tai_list)) h in
      let (r, m, same, in_cells) = append-Belong none cell_patches first ncgi_list e in
      let (t, n, split, in_tais) = append-Belong first tai_patches q tai_list k in
      let (at_cells, at_tais) =
        two_members ncgi_list tai_list (made q) (made r) (made t) ncgi_list-Apart tai_list-Apart
          in_cells in_tais (split ∙ ap (λ l. l ++ made t) same) in
      rw (at_cells, at_tais)
        (
          split ∙ ap (λ l. l ++ made t) same,
          cells-Makes a.ncgi_tais b.ncgi_tais r m,
          tais_patch_list-append o api (some a.tais) (some b.tais) tai_list t n,
        )
