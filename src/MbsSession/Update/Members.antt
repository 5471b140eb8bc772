-- ===== src/MbsSession/Update/Members.antt =====
-- The patches of an update, by the member of the session that they act on.
use mathlib.Core.List.{append_assoc, append-nil}
use rt_5gc_service_consumers.Common.{
  Bool, true, false, List, [], ◌∷◌, ◌++◌, Option, none, some, Str, str_eq, bytes, if◌then◌else◌,
  Run, ok, Bool-cases, inl, inr, ◌≡◌, refl, sym, ap, ◌∙◌,
}
use rt_5gc_service_consumers.JsonPatch.{
  Json, PatchItem, json_patch_new, json_patches_append_list, made,
}
use rt_5gc_service_consumers.JsonPatch.Rfc6902.{apply, apply_item, apply_at, apply_whole, strip}
use rt_5gc_service_consumers.JsonPatch.Prefix.{apply_local}
use rt_5gc_service_consumers.JsonPatch.Elements.{appended}
use rt_5gc_service_consumers.JsonPatch.Below.{Belong, items_below, append-Belong}
use rt_5gc_service_consumers.JsonPatch.Joined.{joined, AllBelong, told_apart, joined-select}
use rt_5gc_service_consumers.MbsSession.Public.{
  ActivityStatus, unset, active, inactive, activity_eq,
}
use rt_5gc_service_consumers.MbsSession.Update.{
  activity_status_to_json, contact_changed, activity_patch, add_patch, activity_changed,
}

abbrev pub contact_member : Str
contact_member = bytes "/contactPcfInd"

abbrev pub area_member : Str
area_member = bytes "/mbsServiceArea"

abbrev pub ext_area_member : Str
ext_area_member = bytes "/extMbsServiceArea"

abbrev pub info_member : Str
info_member = bytes "/mbsServInfo"

abbrev pub activity_member : Str
activity_member = bytes "/activityStatus"

abbrev pub fsa_member : Str
fsa_member = bytes "/mbsFsaIdList"

-- What the MB-SMF holds for an activity status: nothing when it is not set.
abbrev pub status : ActivityStatus → Option Json
status unset = none
status active = some (activity_status_to_json active)
status inactive = some (activity_status_to_json inactive)

-- Items that do on a member what the patches made for it do.
abbrev pub Relays : Run (Option (List PatchItem)) → Str → List PatchItem → Type 0
Relays run member items =
    (ps : Option (List PatchItem)) × (run ≡ ok ps)
    × ((m : Option Json) → apply member items m ≡ apply_local (made ps) m)

pub contact-Belong : (a b : Bool) → Belong contact_member (made (contact_changed a b))
unfolding contact_changed json_patch_new
contact-Belong true true = tt
contact-Belong false false = tt
contact-Belong true false = (([], refl), tt)
contact-Belong false true = (([], refl), tt)

pub contact-apply :
    (a b : Bool)
    → apply contact_member (made (contact_changed a b)) (some (Json.bool a))
      ≡ some (some (Json.bool b))
unfolding contact_changed json_patch_new apply apply_item apply_at apply_whole strip
contact-apply true true = refl
contact-apply false false = refl
contact-apply true false = refl
contact-apply false true = refl

-- The patch of the activity status as a list.
abbrev pub activity_items : ActivityStatus → ActivityStatus → List PatchItem
activity_items a b = if activity_eq a b then [] else activity_patch a b ∷ []

pub activity-made :
    (a b : ActivityStatus) (patches : Option (List PatchItem))
    → made (activity_changed a b patches) ≡ made patches ++ activity_items a b
unfolding activity_changed add_patch
activity-made a b none = elim (Bool-cases (activity_eq a b)) [ inl e ↦ rw e | inr e ↦ rw e ]
activity-made a b (some ps) = elim (Bool-cases (activity_eq a b)) [
  | inl e ↦ rw e (sym (append-nil ps))
  | inr e ↦ rw e
]

pub activity-Belong : (a b : ActivityStatus) → Belong activity_member (activity_items a b)
unfolding activity_patch json_patch_new
activity-Belong unset unset = tt
activity-Belong unset active = (([], refl), tt)
activity-Belong unset inactive = (([], refl), tt)
activity-Belong active unset = (([], refl), tt)
activity-Belong active active = tt
activity-Belong active inactive = (([], refl), tt)
activity-Belong inactive unset = (([], refl), tt)
activity-Belong inactive active = (([], refl), tt)
activity-Belong inactive inactive = tt

pub activity-apply :
    (a b : ActivityStatus) → apply activity_member (activity_items a b) (status a) ≡ some (status b)
unfolding activity_patch json_patch_new apply apply_item apply_at apply_whole strip
activity-apply unset unset = refl
activity-apply unset active = refl
activity-apply unset inactive = refl
activity-apply active unset = refl
activity-apply active active = refl
activity-apply active inactive = refl
activity-apply inactive unset = refl
activity-apply inactive active = refl
activity-apply inactive inactive = refl

-- Appending below a member relays the patches.
pub relayed :
    (run : Run (Option (List PatchItem))) (dst ps q : Option (List PatchItem)) (member : Str)
    → run ≡ ok ps
    → json_patches_append_list dst ps (some member) ≡ ok q
    → (r : List PatchItem) × (made q ≡ made dst ++ r) × Belong member r × Relays run member r
relayed run dst ps q member e h =
    let (r, m, split, belong) = append-Belong dst ps q member h in
    (made r, split, belong, (ps, e, λ x. appended member ps r x m))

pub regroup :
    (c r s t u v : List PatchItem)
    → c ++ r ++ s ++ t ++ (u ++ v) ≡ c ++ (r ++ (s ++ (t ++ (u ++ (v ++ [])))))
regroup c r s t u v = simp (append_assoc, append-nil)

abbrev pub members :
    List PatchItem
    → List PatchItem
    → List PatchItem
    → List PatchItem
    → List PatchItem
    → List PatchItem
    → List (Str × List PatchItem)
members c r s t u v =
    (contact_member, c)
    ∷ (area_member, r)
    ∷ (ext_area_member, s)
    ∷ (info_member, t)
    ∷ (activity_member, u)
    ∷ (fsa_member, v)
    ∷ []

-- The items of a member are found again among all.
pub own :
    (c r s t u v all : List PatchItem)
    → AllBelong (members c r s t u v)
    → all ≡ joined (members c r s t u v)
    → (items_below contact_member all ≡ c)
      × (items_below area_member all ≡ r)
      × (items_below ext_area_member all ≡ s)
      × (items_below info_member all ≡ t)
      × (items_below activity_member all ≡ u)
      × (items_below fsa_member all ≡ v)
unfolding str_eq
own c r s t u v all b e =
    let find = λ (m : Str) (k : told_apart m (members c r s t u v) ≡ true).
      ap (items_below m) e ∙ joined-select m (members c r s t u v) b k in
    (
      find contact_member refl ∙ append-nil c,
      find area_member refl ∙ append-nil r,
      find ext_area_member refl ∙ append-nil s,
      find info_member refl ∙ append-nil t,
      find activity_member refl ∙ append-nil u,
      find fsa_member refl ∙ append-nil v,
    )
