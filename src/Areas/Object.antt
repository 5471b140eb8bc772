-- ===== src/Areas/Object.antt =====
-- Patch items on the members of an object.
use rt_5gc_service_consumers.Common.{
  ℕ, false, List, ◌∷◌, Option, none, some, Str, str_eq, bytes, Bool-cases, inl, inr, ◌==◌, ==_self,
  ◌≡◌, refl, arith,
}
use rt_5gc_service_consumers.JsonPatch.{Json, Members, field, PatchItem, Operation, json_patch_new}
use rt_5gc_service_consumers.JsonPatch.Rfc6902.{
  apply_at, apply_element, edit_member, member_name, get_member, set_member, unset_member,
}
use rt_5gc_service_consumers.JsonPatch.Prefix.{apply_local}
use rt_5gc_service_consumers.Areas.{nid_member}
use rt_5gc_service_consumers.Areas.Tai.{nid_text, nid_changed}

abbrev pub object : Members → Option Json
object ms = some (Json.object ms)

-- An object of a PLMN id, a member with the given name and a network id.
abbrev pub parts : Str → Json → Json → Option Str → Members
parts name plmn value nid = field (bytes "plmnId") plmn (field name value (nid_member nid))

pub apply-plmn :
    (name : Str) (p q v : Json) (nid : Option Str) (ps : List PatchItem)
    → apply_local
        (json_patch_new Operation.replace (bytes "/plmnId") (some q) ∷ ps)
        (object (parts name p v nid))
      ≡ apply_local ps (object (parts name q v nid))
unfolding apply_local json_patch_new apply_at apply_element edit_member member_name get_member
    set_member str_eq
apply-plmn name p q v nid ps = refl

pub apply-tac :
    (p v w : Json) (nid : Option Str) (ps : List PatchItem)
    → apply_local
        (json_patch_new Operation.replace (bytes "/tac") (some w) ∷ ps)
        (object (parts (bytes "tac") p v nid))
      ≡ apply_local ps (object (parts (bytes "tac") p w nid))
unfolding apply_local json_patch_new apply_at apply_element edit_member member_name get_member
    set_member str_eq
apply-tac p v w nid ps = refl

pub apply-cell :
    (p v w : Json) (nid : Option Str) (ps : List PatchItem)
    → apply_local
        (json_patch_new Operation.replace (bytes "/nrCellId") (some w) ∷ ps)
        (object (parts (bytes "nrCellId") p v nid))
      ≡ apply_local ps (object (parts (bytes "nrCellId") p w nid))
unfolding apply_local json_patch_new apply_at apply_element edit_member member_name get_member
    set_member str_eq
apply-cell p v w nid ps = refl

-- The patches for the network id make it the second, behind another member than it.
pub nid_changed-apply :
    (name : Str) (p v : Json) (a b : Option ℕ)
    → str_eq (bytes "nid") name ≡ false
    → apply_local (nid_changed a b) (object (parts name p v (nid_text a)))
      ≡ some (object (parts name p v (nid_text b)))
unfolding apply_local json_patch_new apply_at apply_element edit_member member_name get_member
    set_member unset_member str_eq nid_changed nid_text
nid_changed-apply name p v none none h = refl
nid_changed-apply name p v none (some b) h = rw h
nid_changed-apply name p v (some a) none h = rw h
nid_changed-apply name p v (some a) (some b) h = elim (Bool-cases (a == b)) [
  | inl e ↦ let same : a ≡ b = ground arith in rw (same, ==_self b)
  | inr e ↦ rw (e, h)
]
