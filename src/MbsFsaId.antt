-- ===== src/MbsFsaId.antt =====
-- lib/mb-smf-service-consumer/mbs-fsa-id.c: the MBS Frequency Selection Area ids of a session.
-- A pointer is an address or NULL (`none`). A `Store` says what the addresses hold, so two equal
-- pointers are the same object. A list is the sequence of the addresses of its nodes.
pub mod Equal
pub mod PatchList
pub mod ToOpenapi
pub mod Copy
pub mod Copied
mod Examples
use rt_5gc_service_consumers.Common.{
  ℕ, zero, suc, ◌+◌, Bool, true, false, List, [], ◌∷◌, ◌++◌, map, Option, none, some, Str, bytes,
  decimal, uint32_to_hex_str, ◌==◌, if◌then◌else◌, length, Run, ok, fault,
}
use rt_5gc_service_consumers.JsonPatch.{
  Json, PatchItem, Operation, json_patch_new, index_path, if_any, to_items,
}

abbrev pub Ptr : Type 0
Ptr = ℕ

pub record Store : Type 0 where
  pub fsa_id : Ptr → ℕ  -- `uint32_t id` of the object
  pub list : Ptr → List Ptr

-- `a == b` on pointers
abbrev pub same : Option Ptr → Option Ptr → Bool
same none none = true
same (some a) (some b) = a == b
same _ _ = false

abbrev pub fsa_id_equal_set : Store → Option Ptr → Option Ptr → Bool
fsa_id_equal_set s (some a) (some b) = s.fsa_id a == s.fsa_id b
fsa_id_equal_set s _ _ = false

unfoldable pub mbs_fsa_id_equal : Store → Option Ptr → Option Ptr → Bool
mbs_fsa_id_equal s a b = if same a b then true else fsa_id_equal_set s a b

-- `while (one && two)`
all_equal : Store → List Ptr → List Ptr → Bool
unfolding mbs_fsa_id_equal
all_equal s (one ∷ a) (two ∷ b) =
    let rest = all_equal s a b in if mbs_fsa_id_equal s (some one) (some two) then rest else false
all_equal s _ _ = true

lists_equal : Store → Option Ptr → Option Ptr → Bool
unfolding all_equal
lists_equal s (some a) (some b) =
    if length (s.list a) == length (s.list b) then all_equal s (s.list a) (s.list b) else false
lists_equal s _ _ = false

unfoldable pub mbs_fsa_ids_equal : Store → Option Ptr → Option Ptr → Bool
unfolding lists_equal
mbs_fsa_ids_equal s a b = if same a b then true else lists_equal s a b

unfoldable pub mbs_fsa_id_to_openapi : Store → Option Ptr → Option Str
mbs_fsa_id_to_openapi s none = none
mbs_fsa_id_to_openapi s (some a) = some (uint32_to_hex_str (s.fsa_id a) 6 6)

-- `cJSON_CreateString` of what `_mbs_fsa_id_to_openapi` gives for an object.
unfoldable pub mbs_fsa_id_to_json : Store → Ptr → Json
mbs_fsa_id_to_json s a = Json.string (uint32_to_hex_str (s.fsa_id a) 6 6)

unfoldable pub mbs_fsa_ids_to_openapi : Store → Option Ptr → Option (List (Option Str))
unfolding mbs_fsa_id_to_openapi
mbs_fsa_ids_to_openapi s none = none
mbs_fsa_ids_to_openapi s (some l) = some (map (λ a. mbs_fsa_id_to_openapi s (some a)) (s.list l))

unfoldable pub mbs_fsa_ids_to_json : Store → Option Ptr → Option Json
mbs_fsa_ids_to_json s none = none
mbs_fsa_ids_to_json s (some l) =
    some (Json.array (to_items (map (mbs_fsa_id_to_json s) (s.list l))))

-- The patch of one round, where neither list is at its end.
changed : Store → ℕ → Ptr → Ptr → List PatchItem
unfolding mbs_fsa_id_equal
changed s idx a b =
    if mbs_fsa_id_equal s (some a) (some b)
    then []
    else json_patch_new Operation.replace (index_path idx) (some (mbs_fsa_id_to_json s b)) ∷ []

-- `while (a_fsa_id || b_fsa_id)`. A removal leaves the index where it is.
patch_loop : Store → ℕ → List Ptr → List Ptr → List PatchItem
unfolding changed
patch_loop s idx [] [] = []
patch_loop s idx [] (b ∷ bs) =
    json_patch_new Operation.add (index_path idx) (some (mbs_fsa_id_to_json s b))
    ∷ patch_loop s (idx + 1) [] bs
patch_loop s idx (a ∷ more) [] =
    json_patch_new Operation.remove (index_path idx) none ∷ patch_loop s idx more []
patch_loop s idx (a ∷ more) (b ∷ bs) = changed s idx a b ++ patch_loop s (idx + 1) more bs

-- An empty list is taken for NULL.
unfoldable pub not_empty : Store → Option Ptr → Option Ptr
not_empty s none = none
not_empty s (some l) = if length (s.list l) == 0 then none else some l

patch_list : Store → Option Ptr → Option Ptr → Option (List PatchItem)
unfolding patch_loop mbs_fsa_ids_to_json
patch_list s none none = none
patch_list s none (some b) =
    some (json_patch_new Operation.add (bytes "/") (mbs_fsa_ids_to_json s (some b)) ∷ [])
patch_list s (some a) none = some (json_patch_new Operation.remove (bytes "/") none ∷ [])
patch_list s (some a) (some b) =
    if a == b then none else if_any (patch_loop s 0 (s.list a) (s.list b))

unfoldable pub mbs_fsa_ids_patch_list : Store → Option Ptr → Option Ptr → Option (List PatchItem)
unfolding patch_list not_empty
mbs_fsa_ids_patch_list s a b = patch_list s (not_empty s a) (not_empty s b)

id_patch_list : Store → Option Ptr → Option Ptr → Option (List PatchItem)
id_patch_list s none none = none
id_patch_list s none (some b) =
    some (json_patch_new Operation.add (bytes "/") (some (mbs_fsa_id_to_json s b)) ∷ [])
id_patch_list s (some a) none = some (json_patch_new Operation.remove (bytes "/") none ∷ [])
id_patch_list s (some a) (some b) =
    if s.fsa_id a == s.fsa_id b
    then none
    else some (json_patch_new Operation.replace (bytes "/") (some (mbs_fsa_id_to_json s b)) ∷ [])

unfoldable pub mbs_fsa_id_patch_list : Store → Option Ptr → Option Ptr → Option (List PatchItem)
unfolding id_patch_list
mbs_fsa_id_patch_list s a b = if same a b then none else id_patch_list s a b
