-- ===== src/ListPatch.antt =====
-- The patches between two lists that the files of the service areas of
-- lib/mb-smf-service-consumer share (tai.c, ncgi.c, ncgi-tai.c): equal elements at the front are
-- skipped; without any the whole array is replaced, else element by element. A list that is NULL is
-- `none`; the early return for the same list is the case of equal elements.
pub mod Apply
pub mod Removal
pub mod Unchanged
use rt_5gc_service_consumers.Common.{
  ℕ, ◌+◌, Bool, List, [], ◌∷◌, ◌++◌, map, Option, none, some, Str, bytes, ◌==◌, if◌then◌else◌,
  length,
}
use rt_5gc_service_consumers.JsonPatch.{
  Json, PatchItem, Operation, json_patch_new, index_path, if_any, to_items,
}

module _ {A : Type 0} where
  -- An empty list is taken for NULL.
  unfoldable pub list_not_empty : Option (List A) → Option (List A)
  list_not_empty none = none
  list_not_empty (some l) = if length l == 0 then none else some l

module _ {A : Type 0} (to_json : A → Json) where
  unfoldable pub list_to_json : List A → Json
  list_to_json l = Json.array (to_items (map to_json l))

module _ {A : Type 0} (equal : A → A → Bool) where
  -- `while (a && b && equal(a, b))`, with the index at which it ends and what is left of the lists.
  unfoldable pub skip_equal : ℕ → List A → List A → ℕ × List A × List A
  skip_equal idx [] b = (idx, [], b)
  skip_equal idx (x ∷ a) [] = (idx, x ∷ a, [])
  skip_equal idx (x ∷ a) (y ∷ b) =
      let rest = skip_equal (idx + 1) a b in if equal x y then rest else (idx, x ∷ a, y ∷ b)

-- `add_path` is the path of an element that is added at an index.
module _ {A : Type 0} (equal : A → A → Bool) (to_json : A → Json) (add_path : ℕ → Str) where
  -- The patch of one round, where neither list is at its end.
  unfoldable pub changed_entry : ℕ → A → A → List PatchItem
  changed_entry idx x y =
      if equal x y
      then []
      else json_patch_new Operation.replace (index_path idx) (some (to_json y)) ∷ []

  -- `while (a || b)`. A removal leaves the index where it is.
  unfoldable pub entry_loop : ℕ → List A → List A → List PatchItem
  unfolding changed_entry
  entry_loop idx [] [] = []
  entry_loop idx [] (y ∷ b) =
      json_patch_new Operation.add (add_path idx) (some (to_json y)) ∷ entry_loop (idx + 1) [] b
  entry_loop idx (x ∷ a) [] =
      json_patch_new Operation.remove (index_path idx) none ∷ entry_loop idx a []
  entry_loop idx (x ∷ a) (y ∷ b) = changed_entry idx x y ++ entry_loop (idx + 1) a b

  -- Behind the equal front; `a` and `b` are the whole lists.
  unfoldable pub entries_patch_list :
      List A → List A → ℕ × List A × List A → Option (List PatchItem)
  unfolding entry_loop list_to_json
  entries_patch_list a b (idx, a_rest, b_rest) =
      if idx == 0
      then some (
          json_patch_new (if length a == 0 then Operation.add else Operation.replace) (bytes "/")
            (some (list_to_json to_json b))
          ∷ [])
      else if_any (entry_loop idx a_rest b_rest)

  unfoldable pub both_patch_list : Option (List A) → Option (List A) → Option (List PatchItem)
  unfolding entries_patch_list skip_equal list_to_json
  both_patch_list none none = none
  both_patch_list none (some b) =
      some (json_patch_new Operation.add (bytes "/") (some (list_to_json to_json b)) ∷ [])
  both_patch_list (some a) none = some (json_patch_new Operation.remove (bytes "/") none ∷ [])
  both_patch_list (some a) (some b) = entries_patch_list a b (skip_equal equal 0 a b)

  unfoldable pub list_patch_list : Option (List A) → Option (List A) → Option (List PatchItem)
  unfolding both_patch_list list_not_empty
  list_patch_list a b = both_patch_list (list_not_empty a) (list_not_empty b)
