-- ===== src/JsonPatch/Rfc6902.antt =====
-- What a JSON Patch (RFC 6902) means: an independent description of the operations that the
-- library sends, on one member of an object. `none` as a result says that the patch is refused.
use rt_5gc_service_consumers.Common.{
  ℕ, zero, suc, List, [], ◌∷◌, ◌++◌, Option, none, some, Str, ◌==◌, if◌then◌else◌, read_decimal,
  length, ◌≡◌, refl, arith, str_eq, has, is_some, bytes,
}
use rt_5gc_service_consumers.JsonPatch.{
  Json, array, object, Members, end, field, to_items, from_items, Operation, PatchItem,
}

module _ {ℓ} {A : Type ℓ} where
  abbrev push : A → Option (List A) → Option (List A)
  push x none = none
  push x (some xs) = some (x ∷ xs)

  -- Insert before the element at the index; the index may be the length of the array.
  unfoldable pub insert_at : ℕ → A → List A → Option (List A)
  insert_at zero v xs = some (v ∷ xs)
  insert_at (suc i) v [] = none
  insert_at (suc i) v (x ∷ xs) = push x (insert_at i v xs)

  unfoldable pub remove_at : ℕ → List A → Option (List A)
  remove_at i [] = none
  remove_at zero (x ∷ xs) = some xs
  remove_at (suc i) (x ∷ xs) = push x (remove_at i xs)

  unfoldable pub replace_at : ℕ → A → List A → Option (List A)
  replace_at i v [] = none
  replace_at zero v (x ∷ xs) = some (v ∷ xs)
  replace_at (suc i) v (x ∷ xs) = push x (replace_at i v xs)

  pub insert_at-length :
      (xs ys : List A) (v : A) → insert_at (length xs) v (xs ++ ys) ≡ some (xs ++ v ∷ ys)
  unfolding insert_at
  insert_at-length [] ys v = refl
  insert_at-length (x ∷ xs) ys v = ground (arith, insert_at-length xs ys v)

  pub remove_at-length :
      (xs ys : List A) (v : A) → remove_at (length xs) (xs ++ v ∷ ys) ≡ some (xs ++ ys)
  unfolding remove_at
  remove_at-length [] ys v = refl
  remove_at-length (x ∷ xs) ys v = ground (arith, remove_at-length xs ys v)

  pub replace_at-length :
      (xs ys : List A) (u v : A) → replace_at (length xs) v (xs ++ u ∷ ys) ≡ some (xs ++ v ∷ ys)
  unfolding replace_at
  replace_at-length [] ys u v = refl
  replace_at-length (x ∷ xs) ys u v = ground (arith, replace_at-length xs ys u v)

-- The array element that a path below the member names: `/` and a decimal index, or `-` for the
-- place behind the last of `n` elements.
unfoldable pub element_index : ℕ → Str → Option ℕ
element_index n [] = none
element_index n (c ∷ s) =
    if c == b'/' then (if str_eq s (bytes "-") then some n else read_decimal s) else none

-- The member of an object that a path names: `/` and a name.
unfoldable pub member_name : Str → Option Str
member_name [] = none
member_name (c ∷ s) = if c == b'/' then (if has b'/' s then none else some s) else none

unfoldable pub get_member : Str → Members → Option Json
get_member k end = none
get_member k (field j v ms) = if str_eq k j then some v else get_member k ms

unfoldable pub set_member : Str → Json → Members → Members
set_member k v end = field k v end
set_member k v (field j w ms) = if str_eq k j then field k v ms else field j w (set_member k v ms)

unfoldable pub unset_member : Str → Members → Members
unset_member k end = end
unset_member k (field j w ms) = if str_eq k j then ms else field j w (unset_member k ms)

abbrev pub as_array : Option (List Json) → Option (Option Json)
as_array none = none
as_array (some xs) = some (some (array (to_items xs)))

unfoldable pub edit : Operation → Option Json → ℕ → List Json → Option (List Json)
edit Operation.add (some v) i xs = insert_at i v xs
edit Operation.remove v i xs = remove_at i xs
edit Operation.replace (some v) i xs = replace_at i v xs
edit _ _ i xs = none

-- An operation on a member of an object: to add a member that is there replaces it, and one that is
-- not there cannot be removed or replaced.
unfoldable pub edit_member : Operation → Option Json → Option Str → Members → Option (Option Json)
edit_member Operation.add (some v) (some k) ms = some (some (object (set_member k v ms)))
edit_member Operation.remove v (some k) ms =
    if is_some (get_member k ms) then some (some (object (unset_member k ms))) else none
edit_member Operation.replace (some v) (some k) ms =
    if is_some (get_member k ms) then some (some (object (set_member k v ms))) else none
edit_member _ _ _ ms = none

unfoldable pub edit_index : Operation → Option Json → Option ℕ → List Json → Option (Option Json)
unfolding edit
edit_index op v none xs = none
edit_index op v (some i) xs = as_array (edit op v i xs)

-- An operation on an element or a member of the member.
unfoldable pub apply_element : Operation → Option Json → Str → Option Json → Option (Option Json)
unfolding edit_index edit_member
apply_element op v path (some (array xs)) =
    edit_index op v (element_index (length (from_items xs)) path) (from_items xs)
apply_element op v path (some (object ms)) = edit_member op v (member_name path) ms
apply_element op v path _ = none

-- An operation on the member as a whole; `none` is a member that is absent.
unfoldable pub apply_whole : Operation → Option Json → Option Json → Option (Option Json)
apply_whole Operation.add (some v) m = some (some v)
apply_whole Operation.remove v (some old) = some none
apply_whole Operation.replace (some v) (some old) = some (some v)
apply_whole _ _ _ = none

-- The path is relative to the member: empty for the member itself.
unfoldable pub apply_at : Operation → Option Json → Str → Option Json → Option (Option Json)
apply_at op v [] m = apply_whole op v m
apply_at op v (c ∷ s) m = apply_element op v (c ∷ s) m

-- What is left of a path behind a prefix.
unfoldable pub strip : Str → Str → Option Str
strip [] s = some s
strip (c ∷ p) [] = none
strip (c ∷ p) (d ∷ s) = let rest = strip p s in if c == d then rest else none

abbrev apply_stripped : Operation → Option Json → Option Str → Option Json → Option (Option Json)
apply_stripped op v none m = none
apply_stripped op v (some s) m = apply_at op v s m

-- One item of a patch, on the member that the pointer `member` names.
unfoldable pub apply_item : Str → PatchItem → Option Json → Option (Option Json)
apply_item member item m = elim item.path [
  | none ↦ none
  | some path ↦ apply_stripped item.op item.value (strip member path) m
]

abbrev pub then_apply :
    (Option Json → Option (Option Json)) → Option (Option Json) → Option (Option Json)
then_apply f none = none
then_apply f (some m) = f m

-- A patch document is applied item by item.
unfoldable pub apply : Str → List PatchItem → Option Json → Option (Option Json)
apply member [] m = some m
apply member (p ∷ ps) m = then_apply (apply member ps) (apply_item member p m)

pub from_items-to_items : (xs : List Json) → from_items (to_items xs) ≡ xs
unfolding from_items to_items
from_items-to_items [] = refl
from_items-to_items (x ∷ xs) = ground (arith, from_items-to_items xs)

pub strip-append : (p s : Str) → strip p (p ++ s) ≡ some s
unfolding strip
strip-append [] s = refl
strip-append (c ∷ p) s = ground (arith, strip-append p s)
