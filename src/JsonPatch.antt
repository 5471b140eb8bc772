-- ===== src/JsonPatch.antt =====
-- lib/mb-smf-service-consumer/json-patch.c: patch items and the copying of patches below a prefix.
-- A NULL list of patches is `none`. Reading the value of an item that has none is a fault.
pub mod Rfc6902
pub mod Prefix
pub mod Elements
pub mod Below
pub mod Joined
mod Examples
use rt_5gc_service_consumers.Common.{
  ℕ, decimal, Bool, true, false, List, [], ◌∷◌, ◌++◌, Option, none, some, Str, str_eq, bytes, Run,
  ok, fault, ◌>>=◌, if◌then◌else◌,
}

-- The JSON values that the library builds with cJSON.
mutual
  pub data Json : Type 0 where
    null : Json
    bool : Bool → Json
    string : Str → Json
    array : Items → Json
    object : Members → Json

  pub data Items : Type 0 where
    nil : Items
    cons : Json → Items → Items

  pub data Members : Type 0 where
    end : Members
    field : Str → Json → Members → Members

unfoldable pub to_items : List Json → Items
to_items [] = nil
to_items (x ∷ xs) = cons x (to_items xs)

unfoldable pub from_items : Items → List Json
from_items nil = []
from_items (cons x xs) = x ∷ from_items xs

pub data Operation : Type 0 where
  add remove replace : Operation

pub record PatchItem : Type 0 where
  pub op : Operation
  pub path : Option Str
  pub from : Option Str
  pub is_value_null : Bool
  pub value : Option Json

abbrev is_null : Option Json → Bool
is_null (some null) = true
is_null _ = false

unfoldable pub json_patch_new : Operation → Str → Option Json → PatchItem
json_patch_new op path value = record {
  op = op;
  path = some path;
  from = none;
  is_value_null = is_null value;
  value = value;
}

-- `ogs_msprintf("/%i", idx)`. The index is an `int`; lists are shorter than 2 ^ 31.
abbrev pub index_path : ℕ → Str
index_path idx = b'/' ∷ decimal idx

-- The list of patches is allocated with the first patch.
abbrev pub if_any : List PatchItem → Option (List PatchItem)
if_any [] = none
if_any (p ∷ ps) = some (p ∷ ps)

-- `path[0] == '/' && path[1] == '\0'`
abbrev pub is_root : Str → Bool
is_root s = str_eq s (bytes "/")

unfoldable pub prefixed_path : Option Str → Option Str → Option Str
prefixed_path (some path) (some prefix) =
    if is_root path then some prefix else some (prefix ++ path)
prefixed_path (some path) none = some path
prefixed_path none (some prefix) = some prefix
prefixed_path none none = none

-- `src->item->value->json` is read whether or not the item has a value.
copy_value : Option Json → Run Json
copy_value none = fault
copy_value (some v) = ok v

unfoldable pub json_patch_new_copy_with_prefix : PatchItem → Option Str → Run PatchItem
unfolding copy_value prefixed_path
json_patch_new_copy_with_prefix src at_prefix = do
  v ← copy_value src.value
  ok (record {
    op = src.op;
    path = prefixed_path src.path at_prefix;
    from = src.from;
    is_value_null = src.is_value_null;
    value = some v;
  })

abbrev pub made : Option (List PatchItem) → List PatchItem
made none = []
made (some dst) = dst

copy_all : List PatchItem → List PatchItem → Option Str → Run (List PatchItem)
copy_all dst [] at_prefix = ok dst
copy_all dst (p ∷ src) at_prefix = do
  q ← json_patch_new_copy_with_prefix p at_prefix
  copy_all (dst ++ q ∷ []) src at_prefix

unfoldable pub json_patches_append_list :
    Option (List PatchItem) → Option (List PatchItem) → Option Str → Run (Option (List PatchItem))
unfolding copy_all json_patch_new_copy_with_prefix
json_patches_append_list dst none at_prefix = ok dst
json_patches_append_list dst (some src) at_prefix = do
  patches ← copy_all (made dst) src at_prefix
  ok (some patches)
