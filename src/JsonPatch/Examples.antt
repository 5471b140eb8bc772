-- ===== src/JsonPatch/Examples.antt =====
-- Tests of the patch items, and the theorems at concrete patches.
use rt_5gc_service_consumers.Common.{List, [], ◌∷◌, none, some, bytes, ok, ◌≡◌, refl, false, str_eq}
use rt_5gc_service_consumers.JsonPatch.{Json, Operation, PatchItem, json_patches_append_list, made}
use rt_5gc_service_consumers.JsonPatch.Rfc6902.{apply, then_apply}
use rt_5gc_service_consumers.JsonPatch.Prefix.{apply_local, json_patches_append_list-apply}

abbrev whole : List PatchItem
whole =
    record {
      op = Operation.add;
      path = some (bytes "/");
      from = none;
      is_value_null = false;
      value = some (Json.string []);
    }
    ∷ []

abbrev removal : List PatchItem
removal =
    record {
      op = Operation.remove;
      path = some (bytes "/");
      from = none;
      is_value_null = false;
      value = none;
    }
    ∷ []

abbrev prefixed : List PatchItem
prefixed =
    record {
      op = Operation.add;
      path = some (bytes "/ids");
      from = none;
      is_value_null = false;
      value = some (Json.string []);
    }
    ∷ []

appended : json_patches_append_list none (some whole) (some (bytes "/ids")) ≡ ok (some prefixed)
unfolding json_patches_append_list str_eq
appended = refl

json_patches_append_list-apply_example :
    apply (bytes "/ids") prefixed none
    ≡ then_apply (apply_local whole) (apply (bytes "/ids") (made none) none)
json_patches_append_list-apply_example =
    json_patches_append_list-apply none whole prefixed (bytes "/ids") none appended
