-- ===== src/MbsSession/Callbacks/Examples.antt =====
-- The callback slots at one datum shared by two slots.
use rt_5gc_service_consumers.Common.{ℕ, none, some, has, Distinct, ◌≡◌, false}
use rt_5gc_service_consumers.MbsSession.Callbacks.{
  Slots, set_callback_freefn, release_callback_data,
}
use rt_5gc_service_consumers.MbsSession.Callbacks.Freed.{
  Frees, AllFree, held, freed_data, set_callback_freefn-Frees, release_callback_data_lem,
}

abbrev two_shared : Slots
two_shared = record {
  create_result_cb = some 1;
  update_result_cb = some 1;
  delete_result_cb = some 2;
  create_result_cb_data = some 5;
  update_result_cb_data = some 5;
  delete_result_cb_data = some 6;
  create_cb_data_free = some 9;
  update_cb_data_free = some 9;
  delete_cb_data_free = some 9;
}

set_callback_freefn-Frees_example :
    let (t, f) = set_callback_freefn two_shared (some 3) (some 6) none in
    Frees (some 6) two_shared t f
set_callback_freefn-Frees_example = set_callback_freefn-Frees two_shared (some 3) (some 6) none

two_shared-AllFree : AllFree two_shared
two_shared-AllFree = ((λ h. cc), (λ h. cc), (λ h. cc))

release_callback_data_lem_example :
    let (t, f) = release_callback_data two_shared in
    ((d : ℕ) → has d (freed_data f) ≡ held two_shared d)
    × Distinct (freed_data f)
    × ((d : ℕ) → held t d ≡ false)
release_callback_data_lem_example = release_callback_data_lem two_shared two_shared-AllFree
