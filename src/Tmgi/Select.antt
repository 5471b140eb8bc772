-- ===== src/Tmgi/Select.antt =====
-- The one pass that selects the TMGIs to allocate and to refresh.
use mathlib.Core.List.{append-nil, append_assoc}
use rt_5gc_service_consumers.Common.{ℕ, List, [], ◌∷◌, ◌++◌, ◌≡◌, arith, some}
use rt_5gc_service_consumers.SbiObject.{Objects}
use rt_5gc_service_consumers.Tmgi.Request.{
  new_list, refresh_list, both_lists, tmgi_list_send_allocate, tmgi_send_allocate_and_refresh_all,
}
use rt_5gc_service_consumers.Tmgi.{Tmgi}

module _ {Plmn : Type 0} where
  both_lists-append :
      (now : ℕ) (ts new refresh : List (Tmgi Plmn))
      → both_lists now ts new refresh ≡ (new ++ new_list ts, refresh ++ refresh_list now ts)
  unfolding both_lists new_list refresh_list
  both_lists-append now [] new refresh = rw (append-nil, append-nil)
  both_lists-append now (t ∷ ts) new refresh = ground (
    arith,
    both_lists-append now ts new refresh,
    both_lists-append now ts (new ++ t ∷ []) refresh,
    both_lists-append now ts new (refresh ++ t ∷ []),
    append_assoc new (t ∷ []) (new_list ts),
    append_assoc refresh (t ∷ []) (refresh_list now ts),
  )

  -- The request to allocate and refresh all TMGIs is the request that names exactly the TMGIs that
  -- the request to allocate all names, and to refresh exactly those that the request to refresh all
  -- names, each in the context's order.
  pub tmgi_send_allocate_and_refresh_all-eq :
      (now : ℕ) (ts : List (Tmgi Plmn)) (s : Objects)
      → tmgi_send_allocate_and_refresh_all now ts s
        ≡ tmgi_list_send_allocate (some (new_list ts)) (some (refresh_list now ts)) s
  unfolding tmgi_send_allocate_and_refresh_all
  tmgi_send_allocate_and_refresh_all-eq now ts s = rw (both_lists-append now ts [] [])
