-- ===== src/Areas/Equal.antt =====
-- The comparisons of TAIs and cells.
use rt_5gc_service_consumers.Common.{ℕ, true, Option, none, some, ◌≡◌, ◌↔◌, refl, arith}
use rt_5gc_service_consumers.Tmgi.Plmn.{PlmnOps, ComparesBytes}
use rt_5gc_service_consumers.Areas.Tai.{Tai, nid_equal, tai_equal}
use rt_5gc_service_consumers.Areas.Ncgi.{Ncgi, ncgi_equal}
use rt_5gc_service_consumers.Areas.NcgiTai.{NcgiTai, ncgi_tai_equal}

pub nid_equal_iff : (a b : Option ℕ) → (nid_equal a b ≡ true) ↔ (a ≡ b)
unfolding nid_equal
nid_equal_iff none none = (λ h. refl, λ e. refl)
nid_equal_iff none (some b) = (λ h. cc, λ e. cc)
nid_equal_iff (some a) none = (λ h. cc, λ e. cc)
nid_equal_iff (some a) (some b) = (λ h. ground arith, λ e. ground arith)

module _ {Plmn : Type 0} (o : PlmnOps Plmn) where
  pub tai_equal_self : (a : Tai Plmn) → tai_equal o a a ≡ true
  unfolding tai_equal
  tai_equal_self a = ground (arith, (nid_equal_iff a.nid a.nid).1 refl)

  pub ncgi_tai_equal_self : (a : NcgiTai Plmn) → ncgi_tai_equal o a a ≡ true
  unfolding ncgi_tai_equal
  ncgi_tai_equal_self a = tai_equal_self a.tai

  pub ncgi_equal_iff : ComparesBytes o → (a b : Ncgi Plmn) → (ncgi_equal o a b ≡ true) ↔ (a ≡ b)
  unfolding ncgi_equal
  ncgi_equal_iff bytewise a b = (
    λ h.
        let same : (a.nr_cell_id ≡ b.nr_cell_id) × (a.plmn_id ≡ b.plmn_id) × (a.nid ≡ b.nid) =
          ground (arith, bytewise a.plmn_id b.plmn_id, nid_equal_iff a.nid b.nid) in
        λ i. record { plmn_id = same.1 i; nr_cell_id = same.0 i; nid = same.2 i },
    λ e.
        rw e (
          ground
            (arith, (bytewise b.plmn_id b.plmn_id).1 refl, (nid_equal_iff b.nid b.nid).1 refl)),
  )
