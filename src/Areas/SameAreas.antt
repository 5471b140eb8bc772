-- ===== src/Areas/SameAreas.antt =====
-- Two service areas are equal when their lists are, in any order.
use rt_5gc_service_consumers.Common.{
  ℕ, ◌+◌, Bool, true, ◌&&◌, List, [], ◌∷◌, ◌++◌, Option, none, some, ◌==◌, length, length-append,
  ◌≡◌, ◌↔◌, refl, sym, ◌∙◌, arith,
}
use rt_5gc_service_consumers.Tmgi.Plmn.{PlmnOps}
use rt_5gc_service_consumers.Areas.Tai.{
  nid_equal, tai_copy, tai_equal, tai_destination, tai_create, copy_nid,
}
use rt_5gc_service_consumers.Areas.NcgiTai.{
  ncgi_tai_copy, ncgi_tai_equal, ncgi_tai_destination, ncgi_tai_new, with_tai,
}
use rt_5gc_service_consumers.Areas.Equal.{nid_equal_iff, tai_equal_self}
use rt_5gc_service_consumers.Areas.ServiceArea.{
  ServiceArea, added, add_copies, all_found, copy_into, mbs_service_area_new,
  mbs_service_area_equal,
}
use rt_5gc_service_consumers.Areas.Multiset.{SameCounts, IsEquivalence, count, all_found_iff}

module _ {A : Type 0} where
  -- A copy of an element is one like it, as far as a test can tell.
  Alike : (A → A → Bool) → (Option A → Option A → Option A) → Type 0
  Alike equal copy =
      (x : A) → (y : A) × (copy none (some x) ≡ some y) × ((z : A) → equal z y ≡ equal z x)

  count-append :
      (equal : A → A → Bool) (z : A) (a b : List A)
      → count equal z (a ++ b) ≡ count equal z a + count equal z b
  count-append equal z [] b = omega arith
  count-append equal z (x ∷ a) b = omega (arith, count-append equal z a b)

  add_copies-count :
      (equal : A → A → Bool) (copy : Option A → Option A → Option A)
      → Alike equal copy
      → (dst src : List A)
      → ((z : A) → count equal z (add_copies copy dst src) ≡ count equal z dst + count equal z src)
        × (length (add_copies copy dst src) ≡ length dst + length src)
  unfolding Alike add_copies added
  add_copies-count equal copy alike dst [] = (λ z. omega arith, omega arith)
  add_copies-count equal copy alike dst (x ∷ src) =
      let (y, e, like) = alike x in
      let (counts, long) = add_copies-count equal copy alike (dst ++ y ∷ []) src in
      rw e (
        λ z. ground (arith, counts z, count-append equal z dst (y ∷ []), like z),
        omega (arith, long, length-append dst (y ∷ [])),
      )

module _ {Plmn : Type 0} (o : PlmnOps Plmn) where
  tai_equal-IsEquivalence : IsEquivalence (tai_equal o)
  unfolding tai_equal
  tai_equal-IsEquivalence = record {
    self = tai_equal_self o;
    same = λ x y z h.
        let parts : (x.tac ≡ y.tac)
            × (x.nid ≡ y.nid)
            × (o.mcc x.plmn_id ≡ o.mcc y.plmn_id)
            × (o.mnc x.plmn_id ≡ o.mnc y.plmn_id) =
          ground (arith, nid_equal_iff x.nid y.nid) in
        rw (parts.0, parts.1, parts.2, parts.3);
  }

  tai_copy-Alike : Alike (tai_equal o) (tai_copy o)
  unfolding Alike tai_copy tai_destination tai_create copy_nid
  tai_copy-Alike x = (x, copied x.nid refl, λ z. refl)
    where
      copied : (n : Option ℕ) → x.nid ≡ n → tai_copy o none (some x) ≡ some x
      copied none e = rw e
      copied (some n) e = rw e

  ncgi_tai_equal-IsEquivalence : IsEquivalence (ncgi_tai_equal o)
  unfolding ncgi_tai_equal
  ncgi_tai_equal-IsEquivalence = record {
    self = λ x. tai_equal-IsEquivalence.self x.tai;
    same = λ x y z. tai_equal-IsEquivalence.same x.tai y.tai z.tai;
  }

  -- The copy of a TAI with cells has no cells.
  ncgi_tai_copy-Alike : Alike (ncgi_tai_equal o) (ncgi_tai_copy o)
  unfolding Alike ncgi_tai_copy ncgi_tai_destination ncgi_tai_new with_tai ncgi_tai_equal tai_copy
      tai_destination copy_nid tai_equal nid_equal
  ncgi_tai_copy-Alike x = (record { tai = x.tai; ncgis = [] }, copied x.tai.nid refl, λ z. refl)
    where
      copied :
          (n : Option ℕ)
          → x.tai.nid ≡ n
          → ncgi_tai_copy o none (some x) ≡ some (record { tai = x.tai; ncgis = [] })
      copied none e = rw e
      copied (some n) e = rw e

  found_in_copy :
      {A : Type 0} (equal : A → A → Bool) (copy : Option A → Option A → Option A)
      → IsEquivalence equal
      → Alike equal copy
      → (a b : List A)
      → (((length a == length b) && all_found equal a (add_copies copy [] b)) ≡ true)
        ↔ SameCounts equal a b
  found_in_copy {A = A} equal copy eqv alike a b =
      let (counts, long) = add_copies-count equal copy alike [] b in
      let as_long : length (add_copies copy [] b) ≡ length b = omega (arith, long) in
      let as_many : (z : A) → count equal z (add_copies copy [] b) ≡ count equal z b =
        λ z. omega (arith, counts z) in
      let iff = all_found_iff equal eqv a (add_copies copy [] b) in
      (
        λ h z. iff.0 (rw as_long h) z ∙ as_many z,
        λ h. rw as_long at (iff.1 (λ z. h z ∙ sym (as_many z))),
      )

  -- Two service areas compare equal exactly when for each TAI with cells, and for each TAI, the two
  -- have as many that equal it, in any order.
  pub mbs_service_area_equal_iff :
      (a b : ServiceArea Plmn)
      → (mbs_service_area_equal o a b ≡ true) ↔ (
          SameCounts (ncgi_tai_equal o) a.ncgi_tais b.ncgi_tais
          × SameCounts (tai_equal o) a.tais b.tais)
  unfolding mbs_service_area_equal copy_into mbs_service_area_new
  mbs_service_area_equal_iff a b =
      let cells =
        found_in_copy (ncgi_tai_equal o) (ncgi_tai_copy o) ncgi_tai_equal-IsEquivalence
          ncgi_tai_copy-Alike a.ncgi_tais b.ncgi_tais in
      let tais =
        found_in_copy (tai_equal o) (tai_copy o) tai_equal-IsEquivalence tai_copy-Alike a.tais
          b.tais in
      (
        λ h. (cells.0 (ground arith), tais.0 (ground arith)),
        λ h. let p = cells.1 h.0 in let q = tais.1 h.1 in ground (arith, p, q),
      )
