-- ===== src/MbsSession/Public/Copied.antt =====
-- A copy of an MBS Session compares equal to its source but for the termination time.
use rt_5gc_service_consumers.Common.{
  ℕ, Bool, true, false, ◌&&◌, Option, none, some, str_eq, str_eq_self, opt_str_eq_iff, ◌==◌,
  ==_self, is_some, if◌then◌else◌, ◌≡◌, ◌↔◌, refl, arith,
}
use rt_5gc_service_consumers.Tmgi.{Tmgi, tmgi_equal, tmgi_clear_repr}
use rt_5gc_service_consumers.Tmgi.Plmn.{PlmnOps, ComparesBytes}
use rt_5gc_service_consumers.MbsSession.Public.{
  ServiceType, multicast, broadcast, ActivityStatus, unset, active, inactive, Ssm, ipv4, ipv6,
  other_family, ssm_addr_equal, AssociatedSessionId, bool_eq, both, associated_session_id_equal,
  Snssai, snssai_eq, service_type_eq, activity_eq, Parts, Public, tmgi_copy, copied_tmgi,
  public_copy, flags_equal, presence_equal, termination_equal, contents_equal, public_equal,
  destination,
}

bool_eq_self : (b : Bool) → bool_eq b b ≡ true
bool_eq_self true = refl
bool_eq_self false = refl

and-true : (b : Bool) → (b && true) ≡ b
and-true true = refl
and-true false = refl

times_equal :
    (p q : Option ℕ) → ((bool_eq (is_some p) (is_some q) && both ◌==◌ p q) ≡ true) ↔ (p ≡ q)
times_equal none none = (λ _. refl, λ _. refl)
times_equal none (some b) = (λ h. cc, λ h. cc)
times_equal (some a) none = (λ h. cc, λ h. cc)
times_equal (some a) (some b) = ground arith

service_type_eq_self : (t : ServiceType) → service_type_eq t t ≡ true
service_type_eq_self multicast = refl
service_type_eq_self broadcast = refl

activity_eq_self : (t : ActivityStatus) → activity_eq t t ≡ true
activity_eq_self unset = refl
activity_eq_self active = refl
activity_eq_self inactive = refl

snssai_eq_self : (t : Snssai) → snssai_eq t t ≡ true
snssai_eq_self t = ground arith

both_self :
    {A : Type 0} (eq : A → A → Bool) (p : Option A) → ((a : A) → eq a a ≡ true) → both eq p p ≡ true
both_self eq none h = refl
both_self eq (some a) h = h a

-- The address is of one of the two families that the code knows.
abbrev pub IsIp : Ssm → Type 0
IsIp (ipv4 s d) = Unit
IsIp (ipv6 s d) = Unit
IsIp (other_family f) = ⊥

abbrev pub OptIsIp : Option Ssm → Type 0
OptIsIp none = Unit
OptIsIp (some a) = IsIp a

abbrev pub AssociatedIsIp : Option AssociatedSessionId → Type 0
AssociatedIsIp none = Unit
AssociatedIsIp (some a) = IsIp a.ssm

ssm_addr_equal_self : (a : Ssm) → IsIp a → ssm_addr_equal a a ≡ true
unfolding ssm_addr_equal
ssm_addr_equal_self (ipv4 s d) h = ground arith
ssm_addr_equal_self (ipv6 s d) h = rw (str_eq_self s) (str_eq_self d)
ssm_addr_equal_self (other_family f) h = absurd h

both_ssm_self : (p : Option Ssm) → OptIsIp p → both ssm_addr_equal p p ≡ true
both_ssm_self none h = refl
both_ssm_self (some a) h = ssm_addr_equal_self a h

both_associated_self :
    (p : Option AssociatedSessionId)
    → AssociatedIsIp p
    → both associated_session_id_equal p p ≡ true
unfolding associated_session_id_equal
both_associated_self none h = refl
both_associated_self (some a) h =
    rw (bool_eq_self (is_some a.string), both_self str_eq a.string str_eq_self)
      (ssm_addr_equal_self a.ssm h)

-- Both set or both not, and then equal by the comparison.
abbrev pub same : {A : Type 0} → (A → A → Bool) → Option A → Option A → Bool
same eq p q = bool_eq (is_some p) (is_some q) && both eq p q

regroup :
    (a e i t p q r : Bool)
    → (((a && (e && i)) && (t && (p && (q && r)))) ≡ true)
      ↔ ((t ≡ true) × ((a && p) ≡ true) × ((e && q) ≡ true) × ((i && r) ≡ true))
regroup a e i t p q r = (λ h. ground arith, λ h. ground arith)

module _ {Plmn : Type 0} (parts : Parts) (dst : Option (Public Plmn parts))
    (src : Public Plmn parts) where
  -- What the copy of the service area, the extended area and the service information leaves.
  abbrev area : Option parts.ServiceArea
  area = parts.area_copy (destination parts (λ d. d.mbs_service_area) dst) src.mbs_service_area

  abbrev ext_area : Option parts.ExtServiceArea
  ext_area =
      parts.ext_area_copy (destination parts (λ d. d.ext_mbs_service_area) dst)
        src.ext_mbs_service_area

  abbrev info : Option parts.ServiceInfo
  info = parts.info_copy (destination parts (λ d. d.mbs_service_info) dst) src.mbs_service_info

  -- The copy of each of the three is set exactly if its source is, and then compares equal to it.
  abbrev pub PartsEqual : Type 0
  PartsEqual =
      (same parts.area_equal area src.mbs_service_area ≡ true)
      × (same parts.ext_area_equal ext_area src.ext_mbs_service_area ≡ true)
      × (same parts.info_equal info src.mbs_service_info ≡ true)

module _ {Plmn : Type 0} (o : PlmnOps Plmn) (bytes : ComparesBytes o) where
  tmgi_equal-copy :
      (fresh : ℕ) (dst : Option (Tmgi Plmn)) (src : Tmgi Plmn)
      → tmgi_equal o (some (tmgi_copy fresh dst src)) (some src) ≡ true
  unfolding tmgi_equal tmgi_copy tmgi_clear_repr
  tmgi_equal-copy fresh none src =
      ground (arith, bytes src.plmn src.plmn, opt_str_eq_iff src.mbs_service_id src.mbs_service_id)
  tmgi_equal-copy fresh (some dst) src =
      ground (arith, bytes src.plmn src.plmn, opt_str_eq_iff src.mbs_service_id src.mbs_service_id)

  tmgi_equal_self : (t : Tmgi Plmn) → tmgi_equal o (some t) (some t) ≡ true
  unfolding tmgi_equal
  tmgi_equal_self t = ground arith

  both_tmgi :
      (fresh : ℕ) (req : Bool) (dst src : Option (Tmgi Plmn))
      → (both
            (λ x y. tmgi_equal o (some x) (some y))
            (if req then copied_tmgi fresh dst src else src)
            src
          ≡ true)
        × (bool_eq (is_some (if req then copied_tmgi fresh dst src else src)) (is_some src) ≡ true)
  unfolding copied_tmgi
  both_tmgi fresh true dst none = (refl, refl)
  both_tmgi fresh true dst (some t) = (tmgi_equal-copy fresh dst t, refl)
  both_tmgi fresh false dst none = (refl, refl)
  both_tmgi fresh false dst (some t) = (tmgi_equal_self t, refl)

  module _ (parts : Parts) (fresh : ℕ) (dst : Option (Public Plmn parts))
      (src : Public Plmn parts) where
    flags_equal-copy : flags_equal parts (public_copy parts fresh dst src) src ≡ true
    unfolding flags_equal public_copy
    flags_equal-copy = simp (service_type_eq_self, bool_eq_self, activity_eq_self)

    presence_equal-copy : presence_equal parts (public_copy parts fresh dst src) src ≡ (
        bool_eq (is_some (area parts dst src)) (is_some src.mbs_service_area)
        && (bool_eq (is_some (ext_area parts dst src)) (is_some src.ext_mbs_service_area)
            && bool_eq (is_some (info parts dst src)) (is_some src.mbs_service_info)))
    unfolding presence_equal public_copy
    presence_equal-copy = simp (
      bool_eq_self,
      (both_tmgi fresh src.tmgi_req (destination parts (λ d. d.tmgi) dst) src.tmgi).1,
      and-true,
    )

    contents_equal-copy :
        OptIsIp src.ssm
        → AssociatedIsIp src.associated_session_id
        → contents_equal o parts (public_copy parts fresh dst src) src ≡ (
            both parts.area_equal (area parts dst src) src.mbs_service_area
            && (both parts.ext_area_equal (ext_area parts dst src) src.ext_mbs_service_area
                && both parts.info_equal (info parts dst src) src.mbs_service_info))
    unfolding contents_equal public_copy
    contents_equal-copy ip assoc_ip = simp (
      both_self ◌==◌ src.area_session_id ==_self,
      both_self ◌==◌ src.start_time ==_self,
      both_self str_eq src.dnn str_eq_self,
      both_ssm_self src.ssm ip,
      (both_tmgi fresh src.tmgi_req (destination parts (λ d. d.tmgi) dst) src.tmgi).0,
      both_self snssai_eq src.snssai snssai_eq_self,
      both_associated_self src.associated_session_id assoc_ip,
      str_eq_self src.mbs_fsa_ids,
      and-true,
    )

    -- The termination time that the destination of the copy has before the copy.
    abbrev pub old_termination : Option ℕ
    old_termination = destination parts (λ d. d.termination_time) dst

    termination_equal-copy :
        (termination_equal parts (public_copy parts fresh dst src) src ≡ true)
        ↔ (old_termination ≡ src.termination_time)
    unfolding termination_equal public_copy
    termination_equal-copy = times_equal old_termination src.termination_time

    public_equal-parts :
        OptIsIp src.ssm
        → AssociatedIsIp src.associated_session_id
        → (public_equal o parts (public_copy parts fresh dst src) src ≡ true) ↔ (
            (termination_equal parts (public_copy parts fresh dst src) src ≡ true)
            × (same parts.area_equal (area parts dst src) src.mbs_service_area ≡ true)
            × (same parts.ext_area_equal (ext_area parts dst src) src.ext_mbs_service_area ≡ true)
            × (same parts.info_equal (info parts dst src) src.mbs_service_info ≡ true))
    unfolding public_equal
    public_equal-parts ip assoc_ip =
        rw (flags_equal-copy, presence_equal-copy, contents_equal-copy ip assoc_ip)
          (regroup (bool_eq (is_some (area parts dst src)) (is_some src.mbs_service_area))
            (bool_eq (is_some (ext_area parts dst src)) (is_some src.ext_mbs_service_area))
            (bool_eq (is_some (info parts dst src)) (is_some src.mbs_service_info))
            (termination_equal parts (public_copy parts fresh dst src) src)
            (both parts.area_equal (area parts dst src) src.mbs_service_area)
            (both parts.ext_area_equal (ext_area parts dst src) src.ext_mbs_service_area)
            (both parts.info_equal (info parts dst src) src.mbs_service_info))

    -- A copy of a session compares equal to it exactly when the destination had its termination time
    -- already, and the copies of its service area, extended area and service information compare
    -- equal to these. The SSM and that of the associated session id, where set, are IPv4 or IPv6, and
    -- PLMN ids compare by their bytes.
    pub public_equal-copy_iff :
        OptIsIp src.ssm
        → AssociatedIsIp src.associated_session_id
        → (public_equal o parts (public_copy parts fresh dst src) src ≡ true)
          ↔ ((old_termination ≡ src.termination_time) × PartsEqual parts dst src)
    public_equal-copy_iff ip assoc_ip =
        let iff = public_equal-parts ip assoc_ip in
        (
          λ h. (termination_equal-copy.0 (iff.0 h).0, ((iff.0 h).1, (iff.0 h).2, (iff.0 h).3)),
          λ h. iff.1 (termination_equal-copy.1 h.0, h.1.0, h.1.1, h.1.2),
        )
