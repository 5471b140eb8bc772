-- ===== src/MbsSession/Public.antt =====
-- The public part of an MBS Session (mbs-session.c, ssm-addr.c, associated-session-id.c): its copy
-- and its comparison. A pointer that may be NULL is an `Option` of what it points at; two sessions
-- that are compared or copied are two objects. The service areas and the service information, which
-- other files define, enter with their comparison and their copy.
pub mod Copied
mod Examples
use rt_5gc_service_consumers.Common.{
  ℕ, suc, Bool, true, false, ◌&&◌, not, List, [], ◌∷◌, Option, none, some, Str, str_eq, ◌==◌,
  if◌then◌else◌, is_some, length,
}
use rt_5gc_service_consumers.Tmgi.{Tmgi, tmgi_equal, tmgi_clear_repr}
use rt_5gc_service_consumers.Tmgi.Plmn.{PlmnOps}

pub data ServiceType : Type 0 where
  multicast broadcast : ServiceType

pub data ActivityStatus : Type 0 where
  unset active inactive : ActivityStatus

-- A source specific multicast address, by its address family.
pub data Ssm : Type 0 where
  ipv4 : ℕ → ℕ → Ssm
  ipv6 : Str → Str → Ssm
  other_family : ℕ → Ssm

-- Two distinct, non-NULL addresses.
unfoldable pub ssm_addr_equal : Ssm → Ssm → Bool
ssm_addr_equal (ipv4 s d) (ipv4 t e) = (s == t) && (d == e)
ssm_addr_equal (ipv6 s d) (ipv6 t e) = str_eq s t && str_eq d e
ssm_addr_equal _ _ = false

-- `mb_smf_sc_ssm_equal` with NULL for either.
unfoldable pub ssm_equal : Option Ssm → Option Ssm → Bool
unfolding ssm_addr_equal
ssm_equal none none = true
ssm_equal (some a) (some b) = ssm_addr_equal a b
ssm_equal _ _ = false

pub record AssociatedSessionId : Type 0 where
  pub string : Option Str
  pub ssm : Ssm

abbrev pub bool_eq : Bool → Bool → Bool
bool_eq true b = b
bool_eq false b = not b

-- A comparison of what two pointers point at, where it is made only if the first is set.
abbrev pub both : {A : Type 0} → (A → A → Bool) → Option A → Option A → Bool
both eq none q = true
both eq (some a) none = false
both eq (some a) (some b) = eq a b

unfoldable pub associated_session_id_equal : AssociatedSessionId → AssociatedSessionId → Bool
unfolding ssm_addr_equal
associated_session_id_equal a b =
    bool_eq (is_some a.string) (is_some b.string)
    && (both str_eq a.string b.string && ssm_addr_equal a.ssm b.ssm)

pub record Snssai : Type 0 where
  pub sst : ℕ
  pub sd : ℕ

abbrev pub snssai_eq : Snssai → Snssai → Bool
snssai_eq a b = (a.sst == b.sst) && (a.sd == b.sd)

abbrev pub service_type_eq : ServiceType → ServiceType → Bool
service_type_eq multicast multicast = true
service_type_eq broadcast broadcast = true
service_type_eq _ _ = false

abbrev pub activity_eq : ActivityStatus → ActivityStatus → Bool
activity_eq unset unset = true
activity_eq active active = true
activity_eq inactive inactive = true
activity_eq _ _ = false

-- What other files of the library define: the areas, the service information, how they compare, and
-- how they are copied over what is there: `_mbs_service_area_copy(&dst, src)` leaves
-- `area_copy dst src` in `dst`, NULL being `none`.
pub record Parts : Type 1 where
  pub ServiceArea : Type 0
  pub ExtServiceArea : Type 0
  pub ServiceInfo : Type 0
  pub area_equal : ServiceArea → ServiceArea → Bool
  pub ext_area_equal : ExtServiceArea → ExtServiceArea → Bool
  pub info_equal : ServiceInfo → ServiceInfo → Bool
  pub area_copy : Option ServiceArea → Option ServiceArea → Option ServiceArea
  pub ext_area_copy : Option ExtServiceArea → Option ExtServiceArea → Option ExtServiceArea
  pub info_copy : Option ServiceInfo → Option ServiceInfo → Option ServiceInfo

pub record Public (Plmn : Type 0) (parts : Parts) : Type 0 where
  pub service_type : ServiceType
  pub ssm : Option Ssm
  pub tmgi : Option (Tmgi Plmn)
  pub mb_upf_udp_tunnel : Option ℕ
  pub tunnel_req : Bool
  pub tmgi_req : Bool
  pub location_dependent : Bool
  pub any_ue_ind : Bool
  pub contact_pcf_ind : Bool
  pub area_session_id : Option ℕ
  pub mbs_service_area : Option parts.ServiceArea
  pub ext_mbs_service_area : Option parts.ExtServiceArea
  pub dnn : Option Str
  pub snssai : Option Snssai
  pub start_time : Option ℕ
  pub termination_time : Option ℕ
  pub mbs_service_info : Option parts.ServiceInfo
  pub activity_status : ActivityStatus
  pub mbs_fsa_ids : List ℕ
  pub associated_session_id : Option AssociatedSessionId

module _ {Plmn : Type 0} where
  -- `_tmgi_copy` into the TMGI that is there, or into a new one at the address `fresh`.
  unfoldable pub tmgi_copy : ℕ → Option (Tmgi Plmn) → Tmgi Plmn → Tmgi Plmn
  unfolding tmgi_clear_repr
  tmgi_copy fresh none src = record src { addr = fresh; repr = none; allocated = false }
  tmgi_copy fresh (some dst) src =
      if dst.addr == src.addr
      then dst
      else tmgi_clear_repr (record dst {
        mbs_service_id = src.mbs_service_id;
        plmn = src.plmn;
        expiry_time = src.expiry_time;
        sbi_object = src.sbi_object;
      })

  unfoldable pub copied_tmgi : ℕ → Option (Tmgi Plmn) → Option (Tmgi Plmn) → Option (Tmgi Plmn)
  unfolding tmgi_copy
  copied_tmgi fresh dst none = none
  copied_tmgi fresh dst (some src) = some (tmgi_copy fresh dst src)

module _ {Plmn : Type 0} (parts : Parts) where
  -- The object that `ogs_calloc` gives has the destination's fields at zero.
  abbrev pub destination :
      {A : Type 0} → (Public Plmn parts → Option A) → Option (Public Plmn parts) → Option A
  destination field none = none
  destination field (some d) = field d

  -- A source that owns its TMGI has it copied; else the pointer is copied. The termination time of
  -- the destination stays what it was.
  unfoldable pub public_copy :
      ℕ → Option (Public Plmn parts) → Public Plmn parts → Public Plmn parts
  unfolding copied_tmgi
  public_copy fresh dst src = record src {
    tmgi =
        if src.tmgi_req
        then copied_tmgi fresh (destination (λ d. d.tmgi) dst) src.tmgi
        else src.tmgi;
    mbs_service_area =
        parts.area_copy (destination (λ d. d.mbs_service_area) dst) src.mbs_service_area;
    ext_mbs_service_area =
        parts.ext_area_copy (destination (λ d. d.ext_mbs_service_area) dst)
          src.ext_mbs_service_area;
    mbs_service_info =
        parts.info_copy (destination (λ d. d.mbs_service_info) dst) src.mbs_service_info;
    termination_time = destination (λ d. d.termination_time) dst;
  }

  -- The fields that are compared by value.
  unfoldable pub flags_equal : Public Plmn parts → Public Plmn parts → Bool
  flags_equal a b =
      service_type_eq a.service_type b.service_type
      && (bool_eq a.tunnel_req b.tunnel_req
          && (bool_eq a.tmgi_req b.tmgi_req
              && (bool_eq a.location_dependent b.location_dependent
                  && (bool_eq a.any_ue_ind b.any_ue_ind
                      && (bool_eq a.contact_pcf_ind b.contact_pcf_ind
                          && activity_eq a.activity_status b.activity_status)))))

  -- The optional fields are set in both or in neither.
  unfoldable pub presence_equal : Public Plmn parts → Public Plmn parts → Bool
  presence_equal a b =
      bool_eq (is_some a.ssm) (is_some b.ssm)
      && (bool_eq (is_some a.tmgi) (is_some b.tmgi)
          && (bool_eq (is_some a.mb_upf_udp_tunnel) (is_some b.mb_upf_udp_tunnel)
              && (bool_eq (is_some a.area_session_id) (is_some b.area_session_id)
                  && (bool_eq (is_some a.mbs_service_area) (is_some b.mbs_service_area)
                      && (bool_eq (is_some a.ext_mbs_service_area) (is_some b.ext_mbs_service_area)
                          && (bool_eq (is_some a.dnn) (is_some b.dnn)
                              && (bool_eq (is_some a.snssai) (is_some b.snssai)
                                  && (bool_eq (is_some a.start_time) (is_some b.start_time)
                                      && (bool_eq (is_some a.mbs_service_info)
                                            (is_some b.mbs_service_info)
                                          && bool_eq (is_some a.associated_session_id)
                                              (is_some b.associated_session_id))))))))))

  -- Both set or both not, and then the same.
  unfoldable pub termination_equal : Public Plmn parts → Public Plmn parts → Bool
  termination_equal a b =
      bool_eq (is_some a.termination_time) (is_some b.termination_time)
      && both ◌==◌ a.termination_time b.termination_time

module _ {Plmn : Type 0} (o : PlmnOps Plmn) (parts : Parts) where
  -- What the set optional fields point at, and the list of area ids.
  unfoldable pub contents_equal : Public Plmn parts → Public Plmn parts → Bool
  contents_equal a b =
      both ◌==◌ a.area_session_id b.area_session_id
      && (both ◌==◌ a.start_time b.start_time
          && (both str_eq a.dnn b.dnn
              && (both ssm_addr_equal a.ssm b.ssm
                  && (both (λ x y. tmgi_equal o (some x) (some y)) a.tmgi b.tmgi
                      && (both parts.area_equal a.mbs_service_area b.mbs_service_area
                          && (both parts.ext_area_equal a.ext_mbs_service_area
                                b.ext_mbs_service_area
                              && (both snssai_eq a.snssai b.snssai
                                  && (both parts.info_equal a.mbs_service_info b.mbs_service_info
                                      && (both associated_session_id_equal a.associated_session_id
                                            b.associated_session_id
                                          && str_eq a.mbs_fsa_ids b.mbs_fsa_ids)))))))))

  -- `_mbs_session_public_equal` of two sessions that are not NULL. The tests are a conjunction, in
  -- which the two of the termination time stand together.
  unfoldable pub public_equal : Public Plmn parts → Public Plmn parts → Bool
  unfolding flags_equal presence_equal termination_equal contents_equal
  public_equal a b =
      flags_equal parts a b
      && (presence_equal parts a b && (termination_equal parts a b && contents_equal a b))
