-- ===== src/Samples.antt =====
-- Test data for the examples: a PLMN id of two numbers, which print with three digits and with two or
-- three, TMGIs over it, and service areas and service information that are numbers.
use rt_5gc_service_consumers.Common.{
  ℕ, ◌+◌, ◌-◌, ◌*◌, ◌/◌, ◌%◌, true, false, ◌&&◌, [], ◌∷◌, ◌++◌, ltb, if◌then◌else◌, none, some, Str,
  ◌==◌, arith,
}
use rt_5gc_service_consumers.Tmgi.{Tmgi}
use rt_5gc_service_consumers.Tmgi.Plmn.{PlmnOps, ComparesBytes}
use rt_5gc_service_consumers.MbsSession.Public.{Parts, Public, broadcast, unset, ipv4}

pub record Plmn : Type 0 where
  pub mcc : ℕ
  pub mnc : ℕ

abbrev pub first : Str → ℕ
first [] = 0
first (c ∷ s) = c

abbrev digit : ℕ → ℕ
digit n = 48 + n % 10

-- The last two digits of a number, and the last three.
abbrev two_digits : ℕ → Str
two_digits n = digit (n / 10) ∷ digit n ∷ []

abbrev three_digits : ℕ → Str
three_digits n = digit (n / 100) ∷ two_digits n

-- The number that digits stand for, from a first part on.
abbrev decimal : ℕ → Str → ℕ
decimal n [] = n
decimal n (c ∷ s) = decimal (n * 10 + (c - 48)) s

abbrev pub ops : PlmnOps Plmn
ops = record {
  mcc = λ p. p.mcc;
  mnc = λ p. p.mnc;
  mcc_string = λ p. three_digits p.mcc;
  mnc_string = λ p. if ltb p.mnc 100 then two_digits p.mnc else three_digits p.mnc;
  to_string = λ p. three_digits p.mcc ++ two_digits p.mnc;
  build = λ m n l. record { mcc = m; mnc = n };
  equal = λ p q. (p.mcc == q.mcc) && (p.mnc == q.mnc);
  zero_plmn = record { mcc = 0; mnc = 0 };
  time_string = λ t. t ∷ [];
  number = decimal 0;
  parse_time = λ s. some (first s);
}

pub ops-ComparesBytes : ComparesBytes ops
ops-ComparesBytes a b = (λ h. ground arith, λ h. ground arith)

abbrev pub waiting : Tmgi Plmn
waiting = record {
  addr = 10;
  mbs_service_id = none;
  plmn = record { mcc = 0; mnc = 0 };
  expiry_time = 0;
  callback = some 7;
  callback_data = 3;
  sbi_object = none;
  repr = none;
  allocated = false;
}

abbrev pub granted : Tmgi Plmn
granted = record waiting {
  addr = 11;
  mbs_service_id = some (97 ∷ []);
  plmn = record { mcc = 1; mnc = 2 };
  expiry_time = 50;
  sbi_object = some 0;
  allocated = true;
}

abbrev pub parts : Parts
parts = record {
  ServiceArea = ℕ;
  ExtServiceArea = ℕ;
  ServiceInfo = ℕ;
  area_equal = ◌==◌;
  ext_area_equal = ◌==◌;
  info_equal = ◌==◌;
  area_copy = λ dst src. src;
  ext_area_copy = λ dst src. src;
  info_copy = λ dst src. src;
}

abbrev pub session : Public Plmn parts
session = record {
  service_type = broadcast;
  ssm = some (ipv4 1 2);
  tmgi = some granted;
  mb_upf_udp_tunnel = none;
  tunnel_req = true;
  tmgi_req = false;
  location_dependent = false;
  any_ue_ind = false;
  contact_pcf_ind = false;
  area_session_id = none;
  mbs_service_area = some 4;
  ext_mbs_service_area = none;
  dnn = none;
  snssai = none;
  start_time = none;
  termination_time = some 100;
  mbs_service_info = none;
  activity_status = unset;
  mbs_fsa_ids = 5 ∷ 6 ∷ [];
  associated_session_id = none;
}
