-- ===== src/Tmgi/Plmn.antt =====
-- The PLMN id functions of libogscore and the printing of a time, which the TMGI code calls.
use rt_5gc_service_consumers.Common.{ℕ, Bool, true, Option, Str, ◌≡◌, ◌↔◌}

pub record PlmnOps (Plmn : Type 0) : Type 0 where
  pub mcc : Plmn → ℕ  -- ogs_plmn_id_mcc
  pub mnc : Plmn → ℕ  -- ogs_plmn_id_mnc
  pub mcc_string : Plmn → Str  -- ogs_plmn_id_mcc_string
  pub mnc_string : Plmn → Str  -- ogs_plmn_id_mnc_string
  pub to_string : Plmn → Str  -- ogs_plmn_id_to_string
  pub build : ℕ → ℕ → ℕ → Plmn  -- ogs_plmn_id_build
  pub equal : Plmn → Plmn → Bool  -- memcmp of two ids
  pub zero_plmn : Plmn  -- the bytes that ogs_calloc leaves
  pub time_string : ℕ → Str  -- _time_string of ogs_time_from_sec
  pub number : Str → ℕ  -- (uint16_t)ogs_uint64_from_string
  pub parse_time : Str → Option ℕ  -- ogs_sbi_time_from_string and ogs_time_sec

-- `memcmp` finds two ids equal exactly when they are the same bytes.
abbrev pub ComparesBytes : {Plmn : Type 0} → PlmnOps Plmn → Type 0
ComparesBytes {Plmn} o = (a b : Plmn) → (o.equal a b ≡ true) ↔ (a ≡ b)
