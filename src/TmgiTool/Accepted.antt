-- ===== src/TmgiTool/Accepted.antt =====
-- The options that the tool accepts.
use rt_5gc_service_consumers.Common.{
  ℕ, Bool, true, false, ◌||◌, List, [], ◌∷◌, Option, none, some, Str, is_some, ◌≡◌, refl, arith,
}
use rt_5gc_service_consumers.ToolOptions.{
  Outcome, done, exited, overrun, ◌>>=◌, Argv, push_arg, pass_on, PlmnText, split_address_and_port,
  split_mcc_and_mnc,
}
use rt_5gc_service_consumers.ToolOptions.Split.{IsPlmn, split_mcc_and_mnc-IsPlmn}
use rt_5gc_service_consumers.TmgiTool.Options.{
  AppOptions, Opt, Case, open5gs, delete, help, mbs_service_id, nrf_address, plmn, scp_address,
  unknown, case_of, Parsed, no_options, parse_case, parse_each, names_tmgi, checked,
  app_options_parse,
}

-- A value that comes out of a sequence comes out of its second part.
from_bind :
    {A B : Type 0} (run : Outcome A) (f : A → Outcome B) (b : B)
    → (run >>= f) ≡ done b
    → (a : A) × (run ≡ done a) × (f a ≡ done b)
from_bind (done a) f b h = (a, refl, h)
from_bind (exited n) f b h = cc
from_bind overrun f b h = cc

abbrev pub PlmnIsValid : Option PlmnText → Type 0
PlmnIsValid none = Unit {0}
PlmnIsValid (some p) = IsPlmn p

-- A deletion names a TMGI, an allocation names none; there is an address to ask; and a PLMN id has
-- its digits.
pub record IsConsistent (o : AppOptions) : Type 0 where
  pub deletion : o.delete_tmgi ≡ true → (is_some o.mbs_service_id ≡ true) × (is_some o.plmn ≡ true)
  pub allocation : o.delete_tmgi ≡ false → (o.mbs_service_id ≡ none) × (o.plmn ≡ none)
  pub address : (is_some o.nrf_address || is_some o.scp_address) ≡ true
  pub plmn : PlmnIsValid o.plmn

parse_case-plmn :
    (atoi : Str → ℕ) (c : Case) (optarg : Str) (p q : Parsed)
    → PlmnIsValid p.0.plmn
    → parse_case atoi c optarg p ≡ done q
    → PlmnIsValid q.0.plmn
unfolding parse_case
parse_case-plmn atoi delete optarg p q v h = ground arith
parse_case-plmn atoi help optarg p q v h = cc
parse_case-plmn atoi mbs_service_id optarg p q v h = ground arith
parse_case-plmn atoi nrf_address optarg p q v h =
    let (a, e, k) = from_bind (split_address_and_port atoi optarg) _ q h in ground arith
parse_case-plmn atoi plmn optarg p q v h =
    let (a, e, k) = from_bind (split_mcc_and_mnc optarg) _ q h in
    let valid = split_mcc_and_mnc-IsPlmn optarg a e in ground arith
parse_case-plmn atoi scp_address optarg p q v h =
    let (a, e, k) = from_bind (split_address_and_port atoi optarg) _ q h in ground arith
parse_case-plmn atoi unknown optarg p q v h = cc
parse_case-plmn atoi (open5gs option) optarg p q v h =
    let (a, e, k) = from_bind (pass_on option optarg p.1) _ q h in ground arith

parse_each-plmn :
    (atoi : Str → ℕ) (xs : List Opt) (p q : Parsed)
    → PlmnIsValid p.0.plmn
    → parse_each atoi xs p ≡ done q
    → PlmnIsValid q.0.plmn
unfolding parse_each
parse_each-plmn atoi [] p q v h = ground arith
parse_each-plmn atoi (x ∷ xs) p q v h =
    let (r, e, k) =
      from_bind (parse_case atoi (case_of x.letter) x.optarg p) (parse_each atoi xs) q h in
    parse_each-plmn atoi xs r q (parse_case-plmn atoi (case_of x.letter) x.optarg p r v e) k

names_tmgi-deletion :
    (o : AppOptions)
    → names_tmgi o ≡ true
    → o.delete_tmgi ≡ true
    → (is_some o.mbs_service_id ≡ true) × (is_some o.plmn ≡ true)
unfolding names_tmgi
names_tmgi-deletion o h d = ground arith

not_some : {A : Type 0} (x : Option A) → is_some x ≡ false → x ≡ none
not_some none h = refl
not_some (some a) h = cc

names_tmgi-allocation :
    (o : AppOptions)
    → names_tmgi o ≡ true
    → o.delete_tmgi ≡ false
    → (o.mbs_service_id ≡ none) × (o.plmn ≡ none)
unfolding names_tmgi
names_tmgi-allocation o h d =
    (not_some o.mbs_service_id (ground arith), not_some o.plmn (ground arith))

-- The checks let options pass unchanged.
checked_lem :
    (all_used : Bool) (p q : Parsed)
    → checked all_used p ≡ done q
    → (names_tmgi p.0 ≡ true)
      × ((is_some p.0.nrf_address || is_some p.0.scp_address) ≡ true)
      × (q.0 ≡ p.0)
unfolding checked push_arg
checked_lem all_used p q h = (ground arith, ground arith, ground arith)

-- The options that the tool accepts are consistent: to delete, an MBS service id and a PLMN id are
-- given, to allocate, neither is; an NRF or an SCP has an address; and a PLMN id has an MCC of three
-- digits and an MNC of two or three.
pub app_options_parse-IsConsistent :
    (atoi : Str → ℕ) (command : Str) (opts : List Opt) (all_used : Bool) (q : Parsed)
    → app_options_parse atoi command opts all_used ≡ done q
    → IsConsistent q.0
unfolding app_options_parse
app_options_parse-IsConsistent atoi command opts all_used q h =
    let go = λ (argv : Argv). parse_each atoi opts (no_options, argv) >>= checked all_used in
    let (argv, e, k) = from_bind (push_arg (some command) []) go q h in
    let (p, d, m) = from_bind (parse_each atoi opts (no_options, argv)) (checked all_used) q k in
    let (names, asks, same) = checked_lem all_used p q m in
    let valid = parse_each-plmn atoi opts (no_options, argv) p tt d in
    rw same (record {
      deletion = names_tmgi-deletion p.0 names;
      allocation = names_tmgi-allocation p.0 names;
      address = asks;
      plmn = valid;
    })
