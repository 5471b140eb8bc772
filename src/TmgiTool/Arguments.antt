-- ===== src/TmgiTool/Arguments.antt =====
-- How many arguments the tool collects for Open5GS, and the array that holds them.
use rt_5gc_service_consumers.Common.{
  ℕ, ◌+◌, ◌*◌, ◌≤◌, ◌<◌, Bool, true, false, not, List, [], ◌∷◌, Option, none, some, Str, bytes, ltb,
  if◌then◌else◌, length, Option-cases, length-append, Bool-cases, inl, inr, ◌≡◌, refl, arith,
}
use rt_5gc_service_consumers.ToolOptions.{
  Outcome, done, exited, overrun, ◌>>=◌, Argv, max_args, push_arg, pass_on, split_address_and_port,
  split_last, split_mcc_and_mnc,
}
use rt_5gc_service_consumers.TmgiTool.Options.{
  Opt, Case, open5gs, delete, help, mbs_service_id, nrf_address, plmn, scp_address, unknown,
  case_of, Parsed, parse_case, parse_each, names_tmgi, checked, no_options, app_options_parse,
  add_config, tmgi_tool_arguments,
}

-- A part that makes the array `n` entries long: it has a result when they fit, and writes behind the
-- end when they do not, unless it exits.
abbrev pub Fills : {A : Type 0} → (A → ℕ) → ℕ → Outcome A → Type 0
Fills entries n (done a) = (entries a ≡ n) × (n ≤ max_args)
Fills entries n (exited status) = Unit {0}
Fills entries n overrun = max_args < n

Fills-bind :
    {A B : Type 0} (from : A → ℕ) (entries : B → ℕ) (m k : ℕ) (run : Outcome A) (f : A → Outcome B)
    → m ≤ k
    → Fills from m run
    → ((a : A) → from a ≡ m → m ≤ max_args → Fills entries k (f a))
    → Fills entries k (run >>= f)
Fills-bind from entries m k (done a) f le h next = next a h.0 h.1
Fills-bind from entries m k (exited status) f le h next = tt
Fills-bind from entries m k overrun f le h next = omega arith

push_arg-Fills :
    (arg : Option Str) (argv : Argv) (n : ℕ)
    → length argv ≡ n
    → Fills length (n + 1) (push_arg arg argv)
unfolding push_arg
push_arg-Fills arg argv n e = elim (Bool-cases (ltb (length argv) max_args)) [
  | inl k ↦ rw k (omega (arith, length-append argv (arg ∷ [])), ground arith)
  | inr k ↦ rw k (ground arith)
]

pass_on-Fills :
    (option optarg : Str) (argv : Argv) (n : ℕ)
    → length argv ≡ n
    → Fills length (n + 2) (pass_on option optarg argv)
unfolding pass_on
pass_on-Fills option optarg argv n e =
    Fills-bind length length (n + 1) (n + 2) (push_arg (some option) argv) (push_arg (some optarg))
      (omega arith) (push_arg-Fills (some option) argv n e)
      (λ one k le. rw (add_two n) (push_arg-Fills (some optarg) one (n + 1) k))
  where
    add_two : (n : ℕ) → n + 2 ≡ n + 1 + 1
    add_two n = omega arith

abbrev entries : Parsed → ℕ
entries p = length p.1

-- The options that are passed on.
abbrev pub is_passed_on : Case → Bool
is_passed_on (open5gs option) = true
is_passed_on _ = false

pub passed_on : List Opt → ℕ
passed_on [] = 0
passed_on (x ∷ xs) = (if is_passed_on (case_of x.letter) then 1 else 0) + passed_on xs

-- A part that leaves the array alone or exits.
kept :
    {A : Type 0} (run : Outcome A) (f : A → Parsed) (argv : Argv) (n : ℕ)
    → ((a : A) → (f a).1 ≡ argv)
    → (run ≡ overrun → ⊥)
    → length argv ≡ n
    → n ≤ max_args
    → Fills entries (n + 0) (run >>= (λ a. done (f a)))
kept (done a) f argv n same never e le = (rw (same a) (omega arith), omega arith)
kept (exited status) f argv n same never e le = tt
kept overrun f argv n same never e le = absurd (never refl)

address-never : (atoi : Str → ℕ) (s : Str) → split_address_and_port atoi s ≡ overrun → ⊥
unfolding split_address_and_port
address-never atoi s h = elim (Option-cases (split_last b':' s)) [
  | inl e ↦ ground (arith, e)
  | inr (a, e) ↦ ground (arith, e)
]

plmn-never : (s : Str) → split_mcc_and_mnc s ≡ overrun → ⊥
unfolding split_mcc_and_mnc
plmn-never s h = ground arith

parse_case-Fills :
    (atoi : Str → ℕ) (c : Case) (optarg : Str) (p : Parsed) (n : ℕ)
    → length p.1 ≡ n
    → n ≤ max_args
    → Fills entries (n + (if is_passed_on c then 2 else 0)) (parse_case atoi c optarg p)
unfolding parse_case
parse_case-Fills atoi delete optarg p n e le = (omega arith, omega arith)
parse_case-Fills atoi help optarg p n e le = tt
parse_case-Fills atoi mbs_service_id optarg p n e le = (omega arith, omega arith)
parse_case-Fills atoi nrf_address optarg p n e le =
    kept (split_address_and_port atoi optarg) (λ a. (record p.0 { nrf_address = some a }, p.1)) p.1
      n (λ a. refl) (address-never atoi optarg) e le
parse_case-Fills atoi plmn optarg p n e le =
    kept (split_mcc_and_mnc optarg) (λ a. (record p.0 { plmn = some a }, p.1)) p.1 n (λ a. refl)
      (plmn-never optarg) e le
parse_case-Fills atoi scp_address optarg p n e le =
    kept (split_address_and_port atoi optarg) (λ a. (record p.0 { scp_address = some a }, p.1)) p.1
      n (λ a. refl) (address-never atoi optarg) e le
parse_case-Fills atoi unknown optarg p n e le = tt
parse_case-Fills atoi (open5gs option) optarg p n e le =
    Fills-bind length entries (n + 2) (n + 2) (pass_on option optarg p.1) (λ more. done (p.0, more))
      (omega arith) (pass_on-Fills option optarg p.1 n e) (λ more k fits. (k, fits))

parse_each-Fills :
    (atoi : Str → ℕ) (xs : List Opt) (p : Parsed) (n : ℕ)
    → length p.1 ≡ n
    → n ≤ max_args
    → Fills entries (n + 2 * passed_on xs) (parse_each atoi xs p)
unfolding parse_each passed_on
parse_each-Fills atoi [] p n e le = (omega arith, omega arith)
parse_each-Fills atoi (x ∷ xs) p n e le =
    let c = case_of x.letter in
    let m = n + (if is_passed_on c then 2 else 0) in
    let total : n + 2 * ((if is_passed_on c then 1 else 0) + passed_on xs) ≡ m + 2 * passed_on xs =
      ground arith in
    rw total (
      Fills-bind entries entries m (m + 2 * passed_on xs) (parse_case atoi c x.optarg p)
        (parse_each atoi xs) (omega arith) (parse_case-Fills atoi c x.optarg p n e le)
        (λ q k fits. parse_each-Fills atoi xs q m k fits))

push_into-Fills :
    (arg : Option Str) (p : Parsed) (n : ℕ)
    → length p.1 ≡ n
    → Fills entries (n + 1) (push_arg arg p.1 >>= (λ more. done (p.0, more)))
push_into-Fills arg p n e =
    Fills-bind length entries (n + 1) (n + 1) (push_arg arg p.1) (λ more. done (p.0, more))
      (omega arith) (push_arg-Fills arg p.1 n e) (λ more k fits. (k, fits))

checked-Fills :
    (all_used : Bool) (p : Parsed) (n : ℕ)
    → length p.1 ≡ n
    → Fills entries (n + 1) (checked all_used p)
unfolding checked
checked-Fills all_used p n e =
    stages _ (not all_used) (not (names_tmgi p.0)) _ (push_into-Fills none p n e)
  where
    stages :
        (r : Outcome Parsed) (a b c : Bool)
        → Fills entries (n + 1) r
        → Fills entries
            (n + 1)
            (if a then exited 1 else if b then exited 1 else if c then exited 1 else r)
    stages r true b c h = tt
    stages r false true c h = tt
    stages r false false true h = tt
    stages r false false false h = h

add_config-Fills :
    (filename : Option Str) (p : Parsed) (n : ℕ)
    → length p.1 ≡ n
    → Fills entries (n + 1 + 1 + 1) (add_config filename p)
unfolding add_config
add_config-Fills filename p n e =
    Fills-bind length entries (n + 1) (n + 1 + 1 + 1) (push_arg (some (bytes "-c")) p.1) _
      (omega arith) (push_arg-Fills (some (bytes "-c")) p.1 n e)
      (λ one k fits.
        Fills-bind length entries (n + 1 + 1) (n + 1 + 1 + 1) (push_arg filename one) _
          (omega arith) (push_arg-Fills filename one (n + 1) k)
          (λ two j fit. push_into-Fills none (p.0, two) (n + 1 + 1) j))

app_options_parse-Fills :
    (atoi : Str → ℕ) (command : Str) (opts : List Opt) (all_used : Bool)
    → Fills entries (1 + 2 * passed_on opts + 1) (app_options_parse atoi command opts all_used)
unfolding app_options_parse
app_options_parse-Fills atoi command opts all_used =
    let k = passed_on opts in
    Fills-bind length entries 1 (1 + 2 * k + 1) (push_arg (some command) []) _ (omega arith)
      (push_arg-Fills (some command) [] 0 refl)
      (λ argv e fits.
        Fills-bind entries entries (1 + 2 * k) (1 + 2 * k + 1)
          (parse_each atoi opts (no_options, argv)) (checked all_used) (omega arith)
          (parse_each-Fills atoi opts (no_options, argv) 1 e fits)
          (λ p j fit. checked-Fills all_used p (1 + 2 * k) j))

arguments-Fills :
    (atoi : Str → ℕ) (command : Str) (filename : Option Str) (opts : List Opt) (all_used : Bool)
    → Fills entries
        (5 + 2 * passed_on opts)
        (tmgi_tool_arguments atoi command filename opts all_used)
unfolding tmgi_tool_arguments
arguments-Fills atoi command filename opts all_used =
    let n = 1 + 2 * passed_on opts + 1 in
    let total : 5 + 2 * passed_on opts ≡ n + 1 + 1 + 1 = omega arith in
    rw total (
      Fills-bind entries entries n (n + 1 + 1 + 1) (app_options_parse atoi command opts all_used)
        (add_config filename) (omega arith) (app_options_parse-Fills atoi command opts all_used)
        (λ p e fits. add_config-Fills filename p n e))

-- The start of the tool writes behind the end of the array of arguments only when more than five of
-- the options -e, -l and -m are given, and always then when it does not exit before; with at most
-- five the array has two entries for each and five more.
pub tmgi_tool_arguments-overrun :
    (atoi : Str → ℕ) (command : Str) (filename : Option Str) (opts : List Opt) (all_used : Bool)
    → let r = tmgi_tool_arguments atoi command filename opts all_used in
      (r ≡ overrun → 5 < passed_on opts)
      × ((p : Parsed) → r ≡ done p → (passed_on opts ≤ 5) × (length p.1 ≡ 5 + 2 * passed_on opts))
tmgi_tool_arguments-overrun atoi command filename opts all_used =
    cases (tmgi_tool_arguments atoi command filename opts all_used)
      (arguments-Fills atoi command filename opts all_used)
  where
    cases :
        (r : Outcome Parsed)
        → Fills entries (5 + 2 * passed_on opts) r
        → (r ≡ overrun → 5 < passed_on opts)
          × ((p : Parsed)
              → r ≡ done p
              → (passed_on opts ≤ 5) × (length p.1 ≡ 5 + 2 * passed_on opts))
    cases (done q) h =
        (λ e. cc, λ p e. let same : q ≡ p = cc in (omega (arith, h.1), rw same at h.0))
    cases (exited status) h = (λ e. cc, λ p e. cc)
    cases overrun h = (λ e. omega (arith, h), λ p e. cc)
