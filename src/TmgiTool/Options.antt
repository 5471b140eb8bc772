-- ===== src/TmgiTool/Options.antt =====
-- tools/c/tmgi-tool/options.c: the reading of the command line. The options that getopt_long finds,
-- with their arguments, are a list, and a flag says whether it has used the whole command line.
use rt_5gc_service_consumers.Common.{
  ℕ, Bool, true, false, not, ◌&&◌, ◌||◌, List, [], ◌∷◌, Option, none, some, Str, bytes, ◌==◌,
  if◌then◌else◌, is_some,
}
use rt_5gc_service_consumers.ToolOptions.{
  Outcome, done, exited, ◌>>=◌, Argv, push_arg, pass_on, Address, PlmnText, split_address_and_port,
  split_mcc_and_mnc,
}

-- `app_options_t`; the MCC and the MNC are set together.
pub record AppOptions : Type 0 where
  pub delete_tmgi : Bool
  pub mbs_service_id : Option Str
  pub plmn : Option PlmnText
  pub nrf_address : Option Address
  pub scp_address : Option Address

-- What getopt_long returns for an option: its letter and `optarg`.
pub record Opt : Type 0 where
  pub letter : ℕ
  pub optarg : Str

pub data Case : Type 0 where
  delete help mbs_service_id nrf_address plmn scp_address unknown : Case
  open5gs : Str → Case

-- The labels of the switch.
unfoldable pub case_of : ℕ → Case
case_of c =
    if c == b'd'
    then delete
    else if c == b'e'
    then open5gs (bytes "-e")
    else if c == b'h'
    then help
    else if c == b'l'
    then open5gs (bytes "-l")
    else if c == b'm'
    then open5gs (bytes "-m")
    else if c == b'M'
    then mbs_service_id
    else if c == b'n'
    then nrf_address
    else if c == b'p'
    then plmn
    else if c == b's'
    then scp_address
    else unknown

abbrev pub Parsed : Type 0
Parsed = AppOptions × Argv

abbrev pub no_options : AppOptions
no_options = record {
  delete_tmgi = false;
  mbs_service_id = none;
  plmn = none;
  nrf_address = none;
  scp_address = none;
}

-- The checks behind the loop: a deletion names its TMGI and an allocation does not.
unfoldable pub names_tmgi : AppOptions → Bool
names_tmgi o =
    if o.delete_tmgi
    then is_some o.mbs_service_id && is_some o.plmn
    else not (is_some o.plmn || is_some o.mbs_service_id)

unfoldable pub checked : Bool → Parsed → Outcome Parsed
unfolding names_tmgi push_arg
checked all_used (o, argv) =
    if not all_used
    then exited 1
    else if not (names_tmgi o)
    then exited 1
    else if not (is_some o.scp_address) && not (is_some o.nrf_address)
    then exited 1
    else do more ← push_arg none argv; done (o, more)

-- `tmgi_tool_init` adds the configuration file and the end to the arguments.
unfoldable pub add_config : Option Str → Parsed → Outcome Parsed
unfolding push_arg
add_config filename (o, argv) = do
  one ← push_arg (some (bytes "-c")) argv
  two ← push_arg filename one
  three ← push_arg none two
  done (o, three)

module _ (atoi : Str → ℕ) where
  unfoldable pub parse_case : Case → Str → Parsed → Outcome Parsed
  unfolding pass_on split_address_and_port split_mcc_and_mnc
  parse_case delete optarg (o, argv) = done (record o { delete_tmgi = true }, argv)
  parse_case help optarg (o, argv) = exited 0
  parse_case mbs_service_id optarg (o, argv) =
      done (record o { mbs_service_id = some optarg }, argv)
  parse_case nrf_address optarg (o, argv) = do
    a ← split_address_and_port atoi optarg
    done (record o { nrf_address = some a }, argv)
  parse_case plmn optarg (o, argv) = do
    p ← split_mcc_and_mnc optarg
    done (record o { plmn = some p }, argv)
  parse_case scp_address optarg (o, argv) = do
    a ← split_address_and_port atoi optarg
    done (record o { scp_address = some a }, argv)
  parse_case unknown optarg (o, argv) = exited 1
  parse_case (open5gs option) optarg (o, argv) = do
    more ← pass_on option optarg argv
    done (o, more)

  unfoldable pub parse_each : List Opt → Parsed → Outcome Parsed
  unfolding parse_case case_of
  parse_each [] p = done p
  parse_each (x ∷ xs) p = do q ← parse_case (case_of x.letter) x.optarg p; parse_each xs q

  unfoldable pub app_options_parse : Str → List Opt → Bool → Outcome Parsed
  unfolding parse_each checked push_arg
  app_options_parse command opts all_used = do
    argv ← push_arg (some command) []
    p ← parse_each opts (no_options, argv)
    checked all_used p

  unfoldable pub tmgi_tool_arguments : Str → Option Str → List Opt → Bool → Outcome Parsed
  unfolding app_options_parse add_config
  tmgi_tool_arguments command filename opts all_used = do
    p ← app_options_parse command opts all_used
    add_config filename p
