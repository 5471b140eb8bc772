-- ===== src/ToolOptions.antt =====
-- What the command line tools share: tools/c/tmgi-tool/options.c and tools/c/mbs-service-tool/options.c
-- have the same code for addresses, PLMN ids and the arguments that are passed on to Open5GS.
pub mod Split
use rt_5gc_service_consumers.Common.{
  ℕ, ◌+◌, ◌-◌, ◌%◌, ◌^◌, Bool, true, false, not, ◌&&◌, ◌||◌, List, [], ◌∷◌, ◌++◌, Option, none,
  some, Str, bytes, get_elem?, leb, ltb, ◌==◌, if◌then◌else◌, length, ◌≡◌,
}

-- How a part of the program ends: with a value, by `exit` with a status, or by a write behind the
-- end of an array.
pub data Outcome {ℓ} (A : Type ℓ) : Type ℓ where
  done : A → Outcome A
  exited : ℕ → Outcome A
  overrun : Outcome A

infixl 5 ◌>>=◌
abbrev pub ◌>>=◌ {ℓ κ} : {A : Type ℓ} {B : Type κ} → Outcome A → (A → Outcome B) → Outcome B
done a >>= f = f a
exited n >>= f = exited n
overrun >>= f = overrun

-- `static char *ret_argv[MBS_SERVICE_TOOL_MAX_ARGS]` with its first `ret_argc` entries.
abbrev pub Argv : Type 0
Argv = List (Option Str)

abbrev pub max_args : ℕ
max_args = 16

-- `ret_argv[ret_argc++] = arg`
unfoldable pub push_arg : Option Str → Argv → Outcome Argv
push_arg arg argv = if ltb (length argv) max_args then done (argv ++ arg ∷ []) else overrun

-- An option with its argument, and then the next ones.
unfoldable pub pass_on : Str → Str → Argv → Outcome Argv
unfolding push_arg
pass_on option optarg argv = do one ← push_arg (some option) argv; push_arg (some optarg) one

-- `strrchr(str, c)`: what stands before the last `c` and behind it.
unfoldable pub split_last : ℕ → Str → Option (Str × Str)
split_last c [] = none
split_last c (d ∷ s) = elim (split_last c s) [
  | some p ↦ some (d ∷ p.0, p.1)
  | none ↦ if d == c then some ([], s) else none
]

-- An address and a port. The port is kept as a `short int`: 16 bits of what `atoi` gives.
pub record Address : Type 0 where
  pub host : Str
  pub port : ℕ

abbrev address_of : (Str → ℕ) → Option (Str × Str) → Outcome Address
address_of atoi none = exited 1
address_of atoi (some p) = done (record { host = p.0; port = atoi p.1 % 2 ^ 16 })

unfoldable pub split_address_and_port : (Str → ℕ) → Str → Outcome Address
unfolding split_last
split_address_and_port atoi str = address_of atoi (split_last b':' str)

abbrev pub is_digit : ℕ → Bool
is_digit c = leb b'0' c && leb c b'9'

unfoldable pub all_digits : Str → Bool
all_digits [] = true
all_digits (c ∷ s) = is_digit c && all_digits s

unfoldable pub take : ℕ → Str → Str
take ℕ.zero s = []
take (ℕ.suc n) [] = []
take (ℕ.suc n) (c ∷ s) = c ∷ take n s

unfoldable pub drop : ℕ → Str → Str
drop ℕ.zero s = s
drop (ℕ.suc n) [] = []
drop (ℕ.suc n) (c ∷ s) = drop n s

abbrev is_dash : Option ℕ → Bool
is_dash none = false
is_dash (some c) = c == b'-'

pub record PlmnText : Type 0 where
  pub mcc : Str
  pub mnc : Str

unfoldable pub split_mcc_and_mnc : Str → Outcome PlmnText
unfolding all_digits take drop
split_mcc_and_mnc str =
    if ltb (length str) 6 || ltb 7 (length str) || not (is_dash (get_elem? str 3))
    then exited 1
    else if all_digits (take 3 str)
    then (if all_digits (drop 4 str)
        then done (record { mcc = take 3 str; mnc = drop 4 str })
        else exited 1)
    else exited 1
