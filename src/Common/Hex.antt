-- ===== src/Common/Hex.antt =====
-- utils.c of the MB-SMF library: `%.*llX`, and the reading of upper case hexadecimal.
use Prim.Native.Nat.{ℕ, zero, suc, ◌+◌, ◌-◌, ◌*◌, ◌/◌, ◌%◌, ◌^◌, ◌≤◌, ◌<◌}
use native.Mathlib.Nat.{pow-suc}
use mathlib.Core.Path.{◌≡◌, refl, ◌∙◌}
use mathlib.Core.List.{[], ◌∷◌, ◌++◌}
use mathlib.Core.Option.{Option, none, some}
use mathlib.Core.Bool.{◌&&◌}
use native.Mathlib.Omega.{arith}
use rt_5gc_service_consumers.Common.Tests.{ltb, leb, ◌==◌, if◌then◌else◌}
use rt_5gc_service_consumers.Common.Lists.{length, length-append}
use rt_5gc_service_consumers.Common.Text.{Str}

hex_digit : ℕ → ℕ
hex_digit d = if ltb d 10 then b'0' + d else b'A' + (d - 10)

-- The digits without leading zeros; zero has none.
hex_digits : ℕ → ℕ → Str
unfolding hex_digit
hex_digits zero n = []
hex_digits (suc f) n =
    let high = hex_digits f (n / 16) in if n == 0 then [] else high ++ hex_digit (n % 16) ∷ []

zeros : ℕ → Str → Str
zeros zero s = s
zeros (suc k) s = b'0' ∷ zeros k s

-- The precision of `%.*llX` is the least number of digits.
pub to_hex_string : ℕ → ℕ → Str
unfolding hex_digits zeros
to_hex_string val min_digits = let s = hex_digits (suc val) val in zeros (min_digits - length s) s

-- `val & mask` keeps the low 4 * max_digits bits.
unfoldable pub uint32_to_hex_str : ℕ → ℕ → ℕ → Str
uint32_to_hex_str val min_digits max_digits = to_hex_string (val % 2 ^ (4 * max_digits)) min_digits

unfoldable pub uint64_to_hex_str : ℕ → ℕ → ℕ → Str
uint64_to_hex_str val min_digits max_digits = to_hex_string (val % 2 ^ (4 * max_digits)) min_digits

-- The value of one upper case hexadecimal digit.
hex_value : ℕ → Option ℕ
hex_value c =
    if leb b'0' c && leb c b'9'
    then some (c - b'0')
    else if leb b'A' c && leb c b'F'
    then some (c - b'A' + 10)
    else none

push_hex : ℕ → Option ℕ → Option ℕ
push_hex acc none = none
push_hex acc (some d) = some (acc * 16 + d)

read_hex_from : Option ℕ → Str → Option ℕ
read_hex_from none s = none
read_hex_from (some acc) [] = some acc
read_hex_from (some acc) (c ∷ s) = read_hex_from (push_hex acc (hex_value c)) s

pub read_hex : Str → Option ℕ
unfolding read_hex_from push_hex hex_value
read_hex s = read_hex_from (some 0) s

read_hex_from-append :
    (o : Option ℕ) (s : Str) (n d : ℕ)
    → read_hex_from o s ≡ some n
    → d < 16
    → read_hex_from o (s ++ hex_digit d ∷ []) ≡ some (n * 16 + d)
unfolding read_hex_from push_hex hex_value hex_digit
read_hex_from-append none s n d h k = cc
read_hex_from-append (some acc) [] n d h k = ground arith
read_hex_from-append (some acc) (c ∷ s) n d h k =
    read_hex_from-append (push_hex acc (hex_value c)) s n d h k

read_hex_from-digits : (f n : ℕ) → n < f → read_hex_from (some 0) (hex_digits f n) ≡ some n
unfolding read_hex_from hex_digits
read_hex_from-digits zero n h = absurd (omega arith)
read_hex_from-digits (suc f) n h = ground (
  arith,
  read_hex_from-digits f (n / 16),
  read_hex_from-append (some 0) (hex_digits f (n / 16)) (n / 16) (n % 16),
)

read_hex_from-zeros :
    (k : ℕ) (s : Str) → read_hex_from (some 0) (zeros k s) ≡ read_hex_from (some 0) s
unfolding read_hex_from zeros push_hex hex_value
read_hex_from-zeros zero s = refl
read_hex_from-zeros (suc k) s = read_hex_from-zeros k s

pub read_hex-to_hex_string : (v m : ℕ) → read_hex (to_hex_string v m) ≡ some v
unfolding read_hex to_hex_string
read_hex-to_hex_string v m =
    read_hex_from-zeros (m - length (hex_digits (suc v) v)) (hex_digits (suc v) v)
    ∙ read_hex_from-digits (suc v) v (omega arith)

sixteenth : (j m : ℕ) → m < 16 ^ suc j → m / 16 < 16 ^ j
sixteenth j m p = omega (arith, pow-suc 16 j)

length-hex_digits : (k f n : ℕ) → n < 16 ^ k → length (hex_digits f n) ≤ k
unfolding hex_digits
length-hex_digits k zero n h = omega arith
length-hex_digits zero (suc f) n h = ground arith
length-hex_digits (suc k) (suc f) n h = ground (
  arith,
  length-hex_digits k f (n / 16) (sixteenth k n h),
  length-append (hex_digits f (n / 16)) (hex_digit (n % 16) ∷ []),
)

length-zeros : (k : ℕ) (s : Str) → length (zeros k s) ≡ k + length s
unfolding zeros
length-zeros zero s = omega arith
length-zeros (suc k) s = omega (arith, length-zeros k s)

pub length-to_hex_string : (v m : ℕ) → v < 16 ^ m → length (to_hex_string v m) ≡ m
unfolding to_hex_string
length-to_hex_string v m h = omega (
  arith,
  length-hex_digits m (suc v) v h,
  length-zeros (m - length (hex_digits (suc v) v)) (hex_digits (suc v) v),
)

pub length-to_hex_string_between :
    (v m k : ℕ)
    → v < 16 ^ k
    → m ≤ k
    → (m ≤ length (to_hex_string v m)) × (length (to_hex_string v m) ≤ k)
unfolding to_hex_string
length-to_hex_string_between v m k h le =
    let digits = length-hex_digits k (suc v) v h in
    let padded = length-zeros (m - length (hex_digits (suc v) v)) (hex_digits (suc v) v) in
    (omega arith, omega arith)
