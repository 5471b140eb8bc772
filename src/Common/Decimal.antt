-- ===== src/Common/Decimal.antt =====
-- `%i` of printf on a number that is not negative, and its reading back.
use Prim.Native.Nat.{ℕ, zero, suc, ◌+◌, ◌-◌, ◌*◌, ◌/◌, ◌%◌, ◌<◌}
use mathlib.Core.Path.{◌≡◌, refl}
use mathlib.Core.List.{[], ◌∷◌, ◌++◌}
use mathlib.Core.Option.{Option, none, some}
use mathlib.Core.Bool.{◌&&◌}
use native.Mathlib.Omega.{arith}
use mathlib.Core.Bool.{false}
use rt_5gc_service_consumers.Common.Tests.{ltb, leb, if◌then◌else◌}
use rt_5gc_service_consumers.Common.Lists.{has, has-append}
use rt_5gc_service_consumers.Common.Text.{Str}

-- A number below 10 ^ fuel has at most `fuel` digits; `suc n` rounds are always enough for `n`.
digits : ℕ → ℕ → Str
digits zero n = []
digits (suc f) n =
    let high = digits f (n / 10) in
    if ltb n 10 then (b'0' + n) ∷ [] else high ++ (b'0' + n % 10) ∷ []

unfoldable pub decimal : ℕ → Str
unfolding digits
decimal n = digits (suc n) n

-- The number that a digit string spells; anything else is no index.
read_from : ℕ → Str → Option ℕ
read_from acc [] = some acc
read_from acc (c ∷ s) =
    let rest = read_from (acc * 10 + (c - b'0')) s in
    if leb b'0' c && leb c b'9' then rest else none

unfoldable pub read_decimal : Str → Option ℕ
unfolding read_from
read_decimal [] = none
read_decimal (c ∷ s) = read_from 0 (c ∷ s)

read_from-append :
    (s : Str) (acc n d : ℕ)
    → read_from acc s ≡ some n
    → d < 10
    → read_from acc (s ++ (b'0' + d) ∷ []) ≡ some (n * 10 + d)
unfolding read_from
read_from-append [] acc n d h k = ground arith
read_from-append (c ∷ s) acc n d h k =
    ground (arith, read_from-append s (acc * 10 + (c - b'0')) n d)

read_from-digits : (f n : ℕ) → n < f → read_from 0 (digits f n) ≡ some n
unfolding read_from digits
read_from-digits zero n h = absurd (omega arith)
read_from-digits (suc f) n h =
    ground
      (arith, read_from-digits f (n / 10), read_from-append (digits f (n / 10)) 0 (n / 10) (n % 10))

read_decimal-eq : (s : Str) (n : ℕ) → read_from 0 (s ++ n ∷ []) ≡ read_decimal (s ++ n ∷ [])
unfolding read_decimal
read_decimal-eq [] n = refl
read_decimal-eq (c ∷ s) n = refl

read_decimal-digits : (f n : ℕ) → read_from 0 (digits (suc f) n) ≡ read_decimal (digits (suc f) n)
unfolding digits
read_decimal-digits f n =
    ground
      (arith, read_decimal-eq [] (b'0' + n), read_decimal-eq (digits f (n / 10)) (b'0' + n % 10))

-- What `%i` prints reads back as the number.
pub read_decimal-decimal : (n : ℕ) → read_decimal (decimal n) ≡ some n
unfolding decimal
read_decimal-decimal n =
    sym_trans (read_decimal-digits n n) (read_from-digits (suc n) n (omega arith))
  where
    sym_trans : {a b c : Option ℕ} → a ≡ b → a ≡ c → b ≡ c
    sym_trans p q = cc

pub read_decimal-nil : read_decimal [] ≡ none
unfolding read_decimal
read_decimal-nil = refl

has-digits : (c f n : ℕ) → (leb b'0' c && leb c b'9') ≡ false → has c (digits f n) ≡ false
unfolding digits
has-digits c zero n h = refl
has-digits c (suc f) n h =
    ground
      (arith, has-digits c f (n / 10) h, has-append c (digits f (n / 10)) ((b'0' + n % 10) ∷ []))

-- Only digits are printed.
pub has-decimal : (c n : ℕ) → (leb b'0' c && leb c b'9') ≡ false → has c (decimal n) ≡ false
unfolding decimal
has-decimal c n h = has-digits c (suc n) n h
