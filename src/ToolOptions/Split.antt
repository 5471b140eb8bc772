-- ===== src/ToolOptions/Split.antt =====
-- An address and a port, taken apart at the last colon, and a PLMN id.
use rt_5gc_service_consumers.Common.{
  ℕ, ◌+◌, ◌≤◌, true, false, [], ◌∷◌, ◌++◌, none, some, Str, has, length, ◌≡◌, refl, arith,
}
use rt_5gc_service_consumers.ToolOptions.{
  done, split_last, all_digits, take, drop, PlmnText, split_mcc_and_mnc,
}

split_last-none : (c : ℕ) (s : Str) → has c s ≡ false → split_last c s ≡ none
unfolding split_last
split_last-none c [] h = refl
split_last-none c (d ∷ s) h = ground (arith, split_last-none c s)

-- A text is taken apart where the last `c` stands.
pub split_last-append :
    (c : ℕ) (a b : Str) → has c b ≡ false → split_last c (a ++ c ∷ b) ≡ some (a, b)
unfolding split_last
split_last-append c [] b h = ground (arith, split_last-none c b h)
split_last-append c (d ∷ a) b h = ground (arith, split_last-append c a b h)

pub IsPlmn : PlmnText → Type 0
IsPlmn p =
    (length p.mcc ≡ 3)
    × (all_digits p.mcc ≡ true)
    × (2 ≤ length p.mnc)
    × (length p.mnc ≤ 3)
    × (all_digits p.mnc ≡ true)

length-take : (n : ℕ) (s : Str) → n ≤ length s → length (take n s) ≡ n
unfolding take
length-take ℕ.zero s h = refl
length-take (ℕ.suc n) [] h = omega arith
length-take (ℕ.suc n) (c ∷ s) h = omega (arith, length-take n s)

length-drop : (n : ℕ) (s : Str) → n ≤ length s → n + length (drop n s) ≡ length s
unfolding drop
length-drop ℕ.zero s h = omega arith
length-drop (ℕ.suc n) [] h = omega arith
length-drop (ℕ.suc n) (c ∷ s) h = omega (arith, length-drop n s)

-- A PLMN id that is accepted has an MCC of three digits and an MNC of two or three.
pub split_mcc_and_mnc-IsPlmn :
    (str : Str) (p : PlmnText) → split_mcc_and_mnc str ≡ done p → IsPlmn p
unfolding split_mcc_and_mnc IsPlmn
split_mcc_and_mnc-IsPlmn str p h = ground (arith, length-take 3 str, length-drop 4 str)
