-- ===== src/Common/Bits.antt =====
-- `|` and `^` on words as arithmetic: disjoint bits add up, and a mask of ones reverses.
use Prim.Native.Nat.{ℕ, zero, suc, ◌+◌, ◌*◌, ◌/◌, ◌%◌, ◌^◌, ◌≤◌, ◌<◌, max, min}
use Prim.Native.Nat.{
  bit_and, bit_or, bit_xor, digits, differ, bit_and-bitwise, bit_or-bitwise, bit_xor-bitwise,
}
use mathlib.Core.Path.{◌≡◌, refl, ap}
use mathlib.Core.Bool.{Bool, true, ◌&&◌}
use native.Mathlib.Omega.{arith}
use native.Mathlib.Nat.{pow-suc}
use mnser.Common.Tests.{◌==◌, ==_iff}

-- A table of the first `k` numbers, filled in by evaluation.
checked : (ℕ → Bool) → ℕ → Bool
checked test zero = true
checked test (suc k) = checked test k && test k

checked-at : (test : ℕ → Bool) (k b : ℕ) → checked test k ≡ true → b < k → test b ≡ true
unfolding checked
checked-at test zero b whole below = absurd (omega arith)
checked-at test (suc k) b whole below = ground (arith, checked-at test k b)

top_bit_is_sum : ℕ → Bool
top_bit_is_sum b = bit_or b 0x80 == b + 128

top_table : checked top_bit_is_sum 128 ≡ true
unfolding checked top_bit_is_sum
top_table = refl

pub set_top_bit : (b : ℕ) → b < 128 → bit_or b 0x80 ≡ b + 128
unfolding top_bit_is_sum
set_top_bit b h = (==_iff _ _).0 (checked-at top_bit_is_sum 128 b top_table h)

abbrev or_digits : ℕ → ℕ → ℕ → ℕ
or_digits n a b = digits (λ b. b) max n a b

abbrev xor_digits : ℕ → ℕ → ℕ → ℕ
xor_digits n a b = digits (λ b. b) differ n a b

or_fuel : (a b n m : ℕ) → a ≤ n → a ≤ m → or_digits n a b ≡ or_digits m a b
or_fuel a b zero zero l r = refl
or_fuel zero b zero (suc m) l r = refl
or_fuel (suc a) b zero (suc m) l r = absurd (omega arith)
or_fuel zero b (suc n) zero l r = refl
or_fuel (suc a) b (suc n) zero l r = absurd (omega arith)
or_fuel zero b (suc n) (suc m) l r = refl
or_fuel (suc a) b (suc n) (suc m) l r =
    omega (arith, or_fuel (suc a / 2) (b / 2) n m (omega arith) (omega arith))

pub zero-bit_or : (b : ℕ) → bit_or 0 b ≡ b
zero-bit_or b = bit_or-bitwise 0 b

pub or_step : (a b : ℕ) → bit_or a b ≡ bit_or (a / 2) (b / 2) * 2 + max (a % 2) (b % 2)
or_step zero b = omega (arith, zero-bit_or b, zero-bit_or (b / 2))
or_step (suc a) b = omega (
  arith,
  bit_or-bitwise (suc a) b,
  bit_or-bitwise (suc a / 2) (b / 2),
  or_fuel (suc a / 2) (b / 2) a (suc a / 2) (omega arith) (omega arith),
)

-- Bits that stand apart: `acc | (b << i)` is a sum where `acc` is below `2 ^ i`.
pub or_disjoint : (i a b : ℕ) → a < 2 ^ i → bit_or a (b * 2 ^ i) ≡ a + b * 2 ^ i
or_disjoint zero zero b h = omega (arith, zero-bit_or (b * 2 ^ 0))
or_disjoint zero (suc a) b h = absurd (omega arith)
or_disjoint (suc i) a b h =
    let half : b * 2 ^ suc i / 2 ≡ b * 2 ^ i = omega (arith, ap (λ (t : ℕ). b * t) (pow-suc 2 i)) in
    omega (
      arith,
      or_step a (b * 2 ^ suc i),
      ap (λ t. bit_or (a / 2) t) half,
      or_disjoint i (a / 2) b (omega (arith, pow-suc 2 i)),
      ap (λ (t : ℕ). b * t) (pow-suc 2 i),
    )

xor_fuel : (a b n m : ℕ) → a ≤ n → a ≤ m → xor_digits n a b ≡ xor_digits m a b
xor_fuel a b zero zero l r = refl
xor_fuel zero b zero (suc m) l r = refl
xor_fuel (suc a) b zero (suc m) l r = absurd (omega arith)
xor_fuel zero b (suc n) zero l r = refl
xor_fuel (suc a) b (suc n) zero l r = absurd (omega arith)
xor_fuel zero b (suc n) (suc m) l r = refl
xor_fuel (suc a) b (suc n) (suc m) l r =
    omega (arith, xor_fuel (suc a / 2) (b / 2) n m (omega arith) (omega arith))

pub zero-bit_xor : (b : ℕ) → bit_xor 0 b ≡ b
zero-bit_xor b = bit_xor-bitwise 0 b

differ_zero : (a : ℕ) → a < 2 → differ a 0 ≡ a
differ_zero zero h = refl
differ_zero (suc zero) h = refl
differ_zero (suc (suc a)) h = absurd (omega arith)

differ_one : (a : ℕ) → a < 2 → differ a 1 + a ≡ 1
differ_one zero h = refl
differ_one (suc zero) h = refl
differ_one (suc (suc a)) h = absurd (omega arith)

zero-differ : (a : ℕ) → a < 2 → differ 0 a ≡ a
zero-differ zero h = refl
zero-differ (suc zero) h = refl
zero-differ (suc (suc a)) h = absurd (omega arith)

pub xor_step : (a b : ℕ) → bit_xor a b ≡ bit_xor (a / 2) (b / 2) * 2 + differ (a % 2) (b % 2)
xor_step zero b =
    omega (arith, zero-bit_xor b, zero-bit_xor (b / 2), zero-differ (b % 2) (omega arith))
xor_step (suc a) b = omega (
  arith,
  bit_xor-bitwise (suc a) b,
  bit_xor-bitwise (suc a / 2) (b / 2),
  xor_fuel (suc a / 2) (b / 2) a (suc a / 2) (omega arith) (omega arith),
)

xor_zero_fuel : (n a : ℕ) → a ≤ n → bit_xor a 0 ≡ a
xor_zero_fuel zero zero h = zero-bit_xor 0
xor_zero_fuel zero (suc a) h = absurd (omega arith)
xor_zero_fuel (suc n) zero h = zero-bit_xor 0
xor_zero_fuel (suc n) (suc a) h = omega (
  arith,
  xor_step (suc a) 0,
  xor_zero_fuel n (suc a / 2) (omega arith),
  differ_zero (suc a % 2) (omega arith),
)

pub xor_zero : (a : ℕ) → bit_xor a 0 ≡ a
xor_zero a = xor_zero_fuel a a (omega arith)

-- A mask of `w` ones takes every bit to its opposite.
pub xor_ones : (w a m : ℕ) → a < 2 ^ w → m + 1 ≡ 2 ^ w → bit_xor a m + a ≡ m
xor_ones zero zero m h e = omega (arith, zero-bit_xor m)
xor_ones zero (suc a) m h e = absurd (omega arith)
xor_ones (suc w) a m h e =
    let odd : m % 2 ≡ 1 = omega (arith, pow-suc 2 w) in
    omega (
      arith,
      xor_step a m,
      ap (λ t. differ (a % 2) t) odd,
      differ_one (a % 2) (omega arith),
      xor_ones w (a / 2) (m / 2) (omega (arith, pow-suc 2 w)) (omega (arith, pow-suc 2 w)),
    )

abbrev and_digits : ℕ → ℕ → ℕ → ℕ
and_digits n a b = digits (λ b. zero) min n a b

and_fuel : (a b n m : ℕ) → a ≤ n → a ≤ m → and_digits n a b ≡ and_digits m a b
and_fuel a b zero zero l r = refl
and_fuel zero b zero (suc m) l r = refl
and_fuel (suc a) b zero (suc m) l r = absurd (omega arith)
and_fuel zero b (suc n) zero l r = refl
and_fuel (suc a) b (suc n) zero l r = absurd (omega arith)
and_fuel zero b (suc n) (suc m) l r = refl
and_fuel (suc a) b (suc n) (suc m) l r =
    omega (arith, and_fuel (suc a / 2) (b / 2) n m (omega arith) (omega arith))

pub zero-bit_and : (b : ℕ) → bit_and 0 b ≡ 0
zero-bit_and b = bit_and-bitwise 0 b

pub and_step : (a b : ℕ) → bit_and a b ≡ bit_and (a / 2) (b / 2) * 2 + min (a % 2) (b % 2)
and_step zero b = omega (arith, zero-bit_and b, zero-bit_and (b / 2))
and_step (suc a) b = omega (
  arith,
  bit_and-bitwise (suc a) b,
  bit_and-bitwise (suc a / 2) (b / 2),
  and_fuel (suc a / 2) (b / 2) a (suc a / 2) (omega arith) (omega arith),
)

pub and_zero_fuel : (n a : ℕ) → a ≤ n → bit_and a 0 ≡ 0
and_zero_fuel n zero h = zero-bit_and 0
and_zero_fuel zero (suc a) h = absurd (omega arith)
and_zero_fuel (suc n) (suc a) h =
    omega (arith, and_step (suc a) 0, and_zero_fuel n (suc a / 2) (omega arith))

-- The lowest bit, and the seven lowest.
pub and_one : (a : ℕ) → bit_and a 1 ≡ a % 2
and_one a = omega (arith, and_step a 1, and_zero_fuel (a / 2) (a / 2) (omega arith))

and_fifteen : (a : ℕ) → bit_and a 15 ≡ a % 16
and_fifteen a =
    omega
      (arith, and_step a 15, and_step (a / 2) 7, and_step (a / 2 / 2) 3, and_one (a / 2 / 2 / 2))

pub low_bits : (a : ℕ) → bit_and a 0x7f ≡ a % 128
low_bits a = omega (
  arith,
  and_step a 127,
  and_step (a / 2) 63,
  and_step (a / 2 / 2) 31,
  and_fifteen (a / 2 / 2 / 2),
)
