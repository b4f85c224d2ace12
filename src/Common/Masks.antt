-- ===== src/Common/Masks.antt =====
-- An operation that works bit by bit works on the parts of a word too; masks of ones.
use Prim.Native.Nat.{
  ℕ, zero, suc, ◌+◌, ◌*◌, ◌/◌, ◌%◌, ◌^◌, ◌<◌, ◌≤◌, max, min, bit_and, bit_or, bit_xor, differ,
}
use mathlib.Core.Path.{◌≡◌, refl, ap}
use native.Mathlib.Omega.{arith}
use native.Mathlib.Nat.{pow-suc}
use mnser.Common.Bits.{
  or_step, and_step, xor_step, zero-bit_or, zero-bit_and, and_zero_fuel, zero-bit_xor,
}

pub pow_pos : (k : ℕ) → 0 < 2 ^ k
pow_pos zero = omega arith
pow_pos (suc k) = omega (arith, pow_pos k, pow-suc 2 k)

pub pow_le : (d k n : ℕ) → n ≡ d + k → 2 ^ k ≤ 2 ^ n
pow_le zero k n e = let s : n ≡ k = omega arith in rw s (omega arith)
pow_le (suc d) k zero e = absurd (omega arith)
pow_le (suc d) k (suc n) e = omega (arith, pow_le d k n (omega arith), pow-suc 2 n)

twice_pow : (i t : ℕ) → t * 2 ^ suc i ≡ 2 * (t * 2 ^ i)
twice_pow i t = omega (arith, ap (λ (u : ℕ). t * u) (pow-suc 2 i))

differ-le : (a b : ℕ) → differ a b ≤ max a b
differ-le zero b = omega arith
differ-le (suc a) zero = omega arith
differ-le (suc a) (suc b) = omega (arith, differ-le a b)

-- An operation whose result has each bit from the two bits in its place.
pub record Bitwise (op : ℕ → ℕ → ℕ) : Type 0 where
  bit : ℕ → ℕ → ℕ
  small : (a b : ℕ) → bit (a % 2) (b % 2) < 2
  nothing : op 0 0 ≡ 0
  step : (a b : ℕ) → op a b ≡ op (a / 2) (b / 2) * 2 + bit (a % 2) (b % 2)

module _ (op : ℕ → ℕ → ℕ) (o : Bitwise op) where
  pub Bitwise-lt : (i a b : ℕ) → a < 2 ^ i → b < 2 ^ i → op a b < 2 ^ i
  Bitwise-lt zero a b h k =
      let e : a ≡ 0 = omega arith in
      let f : b ≡ 0 = omega arith in rw (e, f) (omega (arith, o.nothing))
  Bitwise-lt (suc i) a b h k = omega (
    arith,
    o.step a b,
    o.small a b,
    pow-suc 2 i,
    Bitwise-lt i (a / 2) (b / 2) (omega (arith, pow-suc 2 i)) (omega (arith, pow-suc 2 i)),
  )

  pub Bitwise-split :
      (i a b c d p q : ℕ)
      → a < 2 ^ i
      → c < 2 ^ i
      → p ≡ a + b * 2 ^ i
      → q ≡ c + d * 2 ^ i
      → op p q ≡ op a c + op b d * 2 ^ i
  Bitwise-split zero a b c d p q h k e f =
      let ea : a ≡ 0 = omega arith in
      let ec : c ≡ 0 = omega arith in
      let ep : p ≡ b = omega arith in
      let eq : q ≡ d = omega arith in rw (ea, ec, ep, eq) (omega (arith, o.nothing))
  Bitwise-split (suc i) a b c d p q h k e f =
      let lp : p % 2 ≡ a % 2 = omega (arith, twice_pow i b) in
      let lq : q % 2 ≡ c % 2 = omega (arith, twice_pow i d) in
      let hp : p / 2 ≡ a / 2 + b * 2 ^ i = omega (arith, twice_pow i b) in
      let hq : q / 2 ≡ c / 2 + d * 2 ^ i = omega (arith, twice_pow i d) in
      let low : o.bit (p % 2) (q % 2) ≡ o.bit (a % 2) (c % 2) = rw (lp, lq) refl in
      omega (
        arith,
        o.step p q,
        o.step a c,
        low,
        twice_pow i (op b d),
        Bitwise-split i (a / 2) b (c / 2) d (p / 2) (q / 2) (omega (arith, pow-suc 2 i))
            (omega (arith, pow-suc 2 i)) hp hq,
      )

pub or-Bitwise : Bitwise bit_or
or-Bitwise = record {
  bit = max;
  small = λ a b. omega arith;
  nothing = zero-bit_or 0;
  step = or_step;
}

pub and-Bitwise : Bitwise bit_and
and-Bitwise = record {
  bit = min;
  small = λ a b. omega arith;
  nothing = zero-bit_and 0;
  step = and_step;
}

pub xor-Bitwise : Bitwise bit_xor
xor-Bitwise = record {
  bit = differ;
  small = λ a b. omega (arith, differ-le (a % 2) (b % 2));
  nothing = zero-bit_xor 0;
  step = xor_step;
}

or_zero_fuel : (n a : ℕ) → a ≤ n → bit_or a 0 ≡ a
or_zero_fuel n zero h = zero-bit_or 0
or_zero_fuel zero (suc a) h = absurd (omega arith)
or_zero_fuel (suc n) (suc a) h =
    omega (arith, or_step (suc a) 0, or_zero_fuel n (suc a / 2) (omega arith))

or_low : (k r m : ℕ) → r < 2 ^ k → m + 1 ≡ 2 ^ k → bit_or r m ≡ m
or_low zero zero m h e = omega (arith, zero-bit_or m)
or_low zero (suc r) m h e = absurd (omega arith)
or_low (suc k) r m h e = omega (
  arith,
  or_step r m,
  or_low k (r / 2) (m / 2) (omega (arith, pow-suc 2 k)) (omega (arith, pow-suc 2 k)),
  pow-suc 2 k,
)

and_low : (k r m : ℕ) → r < 2 ^ k → m + 1 ≡ 2 ^ k → bit_and r m ≡ r
and_low zero zero m h e = omega (arith, zero-bit_and m)
and_low zero (suc r) m h e = absurd (omega arith)
and_low (suc k) r m h e = omega (
  arith,
  and_step r m,
  and_low k (r / 2) (m / 2) (omega (arith, pow-suc 2 k)) (omega (arith, pow-suc 2 k)),
  pow-suc 2 k,
)

-- A mask of `k` ones sets the low bits,
pub or_ones :
    (k r q m p : ℕ) → r < 2 ^ k → m + 1 ≡ 2 ^ k → p ≡ r + q * 2 ^ k → bit_or p m ≡ m + q * 2 ^ k
or_ones k r q m p h f e =
    let top : bit_or q 0 ≡ q = or_zero_fuel q q (omega arith) in
    omega (
      arith,
      Bitwise-split bit_or or-Bitwise k r q m 0 p m h (omega arith) e (omega arith),
      or_low k r m h f,
      ap (λ (t : ℕ). t * 2 ^ k) top,
    )

-- and keeps nothing else.
pub and_ones : (k r q m p : ℕ) → r < 2 ^ k → m + 1 ≡ 2 ^ k → p ≡ r + q * 2 ^ k → bit_and p m ≡ r
and_ones k r q m p h f e =
    let top : bit_and q 0 ≡ 0 = and_zero_fuel q q (omega arith) in
    omega (
      arith,
      Bitwise-split bit_and and-Bitwise k r q m 0 p m h (omega arith) e (omega arith),
      and_low k r m h f,
      ap (λ (t : ℕ). t * 2 ^ k) top,
    )
