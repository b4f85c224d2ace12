-- ===== src/Address/Counts.antt =====
-- The ones of a word, which give the length of a prefix from its mask.
use mnser.Common.{
  ℕ, zero, suc, ◌+◌, ◌-◌, ◌*◌, ◌/◌, ◌%◌, ◌^◌, ◌<◌, ◌≤◌, ◌≡◌, refl, ap, ◌∙◌, arith, some, ◌==◌, inl,
  inr, Bool-cases, bit_and, ==_iff,
}
use native.Mathlib.Nat.{pow-suc}
use mnser.Common.Bits.{and_step, zero-bit_and}
use mnser.Address.{count_loop, count_bytes}

-- How many of the lowest `w` bits are ones.
unfoldable pub ones : ℕ → ℕ → ℕ
ones zero v = 0
ones (suc w) v = v % 2 + ones w (v / 2)

and_self : (n a : ℕ) → a ≤ n → bit_and a a ≡ a
and_self n zero h = zero-bit_and 0
and_self zero (suc a) h = absurd (omega arith)
and_self (suc n) (suc a) h =
    omega (arith, and_step (suc a) (suc a), and_self n (suc a / 2) (omega arith))

ones_zero : (w : ℕ) → ones w 0 ≡ 0
unfolding ones
ones_zero zero = refl
ones_zero (suc w) = omega (arith, ones_zero w)

ones-le : (w v : ℕ) → ones w v ≤ w
unfolding ones
ones-le zero v = omega arith
ones-le (suc w) v = omega (arith, ones-le w (v / 2))

pred_odd : (v : ℕ) → v % 2 ≡ 1 → bit_and v (v - 1) ≡ v - 1
pred_odd v o =
    let half : (v - 1) / 2 ≡ v / 2 = omega arith in
    omega
      (arith, and_step v (v - 1), ap (bit_and (v / 2)) half, and_self (v / 2) (v / 2) (omega arith))

pred_even : (v : ℕ) → 0 < v → v % 2 ≡ 0 → bit_and v (v - 1) ≡ 2 * bit_and (v / 2) (v / 2 - 1)
pred_even v h o =
    let half : (v - 1) / 2 ≡ v / 2 - 1 = omega arith in
    omega (arith, and_step v (v - 1), ap (bit_and (v / 2)) half)

-- A round of the loop takes one of the ones.
one_less :
    (w v : ℕ)
    → 0 < v
    → v < 2 ^ w
    → (bit_and v (v - 1) < 2 ^ w) × (ones w (bit_and v (v - 1)) + 1 ≡ ones w v)
unfolding ones
one_less zero v h l = absurd (omega arith)
one_less (suc w) v h l = elim (Bool-cases (v % 2 == 1)) [
  | inl e ↦
      let o : v % 2 ≡ 1 = (==_iff (v % 2) 1).0 e in
      let half : bit_and v (v - 1) / 2 ≡ v / 2 = omega (arith, pred_odd v o) in
      (omega (arith, pred_odd v o), omega (arith, pred_odd v o, ap (ones w) half))
  | inr e ↦
      let o : v % 2 ≡ 0 = ground (arith, e) in
      let ih = one_less w (v / 2) (omega arith) (omega (arith, pow-suc 2 w)) in
      let half : bit_and v (v - 1) / 2 ≡ bit_and (v / 2) (v / 2 - 1) =
        omega (arith, pred_even v h o) in
      (
        omega (arith, pred_even v h o, ih.0, pow-suc 2 w),
        omega (arith, pred_even v h o, ap (ones w) half, ih.1),
      )
]

count_loop_lem :
    (fuel w v r : ℕ) → v < 2 ^ w → ones w v < fuel → count_loop fuel v r ≡ some (r + ones w v)
unfolding count_loop
count_loop_lem zero w v r l h = absurd (omega arith)
count_loop_lem (suc fuel) w v r l h = elim (Bool-cases (v == 0)) [
  | inl e ↦
      let z : v ≡ 0 = (==_iff v 0).0 e in rw e (ap some (omega (arith, ones_zero w, ap (ones w) z)))
  | inr e ↦
      let (below, less) = one_less w v (ground (arith, e)) l in
      rw e (
        count_loop_lem fuel w (bit_and v (v - 1)) (r + 1) below (omega (arith, less))
        ∙ ap some (omega (arith, less)))
]

-- `CountBytes` of a word of `w` bits ends within a round for each bit and one more, and counts the
-- bits that are ones.
pub count_bytes_lem : (w v : ℕ) → v < 2 ^ w → count_bytes w v ≡ some (ones w v)
unfolding count_bytes
count_bytes_lem w v l =
    let sum : 0 + ones w v ≡ ones w v = omega arith in
    count_loop_lem (w + 1) w v 0 l (omega (arith, ones-le w v)) ∙ ap some sum
