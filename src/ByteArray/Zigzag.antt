-- ===== src/ByteArray/Zigzag.antt =====
-- Signed integers as varints: small magnitudes become small unsigned numbers.
use mnser.Common.{ℕ, suc, ◌+◌, ◌-◌, ◌*◌, ◌/◌, ◌%◌, ◌^◌, ◌≤◌, ◌<◌, ◌≡◌, refl, ap, ◌∙◌, arith}
use mnser.Common.{leb, le→leb, lt→leb_false, bit_and, Bool-cases, inl, inr}
use mnser.Common.{leb→le, leb_false→lt}
use mnser.Common.Bits.{xor_zero, xor_ones, and_one}
use native.Mathlib.Nat.{pow-suc, mod-eq_of_lt, add-mod_right}
use mnser.ByteArray.{ByteArray}
use mnser.ByteArray.Codec.{
  encode_zigzag, decode_zigzag, write_int32, write_int64, read_int32, read_int64,
}
use mnser.ByteArray.Valid.{Valid, Room}
use mnser.ByteArray.Holds.{RoundTrip}
use mnser.ByteArray.Varint.{read_uint32-write_uint32, read_uint64-write_uint64}

-- `v` below `2 ^ k` is not negative and becomes the even number `2 v`; a pattern `v` from `2 ^ k`
-- on stands for `v - 2 ^ (k + 1)` and becomes the odd number below twice its magnitude.
pub encode_zigzag-nonneg : (k v : ℕ) → v < 2 ^ k → encode_zigzag (suc k) v ≡ 2 * v
unfolding encode_zigzag
encode_zigzag-nonneg k v h =
    let p : 2 ^ suc k ≡ 2 ^ k * 2 = pow-suc 2 k in
    let s : suc k - 1 ≡ k = omega arith in
    rw (s, lt→leb_false (2 ^ k) v h) (xor_zero _ ∙ mod-eq_of_lt (omega (arith, p)) ∙ omega arith)

wrapped : (x m : ℕ) → m ≤ x → x < m + m → x % m ≡ x - m
wrapped x m h l =
    let e : x ≡ x - m + m = omega arith in
    ap (λ t. t % m) e ∙ add-mod_right (x - m) m ∙ mod-eq_of_lt (omega arith)

pub encode_zigzag-negative :
    (k v : ℕ)
    → 2 ^ k ≤ v
    → v < 2 ^ suc k
    → encode_zigzag (suc k) v + 2 * v + 1 ≡ 2 ^ suc k + 2 ^ suc k
unfolding encode_zigzag
encode_zigzag-negative k v h l =
    let p : 2 ^ suc k ≡ 2 ^ k * 2 = pow-suc 2 k in
    let s : suc k - 1 ≡ k = omega arith in
    let doubled : v * 2 % 2 ^ suc k ≡ v * 2 - 2 ^ suc k =
      wrapped (v * 2) (2 ^ suc k) (omega (arith, p)) (omega (arith, p)) in
    rw (s, le→leb (2 ^ k) v h, doubled)
      (omega (
        arith,
        p,
        xor_ones (suc k) (v * 2 - 2 ^ suc k) (2 ^ suc k - 1) (omega (arith, p)) (omega (arith, p)),
      ))

decode_even : (k n : ℕ) → n < 2 ^ k → decode_zigzag (suc k) (2 * n) ≡ n
unfolding decode_zigzag
decode_even k n h =
    let p : 2 ^ suc k ≡ 2 ^ k * 2 = pow-suc 2 k in
    let half : 2 * n / 2 ≡ n = omega arith in
    let bit : bit_and (2 * n) 1 ≡ 0 = and_one (2 * n) ∙ omega arith in
    let none : (2 ^ suc k - 0) % 2 ^ suc k ≡ 0 =
      wrapped (2 ^ suc k - 0) (2 ^ suc k) (omega arith) (omega (arith, p)) ∙ omega arith in
    rw (half, bit, none) (xor_zero n)

decode_odd : (k n m : ℕ) → n < 2 ^ k → m ≡ 2 * n + 1 → decode_zigzag (suc k) m + n + 1 ≡ 2 ^ suc k
unfolding decode_zigzag
decode_odd k n m h e =
    let p : 2 ^ suc k ≡ 2 ^ k * 2 = pow-suc 2 k in
    let half : m / 2 ≡ n = omega arith in
    let bit : bit_and m 1 ≡ 1 = and_one m ∙ omega arith in
    let ones : (2 ^ suc k - 1) % 2 ^ suc k ≡ 2 ^ suc k - 1 = mod-eq_of_lt (omega (arith, p)) in
    rw (half, bit, ones)
      (omega (arith, p, xor_ones (suc k) n (2 ^ suc k - 1) (omega (arith, p)) (omega (arith, p))))

encode_zigzag-lt : (k v : ℕ) → v < 2 ^ suc k → encode_zigzag (suc k) v < 2 ^ suc k
encode_zigzag-lt k v h = elim (Bool-cases (leb (2 ^ k) v)) [
  | inl neg ↦ omega (
    arith,
    pow-suc 2 k,
    encode_zigzag-negative k v (leb→le (2 ^ k) v neg) h,
    leb→le (2 ^ k) v neg,
  )
  | inr non ↦ omega (
    arith,
    pow-suc 2 k,
    encode_zigzag-nonneg k v (leb_false→lt (2 ^ k) v non),
    leb_false→lt (2 ^ k) v non,
  )
]

-- `DecodeZigzag*` undoes `EncodeZigzag*` on every word of the width.
pub decode_zigzag-encode_zigzag :
    (k v : ℕ) → v < 2 ^ suc k → decode_zigzag (suc k) (encode_zigzag (suc k) v) ≡ v
decode_zigzag-encode_zigzag k v h = elim (Bool-cases (leb (2 ^ k) v)) [
  | inl neg ↦
      let low = leb→le (2 ^ k) v neg in
      let p = pow-suc 2 k in
      let e = encode_zigzag-negative k v low h in
      omega (
        arith,
        p,
        low,
        decode_odd k (2 ^ suc k - v - 1) (encode_zigzag (suc k) v) (omega (arith, p, low))
            (omega (arith, p, e, low)),
      )
  | inr non ↦
      let low = leb_false→lt (2 ^ k) v non in
      ap (decode_zigzag (suc k)) (encode_zigzag-nonneg k v low) ∙ decode_even k v low
]

-- Every `int32_t` (as its bit pattern) is read back by `readInt32` as `writeInt32` wrote it, where
-- the memory suffices for five more bytes.
pub read_int32-write_int32 :
    (a : ByteArray) (v : ℕ)
    → Valid a
    → Room a 5
    → v < 2 ^ 32
    → RoundTrip a (write_int32 a v) read_int32 v
unfolding write_int32 read_int32
read_int32-write_int32 a v va r h =
    let (b, c, d, e, f, g, m) =
      read_uint32-write_uint32 a (encode_zigzag 32 v) va r (encode_zigzag-lt 31 v h) in
    (b, c, d, e, f, rw (g, decode_zigzag-encode_zigzag 31 v h) refl, m)

-- The same for `int64_t` and ten bytes.
pub read_int64-write_int64 :
    (a : ByteArray) (v : ℕ)
    → Valid a
    → Room a 10
    → v < 2 ^ 64
    → RoundTrip a (write_int64 a v) read_int64 v
unfolding write_int64 read_int64
read_int64-write_int64 a v va r h =
    let (b, c, d, e, f, g, m) =
      read_uint64-write_uint64 a (encode_zigzag 64 v) va r (encode_zigzag-lt 63 v h) in
    (b, c, d, e, f, rw (g, decode_zigzag-encode_zigzag 63 v h) refl, m)
