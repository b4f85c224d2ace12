-- ===== src/Address/Words.antt =====
-- `byteswap` of a word of 32 bits and the operations on its bits.
use mnser.Common.{ℕ, ◌+◌, ◌*◌, ◌/◌, ◌%◌, ◌<◌, ◌≡◌, sym, arith}
use mnser.Common.Masks.{Bitwise, Bitwise-lt, Bitwise-split}
use mnser.ByteArray.Codec.{byteswap, le_bytes, le_value}

-- A word by its bytes, highest last.
word : ℕ → ℕ → ℕ → ℕ → ℕ
word a b c d = a + 256 * (b + 256 * (c + 256 * d))

-- The bytes of a word, turned round.
byteswap-word :
    (v : ℕ)
    → byteswap 4 v
      ≡ word (v / 256 / 256 / 256 % 256) (v / 256 / 256 % 256) (v / 256 % 256) (v % 256)
unfolding byteswap le_bytes le_value word
byteswap-word v = omega arith

module _ (op : ℕ → ℕ → ℕ) (o : Bitwise op) where
  op_byte :
      (x y u v : ℕ) → x < 256 → y < 256 → op (x + 256 * u) (y + 256 * v) ≡ op x y + 256 * op u v
  op_byte x y u v h k = omega (
    arith,
    Bitwise-split op o 8 x u y v (x + 256 * u) (y + 256 * v) (omega arith) (omega arith)
        (omega arith) (omega arith),
  )

  op_parts :
      (p q : ℕ) → (op p q % 256 ≡ op (p % 256) (q % 256)) × (op p q / 256 ≡ op (p / 256) (q / 256))
  op_parts p q =
      let below : op (p % 256) (q % 256) < 256 =
        omega (arith, Bitwise-lt op o 8 (p % 256) (q % 256) (omega arith) (omega arith)) in
      let whole : op p q ≡ op (p % 256) (q % 256) + 256 * op (p / 256) (q / 256) = omega (
        arith,
        Bitwise-split op o 8 (p % 256) (p / 256) (q % 256) (q / 256) p q (omega arith) (omega arith)
            (omega arith) (omega arith),
      ) in
      (omega arith, omega arith)

  op_word :
      (a b c d x y z w : ℕ)
      → a < 256
      → b < 256
      → c < 256
      → x < 256
      → y < 256
      → z < 256
      → op (word a b c d) (word x y z w) ≡ word (op a x) (op b y) (op c z) (op d w)
  unfolding word
  op_word a b c d x y z w ha hb hc hx hy hz = omega (
    arith,
    op_byte a x (b + 256 * (c + 256 * d)) (y + 256 * (z + 256 * w)) ha hx,
    op_byte b y (c + 256 * d) (z + 256 * w) hb hy,
    op_byte c z d w hc hz,
  )

  pub byteswap-op : (a b : ℕ) → byteswap 4 (op a b) ≡ op (byteswap 4 a) (byteswap 4 b)
  byteswap-op a b =
      let p0 = op_parts a b in
      let p1 = op_parts (a / 256) (b / 256) in
      let p2 = op_parts (a / 256 / 256) (b / 256 / 256) in
      let p3 = op_parts (a / 256 / 256 / 256) (b / 256 / 256 / 256) in
      rw
        (
          byteswap-word (op a b),
          byteswap-word a,
          byteswap-word b,
          p0.0,
          p0.1,
          p1.0,
          p1.1,
          p2.0,
          p2.1,
          p3.0,
        )
        (sym (
          op_word (a / 256 / 256 / 256 % 256) (a / 256 / 256 % 256) (a / 256 % 256) (a % 256)
            (b / 256 / 256 / 256 % 256) (b / 256 / 256 % 256) (b / 256 % 256) (b % 256)
            (omega arith) (omega arith) (omega arith) (omega arith) (omega arith) (omega arith)))
