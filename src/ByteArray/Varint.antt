-- ===== src/ByteArray/Varint.antt =====
-- The variable-length integers, seven bits to a byte.
use mnser.Common.{ℕ, zero, suc, ◌+◌, ◌*◌, ◌/◌, ◌%◌, ◌^◌, ◌≤◌, ◌<◌, List, [], ◌∷◌, ◌++◌, ◌≡◌, refl}
use mnser.Common.{ap, ◌∙◌, arith, length, ok, ◌>>=◌, Bool-cases, inl, inr}
use mnser.Common.{
  leb, leb→le, leb_false→lt, le→leb, le→ltb_false, lt→ltb, lt→leb_false, bit_or, bit_and,
}
use mnser.Common.Bits.{low_bits, set_top_bit, or_disjoint}
use native.Mathlib.Nat.{pow-suc, mod-eq_of_lt}
use native.Mathlib.Numerals.{towards_suc}
use mnser.ByteArray.{ByteArray, write}
use mnser.ByteArray.Codec.{
  le_value, read_fuint8, varint_bytes, varint_loop, write_uint32, write_uint64, read_uint32,
  read_uint64,
}
use mnser.ByteArray.Valid.{Valid, Room}
use mnser.ByteArray.Refine.{write-refines}
use mnser.ByteArray.Holds.{Holds, Consumed, read-Holds, RoundTrip, round_trip, Consumed-append}

group_byte : (v : ℕ) → bit_or (bit_and v 0x7f) 0x80 % 256 ≡ v % 128 + 128
group_byte v =
    ap (λ t. bit_or t 0x80 % 256) (low_bits v)
    ∙ ap (λ t. t % 256) (set_top_bit (v % 128) (omega arith))
    ∙ omega arith

-- The two rounds of the writer.
varint_bytes-last : (room v : ℕ) → v < 128 → varint_bytes (suc room) v ≡ ok (v ∷ [])
unfolding varint_bytes
varint_bytes-last room v h =
    let small : v % 256 ≡ v = omega arith in rw (lt→leb_false 128 v h, small) refl

varint_bytes-more :
    (room v : ℕ) (rest : List ℕ)
    → 128 ≤ v
    → varint_bytes room (v / 128) ≡ ok rest
    → varint_bytes (suc room) v ≡ ok ((v % 128 + 128) ∷ rest)
unfolding varint_bytes
varint_bytes-more room v rest h e = rw (le→leb 128 v h, e, group_byte v) refl

pub data Varint : ℕ → List ℕ → Type 0 where
  last : (v : ℕ) → v < 128 → Varint v (v ∷ [])
  more :
      (v : ℕ) (rest : List ℕ) → 128 ≤ v → Varint (v / 128) rest → Varint v ((v % 128 + 128) ∷ rest)

-- The array `tmp` is never overrun: `room` bytes hold a value below `128 ^ room`.
pub varint_bytes-Varint :
    (k v : ℕ)
    → v < 128 ^ suc k
    → (bs : List ℕ) × (varint_bytes (suc k) v ≡ ok bs)
      × Varint v bs
      × (0 < length bs)
      × (length bs ≤ suc k)
varint_bytes-Varint zero v h =
    let small : v < 128 = omega arith in
    (v ∷ [], varint_bytes-last zero v small, last v small, omega arith, omega arith)
varint_bytes-Varint (suc k) v h = elim (Bool-cases (leb 128 v)) [
  | inl big ↦
      let (bs, e, d, lo, hi) =
        varint_bytes-Varint k (v / 128) (omega (arith, pow-suc 128 (suc k))) in
      let large = leb→le 128 v big in
      (
        (v % 128 + 128) ∷ bs,
        varint_bytes-more (suc k) v bs large e,
        more v bs large d,
        omega arith,
        omega arith,
      )
  | inr few ↦
      let small = leb_false→lt 128 v few in
      (v ∷ [], varint_bytes-last (suc k) v small, last v small, omega arith, omega arith)
]

pub read_fuint8-Holds :
    (a : ByteArray) (x : ℕ) (rest : List ℕ)
    → Holds a (x ∷ rest)
    → (b : ByteArray) × (read_fuint8 a ≡ ok (x, b)) × Consumed a b (x ∷ []) rest
unfolding read_fuint8 le_value
read_fuint8-Holds a x rest h =
    let (b, e, c) = read-Holds a (x ∷ []) rest h (omega (arith, h.room, h.valid.held)) in
    let value : x + 256 * 0 ≡ x = omega arith in (b, rw (e, value) refl, c)

shift_seven : (s : ℕ) → 2 ^ (s + 7) ≡ 128 * 2 ^ s
shift_seven s = simp towards_suc (omega arith)

split_group : (v s : ℕ) → v * 2 ^ s ≡ v % 128 * 2 ^ s + v / 128 * 2 ^ (s + 7)
split_group v s =
    let parts : v ≡ v % 128 + 128 * (v / 128) = omega arith in
    omega (arith, ap (λ (t : ℕ). t * 2 ^ s) parts, ap (λ (t : ℕ). v / 128 * t) (shift_seven s))

-- `result |= g << i` on a word of `w` bits, where nothing is lost.
gather :
    (w i acc g : ℕ)
    → acc < 2 ^ i
    → acc + g * 2 ^ i < 2 ^ w
    → bit_or acc (g * 2 ^ i % 2 ^ w) ≡ acc + g * 2 ^ i
gather w i acc g h k = ap (bit_or acc) (mod-eq_of_lt (omega arith)) ∙ or_disjoint i acc g h

next_low : (g i acc : ℕ) → g < 128 → acc < 2 ^ i → acc + g * 2 ^ i < 2 ^ (i + 7)
next_low g i acc hg h =
    let scaled : g * 2 ^ i ≤ 127 * 2 ^ i = scale g (2 ^ i) (omega arith) in
    omega (arith, scaled, shift_seven i)
  where
    scale : (g m : ℕ) → g ≤ 127 → g * m ≤ 127 * m
    scale g m h = grind arith

-- The round that reads a byte with its top bit set.
varint_loop-more :
    (w rounds i acc g : ℕ) (a b : ByteArray)
    → g < 128
    → acc < 2 ^ i
    → acc + g * 2 ^ i < 2 ^ w
    → read_fuint8 a ≡ ok (g + 128, b)
    → varint_loop w (suc rounds) i acc a ≡ varint_loop w rounds (i + 7) (acc + g * 2 ^ i) b
unfolding varint_loop
varint_loop-more w rounds i acc g a b hg lo fits e =
    rw
      (
        e,
        le→ltb_false 128 (g + 128) (omega arith),
        low_bits (g + 128) ∙ masked,
        gather w i acc g lo fits,
      )
      refl
  where
    masked : (g + 128) % 128 ≡ g
    masked = omega arith

-- The reader's loop over the bytes of a varint adds the value to what it has, from bit `i` on.
pub varint_loop-Varint :
    (w rounds i acc v : ℕ) (a : ByteArray) (bs rest : List ℕ)
    → Varint v bs
    → length bs ≤ rounds
    → acc < 2 ^ i
    → acc + v * 2 ^ i < 2 ^ w
    → Holds a (bs ++ rest)
    → (b : ByteArray) × (varint_loop w rounds i acc a ≡ ok (acc + v * 2 ^ i, b))
      × Consumed a b bs rest
unfolding varint_loop
varint_loop-Varint w zero i acc v a _ rest (last _ small) n lo fits h = absurd (omega arith)
varint_loop-Varint w zero i acc v a _ rest (more _ bs large d) n lo fits h = absurd (omega arith)
varint_loop-Varint w (suc rounds) i acc v a _ rest (last _ small) n lo fits h =
    let (b, e, c) = read_fuint8-Holds a v rest h in
    (b, rw (e, lt→ltb v 128 small, gather w i acc v lo fits) refl, c)
varint_loop-Varint w (suc rounds) i acc v a _ rest (more _ bs large d) n lo fits h =
    let (b, e, c) = read_fuint8-Holds a (v % 128 + 128) (bs ++ rest) h in
    let (b', e', c') =
      varint_loop-Varint w rounds (i + 7) (acc + v % 128 * 2 ^ i) (v / 128) b bs rest d
        (omega arith) (next_low (v % 128) i acc (omega arith) lo)
        (omega (arith, fits, split_group v i)) c.holds in
    let total : acc + v % 128 * 2 ^ i + v / 128 * 2 ^ (i + 7) ≡ acc + v * 2 ^ i =
      omega (arith, split_group v i) in
    (
      b',
      varint_loop-more w rounds i acc (v % 128) a b (omega arith) lo
            (omega (arith, fits, split_group v i)) e
          ∙ e'
          ∙ ap (λ t. ok (t, b')) total,
      Consumed-append a b b' (_ ∷ []) bs rest c c',
    )

-- A writer whose bytes are the varint of the value, and the reader of that width.
varint_round :
    (w k v : ℕ) (a : ByteArray)
    → Valid a
    → Room a (suc k)
    → v < 128 ^ suc k
    → v < 2 ^ w
    → RoundTrip a (varint_bytes (suc k) v >>= write a) (varint_loop w (suc k) 0 0) v
varint_round w k v a va r hk hw =
    let (bs, e, d, lo, hi) = varint_bytes-Varint k v hk in
    let (b, eb, wr) = write-refines a bs va (omega (arith, r)) in
    let one : 0 + v * 2 ^ 0 ≡ v = omega arith in
    round_trip a b bs va wr _ (rw e eb) (varint_loop w (suc k) 0 0) v (λ c h en.
      rw (← one) (varint_loop-Varint w (suc k) 0 0 v c bs [] d hi (omega arith) (omega arith) h))

-- Every `uint32_t` is read back by `readUint32` as `writeUint32` wrote it, where the memory suffices
-- for five more bytes.
pub read_uint32-write_uint32 :
    (a : ByteArray) (v : ℕ)
    → Valid a
    → Room a 5
    → v < 2 ^ 32
    → RoundTrip a (write_uint32 a v) read_uint32 v
unfolding write_uint32 read_uint32
read_uint32-write_uint32 a v va r h = varint_round 32 4 v a va r (omega arith) h

-- Every `uint64_t` is read back by `readUint64` as `writeUint64` wrote it, where the memory suffices
-- for ten more bytes.
pub read_uint64-write_uint64 :
    (a : ByteArray) (v : ℕ)
    → Valid a
    → Room a 10
    → v < 2 ^ 64
    → RoundTrip a (write_uint64 a v) read_uint64 v
unfolding write_uint64 read_uint64
read_uint64-write_uint64 a v va r h = varint_round 64 9 v a va r (omega arith) h
