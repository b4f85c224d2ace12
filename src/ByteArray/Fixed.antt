-- ===== src/ByteArray/Fixed.antt =====
-- Integers of a fixed width: byte order, and what the readers make of what the writers wrote.
use mnser.Common.{ℕ, zero, suc, ◌+◌, ◌*◌, ◌/◌, ◌%◌, ◌^◌, ◌<◌, List, [], ◌∷◌, ◌++◌, ◌≡◌, refl}
use mnser.Common.{ap, sym, ◌∙◌, arith, reverse, length, length-append, length-reverse}
use mnser.Common.{All, All-append, ok}
use mathlib.Core.List.{reverse-cons, reverse-reverse}
use native.Mathlib.Nat.{pow-suc}
use mnser.ByteArray.{ByteArray, Endian, little, big}
use mnser.ByteArray.Codec.{le_bytes, le_value, byteswap, ordered, write_fixed, read_fixed}
use mnser.ByteArray.Valid.{Valid, Room}
use mnser.ByteArray.Refine.{Wrote, write-refines}
use mnser.ByteArray.Holds.{Holds, Consumed, read-Holds, RoundTrip, round_trip}

abbrev pub IsByte : ℕ → Type 0
IsByte b = b < 256

pub length-le_bytes : (w v : ℕ) → length (le_bytes w v) ≡ w
unfolding le_bytes
length-le_bytes zero v = refl
length-le_bytes (suc w) v = ap suc (length-le_bytes w (v / 256))

le_bytes-IsByte : (w v : ℕ) → All IsByte (le_bytes w v)
unfolding le_bytes
le_bytes-IsByte zero v = tt
le_bytes-IsByte (suc w) v = (omega arith, le_bytes-IsByte w (v / 256))

pub le_value-le_bytes : (w v : ℕ) → v < 256 ^ w → le_value (le_bytes w v) ≡ v
unfolding le_bytes le_value
le_value-le_bytes zero v h = omega arith
le_value-le_bytes (suc w) v h =
    omega (arith, le_value-le_bytes w (v / 256) (omega (arith, pow-suc 256 w)))

le_value-lt : (bs : List ℕ) → All IsByte bs → le_value bs < 256 ^ length bs
unfolding le_value
le_value-lt [] h = omega arith
le_value-lt (b ∷ bs) h = omega (arith, le_value-lt bs h.1, pow-suc 256 (length bs))

le_bytes-le_value : (bs : List ℕ) → All IsByte bs → le_bytes (length bs) (le_value bs) ≡ bs
unfolding le_bytes le_value
le_bytes-le_value [] h = refl
le_bytes-le_value (b ∷ bs) h =
    let low : (b + 256 * le_value bs) % 256 ≡ b = omega arith in
    let high : (b + 256 * le_value bs) / 256 ≡ le_value bs = omega arith in
    rw (low, high, le_bytes-le_value bs h.1)

All-reverse : (bs : List ℕ) → All IsByte bs → All IsByte (reverse bs)
All-reverse [] h = tt
All-reverse (b ∷ bs) h =
    rw (reverse-cons b bs) (All-append IsByte (reverse bs) (b ∷ []) (All-reverse bs h.1) (h.0, tt))

-- `byteswap` turns the bytes of an integer round.
pub le_bytes-byteswap : (w v : ℕ) → le_bytes w (byteswap w v) ≡ reverse (le_bytes w v)
unfolding byteswap
le_bytes-byteswap w v =
    ap (λ t. le_bytes t (le_value (reverse (le_bytes w v)))) (sym turned)
    ∙ le_bytes-le_value (reverse (le_bytes w v)) (All-reverse _ (le_bytes-IsByte w v))
  where
    turned : length (reverse (le_bytes w v)) ≡ w
    turned = length-reverse (le_bytes w v) ∙ length-le_bytes w v

byteswap-lt : (w v : ℕ) → byteswap w v < 256 ^ w
unfolding byteswap
byteswap-lt w v =
    rw (length-reverse (le_bytes w v) ∙ length-le_bytes w v) at
      (le_value-lt (reverse (le_bytes w v)) (All-reverse _ (le_bytes-IsByte w v)))

-- Twice is not at all, on integers of that width.
pub byteswap_twice : (w v : ℕ) → v < 256 ^ w → byteswap w (byteswap w v) ≡ v
byteswap_twice w v h =
    unfold byteswap in
    (ap (λ t. le_value (reverse t)) (le_bytes-byteswap w v)
      ∙ ap le_value (reverse-reverse (le_bytes w v))
      ∙ le_value-le_bytes w v h)

pub ordered_twice : (e : Endian) (w v : ℕ) → v < 256 ^ w → ordered e w (ordered e w v) ≡ v
unfolding ordered
ordered_twice little w v h = refl
ordered_twice big w v h = byteswap_twice w v h

ordered-lt : (e : Endian) (w v : ℕ) → v < 256 ^ w → ordered e w v < 256 ^ w
unfolding ordered
ordered-lt little w v h = h
ordered-lt big w v h = byteswap-lt w v

-- The bytes that stand for `v` in an array of byte order `e`.
abbrev pub wire : Endian → ℕ → ℕ → List ℕ
wire e w v = le_bytes w (ordered e w v)

-- `writeFint*` and `writeFuint*` write the bytes of the integer: lowest first in a little-endian
-- array, and highest first, the order of the network, in a big-endian one.
pub write_fixed-wire :
    (w : ℕ) (a : ByteArray) (v : ℕ)
    → Valid a
    → Room a w
    → (b : ByteArray) × (write_fixed w a v ≡ ok b)
      × Wrote a (wire a.endian w v) b
      × (wire little w v ≡ le_bytes w v)
      × (wire big w v ≡ reverse (le_bytes w v))
unfolding write_fixed
write_fixed-wire w a v va r =
    let (b, e, wr) =
      write-refines a (wire a.endian w v) va
        (omega (arith, r, length-le_bytes w (ordered a.endian w v))) in
    (b, e, wr, unfold ordered in refl, unfold ordered in le_bytes-byteswap w v)

pub read_fixed-Holds :
    (w : ℕ) (a : ByteArray) (v : ℕ) (rest : List ℕ)
    → 0 < w
    → v < 256 ^ w
    → Holds a (wire a.endian w v ++ rest)
    → (b : ByteArray) × (read_fixed w a ≡ ok (v, b)) × Consumed a b (wire a.endian w v) rest
unfolding read_fixed
read_fixed-Holds w a v rest hw hv h =
    let n = length-le_bytes w (ordered a.endian w v) in
    let (b, e, c) =
      read-Holds a (wire a.endian w v) rest h
        (omega (arith, h.room, h.valid.held, length-append (wire a.endian w v) rest, n)) in
    let value : ordered a.endian w (le_value (wire a.endian w v)) ≡ v =
      ap (ordered a.endian w) (le_value-le_bytes w _ (ordered-lt a.endian w v hv))
      ∙ ordered_twice a.endian w v hv in
    (b, rw (rw n at e, value) refl, c)

-- An integer of two, four or eight bytes is read back as it was written, in either byte order.
pub read_fixed-write_fixed :
    (w : ℕ) (a : ByteArray) (v : ℕ)
    → Valid a
    → Room a w
    → 0 < w
    → v < 256 ^ w
    → RoundTrip a (write_fixed w a v) (read_fixed w) v
read_fixed-write_fixed w a v va r hw hv =
    let (b, e, wr, _, _) = write_fixed-wire w a v va r in
    round_trip a b (wire a.endian w v) va wr _ e (read_fixed w) v
      (λ c h en. rw (← en) (read_fixed-Holds w c v [] hw hv (rw (← en) at h)))
