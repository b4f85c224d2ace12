-- ===== src/ByteArray/Strings.antt =====
-- Strings behind their length.
use mnser.Common.{ℕ, ◌+◌, ◌*◌, ◌^◌, ◌≤◌, ◌<◌, List, [], ◌∷◌, ◌++◌, ◌≡◌, ap, ◌∙◌}
use mnser.Common.{arith, length, append_assoc, append-nil, ok, err, undefined_behaviour}
use native.Mathlib.Nat.{mod-eq_of_lt, one-le-pow}
use mnser.ByteArray.Reads.{read_null}
use mnser.ByteArray.{ByteArray, write, read}
use mnser.ByteArray.Codec.{
  write_fixed, read_fixed, write_uint64, read_uint64, write_string_fixed, read_string_fixed,
  write_string_vint, read_string_vint,
}
use mnser.ByteArray.Valid.{Valid, Room}
use mnser.ByteArray.Refine.{Wrote, write-refines}
use mnser.ByteArray.Holds.{
  Holds, Consumed, read-Holds, RoundTrip, round_trip, Wrote-append, Consumed-append,
}
use mnser.ByteArray.Fixed.{wire, write_fixed-wire, read_fixed-Holds, length-le_bytes}
use mnser.ByteArray.Varint.{Varint, varint_bytes-Varint, varint_loop-Varint}

-- Reading the text behind the length: the text is not empty, so `m_cur` is not null.
text-Holds :
    (b : ByteArray) (x : ℕ) (text rest : List ℕ)
    → Holds b ((x ∷ text) ++ rest)
    → (c : ByteArray) × (read b (length (x ∷ text)) ≡ ok (x ∷ text, c))
      × Consumed b c (x ∷ text) rest
text-Holds b x text rest h = read-Holds b (x ∷ text) rest h (omega (arith, h.room, h.valid.held))

write_string_steps :
    (w : ℕ) (a b c : ByteArray) (s : List ℕ)
    → length s < 256 ^ w
    → write_fixed w a (length s) ≡ ok b
    → write b s ≡ ok c
    → write_string_fixed w a s ≡ ok c
unfolding write_string_fixed
write_string_steps w a b c s h e f = rw (mod-eq_of_lt h, e) f

read_string_steps :
    (w : ℕ) (a b c : ByteArray) (s : List ℕ)
    → read_fixed w a ≡ ok (length s, b)
    → read b (length s) ≡ ok (s, c)
    → read_string_fixed w a ≡ ok (s, c)
unfolding read_string_fixed
read_string_steps w a b c s e f = rw e f

read_string-Holds :
    (w : ℕ) (a : ByteArray) (x : ℕ) (text : List ℕ)
    → 0 < w
    → length (x ∷ text) < 256 ^ w
    → Holds a (wire a.endian w (length (x ∷ text)) ++ ((x ∷ text) ++ []))
    → (c : ByteArray) × (read_string_fixed w a ≡ ok (x ∷ text, c))
      × Consumed a c (wire a.endian w (length (x ∷ text)) ++ (x ∷ text)) []
read_string-Holds w a x text hw hl h =
    let (b, e, k) = read_fixed-Holds w a (length (x ∷ text)) _ hw hl h in
    let (c, f, l) = text-Holds b x text [] k.holds in
    (c, read_string_steps w a b c (x ∷ text) e f, Consumed-append a b c _ (x ∷ text) [] k l)

-- A string that is not empty and whose length fits the length field is read back as it was
-- written, by `readStringF16`, `readStringF32` and `readStringF64`.
pub read_string-write_string :
    (w : ℕ) (a : ByteArray) (x : ℕ) (text : List ℕ)
    → Valid a
    → Room a (w + length (x ∷ text))
    → 0 < w
    → length (x ∷ text) < 256 ^ w
    → RoundTrip a (write_string_fixed w a (x ∷ text)) (read_string_fixed w) (x ∷ text)
read_string-write_string w a x text va r hw hl =
    let head = wire a.endian w (length (x ∷ text)) in
    let (b, eb, wb, _, _) = write_fixed-wire w a (length (x ∷ text)) va (omega arith) in
    let (c, ec, wc) =
      write-refines b (x ∷ text) wb.valid
        (omega (arith, r, wb.advanced, wb.same_base, length-le_bytes w _)) in
    round_trip a c (head ++ (x ∷ text)) va (Wrote-append a b c head (x ∷ text) va wb wc) _
      (write_string_steps w a b c (x ∷ text) hl eb ec) (read_string_fixed w) (x ∷ text)
      (λ d h en. parse d en (rw append_assoc at h))
  where
    parse :
        (d : ByteArray)
        → d.endian ≡ a.endian
        → Holds d (wire a.endian w (length (x ∷ text)) ++ ((x ∷ text) ++ []))
        → (e : ByteArray) × (read_string_fixed w d ≡ ok (x ∷ text, e))
          × Consumed d e (wire a.endian w (length (x ∷ text)) ++ (x ∷ text)) []
    parse d en h = rw (← en) (read_string-Holds w d x text hw hl (rw (← en) at h))

-- An empty string whose length field ends where the blocks end: the reader follows a null
-- pointer, for each width of the field.
pub read_string_empty :
    (w : ℕ) (a : ByteArray)
    → 0 < w
    → Holds a (wire a.endian w 0)
    → a.position + w ≡ a.capacity
    → read_string_fixed w a ≡ err undefined_behaviour
unfolding read_string_fixed
read_string_empty w a hw h full =
    let (b, e, k) = read_fixed-Holds w a 0 [] hw zero_fits (rw append-nil h) in
    rw e (
      read_null b k.holds.valid
        (omega (arith, full, k.moved, k.same_capacity, length-le_bytes w _)))
  where
    zero_fits : 0 < 256 ^ w
    zero_fits = one-le-pow w 256 (omega arith)

write_vint_steps :
    (a b c : ByteArray) (s : List ℕ)
    → write_uint64 a (length s) ≡ ok b
    → write b s ≡ ok c
    → write_string_vint a s ≡ ok c
unfolding write_string_vint
write_vint_steps a b c s e f = rw e f

read_vint_steps :
    (a b c : ByteArray) (s : List ℕ)
    → read_uint64 a ≡ ok (length s, b)
    → read b (length s) ≡ ok (s, c)
    → read_string_vint a ≡ ok (s, c)
unfolding read_string_vint
read_vint_steps a b c s e f = rw e f

-- The bytes of a 64-bit varint, written and read.
write_uint64-Varint :
    (a : ByteArray) (v : ℕ)
    → Valid a
    → Room a 10
    → v < 2 ^ 64
    → (bs : List ℕ) × (b : ByteArray) × (write_uint64 a v ≡ ok b)
      × Wrote a bs b
      × Varint v bs
      × (0 < length bs)
      × (length bs ≤ 10)
unfolding write_uint64
write_uint64-Varint a v va r h =
    let (bs, e, d, lo, hi) = varint_bytes-Varint 9 v (omega arith) in
    let (b, eb, wr) = write-refines a bs va (omega (arith, r)) in (bs, b, rw e eb, wr, d, lo, hi)

read_uint64-Holds :
    (a : ByteArray) (v : ℕ) (bs rest : List ℕ)
    → Varint v bs
    → length bs ≤ 10
    → v < 2 ^ 64
    → Holds a (bs ++ rest)
    → (b : ByteArray) × (read_uint64 a ≡ ok (v, b)) × Consumed a b bs rest
unfolding read_uint64
read_uint64-Holds a v bs rest d n h k =
    let one : 0 + v * 2 ^ 0 ≡ v = omega arith in
    let (b, e, c) = varint_loop-Varint 64 10 0 0 v a bs rest d n (omega arith) (omega arith) k in
    (b, e ∙ ap (λ t. ok (t, b)) one, c)

-- A string that is not empty is read back as `writeStringVint` wrote it.
pub read_vint-write_vint :
    (a : ByteArray) (x : ℕ) (text : List ℕ)
    → Valid a
    → Room a (10 + length (x ∷ text))
    → length (x ∷ text) < 2 ^ 64
    → RoundTrip a (write_string_vint a (x ∷ text)) read_string_vint (x ∷ text)
read_vint-write_vint a x text va r hl =
    let (bs, b, eb, wb, d, lo, hi) =
      write_uint64-Varint a (length (x ∷ text)) va (omega arith) hl in
    let (c, ec, wc) =
      write-refines b (x ∷ text) wb.valid (omega (arith, r, wb.advanced, wb.same_base, hi)) in
    round_trip a c (bs ++ (x ∷ text)) va (Wrote-append a b c bs (x ∷ text) va wb wc) _
      (write_vint_steps a b c (x ∷ text) eb ec) read_string_vint (x ∷ text)
      (λ e h en. parse e bs d hi (rw append_assoc at h))
  where
    parse :
        (e : ByteArray) (bs : List ℕ)
        → Varint (length (x ∷ text)) bs
        → length bs ≤ 10
        → Holds e (bs ++ ((x ∷ text) ++ []))
        → (f : ByteArray) × (read_string_vint e ≡ ok (x ∷ text, f))
          × Consumed e f (bs ++ (x ∷ text)) []
    parse e bs d hi h =
        let (f, er, k) = read_uint64-Holds e (length (x ∷ text)) bs _ d hi hl h in
        let (g, et, l) = text-Holds f x text [] k.holds in
        (g, read_vint_steps e f g (x ∷ text) er et, Consumed-append e f g bs (x ∷ text) [] k l)
