-- ===== src/ByteArray/Holds.antt =====
-- Readers as parsers: an array that holds given bytes from its position on.
use mnser.Common.{ℕ, ◌+◌, ◌≤◌, ◌<◌, List, [], ◌++◌, ◌≡◌, ap, sym, ◌∙◌, arith}
use mnser.Common.{length, length-append, Result, ok, append-nil}
use mnser.Common.Segments.{
  slice, slice-take, slice_front, slice-overwrite, overwrite, overwrite-overwrite,
}
use mnser.ByteArray.{ByteArray, read, set_position}
use mnser.ByteArray.Valid.{Valid, contents, length-contents}
use mnser.ByteArray.Refine.{Wrote}
use mnser.ByteArray.Reads.{read-refines, set_position-refines}

pub record Holds (a : ByteArray) (bytes : List ℕ) : Type 0 where
  pub valid : Valid a
  pub room : a.position + length bytes ≤ a.size
  pub there : slice (contents a) a.position (length bytes) ≡ bytes

-- What is read, and what then follows.
pub record Consumed (a b : ByteArray) (bytes rest : List ℕ) : Type 0 where
  pub holds : Holds b rest
  pub moved : b.position ≡ a.position + length bytes
  pub same_endian : b.endian ≡ a.endian
  pub same_capacity : b.capacity ≡ a.capacity

-- `read` takes the bytes that stand there, unless nothing is asked for at the end of the blocks.
pub read-Holds :
    (a : ByteArray) (bytes rest : List ℕ)
    → Holds a (bytes ++ rest)
    → a.position < a.capacity
    → (b : ByteArray) × (read a (length bytes) ≡ ok (bytes, b)) × Consumed a b bytes rest
read-Holds a bytes rest h here =
    let (front, back) =
      slice_front (contents a) bytes rest a.position _ (length-append bytes rest) h.there in
    let (b, e, m) =
      read-refines a (length bytes) h.valid (omega (arith, h.room, length-append bytes rest))
        here in
    (
      b,
      e ∙ ap (λ t. ok (t, b)) front,
      record {
        holds = record {
          valid = m.valid;
          room = omega (arith, h.room, length-append bytes rest, m.moved, m.same_size);
          there =
              ap (λ t. slice t b.position (length rest)) m.same_contents
              ∙ ap (λ t. slice (contents a) t (length rest)) m.moved
              ∙ back;
        };
        moved = m.moved;
        same_endian = m.same_endian;
        same_capacity = m.same_capacity;
      },
    )

-- Two writes, one behind the other.
pub Wrote-append :
    (a b c : ByteArray) (xs ys : List ℕ)
    → Valid a
    → Wrote a xs b
    → Wrote b ys c
    → Wrote a (xs ++ ys) c
Wrote-append a b c xs ys v w u = record {
  valid = u.valid;
  overwritten =
      u.overwritten
      ∙ ap (λ t. overwrite t b.position ys) w.overwritten
      ∙ overwrite-overwrite (contents a) xs ys a.position b.position
          (omega (arith, length-contents a v, v.inside)) w.advanced;
  advanced = omega (arith, u.advanced, w.advanced, length-append xs ys);
  longer = omega (arith, u.longer, w.longer, u.advanced);
  same_base = u.same_base ∙ w.same_base;
  same_endian = u.same_endian ∙ w.same_endian;
}

-- After a write, setting the position back finds what was written.
pub rewind-Holds :
    (a b : ByteArray) (bytes : List ℕ)
    → Valid a
    → Wrote a bytes b
    → (c : ByteArray) × (set_position b a.position ≡ ok c)
      × Holds c bytes
      × (c.position ≡ a.position)
      × (c.endian ≡ a.endian)
      × (c.capacity ≡ b.capacity)
rewind-Holds a b bytes v w =
    let (c, e, s) =
      set_position-refines b a.position w.valid
        (omega (arith, w.advanced, w.valid.inside, w.valid.held)) in
    (
      c,
      e,
      record {
        valid = s.valid;
        room = omega (arith, s.moved, s.longer, w.longer, w.advanced);
        there =
            ap (λ t. slice (contents c) t (length bytes)) s.moved
            ∙ sym (
                slice-take (contents c) b.size a.position (length bytes)
                  (omega (arith, w.longer, w.advanced)))
            ∙ ap (λ t. slice t a.position (length bytes)) (s.prefix ∙ w.overwritten)
            ∙ slice-overwrite (contents a) a.position bytes
                (omega (arith, length-contents a v, v.inside));
      },
      s.moved,
      s.same_endian ∙ w.same_endian,
      s.same_capacity,
    )

-- What is written at a position is read back from it, and the reader stops where the writer did.
abbrev pub RoundTrip {ℓ} :
    {A : Type ℓ} → ByteArray → Result ByteArray → (ByteArray → Result (A × ByteArray)) → A → Type ℓ
RoundTrip a written reader x =
    (b : ByteArray) × (c : ByteArray) × (d : ByteArray) × (written ≡ ok b)
    × (set_position b a.position ≡ ok c)
    × (reader c ≡ ok (x, d))
    × (d.position ≡ b.position)

pub round_trip {ℓ} :
    {A : Type ℓ} (a b : ByteArray) (bytes : List ℕ)
    → Valid a
    → Wrote a bytes b
    → (written : Result ByteArray) → written ≡ ok b
    → (reader : ByteArray → Result (A × ByteArray)) (x : A)
    → ((c : ByteArray)
        → Holds c (bytes ++ [])
        → c.endian ≡ a.endian
        → (d : ByteArray) × (reader c ≡ ok (x, d)) × Consumed c d bytes [])
    → RoundTrip a written reader x
round_trip a b bytes v w written e reader x parse =
    let (c, es, h, p, en, cp) = rewind-Holds a b bytes v w in
    let (d, er, k) = parse c (rw append-nil h) en in
    (b, c, d, e, es, er, omega (arith, k.moved, p, w.advanced))

-- Two parts, one behind the other.
pub Consumed-append :
    (a b c : ByteArray) (xs ys rest : List ℕ)
    → Consumed a b xs (ys ++ rest)
    → Consumed b c ys rest
    → Consumed a c (xs ++ ys) rest
Consumed-append a b c xs ys rest k l = record {
  holds = l.holds;
  moved = omega (arith, k.moved, l.moved, length-append xs ys);
  same_endian = l.same_endian ∙ k.same_endian;
  same_capacity = l.same_capacity ∙ k.same_capacity;
}
