-- ===== src/SocketStream/Moving.antt =====
-- A read from a socket is a write to the array, and a write to a socket a read from it.
use mnser.Common.{
  ℕ, suc, ◌+◌, ◌-◌, ◌≤◌, ◌<◌, List, ◌∷◌, true, false, ok, Result, ◌>>=◌, length, drop,
}
use mnser.Common.{◌≡◌, refl, arith, length-take}
use mnser.Common.Segments.{slice}
use mnser.Stream.{ReturnCode, nonneg, minus, Received, no_bytes, bytes, Count, stopped, moved}
use mnser.ByteArray.{ByteArray, add_capacity, set_position}
use mnser.ByteArray.Valid.{Valid, contents, Room, add_capacity-Grown}
use mnser.ByteArray.Refine.{Wrote, Wrote-Grown}
use mnser.ByteArray.Reads.{Sought, set_position-refines}
use mnser.ByteArray.Buffers.{at_most}
use mnser.ByteArray.Segmented.{scattered-Wrote, write_buffers, get_read_buffers_lem}
use mnser.SocketStream

-- What a read does to the array, by what `recv` returned.
abbrev pub Taken : ByteArray → ByteArray → ReturnCode → Received → Type 0
Taken a b v (no_bytes n) =
    (v ≡ minus n) × Valid b × (contents b ≡ contents a) × (b.position ≡ a.position)
Taken a b v (bytes x xs) = (v ≡ nonneg (suc (length xs))) × Wrote a (x ∷ xs) b

-- `read` of a ByteArray that is well formed, where memory suffices, takes from a connected socket what its
-- `recv` returns: if that is not more bytes than were asked for, they are written to the array as `write`
-- writes them, and counted; if it failed, its value is returned and the array holds what it did,
-- at the same position. Without a connection it returns -1 and changes nothing.
pub read_lem :
    (rt : Received) (a : ByteArray) (len : ℕ)
    → Valid a
    → Room a len
    → 0 < len
    → ((b : ℕ) (bs : List ℕ) → rt ≡ bytes b bs → suc (length bs) ≤ len)
    → (SocketStream.read false rt a len ≡ ok (minus 1, a))
      × ((b : ByteArray) × (v : ReturnCode) × (SocketStream.read true rt a len ≡ ok (v, b))
          × Taken a b v rt)
unfolding SocketStream.read
read_lem (no_bytes n) a len v room h bound =
    let g = add_capacity-Grown a len v room in
    let (iovs, e, f) = write_buffers a len v room h in
    (
      refl,
      (add_capacity a len, minus n, rw e refl, (refl, g.valid, g.same_contents, g.same_position)),
    )
read_lem (bytes x xs) a len v room h bound =
    let g = add_capacity-Grown a len v room in
    let (iovs, e, f) = write_buffers a len v room h in
    let (b, e', w) =
      scattered-Wrote (add_capacity a len) len iovs (x ∷ xs) g.valid (omega arith) (bound x xs refl)
        g.room f in
    (
      refl,
      (
        b,
        nonneg (suc (length xs)),
        rw (e, e') refl,
        (refl, Wrote-Grown a (add_capacity a len) b len (x ∷ xs) g w),
      ),
    )

-- What a write does to the array, by what `send` returned.
abbrev pub Given : ByteArray → ByteArray → ReturnCode → Count → Type 0
Given a b v (stopped n) = (v ≡ minus n) × (b ≡ a)
Given a b v (moved k) = (v ≡ nonneg (suc k)) × Sought a (a.position + suc k) b × (b.size ≡ a.size)

abbrev buffer : ByteArray → ℕ → List ℕ
buffer a want = slice (contents a) a.position (at_most want (a.size - a.position))

at_most-le : (want n : ℕ) → at_most want n ≤ n
at_most-le want n = ground arith

sends :
    (a : ByteArray) (o : Count)
    → Valid a
    → ((k : ℕ) → o ≡ moved k → a.position + suc k ≤ a.size)
    → (b : ByteArray) × (v : ReturnCode) × ((elim o as (λ x. Result (ReturnCode × ByteArray)) [
      | stopped n ↦ ok (minus n, a)
      | moved n ↦ set_position a (a.position + suc n) >>= λ c. ok (nonneg (suc n), c)
    ])
        ≡ ok (v, b))
      × Given a b v o
sends a (stopped n) v few = (a, minus n, refl, (refl, refl))
sends a (moved k) v few =
    let (b, e, w) =
      set_position-refines a (a.position + suc k) v (omega (arith, few k refl, v.held)) in
    (b, nonneg (suc k), rw e refl, (refl, w, omega (arith, w.longer, few k refl)))

-- `write` of a well-formed ByteArray gives to the `send` of a connected socket the bytes behind the
-- position, as many as were asked for and are there; the position moves behind those that were sent,
-- and nothing that is held changes. If `send` fails its value is returned. Without a connection the
-- result is -1 and nothing changes. The condition is that `send` never sends more than it is given.
pub write_lem :
    (send : List ℕ → Count) (a : ByteArray) (want : ℕ)
    → Valid a
    → ((buf : List ℕ) (k : ℕ) → send buf ≡ moved k → suc k ≤ length buf)
    → (SocketStream.write false send a want ≡ ok (minus 1, a))
      × ((b : ByteArray) × (v : ReturnCode) × (SocketStream.write true send a want ≡ ok (v, b))
          × Given a b v (send (slice (contents a) a.position (at_most want (a.size - a.position)))))
unfolding SocketStream.write
write_lem send a want v law =
    let (iovs, e, g) = get_read_buffers_lem a want v in
    (refl, rw (e, g) (sends a (send (buffer a want)) v (λ k h. few k h)))
  where
    few : (k : ℕ) → send (buffer a want) ≡ moved k → a.position + suc k ≤ a.size
    few k h = omega (
      arith,
      law (buffer a want) k h,
      length-take (at_most want (a.size - a.position)) (drop a.position (contents a)),
      at_most-le want (a.size - a.position),
      v.inside,
    )
