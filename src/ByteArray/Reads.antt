-- ===== src/ByteArray/Reads.antt =====
-- `read` and `setPosition` against a file: a content and a position in it.
use mnser.Common.{ℕ, zero, suc, ◌+◌, ◌%◌, ◌≤◌, ◌<◌, List, [], ◌∷◌, ◌≡◌, refl}
use mnser.Common.{ap, sym, ◌∙◌, arith, length, take, drop, sub_size, ltb, max}
use mnser.Common.{if◌then◌else◌}
use mnser.Common.{All-drop}
use mnser.Common.{le→ltb_false, lt→ltb}
use mnser.Common.{ok, err, out_of_range, assert_failed, undefined_behaviour}
use mnser.Common.Segments.{slice, slice-append_right, slice-take}
use mnser.ByteArray.{Node, ByteArray, read, read_at, read_nodes, set_position, get_read_size}
use mnser.ByteArray.Blocks.{flat, Block, Lands, read_nodes-Fetched, seek-Found}
use mnser.ByteArray.Valid.{Valid, contents, base-le-capacity}
use mnser.ByteArray.Cut.{cut, cur-lt, at_end, size-max, length-front}

-- A successful read changes the position only.
pub record Moved (a : ByteArray) (p : ℕ) (b : ByteArray) : Type 0 where
  pub valid : Valid b
  pub same_contents : contents b ≡ contents a
  pub moved : b.position ≡ p
  pub same_size : b.size ≡ a.size
  pub same_capacity : b.capacity ≡ a.capacity
  pub same_endian : b.endian ≡ a.endian

read_size_lem : (a : ByteArray) → Valid a → get_read_size a + a.position ≡ a.size
read_size_lem a v = omega (arith, v.inside, v.held, v.addressable)

-- What the loop fetches from the block of `m_cur`, for a position in that block.
fetch :
    (a : ByteArray) (p n : ℕ)
    → Valid a
    → Lands a.base_size a.cur p
    → a.cur < length a.nodes
    → p + n ≤ a.size
    → (k : ℕ) × (read_nodes (drop a.cur a.nodes) (p % a.base_size) n
        ≡ ok (slice (contents a) p n, k))
      × Lands a.base_size (a.cur + k) (p + n)
unfolding contents
fetch a p n v l here room =
    let c = cut a p v l here in
    let (k, e, m) =
      read_nodes-Fetched a.base_size (drop a.cur a.nodes) (p % a.base_size) n
        (omega (arith, base-le-capacity a v, v.addressable))
        (All-drop (Block a.base_size) a.cur a.nodes v.blocks) (omega (arith, c.off_mod, c.off-lt))
        c.back_pos (omega (arith, c.back, c.off_mod, c.front, length-front a p v c, v.held)) in
    let same : slice (flat (drop a.cur a.nodes)) (p % a.base_size) n
        ≡ slice (take a.size (flat a.nodes)) p n =
      sym (
        slice-append_right (flat (take a.cur a.nodes)) (flat (drop a.cur a.nodes)) p
          (p % a.base_size) n (omega (arith, c.front, c.off_mod)))
      ∙ ap (λ t. slice t p n) (sym c.whole)
      ∙ sym (slice-take (flat a.nodes) a.size p n room) in
    (k, e ∙ ap (λ t. ok (t, k)) same, omega (arith, m, c.off_mod, c.front, length-front a p v c))

-- Where `n` bytes are left, `read` returns the `n` bytes behind the position, changes nothing
-- that is held and moves the position behind them; only with the position at the end of the
-- blocks and nothing asked for does it not.
pub read-refines :
    (a : ByteArray) (n : ℕ)
    → Valid a
    → a.position + n ≤ a.size
    → a.position < a.capacity
    → (b : ByteArray) × (read a n ≡ ok (slice (contents a) a.position n, b))
      × Moved a (a.position + n) b
unfolding read
read-refines a n v room here =
    let (k, e, l) = fetch a a.position n v v.lands (cur-lt a v here) room in
    (
      record a { position = a.position + n; cur = a.cur + k },
      rw (le→ltb_false n (get_read_size a) (omega (arith, read_size_lem a v)), e) refl,
      record {
        valid = record {
          positive = v.positive;
          addressable = v.addressable;
          blocks = v.blocks;
          allocated = v.allocated;
          rooted = v.rooted;
          lands = l;
          inside = room;
          held = v.held;
        };
        same_contents = unfold contents in refl;
        moved = refl;
        same_size = refl;
        same_capacity = refl;
        same_endian = refl;
      },
    )

-- A read of more than is left fails the assertion, whatever the array holds.
pub read_short :
    (a : ByteArray) (n : ℕ) → Valid a → a.size < a.position + n → read a n ≡ err assert_failed
unfolding read
read_short a n v h = rw (lt→ltb (get_read_size a) n (omega (arith, read_size_lem a v))) refl

-- With all blocks filled up to the position, `m_cur` is null, and a read of no bytes follows it.
pub read_null :
    (a : ByteArray) → Valid a → a.position ≡ a.capacity → read a 0 ≡ err undefined_behaviour
unfolding read read_nodes
read_null a v h = rw (le→ltb_false 0 (get_read_size a) (omega arith), gone) refl
  where
    behind : (ns : List Node) (k : ℕ) → length ns ≤ k → drop k ns ≡ []
    behind [] zero h = refl
    behind [] (suc k) h = refl
    behind (n ∷ ns) zero h = absurd (omega arith)
    behind (n ∷ ns) (suc k) h = behind ns k (omega arith)

    gone : drop a.cur a.nodes ≡ []
    gone =
        behind a.nodes a.cur
          (at_end a.cur (length a.nodes) a.base_size (omega (arith, v.lands, v.allocated)))

-- `read` from a given position reads the content there, if that position lies in the block of
-- `m_cur`.
pub read_at-refines :
    (a : ByteArray) (p n : ℕ)
    → Valid a
    → Lands a.base_size a.cur p
    → p + n ≤ a.size
    → a.position < a.capacity
    → read_at a n p ≡ ok (slice (contents a) p n)
unfolding read_at
read_at-refines a p n v l room here =
    let (k, e, m) = fetch a p n v l (cur-lt a v here) room in
    rw (le→ltb_false n (sub_size a.size p) (omega (arith, v.held, v.addressable)), e) refl

pub record Sought (a : ByteArray) (p : ℕ) (b : ByteArray) : Type 0 where
  pub valid : Valid b
  pub moved : b.position ≡ p
  pub longer : b.size ≡ max a.size p
  pub prefix : take a.size (contents b) ≡ contents a
  pub same_endian : b.endian ≡ a.endian
  pub same_capacity : b.capacity ≡ a.capacity

-- `setPosition` within the capacity moves there, and the content grows where the new position
-- lies behind its end; nothing that was held changes.
pub set_position-refines :
    (a : ByteArray) (p : ℕ)
    → Valid a
    → p ≤ a.capacity
    → (b : ByteArray) × (set_position a p ≡ ok b) × Sought a p b
unfolding set_position contents
set_position-refines a p v h =
    let (k, e, l) =
      seek-Found a.base_size a.nodes p v.positive v.blocks v.rooted (omega (arith, v.allocated)) in
    (
      record a { position = p; size = if ltb a.size p then p else a.size; cur = k },
      rw (le→ltb_false p a.capacity h, e) refl,
      record {
        valid = record {
          positive = v.positive;
          addressable = v.addressable;
          blocks = v.blocks;
          allocated = v.allocated;
          rooted = v.rooted;
          lands = l;
          inside = omega (arith, size-max a.size p);
          held = omega (arith, size-max a.size p, v.held);
        };
        moved = refl;
        longer = sym (size-max a.size p);
        prefix = slice-take (flat a.nodes) _ 0 a.size (omega (arith, size-max a.size p));
        same_endian = refl;
        same_capacity = refl;
      },
    )

-- `setPosition` beyond the capacity throws `out_of_range`.
pub set_position_beyond :
    (a : ByteArray) (p : ℕ) → a.capacity < p → set_position a p ≡ err out_of_range
unfolding set_position
set_position_beyond a p h = rw (lt→ltb a.capacity p h) refl
