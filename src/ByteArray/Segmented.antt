-- ===== src/ByteArray/Segmented.antt =====
-- The segments of a well-formed array, and the content.
use mnser.Common.{
  ℕ, ◌+◌, ◌-◌, ◌*◌, ◌%◌, ◌≤◌, ◌<◌, List, [], ◌++◌, false, ok, length, take, drop, ltb, ◌==◌,
  if◌then◌else◌, All,
}
use mnser.Common.{
  ◌≡◌, refl, ap, sym, ◌∙◌, arith, Bool-cases, inl, inr, ==_iff, take-append-drop, All-append,
  All-take, length-take, length-drop, length-append, le→ltb_false, All-drop,
}
use mnser.Common.Segments.{slice, slice-take, slice-append_right}
use mnser.ByteArray.{Node, ByteArray, add_capacity, set_position, get_read_size}
use mnser.ByteArray.Blocks.{flat, Block, Lands, seek-Found}
use mnser.ByteArray.Valid.{Valid, contents, base-le-capacity, Room, add_capacity-Grown}
use mnser.ByteArray.Cut.{cut, cur-lt, length-front, at_end}
use mnser.ByteArray.Refine.{Wrote, copied, copied-Wrote}
use mnser.ByteArray.Buffers.{
  Iovec, fill, get_read_buffers, get_write_buffers, gather, scatter, at_most,
}
use mnser.ByteArray.Scatter.{Filled, fill-Filled}

-- The segments from the position on.
segments :
    (g : ByteArray) (len : ℕ)
    → Valid g
    → 0 < len
    → g.position + len ≤ g.capacity
    → (iovs : List Iovec) × (fill (drop g.cur g.nodes) g.cur (g.position % g.base_size) len
        ≡ ok iovs)
      × Filled g.base_size g.cur (drop g.cur g.nodes) (g.position % g.base_size) len iovs
segments g len v h room =
    let c = cut g g.position v v.lands (cur-lt g v (omega arith)) in
    fill-Filled g.base_size g.cur (drop g.cur g.nodes) (g.position % g.base_size) len
      (omega (arith, base-le-capacity g v, v.addressable))
      (All-drop (Block g.base_size) g.cur g.nodes v.blocks) (omega (arith, c.off_mod, c.off-lt)) h
      (omega (arith, c.back, c.off_mod, v.lands, room, c.front, length-front g g.position v c))

front-length :
    (g : ByteArray) → Valid g → g.position < g.capacity → length (take g.cur g.nodes) ≡ g.cur
front-length g v h = length-take g.cur g.nodes ∙ omega (arith, cur-lt g v h)

mul_split : (a b base : ℕ) → (a + b) * base ≡ a * base + b * base
mul_split a b base = grind arith

abbrev moved_to : ByteArray → List ℕ → List Node → ℕ → ByteArray
moved_to g buf r k = record g {
  nodes = take g.cur g.nodes ++ r;
  cur = k;
  position = g.position + length buf;
  size = if ltb g.size (g.position + length buf) then g.position + length buf else g.size;
}

-- `setPosition` over the blocks that were filled ends where `write` would.
moves_on :
    (g : ByteArray) (buf : List ℕ) (r : List Node)
    → Valid g
    → 0 < length buf
    → g.position + length buf ≤ g.capacity
    → All (Block g.base_size) r
    → length r ≡ length (drop g.cur g.nodes)
    → (k : ℕ) × (set_position
          (record g { nodes = take g.cur g.nodes ++ r })
          (g.position + length buf)
        ≡ ok (copied g buf r k))
      × Lands g.base_size k (g.position % g.base_size + length buf)
unfolding set_position
moves_on g buf r v h room hr l =
    let c = cut g g.position v v.lands (cur-lt g v (omega arith)) in
    let count : length (take g.cur g.nodes ++ r) ≡ length g.nodes = omega (
      arith,
      length-append (take g.cur g.nodes) r,
      l,
      length-drop g.cur g.nodes,
      length-take g.cur g.nodes,
    ) in
    let (k, e, m) =
      seek-Found g.base_size (take g.cur g.nodes ++ r) (g.position + length buf) v.positive
        (All-append (Block g.base_size) (take g.cur g.nodes) r
          (All-take (Block g.base_size) g.cur g.nodes v.blocks) hr)
        (rw count v.rooted) (rw count (omega (arith, v.allocated, room))) in
    let later : g.cur ≤ k = at_end k g.cur g.base_size (omega (arith, m, v.lands)) in
    let at : k ≡ g.cur + (k - g.cur) = omega arith in
    (
      k - g.cur,
      rw (le→ltb_false (g.position + length buf) g.capacity room, e)
          (ap (λ j. ok (moved_to g buf r j)) at),
      omega (
        arith,
        m,
        mul_split g.cur (k - g.cur) g.base_size,
        ap (λ t. t * g.base_size) at,
        c.front,
        c.off_mod,
        length-front g g.position v c,
      ),
    )

pub scattered-Wrote :
    (g : ByteArray) (len : ℕ) (iovs : List Iovec) (buf : List ℕ)
    → Valid g
    → 0 < length buf
    → length buf ≤ len
    → g.position + len ≤ g.capacity
    → Filled g.base_size g.cur (drop g.cur g.nodes) (g.position % g.base_size) len iovs
    → (b : ByteArray) × (set_position
          (record g { nodes = scatter g.nodes iovs buf })
          (g.position + length buf)
        ≡ ok b)
      × Wrote g buf b
scattered-Wrote g len iovs buf v h short room f =
    let (r, e, fl, all, l) =
      f.takes (take g.cur g.nodes) buf (front-length g v (omega arith)) short in
    let (k, e', m) = moves_on g buf r v h (omega arith) all l in
    (
      copied g buf r k,
      ap (λ x. set_position (record g { nodes = x }) (g.position + length buf))
            (ap (λ x. scatter x iovs buf) (sym (take-append-drop g.cur g.nodes)) ∙ e)
          ∙ e',
      copied-Wrote g buf r k v (omega arith) (cut g g.position v v.lands (cur-lt g v (omega arith)))
          fl all l m,
    )

pub write_buffers :
    (a : ByteArray) (len : ℕ)
    → Valid a
    → Room a len
    → 0 < len
    → let g = add_capacity a len in
      (iovs : List Iovec) × (get_write_buffers a len ≡ ok (iovs, g))
      × Filled g.base_size g.cur (drop g.cur g.nodes) (g.position % g.base_size) len iovs
unfolding get_write_buffers
write_buffers a len v room h =
    let g = add_capacity-Grown a len v room in
    let (iovs, e, f) = segments (add_capacity a len) len g.valid h g.room in
    let some_len : (len == 0) ≡ false = ground arith in (iovs, rw (some_len, e) refl, f)

left_lem : (a : ByteArray) → Valid a → get_read_size a ≡ a.size - a.position
left_lem a v = omega (arith, v.inside, v.held, v.addressable)

-- `getReadBuffers` of a well-formed array gives segments that hold what `read` would return: the
-- bytes behind the position, as many as were asked for and are there; it returns how many these are.
pub get_read_buffers_lem :
    (a : ByteArray) (want : ℕ)
    → Valid a
    → (iovs : List Iovec) × (get_read_buffers a want
        ≡ ok (iovs, at_most want (a.size - a.position)))
      × (gather a.nodes iovs ≡ slice (contents a) a.position (at_most want (a.size - a.position)))
unfolding get_read_buffers
get_read_buffers_lem a want v = elim (Bool-cases (at_most want (a.size - a.position) == 0)) [
  | inl nothing ↦
      let zero_len : at_most want (a.size - a.position) ≡ 0 = (==_iff _ 0).0 nothing in
      (
        [],
        rw (left_lem a v, zero_len) refl,
        ap (λ n. slice (contents a) a.position n) (sym zero_len),
      )
  | inr some ↦
      let n = at_most want (a.size - a.position) in
      let room : a.position + n ≤ a.size = ground (arith, v.inside) in
      let pos : 0 < n = ground (arith) in
      let c = cut a a.position v v.lands (cur-lt a v (omega (arith, v.held))) in
      let (iovs, e, f) = segments a n v pos (omega (arith, v.held)) in
      (
        iovs,
        rw (left_lem a v, some, e) refl,
        ap (λ x. gather x iovs) (sym (take-append-drop a.cur a.nodes))
            ∙ f.holds (take a.cur a.nodes) (front-length a v (omega (arith, v.held)))
            ∙ sym (
                slice-append_right (flat (take a.cur a.nodes)) (flat (drop a.cur a.nodes))
                  a.position (a.position % a.base_size) n (omega (arith, c.front, c.off_mod)))
            ∙ ap (λ t. slice t a.position n) (sym c.whole)
            ∙ unfold contents in sym (slice-take (flat a.nodes) a.size a.position n room),
      )
]
