-- ===== src/ByteArray/Refine.antt =====
-- `write` against a file: a content and a position in it.
use mnser.Common.{ℕ, suc, ◌+◌, ◌%◌, ◌≤◌, ◌<◌, List, [], ◌∷◌, ◌++◌, ◌≡◌, refl}
use mnser.Common.{ap, sym, ◌∙◌, arith, length, take, drop, All, ltb, max}
use mnser.Common.{if◌then◌else◌, length-append, length-take, length-drop}
use mnser.Common.{All-append, All-take, All-drop}
use mnser.Common.{suc-ne-zero}
use mnser.Common.{ok}
use mnser.Common.Segments.{write_at, overwrite, overwrite-nil, write_at-append_right, take-write_at}
use mnser.ByteArray.{Node, ByteArray, add_capacity, copy_in, write}
use mnser.ByteArray.Blocks.{flat, flat-append, Block, Lands, write_nodes-Written}
use mnser.ByteArray.Valid.{
  Valid, contents, base-le-capacity, length-flat_capacity, Room, Grown, add_capacity-Grown,
}
use mnser.ByteArray.Cut.{Cut, cut, cur-lt, size-max, length-front}

-- A successful `write`: the array is well formed, the content is the old one overwritten from the
-- position on, and the position stands behind what was written.
pub record Wrote (a : ByteArray) (buf : List ℕ) (b : ByteArray) : Type 0 where
  pub valid : Valid b
  pub overwritten : contents b ≡ overwrite (contents a) a.position buf
  pub advanced : b.position ≡ a.position + length buf
  pub longer : b.size ≡ max a.size b.position
  pub same_base : b.base_size ≡ a.base_size
  pub same_endian : b.endian ≡ a.endian

abbrev pub copied : ByteArray → List ℕ → List Node → ℕ → ByteArray
copied g buf r k = record g {
  nodes = take g.cur g.nodes ++ r;
  cur = g.cur + k;
  position = g.position + length buf;
  size = if ltb g.size (g.position + length buf) then g.position + length buf else g.size;
}

pub copied-Wrote :
    (g : ByteArray) (buf : List ℕ) (r : List Node) (k : ℕ)
    → Valid g
    → g.position + length buf ≤ g.capacity
    → Cut g g.position
    → flat r ≡ write_at (flat (drop g.cur g.nodes)) (g.position % g.base_size) buf
    → All (Block g.base_size) r
    → length r ≡ length (drop g.cur g.nodes)
    → Lands g.base_size k (g.position % g.base_size + length buf)
    → Wrote g buf (copied g buf r k)
unfolding contents overwrite
copied-Wrote g buf r k v room c f hr l m = record {
  valid = record {
    positive = v.positive;
    addressable = v.addressable;
    blocks =
        All-append (Block g.base_size) (take g.cur g.nodes) r
          (All-take (Block g.base_size) g.cur g.nodes v.blocks) hr;
    allocated = rw count v.allocated;
    rooted = rw count v.rooted;
    lands = omega (arith, m, c.off_mod, c.front, length-front g g.position v c);
    inside = omega (arith, size-max g.size (g.position + length buf));
    held = omega (arith, size-max g.size (g.position + length buf), v.held);
  };
  overwritten =
      ap (take _) written
      ∙ take-write_at (flat g.nodes) g.size g.position (g.position + length buf) _ buf v.inside
          (omega (arith, length-flat_capacity g v, v.held)) refl
          (omega (arith, length-flat_capacity g v)) (size-max g.size (g.position + length buf));
  advanced = refl;
  longer = sym (size-max g.size (g.position + length buf));
  same_base = refl;
  same_endian = refl;
}
  where
    count : length (take g.cur g.nodes ++ r) ≡ length g.nodes
    count = omega (
      arith,
      length-append (take g.cur g.nodes) r,
      l,
      length-drop g.cur g.nodes,
      length-take g.cur g.nodes,
    )

    written : flat (take g.cur g.nodes ++ r) ≡ write_at (flat g.nodes) g.position buf
    written =
        flat-append (take g.cur g.nodes) r
        ∙ ap (◌++◌ (flat (take g.cur g.nodes))) f
        ∙ sym (
            write_at-append_right (flat (take g.cur g.nodes)) (flat (drop g.cur g.nodes)) g.position
              (g.position % g.base_size) buf (omega (arith, c.front, c.off_mod)))
        ∙ ap (λ t. write_at t g.position buf) (sym c.whole)

-- `write` behind `addCapacity`, where the room is there.
copy_in-Wrote :
    (g : ByteArray) (buf : List ℕ)
    → Valid g
    → 0 < length buf
    → g.position + length buf ≤ g.capacity
    → (b : ByteArray) × (copy_in g buf ≡ ok b) × Wrote g buf b
unfolding copy_in
copy_in-Wrote g buf v h room =
    let c = cut g g.position v v.lands (cur-lt g v (omega arith)) in
    let (r, k, e, f, hr, l, m) =
      write_nodes-Written g.base_size (drop g.cur g.nodes) (g.position % g.base_size) buf
        (omega (arith, base-le-capacity g v, v.addressable))
        (All-drop (Block g.base_size) g.cur g.nodes v.blocks) (omega (arith, c.off_mod, c.off-lt)) h
        (omega (arith, c.back, c.off_mod, v.lands, room, c.front, length-front g g.position v c)) in
    (copied g buf r k, rw e refl, copied-Wrote g buf r k v room c f hr l m)

-- A write behind `addCapacity` is one to the array before it.
pub Wrote-Grown :
    (a g b : ByteArray) (n : ℕ) (buf : List ℕ) → Grown a n g → Wrote g buf b → Wrote a buf b
Wrote-Grown a g b n buf grown w = record {
  valid = w.valid;
  overwritten =
      w.overwritten
      ∙ ap (λ t. overwrite t g.position buf) grown.same_contents
      ∙ ap (λ t. overwrite (contents a) t buf) grown.same_position;
  advanced = w.advanced ∙ ap (λ t. t + length buf) grown.same_position;
  longer = omega (arith, w.longer, grown.same_size);
  same_base = w.same_base ∙ grown.same_base;
  same_endian = w.same_endian ∙ grown.same_endian;
}

-- `write` succeeds where the memory suffices, keeps the array well formed, and overwrites the
-- content from the position on as a write to a file does; the position moves behind the bytes.
pub write-refines :
    (a : ByteArray) (buf : List ℕ)
    → Valid a
    → Room a (length buf)
    → (b : ByteArray) × (write a buf ≡ ok b) × Wrote a buf b
unfolding write
write-refines a [] v h = (
  a,
  refl,
  record {
    valid = v;
    overwritten = sym (overwrite-nil (contents a) a.position);
    advanced = omega arith;
    longer = omega (arith, v.inside);
    same_base = refl;
    same_endian = refl;
  },
)
write-refines a (x ∷ buf) v h =
    let g = add_capacity-Grown a (suc (length buf)) v h in
    let (b, e, w) =
      copy_in-Wrote (add_capacity a (suc (length buf))) (x ∷ buf) g.valid (omega arith) g.room in
    (
      b,
      rw (suc-ne-zero (length buf)) e,
      Wrote-Grown a (add_capacity a (suc (length buf))) b (suc (length buf)) (x ∷ buf) g w,
    )
