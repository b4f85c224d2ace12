-- ===== src/ByteArray/Blocks.antt =====
-- The loops over the list of blocks, seen as reads and writes of one flat memory.
use mnser.Common.{ℕ, zero, suc, ◌+◌, ◌-◌, ◌*◌, ◌≤◌, ◌<◌, ◌^◌, List, [], ◌∷◌, ◌++◌, ◌≡◌, refl, ap}
use mnser.Common.{arith, length, take, drop, All, sub_size, leb, ltb, ◌==◌, if◌then◌else◌}
use mnser.Common.{
  append_assoc, length-append, length-drop, Bool-cases, inl, inr, suc-ne-zero, leb→le, le→leb,
  le→ltb_false, leb_false→lt, ltb→lt, sym, ◌∙◌, true, false,
}
use mnser.Common.{ok}
use mnser.Common.Segments.{
  write_at, slice, length-write_at, write_at-append_left, write_at-append_split, slice-append_left,
  slice-append_split,
}
use mnser.ByteArray.{Node, write_nodes, read_nodes, seek}

-- The bytes of all blocks, one after the other.
abbrev pub flat : List Node → List ℕ
flat [] = []
flat (n ∷ ns) = n.ptr ++ flat ns

-- A block of `base` bytes.
abbrev pub Block : ℕ → Node → Type 0
Block base n = (n.size ≡ base) × (length n.ptr ≡ base)

pub length-flat :
    (base : ℕ) (ns : List Node) → All (Block base) ns → length (flat ns) ≡ length ns * base
length-flat base [] h = omega arith
length-flat base (n ∷ ns) h = omega (arith, length-append n.ptr (flat ns), length-flat base ns h.1)

pub flat-append : (ms ns : List Node) → flat (ms ++ ns) ≡ flat ms ++ flat ns
flat-append [] ns = refl
flat-append (m ∷ ms) ns = rw (flat-append ms ns, append_assoc)

-- `k` blocks lie before the position `p`.
abbrev pub Lands : ℕ → ℕ → ℕ → Type 0
Lands base k p = (k * base ≤ p) × (p < k * base + base)

abbrev pub Written : ℕ → List Node → ℕ → List ℕ → Type 0
Written base ns npos buf =
    (r : List Node) × (k : ℕ) × (write_nodes ns npos buf ≡ ok (r, k))
    × (flat r ≡ write_at (flat ns) npos buf)
    × All (Block base) r
    × (length r ≡ length ns)
    × Lands base k (npos + length buf)

-- The round that ends the loop, and the round that fills a block and goes on.
write_last :
    (base : ℕ) (n : Node) (ns : List Node) (npos : ℕ) (buf : List ℕ)
    → All (Block base) (n ∷ ns)
    → npos < base
    → 0 < length buf
    → leb (length buf) (sub_size n.size npos) ≡ true
    → npos + length buf ≤ base
    → Written base (n ∷ ns) npos buf
unfolding write_nodes
write_last base n ns npos buf h hp hl fits hf = (
  record n { ptr = write_at n.ptr npos buf } ∷ ns,
  if n.size == npos + length buf then 1 else 0,
  rw fits refl,
  sym (write_at-append_left n.ptr (flat ns) npos buf (omega arith)),
  ((h.0.0, length-write_at n.ptr npos buf ∙ h.0.1), h.1),
  refl,
  ground arith,
)

write_more :
    (base ncap : ℕ) (n : Node) (ns : List Node) (npos : ℕ) (buf : List ℕ)
    → ncap ≡ sub_size n.size npos
    → All (Block base) (n ∷ ns)
    → npos + ncap ≡ base
    → leb (length buf) ncap ≡ false
    → Written base ns 0 (drop ncap buf)
    → Written base (n ∷ ns) npos buf
unfolding write_nodes
write_more base ncap n ns npos buf hcap h hp more (r, k, e, f, hr, l, m) = (
  record n { ptr = write_at n.ptr npos (take ncap buf) } ∷ r,
  suc k,
  rw (← hcap, more, e) refl,
  rw f (sym (write_at-append_split n.ptr (flat ns) npos ncap buf (omega arith) (ground arith))),
  ((h.0.0, length-write_at n.ptr npos (take ncap buf) ∙ h.0.1), hr),
  ap suc l,
  omega (arith, m, length-drop ncap buf, leb_false→lt (length buf) ncap more),
)

-- Where the bytes fit into the blocks, the loop of `write` ends without a fault, and the flat
-- memory afterwards is the old one overwritten at the offset.
pub write_nodes-Written :
    (base : ℕ) (ns : List Node) (npos : ℕ) (buf : List ℕ)
    → base < 2 ^ 64
    → All (Block base) ns
    → npos < base
    → 0 < length buf
    → npos + length buf ≤ length (flat ns)
    → Written base ns npos buf
write_nodes-Written base [] npos buf hb h hp hl hf = absurd (omega arith)
write_nodes-Written base (n ∷ ns) npos buf hb h hp hl hf =
    let ncap = sub_size n.size npos in
    let room : npos + ncap ≡ base = omega (arith, h.0.0) in
    elim (Bool-cases (leb (length buf) ncap)) [
      | inl fits ↦
          write_last base n ns npos buf h hp hl fits
            (omega (arith, room, leb→le (length buf) ncap fits))
      | inr more ↦
          let longer : ncap < length buf = leb_false→lt (length buf) ncap more in
          write_more base ncap n ns npos buf refl h room more (
            write_nodes-Written base ns 0 (drop ncap buf) hb h.1 (omega arith)
              (omega (arith, longer, length-drop ncap buf))
              (omega
                (arith, longer, room, h.0.1, length-drop ncap buf, length-append n.ptr (flat ns))))
    ]

abbrev pub Fetched : ℕ → List Node → ℕ → ℕ → Type 0
Fetched base ns npos size =
    (k : ℕ) × (read_nodes ns npos size ≡ ok (slice (flat ns) npos size, k))
    × Lands base k (npos + size)

read_last :
    (base : ℕ) (n : Node) (ns : List Node) (npos size : ℕ)
    → All (Block base) (n ∷ ns)
    → npos < base
    → leb size (sub_size n.size npos) ≡ true
    → npos + size ≤ base
    → Fetched base (n ∷ ns) npos size
unfolding read_nodes
read_last base n ns npos zero h hp fits hf = (0, refl, omega arith)
read_last base n ns npos (suc size) h hp fits hf = (
  if n.size == npos + suc size then 1 else 0,
  rw (suc-ne-zero size, fits, slice-append_left n.ptr (flat ns) npos (suc size) (omega arith)) refl,
  ground arith,
)

read_more :
    (base ncap : ℕ) (n : Node) (ns : List Node) (npos size : ℕ)
    → ncap ≡ sub_size n.size npos
    → All (Block base) (n ∷ ns)
    → npos + ncap ≡ base
    → leb size ncap ≡ false
    → Fetched base ns 0 (size - ncap)
    → Fetched base (n ∷ ns) npos size
unfolding read_nodes
read_more base ncap n ns npos zero hcap h hp more ih =
    absurd (omega (arith, leb_false→lt 0 ncap more))
read_more base ncap n ns npos (suc size) hcap h hp more (k, e, m) = (
  suc k,
  rw
      (
        suc-ne-zero size,
        ← hcap,
        more,
        e,
        slice-append_split n.ptr (flat ns) npos ncap (suc size) (suc size - ncap) (omega arith)
            (omega (arith, leb_false→lt (suc size) ncap more)),
      )
      refl,
  omega (arith, m, leb_false→lt (suc size) ncap more),
)

-- The loop of `read` fetches the slice of the flat memory, if there is a block to start from.
pub read_nodes-Fetched :
    (base : ℕ) (ns : List Node) (npos size : ℕ)
    → base < 2 ^ 64
    → All (Block base) ns
    → npos < base
    → 0 < length ns
    → npos + size ≤ length (flat ns)
    → Fetched base ns npos size
read_nodes-Fetched base [] npos size hb h hp hl hf = absurd (omega arith)
read_nodes-Fetched base (n ∷ []) npos size hb h hp hl hf =
    let room : npos + size ≤ base = omega (arith, h.0.1, length-append n.ptr []) in
    read_last base n [] npos size h hp (le→leb _ _ (omega arith)) room
read_nodes-Fetched base (n ∷ m ∷ ns) npos size hb h hp hl hf =
    let ncap = sub_size n.size npos in
    let room : npos + ncap ≡ base = omega (arith, h.0.0) in
    elim (Bool-cases (leb size ncap)) [
      | inl fits ↦
          read_last base n (m ∷ ns) npos size h hp fits (omega (arith, room, leb→le size ncap fits))
      | inr more ↦
          let longer : ncap < size = leb_false→lt size ncap more in
          read_more base ncap n (m ∷ ns) npos size refl h room more (
            read_nodes-Fetched base (m ∷ ns) 0 (size - ncap) hb h.1 (omega arith) (omega arith)
              (omega (arith, longer, room, h.0.1, length-append n.ptr (flat (m ∷ ns)))))
    ]

abbrev pub Found : ℕ → List Node → ℕ → Type 0
Found base ns v = (k : ℕ) × (seek ns v ≡ ok k) × Lands base k v

-- `setPosition` stops at the block that the position lies in.
pub seek-Found :
    (base : ℕ) (ns : List Node) (v : ℕ)
    → 0 < base
    → All (Block base) ns
    → 0 < length ns
    → v ≤ length ns * base
    → Found base ns v
unfolding seek
seek-Found base [] v hb h hl hv = absurd (omega arith)
seek-Found base (n ∷ []) v hb h hl hv = (
  if v == n.size then 1 else 0,
  rw (le→ltb_false v n.size (omega (arith, h.0.0))) refl,
  ground arith,
)
seek-Found base (n ∷ m ∷ ns) v hb h hl hv = elim (Bool-cases (ltb n.size v)) [
  | inl past ↦
      let far : base < v = omega (arith, ltb→lt n.size v past, h.0.0) in
      let (k, e, l) =
        seek-Found base (m ∷ ns) (v - n.size) hb h.1 (omega arith) (omega (arith, h.0.0)) in
      (suc k, rw (past, e) refl, omega (arith, l, far, h.0.0))
  | inr here ↦ (if v == n.size then 1 else 0, rw here refl, ground (arith, h.0.0))
]
