-- ===== src/ByteArray/Valid.antt =====
-- The invariant of a ByteArray, what it holds as a file, and the calls that only arrange blocks.
use mnser.Common.{ℕ, zero, suc, ◌+◌, ◌-◌, ◌*◌, ◌%◌, ◌≤◌, ◌<◌, ◌^◌, List, [], ◌++◌, ◌≡◌, refl}
use mnser.Common.{ap, ◌∙◌, arith, length, take, replicate, All, leb, ◌==◌}
use mnser.Common.{length-append, length-take, All-append, All-take, Bool-cases, inl, inr}
use mnser.Common.{false, ==_iff, leb→le, leb_false→lt}
use mnser.Common.Segments.{slice-append_left}
use mnser.ByteArray.{
  Node, ByteArray, fresh_block, new_node, create, clear, add_capacity, blocks_for, get_capacity,
}
use mnser.ByteArray.Blocks.{flat, flat-append, length-flat, Block, Lands}
use native.Mathlib.Nat.{div-add-mod', mul-add-mod_self_right, mod-eq_of_lt}

pub record Valid (a : ByteArray) : Type 0 where
  pub positive : 0 < a.base_size
  pub addressable : a.capacity < 2 ^ 64
  pub blocks : All (Block a.base_size) a.nodes
  pub allocated : length a.nodes * a.base_size ≡ a.capacity
  pub rooted : 0 < length a.nodes
  pub lands : Lands a.base_size a.cur a.position
  pub inside : a.position ≤ a.size
  pub held : a.size ≤ a.capacity

-- What the array holds: the first `size` bytes of its blocks.
unfoldable pub contents : ByteArray → List ℕ
contents a = take a.size (flat a.nodes)

pub mul_cancel : (k m base : ℕ) → k * base < m * base → k < m
mul_cancel k m base h = grind arith

pub base-le-capacity : (a : ByteArray) → Valid a → a.base_size ≤ a.capacity
base-le-capacity a v = go a.base_size (length a.nodes) a.capacity v.allocated v.rooted
  where
    go : (b n c : ℕ) → n * b ≡ c → 0 < n → b ≤ c
    go b zero c e h = absurd (omega arith)
    go b (suc n) c e h = omega arith

pub length-flat_capacity : (a : ByteArray) → Valid a → length (flat a.nodes) ≡ a.capacity
length-flat_capacity a v = length-flat a.base_size a.nodes v.blocks ∙ v.allocated

-- The offset into the block of `m_cur`.
pub Lands-mod :
    (base k p off : ℕ)
    → 0 < base
    → Lands base k p
    → p ≡ k * base + off
    → (p % base ≡ off) × (off < base)
Lands-mod base k p off hb l e =
    let small : off < base = omega arith in
    (ap (λ t. t % base) e ∙ mul-add-mod_self_right k base off ∙ mod-eq_of_lt small, small)

length-fresh_block : (g : ℕ → ℕ) (n : ℕ) → length (fresh_block g n) ≡ n
unfolding fresh_block
length-fresh_block g zero = refl
length-fresh_block g (suc n) = ap suc (length-fresh_block g n)

new_node-Block : (g : ℕ → ℕ) (base : ℕ) → Block base (new_node g base)
unfolding new_node
new_node-Block g base = (refl, length-fresh_block g base)

-- A new array is well formed and empty.
pub create-Valid :
    (g : ℕ → ℕ) (base : ℕ)
    → 0 < base
    → base < 2 ^ 64
    → Valid (create g base) × (contents (create g base) ≡ [])
unfolding create contents new_node
create-Valid g base h k = (
  record {
    positive = h;
    addressable = k;
    blocks = ((refl, length-fresh_block g base), tt);
    allocated = omega arith;
    rooted = omega arith;
    lands = (omega arith, omega arith);
    inside = omega arith;
    held = omega arith;
  },
  refl,
)

-- `clear` leaves a well-formed empty array of one block, at position 0.
pub clear-Valid :
    (a : ByteArray)
    → Valid a
    → Valid (clear a) × (contents (clear a) ≡ []) × ((clear a).position ≡ 0)
unfolding clear contents
clear-Valid a v = (
  record {
    positive = v.positive;
    addressable = omega (arith, v.addressable, base-le-capacity a v);
    blocks = All-take (Block a.base_size) 1 a.nodes v.blocks;
    allocated = rw one (omega arith);
    rooted = rw one (omega arith);
    lands = (omega arith, omega (arith, v.positive));
    inside = omega arith;
    held = omega arith;
  },
  refl,
  refl,
)
  where
    one : length (take 1 a.nodes) ≡ 1
    one = length-take 1 a.nodes ∙ omega (arith, v.rooted)

pub blocks_for_lem :
    (size base : ℕ)
    → 0 < base
    → (size ≤ blocks_for size base * base) × (blocks_for size base * base < size + base)
blocks_for_lem size base h =
    let e = div-add-mod' (size + base - 1) base in
    let l : (size + base - 1) % base < base = omega arith in
    (omega (arith, e, l), omega (arith, e, l))

length-replicate {ℓ} : {A : Type ℓ} (n : ℕ) (a : A) → length (replicate n a) ≡ n
length-replicate zero a = refl
length-replicate (suc n) a = ap suc (length-replicate n a)

All-replicate {ℓ κ} : {A : Type ℓ} (P : A → Type κ) (n : ℕ) (a : A) → P a → All P (replicate n a)
All-replicate P zero a h = tt
All-replicate P (suc n) a h = (h, All-replicate P n a h)

-- The position and `n` more bytes, rounded up to blocks, are addressable.
abbrev pub Room : ByteArray → ℕ → Type 0
Room a n = a.position + n + a.base_size ≤ 2 ^ 64

pub record Grown (a : ByteArray) (n : ℕ) (b : ByteArray) : Type 0 where
  pub valid : Valid b
  pub room : b.position + n ≤ b.capacity
  pub same_contents : contents b ≡ contents a
  pub same_position : b.position ≡ a.position
  pub same_size : b.size ≡ a.size
  pub same_base : b.base_size ≡ a.base_size
  pub same_endian : b.endian ≡ a.endian
  pub same_garbage : b.garbage ≡ a.garbage

Grown-refl : (a : ByteArray) (n : ℕ) → Valid a → a.position + n ≤ a.capacity → Grown a n a
Grown-refl a n v h = record {
  valid = v;
  room = h;
  same_contents = refl;
  same_position = refl;
  same_size = refl;
  same_base = refl;
  same_endian = refl;
  same_garbage = refl;
}

add_capacity_grows :
    (a : ByteArray) (n : ℕ)
    → Valid a
    → Room a n
    → (n == 0) ≡ false
    → leb n (get_capacity a) ≡ false
    → Grown a n (add_capacity a n)
unfolding add_capacity contents
add_capacity_grows a n v r pos more =
    rw (pos, more)
      (record {
        valid = record {
          positive = v.positive;
          addressable = omega (arith, count_lem, short, old, r);
          blocks =
              All-append (Block a.base_size) a.nodes _ v.blocks
                (All-replicate (Block a.base_size) count _ (new_node-Block a.garbage a.base_size));
          allocated = rw longer (omega (arith, v.allocated));
          rooted = rw longer (omega (arith, v.rooted));
          lands = ground (arith, old, v.lands, v.allocated, v.inside, v.held, v.positive);
          inside = v.inside;
          held = omega (arith, v.held);
        };
        room = omega (arith, count_lem, short, old);
        same_contents = rw (flat-append a.nodes added) (
            slice-append_left (flat a.nodes) (flat added) 0 a.size
              (omega (arith, length-flat_capacity a v, v.held)));
        same_position = refl;
        same_size = refl;
        same_base = refl;
        same_endian = refl;
        same_garbage = refl;
      })
  where
    old : get_capacity a + a.position ≡ a.capacity
    old = omega (arith, v.inside, v.held, v.addressable)

    short : get_capacity a < n
    short = leb_false→lt n (get_capacity a) more

    count : ℕ
    count = blocks_for (n - get_capacity a) a.base_size

    added : List Node
    added = replicate count (new_node a.garbage a.base_size)

    count_lem :
        (n - get_capacity a ≤ count * a.base_size)
        × (count * a.base_size < n - get_capacity a + a.base_size)
    count_lem = blocks_for_lem (n - get_capacity a) a.base_size v.positive

    longer : length (a.nodes ++ added) ≡ length a.nodes + count
    longer = length-append a.nodes added ∙ ap (λ t. length a.nodes + t) (length-replicate count _)

-- `addCapacity` makes room for `n` bytes behind the position and changes nothing that is held.
pub add_capacity-Grown : (a : ByteArray) (n : ℕ) → Valid a → Room a n → Grown a n (add_capacity a n)
unfolding add_capacity
add_capacity-Grown a n v r = elim (Bool-cases (n == 0)) [
  | inl none ↦ rw none (Grown-refl a n v (omega (arith, (==_iff n 0).0 none, v.inside, v.held)))
  | inr some ↦ elim (Bool-cases (leb n (get_capacity a))) [
    | inl fits ↦
        rw (some, fits)
          (Grown-refl a n v
            (omega (arith, leb→le n (get_capacity a) fits, v.inside, v.held, v.addressable)))
    | inr more ↦ add_capacity_grows a n v r some more
  ]
]

pub length-contents : (a : ByteArray) → Valid a → length (contents a) ≡ a.size
unfolding contents
length-contents a v =
    length-take a.size (flat a.nodes) ∙ omega (arith, length-flat_capacity a v, v.held)
