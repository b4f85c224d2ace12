-- ===== src/ByteArray.antt =====
-- src/bytearray.cpp and inc/bytearray.h: the blocks, the position, and the calls that move bytes.
-- The linked list of blocks is the list `nodes` from `m_root` on; `m_cur` is the index `cur` into
-- it, and the null pointer is the index behind the last block. A byte is a number below 256.
-- Positions count bytes of allocated memory, so their sums stay below 2 ^ 64; differences wrap.
pub mod Blocks
pub mod Valid
pub mod Cut
pub mod Refine
pub mod Reads
pub mod Codec
pub mod Holds
pub mod Fixed
pub mod Varint
pub mod Zigzag
pub mod Strings
pub mod Buffers
pub mod Scatter
pub mod Segmented
mod Tests
use mnser.Common.{ℕ, zero, suc, ◌+◌, ◌-◌, ◌*◌, ◌/◌, ◌%◌, List, [], ◌∷◌, ◌++◌, Bool}
use mnser.Common.{ltb, leb, ◌==◌, if◌then◌else◌, sub_size, length, take, drop, replicate}
use mnser.Common.{Result, ok, err, ◌>>=◌, out_of_range, assert_failed, undefined_behaviour}
use mnser.Common.Segments.{write_at, slice}

-- `ByteArray::Node`, with the block that `ptr` points to.
pub record Node : Type 0 where
  pub size : ℕ
  pub ptr : List ℕ

-- `MS_LITTLE_ENDIAN`, `MS_BIG_ENDIAN`
pub data Endian : Type 0 where
  little big : Endian

-- `garbage` is what the bytes of a block hold that `new char[s]` returns: it is left unspecified.
pub record ByteArray : Type 0 where
  pub base_size : ℕ
  pub position : ℕ
  pub capacity : ℕ
  pub size : ℕ
  pub endian : Endian
  pub nodes : List Node
  pub cur : ℕ
  pub garbage : ℕ → ℕ

unfoldable pub fresh_block : (ℕ → ℕ) → ℕ → List ℕ
fresh_block g zero = []
fresh_block g (suc n) = g n ∷ fresh_block g n

unfoldable pub new_node : (ℕ → ℕ) → ℕ → Node
new_node g s = record { size = s; ptr = fresh_block g s }

unfoldable pub create : (ℕ → ℕ) → ℕ → ByteArray
create g base_size = record {
  base_size = base_size;
  position = 0;
  capacity = base_size;
  size = 0;
  endian = big;
  nodes = new_node g base_size ∷ [];
  cur = 0;
  garbage = g;
}

abbrev pub get_capacity : ByteArray → ℕ
get_capacity a = sub_size a.capacity a.position

abbrev pub get_read_size : ByteArray → ℕ
get_read_size a = sub_size a.size a.position

-- `ceil(1.0 * size / m_baseSize)`, exact while `size` is below 2 ^ 53.
abbrev pub blocks_for : ℕ → ℕ → ℕ
blocks_for size base = (size + base - 1) / base

-- The new blocks go behind the last one; a null `m_cur` moves to the first of them.
unfoldable pub add_capacity : ByteArray → ℕ → ByteArray
add_capacity a size =
    if size == 0
    then a
    else if leb size (get_capacity a)
    then a
    else (let count = blocks_for (size - get_capacity a) a.base_size in
        record a {
          capacity = a.capacity + count * a.base_size;
          nodes = a.nodes ++ replicate count (new_node a.garbage a.base_size);
          cur = if get_capacity a == 0 then length a.nodes else a.cur;
        })

-- The loop of `write`, over the blocks from `m_cur` on: the blocks afterwards, and by how many
-- the pointer has moved. Each round that does not end the loop goes to the next block.
unfoldable pub write_nodes : List Node → ℕ → List ℕ → Result (List Node × ℕ)
write_nodes [] npos buf = err undefined_behaviour
write_nodes (n ∷ ns) npos buf =
    let ncap = sub_size n.size npos in
    let next =
      (write_nodes ns 0 (drop ncap buf) >>= λ r.
      ok (record n { ptr = write_at n.ptr npos (take ncap buf) } ∷ r.0, suc r.1)) in
    if leb (length buf) ncap
    then ok (
      record n { ptr = write_at n.ptr npos buf } ∷ ns,
      if n.size == npos + length buf then 1 else 0,
    )
    else next

-- `write` behind the call of `addCapacity`.
unfoldable pub copy_in : ByteArray → List ℕ → Result ByteArray
copy_in a buf =
    let end = a.position + length buf in
    write_nodes (drop a.cur a.nodes) (a.position % a.base_size) buf >>= λ r. ok (record a {
      nodes = take a.cur a.nodes ++ r.0;
      cur = a.cur + r.1;
      position = end;
      size = if ltb a.size end then end else a.size;
    })

unfoldable pub write : ByteArray → List ℕ → Result ByteArray
write a buf = if length buf == 0 then ok a else copy_in (add_capacity a (length buf)) buf

-- The loop of both `read`s. `m_cur->size` is read before the loop, so a null pointer is followed
-- even where nothing is asked for.
unfoldable pub read_nodes : List Node → ℕ → ℕ → Result (List ℕ × ℕ)
read_nodes [] npos size = err undefined_behaviour
read_nodes (n ∷ ns) npos size =
    let ncap = sub_size n.size npos in
    let next =
      (read_nodes ns 0 (size - ncap) >>= λ r. ok (slice n.ptr npos ncap ++ r.0, suc r.1)) in
    if size == 0
    then ok ([], 0)
    else if leb size ncap
    then ok (slice n.ptr npos size, if n.size == npos + size then 1 else 0)
    else next

-- `read(buf, size)`: what goes to `buf`, and the array afterwards.
unfoldable pub read : ByteArray → ℕ → Result (List ℕ × ByteArray)
read a size =
    if ltb (get_read_size a) size
    then err assert_failed
    else (read_nodes (drop a.cur a.nodes) (a.position % a.base_size) size >>= λ r.
        ok (r.0, record a { position = a.position + size; cur = a.cur + r.1 }))

-- `read(buf, size, position)`: it starts from the block of `m_cur`, whatever `position` is.
unfoldable pub read_at : ByteArray → ℕ → ℕ → Result (List ℕ)
read_at a size position =
    if ltb (sub_size a.size position) size
    then err out_of_range
    else (read_nodes (drop a.cur a.nodes) (position % a.base_size) size >>= λ r. ok r.0)

-- The loop of `setPosition`: how many blocks lie before the position `v`.
unfoldable pub seek : List Node → ℕ → Result ℕ
seek [] v = err undefined_behaviour
seek (n ∷ ns) v =
    let next = (seek ns (v - n.size) >>= λ k. ok (suc k)) in
    if ltb n.size v then next else ok (if v == n.size then 1 else 0)

unfoldable pub set_position : ByteArray → ℕ → Result ByteArray
set_position a v =
    if ltb a.capacity v
    then err out_of_range
    else (seek a.nodes v >>= λ k.
        ok (record a { position = v; size = if ltb a.size v then v else a.size; cur = k }))

-- One block stays.
unfoldable pub clear : ByteArray → ByteArray
clear a = record a {
  position = 0;
  size = 0;
  capacity = a.base_size;
  nodes = take 1 a.nodes;
  cur = 0;
}

abbrev pub is_little_endian : ByteArray → Bool
is_little_endian a = elim a.endian [ little ↦ Bool.true | big ↦ Bool.false ]

abbrev pub set_is_little_endian : ByteArray → Bool → ByteArray
set_is_little_endian a val = record a { endian = if val then little else big }

unfoldable pub to_string : ByteArray → Result (List ℕ)
to_string a = if get_read_size a == 0 then ok [] else read_at a (get_read_size a) a.position
