-- ===== src/ByteArray/Buffers.antt =====
-- `getReadBuffers` and `getWriteBuffers` of src/bytearray.cpp: the segments of the blocks, for calls
-- that read or write many at once.
use mnser.Common.{
  ℕ, zero, suc, ◌-◌, ◌/◌, ◌%◌, List, [], ◌∷◌, ◌++◌, if◌then◌else◌, ltb, leb, ◌==◌, sub_size, take,
  drop, Result, ok, err, ◌>>=◌, undefined_behaviour,
}
use mnser.Common.Segments.{write_at, slice}
use mnser.ByteArray.{Node, ByteArray, add_capacity, get_read_size}

-- `struct iovec`: `iov_base` is the place `base` in the block `node` of the list.
pub record Iovec : Type 0 where
  pub node : ℕ
  pub base : ℕ
  pub iov_len : ℕ

-- The loop of all three, over the blocks from the `k`-th on; `len` is not 0.
unfoldable pub fill : List Node → ℕ → ℕ → ℕ → Result (List Iovec)
fill [] k npos len = err undefined_behaviour
fill (n ∷ ns) k npos len =
    let ncap = sub_size n.size npos in
    let rest =
      (fill ns (suc k) 0 (len - ncap) >>= λ more.
      ok (record { node = k; base = npos; iov_len = ncap } ∷ more)) in
    if leb len ncap then ok (record { node = k; base = npos; iov_len = len } ∷ []) else rest

abbrev pub at_most : ℕ → ℕ → ℕ
at_most len n = if ltb n len then n else len

-- `getReadBuffers(buffers, len)`: the buffers, and what it returns.
unfoldable pub get_read_buffers : ByteArray → ℕ → Result (List Iovec × ℕ)
get_read_buffers a want =
    let len = at_most want (get_read_size a) in
    if len == 0
    then ok ([], 0)
    else (fill (drop a.cur a.nodes) a.cur (a.position % a.base_size) len >>= λ iovs. ok (iovs, len))

-- `getReadBuffers(buffers, len, position)`: how much there is goes by `m_position` here too.
unfoldable pub get_read_buffers_at : ByteArray → ℕ → ℕ → Result (List Iovec × ℕ)
get_read_buffers_at a want position =
    let len = at_most want (get_read_size a) in
    if len == 0
    then ok ([], 0)
    else (fill (drop (position / a.base_size) a.nodes) (position / a.base_size)
          (position % a.base_size) len
        >>= λ iovs. ok (iovs, len))

unfoldable pub get_write_buffers : ByteArray → ℕ → Result (List Iovec × ByteArray)
get_write_buffers a len =
    let b = add_capacity a len in
    if len == 0
    then ok ([], a)
    else (fill (drop b.cur b.nodes) b.cur (b.position % b.base_size) len >>= λ iovs. ok (iovs, b))

-- The bytes that the segments hold, in their order.
abbrev pub block : List Node → ℕ → List ℕ
block [] k = []
block (n ∷ ns) zero = n.ptr
block (n ∷ ns) (suc k) = block ns k

abbrev pub gather : List Node → List Iovec → List ℕ
gather ns [] = []
gather ns (v ∷ iovs) = slice (block ns v.node) v.base v.iov_len ++ gather ns iovs

-- A call that puts bytes into the segments fills one after the other.
abbrev pub put_into : List Node → ℕ → ℕ → List ℕ → List Node
put_into [] k off buf = []
put_into (n ∷ ns) zero off buf = record n { ptr = write_at n.ptr off buf } ∷ ns
put_into (n ∷ ns) (suc k) off buf = n ∷ put_into ns k off buf

abbrev pub scatter : List Node → List Iovec → List ℕ → List Node
scatter ns [] buf = ns
scatter ns (v ∷ iovs) buf =
    scatter (put_into ns v.node v.base (take v.iov_len buf)) iovs (drop v.iov_len buf)
