-- ===== src/ByteArray/Tests.antt =====
-- Runs of the calls of bytearray.cpp, and the theorems at concrete arrays.
use mnser.Common.{ℕ, ◌+◌, ◌*◌, ◌^◌, List, [], ◌∷◌, ◌≡◌, refl, arith}
use mnser.Common.{ok, err, assert_failed, ◌>>=◌}
use mnser.Common.Segments.{slice, write_at}
use mnser.ByteArray.{
  ByteArray, big, create, new_node, fresh_block, add_capacity, write, copy_in, write_nodes, read,
  read_nodes, read_at, set_position, seek, clear, to_string,
}
use mnser.ByteArray.Valid.{Valid, contents, create-Valid, clear-Valid}
use mnser.ByteArray.Refine.{Wrote, write-refines}
use mnser.ByteArray.Reads.{Moved, Sought, read-refines, read_short, set_position-refines}
use mnser.ByteArray.Codec.{
  write_fixed, read_fixed, ordered, byteswap, le_bytes, le_value, write_uint64, read_uint64,
  write_int64, read_int64, write_string_fixed, read_string_fixed, encode_zigzag,
}
use mnser.ByteArray.Holds.{Holds, RoundTrip}
use mnser.ByteArray.Fixed.{wire, read_fixed-write_fixed}
use mnser.ByteArray.Varint.{read_uint64-write_uint64}
use mnser.ByteArray.Zigzag.{encode_zigzag-negative, read_int64-write_int64}
use mnser.ByteArray.Strings.{read_string-write_string}

-- An empty array of blocks of four bytes, which hold 3, 2, 1, 0 when they are new.
abbrev small : ByteArray
small = create (λ i. i) 4

small-Valid : Valid small
small-Valid = (create-Valid (λ i. i) 4 (omega arith) (omega arith)).0

-- Seven bytes in two blocks, with the position in the second.
abbrev filled : ByteArray
filled = record {
  base_size = 4;
  position = 5;
  capacity = 8;
  size = 7;
  endian = big;
  nodes =
      record { size = 4; ptr = 10 ∷ 11 ∷ 12 ∷ 13 ∷ [] }
      ∷ record { size = 4; ptr = 14 ∷ 15 ∷ 16 ∷ 0 ∷ [] }
      ∷ [];
  cur = 1;
  garbage = λ i. 0;
}

filled-Valid : Valid filled
filled-Valid = record {
  positive = omega arith;
  addressable = omega arith;
  blocks = ((refl, refl), ((refl, refl), tt));
  allocated = refl;
  rooted = omega arith;
  lands = omega arith;
  inside = omega arith;
  held = omega arith;
}

-- Six bytes go over the end of the first block.
abbrev six : List ℕ
six = 1 ∷ 2 ∷ 3 ∷ 4 ∷ 5 ∷ 6 ∷ []

border_crossed :
    (write small six >>= λ a. set_position a 3 >>= λ b. to_string b) ≡ ok (4 ∷ 5 ∷ 6 ∷ [])
unfolding create new_node fresh_block write add_capacity copy_in write_nodes set_position seek
    to_string read_at read_nodes write_at
border_crossed = refl

-- In network order.
network_order :
    (write_fixed 4 small 0x01020304 >>= λ a. set_position a 0 >>= λ b. to_string b)
    ≡ ok (1 ∷ 2 ∷ 3 ∷ 4 ∷ [])
unfolding create new_node fresh_block write_fixed ordered byteswap le_bytes le_value write
    add_capacity copy_in write_nodes set_position seek to_string read_at read_nodes write_at
network_order = refl

write-refines_example : (b : ByteArray) × (write filled six ≡ ok b) × Wrote filled six b
write-refines_example = write-refines filled six filled-Valid (omega arith)

read-refines_example :
    (b : ByteArray) × (read filled 2 ≡ ok (slice (contents filled) 5 2, b)) × Moved filled 7 b
read-refines_example = read-refines filled 2 filled-Valid (omega arith) (omega arith)

read_short_example : read filled 3 ≡ err assert_failed
read_short_example = read_short filled 3 filled-Valid (omega arith)

-- From the block of `m_cur` on, position 1 is taken for position 5.
read_at_elsewhere : read_at filled 2 1 ≡ ok (15 ∷ 16 ∷ [])
unfolding read_at read_nodes
read_at_elsewhere = refl

set_position-refines_example : (b : ByteArray) × (set_position filled 8 ≡ ok b) × Sought filled 8 b
set_position-refines_example = set_position-refines filled 8 filled-Valid (omega arith)

clear-Valid_example :
    Valid (clear filled) × (contents (clear filled) ≡ []) × ((clear filled).position ≡ 0)
clear-Valid_example = clear-Valid filled filled-Valid

read_fixed-write_fixed_example :
    RoundTrip filled (write_fixed 4 filled 0xdeadbeef) (read_fixed 4) 0xdeadbeef
read_fixed-write_fixed_example =
    read_fixed-write_fixed 4 filled 0xdeadbeef filled-Valid (omega arith) (omega arith)
      (omega arith)

read_uint64-write_uint64_example :
    RoundTrip filled (write_uint64 filled (2 ^ 63)) read_uint64 (2 ^ 63)
read_uint64-write_uint64_example =
    read_uint64-write_uint64 filled (2 ^ 63) filled-Valid (omega arith) (omega arith)

read_int64-write_int64_example : RoundTrip filled (write_int64 filled 7) read_int64 7
read_int64-write_int64_example =
    read_int64-write_int64 filled 7 filled-Valid (omega arith) (omega arith)

encode_zigzag-negative_example :
    encode_zigzag 32 0xffff_ffff + 2 * 0xffff_ffff + 1 ≡ 2 ^ 32 + 2 ^ 32
encode_zigzag-negative_example = encode_zigzag-negative 31 0xffff_ffff (omega arith) (omega arith)

read_string-write_string_example :
    RoundTrip filled
      (write_string_fixed 2 filled (104 ∷ 105 ∷ []))
      (read_string_fixed 2)
      (104 ∷ 105 ∷ [])
read_string-write_string_example =
    read_string-write_string 2 filled 104 (105 ∷ []) filled-Valid (omega arith) (omega arith)
      (omega arith)

-- A block of two bytes that an empty string's length fills.
abbrev full : ByteArray
full = record {
  base_size = 2;
  position = 0;
  capacity = 2;
  size = 2;
  endian = big;
  nodes = record { size = 2; ptr = 0 ∷ 0 ∷ [] } ∷ [];
  cur = 0;
  garbage = λ i. 0;
}

full-Holds : Holds full (wire big 2 0)
unfolding contents ordered byteswap le_bytes le_value
full-Holds = record {
  valid = record {
    positive = omega arith;
    addressable = omega arith;
    blocks = ((refl, refl), tt);
    allocated = refl;
    rooted = omega arith;
    lands = omega arith;
    inside = omega arith;
    held = omega arith;
  };
  room = omega arith;
  there = refl;
}
