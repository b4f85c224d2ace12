-- ===== src/SocketStream/Tests.antt =====
-- An array of two blocks and a socket.
use mnser.Common.{ℕ, suc, ◌≤◌, List, [], ◌∷◌, ◌≡◌, refl, arith, ok, length, false, true}
use mnser.Common.Segments.{slice}
use mnser.Stream.{ReturnCode, minus, bytes, Count, stopped, moved}
use mnser.ByteArray.{ByteArray, big}
use mnser.ByteArray.Valid.{Valid, contents}
use mnser.ByteArray.Buffers.{Iovec, get_read_buffers, gather, at_most}
use mnser.ByteArray.Segmented.{get_read_buffers_lem}
use mnser.SocketStream
use mnser.SocketStream.Moving.{Taken, Given, read_lem, write_lem}

abbrev pair : ByteArray
pair = record {
  base_size = 4;
  position = 2;
  capacity = 8;
  size = 7;
  endian = big;
  nodes =
      record { size = 4; ptr = 1 ∷ 2 ∷ 3 ∷ 4 ∷ [] }
      ∷ record { size = 4; ptr = 5 ∷ 6 ∷ 7 ∷ 0 ∷ [] }
      ∷ [];
  cur = 0;
  garbage = λ k. 0;
}

pair-Valid : Valid pair
pair-Valid = record {
  positive = omega arith;
  addressable = omega arith;
  blocks = ((refl, refl), ((refl, refl), tt));
  allocated = refl;
  rooted = omega arith;
  lands = (omega arith, omega arith);
  inside = omega arith;
  held = omega arith;
}

get_read_buffers_example :
    (iovs : List Iovec) × (get_read_buffers pair 4 ≡ ok (iovs, at_most 4 5))
    × (gather pair.nodes iovs ≡ slice (contents pair) 2 (at_most 4 5))
get_read_buffers_example = get_read_buffers_lem pair 4 pair-Valid

few : (b : ℕ) (bs : List ℕ) → bytes 9 (8 ∷ 7 ∷ []) ≡ bytes b bs → suc (length bs) ≤ 6
few b bs h = ground (arith, h)

read_example :
    (SocketStream.read false (bytes 9 (8 ∷ 7 ∷ [])) pair 6 ≡ ok (minus 1, pair))
    × ((b : ByteArray) × (v : ReturnCode) × (SocketStream.read true (bytes 9 (8 ∷ 7 ∷ [])) pair 6
          ≡ ok (v, b))
        × Taken pair b v (bytes 9 (8 ∷ 7 ∷ [])))
read_example = read_lem (bytes 9 (8 ∷ 7 ∷ [])) pair 6 pair-Valid (omega arith) (omega arith) few

abbrev one_byte : List ℕ → Count
one_byte [] = stopped 0
one_byte (b ∷ bs) = moved 0

at_least_one : (buf : List ℕ) (k : ℕ) → one_byte buf ≡ moved k → suc k ≤ length buf
at_least_one [] k h = absurd (ground (arith, h))
at_least_one (b ∷ bs) k h = ground (arith, h)

write_example :
    (SocketStream.write false one_byte pair 4 ≡ ok (minus 1, pair))
    × ((b : ByteArray) × (v : ReturnCode) × (SocketStream.write true one_byte pair 4 ≡ ok (v, b))
        × Given pair b v (one_byte (slice (contents pair) 2 (at_most 4 5))))
write_example = write_lem one_byte pair 4 pair-Valid at_least_one
