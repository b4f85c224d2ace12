-- ===== src/SocketStream.antt =====
-- inc/socket_stream.h and src/socket_stream.cpp: reads from and writes to a socket through the
-- segments of a ByteArray. Whether the socket is connected, and what its `recv` or `send` returns, are
-- arguments: `recv` also fills the segments, and `send` is given what they hold.
pub mod Moving
mod Tests
use mnser.Common.{
  ℕ, suc, ◌+◌, List, [], ◌∷◌, Bool, true, false, Result, ok, ◌>>=◌, length, if◌then◌else◌,
}
use mnser.Stream.{ReturnCode, nonneg, minus, Received, no_bytes, bytes, Count, stopped, moved}
use mnser.ByteArray.{ByteArray, set_position}
use mnser.ByteArray.Buffers.{get_read_buffers, get_write_buffers, gather, scatter}

-- `read(buffer, length)`, which `recv` fills.
unfoldable pub read_buffer : Bool → Received → ReturnCode × List ℕ
read_buffer false rt = (minus 1, [])
read_buffer true (no_bytes n) = (minus n, [])
read_buffer true (bytes b bs) = (nonneg (suc (length bs)), b ∷ bs)

-- `write(buffer, length)`
unfoldable pub write_buffer : Bool → Count → ReturnCode
write_buffer false rt = minus 1
write_buffer true (stopped n) = minus n
write_buffer true (moved n) = nonneg (suc n)

-- `read(ba, length)`
unfoldable pub read : Bool → Received → ByteArray → ℕ → Result (ReturnCode × ByteArray)
read connected rt ba len =
    if connected
    then (get_write_buffers ba len >>= λ r. elim rt [
      | no_bytes n ↦ ok (minus n, r.1)
      | bytes b bs ↦
          set_position (record r.1 { nodes = scatter r.1.nodes r.0 (b ∷ bs) })
            (r.1.position + suc (length bs))
          >>= λ a. ok (nonneg (suc (length bs)), a)
    ])
    else ok (minus 1, ba)

-- `write(ba, length)`, with `send` as a function of the bytes in the segments.
unfoldable pub write : Bool → (List ℕ → Count) → ByteArray → ℕ → Result (ReturnCode × ByteArray)
write connected send ba len =
    if connected
    then (get_read_buffers ba len >>= λ r. elim (send (gather ba.nodes r.0)) [
      | stopped n ↦ ok (minus n, ba)
      | moved n ↦ set_position ba (ba.position + suc n) >>= λ a. ok (nonneg (suc n), a)
    ])
    else ok (minus 1, ba)
