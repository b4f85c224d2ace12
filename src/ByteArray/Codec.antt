-- ===== src/ByteArray/Codec.antt =====
-- The typed writers and readers of src/bytearray.cpp, and `byteswap` of inc/mnser_endian.h.
-- An integer is its bit pattern, signed ones in two's complement, so that `writeFint32` and
-- `writeFuint32` are one function. The host is little-endian, as `MS_BYTE_ORDER` is on x86-64.
use mnser.Common.{ℕ, zero, suc, ◌+◌, ◌-◌, ◌*◌, ◌/◌, ◌%◌, ◌^◌, List, [], ◌∷◌, reverse, length}
use mnser.Common.{ltb, leb, if◌then◌else◌, bit_and, bit_or, bit_xor}
use mnser.Common.{Result, ok, err, ◌>>=◌, undefined_behaviour}
use mnser.ByteArray.{ByteArray, Endian, little, big, write, read}

-- The bytes of an integer in memory, lowest first, and the integer that bytes stand for.
unfoldable pub le_bytes : ℕ → ℕ → List ℕ
le_bytes zero v = []
le_bytes (suc w) v = v % 256 ∷ le_bytes w (v / 256)

unfoldable pub le_value : List ℕ → ℕ
le_value [] = 0
le_value (b ∷ bs) = b + 256 * le_value bs

-- `bswap_16`, `bswap_32` and `bswap_64`, by the number of bytes.
unfoldable pub byteswap : ℕ → ℕ → ℕ
byteswap w v = le_value (reverse (le_bytes w v))

-- `if(m_endian != MS_BYTE_ORDER) value = byteswap(value);`
unfoldable pub ordered : Endian → ℕ → ℕ → ℕ
ordered little w v = v
ordered big w v = byteswap w v

unfoldable pub write_fixed : ℕ → ByteArray → ℕ → Result ByteArray
write_fixed w a value = write a (le_bytes w (ordered a.endian w value))

unfoldable pub read_fixed : ℕ → ByteArray → Result (ℕ × ByteArray)
read_fixed w a = read a w >>= λ r. ok (ordered a.endian w (le_value r.0), r.1)

unfoldable pub write_fuint8 : ByteArray → ℕ → Result ByteArray
write_fuint8 a value = write a (le_bytes 1 value)

unfoldable pub read_fuint8 : ByteArray → Result (ℕ × ByteArray)
read_fuint8 a = read a 1 >>= λ r. ok (le_value r.0, r.1)

abbrev pub write_fuint16 : ByteArray → ℕ → Result ByteArray
write_fuint16 = write_fixed 2

abbrev pub write_fuint32 : ByteArray → ℕ → Result ByteArray
write_fuint32 = write_fixed 4

abbrev pub write_fuint64 : ByteArray → ℕ → Result ByteArray
write_fuint64 = write_fixed 8

abbrev pub read_fuint16 : ByteArray → Result (ℕ × ByteArray)
read_fuint16 = read_fixed 2

abbrev pub read_fuint32 : ByteArray → Result (ℕ × ByteArray)
read_fuint32 = read_fixed 4

abbrev pub read_fuint64 : ByteArray → Result (ℕ × ByteArray)
read_fuint64 = read_fixed 8

-- `EncodeZigzag32` and `EncodeZigzag64`: `(v << 1) ^ (v >> (w - 1))`, with the arithmetic shift.
unfoldable pub encode_zigzag : ℕ → ℕ → ℕ
encode_zigzag w v = bit_xor (v * 2 % 2 ^ w) (if leb (2 ^ (w - 1)) v then 2 ^ w - 1 else 0)

-- `(v >> 1) ^ -(v & 1)`
unfoldable pub decode_zigzag : ℕ → ℕ → ℕ
decode_zigzag w v = bit_xor (v / 2) ((2 ^ w - bit_and v 1) % 2 ^ w)

-- The loop that fills `tmp`, with `room` elements of `tmp` left; one more is out of its range.
unfoldable pub varint_bytes : ℕ → ℕ → Result (List ℕ)
varint_bytes zero value = err undefined_behaviour
varint_bytes (suc room) value =
    let next =
      (varint_bytes room (value / 2 ^ 7) >>= λ rest.
      ok (bit_or (bit_and value 0x7f) 0x80 % 256 ∷ rest)) in
    if leb 0x80 value then next else ok (value % 256 ∷ [])

-- `tmp` has 5 elements for 32 bits and 10 for 64.
unfoldable pub write_uint32 : ByteArray → ℕ → Result ByteArray
write_uint32 a value = varint_bytes 5 value >>= λ tmp. write a tmp

unfoldable pub write_uint64 : ByteArray → ℕ → Result ByteArray
write_uint64 a value = varint_bytes 10 value >>= λ tmp. write a tmp

-- `for(int i = 0; i < w; i += 7)`, by the rounds that are left.
unfoldable pub varint_loop : ℕ → ℕ → ℕ → ℕ → ByteArray → Result (ℕ × ByteArray)
varint_loop w zero i result a = ok (result, a)
varint_loop w (suc rounds) i result a = read_fuint8 a >>= λ r.
    (if ltb r.0 0x80
      then ok (bit_or result (r.0 * 2 ^ i % 2 ^ w), r.1)
      else varint_loop w rounds (i + 7) (bit_or result (bit_and r.0 0x7f * 2 ^ i % 2 ^ w)) r.1)

-- `i` is 0, 7, …, 28 for 32 bits and 0, 7, …, 63 for 64.
unfoldable pub read_uint32 : ByteArray → Result (ℕ × ByteArray)
read_uint32 a = varint_loop 32 5 0 0 a

unfoldable pub read_uint64 : ByteArray → Result (ℕ × ByteArray)
read_uint64 a = varint_loop 64 10 0 0 a

unfoldable pub write_int32 : ByteArray → ℕ → Result ByteArray
write_int32 a value = write_uint32 a (encode_zigzag 32 value)

unfoldable pub write_int64 : ByteArray → ℕ → Result ByteArray
write_int64 a value = write_uint64 a (encode_zigzag 64 value)

unfoldable pub read_int32 : ByteArray → Result (ℕ × ByteArray)
read_int32 a = read_uint32 a >>= λ r. ok (decode_zigzag 32 r.0, r.1)

unfoldable pub read_int64 : ByteArray → Result (ℕ × ByteArray)
read_int64 a = read_uint64 a >>= λ r. ok (decode_zigzag 64 r.0, r.1)

-- `writeStringF16`, `F32` and `F64`: the length is converted to an integer of `w` bytes.
unfoldable pub write_string_fixed : ℕ → ByteArray → List ℕ → Result ByteArray
write_string_fixed w a value = do b ← write_fixed w a (length value % 256 ^ w); write b value

unfoldable pub read_string_fixed : ℕ → ByteArray → Result (List ℕ × ByteArray)
read_string_fixed w a = do (len, b) ← read_fixed w a; read b len

unfoldable pub write_string_vint : ByteArray → List ℕ → Result ByteArray
write_string_vint a value = do b ← write_uint64 a (length value); write b value

unfoldable pub read_string_vint : ByteArray → Result (List ℕ × ByteArray)
read_string_vint a = do (len, b) ← read_uint64 a; read b len

abbrev pub write_string_without_length : ByteArray → List ℕ → Result ByteArray
write_string_without_length = write
