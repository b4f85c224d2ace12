-- ===== src/Address.antt =====
-- src/address.cpp: the comparison of addresses, the IPv4 addresses and the UNIX addresses.
-- An address is its structure in memory, as bytes, and its length. Of a `sockaddr_in` the model
-- keeps the port and the address as the integers that stand in memory, in the order of the
-- network; a word is read by a little-endian machine.
use mnser.Common.{
  ℕ, zero, suc, ◌+◌, ◌-◌, ◌/◌, ◌%◌, ◌^◌, min, List, [], ◌∷◌, ◌++◌, Bool, true, false,
}
use mnser.Common.{Option, none, some, ◌&&◌, not, bit_and, bit_or, bit_xor}
use mnser.Common.{ltb, leb, ◌==◌, if◌then◌else◌, length, take, drop, replicate}
use mnser.Common.Text.{Text, codes}
use mnser.ByteArray.Codec.{byteswap}
mod Order
mod Words
mod Masks
mod Counts
mod Paths
pub mod Ipv6
mod Tests

pub data Sign : Type 0 where
  lower : Sign
  same : Sign
  higher : Sign

-- `memcmp` of the first `n` bytes.
unfoldable pub memcmp : List ℕ → List ℕ → ℕ → Sign
memcmp a b zero = same
memcmp [] b (suc n) = same
memcmp (x ∷ a) [] (suc n) = same
memcmp (x ∷ a) (y ∷ b) (suc n) =
    let rest = memcmp a b n in if ltb x y then lower else (if ltb y x then higher else rest)

pub record Address : Type 0 where
  addr : List ℕ
  addr_len : ℕ

unfoldable pub is_zero : Sign → Bool
is_zero lower = false
is_zero same = true
is_zero higher = false

-- `Address::operator<`, from the result of `memcmp` on.
unfoldable pub decide_less : Sign → ℕ → ℕ → Bool
decide_less lower n m = true
decide_less same n m = ltb n m
decide_less higher n m = false

unfoldable pub less : Address → Address → Bool
less a b = decide_less (memcmp a.addr b.addr (min a.addr_len b.addr_len)) a.addr_len b.addr_len

unfoldable pub equal : Address → Address → Bool
equal a b = a.addr_len == b.addr_len && is_zero (memcmp a.addr b.addr a.addr_len)

unfoldable pub unequal : Address → Address → Bool
unequal a b = not (equal a b)

-- `CreateMask<uint32_t>`: the shift is of an `int`, so that it has no value where no bits are
-- left out (a shift by 32) or one (the least `int`, less one).
unfoldable pub create_mask : ℕ → Option ℕ
create_mask bits = if leb 2 bits && leb bits 32 then some (2 ^ (32 - bits) - 1) else none

pub record Ipv4Address : Type 0 where
  sin_port : ℕ
  sin_addr : ℕ

-- What a call for an address gives: nothing the language defines, a null pointer, an address.
pub data Answer : Type 0 where
  undefined : Answer
  nullptr : Answer
  made : Ipv4Address → Answer

unfoldable pub new_ipv4 : ℕ → ℕ → Ipv4Address
new_ipv4 address port = record { sin_port = byteswap 2 port; sin_addr = byteswap 4 address }

unfoldable pub octets : Ipv4Address → List ℕ
octets a =
    let addr = byteswap 4 a.sin_addr in
    bit_and (addr / 2 ^ 24) 0xff
    ∷ bit_and (addr / 2 ^ 16) 0xff
    ∷ bit_and (addr / 2 ^ 8) 0xff
    ∷ bit_and addr 0xff
    ∷ []

unfoldable pub get_port : Ipv4Address → ℕ
get_port a = byteswap 2 a.sin_port

unfoldable pub set_port : Ipv4Address → ℕ → Ipv4Address
set_port a v = record a { sin_port = byteswap 2 v }

unfoldable pub with_mask : Option ℕ → (ℕ → Ipv4Address) → Answer
with_mask none f = undefined
with_mask (some m) f = made (f (byteswap 4 m))

unfoldable pub broadcast_address : Ipv4Address → ℕ → Answer
broadcast_address a prefix_len =
    if ltb 32 prefix_len
    then nullptr
    else with_mask (create_mask prefix_len) (λ m. record a { sin_addr = bit_or a.sin_addr m })

unfoldable pub netword_address : Ipv4Address → ℕ → Answer
netword_address a prefix_len =
    if ltb 32 prefix_len
    then nullptr
    else with_mask (create_mask prefix_len) (λ m. record a { sin_addr = bit_and a.sin_addr m })

-- The complement of a word of 32 bits is its difference from the word of ones.
unfoldable pub subnet_mask : ℕ → Answer
subnet_mask prefix_len =
    with_mask (create_mask prefix_len)
      (λ m. record { sin_port = 0; sin_addr = bit_xor m (2 ^ 32 - 1) })

-- `sockaddr_un`: the path has 108 bytes, behind the two of the family.
abbrev pub path_offset : ℕ
path_offset = 2

abbrev pub path_size : ℕ
path_size = 108

pub record UnixAddress : Type 0 where
  sun_path : List ℕ
  length : ℕ

unfoldable pub starts_nul : List ℕ → Bool
starts_nul [] = false
starts_nul (c ∷ s) = c == 0

-- How many bytes of a path are copied: with its closing NUL, unless it starts with one.
unfoldable pub copied_length : Text → ℕ
copied_length path =
    let size = (length path + 1) % 2 ^ 32 in if starts_nul path then size - 1 else size

unfoldable pub copied : ℕ → Text → UnixAddress
copied size path = record {
  sun_path = take size (path ++ 0 ∷ []) ++ replicate (path_size - size) 0;
  length = size + path_offset;
}

-- The constructor for a path; `none` is the exception "path too long".
unfoldable pub new_unix : Text → Option UnixAddress
new_unix path =
    let size = copied_length path in if ltb path_size size then none else some (copied size path)

unfoldable pub set_addr_len : UnixAddress → ℕ → UnixAddress
set_addr_len a v = record a { length = v }

-- The characters of a C string.
unfoldable pub c_string : List ℕ → Text
c_string [] = []
c_string (c ∷ s) = let rest = c_string s in if c == 0 then [] else c ∷ rest

unfoldable pub get_path : UnixAddress → Text
get_path a =
    if ltb path_offset a.length && starts_nul a.sun_path
    then codes "\\0" ++ take (a.length - path_offset - 1) (drop 1 a.sun_path)
    else c_string a.sun_path

-- `CountBytes`: the loop that clears the lowest one of a value until nothing is left, on `fuel`.
unfoldable pub count_loop : ℕ → ℕ → ℕ → Option ℕ
count_loop zero value result = none
count_loop (suc fuel) value result =
    let rest = count_loop fuel (bit_and value (value - 1)) (result + 1) in
    if value == 0 then some result else rest

-- A word of `w` bits takes a round for each bit and one more.
unfoldable pub count_bytes : ℕ → ℕ → Option ℕ
count_bytes w value = count_loop (w + 1) value 0
