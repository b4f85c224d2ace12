-- ===== src/Address/Ipv6.antt =====
-- src/address.cpp: the IPv6 addresses, sixteen bytes each, and their networks.
use mnser.Common.{ℕ, zero, suc, ◌+◌, ◌-◌, ◌/◌, ◌%◌, ◌^◌, List, Option, none, some}
use mnser.Common.{bit_and, bit_or, bit_xor, set, get_elem?, replicate}
use mnser.ByteArray.Codec.{byteswap}
pub mod Networks

pub record Ipv6Address : Type 0 where
  pub sin6_port : ℕ
  pub s6_addr : List ℕ

-- `CreateMask<uint8_t>`, of less than 8 bits.
unfoldable pub create_byte_mask : ℕ → ℕ
create_byte_mask bits = (2 ^ (8 - bits) - 1) % 256

-- The loops that fill bytes from `i` on: `n` rounds.
unfoldable pub fill_bytes : List ℕ → ℕ → ℕ → ℕ → List ℕ
fill_bytes s i zero v = s
fill_bytes s i (suc n) v = fill_bytes (set s i v) (suc i) n v

-- A byte that is there; a write behind the sixteen bytes, which the language does not define, is
-- `none`.
unfoldable pub with_byte : Option ℕ → (ℕ → List ℕ) → Option (List ℕ)
with_byte none f = none
with_byte (some b) f = some (f b)

-- The byte where a prefix ends changed, and the bytes behind it filled.
unfoldable pub end_prefix : List ℕ → ℕ → (ℕ → ℕ) → ℕ → Option (List ℕ)
end_prefix s prefix_len change v =
    let i : ℕ = prefix_len / 8 in
    with_byte (get_elem? s i) (λ b. fill_bytes (set s i (change b)) (i + 1) (16 - (i + 1)) v)

unfoldable pub with_bytes : Ipv6Address → Option (List ℕ) → Option Ipv6Address
with_bytes a none = none
with_bytes a (some s) = some (record a { s6_addr = s })

unfoldable pub broadcast_address : Ipv6Address → ℕ → Option Ipv6Address
broadcast_address a prefix_len =
    with_bytes a
      (end_prefix a.s6_addr prefix_len (λ b. bit_or b (create_byte_mask (prefix_len % 8))) 0xff)

unfoldable pub netword_address : Ipv6Address → ℕ → Option Ipv6Address
netword_address a prefix_len =
    with_bytes a
      (end_prefix a.s6_addr prefix_len (λ b. bit_and b (create_byte_mask (prefix_len % 8))) 0)

unfoldable pub new_ipv6 : Ipv6Address
new_ipv6 = record { sin6_port = 0; s6_addr = replicate 16 0 }

-- The byte of the mask where the prefix ends, then the ones before it.
unfoldable pub subnet_mask : ℕ → Option Ipv6Address
subnet_mask prefix_len =
    let i : ℕ = prefix_len / 8 in
    let ones : ℕ = bit_xor (create_byte_mask (prefix_len % 8)) 0xff in
    with_bytes new_ipv6 (
      with_byte (get_elem? new_ipv6.s6_addr i)
        (λ b. fill_bytes (set new_ipv6.s6_addr i ones) 0 i 0xff))

unfoldable pub get_port : Ipv6Address → ℕ
get_port a = byteswap 2 a.sin6_port

unfoldable pub set_port : Ipv6Address → ℕ → Ipv6Address
set_port a v = record a { sin6_port = byteswap 2 v }
