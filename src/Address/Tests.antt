-- ===== src/Address/Tests.antt =====
-- Three addresses in memory, a network of 256 hosts and two paths.
use mnser.Common.{
  ℕ, List, replicate, some, none, ◌+◌, ◌-◌, ◌*◌, ◌^◌, ◌≡◌, refl, arith, [], ◌∷◌, ◌++◌, true, false,
  ◌↔◌, ◌⊎◌,
}
use mnser.Common.Text.{codes}
use mnser.ByteArray.Codec.{byteswap, le_bytes, le_value}
use mnser.Address.Counts.{ones, count_bytes_lem}
use mnser.Address.{
  count_bytes, count_loop, memcmp, Address, is_zero, decide_less, less, equal, unequal, made,
  new_ipv4, create_mask, with_mask, broadcast_address, netword_address, subnet_mask, octets,
  set_addr_len, get_path, undefined, nullptr, copied, copied_length, starts_nul, c_string,
}
use mnser.Address.Ipv6
use mnser.Address.Order.{Precedes, bytes_of, Inside, less_lem}
use mnser.Address.Masks.{subnet_lem}
use mnser.Address.Paths.{NoNul}

abbrev interface : List ℕ
interface = replicate 12 9 ++ 1 ∷ []

abbrev short : Address
short = record { addr = 2 ∷ 0 ∷ 7 ∷ []; addr_len = 2 }

abbrev long : Address
long = record { addr = 2 ∷ 0 ∷ 7 ∷ []; addr_len = 3 }

abbrev other : Address
other = record { addr = 2 ∷ 1 ∷ []; addr_len = 2 }

short-Inside : Inside short
unfolding Inside
short-Inside = omega arith

long-Inside : Inside long
unfolding Inside
long-Inside = omega arith

other-Inside : Inside other
unfolding Inside
other-Inside = omega arith

less_example :
    ((less short long ≡ true) ↔ Precedes (bytes_of short) (bytes_of long))
    × ((equal short long ≡ true) ↔ (bytes_of short ≡ bytes_of long))
    × ((less short long ≡ true) ⊎ ((equal short long ≡ true) ⊎ (less long short ≡ true)))
    × (less short long ≡ true → (equal short long ≡ false) × (less long short ≡ false))
    × (less short long ≡ true → less long other ≡ true → less short other ≡ true)
less_example = less_lem short long other short-Inside long-Inside other-Inside

-- The shorter of two addresses that begin alike is the less.
less_runs : (less short long ≡ true) × (less long other ≡ true) × (unequal short long ≡ true)
unfolding less decide_less memcmp unequal equal is_zero
less_runs = (refl, refl, refl)

subnet_example :
    (broadcast_address (new_ipv4 (7 + 655361 * 2 ^ (32 - 24)) 80) 24
      ≡ made (new_ipv4 (2 ^ (32 - 24) - 1 + 655361 * 2 ^ (32 - 24)) 80))
    × (netword_address (new_ipv4 (7 + 655361 * 2 ^ (32 - 24)) 80) 24 ≡ made (new_ipv4 7 80))
    × (subnet_mask 24 ≡ made (new_ipv4 (2 ^ 32 - 2 ^ (32 - 24)) 0))
subnet_example = subnet_lem 24 655361 7 80 (omega arith) (omega arith) (omega arith)

-- The prefixes that the code does not work on.
prefix_runs :
    (broadcast_address (new_ipv4 7 80) 33 ≡ nullptr)
    × (broadcast_address (new_ipv4 7 80) 0 ≡ undefined)
    × (subnet_mask 33 ≡ undefined)
unfolding broadcast_address subnet_mask create_mask with_mask
prefix_runs = (refl, refl, refl)

-- A prefix of 128 bits ends behind the sixteen bytes.
whole_prefix_runs :
    (Ipv6.broadcast_address Ipv6.new_ipv6 128 ≡ none) × (Ipv6.subnet_mask 128 ≡ none)
unfolding Ipv6.broadcast_address Ipv6.subnet_mask Ipv6.new_ipv6 Ipv6.end_prefix Ipv6.with_byte
    Ipv6.with_bytes Ipv6.create_byte_mask
whole_prefix_runs = (refl, refl)

port6_runs : Ipv6.get_port (Ipv6.set_port Ipv6.new_ipv6 8020) ≡ 8020
unfolding Ipv6.get_port Ipv6.set_port byteswap le_bytes le_value
port6_runs = refl

octets_runs : octets (new_ipv4 0xc0a80107 8020) ≡ 192 ∷ 168 ∷ 1 ∷ 7 ∷ []
unfolding octets new_ipv4 byteswap le_bytes le_value
octets_runs = refl

tmp-NoNul : NoNul (codes "tmp/s")
unfolding NoNul
tmp-NoNul = (omega arith, (omega arith, (omega arith, (omega arith, (omega arith, tt)))))

-- The empty path reads as an abstract one without a name, unless the length is set lower.
empty_path_runs :
    (get_path (copied (copied_length []) []) ≡ codes "\\0")
    × (get_path (set_addr_len (copied (copied_length []) []) 2) ≡ [])
unfolding get_path copied copied_length starts_nul set_addr_len c_string
empty_path_runs = (refl, refl)

count_bytes_example : count_bytes 32 0xfffff000 ≡ some (ones 32 0xfffff000)
count_bytes_example = count_bytes_lem 32 0xfffff000 (omega arith)

count_runs : count_bytes 32 0xfffff000 ≡ some 20
unfolding count_bytes count_loop
count_runs = refl
