-- ===== src/Address/Masks.antt =====
-- The networks of IPv4 addresses, and the address as four numbers.
use mnser.Common.{
  ℕ, ◌+◌, ◌-◌, ◌*◌, ◌/◌, ◌%◌, ◌^◌, ◌<◌, ◌≤◌, ◌≡◌, refl, ap, sym, ◌∙◌, arith, [], ◌∷◌, reverse, some,
  le→leb, le→ltb_false, bit_and, bit_or, bit_xor,
}
use mathlib.Core.List.{reverse-reverse}
use mnser.Common.Bits.{xor_ones}
use mnser.Common.Masks.{or-Bitwise, and-Bitwise, xor-Bitwise, or_ones, and_ones, pow_pos, pow_le}
use mnser.ByteArray.Codec.{byteswap, le_bytes, le_value}
use mnser.ByteArray.Fixed.{byteswap_twice, le_value-le_bytes}
use mnser.Address.Words.{byteswap-op}
use mnser.Address.{
  made, create_mask, new_ipv4, with_mask, broadcast_address, netword_address, subnet_mask, octets,
  get_port, set_port,
}

create_mask_lem : (p : ℕ) → 2 ≤ p → p ≤ 32 → create_mask p ≡ some (2 ^ (32 - p) - 1)
unfolding create_mask
create_mask_lem p l h = rw (le→leb 2 p l, le→leb p 32 h) refl

swapped_constants : (byteswap 4 (2 ^ 32 - 1) ≡ 2 ^ 32 - 1) × (byteswap 2 0 ≡ 0)
unfolding byteswap le_bytes le_value
swapped_constants = (refl, refl)

flipped : (p : ℕ) → p ≤ 32 → bit_xor (2 ^ (32 - p) - 1) (2 ^ 32 - 1) ≡ 2 ^ 32 - 2 ^ (32 - p)
flipped p u =
    let below : 2 ^ (32 - p) ≤ 2 ^ 32 = pow_le p (32 - p) 32 (omega arith) in
    omega (
      arith,
      xor_ones 32 (2 ^ (32 - p) - 1) (2 ^ 32 - 1) (omega (arith, pow_pos (32 - p))) (omega arith),
      pow_pos (32 - p),
    )

-- Let `q` be the network of an address and `r` the number of the host in it, for a prefix of 2 to
-- 32 bits. `broadcastAddress` gives the last address of the network; `networdAddress` gives `r`,
-- the number of the host without the network; and `subnetMask` gives the ones of the prefix. The
-- port is kept, and is 0 with the mask.
pub subnet_lem :
    (p q r port : ℕ)
    → 2 ≤ p
    → p ≤ 32
    → r < 2 ^ (32 - p)
    → (broadcast_address (new_ipv4 (r + q * 2 ^ (32 - p)) port) p
        ≡ made (new_ipv4 (2 ^ (32 - p) - 1 + q * 2 ^ (32 - p)) port))
      × (netword_address (new_ipv4 (r + q * 2 ^ (32 - p)) port) p ≡ made (new_ipv4 r port))
      × (subnet_mask p ≡ made (new_ipv4 (2 ^ 32 - 2 ^ (32 - p)) 0))
unfolding broadcast_address netword_address subnet_mask with_mask new_ipv4
subnet_lem p q r port l u h =
    let m : ℕ = 2 ^ (32 - p) - 1 in
    let ones : m + 1 ≡ 2 ^ (32 - p) = omega (arith, pow_pos (32 - p)) in
    (
      rw (le→ltb_false p 32 u, create_mask_lem p l u)
          (ap (λ t. made (record { sin_port = byteswap 2 port; sin_addr = t }))
            (sym (byteswap-op bit_or or-Bitwise (r + q * 2 ^ (32 - p)) m)
              ∙ ap (byteswap 4) (or_ones (32 - p) r q m (r + q * 2 ^ (32 - p)) h ones refl))),
      rw (le→ltb_false p 32 u, create_mask_lem p l u)
          (ap (λ t. made (record { sin_port = byteswap 2 port; sin_addr = t }))
            (sym (byteswap-op bit_and and-Bitwise (r + q * 2 ^ (32 - p)) m)
              ∙ ap (byteswap 4) (and_ones (32 - p) r q m (r + q * 2 ^ (32 - p)) h ones refl))),
      rw (create_mask_lem p l u) (
          ap (λ t. made (record { sin_port = 0; sin_addr = t }))
            (ap (bit_xor (byteswap 4 m)) (sym swapped_constants.0)
              ∙ sym (byteswap-op bit_xor xor-Bitwise m (2 ^ 32 - 1))
              ∙ ap (byteswap 4) (flipped p u))
          ∙ ap (λ t. made (record { sin_port = t; sin_addr = byteswap 4 (2 ^ 32 - 2 ^ (32 - p)) }))
              (sym swapped_constants.1)),
    )

octet : (n h : ℕ) → bit_and (h / n) 0xff ≡ h / n % 256
octet n h =
    and_ones 8 (h / n % 256) (h / n / 256) 0xff (h / n) (omega arith) (omega arith) (omega arith)

four :
    {a b c d x y z w : ℕ}
    → a ≡ x
    → b ≡ y
    → c ≡ z
    → d ≡ w
    → (a ∷ b ∷ c ∷ d ∷ []) ≡ (x ∷ y ∷ z ∷ w ∷ [])
four e f g h = cc

octets-bytes : (h port : ℕ) → h < 2 ^ 32 → octets (new_ipv4 h port) ≡ reverse (le_bytes 4 h)
unfolding octets new_ipv4 le_bytes
octets-bytes h port l = rw (byteswap_twice 4 h (omega arith)) (
    four (omega (arith, octet (2 ^ 24) h)) (omega (arith, octet (2 ^ 16) h))
      (omega (arith, octet (2 ^ 8) h))
      (and_ones 8 (h % 256) (h / 256) 0xff h (omega arith) (omega arith) (omega arith)))

-- The four numbers that `insert` prints, last first, are the bytes of the address, and the ports
-- read back are those given.
pub octets_lem :
    (h port v : ℕ)
    → h < 2 ^ 32
    → port < 2 ^ 16
    → v < 2 ^ 16
    → (le_value (reverse (octets (new_ipv4 h port))) ≡ h)
      × (octets (new_ipv4 h port) ≡ reverse (le_bytes 4 h))
      × (get_port (new_ipv4 h port) ≡ port)
      × (get_port (set_port (new_ipv4 h port) v) ≡ v)
      × (octets (set_port (new_ipv4 h port) v) ≡ octets (new_ipv4 h port))
unfolding octets new_ipv4 get_port set_port
octets_lem h port v lh lp lv = (
  ap (λ t. le_value (reverse t)) (octets-bytes h port lh)
      ∙ ap le_value (reverse-reverse (le_bytes 4 h))
      ∙ le_value-le_bytes 4 h (omega arith),
  octets-bytes h port lh,
  byteswap_twice 2 port (omega arith),
  byteswap_twice 2 v (omega arith),
  refl,
)
