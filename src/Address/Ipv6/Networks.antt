-- ===== src/Address/Ipv6/Networks.antt =====
-- The networks of IPv6 addresses.
use mnser.Common.{
  ℕ, zero, suc, ◌+◌, ◌-◌, ◌*◌, ◌/◌, ◌%◌, ◌^◌, ◌<◌, ◌≤◌, ◌≡◌, refl, ap, sym, ◌∙◌, arith, List, [],
  ◌∷◌, ◌++◌, append_assoc, append-nil, some, length, length-append, length-replicate, set,
  get_elem?, replicate, bit_and, bit_or, bit_xor,
}
use mnser.Common.Bits.{xor_ones}
use mnser.Common.Masks.{or_ones, and_ones, pow_pos, pow_le}
use mnser.Address.Ipv6.{
  Ipv6Address, create_byte_mask, fill_bytes, end_prefix, with_byte, with_bytes, broadcast_address,
  netword_address, new_ipv6, subnet_mask,
}

get_elem?-middle :
    (pre post : List ℕ) (b i : ℕ) → i ≡ length pre → get_elem? (pre ++ b ∷ post) i ≡ some b
get_elem?-middle [] post b zero e = refl
get_elem?-middle [] post b (suc i) e = absurd (omega arith)
get_elem?-middle (x ∷ pre) post b zero e = absurd (omega arith)
get_elem?-middle (x ∷ pre) post b (suc i) e = get_elem?-middle pre post b i (omega arith)

set-middle :
    (pre post : List ℕ) (b v i : ℕ) → i ≡ length pre → set (pre ++ b ∷ post) i v ≡ pre ++ v ∷ post
set-middle [] post b v zero e = refl
set-middle [] post b v (suc i) e = absurd (omega arith)
set-middle (x ∷ pre) post b v zero e = absurd (omega arith)
set-middle (x ∷ pre) post b v (suc i) e = ap (◌∷◌ x) (set-middle pre post b v i (omega arith))

-- The loop fills the bytes behind `pre` that it is to fill.
fill_bytes-middle :
    (pre mid post : List ℕ) (i n v : ℕ)
    → i ≡ length pre
    → n ≡ length mid
    → fill_bytes (pre ++ (mid ++ post)) i n v ≡ pre ++ (replicate n v ++ post)
unfolding fill_bytes
fill_bytes-middle pre [] post i zero v e f = refl
fill_bytes-middle pre [] post i (suc n) v e f = absurd (omega arith)
fill_bytes-middle pre (b ∷ mid) post i zero v e f = absurd (omega arith)
fill_bytes-middle pre (b ∷ mid) post i (suc n) v e f =
    ap (λ t. fill_bytes t (suc i) n v)
      (set-middle pre (mid ++ post) b v i e ∙ sym (append_assoc pre (v ∷ []) (mid ++ post)))
    ∙ fill_bytes-middle (pre ++ v ∷ []) mid post (suc i) n v
        (omega (arith, length-append pre (v ∷ []))) (omega arith)
    ∙ append_assoc pre (v ∷ []) (replicate n v ++ post)

replicate-split : (n m k v : ℕ) → k ≡ n + suc m → replicate k v ≡ replicate n v ++ v ∷ replicate m v
replicate-split zero m zero v e = absurd (omega arith)
replicate-split zero m (suc k) v e = let s : k ≡ m = omega arith in ap (λ t. v ∷ replicate t v) s
replicate-split (suc n) m zero v e = absurd (omega arith)
replicate-split (suc n) m (suc k) v e = ap (◌∷◌ v) (replicate-split n m k v (omega arith))

create_byte_mask_lem : (p : ℕ) → create_byte_mask (p % 8) + 1 ≡ 2 ^ (8 - p % 8)
unfolding create_byte_mask
create_byte_mask_lem p =
    omega (arith, pow_pos (8 - p % 8), pow_le (p % 8) (8 - p % 8) 8 (omega arith))

end_prefix_lem :
    (pre post : List ℕ) (b p : ℕ) (change : ℕ → ℕ) (v : ℕ)
    → length pre ≡ p / 8
    → length pre + suc (length post) ≡ 16
    → end_prefix (pre ++ b ∷ post) p change v ≡ some (pre ++ change b ∷ replicate (length post) v)
unfolding end_prefix with_byte
end_prefix_lem pre post b p change v e f =
    ap (λ o. with_byte o (λ c. after (set (pre ++ b ∷ post) i (change c))))
      (get_elem?-middle pre post b i (sym e))
    ∙ ap (λ s. some (after s))
        (set-middle pre post b (change b) i (sym e) ∙ sym (append_assoc pre (change b ∷ []) post))
    ∙ ap (λ s. some (fill_bytes ((pre ++ change b ∷ []) ++ s) (i + 1) (16 - (i + 1)) v))
        (sym (append-nil post))
    ∙ ap some (
        fill_bytes-middle (pre ++ change b ∷ []) post [] (i + 1) (16 - (i + 1)) v
          (omega (arith, length-append pre (change b ∷ []))) (omega arith))
    ∙ ap (λ s. some ((pre ++ change b ∷ []) ++ s)) (append-nil (replicate (16 - (i + 1)) v))
    ∙ ap some (append_assoc pre (change b ∷ []) (replicate (16 - (i + 1)) v))
    ∙ ap (λ n. some (pre ++ change b ∷ replicate n v)) left
  where
    i : ℕ
    i = p / 8

    after : List ℕ → List ℕ
    after s = fill_bytes s (i + 1) (16 - (i + 1)) v

    left : 16 - (i + 1) ≡ length post
    left = omega arith

subnet_bytes :
    (n m i ones : ℕ)
    → n ≡ i
    → n + suc m ≡ 16
    → with_byte
        (get_elem? (replicate 16 0) i)
        (λ b. fill_bytes (set (replicate 16 0) i ones) 0 i 0xff)
      ≡ some (replicate n 255 ++ ones ∷ replicate m 0)
unfolding with_byte
subnet_bytes n m i ones e f =
    ap (λ z. with_byte (get_elem? z i) (λ b. fill_bytes (set z i ones) 0 i 0xff))
      (replicate-split n m 16 0 (sym f))
    ∙ ap (λ o. with_byte o (λ b. fill_bytes (set zeros i ones) 0 i 0xff))
        (get_elem?-middle (replicate n 0) (replicate m 0) 0 i place)
    ∙ ap (λ s. some (fill_bytes s 0 i 0xff))
        (set-middle (replicate n 0) (replicate m 0) 0 ones i place)
    ∙ ap some (fill_bytes-middle [] (replicate n 0) (ones ∷ replicate m 0) 0 i 0xff refl place)
    ∙ ap (λ k. some (replicate k 255 ++ ones ∷ replicate m 0)) (sym e)
  where
    zeros : List ℕ
    zeros = replicate n 0 ++ 0 ∷ replicate m 0

    place : i ≡ length {A = ℕ} (replicate n 0)
    place = omega (arith, length-replicate {A = ℕ} n 0)

flipped : (p : ℕ) → bit_xor (create_byte_mask (p % 8)) 0xff ≡ 256 - 2 ^ (8 - p % 8)
flipped p =
    let below : 2 ^ (8 - p % 8) ≤ 2 ^ 8 = pow_le (p % 8) (8 - p % 8) 8 (omega arith) in
    omega (
      arith,
      xor_ones 8 (create_byte_mask (p % 8)) 0xff (omega (arith, create_byte_mask_lem p))
          (omega arith),
      create_byte_mask_lem p,
    )

-- Let a prefix end in the byte that is behind `pre`, with the bits `q` of that byte in it and `r`
-- behind it. `broadcastAddress` fills all bits behind the prefix; `networdAddress` keeps the
-- bytes `pre`, and of the byte where the prefix ends the bits behind it; and `subnetMask` has the
-- ones of the prefix.
pub networks_lem :
    (port p q r : ℕ) (pre post : List ℕ)
    → length pre ≡ p / 8
    → length pre + suc (length post) ≡ 16
    → r < 2 ^ (8 - p % 8)
    → (broadcast_address
          (record { sin6_port = port; s6_addr = pre ++ (r + q * 2 ^ (8 - p % 8)) ∷ post })
          p
        ≡ some (record {
          sin6_port = port;
          s6_addr =
              pre ++ (2 ^ (8 - p % 8) - 1 + q * 2 ^ (8 - p % 8)) ∷ replicate (length post) 255;
        }))
      × (netword_address
            (record { sin6_port = port; s6_addr = pre ++ (r + q * 2 ^ (8 - p % 8)) ∷ post })
            p
          ≡ some (record { sin6_port = port; s6_addr = pre ++ r ∷ replicate (length post) 0 }))
      × (subnet_mask p
          ≡ some (record {
            sin6_port = 0;
            s6_addr =
                replicate (length pre) 255 ++ (256 - 2 ^ (8 - p % 8)) ∷ replicate (length post) 0;
          }))
unfolding broadcast_address netword_address subnet_mask with_bytes new_ipv6
networks_lem port p q r pre post e f h =
    let b : ℕ = r + q * 2 ^ (8 - p % 8) in
    let m : ℕ = create_byte_mask (p % 8) in
    let addr : Ipv6Address = record { sin6_port = port; s6_addr = pre ++ b ∷ post } in
    (
      ap (with_bytes addr) (end_prefix_lem pre post b p (λ c. bit_or c m) 0xff e f)
          ∙ ap
              (λ t.
                some
                  (record { sin6_port = port; s6_addr = pre ++ t ∷ replicate (length post) 255 }))
              (omega (
                arith,
                or_ones (8 - p % 8) r q m b h (create_byte_mask_lem p) refl,
                create_byte_mask_lem p,
              )),
      ap (with_bytes addr) (end_prefix_lem pre post b p (λ c. bit_and c m) 0 e f)
          ∙ ap
              (λ t.
                some (record { sin6_port = port; s6_addr = pre ++ t ∷ replicate (length post) 0 }))
              (and_ones (8 - p % 8) r q m b h (create_byte_mask_lem p) refl),
      ap (with_bytes new_ipv6)
            (subnet_bytes (length pre) (length post) (p / 8) (bit_xor m 0xff) e f)
          ∙ ap
              (λ t. some (record {
                sin6_port = 0;
                s6_addr = replicate (length pre) 255 ++ t ∷ replicate (length post) 0;
              }))
              (flipped p),
    )
