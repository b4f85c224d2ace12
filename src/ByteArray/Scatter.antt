-- ===== src/ByteArray/Scatter.antt =====
-- The segments against the flat memory of the blocks.
use mnser.Common.{
  ℕ, zero, suc, ◌+◌, ◌-◌, ◌^◌, ◌≤◌, ◌<◌, List, [], ◌∷◌, ◌++◌, leb, sub_size, length, take, drop,
  All, ok,
}
use mnser.Common.{
  ◌≡◌, refl, ap, sym, ◌∙◌, arith, Bool-cases, inl, inr, append_assoc, append-nil, length-append,
  length-drop, leb→le, leb_false→lt,
}
use mnser.Common.Segments.{
  write_at, slice, write_at-nil, length-write_at, write_at-append_left, write_at-append_split,
  slice-append_left, slice-append_split,
}
use mnser.ByteArray.{Node}
use mnser.ByteArray.Blocks.{flat, Block}
use mnser.ByteArray.Buffers.{Iovec, fill, block, gather, put_into, scatter}

block-middle :
    (ms : List Node) (n : Node) (ns : List Node) → block (ms ++ n ∷ ns) (length ms) ≡ n.ptr
block-middle [] n ns = refl
block-middle (m ∷ ms) n ns = block-middle ms n ns

put_into-middle :
    (ms : List Node) (n : Node) (ns : List Node) (off : ℕ) (buf : List ℕ)
    → put_into (ms ++ n ∷ ns) (length ms) off buf
      ≡ ms ++ record n { ptr = write_at n.ptr off buf } ∷ ns
put_into-middle [] n ns off buf = refl
put_into-middle (m ∷ ms) n ns off buf = ap (◌∷◌ m) (put_into-middle ms n ns off buf)

take_short : (len : ℕ) (xs : List ℕ) → length xs ≤ len → take len xs ≡ xs
take_short zero [] h = refl
take_short (suc len) [] h = refl
take_short zero (x ∷ xs) h = absurd (omega arith)
take_short (suc len) (x ∷ xs) h = ap (◌∷◌ x) (take_short len xs (omega arith))

drop_short : (len : ℕ) (xs : List ℕ) → length xs ≤ len → drop len xs ≡ []
drop_short zero [] h = refl
drop_short (suc len) [] h = refl
drop_short zero (x ∷ xs) h = absurd (omega arith)
drop_short (suc len) (x ∷ xs) h = drop_short len xs (omega arith)

-- A write that may end in the first of two parts.
write_split :
    (xs ys : List ℕ) (off n : ℕ) (buf : List ℕ)
    → off + n ≡ length xs
    → write_at xs off (take n buf) ++ write_at ys 0 (drop n buf) ≡ write_at (xs ++ ys) off buf
write_split xs ys off n buf h = elim (Bool-cases (leb n (length buf))) [
  | inl crosses ↦ sym (write_at-append_split xs ys off n buf h (leb→le n (length buf) crosses))
  | inr ends ↦
      let short : length buf ≤ n = omega (arith, leb_false→lt n (length buf) ends) in
      rw (take_short n buf short, drop_short n buf short, write_at-nil ys 0)
        (sym (write_at-append_left xs ys off buf (omega arith)))
]

-- The segments for `len` bytes from the offset on, whatever the `k` blocks are that stand before.
pub record Filled (base k : ℕ) (ns : List Node) (npos len : ℕ) (iovs : List Iovec) : Type 0 where
  pub holds : (ms : List Node) → length ms ≡ k → gather (ms ++ ns) iovs ≡ slice (flat ns) npos len
  pub takes :
      (ms : List Node) (buf : List ℕ)
      → length ms ≡ k
      → length buf ≤ len
      → (r : List Node) × (scatter (ms ++ ns) iovs buf ≡ ms ++ r)
        × (flat r ≡ write_at (flat ns) npos buf)
        × All (Block base) r
        × (length r ≡ length ns)

fill_last :
    (base k : ℕ) (n : Node) (ns : List Node) (npos len : ℕ)
    → All (Block base) (n ∷ ns)
    → npos + len ≤ base
    → Filled base k (n ∷ ns) npos len (record { node = k; base = npos; iov_len = len } ∷ [])
fill_last base k n ns npos len h room = record {
  holds = λ ms at.
      append-nil _
      ∙ ap (λ x. slice x npos len) (ap (block (ms ++ n ∷ ns)) (sym at) ∙ block-middle ms n ns)
      ∙ sym (slice-append_left n.ptr (flat ns) npos len (omega (arith, h.0.1)));
  takes = λ ms buf at short. (
    record n { ptr = write_at n.ptr npos (take len buf) } ∷ ns,
    ap (λ j. put_into (ms ++ n ∷ ns) j npos (take len buf)) (sym at)
        ∙ put_into-middle ms n ns npos (take len buf),
    rw (take_short len buf short)
        (sym (write_at-append_left n.ptr (flat ns) npos buf (omega (arith, h.0.1)))),
    ((h.0.0, length-write_at n.ptr npos (take len buf) ∙ h.0.1), h.1),
    refl,
  );
}

fill_more :
    (base ncap k : ℕ) (n : Node) (ns : List Node) (npos len : ℕ) (iovs : List Iovec)
    → All (Block base) (n ∷ ns)
    → npos + ncap ≡ base
    → ncap < len
    → Filled base (suc k) ns 0 (len - ncap) iovs
    → Filled base k (n ∷ ns) npos len (record { node = k; base = npos; iov_len = ncap } ∷ iovs)
fill_more base ncap k n ns npos len iovs h room more f = record {
  holds = λ ms at.
      ap (◌++◌ (slice (block (ms ++ n ∷ ns) k) npos ncap)) (
        ap (λ l. gather l iovs) (sym (append_assoc ms (n ∷ []) ns))
        ∙ f.holds (ms ++ n ∷ []) (next ms n at))
      ∙ ap (λ x. slice x npos ncap ++ slice (flat ns) 0 (len - ncap))
          (ap (block (ms ++ n ∷ ns)) (sym at) ∙ block-middle ms n ns)
      ∙ sym (
          slice-append_split n.ptr (flat ns) npos ncap len (len - ncap) (omega (arith, h.0.1))
            (omega arith));
  takes = λ ms buf at short.
      let n' : Node = record n { ptr = write_at n.ptr npos (take ncap buf) } in
      let (r, e, fl, all, l) =
        f.takes (ms ++ n' ∷ []) (drop ncap buf) (next ms n' at)
          (omega (arith, length-drop ncap buf)) in
      (
        n' ∷ r,
        ap (λ j. scatter (put_into (ms ++ n ∷ ns) j npos (take ncap buf)) iovs (drop ncap buf))
              (sym at)
            ∙ ap (λ x. scatter x iovs (drop ncap buf))
                (put_into-middle ms n ns npos (take ncap buf) ∙ sym (append_assoc ms (n' ∷ []) ns))
            ∙ e
            ∙ append_assoc ms (n' ∷ []) r,
        ap (◌++◌ (write_at n.ptr npos (take ncap buf))) fl
            ∙ write_split n.ptr (flat ns) npos ncap buf (omega (arith, h.0.1)),
        ((h.0.0, length-write_at n.ptr npos (take ncap buf) ∙ h.0.1), all),
        ap suc l,
      );
}
  where
    next : (ms : List Node) (x : Node) → length ms ≡ k → length (ms ++ x ∷ []) ≡ suc k
    next ms x at = omega (arith, length-append ms (x ∷ []))

pub fill-Filled :
    (base k : ℕ) (ns : List Node) (npos len : ℕ)
    → base < 2 ^ 64
    → All (Block base) ns
    → npos < base
    → 0 < len
    → npos + len ≤ length (flat ns)
    → (iovs : List Iovec) × (fill ns k npos len ≡ ok iovs) × Filled base k ns npos len iovs
unfolding fill
fill-Filled base k [] npos len hb h hp hl hf = absurd (omega arith)
fill-Filled base k (n ∷ ns) npos len hb h hp hl hf =
    let ncap = sub_size n.size npos in
    let room : npos + ncap ≡ base = omega (arith, h.0.0) in
    elim (Bool-cases (leb len ncap)) [
      | inl fits ↦ (
        _,
        rw fits refl,
        fill_last base k n ns npos len h (omega (arith, room, leb→le len ncap fits)),
      )
      | inr more ↦
          let past : ncap < len = leb_false→lt len ncap more in
          let (iovs, e, f) =
            fill-Filled base (suc k) ns 0 (len - ncap) hb h.1 (omega arith) (omega arith)
              (omega (arith, past, room, h.0.1, length-append n.ptr (flat ns))) in
          (
            record { node = k; base = npos; iov_len = ncap } ∷ iovs,
            rw (more, e) refl,
            fill_more base ncap k n ns npos len iovs h room past f,
          )
    ]
