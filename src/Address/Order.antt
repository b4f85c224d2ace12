-- ===== src/Address/Order.antt =====
-- The comparison of addresses: the order of a dictionary on their bytes.
use mnser.Common.{ℕ, zero, suc, ◌<◌, ◌≤◌, min, List, [], ◌∷◌, Bool, true, false, ◌≡◌, refl}
use mnser.Common.{
  ◌↔◌, ◌⊎◌, inl, inr, ltb, length, take, arith, Bool-cases, ==_iff, length-take, ltb→lt, lt→ltb, ap,
  subst, sym,
}
use mnser.Address.{Sign, lower, same, higher, memcmp, Address, is_zero, decide_less, less, equal}

-- Dictionary order on sequences of bytes.
unfoldable pub Precedes : List ℕ → List ℕ → Type 0
Precedes a [] = ⊥
Precedes [] (y ∷ b) = Unit
Precedes (x ∷ a) (y ∷ b) = (x < y) ⊎ ((x ≡ y) × Precedes a b)

unfoldable pub bytes_of : Address → List ℕ
bytes_of a = take a.addr_len a.addr

-- The structure has as many bytes as the length says.
unfoldable pub Inside : Address → Type 0
Inside a = a.addr_len ≤ length a.addr

decide_suc : (s : Sign) (n m : ℕ) → decide_less s (suc n) (suc m) ≡ decide_less s n m
unfolding decide_less
decide_suc lower n m = refl
decide_suc same n m = ground arith
decide_suc higher n m = refl

not_below :
    (x y : ℕ) (a b : List ℕ) (n m : ℕ)
    → y < x
    → (x < y) ⊎ ((x ≡ y) × Precedes (take n a) (take m b))
    → ⊥
not_below x y a b n m h (inl p) = absurd (omega arith)
not_below x y a b n m h (inr p) = absurd (omega (arith, p.0))

decide_less-Precedes :
    (a b : List ℕ) (n m k : ℕ)
    → n ≤ length a
    → m ≤ length b
    → k ≡ min n m
    → (decide_less (memcmp a b k) n m ≡ true) ↔ Precedes (take n a) (take m b)
unfolding decide_less memcmp Precedes
decide_less-Precedes a b zero zero zero l r e = ((λ h. absurd (ground (arith, h))), (λ p. absurd p))
decide_less-Precedes a [] zero (suc m) zero l r e = absurd (omega arith)
decide_less-Precedes a (y ∷ b) zero (suc m) zero l r e =
    ((λ h. tt), (λ p. lt→ltb 0 (suc m) (omega arith)))
decide_less-Precedes a b zero m (suc k) l r e = absurd (omega arith)
decide_less-Precedes [] b (suc n) m k l r e = absurd (omega arith)
decide_less-Precedes (x ∷ a) b (suc n) zero zero l r e =
    ((λ h. absurd (ground (arith, h))), (λ p. absurd p))
decide_less-Precedes (x ∷ a) b (suc n) zero (suc k) l r e = absurd (omega arith)
decide_less-Precedes (x ∷ a) [] (suc n) (suc m) k l r e = absurd (omega arith)
decide_less-Precedes (x ∷ a) (y ∷ b) (suc n) (suc m) zero l r e = absurd (omega arith)
decide_less-Precedes (x ∷ a) (y ∷ b) (suc n) (suc m) (suc k') l r e =
    let ih = decide_less-Precedes a b n m k' (omega arith) (omega arith) (omega arith) in
    elim (Bool-cases (ltb x y)) [
      | inl h ↦ rw h ((λ e. inl (ltb→lt x y h)), (λ p. refl))
      | inr h ↦ elim (Bool-cases (ltb y x)) [
        | inl k ↦
            rw (h, k)
              (
                (λ e. absurd (ground (arith, e))),
                (λ p. absurd (not_below x y a b n m (ltb→lt y x k) p)),
              )
        | inr k ↦
            rw (h, k) rw (decide_suc (memcmp a b k') n m)
              (
                (λ e. inr (ground arith, ih.0 e)),
                (λ p. elim p [ inl q ↦ absurd (ground (arith, q)) | inr q ↦ ih.1 q.1 ]),
              )
      ]
    ]

order-total : (a b : List ℕ) → Precedes a b ⊎ ((a ≡ b) ⊎ Precedes b a)
unfolding Precedes
order-total [] [] = inr (inl refl)
order-total [] (y ∷ b) = inl tt
order-total (x ∷ a) [] = inr (inr tt)
order-total (x ∷ a) (y ∷ b) = elim (Bool-cases (ltb x y)) [
  | inl h ↦ inl (inl (ltb→lt x y h))
  | inr h ↦ elim (Bool-cases (ltb y x)) [
    | inl k ↦ inr (inr (inl (ltb→lt y x k)))
    | inr k ↦
        let e : x ≡ y = ground arith in
        elim (order-total a b) [
          | inl p ↦ inl (inr (e, p))
          | inr q ↦ elim q [ inl s ↦ inr (inl cc) | inr s ↦ inr (inr (inr (sym e, s))) ]
        ]
  ]
]

order_trans : (a b c : List ℕ) → Precedes a b → Precedes b c → Precedes a c
unfolding Precedes
order_trans a b [] p q = absurd q
order_trans a [] (z ∷ c) p q = absurd p
order_trans [] (y ∷ b) (z ∷ c) p q = tt
order_trans (x ∷ a) (y ∷ b) (z ∷ c) (inl p) (inl q) = inl (omega arith)
order_trans (x ∷ a) (y ∷ b) (z ∷ c) (inl p) (inr q) = inl (omega (arith, q.0))
order_trans (x ∷ a) (y ∷ b) (z ∷ c) (inr p) (inl q) = inl (omega (arith, p.0))
order_trans (x ∷ a) (y ∷ b) (z ∷ c) (inr p) (inr q) =
    inr (omega (arith, p.0, q.0), order_trans a b c p.1 q.1)

order_irrefl : (a : List ℕ) → Precedes a a → ⊥
unfolding Precedes
order_irrefl [] p = p
order_irrefl (x ∷ a) (inl p) = absurd (omega arith)
order_irrefl (x ∷ a) (inr p) = order_irrefl a p.1

equal-bytes :
    (a b : List ℕ) (n : ℕ)
    → n ≤ length a
    → n ≤ length b
    → (is_zero (memcmp a b n) ≡ true) ↔ (take n a ≡ take n b)
unfolding is_zero memcmp
equal-bytes a b zero l r = ((λ h. refl), (λ h. refl))
equal-bytes [] b (suc n) l r = absurd (omega arith)
equal-bytes (x ∷ a) [] (suc n) l r = absurd (omega arith)
equal-bytes (x ∷ a) (y ∷ b) (suc n) l r =
    let ih = equal-bytes a b n (omega arith) (omega arith) in
    elim (Bool-cases (ltb x y)) [
      | inl h ↦ rw h ((λ e. absurd (ground (arith, e))), (λ e. absurd (ground (arith, e))))
      | inr h ↦ elim (Bool-cases (ltb y x)) [
        | inl k ↦ rw (h, k) ((λ e. absurd (ground (arith, e))), (λ e. absurd (ground (arith, e))))
        | inr k ↦
            rw (h, k)
              (let s : x ≡ y = ground arith in
                ((λ e. let t = ih.0 e in cc), (λ e. ih.1 (let t : take n a ≡ take n b = cc in t))))
      ]
    ]

not_true : (b : Bool) → (b ≡ true → ⊥) → b ≡ false
not_true true f = absurd (f refl)
not_true false f = refl

pub less-Precedes :
    (a b : Address) → Inside a → Inside b → (less a b ≡ true) ↔ Precedes (bytes_of a) (bytes_of b)
unfolding less bytes_of Inside
less-Precedes a b i j =
    decide_less-Precedes a.addr b.addr a.addr_len b.addr_len (min a.addr_len b.addr_len) i j refl

pub equal_iff :
    (a b : Address) → Inside a → Inside b → (equal a b ≡ true) ↔ (bytes_of a ≡ bytes_of b)
unfolding equal bytes_of Inside
equal_iff a b i j = (fore, back)
  where
    fore : equal a b ≡ true → take a.addr_len a.addr ≡ take b.addr_len b.addr
    fore e =
        let n : a.addr_len ≡ b.addr_len = ground arith in
        let z : is_zero (memcmp a.addr b.addr a.addr_len) ≡ true = ground arith in
        let same_bytes = (equal-bytes a.addr b.addr a.addr_len i (omega arith)).0 z in
        subst (λ m. take a.addr_len a.addr ≡ take m b.addr) n same_bytes

    back : take a.addr_len a.addr ≡ take b.addr_len b.addr → equal a b ≡ true
    back e =
        let n : a.addr_len ≡ b.addr_len =
          omega
            (arith, ap length e, length-take a.addr_len a.addr, length-take b.addr_len b.addr) in
        let same_bytes = subst (λ m. take a.addr_len a.addr ≡ take m b.addr) (sym n) e in
        let z = (equal-bytes a.addr b.addr a.addr_len i (omega arith)).1 same_bytes in
        ground (arith, (==_iff a.addr_len b.addr_len).1 n, z)

-- On addresses whose bytes are as many as their lengths say, `operator<` is the dictionary order
-- of the bytes and `operator==` is their equality; of two addresses one is less, or they are
-- equal, and no two of the three hold at once; and `operator<` is transitive.
pub less_lem :
    (a b c : Address)
    → Inside a
    → Inside b
    → Inside c
    → ((less a b ≡ true) ↔ Precedes (bytes_of a) (bytes_of b))
      × ((equal a b ≡ true) ↔ (bytes_of a ≡ bytes_of b))
      × ((less a b ≡ true) ⊎ ((equal a b ≡ true) ⊎ (less b a ≡ true)))
      × (less a b ≡ true → (equal a b ≡ false) × (less b a ≡ false))
      × (less a b ≡ true → less b c ≡ true → less a c ≡ true)
less_lem a b c i j k = (less-Precedes a b i j, equal_iff a b i j, total, alone, through)
  where
    total : (less a b ≡ true) ⊎ ((equal a b ≡ true) ⊎ (less b a ≡ true))
    total = elim (order-total (bytes_of a) (bytes_of b)) [
      | inl p ↦ inl ((less-Precedes a b i j).1 p)
      | inr q ↦ elim q [
        | inl e ↦ inr (inl ((equal_iff a b i j).1 e))
        | inr p ↦ inr (inr ((less-Precedes b a j i).1 p))
      ]
    ]

    alone : less a b ≡ true → (equal a b ≡ false) × (less b a ≡ false)
    alone h =
        let p = (less-Precedes a b i j).0 h in
        (
          not_true (equal a b) (λ e.
              order_irrefl (bytes_of b)
                (subst (λ t. Precedes t (bytes_of b)) ((equal_iff a b i j).0 e) p)),
          not_true (less b a) (λ e.
              order_irrefl (bytes_of a) (
                order_trans (bytes_of a) (bytes_of b) (bytes_of a) p
                  ((less-Precedes b a j i).0 e))),
        )

    through : less a b ≡ true → less b c ≡ true → less a c ≡ true
    through h g = (less-Precedes a c i k).1 (
        order_trans (bytes_of a) (bytes_of b) (bytes_of c) ((less-Precedes a b i j).0 h)
          ((less-Precedes b c j k).0 g))
