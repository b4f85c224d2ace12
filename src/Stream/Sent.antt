-- ===== src/Stream/Sent.antt =====
-- The loop that writes a buffer ends, and sends it.
use mnser.Common.{
  ℕ, zero, suc, ◌+◌, ◌^◌, ◌≤◌, ◌<◌, List, [], ◌∷◌, ◌++◌, Option, none, some, ◌==◌, length, take,
  drop, false, true,
}
use mnser.Common.{
  ◌≡◌, refl, ap, sym, ◌∙◌, arith, append_assoc, append-nil, length-drop, take-append-drop,
  Bool-cases, inl, inr, ◌⊎◌,
}
use mnser.Stream.{
  ReturnCode, nonneg, minus, Count, stopped, moved, returned, write_loop, write_fix_size,
}

-- A stream that has been sent the bytes `sent`: a `write` sends some of the first bytes it is given.
pub record Writes {S : Type 0} (write : S → List ℕ → Count × S) (sent : S → List ℕ) : Type 0 where
  pub first :
      (s s' : S) (buf : List ℕ) (n : ℕ)
      → write s buf ≡ (moved n, s')
      → (sent s' ≡ sent s ++ take (suc n) buf) × (suc n ≤ length buf)
  pub nothing : (s s' : S) (buf : List ℕ) (n : ℕ) → write s buf ≡ (stopped n, s') → sent s' ≡ sent s

-- What `write_loop` ends with.
pub data WriteResult {S : Type 0} (sent : S → List ℕ) (s : S) (left : List ℕ)
    : Option ReturnCode × S → Type 0 where
  complete_write : (s' : S) → sent s' ≡ sent s ++ left → WriteResult sent s left (none, s')
  broken_write :
      (s' : S) (k n : ℕ)
      → sent s' ≡ sent s ++ take k left
      → k < length left
      → WriteResult sent s left (some (minus n), s')

take_nil {ℓ} : {A : Type ℓ} (n : ℕ) → take {A = A} n [] ≡ []
take_nil zero = refl
take_nil (suc n) = refl

take_more {ℓ} :
    {A : Type ℓ} (n k : ℕ) (xs : List A) → take n xs ++ take k (drop n xs) ≡ take (n + k) xs
take_more zero k xs = ap (λ m. take m xs) (omega arith)
take_more (suc n) k [] = take_nil k ∙ sym (take_nil (suc n + k))
take_more (suc n) k (x ∷ xs) =
    let e : suc (n + k) ≡ suc n + k = omega arith in
    ap (◌∷◌ x) (take_more n k xs) ∙ ap (λ m. take m (x ∷ xs)) e

module _ {S : Type 0} (write : S → List ℕ → Count × S) (sent : S → List ℕ)
    (law : Writes write sent) where
  further :
      (s s' : S) (left : List ℕ) (m : ℕ) (r : Option ReturnCode × S)
      → sent s' ≡ sent s ++ take m left
      → m ≤ length left
      → WriteResult sent s' (drop m left) r
      → WriteResult sent s left r
  further s s' left m r f l (complete_write t e) = complete_write t (
      e
      ∙ ap (λ x. x ++ drop m left) f
      ∙ append_assoc (sent s) (take m left) (drop m left)
      ∙ ap (◌++◌ (sent s)) (take-append-drop m left))
  further s s' left m r f l (broken_write t k n e h) =
      broken_write t (m + k) n
        (e
          ∙ ap (λ x. x ++ take k (drop m left)) f
          ∙ append_assoc (sent s) (take m left) (take k (drop m left))
          ∙ ap (◌++◌ (sent s)) (take_more m k left))
        (omega (arith, length-drop m left))

  abbrev Ends : ℕ → Type 0
  Ends fuel =
      (s : S) (left : List ℕ)
      → length left < fuel
      → (r : Option ReturnCode × S) × (write_loop write fuel s left ≡ some r)
        × WriteResult sent s left r

  empty : (xs : List ℕ) → (length xs == 0) ≡ true → xs ≡ []
  empty [] h = refl
  empty (x ∷ xs) h = absurd (ground arith)

  one_write :
      (fuel : ℕ) (s : S) (left : List ℕ) (o : Count × S)
      → Ends fuel
      → length left < suc fuel
      → write s left ≡ o
      → (length left == 0) ≡ false
      → (r : Option ReturnCode × S) × ((elim o.0 as (λ x. Option (Option ReturnCode × S)) [
        | stopped n ↦ some (some (minus n), o.1)
        | moved n ↦ write_loop write fuel o.1 (drop (suc n) left)
      ])
          ≡ some r)
        × WriteResult sent s left r
  one_write fuel s left (stopped n, s') ih h e more = (
    (some (minus n), s'),
    refl,
    broken_write s' 0 n (law.nothing s s' left n e ∙ sym (append-nil (sent s))) (ground arith),
  )
  one_write fuel s left (moved n, s') ih h e more =
      let (f, l) = law.first s s' left n e in
      let (r, e', o) = ih s' (drop (suc n) left) (omega (arith, length-drop (suc n) left)) in
      (r, e', further s s' left (suc n) r f l o)

  write_loop_lem : (fuel : ℕ) → Ends fuel
  unfolding write_loop
  write_loop_lem zero s left h = absurd (omega arith)
  write_loop_lem (suc fuel) s left h = elim (Bool-cases (length left == 0)) [
    | inl done ↦ rw done (
      (none, s),
      refl,
      complete_write s (sym (append-nil (sent s)) ∙ ap (◌++◌ (sent s)) (sym (empty left done))),
    )
    | inr more ↦
        rw more
          (one_write fuel s left (write s left) (λ s' l k. write_loop_lem fuel s' l k) h refl more)
  ]

  -- `writeFixSize` of a buffer ends, whatever sizes the writes have. If it returns the length, below
  -- 2 ^ 31, the whole buffer was sent, in its order; a value that is not positive is that of a write that
  -- failed, and a first part of the buffer was sent.
  pub write_fix_size_lem :
      (s : S) (buffer : List ℕ)
      → length buffer < 2 ^ 31
      → (v : ReturnCode) × (s' : S) × (write_fix_size write s buffer ≡ some (v, s'))
        × ((v ≡ nonneg (length buffer)) × (sent s' ≡ sent s ++ buffer)
            ⊎ (((n : ℕ) × (v ≡ minus n))
                × ((k : ℕ) × (k < length buffer) × (sent s' ≡ sent s ++ take k buffer))))
  unfolding write_fix_size
  write_fix_size_lem s buffer small =
      let (r, e, o) = write_loop_lem (length buffer + 1) s buffer (omega arith) in
      rw (e, write_fix_size) (go r o)
    where
      go :
          (r : Option ReturnCode × S)
          → WriteResult sent s buffer r
          → (v : ReturnCode) × (s' : S) × ◌≡◌ {A = Option (ReturnCode × S)}
              (some (returned (length buffer) r.0, r.1))
              (some (v, s'))
            × ((v ≡ nonneg (length buffer)) × (sent s' ≡ sent s ++ buffer)
                ⊎ (((n : ℕ) × (v ≡ minus n))
                    × ((k : ℕ) × (k < length buffer) × (sent s' ≡ sent s ++ take k buffer))))
      go r (complete_write t f) = (_, t, refl, inl (ground arith, f))
      go r (broken_write t k n f h) = (minus n, t, refl, inr ((n, refl), (k, h, f)))
