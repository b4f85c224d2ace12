-- ===== src/Common/Segments.antt =====
-- A buffer overwritten and read at an offset: `memcpy` into and out of a block.
use Prim.Native.Nat.{ℕ, zero, suc, max, ◌+◌, ◌≤◌}
use mathlib.Core.Path.{◌≡◌, refl, ap, sym, ◌∙◌}
use mathlib.Core.List.{List, [], ◌∷◌, ◌++◌, append_assoc}
use native.Mathlib.Omega.{arith}
use mnser.Common.Lists.{length, take, drop, take-append-drop, length-append, length-take}

module _ {ℓ} {A : Type ℓ} where
  -- `memcpy(dst + off, src, n)`; what does not fit is lost.
  unfoldable pub write_at : List A → ℕ → List A → List A
  write_at [] off buf = []
  write_at (x ∷ xs) (suc off) buf = x ∷ write_at xs off buf
  write_at (x ∷ xs) zero [] = x ∷ xs
  write_at (x ∷ xs) zero (b ∷ bs) = b ∷ write_at xs zero bs

  -- `memcpy(dst, src + off, n)`
  abbrev pub slice : List A → ℕ → ℕ → List A
  slice xs off n = take n (drop off xs)

  pub length-write_at :
      (xs : List A) (off : ℕ) (buf : List A) → length (write_at xs off buf) ≡ length xs
  unfolding write_at
  length-write_at [] off buf = refl
  length-write_at (x ∷ xs) (suc off) buf = ap suc (length-write_at xs off buf)
  length-write_at (x ∷ xs) zero [] = refl
  length-write_at (x ∷ xs) zero (b ∷ bs) = ap suc (length-write_at xs zero bs)

  pub write_at-nil : (xs : List A) (off : ℕ) → write_at xs off [] ≡ xs
  unfolding write_at
  write_at-nil [] off = refl
  write_at-nil (x ∷ xs) zero = refl
  write_at-nil (x ∷ xs) (suc off) = ap (◌∷◌ x) (write_at-nil xs off)

  pub write_at-append_left :
      (xs ys : List A) (off : ℕ) (buf : List A)
      → off + length buf ≤ length xs
      → write_at (xs ++ ys) off buf ≡ write_at xs off buf ++ ys
  unfolding write_at
  write_at-append_left [] ys zero [] h = write_at-nil ys zero
  write_at-append_left [] ys zero (b ∷ bs) h = absurd (omega arith)
  write_at-append_left [] ys (suc off) buf h = absurd (omega arith)
  write_at-append_left (x ∷ xs) ys (suc off) buf h =
      ap (◌∷◌ x) (write_at-append_left xs ys off buf (omega arith))
  write_at-append_left (x ∷ xs) ys zero [] h = refl
  write_at-append_left (x ∷ xs) ys zero (b ∷ bs) h =
      ap (◌∷◌ b) (write_at-append_left xs ys zero bs (omega arith))

  -- `at` is a position behind the first part.
  pub write_at-append_right :
      (xs ys : List A) (pos off : ℕ) (buf : List A)
      → pos ≡ length xs + off
      → write_at (xs ++ ys) pos buf ≡ xs ++ write_at ys off buf
  unfolding write_at
  write_at-append_right [] ys pos off buf h =
      let e : pos ≡ off = omega arith in ap (λ k. write_at ys k buf) e
  write_at-append_right (x ∷ xs) ys zero off buf h = absurd (omega arith)
  write_at-append_right (x ∷ xs) ys (suc pos) off buf h =
      ap (◌∷◌ x) (write_at-append_right xs ys pos off buf (omega arith))

  -- A write across the border of two blocks is a write into each.
  pub write_at-append_split :
      (xs ys : List A) (off n : ℕ) (buf : List A)
      → off + n ≡ length xs
      → n ≤ length buf
      → write_at (xs ++ ys) off buf ≡ write_at xs off (take n buf) ++ write_at ys 0 (drop n buf)
  unfolding write_at
  write_at-append_split [] ys off zero buf h k =
      let e : off ≡ 0 = omega arith in ap (λ k. write_at ys k buf) e
  write_at-append_split [] ys off (suc n) buf h k = absurd (omega arith)
  write_at-append_split (x ∷ xs) ys (suc off) n buf h k =
      ap (◌∷◌ x) (write_at-append_split xs ys off n buf (omega arith) k)
  write_at-append_split (x ∷ xs) ys zero zero buf h k = absurd (omega arith)
  write_at-append_split (x ∷ xs) ys zero (suc n) [] h k = absurd (omega arith)
  write_at-append_split (x ∷ xs) ys zero (suc n) (b ∷ bs) h k =
      ap (◌∷◌ b) (write_at-append_split xs ys zero n bs (omega arith) (omega arith))

  pub slice-append_left :
      (xs ys : List A) (off n : ℕ) → off + n ≤ length xs → slice (xs ++ ys) off n ≡ slice xs off n
  slice-append_left xs ys zero zero h = refl
  slice-append_left [] ys zero (suc n) h = absurd (omega arith)
  slice-append_left [] ys (suc off) n h = absurd (omega arith)
  slice-append_left (x ∷ xs) ys zero (suc n) h =
      ap (◌∷◌ x) (slice-append_left xs ys zero n (omega arith))
  slice-append_left (x ∷ xs) ys (suc off) n h = slice-append_left xs ys off n (omega arith)

  pub slice-append_right :
      (xs ys : List A) (pos off n : ℕ)
      → pos ≡ length xs + off
      → slice (xs ++ ys) pos n ≡ slice ys off n
  slice-append_right [] ys pos off n h = let e : pos ≡ off = omega arith in ap (λ k. slice ys k n) e
  slice-append_right (x ∷ xs) ys zero off n h = absurd (omega arith)
  slice-append_right (x ∷ xs) ys (suc pos) off n h =
      slice-append_right xs ys pos off n (omega arith)

  pub slice-append_split :
      (xs ys : List A) (off n m k : ℕ)
      → off + n ≡ length xs
      → m ≡ n + k
      → slice (xs ++ ys) off m ≡ slice xs off n ++ slice ys 0 k
  slice-append_split [] ys off (suc n) m k h e = absurd (omega arith)
  slice-append_split [] ys zero zero m k h e =
      let e' : m ≡ k = omega arith in ap (λ j. slice ys 0 j) e'
  slice-append_split [] ys (suc off) zero m k h e = absurd (omega arith)
  slice-append_split (x ∷ xs) ys (suc off) n m k h e =
      slice-append_split xs ys off n m k (omega arith) e
  slice-append_split (x ∷ xs) ys zero zero m k h e = absurd (omega arith)
  slice-append_split (x ∷ xs) ys zero (suc n) zero k h e = absurd (omega arith)
  slice-append_split (x ∷ xs) ys zero (suc n) (suc m) k h e =
      ap (◌∷◌ x) (slice-append_split xs ys zero n m k (omega arith) (omega arith))

  -- What was written is read back.
  pub slice-write_at :
      (xs : List A) (off : ℕ) (buf : List A)
      → off + length buf ≤ length xs
      → slice (write_at xs off buf) off (length buf) ≡ buf
  unfolding write_at
  slice-write_at [] zero [] h = refl
  slice-write_at [] zero (b ∷ bs) h = absurd (omega arith)
  slice-write_at [] (suc off) buf h = absurd (omega arith)
  slice-write_at (x ∷ xs) (suc off) buf h = slice-write_at xs off buf (omega arith)
  slice-write_at (x ∷ xs) zero [] h = refl
  slice-write_at (x ∷ xs) zero (b ∷ bs) h = ap (◌∷◌ b) (slice-write_at xs zero bs (omega arith))

  -- A write of a file: what stands before and behind it stays, and the file grows at need.
  unfoldable pub overwrite : List A → ℕ → List A → List A
  overwrite xs pos buf = take pos xs ++ (buf ++ drop (pos + length buf) xs)

module _ {ℓ} {A : Type ℓ} where
  pub drop-nil : (n : ℕ) → drop {A = A} n [] ≡ []
  drop-nil zero = refl
  drop-nil (suc n) = refl

  -- The first `m` bytes of an overwritten block are the overwritten first `size` bytes, where `m`
  -- is the larger of `size` and the end `e` of what is written.
  pub take-write_at :
      (xs : List A) (size pos e m : ℕ) (buf : List A)
      → pos ≤ size
      → size ≤ length xs
      → e ≡ pos + length buf
      → e ≤ length xs
      → max size e ≡ m
      → take m (write_at xs pos buf) ≡ take pos (take size xs) ++ (buf ++ drop e (take size xs))
  unfolding write_at
  take-write_at xs size zero zero m [] h hs he hx hm =
      let k : m ≡ size = omega arith in rw (write_at-nil xs zero, k) refl
  take-write_at xs size zero (suc e) m [] h hs he hx hm = absurd (omega arith)
  take-write_at xs size zero zero m (b ∷ bs) h hs he hx hm = absurd (omega arith)
  take-write_at xs size zero (suc e) zero (b ∷ bs) h hs he hx hm = absurd (omega arith)
  take-write_at [] size zero (suc e) (suc m) (b ∷ bs) h hs he hx hm = absurd (omega arith)
  take-write_at (x ∷ xs) zero zero (suc e) (suc m) (b ∷ bs) h hs he hx hm = ap (◌∷◌ b) (
      take-write_at xs zero zero e m bs (omega arith) (omega arith) (omega arith) (omega arith)
        (omega arith)
      ∙ ap (◌++◌ bs) (drop-nil e))
  take-write_at (x ∷ xs) (suc size) zero (suc e) (suc m) (b ∷ bs) h hs he hx hm = ap (◌∷◌ b) (
      take-write_at xs size zero e m bs (omega arith) (omega arith) (omega arith) (omega arith)
        (omega arith))
  take-write_at xs zero (suc pos) e m buf h hs he hx hm = absurd (omega arith)
  take-write_at [] (suc size) (suc pos) e m buf h hs he hx hm = absurd (omega arith)
  take-write_at (x ∷ xs) (suc size) (suc pos) zero m buf h hs he hx hm = absurd (omega arith)
  take-write_at (x ∷ xs) (suc size) (suc pos) (suc e) zero buf h hs he hx hm = absurd (omega arith)
  take-write_at (x ∷ xs) (suc size) (suc pos) (suc e) (suc m) buf h hs he hx hm = ap (◌∷◌ x) (
      take-write_at xs size pos e m buf (omega arith) (omega arith) (omega arith) (omega arith)
        (omega arith))

  pub slice-take :
      (xs : List A) (size pos n : ℕ) → pos + n ≤ size → slice (take size xs) pos n ≡ slice xs pos n
  slice-take xs size pos zero h = refl
  slice-take xs zero pos (suc n) h = absurd (omega arith)
  slice-take [] (suc size) pos (suc n) h = refl
  slice-take (x ∷ xs) (suc size) zero (suc n) h =
      ap (◌∷◌ x) (slice-take xs size zero n (omega arith))
  slice-take (x ∷ xs) (suc size) (suc pos) (suc n) h = slice-take xs size pos (suc n) (omega arith)

  pub overwrite-nil : (xs : List A) (pos : ℕ) → overwrite xs pos [] ≡ xs
  unfolding overwrite
  overwrite-nil xs pos = let e : pos + 0 ≡ pos = omega arith in rw e (take-append-drop pos xs)

  take_front : (bs rest : List A) → take (length bs) (bs ++ rest) ≡ bs
  take_front [] rest = refl
  take_front (b ∷ bs) rest = ap (◌∷◌ b) (take_front bs rest)

  slice_behind :
      (xs : List A) (pos : ℕ) (buf rest : List A)
      → pos ≤ length xs
      → slice (take pos xs ++ (buf ++ rest)) pos (length buf) ≡ buf
  slice_behind xs zero buf rest h = take_front buf rest
  slice_behind [] (suc pos) buf rest h = absurd (omega arith)
  slice_behind (x ∷ xs) (suc pos) buf rest h = slice_behind xs pos buf rest (omega arith)

  -- Reading at the position that was overwritten gives what was written.
  pub slice-overwrite :
      (xs : List A) (pos : ℕ) (buf : List A)
      → pos ≤ length xs
      → slice (overwrite xs pos buf) pos (length buf) ≡ buf
  unfolding overwrite
  slice-overwrite xs pos buf h = slice_behind xs pos buf _ h

module _ {ℓ} {A : Type ℓ} where
  pub drop-drop : (n m k : ℕ) (xs : List A) → k ≡ n + m → drop k xs ≡ drop m (drop n xs)
  drop-drop zero m k xs h = let e : k ≡ m = omega arith in ap (λ t. drop t xs) e
  drop-drop (suc n) m zero xs h = absurd (omega arith)
  drop-drop (suc n) m (suc k) [] h = sym (drop-nil m)
  drop-drop (suc n) m (suc k) (x ∷ xs) h = drop-drop n m k xs (omega arith)

  pub take_all : (xs : List A) (n : ℕ) → n ≡ length xs → take n xs ≡ xs
  take_all [] zero h = refl
  take_all [] (suc n) h = refl
  take_all (x ∷ xs) zero h = absurd (omega arith)
  take_all (x ∷ xs) (suc n) h = ap (◌∷◌ x) (take_all xs n (omega arith))

  -- A segment of two parts is the two segments.
  pub slice_front :
      (l xs ys : List A) (p n : ℕ)
      → n ≡ length xs + length ys
      → slice l p n ≡ xs ++ ys
      → (slice l p (length xs) ≡ xs) × (slice l (p + length xs) (length ys) ≡ ys)
  slice_front l xs ys p n e h = (
    sym (slice-take (drop p l) n 0 (length xs) (omega arith))
        ∙ ap (take (length xs)) h
        ∙ slice-append_left xs ys 0 (length xs) (omega arith)
        ∙ take_all xs (length xs) refl,
    ap (take (length ys)) (drop-drop p (length xs) _ l refl)
        ∙ sym (slice-take (drop p l) n (length xs) (length ys) (omega arith))
        ∙ ap (λ t. slice t (length xs) (length ys)) h
        ∙ slice-append_right xs ys (length xs) 0 (length ys) (omega arith)
        ∙ take_all ys (length ys) refl,
  )

  drop-append : (pre r : List A) (q m : ℕ) → q ≡ length pre + m → drop q (pre ++ r) ≡ drop m r
  drop-append [] r q m h = let e : q ≡ m = omega arith in ap (λ t. drop t r) e
  drop-append (x ∷ pre) r zero m h = absurd (omega arith)
  drop-append (x ∷ pre) r (suc q) m h = drop-append pre r q m (omega arith)

  take-append : (pre r : List A) (q : ℕ) → q ≡ length pre → take q (pre ++ r) ≡ pre
  take-append pre r q h = slice-append_left pre r 0 q (omega arith) ∙ take_all pre q h

  -- Two writes one behind the other are one write.
  pub overwrite-overwrite :
      (l xs ys : List A) (p q : ℕ)
      → p ≤ length l
      → q ≡ p + length xs
      → overwrite (overwrite l p xs) q ys ≡ overwrite l p (xs ++ ys)
  unfolding overwrite
  overwrite-overwrite l xs ys p q h e =
      let r = drop (p + length xs) l in
      let pre : List A = take p l ++ xs in
      let n : q ≡ length pre = omega (arith, length-append (take p l) xs, length-take p l) in
      ap (λ t. take q t ++ (ys ++ drop (q + length ys) t)) (sym (append_assoc (take p l) xs r))
      ∙ ap (λ t. t ++ (ys ++ drop (q + length ys) (pre ++ r))) (take-append pre r q n)
      ∙ ap (λ t. pre ++ (ys ++ t))
          (drop-append pre r (q + length ys) (length ys) (omega arith)
            ∙ sym (
                drop-drop (p + length xs) (length ys) (p + length (xs ++ ys)) l
                  (omega (arith, length-append xs ys))))
      ∙ append_assoc (take p l) xs _
      ∙ ap (◌++◌ (take p l)) (sym (append_assoc xs ys _))
