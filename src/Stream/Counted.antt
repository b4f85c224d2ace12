-- ===== src/Stream/Counted.antt =====
-- The loops over a ByteArray end, and move as much as they were asked to.
use mnser.Common.{ℕ, zero, suc, ◌+◌, ◌-◌, ◌^◌, ◌≤◌, ◌<◌, Option, none, some, ◌==◌, false}
use mnser.Common.{◌≡◌, refl, arith, ==_iff, Bool-cases, inl, inr, ◌⊎◌}
use mnser.Stream.{
  ReturnCode, nonneg, minus, Count, stopped, moved, returned, move_loop, move_fix_size,
}

-- A `read` or `write` of so many bytes, by the number of all that were moved so far.
pub record Moves {S : Type 0} (step : S → ℕ → Count × S) (total : S → ℕ) : Type 0 where
  pub some :
      (s s' : S) (n k : ℕ) → step s n ≡ (moved k, s') → (total s' ≡ total s + suc k) × (suc k ≤ n)
  pub nothing : (s s' : S) (n k : ℕ) → step s n ≡ (stopped k, s') → total s' ≡ total s

-- What `move_loop` ends with.
pub data MoveResult {S : Type 0} (total : S → ℕ) (s : S) (left : ℕ)
    : Option ReturnCode × S → Type 0 where
  complete : (s' : S) → total s' ≡ total s + left → MoveResult total s left (none, s')
  broken_off :
      (s' : S) (k n : ℕ)
      → total s' ≡ total s + k
      → k < left
      → MoveResult total s left (some (minus n), s')

further :
    {S : Type 0} (total : S → ℕ) (s s' : S) (left m : ℕ) (r : Option ReturnCode × S)
    → total s' ≡ total s + m
    → m ≤ left
    → MoveResult total s' (left - m) r
    → MoveResult total s left r
further total s s' left m r f l (complete t e) = complete t (omega arith)
further total s s' left m r f l (broken_off t k n e h) =
    broken_off t (m + k) n (omega arith) (omega arith)

module _ {S : Type 0} (step : S → ℕ → Count × S) (total : S → ℕ) (law : Moves step total) where
  abbrev Ends : ℕ → Type 0
  Ends fuel =
      (s : S) (left : ℕ)
      → left < fuel
      → (r : Option ReturnCode × S) × (move_loop step fuel s left ≡ some r)
        × MoveResult total s left r

  one_move :
      (fuel : ℕ) (s : S) (left : ℕ) (o : Count × S)
      → Ends fuel
      → left < suc fuel
      → step s left ≡ o
      → (left == 0) ≡ false
      → (r : Option ReturnCode × S) × ((elim o.0 as (λ x. Option (Option ReturnCode × S)) [
        | stopped n ↦ some (some (minus n), o.1)
        | moved n ↦ move_loop step fuel o.1 (left - suc n)
      ])
          ≡ some r)
        × MoveResult total s left r
  one_move fuel s left (stopped n, s') ih h e more = (
    (some (minus n), s'),
    refl,
    broken_off s' 0 n (omega (arith, law.nothing s s' left n e)) (ground arith),
  )
  one_move fuel s left (moved n, s') ih h e more =
      let (f, l) = law.some s s' left n e in
      let (r, e', o) = ih s' (left - suc n) (omega arith) in
      (r, e', further total s s' left (suc n) r f l o)

  move_loop_lem : (fuel : ℕ) → Ends fuel
  unfolding move_loop
  move_loop_lem zero s left h = absurd (omega arith)
  move_loop_lem (suc fuel) s left h = elim (Bool-cases (left == 0)) [
    | inl done ↦ rw done ((none, s), refl, complete s (omega (arith, (==_iff left 0).0 done)))
    | inr more ↦
        rw more
          (one_move fuel s left (step s left) (λ s' l k. move_loop_lem fuel s' l k) h refl more)
  ]

  -- `readFixSize` and `writeFixSize` of a ByteArray end, whatever sizes the reads or writes have. If
  -- the result is the length, below 2 ^ 31, then so many bytes were moved in all; a value that is not
  -- positive is that of a call that failed, and fewer were moved.
  pub move_fix_size_lem :
      (s : S) (size : ℕ)
      → size < 2 ^ 31
      → (v : ReturnCode) × (s' : S) × (move_fix_size step s size ≡ some (v, s'))
        × ((v ≡ nonneg size) × (total s' ≡ total s + size)
            ⊎ (((n : ℕ) × (v ≡ minus n)) × ((k : ℕ) × (k < size) × (total s' ≡ total s + k))))
  unfolding move_fix_size
  move_fix_size_lem s size small =
      let (r, e, o) = move_loop_lem (size + 1) s size (omega arith) in
      rw (e, move_fix_size) (go r o)
    where
      go :
          (r : Option ReturnCode × S)
          → MoveResult total s size r
          → (v : ReturnCode) × (s' : S) × ◌≡◌ {A = Option (ReturnCode × S)}
              (some (returned size r.0, r.1))
              (some (v, s'))
            × ((v ≡ nonneg size) × (total s' ≡ total s + size)
                ⊎ (((n : ℕ) × (v ≡ minus n)) × ((k : ℕ) × (k < size) × (total s' ≡ total s + k))))
      go r (complete t f) = (_, t, refl, inl (ground arith, f))
      go r (broken_off t k n f h) = (minus n, t, refl, inr ((n, refl), (k, h, f)))
