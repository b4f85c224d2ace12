-- ===== src/Stream/Tests.antt =====
-- A stream that gives at most two bytes at a time.
use mnser.Common.{
  ℕ, zero, suc, ◌+◌, ◌-◌, ◌≤◌, ◌<◌, List, [], ◌∷◌, ◌++◌, ◌≡◌, arith, some, take, length, ◌⊎◌,
}
use mnser.Stream.{
  ReturnCode, nonneg, minus, Received, no_bytes, bytes, Count, stopped, moved, read_fix_size,
}
use mnser.Stream.Whole.{Reads, read_fix_size_lem}
use mnser.Stream.Counted.{Moves}
use mnser.Stream.Sent.{Writes}

abbrev one_at_a_time : List ℕ → ℕ → Received × List ℕ
one_at_a_time s zero = (no_bytes 0, s)
one_at_a_time [] (suc n) = (no_bytes 0, [])
one_at_a_time (b ∷ s) (suc n) = (bytes b [], s)

one_at_a_time-Reads : Reads one_at_a_time (λ s. s)
one_at_a_time-Reads = record { first = first; nothing = nothing }
  where
    first :
        (s s' : List ℕ) (n b : ℕ) (bs : List ℕ)
        → one_at_a_time s n ≡ (bytes b bs, s')
        → (s ≡ (b ∷ bs) ++ s') × (suc (length bs) ≤ n)
    first s s' zero b bs e = absurd (ground (arith, e))
    first [] s' (suc n) b bs e = absurd (ground (arith, e))
    first (c ∷ s) s' (suc n) b bs e = ground (arith, e)

    nothing : (s s' : List ℕ) (n k : ℕ) → one_at_a_time s n ≡ (no_bytes k, s') → s' ≡ s
    nothing s s' zero k e = ground (arith, e)
    nothing [] s' (suc n) k e = ground (arith, e)
    nothing (c ∷ s) s' (suc n) k e = absurd (ground (arith, e))

read_fix_size_example :
    (v : ReturnCode) × (got : List ℕ) × (s' : List ℕ) × (read_fix_size one_at_a_time
        (1 ∷ 2 ∷ 3 ∷ [])
        2
      ≡ some (v, got, s'))
    × ((1 ∷ 2 ∷ 3 ∷ []) ≡ got ++ s')
    × ((v ≡ nonneg 2) × (length got ≡ 2)
        ⊎ ((n : ℕ) × (t : List ℕ) × (v ≡ minus n)
            × (one_at_a_time t (2 - length got) ≡ (no_bytes n, s'))
            × (length got < 2)))
read_fix_size_example =
    read_fix_size_lem one_at_a_time (λ s. s) one_at_a_time-Reads (1 ∷ 2 ∷ 3 ∷ []) 2 (omega arith)

abbrev sends_one : List ℕ → List ℕ → Count × List ℕ
sends_one s [] = (stopped 0, s)
sends_one s (b ∷ bs) = (moved 0, s ++ b ∷ [])

sends_one-Writes : Writes sends_one (λ s. s)
sends_one-Writes = record { first = first; nothing = nothing }
  where
    first :
        (s s' buf : List ℕ) (n : ℕ)
        → sends_one s buf ≡ (moved n, s')
        → (s' ≡ s ++ take (suc n) buf) × (suc n ≤ length buf)
    first s s' [] n e = absurd (ground (arith, e))
    first s s' (b ∷ bs) zero e = ground (arith, e)
    first s s' (b ∷ bs) (suc n) e = absurd (ground (arith, e))

    nothing : (s s' buf : List ℕ) (n : ℕ) → sends_one s buf ≡ (stopped n, s') → s' ≡ s
    nothing s s' [] n e = ground (arith, e)
    nothing s s' (b ∷ bs) n e = absurd (ground (arith, e))

-- A ByteArray by the number of bytes that were put into it, two at a time.
abbrev adds_two : ℕ → ℕ → Count × ℕ
adds_two s zero = (stopped 0, s)
adds_two s (suc zero) = (moved 0, s + 1)
adds_two s (suc (suc n)) = (moved 1, s + 2)

adds_two-Moves : Moves adds_two (λ s. s)
adds_two-Moves = record { some = some_moved; nothing = nothing }
  where
    some_moved : (s s' n k : ℕ) → adds_two s n ≡ (moved k, s') → (s' ≡ s + suc k) × (suc k ≤ n)
    some_moved s s' zero k e = absurd (ground (arith, e))
    some_moved s s' (suc zero) k e = ground (arith, e)
    some_moved s s' (suc (suc n)) k e = ground (arith, e)

    nothing : (s s' n k : ℕ) → adds_two s n ≡ (stopped k, s') → s' ≡ s
    nothing s s' zero k e = ground (arith, e)
    nothing s s' (suc zero) k e = absurd (ground (arith, e))
    nothing s s' (suc (suc n)) k e = absurd (ground (arith, e))
