-- ===== src/Stream.antt =====
-- inc/stream.h and src/stream.cpp: the loops that read and write a fixed number of bytes. The
-- virtual `read` and `write` of a stream are parameters over the states `S` of the stream. A loop
-- takes fuel, `none` means that it ran out.
pub mod Whole
pub mod Sent
pub mod Counted
mod Tests
use mnser.Common.{
  ℕ, zero, suc, ◌+◌, ◌-◌, ◌%◌, ◌^◌, List, [], ◌∷◌, ◌++◌, Option, none, some, ltb, ◌==◌,
  if◌then◌else◌, length, take, drop,
}

-- An `int`: `minus n` is -n.
pub data ReturnCode : Type 0 where
  nonneg minus : ℕ → ReturnCode

-- The conversion of a `size_t` to `int`.
abbrev pub to_int : ℕ → ReturnCode
to_int n = if ltb (n % 2 ^ 32) (2 ^ 31) then nonneg (n % 2 ^ 32) else minus (2 ^ 32 - n % 2 ^ 32)

-- What a `read` returns and has put into the buffer: a value that is not positive, or bytes, at
-- least one.
pub data Received : Type 0 where
  no_bytes : ℕ → Received
  bytes : ℕ → List ℕ → Received

-- What a `write`, or a `read` into a ByteArray, returns: -n, or n + 1.
pub data Count : Type 0 where
  stopped : ℕ → Count
  moved : ℕ → Count

module _ {S : Type 0} (read : S → ℕ → Received × S) where
  -- The loop of `readFixSize` into a buffer, of which `got` is what was put there so far.
  unfoldable pub read_loop : ℕ → S → ℕ → List ℕ → Option (Option ReturnCode × List ℕ × S)
  read_loop zero s left got = none
  read_loop (suc fuel) s left got =
      if left == 0
      then some (none, got, s)
      else let (o, s') = read s left in
        elim o [
          | no_bytes n ↦ some (some (minus n), got, s')
          | bytes b bs ↦ read_loop fuel s' (left - suc (length bs)) (got ++ b ∷ bs)
        ]

-- The value of an early return, or the length.
abbrev pub returned : ℕ → Option ReturnCode → ReturnCode
returned size none = to_int size
returned size (some n) = n

module _ {S : Type 0} (read : S → ℕ → Received × S) where
  -- What it returns, what is in the buffer, and the stream afterwards.
  unfoldable pub read_fix_size : S → ℕ → Option (ReturnCode × List ℕ × S)
  read_fix_size s size = elim (read_loop read (size + 1) s size []) [
    | none ↦ none
    | some (early, got, s') ↦ some (returned size early, got, s')
  ]

module _ {S : Type 0} (write : S → List ℕ → Count × S) where
  -- The loop of `writeFixSize` of a buffer: what is left of it is the list.
  unfoldable pub write_loop : ℕ → S → List ℕ → Option (Option ReturnCode × S)
  write_loop zero s left = none
  write_loop (suc fuel) s left =
      if length left == 0
      then some (none, s)
      else let (o, s') = write s left in
        elim o [
          | stopped n ↦ some (some (minus n), s')
          | moved n ↦ write_loop fuel s' (drop (suc n) left)
        ]

  unfoldable pub write_fix_size : S → List ℕ → Option (ReturnCode × S)
  write_fix_size s buffer = elim (write_loop (length buffer + 1) s buffer) [
    | none ↦ none
    | some (early, s') ↦ some (returned (length buffer) early, s')
  ]

module _ {S : Type 0} (step : S → ℕ → Count × S) where
  -- The loops over a ByteArray, which is part of the state: `read` or `write` of so many bytes.
  unfoldable pub move_loop : ℕ → S → ℕ → Option (Option ReturnCode × S)
  move_loop zero s left = none
  move_loop (suc fuel) s left =
      if left == 0
      then some (none, s)
      else let (o, s') = step s left in
        elim o [
          | stopped n ↦ some (some (minus n), s')
          | moved n ↦ move_loop fuel s' (left - suc n)
        ]

  unfoldable pub move_fix_size : S → ℕ → Option (ReturnCode × S)
  move_fix_size s size = elim (move_loop (size + 1) s size) [
    | none ↦ none
    | some (early, s') ↦ some (returned size early, s')
  ]
