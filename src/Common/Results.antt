-- ===== src/Common/Results.antt =====
-- The ways in which a C++ call ends: with a value, by an exception, by a failed assertion, or in
-- what the language leaves undefined (a null pointer is followed, an index is out of range).
use mathlib.Core.Bool.{Bool, true, false}

pub data Error : Type 0 where
  out_of_range assert_failed undefined_behaviour : Error

pub data Result {ℓ} (A : Type ℓ) : Type ℓ where
  err : Error → Result A
  ok : A → Result A

-- The next call runs unless one has failed.
abbrev pub ◌>>=◌ {a b} :
    {Value : Type a} {Next : Type b} → Result Value → (Value → Result Next) → Result Next
err why >>= next = err why
ok v >>= next = next v

abbrev pub ◌>>◌ {b} : {Next : Type b} → Result (Unit {0}) → Result Next → Result Next
err why >> next = err why
ok done >> next = next

infixl 5 ◌>>=◌ ◌>>◌
-- `MS_ASSERT`: in the default build, which does not define NDEBUG, a false condition aborts.
abbrev pub guard : Bool → Error → Result (Unit {0})
guard true e = ok tt
guard false e = err e
