-- ===== src/Stream/Whole.antt =====
-- The loops end, and put together what the calls moved.
use mnser.Common.{
  ℕ, zero, suc, ◌+◌, ◌-◌, ◌^◌, ◌≤◌, ◌<◌, List, [], ◌∷◌, ◌++◌, Option, none, some, ◌==◌, length,
  false,
}
use mnser.Common.{
  ◌≡◌, refl, ap, sym, ◌∙◌, arith, append_assoc, append-nil, length-append, ==_iff, Bool-cases, inl,
  inr, ◌⊎◌, subst,
}
use mnser.Stream.{
  ReturnCode, nonneg, minus, Received, no_bytes, bytes, read_loop, returned, read_fix_size,
}

-- A stream from which the bytes `ahead` are still to come: a `read` returns some of the first of
-- them, and never more than it was asked for.
pub record Reads {S : Type 0} (read : S → ℕ → Received × S) (ahead : S → List ℕ) : Type 0 where
  pub first :
      (s s' : S) (n b : ℕ) (bs : List ℕ)
      → read s n ≡ (bytes b bs, s')
      → (ahead s ≡ (b ∷ bs) ++ ahead s') × (suc (length bs) ≤ n)
  pub nothing : (s s' : S) (n k : ℕ) → read s n ≡ (no_bytes k, s') → ahead s' ≡ ahead s

-- What `read_loop` ends with: all that was asked for, or the value of the `read` that failed, which
-- was asked for the rest, and what came before it.
pub data ReadResult {S : Type 0} (read : S → ℕ → Received × S) (ahead : S → List ℕ) (s : S)
    (left : ℕ) (got : List ℕ) : Option ReturnCode × List ℕ × S → Type 0 where
  complete :
      (s' : S) (more : List ℕ)
      → ahead s ≡ more ++ ahead s'
      → length more ≡ left
      → ReadResult read ahead s left got (none, got ++ more, s')
  broken_off :
      (t s' : S) (more : List ℕ) (n : ℕ)
      → read t (left - length more) ≡ (no_bytes n, s')
      → ahead s ≡ more ++ ahead s'
      → length more < left
      → ReadResult read ahead s left got (some (minus n), got ++ more, s')

-- The bytes of one call come before those of the rest.
longer :
    {S : Type 0} (read : S → ℕ → Received × S) (ahead : S → List ℕ) (s s' : S) (left : ℕ)
    (got bs : List ℕ) (r : Option ReturnCode × List ℕ × S)
    → ahead s ≡ bs ++ ahead s'
    → length bs ≤ left
    → ReadResult read ahead s' (left - length bs) (got ++ bs) r
    → ReadResult read ahead s left got r
longer read ahead s s' left got bs r f l (complete t more e n) =
    subst (λ g. ReadResult read ahead s left got (none, g, t)) (sym (append_assoc got bs more))
      (complete t (bs ++ more) (f ∙ ap (◌++◌ bs) e ∙ sym (append_assoc bs more (ahead t)))
        (omega (arith, length-append bs more)))
longer read ahead s s' left got bs r f l (broken_off u t more n failed e k) =
    let rest : left - length bs - length more ≡ left - length (bs ++ more) =
      omega (arith, length-append bs more) in
    subst (λ g. ReadResult read ahead s left got (some (minus n), g, t))
      (sym (append_assoc got bs more))
      (broken_off u t (bs ++ more) n (subst (λ q. read u q ≡ (no_bytes n, t)) rest failed)
        (f ∙ ap (◌++◌ bs) e ∙ sym (append_assoc bs more (ahead t)))
        (omega (arith, length-append bs more)))

module _ {S : Type 0} (read : S → ℕ → Received × S) (ahead : S → List ℕ)
    (law : Reads read ahead) where
  abbrev Ends : ℕ → Type 0
  Ends fuel =
      (s : S) (left : ℕ) (got : List ℕ)
      → left < fuel
      → (r : Option ReturnCode × List ℕ × S) × (read_loop read fuel s left got ≡ some r)
        × ReadResult read ahead s left got r

  one_round :
      (fuel : ℕ) (s : S) (left : ℕ) (got : List ℕ) (o : Received × S)
      → Ends fuel
      → left < suc fuel
      → read s left ≡ o
      → (left == 0) ≡ false
      → (r : Option ReturnCode × List ℕ × S) × ((elim o.0
            as (λ x. Option (Option ReturnCode × List ℕ × S)) [
              | no_bytes n ↦ some (some (minus n), got, o.1)
              | bytes b bs ↦ read_loop read fuel o.1 (left - suc (length bs)) (got ++ b ∷ bs)
            ])
          ≡ some r)
        × ReadResult read ahead s left got r
  one_round fuel s left got (no_bytes n, s') ih h e more =
      let all : left ≡ left - length {A = ℕ} [] = omega arith in
      (
        (some (minus n), got, s'),
        refl,
        subst (λ g. ReadResult read ahead s left got (some (minus n), g, s')) (append-nil got)
            (broken_off s s' [] n (subst (λ q. read s q ≡ (no_bytes n, s')) all e)
              (sym (law.nothing s s' left n e)) (ground arith)),
      )
  one_round fuel s left got (bytes b bs, s') ih h e more =
      let (f, l) = law.first s s' left b bs e in
      let (r, e', o) = ih s' (left - suc (length bs)) (got ++ b ∷ bs) (omega arith) in
      (r, e', longer read ahead s s' left got (b ∷ bs) r f l o)

  read_loop_lem : (fuel : ℕ) → Ends fuel
  unfolding read_loop
  read_loop_lem zero s left got h = absurd (omega arith)
  read_loop_lem (suc fuel) s left got h = elim (Bool-cases (left == 0)) [
    | inl done ↦ rw done (
      (none, got, s),
      refl,
      subst (λ g. ReadResult read ahead s left got (none, g, s)) (append-nil got)
          (complete s [] refl (sym ((==_iff left 0).0 done))),
    )
    | inr more ↦ rw more (
        one_round fuel s left got (read s left) (λ s' l g k. read_loop_lem fuel s' l g k) h refl
          more)
  ]

  -- `readFixSize` into a buffer ends, whatever sizes the reads come in, for a size below 2 ^ 31.
  -- Either it returns the size, and the buffer holds exactly the first bytes of the stream, as many
  -- as were asked for, and the others are still to come. Or it returns, as it is, the value that is
  -- not positive of the `read` that failed, which was asked for the rest; then the buffer holds the
  -- bytes before, fewer than were asked for, and the stream does not have them any more.
  pub read_fix_size_lem :
      (s : S) (size : ℕ)
      → size < 2 ^ 31
      → (v : ReturnCode) × (got : List ℕ) × (s' : S) × (read_fix_size read s size
          ≡ some (v, got, s'))
        × (ahead s ≡ got ++ ahead s')
        × ((v ≡ nonneg size) × (length got ≡ size)
            ⊎ ((n : ℕ) × (t : S) × (v ≡ minus n)
                × (read t (size - length got) ≡ (no_bytes n, s'))
                × (length got < size)))
  unfolding read_fix_size
  read_fix_size_lem s size small =
      let (r, e, o) = read_loop_lem (size + 1) s size [] (omega arith) in
      rw (e, read_fix_size) (go r o)
    where
      go :
          (r : Option ReturnCode × List ℕ × S)
          → ReadResult read ahead s size [] r
          → (v : ReturnCode) × (got : List ℕ) × (s' : S) × ◌≡◌
              {A = Option (ReturnCode × List ℕ × S)}
              (some (returned size r.0, r.1, r.2))
              (some (v, got, s'))
            × (ahead s ≡ got ++ ahead s')
            × ((v ≡ nonneg size) × (length got ≡ size)
                ⊎ ((n : ℕ) × (t : S) × (v ≡ minus n)
                    × (read t (size - length got) ≡ (no_bytes n, s'))
                    × (length got < size)))
      go r (complete t more f n) = (_, more, t, refl, f, inl (ground arith, n))
      go r (broken_off u t more n failed f k) =
          (minus n, more, t, refl, f, inr (n, u, refl, failed, k))
