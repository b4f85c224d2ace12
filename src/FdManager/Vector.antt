-- ===== src/FdManager/Vector.antt =====
-- The vector as a map from descriptors to contexts.
use mnser.Common.{
  ℕ, zero, suc, ◌-◌, ◌*◌, ◌/◌, ◌≤◌, ◌<◌, List, [], ◌∷◌, ◌++◌, Bool, true, not, ◌&&◌, leb, ◌==◌,
  if◌then◌else◌,
}
use mnser.Common.{
  Option, none, some, is_some, length, set, take, replicate, ◌≡◌, refl, ap, ◌∙◌, arith, ==_iff,
  Bool-cases, Option-cases, length-append, length-take, inl, inr,
}
use mnser.FdManager.{FdManager, new_fd_ctx, at, resize, create, get_ctx, del_fd}

at-set :
    (xs : List (Option ℕ)) (fd : ℕ) (v : Option ℕ) (g : ℕ)
    → fd < length xs
    → at (set xs fd v) g ≡ (if g == fd then v else at xs g)
at-set [] fd v g h = absurd (omega arith)
at-set (x ∷ xs) zero v zero h = refl
at-set (x ∷ xs) zero v (suc g) h = ground arith
at-set (x ∷ xs) (suc fd) v zero h = ground arith
at-set (x ∷ xs) (suc fd) v (suc g) h = at-set xs fd v g (omega arith) ∙ ground arith

at-none : (k g : ℕ) → at (replicate k none) g ≡ none
at-none zero g = refl
at-none (suc k) zero = refl
at-none (suc k) (suc g) = at-none k g

at-resize : (xs : List (Option ℕ)) (n g : ℕ) → length xs ≤ n → at (resize xs n) g ≡ at xs g
unfolding resize
at-resize xs n g h = go xs n (n - length xs) g h
  where
    go :
        (xs : List (Option ℕ)) (n k g : ℕ)
        → length xs ≤ n
        → at (take n xs ++ replicate k none) g ≡ at xs g
    go [] zero k g h = at-none k g
    go [] (suc n) k g h = at-none k g
    go (x ∷ xs) zero k g h = absurd (omega arith)
    go (x ∷ xs) (suc n) k zero h = refl
    go (x ∷ xs) (suc n) k (suc g) h = go xs n k g (omega arith)

length-none : (k : ℕ) → length (replicate {A = Option ℕ} k none) ≡ k
length-none zero = refl
length-none (suc k) = omega (arith, length-none k)

length-resize : (xs : List (Option ℕ)) (n : ℕ) → length (resize xs n) ≡ n
unfolding resize
length-resize xs n = omega (
  arith,
  length-append (take n xs) (replicate (n - length xs) none),
  length-take n xs,
  length-none (n - length xs),
)

pub at-beyond : (xs : List (Option ℕ)) (fd : ℕ) → length xs ≤ fd → at xs fd ≡ none
at-beyond [] fd h = refl
at-beyond (x ∷ xs) zero h = absurd (omega arith)
at-beyond (x ∷ xs) (suc fd) h = at-beyond xs fd (omega arith)

at-same : (xs : List (Option ℕ)) (fd g : ℕ) → at xs g ≡ (if g == fd then at xs fd else at xs g)
at-same xs fd g = elim (Bool-cases (g == fd)) [
  | inl eq_ ↦ rw eq_ (ap (at xs) ((==_iff g fd).0 eq_))
  | inr ne ↦ rw ne refl
]

-- The vector after a new context is put in.
grown : List (Option ℕ) → ℕ → List (Option ℕ)
grown xs fd = if leb (length xs) fd then resize xs (fd * 3 / 2) else xs

at-grown :
    (xs : List (Option ℕ)) (fd addr g : ℕ)
    → 2 ≤ length xs
    → at (set (grown xs fd) fd (some addr)) g ≡ (if g == fd then some addr else at xs g)
unfolding grown
at-grown xs fd addr g h = elim (Bool-cases (leb (length xs) fd)) [
  | inl short ↦ rw short (
      at-set (resize xs (fd * 3 / 2)) fd (some addr) g
        (ground (arith, length-resize xs (fd * 3 / 2)))
      ∙ ap (λ p. if g == fd then some addr else p) (at-resize xs (fd * 3 / 2) g (ground arith)))
  | inr there ↦ rw there (at-set xs fd (some addr) g (ground arith))
]

create_lem :
    (m : FdManager) (fd addr : ℕ) (stat : Option Bool)
    → 2 ≤ length m.datas
    → let r = create m fd addr stat in
      (r.0 ≡ some addr)
      × ((g : ℕ) → at r.1.datas g ≡ (if g == fd then some addr else at m.datas g))
      × ((b : ℕ) → r.1.ctx b ≡ (if b == addr then new_fd_ctx stat else m.ctx b))
unfolding create grown
create_lem m fd addr stat h = (refl, (λ g. at-grown m.datas fd addr g h), λ b. refl)

-- `get` with auto_create, on a vector of two places at least, returns the context that the
-- descriptor has, and changes nothing; or else a new one, made of what `fstat` says, which the
-- descriptor has from then on. No other descriptor gets another context, and no context but the new
-- one changes.
pub get_ctx_lem :
    (m : FdManager) (fd addr : ℕ) (stat : Option Bool)
    → 2 ≤ length m.datas
    → let r = get_ctx m (some fd) true addr stat in
      let p = if is_some (at m.datas fd) then at m.datas fd else some addr in
      (r.0 ≡ p)
      × ((g : ℕ) → at r.1.datas g ≡ (if g == fd then p else at m.datas g))
      × ((b : ℕ)
          → r.1.ctx b
            ≡ (if not (is_some (at m.datas fd)) && b == addr then new_fd_ctx stat else m.ctx b))
unfolding get_ctx
get_ctx_lem m fd addr stat h = elim (Bool-cases (leb (length m.datas) fd)) [
  | inl short ↦ rw (short, at-beyond m.datas fd (ground arith)) (create_lem m fd addr stat h)
  | inr there ↦ elim (Option-cases (at m.datas fd)) [
    | inl none_ ↦ rw (there, none_) (create_lem m fd addr stat h)
    | inr (p, here) ↦
        rw (there, here)
          (
            refl,
            (λ g. at-same m.datas fd g ∙ ap (λ q. if g == fd then q else at m.datas g) here),
            λ b. refl,
          )
  ]
]

-- `del` takes away the context of the descriptor, and no other.
pub del_fd_lem :
    (m : FdManager) (fd g : ℕ) → at (del_fd m fd).datas g ≡ (if g == fd then none else at m.datas g)
unfolding del_fd
del_fd_lem m fd g = elim (Bool-cases (leb (length m.datas) fd)) [
  | inl short ↦ rw short (
      at-same m.datas fd g
      ∙ ap (λ q. if g == fd then q else at m.datas g) (at-beyond m.datas fd (ground arith)))
  | inr there ↦ rw there (at-set m.datas fd none g (ground arith))
]
