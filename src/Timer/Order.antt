-- ===== src/Timer/Order.antt =====
-- The order of the timers, and the sorted list as the set that `std::set` keeps.
use mnser.Common.{ℕ, List, [], ◌∷◌, Bool, true, false, not, ◌&&◌, ◌||◌, ◌≡◌, refl, arith, All}
use mnser.Common.{◌==◌, none, some, Bool-cases, inl, inr, ap, ◌∙◌}
use mnser.Timer.{Timer, earlier, set_insert, set_erase}

abbrev pub mem : ℕ → List ℕ → Bool
mem a [] = false
mem a (x ∷ xs) = a == x || mem a xs

abbrev pub Above : (ℕ → Timer) → ℕ → List ℕ → Type 0
Above obj x = All (λ y. earlier obj x y ≡ true)

-- Each timer comes before all that stand behind it.
abbrev pub Sorted : (ℕ → Timer) → List ℕ → Type 0
Sorted obj [] = Unit {0}
Sorted obj (x ∷ xs) = Above obj x xs × Sorted obj xs

module _ (obj : ℕ → Timer) where
  pub earlier_irrefl : (a : ℕ) → earlier obj a a ≡ false
  unfolding earlier
  earlier_irrefl a = ground arith

  pub earlier_trans :
      (a b c : ℕ) → earlier obj a b ≡ true → earlier obj b c ≡ true → earlier obj a c ≡ true
  unfolding earlier
  earlier_trans a b c h k = ground arith

  pub earlier_asym : (a b : ℕ) → earlier obj a b ≡ true → earlier obj b a ≡ false
  unfolding earlier
  earlier_asym a b h = ground arith

  -- Two timers of which none comes first are one object.
  pub earlier_total : (a b : ℕ) → earlier obj a b ≡ false → earlier obj b a ≡ false → a ≡ b
  unfolding earlier
  earlier_total a b h k = ground arith

  Above-trans : (a x : ℕ) (xs : List ℕ) → earlier obj a x ≡ true → Above obj x xs → Above obj a xs
  Above-trans a x [] h s = tt
  Above-trans a x (y ∷ ys) h s = (earlier_trans a x y h s.0, Above-trans a x ys h s.1)

  Above-set_insert :
      (x a : ℕ) (xs : List ℕ)
      → earlier obj x a ≡ true
      → Above obj x xs
      → Above obj x (set_insert obj a xs)
  unfolding set_insert
  Above-set_insert x a [] h s = (h, tt)
  Above-set_insert x a (y ∷ ys) h s = ground (arith, Above-set_insert x a ys h s.1)

  pub set_insert-Sorted : (a : ℕ) (xs : List ℕ) → Sorted obj xs → Sorted obj (set_insert obj a xs)
  unfolding set_insert
  set_insert-Sorted a [] s = (tt, tt)
  set_insert-Sorted a (x ∷ xs) s =
      ground (arith, Above-trans a x xs, Above-set_insert x a xs, set_insert-Sorted a xs s.1)

  pub mem-set_insert : (b a : ℕ) (xs : List ℕ) → mem b (set_insert obj a xs) ≡ (b == a || mem b xs)
  unfolding set_insert
  mem-set_insert b a [] = refl
  mem-set_insert b a (x ∷ xs) = ground (arith, mem-set_insert b a xs, earlier_total a x)

  Above-ne : (x a : ℕ) (xs : List ℕ) → Above obj x xs → mem a xs ≡ true → earlier obj x a ≡ true
  Above-ne x a [] s h = cc
  Above-ne x a (y ∷ ys) s h = ground (arith, Above-ne x a ys s.1)

  pub Above-not-mem : (a : ℕ) (xs : List ℕ) → Above obj a xs → mem a xs ≡ false
  Above-not-mem a xs s = elim (Bool-cases (mem a xs)) [
    | inl here ↦ cc (Above-ne a a xs s here, earlier_irrefl a)
    | inr gone ↦ gone
  ]

  pub record Erased (a : ℕ) (xs ys : List ℕ) : Type 0 where
    pub found : set_erase obj a xs ≡ some ys
    pub sorted : Sorted obj ys
    pub members : (b : ℕ) → mem b ys ≡ (not (b == a) && mem b xs)
    pub above : (y : ℕ) → Above obj y xs → Above obj y ys

  erase_later :
      (a x : ℕ) (xs ys : List ℕ)
      → Sorted obj (x ∷ xs)
      → earlier obj x a ≡ true
      → Erased a xs ys
      → Erased a (x ∷ xs) (x ∷ ys)
  unfolding set_erase
  erase_later a x xs ys s before r = record {
    found = rw (before, r.found) refl;
    sorted = (r.above x s.0, r.sorted);
    members = λ b. ground (arith, r.members b, before, earlier_irrefl a);
    above = λ y h. (h.0, r.above y h.1);
  }

  erase_here :
      (a x : ℕ) (xs : List ℕ)
      → Sorted obj (x ∷ xs)
      → earlier obj x a ≡ false
      → mem a (x ∷ xs) ≡ true
      → Erased a (x ∷ xs) xs
  unfolding set_erase
  erase_here a x xs s not_before h = record {
    found = rw (not_before, ap (earlier obj a) same ∙ earlier_irrefl a) refl;
    sorted = s.1;
    members = λ b. ground (arith, same, Above-not-mem x xs s.0);
    above = λ y h'. h'.1;
  }
    where
      same : x ≡ a
      same = ground (arith, Above-ne x a xs s.0)

  -- `erase` of what `find` returns takes out a timer that is there, and that alone.
  pub set_erase-Erased :
      (a : ℕ) (xs : List ℕ) → Sorted obj xs → mem a xs ≡ true → (ys : List ℕ) × Erased a xs ys
  set_erase-Erased a [] s h = cc
  set_erase-Erased a (x ∷ xs) s h = elim (Bool-cases (earlier obj x a)) [
    | inl before ↦
        let there : mem a xs ≡ true = ground (arith, earlier_irrefl a) in
        let (ys, r) = set_erase-Erased a xs s.1 there in (x ∷ ys, erase_later a x xs ys s before r)
    | inr not_before ↦ (xs, erase_here a x xs s not_before h)
  ]

  -- `find` misses a timer that is not there.
  pub set_erase-none : (a : ℕ) (xs : List ℕ) → mem a xs ≡ false → set_erase obj a xs ≡ none
  unfolding set_erase
  set_erase-none a [] h = refl
  set_erase-none a (x ∷ xs) h = ground (arith, set_erase-none a xs, earlier_total x a)

pub earlier-cong :
    (f g : ℕ → Timer) (x y : ℕ)
    → (g x).next ≡ (f x).next
    → (g y).next ≡ (f y).next
    → earlier g x y ≡ earlier f x y
unfolding earlier
earlier-cong f g x y h k = rw (h, k) refl

-- The order depends on the times only, and only on those of the timers in the set.
pub Sorted-cong :
    (f g : ℕ → Timer) (xs : List ℕ)
    → ((x : ℕ) → mem x xs ≡ true → (g x).next ≡ (f x).next)
    → Sorted f xs
    → Sorted g xs
Sorted-cong f g [] e s = tt
Sorted-cong f g (x ∷ xs) e s =
    (above xs (λ y h. e y (ground arith)) s.0, Sorted-cong f g xs (λ y h. e y (ground arith)) s.1)
  where
    above :
        (ys : List ℕ)
        → ((y : ℕ) → mem y ys ≡ true → (g y).next ≡ (f y).next)
        → Above f x ys
        → Above g x ys
    above [] k a = tt
    above (y ∷ ys) k a = (
      earlier-cong f g x y (e x (ground arith)) (k y (ground arith)) ∙ a.0,
      above ys (λ z h. k z (ground arith)) a.1,
    )
