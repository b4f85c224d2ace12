-- ===== src/Timer/Expiry.antt =====
-- Which timers `listExpiredCb` takes, and what becomes of them.
use mnser.Common.{ℕ, ◌+◌, ◌≤◌, ◌%◌, ◌^◌, List, [], ◌∷◌, ◌++◌, Bool, true, false, ◌&&◌, ◌||◌}
use mnser.Common.{◌≡◌, refl, ap, ◌∙◌, arith, ◌==◌, if◌then◌else◌, leb, Option, none, map, All}
use mnser.Common.{Bool-cases, inl, inr, ==_iff}
use mnser.Timer.{Timer, update, earlier, set_insert, skip_due, lower_bound, expire, fire}
use mnser.Timer.Order.{mem, Above, Sorted, set_insert-Sorted, mem-set_insert, Above-not-mem}
use mnser.Timer.Invariant.{Sorted-update}

-- The timers that are due, in their order.
abbrev pub due : (ℕ → Timer) → ℕ → List ℕ → List ℕ
due obj now [] = []
due obj now (x ∷ xs) = let rest = due obj now xs in if leb (obj x).next now then x ∷ rest else rest

module _ (obj : ℕ → Timer) (now : ℕ) where
  pub earlier_le : (x y : ℕ) → earlier obj x y ≡ true → (obj x).next ≤ (obj y).next
  unfolding earlier
  earlier_le x y h = ground arith

  -- Behind a timer that is not due stands none that is.
  pub none_due :
      (k x : ℕ) (xs : List ℕ) → k ≤ (obj x).next → Above obj x xs → All (λ y. k ≤ (obj y).next) xs
  none_due k x [] h s = tt
  none_due k x (y ∷ ys) h s = (omega (arith, earlier_le x y s.0), none_due k x ys h s.1)

  pub due-none : (xs : List ℕ) → All (λ y. now + 1 ≤ (obj y).next) xs → due obj now xs ≡ []
  due-none [] s = refl
  due-none (x ∷ xs) s = ground (arith, due-none xs s.1)

  abbrev pub Splits : List ℕ → List ℕ × List ℕ → Type 0
  Splits xs r = (r.0 ≡ due obj now xs) × (r.0 ++ r.1 ≡ xs)

  skip_due-Splits :
      (xs : List ℕ)
      → Sorted obj xs
      → All (λ y. now ≤ (obj y).next) xs
      → Splits xs (skip_due obj now xs)
  unfolding skip_due
  skip_due-Splits [] s h = (refl, refl)
  skip_due-Splits (x ∷ xs) s h = elim (Bool-cases ((obj x).next == now)) [
    | inl eq ↦ ground (arith, skip_due-Splits xs s.1 h.1)
    | inr ne ↦ ground (arith, due-none xs (none_due (now + 1) x xs (ground arith) s.0))
  ]

  cons_front :
      (x : ℕ) (xs front back later : List ℕ)
      → leb (obj x).next now ≡ true
      → Splits xs (front ++ back, later)
      → Splits (x ∷ xs) ((x ∷ front) ++ back, later)
  cons_front x xs front back later h s = (rw h (ap (◌∷◌ x) s.0), ap (◌∷◌ x) s.1)

  is_due :
      (obj' : ℕ → Timer) (probe x : ℕ)
      → (obj' probe).next ≡ now
      → (obj' x).next ≡ (obj x).next
      → earlier obj' x probe ≡ true
      → leb (obj x).next now ≡ true
  unfolding earlier
  is_due obj' probe x p k h = ground (arith, p)

  not_before :
      (obj' : ℕ → Timer) (probe x : ℕ)
      → (obj' probe).next ≡ now
      → (obj' x).next ≡ (obj x).next
      → earlier obj' x probe ≡ false
      → now ≤ (obj x).next
  unfolding earlier
  not_before obj' probe x p k h = ground (arith, p)

  lower_bound-Splits :
      (obj' : ℕ → Timer) (probe : ℕ) (xs : List ℕ)
      → (obj' probe).next ≡ now
      → ((y : ℕ) → mem y xs ≡ true → (obj' y).next ≡ (obj y).next)
      → Sorted obj xs
      → let r = lower_bound obj' probe xs in
        Splits xs (r.0 ++ (skip_due obj now r.1).0, (skip_due obj now r.1).1)
  unfolding lower_bound
  lower_bound-Splits obj' probe [] p e s = unfold skip_due in (refl, refl)
  lower_bound-Splits obj' probe (x ∷ xs) p e s = elim (Bool-cases (earlier obj' x probe)) [
    | inl before ↦ rw before (
        cons_front x xs (lower_bound obj' probe xs).0
          (skip_due obj now (lower_bound obj' probe xs).1).0
          (skip_due obj now (lower_bound obj' probe xs).1).1
          (is_due obj' probe x p (e x (ground arith)) before)
          (lower_bound-Splits obj' probe xs p (λ y h. e y (ground arith)) s.1))
    | inr after ↦ rw after (
        skip_due-Splits (x ∷ xs) s (
          not_before obj' probe x p (e x (ground arith)) after,
          none_due now x xs (not_before obj' probe x p (e x (ground arith)) after) s.0,
        ))
  ]

  -- For whatever address the new timer gets, the iterator ends up behind the timers that are due.
  pub expire-Splits :
      (probe : ℕ) (xs : List ℕ)
      → Sorted obj xs
      → mem probe xs ≡ false
      → Splits xs (expire obj probe now xs)
  unfolding expire
  expire-Splits probe xs s h =
      lower_bound-Splits (update obj probe (record (obj probe) { next = now })) probe xs
        (ground arith) (λ y k. ground (arith, ==_iff y probe)) s

-- What the loop does to a timer that has expired.
abbrev pub fired : ℕ → Timer → Timer
fired now t =
    if t.recurring then record t { next = (now + t.ms) % 2 ^ 64 } else record t { cb = none }

pub record Fired (obj : ℕ → Timer) (now : ℕ) (xs timers : List ℕ)
    (r : List (Option ℕ) × (ℕ → Timer) × List ℕ) : Type 0 where
  pub callbacks : r.0 ≡ map (λ a. (obj a).cb) xs
  pub objects : (b : ℕ) → r.1 b ≡ (if mem b xs then fired now (obj b) else obj b)
  pub sorted : Sorted r.1 r.2
  pub members : (b : ℕ) → mem b r.2 ≡ (mem b timers || mem b xs && (obj b).recurring)

map-cong :
    (f g : ℕ → Option ℕ) (xs : List ℕ)
    → ((x : ℕ) → mem x xs ≡ true → f x ≡ g x)
    → map f xs ≡ map g xs
map-cong f g [] h = refl
map-cong f g (x ∷ xs) h = rw (h x (ground arith), map-cong f g xs (λ y k. h y (ground arith))) refl

-- The set after the first of the expired timers.
abbrev requeued : (ℕ → Timer) → ℕ → ℕ → List ℕ → List ℕ
requeued obj now x timers =
    if (obj x).recurring then set_insert (update obj x (fired now (obj x))) x timers else timers

mem-requeued :
    (obj : ℕ → Timer) (now x : ℕ) (timers : List ℕ) (b : ℕ)
    → mem b (requeued obj now x timers) ≡ ((b == x && (obj x).recurring) || mem b timers)
mem-requeued obj now x timers b =
    ground (arith, mem-set_insert (update obj x (fired now (obj x))) b x timers)

requeued-Sorted :
    (obj : ℕ → Timer) (now x : ℕ) (timers : List ℕ)
    → mem x timers ≡ false
    → Sorted obj timers
    → Sorted (update obj x (fired now (obj x))) (requeued obj now x timers)
requeued-Sorted obj now x timers h s = go (fired now (obj x)) (obj x).recurring
  where
    go :
        (t : Timer) (again : Bool)
        → Sorted (update obj x t) (if again then set_insert (update obj x t) x timers else timers)
    go t true = set_insert-Sorted (update obj x t) x timers (Sorted-update obj x t timers h s)
    go t false = Sorted-update obj x t timers h s

fire_step :
    (obj : ℕ → Timer) (now x : ℕ) (xs timers : List ℕ) (r : List (Option ℕ) × (ℕ → Timer) × List ℕ)
    → mem x xs ≡ false
    → Fired (update obj x (fired now (obj x))) now xs (requeued obj now x timers) r
    → Fired obj now (x ∷ xs) timers ((obj x).cb ∷ r.0, r.1, r.2)
fire_step obj now x xs timers r out f = record {
  callbacks =
      ap (◌∷◌ (obj x).cb) (f.callbacks ∙ map-cong _ _ xs (λ y h. ground (arith, ==_iff y x)));
  objects = λ b. f.objects b ∙ ground (arith, ==_iff b x);
  sorted = f.sorted;
  members = λ b. f.members b ∙ ground (arith, ==_iff b x, mem-requeued obj now x timers b);
}

pub fire-Fired :
    (obj : ℕ → Timer) (now : ℕ) (xs timers : List ℕ)
    → Sorted obj xs
    → Sorted obj timers
    → ((b : ℕ) → mem b xs ≡ true → mem b timers ≡ false)
    → Fired obj now xs timers (fire obj now xs timers)
unfolding fire
fire-Fired obj now [] timers s t d = record {
  callbacks = refl;
  objects = λ b. refl;
  sorted = t;
  members = λ b. ground arith;
}
fire-Fired obj now (x ∷ xs) timers s t d =
    let out : mem x xs ≡ false = Above-not-mem obj x xs s.0 in
    fire_step obj now x xs timers _ out (
      fire-Fired (update obj x (fired now (obj x))) now xs (requeued obj now x timers)
        (Sorted-update obj x _ xs out s.1) (requeued-Sorted obj now x timers (d x (ground arith)) t)
        (λ b h. mem-requeued obj now x timers b ∙ ground (arith, d b, ==_iff b x)))
