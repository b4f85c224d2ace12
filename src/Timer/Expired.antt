-- ===== src/Timer/Expired.antt =====
-- `listExpiredCb` and `getNextTimer` as a whole.
use mnser.Common.{
  is_some, ℕ, ◌+◌, ◌-◌, ◌≤◌, ◌^◌, ◌⊎◌, List, [], ◌∷◌, ◌++◌, Bool, true, false, ◌&&◌, ◌||◌,
}
use mnser.Common.{◌≡◌, refl, sym, ap, subst, ◌∙◌, arith, if◌then◌else◌, Option, map, All}
use mnser.Common.{ltb, ◌<◌, append-nil, Bool-cases, inl, inr, ==_iff}
use mnser.Timer.{
  Timer, TimerManager, fire, expire, due_now, has_timer, detect_clock_rollover, list_expired_cb,
  get_next_timer,
}
use mnser.Timer.Order.{mem, Above, Sorted, Above-not-mem}
use mnser.Timer.Invariant.{Inv}
use mnser.Timer.Expiry.{due, none_due, due-none, expire-Splits, fired, fire-Fired}

module _ (obj : ℕ → Timer) where
  Above-append : (x : ℕ) (xs ys : List ℕ) → Above obj x (xs ++ ys) → Above obj x xs × Above obj x ys
  Above-append x [] ys a = (tt, a)
  Above-append x (y ∷ xs) ys a = let (l, r) = Above-append x xs ys a.1 in ((a.0, l), r)

  mem-append : (b : ℕ) (xs ys : List ℕ) → mem b (xs ++ ys) ≡ (mem b xs || mem b ys)
  mem-append b [] ys = refl
  mem-append b (x ∷ xs) ys = ground (arith, mem-append b xs ys)

  -- A set cut in two gives two sets that share nothing.
  Sorted-append :
      (xs ys : List ℕ)
      → Sorted obj (xs ++ ys)
      → Sorted obj xs × Sorted obj ys × ((b : ℕ) → mem b xs ≡ true → mem b ys ≡ false)
  Sorted-append [] ys s = (tt, s, λ b h. cc)
  Sorted-append (x ∷ xs) ys s =
      let (l, r, d) = Sorted-append xs ys s.1 in
      let (lx, ry) = Above-append x xs ys s.0 in
      ((lx, l), r, λ b h. ground (arith, d b, ==_iff b x, Above-not-mem obj x ys ry))

-- What `listExpiredCb` takes out of the set.
abbrev pub picked : TimerManager → ℕ → List ℕ
picked m now = if (detect_clock_rollover m now).0 then m.timers else due m.obj now m.timers

pub record Ran (m : TimerManager) (now : ℕ) (xs : List ℕ) (r : List (Option ℕ) × TimerManager)
    : Type 0 where
  pub callbacks : r.0 ≡ map (λ a. (m.obj a).cb) xs
  pub objects : (b : ℕ) → r.1.obj b ≡ (if mem b xs then fired now (m.obj b) else m.obj b)
  pub inv : Inv r.1

Ran-none :
    (m : TimerManager) (now : ℕ) (n : TimerManager)
    → Inv m
    → n.obj ≡ m.obj
    → n.timers ≡ m.timers
    → Ran m now [] ([], n)
Ran-none m now n v e k = record {
  callbacks = refl;
  objects = λ b. ap (λ f. f b) e;
  inv = record { sorted = rw (e, k) v.sorted; armed = λ b. rw (e, k) (v.armed b) };
}

Ran-some :
    (m n : TimerManager) (now : ℕ) (xs later : List ℕ)
    → Inv m
    → xs ++ later ≡ m.timers
    → let r = fire m.obj now xs later in Ran m now xs (r.0, record n { obj = r.1; timers = r.2 })
Ran-some m n now xs later v e =
    let (l, r, d) = Sorted-append m.obj xs later (subst (λ ts. Sorted m.obj ts) (sym e) v.sorted) in
    let f = fire-Fired m.obj now xs later l r d in
    record {
      callbacks = f.callbacks;
      objects = f.objects;
      inv = record {
        sorted = f.sorted;
        armed = λ b.
            f.members b
            ∙ still b (d b) (sym (mem-append m.obj b xs later) ∙ ap (mem b) e ∙ v.armed b)
            ∙ sym (ap (λ t. is_some t.cb) (f.objects b));
      };
    }
  where
    -- The timers left are those that were not taken, and the recurring ones of those that were.
    still :
        (b : ℕ)
        → (mem b xs ≡ true → mem b later ≡ false)
        → (mem b xs || mem b later) ≡ is_some (m.obj b).cb
        → (mem b later || mem b xs && (m.obj b).recurring)
          ≡ is_some (if mem b xs then fired now (m.obj b) else m.obj b).cb
    still b k q = ground (arith, k, q)

-- The part of `listExpiredCb` that takes timers out.
abbrev run : TimerManager → ℕ → ℕ → Bool → List (Option ℕ) × TimerManager
run m probe now rollover =
    let (expired, later) = if rollover then (m.timers, []) else expire m.obj probe now m.timers in
    let (cbs, obj, timers) = fire m.obj now expired later in
    (cbs, record m { obj = obj; timers = timers; previous_time = now })

run-Ran :
    (m : TimerManager) (probe now : ℕ) (rollover : Bool)
    → Inv m
    → mem probe m.timers ≡ false
    → Ran m now (if rollover then m.timers else due m.obj now m.timers) (run m probe now rollover)
run-Ran m probe now true v h =
    Ran-some m (record m { previous_time = now }) now m.timers [] v (append-nil m.timers)
run-Ran m probe now false v h =
    let s = expire-Splits m.obj now probe m.timers v.sorted h in
    subst (λ xs. Ran m now xs (run m probe now false)) s.0
      (Ran-some m (record m { previous_time = now }) now _ _ v s.1)

due_now-none :
    (m : TimerManager) (now : ℕ) → Inv m → due_now m now ≡ false → due m.obj now m.timers ≡ []
due_now-none m now v h = go m.timers v.sorted h
  where
    go :
        (ts : List ℕ)
        → Sorted m.obj ts
        → due_now (record m { timers = ts }) now ≡ false
        → due m.obj now ts ≡ []
    go [] s k = refl
    go (x ∷ xs) s k =
        due-none m.obj now (x ∷ xs)
          (ground arith, none_due m.obj now (now + 1) x xs (ground arith) s.0)

-- By what `detectClockRollover` says.
pub picked_lem :
    (m : TimerManager) (probe now : ℕ)
    → Inv m
    → mem probe m.timers ≡ false
    → Ran m now (picked m now) (list_expired_cb m probe now)
unfolding list_expired_cb detect_clock_rollover
picked_lem m probe now v h = elim (Bool-cases (has_timer m)) [
  | inl some_timer ↦ elim (Bool-cases rollover) [
    | inl back ↦ rw (some_timer, back) (run-Ran m probe now true v h)
    | inr fine ↦ elim (Bool-cases (due_now m now)) [
      | inl due_timer ↦ rw (some_timer, fine, due_timer) (run-Ran m probe now false v h)
      | inr nothing ↦
          rw (some_timer, fine, nothing, due_now-none m now v nothing)
            (Ran-none m now (record m { previous_time = now }) v refl refl)
    ]
  ]
  | inr empty ↦ rw (empty, none_picked rollover m.timers empty) (Ran-none m now m v refl refl)
]
  where
    rollover : Bool
    rollover = (detect_clock_rollover m now).0

    none_picked :
        (back : Bool) (ts : List ℕ)
        → has_timer (record m { timers = ts }) ≡ false
        → (if back then ts else due m.obj now ts) ≡ []
    none_picked true [] k = refl
    none_picked false [] k = refl
    none_picked back (x ∷ xs) k = cc

-- Whether the clock went back: by more than an hour, or at all in the first hour of its time.
abbrev pub went_back : ℕ → ℕ → Bool
went_back before now = ltb now before && (ltb before 3600000 || ltb (now + 3600000) before)

abbrev pub overdue : TimerManager → ℕ → List ℕ
overdue m now = if went_back m.previous_time now then m.timers else due m.obj now m.timers

rollover_lem :
    (m : TimerManager) (now : ℕ)
    → m.previous_time < 2 ^ 64
    → (detect_clock_rollover m now).0 ≡ went_back m.previous_time now
unfolding detect_clock_rollover
rollover_lem m now h = ground arith

-- `listExpiredCb` returns the callbacks of all the timers that are due, or of all timers where the
-- clock went back, in the order of their times. It went back if it is behind the time of the call
-- before by more than an hour, or at all if that time is less than an hour. Of those timers the
-- recurring ones are in the set again for an interval from now and the others are out of it with no
-- callback, while every other timer stays as it is; and the invariant holds on. The address of the
-- timer that only carries the time must not be that of one in the set, and the time of the call
-- before is one of 64 bits.
pub list_expired_cb_lem :
    (m : TimerManager) (probe now : ℕ)
    → Inv m
    → mem probe m.timers ≡ false
    → m.previous_time < 2 ^ 64
    → Ran m now (overdue m now) (list_expired_cb m probe now)
list_expired_cb_lem m probe now v free clock =
    subst
      (λ b.
        Ran m now (if b then m.timers else due m.obj now m.timers) (list_expired_cb m probe now))
      (rollover_lem m now clock) (picked_lem m probe now v free)

-- `getNextTimer` is `~0ull` without a timer, 0 if a timer is due, and otherwise the least time that
-- is left to a timer of the set: it is one timer's, and no timer's is less.
pub get_next_timer_lem :
    (m : TimerManager) (now : ℕ)
    → Inv m
    → ((a : ℕ) → mem a m.timers ≡ true → (get_next_timer m now).0 ≤ (m.obj a).next - now)
      × ((m.timers ≡ []) × ((get_next_timer m now).0 ≡ 2 ^ 64 - 1)
          ⊎ (a : ℕ) × (mem a m.timers ≡ true) × ((get_next_timer m now).0 ≡ (m.obj a).next - now))
unfolding get_next_timer
get_next_timer_lem m now v = go m.timers v.sorted
  where
    least :
        (k : ℕ) (xs : List ℕ) (a : ℕ)
        → All (λ y. k ≤ (m.obj y).next) xs
        → mem a xs ≡ true
        → k ≤ (m.obj a).next
    least k [] a s h = cc
    least k (x ∷ xs) a s h = ground (arith, least k xs a s.1, ==_iff a x)

    go :
        (ts : List ℕ)
        → Sorted m.obj ts
        → let r = (get_next_timer (record m { timers = ts }) now).0 in
          ((a : ℕ) → mem a ts ≡ true → r ≤ (m.obj a).next - now)
          × ((ts ≡ []) × (r ≡ 2 ^ 64 - 1)
              ⊎ (a : ℕ) × (mem a ts ≡ true) × (r ≡ (m.obj a).next - now))
    go [] s = (λ a h. cc, inl (refl, refl))
    go (x ∷ xs) s =
        let later = none_due m.obj now (m.obj x).next x xs (omega arith) s.0 in
        (
          λ a h. ground (arith, least (m.obj x).next xs a later, ==_iff a x),
          inr (x, ground arith, ground arith),
        )
