-- ===== src/Timer/Invariant.antt =====
-- What every call of the timers keeps, and what each of them does to the set.
use mnser.Common.{is_some, ℕ, ◌+◌, ◌%◌, ◌^◌, List, Bool, true, false, not, ◌&&◌, ◌||◌}
use mnser.Common.{◌≡◌, refl, ap, ◌∙◌, arith, ◌==◌, if◌then◌else◌, none, some}
use mnser.Common.{sub_size, Bool-cases, Option-cases, inl, inr, ok, ==_iff}
use mnser.Timer.{
  Timer, TimerManager, update, set_insert, set_erase, insert_timer, add_timer, cancel, refresh,
  reset,
}
use mnser.Timer.Order.{
  mem, Sorted, set_insert-Sorted, mem-set_insert, set_erase-Erased, Sorted-cong,
}

-- The set is in order, and a timer is in it exactly if it has a callback to run.
pub record Inv (m : TimerManager) : Type 0 where
  pub sorted : Sorted m.obj m.timers
  pub armed : (a : ℕ) → mem a m.timers ≡ is_some (m.obj a).cb

-- A change of an object outside of the set leaves the order.
pub Sorted-update :
    (obj : ℕ → Timer) (a : ℕ) (t : Timer) (xs : List ℕ)
    → mem a xs ≡ false
    → Sorted obj xs
    → Sorted (update obj a t) xs
Sorted-update obj a t xs h s =
    Sorted-cong obj (update obj a t) xs (λ x k. ground (arith, ==_iff x a)) s

-- A manager with a timer of address `a` put in, changed or taken out.
insert_timer-Inv :
    (m : TimerManager) (obj : ℕ → Timer) (a : ℕ) (t : Timer) (ys : List ℕ)
    → Sorted obj ys
    → mem a ys ≡ false
    → is_some t.cb ≡ true
    → ((b : ℕ) → (b == a) ≡ false → mem b ys ≡ is_some (obj b).cb)
    → Inv (insert_timer (record m { obj = update obj a t; timers = ys }) a).0
unfolding insert_timer
insert_timer-Inv m obj a t ys s h c k = record {
  sorted = set_insert-Sorted (update obj a t) a ys (Sorted-update obj a t ys h s);
  armed = λ b. mem-set_insert (update obj a t) b a ys ∙ ground (arith, k b);
}

-- `addTimer` of a callback at an address not in use keeps the invariant, and puts that timer into
-- the set.
pub add_timer-Inv :
    (m : TimerManager) (addr ms c : ℕ) (recurring : Bool) (now : ℕ)
    → Inv m
    → mem addr m.timers ≡ false
    → Inv (add_timer m addr ms (some c) recurring now).0
      × ((b : ℕ)
          → mem b (add_timer m addr ms (some c) recurring now).0.timers
            ≡ (b == addr || mem b m.timers))
unfolding add_timer insert_timer
add_timer-Inv m addr ms c recurring now v h = (
  insert_timer-Inv m m.obj addr _ m.timers v.sorted h refl (λ b e. v.armed b),
  λ b. mem-set_insert _ b addr m.timers,
)

-- `cancel` never erases the end iterator: it returns whether the timer had a callback, and takes
-- that timer, and no other, out of the set for good.
pub cancel_lem :
    (m : TimerManager) (a : ℕ)
    → Inv m
    → (n : TimerManager) × (cancel m a ≡ ok (is_some (m.obj a).cb, n))
      × Inv n
      × ((b : ℕ) → mem b n.timers ≡ (not (b == a) && mem b m.timers))
      × ((b : ℕ) → n.obj b ≡ update m.obj a (record (m.obj a) { cb = none }) b)
unfolding cancel
cancel_lem m a v = elim (Option-cases (m.obj a).cb) [
  | inl gone ↦ (
    m,
    rw (gone, cancel) refl,
    v,
    λ b. ground (arith, gone, v.armed a, ==_iff b a),
    λ b. ground (arith, gone, ==_iff b a),
  )
  | inr (c, e) ↦
      let obj = update m.obj a (record (m.obj a) { cb = none }) in
      let here : mem a m.timers ≡ true = v.armed a ∙ ap is_some e in
      let (ys, r) =
        set_erase-Erased obj a m.timers
          (Sorted-cong m.obj obj m.timers (λ x k. ground arith) v.sorted) here in
      (
        record m { obj = obj; timers = ys },
        rw (e, cancel, r.found) refl,
        record { sorted = r.sorted; armed = λ b. ground (arith, r.members b, v.armed b) },
        r.members,
        λ b. refl,
      )
]

-- What `refresh` and `reset` do with an armed timer: taken out, changed, and put in again.
reinsert :
    (m : TimerManager) (a : ℕ) (t : Timer)
    → Inv m
    → is_some (m.obj a).cb ≡ true
    → is_some t.cb ≡ true
    → (ys : List ℕ) × (set_erase m.obj a m.timers ≡ some ys)
      × Inv (record m { obj = update m.obj a t; timers = set_insert (update m.obj a t) a ys })
      × ((b : ℕ) → mem b (set_insert (update m.obj a t) a ys) ≡ mem b m.timers)
reinsert m a t v here there =
    let (ys, r) = set_erase-Erased m.obj a m.timers v.sorted (v.armed a ∙ here) in
    let out : mem a ys ≡ false = r.members a ∙ ground arith in
    (
      ys,
      r.found,
      record {
        sorted = set_insert-Sorted _ a ys (Sorted-update m.obj a t ys out r.sorted);
        armed = λ b. mem-set_insert _ b a ys ∙ ground (arith, r.members b, v.armed b);
      },
      λ b. mem-set_insert _ b a ys ∙ ground (arith, r.members b, v.armed a, ==_iff b a),
    )

-- `refresh` fails exactly on a timer that has run out or was cancelled; else it puts the timer's
-- next time to its interval from now, and keeps the set otherwise.
pub refresh_lem :
    (m : TimerManager) (a now : ℕ)
    → Inv m
    → ((refresh m a now).0 ≡ is_some (m.obj a).cb)
      × Inv (refresh m a now).1
      × ((b : ℕ) → mem b (refresh m a now).1.timers ≡ mem b m.timers)
      × ((b : ℕ)
          → (refresh m a now).1.obj b ≡ (
              if b == a && is_some (m.obj a).cb
              then record (m.obj a) { next = (now + (m.obj a).ms) % 2 ^ 64 }
              else m.obj b))
unfolding refresh
refresh_lem m a now v = elim (Option-cases (m.obj a).cb) [
  | inl gone ↦ rw (gone, refresh) (refl, v, λ b. refl, λ b. ground arith)
  | inr (c, e) ↦
      let t = record (m.obj a) { next = (now + (m.obj a).ms) % 2 ^ 64 } in
      let armed : is_some (m.obj a).cb ≡ true = ap is_some e in
      let (ys, f, inv, same) = reinsert m a t v armed armed in
      rw (e, refresh, f) (refl, inv, same, λ b. ground arith)
]

-- What a timer is after `reset`.
abbrev reset_timer : TimerManager → ℕ → ℕ → Bool → ℕ → Timer
reset_timer m a ms from_now now = record (m.obj a) {
  ms = ms;
  next = ((if from_now then now else sub_size (m.obj a).next (m.obj a).ms) + ms) % 2 ^ 64;
}

-- `reset` of a timer that is armed keeps the invariant and the set, and unless nothing is to
-- change puts the new interval and the time counted from now, or from when the old interval began.
pub reset_lem :
    (m : TimerManager) (a ms : ℕ) (from_now : Bool) (now : ℕ)
    → Inv m
    → is_some (m.obj a).cb ≡ true
    → ((reset m a ms from_now now).0 ≡ true)
      × Inv (reset m a ms from_now now).1
      × ((b : ℕ) → mem b (reset m a ms from_now now).1.timers ≡ mem b m.timers)
      × ((b : ℕ)
          → (reset m a ms from_now now).1.obj b ≡ (
              if ms == (m.obj a).ms && not from_now
              then m.obj b
              else update m.obj a (reset_timer m a ms from_now now) b))
unfolding reset insert_timer
reset_lem m a ms from_now now v h = elim (Bool-cases (ms == (m.obj a).ms && not from_now)) [
  | inl same ↦ rw same (refl, v, λ b. refl, λ b. refl)
  | inr other ↦ elim (Option-cases (m.obj a).cb) [
    | inl gone ↦ cc (ap is_some gone)
    | inr (c, e) ↦
        let t = reset_timer m a ms from_now now in
        let (ys, f, inv, mems) = reinsert m a t v h h in
        rw (other, e, f, reset)
          (refl, record { sorted = inv.sorted; armed = inv.armed }, mems, λ b. ground (arith, e))
  ]
]

-- A timer that has run out or was cancelled cannot be reset; but a call that asks for the interval
-- it has already, and not from now, says that it was.
pub reset_gone :
    (m : TimerManager) (a ms : ℕ) (from_now : Bool) (now : ℕ)
    → is_some (m.obj a).cb ≡ false
    → reset m a ms from_now now ≡ (ms == (m.obj a).ms && not from_now, m, false)
unfolding reset
reset_gone m a ms from_now now h = ground arith
