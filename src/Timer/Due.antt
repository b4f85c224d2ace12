-- ===== src/Timer/Due.antt =====
-- The callbacks that `listExpiredCb` returns, by the timers that have them.
use mnser.Common.{
  ℕ, ◌+◌, ◌^◌, ◌≤◌, ◌<◌, List, [], ◌∷◌, Bool, true, false, ◌||◌, ◌≡◌, refl, ap, sym, ◌∙◌, arith,
}
use mnser.Common.{Option, none, some, ◌==◌, if◌then◌else◌, Bool-cases, inl, inr, ==_iff}
use mnser.Timer.{
  Timer, TimerManager, add_timer, insert_timer, list_expired_cb, detect_clock_rollover,
}
use mnser.Timer.Order.{mem}
use mnser.Timer.Invariant.{Inv}
use mnser.Timer.Expiry.{due}
use mnser.Timer.Expired.{picked, picked_lem}
use mnser.Common.{map, Option-cases, le→leb}

-- Whether a callback is in a list.
abbrev pub contains : List (Option ℕ) → ℕ → Bool
contains [] f = false
contains (none ∷ cbs) f = contains cbs f
contains (some g ∷ cbs) f = g == f || contains cbs f

contains-map :
    (obj : ℕ → Timer) (xs : List ℕ) (a f : ℕ)
    → mem a xs ≡ true
    → (obj a).cb ≡ some f
    → contains (map (λ b. (obj b).cb) xs) f ≡ true
contains-map obj [] a f h e = cc
contains-map obj (x ∷ xs) a f h e = elim (Bool-cases (a == x)) [
  | inl same ↦ let s : x ≡ a = sym ((==_iff a x).0 same) in rw (s, e) (ground (arith, ==_iff f f))
  | inr other ↦
      let ih = contains-map obj xs a f (ground (arith, h, other)) e in
      elim (Option-cases (obj x).cb) [ inl k ↦ rw k ih | inr (g, k) ↦ rw k (ground (arith, ih)) ]
]

mem-due :
    (obj : ℕ → Timer) (now a : ℕ) (xs : List ℕ)
    → (obj a).next ≤ now
    → mem a xs ≡ true
    → mem a (due obj now xs) ≡ true
mem-due obj now a [] h e = cc
mem-due obj now a (x ∷ xs) h e = elim (Bool-cases (a == x)) [
  | inl same ↦
      let s : x ≡ a = sym ((==_iff a x).0 same) in
      rw (s, le→leb (obj a).next now h) (ground (arith, ==_iff a a))
  | inr other ↦ let ih = mem-due obj now a xs h (ground (arith, e, other)) in ground (arith, ih)
]

-- A timer that is due gives its callback to `listExpiredCb`.
pub due_callback :
    (m : TimerManager) (probe later a f : ℕ)
    → Inv m
    → mem probe m.timers ≡ false
    → mem a m.timers ≡ true
    → (m.obj a).next ≤ later
    → (m.obj a).cb ≡ some f
    → contains (list_expired_cb m probe later).0 f ≡ true
due_callback m probe later a f v free here h e =
    let r = picked_lem m probe later v free in
    ap (λ cbs. contains cbs f) r.callbacks
    ∙ contains-map m.obj (picked m later) a f (taken (detect_clock_rollover m later).0) e
  where
    taken : (back : Bool) → mem a (if back then m.timers else due m.obj later m.timers) ≡ true
    taken true = here
    taken false = mem-due m.obj later a m.timers h here

pub added_timer :
    (m : TimerManager) (addr ms f now : ℕ)
    → now + ms < 2 ^ 64
    → (((add_timer m addr ms (some f) false now).0.obj addr).next ≡ now + ms)
      × (((add_timer m addr ms (some f) false now).0.obj addr).cb ≡ some f)
unfolding add_timer insert_timer
added_timer m addr ms f now h =
    let self : (addr == addr) ≡ true = (==_iff addr addr).1 refl in
    (rw self (omega arith), rw self refl)

pub added_other :
    (m : TimerManager) (addr ms f now b : ℕ)
    → (b == addr) ≡ false
    → (add_timer m addr ms (some f) false now).0.obj b ≡ m.obj b
unfolding add_timer insert_timer
added_other m addr ms f now b h = rw h refl
