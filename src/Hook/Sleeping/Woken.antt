-- ===== src/Hook/Sleeping/Woken.antt =====
-- When a sleeping fiber is woken.
use mnser.Common.{
  ℕ, ◌+◌, ◌*◌, ◌%◌, ◌^◌, ◌<◌, ◌≤◌, List, [], ◌∷◌, true, false, ◌≡◌, refl, ap, sym, ◌∙◌, arith,
}
use mnser.Common.{
  some, map, ==_iff, ◌==◌, ◌⊎◌, leb_false→lt, is_some, leb, leb→le, ◌≢◌, Bool-cases, Option-cases,
  inl, inr,
}
use mnser.Timer.{Timer, detect_clock_rollover, list_expired_cb}
use mnser.Timer.Order.{mem}
use mnser.Timer.Invariant.{Inv, add_timer-Inv}
use mnser.Timer.Expiry.{due}
use mnser.Timer.Expired.{picked_lem}
use mnser.Hook.{World}
use mnser.Timer.Due.{contains, due_callback, added_timer, added_other}
use mnser.Hook.Sleeping.{sleep_ms, asleep}

not_due :
    (obj : ℕ → Timer) (later f : ℕ) (xs : List ℕ)
    → ((a : ℕ) → (obj a).cb ≡ some f → later < (obj a).next)
    → contains (map (λ b. (obj b).cb) (due obj later xs)) f ≡ false
not_due obj later f [] h = refl
not_due obj later f (x ∷ xs) h =
    let ih = not_due obj later f xs h in
    elim (Bool-cases (leb (obj x).next later)) [
      | inr future ↦ rw future ih
      | inl past ↦ elim (Option-cases (obj x).cb) [
        | inl k ↦ rw (past, k) ih
        | inr (g, k) ↦ rw (past, k) (ground (arith, ih, other g k, leb→le (obj x).next later past))
      ]
    ]
  where
    other : (g : ℕ) → (obj x).cb ≡ some g → (obj x).next ≤ later → (g == f) ≡ false
    other g k past = ground (arith, ==_iff g f, h x, ap is_some k, k)

-- A fiber that calls `sleep` is woken by the timers of the thread at the time of the call and the
-- milliseconds later, as they are on 32 bits, and not before, as long as the clock does not go
-- back: `listExpiredCb` returns its callback exactly from then on.
pub sleep_lem :
    {Kernel Os : Type 0} (w : World Kernel Os) (wake seconds later probe : ℕ)
    → Inv w.timers
    → mem w.fresh w.timers.timers ≡ false
    → ((a : ℕ) → (w.timers.obj a).cb ≢ some wake)
    → w.now + sleep_ms seconds < 2 ^ 64
    → probe ≢ w.fresh
    → mem probe w.timers.timers ≡ false
    → (detect_clock_rollover (asleep wake (sleep_ms seconds) w).timers later).0 ≡ false
    → contains (list_expired_cb (asleep wake (sleep_ms seconds) w).timers probe later).0 wake
      ≡ leb (w.now + seconds * 1000 % 2 ^ 32) later
unfolding sleep_ms asleep
sleep_lem w wake seconds later probe v free new fits other unused steady =
    let ms : ℕ = seconds * 1000 % 2 ^ 32 in
    let m = (asleep wake ms w).timers in
    let (inv, mem_of) = add_timer-Inv w.timers w.fresh ms wake false w.now v free in
    let timer = added_timer w.timers w.fresh ms wake w.now fits in
    let out : mem probe m.timers ≡ false =
      ground (arith, mem_of probe, ==_iff probe w.fresh, unused) in
    elim (Bool-cases (leb (w.now + ms) later)) [
      | inl due_by ↦
          due_callback m probe later w.fresh wake inv out
            (ground (arith, mem_of w.fresh, ==_iff w.fresh w.fresh))
            (ground (arith, due_by, timer.0)) timer.1
          ∙ sym due_by
      | inr early ↦
          ap (λ cbs. contains cbs wake) (picked_lem m probe later inv out).callbacks
          ∙ rw steady (
              not_due m.obj later wake m.timers (λ a e.
                later_next a e (Bool-cases (a == w.fresh))
                  (omega (arith, timer.0, leb_false→lt (w.now + ms) later early)))
              ∙ sym early)
    ]
  where
    later_next :
        (a : ℕ)
        → ((asleep wake (seconds * 1000 % 2 ^ 32) w).timers.obj a).cb ≡ some wake
        → ((a == w.fresh) ≡ true) ⊎ ((a == w.fresh) ≡ false)
        → later < ((asleep wake (seconds * 1000 % 2 ^ 32) w).timers.obj w.fresh).next
        → later < ((asleep wake (seconds * 1000 % 2 ^ 32) w).timers.obj a).next
    later_next a e (inl same) h = let s = (==_iff a w.fresh).0 same in rw s h
    later_next a e (inr k) h =
        let o = added_other w.timers w.fresh (seconds * 1000 % 2 ^ 32) wake w.now a k in
        absurd (new a (ap (λ (t : Timer). t.cb) (sym o) ∙ e))
