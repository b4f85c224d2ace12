-- ===== src/IoManager/Idle.antt =====
-- The calls that may trigger both events of a context: `cancelAll`, and `idle` on what epoll reports.
use mnser.Common.{ℕ, Bool, true, not, ◌&&◌, ◌≡◌, refl}
use mnser.Common.{ap, ◌∙◌, arith, some, get_elem?}
use mnser.Common.{guard, ◌>>=◌, ◌>>◌, Result, ok, assert_failed, Bool-cases, Option-cases, inl, inr}
use mnser.IoManager.{
  read_event, write_event, nothing, is_none, both, minus, real_events, EpollEvent, FdContext,
  epoll_ctl_del, Epoll, IoManager, fire_if, cancel_all, handle_event, control,
}
use mnser.IoManager.Invariant.{Inv}
use mnser.IoManager.Steps.{shrink_op, changed-shrink_op, accepted}
use mnser.IoManager.Calls.{
  context_at, context_inv, Removed, Removed-not, Removed-refused, Removed-done,
}
use mnser.IoManager.Both.{
  tasks_of, second, first_lem, second_lem, writing-first, second-kernel, second-tickle_fd,
  both-Step,
}

-- The part of `cancelAll` that triggers.
abbrev trigger_both :
    {Kernel : Type 0} → IoManager Kernel → ℕ → FdContext → Result (Bool × IoManager Kernel)
trigger_both m fd c = fire_if c.cur_events.reading m fd c read_event >>= λ r.
    fire_if r.0.cur_events.writing r.1 fd r.0 write_event >>= λ q.
    guard (is_none q.0.cur_events) assert_failed >> ok (true, q.1)

module _ (E : Epoll) (m : IoManager E.Kernel) (fd : ℕ) where
  triggered :
      (c : FdContext)
      → Inv E m
      → get_elem? m.fd_contexts fd ≡ some c
      → accepted E m fd nothing ≡ true
      → (n : IoManager E.Kernel) × (trigger_both (control E m epoll_ctl_del fd nothing).1 fd c
          ≡ ok (true, n))
        × Removed E m fd nothing (tasks_of c c.cur_events) true n
  triggered c v here done =
      let cur = c.cur_events in
      let m' = (control E m epoll_ctl_del fd nothing).1 in
      let inv = context_inv E m fd c here v in
      let step = both-Step m' fd c cur (λ h. h) (λ h. h) v.counted inv here in
      let none_left : is_none (second m' fd c cur).0.cur_events ≡ true =
        ap is_none step.left_here ∙ ground arith in
      let empty : minus cur cur ≡ nothing = ground arith in
      rw
        (
          first_lem m' fd c cur (λ h. h) (λ h. h) v.counted inv here,
          writing-first m' fd c cur,
          second_lem m' fd c cur (λ h. h) (λ h. h) v.counted inv here,
          none_left,
        )
        (
          _,
          refl,
          Removed-done E m fd epoll_ctl_del nothing nothing (tasks_of c cur) (second m' fd c cur).1
              v done refl step.counted (λ g. step.events g ∙ rw empty refl) step.scheduled
              (second-kernel m' fd c cur) (second-tickle_fd m' fd c cur) step.others step.size,
        )

  -- `cancelAll` never fails an assertion. It returns true exactly if an event waits and epoll
  -- accepts; then no event of the descriptor waits any more, and the task of each that did is handed
  -- over, the one of READ first. Otherwise all stays as it is; and the invariant holds on.
  pub cancel_all_lem :
      Inv E m
      → let c = context_at m.fd_contexts fd in
        let done = not (is_none c.cur_events) && accepted E m fd nothing in
        (n : IoManager E.Kernel) × (cancel_all E m fd ≡ ok (done, n))
        × Removed E m fd nothing (tasks_of c c.cur_events) done n
  unfolding cancel_all
  cancel_all_lem v = elim (Option-cases (get_elem? m.fd_contexts fd)) [
    | inl gone ↦ rw (gone, cancel_all) (m, refl, Removed-not E m fd _ _ v)
    | inr (c, here) ↦
        let inv = context_inv E m fd c here v in
        elim (Bool-cases (is_none c.cur_events)) [
          | inl idle ↦ rw (here, cancel_all, idle) (m, refl, Removed-not E m fd _ _ v)
          | inr busy ↦ elim (Bool-cases (accepted E m fd nothing)) [
            | inr refused ↦
                rw (here, cancel_all, busy, refused)
                  (_, refl, Removed-refused E m fd epoll_ctl_del nothing nothing _ v refused)
            | inl done ↦ rw (here, cancel_all, busy, done) (triggered c v here done)
          ]
        ]
  ]

  -- An event of epoll that reports nothing that does not wait: the events that it reports wait no
  -- more and their tasks are handed over, unless epoll refuses the change or it reports none that
  -- waits, where nothing changes. No assertion fails, and the invariant holds on.
  pub handle_event_lem :
      (e : EpollEvent)
      → Inv E m
      → (fd_in : FdContext) → get_elem? m.fd_contexts fd ≡ some fd_in
      → (e.readable ≡ true → fd_in.cur_events.reading ≡ true)
      → (e.writable ≡ true → fd_in.cur_events.writing ≡ true)
      → let cur = fd_in.cur_events in
        let real = real_events e cur in
        let done = not (is_none (both cur real)) && accepted E m fd (minus cur real) in
        (n : IoManager E.Kernel) × (handle_event E m fd e ≡ ok n)
        × Removed E m fd (minus cur real) (tasks_of fd_in real) done n
  unfolding handle_event
  handle_event_lem e v c here reads writes =
      let inv = context_inv E m fd c here v in
      elim (Bool-cases (is_none (both c.cur_events (real_events e c.cur_events)))) [
        | inl idle ↦ rw (here, handle_event, idle) (m, refl, Removed-not E m fd _ _ v)
        | inr busy ↦
            elim (Bool-cases (accepted E m fd (minus c.cur_events (real_events e c.cur_events)))) [
              | inr refused ↦
                  rw (here, handle_event, busy, refused)
                    (
                      _,
                      refl,
                      Removed-refused E m fd _ (minus c.cur_events (real_events e c.cur_events)) _ _
                          v refused,
                    )
              | inl done ↦
                  let real = real_events e c.cur_events in
                  let left = minus c.cur_events real in
                  let m' = (control E m (shrink_op left) fd left).1 in
                  let r : real.reading ≡ true → c.cur_events.reading ≡ true =
                    λ h. ground (arith, reads, h) in
                  let w : real.writing ≡ true → c.cur_events.writing ≡ true =
                    λ h. ground (arith, writes, h) in
                  let step = both-Step m' fd c real r w v.counted inv here in
                  rw
                    (
                      here,
                      handle_event,
                      busy,
                      done,
                      first_lem m' fd c real r w v.counted inv here,
                      second_lem m' fd c real r w v.counted inv here,
                    )
                    (
                      _,
                      refl,
                      Removed-done E m fd (shrink_op left) left left (tasks_of c real)
                          (second m' fd c real).1 v done (changed-shrink_op left) step.counted
                          step.events step.scheduled (second-kernel m' fd c real)
                          (second-tickle_fd m' fd c real) step.others step.size,
                    )
            ]
      ]
