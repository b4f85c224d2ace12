-- ===== src/IoManager/Stale.antt =====
-- When the loop may stop, how long it waits, and a report of epoll that has gone stale.
use mnser.Common.{
  ℕ, zero, suc, ◌≤◌, ◌<◌, ◌^◌, min, List, [], ◌∷◌, Bool, true, false, ◌≡◌, ◌⊎◌, inl, inr,
  Bool-cases, subst, refl,
}
use mnser.Common.{arith, ltb, some, get_elem?}
use mnser.Common.{err, assert_failed}
use mnser.IoManager.{
  Event, has, epoll_ctl_del, nothing, read_event, write_event, EpollEvent, FdContext, Epoll,
  IoManager, handle_event, stopping, clamp_timeout, wait_timeout, control, fire_if, fire_event,
  trigger_event,
}
use mnser.IoManager.Contexts.{ContextInv, total, cleared}
use mnser.IoManager.Invariant.{cur_at, Inv}
use mnser.IoManager.Steps.{accepted, after, fire_if_lem}
use mnser.IoManager.Calls.{context_inv}

total-zero : (cs : List FdContext) (fd : ℕ) → total cs ≡ 0 → cur_at cs fd ≡ nothing
total-zero [] fd h = refl
total-zero (c ∷ cs) zero h = ground arith
total-zero (c ∷ cs) (suc fd) h = total-zero cs fd (omega arith)

-- The loop only stops if no event waits on any descriptor.
pub stopping_lem :
    (E : Epoll) (m : IoManager E.Kernel) (timeout : ℕ) (scheduler_stopping : Bool)
    → Inv E m
    → stopping m timeout scheduler_stopping ≡ true
    → (fd : ℕ) → cur_at m.fd_contexts fd ≡ nothing
stopping_lem E m timeout scheduler_stopping v h fd =
    total-zero m.fd_contexts fd (ground (arith, v.counted.count))

-- The loop waits no longer than the time to the next timer and than 3 seconds, if that time is
-- below 2^31 ms; from there on to 2^32 the `int` that epoll_wait gets is negative, which makes it
-- wait with no limit.
pub wait_timeout_lem :
    (next : ℕ)
    → next < 2 ^ 32
    → (wait_timeout next ≤ min next 3000) × (next < 2 ^ 31)
      ⊎ (2 ^ 31 ≤ wait_timeout next) × (2 ^ 31 ≤ next)
unfolding wait_timeout clamp_timeout
wait_timeout_lem next h = elim (Bool-cases (ltb next (2 ^ 31))) [
  | inl short ↦ inl (ground arith, ground arith)
  | inr long ↦ inr (ground arith, ground arith)
]

fire_absent :
    {Kernel : Type 0} (m : IoManager Kernel) (fd : ℕ) (c : FdContext) (event : Event)
    → has c.cur_events event ≡ false
    → fire_if true m fd c event ≡ err assert_failed
unfolding fire_if fire_event trigger_event
fire_absent m fd c event h = rw h refl

-- epoll reported both events of a descriptor, and before the loop came to it, another thread took
-- WRITE away: the loop triggers WRITE all the same, and an assertion fails.
pub handle_event_stale :
    (E : Epoll) (m : IoManager E.Kernel) (fd : ℕ) (c : FdContext) (e : EpollEvent)
    → Inv E m
    → get_elem? m.fd_contexts fd ≡ some c
    → c.cur_events ≡ record { reading = true; writing = false }
    → e.readable ≡ true
    → e.writable ≡ true
    → accepted E m fd nothing ≡ true
    → handle_event E m fd e ≡ err assert_failed
unfolding handle_event
handle_event_stale E m fd c e v here cur r w done =
    let c' = record c { cur_events = record { reading = true; writing = false } } in
    let inv : ContextInv c' =
      subst (λ s. ContextInv (record c { cur_events = s })) cur (context_inv E m fd c here v) in
    let m' = (control E m epoll_ctl_del fd nothing).1 in
    rw
      (
        here,
        handle_event,
        cur,
        r,
        w,
        done,
        fire_if_lem m' fd c' read_event true (λ h. refl) inv,
        fire_absent (after true m' fd c' read_event).1 fd (cleared c' read_event) write_event refl,
      )
      refl
