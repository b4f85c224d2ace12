-- ===== src/IoManager/Calls.antt =====
-- `delEvent`, `cancelEvent` and `cancelAll`: what they return and do.
use mnser.Common.{ℕ, List, [], ◌++◌, Bool, true, false, ◌&&◌, ◌≡◌, refl}
use mnser.Common.{subst, ap, sym, ◌∙◌, ◌==◌, if◌then◌else◌, Option, none, some, length, get_elem?}
use mnser.Common.{ok, Bool-cases, Option-cases, inl, inr, append-nil}
use mnser.IoManager.{
  Event, no_event, read_event, write_event, Events, nothing, has, without, FdContext, Task, CtlOp,
  changed, Epoll, IoManager, blank, del_event, cancel_event, control,
}
use mnser.IoManager.Contexts.{ContextInv, context, tasks}
use mnser.IoManager.Invariant.{cur_at, registered, Fine, Counted, Inv, known-done, Inv-refused}
use mnser.IoManager.Steps.{
  shrink_op, changed-shrink_op, accepted, get_context_lem, after, fire_event_lem, after-Step,
}

-- The context at a descriptor; a blank one beyond the end.
abbrev pub context_of : Option FdContext → FdContext
context_of none = record { read = blank; write = blank; cur_events = nothing }
context_of (some c) = c

abbrev pub context_at : List FdContext → ℕ → FdContext
context_at cs fd = context_of (get_elem? cs fd)

-- A call that leaves the events `left` at a descriptor and hands over tasks, if it is done.
pub record Removed (E : Epoll) (m : IoManager E.Kernel) (fd : ℕ) (left : Events)
    (handed : List (ℕ × Task)) (done : Bool) (n : IoManager E.Kernel) : Type 0 where
  pub inv : Inv E n
  pub events :
      (g : ℕ) → cur_at n.fd_contexts g ≡ (if done && g == fd then left else cur_at m.fd_contexts g)
  pub scheduled : n.scheduled ≡ (if done then m.scheduled ++ handed else m.scheduled)
  pub others : (g : ℕ) → (g == fd) ≡ false → get_elem? n.fd_contexts g ≡ get_elem? m.fd_contexts g
  pub pipe : n.tickle_fd ≡ m.tickle_fd
  pub size : length n.fd_contexts ≡ length m.fd_contexts

has-nothing : (event : Event) → has nothing event ≡ false
has-nothing no_event = refl
has-nothing read_event = refl
has-nothing write_event = refl

module _ (E : Epoll) (m : IoManager E.Kernel) (fd : ℕ) where
  pub Removed-not :
      (left : Events) (handed : List (ℕ × Task)) → Inv E m → Removed E m fd left handed false m
  Removed-not left handed v = record {
    inv = v;
    events = λ g. refl;
    scheduled = refl;
    others = λ g h. refl;
    pipe = refl;
    size = refl;
  }

  pub Removed-refused :
      (op : CtlOp) (s left : Events) (handed : List (ℕ × Task))
      → Inv E m
      → (E.ctl op fd s m.kernel).0 ≡ false
      → Removed E m fd left handed false (record m { kernel = (E.ctl op fd s m.kernel).1 })
  Removed-refused op s left handed v refused = record {
    inv = Inv-refused E m op fd s v refused;
    events = λ g. refl;
    scheduled = refl;
    others = λ g h. refl;
    pipe = refl;
    size = refl;
  }

  -- A call that epoll accepted, from what it did to the contexts.
  pub Removed-done :
      (op : CtlOp) (s left : Events) (handed : List (ℕ × Task)) (n : IoManager E.Kernel)
      → Inv E m
      → (E.ctl op fd s m.kernel).0 ≡ true
      → changed op s ≡ registered left
      → Counted n.fd_contexts n.pending_event_count
      → ((g : ℕ) → cur_at n.fd_contexts g ≡ (if g == fd then left else cur_at m.fd_contexts g))
      → n.scheduled ≡ m.scheduled ++ handed
      → n.kernel ≡ (E.ctl op fd s m.kernel).1
      → n.tickle_fd ≡ m.tickle_fd
      → ((g : ℕ) → (g == fd) ≡ false → get_elem? n.fd_contexts g ≡ get_elem? m.fd_contexts g)
      → length n.fd_contexts ≡ length m.fd_contexts
      → Removed E m fd left handed true n
  Removed-done op s left handed n v done e counted events scheduled kernel pipe others size =
      record {
        inv = record {
          counted = counted;
          known = λ g out.
              ap (λ k. E.interest k g) kernel
              ∙ known-done E m op fd s left n.fd_contexts v done e events g
                  (ap (λ (p : ℕ). g == p) (sym pipe) ∙ out);
        };
        events = events;
        scheduled = scheduled;
        others = others;
        pipe = pipe;
        size = size;
      }

  pub context_inv : (c : FdContext) → get_elem? m.fd_contexts fd ≡ some c → Inv E m → ContextInv c
  context_inv c here v = subst Fine here (v.counted.contexts fd)

  -- `delEvent` never fails an assertion. It returns true exactly if the event waits and epoll
  -- accepts the change; then that event waits no more and its task is dropped. Otherwise all
  -- stays as it is; and the invariant holds on.
  pub del_event_lem :
      (event : Event)
      → Inv E m
      → let cur = cur_at m.fd_contexts fd in
        let done = has cur event && accepted E m fd (without cur event) in
        (n : IoManager E.Kernel) × (del_event E m fd event ≡ ok (done, n))
        × Removed E m fd (without cur event) [] done n
  unfolding del_event
  del_event_lem event v = elim (Option-cases (get_elem? m.fd_contexts fd)) [
    | inl gone ↦ rw (gone, del_event, has-nothing event) (m, refl, Removed-not _ [] v)
    | inr (c, here) ↦
        let inv = context_inv c here v in
        elim (Bool-cases (has c.cur_events event)) [
          | inr absent ↦ rw (here, del_event, absent) (m, refl, Removed-not _ [] v)
          | inl waits ↦ elim (Bool-cases (accepted E m fd (without c.cur_events event))) [
            | inr refused ↦
                rw (here, del_event, waits, refused)
                  (_, refl, Removed-refused _ _ (without c.cur_events event) [] v refused)
            | inl done ↦
                let step = after-Step m fd c event true (λ b. waits) v.counted inv here in
                rw (here, del_event, waits, done, get_context_lem c event waits)
                  (
                    _,
                    refl,
                    Removed-done (shrink_op (without c.cur_events event))
                        (without c.cur_events event) (without c.cur_events event) []
                        (record (after true m fd c event).1 {
                          scheduled = m.scheduled;
                          kernel =
                              (control E m (shrink_op (without c.cur_events event)) fd
                                (without c.cur_events event)).1.kernel;
                        })
                        v done (changed-shrink_op (without c.cur_events event)) step.counted
                        step.events (sym (append-nil m.scheduled)) refl refl step.others step.size,
                  )
          ]
        ]
  ]

  -- `cancelEvent` never fails an assertion either. It returns true exactly if the event waits and
  -- epoll accepts the change; then the event waits no more, and the callback or the fiber that it
  -- was armed with is handed, once, to the scheduler it was armed on. Otherwise all stays as it
  -- is; and the invariant holds on.
  pub cancel_event_lem :
      (event : Event)
      → Inv E m
      → let cur = cur_at m.fd_contexts fd in
        let done = has cur event && accepted E m fd (without cur event) in
        (n : IoManager E.Kernel) × (cancel_event E m fd event ≡ ok (done, n))
        × Removed E m fd
            (without cur event)
            (tasks (context (context_at m.fd_contexts fd) event))
            done
            n
  unfolding cancel_event
  cancel_event_lem event v = elim (Option-cases (get_elem? m.fd_contexts fd)) [
    | inl gone ↦ rw (gone, cancel_event, has-nothing event) (m, refl, Removed-not _ _ v)
    | inr (c, here) ↦
        let inv = context_inv c here v in
        elim (Bool-cases (has c.cur_events event)) [
          | inr absent ↦ rw (here, cancel_event, absent) (m, refl, Removed-not _ _ v)
          | inl waits ↦ elim (Bool-cases (accepted E m fd (without c.cur_events event))) [
            | inr refused ↦
                rw (here, cancel_event, waits, refused)
                  (_, refl, Removed-refused _ _ (without c.cur_events event) _ v refused)
            | inl done ↦
                let step = after-Step m fd c event true (λ b. waits) v.counted inv here in
                rw
                  (
                    here,
                    cancel_event,
                    waits,
                    done,
                    fire_event_lem
                        (control E m (shrink_op (without c.cur_events event)) fd
                          (without c.cur_events event)).1
                        fd c event waits inv,
                  )
                  (
                    _,
                    refl,
                    Removed-done (shrink_op (without c.cur_events event))
                        (without c.cur_events event) (without c.cur_events event)
                        (tasks (context c event))
                        (after true
                          (control E m (shrink_op (without c.cur_events event)) fd
                            (without c.cur_events event)).1
                          fd c event).1
                        v done (changed-shrink_op (without c.cur_events event)) step.counted
                        step.events step.scheduled refl refl step.others step.size,
                  )
          ]
        ]
  ]
