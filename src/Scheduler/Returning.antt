-- ===== src/Scheduler/Returning.antt =====
-- A fiber that yields, ends or comes back into its thread leaves the order as it should be.
use mnser.Common.{ℕ, ◌+◌, List, true}
use mnser.Common.{◌≡◌, refl, arith, ok, Bool-cases, inl, inr}
use mnser.Scheduler.{
  FiberState, ready, is_exec, is_over, Scheduler, count_out, ask_stop, set_state, yield_to_ready,
}
use mnser.Scheduler.Fine.{Fine-eq, Fine-yield, Fine-end, each}
use mnser.Scheduler.System.{looking, inside, back, Thread, Owner, System, queued, taken}
use mnser.Scheduler.Safety.{at_phase, Inv, taken-put, run_by-put, busy-put, room-put, same_state}
use mnser.Scheduler.Starting.{counted_out}

pub yields_ready-Inv :
    (sched : Scheduler) (before after : List Thread) (me : Owner) (f : ℕ) (state : ℕ → FiberState)
    → queued (at_phase sched before after me (inside f)) f
        + taken (at_phase sched before after me (inside f)) f
      ≡ 0
    → yield_to_ready sched.state f ≡ ok state
    → Inv (at_phase sched before after me (inside f))
    → Inv (at_phase (record sched { state = state }) before after me (inside f))
unfolding yield_to_ready
yields_ready-Inv sched before after me f state free e v =
    elim (Bool-cases (is_exec (sched.state f))) [
      | inl runs ↦
          let now : state ≡ set_state sched.state f ready = ground arith in
          rw now (record {
            fine =
                each _ f
                  (Fine-eq (same_state sched.state f ready) refl refl refl
                    (Fine-yield _ _ _ _ free (v.fine f)))
                  (λ g other. Fine-eq (rw other refl) refl refl refl (v.fine g));
            counted = v.counted;
            room = v.room;
            tasks = v.tasks;
          })
      | inr no_run ↦ absurd (ground arith)
    ]

pub ends-Inv :
    (sched : Scheduler) (before after : List Thread) (me : Owner) (f : ℕ) (x : FiberState)
    → is_over x ≡ true
    → Inv (at_phase sched before after me (inside f))
    → Inv (at_phase (record sched { state = set_state sched.state f x }) before after me (inside f))
ends-Inv sched before after me f x over v = record {
  fine =
      each _ f
        (Fine-eq (same_state sched.state f x) refl refl refl (Fine-end _ x _ _ _ over (v.fine f)))
        (λ g other. Fine-eq (rw other refl) refl refl refl (v.fine g));
  counted = v.counted;
  room = v.room;
  tasks = v.tasks;
}

pub comes_back-Inv :
    (sched : Scheduler) (before after : List Thread) (me : Owner) (f : ℕ)
    → Inv (at_phase sched before after me (inside f))
    → Inv (at_phase (count_out sched) before after me (back f))
unfolding count_out
comes_back-Inv sched before after me f v = record {
  fine = λ g.
      Fine-eq refl refl
        (omega (
          arith,
          taken-put sched before after me (inside f) g,
          taken-put sched before after me (back f) g,
        ))
        (omega (
          arith,
          run_by-put sched before after me (inside f) g,
          run_by-put sched before after me (back f) g,
        ))
        (v.fine g);
  counted = omega (
    arith,
    counted_out sched sched before after me (inside f) refl v,
    busy-put sched before after me (back f),
    busy-put sched before after me looking,
  );
  room = room-put sched before after me (inside f) (back f) v.room;
  tasks = v.tasks;
}

pub asks_stop-Inv : (s : System) → Inv s → Inv (record s { sched = ask_stop s.sched })
unfolding ask_stop
asks_stop-Inv s v = record { fine = v.fine; counted = v.counted; room = v.room; tasks = v.tasks }
