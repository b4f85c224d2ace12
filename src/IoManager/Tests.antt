-- ===== src/IoManager/Tests.antt =====
-- A manager with events on two descriptors, and the theorems applied to them.
use mnser.Common.{ℕ, zero, suc, List, [], ◌∷◌, true, false, ◌≡◌, refl}
use mnser.Common.{arith, none, some, get_elem?, Result, ok, err, assert_failed}
use mnser.IoManager.{
  read_event, write_event, nothing, EpollEvent, FdContext, EventContext, blank, Task, run_func,
  run_fiber, IoManager, add_event, grow, get_context, hand_over, trigger_event, fire_event, fire_if,
  cancel_event, cancel_all, handle_event, handle_events,
}
use mnser.IoManager.Sample.{Interests, epoll}
use mnser.IoManager.Contexts.{Fits-blank}
use mnser.IoManager.Invariant.{cur_at, registered, Fine, Inv}
use mnser.IoManager.Calls.{context_at, Removed}
use mnser.IoManager.Idle.{cancel_all_lem}
use mnser.IoManager.Arming.{armed_with, Added}
use mnser.IoManager.Growing.{sized, add_event_lem, grow-loses}
use mnser.IoManager.Stale.{handle_event_stale}

abbrev callback : EventContext
callback = record { scheduler = some 1; fiber = none; func = some 5 }

abbrev waiting_fiber : EventContext
waiting_fiber = record { scheduler = some 1; fiber = some 8; func = none }

-- Descriptor 1 waits for READ with a callback, 2 for both.
abbrev contexts : List FdContext
contexts =
    record { read = blank; write = blank; cur_events = nothing }
    ∷ record {
      read = callback;
      write = blank;
      cur_events = record { reading = true; writing = false };
    }
    ∷ record {
      read = callback;
      write = waiting_fiber;
      cur_events = record { reading = true; writing = true };
    }
    ∷ []

abbrev manager : IoManager Interests
manager = record {
  fd_contexts = contexts;
  pending_event_count = 3;
  kernel = λ g. registered (cur_at contexts g);
  tickle_fd = 9;
  scheduled = [];
}

fine : (fd : ℕ) → Fine (get_elem? contexts fd)
fine zero = record { read = Fits-blank; write = Fits-blank }
fine (suc zero) = record {
  read = record { scheduler = refl; one = refl; only = refl };
  write = Fits-blank;
}
fine (suc (suc zero)) = record {
  read = record { scheduler = refl; one = refl; only = refl };
  write = record { scheduler = refl; one = refl; only = refl };
}
fine (suc (suc (suc fd))) = tt

manager-Inv : Inv epoll manager
manager-Inv = record {
  counted = record { contexts = fine; count = refl; room = omega arith };
  known = λ g out. refl;
}

abbrev readable : EpollEvent
readable = record { readable = true; writable = false; broken = false }

abbrev hung_up : EpollEvent
hung_up = record { readable = false; writable = false; broken = true }

abbrev handed : Result (IoManager Interests) → List (ℕ × Task)
handed (err e) = []
handed (ok m) = m.scheduled

-- A descriptor that was closed at the other end wakes up both of its events.
all_woken :
    handed
      (handle_events epoll manager ((some 2, hung_up) ∷ (none, readable) ∷ (some 1, readable) ∷ []))
    ≡ (1, run_func 5) ∷ (1, run_fiber 8) ∷ (1, run_func 5) ∷ []
unfolding handle_events handle_event fire_if fire_event trigger_event get_context hand_over
all_woken = refl

add_event_example :
    (n : IoManager Interests) × (add_event epoll nothing manager 40 write_event none (some 1) 7 true
      ≡ ok (true, n))
    × Added epoll (sized epoll manager 40) 40 write_event (armed_with 1 none 7) true n
add_event_example =
    add_event_lem epoll manager 40 write_event none 1 7 true manager-Inv (omega arith) (omega arith)
      refl refl refl

cancel_all_example :
    (n : IoManager Interests) × (cancel_all epoll manager 2 ≡ ok (true, n))
    × Removed epoll manager 2 nothing ((1, run_func 5) ∷ (1, run_fiber 8) ∷ []) true n
cancel_all_example = cancel_all_lem epoll manager 2 manager-Inv

handle_event_stale_example :
    handle_event epoll manager 1 (record { readable = true; writable = true; broken = false })
    ≡ err assert_failed
handle_event_stale_example =
    handle_event_stale epoll manager 1 (context_at contexts 1)
      (record { readable = true; writable = true; broken = false }) manager-Inv refl refl refl refl
      refl

grow-loses_example :
    (cancel_event epoll (grow nothing manager 1) 2 read_event ≡ ok (false, grow nothing manager 1))
    × ((grow nothing manager 1).kernel 2 ≡ some (record { reading = true; writing = true }))
grow-loses_example =
    grow-loses epoll nothing manager 2 1 read_event manager-Inv refl refl (omega arith)

abbrev idle_manager : IoManager Interests
idle_manager = record manager { fd_contexts = []; pending_event_count = 0; kernel = λ g. none }

idle_manager-Inv : Inv epoll idle_manager
idle_manager-Inv = record {
  counted = record { contexts = λ fd. tt; count = refl; room = omega arith };
  known = λ g out. refl;
}
