-- ===== src/Hook/Tests.antt =====
-- A socket on which two calls find nothing to read, and its timers.
use mnser.Common.{
  ℕ, ◌%◌, zero, suc, ◌+◌, ◌*◌, ◌^◌, ◌<◌, ◌≤◌, ◌-◌, List, [], ◌∷◌, true, false, ◌≡◌, ◌≢◌, refl,
  arith, leb, none, some, get_elem?,
}
use mnser.FdManager.{get_ctx, get_timeout, new_fd_ctx}
use mnser.Timer.{TimerManager, add_timer, insert_timer, detect_clock_rollover, list_expired_cb}
use mnser.Timer.Invariant
use mnser.IoManager.{read_event, nothing, has, FdContext, new_context, IoManager, run_fiber}
use mnser.IoManager.Contexts.{Fits-blank}
use mnser.IoManager.Invariant.{cur_at, registered, Fine, Inv}
use mnser.IoManager.Sample.{Interests, epoll}
use mnser.IoManager.Willing.{Willing}
use mnser.Hook.{
  IoResult, returned, failed, eagain, etimedout, World, Call, done, failed_with, eintr, einprogress,
  do_io, connect_with_timeout,
}
use mnser.Hook.Waiting.{Ready, Fair}
use mnser.Hook.Arriving.{event_arrives, only_io, event_arrives-Fair}
use mnser.Hook.Retrying.{Patient, Answered, do_io_lem}
use mnser.Timer.Due.{contains}
use mnser.Hook.Timeouts.{run_timers}
use mnser.Hook.Expired.{do_io_times_out}
use mnser.Hook.Connecting.{Connected, connect_lem}
use mnser.Hook.Sleeping.{sleep_ms, asleep}
use mnser.Hook.Sleeping.Woken.{sleep_lem}

abbrev contexts : List FdContext
contexts = new_context nothing ∷ new_context nothing ∷ []

abbrev quiet : IoManager Interests
quiet = record {
  fd_contexts = contexts;
  pending_event_count = 0;
  kernel = λ g. registered (cur_at contexts g);
  tickle_fd = 9;
  scheduled = [];
}

fine : (fd : ℕ) → Fine (get_elem? contexts fd)
fine zero = record { read = Fits-blank; write = Fits-blank }
fine (suc zero) = record { read = Fits-blank; write = Fits-blank }
fine (suc (suc fd)) = tt

quiet-Inv : Inv epoll quiet
quiet-Inv = record {
  counted = record { contexts = fine; count = refl; room = omega arith };
  known = λ g out. refl;
}

abbrev no_timers : TimerManager
no_timers = record {
  obj = λ a. record { recurring = false; ms = 0; next = 0; cb = none };
  timers = [];
  tickled = false;
  previous_time = 0;
}

no_timers-Inv : Invariant.Inv no_timers
no_timers-Inv = record { sorted = tt; armed = λ a. refl }

-- Descriptor 1 is a socket; the bytes come after as many calls as `os` says.
abbrev world : World Interests ℕ
world = record {
  io = quiet;
  timers = no_timers;
  fds = record { ctx = λ a. new_fd_ctx (some true); datas = none ∷ some 0 ∷ [] };
  os = 2;
  now = 100;
  fresh = 4;
  cancelled = 0;
}

abbrev call : Call
call = record {
  fd = 1;
  event = read_event;
  scheduler = 3;
  fiber = 8;
  on_timeout = 6;
  junk = nothing;
}

abbrev reads : ℕ → IoResult × ℕ
reads zero = (returned 5, 0)
reads (suc n) = (failed eagain, n)

world-Ready : Ready epoll call world
world-Ready = record {
  sound = record {
    io = quiet-Inv;
    timers = no_timers-Inv;
    unused = λ a h. refl;
    contexts = omega arith;
    out = refl;
  };
  clean = λ a h. cc;
  absent = refl;
}

epoll-Willing : Willing epoll
epoll-Willing fd s t k h = rw h (ground arith)

-- The loop of the thread is told that the event has come.
abbrev loop : World Interests ℕ → World Interests ℕ
loop w = event_arrives epoll call w

loop-Fair : Fair epoll call loop
loop-Fair = event_arrives-Fair epoll call epoll-Willing

reads-Patient : Patient epoll call loop reads (λ n. n)
reads-Patient = record {
  interrupted = interrupted;
  blocked = blocked;
  meanwhile = λ w. omega (arith, (only_io epoll call w).1);
}
  where
    interrupted : (o : ℕ) → failed_with eintr (reads o).0 ≡ true → (reads o).1 < o
    interrupted zero h = cc
    interrupted (suc o) h = omega arith

    blocked : (o : ℕ) → failed_with eagain (reads o).0 ≡ true → (reads o).1 < o
    blocked zero h = cc
    blocked (suc o) h = omega arith

found : (get_ctx world.fds (some 1) false 0 none).0 ≡ some 0
unfolding get_ctx
found = refl

do_io_example :
    (r : IoResult) × (n : World Interests ℕ) × (do_io epoll call loop reads true true 3 world
      ≡ done r n)
    × Ready epoll call n
    × Answered epoll call loop reads r n
do_io_example =
    do_io_lem epoll call loop reads (λ n. n) reads-Patient loop-Fair refl (omega arith) refl true 3
      0 world (omega arith) world-Ready found refl refl refl

abbrev connects : ℕ → IoResult × ℕ
connects o = (failed einprogress, o)

abbrev refused : ℕ → IoResult × ℕ × ℕ
refused o = (returned 0, 111, o)

connect_example :
    (r : IoResult) × (n : World Interests ℕ) × (connect_with_timeout epoll call loop connects true
        5000 refused world
      ≡ done r n)
    × Ready epoll call n
    × Connected epoll call loop connects refused r n
connect_example =
    connect_lem epoll call loop connects refused 5000 0 world world-Ready loop-Fair refl
      (omega arith) refl found refl refl refl refl

-- The same socket with a timeout of 30 milliseconds.
abbrev timed : World Interests ℕ
timed = record world {
  fds = record {
    ctx = λ a. record (new_fd_ctx (some true)) { recv_timeout = 30 };
    datas = none ∷ some 0 ∷ [];
  };
}

timed-Ready : Ready epoll call timed
timed-Ready = record {
  sound = record {
    io = quiet-Inv;
    timers = no_timers-Inv;
    unused = λ a h. refl;
    contexts = omega arith;
    out = refl;
  };
  clean = λ a h. cc;
  absent = refl;
}

timed_found : (get_ctx timed.fds (some 1) false 0 none).0 ≡ some 0
unfolding get_ctx
timed_found = refl

in_range : 100 + get_timeout (timed.fds.ctx 0) true < 2 ^ 64 - 1
unfolding get_timeout
in_range = omega arith

gone_by : 100 + get_timeout (timed.fds.ctx 0) true ≤ 900
unfolding get_timeout
gone_by = omega arith

do_io_times_out_example :
    (n : World Interests ℕ) × (do_io epoll call
        (run_timers epoll call 900 5)
        reads
        true
        true
        1
        timed
      ≡ done (failed etimedout) n)
    × (n.os ≡ 1)
    × (n.io.scheduled ≡ (3, run_fiber 8) ∷ [])
    × (has (cur_at n.io.fd_contexts 1) read_event ≡ false)
do_io_times_out_example =
    do_io_times_out epoll call reads true 0 0 900 timed 1 timed-Ready refl (omega arith) refl
      epoll-Willing refl refl timed_found refl refl refl refl in_range gone_by

steady : (detect_clock_rollover (asleep 6 (sleep_ms 2) world).timers 150).0 ≡ false
unfolding detect_clock_rollover asleep sleep_ms add_timer insert_timer
steady = refl

no_callback : (a : ℕ) → (no_timers.obj a).cb ≢ some 6
no_callback a h = cc

below : 100 + sleep_ms 2 < 2 ^ 64
unfolding sleep_ms
below = omega arith

elsewhere : ◌≢◌ {A = ℕ} 5 4
elsewhere h = absurd (omega arith)

sleep_example :
    contains (list_expired_cb (asleep 6 (sleep_ms 2) world).timers 5 150).0 6
    ≡ leb (100 + 2 * 1000 % 2 ^ 32) 150
sleep_example = sleep_lem world 6 2 150 5 no_timers-Inv refl no_callback below elsewhere refl steady
