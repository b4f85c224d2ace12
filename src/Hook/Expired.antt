-- ===== src/Hook/Expired.antt =====
-- `do_io` on a descriptor where nothing comes before its timeout.
use mnser.Common.{
  ℕ, suc, ◌+◌, ◌-◌, ◌^◌, ◌≤◌, ◌<◌, [], ◌∷◌, ◌++◌, Bool, true, false, ◌≡◌, refl, ◌==◌, none, some,
}
use mnser.FdManager.{get_timeout, get_ctx}
use mnser.IoManager.{nothing, has, Epoll, run_fiber}
use mnser.IoManager.Invariant.{cur_at}
use mnser.IoManager.Arming.{is_event}
use mnser.IoManager.Willing.{Willing}
use mnser.Hook.{
  IoResult, failed, eagain, etimedout, World, Call, timed_out, done, uninterrupted, go_on, do_io,
}
use mnser.Hook.Waiting.{Ready, accepts}
use mnser.Hook.Timeouts.{run_timers, wait_times_out}
use mnser.Hook.Retrying.{retry_round}

module _ (E : Epoll) {Os : Type 0} (c : Call) (fun : Os → IoResult × Os) where
  first_call :
      (others : World E.Kernel Os → World E.Kernel Os) (fuel : ℕ) (o o' : Os)
      → fun o ≡ (failed eagain, o')
      → uninterrupted E c others fun (suc fuel) o ≡ some (failed eagain, o')
  unfolding uninterrupted
  first_call others fuel o o' h = rw h refl

  -- The managers are in order, with no timer that has the call's callback. A call of a hooked thread
  -- on an open socket below 2 ^ 31, which is not the tickle pipe and which the user has not made
  -- non-blocking, finds nothing to do, and its event, READ or WRITE, which did not wait before, does
  -- not come. Let `new` leave
  -- `curEvents` zero, let epoll take the event and every later change, and let the time of the
  -- socket's timeout not wrap. Once the thread runs its timers at that time or later, `do_io` returns
  -- -1 with ETIMEDOUT, after one call of the original function; its fiber has been handed, once, to
  -- its scheduler, and its event waits no more.
  pub do_io_times_out :
      (receives : Bool) (fuel a later : ℕ) (w : World E.Kernel Os) (o : Os)
      → Ready E c w
      → c.junk ≡ nothing
      → c.fd < 2 ^ 31
      → is_event c.event ≡ true
      → Willing E
      → (c.fd == w.io.tickle_fd) ≡ false
      → accepts E c w ≡ true
      → (get_ctx w.fds (some c.fd) false 0 none).0 ≡ some a
      → (w.fds.ctx a).is_closed ≡ false
      → (w.fds.ctx a).is_socket ≡ true
      → (w.fds.ctx a).user_nonblock ≡ false
      → fun w.os ≡ (failed eagain, o)
      → w.now + get_timeout (w.fds.ctx a) receives < 2 ^ 64 - 1
      → w.now + get_timeout (w.fds.ctx a) receives ≤ later
      → (n : World E.Kernel Os) × (do_io E c
            (run_timers E c later (w.fresh + 1))
            fun
            true
            receives
            (suc fuel)
            w
          ≡ done (failed etimedout) n)
        × (n.os ≡ o)
        × (n.io.scheduled ≡ w.io.scheduled ++ (c.scheduler, run_fiber c.fiber) ∷ [])
        × (has (cur_at n.io.fd_contexts c.fd) c.event ≡ false)
  unfolding do_io go_on
  do_io_times_out receives fuel a later w o y j small e willing out takes found open_fd sock
        blocking once fits past =
      let to = get_timeout (w.fds.ctx a) receives in
      let others = run_timers E c later (w.fresh + 1) in
      let w0 : World E.Kernel Os = record w { cancelled = 0 } in
      let w1 : World E.Kernel Os = record w0 { os = o } in
      let y1 : Ready E c w1 = record {
        sound = record {
          io = y.sound.io;
          timers = y.sound.timers;
          unused = y.sound.unused;
          contexts = y.sound.contexts;
          out = y.sound.out;
        };
        clean = y.clean;
        absent = y.absent;
      } in
      let (n, eq, kept, scheduled, gone) =
        wait_times_out E c to later w1 y1 j small e willing out refl takes fits past in
      let round =
        retry_round E c others fun fuel to w0 n (failed eagain) o (timed_out etimedout)
          (timed_out etimedout) (done (failed etimedout) n) (first_call others fuel w.os o once)
          refl eq refl refl in
      (n, rw (found, do_io) (simp (open_fd, sock, blocking) round), kept, scheduled, gone)
