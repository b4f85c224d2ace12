-- ===== src/Hook/Connecting.antt =====
-- `connect_with_timeout`: it comes to an end, and what it returns.
use mnser.Common.{ℕ, ◌^◌, ◌<◌, true, false, ◌≡◌, ◌≢◌, refl, arith, ◌==◌, if◌then◌else◌}
use mnser.Common.{none, some, Bool-cases, inl, inr, ◌⊎◌}
use mnser.FdManager.{get_ctx}
use mnser.IoManager.{nothing, Epoll}
use mnser.IoManager.Arming.{is_event}
use mnser.Hook.{
  IoResult, failed, einprogress, failed_with, is_minus_one, connect_error, World, Call, done,
  connected, connect_with_timeout,
}
use mnser.Hook.Waiting.{Ready, Fair, wait_lem}

module _ (E : Epoll) {Os : Type 0} (c : Call) (others : World E.Kernel Os → World E.Kernel Os)
    (fun : Os → IoResult × Os) (get_error : Os → IoResult × ℕ × Os) where
  -- What is returned after a wait: the error in `cancelled` if one was set, and otherwise what the
  -- socket says.
  abbrev pub Connected : IoResult → World E.Kernel Os → Type 0
  Connected r n =
      ((n.cancelled ≢ 0) × (r ≡ failed n.cancelled))
      ⊎ (n.cancelled ≡ 0)
        × ((o : Os) × ((get_error o).2 ≡ n.os)
            × (r ≡ (
                if is_minus_one (get_error o).0
                then (get_error o).0
                else connect_error (get_error o).1)))

  moved :
      (w : World E.Kernel Os) (os : Os) (cancelled : ℕ)
      → Ready E c w
      → Ready E c (record w { os = os; cancelled = cancelled })
  moved w os cancelled y = record {
    sound = record {
      io = y.sound.io;
      timers = y.sound.timers;
      unused = y.sound.unused;
      contexts = y.sound.contexts;
      out = y.sound.out;
    };
    clean = y.clean;
    absent = y.absent;
  }

  -- Let the managers be in order, with no timer that has the call's callback. Let a connection be
  -- started, and not finished at once, on an open socket below 2 ^ 31 that the user has not made
  -- non-blocking, on which the call's event, READ or WRITE, does not wait yet, and let `new` leave
  -- `curEvents` zero. Of what the thread does
  -- while the fiber waits, let it keep the managers in order, set no timer with the call's callback,
  -- and go on with the fiber only when its event waits no more. Then the call returns: the error
  -- that was set while it waited, or else what the socket says of itself, also where epoll refused
  -- the event. The managers are then ready for such a call again, with no timer of this one left.
  pub connect_lem :
      (timeout_ms a : ℕ) (w : World E.Kernel Os)
      → Ready E c w
      → Fair E c others
      → c.junk ≡ nothing
      → c.fd < 2 ^ 31
      → is_event c.event ≡ true
      → (get_ctx w.fds (some c.fd) false 0 none).0 ≡ some a
      → (w.fds.ctx a).is_closed ≡ false
      → (w.fds.ctx a).is_socket ≡ true
      → (w.fds.ctx a).user_nonblock ≡ false
      → failed_with einprogress (fun w.os).0 ≡ true
      → (r : IoResult) × (n : World E.Kernel Os) × (connect_with_timeout E c others fun true
            timeout_ms get_error w
          ≡ done r n)
        × Ready E c n
        × Connected r n
  unfolding connect_with_timeout connected
  connect_lem timeout_ms a w y f j small e found open_fd sock blocking going =
      let (x, n, ew, yn, ended) =
        wait_lem E c others timeout_ms (record w { os = (fun w.os).1; cancelled = 0 })
          (moved w (fun w.os).1 0 y) f j small e in
      let s = get_error n.os in
      let told : Ready E c (record n { os = s.2 }) = moved n s.2 n.cancelled yn in
      elim ended [
        | inr (refused, xe, _, unset) ↦ (
          _,
          _,
          rw (found, connect_with_timeout) (simp (open_fd, sock, blocking, going, ew, xe) refl),
          told,
          inr (unset, (n.os, refl, refl)),
        )
        | inl (takes, xe, _) ↦ elim (Bool-cases (n.cancelled == 0)) [
          | inl came ↦ (
            _,
            _,
            rw (found, connect_with_timeout)
                (simp (open_fd, sock, blocking, going, ew, xe, came) refl),
            told,
            inr (ground (arith, came), (n.os, refl, refl)),
          )
          | inr late ↦ (
            _,
            _,
            rw (found, connect_with_timeout)
                (simp (open_fd, sock, blocking, going, ew, xe, late) refl),
            yn,
            inl (ground (arith, late), refl),
          )
        ]
      ]
