-- ===== src/Hook/Retrying.antt =====
-- `do_io`: it comes to an end, and what it returns.
use mnser.Common.{
  ℕ, zero, suc, ◌^◌, ◌≤◌, ◌<◌, Bool, true, false, ◌≡◌, ◌≢◌, refl, ap, sym, subst, ◌∙◌, arith,
}
use mnser.Common.{none, some, ◌==◌, ok, Bool-cases, inl, inr, ◌⊎◌}
use mnser.FdManager.{get_timeout, get_ctx}
use mnser.IoManager.{nothing, Epoll}
use mnser.IoManager.Arming.{is_event}
use mnser.Hook.{
  IoResult, failed, unarmed, eintr, eagain, failed_with, World, Call, Waited, not_added, timed_out,
  woken, wait, Outcome, done, uninterrupted, go_on, retry, do_io,
}
use mnser.Hook.Waiting.{Ready, Fair, accepts, wait_lem}

module _ (E : Epoll) {Os : Type 0} (c : Call) (others : World E.Kernel Os → World E.Kernel Os)
    (fun : Os → IoResult × Os) where
  -- The call is interrupted, and finds nothing to do, at most `left` times.
  pub record Patient (left : Os → ℕ) : Type 0 where
    pub interrupted : (o : Os) → failed_with eintr (fun o).0 ≡ true → left (fun o).1 < left o
    pub blocked : (o : Os) → failed_with eagain (fun o).0 ≡ true → left (fun o).1 < left o
    pub meanwhile : (w : World E.Kernel Os) → left (others w).os ≤ left w.os

  -- What is returned: the result of a call that was neither interrupted nor would have blocked;
  -- or the error that was set while the call waited, if one was; or -1 since epoll did not take the
  -- event after a call that would have blocked.
  abbrev pub Answered : IoResult → World E.Kernel Os → Type 0
  Answered r n =
      ((n.cancelled ≡ 0)
        × ((o : Os) × (fun o ≡ (r, n.os))
            × (failed_with eintr r ≡ false)
            × (failed_with eagain r ≡ false)))
      ⊎ ((n.cancelled ≢ 0) × (r ≡ failed n.cancelled))
      ⊎ ((n.cancelled ≡ 0)
          × (r ≡ unarmed)
          × ((o : Os) × (b : IoResult) × (fun o ≡ (b, n.os)) × (failed_with eagain b ≡ true))
          × ((v : World E.Kernel Os) × (v.os ≡ n.os) × (accepts E c v ≡ false)))

  -- A round of `retry` that ends in a wait, by how the wait ended.
  pub retry_round :
      (fuel to : ℕ) (w n : World E.Kernel Os) (r : IoResult) (o' : Os) (x y : Waited)
      (out : Outcome E.Kernel Os)
      → uninterrupted E c others fun (suc fuel) w.os ≡ some (r, o')
      → failed_with eagain r ≡ true
      → wait E c others to (record w { os = o' }) ≡ ok (x, n)
      → x ≡ y
      → go_on E c others fun y n (retry E c others fun fuel to) ≡ out
      → retry E c others fun (suc fuel) to w ≡ out
  unfolding retry
  retry_round fuel to w n r o' x y out once blocks ew e k = rw (once, retry, blocks, ew, e) k

  module _ (left : Os → ℕ) (p : Patient left) where
    uninterrupted_lem :
        (fuel : ℕ) (o : Os)
        → left o < fuel
        → (r : IoResult) × (o' : Os) × (uninterrupted E c others fun fuel o ≡ some (r, o'))
          × (failed_with eintr r ≡ false)
          × ((a : Os) × (fun a ≡ (r, o')) × (left a ≤ left o))
    unfolding uninterrupted
    uninterrupted_lem zero o h = absurd (omega arith)
    uninterrupted_lem (suc fuel) o h = elim (Bool-cases (failed_with eintr (fun o).0)) [
      | inl again ↦
          let (r, o', e, fine, (a, k, l)) =
            uninterrupted_lem fuel (fun o).1 (omega (arith, p.interrupted o again)) in
          (r, o', rw again e, fine, (a, k, omega (arith, l, p.interrupted o again)))
      | inr once ↦ ((fun o).0, (fun o).1, rw once refl, once, (o, refl, omega arith))
    ]

    module _ (f : Fair E c others) (j : c.junk ≡ nothing) (small : c.fd < 2 ^ 31)
        (e : is_event c.event ≡ true) where
      retry_lem :
          (fuel to : ℕ) (w : World E.Kernel Os)
          → left w.os < fuel
          → w.cancelled ≡ 0
          → Ready E c w
          → (r : IoResult) × (n : World E.Kernel Os) × (retry E c others fun fuel to w ≡ done r n)
            × Ready E c n
            × Answered r n
      unfolding retry go_on
      retry_lem zero to w h z y = absurd (omega arith)
      retry_lem (suc fuel) to w h z y =
          let (r, o', once, fine, (a, k, l)) = uninterrupted_lem (suc fuel) w.os h in
          let w' : World E.Kernel Os = record w { os = o' } in
          let y' : Ready E c w' = record {
            sound = record {
              io = y.sound.io;
              timers = y.sound.timers;
              unused = y.sound.unused;
              contexts = y.sound.contexts;
              out = y.sound.out;
            };
            clean = y.clean;
            absent = y.absent;
          } in
          elim (Bool-cases (failed_with eagain r)) [
            | inr quiet ↦ (r, w', rw (once, retry, quiet) refl, y', inl (z, (a, k, fine, quiet)))
            | inl blocks ↦
                let less : left o' < left a =
                  subst (λ x. failed_with eagain x.0 ≡ true → left x.1 < left a) k (p.blocked a)
                    blocks in
                let (x, n, ew, yn, ended) = wait_lem E c others to w' y' f j small e in
                elim ended [
                  | inr (refused, xe, same, unset) ↦ (
                    unarmed,
                    n,
                    retry_round fuel to w n r o' x not_added _ once blocks ew xe refl,
                    yn,
                    inr (
                        inr (
                          unset ∙ z,
                          refl,
                          (a, r, k ∙ ap (λ s. (r, s)) (sym same), blocks),
                          (w', sym same, refused),
                        )),
                  )
                  | inl (takes, xe, (v, v1, v2)) ↦ elim (Bool-cases (n.cancelled == 0)) [
                    | inr late ↦ (
                      failed n.cancelled,
                      n,
                      retry_round fuel to w n r o' x (timed_out n.cancelled) _ once blocks ew
                          (xe ∙ rw late refl) refl,
                      yn,
                      inr (inl (ground (arith, late), refl)),
                    )
                    | inl came ↦
                        let shorter : left n.os < fuel =
                          omega (arith, h, l, less, p.meanwhile v, ap left v1, ap left v2) in
                        let (r2, n2, e2, y2, a2) =
                          retry_lem fuel to n shorter (ground (arith, came)) yn in
                        (
                          r2,
                          n2,
                          retry_round fuel to w n r o' x woken _ once blocks ew (xe ∙ rw came refl)
                              e2,
                          y2,
                          a2,
                        )
                  ]
                ]
          ]

      -- Let the managers be in order, with no timer that has the call's callback. Let the descriptor,
      -- below 2 ^ 31, be an open socket that the user has not made non-blocking, on which the call's
      -- event, READ or WRITE, does not wait yet, and let the call be interrupted and find nothing to
      -- do a finite number of times, below the fuel. Let `new` leave `curEvents` zero. Of what the thread
      -- does while the fiber waits, let it keep the managers in order, set no timer with the call's
      -- callback, and go on with the fiber only when its event waits no more. Then `do_io` returns:
      -- no assertion fails and no timer is erased twice. If an error was set while it waited, it
      -- returns that; otherwise the result of a call that was neither interrupted nor would have
      -- blocked, or -1 where epoll refused the event. The managers are then ready for such a call
      -- again, with no timer of this one left.
      pub do_io_lem :
          (receives : Bool) (fuel a : ℕ) (w : World E.Kernel Os)
          → left w.os < fuel
          → Ready E c w
          → (get_ctx w.fds (some c.fd) false 0 none).0 ≡ some a
          → (w.fds.ctx a).is_closed ≡ false
          → (w.fds.ctx a).is_socket ≡ true
          → (w.fds.ctx a).user_nonblock ≡ false
          → (r : IoResult) × (n : World E.Kernel Os) × (do_io E c others fun true receives fuel w
              ≡ done r n)
            × Ready E c n
            × Answered r n
      unfolding do_io
      do_io_lem receives fuel a w h y found open_fd sock blocking =
          let w0 : World E.Kernel Os = record w { cancelled = 0 } in
          let y0 : Ready E c w0 = record {
            sound = record {
              io = y.sound.io;
              timers = y.sound.timers;
              unused = y.sound.unused;
              contexts = y.sound.contexts;
              out = y.sound.out;
            };
            clean = y.clean;
            absent = y.absent;
          } in
          let (r, n, e0, yn, ans) =
            retry_lem fuel (get_timeout (w.fds.ctx a) receives) w0 h refl y0 in
          (r, n, rw (found, do_io) (simp (open_fd, sock, blocking) e0), yn, ans)
