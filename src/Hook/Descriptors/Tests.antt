-- ===== src/Hook/Descriptors/Tests.antt =====
-- The flags and the end of a socket that a fiber waits on.
use mnser.Common.{
  ℕ, zero, suc, List, [], ◌∷◌, true, false, ◌≡◌, refl, arith, none, some, get_elem?, ok, ◌==◌,
  if◌then◌else◌,
}
use mnser.FdManager.{FdManager, at, get_ctx, new_fd_ctx}
use mnser.IoManager.{blank, nothing, FdContext, IoManager, run_fiber}
use mnser.IoManager.Sample.{Interests, epoll}
use mnser.IoManager.Contexts.{Fits-blank}
use mnser.IoManager.Invariant.{cur_at, registered, Fine, Inv}
use mnser.IoManager.Willing.{Willing}
use mnser.Hook.Descriptors.{treated, FileFlags, Descriptors, fcntl_setfl, fcntl_getfl, close_fd}
use mnser.Hook.Descriptors.Flags.{fcntl_lem}
use mnser.Hook.Descriptors.Closing.{close_lem}

-- Descriptor 1 is a socket.
abbrev sockets : FdManager
sockets = record { ctx = λ a. new_fd_ctx (some true); datas = none ∷ some 0 ∷ [] }

abbrev one_file : Descriptors
one_file = record {
  Os = FileFlags;
  flags = λ o. o;
  set_flags = λ f o. record f { fixed = o.fixed };
  set_nonblock = λ b o. record o { nonblock = b };
  flags-set_flags = λ f o. refl;
  flags-set_nonblock = λ b o. refl;
}

abbrev given : FileFlags
given = record { nonblock = false; settable = 2; fixed = 7 }

-- What the descriptor has: its own access mode.
abbrev opened_with : FileFlags
opened_with = record { nonblock = true; settable = 0; fixed = 1 }

treated_socket : treated sockets 1 ≡ some 0
unfolding get_ctx
treated_socket = refl

fcntl_example :
    (fcntl_getfl one_file
        (fcntl_setfl one_file sockets 1 given opened_with).0
        1
        (fcntl_setfl one_file sockets 1 given opened_with).1
      ≡ record given { fixed = 1 })
    × ((fcntl_setfl one_file sockets 1 given opened_with).1
        ≡ record given { nonblock = true; fixed = 1 })
fcntl_example = fcntl_lem one_file sockets 1 0 given opened_with treated_socket

-- Fiber 8 waits to read from descriptor 1.
abbrev contexts : List FdContext
contexts =
    record { read = blank; write = blank; cur_events = nothing }
    ∷ record {
      read = record { scheduler = some 3; fiber = some 8; func = none };
      write = blank;
      cur_events = record { reading = true; writing = false };
    }
    ∷ []

abbrev manager : IoManager Interests
manager = record {
  fd_contexts = contexts;
  pending_event_count = 1;
  kernel = λ g. registered (cur_at contexts g);
  tickle_fd = 9;
  scheduled = [];
}

fine : (fd : ℕ) → Fine (get_elem? contexts fd)
fine zero = record { read = Fits-blank; write = Fits-blank }
fine (suc zero) = record {
  read = record { scheduler = refl; one = refl; only = refl };
  write = Fits-blank;
}
fine (suc (suc fd)) = tt

manager-Inv : Inv epoll manager
manager-Inv = record {
  counted = record { contexts = fine; count = refl; room = omega arith };
  known = λ g out. refl;
}

epoll-Willing : Willing epoll
epoll-Willing fd s t k h = rw h (ground arith)

close_example :
    (n : IoManager Interests) × (m' : FdManager) × (close_fd epoll true true manager sockets 1
      ≡ ok (n, m'))
    × Inv epoll n
    × ((g : ℕ) → at m'.datas g ≡ (if g == 1 then none else at (none ∷ some 0 ∷ []) g))
    × ((g : ℕ) → cur_at n.fd_contexts g ≡ (if g == 1 then nothing else cur_at contexts g))
    × (n.scheduled ≡ (3, run_fiber 8) ∷ [])
close_example = close_lem epoll epoll-Willing manager sockets 1 manager-Inv refl refl
