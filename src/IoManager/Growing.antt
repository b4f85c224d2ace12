-- ===== src/IoManager/Growing.antt =====
-- `contextResize`, and `addEvent` with it.
use mnser.Common.{
  ℕ, zero, suc, ◌-◌, ◌*◌, ◌/◌, ◌≤◌, ◌<◌, ◌^◌, List, [], ◌∷◌, ◌++◌, Bool, true, false, ◌||◌, ◌≡◌,
  refl,
}
use mnser.Common.{
  subst, ap, sym, ◌∙◌, arith, if◌then◌else◌, ltb, ◌==◌, Option, none, some, is_some, length,
  get_elem?, take, replicate,
}
use mnser.Common.{Option-cases, length-set, ok, Bool-cases, inl, inr, length-append, length-take}
use mnser.IoManager.{
  Event, no_event, read_event, write_event, arm, get_context, Events, nothing, has, with_event,
  FdContext, new_context, context_resize, grow, Epoll, IoManager, add_event, cancel_event,
}
use mnser.IoManager.Contexts.{Fits-blank, total}
use mnser.IoManager.Invariant.{cur_at, cur_of, Fine, registered, Inv}
use mnser.IoManager.Arming.{is_event, add_op, armed_with, Added, arm_lem}

abbrev rest : ℕ → List FdContext
rest n = replicate n (new_context nothing)

take-all : (cs : List FdContext) (n : ℕ) → length cs ≤ n → take n cs ≡ cs
take-all [] zero h = refl
take-all [] (suc n) h = refl
take-all (c ∷ cs) zero h = absurd (omega arith)
take-all (c ∷ cs) (suc n) h = ap (◌∷◌ c) (take-all cs n (omega arith))

Fine-rest : (n g : ℕ) → Fine (get_elem? (rest n) g)
Fine-rest zero g = tt
Fine-rest (suc n) zero = record { read = Fits-blank; write = Fits-blank }
Fine-rest (suc n) (suc g) = Fine-rest n g

Fine-append :
    (cs : List FdContext) (n : ℕ)
    → ((g : ℕ) → Fine (get_elem? cs g))
    → (g : ℕ) → Fine (get_elem? (cs ++ rest n) g)
Fine-append [] n h g = Fine-rest n g
Fine-append (c ∷ cs) n h zero = h 0
Fine-append (c ∷ cs) n h (suc g) = Fine-append cs n (λ i. h (suc i)) g

cur_at-rest : (n g : ℕ) → cur_at (rest n) g ≡ nothing
cur_at-rest zero g = refl
cur_at-rest (suc n) zero = refl
cur_at-rest (suc n) (suc g) = cur_at-rest n g

cur_at-append : (cs : List FdContext) (n g : ℕ) → cur_at (cs ++ rest n) g ≡ cur_at cs g
cur_at-append [] n g = cur_at-rest n g
cur_at-append (c ∷ cs) n zero = refl
cur_at-append (c ∷ cs) n (suc g) = cur_at-append cs n g

total-append : (cs : List FdContext) (n : ℕ) → total (cs ++ rest n) ≡ total cs
total-append [] zero = refl
total-append [] (suc n) = omega (arith, total-append [] n)
total-append (c ∷ cs) n = omega (arith, total-append cs n)

length-replicate : (c : FdContext) (n : ℕ) → length (replicate n c) ≡ n
length-replicate c zero = refl
length-replicate c (suc n) = omega (arith, length-replicate c n)

get_elem?-beyond : (cs : List FdContext) (g : ℕ) → length cs ≤ g → get_elem? cs g ≡ none
get_elem?-beyond [] g h = refl
get_elem?-beyond (c ∷ cs) zero h = absurd (omega arith)
get_elem?-beyond (c ∷ cs) (suc g) h = get_elem?-beyond cs g (omega arith)

get_elem?-inside :
    (cs : List FdContext) (g : ℕ) → g < length cs → (c : FdContext) × (get_elem? cs g ≡ some c)
get_elem?-inside [] g h = absurd (omega arith)
get_elem?-inside (c ∷ cs) zero h = (c, refl)
get_elem?-inside (c ∷ cs) (suc g) h = get_elem?-inside cs g (omega arith)

context_resize_lem :
    (cs : List FdContext) (n : ℕ)
    → length cs ≤ n
    → context_resize nothing cs n ≡ cs ++ rest (n - length cs)
unfolding context_resize
context_resize_lem cs n h = ap (λ xs. xs ++ rest (n - length cs)) (take-all cs n h)

length-grow :
    {Kernel : Type 0} (junk : Events) (m : IoManager Kernel) (fd : ℕ)
    → length (grow junk m fd).fd_contexts ≡ fd * 3 / 2
unfolding grow context_resize
length-grow junk m fd = omega (
  arith,
  length-append (take (fd * 3 / 2) m.fd_contexts)
      (replicate (fd * 3 / 2 - length m.fd_contexts) (new_context junk)),
  length-take (fd * 3 / 2) m.fd_contexts,
  length-replicate (new_context junk) (fd * 3 / 2 - length m.fd_contexts),
)

waits_registered : (s : Events) (event : Event) → has s event ≡ true → registered s ≡ some s
waits_registered s no_event h = cc
waits_registered s read_event h = ground arith
waits_registered s write_event h = ground arith

ltb_false→le : (a b : ℕ) → ltb a b ≡ false → b ≤ a
ltb_false→le a b h = ground arith

module _ (E : Epoll) where
  pub grow-Inv :
      (m : IoManager E.Kernel) (fd : ℕ)
      → Inv E m
      → length m.fd_contexts ≤ fd * 3 / 2
      → fd < 2 ^ 31
      → Inv E (grow nothing m fd)
  unfolding grow
  grow-Inv m fd v h k = rw (context_resize_lem m.fd_contexts (fd * 3 / 2) h) record {
    counted = record {
      contexts = Fine-append m.fd_contexts (fd * 3 / 2 - length m.fd_contexts) v.counted.contexts;
      count =
          omega (
            arith,
            total-append m.fd_contexts (fd * 3 / 2 - length m.fd_contexts),
            v.counted.count,
          );
      room = omega (
        arith,
        length-append m.fd_contexts (rest (fd * 3 / 2 - length m.fd_contexts)),
        length-replicate (new_context nothing) (fd * 3 / 2 - length m.fd_contexts),
      );
    };
    known = λ g out.
        v.known g out
        ∙ sym (ap registered (cur_at-append m.fd_contexts (fd * 3 / 2 - length m.fd_contexts) g));
  }

  cur_at-grow :
      (m : IoManager E.Kernel) (fd g : ℕ)
      → length m.fd_contexts ≤ fd * 3 / 2
      → cur_at (grow nothing m fd).fd_contexts g ≡ cur_at m.fd_contexts g
  unfolding grow
  cur_at-grow m fd g h =
      ap (λ cs. cur_at cs g) (context_resize_lem m.fd_contexts (fd * 3 / 2) h)
      ∙ cur_at-append m.fd_contexts (fd * 3 / 2 - length m.fd_contexts) g

  -- What `addEvent` works on after its check of the size.
  abbrev pub sized : IoManager E.Kernel → ℕ → IoManager E.Kernel
  sized m fd = if ltb fd (length m.fd_contexts) then m else grow nothing m fd

  pub scheduled-sized : (m : IoManager E.Kernel) (fd : ℕ) → (sized m fd).scheduled ≡ m.scheduled
  unfolding grow
  scheduled-sized m fd = ground arith

  pub cur_at-sized :
      (m : IoManager E.Kernel) (fd g : ℕ)
      → 2 ≤ length m.fd_contexts
      → cur_at (sized m fd).fd_contexts g ≡ cur_at m.fd_contexts g
  cur_at-sized m fd g two = elim (Bool-cases (ltb fd (length m.fd_contexts))) [
    | inl there ↦ rw there refl
    | inr beyond ↦
        rw beyond
          (cur_at-grow m fd g (omega (arith, ltb_false→le fd (length m.fd_contexts) beyond)))
  ]

  arm-inside :
      (m : IoManager E.Kernel) (fd : ℕ) (event : Event) (cb : Option ℕ) (s self : ℕ)
      (executing : Bool) (cur : Events)
      → Inv E m
      → fd < length m.fd_contexts
      → is_event event ≡ true
      → cur_at m.fd_contexts fd ≡ cur
      → has cur event ≡ false
      → (is_some cb || executing) ≡ true
      → let done = (E.ctl (add_op cur) fd (with_event cur event) m.kernel).0 in
        (n : IoManager E.Kernel) × (arm E m fd event cb (some s) self executing ≡ ok (done, n))
        × Added E m fd event (armed_with s cb self) done n
  arm-inside m fd event cb s self executing cur v inside e same absent runs =
      let (c, here) = get_elem?-inside m.fd_contexts fd inside in
      let k : c.cur_events ≡ cur = ap cur_of (sym here) ∙ same in
      subst
        (λ t.
          let done = (E.ctl (add_op t) fd (with_event t event) m.kernel).0 in
          (n : IoManager E.Kernel) × (arm E m fd event cb (some s) self executing ≡ ok (done, n))
          × Added E m fd event (armed_with s cb self) done n)
        k
        (arm_lem E m fd event cb s self executing c v e here (ap (λ t. has t event) k ∙ absent)
          runs)

  -- `addEvent` on a scheduler's thread, with a callback or from a running fiber, for READ or WRITE
  -- of a descriptor below 2^31 where that event does not wait yet, on a vector of two contexts at
  -- least, where `new` happens to leave `curEvents` zero: no assertion fails. It returns 0 exactly
  -- if epoll accepts; then that event waits and is armed with just the callback or the fiber.
  -- Otherwise no event changes; and the invariant holds on.
  pub add_event_lem :
      (m : IoManager E.Kernel) (fd : ℕ) (event : Event) (cb : Option ℕ) (s self : ℕ)
      (executing : Bool)
      → Inv E m
      → 2 ≤ length m.fd_contexts
      → fd < 2 ^ 31
      → is_event event ≡ true
      → has (cur_at m.fd_contexts fd) event ≡ false
      → (is_some cb || executing) ≡ true
      → let cur = cur_at m.fd_contexts fd in
        let done = (E.ctl (add_op cur) fd (with_event cur event) m.kernel).0 in
        (n : IoManager E.Kernel) × (add_event E nothing m fd event cb (some s) self executing
          ≡ ok (done, n))
        × Added E (sized m fd) fd event (armed_with s cb self) done n
  unfolding add_event grow
  add_event_lem m fd event cb s self executing v two small e absent runs =
      elim (Bool-cases (ltb fd (length m.fd_contexts))) [
        | inl there ↦
            rw (there, add_event)
              (arm-inside m fd event cb s self executing (cur_at m.fd_contexts fd) v (ground arith)
                e refl absent runs)
        | inr beyond ↦
            let long : length m.fd_contexts ≤ fd * 3 / 2 = ground (arith, beyond, two) in
            rw (beyond, add_event)
              (arm-inside (grow nothing m fd) fd event cb s self executing (cur_at m.fd_contexts fd)
                (grow-Inv m fd v long small)
                (omega
                  (arith, length-grow nothing m fd, ltb_false→le fd (length m.fd_contexts) beyond))
                e (cur_at-grow m fd fd long) absent runs)
      ]

  -- Two threads that call `addEvent` may both find the vector too short. Let the one with the
  -- larger descriptor go first, and let that descriptor be at least 3 / 2 of the other, rounded
  -- down, and not the pipe's. Then the other one's `contextResize` cuts the vector down again and
  -- throws away the context where the event of the first waits: `cancelEvent` does not find it any
  -- more, though epoll is registered for it still.
  pub grow-loses :
      (junk : Events) (m : IoManager E.Kernel) (fd fd' : ℕ) (event : Event)
      → Inv E m
      → (fd == m.tickle_fd) ≡ false
      → has (cur_at m.fd_contexts fd) event ≡ true
      → fd' * 3 / 2 ≤ fd
      → (cancel_event E (grow junk m fd') fd event ≡ ok (false, grow junk m fd'))
        × (E.interest (grow junk m fd').kernel fd ≡ some (cur_at m.fd_contexts fd))
  unfolding cancel_event grow
  grow-loses junk m fd fd' event v out waits cut = (
    rw
        (
          get_elem?-beyond (grow junk m fd').fd_contexts fd (omega (arith, length-grow junk m fd')),
          cancel_event,
        )
        refl,
    v.known fd out ∙ waits_registered (cur_at m.fd_contexts fd) event waits,
  )

-- `addEvent` leaves the length of the vector, once it has grown, and the pipe.
arm-keeps :
    (E : Epoll) (m : IoManager E.Kernel) (fd : ℕ) (event : Event) (s self : ℕ) (b : Bool)
    (n : IoManager E.Kernel)
    → arm E m fd event none (some s) self true ≡ ok (b, n)
    → (length n.fd_contexts ≡ length m.fd_contexts) × (n.tickle_fd ≡ m.tickle_fd)
unfolding arm get_context
arm-keeps E m fd no_event s self b n e = elim (Option-cases (get_elem? m.fd_contexts fd)) [
  | inl gone ↦ let k = rw (gone, arm) at e in cc
  | inr (c, here) ↦ let k = rw (here, arm) at e in ground (arith, k)
]
arm-keeps E m fd read_event s self b n e = elim (Option-cases (get_elem? m.fd_contexts fd)) [
  | inl gone ↦ let k = rw (gone, arm) at e in cc
  | inr (c, here) ↦ let k = rw (here, arm) at e in grind (arith, k, length-set)
]
arm-keeps E m fd write_event s self b n e = elim (Option-cases (get_elem? m.fd_contexts fd)) [
  | inl gone ↦ let k = rw (gone, arm) at e in cc
  | inr (c, here) ↦ let k = rw (here, arm) at e in grind (arith, k, length-set)
]

pub add_event-keeps :
    (E : Epoll) (m : IoManager E.Kernel) (fd : ℕ) (event : Event) (s self : ℕ) (b : Bool)
    (n : IoManager E.Kernel)
    → add_event E nothing m fd event none (some s) self true ≡ ok (b, n)
    → 2 ≤ length m.fd_contexts
    → (2 ≤ length n.fd_contexts) × (n.tickle_fd ≡ m.tickle_fd)
unfolding add_event
add_event-keeps E m fd event s self b n e two = elim (Bool-cases (ltb fd (length m.fd_contexts))) [
  | inl there ↦
      let k = rw (there, add_event) at e in
      let (l, t) = arm-keeps E m fd event s self b n k in (omega (arith, l), t)
  | inr beyond ↦
      let k = rw (beyond, add_event) at e in
      let (l, t) = arm-keeps E (grow nothing m fd) fd event s self b n k in
      (
        omega (arith, l, length-grow nothing m fd, ltb_false→le fd (length m.fd_contexts) beyond),
        t ∙ (unfold grow in refl),
      )
]
