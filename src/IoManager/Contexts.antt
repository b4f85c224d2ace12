-- ===== src/IoManager/Contexts.antt =====
-- One context: whether it fits the events it is armed for, and what it hands over.
use mnser.Common.{
  ℕ, zero, suc, ◌∙◌, ◌+◌, ◌*◌, ◌≤◌, List, [], ◌∷◌, Bool, true, false, ◌&&◌, ◌||◌, ◌≡◌, refl, ap,
  arith,
}
use mnser.Common.{◌==◌, if◌then◌else◌, Option, none, some, is_some, length, get_elem?, set}
use mnser.Common.{ok}
use mnser.IoManager.{
  Event, no_event, read_event, write_event, Events, has, without, EventContext, blank, FdContext,
  Task, run_func, run_fiber, get_context, set_context, hand_over, trigger_event,
}

-- A context of an event that waits has a scheduler and either a callback or a fiber, and
-- one of an event that does not wait is blank.
pub record Fits (armed : Bool) (x : EventContext) : Type 0 where
  pub scheduler : is_some x.scheduler ≡ armed
  pub one : (is_some x.func || is_some x.fiber) ≡ armed
  pub only : (is_some x.func && is_some x.fiber) ≡ false

pub record ContextInv (c : FdContext) : Type 0 where
  pub read : Fits c.cur_events.reading c.read
  pub write : Fits c.cur_events.writing c.write

abbrev pub context : FdContext → Event → EventContext
context c no_event = blank
context c read_event = c.read
context c write_event = c.write

-- The task that a context stands for.
abbrev pub tasks : EventContext → List (ℕ × Task)
tasks x = elim x.scheduler [
  | none ↦ []
  | some s ↦ elim x.func [
    | some f ↦ (s, run_func f) ∷ []
    | none ↦ elim x.fiber [ some f ↦ (s, run_fiber f) ∷ [] | none ↦ [] ]
  ]
]

abbrev pub cleared : FdContext → Event → FdContext
cleared c event = set_context (record c { cur_events = without c.cur_events event }) event blank

pub Fits-blank : Fits false blank
Fits-blank = record { scheduler = refl; one = refl; only = refl }

hand_over_lem : (x : EventContext) → Fits true x → hand_over x ≡ ok (blank, tasks x)
unfolding hand_over
hand_over_lem x h = go x.scheduler x.func x.fiber h.scheduler h.one h.only
  where
    go :
        (s f g : Option ℕ)
        → is_some s ≡ true
        → (is_some f || is_some g) ≡ true
        → (is_some f && is_some g) ≡ false
        → hand_over (record { scheduler = s; func = f; fiber = g })
          ≡ ok (blank, tasks (record { scheduler = s; func = f; fiber = g }))
    go none f g a b c = cc
    go (some s) none none a b c = cc
    go (some s) none (some g) a b c = refl
    go (some s) (some f) none a b c = refl
    go (some s) (some f) (some g) a b c = cc

pub trigger_event_lem :
    (c : FdContext) (event : Event)
    → has c.cur_events event ≡ true
    → ContextInv c
    → trigger_event c event ≡ ok (cleared c event, tasks (context c event))
unfolding trigger_event get_context
trigger_event_lem c no_event h v = cc
trigger_event_lem c read_event h v =
    rw
      (
        h,
        hand_over_lem c.read
            (record { scheduler = v.read.scheduler ∙ h; one = v.read.one ∙ h; only = v.read.only }),
      )
      refl
trigger_event_lem c write_event h v =
    rw
      (
        h,
        hand_over_lem c.write (record {
          scheduler = v.write.scheduler ∙ h;
          one = v.write.one ∙ h;
          only = v.write.only;
        }),
      )
      refl

pub cleared-ContextInv :
    (c : FdContext) (event : Event) → ContextInv c → ContextInv (cleared c event)
cleared-ContextInv c no_event v = v
cleared-ContextInv c read_event v = record { read = Fits-blank; write = v.write }
cleared-ContextInv c write_event v = record { read = v.read; write = Fits-blank }

-- How many events of a context wait.
abbrev pub one_if : Bool → ℕ
one_if true = 1
one_if false = 0

abbrev pub waiting : Events → ℕ
waiting s = one_if s.reading + one_if s.writing

pub waiting-without :
    (s : Events) (event : Event) → has s event ≡ true → waiting (without s event) + 1 ≡ waiting s
waiting-without s no_event h = cc
waiting-without s read_event h = ground arith
waiting-without s write_event h = ground arith

-- How many events wait in all.
abbrev pub total : List FdContext → ℕ
total [] = 0
total (c ∷ cs) = waiting c.cur_events + total cs

waiting_in : Option FdContext → ℕ
waiting_in none = 0
waiting_in (some c) = waiting c.cur_events

pub total-set :
    (cs : List FdContext) (fd : ℕ) (c d : FdContext)
    → get_elem? cs fd ≡ some c
    → total (set cs fd d) + waiting c.cur_events ≡ total cs + waiting d.cur_events
unfolding waiting_in
total-set [] fd c d h = cc
total-set (x ∷ cs) zero c d h = omega (arith, ap waiting_in h)
total-set (x ∷ cs) (suc fd) c d h = omega (arith, total-set cs fd c d h)

pub total-le : (cs : List FdContext) → total cs ≤ 2 * length cs
total-le [] = omega arith
total-le (c ∷ cs) = ground (arith, total-le cs)

pub total-get :
    (cs : List FdContext) (fd : ℕ) (c : FdContext)
    → get_elem? cs fd ≡ some c
    → waiting c.cur_events ≤ total cs
unfolding waiting_in
total-get [] fd c h = cc
total-get (x ∷ cs) zero c h = omega (arith, ap waiting_in h)
total-get (x ∷ cs) (suc fd) c h = omega (arith, total-get cs fd c h)

pub get_elem?-set :
    (cs : List FdContext) (fd : ℕ) (c d : FdContext) (g : ℕ)
    → get_elem? cs fd ≡ some c
    → get_elem? (set cs fd d) g ≡ (if g == fd then some d else get_elem? cs g)
get_elem?-set [] fd c d g h = cc
get_elem?-set (x ∷ cs) zero c d zero h = refl
get_elem?-set (x ∷ cs) zero c d (suc g) h = ground arith
get_elem?-set (x ∷ cs) (suc fd) c d zero h = ground arith
get_elem?-set (x ∷ cs) (suc fd) c d (suc g) h = ground (arith, get_elem?-set cs fd c d g h)
