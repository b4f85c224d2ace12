-- ===== src/Timer.antt =====
-- src/timer.cpp and inc/timer.h. Timers are shared objects: `obj` is the store, by address, and
-- `timers` the addresses in the set, in the set's order. The clock, and the address that `new`
-- returns, are arguments; every method does its work under the manager's lock, so that a method
-- is one step (`listExpiredCb` only returns early under its first lock). A callback is a number, and none is the empty function.
pub mod Order
pub mod Invariant
pub mod Expiry
pub mod Expired
pub mod Due
mod Tests
use mnser.Common.{ℕ, ◌+◌, ◌-◌, ◌*◌, ◌%◌, ◌^◌, List, [], ◌∷◌, ◌++◌, Bool, true, false}
use mnser.Common.{not, ◌&&◌, ltb, leb, ◌==◌, if◌then◌else◌, sub_size, Option, none, some}
use mnser.Common.{Result, ok, err, undefined_behaviour}

pub record Timer : Type 0 where
  pub recurring : Bool
  pub ms : ℕ
  pub next : ℕ
  pub cb : Option ℕ

pub record TimerManager : Type 0 where
  pub obj : ℕ → Timer
  pub timers : List ℕ
  pub tickled : Bool
  pub previous_time : ℕ

-- The constructor, on a store with no timer of the manager's.
abbrev pub new_timer_manager : (ℕ → Timer) → ℕ → TimerManager
new_timer_manager obj now = record { obj = obj; timers = []; tickled = false; previous_time = now }

-- A store with the object at one address changed.
abbrev pub update : (ℕ → Timer) → ℕ → Timer → ℕ → Timer
update obj a t b = if b == a then t else obj b

-- `Timer::Comparator` on addresses: by the time, then by the address.
unfoldable pub earlier : (ℕ → Timer) → ℕ → ℕ → Bool
earlier obj l r =
    if ltb (obj l).next (obj r).next
    then true
    else if ltb (obj r).next (obj l).next
    then false
    else ltb l r

-- A null pointer comes first.
unfoldable pub comparator : (ℕ → Timer) → Option ℕ → Option ℕ → Bool
unfolding earlier
comparator obj none none = false
comparator obj none (some r) = true
comparator obj (some l) none = false
comparator obj (some l) (some r) = earlier obj l r

-- `std::set`: `insert`, and `erase` of what `find` returns, where `none` is `find`'s `end()`.
unfoldable pub set_insert : (ℕ → Timer) → ℕ → List ℕ → List ℕ
set_insert obj a [] = a ∷ []
set_insert obj a (x ∷ xs) =
    if earlier obj a x
    then a ∷ x ∷ xs
    else if earlier obj x a
    then x ∷ set_insert obj a xs
    else x ∷ xs

unfoldable pub set_erase : (ℕ → Timer) → ℕ → List ℕ → Option (List ℕ)
set_erase obj a [] = none
set_erase obj a (x ∷ xs) =
    let rest = set_erase obj a xs in
    if earlier obj x a
    then elim rest [ none ↦ none | some ys ↦ some (x ∷ ys) ]
    else if earlier obj a x
    then none
    else some xs

abbrev pub starts_at : ℕ → List ℕ → Bool
starts_at a [] = false
starts_at a (x ∷ xs) = x == a

-- The protected `addTimer`: the manager, and whether `onTimerInsertedAtFront` is called.
unfoldable pub insert_timer : TimerManager → ℕ → TimerManager × Bool
insert_timer m a =
    let timers = set_insert m.obj a m.timers in
    let at_front = starts_at a timers && not m.tickled in
    (record m { timers = timers; tickled = if at_front then true else m.tickled }, at_front)

-- `Timer(ms, cb, recurring, manager)`, then `addTimer`; `addr` is where the timer is allocated.
unfoldable pub add_timer : TimerManager → ℕ → ℕ → Option ℕ → Bool → ℕ → TimerManager × Bool
add_timer m addr ms cb recurring now =
    insert_timer
      (record m {
        obj =
            update m.obj addr
              (record { recurring = recurring; ms = ms; next = (now + ms) % 2 ^ 64; cb = cb });
      })
      addr

-- `addConditionTimer`; `bind` is `std::bind` of `OnTimer`, which gives a callback.
unfoldable pub add_condition_timer :
    (ℕ → ℕ → ℕ) → TimerManager → ℕ → ℕ → ℕ → ℕ → Bool → ℕ → TimerManager × Bool
add_condition_timer bind m addr ms cb weak_cond recurring now =
    add_timer m addr ms (some (bind weak_cond cb)) recurring now

-- `OnTimer`: the callback that it runs, if the weak pointer can be locked.
unfoldable pub on_timer : (ℕ → Bool) → ℕ → ℕ → Option ℕ
on_timer alive weak_cond cb = if alive weak_cond then some cb else none

unfoldable pub cancel : TimerManager → ℕ → Result (Bool × TimerManager)
cancel m a = elim (m.obj a).cb [
  | none ↦ ok (false, m)
  | some cb ↦
      let obj = update m.obj a (record (m.obj a) { cb = none }) in
      elim (set_erase obj a m.timers) [
        | none ↦ err undefined_behaviour
        | some timers ↦ ok (true, record m { obj = obj; timers = timers })
      ]
]

unfoldable pub refresh : TimerManager → ℕ → ℕ → Bool × TimerManager
refresh m a now = elim (m.obj a).cb [
  | none ↦ (false, m)
  | some cb ↦ elim (set_erase m.obj a m.timers) [
    | none ↦ (false, m)
    | some timers ↦
        let obj = update m.obj a (record (m.obj a) { next = (now + (m.obj a).ms) % 2 ^ 64 }) in
        (true, record m { obj = obj; timers = set_insert obj a timers })
  ]
]

-- The result, the manager, and whether `onTimerInsertedAtFront` is called.
unfoldable pub reset : TimerManager → ℕ → ℕ → Bool → ℕ → Bool × TimerManager × Bool
reset m a ms from_now now =
    if ms == (m.obj a).ms && not from_now then (true, m, false) else elim (m.obj a).cb [
      | none ↦ (false, m, false)
      | some cb ↦ elim (set_erase m.obj a m.timers) [
        | none ↦ (false, m, false)
        | some timers ↦
            let start = if from_now then now else sub_size (m.obj a).next (m.obj a).ms in
            let obj = update m.obj a (record (m.obj a) { ms = ms; next = (start + ms) % 2 ^ 64 }) in
            let (m', front) = insert_timer (record m { obj = obj; timers = timers }) a in
            (true, m', front)
      ]
    ]

-- `~0ull` where there is no timer.
unfoldable pub get_next_timer : TimerManager → ℕ → ℕ × TimerManager
get_next_timer m now = (
  elim m.timers [
    | [] ↦ 2 ^ 64 - 1
    | a ∷ rest ↦ if leb (m.obj a).next now then 0 else (m.obj a).next - now
  ],
  record m { tickled = false },
)

abbrev pub has_timer : TimerManager → Bool
has_timer m = elim m.timers [ [] ↦ false | a ∷ rest ↦ true ]

-- A clock that went back by more than an hour; the difference is that of `uint64_t`.
unfoldable pub detect_clock_rollover : TimerManager → ℕ → Bool × TimerManager
detect_clock_rollover m now = (
  ltb now m.previous_time && ltb now (sub_size m.previous_time (60 * 60 * 1000)),
  record m { previous_time = now },
)

-- The timers before the iterator, and those from it on: first `lower_bound` of a new timer at
-- `probe` that is due now, then on over the timers of that very time.
unfoldable pub skip_due : (ℕ → Timer) → ℕ → List ℕ → List ℕ × List ℕ
skip_due obj now [] = ([], [])
skip_due obj now (x ∷ xs) =
    let rest = skip_due obj now xs in
    if (obj x).next == now then (x ∷ rest.0, rest.1) else ([], x ∷ xs)

unfoldable pub lower_bound : (ℕ → Timer) → ℕ → List ℕ → List ℕ × List ℕ
lower_bound obj probe [] = ([], [])
lower_bound obj probe (x ∷ xs) =
    let rest = lower_bound obj probe xs in
    if earlier obj x probe then (x ∷ rest.0, rest.1) else ([], x ∷ xs)

unfoldable pub expire : (ℕ → Timer) → ℕ → ℕ → List ℕ → List ℕ × List ℕ
expire obj probe now xs =
    let (front, back) =
      lower_bound (update obj probe (record (obj probe) { next = now })) probe xs in
    let (due, later) = skip_due obj now back in (front ++ due, later)

-- The loop over the expired timers.
unfoldable pub fire : (ℕ → Timer) → ℕ → List ℕ → List ℕ → List (Option ℕ) × (ℕ → Timer) × List ℕ
fire obj now [] timers = ([], obj, timers)
fire obj now (x ∷ xs) timers =
    let obj' = update obj x (
      if (obj x).recurring
      then record (obj x) { next = (now + (obj x).ms) % 2 ^ 64 }
      else record (obj x) { cb = none }) in
    let timers' = if (obj x).recurring then set_insert obj' x timers else timers in
    let rest = fire obj' now xs timers' in ((obj x).cb ∷ rest.0, rest.1, rest.2)

abbrev pub due_now : TimerManager → ℕ → Bool
due_now m now = elim m.timers [ [] ↦ false | a ∷ rest ↦ leb (m.obj a).next now ]

-- `listExpiredCb`: the callbacks to run, and the manager afterwards.
unfoldable pub list_expired_cb : TimerManager → ℕ → ℕ → List (Option ℕ) × TimerManager
list_expired_cb m probe now =
    if not (has_timer m)
    then ([], m)
    else (let (rollover, m') = detect_clock_rollover m now in
        if not rollover && not (due_now m' now)
        then ([], m')
        else (let (expired, later) =
              if rollover then (m'.timers, []) else expire m'.obj probe now m'.timers in
            let (cbs, obj, timers) = fire m'.obj now expired later in
            (cbs, record m' { obj = obj; timers = timers })))
