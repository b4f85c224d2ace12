-- ===== src/Scheduler/Fine.antt =====
-- What holds of one fiber, by the numbers of times that it is queued, taken and run.
use mnser.Common.{
  ℕ, zero, suc, ◌+◌, ◌≤◌, true, false, ◌||◌, ◌≡◌, refl, arith, ◌==◌, ==_iff, Bool-cases, inl, inr,
  subst, sym,
}
use mnser.Scheduler.{FiberState, init, hold, exec, term, ready, except, is_exec, is_over}
use mnser.Scheduler.Settled.{is_ready}

-- A fiber of state `x` that stands in the queue `q` times, is taken out of it and not started `t`
-- times, and has `r` threads inside. The first two are at most one in all, and so is the last. It is
-- EXEC only with a thread inside, and taken only with none, unless it is over. With a thread inside
-- it is EXEC, over, or READY and not queued.
pub record Fine (x : FiberState) (q t r : ℕ) : Type 0 where
  pub once : q + t ≤ 1
  pub alone : r ≤ 1
  pub exec_run : is_exec x ≡ true → r ≡ 1
  pub taken_free : 1 ≤ t → is_over x ≡ false → r ≡ 0
  pub run_state : 1 ≤ r → (is_exec x || is_over x) ≡ false → (is_ready x ≡ true) × (q + t ≡ 0)

pub Fine-eq :
    {x x' : FiberState} {q q' t t' r r' : ℕ}
    → x' ≡ x
    → q' ≡ q
    → t' ≡ t
    → r' ≡ r
    → Fine x q t r
    → Fine x' q' t' r'
Fine-eq a b c d v = rw (a, b, c, d) v

pub Fine-schedule :
    (x : FiberState) (q t r : ℕ)
    → q + t ≡ 0
    → (1 ≤ r → is_ready x ≡ false)
    → Fine x q t r
    → Fine x (q + 1) t r
Fine-schedule x q t r free h v = record {
  once = ground arith;
  alone = v.alone;
  exec_run = v.exec_run;
  taken_free = v.taken_free;
  run_state = λ k l. absurd (cc (h k, (v.run_state k l).0));
}

Fine-take :
    (x : FiberState) (q t r : ℕ) → is_exec x ≡ false → Fine x (1 + q) t r → Fine x q (1 + t) r
Fine-take x q t r h v = record {
  once = ground (arith, v.once);
  alone = v.alone;
  exec_run = λ k. absurd (cc);
  taken_free = λ k l. ground (arith, v.alone, v.run_state);
  run_state = λ k l. absurd (omega (arith, (v.run_state k l).1));
}

pub Fine-takes :
    (x : FiberState) (n q t r : ℕ)
    → (1 ≤ n → is_exec x ≡ false)
    → Fine x (n + q) t r
    → Fine x q (n + t) r
Fine-takes x zero q t r h v = Fine-eq refl (omega arith) (omega arith) refl v
Fine-takes x (suc zero) q t r h v = Fine-take x q t r (h (omega arith)) v
Fine-takes x (suc (suc n)) q t r h v = absurd (omega (arith, v.once))

pub Fine-skip : (x : FiberState) (q t r : ℕ) → is_over x ≡ true → Fine x q (1 + t) r → Fine x q t r
Fine-skip x q t r h v = record {
  once = ground (arith, v.once);
  alone = v.alone;
  exec_run = v.exec_run;
  taken_free = λ k l. absurd (cc);
  run_state = λ k l. absurd (ground arith);
}

pub Fine-start :
    (x : FiberState) (q t r : ℕ) → is_over x ≡ false → Fine x q (1 + t) r → Fine exec q t (1 + r)
Fine-start x q t r h v =
    let none_in : r ≡ 0 = v.taken_free (omega arith) h in
    record {
      once = ground (arith, v.once);
      alone = omega arith;
      exec_run = λ k. omega arith;
      taken_free = λ k l. absurd (omega (arith, v.once));
      run_state = λ k l. absurd (cc);
    }

pub Fine-yield : (x : FiberState) (q t r : ℕ) → q + t ≡ 0 → Fine x q t r → Fine ready q t r
Fine-yield x q t r free v = record {
  once = v.once;
  alone = v.alone;
  exec_run = λ k. absurd (cc);
  taken_free = λ k l. absurd (omega arith);
  run_state = λ k l. (refl, free);
}

pub Fine-end : (x y : FiberState) (q t r : ℕ) → is_over y ≡ true → Fine x q t r → Fine y q t r
Fine-end x y q t r h v = record {
  once = v.once;
  alone = v.alone;
  exec_run = λ k. absurd (exec_over y k h);
  taken_free = λ k l. absurd (cc);
  run_state = λ k l. absurd (ground arith);
}
  where
    exec_over : (z : FiberState) → is_exec z ≡ true → is_over z ≡ true → ⊥
    exec_over exec a b = cc
    exec_over init a b = cc
    exec_over hold a b = cc
    exec_over ready a b = cc
    exec_over term a b = cc
    exec_over except a b = cc

-- The thread comes back: the fiber is over, or in the queue again, or held.
pub Fine-over : (x : FiberState) (q t r : ℕ) → is_exec x ≡ false → Fine x q t (1 + r) → Fine x q t r
Fine-over x q t r h v = record {
  once = v.once;
  alone = omega (arith, v.alone);
  exec_run = λ k. absurd (cc);
  taken_free = λ k l. omega (arith, v.alone);
  run_state = λ k l. absurd (omega (arith, v.alone));
}

pub Fine-rest :
    (x y : FiberState) (q t r : ℕ) → is_exec y ≡ false → Fine x q t (1 + r) → Fine y q t r
Fine-rest x y q t r h v = record {
  once = v.once;
  alone = omega (arith, v.alone);
  exec_run = λ k. absurd (cc);
  taken_free = λ k l. omega (arith, v.alone);
  run_state = λ k l. absurd (omega (arith, v.alone));
}

-- A fiber that nobody has starts to run a function.
pub Fine-fresh : (x : FiberState) (q t r : ℕ) → q + t + r ≡ 0 → Fine x q t r → Fine exec q t (1 + r)
Fine-fresh x q t r free v = record {
  once = v.once;
  alone = omega arith;
  exec_run = λ k. omega arith;
  taken_free = λ k l. absurd (omega arith);
  run_state = λ k l. absurd (cc);
}

pub Fine-again : (q t r : ℕ) → Fine ready q t (1 + r) → Fine ready (q + 1) t r
Fine-again q t r v = record {
  once = omega (arith, (v.run_state (omega arith) refl).1);
  alone = omega (arith, v.alone);
  exec_run = λ k. absurd (cc);
  taken_free = λ k l. omega (arith, v.alone);
  run_state = λ k l. absurd (omega (arith, v.alone));
}

-- By the fiber that a step is about, and the others.
pub each : (P : ℕ → Type 0) (f : ℕ) → P f → ((g : ℕ) → (g == f) ≡ false → P g) → (g : ℕ) → P g
each P f this others g = elim (Bool-cases (g == f)) [
  | inl same ↦ subst P (sym ((==_iff g f).0 same)) this
  | inr other ↦ others g other
]

pub not_exec :
    (x : FiberState) (q t r : ℕ) → is_over x ≡ false → Fine x q (1 + t) r → is_exec x ≡ false
not_exec x q t r lives v = elim (Bool-cases (is_exec x)) [
  | inl runs ↦ absurd (omega (arith, v.exec_run runs, v.taken_free (omega arith) lives))
  | inr still ↦ still
]
