-- ===== src/Log/Logging.antt =====
-- Which appenders an event goes to, and what they write.
use mnser.Common.{
  ℕ, List, [], ◌∷◌, ◌++◌, true, Option, none, some, is_some, leb, ◌==◌, ==_iff, if◌then◌else◌, ok,
  All, append_assoc, append-nil,
}
use mnser.Common.{◌≡◌, refl, ap, sym, ◌∙◌, arith, Bool-cases, Option-cases, inl, inr, subst, ◌⊎◌}
use mnser.Common.Text.{Text}
use mnser.Log.{LogLevel, level_le, LogEvent, Printers, format}
use mnser.Log.Loggers.{
  LogFormatter, Target, stdout, log_file, LogAppender, Output, reopened, wrote, LogState, store,
  reopen_due, log_appender, log_appenders, log,
}

-- The texts that were written, without the openings of files.
abbrev pub written : List Output → List (Target × Text)
written [] = []
written (reopened name ∷ xs) = written xs
written (wrote target t ∷ xs) = (target, t) ∷ written xs

pub written-append : (xs ys : List Output) → written (xs ++ ys) ≡ written xs ++ written ys
written-append [] ys = refl
written-append (reopened name ∷ xs) ys = written-append xs ys
written-append (wrote target t ∷ xs) ys = ap (◌∷◌ (target, t)) (written-append xs ys)

-- Logging leaves an appender as it is, but for the time at which it last opened its file.
pub record Alike (s t : LogState) : Type 0 where
  pub loggers : t.logger ≡ s.logger
  pub targets : (a : ℕ) → (t.appender a).target ≡ (s.appender a).target
  pub levels : (a : ℕ) → (t.appender a).level ≡ (s.appender a).level
  pub formatters : (a : ℕ) → (t.appender a).formatter ≡ (s.appender a).formatter

Alike-refl : (s : LogState) → Alike s s
Alike-refl s = record {
  loggers = refl;
  targets = λ a. refl;
  levels = λ a. refl;
  formatters = λ a. refl;
}

Alike-trans : (s t u : LogState) → Alike s t → Alike t u → Alike s u
Alike-trans s t u h k = record {
  loggers = k.loggers ∙ h.loggers;
  targets = λ a. k.targets a ∙ h.targets a;
  levels = λ a. k.levels a ∙ h.levels a;
  formatters = λ a. k.formatters a ∙ h.formatters a;
}

store_part {ℓ} :
    {B : Type ℓ} (v : LogAppender) (g : LogAppender → B) (m : ℕ → LogAppender) (a b : ℕ)
    → g v ≡ g (m a)
    → g (store m a v b) ≡ g (m b)
store_part v g m a b h = elim (Bool-cases (b == a)) [
  | inl same ↦ rw same (h ∙ ap (λ x. g (m x)) (sym ((==_iff b a).0 same)))
  | inr other ↦ rw other refl
]

List-cases {ℓ} : {A : Type ℓ} (xs : List A) → (xs ≡ []) ⊎ ((a : A) × (ys : List A) × (xs ≡ a ∷ ys))
List-cases [] = inl refl
List-cases (a ∷ ys) = inr (a, ys, refl)

module _ (p : Printers) (level : LogLevel) (event : LogEvent) where
  -- What an appender writes with its formatter.
  abbrev pub text_by : Option LogFormatter → Text
  text_by none = []
  text_by (some f) = format p f.items level event

  -- What the enabled ones of these appenders write, in their order.
  abbrev pub texts_by : LogState → List ℕ → List (Target × Text)
  texts_by s [] = []
  texts_by s (a ∷ xs) =
      let rest = texts_by s xs in
      if level_le (s.appender a).level level
      then ((s.appender a).target, text_by (s.appender a).formatter) ∷ rest
      else rest

  -- The appenders of the logger, or those of its root if it has none; nothing below a level.
  abbrev pub texts_of : LogState → ℕ → List (Target × Text)
  texts_of s l =
      let own = texts_by s (s.logger l).appenders in
      let above : List (Target × Text) = elim (s.logger l).root [
        | none ↦ []
        | some r ↦
            if level_le (s.logger r).level level then texts_by s (s.logger r).appenders else []
      ] in
      if level_le (s.logger l).level level
      then elim (s.logger l).appenders [ [] ↦ above | a ∷ xs ↦ own ]
      else []

  abbrev pub Formatted : LogState → List ℕ → Type 0
  Formatted s = All (λ a. is_some (s.appender a).formatter ≡ true)

  texts_by-Alike : (s t : LogState) (xs : List ℕ) → Alike s t → texts_by t xs ≡ texts_by s xs
  texts_by-Alike s t [] h = refl
  texts_by-Alike s t (a ∷ xs) h =
      rw (h.targets a, h.levels a, h.formatters a, texts_by-Alike s t xs h) refl

  Formatted-Alike : (s t : LogState) (xs : List ℕ) → Alike s t → Formatted s xs → Formatted t xs
  Formatted-Alike s t [] h f = tt
  Formatted-Alike s t (a ∷ xs) h f = (rw (h.formatters a) f.0, Formatted-Alike s t xs h f.1)

  reopen_due_lem :
      (s : LogState) (a : ℕ) (target : Target) (now : ℕ)
      → Alike s (reopen_due s a target now)
        × (written (reopen_due s a target now).output ≡ written s.output)
  reopen_due_lem s a stdout now = (Alike-refl s, refl)
  reopen_due_lem s a (log_file f) now = elim (Bool-cases (leb (s.appender a).last_time now)) [
    | inr early ↦ rw early (Alike-refl s, refl)
    | inl due ↦ rw due (
      record {
        loggers = refl;
        targets = λ b. store_part _ (λ x. x.target) s.appender a b refl;
        levels = λ b. store_part _ (λ x. x.level) s.appender a b refl;
        formatters = λ b. store_part _ (λ x. x.formatter) s.appender a b refl;
      },
      written-append s.output (reopened f ∷ []) ∙ append-nil (written s.output),
    )
  ]

  log_appender_lem :
      (s : LogState) (a : ℕ)
      → is_some (s.appender a).formatter ≡ true
      → (t : LogState) × (log_appender p s a level event ≡ ok t)
        × Alike s t
        × (written t.output ≡ written s.output ++ texts_by s (a ∷ []))
  unfolding log_appender
  log_appender_lem s a has = elim (Bool-cases (level_le (s.appender a).level level)) [
    | inr off ↦ rw off (s, refl, Alike-refl s, sym (append-nil (written s.output)))
    | inl on ↦ elim (Option-cases (s.appender a).formatter) [
      | inl missing ↦ absurd (ground (arith, ap is_some missing))
      | inr (f, e) ↦
          let t = reopen_due s a (s.appender a).target event.time in
          let (h, w) = reopen_due_lem s a (s.appender a).target event.time in
          let text = format p f.items level event in
          rw (on, e)
            (
              record t { output = t.output ++ wrote (s.appender a).target text ∷ [] },
              refl,
              record {
                loggers = h.loggers;
                targets = h.targets;
                levels = h.levels;
                formatters = h.formatters;
              },
              written-append t.output (wrote (s.appender a).target text ∷ [])
                  ∙ ap (λ x. x ++ ((s.appender a).target, text) ∷ []) w,
            )
    ]
  ]

  first_then :
      (s : LogState) (a : ℕ) (xs : List ℕ)
      → texts_by s (a ∷ []) ++ texts_by s xs ≡ texts_by s (a ∷ xs)
  first_then s a xs = elim (Bool-cases (level_le (s.appender a).level level)) [
    | inl on ↦ rw on refl
    | inr off ↦ rw off refl
  ]

  log_appenders_lem :
      (s : LogState) (xs : List ℕ)
      → Formatted s xs
      → (t : LogState) × (log_appenders p s xs level event ≡ ok t)
        × Alike s t
        × (written t.output ≡ written s.output ++ texts_by s xs)
  unfolding log_appenders
  log_appenders_lem s [] f = (s, refl, Alike-refl s, sym (append-nil (written s.output)))
  log_appenders_lem s (a ∷ xs) f =
      let (t, e, h, w) = log_appender_lem s a f.0 in
      let (u, e', h', w') = log_appenders_lem t xs (Formatted-Alike s t xs h f.1) in
      (
        u,
        rw (e, e') refl,
        Alike-trans s t u h h',
        w'
            ∙ ap (◌++◌ (written t.output)) (texts_by-Alike s t xs h)
            ∙ ap (λ x. x ++ texts_by s xs) w
            ∙ append_assoc (written s.output) (texts_by s (a ∷ [])) (texts_by s xs)
            ∙ ap (◌++◌ (written s.output)) (first_then s a xs),
      )

  quiet : (s : LogState) → written s.output ≡ written s.output ++ []
  quiet s = sym (append-nil (written s.output))

  -- A logger that has no root.
  log_root :
      (s : LogState) (r : ℕ)
      → (s.logger r).root ≡ none
      → Formatted s (s.logger r).appenders
      → (t : LogState) × (log p 1 s r level event ≡ some (ok t))
        × Alike s t
        × (written t.output
            ≡ written s.output
              ++ (if level_le (s.logger r).level level
                  then texts_by s (s.logger r).appenders
                  else []))
  unfolding log
  log_root s r top own = elim (Bool-cases (level_le (s.logger r).level level)) [
    | inr off ↦ rw off (s, refl, Alike-refl s, quiet s)
    | inl on ↦ elim (List-cases (s.logger r).appenders) [
      | inl none_there ↦ rw (on, none_there, top) (s, refl, Alike-refl s, quiet s)
      | inr (a, xs, e) ↦
          let (t, done, h, w) = log_appenders_lem s (a ∷ xs) (subst (Formatted s) e own) in
          rw (on, e, done) (t, refl, h, w)
    ]
  ]

  -- An event that is logged goes to the appenders of the logger, or if it has none to those of its
  -- root, in their order: each that is enabled for the level writes the event as its formatter puts
  -- it, to its target. Below the level of the logger, or of the root, nothing is written. Nothing
  -- else changes but when files were opened. The conditions are that those appenders have a
  -- formatter and that the root has no root itself.
  pub log_lem :
      (s : LogState) (l : ℕ)
      → Formatted s (s.logger l).appenders
      → ((r : ℕ)
          → (s.logger l).root ≡ some r
          → ((s.logger r).root ≡ none) × Formatted s (s.logger r).appenders)
      → (t : LogState) × (log p 2 s l level event ≡ some (ok t))
        × Alike s t
        × (written t.output ≡ written s.output ++ texts_of s l)
  unfolding log
  log_lem s l own up = elim (Bool-cases (level_le (s.logger l).level level)) [
    | inr off ↦ rw off (s, refl, Alike-refl s, quiet s)
    | inl on ↦ elim (List-cases (s.logger l).appenders) [
      | inr (a, xs, e) ↦
          let (t, done, h, w) = log_appenders_lem s (a ∷ xs) (subst (Formatted s) e own) in
          rw (on, e, done) (t, refl, h, w ∙ ap (λ q. written s.output ++ texts_by s q) (sym e))
      | inl none_there ↦ elim (Option-cases (s.logger l).root) [
        | inl top ↦ rw (on, none_there, top) (s, refl, Alike-refl s, quiet s)
        | inr (r, e) ↦
            let (t, done, h, w) = log_root s r (up r e).0 (up r e).1 in
            rw (on, none_there, e) (t, done, h, w)
      ]
    ]
  ]
