-- ===== src/Log/Formats.antt =====
-- What setting the formatter of a logger does to its appenders.
use mnser.Common.{◌||◌, ℕ, List, [], ◌∷◌, Bool, true, false, Option, ◌==◌, if◌then◌else◌}
use mnser.Common.{◌≡◌, refl, ap, ◌∙◌, arith}
use mnser.Log.Managed.{store-same}
use mnser.Log.Loggers.{LogFormatter, LogAppender, Logger, LogState, store, pass_on, set_formatter}

abbrev pub among : ℕ → List ℕ → Bool
among a [] = false
among a (b ∷ xs) = a == b || among a xs

-- An appender that has a formatter of its own gets this one.
abbrev given : Option LogFormatter → LogAppender → LogAppender
given f x = if x.has_formatter then record x { formatter = f } else x

given_twice : (f : Option LogFormatter) (x : LogAppender) → given f (given f x) ≡ given f x
given_twice f x = ground arith

one_given :
    (m : ℕ → LogAppender) (b : ℕ) (f : Option LogFormatter) (a : ℕ)
    → (if (m b).has_formatter then store m b (record (m b) { formatter = f }) else m) a
      ≡ (if a == b then given f (m a) else m a)
one_given m b f a = ground arith

pass_on_lem :
    (m : ℕ → LogAppender) (xs : List ℕ) (f : Option LogFormatter) (a : ℕ)
    → pass_on m xs f a ≡ (if among a xs then given f (m a) else m a)
unfolding pass_on
pass_on_lem m [] f a = refl
pass_on_lem m (b ∷ xs) f a =
    pass_on_lem (if (m b).has_formatter then store m b (record (m b) { formatter = f }) else m) xs f
      a
    ∙ ap (λ x. if among a xs then given f x else x) (one_given m b f a)
    ∙ both (a == b) (among a xs)
  where
    both :
        (p q : Bool)
        → (if q
            then given f (if p then given f (m a) else m a)
            else if p
            then given f (m a)
            else m a)
          ≡ (if p || q then given f (m a) else m a)
    both true true = given_twice f (m a)
    both true false = refl
    both false q = refl

-- `setFormatter` of a logger gives its formatter to those of its appenders that have one of their
-- own, and to no other: an appender with none of its own, which took the logger's when it was added,
-- stays as it is.
pub set_formatter_lem :
    (s : LogState) (l : ℕ) (f : Option LogFormatter)
    → let t = set_formatter s l f in
      ((t.logger l).formatter ≡ f)
      × ((a : ℕ)
          → among a (s.logger l).appenders ≡ true
          → (s.appender a).has_formatter ≡ true
          → (t.appender a).formatter ≡ f)
      × ((a : ℕ) → (s.appender a).has_formatter ≡ false → t.appender a ≡ s.appender a)
unfolding set_formatter
set_formatter_lem s l f = (
  ap (λ (x : Logger). x.formatter) (store-same s.logger l _),
  λ a h own.
      ap (λ (x : LogAppender). x.formatter) (pass_on_lem s.appender (s.logger l).appenders f a)
      ∙ rw (h, own) refl,
  λ a inherited. pass_on_lem s.appender (s.logger l).appenders f a ∙ ground arith,
)
