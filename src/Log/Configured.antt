-- ===== src/Log/Configured.antt =====
-- What a change of the configuration does to the loggers.
use mnser.Common.{ℕ, List, [], ◌∷◌, ◌++◌, Bool, true, false, Option, some, ◌==◌, if◌then◌else◌}
use mnser.Common.{◌≡◌, refl, ap, ◌∙◌, Option-cases, inl, inr}
use mnser.Common.Text.{Text, is_empty}
use mnser.Log.{LogLevel}
use mnser.Log.Loggers.{
  Target, Logger, LogFormatter, LogState, store, new_formatter, appender_set_formatter,
  appender_set_level, create_appender, set_formatter, set_pattern, set_level, clear_appender,
  add_appender,
}
use mnser.Log.Managed.{store-same}
use mnser.Log.Config.{LogAppenderItem, target_of, give_formatter, equip, equip_all, new_pattern}

-- From one state to another only the logger `l` changes, and it keeps its name.
pub record Only (l : ℕ) (s t : LogState) : Type 0 where
  pub loggers : t.loggers ≡ s.loggers
  pub same_next : t.next_logger ≡ s.next_logger
  pub others : (k : ℕ) → (k == l) ≡ false → t.logger k ≡ s.logger k
  pub name : (t.logger l).name ≡ (s.logger l).name

Only-refl : (l : ℕ) (s : LogState) → Only l s s
Only-refl l s = record { loggers = refl; same_next = refl; others = λ k h. refl; name = refl }

pub Only-trans : (l : ℕ) (s t u : LogState) → Only l s t → Only l t u → Only l s u
Only-trans l s t u a b = record {
  loggers = b.loggers ∙ a.loggers;
  same_next = b.same_next ∙ a.same_next;
  others = λ k h. b.others k h ∙ a.others k h;
  name = b.name ∙ a.name;
}

-- The logger is replaced by one of its name.
stored :
    (s : LogState) (l : ℕ) (v : Logger)
    → v.name ≡ (s.logger l).name
    → Only l s (record s { logger = store s.logger l v })
stored s l v h = record {
  loggers = refl;
  same_next = refl;
  others = λ k other. rw other refl;
  name = ap (λ (x : Logger). x.name) (store-same s.logger l v) ∙ h;
}

pub set_level-Only : (s : LogState) (l : ℕ) (level : LogLevel) → Only l s (set_level s l level)
unfolding set_level
set_level-Only s l level = stored s l _ refl

pub clear_appender-Only : (s : LogState) (l : ℕ) → Only l s (clear_appender s l)
unfolding clear_appender
clear_appender-Only s l = stored s l _ refl

set_formatter-Only :
    (s : LogState) (l : ℕ) (f : Option LogFormatter) → Only l s (set_formatter s l f)
unfolding set_formatter
set_formatter-Only s l f =
    let o = stored s l (record (s.logger l) { formatter = f }) refl in
    record { loggers = refl; same_next = refl; others = o.others; name = o.name }

add_appender-Only : (s : LogState) (l a : ℕ) → Only l s (add_appender s l a)
unfolding add_appender
add_appender-Only s l a =
    let o =
      stored s l (record (s.logger l) { appenders = (s.logger l).appenders ++ a ∷ [] }) refl in
    record { loggers = refl; same_next = refl; others = o.others; name = o.name }

-- One of two states.
either :
    (l : ℕ) (s t u : LogState) (b : Bool) → Only l s t → Only l s u → Only l s (if b then t else u)
either l s t u true h k = h
either l s t u false h k = k

pub new_pattern-Only : (s : LogState) (l : ℕ) (p : Text) → Only l s (new_pattern s l p)
unfolding new_pattern set_pattern
new_pattern-Only s l p = either l s _ _ (is_empty p) (Only-refl l s) (
    either l s _ _ (new_formatter p).error (Only-refl l s)
      (set_formatter-Only s l (some (new_formatter p))))

give_formatter-Only : (s : LogState) (l a : ℕ) (p : Text) → Only l s (give_formatter s a p)
unfolding give_formatter appender_set_formatter
give_formatter-Only s l a p = either l s _ _ (is_empty p) (Only-refl l s) (
    either l s _ _ (new_formatter p).error (Only-refl l s)
      (record { loggers = refl; same_next = refl; others = λ k h. refl; name = refl }))

equip-Only : (s : LogState) (l : ℕ) (item : LogAppenderItem) → Only l s (equip s l item)
unfolding equip create_appender
equip-Only s l item = elim (Option-cases (target_of item)) [
  | inl e ↦ rw (e, equip) (Only-refl l s)
  | inr (target, e) ↦ rw (e, equip) (made target)
]
  where
    create-Only :
        (target : Target)
        → Only l s (
            appender_set_level (create_appender s target).0 (create_appender s target).1 item.level)
    create-Only target = record {
      loggers = refl;
      same_next = refl;
      others = λ k h. refl;
      name = refl;
    }

    made :
        (target : Target)
        → Only l s (
            let (t, a) = create_appender s target in
            add_appender (give_formatter (appender_set_level t a item.level) a item.formatter) l a)
    made target =
        let (t, a) = create_appender s target in
        let u = appender_set_level t a item.level in
        Only-trans l s u _ (create-Only target) (
          Only-trans l u (give_formatter u a item.formatter) _
            (give_formatter-Only u l a item.formatter)
            (add_appender-Only (give_formatter u a item.formatter) l a))

pub equip_all-Only :
    (s : LogState) (l : ℕ) (items : List LogAppenderItem) → Only l s (equip_all s l items)
unfolding equip_all
equip_all-Only s l [] = Only-refl l s
equip_all-Only s l (a ∷ items) =
    Only-trans l s (equip s l a) _ (equip-Only s l a) (equip_all-Only (equip s l a) l items)
