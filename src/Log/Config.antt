-- ===== src/Log/Config.antt =====
-- `LogAppenderItem`, `LogItem` and the listener that `LogInit` adds (src/log.cpp): how a change of
-- the configuration `logs` reaches the loggers. A `std::set` of items, which is ordered by name, is a
-- list with one item for a name. The message that the listener logs first is left out.
use mnser.Common.{
  ℕ, List, [], ◌∷◌, Bool, true, false, ◌&&◌, Option, none, some, ◌==◌, if◌then◌else◌,
}
use mnser.Common.Text.{Text, eq_text, is_empty}
use mnser.Log.{LogLevel, invalid, number}
use mnser.Log.Loggers.{
  Target, stdout, log_file, LogState, new_formatter, appender_set_formatter, appender_set_level,
  create_appender, set_pattern, set_level, clear_appender, add_appender, get_logger,
}

pub record LogAppenderItem : Type 0 where
  pub type : ℕ
  pub level : LogLevel
  pub formatter : Text
  pub file : Text

pub record LogItem : Type 0 where
  pub name : Text
  pub level : LogLevel
  pub appenders : List LogAppenderItem
  pub formatter : Text

-- The operators `==`.
unfoldable pub eq_appender_item : LogAppenderItem → LogAppenderItem → Bool
eq_appender_item a b =
    a.type == b.type
    && number a.level == number b.level
    && eq_text a.formatter b.formatter
    && eq_text a.file b.file

unfoldable pub eq_appender_items : List LogAppenderItem → List LogAppenderItem → Bool
eq_appender_items [] [] = true
eq_appender_items [] (b ∷ ys) = false
eq_appender_items (a ∷ xs) [] = false
eq_appender_items (a ∷ xs) (b ∷ ys) = eq_appender_item a b && eq_appender_items xs ys

unfoldable pub eq_item : LogItem → LogItem → Bool
eq_item a b =
    eq_text a.name b.name
    && number a.level == number b.level
    && eq_appender_items a.appenders b.appenders
    && eq_text a.formatter b.formatter

-- `find` goes by `<`, and so by the name.
unfoldable pub find_item : List LogItem → Text → Option LogItem
find_item [] name = none
find_item (it ∷ items) name =
    let rest = find_item items name in if eq_text it.name name then some it else rest

-- `LogAppenderItemType_FILE` is 0, `LogAppenderItemType_STDOUT` is 1.
unfoldable pub target_of : LogAppenderItem → Option Target
target_of a =
    if a.type == 0 then some (log_file a.file) else if a.type == 1 then some stdout else none

-- The formatter of an item's appender, if its pattern is well formed.
unfoldable pub give_formatter : LogState → ℕ → Text → LogState
give_formatter s a pattern =
    let f = new_formatter pattern in
    if is_empty pattern then s else if f.error then s else appender_set_formatter s a (some f)

unfoldable pub equip : LogState → ℕ → LogAppenderItem → LogState
equip s l item = elim (target_of item) [
  | none ↦ s
  | some target ↦
      let (t, a) = create_appender s target in
      add_appender (give_formatter (appender_set_level t a item.level) a item.formatter) l a
]

unfoldable pub equip_all : LogState → ℕ → List LogAppenderItem → LogState
equip_all s l [] = s
equip_all s l (a ∷ items) = equip_all (equip s l a) l items

unfoldable pub new_pattern : LogState → ℕ → Text → LogState
new_pattern s l pattern = if is_empty pattern then s else set_pattern s l pattern

-- The changes for an item that is new or another than before.
unfoldable pub configure : LogState → LogItem → LogState
configure s it =
    let (t, l) = get_logger s it.name in
    equip_all (clear_appender (new_pattern (set_level t l it.level) l it.formatter) l) l
      it.appenders

abbrev pub is_same : Option LogItem → LogItem → Bool
is_same none it = false
is_same (some f) it = eq_item f it

-- The loop over the new items.
unfoldable pub configure_all : LogState → List LogItem → List LogItem → LogState
configure_all s old [] = s
configure_all s old (it ∷ items) =
    configure_all (if is_same (find_item old it.name) it then s else configure s it) old items

unfoldable pub retire : LogState → Text → LogState
retire s name = let (t, l) = get_logger s name in clear_appender (set_level t l invalid) l

abbrev pub is_found : Option LogItem → Bool
is_found none = false
is_found (some f) = true

-- The loop over the old items.
unfoldable pub retire_all : LogState → List LogItem → List LogItem → LogState
retire_all s [] new = s
retire_all s (it ∷ items) new =
    retire_all (if is_found (find_item new it.name) then retire s it.name else s) items new

unfoldable pub on_change : LogState → List LogItem → List LogItem → LogState
on_change s old new = retire_all (configure_all s old new) old new
