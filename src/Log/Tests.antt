-- ===== src/Log/Tests.antt =====
-- Patterns, and a manager whose configuration changes.
use mnser.Common.{ℕ, List, [], ◌∷◌, true, false, none, some, ◌≡◌, refl}
use mnser.Common.Text.{Text, codes}
use mnser.Log.{
  debug, warn, error, to_string, from_string, LogEvent, FormatItem, message, level_name, date_time,
  tab, str, Printers,
}
use mnser.Log.Formatter.{init, parse, scan_name, scan_fmt, make_items, make_item, item_of}
use mnser.Log.Fitting.{show_all}
use mnser.Log.Rendered.{init-show_all}
use mnser.Log.Loggers.{LogFormatter, new_manager, get_logger, find_logger}
use mnser.Log.Managed.{Got, get_logger_lem, new_manager-Named}
use mnser.Log.Config.{LogItem, find_item, is_found, on_change}
use mnser.Log.Listened.{Retired, on_change_lem}

abbrev printers : Printers
printers = record { decimal = λ n. n ∷ []; strftime = λ fmt t. fmt }

abbrev event : LogEvent
event = record {
  file = codes "a.cc";
  line = 7;
  elapse = 0;
  thread_id = 1;
  fiber_id = 2;
  time = 100;
  level = warn;
  content = codes "full";
  thread_name = codes "main";
  logger_name = codes "root";
}

levels : from_string (to_string warn) ≡ warn
unfolding from_string to_string
levels = refl

pattern_test :
    init (codes "[%p]%T%d{%H:%M}%m")
    ≡ some (
      str (codes "[")
          ∷ level_name
          ∷ str (codes "]")
          ∷ tab
          ∷ date_time (codes "%H:%M")
          ∷ message
          ∷ [],
      false,
    )
unfolding init parse scan_name scan_fmt make_items make_item item_of
pattern_test = refl

abbrev some_items : List FormatItem
some_items =
    str (codes "at ") ∷ date_time (codes "%H:%M") ∷ level_name ∷ str (codes ": ") ∷ message ∷ []

init-show_all_example : init (show_all some_items) ≡ some (some_items, false)
init-show_all_example =
    init-show_all some_items
      (refl, refl, refl, (refl, refl, (refl, (refl, refl, refl, (refl, tt)))))

get_logger_example : Got new_manager (codes "net") (get_logger new_manager (codes "net"))
get_logger_example = get_logger_lem new_manager (codes "net") new_manager-Named

abbrev plain : LogFormatter
plain = record { pattern = codes "%m"; items = message ∷ []; error = false }

abbrev net_item : LogItem
net_item = record { name = codes "net"; level = error; appenders = []; formatter = [] }

abbrev db_item : LogItem
db_item = record { name = codes "db"; level = debug; appenders = []; formatter = [] }

on_change_example :
    ((n : Text)
      → is_found (find_item (net_item ∷ db_item ∷ []) n) ≡ true
      → is_found (find_item (net_item ∷ []) n) ≡ true
      → Retired n (on_change new_manager (net_item ∷ db_item ∷ []) (net_item ∷ [])))
    × ((n : Text) (l : ℕ)
        → find_logger new_manager.loggers n ≡ some l
        → find_item (net_item ∷ []) n ≡ none
        → (on_change new_manager (net_item ∷ db_item ∷ []) (net_item ∷ [])).logger l
          ≡ new_manager.logger l)
on_change_example =
    on_change_lem new_manager (net_item ∷ db_item ∷ []) (net_item ∷ []) new_manager-Named
