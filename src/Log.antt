-- ===== src/Log.antt =====
-- inc/log.h and src/log.cpp: the levels, the events, and the items that a formatter is made of. A
-- text is the list of its characters. The numbers of an event are printed by the stream, and
-- `strftime` with `localtime_r` makes a text of a time: both are parameters.
pub mod Formatter
pub mod Scanning
pub mod Fitting
pub mod Rendered
pub mod Loggers
pub mod Logging
pub mod Managed
pub mod Formats
pub mod Config
pub mod Configured
pub mod Retained
pub mod Listened
mod Tests
use mnser.Common.{ℕ, List, [], ◌∷◌, ◌++◌, Bool, true, false, if◌then◌else◌, leb}
use mnser.Common.Text.{Text, codes, eq_text, is_empty}

-- `LogLevel::Level`, with the numbers that the comparisons go by.
pub data LogLevel : Type 0 where
  unknown debug info warn error fatal invalid : LogLevel

abbrev pub number : LogLevel → ℕ
number unknown = 0
number debug = 1
number info = 2
number warn = 3
number error = 4
number fatal = 5
number invalid = 100

abbrev pub level_le : LogLevel → LogLevel → Bool
level_le a b = leb (number a) (number b)

unfoldable pub to_string : LogLevel → Text
to_string debug = codes "DEBUG"
to_string info = codes "INFO"
to_string warn = codes "WARN"
to_string error = codes "ERROR"
to_string fatal = codes "FATAL"
to_string _ = codes "UNKNOWN"

unfoldable pub from_string : Text → LogLevel
from_string str =
    if eq_text str (codes "debug")
    then debug
    else if eq_text str (codes "info")
    then info
    else if eq_text str (codes "warn")
    then warn
    else if eq_text str (codes "error")
    then error
    else if eq_text str (codes "fatal")
    then fatal
    else if eq_text str (codes "DEBUG")
    then debug
    else if eq_text str (codes "INFO")
    then info
    else if eq_text str (codes "WARN")
    then warn
    else if eq_text str (codes "ERROR")
    then error
    else if eq_text str (codes "FATAL")
    then fatal
    else unknown

-- `logger_name` is the name of the event's logger.
pub record LogEvent : Type 0 where
  pub file : Text
  pub line : ℕ
  pub elapse : ℕ
  pub thread_id : ℕ
  pub fiber_id : ℕ
  pub time : ℕ
  pub level : LogLevel
  pub content : Text
  pub thread_name : Text
  pub logger_name : Text

-- The subclasses of `FormatItem`.
pub data FormatItem : Type 0 where
  message level_name elapse_ms name thread_num new_line : FormatItem
  date_time : Text → FormatItem
  file_name line_num tab fiber_num thread_label : FormatItem
  str : Text → FormatItem

-- What the code takes from elsewhere.
pub record Printers : Type 0 where
  pub decimal : ℕ → Text
  pub strftime : Text → ℕ → Text

module _ (p : Printers) where
  -- What `format` of an item puts out.
  unfoldable pub format_item : FormatItem → LogLevel → LogEvent → Text
  format_item message level event = event.content
  format_item level_name level event = to_string level
  format_item elapse_ms level event = p.decimal event.elapse
  format_item name level event = event.logger_name
  format_item thread_num level event = p.decimal event.thread_id
  format_item new_line level event = codes "\n"
  format_item (date_time fmt) level event = p.strftime fmt event.time
  format_item file_name level event = event.file
  format_item line_num level event = p.decimal event.line
  format_item tab level event = codes "\t"
  format_item fiber_num level event = p.decimal event.fiber_id
  format_item thread_label level event = event.thread_name
  format_item (str s) level event = s

  unfoldable pub format : List FormatItem → LogLevel → LogEvent → Text
  format [] level event = []
  format (it ∷ items) level event = format_item it level event ++ format items level event

-- The constructor of `DateTimeFormatItem`.
abbrev pub date_item : Text → FormatItem
date_item fmt = if is_empty fmt then date_time (codes "%Y-%m-%d %H:%M:%S") else date_time fmt
