-- ===== src/Log/Loggers.antt =====
-- `LogAppender`, `Logger` and `LoggerManager` of src/log.cpp. Loggers and appenders are shared: they
-- are numbers, and stand in two stores. What is written goes to a list, the last at its end; a file
-- that is opened or written to does not fail. Every call is one step under its locks.
use mnser.Common.{
  ℕ, zero, suc, ◌+◌, List, [], ◌∷◌, ◌++◌, Bool, true, false, Option, none, some, is_some, leb, ◌==◌,
  if◌then◌else◌, Result, ok, err, ◌>>=◌, undefined_behaviour,
}
use mnser.Common.Text.{Text, codes, eq_text}
use mnser.Log.{LogLevel, debug, level_le, LogEvent, FormatItem, Printers, format}
use mnser.Log.Formatter.{init}

-- `LogFormatter`, whose fields never change.
pub record LogFormatter : Type 0 where
  pub pattern : Text
  pub items : List FormatItem
  pub error : Bool

abbrev made : Text → Option (List FormatItem × Bool) → LogFormatter
made pattern none = record { pattern = pattern; items = []; error = true }
made pattern (some (items, e)) = record { pattern = pattern; items = items; error = e }

-- The constructor. `init` never runs out of fuel.
unfoldable pub new_formatter : Text → LogFormatter
new_formatter pattern = made pattern (init pattern)

-- `StdoutLogAppender` and `FileLogAppender`.
pub data Target : Type 0 where
  stdout : Target
  log_file : Text → Target

pub record LogAppender : Type 0 where
  pub target : Target
  pub level : LogLevel
  pub has_formatter : Bool
  pub formatter : Option LogFormatter
  pub last_time : ℕ

pub record Logger : Type 0 where
  pub name : Text
  pub level : LogLevel
  pub appenders : List ℕ
  pub root : Option ℕ
  pub formatter : Option LogFormatter

pub data Output : Type 0 where
  reopened : Text → Output
  wrote : Target → Text → Output

-- The stores, with the first numbers that are free, the manager's `m_root` and `m_loggers`, and
-- what was put out.
pub record LogState : Type 0 where
  pub appender : ℕ → LogAppender
  pub logger : ℕ → Logger
  pub next_appender : ℕ
  pub next_logger : ℕ
  pub root : ℕ
  pub loggers : List (Text × ℕ)
  pub output : List Output

abbrev pub store {ℓ} : {A : Type ℓ} → (ℕ → A) → ℕ → A → ℕ → A
store m k v j = if j == k then v else m j

abbrev pub put_appender : LogState → ℕ → LogAppender → LogState
put_appender s a v = record s { appender = store s.appender a v }

abbrev pub put_logger : LogState → ℕ → Logger → LogState
put_logger s l v = record s { logger = store s.logger l v }

-- `reopen`, where it is due.
abbrev pub reopen_due : LogState → ℕ → Target → ℕ → LogState
reopen_due s a stdout now = s
reopen_due s a (log_file name) now =
    if leb (s.appender a).last_time now
    then record s {
      appender = store s.appender a (record (s.appender a) { last_time = now });
      output = s.output ++ reopened name ∷ [];
    }
    else s

module _ (p : Printers) where
  -- `m_formatter->format`: a null pointer is followed.
  abbrev pub write_event :
      Option LogFormatter → Target → LogLevel → LogEvent → LogState → Result LogState
  write_event none target level event s = err undefined_behaviour
  write_event (some f) target level event s =
      ok (record s { output = s.output ++ wrote target (format p f.items level event) ∷ [] })

  -- `log` of both kinds of appender.
  unfoldable pub log_appender : LogState → ℕ → LogLevel → LogEvent → Result LogState
  log_appender s a level event =
      let ap = s.appender a in
      if level_le ap.level level
      then write_event ap.formatter ap.target level event (reopen_due s a ap.target event.time)
      else ok s

  unfoldable pub log_appenders : LogState → List ℕ → LogLevel → LogEvent → Result LogState
  log_appenders s [] level event = ok s
  log_appenders s (a ∷ xs) level event =
      log_appender s a level event >>= λ s'. log_appenders s' xs level event

  -- `Logger::log`. The fuel counts loggers, from root to root; `none` means that it ran out.
  unfoldable pub log : ℕ → LogState → ℕ → LogLevel → LogEvent → Option (Result LogState)
  log zero s l level event = none
  log (suc n) s l level event =
      let lg = s.logger l in
      let up : Option (Result LogState) = elim lg.root [
        | none ↦ some (ok s)
        | some r ↦ log n s r level event
      ] in
      if level_le lg.level level
      then elim lg.appenders [ [] ↦ up | a ∷ xs ↦ some (log_appenders s (a ∷ xs) level event) ]
      else some (ok s)

-- `LogAppender::setFormatter`
unfoldable pub appender_set_formatter : LogState → ℕ → Option LogFormatter → LogState
appender_set_formatter s a val =
    put_appender s a (record (s.appender a) { formatter = val; has_formatter = is_some val })

abbrev pub appender_set_level : LogState → ℕ → LogLevel → LogState
appender_set_level s a level = put_appender s a (record (s.appender a) { level = level })

-- The loop of `Logger::setFormatter`.
unfoldable pub pass_on : (ℕ → LogAppender) → List ℕ → Option LogFormatter → ℕ → LogAppender
pass_on m [] f = m
pass_on m (a ∷ xs) f =
    pass_on (if (m a).has_formatter then store m a (record (m a) { formatter = f }) else m) xs f

unfoldable pub set_formatter : LogState → ℕ → Option LogFormatter → LogState
set_formatter s l f = record s {
  logger = store s.logger l (record (s.logger l) { formatter = f });
  appender = pass_on s.appender (s.logger l).appenders f;
}

-- `Logger::setFormatter` of a pattern.
unfoldable pub set_pattern : LogState → ℕ → Text → LogState
set_pattern s l str = let f = new_formatter str in if f.error then s else set_formatter s l (some f)

unfoldable pub add_appender : LogState → ℕ → ℕ → LogState
add_appender s l a = record s {
  appender =
      if is_some (s.appender a).formatter
      then s.appender
      else store s.appender a (record (s.appender a) { formatter = (s.logger l).formatter });
  logger = store s.logger l (record (s.logger l) { appenders = (s.logger l).appenders ++ a ∷ [] });
}

-- The erasure of the first that is equal.
unfoldable pub without : List ℕ → ℕ → List ℕ
without [] a = []
without (b ∷ xs) a = let rest = without xs a in if b == a then xs else b ∷ rest

unfoldable pub del_appender : LogState → ℕ → ℕ → LogState
del_appender s l a =
    put_logger s l (record (s.logger l) { appenders = without (s.logger l).appenders a })

unfoldable pub clear_appender : LogState → ℕ → LogState
clear_appender s l = put_logger s l (record (s.logger l) { appenders = [] })

unfoldable pub set_level : LogState → ℕ → LogLevel → LogState
set_level s l level = put_logger s l (record (s.logger l) { level = level })

-- The constructor of `Logger`.
unfoldable pub new_logger : Text → Logger
new_logger name = record {
  name = name;
  level = debug;
  appenders = [];
  root = none;
  formatter =
      some (new_formatter (codes "%d{%Y-%m-%d %H:%M:%S}%T%t%T%N%T%F%T[%p]%T[%c]%T%f:%l%T%m%n"));
}

-- An appender as it is constructed.
abbrev pub new_appender : Target → LogAppender
new_appender target = record {
  target = target;
  level = debug;
  has_formatter = false;
  formatter = none;
  last_time = 0;
}

-- The constructors; that of `FileLogAppender` opens the file.
unfoldable pub create_appender : LogState → Target → LogState × ℕ
create_appender s target = (
  record s {
    appender = store s.appender s.next_appender (new_appender target);
    next_appender = s.next_appender + 1;
    output = elim target [ stdout ↦ s.output | log_file name ↦ s.output ++ reopened name ∷ [] ];
  },
  s.next_appender,
)

-- `m_loggers.find` and `m_loggers[name] = l`
unfoldable pub find_logger : List (Text × ℕ) → Text → Option ℕ
find_logger [] name = none
find_logger (e ∷ es) name =
    let rest = find_logger es name in if eq_text e.0 name then some e.1 else rest

unfoldable pub assign_logger : List (Text × ℕ) → Text → ℕ → List (Text × ℕ)
assign_logger [] name l = (name, l) ∷ []
assign_logger (e ∷ es) name l =
    let rest = assign_logger es name l in if eq_text e.0 name then (name, l) ∷ es else e ∷ rest

-- `_addLogger`: the new logger, by its number.
unfoldable pub make_logger : LogState → Text → LogState × ℕ
make_logger s name = (
  record s {
    logger = store s.logger s.next_logger (record (new_logger name) { root = some s.root });
    next_logger = s.next_logger + 1;
    loggers = assign_logger s.loggers name s.next_logger;
  },
  s.next_logger,
)

unfoldable pub get_logger : LogState → Text → LogState × ℕ
get_logger s name = elim (find_logger s.loggers name) [
  | some l ↦ (s, l)
  | none ↦ make_logger s name
]

-- `addLogger` of a logger.
unfoldable pub add_logger : LogState → ℕ → LogState
add_logger s l = elim (find_logger s.loggers (s.logger l).name) [
  | some k ↦ s
  | none ↦ record s { loggers = assign_logger s.loggers (s.logger l).name l }
]

-- The constructor of `LoggerManager`: the root logger is 0, with one appender, 0.
unfoldable pub new_manager : LogState
new_manager =
    add_appender
      (record {
        appender = λ a. new_appender stdout;
        logger = λ l. new_logger (codes "root");
        next_appender = 1;
        next_logger = 1;
        root = 0;
        loggers = (codes "root", 0) ∷ [];
        output = [];
      })
      0 0
