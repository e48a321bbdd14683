-- ===== src/Logger/Settings.antt =====
-- src/base/Logger.cpp: the constructor and the settings.
use protobase.Common.{
  ℕ, Bool, true, false, ◌&&◌, ◌||◌, not, Option, none, some, List, [], map, if◌then◌else◌, ◌==◌,
}
use protobase.Common.Texts.{codes, equal}
use protobase.Logger.{Logger, SpdLogger, Sink, Level, string_to_level, init_logger, is_empty}

abbrev pub unequal : Bool → Bool → Bool
unequal true b = not b
unequal false b = b

-- The members as declared, in the working directory, before `initLogger`.
abbrev pub blank : List ℕ → Logger
blank cwd = record {
  logger = none;
  log_dir = cwd;
  log_name_prefix = codes "EC20SMS_";
  console_output = true;
  file_output = false;
  level = codes "debug";
  max_file_size = 10;
  max_files = 100;
  pattern = codes "[%-6t] [%Y-%m-%d %H:%M:%S.%e] [%!] [%^%-7l%$] %v [%s:%#]";
  made = [];
}

unfoldable pub create : List ℕ → Bool → Logger
unfolding init_logger
create cwd works = init_logger works (blank cwd)

abbrev pub with_level : Level → SpdLogger → SpdLogger
with_level level o = record o { level = level; flush_level = level }

-- `set_pattern` of a logger.
abbrev pub with_pattern : List ℕ → SpdLogger → SpdLogger
with_pattern pattern o = record o {
  sinks = map (λ (s : Sink). record s { pattern = pattern }) o.sinks;
}

-- What is done to the logger, if there is one.
abbrev pub on_logger : (SpdLogger → SpdLogger) → Option SpdLogger → Option SpdLogger
on_logger f none = none
on_logger f (some o) = some (f o)

unfoldable pub set_log_level : List ℕ → Logger → Logger
unfolding string_to_level
set_log_level level l = record l {
  level = level;
  logger = on_logger (with_level (string_to_level level)) l.logger;
}

unfoldable pub set_console_output : Bool → Bool → Logger → Logger
unfolding init_logger
set_console_output works enable l =
    if unequal l.console_output enable
    then init_logger works (record l { console_output = enable })
    else l

-- Whether `setFileOutput` gives a new directory.
abbrev pub new_dir : List ℕ → Logger → Bool
new_dir log_dir l = not (is_empty log_dir) && not (equal l.log_dir log_dir)

abbrev pub filed : Bool → List ℕ → Logger → Logger
filed enable log_dir l = record l {
  file_output = enable;
  log_dir = if new_dir log_dir l then log_dir else l.log_dir;
}

unfoldable pub set_file_output : Bool → Bool → List ℕ → Logger → Logger
unfolding init_logger
set_file_output works enable log_dir l =
    if unequal l.file_output enable || new_dir log_dir l
    then init_logger works (filed enable log_dir l)
    else filed enable log_dir l

unfoldable pub set_log_name_prefix : Bool → List ℕ → Logger → Logger
unfolding init_logger
set_log_name_prefix works prefix l =
    if equal l.log_name_prefix prefix
    then l
    else init_logger works (record l { log_name_prefix = prefix })

unfoldable pub set_max_file_size : Bool → ℕ → Logger → Logger
unfolding init_logger
set_max_file_size works size l =
    if l.max_file_size == size
    then l
    else if l.file_output
    then init_logger works (record l { max_file_size = size })
    else record l { max_file_size = size }

unfoldable pub set_max_files : Bool → ℕ → Logger → Logger
unfolding init_logger
set_max_files works files l =
    if l.max_files == files
    then l
    else if l.file_output
    then init_logger works (record l { max_files = files })
    else record l { max_files = files }

unfoldable pub set_pattern : List ℕ → Logger → Logger
set_pattern pattern l =
    if equal l.pattern pattern
    then l
    else record l { pattern = pattern; logger = on_logger (with_pattern pattern) l.logger }
