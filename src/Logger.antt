-- ===== src/Logger.antt =====
-- src/base/Logger.h and src/base/Logger.cpp. Of spdlog's objects only what the code sets is here: a
-- sink's kind, level and pattern, a logger's name, sinks and levels; `set_pattern` of a logger is that
-- of each sink. Whether the file sink can be created is an argument: it throws where it cannot.
-- Texts are lists of character codes. The working directory is an argument too.
pub mod Settings
pub mod Directories
pub mod InForce
pub mod Levels
use protobase.Common.{
  ℕ, ◌+◌, ◌*◌, ◌%◌, ◌^◌, Bool, true, false, ◌&&◌, ◌||◌, not, Option, none, some, List, [], ◌∷◌,
  ◌++◌, map, if◌then◌else◌, ◌==◌, length,
}
use protobase.Common.Texts.{codes, equal, find}

pub data Level : Type 0 where
  trace : Level
  debug : Level
  info : Level
  warn : Level
  err : Level
  critical : Level
  off : Level

pub data Kind : Type 0 where
  console : Kind
  file : List ℕ → ℕ → ℕ → Kind

pub record Sink : Type 0 where
  pub kind : Kind
  pub level : Level
  pub pattern : List ℕ

pub record SpdLogger : Type 0 where
  pub name : List ℕ
  pub sinks : List Sink
  pub level : Level
  pub flush_level : Level

-- `made` is a log of the directories that were to be made.
pub record Logger : Type 0 where
  pub logger : Option SpdLogger
  pub log_dir : List ℕ
  pub log_name_prefix : List ℕ
  pub console_output : Bool
  pub file_output : Bool
  pub level : List ℕ
  pub max_file_size : ℕ
  pub max_files : ℕ
  pub pattern : List ℕ
  pub made : List (List ℕ)

abbrev pub level_map : List (List ℕ × Level)
level_map =
    (codes "trace", trace)
    ∷ (codes "debug", debug)
    ∷ (codes "info", info)
    ∷ (codes "warn", warn)
    ∷ (codes "error", err)
    ∷ (codes "critical", critical)
    ∷ (codes "off", off)
    ∷ []

unfoldable pub string_to_level : List ℕ → Level
string_to_level level = elim (find level level_map) [ some l ↦ l | none ↦ debug ]

-- `std::getline(…, '/')`, without the empty tokens: `token` is what was read of the next one.
unfoldable pub tokens : List ℕ → List ℕ → List (List ℕ)
tokens [] [] = []
tokens (t ∷ token) [] = (t ∷ token) ∷ []
tokens [] (c ∷ cs) = if c == b'/' then tokens [] cs else tokens (c ∷ []) cs
tokens (t ∷ token) (c ∷ cs) =
    if c == b'/' then (t ∷ token) ∷ tokens [] cs else tokens ((t ∷ token) ++ c ∷ []) cs

-- The paths given to `mkdir`, behind the current one.
unfoldable pub paths : List ℕ → List (List ℕ) → List (List ℕ)
paths current [] = []
paths current (t ∷ ts) = (current ++ t ++ b'/' ∷ []) ∷ paths (current ++ t ++ b'/' ∷ []) ts

unfoldable pub create_directory : List ℕ → List (List ℕ)
unfolding tokens paths
create_directory [] = []
create_directory (c ∷ cs) = paths (if c == b'/' then b'/' ∷ [] else []) (tokens [] (c ∷ cs))

abbrev pub ends_in_separator : List ℕ → Bool
ends_in_separator [] = false
ends_in_separator (c ∷ []) = c == b'/' || c == 92
ends_in_separator (c ∷ d ∷ cs) = ends_in_separator (d ∷ cs)

abbrev pub is_empty : List ℕ → Bool
is_empty [] = true
is_empty (c ∷ cs) = false

unfoldable pub log_file_path : Logger → List ℕ
log_file_path l =
    (if not (is_empty l.log_dir) && not (ends_in_separator l.log_dir)
      then l.log_dir ++ b'/' ∷ []
      else l.log_dir)
    ++ l.log_name_prefix
    ++ codes "log.log"

abbrev pub console_sink : Level → Logger → Sink
console_sink level l = record { kind = console; level = level; pattern = l.pattern }

abbrev pub file_sink : Level → Logger → Sink
unfolding log_file_path
file_sink level l = record {
  kind = file (log_file_path l) (l.max_file_size * 1024 * 1024 % 2 ^ 64) l.max_files;
  level = level;
  pattern = l.pattern;
}

-- The sinks that `initLogger` makes, at a level.
unfoldable pub sinks_of : Level → Logger → List Sink
unfolding file_sink
sinks_of level l =
    if l.console_output
    then console_sink level l ∷ (if l.file_output then file_sink level l ∷ [] else [])
    else if l.file_output
    then file_sink level l ∷ []
    else console_sink level l ∷ []

abbrev pub logger_name : Logger → List ℕ
logger_name l = l.log_name_prefix ++ codes "log"

-- `works` is whether the file sink can be created.
unfoldable pub init_logger : Bool → Logger → Logger
unfolding sinks_of string_to_level create_directory
init_logger works l =
    let level = string_to_level l.level in
    let made = if l.file_output then l.made ++ create_directory l.log_dir else l.made in
    if not l.file_output || works
    then record l {
      made = made;
      logger = some (record {
        name = logger_name l;
        sinks = sinks_of level l;
        level = level;
        flush_level = level;
      });
    }
    else record l {
      made = made;
      logger = some (record {
        name = logger_name l;
        sinks = console_sink trace l ∷ [];
        level = debug;
        flush_level = off;
      });
    }
