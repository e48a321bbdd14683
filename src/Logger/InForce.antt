-- ===== src/Logger/InForce.antt =====
-- src/base/Logger.cpp: the logger against the settings that it is built from.
use protobase.Common.{
  ℕ, ◌≡◌, ◌∙◌, refl, sym, ap, Bool, true, false, ◌||◌, not, some, List, [], ◌∷◌, map, if◌then◌else◌,
  ◌==◌, ◌++◌, ◌*◌, ◌%◌, ◌^◌,
}
use protobase.Common.Texts.{equal, codes}
use protobase.Logger.{
  Logger, Sink, Level, console, file, string_to_level, init_logger, sinks_of, logger_name,
  log_file_path,
}
use protobase.Logger.Settings.{
  unequal, on_logger, with_level, with_pattern, new_dir, filed, set_log_level, set_console_output,
  set_file_output, set_log_name_prefix, set_max_file_size, set_max_files, set_pattern,
}

-- The logger is the one that the settings describe. Its sinks are those that `initLogger` would make
-- now, but for their level.
pub record InForce (l : Logger) : Type 0 where
  pub sink_level : Level
  pub logger :
      l.logger
      ≡ some (record {
        name = logger_name l;
        sinks = sinks_of sink_level l;
        level = string_to_level l.level;
        flush_level = string_to_level l.level;
      })

or_true : (b : Bool) → (b || true) ≡ true
or_true true = refl
or_true false = refl

init_logger-InForce : (l : Logger) → InForce (init_logger true l)
unfolding init_logger sinks_of log_file_path
init_logger-InForce l =
    rw (or_true (not l.file_output), init_logger)
      record { sink_level = string_to_level l.level; logger = refl }

or_false : (a b : Bool) → (a || b) ≡ false → (a ≡ false) × (b ≡ false)
or_false true b h = cc
or_false false b h = (refl, h)

unequal→eq : (a b : Bool) → unequal a b ≡ false → a ≡ b
unequal→eq true true h = refl
unequal→eq true false h = cc
unequal→eq false true h = cc
unequal→eq false false h = refl

-- Either branch of a test.
if_InForce :
    {b : Bool} (x y : Logger)
    → (b ≡ true → InForce x)
    → (b ≡ false → InForce y)
    → InForce (if b then x else y)
if_InForce {b = true} x y f g = f refl
if_InForce {b = false} x y f g = g refl

-- Without a file, the limits of files are in no sink.
module _ (level : Level) (l : Logger) (n : ℕ) where
  sinks_of-size :
      (b : Bool)
      → b ≡ false
      → sinks_of level (record l { max_file_size = n; file_output = b })
        ≡ sinks_of level (record l { file_output = b })
  unfolding sinks_of
  sinks_of-size true h = cc
  sinks_of-size false h = refl

  sinks_of-files :
      (b : Bool)
      → b ≡ false
      → sinks_of level (record l { max_files = n; file_output = b })
        ≡ sinks_of level (record l { file_output = b })
  unfolding sinks_of
  sinks_of-files true h = cc
  sinks_of-files false h = refl

sinks_of-pattern :
    (level : Level) (pattern : List ℕ) (l : Logger) (c f : Bool)
    → map
        (λ (s : Sink). record s { pattern = pattern })
        (sinks_of level (record l { console_output = c; file_output = f }))
      ≡ sinks_of level (record l { console_output = c; file_output = f; pattern = pattern })
unfolding sinks_of log_file_path
sinks_of-pattern level pattern l true true = refl
sinks_of-pattern level pattern l true false = refl
sinks_of-pattern level pattern l false true = refl
sinks_of-pattern level pattern l false false = refl

pub data Setting : Type 0 where
  level_is : List ℕ → Setting
  console_is : Bool → Setting
  file_is : Bool → List ℕ → Setting
  prefix_is : List ℕ → Setting
  size_is : ℕ → Setting
  files_are : ℕ → Setting
  pattern_is : List ℕ → Setting

-- A setting, where the file sink can be created.
unfoldable pub set : Setting → Logger → Logger
unfolding set_log_level set_console_output set_file_output set_log_name_prefix set_max_file_size
    set_max_files set_pattern
set (level_is level) l = set_log_level level l
set (console_is enable) l = set_console_output true enable l
set (file_is enable dir) l = set_file_output true enable dir l
set (prefix_is prefix) l = set_log_name_prefix true prefix l
set (size_is size) l = set_max_file_size true size l
set (files_are files) l = set_max_files true files l
set (pattern_is pattern) l = set_pattern pattern l

module _ (l : Logger) (v : InForce l) where
  -- A logger to which the settings say the same.
  same_settings :
      (l' : Logger)
      → l'.logger ≡ l.logger
      → logger_name l' ≡ logger_name l
      → sinks_of v.sink_level l' ≡ sinks_of v.sink_level l
      → l'.level ≡ l.level
      → InForce l'
  same_settings l' logger name sinks level = record {
    sink_level = v.sink_level;
    logger = logger ∙ v.logger ∙ rw (name, sinks, level) refl;
  }

  file_is-InForce : (enable : Bool) (dir : List ℕ) → InForce (set_file_output true enable dir l)
  unfolding set_file_output
  file_is-InForce enable dir =
      if_InForce {b = unequal l.file_output enable || new_dir dir l}
        (init_logger true (filed enable dir l)) (filed enable dir l)
        (λ e. init_logger-InForce (filed enable dir l))
        (λ e.
          let both = or_false (unequal l.file_output enable) (new_dir dir l) e in
          same_settings (filed enable dir l) refl refl
            (ap
                (λ x. sinks_of v.sink_level (record l {
                  file_output = x;
                  log_dir = if new_dir dir l then dir else l.log_dir;
                }))
                (sym (unequal→eq l.file_output enable both.0))
              ∙ ap
                  (λ x. sinks_of v.sink_level (record l { log_dir = if x then dir else l.log_dir }))
                  both.1)
            refl)

  pattern_is-InForce : (pattern : List ℕ) → InForce (set_pattern pattern l)
  unfolding set_pattern sinks_of
  pattern_is-InForce pattern =
      if_InForce {b = equal l.pattern pattern} l
        (record l { pattern = pattern; logger = on_logger (with_pattern pattern) l.logger })
        (λ e. v)
        (λ e. record {
          sink_level = v.sink_level;
          logger =
              ap (on_logger (with_pattern pattern)) v.logger
              ∙ ap
                  (λ s. some (record {
                    name = logger_name l;
                    sinks = s;
                    level = string_to_level l.level;
                    flush_level = string_to_level l.level;
                  }))
                  (sinks_of-pattern v.sink_level pattern l l.console_output l.file_output);
        })

pub set-InForce : (s : Setting) (l : Logger) → InForce l → InForce (set s l)
unfolding set set_log_level set_console_output set_log_name_prefix set_max_file_size set_max_files
    sinks_of
set-InForce (level_is level) l v = record {
  sink_level = v.sink_level;
  logger = ap (on_logger (with_level (string_to_level level))) v.logger;
}
set-InForce (console_is enable) l v =
    if_InForce {b = unequal l.console_output enable} _ l
      (λ e. init_logger-InForce (record l { console_output = enable })) (λ e. v)
set-InForce (file_is enable dir) l v = file_is-InForce l v enable dir
set-InForce (prefix_is prefix) l v =
    if_InForce {b = equal l.log_name_prefix prefix} l _ (λ e. v)
      (λ e. init_logger-InForce (record l { log_name_prefix = prefix }))
set-InForce (size_is size) l v =
    if_InForce {b = l.max_file_size == size} l _ (λ e. v)
      (λ e.
        if_InForce {b = l.file_output} (init_logger true (record l { max_file_size = size }))
          (record l { max_file_size = size })
          (λ f. init_logger-InForce (record l { max_file_size = size }))
          (λ f.
            same_settings l v (record l { max_file_size = size }) refl refl
              (sinks_of-size v.sink_level l size l.file_output f) refl))
set-InForce (files_are files) l v =
    if_InForce {b = l.max_files == files} l _ (λ e. v)
      (λ e.
        if_InForce {b = l.file_output} (init_logger true (record l { max_files = files }))
          (record l { max_files = files })
          (λ f. init_logger-InForce (record l { max_files = files }))
          (λ f.
            same_settings l v (record l { max_files = files }) refl refl
              (sinks_of-files v.sink_level l files l.file_output f) refl))
set-InForce (pattern_is pattern) l v = pattern_is-InForce l v pattern

abbrev pub set_all : List Setting → Logger → Logger
set_all [] l = l
set_all (s ∷ ss) l = set_all ss (set s l)

-- The sinks that are wanted: a console unless only a file is wanted, then the file where one is.
abbrev pub sinks_wanted : Level → Logger → List Sink
sinks_wanted level l =
    (if l.console_output || not l.file_output
      then record { kind = console; level = level; pattern = l.pattern } ∷ []
      else [])
    ++ (if l.file_output
        then record {
          kind = file (log_file_path l) (l.max_file_size * 1024 * 1024 % 2 ^ 64) l.max_files;
          level = level;
          pattern = l.pattern;
        }
          ∷ []
        else [])

-- The logger is the one that the settings describe, but for the level of its sinks.
pub record Described (l : Logger) : Type 0 where
  pub sink_level : Level
  pub logger :
      l.logger
      ≡ some (record {
        name = l.log_name_prefix ++ codes "log";
        sinks = sinks_wanted sink_level l;
        level = string_to_level l.level;
        flush_level = string_to_level l.level;
      })
