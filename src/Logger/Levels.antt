-- ===== src/Logger/Levels.antt =====
-- src/base/Logger.cpp: `setLogLevel` does not reach the sinks.
use protobase.Common.{
  ℕ, ◌<◌, ◌≡◌, refl, ap, Bool, true, false, ◌&&◌, some, List, [], ◌∷◌, if◌then◌else◌, leb,
  lt→leb_false,
}
use protobase.Logger.{
  Logger, SpdLogger, Sink, Level, trace, debug, info, warn, err, critical, off, sinks_of,
  string_to_level, logger_name,
}
use protobase.Logger.Settings.{set_log_level, on_logger, with_level}
use protobase.Logger.InForce.{InForce}

abbrev pub rank : Level → ℕ
rank trace = 0
rank debug = 1
rank info = 2
rank warn = 3
rank err = 4
rank critical = 5
rank off = 6

-- The sinks that write a message of a level: it has to reach the level of the logger and of the sink,
-- as spdlog describes.
abbrev pub writing : Level → Level → List Sink → List Sink
writing m at [] = []
writing m at (s ∷ ss) =
    if leb (rank at) (rank m) && leb (rank s.level) (rank m)
    then s ∷ writing m at ss
    else writing m at ss

abbrev pub set_levels : List (List ℕ) → Logger → Logger
set_levels [] l = l
set_levels (name ∷ names) l = set_levels names (set_log_level name l)

-- Sinks at one level.
AllAt : Level → List Sink → Type 0
AllAt level [] = Unit {0}
AllAt level (s ∷ ss) = (s.level ≡ level) × AllAt level ss

sinks_of-AllAt :
    (level : Level) (l : Logger) (c f : Bool)
    → AllAt level (sinks_of level (record l { console_output = c; file_output = f }))
unfolding sinks_of AllAt
sinks_of-AllAt level l true true = (refl, (refl, tt))
sinks_of-AllAt level l true false = (refl, tt)
sinks_of-AllAt level l false true = (refl, tt)
sinks_of-AllAt level l false false = (refl, tt)

below-writing :
    (m at level : Level) (ss : List Sink)
    → rank m < rank level
    → AllAt level ss
    → writing m at ss ≡ []
unfolding AllAt
below-writing m at level [] low all = refl
below-writing m at level (s ∷ ss) low all =
    rw (all.0, lt→leb_false (rank level) (rank m) low, and_false (leb (rank at) (rank m)))
      (below-writing m at level ss low all.1)
  where
    and_false : (b : Bool) → (b && false) ≡ false
    and_false true = refl
    and_false false = refl

-- Where the settings are in force, any calls of `setLogLevel` give the logger the last level, and no
-- sink writes a message below the level at which the sinks were made, whatever that last level is.
set_levels-writing :
    (names : List (List ℕ)) (m : Level) (l : Logger) (v : InForce l)
    → rank m < rank v.sink_level
    → (o : SpdLogger) × ((set_levels names l).logger ≡ some o)
      × ((o.level ≡ string_to_level (set_levels names l).level) × (writing m o.level o.sinks ≡ []))
unfolding set_log_level sinks_of
set_levels-writing [] m l v low = (
  record {
    name = logger_name l;
    sinks = sinks_of v.sink_level l;
    level = string_to_level l.level;
    flush_level = string_to_level l.level;
  },
  v.logger,
  (
    refl,
    below-writing m (string_to_level l.level) v.sink_level (sinks_of v.sink_level l) low
        (sinks_of-AllAt v.sink_level l l.console_output l.file_output),
  ),
)
set_levels-writing (name ∷ names) m l v low =
    set_levels-writing names m (set_log_level name l)
      (record {
        sink_level = v.sink_level;
        logger = ap (on_logger (with_level (string_to_level name))) v.logger;
      })
      low
