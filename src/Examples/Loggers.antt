-- ===== src/Examples/Loggers.antt =====
-- src/base/Logger.cpp with a few settings.
use protobase.Common.{◌≡◌, refl, true, List, [], ◌∷◌}
use protobase.Common.Texts.{codes}
use protobase.Logger.{debug, err, string_to_level, create_directory}
use protobase.Logger.Settings.{create}
use protobase.Logger.InForce.{InForce, Setting, level_is, file_is, size_is, pattern_is}

known : string_to_level (codes "error") ≡ err
unfolding string_to_level
known = refl

unknown : string_to_level (codes "loud") ≡ debug
unfolding string_to_level
unknown = refl

directories : create_directory (codes "/var//log") ≡ codes "/var/" ∷ codes "/var/log/" ∷ []
unfolding create_directory
directories = refl

relative : create_directory (codes "a/b/") ≡ codes "a/" ∷ codes "a/b/" ∷ []
unfolding create_directory
relative = refl

abbrev settings : List Setting
settings =
    size_is 20
    ∷ file_is true (codes "/tmp")
    ∷ level_is (codes "trace")
    ∷ pattern_is (codes "%v")
    ∷ []

-- A new logger, made at debug.
in_force : InForce (create (codes "/") true)
unfolding create
in_force = record { sink_level = debug; logger = refl }
