-- ===== src/Tests/Levels.antt =====
-- internal/agent/logtail/parser.go: witnesses.
use theminidog.Base.{◌≡◌, refl, [], ◌++◌, codes}
use theminidog.Logtail.Level.{is_white, is_word, lower, level_norm, parse_level}
use theminidog.Logtail.Level.Structured.{no_key, field_then, parse_level-field}

level_code : Unit {0}
unfolding is_white is_word no_key level_norm lower
level_code = tt

parse_level-field_example :
    parse_level
      (codes "{\"t\":1," ++ field_then [] (codes " ") (codes "WARN") (codes ",\"level\":\"x\"}"))
    ≡ "warn"
unfolding level_code
parse_level-field_example =
    parse_level-field (codes "{\"t\":1,") [] (codes " ") (codes "WARN") (codes ",\"level\":\"x\"}")
      "warn" (refl, (refl, (refl, (refl, (refl, (refl, (refl, tt))))))) refl tt (refl, tt)
      (refl, (refl, (refl, (refl, tt)))) (refl, (refl, (refl, (refl, tt)))) refl
