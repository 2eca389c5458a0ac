-- ===== src/Config/Levels.antt =====
-- The level of the logger, which cmd/server/main.go and cmd/agent/main.go set alike.
use theminidog.Base.{String, str_eq, if◌then◌else◌}

pub data Level : Type 0 where
  debug info warn error : Level

-- The level of the logger, for a level of the configuration.
unfoldable pub slog_level : String → Level
slog_level s =
    if str_eq s "debug"
    then debug
    else if str_eq s "warn"
    then warn
    else if str_eq s "error"
    then error
    else info
