-- ===== src/Config.antt =====
-- internal/config: what the two programs read from their environment. `env k` is `os.Getenv(k)`.
-- `scheme s` is the scheme of `url.Parse(s)` and `parse_duration s` is `time.ParseDuration(s)`, each
-- `none` for an error.
pub mod Server
pub mod Agent
pub mod Levels
pub mod Ranges
pub mod Paths
use theminidog.Base.{ℕ, Option, List, String, Duration}

-- The standard library's parsers of texts that the two loaders use.
pub record Texts : Type 0 where
  pub scheme : String → Option String
  pub parse_duration : String → Option Duration
