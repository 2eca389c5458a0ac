-- ===== src/Config/Server.antt =====
-- internal/config/server.go.
use theminidog.Base.{
  lowers_to, byte_length, Bool, not, ◌||◌, none, some, String, Duration, pos, seconds, ltb_ℤ, leb_ℤ,
  ltb, str_eq, if◌then◌else◌, Result, ok, err, bind,
}
use theminidog.Config.{Texts}

pub record ServerConfig : Type 0 where
  pub listen_addr : String
  pub database_url : String
  pub agent_token : String
  pub migrations_path : String
  pub log_level : String
  pub request_timeout : Duration
  pub shutdown_timeout : Duration
  pub alert_rules : String
  pub alert_notifications : String
  pub dashboard_enabled : Bool
  pub host_stale_after : Duration
  pub host_down_after : Duration

pub data ServerConfigError : Type 0 where
  no_database_url bad_database_url no_agent_token short_agent_token : ServerConfigError
  bad_stale_after bad_down_after : ServerConfigError

-- The value of a variable, or its default where it is empty.
unfoldable pub or_default : String → String → String
or_default s default = if str_eq s "" then default else s

unfoldable pub agent_token : String → Result ServerConfigError String
agent_token token =
    if str_eq token ""
    then err no_agent_token
    else if ltb (byte_length token) 16
    then err short_agent_token
    else ok token

unfoldable pub log_level : String → String
log_level raw =
    if lowers_to raw "debug"
    then "debug"
    else if lowers_to raw "warn"
    then "warn"
    else if lowers_to raw "error"
    then "error"
    else "info"

unfoldable pub dashboard_enabled : String → Bool
dashboard_enabled raw = not (lowers_to raw "false" || lowers_to raw "0")

module _ (tx : Texts) where
  unfoldable pub parse_duration : String → Duration → Duration → Duration → Duration
  parse_duration raw default min max =
      if str_eq raw "" then default else elim (tx.parse_duration raw) [
        | none ↦ default
        | some d ↦ if ltb_ℤ d min || ltb_ℤ max d then default else d
      ]

  unfoldable pub parse_duration_strict :
      ServerConfigError → String → Duration → Result ServerConfigError Duration
  parse_duration_strict e raw default =
      if str_eq raw "" then ok default else elim (tx.parse_duration raw) [
        | none ↦ err e
        | some d ↦ if leb_ℤ d (pos 0) then err e else ok d
      ]

  unfoldable pub database_url : String → Result ServerConfigError String
  database_url url = if str_eq url "" then err no_database_url else elim (tx.scheme url) [
    | none ↦ err bad_database_url
    | some s ↦ if str_eq s "postgres" || str_eq s "postgresql" then ok url else err bad_database_url
  ]

  unfoldable pub load_server_config : (String → String) → Result ServerConfigError ServerConfig
  unfolding parse_duration parse_duration_strict database_url agent_token log_level or_default
      dashboard_enabled bind
  load_server_config env = bind (database_url (env "DATABASE_URL")) (λ url.
      bind (agent_token (env "AGENT_TOKEN")) (λ token.
        bind (parse_duration_strict bad_stale_after (env "HOST_STALE_AFTER") (seconds 20)) (λ stale.
          bind (parse_duration_strict bad_down_after (env "HOST_DOWN_AFTER") (seconds 50)) (λ down.
            ok (record {
              listen_addr = or_default (env "LISTEN_ADDR") ":8080";
              database_url = url;
              agent_token = token;
              migrations_path = or_default (env "MIGRATIONS_PATH") "./migrations";
              log_level = log_level (env "LOG_LEVEL");
              request_timeout =
                  parse_duration (env "REQUEST_TIMEOUT") (seconds 10) (seconds 1) (seconds 120);
              shutdown_timeout =
                  parse_duration (env "SHUTDOWN_TIMEOUT") (seconds 5) (seconds 1) (seconds 30);
              alert_rules = env "ALERT_RULES";
              alert_notifications = env "ALERT_NOTIFICATIONS";
              dashboard_enabled = dashboard_enabled (env "DASHBOARD_ENABLED");
              host_stale_after = stale;
              host_down_after = down;
            })))))
