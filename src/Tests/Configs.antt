-- ===== src/Tests/Configs.antt =====
-- internal/config: witnesses and tests.
use theminidog.Base.{
  ◌≡◌, refl, List, All, has_comma, is_space, byte_length, lowers_to, split_commas, trim, true, some,
  [], ◌∷◌, String, seconds, str_eq, ok, if◌then◌else◌,
}
use theminidog.Config.{Texts}
use theminidog.Config.Server.{ServerConfig, load_server_config}
use theminidog.Config.Agent.{AgentConfig, load_agent}
use theminidog.Config.Paths.{IsPath}
use theminidog.Config.Ranges.{IsSafe, load_server_config-IsSafe}

-- Every text is a URL of itself as its scheme, and a duration of 15 seconds.
abbrev pub texts : Texts
texts = record { scheme = some; parse_duration = λ s. some (seconds 15) }

abbrev server_env : String → String
server_env k =
    if str_eq k "DATABASE_URL"
    then "postgres"
    else if str_eq k "AGENT_TOKEN"
    then "a-long-secret-16"
    else "15s"

abbrev server_config : ServerConfig
server_config = record {
  listen_addr = "15s";
  database_url = "postgres";
  agent_token = "a-long-secret-16";
  migrations_path = "15s";
  log_level = "info";
  request_timeout = seconds 15;
  shutdown_timeout = seconds 15;
  alert_rules = "15s";
  alert_notifications = "15s";
  dashboard_enabled = true;
  host_stale_after = seconds 15;
  host_down_after = seconds 15;
}

server_loads : load_server_config texts server_env ≡ ok server_config
unfolding load_server_config byte_length lowers_to
server_loads = refl

load_server_config-IsSafe_example : IsSafe server_config
load_server_config-IsSafe_example =
    load_server_config-IsSafe texts server_env server_config server_loads

abbrev agent_env : String → String
agent_env k =
    if str_eq k "SERVER_URL" then "http" else if str_eq k "COLLECT_INTERVAL" then "15s" else ""

abbrev agent_config : AgentConfig
agent_config = record {
  server_url = "http";
  agent_host = "web-1";
  agent_token = "";
  collect_interval = seconds 15;
  send_timeout = seconds 10;
  backoff_base = seconds 1;
  backoff_max = seconds 60;
  log_paths = [];
  log_level = "info";
}

agent_loads : load_agent texts agent_env "web-1" ≡ ok agent_config
unfolding load_agent split_commas trim
agent_loads = refl

abbrev two_paths : List String
two_paths = "/var/log/app one.log" ∷ "/var/log/sys.log" ∷ []

two_paths-IsPath : All IsPath two_paths
unfolding trim is_space has_comma
two_paths-IsPath = (
  record { plain = refl; trimmed = refl; filled = refl },
  (record { plain = refl; trimmed = refl; filled = refl }, tt),
)
