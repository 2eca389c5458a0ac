-- ===== src/Config/Agent.antt =====
-- internal/config/agent.go.
use theminidog.Base.{
  trim, split_commas, ◌||◌, ◌&&◌, none, some, List, [], ◌∷◌, String, Duration, seconds, leb_ℤ,
  str_eq, if◌then◌else◌, Result, ok, err, bind,
}
use theminidog.Config.{Texts}

-- The backoff's jitter is the constant 0.25, and the two lists of the source that are always nil
-- are left out.
pub record AgentConfig : Type 0 where
  pub server_url : String
  pub agent_host : String
  pub agent_token : String
  pub collect_interval : Duration
  pub send_timeout : Duration
  pub backoff_base : Duration
  pub backoff_max : Duration
  pub log_paths : List String
  pub log_level : String

pub data AgentConfigError : Type 0 where
  no_server_url bad_server_url : AgentConfigError

-- The parts that are not blank, trimmed.
unfoldable pub paths_of : List String → List String
paths_of [] = []
paths_of (p ∷ ps) =
    let rest = paths_of ps in let t = trim p in if str_eq t "" then rest else t ∷ rest

unfoldable pub log_paths : String → List String
unfolding paths_of
log_paths raw = if str_eq raw "" then [] else paths_of (split_commas raw)

unfoldable pub agent_log_level : String → String
agent_log_level ll =
    if str_eq ll "warn" || (str_eq ll "error" || str_eq ll "debug") then ll else "info"

module _ (tx : Texts) where
  unfoldable pub collect_interval : String → Duration
  collect_interval raw = if str_eq raw "" then seconds 10 else elim (tx.parse_duration raw) [
    | none ↦ seconds 10
    | some d ↦ if leb_ℤ (seconds 1) d && leb_ℤ d (seconds 300) then d else seconds 10
  ]

  unfoldable pub server_url : String → Result AgentConfigError String
  server_url raw = if str_eq raw "" then err no_server_url else elim (tx.scheme raw) [
    | none ↦ err bad_server_url
    | some s ↦ if str_eq s "http" || str_eq s "https" then ok raw else err bad_server_url
  ]

  -- `hostname` is what `os.Hostname` returns beside its error.
  unfoldable pub load_agent : (String → String) → String → Result AgentConfigError AgentConfig
  unfolding collect_interval log_paths agent_log_level server_url bind
  load_agent env hostname = bind (server_url (env "SERVER_URL")) (λ url. ok (record {
    server_url = url;
    agent_host = if str_eq (env "AGENT_HOST") "" then hostname else env "AGENT_HOST";
    agent_token = env "AGENT_TOKEN";
    collect_interval = collect_interval (env "COLLECT_INTERVAL");
    send_timeout = seconds 10;
    backoff_base = seconds 1;
    backoff_max = seconds 60;
    log_paths = log_paths (env "LOG_PATHS");
    log_level = agent_log_level (env "LOG_LEVEL");
  }))
