-- ===== src/Agent/Process.antt =====
-- cmd/agent/main.go, up to the two loops. The times are those of the calls of `time.Now`.
use Prim.Native.String.{◌++◌}
use theminidog.Base.{
  ℕ, Bool, Option, none, some, List, [], ◌∷◌, String, Time, Duration, seconds, pos, ◌+ℤ◌, str_eq,
  if◌then◌else◌, Floats, Result, ok, err, bind,
}
use theminidog.Config.{Texts}
use theminidog.Config.Levels.{Level, slog_level}
use theminidog.Config.Agent.{AgentConfig, AgentConfigError, load_agent}
use theminidog.Agent.Backoff.{default_backoff}
use theminidog.Agent.Sending.{HttpSender, new_http_sender, with_token, new_http_log_sender}
use theminidog.Agent.Network.{NetworkCollector, new_network_collector}
use theminidog.Agent.Loops.{Agent, new_agent}
use theminidog.Logtail.Tailer.{Disk, Tailer, new_tailer}

-- `jwt.RegisteredClaims`, as far as the agent sets them.
pub record Claims : Type 0 where
  pub issuer : String
  pub expires_at : Time
  pub issued_at : Time

-- golang-jwt: `NewNumericDate`, the signing with HS256 under a secret (`none` for an error), and
-- whether a token parses under a secret at a time.
pub record Jwt : Type 0 where
  pub numeric_date : Time → Time
  pub sign : String → Claims → Option String
  pub verify : Time → String → String → Bool

unfoldable pub claims_at : Jwt → Time → Time → Claims
claims_at jwt expiring issued = record {
  issuer = "miniobserv-agent";
  expires_at = jwt.numeric_date (expiring +ℤ seconds 86_400);
  issued_at = jwt.numeric_date issued;
}

unfoldable pub mint_agent_token : Jwt → Time → Time → String → Option String
unfolding claims_at
mint_agent_token jwt expiring issued secret = jwt.sign secret (claims_at jwt expiring issued)

-- The exits of `main` with status 1.
pub data StartError : Type 0 where
  invalid_config : AgentConfigError → StartError
  not_minted no_watcher : StartError

-- No token where no secret is configured.
unfoldable pub token_for : Jwt → Time → Time → String → Result StartError String
unfolding mint_agent_token
token_for jwt expiring issued secret =
    if str_eq secret "" then ok "" else elim (mint_agent_token jwt expiring issued secret) [
      | none ↦ err not_minted
      | some token ↦ ok token
    ]

unfoldable pub loaded : Result AgentConfigError AgentConfig → Result StartError AgentConfig
loaded (ok cfg) = ok cfg
loaded (err e) = err (invalid_config e)

module _ (fl : Floats) where
  open fl use {F}

  -- What the agent finds: the texts of URLs, whether a watcher can be made, the log files, the
  -- float64 0.25 and 0.5, the random numbers, and the timers.
  pub record Surroundings : Type 0 where
    pub texts : Texts
    pub jwt : Jwt
    pub url_text : String → String
    pub watcher : Bool
    pub disk : Disk
    pub quarter : F
    pub half : F
    pub rand : ℕ → F
    pub timer : ℕ → Duration → Bool

  -- What runs: the collector that keeps a state (the registry is Agent/Tick), the two loops, the sender, and the log sender with its tailer.
  pub record AgentProcess : Type 0 where
    pub level : Level
    pub interval : Duration
    pub network : NetworkCollector
    pub agent : Agent F
    pub sender : HttpSender fl
    pub logs : Option (HttpSender fl × Tailer)

  module _ (s : Surroundings) where
    unfoldable pub metric_sender : AgentConfig → String → HttpSender fl
    unfolding new_http_sender with_token
    metric_sender cfg token = with_token fl token (
        new_http_sender fl (s.url_text cfg.server_url ++ "/api/v1/metrics")
          (record { base = cfg.backoff_base; max = cfg.backoff_max; jitter = s.quarter }) s.rand
          s.timer)

    unfoldable pub tail_logs :
        AgentConfig → String → List String → Result StartError (Option (HttpSender fl × Tailer))
    unfolding new_http_log_sender default_backoff new_tailer
    tail_logs cfg token [] = ok none
    tail_logs cfg token (p ∷ ps) =
        let sender =
          new_http_log_sender fl (s.url_text cfg.server_url ++ "/api/v1/logs") token
            (default_backoff fl s.quarter) s.half s.timer in
        if s.watcher
        then ok (some (sender, new_tailer s.disk (p ∷ ps) cfg.agent_host))
        else err no_watcher

    unfoldable pub start_agent :
        (String → String) → String → Time → Time → Result StartError AgentProcess
    unfolding loaded token_for metric_sender tail_logs slog_level new_network_collector new_agent
        bind
    start_agent env hostname expiring issued =
        bind (loaded (load_agent s.texts env hostname)) (λ cfg.
          bind (token_for s.jwt expiring issued cfg.agent_token) (λ token.
            bind (tail_logs cfg token cfg.log_paths) (λ logs. ok (record {
              level = slog_level cfg.log_level;
              interval = cfg.collect_interval;
              network = new_network_collector cfg.agent_host [];
              agent = new_agent F cfg.agent_host (pos 0);
              sender = metric_sender cfg token;
              logs = logs;
            }))))
