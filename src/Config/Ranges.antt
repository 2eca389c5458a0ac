-- ===== src/Config/Ranges.antt =====
-- What a configuration that is accepted promises to the rest of the program.
use theminidog.Base.{
  byte_length, trim, split_commas, ◌≡◌, ◌≢◌, ◌≤◌, List, [], ◌∷◌, String, Duration, pos, seconds,
  ◌≤ℤ◌, ◌<ℤ◌, str_eq_iff, ok, bind, bind_ok, ok-injective, subst, arith, All,
}
use theminidog.Config.{Texts}
use theminidog.Config.Server.{
  ServerConfig, ServerConfigError, bad_stale_after, bad_down_after, parse_duration,
  parse_duration_strict, database_url, agent_token, load_server_config,
}
use theminidog.Config.Agent.{
  AgentConfig, collect_interval, load_agent, log_paths, paths_of, server_url,
}

-- A token of 16 bytes or more, timeouts in their ranges, and positive thresholds.
pub record IsSafe (c : ServerConfig) : Type 0 where
  pub token : 16 ≤ byte_length c.agent_token
  pub request_low : seconds 1 ≤ℤ c.request_timeout
  pub request_high : c.request_timeout ≤ℤ seconds 120
  pub shutdown_low : seconds 1 ≤ℤ c.shutdown_timeout
  pub shutdown_high : c.shutdown_timeout ≤ℤ seconds 30
  pub stale : pos 0 <ℤ c.host_stale_after
  pub down : pos 0 <ℤ c.host_down_after

-- The interval and the paths of the agent.
pub record IsUsable (c : AgentConfig) : Type 0 where
  pub interval_low : seconds 1 ≤ℤ c.collect_interval
  pub interval_high : c.collect_interval ≤ℤ seconds 300
  pub paths : All (λ p. p ≢ "") c.log_paths

token_long : (raw token : String) → agent_token raw ≡ ok token → 16 ≤ byte_length token
unfolding agent_token
token_long raw token h = ground arith

paths_of-Nonempty : (ps : List String) → All (λ p. p ≢ "") (paths_of ps)
unfolding paths_of
paths_of-Nonempty [] = tt
paths_of-Nonempty (p ∷ ps) = ground (arith, str_eq_iff (trim p) "", paths_of-Nonempty ps)

log_paths-Nonempty : (raw : String) → All (λ p. p ≢ "") (log_paths raw)
unfolding log_paths
log_paths-Nonempty raw = ground (arith, paths_of-Nonempty (split_commas raw))

module _ (tx : Texts) where
  parse_duration_range :
      (raw : String) (default min max : Duration)
      → min ≤ℤ default
      → default ≤ℤ max
      → (min ≤ℤ parse_duration tx raw default min max)
        × (parse_duration tx raw default min max ≤ℤ max)
  unfolding parse_duration
  parse_duration_range raw default min max l h = ground arith

  strict_positive :
      (e : ServerConfigError) (raw : String) (default d : Duration)
      → pos 0 <ℤ default
      → parse_duration_strict tx e raw default ≡ ok d
      → pos 0 <ℤ d
  unfolding parse_duration_strict
  strict_positive e raw default d l h = ground arith

  -- A server configuration that is accepted has a token of at least 16 bytes, a request timeout
  -- from 1 to 120 seconds, a shutdown timeout from 1 to 30 seconds, and positive thresholds for
  -- stale and down hosts.
  pub load_server_config-IsSafe :
      (env : String → String) (c : ServerConfig) → load_server_config tx env ≡ ok c → IsSafe c
  unfolding load_server_config
  load_server_config-IsSafe env = bind_ok IsSafe (database_url tx (env "DATABASE_URL")) _ (λ url u.
      bind_ok IsSafe (agent_token (env "AGENT_TOKEN")) _ (λ token t.
        bind_ok IsSafe
          (parse_duration_strict tx bad_stale_after (env "HOST_STALE_AFTER") (seconds 20)) _
          (λ stale s.
            bind_ok IsSafe
              (parse_duration_strict tx bad_down_after (env "HOST_DOWN_AFTER") (seconds 50)) _
              (λ down d c e.
                let (rl, rh) =
                  parse_duration_range (env "REQUEST_TIMEOUT") (seconds 10) (seconds 1)
                    (seconds 120) (omega arith) (omega arith) in
                let (sl, sh) =
                  parse_duration_range (env "SHUTDOWN_TIMEOUT") (seconds 5) (seconds 1) (seconds 30)
                    (omega arith) (omega arith) in
                subst IsSafe (ok-injective e) (record {
                  token = token_long (env "AGENT_TOKEN") token t;
                  request_low = rl;
                  request_high = rh;
                  shutdown_low = sl;
                  shutdown_high = sh;
                  stale =
                      strict_positive bad_stale_after (env "HOST_STALE_AFTER") (seconds 20) stale
                        (omega arith) s;
                  down =
                      strict_positive bad_down_after (env "HOST_DOWN_AFTER") (seconds 50) down
                        (omega arith) d;
                })))))

  interval_range :
      (raw : String)
      → (seconds 1 ≤ℤ collect_interval tx raw) × (collect_interval tx raw ≤ℤ seconds 300)
  unfolding collect_interval
  interval_range raw = ground arith

  -- An agent configuration that is accepted has a collection interval from 1 to 300 seconds, and
  -- no empty log path.
  pub load_agent-IsUsable :
      (env : String → String) (hostname : String) (c : AgentConfig)
      → load_agent tx env hostname ≡ ok c
      → IsUsable c
  unfolding load_agent bind
  load_agent-IsUsable env hostname =
      bind_ok IsUsable (server_url tx (env "SERVER_URL")) _ (λ url u c e.
        let (low, high) = interval_range (env "COLLECT_INTERVAL") in
        subst IsUsable (ok-injective e) (record {
          interval_low = low;
          interval_high = high;
          paths = log_paths-Nonempty (env "LOG_PATHS");
        }))
