-- ===== src/Tests/Running.antt =====
-- cmd/server and cmd/agent: witnesses and tests.
use theminidog.Base.{
  ◌≡◌, ℕ, refl, inl, inr, Bool, true, false, not, Option, none, some, List, [], ◌∷◌, String,
  seconds, str_eq, ok, if◌then◌else◌, lookup,
}
use theminidog.Storage.Metrics.{refused}
use theminidog.Storage.Logs as Logs
use theminidog.Storage.Hosts.{new_host_tracker, heartbeat, scan}
use theminidog.Alerting.Notifications.{parse_notifications}
use theminidog.Api.Responses.{empty}
use theminidog.Api.Router.{serve}
use theminidog.Config.Server.{load_server_config}
use theminidog.Server.Start.{Server, Libraries, start_server, migrate_url, no_change, not_run}
use theminidog.Config.Levels.{info}
use theminidog.Server.Started.{IsStarted, start_server-IsStarted}
use theminidog.Server.Process.{World, Event, request, tracker_tick, stop, run, launch}
use theminidog.Storage.Hosts.{status}
use theminidog.Server.LastSeen.{status_by, last_time, accepted_log, run-status}
use theminidog.Server.Origin.{IsPosted, run-origin}
use theminidog.Base.{ltb_ℤ, leb_ℤ, ◌&&◌, str_eq_iff, pos, arith, Time, codes, suc, zero, ◌<◌}
use theminidog.Logtail.Tailer.{Disk, new_tailer}
use theminidog.Agent.Process.{Jwt, Surroundings, AgentProcess, start_agent}
use theminidog.Agent.Sending.{HttpSender, Reply, send, send_logs, delivered}
use theminidog.System.Token.{IsJwt}
use theminidog.Agent.Backoff.{wait_for}
use theminidog.System.Wire.{metrics_request, logs_request, reply_of}
use theminidog.System.Delivery.{IsLost, agent_delivers, agent_expires}
use theminidog.Config.Agent.{load_agent}
use theminidog.Tests.Numbers.{numbers}
use theminidog.Tests.Configs.{texts}
use theminidog.Tests.Http.{http_code, post, backend, two_metrics, tracker}
use theminidog.Agent.Network.{new_network_collector}
use theminidog.Agent.Loops.{new_agent}
use theminidog.Api.Router.{Backend}
use theminidog.Api.Responses.{ingested}
use theminidog.Agent.Sending.{sleep_fn}

run_code : Unit {0}
unfolding http_code start_server load_server_config parse_notifications migrate_url run launch scan
    theminidog.Api.Router.route theminidog.Base.is_blank theminidog.Model.Metric.validate_metric
    theminidog.Base.contains theminidog.Model.Metric.has_empty_label
    theminidog.Storage.Metrics.insert theminidog.Storage.Batch.exec_from theminidog.Base.insert
    theminidog.Base.sub theminidog.Base.◌-ℤ◌ lookup theminidog.Base.delete
run_code = tt

abbrev libraries : Libraries ℕ
libraries = record {
  texts = texts;
  migrates = λ path url. if str_eq url "postgres" then no_change else not_run;
  connects = λ url. true;
  decode_rules = λ s. none;
  decode_notifications = λ s. none;
}

abbrev env : String → String
env k =
    if str_eq k "DATABASE_URL"
    then "postgres"
    else if str_eq k "AGENT_TOKEN"
    then "a-long-secret-16"
    else ""

abbrev pub server : Server ℕ
server = record {
  level = info;
  listen_addr = ":8080";
  secret = "a-long-secret-16";
  request_timeout = seconds 10;
  shutdown_timeout = seconds 5;
  evaluator = none;
  tracker = some (new_host_tracker (seconds 20) (seconds 50));
  dash = true;
}

server_starts : start_server libraries env ≡ ok server
unfolding run_code theminidog.Base.byte_length theminidog.Base.lowers_to
server_starts = refl

start_server-IsStarted_example : IsStarted libraries server
start_server-IsStarted_example = start_server-IsStarted libraries env server server_starts

abbrev world : World ℕ
world = record {
  exec_metrics = λ b i. true;
  exec_logs = λ b i. true;
  select_metrics = λ s. refused;
  select_logs = λ s. Logs.refused;
  select_hosts = λ t. refused;
  ping = true;
  parse_time = λ s. none;
  now = seconds 7;
  verify = str_eq;
  unrouted = λ r. record { status = 404; body = empty };
}

abbrev events : List (Event ℕ)
events =
    request world (post "Bearer guess")
    ∷ request world (post "Bearer a-long-secret-16")
    ∷ tracker_tick (seconds 100)
    ∷ stop
    ∷ tracker_tick (seconds 200)
    ∷ []

run-origin_example : IsPosted numbers server "web-1" events
unfolding run_code
run-origin_example =
    run-origin numbers server "web-1" libraries env events server_starts (inr (inl refl))

-- Tokens that expire at one time: the token is the secret.
abbrev jwt : Jwt
jwt = record {
  numeric_date = λ t. t;
  sign = λ secret c.
      if leb_ℤ c.expires_at (seconds 86_405)
        && leb_ℤ (seconds 86_405) c.expires_at
        && not (str_eq secret "")
      then some secret
      else none;
  verify = λ now secret token. str_eq secret token && ltb_ℤ now (seconds 86_405);
}

jwt-IsJwt : IsJwt jwt
jwt-IsJwt = record {
  filled = λ secret token c e. ground arith;
  accepts = λ secret token c now e h. ground (arith, str_eq_iff secret token);
  refuses = λ secret token c now e h. ground arith;
}

abbrev agent_env : String → String
agent_env k =
    if str_eq k "SERVER_URL"
    then "http"
    else if str_eq k "AGENT_TOKEN"
    then "a-long-secret-16"
    else if str_eq k "LOG_PATHS"
    then "app.log"
    else ""

abbrev no_files : Disk
no_files = record {
  open_file = λ p. none;
  size = λ f. none;
  seekable = λ f n. false;
  tail = λ f n. [];
  watchable = λ p. false;
}

abbrev surroundings : Surroundings numbers
surroundings = record {
  texts = texts;
  jwt = jwt;
  url_text = λ u. u;
  watcher = true;
  disk = no_files;
  quarter = 0;
  half = 0;
  rand = λ i. 0;
  timer = λ i d. true;
}

abbrev sender_to : String → HttpSender numbers
sender_to url = record {
  url = url;
  token = "a-long-secret-16";
  backoff = record { base = seconds 1; max = seconds 60; jitter = 0 };
  rand = λ i. 0;
  sleep = sleep_fn numbers (λ i d. true);
}

abbrev agent_process : AgentProcess numbers
agent_process = record {
  level = info;
  interval = seconds 10;
  network = new_network_collector "web-1" [];
  agent = new_agent ℕ "web-1" (pos 0);
  sender = sender_to "http/api/v1/metrics";
  logs = some (sender_to "http/api/v1/logs", new_tailer no_files ("app.log" ∷ []) "web-1");
}

agent_starts :
    start_agent numbers surroundings agent_env "web-1" (seconds 5) (seconds 5) ≡ ok agent_process
unfolding run_code start_agent load_agent theminidog.Base.◌+ℤ◌ theminidog.Base.split_commas
    theminidog.Base.trim
agent_starts = refl

abbrev at : Time → Backend ℕ
at now = record backend { now = now; verify = jwt.verify now }

abbrev first_post : Time → ℕ → Reply
first_post now j =
    reply_of
      (serve numbers (at now) (metrics_request "a-long-secret-16" (some two_metrics)) tracker).0

agent_delivers_example :
    (send numbers (sender_to "http/api/v1/metrics") true true (first_post (seconds 7)) 3
      ≡ (delivered, 0))
    × (serve numbers
          (at (seconds 7))
          (metrics_request "a-long-secret-16" (some two_metrics))
          tracker
        ≡ (record { status = 202; body = ingested 2 }, heartbeat (seconds 7) "web-1" tracker))
unfolding run_code sleep_fn theminidog.Base.◌+ℤ◌ wait_for
agent_delivers_example =
    agent_delivers numbers surroundings jwt-IsJwt agent_env "web-1" (seconds 5) (seconds 5)
      agent_process refl agent_starts (at (seconds 7))
      (record { secret_eq = refl; verify_eq = refl }) (first_post (seconds 7)) tracker two_metrics 0
      3 (omega arith) (omega arith, omega arith, refl) (λ i l. refl) (λ j l. absurd (omega arith))
      refl refl (omega arith)

agent_expires_example :
    IsLost numbers tracker
      (first_post (seconds 90_000))
      (serve numbers
        (at (seconds 90_000))
        (metrics_request "a-long-secret-16" (some two_metrics))
        tracker)
      (send numbers (sender_to "http/api/v1/metrics") true true (first_post (seconds 90_000)) 3)
    × IsLost numbers tracker
        (first_post (seconds 90_000))
        (serve numbers (at (seconds 90_000)) (logs_request "a-long-secret-16" none) tracker)
        (send_logs numbers (sender_to "http/api/v1/logs") true true (first_post (seconds 90_000)) 3)
unfolding theminidog.Base.◌+ℤ◌
agent_expires_example =
    agent_expires numbers surroundings jwt-IsJwt agent_env "web-1" (seconds 5) (seconds 5)
      agent_process refl agent_starts (at (seconds 90_000))
      (record { secret_eq = refl; verify_eq = refl }) (first_post (seconds 90_000)) tracker
      (some two_metrics) none 2 (omega arith)

run-status_example :
    status (seconds 30) "web-1" (run numbers server (launch server) events).0.tracker
    ≡ status_by
        (seconds 20)
        (seconds 50)
        (seconds 30)
        "web-1"
        (last_time "web-1" (accepted_log numbers server (launch server) events) none)
run-status_example =
    run-status numbers server (seconds 20) (seconds 50) "web-1" refl events (seconds 30) refl

log_test : accepted_log numbers server (launch server) events ≡ (seconds 7, "web-1") ∷ []
unfolding run_code accepted_log
log_test = refl
