-- ===== src/System/Delivery.antt =====
-- What becomes of the agent's batches at the server.
use theminidog.Base.{
  ℕ, suc, ◌<◌, ◌≡◌, ap, ◌∙◌, inl, inr, true, false, Option, none, some, String, Time, seconds, ◌+ℤ◌,
  ◌<ℤ◌, ◌≤ℤ◌, str_eq, Floats, ok, length, map, arith,
}
use theminidog.Model.Metric.{MetricBatch}
use theminidog.Model.Log.{LogBatch}
use theminidog.Storage.Hosts.{HostTracker, heartbeat}
use theminidog.Storage.Metrics.{queue}
use theminidog.Logtail.Tailer.{Tailer}
use theminidog.Agent.Backoff.{wait_for, log_wait_for}
use theminidog.Agent.Sending.{
  Outcome, Reply, delivered, rejected, final, IsRetried, HttpSender, send, send_logs, send_decided,
  send_logs_decided,
}
use theminidog.Agent.Process.{Surroundings, AgentProcess, start_agent}
use theminidog.Api.Responses.{error, unauthorized, ingested, Response}
use theminidog.Api.Ingest.{handle_ingest}
use theminidog.Api.Ingest.Outcomes.{IsGood, handle_ingest_lem}
use theminidog.Api.Router.{Backend, authorized, route, protect, dispatch, serve}
use theminidog.Api.Router.Access.{post_metrics, post_logs, serve_denied}
use theminidog.System.Wire.{authorization, metrics_request, logs_request, reply_of}
use theminidog.System.Token.{
  IsJwt, LogsHaveToken, start_agent-IsArmed, minted_accepted, minted_refused,
}

module _ (fl : Floats) where
  open fl use {F}

  serve_post :
      (b : Backend F) (token : String) (batch : MetricBatch F) (t : Option HostTracker)
      → authorized b.verify b.secret (authorization token) ≡ true
      → serve fl b (metrics_request token (some batch)) t
        ≡ handle_ingest fl b.exec_metrics b.now t (some batch)
  unfolding serve route dispatch protect metrics_request
  serve_post b token batch t e = ground (arith, e)

  -- The server's secret is the agent's, and it verifies tokens at its own time.
  pub record Shares (s : Surroundings fl) (secret : String) (b : Backend F) : Type 0 where
    pub secret_eq : b.secret ≡ secret
    pub verify_eq : b.verify ≡ s.jwt.verify b.now

  -- The request is answered 401 and changes nothing; and where its answer is the first reply, the
  -- sender gives up with it.
  abbrev pub IsLost :
      Option HostTracker → (ℕ → Reply) → Response F × Option HostTracker → Outcome × ℕ → Type 0
  IsLost t post out sent =
      (out ≡ (record { status = 401; body = error unauthorized }, t))
      × (post 0 ≡ reply_of out.0 → sent ≡ (rejected 401, 0))

  -- A batch of logs is lost, where the agent has a sender for them.
  abbrev pub AreLogsLost :
      Backend F
      → Option HostTracker
      → (ℕ → Reply)
      → Option LogBatch
      → ℕ
      → Option (HttpSender fl × Tailer)
      → Type 0
  AreLogsLost b t post logs fuel none = Unit {0}
  AreLogsLost b t post logs fuel (some (sender, tailer)) =
      IsLost t post (serve fl b (logs_request sender.token logs) t)
        (send_logs fl sender true true post (suc fuel))

  module _ (s : Surroundings fl) (law : IsJwt s.jwt) (env : String → String) (hostname : String)
      (expiring issued : Time) (p : AgentProcess fl) (named : str_eq (env "AGENT_TOKEN") "" ≡ false)
      (started : start_agent fl s env hostname expiring issued ≡ ok p) (b : Backend F)
      (shares : Shares s (env "AGENT_TOKEN") b) (post : ℕ → Reply) (t : Option HostTracker) where
    abbrev expiry : Time
    expiry = s.jwt.numeric_date (expiring +ℤ seconds 86_400)

    early : b.now <ℤ expiry → authorized b.verify b.secret (authorization p.sender.token) ≡ true
    early h =
        let armed = start_agent-IsArmed fl s env hostname expiring issued p named started in
        rw (shares.secret_eq, shares.verify_eq)
          (minted_accepted s.jwt law expiring issued (env "AGENT_TOKEN") p.sender.token armed.0
            b.now h)

    late : expiry ≤ℤ b.now → authorized b.verify b.secret (authorization p.sender.token) ≡ false
    late h =
        let armed = start_agent-IsArmed fl s env hostname expiring issued p named started in
        rw (shares.secret_eq, shares.verify_eq)
          (minted_refused s.jwt law expiring issued (env "AGENT_TOKEN") p.sender.token armed.0 b.now
            h)

    -- For golang-jwt as it documents the expiry of a token, an agent that was started with a
    -- secret and a server with the same secret, before the expiry, which NewNumericDate makes of
    -- the time a day after the token was minted: where the k-th attempt to send an acceptable
    -- batch reaches the server, the attempts before it end in errors of transport or in statuses
    -- other than 2xx and 4xx, no wait is cancelled, and every statement of the insertion succeeds,
    -- Send ends with the batch delivered, and the server answers 202 and has a heartbeat of the
    -- host.
    pub agent_delivers :
        (batch : MetricBatch F) (k fuel : ℕ)
        → b.now <ℤ expiry
        → IsGood fl batch
        → ((i : ℕ) → i < length batch.metrics → b.exec_metrics (map queue batch.metrics) i ≡ true)
        → ((j : ℕ)
            → j < k
            → IsRetried
                (λ i. wait_for fl i p.sender.backoff (p.sender.rand i))
                p.sender.sleep
                post
                j)
        → p.sender.sleep k (wait_for fl k p.sender.backoff (p.sender.rand k)) ≡ true
        → post k ≡ reply_of (serve fl b (metrics_request p.sender.token (some batch)) t).0
        → k < fuel
        → (send fl p.sender true true post fuel ≡ (delivered, k))
          × (serve fl b (metrics_request p.sender.token (some batch)) t ≡ (
            record { status = 202; body = ingested (length batch.metrics) },
            heartbeat b.now batch.host t,
          ))
    unfolding final
    agent_delivers batch k fuel h good stored before slept reached enough =
        let handled = serve_post b p.sender.token batch t (early h) in
        let answer : serve fl b (metrics_request p.sender.token (some batch)) t ≡ (
          record { status = 202; body = ingested (length batch.metrics) },
          heartbeat b.now batch.host t,
        ) =
          handled ∙ elim (handle_ingest_lem fl b.exec_metrics b.now t batch good) [
            | inl (all, answered) ↦ answered
            | inr (i, l, failed, answered) ↦ absurd (ground (arith, stored i l, failed))
          ] in
        (
          send_decided fl p.sender post k fuel delivered before slept
              (ap final (reached ∙ ap (λ o. reply_of o.0) answer)) enough,
          answer,
        )

    logs_lost :
        (carried_logs : Option LogBatch) (fuel : ℕ) (logs : Option (HttpSender fl × Tailer))
        → expiry ≤ℤ b.now
        → LogsHaveToken fl s p.sender.token logs
        → AreLogsLost b t post carried_logs fuel logs
    unfolding final logs_request log_wait_for
    logs_lost carried_logs fuel none h armed = tt
    logs_lost carried_logs fuel (some (sender, tailer)) h armed =
        let refused =
          serve_denied fl b (logs_request sender.token carried_logs) t post_logs
            (rw (armed.0) (late h)) in
        (
          refused,
          λ r.
              send_logs_decided fl sender post 0 (suc fuel) (rejected 401)
                (λ j l. absurd (omega (arith, l))) (armed.1 0)
                (ap final (r ∙ ap (λ o. reply_of o.0) refused)) (omega arith),
        )

    -- For golang-jwt as it documents the expiry of a token, an agent that was started with a
    -- secret and a server with the same secret, from the expiry on, which NewNumericDate makes of
    -- the time a day after the token was minted: whatever the batch of metrics, where the first
    -- attempt reaches the server, it is answered 401, which leaves the tracker as it was, and the
    -- sender discards the batch at once; and so whatever the batch of logs, where the agent tails
    -- files.
    pub agent_expires :
        (carried : Option (MetricBatch F)) (carried_logs : Option LogBatch) (fuel : ℕ)
        → expiry ≤ℤ b.now
        → IsLost t post
            (serve fl b (metrics_request p.sender.token carried) t)
            (send fl p.sender true true post (suc fuel))
          × AreLogsLost b t post carried_logs fuel p.logs
    unfolding final metrics_request wait_for
    agent_expires carried carried_logs fuel h =
        let armed = start_agent-IsArmed fl s env hostname expiring issued p named started in
        let refused =
          serve_denied fl b (metrics_request p.sender.token carried) t post_metrics (late h) in
        (
          (
            refused,
            λ r.
                send_decided fl p.sender post 0 (suc fuel) (rejected 401)
                  (λ j l. absurd (omega (arith, l))) (armed.1 0)
                  (ap final (r ∙ ap (λ o. reply_of o.0) refused)) (omega arith),
          ),
          logs_lost carried_logs fuel p.logs h armed.2,
        )
