-- ===== src/System/Token.antt =====
-- The token of the agent at the server's middleware, and how long it is accepted.
use Prim.Native.String.{◌++◌}
use theminidog.Base.{
  ◌≡◌, refl, sym, ◌∙◌, ap, inl, inr, Bool, true, false, Option, none, some, List, [], ◌∷◌, String,
  Time, seconds, ◌+ℤ◌, ◌<ℤ◌, ◌≤ℤ◌, ℕ, pos, str_eq, lookup, if◌then◌else◌, Floats, Result, ok, err,
  bind_ok, ok-injective, subst, arith, Option-cases,
}
use theminidog.Config.{Texts}
use theminidog.Config.Agent.{AgentConfig, AgentConfigError, load_agent, server_url}
use theminidog.Agent.Sending.{
  headers, sleep_fn, HttpSender, with_token, new_http_sender, new_http_log_sender,
}
use theminidog.Agent.Process.{
  Claims, Jwt, claims_at, mint_agent_token, StartError, no_watcher, token_for, loaded, Surroundings,
  AgentProcess, metric_sender, tail_logs, start_agent,
}
use theminidog.Logtail.Tailer.{Tailer}
use theminidog.Api.Router.{authorized, strip_prefix}
use theminidog.Api.Router.Bearer.{strip-append}
use theminidog.System.Wire.{authorization}

-- What golang-jwt documents of a token with an expiry: it is a text that is not empty, and parses
-- under its secret before the expiry and not from then on.
pub record IsJwt (jwt : Jwt) : Type 0 where
  pub filled :
      (secret token : String) (c : Claims)
      → jwt.sign secret c ≡ some token
      → str_eq token "" ≡ false
  pub accepts :
      (secret token : String) (c : Claims) (now : Time)
      → jwt.sign secret c ≡ some token
      → now <ℤ c.expires_at
      → jwt.verify now secret token ≡ true
  pub refuses :
      (secret token : String) (c : Claims) (now : Time)
      → jwt.sign secret c ≡ some token
      → c.expires_at ≤ℤ now
      → jwt.verify now secret token ≡ false

module _ (jwt : Jwt) (law : IsJwt jwt) (expiring issued : Time) (secret token : String)
    (minted : mint_agent_token jwt expiring issued secret ≡ some token) where
  authorization_lem : authorization token ≡ "Bearer " ++ token
  unfolding authorization headers lookup mint_agent_token
  authorization_lem = ground (arith, law.filled secret token (claims_at jwt expiring issued) minted)

  authorized_lem :
      (now : Time)
      → authorized (jwt.verify now) secret (authorization token) ≡ jwt.verify now secret token
  unfolding authorized mint_agent_token
  authorized_lem now =
      let stripped : strip_prefix "Bearer " (authorization token) ≡ some token =
        ap (strip_prefix "Bearer ") authorization_lem ∙ strip-append "Bearer " token in
      ground (arith, stripped, law.filled secret token (claims_at jwt expiring issued) minted)

  pub minted_accepted :
      (now : Time)
      → now <ℤ jwt.numeric_date (expiring +ℤ seconds 86_400)
      → authorized (jwt.verify now) secret (authorization token) ≡ true
  unfolding mint_agent_token claims_at
  minted_accepted now early =
      authorized_lem now ∙ law.accepts secret token (claims_at jwt expiring issued) now minted early

  pub minted_refused :
      (now : Time)
      → jwt.numeric_date (expiring +ℤ seconds 86_400) ≤ℤ now
      → authorized (jwt.verify now) secret (authorization token) ≡ false
  unfolding mint_agent_token claims_at
  minted_refused now late =
      authorized_lem now ∙ law.refuses secret token (claims_at jwt expiring issued) now minted late

token_for-minted :
    (jwt : Jwt) (expiring issued : Time) (secret token : String)
    → str_eq secret "" ≡ false
    → token_for jwt expiring issued secret ≡ ok token
    → mint_agent_token jwt expiring issued secret ≡ some token
unfolding token_for mint_agent_token
token_for-minted jwt expiring issued secret token named e =
    elim (Option-cases (mint_agent_token jwt expiring issued secret)) [
      | inl failed ↦ absurd (ground (arith, failed, e))
      | inr (t, minted) ↦
          minted ∙ ap some (ok-injective {E = StartError} (ground (arith, minted, e)))
    ]

loaded-ok :
    (r : Result AgentConfigError AgentConfig) (cfg : AgentConfig) → loaded r ≡ ok cfg → r ≡ ok cfg
unfolding loaded
loaded-ok (ok c) cfg e = ap ok (ok-injective {E = StartError} e)
loaded-ok (err x) cfg e = absurd (ground arith)

load_agent-agent_token :
    (tx : Texts) (env : String → String) (hostname : String) (cfg : AgentConfig)
    → load_agent tx env hostname ≡ ok cfg
    → cfg.agent_token ≡ env "AGENT_TOKEN"
unfolding load_agent
load_agent-agent_token tx env hostname =
    bind_ok (λ cfg. cfg.agent_token ≡ env "AGENT_TOKEN") (server_url tx (env "SERVER_URL")) _
      (λ url u cfg e.
        sym (ap {A = AgentConfig} (λ c. c.agent_token) (ok-injective {E = AgentConfigError} e)))

if_ok :
    {A : Type 0} (x : StartError) (P : A → Type 0) (c : Bool) (a b : A)
    → (if c then ok a else err x) ≡ ok b
    → P a
    → P b
if_ok x P true a b e h = subst P (ok-injective {E = StartError} e) h
if_ok x P false a b e h = absurd (ground arith)

module _ (fl : Floats) (s : Surroundings fl) where
  -- A wait of no length never fails.
  abbrev pub SleepsNot : HttpSender fl → Type 0
  SleepsNot sender = (i : ℕ) → sender.sleep i (pos 0) ≡ true

  abbrev pub LogsHaveToken : String → Option (HttpSender fl × Tailer) → Type 0
  LogsHaveToken token none = Unit {0}
  LogsHaveToken token (some (sender, tailer)) = (sender.token ≡ token) × SleepsNot sender

  -- The sender, and the log sender where logs are tailed, have a token minted under the secret.
  abbrev pub IsArmed : String → Time → Time → AgentProcess fl → Type 0
  IsArmed secret expiring issued p =
      (mint_agent_token s.jwt expiring issued secret ≡ some p.sender.token)
      × SleepsNot p.sender
      × LogsHaveToken p.sender.token p.logs

  tail_logs-token :
      (cfg : AgentConfig) (token : String) (ps : List String)
      (logs : Option (HttpSender fl × Tailer))
      → tail_logs fl s cfg token ps ≡ ok logs
      → LogsHaveToken token logs
  unfolding tail_logs new_http_log_sender sleep_fn
  tail_logs-token cfg token [] logs e =
      subst (LogsHaveToken token) (ok-injective {E = StartError} e) tt
  tail_logs-token cfg token (p ∷ ps) logs e =
      if_ok no_watcher (LogsHaveToken token) s.watcher _ logs e (refl, λ i. refl)

  pub start_agent-IsArmed :
      (env : String → String) (hostname : String) (expiring issued : Time) (p : AgentProcess fl)
      → str_eq (env "AGENT_TOKEN") "" ≡ false
      → start_agent fl s env hostname expiring issued ≡ ok p
      → IsArmed (env "AGENT_TOKEN") expiring issued p
  unfolding start_agent metric_sender new_http_sender with_token sleep_fn
  start_agent-IsArmed env hostname expiring issued p named =
      let secret = env "AGENT_TOKEN" in
      let P : AgentProcess fl → Type 0 = IsArmed secret expiring issued in
      bind_ok P (loaded (load_agent s.texts env hostname)) _
        (λ cfg c.
          let same : cfg.agent_token ≡ secret =
            load_agent-agent_token s.texts env hostname cfg
              (loaded-ok (load_agent s.texts env hostname) cfg c) in
          bind_ok P (token_for s.jwt expiring issued cfg.agent_token) _ (λ token t.
            bind_ok P (tail_logs fl s cfg token cfg.log_paths) _ (λ logs l q e.
              subst P (ok-injective {E = StartError} e) (
                token_for-minted s.jwt expiring issued secret token named
                    (ap (token_for s.jwt expiring issued) (sym same) ∙ t),
                (λ i. refl),
                tail_logs-token cfg token cfg.log_paths logs l,
              ))))
        p
