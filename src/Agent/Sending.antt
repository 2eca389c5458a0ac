-- ===== src/Agent/Sending.antt =====
-- internal/agent/sender/sender.go and internal/agent/logtail/sender.go: the loop of attempts. Both
-- send the same way but for the waits. `sleep i d` says whether the wait before the i-th attempt
-- ends before the context is cancelled, `post i` is the reply to it. The loop of the source has no
-- bound; here it runs on fuel.
use theminidog.Base.{
  ℕ, zero, suc, ◌+◌, ◌≤◌, ◌<◌, ◌≡◌, Bool, true, false, ◌&&◌, Option, none, some, [], ◌∷◌, String,
  Duration, Floats, leb, leb_ℤ, pos, ltb, if◌then◌else◌, arith, Map, str_eq, subst,
}
use Prim.Native.String.{◌++◌ as text_append}
use theminidog.Agent.Backoff.{BackoffConfig, wait_for, log_wait_for}

pub data Reply : Type 0 where
  no_reply : Reply
  status : ℕ → Reply

pub data Outcome : Type 0 where
  delivered cancelled not_marshalled not_built : Outcome
  rejected : ℕ → Outcome
  -- the fuel ends here; the source goes on
  still_trying : Outcome

-- The end that a reply makes, `none` where the loop goes on.
unfoldable pub final : Reply → Option Outcome
final no_reply = none
final (status s) =
    if leb 200 s && ltb s 300
    then some delivered
    else if leb 400 s && ltb s 500
    then some (rejected s)
    else none

-- The headers of a request.
unfoldable pub headers : String → Map String
headers token =
    ("Content-Type", "application/json")
    ∷ (if str_eq token "" then [] else ("Authorization", text_append "Bearer " token) ∷ [])

module _ (wait : ℕ → Duration) (sleep : ℕ → Duration → Bool) (post : ℕ → Reply) where
  -- The outcome, and the number of the attempt that it comes from.
  unfoldable pub attempt_from : ℕ → ℕ → Outcome × ℕ
  unfolding final
  attempt_from zero i = (still_trying, i)
  attempt_from (suc fuel) i =
      let later = attempt_from fuel (suc i) in
      if sleep i (wait i)
      then elim (final (post i)) [ some o ↦ (o, i) | none ↦ later ]
      else (cancelled, i)

  -- An attempt that the loop passes.
  pub record IsRetried (i : ℕ) : Type 0 where
    pub slept : sleep i (wait i) ≡ true
    pub again : final (post i) ≡ none

  attempt_from-ends :
      (fuel k i : ℕ)
      → k < fuel
      → ((j : ℕ) → i ≤ j → j < i + k → IsRetried j)
      → ((o : Outcome)
          → sleep (i + k) (wait (i + k)) ≡ true
          → final (post (i + k)) ≡ some o
          → attempt_from fuel i ≡ (o, i + k))
        × (sleep (i + k) (wait (i + k)) ≡ false → attempt_from fuel i ≡ (cancelled, i + k))
  unfolding attempt_from
  attempt_from-ends zero k i h before = absurd (omega arith)
  attempt_from-ends (suc fuel) zero i h before =
      let here : i + 0 ≡ i = omega arith in
      rw here ((λ o s f. ground (arith, s, f)), (λ s. ground (arith, s)))
  attempt_from-ends (suc fuel) (suc k) i h before =
      let passed = before i (omega arith) (omega arith) in
      let there : i + suc k ≡ suc i + k = omega arith in
      let (ends, stops) =
        attempt_from-ends fuel k (suc i) (omega arith)
          (λ j l u. before j (omega arith) (omega arith)) in
      rw there (
        (λ o s f. ground (arith, passed.slept, passed.again, ends o s f)),
        (λ s. ground (arith, passed.slept, passed.again, stops s)),
      )

  attempt_decided :
      (fuel k : ℕ) (o : Outcome)
      → k < fuel
      → ((j : ℕ) → j < k → IsRetried j)
      → sleep k (wait k) ≡ true
      → final (post k) ≡ some o
      → attempt_from fuel 0 ≡ (o, k)
  attempt_decided fuel k o enough before =
      let z : 0 + k ≡ k = omega arith in
      let ends = (attempt_from-ends fuel k 0 enough (λ j l u. before j (omega arith))).0 o in
      subst (λ t. sleep t (wait t) ≡ true → final (post t) ≡ some o → attempt_from fuel 0 ≡ (o, t))
        z ends

module _ (fl : Floats) where
  open fl use {F}

  pub record HttpSender : Type 0 where
    pub url : String
    pub token : String
    pub backoff : BackoffConfig F
    pub rand : ℕ → F
    pub sleep : ℕ → Duration → Bool

  -- The function `sleepFn` of both senders: `timer i d` says whether the timer of the i-th wait
  -- ends before the context is cancelled.
  unfoldable pub sleep_fn : (ℕ → Duration → Bool) → ℕ → Duration → Bool
  sleep_fn timer i d = if leb_ℤ d (pos 0) then true else timer i d

  unfoldable pub new_http_sender :
      String → BackoffConfig F → (ℕ → F) → (ℕ → Duration → Bool) → HttpSender
  unfolding sleep_fn
  new_http_sender url cfg rand timer = record {
    url = url;
    token = "";
    backoff = cfg;
    rand = rand;
    sleep = sleep_fn timer;
  }

  unfoldable pub with_token : String → HttpSender → HttpSender
  with_token token s = record s { token = token }

  -- The random function of the log sender is constant; `half` is the float64 0.5.
  unfoldable pub new_http_log_sender :
      String → String → BackoffConfig F → F → (ℕ → Duration → Bool) → HttpSender
  unfolding sleep_fn
  new_http_log_sender url token cfg half timer = record {
    url = url;
    token = token;
    backoff = cfg;
    rand = λ i. half;
    sleep = sleep_fn timer;
  }

  -- `marshalled` says whether the batch has a JSON text, `built` whether the URL makes a request.
  unfoldable pub send : HttpSender → Bool → Bool → (ℕ → Reply) → ℕ → Outcome × ℕ
  unfolding attempt_from
  send s false built post fuel = (not_marshalled, 0)
  send s true false post fuel =
      if s.sleep 0 (wait_for fl 0 s.backoff (s.rand 0)) then (not_built, 0) else (cancelled, 0)
  send s true true post fuel =
      attempt_from (λ i. wait_for fl i s.backoff (s.rand i)) s.sleep post fuel 0

  unfoldable pub send_logs : HttpSender → Bool → Bool → (ℕ → Reply) → ℕ → Outcome × ℕ
  unfolding attempt_from
  send_logs s false built post fuel = (not_marshalled, 0)
  send_logs s true false post fuel =
      if s.sleep 0 (log_wait_for fl 0 s.backoff (s.rand 0)) then (not_built, 0) else (cancelled, 0)
  send_logs s true true post fuel =
      attempt_from (λ i. log_wait_for fl i s.backoff (s.rand i)) s.sleep post fuel 0

  module _ (s : HttpSender) (post : ℕ → Reply) (k fuel : ℕ) (o : Outcome) where
    -- Where the waits before the attempts up to the k-th are not cancelled, the replies before the
    -- k-th are errors of transport or statuses other than 2xx and 4xx, and the k-th is one of
    -- these, `Send` ends with it after exactly k + 1 attempts, for every fuel above k.
    pub send_decided :
        ((j : ℕ) → j < k → IsRetried (λ i. wait_for fl i s.backoff (s.rand i)) s.sleep post j)
        → s.sleep k (wait_for fl k s.backoff (s.rand k)) ≡ true
        → final (post k) ≡ some o
        → k < fuel
        → send s true true post fuel ≡ (o, k)
    unfolding send
    send_decided before slept ended enough =
        attempt_decided (λ i. wait_for fl i s.backoff (s.rand i)) s.sleep post fuel k o enough
          before slept ended

    -- The same holds of `SendLogs` with its own waits: the first reply of status 2xx or 4xx ends
    -- it, after exactly k + 1 attempts, for every fuel above k.
    pub send_logs_decided :
        ((j : ℕ) → j < k → IsRetried (λ i. log_wait_for fl i s.backoff (s.rand i)) s.sleep post j)
        → s.sleep k (log_wait_for fl k s.backoff (s.rand k)) ≡ true
        → final (post k) ≡ some o
        → k < fuel
        → send_logs s true true post fuel ≡ (o, k)
    unfolding send_logs
    send_logs_decided before slept ended enough =
        attempt_decided (λ i. log_wait_for fl i s.backoff (s.rand i)) s.sleep post fuel k o enough
          before slept ended
