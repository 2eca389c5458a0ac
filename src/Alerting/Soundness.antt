-- ===== src/Alerting/Soundness.antt =====
-- Where the notifications and the recorded alerts come from.
use theminidog.Base.{◌≡◌, some, List, ◌∷◌, String, Time, lookup, Floats, ◌⊎◌, All}
use mathlib.Core.List.{Memᴰ}
use theminidog.Storage.Metrics.{QueryPoint}
use theminidog.Alerting.Rules.{Rule, rule_key}
use theminidog.Alerting.Evaluator.{
  AlertState, firing, ok, EventName, fired, resolved, Alert, NotificationEvent, Evaluator,
  MetricQuerier, hosts_for, mean, state_for, params_for,
}

module _ (fl : Floats) (repo : MetricQuerier fl.F) (now : Time) where
  open fl use {F}

  -- The store answered the query of a rule for its host with data whose mean is a value.
  pub record IsMeasured (rule : Rule F) (value : F) : Type 0 where
    pub first : QueryPoint F
    pub others : List (QueryPoint F)
    pub answer : repo.query (params_for fl now rule rule.host) ≡ some (first ∷ others)
    pub averaged : value ≡ mean fl (first ∷ others)

  abbrev pub state_of_event : EventName → AlertState
  state_of_event fired = firing
  state_of_event resolved = ok

  pub record IsSoundEvent (ev : NotificationEvent F) : Type 0 where
    pub measured : IsMeasured ev.rule ev.value
    pub state_eq : state_for fl ev.rule ev.value ≡ state_of_event ev.event
    pub time_eq : ev.fired_at ≡ now

  -- The alert is the outcome of this evaluation.
  pub record IsFresh (k : String) (a : Alert F) : Type 0 where
    pub measured : IsMeasured a.rule a.value
    pub state_eq : a.state ≡ state_for fl a.rule a.value
    pub time_eq : a.updated_at ≡ now
    pub key_eq : k ≡ rule_key fl a.rule.host a.rule.name a.rule.op a.rule.threshold

  module _ (Q : Rule F → Type 0) where
    abbrev Sound : List (NotificationEvent F) → Type 0
    Sound = All λ ev. IsSoundEvent ev × Q ev.rule

    abbrev Keeps : Evaluator F → Evaluator F → Type 0
    Keeps e e' =
        (k : String)
        → (lookup k e'.state ≡ lookup k e.state)
          ⊎ ((a : Alert F) × (lookup k e'.state ≡ some a) × IsFresh k a × Q a.rule)

  -- A configured rule at one of the hosts that it stands for.
  pub record IsConfigured (rules : List (Rule F)) (r : Rule F) : Type 0 where
    pub rule : Rule F
    pub listed : Memᴰ rule rules
    pub covered : Memᴰ r.host (hosts_for repo rule)
    pub same : r ≡ record rule { host = r.host }
