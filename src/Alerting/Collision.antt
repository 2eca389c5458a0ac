-- ===== src/Alerting/Collision.antt =====
-- Which rule decides an alert.
use theminidog.Base.{
  ◌≡◌, ◌≢◌, refl, sym, ◌∙◌, Option, none, some, List, [], ◌∷◌, ◌++◌, String, Time, lookup,
  lookup-insert, str_eq_iff, Floats, arith, All, subst,
}
use theminidog.Storage.Metrics.{QueryPoint}
use theminidog.Alerting.Rules.{Rule, rule_key}
use theminidog.Alerting.Evaluator.{
  Alert, Evaluator, MetricQuerier, hosts_for, mean, state_for, params_for, update, on_points,
  evaluate_hosts, evaluate_rules, evaluate,
}

module _ (fl : Floats) where
  open fl use {F}

  abbrev pub key_at : Rule F → String → String
  key_at r h = rule_key fl h r.name r.op r.threshold

  -- The alert that a rule records at a host for a mean.
  abbrev pub outcome : Time → Rule F → String → F → Alert F
  outcome now rule host m = record {
    rule = record rule { host = host };
    state = state_for fl rule m;
    updated_at = now;
    value = m;
  }

  module _ (repo : MetricQuerier F) (now : Time) (k : String) where
    -- The rule writes no alert under the key.
    abbrev pub Elsewhere : Rule F → Type 0
    Elsewhere r = All (λ h. key_at r h ≢ k) (hosts_for repo r)

    on_points_other :
        (r : Rule F) (h : String) (o : Option (List (QueryPoint F))) (e : Evaluator F)
        → key_at r h ≢ k
        → lookup k (on_points fl now r h o e).0.state ≡ lookup k e.state
    unfolding on_points update
    on_points_other r h none e n = refl
    on_points_other r h (some []) e n = refl
    on_points_other r h (some (p ∷ ps)) e n = ground (
      arith,
      str_eq_iff (key_at r h) k,
      lookup-insert (key_at r h) k (outcome now r h (mean fl (p ∷ ps))) e.state,
    )

    evaluate_hosts_other :
        (r : Rule F) (hs : List String) (e : Evaluator F)
        → All (λ h. key_at r h ≢ k) hs
        → lookup k (evaluate_hosts fl repo now r hs e).0.state ≡ lookup k e.state
    unfolding evaluate_hosts
    evaluate_hosts_other r [] e n = refl
    evaluate_hosts_other r (h ∷ hs) e n =
        let o = repo.query (params_for fl now r h) in
        evaluate_hosts_other r hs (on_points fl now r h o e).0 n.1 ∙ on_points_other r h o e n.0

    pub evaluate_rules-Elsewhere :
        (rs : List (Rule F)) (e : Evaluator F)
        → All Elsewhere rs
        → lookup k (evaluate_rules fl repo now rs e).0.state ≡ lookup k e.state
    unfolding evaluate_rules
    evaluate_rules-Elsewhere [] e n = refl
    evaluate_rules-Elsewhere (r ∷ rs) e n =
        evaluate_rules-Elsewhere rs (evaluate_hosts fl repo now r (hosts_for repo r) e).0 n.1
        ∙ evaluate_hosts_other r (hosts_for repo r) e n.0

  module _ (repo : MetricQuerier F) (now : Time) where
    pub evaluate_rules-append :
        (xs ys : List (Rule F)) (e : Evaluator F)
        → (evaluate_rules fl repo now (xs ++ ys) e).0
          ≡ (evaluate_rules fl repo now ys (evaluate_rules fl repo now xs e).0).0
    unfolding evaluate_rules
    evaluate_rules-append [] ys e = refl
    evaluate_rules-append (x ∷ xs) ys e =
        evaluate_rules-append xs ys (evaluate_hosts fl repo now x (hosts_for repo x) e).0

    pub hosts_for_named : (r : Rule F) → r.host ≢ "*" → hosts_for repo r ≡ r.host ∷ []
    unfolding hosts_for
    hosts_for_named r n = ground (arith, str_eq_iff r.host "*")

    evaluate_hosts_one :
        (r : Rule F) (h : String) (p : QueryPoint F) (ps : List (QueryPoint F)) (e : Evaluator F)
        → repo.query (params_for fl now r h) ≡ some (p ∷ ps)
        → lookup (key_at r h) (evaluate_hosts fl repo now r (h ∷ []) e).0.state
          ≡ some (outcome now r h (mean fl (p ∷ ps)))
    unfolding evaluate_hosts on_points update
    evaluate_hosts_one r h p ps e a = ground (
      arith,
      str_eq_iff (key_at r h) (key_at r h),
      lookup-insert (key_at r h) (key_at r h) (outcome now r h (mean fl (p ∷ ps))) e.state,
    )

    -- A rule for a named host decides its alert: where the store has data for it, and no rule
    -- behind it in the list writes under its key, the evaluation records the state that the mean
    -- gives against the threshold, the mean itself and the time.
    pub evaluate_decides :
        (e : Evaluator F) (pre post : List (Rule F)) (r : Rule F) (p : QueryPoint F)
        (ps : List (QueryPoint F))
        → e.rules ≡ pre ++ r ∷ post
        → r.host ≢ "*"
        → repo.query (params_for fl now r r.host) ≡ some (p ∷ ps)
        → All (Elsewhere repo now (key_at r r.host)) post
        → lookup (key_at r r.host) (evaluate fl repo now e).0.state
          ≡ some (outcome now r r.host (mean fl (p ∷ ps)))
    unfolding evaluate
    evaluate_decides e pre post r p ps split named a n =
        let e' = (evaluate_rules fl repo now pre e).0 in
        let k = key_at r r.host in
        subst
          (λ rs.
            lookup k (evaluate_rules fl repo now rs e).0.state
            ≡ some (outcome now r r.host (mean fl (p ∷ ps))))
          (sym split)
          (rw (evaluate_rules-append pre (r ∷ post) e) (
            unfold evaluate_rules in
            evaluate_rules-Elsewhere repo now k post
              (evaluate_hosts fl repo now r (hosts_for repo r) e').0 n
            ∙ rw (hosts_for_named r named) (evaluate_hosts_one r r.host p ps e' a)))
