-- ===== src/Alerting/Parsing.antt =====
-- `ParseRules`: what it accepts.
use theminidog.Base.{
  ℕ, suc, ◌≤◌, ◌≡◌, ◌≢◌, ◌⊎◌, inl, inr, refl, Option, some, List, [], ◌∷◌, String, Duration,
  str_eq_iff, pos, length, All, arith, Option-cases, ◌<ℤ◌,
}
use theminidog.Alerting.Rules.{Rule, RuleJson, parse_rule, parse_from, parse_rules}
use theminidog.Base.{ok}

module _ (F : Type 0) (parse_duration : String → Option Duration) where
  -- What the configuration may say of one rule.
  pub record IsAcceptable (rj : RuleJson F) : Type 0 where
    pub named_host : rj.host ≢ ""
    pub named_metric : rj.name ≢ ""
    pub known_op : (rj.op ≡ ">") ⊎ (rj.op ≡ "<")
    pub positive : (d : Duration) × (parse_duration rj.for ≡ some d) × (pos 0 <ℤ d)

  -- The rule is the configured one, with its window parsed.
  pub record IsRuleOf (rj : RuleJson F) (r : Rule F) : Type 0 where
    pub host_eq : r.host ≡ rj.host
    pub name_eq : r.name ≡ rj.name
    pub op_eq : r.op ≡ rj.op
    pub threshold_eq : r.threshold ≡ rj.threshold
    pub for_eq : parse_duration rj.for ≡ some r.for

  abbrev pub Parsed : List (RuleJson F) → List (Rule F) → Type 0
  Parsed [] [] = Unit {0}
  Parsed [] (r ∷ rs) = ⊥
  Parsed (rj ∷ rjs) [] = ⊥
  Parsed (rj ∷ rjs) (r ∷ rs) = IsRuleOf rj r × Parsed rjs rs

  parse_rule_sound :
      (i : ℕ) (rj : RuleJson F) (r : Rule F)
      → parse_rule F parse_duration i rj ≡ ok r
      → IsAcceptable rj × IsRuleOf rj r
  unfolding parse_rule
  parse_rule_sound i rj r h = elim (Option-cases (parse_duration rj.for)) [
    | inl e ↦ absurd (ground (arith, str_eq_iff rj.host "", str_eq_iff rj.name ""))
    | inr (d, e) ↦ (
      record {
        named_host = ground (arith, str_eq_iff rj.host "");
        named_metric = ground (arith, str_eq_iff rj.name "");
        known_op = ground (arith, str_eq_iff rj.op ">", str_eq_iff rj.op "<");
        positive = (d, e, ground arith);
      },
      record {
        host_eq = ground arith;
        name_eq = ground arith;
        op_eq = ground arith;
        threshold_eq = ground arith;
        for_eq = ground arith;
      },
    )
  ]

  parse_rule_complete :
      (i : ℕ) (rj : RuleJson F)
      → IsAcceptable rj
      → (r : Rule F) × (parse_rule F parse_duration i rj ≡ ok r)
  unfolding parse_rule
  parse_rule_complete i rj a =
      let (d, e, p) = a.positive in
      (
        record { host = rj.host; name = rj.name; op = rj.op; threshold = rj.threshold; for = d },
        ground (
          arith,
          str_eq_iff rj.host "",
          str_eq_iff rj.name "",
          str_eq_iff rj.op ">",
          str_eq_iff rj.op "<",
        ),
      )

  parse_from_sound :
      (i : ℕ) (rjs : List (RuleJson F)) (rs : List (Rule F))
      → parse_from F parse_duration i rjs ≡ ok rs
      → All IsAcceptable rjs × Parsed rjs rs
  unfolding parse_from
  parse_from_sound i [] [] h = (tt, tt)
  parse_from_sound i [] (r ∷ rs) h = cc
  parse_from_sound i (rj ∷ rjs) [] h = absurd (ground arith)
  parse_from_sound i (rj ∷ rjs) (r ∷ rs) h =
      let one = parse_rule_sound i rj r (ground arith) in
      let rest = parse_from_sound (suc i) rjs rs (ground arith) in
      ((one.0, rest.0), (one.1, rest.1))

  parse_from_complete :
      (i : ℕ) (rjs : List (RuleJson F))
      → All IsAcceptable rjs
      → (rs : List (Rule F)) × (parse_from F parse_duration i rjs ≡ ok rs)
  unfolding parse_from
  parse_from_complete i [] a = ([], refl)
  parse_from_complete i (rj ∷ rjs) a =
      let (r, one) = parse_rule_complete i rj a.0 in
      let (rs, rest) = parse_from_complete (suc i) rjs a.1 in (r ∷ rs, rw (one, rest))

  -- `ALERT_RULES` is accepted, where it is not empty, exactly when it is a JSON array of at most 20
  -- rules, each with a host, a metric name, an operator ">" or "<" and a positive window; the rules
  -- returned are then the configured ones, in order, each with its window parsed.
  pub parse_rules_iff :
      (unmarshal : String → Option (List (RuleJson F))) (raw : String)
      → raw ≢ ""
      → ((rs : List (Rule F))
          → parse_rules F parse_duration unmarshal raw ≡ ok rs
          → (rjs : List (RuleJson F)) × (unmarshal raw ≡ some rjs)
            × (length rjs ≤ 20)
            × All IsAcceptable rjs
            × Parsed rjs rs)
        × ((rjs : List (RuleJson F))
            → unmarshal raw ≡ some rjs
            → length rjs ≤ 20
            → All IsAcceptable rjs
            → (rs : List (Rule F)) × (parse_rules F parse_duration unmarshal raw ≡ ok rs))
  unfolding parse_rules
  parse_rules_iff unmarshal raw n = (
    λ rs h. elim (Option-cases (unmarshal raw)) [
      | inl e ↦ absurd (ground (arith, str_eq_iff raw ""))
      | inr (rjs, e) ↦
          let parsed : parse_from F parse_duration 0 rjs ≡ ok rs =
            ground (arith, str_eq_iff raw "") in
          let (all, each) = parse_from_sound 0 rjs rs parsed in
          (rjs, e, ground (arith, str_eq_iff raw ""), all, each)
    ],
    λ rjs e l a.
        let (rs, h) = parse_from_complete 0 rjs a in (rs, ground (arith, str_eq_iff raw "")),
  )
