-- ===== src/Alerting/Rules.antt =====
-- internal/server/alerting/alerting.go: rules and their parsing. `json.Unmarshal` and
-- `time.ParseDuration` are arguments: a text goes to a value, or to `none` where they fail.
use Prim.Native.String.{◌++◌}
use theminidog.Base.{
  ℕ, suc, not, ◌&&◌, Option, none, some, List, [], ◌∷◌, String, Duration, str_eq, leb_ℤ, pos,
  if◌then◌else◌, ltb, length, Floats, Result, ok, err,
}

pub record Rule (F : Type 0) : Type 0 where
  pub host : String
  pub name : String
  pub op : String
  pub threshold : F
  pub for : Duration

-- `ruleJSON`, in which the window is still a text.
pub record RuleJson (F : Type 0) : Type 0 where
  pub host : String
  pub name : String
  pub op : String
  pub threshold : F
  pub for : String

-- The errors of `ParseRules`, each with what its message shows.
pub data RuleError : Type 0 where
  bad_json : RuleError
  too_many : ℕ → RuleError
  empty_host empty_name : ℕ → RuleError
  bad_op bad_for : ℕ → String → RuleError

module _ (F : Type 0) (parse_duration : String → Option Duration) where
  -- The part of `time.ParseDuration(rj.For)` and `d <= 0`.
  unfoldable pub window : String → Option Duration
  window raw = elim (parse_duration raw) [
    | none ↦ none
    | some d ↦ if leb_ℤ d (pos 0) then none else some d
  ]

  -- One round of the loop of `ParseRules`.
  unfoldable pub parse_rule : ℕ → RuleJson F → Result RuleError (Rule F)
  unfolding window
  parse_rule i rj =
      if str_eq rj.host ""
      then err (empty_host i)
      else if str_eq rj.name ""
      then err (empty_name i)
      else if not (str_eq rj.op ">") && not (str_eq rj.op "<")
      then err (bad_op i rj.op)
      else elim (window rj.for) [
        | none ↦ err (bad_for i rj.for)
        | some d ↦ ok (record {
          host = rj.host;
          name = rj.name;
          op = rj.op;
          threshold = rj.threshold;
          for = d;
        })
      ]

  cons_rule :
      Result RuleError (Rule F)
      → Result RuleError (List (Rule F))
      → Result RuleError (List (Rule F))
  cons_rule (err e) rest = err e
  cons_rule (ok r) (err e) = err e
  cons_rule (ok r) (ok rs) = ok (r ∷ rs)

  unfoldable pub parse_from : ℕ → List (RuleJson F) → Result RuleError (List (Rule F))
  unfolding cons_rule
  parse_from i [] = ok []
  parse_from i (rj ∷ rjs) = cons_rule (parse_rule i rj) (parse_from (suc i) rjs)

  unfoldable pub parse_rules :
      (String → Option (List (RuleJson F))) → String → Result RuleError (List (Rule F))
  unfolding parse_from
  parse_rules unmarshal raw = if str_eq raw "" then ok [] else elim (unmarshal raw) [
    | none ↦ err bad_json
    | some rjs ↦ if ltb 20 (length rjs) then err (too_many (length rjs)) else parse_from 0 rjs
  ]

-- The key of the state map: "{host}/{name}/{op}/{threshold}".
unfoldable pub rule_key : (fl : Floats) → String → String → String → fl.F → String
rule_key fl host name op threshold =
    host ++ ("/" ++ (name ++ ("/" ++ (op ++ ("/" ++ fl.show threshold)))))
