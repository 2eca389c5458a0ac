-- ===== src/Server/Start.antt =====
-- cmd/server/main.go, up to the listening. golang-migrate and pgx are arguments: what comes of the
-- migrations, and whether the pool is made.
use Prim.Native.String.{◌++◌}
use theminidog.Base.{
  Bool, true, false, Option, none, some, List, [], ◌∷◌, String, Duration, str_eq, if◌then◌else◌,
  Result, ok, err, bind, ◌≡◌, refl,
}
use theminidog.Config.{Texts}
use theminidog.Config.Levels.{Level, slog_level}
use theminidog.Config.Server.{ServerConfigError, load_server_config}
use theminidog.Alerting.Rules.{Rule, RuleJson, RuleError, parse_rules}
use theminidog.Alerting.Notifications.{NotificationItem, NotificationError, parse_notifications}
use theminidog.Alerting.Evaluator.{Evaluator, new_evaluator}
use theminidog.Storage.Hosts.{HostTracker, new_host_tracker}
use theminidog.Api.Router.{strip_prefix}

-- `strings.Replace(s, old, new, 1)` for an `old` that is not empty.
unfoldable pub replace_first : String → String → String → String
unfolding strip_prefix
replace_first old new String.[] = String.[]
replace_first old new (String.◌∷◌ c s) =
    let later = String.◌∷◌ c (replace_first old new s) in
    elim (strip_prefix old (String.◌∷◌ c s)) [ some rest ↦ new ++ rest | none ↦ later ]

unfoldable pub migrate_url : String → String
unfolding replace_first
migrate_url url =
    replace_first "postgresql://" "pgx5://" (replace_first "postgres://" "pgx5://" url)

-- What `migrate.New` and `Up` of golang-migrate come to.
pub data Migration : Type 0 where
  not_created not_run no_change migrated : Migration

-- `runMigrations`: no change is no error.
unfoldable pub run_migrations : Migration → Bool
run_migrations not_created = false
run_migrations not_run = false
run_migrations no_change = true
run_migrations migrated = true

-- The exits of `main` with status 1.
pub data StartError : Type 0 where
  invalid_config : ServerConfigError → StartError
  migration_failed no_pool : StartError
  invalid_notifications : NotificationError → StartError
  invalid_rules : RuleError → StartError

-- What the server is made of before it listens.
pub record Server (F : Type 0) : Type 0 where
  pub level : Level
  pub listen_addr : String
  pub secret : String
  pub request_timeout : Duration
  pub shutdown_timeout : Duration
  pub evaluator : Option (Evaluator F)
  pub tracker : Option HostTracker
  pub dash : Bool

-- The libraries at the start. The decoders are `json.Unmarshal` at the types of the two variables.
pub record Libraries (F : Type 0) : Type 0 where
  pub texts : Texts
  pub migrates : String → String → Migration
  pub connects : String → Bool
  pub decode_rules : String → Option (List (RuleJson F))
  pub decode_notifications : String → Option (List NotificationItem)

unfoldable pub as_start_error : {A E : Type 0} → (E → StartError) → Result E A → Result StartError A
as_start_error f (ok a) = ok a
as_start_error f (err e) = err (f e)

-- No evaluator where no rules are configured.
unfoldable pub evaluator_for : {F : Type 0} → List String → List (Rule F) → Option (Evaluator F)
evaluator_for notifiers [] = none
evaluator_for notifiers (r ∷ rs) = some (new_evaluator (r ∷ rs) notifiers)

module _ {F : Type 0} (lib : Libraries F) where
  unfoldable pub make_evaluator : String → List String → Result StartError (Option (Evaluator F))
  unfolding as_start_error evaluator_for bind
  make_evaluator raw notifiers =
      if str_eq raw ""
      then ok none
      else bind
          (as_start_error invalid_rules
            (parse_rules F (lib.texts.parse_duration) lib.decode_rules raw))
          (λ rules. ok (evaluator_for notifiers rules))

  unfoldable pub guard : Bool → StartError → Result StartError (Unit {0})
  guard true e = ok tt
  guard false e = err e

  unfoldable pub start_server : (String → String) → Result StartError (Server F)
  unfolding as_start_error make_evaluator guard migrate_url run_migrations bind slog_level
  start_server env = bind (as_start_error invalid_config (load_server_config lib.texts env)) (λ cfg.
      bind
        (guard
          (run_migrations
            (lib.migrates ("file://" ++ cfg.migrations_path) (migrate_url cfg.database_url)))
          migration_failed)
        (λ ran. bind (guard (lib.connects cfg.database_url) no_pool) (λ connected.
          bind
            (as_start_error invalid_notifications
              (parse_notifications lib.decode_notifications cfg.alert_notifications))
            (λ notifiers. bind (make_evaluator cfg.alert_rules notifiers) (λ evaluator. ok (record {
              level = slog_level cfg.log_level;
              listen_addr = cfg.listen_addr;
              secret = cfg.agent_token;
              request_timeout = cfg.request_timeout;
              shutdown_timeout = cfg.shutdown_timeout;
              evaluator = evaluator;
              tracker = some (new_host_tracker cfg.host_stale_after cfg.host_down_after);
              dash = cfg.dashboard_enabled;
            }))))))

migrate_url_tests :
    (migrate_url "postgres://db/x" ≡ "pgx5://db/x")
    × (migrate_url "postgresql://db/x" ≡ "pgx5://db/x")
unfolding migrate_url
migrate_url_tests = (refl, refl)
