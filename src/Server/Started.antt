-- ===== src/Server/Started.antt =====
-- What a server has that cmd/server/main.go starts.
use Prim.Native.String.{◌++◌}
use theminidog.Base.{
  byte_length, ◌≡◌, refl, ◌≤◌, some, String, Duration, pos, ◌<ℤ◌, arith, subst, Result, ok, err,
  bind_ok, ok-injective,
}
use theminidog.Config.Server.{load_server_config}
use theminidog.Config.Ranges.{load_server_config-IsSafe}
use theminidog.Alerting.Notifications.{parse_notifications}
use theminidog.Storage.Hosts.{new_host_tracker}
use theminidog.Server.Start.{
  StartError, invalid_config, migration_failed, no_pool, invalid_notifications, Server, Libraries,
  as_start_error, make_evaluator, guard, start_server, migrate_url, run_migrations,
}

as_start_error-ok :
    {A E : Type 0} (f : E → StartError) (r : Result E A) (a : A)
    → as_start_error f r ≡ ok a
    → r ≡ ok a
unfolding as_start_error
as_start_error-ok f (ok b) a e = ground (arith, ok-injective e)
as_start_error-ok f (err x) a e = absurd (ground arith)

module _ {F : Type 0} (lib : Libraries F) where
  -- The tracker is empty and has positive thresholds, and the secret has 16 bytes or more.
  pub record IsStarted (srv : Server F) : Type 0 where
    pub stale : Duration
    pub down : Duration
    pub tracker : srv.tracker ≡ some (new_host_tracker stale down)
    pub stale_positive : pos 0 <ℤ stale
    pub down_positive : pos 0 <ℤ down
    pub secret : 16 ≤ byte_length srv.secret

  pub start_server-IsStarted :
      (env : String → String) (srv : Server F) → start_server lib env ≡ ok srv → IsStarted srv
  unfolding start_server
  start_server-IsStarted env =
      bind_ok IsStarted (as_start_error invalid_config (load_server_config lib.texts env)) _
        (λ cfg c.
          let safe =
            load_server_config-IsSafe lib.texts env cfg
              (as_start_error-ok invalid_config (load_server_config lib.texts env) cfg c) in
          bind_ok IsStarted
            (guard lib
              (run_migrations
                (lib.migrates ("file://" ++ cfg.migrations_path) (migrate_url cfg.database_url)))
              migration_failed)
            _
            (λ m i. bind_ok IsStarted (guard lib (lib.connects cfg.database_url) no_pool) _ (λ n j.
              bind_ok IsStarted
                (as_start_error invalid_notifications
                  (parse_notifications lib.decode_notifications cfg.alert_notifications))
                _
                (λ notifiers k.
                  bind_ok IsStarted (make_evaluator lib cfg.alert_rules notifiers) _
                    (λ evaluator l srv e. subst IsStarted (ok-injective e) (record {
                      stale = cfg.host_stale_after;
                      down = cfg.host_down_after;
                      tracker = refl;
                      stale_positive = safe.stale;
                      down_positive = safe.down;
                      secret = safe.token;
                    }))))))
