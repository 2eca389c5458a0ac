-- ===== src/Alerting/Flapping.antt =====
-- internal/server/alerting/alerting.go: two rules of one key, which leaves the window out.
use theminidog.Base.{
  ◌≡◌, ◌≢◌, refl, sym, ap, ◌∙◌, true, false, Option, none, some, List, [], ◌∷◌, ◌++◌, String, Time,
  lookup, lookup-insert, str_eq, str_eq_iff, str_eq_refl, Floats, arith, All, Duration, subst,
  if◌then◌else◌,
}
use mathlib.Core.List.{append_assoc, append-nil}
use theminidog.Storage.Metrics.{QueryPoint}
use theminidog.Alerting.Rules.{Rule}
use theminidog.Alerting.Evaluator.{
  firing, ok, fired, resolved, Evaluator, MetricQuerier, NotificationEvent, hosts_for, transition,
  was_firing, event_list, mean, state_for, params_for, update, on_points, evaluate_hosts,
  evaluate_rules, evaluate,
}
use theminidog.Alerting.Transitions.{event_key}
use theminidog.Alerting.Collision.{
  key_at, outcome, Elsewhere, evaluate_rules-append, evaluate_rules-Elsewhere, hosts_for_named,
}

module _ (fl : Floats) where
  open fl use {F}

  -- The events of the alert with a key.
  abbrev pub of_key : String → List (NotificationEvent F) → List (NotificationEvent F)
  of_key k [] = []
  of_key k (ev ∷ evs) =
      let rest = of_key k evs in if str_eq (event_key fl ev) k then ev ∷ rest else rest

  of_key-append :
      (k : String) (xs ys : List (NotificationEvent F))
      → of_key k (xs ++ ys) ≡ of_key k xs ++ of_key k ys
  of_key-append k [] ys = refl
  of_key-append k (ev ∷ evs) ys = ground (arith, of_key-append k evs ys)

  module _ (repo : MetricQuerier F) (now : Time) (k : String) where
    on_points_silent :
        (r : Rule F) (h : String) (o : Option (List (QueryPoint F))) (e : Evaluator F)
        → key_at fl r h ≢ k
        → of_key k (on_points fl now r h o e).1 ≡ []
    unfolding on_points update event_list
    on_points_silent r h none e n = refl
    on_points_silent r h (some []) e n = refl
    on_points_silent r h (some (p ∷ ps)) e n = ground (arith, str_eq_iff (key_at fl r h) k)

    evaluate_hosts_silent :
        (r : Rule F) (hs : List String) (e : Evaluator F)
        → All (λ h. key_at fl r h ≢ k) hs
        → of_key k (evaluate_hosts fl repo now r hs e).1 ≡ []
    unfolding evaluate_hosts
    evaluate_hosts_silent r [] e n = refl
    evaluate_hosts_silent r (h ∷ hs) e n =
        let o = repo.query (params_for fl now r h) in
        let first = on_points fl now r h o e in
        of_key-append k first.1 (evaluate_hosts fl repo now r hs first.0).1
        ∙ rw (on_points_silent r h o e n.0) (evaluate_hosts_silent r hs first.0 n.1)

    evaluate_rules_silent :
        (rs : List (Rule F)) (e : Evaluator F)
        → All (Elsewhere fl repo now k) rs
        → of_key k (evaluate_rules fl repo now rs e).1 ≡ []
    unfolding evaluate_rules
    evaluate_rules_silent [] e n = refl
    evaluate_rules_silent (r ∷ rs) e n =
        let first = evaluate_hosts fl repo now r (hosts_for repo r) e in
        of_key-append k first.1 (evaluate_rules fl repo now rs first.0).1
        ∙ rw (evaluate_hosts_silent r (hosts_for repo r) e n.0)
            (evaluate_rules_silent rs first.0 n.1)

  module _ (repo : MetricQuerier F) (now : Time) where
    evaluate_rules-append_events :
        (xs ys : List (Rule F)) (e : Evaluator F)
        → (evaluate_rules fl repo now (xs ++ ys) e).1
          ≡ (evaluate_rules fl repo now xs e).1
            ++ (evaluate_rules fl repo now ys (evaluate_rules fl repo now xs e).0).1
    unfolding evaluate_rules
    evaluate_rules-append_events [] ys e = refl
    evaluate_rules-append_events (x ∷ xs) ys e =
        let first = evaluate_hosts fl repo now x (hosts_for repo x) e in
        ap (λ l. first.1 ++ l) (evaluate_rules-append_events xs ys first.0)
        ∙ sym (append_assoc first.1 _ _)

    -- The first rules, which write elsewhere, make no event of the key.
    behind :
        (k : String) (xs ys : List (Rule F)) (e : Evaluator F)
        → All (Elsewhere fl repo now k) xs
        → of_key k (evaluate_rules fl repo now (xs ++ ys) e).1
          ≡ of_key k (evaluate_rules fl repo now ys (evaluate_rules fl repo now xs e).0).1
    behind k xs ys e n =
        ap (of_key k) (evaluate_rules-append_events xs ys e)
        ∙ of_key-append k (evaluate_rules fl repo now xs e).1
            (evaluate_rules fl repo now ys (evaluate_rules fl repo now xs e).0).1
        ∙ rw (evaluate_rules_silent repo now k xs e n) refl

    -- A rule for a named host with data is one update.
    evaluate_hosts-update :
        (r : Rule F) (e : Evaluator F) (p : QueryPoint F) (ps : List (QueryPoint F))
        → r.host ≢ "*"
        → repo.query (params_for fl now r r.host) ≡ some (p ∷ ps)
        → evaluate_hosts fl repo now r (hosts_for repo r) e
          ≡ update fl now r r.host (mean fl (p ∷ ps)) e
    unfolding evaluate_hosts on_points
    evaluate_hosts-update r e p ps named a =
        let u = update fl now r r.host (mean fl (p ∷ ps)) e in
        rw (hosts_for_named fl repo now r named, a) (ap (λ l. (u.0, l)) (append-nil u.1))

    rises :
        (r : Rule F) (m : F) (e : Evaluator F)
        → state_for fl r m ≡ firing
        → was_firing (lookup (key_at fl r r.host) e.state) ≡ false
        → (of_key (key_at fl r r.host) (update fl now r r.host m e).1
            ≡ record { event = fired; rule = r; value = m; fired_at = now } ∷ [])
          × (was_firing (lookup (key_at fl r r.host) (update fl now r r.host m e).0.state) ≡ true)
    unfolding update transition event_list
    rises r m e up before =
        let k = key_at fl r r.host in
        ground (arith, str_eq_refl k, lookup-insert k k (outcome fl now r r.host m) e.state)

    falls :
        (r : Rule F) (m : F) (e : Evaluator F)
        → state_for fl r m ≡ ok
        → was_firing (lookup (key_at fl r r.host) e.state) ≡ true
        → (of_key (key_at fl r r.host) (update fl now r r.host m e).1
            ≡ record { event = resolved; rule = r; value = m; fired_at = now } ∷ [])
          × (was_firing (lookup (key_at fl r r.host) (update fl now r r.host m e).0.state) ≡ false)
    unfolding update transition event_list
    falls r m e down before =
        let k = key_at fl r r.host in
        ground (arith, str_eq_refl k, lookup-insert k k (outcome fl now r r.host m) e.state)

    -- The events of a key and its flag after the rules.
    abbrev pub Sends : String → List (Rule F) → Evaluator F → List (NotificationEvent F) → Type 0
    Sends k rs e evs =
        (of_key k (evaluate_rules fl repo now rs e).1 ≡ evs)
        × (was_firing (lookup k (evaluate_rules fl repo now rs e).0.state) ≡ false)

    Sends-behind :
        (k : String) (xs ys : List (Rule F)) (e : Evaluator F) (evs : List (NotificationEvent F))
        → All (Elsewhere fl repo now k) xs
        → Sends k ys (evaluate_rules fl repo now xs e).0 evs
        → Sends k (xs ++ ys) e evs
    Sends-behind k xs ys e evs n (sent, after) = (
      behind k xs ys e n ∙ sent,
      ap (λ (x : Evaluator F). was_firing (lookup k x.state))
            (evaluate_rules-append fl repo now xs ys e)
          ∙ after,
    )

    Sends-first :
        (k : String) (r : Rule F) (rs : List (Rule F)) (e : Evaluator F) (p : QueryPoint F)
        (ps : List (QueryPoint F)) (ev : NotificationEvent F) (evs : List (NotificationEvent F))
        → r.host ≢ "*"
        → repo.query (params_for fl now r r.host) ≡ some (p ∷ ps)
        → of_key k (update fl now r r.host (mean fl (p ∷ ps)) e).1 ≡ ev ∷ []
        → Sends k rs (update fl now r r.host (mean fl (p ∷ ps)) e).0 evs
        → Sends k (r ∷ rs) e (ev ∷ evs)
    unfolding evaluate_rules
    Sends-first k r rs e p ps ev evs named a one (sent, after) =
        let u = update fl now r r.host (mean fl (p ∷ ps)) e in
        rw (evaluate_hosts-update r e p ps named a)
          (of_key-append k u.1 (evaluate_rules fl repo now rs u.0).1 ∙ rw (one, sent) refl, after)

    -- Where two rules for a named host differ in their window alone, the mean over the first
    -- window fires, the mean over the second does not, their common alert is not firing, and no
    -- other rule of the list writes under its key: one evaluation makes, for that alert, a firing
    -- and then a resolved event, with the two means, and no other, and leaves the alert not
    -- firing.
    pub evaluate_flaps :
        (e : Evaluator F) (pre mid post : List (Rule F)) (r : Rule F) (d : Duration)
        (p q : QueryPoint F) (ps qs : List (QueryPoint F))
        → e.rules ≡ pre ++ r ∷ (mid ++ record r { for = d } ∷ post)
        → All (Elsewhere fl repo now (key_at fl r r.host)) pre
        → All (Elsewhere fl repo now (key_at fl r r.host)) mid
        → All (Elsewhere fl repo now (key_at fl r r.host)) post
        → r.host ≢ "*"
        → repo.query (params_for fl now r r.host) ≡ some (p ∷ ps)
        → repo.query (params_for fl now (record r { for = d }) r.host) ≡ some (q ∷ qs)
        → state_for fl r (mean fl (p ∷ ps)) ≡ firing
        → state_for fl r (mean fl (q ∷ qs)) ≡ ok
        → was_firing (lookup (key_at fl r r.host) e.state) ≡ false
        → (of_key (key_at fl r r.host) (evaluate fl repo now e).1
            ≡ record { event = fired; rule = r; value = mean fl (p ∷ ps); fired_at = now }
              ∷ record {
                event = resolved;
                rule = record r { for = d };
                value = mean fl (q ∷ qs);
                fired_at = now;
              }
              ∷ [])
          × (was_firing (lookup (key_at fl r r.host) (evaluate fl repo now e).0.state) ≡ false)
    unfolding evaluate state_for
    evaluate_flaps e pre mid post r d p q ps qs split before between after named a b up calm idle =
        let k = key_at fl r r.host in
        let r' : Rule F = record r { for = d } in
        let e1 = (evaluate_rules fl repo now pre e).0 in
        let one =
          rises r (mean fl (p ∷ ps)) e1 up
            (ap was_firing (evaluate_rules-Elsewhere fl repo now k pre e before) ∙ idle) in
        let e2 = (update fl now r r.host (mean fl (p ∷ ps)) e1).0 in
        let e3 = (evaluate_rules fl repo now mid e2).0 in
        let two =
          falls r' (mean fl (q ∷ qs)) e3 calm
            (ap was_firing (evaluate_rules-Elsewhere fl repo now k mid e2 between) ∙ one.1) in
        let e4 = (update fl now r' r.host (mean fl (q ∷ qs)) e3).0 in
        let last : Sends k post e4 [] = (
          evaluate_rules_silent repo now k post e4 after,
          ap was_firing (evaluate_rules-Elsewhere fl repo now k post e4 after) ∙ two.1,
        ) in
        let falling = Sends-first k r' post e3 q qs _ [] named b two.0 last in
        let rising =
          Sends-first k r (mid ++ r' ∷ post) e1 p ps _ _ named a one.0
            (Sends-behind k mid (r' ∷ post) e2 _ between falling) in
        let whole = Sends-behind k pre (r ∷ (mid ++ r' ∷ post)) e _ before rising in
        let rise : NotificationEvent F = record {
          event = fired;
          rule = r;
          value = mean fl (p ∷ ps);
          fired_at = now;
        } in
        let fall : NotificationEvent F = record {
          event = resolved;
          rule = r';
          value = mean fl (q ∷ qs);
          fired_at = now;
        } in
        subst (λ rs. Sends k rs e (rise ∷ fall ∷ [])) (sym split) whole
