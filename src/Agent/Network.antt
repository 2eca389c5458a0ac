-- ===== src/Agent/Network.antt =====
-- internal/agent/collector/network.go. The counters are uint64; the difference of the source is an
-- int64 that wraps. The order in which Go visits a map is that of the list here.
use theminidog.Base.{
  ℕ, ◌+◌, ◌-◌, ◌%◌, ◌≤◌, ◌<◌, ◌≡◌, Bool, false, ◌||◌, Option, none, some, List, [], ◌∷◌, ◌++◌,
  String, Time, pos, Floats, Map, lookup, insert, contains, str_eq, ltb, length, ◌==◌,
  if◌then◌else◌, arith,
}
use theminidog.Model.Metric.{Metric}

pub record Counters : Type 0 where
  pub name : String
  pub bytes_recv : ℕ
  pub bytes_sent : ℕ

-- `prev` is nil before the first collection.
pub record NetworkCollector : Type 0 where
  pub host : String
  pub ifaces : List String
  pub prev : Option (Map Counters)
  pub prev_at : Time

unfoldable pub new_network_collector : String → List String → NetworkCollector
new_network_collector host ifaces = record {
  host = host;
  ifaces = ifaces;
  prev = none;
  prev_at = pos 0;
}

abbrev pub two_64 : ℕ
two_64 = 18_446_744_073_709_551_616

abbrev pub two_63 : ℕ
two_63 = 9_223_372_036_854_775_808

-- `int64(c) - int64(p)`, which wraps, held to 0 where it is negative.
unfoldable pub delta : ℕ → ℕ → ℕ
delta c p = let d = (c + two_64 - p) % two_64 in if ltb d two_63 then d else 0

-- The interfaces that are collected.
unfoldable pub is_collected : List String → String → Bool
is_collected ifaces name =
    if str_eq name "lo" then false else length ifaces == 0 || contains name ifaces

unfoldable pub snapshot_from : List String → List Counters → Map Counters → Map Counters
unfolding is_collected
snapshot_from ifaces [] curr = curr
snapshot_from ifaces (s ∷ ss) curr =
    if is_collected ifaces s.name
    then snapshot_from ifaces ss (insert s.name s curr)
    else snapshot_from ifaces ss curr

module _ (fl : Floats) where
  open fl use {F, of_int}

  unfoldable pub two_metrics : Time → String → String → Counters → Counters → List (Metric F)
  unfolding delta
  two_metrics now host name cs ps =
      record {
        time = now;
        host = host;
        name = "net.bytes_in";
        value = of_int (pos (delta cs.bytes_recv ps.bytes_recv));
        labels = ("iface", name) ∷ [];
      }
      ∷ record {
        time = now;
        host = host;
        name = "net.bytes_out";
        value = of_int (pos (delta cs.bytes_sent ps.bytes_sent));
        labels = ("iface", name) ∷ [];
      }
      ∷ []

  -- The loop over the current snapshot; an interface that is new is skipped.
  unfoldable pub deltas : Time → String → Map Counters → Map Counters → List (Metric F)
  unfolding two_metrics
  deltas now host prev [] = []
  deltas now host prev ((name, cs) ∷ curr) =
      let rest = deltas now host prev curr in
      elim (lookup name prev) [ none ↦ rest | some ps ↦ two_metrics now host name cs ps ++ rest ]

  -- `stats` is what `ioFn` returns, `none` for an error; the metrics are `none` with an error.
  unfoldable pub collect_network :
      Time → Option (List Counters) → NetworkCollector → NetworkCollector × Option (List (Metric F))
  unfolding snapshot_from deltas
  collect_network now none c = (c, none)
  collect_network now (some stats) c =
      let curr = snapshot_from c.ifaces stats [] in
      let metrics : List (Metric F) = elim c.prev [
        | none ↦ []
        | some prev ↦ deltas now c.host prev curr
      ] in
      (record c { prev = some curr; prev_at = now }, some metrics)

-- The bytes since the last collection: exact where the counter grew by less than 2^63, 0 where it
-- fell by at most that, and past the wrap of the counter where it fell by more.
pub delta_lem :
    (c p : ℕ)
    → c < two_64
    → p < two_64
    → (p ≤ c → c - p < two_63 → delta c p ≡ c - p)
      × (c < p → p - c ≤ two_63 → delta c p ≡ 0)
      × (c < p → two_63 < p - c → delta c p ≡ c + two_64 - p)
unfolding delta
delta_lem c p hc hp = ((λ l u. ground arith), (λ l u. ground arith), (λ l u. ground arith))
