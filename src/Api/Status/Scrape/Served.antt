-- ===== src/Api/Status/Scrape/Served.antt =====
-- The page that handlePrometheus serves, read by a scraper.
use theminidog.Base.{
  ℕ, Bool, not, ◌||◌, false, none, some, List, [], ◌∷◌, String, Time, Floats, codes, ◌==◌,
}
use theminidog.Storage.Metrics.{MetricSelect, QueryPoint, Rows}
use theminidog.Api.Status.{latest, prom_metric_name}
use theminidog.Api.Status.Scrape.{Sample, Without, has}
use theminidog.Api.Status.Scrape.RoundTrip.{IsName, sample_of}

abbrev IsStored : String → Type 0
IsStored n = IsName (codes (prom_metric_name n)) × Without 10 (codes n)

-- Tests on the codes of a name.
is_name : List ℕ → Bool
unfolding has
is_name [] = false
is_name (c ∷ cs) = not (c == b'#' || has b'{' (c ∷ cs) || has 10 (c ∷ cs))

module _ (fl : Floats) (pool : MetricSelect → Rows (QueryPoint fl.F)) (now : Time) where
  open fl use {F}

  -- The samples of a metric: the latest point of each host that has one, in the order of the hosts.
  abbrev pub metric_samples : String → List String → List Sample → List Sample
  metric_samples name [] rest = rest
  metric_samples name (h ∷ hs) rest =
      let later = metric_samples name hs rest in
      elim (latest pool now name h) [
        | none ↦ later
        | some p ↦ sample_of fl (codes (prom_metric_name name)) (h, p) ∷ later
      ]

  -- Those of several metrics, in their order.
  abbrev pub all_samples : List String → List String → List Sample
  all_samples [] hs = []
  all_samples (n ∷ ns) hs = metric_samples n hs (all_samples ns hs)
