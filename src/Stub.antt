-- ===== src/Stub.antt =====
-- cmd/stubserver/main.go: a server for manual tests, which logs what it receives and accepts every
-- batch that decodes. The text of a value is that of "%.4f".
pub mod Agreement
use theminidog.Base.{
  ℕ, Option, none, some, List, [], ◌∷◌, String, Map, length, str_eq, if◌then◌else◌,
}
use theminidog.Model.Metric.{Metric, MetricBatch}

-- The requests that its mux routes, with the decoded body.
pub data Request (F : Type 0) : Type 0 where
  get_health : Request F
  post_metrics : Option (MetricBatch F) → Request F

pub data Body : Type 0 where
  health bad_request : Body
  ingested : ℕ → Body

pub record Response : Type 0 where
  pub status : ℕ
  pub body : Body

pub data LogLine : Type 0 where
  received : String → ℕ → LogLine
  metric : String → String → Map String → LogLine

unfoldable pub address : String → String
address env = if str_eq env "" then ":8080" else env

module _ {F : Type 0} (show : F → String) where
  unfoldable pub metric_lines : List (Metric F) → List LogLine
  metric_lines [] = []
  metric_lines (m ∷ ms) = metric m.name (show m.value) m.labels ∷ metric_lines ms

  unfoldable pub handle : Request F → Response × List LogLine
  unfolding metric_lines
  handle get_health = (record { status = 200; body = health }, [])
  handle (post_metrics none) = (record { status = 400; body = bad_request }, [])
  handle (post_metrics (some batch)) = (
    record { status = 202; body = ingested (length batch.metrics) },
    received batch.host (length batch.metrics) ∷ metric_lines batch.metrics,
  )
