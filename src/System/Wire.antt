-- ===== src/System/Wire.antt =====
-- The requests of internal/agent/sender/sender.go and internal/agent/logtail/sender.go, as
-- internal/server/api sees them. `carried` is what a batch is decoded to after it was encoded. The
-- URL of the server has no path of its own.
use theminidog.Base.{Option, none, some, [], String, lookup}
use theminidog.Model.Metric.{MetricBatch}
use theminidog.Model.Log.{LogBatch}
use theminidog.Agent.Sending.{Reply, status, headers}
use theminidog.Api.Responses.{Response}
use theminidog.Api.Router.{Request, post_method}

-- `r.Header.Get("Authorization")`, for a sender with this token.
unfoldable pub authorization : String → String
unfolding headers
authorization token = elim (lookup "Authorization" (headers token)) [ none ↦ "" | some h ↦ h ]

module _ {F : Type 0} where
  unfoldable pub metrics_request : String → Option (MetricBatch F) → Request F
  unfolding authorization
  metrics_request token carried = record {
    method = post_method;
    path = "/api/v1/metrics";
    authorization = authorization token;
    query = [];
    decoded_metrics = carried;
    decoded_logs = none;
  }

  unfoldable pub logs_request : String → Option LogBatch → Request F
  unfolding authorization
  logs_request token carried = record {
    method = post_method;
    path = "/api/v1/logs";
    authorization = authorization token;
    query = [];
    decoded_metrics = none;
    decoded_logs = carried;
  }

  -- What the sender sees of an answer.
  abbrev pub reply_of : Response F → Reply
  reply_of r = status r.status
