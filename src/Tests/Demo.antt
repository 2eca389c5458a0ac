-- ===== src/Tests/Demo.antt =====
-- example/06-demo-app and cmd/stubserver: witnesses and tests.
use theminidog.Base.{
  ◌≡◌, ℕ, refl, Bool, true, false, Option, none, some, List, [], ◌∷◌, String, ℤ, pos, length,
  keep_if, int_eq, atoi, trim, is_space, str_eq, if◌then◌else◌, arith, seconds,
}
use theminidog.Demo.Store.{Task, Store, new_store, create, find}
use theminidog.Demo.App.{
  Request, get_tasks, post_tasks, get_task, delete_task, Response, tasks, task, serve_all,
}
use theminidog.Demo.Book.{AreAnswers}
use theminidog.Demo.Refinement.{Holds, new_store-Holds, serve_all-answers}
use theminidog.Demo.Load.{tick}
use theminidog.Demo.Generated.{app, posted, tick-app}
use theminidog.Model.Metric.{MetricBatch}
use theminidog.Api.Responses as Api
use theminidog.Api.Ingest.{handle_ingest}
use theminidog.Agent.Sending.{send, status, delivered, rejected, HttpSender}
use theminidog.Stub.{ingested, post_metrics, handle}
use theminidog.Stub.Agreement.{handle_agrees}
use theminidog.Tests.Numbers.{numbers}
use theminidog.Tests.Http.{two_metrics, tracker}

abbrev requests : List (String × Request)
requests =
    ("t1", post_tasks (some " Rotate secrets "))
    ∷ ("t2", post_tasks (some "  "))
    ∷ ("t3", post_tasks (some "Deploy"))
    ∷ ("t4", delete_task "1")
    ∷ ("t5", get_task "1")
    ∷ ("t6", get_task "2")
    ∷ ("t7", get_tasks)
    ∷ []

abbrev deploy : Task
deploy = record { id = pos 2; title = "Deploy"; created_at = "t3" }

last_answers : List Response → List Response
last_answers [] = []
last_answers (a ∷ []) = a ∷ []
last_answers (a ∷ b ∷ []) = a ∷ b ∷ []
last_answers (a ∷ b ∷ c ∷ rs) = last_answers (b ∷ c ∷ rs)

serve_all_test :
    last_answers (serve_all requests new_store).1
    ≡ record { status = 200; body = task deploy }
      ∷ record { status = 200; body = tasks (deploy ∷ []) }
      ∷ []
unfolding serve_all new_store last_answers theminidog.Demo.Store.create trim is_space atoi
    theminidog.Demo.Store.delete theminidog.Demo.Store.list theminidog.Demo.Store.get int_eq
    theminidog.Base.◌+ℤ◌
serve_all_test = refl

serve_all-answers_example : AreAnswers requests [] (serve_all requests new_store).1
serve_all-answers_example = serve_all-answers requests (omega arith)

tick-app_example :
    ((tick (app "t1" 250) 3 9 new_store).successes ≡ 10)
    × ((tick (app "t1" 250) 3 9 new_store).failures ≡ 0)
    × Holds (tick (app "t1" 250) 3 9 new_store).target (posted "t1" 9 (posted "t1" 3 []))
tick-app_example = tick-app "t1" 250 3 9 new_store [] new_store-Holds (omega arith)

abbrev patient : HttpSender numbers
patient = record {
  url = "http://stub:8080";
  token = "";
  backoff = record { base = seconds 1; max = seconds 60; jitter = 0 };
  rand = λ i. 0;
  sleep = λ i d. true;
}

abbrev failing : List (theminidog.Storage.Metrics.InsertMetric ℕ) → ℕ → Bool
failing ms i = false

handle_agrees_example :
    ((handle_ingest numbers failing (seconds 7) tracker (some two_metrics)).0
        ≡ record { status = 202; body = Api.ingested 2 }
      → (handle (λ n. "") (post_metrics (some two_metrics))).0
        ≡ record { status = 202; body = ingested 2 })
    × ((batch : MetricBatch ℕ)
        → some two_metrics ≡ some batch
        → send numbers patient true true
            (λ i. status (handle (λ n. "") (post_metrics (some two_metrics))).0.status)
            1
          ≡ (delivered, 0))
    × (some two_metrics ≡ none
        → send numbers patient true true
            (λ i. status (handle (λ n. "") (post_metrics (some two_metrics))).0.status)
            1
          ≡ (rejected 400, 0))
handle_agrees_example =
    handle_agrees numbers (λ n. "") failing (seconds 7) tracker (some two_metrics) patient 1 2 refl
      (omega arith)
