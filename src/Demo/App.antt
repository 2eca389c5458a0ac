-- ===== src/Demo/App.antt =====
-- example/06-demo-app/app/main.go: the handlers. A request is the pattern of the mux that it meets,
-- with what the handler reads of it: the decoded title, the path value, the random number. An
-- answer carries the value that is encoded.
use theminidog.Base.{
  ℕ, ◌+◌, Option, none, some, List, [], ◌∷◌, String, atoi, trim, str_eq, if◌then◌else◌,
}
use Prim.Native.String.{◌++◌ as text_append}
use theminidog.Demo.Store.{Task, Store, create, list, get, delete}
use theminidog.Demo.Fib.{fib}

pub data Request : Type 0 where
  get_health get_tasks get_cpu : Request
  post_tasks : Option String → Request
  get_task delete_task : String → Request
  get_slow : ℕ → Request

pub data Failure : Type 0 where
  title_required invalid_id not_found : Failure

pub data Body : Type 0 where
  health no_body : Body
  failed : Failure → Body
  task : Task → Body
  tasks : List Task → Body
  slow_done cpu_done : ℕ → Body

pub record Response : Type 0 where
  pub status : ℕ
  pub body : Body

-- The middleware's line of the log, without the duration.
pub record LogEntry : Type 0 where
  pub method : String
  pub path : String
  pub status : ℕ

unfoldable pub write_json : ℕ → Body → Response
write_json status v = record { status = status; body = v }

unfoldable pub write_error : ℕ → Failure → Response
unfolding write_json
write_error status msg = write_json status (failed msg)

unfoldable pub handle_post : String → Option String → Store → Store × Response
unfolding write_json write_error
handle_post stamp none s = (s, write_error 400 title_required)
handle_post stamp (some title) s =
    let (s', t) = create stamp (trim title) s in
    if str_eq (trim title) ""
    then (s, write_error 400 title_required)
    else (s', write_json 201 (task t))

unfoldable pub handle_get : String → Store → Response
unfolding write_json write_error
handle_get text s = elim (atoi text) [
  | none ↦ write_error 400 invalid_id
  | some id ↦ elim (get id s) [
    | none ↦ write_error 404 not_found
    | some t ↦ write_json 200 (task t)
  ]
]

unfoldable pub handle_delete : String → Store → Store × Response
unfolding write_json write_error
handle_delete text s = elim (atoi text) [
  | none ↦ (s, write_error 400 invalid_id)
  | some id ↦
      let (s', done) = delete id s in
      if done
      then (s', record { status = 204; body = no_body })
      else (s', write_error 404 not_found)
]

-- `stamp` is the text of the clock.
unfoldable pub handle : String → Request → Store → Store × Response
unfolding handle_post handle_get handle_delete write_json
handle stamp get_health s = (s, write_json 200 health)
handle stamp (post_tasks title) s = handle_post stamp title s
handle stamp get_tasks s = (s, write_json 200 (tasks (list s)))
handle stamp (get_task text) s = (s, handle_get text s)
handle stamp (delete_task text) s = handle_delete text s
handle stamp (get_slow k) s = (s, write_json 200 (slow_done (100 + k)))
handle stamp get_cpu s = (s, write_json 200 (cpu_done (fib 35)))

unfoldable pub method_of : Request → String
method_of (post_tasks title) = "POST"
method_of (delete_task text) = "DELETE"
method_of get_health = "GET"
method_of get_tasks = "GET"
method_of get_cpu = "GET"
method_of (get_task text) = "GET"
method_of (get_slow k) = "GET"

unfoldable pub path_of : Request → String
path_of get_health = "/healthz"
path_of get_tasks = "/tasks"
path_of get_cpu = "/cpu"
path_of (post_tasks title) = "/tasks"
path_of (get_task text) = text_append "/tasks/" text
path_of (delete_task text) = text_append "/tasks/" text
path_of (get_slow k) = "/slow"

-- Every handler calls `WriteHeader` once, so the wrapped writer has the status of the answer.
unfoldable pub logged : Request → Response → LogEntry
unfolding method_of path_of
logged r out = record { method = method_of r; path = path_of r; status = out.status }

-- The requests in the order in which they take the lock, each with its time.
unfoldable pub serve_all : List (String × Request) → Store → Store × List Response
unfolding handle
serve_all [] s = (s, [])
serve_all ((stamp, r) ∷ rs) s =
    let (t, out) = handle stamp r s in let (u, outs) = serve_all rs t in (u, out ∷ outs)
