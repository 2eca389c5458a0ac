-- ===== src/Lib.antt =====
-- Verification of theminidog, a metrics and log monitor: an agent on each host collects metrics and
-- tails log files, and sends both to a server over HTTP; the server stores them in a database,
-- tracks which hosts are alive, evaluates alert rules, and serves queries and a dashboard.
--
-- The parts, and the files that model them:
-- * internal/model (Model/Metric, Model/Log): the metrics and log entries that the agent sends, and
--   the validation that the server applies to them (Metric.Validate, MetricBatch.Validate,
--   LogEntry.Validate, LogBatch.Validate).
-- * internal/agent/agent.go (Agent/Loops): Run, with collectLoop and senderLoop, as a step relation
--   over the buffered channel between them. collectLoop is on_tick and offer; a turn of senderLoop
--   (sender_turn) receives a batch or has the result of its Send. What was collected and sent is read
--   off the history (Agent/Loops/Order).
-- * internal/agent/sender/sender.go and internal/agent/logtail/sender.go (Agent/Backoff,
--   Agent/Sending): waitFor and logWaitFor, and the loops of HTTPSender.Send and
--   HTTPLogSender.SendLogs.
-- * internal/agent/collector (Agent/Network, Agent/Collectors, Agent/Tick): the registry and the four
--   collectors over what gopsutil returns.
-- * internal/agent/logtail (Logtail): the level of a line (ParseLevel), the tailer's open files and
--   offsets, the reading of new lines with the scanner's limit, the sending in chunks, and the loop of
--   Run with the closing of the files (Logtail/Run).
-- * internal/server/storage (Storage): hosts.go as Storage/Hosts (the tracker: Heartbeat, Status, All
--   and scan), logs.go as Storage/Logs (validation, the WHERE builder, the pages), metrics.go as
--   Storage/Metrics (validation, insertion, the query text), and the loop over a batch of statements
--   that both insertions run as Storage/Batch.
-- * internal/server/alerting (Alerting): ParseRules (Parsing), the evaluator (Evaluator: hostsFor,
--   evaluate, notifyAll, ActiveAlerts, NotifyHostDown) and notifications.go (Notifications).
-- * internal/server/api (Api): the ingestion (Ingest) and query handlers (Query), the public handlers
--   (Status; the text of the Prometheus page in Status/Page, a reader of it in Status/Scrape), and the
--   middleware and router (Router). A handler returns its response, and the tracker where it may
--   change it.
-- * internal/server/dashboard (Dashboard): the data of the page and the two JSON handlers, which
--   the router answers with.
-- * internal/config (Config): LoadServerConfig and LoadAgent over the environment as a function.
-- * cmd/server/main.go and internal/server/server.go (Server): the start with its exits (Server/Start),
--   and the running process (Server/Process): a list of events, which are requests, ticks of the
--   tracker and of the evaluator, and the end, and the outputs that they make.
-- * cmd/agent/main.go (Agent/Process): the token, and the start with its exits.
-- * cmd/stubserver (Stub): its two handlers.
-- * example/04-go-http-client (Client): base64url (Client/Base64), the token (Client/Token), the
--   requests and main (Client/Requests), and these at the server (Client/Session, Client/Served).
-- * example/06-demo-app (Demo): app/main.go as Demo/Store, Demo/Fib and Demo/App, load/main.go as
--   Demo/Load; Demo/Book is what the application promises, and Demo/Generated has both together.
-- System has both processes together: the requests that the senders make (System/Wire), the life of
-- the token at the middleware (System/Token), and the delivery of a batch (System/Delivery). Base
-- holds what these share, with what they use of the packages strings and strconv, and Tests the
-- witnesses and tests.
--
-- How they meet: the handlers of Api call the repositories of Storage and the tracker; the evaluator
-- reads the store through the record MetricQuerier; the router composes all of them over the record
-- Backend, which the process fills for each request. The agent and the server meet in the types of
-- Model: a request of a sender is a value of the router's Request, and its answer the sender's Reply.
--
-- Conventions. Numbers are native; a signed integer is a ℤ over them, held to the range of an int64
-- where the source depends on it (Time.Sub saturates, a counter's difference wraps). A time counts
-- nanoseconds from Go's zero time. float64 is the record Floats, whose operations have no laws here:
-- what is proved holds whatever they return, but where it names a finite value, the text of `%g`, or
-- IsExact, what IEEE 754 says of integers up to 2^53.
-- The text of a log message is bytes; other texts are native. A Go map is an association list with
-- distinct keys, and no theorem depends on its order.
-- Error values are data. A mutex makes each method one step.
--
-- Arguments of the model, since their code is elsewhere: the database (the answers of the pool; for
-- the pages, the record Runs says that it runs a query as SQL says), the file system seen by the
-- tailer, the JSON decoding of bodies, the verification of a token by golang-jwt, the routes that chi
-- does not find, the parsing of times, durations and URLs, the random numbers, the clock, what `%q`
-- writes of a character above 127, and the replies to the agent's and the webhooks' requests. Of golang-jwt the record IsJwt says what it
-- documents of a token with an expiry, and Verifies what it documents of HS256; HMAC-SHA256 itself is
-- an argument too. golang-migrate and pgx are what comes of their calls.
--
-- Fuel. The loop of attempts of the senders has no bound in the source; it runs on fuel here, and the
-- theorem about it gives the outcome for every fuel above the number of attempts. So does the load
-- generator's waiting for the application, with its lemma wait_ready_lem. The pages of a log
-- query are followed at most as often as the fuel says; as many pages as the table has rows suffice,
-- since every page but the last has a row.
--
-- Not modelled: the formatting of most JSON, logging but for the lines of the stub and of the demo
-- application, the HTML template, the schema, the deployment files, the
-- examples in other languages and the JavaScript SDK. Within the server process a request, a scan
-- with its calls of onDown and an evaluation are one event each; the drain of the requests at the end
-- is one output, and the signals and the listener's error are the same event.
pub mod Base
pub mod Model
pub mod Storage
pub mod Server
pub mod Agent
pub mod Alerting
pub mod Api
pub mod Config
pub mod Dashboard
pub mod Logtail
pub mod System
pub mod Demo
pub mod Client
pub mod Stub
pub mod Tests
