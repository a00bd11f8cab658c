-- ===== src/Lib.antt =====
-- Tark provisions Kubernetes clusters on Azure and deploys language models on them. An API server
-- (internal/http) takes requests, stores rows in PostgreSQL (internal/store) and puts tasks on a
-- Redis queue (internal/queue, internal/worker/client.go); workers (internal/worker/server.go)
-- take the tasks, run Pulumi and SSH (internal/worker/provisioner.go, ssh.go) and the Kubernetes
-- API (internal/kube), and write the outcome back to the rows.
--
-- Models        internal/models: the rows and the statuses.
-- Store         internal/store/postgres.go with the schema of migrations/001_init.sql and 002_jobs.sql.
--               Insert, Select and Update have the statements as functions of the four tables, and
--               Methods the methods of PostgresStore, over a connection that may fail.
--               Migrate has migrate.go: the file names, the checksum, the loop and its transactions.
--               Open has NewPostgresStore.
-- Queue         internal/queue/queues.go, internal/worker/tasks/tasks.go, internal/worker/client.go.
-- Cache         internal/cache/keys.go.
-- Kube          internal/kube: the objects of a model, and the calls that make and remove them.
-- Crypto        internal/crypto/aes.go. Base64 is encoding/base64's standard encoding.
-- Worker        internal/worker/server.go: Provision, Deploy, Destroy and Delete are the four handlers,
--               Kubeconfig the retries and the rewriting of the server line, Shared what they share.
--               Provisioner is provisioner.go and ssh.go.
-- Http          internal/apierror and internal/http/handlers: ApiError, Validation (validate.go),
--               Provision (provision.go), Deploy (deploy.go) and Jobs (jobs.go). Proxy is proxy.go: Resolve
--               finds the target of a model through Probe (the dials) and Select (round robin), and
--               Table has the reverse proxies. Ready is the readiness check of internal/http/router.go.
-- Config        internal/config/config.go; Worker is what cmd/worker/main.go and NewServer make of it, and
--               App what internal/app/app.go does.
-- Program       the routes of internal/http/router.go, the handlers that registerHandlers registers,
--               Reach, the states that both processes together can reach, and Accepted, the path of a
--               request from its answer to the worker.
-- System        the setting of the model: Env is everything the code calls and the repository does not
--               contain, Act the code that calls it, and Keeps, Ensures, Leads and Quiet how theorems
--               about such code are composed.
-- Text, Common  what is used of Go's strings and numbers, and the shared helpers.
-- Tests         an environment, rows and tasks, and the theorems at them.
--
-- A handler is a function of an environment and a world: the tables, the trace of the calls to
-- Redis, the queue, Kubernetes, Pulumi and SSH, the table of reverse proxies, and the moment, a
-- count of the calls. Every answer of the environment may depend on the moment, so that clocks,
-- random numbers, failures and other processes are covered; nothing is assumed of the answers but
-- what a theorem's hypotheses name. An update of the tables happens at once with its call, and a
-- refused or failed statement changes nothing. A statement under a context that has ended is
-- refused, as pgx does; a listing whose rows.Err the code does not look at may be cut short.
-- Keeps P m says that m keeps P of the tables whatever the answers are; Ensures H Q m says that Q
-- holds of the result and of the tables after m in every environment with H; Leads adds what
-- holds of the tables before m, and Returns says what a result tells of the answers it came from.
--
-- Fuel: the health wait has the 90 rounds and the kubeconfig fetch the 30 rounds of the source.
-- The rewriting of a kubeconfig, with what regexp makes of a `$` in the replacement
-- (Text.Expand), takes at least one byte a round, so its length is enough. A number n is written
-- with n + 1 rounds, and has no more digits.
--
-- The migrations have a state of their own, the table schema_migrations and the scripts that were
-- committed, because what a script does to the tables is the server's. A transaction collects
-- what its statements have done, and a commit makes it visible; one that fails may have been
-- made. The table of reverse proxies is changed by critical sections, which Table.Valid
-- interleaves in any order; the readiness check runs for every order of its two calls and of
-- their answers.
--
-- Two handlers run one after the other in Reach; that one handler may run between two statements
-- of another is not modelled. Not modelled are the wiring of the two processes (cmd) and the
-- worker's Run, the methods of internal/cache/redis.go, which only call the Redis client, and the
-- Pulumi program (infra/azure), which declares resources. Logging has no effect on what is
-- modelled.
pub mod Common
pub mod Models
pub mod Store
pub mod Queue
pub mod System
pub mod Kube
pub mod Text
pub mod Cache
pub mod Crypto
pub mod Worker
pub mod Http
pub mod Config
pub mod Program
pub mod Tests
