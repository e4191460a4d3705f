-- ===== src/Lib.antt =====
-- mailclear validates lists of email addresses. An address goes through a chain of stages (form, top
-- level domain, typos, disposable domains, role names, mail servers), gets a score and a status, and
-- is stored under a job. Lists come in over HTTP, are cut into tasks for a pool of workers, and go out as
-- pages or as CSV. This library models these parts and what lies under them.
--
-- The parts, with the files that model them:
--
-- - Typo: internal/validation/typo. `Typo.Distance` is `DamerauLevenshtein` with its three rotated rows,
--   where a read or write out of bounds, a panic in Go, is `none`;
--   `Typo.Corrector` is the loader with its buckets and `Suggest`. `Typo.Edits` is the independent
--   description of a distance, by scripts of edits.
-- - Validation: internal/validation. `Validation.Pipeline` is `Pipeline.Run`, `Validation.Scoring` is
--   `ScoreEngine.Apply` with the score section of internal/config, `Validation.Validator` is `Validate`
--   and `ValidateBatch`, and `Validation.Stages` has one module for each file of
--   internal/validation/stages, put together in `Validation.Stages.Chain` in the order of `app.New`
--   (internal/app/app.go).
-- - Lookups: the registry of disposable domains, the detector of role names, and the classifier and
--   grouping of domains, of internal/validation/disposable, role and domain.
-- - Dns: internal/dns. `Dns.Settings` has its constructors. `Dns.Client` is `Client.Query`,
--   `Dns.Resolver` is one resolution with its fallback to addresses and its three attempts, `Dns.Lookup`
--   is `LookupMX` and `IsCached` over the cache. `Dns.Semaphore` is the adaptive semaphore as a transition
--   system, one step for each time the lock is held and one for the counter that `Release` raises after
--   it, and `Dns.Aimd` its controller with the reader of counters.
-- - Cache: internal/cache, the in-memory layer, the Redis layer, their cascade and the jitter.
-- - Importer: internal/importer, the batcher, the loop over CSV rows and the set of seen emails.
-- - Jobs: internal/jobs with its tables in internal/storage. `Jobs.Repo` is the row of a job
--   (jobs_repo.go), `Jobs.Results` the table of results (results_repo.go), `Jobs.Submit` is `Submit` with
--   the waiter, `Jobs.Handler` the handler of one task with its pre-warming, `Jobs.Manager` `Create`, `Get`
--   and the operations on the row with an id, `Jobs.Requeue` is `Requeue` and `Jobs.Export` the pages of
--   `ExportCSV`. `Jobs.Lifecycle` is one job as a transition system: the two statements of each task, the
--   two of the waiter, and those of the operators, in any order; `Jobs.Lifecycle.Whole` and
--   `Jobs.Lifecycle.Delivered` put it together with `Submit` and the validator.
-- - Workers: internal/workers. `Workers.Pool` is `NewPool`, and the pool after `Start` as a transition
--   system, one step for each send, receive, end of a handler and return of a worker; `Workers.Retry`
--   is `Retry` and `Workers.Backoff` its delay.
-- - Storage: the tables of domains of internal/storage, the transaction and the pool of connections, and
--   cmd/seed-disposable.
-- - Server: internal/server/handlers, one module for each file of handlers, from the decoded request to
--   the reply: `Server.JobHandlers`, `Server.ImportHandlers`, `Server.ValidateHandlers`,
--   `Server.AdminHandlers` with `Server.StatusPage`, `Server.AdminOps` and `Server.Health`, over the
--   replies and numbers of `Server.Http`; `Server.Routes` is the table of routes and `Server.Middleware`
--   what stands around each handler (router.go, middleware/metrics.go, internal/logger/middleware.go).
-- - App: `App.Lifecycle` is the two processes of cmd/server and cmd/worker with the signal, the listener
--   and `Shutdown` (internal/app/app.go), `App.Lists` the lists that a process loads and updates
--   (internal/validation/disposable/updater.go), `App.Config` internal/config, `App.Startup` `New` of
--   internal/app/app.go with the flags of the commands, and `App.Migrate` cmd/migrate.
-- - Text is Go strings as bytes with the functions of the package strings, Base what all parts share,
--   and Tests holds inputs at which the theorems apply.
--
-- How the parts meet: the chain of stages takes a lookup of mail servers as a function; `Dns.Lookup` is
-- the code behind that function and stores its results through `Cache.Multi`. `Jobs.Handler` counts the
-- emails that `Validation.Validator` returns. `Jobs.Submit` cuts the list of emails into tasks, and takes
-- what the pool answers as a function. `Server.ImportHandlers` goes from the rows of a file through
-- `Importer.Reader` to `Jobs.Submit`, and asks `Workers.Pool` how full it is. `Jobs.Export`,
-- `Jobs.Requeue` and `Server.JobHandlers` read the table of `Jobs.Results`. A process of `App.Lifecycle`
-- holds a pool of `Workers.Pool`, and what happens to it is a run of that pool.
--
-- Numbers: counters and lengths are natural numbers, as no run gets near 2^63; scores are integers.
-- Durations are nanoseconds or seconds as said in each file. The rates of the controller are compared
-- by cross multiplication. Loops over lists are recursion; the slices of `Submit` take as much fuel as
-- there are emails, each slice at least one, the pages of an export one more than there are rows, and
-- the digits of a number one more than the number. The attempts of the resolver and of `Retry` and the
-- datagrams of the client are counted loops. The offset of a list and the delay of `Backoff` keep the
-- width that the source gives them, 32 and 64 bits.
--
-- Parameters: the Unicode tables beyond ASCII, NFC and IDNA, net/mail, encoding/csv, the store of
-- hashicorp's LRU cache (of which it is used that an entry just added is there), the Redis client, the
-- JSON codec, the exchanges of miekg/dns, the token buckets of golang.org/x/time/rate, the random
-- numbers, the errors of PostgreSQL, its choice among duplicates, its folding and its order of texts, the
-- bodies of requests and downloads, D-Bus and journalctl, the middlewares of chi, and
-- golang-migrate.
--
-- Not modelled: how chi matches a path, the dashboard (a page of HTML), the circuit breaker (a wrapper of
-- a third-party one), what is logged but for the line of a request, the registration of metrics, the
-- notices to systemd, and the timing of goroutines other than in the semaphore, the pool and the
-- statements on one job. Statements on the tables run one after the other. A caller that joins another
-- one's flight in `LookupMX` gets the result of that flight, and only the flight is modelled.
pub mod App
pub mod Base
pub mod Cache
pub mod Dns
pub mod Importer
pub mod Jobs
pub mod Lookups
pub mod Server
pub mod Storage
pub mod Tests
pub mod Text
pub mod Typo
pub mod Validation
pub mod Workers
