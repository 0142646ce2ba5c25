-- ===== src/Lib.antt =====
-- driftd plans the Terraform and Terragrunt stacks of its projects and reports those that drifted. A
-- scan of a project is started by the API, a webhook or the schedule (internal/orchestrate), which
-- takes the project's lock, clones the repository and enqueues one work item for each stack; workers
-- (internal/worker) take the items, plan them and report back; a recovery loop repairs what a crash
-- left. All state that these share is in Redis, and internal/queue is the only code that writes it.
-- Around this stand the configuration (internal/config), which is read once, the projects and
-- integrations that are added at run time (internal/secrets), which two files keep, the schedule
-- (internal/scheduler), which follows them, the API (internal/api), which lets requests through, and
-- the results of the plans (internal/runner, internal/storage), which files keep.
--
-- Redis is a parameter (Redis.antt): a record for each kind of value with the commands that the code
-- sends, and their documented behaviour as laws; Redis/Memory.antt is a server that meets them. An
-- expiry is a deletion at a time of the server's own choice and is no step of any function here.
-- Queue/Store.antt holds the state, one field for each family of keys in internal/queue/keys.go, and
-- what a round trip is: a command, a pipeline or a Lua script runs as one step, or does not reach the
-- server, or runs while its reply is lost, as a schedule of faults says. A Go function is an action
-- on that store which answers a value or an error (Prelude/Effects.antt); an error that Go drops is
-- dropped by `ignore`.
--
--   Queue/Types, Keys, Events   the records, the names and the events of internal/queue
--   Queue/Locks                 client.go and clone_lock.go
--   Queue/Scans, Lookups, Endings, Renewal
--                               scan_store.go: StartScan, CancelAndStartScan, the reads and writes,
--                               FailScan and CancelScan, RenewScanLock
--   Queue/Transitions, Marks    scan_transitions.go: the script on a scan's counters, and the marks
--   Queue/StackScans, Claims, Outcomes, Batches
--                               stack_scan_store.go and stack_scan_queue.go: Enqueue, Dequeue,
--                               Complete, Fail, CancelStackScan, EnqueueBatch; and the
--                               reads of scan_metrics.go (StackScans/Listing)
--   Queue/Recovery              scan_recovery.go, stack_scan_recovery.go, orphaned items
--   Queue/Keeps, Ownership      invariants under every schedule of faults
--   Orchestrate                 internal/orchestrate/orchestrate.go, internal/queue/priority.go,
--                               internal/gitauth/auth.go (Access)
--   Worker                      internal/worker: a work item from its context to its report, a round
--                               of each loop
--   Version, Stack              internal/version/version.go; the lists of internal/stack/discover.go
--   Config                      internal/config/config.go: the settings, their defaults and checks
--                               (Defaults), monorepos and their parts (Projects)
--   Secrets                     internal/secrets: repostore.go (Projects), integrationstore.go
--                               (Integrations), encryption.go (Encryption, Credentials), keystore.go
--                               (Keys), and what the two stores share (Files)
--   Api                         internal/api: middleware.go and the routes of server.go (Auth,
--                               Limits), webhook.go (Webhooks, and Webhooks/Handler for its handler),
--                               handlers_settings.go (Settings), handlers_api.go (Scans,
--                               Reads), dto.go (Dto), helpers.go (Repos, Texts), events_stream.go
--                               (Streams); Orchestrated fills the interface of Scans with
--                               internal/orchestrate
--   Projects                    internal/projects/provider.go (Provider) and url.go (Urls),
--                               internal/secrets/convert.go (Conversion)
--   Scheduler                   internal/scheduler/scheduler.go
--   Storage, Runner             internal/storage/storage.go and internal/pathutil; internal/runner:
--                               runner.go and the text of plan.go
--   Examples                    runs on the server in memory, and the theorems at concrete data
--
-- Bounds. A loop that Go ends by a canceled context (RenewScanLock, Dequeue, the wait for the clone
-- lock) runs over the list or the number of the rounds that it is given, so every function ends; the
-- decimal form of a number has 20 digits at most, enough for 64 bits. Counters are integers without
-- the bounds of Go's int, times are numbers with 0 for the zero time (those of a Scan are nanoseconds
-- since 1970, the zero time among them as it is, in the year 1), and a value that Go keeps as
-- JSON or in decimal is kept as it was written. SSCAN answers all members as one page. Random numbers
-- and readings of the clock are arguments. A search through a text takes its characters one by one, and
-- the functions of Go's packages strings, sort and path are those of Prelude/Text, Sorting and Paths,
-- for ASCII text. A write of a file goes the way that a list of outcomes says (Secrets/Files.antt,
-- Storage.antt); cron is a list of jobs; JSON, base64, AES-GCM, HMAC, package net and the rate limiter
-- are arguments with what they promise as hypotheses.
--
-- A handler of internal/api runs here between two others; in the program two may interleave between
-- their calls of the stores and of the queue. Its answer is the HTTP status with what is printed as
-- JSON, the texts of errors left out.
--
-- Not modelled: git and the tokens of GitHub Apps, the runs of Terraform and the installation of its
-- versions (what they answer is an argument), the redaction of plans, walks over directories, the
-- pages and the connections of the streams, the test of a connection to a repository, the reading of
-- YAML and metrics.
pub mod Api
pub mod Config
pub mod Examples
pub mod Orchestrate
pub mod Prelude
pub mod Projects
pub mod Queue
pub mod Redis
pub mod Runner
pub mod Scheduler
pub mod Secrets
pub mod Stack
pub mod Storage
pub mod Version
pub mod Worker
