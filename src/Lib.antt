-- ===== src/Lib.antt =====
-- Verification library of pi-mcp, an MCP server that runs pi workflows as background jobs.
--
-- A client submits a job (internal/mcpserver); the job registry (internal/jobs) admits or queues it,
-- launches a pi process, follows it to its end, and keeps every state in a table that several servers
-- share. The job adapter (internal/app) makes a git worktree for a job that writes (internal/worktree),
-- and the launcher reads the stream of the process twice: the parser finds its outcome, the observer
-- its session and what it authors. pi writes a run file, which the run store (internal/runstore) reads;
-- pi_status combines the job's record, the run file and the worktree into an answer, and its long poll
-- waits for a change. The dashboard (internal/dashboard) reads the same table and files: its poller
-- broadcasts changes through a hub to the clients of a stream, and its server answers with details.
--
-- Which file models what:
-- Prelude, Prelude/*: tests, lists, dictionaries, texts, stable sorting, and Go's time.Time and
--   time.Duration. A time is the number of nanoseconds since the zero time; a difference saturates at
--   64 bits, as in Time.Sub.
-- Model, Config: the types of internal/model/model.go and the constants of internal/config/config.go.
-- LiveStatus: MapDisk, IsTerminal and Derive of internal/livestatus/livestatus.go.
-- Jobs/Store: the statements of internal/jobs/store.go on a dictionary from job ids to rows:
--   UpsertJobs, ClaimTerminal, SaveSnapshot, AllJobs, migrateLegacyJSON and OpenStore.
-- Jobs/Reconcile: Reconcile of internal/jobs/reconcile.go and pidAlive of internal/jobs/liveness.go.
-- Jobs/Liveness: effectiveStatus. Jobs/Job: internal/jobs/job.go.
-- Jobs/Registry and its children: internal/jobs/registry.go and cancel.go. Each section under the
--   registry's mutex is one function: submit, launched, begin_attempt, after_wait, decide,
--   reset_attempt, relaunched, session_event, poll_run, finish, finish_tail, cancel, close. The phase
--   of a job says where its goroutine stands between two sections, and the state of its correlate
--   goroutine where that one stands.
-- Jobs/Registry/Call: Submit as one call: its first section, the start of an admitted job with the
--   launcher's answer, and the snapshot that it returns, with any events of others in between.
-- Jobs/Registry/Steps: the registry as a state machine. An event is a call of a client or a move of a
--   goroutine; a reachable registry is one after any sequence of events, so that every interleaving of
--   the sections is covered. The id of a submit is one that the registry does not know yet, as the uuid
--   library promises.
-- RunStore: EventsSince, Intermediates, truncatePreview, RawToAny, ModelHistogram and Metadata.
--   RunStore/Files: ReadRun, ListRuns, RunIDForSession, Load and ReadAuthoring of internal/runstore,
--   over the entries of a directory and a decoder of its files.
-- McpServer/Delta, Coerce, Validate: delta.go, coerce.go and validate.go of internal/mcpserver.
-- McpServer/Handlers: handleWorkflow, handleList and handleCancel over the record JobsService, which
--   JobsAdapter/Service fills. McpServer/Handlers/Contract: what such a service promises.
-- McpServer/Status: resolveTarget, buildStatus and their helpers in handler_status.go. The record
--   World holds what the ports of the server answer. McpServer/Wait: waitForChange, as a function of
--   what each turn of its loop sees.
-- Runner: BuildArgv, RenderPrompt, Spawn and Wait of internal/runner, with the template of
--   internal/config.
-- Parser: ParseStream and Err of internal/parser/parser.go, over the reads of the stream.
-- Launcher: internal/app/launcher.go. A step is a line that the observer reads or a snapshot that the
--   writer takes, in any order; a text is its bytes.
-- JobsAdapter: internal/app/jobs_adapter.go over Jobs/Registry and Worktree. JobsAdapter/Tree: the file
--   tree that a walk of a worktree sees.
-- Worktree: New, Create, Diff, WriteInfo and Prune of internal/worktree/worktree.go. The record Os holds
--   git and the file system, as functions on a state.
-- Dashboard/Hub: internal/dashboard/hub.go and the loop of handleEvents. Dashboard/Poller: poller.go, a
--   turn being one reading of the registry. Dashboard/Detail: BuildDetail, readRun and registry.go.
--   Dashboard/Server: handleJob and the other handlers of server.go. Dashboard/Activity: worktree.go.
--   Dashboard/Tailscale: tailscale.go and resolveAddrWait of cmd/pi-dashboard.
-- Watch: Subscribe and its goroutine of internal/watch/watch.go. A path is the list of its elements, and
--   a step is an event, the end of the timer, an error, the end of the watch or a receive.
-- App: statePaths, buildRegistryReal and reconcileLoop of internal/app/app.go, with StateDir,
--   RegistryPathFor and WaitCap of internal/config/config.go. App/Serving: Run, whose periodic sweep is
--   one step among the events of the registry.
-- Dashboard/RunCache, Dashboard/State: the cache of internal/dashboard/runcache.go and BuildState with
--   summarize of state.go. The cache has one reader at a time.
--   Its parse is ReadRun, which may read a backup.
-- Tests: the theorems at concrete inputs.
--
-- Bounds: the loops are recursion over lists, but for the retries of a load, which count down from
-- four as in the code. Numbers that the code keeps as counts are natural numbers; those that it reads
-- from files or callers are signed. The sum of tokens wraps at 64 bits; no other number comes near them.
--
-- Parameters: encoding/json (the decoder of a result or a line, and the record Codec), the test of a
-- process by a signal, git and the file system (the record Os), sha256, whether a transaction commits, the clock, the
-- ids of the uuid library, what fsnotify can add, net.ParseIP, the output of
-- the tailscale command, whether a process starts, and time.ParseDuration.
--
-- Not modelled: the constructors of the MCP and HTTP servers and the rest of cmd. Stderr output, contexts'
-- deadlines, timers and HTTP headers have no model. A Go map's iteration order is the order of insertion
-- where the result depends on it.
pub mod App
pub mod Config
pub mod Dashboard
pub mod Jobs
pub mod JobsAdapter
pub mod Launcher
pub mod LiveStatus
pub mod McpServer
pub mod Model
pub mod Parser
pub mod Prelude
pub mod RunStore
pub mod Runner
pub mod Tests
pub mod Watch
pub mod Worktree
