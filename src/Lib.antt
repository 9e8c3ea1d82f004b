-- ===== src/Lib.antt =====
-- Kaggen is an assistant server: a coordinator agent dispatches tasks to sub-agents, which run in the
-- background, alone or as the stages of a pipeline.
--
-- The parts, and how they interact:
--
-- Vfs.antt, internal/vfs/memfs.go: the in-memory file system. Nodes stand in a store under addresses,
-- as the Go maps hold pointers. Vfs/Paths models `clean` and `split`, Vfs/Handles models `OpenFile`
-- and `memWritableFile`. Vfs/Tree has the invariant and the walk along a path, Vfs/Files the place
-- that a path names and what is read there, Vfs/Writing `WriteFile`, Vfs/Dirs removals, Vfs/Making
-- `MkdirAll`, Vfs/Validity that each operation keeps the invariant (Vfs/Validity/Opening for files that
-- are opened), Vfs/Runs sequences of operations. The walk and the loop of `MkdirAll` are structural
-- in the list of path elements, so no fuel is needed.
--
-- Tasks.antt, internal/agent/async.go and approval.go: `InFlightStore`. A method is a function from the
-- store, and from the clock where the code reads it, to the new store and its result; the mutex of the
-- store makes each method one step. Tasks/External has the approvals, the external tasks and the reaper.
-- Its other children prove: Tasks/Lifecycle the invariant over sequences
-- of calls, Tasks/Cancellation, Tasks/Closing (tasks that have ended), Tasks/Expiry (the reaper), Tasks/Draining (queued results),
-- Tasks/Accounting (events and tokens). Progress.antt has the maps of pipeline stages and start times
-- of the same store.
--
-- Pipeline.antt, internal/pipeline/pipeline.go: loading of pipelines, the table of the agents that they
-- gate, and the search for the agent of a stage.
--
-- Dispatch.antt, internal/agent/async.go, `dispatch`: the checks before a task is started, which read
-- the store's progress and the table of pipeline agents, and the registration. Dispatch/Run.antt models
-- the goroutine that runs the task: the loop over the events of the sub-agent with its circuit
-- breakers, and what it does with the task at the end. The loop is structural in the list of events
-- that the channel delivers.
--
-- WorldModel.antt, internal/agent/worldmodel.go: the execution state of a session and the advice to
-- pivot or to escalate; WorldModel/Streaks relates the error streak to the log of calls, and
-- WorldModel/Sessions is the in-flight store's map of the models.
--
-- RateLimit.antt, internal/channel/telegram_ratelimit.go and whatsapp_ratelimit.go: the spacing of what
-- is sent and the sliding window of what is accepted; RateLimit/Window relates it to the whole log.
--
-- Trust.antt, internal/trust/tier.go and sandbox.go: the tiers of senders and the sandbox for third
-- parties, whose messages a channel hands over; Trust/Limits has its theorems.
--
-- Backlog.antt, internal/backlog: the persistent queue of work items as a table of rows; Backlog/Links
-- has what the end of a dispatched task does with its linked item and with the parent plan
-- (internal/agent/async.go).
--
-- Supervisor.antt, internal/agent/supervisor.go: what the supervisor keeps of a task and its verdicts,
-- which the loop of Dispatch/Run takes as a parameter; Supervisor/Memory has what it remembers,
-- Supervisor/Verdicts what its verdicts can do in that loop.
--
-- Context.antt, internal/agent/context_manager.go: the token estimate of a conversation and how it is cut;
-- Context/Emergency has the last level and the choice of the level, Context/Pruning and Context/Recent
-- prove what is left.
--
-- Callbacks.antt, internal/gateway/callbacks.go and internal/pubsub/bridge.go: the HTTP handler that
-- completes external tasks in the in-flight store, and the bridge that posts queue messages to it;
-- Callbacks/Delivery and Callbacks/Repeats have its theorems.
--
-- Watchdog.antt, internal/agent/watchdog.go: the scan of the in-flight store for tasks that run too long;
-- Watchdog/Status models the tools that show the store (async_status.go, cancel_task.go,
-- pipeline_status.go), Watchdog/Alerts follows the watchdog over its ticks. Tasks/Machines.antt sets the
-- store against an abstract machine for one task.
--
-- Proactive.antt, internal/proactive: the run of a scheduled job with its retries, counters and history;
-- Proactive/Retries counts them. What each attempt meets is an argument, and the loop is structural in the
-- attempts that are left.
--
-- Tokens.antt, internal/auth/token.go, internal/p2p/auth.go and gater.go: the token store, the handshake
-- that uses it and the peer allow list; Tokens/Validity has its theorems. Security.antt,
-- internal/security/sandbox.go: the checks of commands and paths, with Security/Traversal on path elements.
-- Scoped.antt, internal/vfs/scoped.go: the file system that is confined to a directory, over the path rules
-- of Vfs/Paths; Scoped/Confinement has its theorem.
--
-- Usage.antt, internal/model/usage_tracking.go: the accumulators of token usage; Usage/Slots.antt,
-- internal/model/ratelimit.go: the semaphore of a model as a step relation on its calls.
--
-- Assertions.antt, internal/eval/assert: the assertions of an evaluation; Assertions/Tools evaluates them,
-- Assertions/Sequences and Assertions/Results have the theorems.
--
-- Transcripts.antt, internal/session/file_service.go: the sessions that are kept in files, with their forks
-- and states; Transcripts/Forks and Transcripts/Isolation have the theorems.
--
-- Guarded.antt, internal/agent/guarded_graph.go and autorule.go: the paused executions, the checkpoint saver
-- and the automatic rules; Guarded/Lineages has the theorems.
--
-- Replays.antt, internal/eval/replay: the recorder of a model's answers and the replayer; Replays/Faithful
-- has the round trip. Each answer is taken to be read to its end before the next request.
--
-- Oauth.antt, internal/oauth: the pending flows of flow.go and the token store of sqlite_store.go, over
-- parameters for AES-GCM's Seal and Open; Oauth/Flows has the theorem on states, Oauth/Refresh those on tokens.
--
-- Base.antt and its children have Boolean tests, lists over the native numbers, byte strings and
-- association lists, which model Go's maps: iteration order is not observed, except where a result is
-- a list in map order, and there it is the order of the association list. Times are numbers of
-- nanoseconds, and 0 is Go's zero time. Go strings are lists of bytes. The numbers that count turns,
-- tokens and stages are unbounded; Go's are 64 bits wide.
--
-- Not modelled: input and output (messengers, HTTP and web sockets, the peer-to-peer host, the
-- language models), logging, the formatting of messages, and the interleaving of goroutines inside one
-- method, which the mutexes exclude; the handler of callbacks, which holds no lock, takes the store
-- twice, as it is read and as it is changed. The decoding of YAML and JSON, regular expressions, hashes, the
-- operating system's resolution of links, the supervisor of a run and the texts of errors are parameters.
-- SQL statements are translated to what they say, but for the order of a query's rows, an argument. Scores are fractions; the mean of scores is left out.
--
-- Tests.antt and its children apply the results at concrete values.
pub mod Assertions
pub mod Backlog
pub mod Base
pub mod Callbacks
pub mod Context
pub mod Dispatch
pub mod Guarded
pub mod Oauth
pub mod Pipeline
pub mod Proactive
pub mod Progress
pub mod RateLimit
pub mod Replays
pub mod Scoped
pub mod Security
pub mod Supervisor
pub mod Tasks
pub mod Tests
pub mod Tokens
pub mod Transcripts
pub mod Trust
pub mod Usage
pub mod Vfs
pub mod Watchdog
pub mod WorldModel
