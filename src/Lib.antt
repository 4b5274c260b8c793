-- ===== src/Lib.antt =====
-- Verification of thumbelina, a personal assistant: an agent with tools behind an API, a scheduler
-- of tasks, chat channels, memory and retrieval. Fourteen parts of it are modelled here.
--
-- * The task scheduler (src/thumbelina/scheduler). Tasks are kept as shared objects in a working set
--   and written through to a task table; a polling loop fires what is due, a heartbeat inspects the
--   tasks beside it, and recovery repairs what a restart left behind. Scheduler/Models and
--   Scheduler/Cron are models.py and cron.py; Scheduler/Store is the task table of store.py;
--   Scheduler/State is the `TaskScheduler` object with `_persist`, `_emit` and `_lookup_task`;
--   Scheduler/Crud holds `add_task`, `cancel_task`, `complete_task`, `get_due_tasks`, `pause_task`
--   and `resume_task`; Scheduler/Fire holds `_fire_task`, `_execute_prompt` and `_settle_prompt`, cut
--   at the `await` of the callback; Scheduler/Recover holds `recover`; Scheduler/Restart
--   holds the constructor and `start`; Scheduler/Heartbeat holds the checks of heartbeat.py.
--   Scheduler/Steps puts these together as steps in any order, so that what other coroutines do during
--   a delivery is between its two halves; its restart is `recover` on a new scheduler object over the
--   same table, as in a new process, and `stop` and the death of the polling loop are no steps. A
--   write to a task object is a write at its key of the working set; a store call fails when the
--   store's `up` says so, and the failure is swallowed as in the source. Scheduler/Codec, Keyed,
--   Synced, Writes, RoundWrites, PassWrites, Remaining, Hydrated, Skipped, Slots, Paused, Verdicts,
--   Recovered and RecoveredLoop are proofs.
-- * The permission gate (src/thumbelina/tools/permissions.py), which decides on every tool call of
--   the agent. Permissions/Modes, Shell, Paths and Gate are the source's sections in its order;
--   Ladder, Floor, Spelled and Guarded are proofs.
-- * The rate limiter of the API (src/thumbelina/security/rate_limit.py), in RateLimit, with its
--   proofs in RateLimit/Window and RateLimit/Answers.
-- * Context compression (src/thumbelina/agent/compression): Compression/Messages is the token
--   estimate of base.py, Compression/Units its atomic units, Compression/Window the sliding window of
--   sliding_window.py with its proofs in Compression/Kept, and Compression/Pairing the repair of tool
--   pairing of base.py with its proofs in Compression/Repaired and Compression/Untouched.
-- * The resolver of plugin dependencies (src/thumbelina/plugins/resolver.py), in Plugins/Resolver with
--   the metadata of dependency.py in Plugins/Metadata. Plugins/Edges is an independent reading of the
--   dependency graph as a list of edges, Plugins/Requirements ties it to what the plugins declare, and
--   Plugins/Kahn, LoadOrder and Resolved are proofs.
-- * The broker of permission requests (src/thumbelina/api/permission_broker.py), in Approvals, with its
--   steps in any order in Approvals/Steps and its proofs beside them.
-- * The upload tasks of the retrieval pipeline (src/thumbelina/rag/pipeline/upload_tasks.py), in
--   Uploads. Uploads/Steps puts its operations, and the coroutines of `run` that wait at the semaphore
--   or work, together as steps in any order; its other files are proofs, History and Workers with the
--   results.
-- * The life cycle of subagents (src/thumbelina/subagents), in Subagents, with its steps in any order in
--   Subagents/Steps and its proofs in Stages, Executions and Limits.
-- * The tool loop of a subagent (src/thumbelina/subagents/manager.py) with the node that executes
--   tools (src/thumbelina/agent/nodes.py), in ToolLoop: each call goes through the permission gate of
--   Permissions/Gate. A `TimeoutError` of a tool where no timeout is set raises a `TypeError` through
--   `gather`, which is the `none` of `tool_node`. Gathered, Gated, Paired and Filled are its proofs.
-- * The bus of task events (src/thumbelina/scheduler/events.py), in Events, with its proof against the
--   history of subscriptions in Events/Subscribed.
--
-- * The execution of tool calls by the main agent (src/thumbelina/agent/graph.py), in Agent: Gate is
--   `_permission_gate` and Node is `_tool_node_node`, which executes through ToolLoop's `tool_node`
--   and whose user's answers are those of Approvals. The policy and the tools are parameters; a run
--   that waits for an answer is the result `interrupted`, and it is resumed with the answer as an
--   argument; a node that an exception of `tool_node` leaves is the result `broke`. Numbered, Executed, Answered, Passed, Closed and Messages are proofs.
-- * The chunkers of documents (src/thumbelina/rag/ingestion/chunker.py), in Rag/Chunker on the texts of
--   Rag/Texts. The loop of `_split_by` runs on fuel, one more than the number of characters: each round
--   takes at least the separator away; that of the chunker of fixed size has the number of characters as
--   fuel, since each round begins at least one further. Positions, Cuts, Pieces, Slices, Covers, Kept,
--   Sizes, Fixed and Chunked are proofs.
-- * The indexer of documents (src/thumbelina/rag/pipeline/indexer.py): Rag/Indexer is
--   `_embed_and_store`, and Rag/Files the indexing of files and batches around it, with the
--   deduplicators of chunks and documents (src/thumbelina/rag/ingestion) in Rag/Fingerprints and
--   Rag/DocumentDedup. The loader, the chunker, the embedding model and the vector store are parameters;
--   any call of the store may raise, but deleting by document returns; what is used of a store is the
--   record `IsStore` of Rag/RolledBack, which is a proof, as are Rag/Stored and Rag/Reported. The loop over the batches of chunks has their number as fuel, since each round
--   takes at least one.
-- * The file of to-do items (src/thumbelina/todo/parser.py), in Todo: `parse_todolist` and
--   `serialize_todolist` on texts as in Rag/Texts. Splitting and RoundTrip are proofs.
-- Prelude holds shared helpers: native-number tests, conditionals, lists, and dictionaries as
-- association lists. The files named Examples hold concrete runs.
--
-- Times are natural numbers, and each reading of the clock is an argument, as is each generated id.
-- The count of skipped cron occurrences is bounded by 10000, which is the source's own bound; the loop
-- of the resolver has the number of plugins as fuel, which is enough when their names are distinct, as
-- the keys of a dict are; the rounds of the tool loop are the source's own limit. What is not under
-- src/ is a parameter: croniter (`Croniter`), regular expressions (`Regex`), case folding of
-- characters other than A to Z and the resolution of paths (`PathContext`), the width of characters,
-- the replies of language models, which characters are white space or end a line, how a tool ends, and what a hook of the event bus does. The
-- resolver is modelled for any comparison of a version with a constraint (`satisfies`), so that its
-- theorems hold whatever that comparison answers. It is assumed of croniter, where a theorem says so,
-- that `get_next` is strictly after its start, as its documentation says.
--
-- Not modelled: the asyncio loops themselves, start and stop of the scheduler, the table of events,
-- the comparison of versions of dependency.py; and the parts of the program that are glue around
-- services (API, channels, language models, database, front end).
pub mod Prelude
pub mod Scheduler
pub mod Permissions
pub mod RateLimit
pub mod Compression
pub mod Plugins
pub mod Approvals
pub mod Uploads
pub mod Subagents
pub mod ToolLoop
pub mod Events
pub mod Agent
pub mod Rag
pub mod Todo
