-- ===== src/Lib.antt =====
-- A model of the core of eka-ci, a continuous integration server for Nix: the graph of derivations
-- and its service, the recorder of build results, the queues before the builders, the circuit
-- breakers of remote builders, the eviction policy, the rules for automatic merges and caches, the
-- summary of what a pull request changes, and the coalescing of pushes to a release channel.
--
-- The parts. backend/graph keeps the derivations in an LRU cache with edges both ways, an index by
-- build state and the failures that block others; backend/graph/src/service owns that graph, serves
-- commands one at a time, and keeps a mirror that other threads read without asking. The recorder
-- (backend/server/src/scheduler/recorder) takes the results of builds, writes them to the database
-- and to the graph, and sends derivations that may now be built back to the ingress. The build queue
-- (backend/server/src/scheduler/build) sorts requests by platform, routes them to a builder loop and
-- asks the circuit breaker of a remote builder first. backend/change_summary compares the packages of
-- two jobsets, asks the graph how much a change rebuilds, and renders both into the text of a check;
-- dependency_comparison.rs compares the runtime references of the outputs. A release channel
-- (backend/server/src/channels) evaluates one commit at a time and keeps the newest one waiting.
--
-- The files.
--   Prelude, Prelude/*: numbers, lists, maps and sets as lists, texts as lists of code points.
--   Drv, Drv/States: backend/shared/src/types/build_state.rs and drv.rs. A DrvId is a number that
--     stands for the store path; the code compares and orders these and does not look into them.
--   Drv/Identifier: backend/shared/src/types/drv_id.rs, the texts that are identifiers.
--   Graph/Cache: what the code relies on of the crate lru, as an interface with its laws, and
--     Graph/Cache/Listed, a cache with a capacity that satisfies it.
--   Graph/State: backend/graph/src/graph.rs, GraphNode, BuildGraph, insert_node, add_edge,
--     update_state and the queries. Graph/Search: get_all_transitive_dependents,
--     reverse_reachable_from_set, blast_radius_per_seed. Graph/Failures: propagate_failure,
--     clear_failure, evict_stale_failures. Graph/Index: the index by state. Graph/Candidates:
--     backend/graph/src/eviction.rs.
--   Service/State, Service/Operations, Service/Commands: backend/graph/src/service, its state,
--     operations.rs, and handle_command and run of mod.rs. Service/Mirror: the mirror.
--     Service/Startup: from_database of graph.rs and GraphService::new.
--   Scheduler/Recorder: recorder/request_handler.rs and state.rs. Scheduler/Features: build.rs and
--     the checks of features in build/system_queue.rs. Scheduler/Ingress: CheckBuildable and the
--     sweep of ingress.rs. Scheduler/Substitution: its search for cached derivations.
--     Scheduler/Evaluation: its handle_eval_task, with the dry run of Nix as an argument.
--     Scheduler/Routing: PlatformQueue of build/system_queue.rs. Scheduler/Pending,
--     Scheduler/Polling: build/queue.rs.
--     Scheduler/BuilderThread: build/builder_thread.rs.
--     Scheduler/Builders: loop_builds of build/system_queue.rs, one round of its loops a step.
--   Breaker, Breaker/Registry: build/circuit_breaker.rs.
--   AutoMerge: backend/server/src/auto_merge/mod.rs.
--   Permissions: backend/server/src/cache_permissions.rs.
--   Comments: backend/server/src/github/webhook/comment_command.rs.
--   Prelude/Ordered, Prelude/Bytes: sorted vectors, BTreeMap and BTreeSet as ascending lists; texts
--     measured in bytes of UTF-8, and numbers written out.
--   Changes/Names: backend/evaluator/src/utils.rs. Changes/Labels, Changes/Classify:
--     backend/change_summary/src/classify.rs, with the parser of JSON as a parameter. Changes/Summary:
--     types.rs of the same folder. Changes/Impact: impact.rs, and the headline of cache.rs.
--     Changes/Render: render.rs; a panic is none.
--   Dependencies: backend/server/src/dependency_comparison.rs.
--   Channels: backend/server/src/channels/coalescer.rs, and one channel as it is pushed to.
--     Channels/Evaluator: evaluator.rs of the same folder. Channels/Config: mod.rs and the channels of
--     config.rs. Channels/Store: backend/server/src/db/channels.rs. Channels/State, Channels/Service:
--     service.rs, with the loop of services/async_service.rs.
--
-- How the code corresponds. A struct is a record and an enum a data type. A method that changes its
-- receiver gives the new state, with its result beside it. Sets and maps are lists without an order
-- that a statement relies on. Instants and durations are nanoseconds, and the present time is an
-- argument. The database is an interface over a type of states, and any of its calls may fail. A call
-- over a channel with a reply is a call; a bounded channel that may be full is a list with a capacity
-- or a flag that says if there is room.
--
-- Bounds and fuel. The searches run on fuel: each round takes an id off the queue, and an id enters
-- it at most once, so the ids of the seeds and of all dependents are enough, which is proved. A
-- number is written out in as many rounds as it is large, which is more than it has digits, and a
-- suffix is taken off a text at most once for each of its characters. The other functions are
-- structural. Counts of lists stand for machine words of 64 bits where the code passes the largest
-- one.
--
-- Not modelled: metrics, logging and broadcasts, which change no other state; SQL but that of the
-- promotions of channels, processes and remote interfaces; the rebuild of failed derivations and the
-- journal of the ingress; the journals of services; the queries behind the change summary and its
-- cache in the database.
mod Prelude
pub mod Drv
pub mod Breaker
pub mod Channels
pub mod Comments
pub mod Changes
pub mod Dependencies
pub mod Graph
pub mod Service
pub mod AutoMerge
pub mod Permissions
pub mod Scheduler
