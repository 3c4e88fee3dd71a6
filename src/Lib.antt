-- ===== src/Lib.antt =====
-- radioactive-ralph: plans and their import, the durable life of tasks, and the choice of providers.
--
-- The program keeps long-running plans of coding agents going. A plan is a document whose headings
-- are groups and whose list items are steps. The orchestrator imports it as a graph of tasks, with an
-- edge from each task to those it waits for, and the store keeps the graph, the claims of workers,
-- their reports and their heartbeats in one SQLite database. Whatever crashes, the store must hand
-- no task to two workers, no output path to two running tasks, and no dead worker a task for ever.
--
-- Before a turn starts, the orchestrator chooses a provider for it from the pool of the project. A
-- pure policy decides what the parts of a completion add up to.
--
-- * Plan is internal/plan/types.go and decompose.go: groups, steps, positional ids, `walkGroups`
--   (walk_groups), `groupDone`, `leafReady`, `DecomposeRefs` (decompose_refs) and `StepAt`. Groups
--   nest, so `group` and the list of them are one mutual block. Plan.Leaves lists the leaves.
--   Plan.Parse is parse.go over a document that the Markdown library has read: a list of its top-level
--   blocks. Plan.Metadata is metadata.go with the decoding of a block of JSON, whose reader is a
--   parameter, Plan.Validate is validate.go, and Plan.Texts has the text functions of Go.
-- * Orch.Import is internal/orch/plan_import.go with `stepTaskID` of dispatch_graph.go. The closure of
--   `documentOrderEdges` (document_order_edges) over an index and the last terminals is explicit
--   state. The default acceptance, which a regular expression computes, is a parameter. Orch.Edges
--   holds the edges leaf by leaf and what they mean. Orch.Specs joins the parser, the validation and
--   the graph.
-- * Store is internal/store. Schema is the tables as lists of records, and Db all of them. Each
--   operation is one transaction: a function that returns the database after the commit, or an error,
--   which stands for a rollback. Queries has the predicates of the WHERE clauses, Tasks is tasks.go and
--   claim.go, Cycle the cycle search of `addDepOn`, Workers is workers.go with the cascades of the
--   schema, Reaper is reaper.go, Blocks the blocks of task_metadata.go, Plans is plans.go,
--   plan_delete.go, output_reservation.go and plan_graph.go. Names are those of the Go functions in
--   snake case, and a definition's comment names the function.
-- * Store.Partitions is ready_partition.go. The decoding of a declared binding from JSON is a
--   parameter.
-- * Store.Steps is the step relation of the running supervisor: one constructor for each statement
--   that changes tasks, sessions or workers. Store.Lifecycle follows its runs through a diagram of
--   statuses whose arrows are labelled with the calls. Store.Exclusive follows the outputs of running
--   tasks through every history of the store, in which plans, graphs, tasks and edges come and go as
--   well.
-- * Paths is the lexical part of path reservations: `filepath.Clean` and `canonicalReservationPath`,
--   and `isRooted` and `containedIn` of internal/orch/task_paths.go.
-- * Orch.Spend is internal/orch/spend.go with internal/store/spend.go: the caps, the turns in flight
--   and the spend table as one ledger. Its steps are the life of a provider's turn.
-- * Orch.Rotation is the choice of a binding in `dispatchReadyStep` of internal/orch/orchestrator.go, with
--   `CheckAllowedProviders` of internal/provider/capabilities.go: the rotations for `providers`, for a
--   pinned type and for `differentFrom`. The resolver is a function of its cursor. The resolver of
--   the program, over the pool of a project, is Provider.Pool, from
--   cmd/radioactive_ralph/binding_resolver.go, and Provider.Cooldowns is provider_cooldowns.go beside it.
-- * Orch.Acceptance is the acceptance check of internal/orch/verify.go, with `secureProjectPath` of
--   task_paths.go, and Orch.Verify its `VerifyAndCompleteAs` and `CanStopAs`. Commands, the file system
--   and the readers of JSON and Markdown are a record of parameters. The database is given before and
--   after the acceptance command.
-- * Enforcement is internal/enforcement/policy.go: Vocabulary is its types, with unknown values for
--   texts outside the vocabulary, Validation what refuses a request, Evaluation the decisions. The
--   clock, `time.Parse` and `Time.Format`, is a record of parameters.
-- * Provider.Failure is internal/provider/failure.go. An error is what `errors.Is` and `errors.As`
--   answer of it. Provider.Retries joins the retry budget with `mark_failed` of the store.
--
-- The model's conventions. Times are whole seconds, as the stored timestamps are; the clock and fresh
-- ids are arguments. Events stand newest first and carry the value that their JSON encodes. A tie in an
-- ORDER BY goes to the earlier row. Two processes interleave by whole transactions, which the immediate
-- lock of the database gives, so a run of steps is any interleaving. The primary keys and foreign keys
-- that a statement relies on are hypotheses (Keyed, WorkersKeyed, is_staffed). `ReleaseClaim` runs its
-- update and its event as two statements, which are taken as one here.
--
-- Fuel: the cycle search has two more units of fuel than there are edges. Each deeper visit marks
-- one more node, and every node but the first is the target of an edge, so the fuel never runs out.
-- The search for rings of `differentFrom` has one more than the tasks and the named peers. The parser
-- has as many units as the document has blocks, since every call takes a heading off. A rotation
-- looks at 17 candidates, which is the bound of the program itself.
-- Integers are signed in Enforcement and in the metadata of a step; elsewhere no caller passes a
-- negative one. The cursor of a pool is a uint64 and wraps.
--
-- Not modelled: errors of the database itself and the retry of a busy one, cancellation, the tables
-- for messages and hooks, the line numbers and wording of what the parser reports, the front matter
-- of plans (meta.go), the decoder of EvaluateJSON, the layers of the configuration, the launch of
-- turns and the transport of the stop hook, provider processes, the supervisor's sockets and the user
-- interfaces.
pub mod Prelude
pub mod Plan
pub mod Orch
pub mod Store
pub mod Paths
pub mod Provider
pub mod Enforcement
