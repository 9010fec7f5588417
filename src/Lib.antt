-- ===== src/Lib.antt =====
-- Models of the control plane of Wait a Minute (WAM), a plugin that makes a coding agent prove its work
-- before it claims completion. Text values of the source that form a closed set are data types, JSON
-- values are records of the fields that the code reads, numbers are natural numbers, a thrown error is
-- the `throw` of a result, and an update of a shared object returns the new object. Clocks and file
-- contents are arguments.
--
--   Base         lists, results and dictionaries in the order of insertion (JavaScript's Map).
--   Requirement  src/state/requirement-state.js: TRANSITIONS, canTransition, transition,
--                isRequirementComplete and summarizeRequirements.
--   Verification src/verification/verification-lifecycle.js: the verification states, verifyRequirement,
--                failRequirement, canComplete and hasOutstandingWork.
--   Execution    src/execution/execution-state.js: the task's states, migrateLegacyPhase and transition,
--                which asks Verification's hasOutstandingWork before COMPLETED.
--   Gate         src/verification/completion-gate.js: findBlocker and canComplete, which read the
--                evidence, judge every requirement by Requirement's isRequirementComplete and return
--                its summary. Gate.Files holds what reading the root, the task and the evidence gives,
--                with the errors that reading throws.
--   Graph        src/context/context-graph.js: the class ContextGraph; Graph.Walk has getUpstream and
--                getDownstream.
--   Closure      src/context/dependency-closure.js: the bounded traversals over Graph's queries, and
--                computeDependencyClosure.
--   Budget       src/context/context-budget-manager.js: the class ContextBudgetManager.
--   Breaker      src/execution/circuit-breaker.js: createCircuitBreaker; a call of execute is a begin and
--                an end, with other events in between.
--   Limiter      src/integration/rate-limiter.js: createRateLimiter.
--   Signer       src/policy/multi-signer.js: createMultiSigner with approve, status and reset.
--   ContextItem  the context item that the next three share.
--   Lifecycle    src/context/context-lifecycle.js: TRANSITIONS, transition, isUsable and stalenessCheck.
--   Layers       src/context/context-memory-layers.js: assignLayer, sortByLayer, groupByLayer,
--                selectEvictions and archiveCandidates.
--   LayerMoves   src/context/context-promotion.js and src/context/context-demotion.js: promoteItem and
--                demoteItem, which change the item's state through Lifecycle and ask Layers for the
--                priorities.
--   EventStore   src/persistence/event-sourcing.js: createEventStore, over any type of payload.
--   Journal      src/persistence/transaction-log.js: replay, over any type of data.
--   Cache        src/context/context-cache.js: createContextCache, over any type of value.
--   EventId      src/state/run-event-identity.js: identifiers as texts, printed and parsed character by
--                character (Base.Decimal has the decimal numbers), and their migration.
--   Runs         src/state/task-runs.js: the runs of a task as files of a directory, started, changed,
--                closed and queried.
--   PolicyFlow   src/policy/policy-state-machine.js: the table, the chain and the preconditions.
--   TaskPhase    src/state/task-state.js, src/state/task-store.js, src/state/task-lifecycle.js and
--                transitionTask of src/state/state-transition.js, with the table of phases of
--                src/integration/orchestration.js.
--
-- Loops are structural recursion on the list they run over. The walks of Graph recur on the levels that
-- are left (maxDepth of them upstream, maxDepth + 1 downstream), and the traversals of Closure on the
-- cost that is left (maxCost): these are bounds of the source, which stops there itself, so no other
-- fuel is chosen. Limits under which the traversals meet no bound are the condition of a theorem.
--
-- Not modelled: reading and writing files, the orchestration of messages and tools, texts shown to the
-- user, the floating quotient of a layer's utilization, and of the context graph the consistency check
-- `validate` and the counts of `stats`. A file that the code writes is the value written to it (Runs,
-- TaskPhase), so the text of a file and its parsing are not modelled, nor are the lines of the
-- transaction log. Metadata that no modelled function reads is left out of records. The tables of the
-- source are plain objects, so a name that every object inherits, such as "toString", is found in them:
-- where a text is looked up in such a table the models say what the source then does, except that the
-- budgets of Budget are read only for other names.
pub mod Base
pub mod Requirement
pub mod Verification
pub mod Execution
pub mod Gate
pub mod Graph
pub mod Closure
pub mod Budget
pub mod Breaker
pub mod Limiter
pub mod Signer
pub mod ContextItem
pub mod Lifecycle
pub mod Layers
pub mod LayerMoves
pub mod EventStore
pub mod Journal
pub mod Cache
pub mod EventId
pub mod Runs
pub mod PolicyFlow
pub mod TaskPhase
