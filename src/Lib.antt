-- ===== src/Lib.antt =====
-- The security kernel of ConsistenCy, packages/kernel/src, and the queue of review jobs with the worker
-- that publishes their comments, apps/api/src/jobQueue.ts and publish.
--
-- The kernel schedules the agents of review runs and decides what they may do. Its parts:
--   * Run, Agent: the states of runs and agents with their transition tables (run/types.ts,
--     agent/types.ts, agent/state.ts). Registry.Runs, Registry.Agents: the registries that own the
--     records (run/registry.ts, agent/registry.ts); `transition` is the one way to change a state.
--   * Scheduler: the class KernelScheduler (scheduler/scheduler.ts, types.ts, cancellation.ts). It
--     owns both registries, the queue of ready agents, the counter of running ones and the causes of
--     cancellations. Scheduler.Data has the state, Core what the operations share, Runs, Agents,
--     Admit and Tree the operations, Calls any sequence of them; the other modules are proofs.
--   * Identity, Capability: principals, resources, actions and the tables of the policy
--     (identity/principal.ts, identity/resource.ts, capability/policy.ts, types.ts, errors.ts).
--   * Budget: the class BudgetAccountant (budget/accounting.ts, types.ts).
--   * Broker: the class CapabilityBroker (capability/broker.ts, types.ts, events.ts, handle.ts), which
--     issues capabilities, revokes them and authorises each use against its record and its account.
--     Broker.Data has the state, Checks the tests, Operations the methods, Calls any sequence of them.
--     Identity.Paths is normaliseResourcePath. Audit has the events of the journal (audit/types.ts).
--   * Gateway: the registry of system calls and the class SyscallGateway (syscall/types.ts,
--     authorize.ts), which puts the broker before a handler and settles the budget after it.
--   * Commit: the class CommitCoordinator (commit/coordinator.ts, types.ts, errors.ts), which takes
--     the calls that the gateway refuses inline to a durable sink. Commit.Operations splits `accept`
--     where it waits: `submit` runs up to the call of the sink, `settle` from its answer on. What a
--     caller sees between the keeping of an intent and the keeping of its receipt, the promise, is
--     the same as before, so that both are one step. Each call of `#acceptInternal` is a promise with
--     a number of its own, `pending` until it is settled, whatever stands under its key: `in_flight`
--     leads from a key to the number that was stored last, as the code's map does to the promise. The journal is kept apart from the broker's, and
--     `handed` lists what the sink was given. The hash of a payload's canonical form is in the request.
--   * Context: the class ContextManager with its images, its page store and the working set
--     (context/manager.ts, image.ts, page-store.ts, working-set.ts, types.ts, errors.ts). The hash of
--     a text is a parameter. An image keeps its table as a dictionary from page ids to residencies.
--     A change and the view that it returns are two functions, since only the change writes. The
--     estimate of a page's tokens is a natural number, so that the code's test that it is one is void.
--     The sort is an insertion sort, which is stable as the language's is; ids are compared by
--     their characters, which is the order of code units where they are ASCII.
--     Context.Calls has any sequence of calls, those of restore excepted, which is not modelled, and
--     Changes what each may write. Invariant, Projection and Residency are proofs over these, Compare
--     and Order those of the sort. In Context.Operations a table is a value, so that a copy of it is
--     the same value (`child_of`). Context.Images has the class ImageRegistry (image.ts) once more with
--     the tables as objects at addresses, which `fork` copies and which the other methods write in
--     place; Tables and Isolation are proofs over it: no two images ever share a table. Its `seed`,
--     which restore calls, is left out.
--   * Jobs: the class InMemoryJobQueue (apps/api/src/jobQueue.ts) with publishOutboxItemSchema
--     (packages/schema/src/job.ts). Jobs.Data has the state, Operations the methods on jobs,
--     deliveries and the status of comments, Outbox how a report gets into the outbox, Lease how
--     workers claim an item and settle it, Calls any sequence of calls. Reports and their schema are
--     parameters. Texts that stand for times are numbers, since the texts of toISOString compare like
--     them. An id that is drawn is never blank, so that the schema of an item lets each item pass as
--     it is. A text is cut (Jobs.Clip) by characters, which are code units where none needs two of them.
--     `settle` is what the three methods that settle an item have in common. Moves says what a call
--     makes of an item, by who makes it; Items, Status, Settled, Kept, Fencing and Once are proofs about items and
--     leases, and Protocol has the protocol of leases that the outbox refines. Invariant, JobSteps,
--     OutboxSteps, ClaimSteps, Claims and History are about how jobs and outbox agree, Room, Served and
--     Progress about what a claim serves. Deliveries and Webhooks are about deliveries, Queued
--     about the order, Left and Started about jobs that have left the queue.
--   * Publish: the class PublishWorker (apps/api/src/publish/worker.ts), the errors it meets
--     (publish/error.ts), classifyGitHubError (publish/githubPublisher.ts) and sanitizePublishFailure
--     (security/redact.ts). What an attempt gets from outside, the tokens, the comment's id or what is
--     thrown instead, and where its signal is found aborted, is a record `Attempt`. processClaimedItem is
--     split where it settles the item: `decide` reads the queue when the attempt starts, `settle_item`
--     writes to the queue as it is then. `poll_once` begins the attempts of the items it claims, and one
--     whose job or report is missing ends within it. One `now` stands for the clock in each. sanitizePublicError
--     is regular expressions and is any function of texts. A PermanentPublishError is an error of that
--     kind. A header that is no number of decimal digits is not a number. The random part of the
--     default backoff is a number of milliseconds. Turns has what the worker's progress is stated
--     with; Attempt, Ended, Rounds and Limits are proofs.
--   * Base: the names that all share, dictionaries for `Map`, and the monad of methods that throw.
--
-- How the code is modelled. An object is a record, a method a function from the state to a result
-- and the state after it; what was written before a throw stays written (Base.Methods). A `Map`
-- is a list of entries in the order of insertion (Base.Dict). Ids are texts; a priority is an
-- integer; times, tokens and costs are natural numbers. One argument `now` stands for all
-- readings of the clock in one call. The library minimatch is a parameter, any test of a path
-- against a pattern; paths and patterns are lists of UTF-16 code units. A handler of the gateway
-- is awaited: what is called of the broker meanwhile is an argument, and so is what the handler
-- gives. Random ids and handles are arguments. A cause's id is the number from which its text is
-- printed. An event bus is the list of the events that it was given: what listeners do is not
-- modelled, and the code promises that they cannot change the scheduler. Snapshots are frozen
-- copies, so they are the records. `Fault` has the errors, and the two that are the model's own:
-- `out_of_fuel`, and `no_cause` for a value that the code takes as present with `!`.
--
-- Bounds. The walk along an agent's parents stops at depth 1000 as the code does. The walk over a
-- subtree has as fuel the number of entries in all the children and one, since an agent is queued
-- at most once per entry.
--
-- `turn` of Publish.Turns, a claim with the attempt for one job, is no function of the code: it is one
-- step of the worker's loop, whose other attempts are left out.
--
-- Not modelled: of the job queue agent runs, review snapshots, the lists of one repository and the
-- store in SQLite; timers and the calls of GitHub; the checkpoints and the rendering of context
-- images; the sandbox's worker processes; the applications (HTTP, SQL, command line); the review
-- workload; and the plugins.
pub mod Base
pub mod Identity
pub mod Capability
pub mod Run
pub mod Agent
pub mod Fault
pub mod Registry
pub mod Scheduler
pub mod Budget
pub mod Audit
pub mod Broker
pub mod Gateway
pub mod Commit
pub mod Context
pub mod Jobs
pub mod Publish
