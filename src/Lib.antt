-- ===== src/Lib.antt =====
-- Night Scout: the core that decides which reconnaissance work runs.
--
-- Events that workers find are routed to tasks (recon/core/router.py), tasks wait in a queue
-- (recon/core/queue.py) until a worker claims one under a lease, and budgets (recon/core/budgets.py)
-- are reserved before a claimed task runs and committed or released after it. Workers pace their
-- requests by shared rate limits (recon/policy/rate_limit.py). The lifecycle (recon/core/lifecycle.py)
-- leads a selected task through its gates, the budget and the claim, runs it and records its end;
-- one of its gates waits for human reviews (recon/policy/review_gate.py).
--
-- Prelude: shared names, Boolean tests, dictionaries (Dict), sets, sorting, texts, signed numbers, and
--   Exec, methods that may raise: a method is a function from a state to a result beside a state, so
--   that what was written before a raise stays written. Of an exception its class is kept.
-- Events: recon/core/events.py. Event without its metadata, which the core never reads.
-- Router: recon/core/router.py. Rules has RoutingContext and RouteRule, Registry the class Router;
--   Laws has the invariant of the index, Batch, Removal and Expansion what the operations do to it.
-- Queue: recon/core/queue.py. Task and Validate have the model and its validators, Store the class
--   InMemoryTaskStore, Ready its `ready` and fair_lane_limits (Lanes, Shortlist: their lemmas),
--   Ops and Finish the class TaskQueue. Invariant, Writes and Edits have what one write does,
--   Claiming what a claim does, History sequences of writes, Commands, Recovery and Runs the calls as
--   such sequences, Progress and Fencing what follows for a caller.
-- Budgets: recon/core/budgets.py. Model has the data, Checks the limits that apply to a task
--   (_compile_checks, _checks_for_caps, _merge_checks), Store the class InMemoryBudgetStore, Manager
--   the class BudgetManager. Ledger has sums over items and the loops over them, Balance the invariant
--   of the store, Limits and Merge the bounds on checks, Merging what merging them comes to,
--   Reserving, Spending, Reaping and Runs the methods and whole runs under the invariant, Settled what
--   a reservation that is over keeps.
-- Rates: recon/policy/rate_limit.py. Model has the data and its validators, Buckets the refilling of a
--   bucket and what a check finds, Store the class InMemoryRateLimitStore, Limiter, Plan and Await the
--   class RateLimiter. Rules, Compiling and Profile have the limits of a valid profile, Ledger,
--   Acquiring, Examining, Granting and Reaping the methods of the store, Sound, Spending and Runs the
--   invariant, Pacing, Window and Guarantee the rate over a stretch of time, Waiting and Shares what
--   the waits and the plans promise.
-- Lifecycle: recon/core/lifecycle.py. Model has the data and what is given to the class Lifecycle, Admit
--   and Gates its admission (admit, _apply_gates, admit_next, admit_batch, recover_expired), Execute the
--   execution (execute_claimed, _supervise_execution, _heartbeat_loop, run_once). The state is the queue's store
--   beside the budgets' store; gates, reviewers, observer and planner are functions on it, and a run of
--   the worker lists its heartbeats with what others did before each. Passing and Admitted have what an
--   admission went through, Calls, AdmitCalls and ExecuteCalls the calls that the methods make, Turns
--   whole runs, Settling the reservation after an execution.
-- Reviews: recon/policy/review_gate.py. Model has the data, Store the class InMemoryReviewCaseStore, Gate
--   the class ReviewGate, a gate of the lifecycle over its own store. Cases and Passing have what stands
--   under a key and when a task passes, Settled the calls of the store and what they keep.
-- Scheduler: recon/core/scheduler.py, the choice of a batch from ranked decisions. Batch has
--   _select_ranked_batch, Rounds, Selection and Dispatch the lemmas on its rounds and its result.
--
-- Conventions. Methods run under the lock of their object, so a method is one step; a run is a sequence
-- of calls. The clock, new identifiers and new claim tokens are arguments. Timestamps are aware and
-- count microseconds from a fixed moment; durations are signed. Amounts and priorities, floats in the
-- source, are fixed-point numbers, amounts in units of 10^-12, so that the tolerance of 1e-9 is a
-- thousand units; rounding of floats is not modelled: quotients are
-- rounded down, and waits up.  `upper` and `lower` act on ASCII letters. Copies
-- that a store hands out are values. Loops are structural recursion; the while loop of the scheduler
-- has fuel for `limit` rounds, which is enough since a round that goes on selects a task.
--
-- Of a result's reason that quotes an exception or a status the fixed part is kept.
--
-- Not modelled: the scores of the scheduler, its selection as a part of admit_next and admit_batch
-- (what it selects is an argument), the callback of run_once, scope and the other policy
-- modules, storage, intelligence, workers, surface, exporters, the runtime and the command line.
pub mod Prelude
pub mod Events
pub mod Reviews
pub mod Router
pub mod Queue
pub mod Scheduler
pub mod Budgets
pub mod Rates
pub mod Lifecycle
