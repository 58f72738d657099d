-- ===== src/Lifecycle/Model.antt =====
-- The data of recon/core/lifecycle.py, and what a Lifecycle is given: gates, reviews, an observer and a
-- planner. These belong to other modules and run while other tasks go on, so each is a method on the
-- whole state that may raise: what others do to the queue and the budgets meanwhile is part of it.
-- Of a message that quotes an exception or a status the text before the quotation is kept.
use night_scout.Prelude.{
  ℕ, String, Bool, true, false, not, Option, none, some, List, [], ◌∷◌, ◌&&◌, ◌||◌, if◌then◌else◌,
}
use night_scout.Prelude.Int.{ℤ, pos, is_nonpositive, ltb_ℤ}
use night_scout.Prelude.Text.{strip, is_blank}
use night_scout.Prelude.Exec.{value_error, key_error, Result, ok, err, Exec}
use night_scout.Queue.Task.{Task, TaskStatus, running, is_some, status_beq}
use night_scout.Queue.Store.{TaskStore}
use night_scout.Budgets.Model.{BudgetDemand, BudgetContext}
use night_scout.Budgets.Store.{BudgetStore}
use night_scout.Budgets.Manager.{BudgetManager}
use night_scout.Scheduler.Batch.{ScheduleDecision}

pub data GateOutcome : Type 0 where
  allow defer block review : GateOutcome

pub data LifecycleOutcome : Type 0 where
  idle deferred blocked in_review succeeded retry failed stale : LifecycleOutcome

pub data WorkerOutcome : Type 0 where
  worker_succeeded worker_retry worker_failed : WorkerOutcome

pub record GateDecision : Type 0 where
  pub outcome : GateOutcome
  pub reason : Option String
  pub review_case_id : Option String
  pub retry_after : Option ℕ

abbrev pub is_defer : GateOutcome → Bool
is_defer defer = true
is_defer _ = false

abbrev pub is_review : GateOutcome → Bool
is_review review = true
is_review _ = false

-- `GateDecision.validate_retry_metadata`
unfoldable pub validate_retry_metadata : GateDecision → Result GateDecision
validate_retry_metadata d =
    if is_some d.retry_after && not (is_defer d.outcome)
    then err value_error
    else if is_some d.review_case_id && not (is_review d.outcome)
    then err value_error
    else ok d

pub record WorkerExecutionResult : Type 0 where
  pub outcome : WorkerOutcome
  pub error : Option String
  pub retry_after : Option ℕ

-- `(self.error or "").strip()`
unfoldable pub has_error : Option String → Bool
has_error none = false
has_error (some error) = not (is_blank (strip error))

-- `WorkerExecutionResult.validate_outcome`
unfoldable pub validate_outcome : WorkerExecutionResult → Result WorkerExecutionResult
validate_outcome r = elim (r.outcome) [
  | worker_succeeded ↦ if is_some r.retry_after then err value_error else ok r
  | worker_retry ↦
      if not (has_error r.error) || not (is_some r.retry_after) then err value_error else ok r
  | worker_failed ↦
      if not (has_error r.error) || is_some r.retry_after then err value_error else ok r
]

pub record BudgetPlan : Type 0 where
  pub demand : BudgetDemand
  pub context : BudgetContext

pub record LifecycleRecoveryResult : Type 0 where
  pub recovered_tasks : ℕ
  pub expired_budget_reservations : ℕ

pub record LifecycleResult : Type 0 where
  pub outcome : LifecycleOutcome
  pub task_id : Option String
  pub worker : Option String
  pub action : Option String
  pub reason : Option String
  pub schedule_score : Option ℤ
  pub reservation_id : Option String
  pub queue_status : Option TaskStatus
  pub claimed : Bool
  pub execution_attempt : Option ℕ
  pub backpressure : Bool

abbrev pub is_deferred : LifecycleOutcome → Bool
is_deferred deferred = true
is_deferred _ = false

-- `LifecycleResult.validate_claim_metadata`
unfoldable pub validate_claim_metadata : LifecycleResult → Result LifecycleResult
validate_claim_metadata r =
    if is_some r.execution_attempt && not r.claimed
    then err value_error
    else if r.backpressure && not (is_deferred r.outcome)
    then err value_error
    else ok r

-- `LifecycleResult(outcome=…, task_id=…, worker=…, action=…, schedule_score=…)`
abbrev pub result_of : LifecycleOutcome → Task → ScheduleDecision → LifecycleResult
result_of outcome task schedule = record {
  outcome = outcome;
  task_id = some task.task_id;
  worker = some task.worker;
  action = some task.action;
  reason = none;
  schedule_score = some schedule.score;
  reservation_id = none;
  queue_status = none;
  claimed = false;
  execution_attempt = none;
  backpressure = false;
}

pub record DispatchTicket : Type 0 where
  pub task : Task
  pub schedule : ScheduleDecision
  pub reservation_id : Option String
  pub attempt_id : Option String

-- `DispatchTicket.require_claim`
unfoldable pub require_claim : DispatchTicket → Result DispatchTicket
require_claim ticket =
    if not (status_beq ticket.task.status running) || not (is_some ticket.task.claim_token)
    then err value_error
    else ok ticket

-- the state that the lifecycle works on
pub record Core : Type 0 where
  pub queue : TaskStore
  pub budgets : BudgetStore

-- a call of the queue, and one of the budgets
abbrev pub on_queue : {A : Type 0} → Exec TaskStore A → Exec Core A
on_queue m c = let (r, s) = m c.queue in (r, record c { queue = s })

abbrev pub on_budgets : {A : Type 0} → Exec BudgetStore A → Exec Core A
on_budgets m c = let (r, s) = m c.budgets in (r, record c { budgets = s })

-- `try: … except (KeyError, ValueError): …`
abbrev pub except_transition :
    {A B : Type 0} → Result A × Core → (A → Exec Core B) → Exec Core B → Result B × Core
except_transition (ok a, c) f g = f a c
except_transition (err key_error, c) f g = g c
except_transition (err value_error, c) f g = g c
except_transition (err e, c) f g = (err e, c)

-- `with contextlib.suppress(Exception): …`
abbrev pub suppressed : {A : Type 0} → Result A × Core → Core
suppressed (r, c) = c

pub record ExecutionGate : Type 0 where
  pub name : String
  pub evaluate : Task → ScheduleDecision → Exec Core GateDecision

pub record LifecycleReviewCoordinator : Type 0 where
  pub approved_for : Task → String → String → Exec Core Bool
  pub open_case : Task → String → String → Exec Core String

pub record LifecycleAttemptObserver : Type 0 where
  pub start : Task → ScheduleDecision → Exec Core (Option String)
  pub finish : String → LifecycleResult → Exec Core (Unit {0})

pub record Lifecycle : Type 0 where
  pub budgets : BudgetManager
  pub gates : List ExecutionGate
  pub budget_planner : Task → ScheduleDecision → Exec Core BudgetPlan
  pub task_lease_for : ℤ
  pub heartbeat_interval : ℤ
  pub review_coordinator : Option LifecycleReviewCoordinator
  pub attempt_observer : Option LifecycleAttemptObserver

-- `Lifecycle.__init__`, for an interval that is given
unfoldable pub make_lifecycle : Lifecycle → Result Lifecycle
make_lifecycle l = elim (l.gates) [
  | [] ↦ err value_error
  | gate ∷ gates ↦
      if is_nonpositive l.task_lease_for
      then err value_error
      else if is_nonpositive l.heartbeat_interval
      then err value_error
      else if not (ltb_ℤ l.heartbeat_interval l.task_lease_for)
      then err value_error
      else ok l
]

-- `text or default`
abbrev pub or_default : Option String → String → String
or_default none default = default
or_default (some text) default = if is_blank text then default else text

-- `timedelta(seconds=seconds or 0.0)`; durations count microseconds
abbrev pub delay_of : Option ℕ → ℤ
delay_of none = pos 0
delay_of (some n) = pos n
