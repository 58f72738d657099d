-- ===== src/Lifecycle/Admit.antt =====
-- `Lifecycle.admit`, `admit_next`, `admit_batch` and `recover_expired` (recon/core/lifecycle.py). The
-- moments at which the clock is read, the new reservation's identifier and the new claim token are
-- arguments.
use night_scout.Prelude.{
  ℕ, String, true, false, not, Option, none, some, List, [], ◌∷◌, length, if◌then◌else◌,
}
use night_scout.Prelude.Int.{ℤ, is_negative}
use night_scout.Prelude.Exec.{value_error, ok, err, Exec, after, check}
use night_scout.Queue.Task.{Task, TaskStatus, is_runnable_status}
use night_scout.Queue.Store.{task_at}
use night_scout.Queue.Ops.{defer, claim_next}
use night_scout.Queue.Finish.{block, recover_expired_leases}
use night_scout.Budgets.Model.{BudgetDecision, BudgetOutcome, BudgetReservation}
use night_scout.Budgets.Store.{release}
use night_scout.Budgets.Manager.{reserve, reap_now}
use night_scout.Scheduler.Batch.{ScheduleDecision}
use night_scout.Lifecycle.Model.{
  LifecycleOutcome, LifecycleResult, LifecycleRecoveryResult, DispatchTicket, require_claim, Core,
  on_queue, on_budgets, except_transition, LifecycleAttemptObserver, Lifecycle, result_of,
  or_default, delay_of,
}
use night_scout.Lifecycle.Gates.{gate_result, apply_gates}

-- what the world adds to an admission: the clock at its calls, a reservation's id and a claim token
pub record Readings : Type 0 where
  pub gate_now : ℕ
  pub reserve_now : ℕ
  pub defer_now : ℕ
  pub claim_now : ℕ
  pub new_reservation_id : String
  pub new_claim_token : String

-- `start_attempt`
unfoldable pub start_attempt :
    Option LifecycleAttemptObserver → Task → ScheduleDecision → Exec Core (Option String)
start_attempt none task schedule c = (ok none, c)
start_attempt (some observer) task schedule c = observer.start task schedule c

-- `if attempt_id is not None and self._attempt_observer is not None: …finish(attempt_id, result)`
unfoldable pub complete :
    Option LifecycleAttemptObserver → Option String → LifecycleResult → Exec Core LifecycleResult
complete (some observer) (some attempt_id) result c =
    after (observer.finish attempt_id result c) λ _ d. (ok result, d)
complete _ _ result c = (ok result, c)

-- an admission's answer: a ticket, or the result that ends it
pub data Admission : Type 0 where
  ticket : DispatchTicket → Admission
  ended : LifecycleResult → Admission

unfoldable pub end_with :
    Option LifecycleAttemptObserver → Option String → LifecycleResult → Exec Core Admission
end_with observer attempt_id result c =
    after (complete observer attempt_id result c) λ r d. (ok (ended r), d)

-- `if reservation_id is not None: await self._budgets.release(reservation_id)`
unfoldable pub give_back : Option String → Exec Core (Unit {0})
give_back none c = (ok tt, c)
give_back (some id) c = after (on_budgets (release id) c) λ _ d. (ok tt, d)

-- the status under an id, if it is stored
abbrev pub status_at : Core → String → Option TaskStatus
status_at c id = elim (task_at c.queue id) [ none ↦ none | some t ↦ some t.status ]

-- the claim that failed: the reservation is given back before the result
unfoldable pub claim_failed :
    Option LifecycleAttemptObserver
    → Task
    → ScheduleDecision
    → Option String
    → Option String
    → Exec Core Admission
claim_failed observer task schedule reservation_id attempt_id c =
    after (give_back reservation_id c) λ _ d.
      end_with observer attempt_id
        (record (result_of LifecycleOutcome.stale task schedule) {
          reason = some "task could not be claimed";
          queue_status = status_at d task.task_id;
        })
        d

-- the claim, with the reservation made
unfoldable pub claim_reserved :
    Lifecycle → Task → ScheduleDecision → Readings → Option String → Exec Core Admission
claim_reserved l task schedule r reservation_id c =
    after (start_attempt l.attempt_observer task schedule c) λ attempt_id d.
      except_transition
        (on_queue (claim_next task.task_id l.task_lease_for r.claim_now r.new_claim_token) d)
        (λ claimed.
          check
            (require_claim (record {
              task = claimed;
              schedule = schedule;
              reservation_id = reservation_id;
              attempt_id = attempt_id;
            }))
            (λ t e. (ok (ticket t), e)))
        (claim_failed l.attempt_observer task schedule reservation_id attempt_id)

-- `budget.reservation.reservation_id if budget.reservation is not None else None`
abbrev pub reserved_id : Option BudgetReservation → Option String
reserved_id none = none
reserved_id (some r) = some r.reservation_id

-- what the budget's decision comes to
unfoldable pub obey_budget :
    Lifecycle → Task → ScheduleDecision → Readings → BudgetDecision → Exec Core Admission
obey_budget l task schedule r budget c = elim (budget.outcome) [
  | BudgetOutcome.allow ↦ claim_reserved l task schedule r (reserved_id budget.reservation) c
  | BudgetOutcome.defer ↦
      after
        (on_queue
          (defer task.task_id (delay_of budget.retry_after_seconds)
            (some (or_default budget.reason "budget deferred")) r.defer_now)
          c)
        λ t d. (
          ok (
              ended (record (gate_result LifecycleOutcome.deferred task schedule budget.reason t) {
                backpressure = true;
              })),
          d,
        )
  | BudgetOutcome.deny ↦ after (start_attempt l.attempt_observer task schedule c) λ attempt_id d.
      after
        (on_queue
          (block task.task_id (or_default budget.reason "hard budget denied execution") r.defer_now)
          d)
        λ t e.
          end_with l.attempt_observer attempt_id
            (gate_result LifecycleOutcome.blocked task schedule budget.reason t) e
]

-- the admission of a task that every gate let pass
unfoldable pub reserve_passed : Lifecycle → Task → ScheduleDecision → Readings → Exec Core Admission
reserve_passed l task schedule r c = after (l.budget_planner task schedule c) λ plan d.
    after
      (on_budgets
        (reserve l.budgets task plan.demand plan.context l.task_lease_for r.new_reservation_id
          r.reserve_now)
        d)
      (obey_budget l task schedule r)

unfoldable pub after_gates :
    Lifecycle → Task → ScheduleDecision → Readings → Option LifecycleResult → Exec Core Admission
after_gates l task schedule r none c = reserve_passed l task schedule r c
after_gates l task schedule r (some result) c =
    after (start_attempt l.attempt_observer task schedule c)
      λ attempt_id d. end_with l.attempt_observer attempt_id result d

unfoldable pub admit_found :
    Lifecycle → ScheduleDecision → Readings → Option Task → Exec Core Admission
admit_found l schedule r none c = (
  ok (
      ended (record {
        outcome = LifecycleOutcome.stale;
        task_id = some schedule.task_id;
        worker = some schedule.worker;
        action = some schedule.action;
        reason = some "scheduled task no longer exists";
        schedule_score = some schedule.score;
        reservation_id = none;
        queue_status = none;
        claimed = false;
        execution_attempt = none;
        backpressure = false;
      })),
  c,
)
admit_found l schedule r (some task) c =
    if not (is_runnable_status task.status)
    then (
      ok (
          ended (record (result_of LifecycleOutcome.stale task schedule) {
            reason = some "scheduled task is no longer runnable";
            queue_status = some task.status;
          })),
      c,
    )
    else after (apply_gates l.review_coordinator l.gates task schedule r.gate_now c)
        (after_gates l task schedule r)

-- `Lifecycle.admit`
unfoldable pub admit : Lifecycle → ScheduleDecision → Readings → Exec Core Admission
admit l schedule r c = admit_found l schedule r (task_at c.queue schedule.task_id) c

-- `Lifecycle.recover_expired`
unfoldable pub recover_expired : ℤ → ℕ → ℕ → Exec Core LifecycleRecoveryResult
recover_expired task_retry_delay reap_at recover_at c =
    if is_negative task_retry_delay
    then (err value_error, c)
    else after (on_budgets (reap_now reap_at) c) λ reservations d.
      after (on_queue (recover_expired_leases task_retry_delay recover_at) d) λ tasks e. (
        ok (record {
          recovered_tasks = length tasks;
          expired_budget_reservations = length reservations;
        }),
        e,
      )

abbrev pub idle_result : LifecycleResult
idle_result = record {
  outcome = LifecycleOutcome.idle;
  task_id = none;
  worker = none;
  action = none;
  reason = none;
  schedule_score = none;
  reservation_id = none;
  queue_status = none;
  claimed = false;
  execution_attempt = none;
  backpressure = false;
}

-- `Lifecycle.admit_next`, for what the scheduler selected
unfoldable pub admit_next : Lifecycle → Option ScheduleDecision → Readings → Exec Core Admission
admit_next l none r c = (ok (ended idle_result), c)
admit_next l (some schedule) r c = admit l schedule r c

unfoldable pub admit_each :
    Lifecycle → List (ScheduleDecision × Readings) → Exec Core (List Admission)
admit_each l [] c = (ok [], c)
admit_each l ((schedule, r) ∷ schedules) c =
    after (admit l schedule r c)
      λ admission d. after (admit_each l schedules d) λ rest e. (ok (admission ∷ rest), e)

-- `Lifecycle.admit_batch`, for what the scheduler selected
unfoldable pub admit_batch :
    Lifecycle → List (ScheduleDecision × Readings) → Exec Core (List Admission)
admit_batch l [] c = (ok (ended idle_result ∷ []), c)
admit_batch l (s ∷ schedules) c = admit_each l (s ∷ schedules) c
