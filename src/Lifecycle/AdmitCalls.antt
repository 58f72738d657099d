-- ===== src/Lifecycle/AdmitCalls.antt =====
-- `Lifecycle.admit` and `recover_expired` (recon/core/lifecycle.py) as calls of the queue and the budgets.
use night_scout.Prelude.{
  ℕ, String, ◌≡◌, refl, inl, inr, not, Option, none, some, List, [], ◌∷◌, All, Option-cases,
}
use night_scout.Prelude.Int.{ℤ, is_negative}
use night_scout.Prelude.Exec.{Exec}
use night_scout.Queue.Task.{Task, is_runnable_status}
use night_scout.Queue.Store.{task_at}
use night_scout.Queue.Ops.{claim_next}
use night_scout.Queue.Finish.{send_to_review, recover_expired_leases}
use night_scout.Queue.Writes.{IsToken}
use night_scout.Queue.Runs as queue_runs
use night_scout.Budgets.Model.{BucketKey, BudgetDecision, BudgetOutcome}
use night_scout.Budgets.Store.{release}
use night_scout.Budgets.Manager.{reap_now}
use night_scout.Budgets.Runs as budget_runs
use night_scout.Scheduler.Batch.{ScheduleDecision}
use night_scout.Lifecycle.Model.{
  GateOutcome, GateDecision, LifecycleResult, Core, on_queue, on_budgets, require_claim,
  ExecutionGate, LifecycleReviewCoordinator, LifecycleAttemptObserver, Lifecycle, or_default,
  delay_of,
}
use night_scout.Lifecycle.Gates.{
  case_reason, send_case, ask_reviewers, obey, unless_stopped, apply_gates,
}
use night_scout.Lifecycle.Admit.{
  Readings, start_attempt, complete, give_back, end_with, claim_failed, claim_reserved, reserved_id,
  obey_budget, reserve_passed, after_gates, admit_found, admit, recover_expired,
}
use night_scout.Lifecycle.Calls.{
  no_call, queue_call, budget_call, OnlyCalls, after-Calls, after-answer-Calls, check-Calls,
  except-Calls, if-Calls, IsPolite,
}

module _ (limit : BucketKey → ℕ) (l : Lifecycle) (p : IsPolite limit l) where
  start_attempt-Calls :
      (task : Task) (schedule : ScheduleDecision) (o : Option LifecycleAttemptObserver)
      → l.attempt_observer ≡ o
      → OnlyCalls limit (start_attempt o task schedule)
  unfolding start_attempt
  start_attempt-Calls task schedule none is c = no_call
  start_attempt-Calls task schedule (some observer) is c =
      p.observer_starts observer is task schedule c

  pub complete-Calls :
      (o : Option LifecycleAttemptObserver) (attempt_id : Option String) (r : LifecycleResult)
      → l.attempt_observer ≡ o
      → OnlyCalls limit (complete o attempt_id r)
  unfolding complete
  complete-Calls (some observer) (some id) r is c =
      after-Calls limit c (observer.finish id r c) _ (p.observer_finishes observer is id r c)
        (λ _ d. no_call)
  complete-Calls none attempt_id r is c = no_call
  complete-Calls (some observer) none r is c = no_call

  end_with-Calls :
      (attempt_id : Option String) (r : LifecycleResult)
      → OnlyCalls limit (end_with l.attempt_observer attempt_id r)
  unfolding end_with
  end_with-Calls attempt_id r c =
      after-Calls limit c (complete l.attempt_observer attempt_id r c) _
        (complete-Calls l.attempt_observer attempt_id r refl c) (λ _ d. no_call)

  module _ (task : Task) (schedule : ScheduleDecision) where
    send_case-Calls :
        (reason : String) (case_id : Option String) (now : ℕ)
        → OnlyCalls limit (send_case task schedule reason case_id now)
    unfolding send_case queue_runs.run
    send_case-Calls reason case_id now c =
        after-Calls limit c
          (on_queue (send_to_review task.task_id (case_reason reason case_id) now) c) _
          (queue_call no_call (queue_runs.review_task task.task_id (case_reason reason case_id) now)
            tt)
          (λ _ d. no_call)

    ask_reviewers-Calls :
        (o : Option LifecycleReviewCoordinator) (name reason : String) (now : ℕ)
        → l.review_coordinator ≡ o
        → OnlyCalls limit (ask_reviewers o name task schedule reason now)
    unfolding ask_reviewers
    ask_reviewers-Calls none name reason now is c = send_case-Calls reason none now c
    ask_reviewers-Calls (some reviews) name reason now is c =
        let (asks, opens) = p.reviews_call reviews is in
        after-Calls limit c (reviews.approved_for task name reason c) _ (asks task name reason c)
          (λ approved d. if-Calls limit d approved _ _ no_call (
            after-Calls limit d (reviews.open_case task name reason d) _ (opens task name reason d)
              (λ case_id e. send_case-Calls reason (some case_id) now e)))

    obey-Calls :
        (name : String) (now : ℕ) (decision : GateDecision) (outcome : GateOutcome)
        → decision.outcome ≡ outcome
        → OnlyCalls limit (obey l.review_coordinator name task schedule now decision)
    unfolding obey queue_runs.run
    obey-Calls name now decision GateOutcome.allow is c = rw is no_call
    obey-Calls name now decision GateOutcome.defer is c = rw is (
        after-Calls limit c _ _
          (queue_call no_call
            (queue_runs.defer_task task.task_id (delay_of decision.retry_after)
              (some (or_default decision.reason "execution gate deferred task")) now)
            tt)
          (λ _ d. no_call))
    obey-Calls name now decision GateOutcome.block is c = rw is (
        after-Calls limit c _ _
          (queue_call no_call
            (queue_runs.block_task task.task_id
              (or_default decision.reason "execution gate blocked task") now)
            tt)
          (λ _ d. no_call))
    obey-Calls name now decision GateOutcome.review is c =
        let reason = or_default decision.reason "manual review required" in
        elim (Option-cases (decision.review_case_id)) [
          | inl no_case ↦
              rw (is, no_case) (ask_reviewers-Calls l.review_coordinator name reason now refl c)
          | inr (case_id, given) ↦ rw (is, given) (send_case-Calls reason (some case_id) now c)
        ]

    unless_stopped-Calls :
        (rest : Exec Core (Option LifecycleResult)) (o : Option LifecycleResult)
        → OnlyCalls limit rest
        → OnlyCalls limit (unless_stopped rest o)
    unfolding unless_stopped
    unless_stopped-Calls rest none h c = h c
    unless_stopped-Calls rest (some r) h c = no_call

    apply_gates-Calls :
        (gates : List ExecutionGate) (now : ℕ)
        → All
            (λ (gate : ExecutionGate).
              (t : Task) (s : ScheduleDecision) → OnlyCalls limit (gate.evaluate t s))
            gates
        → OnlyCalls limit (apply_gates l.review_coordinator gates task schedule now)
    unfolding apply_gates
    apply_gates-Calls [] now h c = no_call
    apply_gates-Calls (gate ∷ gates) now h c =
        after-Calls limit c (gate.evaluate task schedule c) _ (h.0 task schedule c) (λ decision d.
          after-Calls limit d (obey l.review_coordinator gate.name task schedule now decision d) _
            (obey-Calls gate.name now decision decision.outcome refl d)
            (λ o.
              unless_stopped-Calls (apply_gates l.review_coordinator gates task schedule now) o
                (apply_gates-Calls gates now h.1)))

    give_back-Calls : (o : Option String) → OnlyCalls limit (give_back o)
    unfolding give_back budget_runs.run
    give_back-Calls none c = no_call
    give_back-Calls (some id) c =
        after-Calls limit c (on_budgets (release id) c) _
          (budget_call no_call (budget_runs.release_call id) tt) (λ _ d. no_call)

    claim_failed-Calls :
        (reservation_id attempt_id : Option String)
        → OnlyCalls limit (claim_failed l.attempt_observer task schedule reservation_id attempt_id)
    unfolding claim_failed
    claim_failed-Calls reservation_id attempt_id c =
        after-Calls limit c (give_back reservation_id c) _ (give_back-Calls reservation_id c)
          (λ _ d. end_with-Calls attempt_id _ d)

    module _ (r : Readings) (token : IsToken r.new_claim_token) where
      claim_reserved-Calls :
          (reservation_id : Option String)
          → OnlyCalls limit (claim_reserved l task schedule r reservation_id)
      unfolding claim_reserved queue_runs.run
      claim_reserved-Calls reservation_id c =
          after-Calls limit c (start_attempt l.attempt_observer task schedule c) _
            (start_attempt-Calls task schedule l.attempt_observer refl c)
            (λ attempt_id d.
              except-Calls limit d
                (on_queue (claim_next task.task_id l.task_lease_for r.claim_now r.new_claim_token)
                  d)
                _ _
                (queue_call no_call
                  (queue_runs.claim_task task.task_id l.task_lease_for r.claim_now
                    r.new_claim_token)
                  token)
                (λ claimed e. check-Calls limit e (require_claim _) _ (λ t f. no_call))
                (claim_failed-Calls reservation_id attempt_id))

      obey_budget-Calls :
          (budget : BudgetDecision) (outcome : BudgetOutcome)
          → budget.outcome ≡ outcome
          → OnlyCalls limit (obey_budget l task schedule r budget)
      unfolding obey_budget queue_runs.run
      obey_budget-Calls budget BudgetOutcome.allow is c =
          rw is (claim_reserved-Calls (reserved_id budget.reservation) c)
      obey_budget-Calls budget BudgetOutcome.defer is c = rw is (
          after-Calls limit c _ _
            (queue_call no_call
              (queue_runs.defer_task task.task_id (delay_of budget.retry_after_seconds)
                (some (or_default budget.reason "budget deferred")) r.defer_now)
              tt)
            (λ _ d. no_call))
      obey_budget-Calls budget BudgetOutcome.deny is c = rw is (
          after-Calls limit c (start_attempt l.attempt_observer task schedule c) _
            (start_attempt-Calls task schedule l.attempt_observer refl c)
            (λ attempt_id d.
              after-Calls limit d _ _
                (queue_call no_call
                  (queue_runs.block_task task.task_id
                    (or_default budget.reason "hard budget denied execution") r.defer_now)
                  tt)
                (λ u e. end_with-Calls attempt_id _ e)))

      reserve_passed-Calls : OnlyCalls limit (reserve_passed l task schedule r)
      unfolding reserve_passed budget_runs.run
      reserve_passed-Calls c =
          after-answer-Calls limit c (l.budget_planner task schedule c) _
            (p.planner_calls task schedule c)
            (λ plan d planned.
              after-Calls limit d _ _
                (budget_call no_call
                  (budget_runs.reserve_call l.budgets task plan.demand plan.context l.task_lease_for
                    r.new_reservation_id r.reserve_now)
                  (p.bounded task schedule c d plan planned))
                (λ budget. obey_budget-Calls budget budget.outcome refl))

      after_gates-Calls :
          (o : Option LifecycleResult) → OnlyCalls limit (after_gates l task schedule r o)
      unfolding after_gates
      after_gates-Calls none c = reserve_passed-Calls c
      after_gates-Calls (some result) c =
          after-Calls limit c (start_attempt l.attempt_observer task schedule c) _
            (start_attempt-Calls task schedule l.attempt_observer refl c)
            (λ attempt_id d. end_with-Calls attempt_id result d)

  admit_found-Calls :
      (schedule : ScheduleDecision) (r : Readings) (o : Option Task)
      → IsToken r.new_claim_token
      → OnlyCalls limit (admit_found l schedule r o)
  unfolding admit_found
  admit_found-Calls schedule r none token c = no_call
  admit_found-Calls schedule r (some task) token c =
      if-Calls limit c (not (is_runnable_status task.status)) _ _ no_call (
        after-Calls limit c (apply_gates l.review_coordinator l.gates task schedule r.gate_now c) _
          (apply_gates-Calls task schedule l.gates r.gate_now p.gates_call c)
          (after_gates-Calls task schedule r token))

  pub admit-Calls :
      (schedule : ScheduleDecision) (r : Readings)
      → IsToken r.new_claim_token
      → OnlyCalls limit (admit l schedule r)
  unfolding admit
  admit-Calls schedule r token c =
      admit_found-Calls schedule r (task_at c.queue schedule.task_id) token c

  pub recover_expired-Calls :
      (delay : ℤ) (reap_at recover_at : ℕ)
      → OnlyCalls limit (recover_expired delay reap_at recover_at)
  unfolding recover_expired budget_runs.run queue_runs.run
  recover_expired-Calls delay reap_at recover_at c =
      if-Calls limit c (is_negative delay) _ _ no_call (
        after-Calls limit c (on_budgets (reap_now reap_at) c) _
          (budget_call no_call (budget_runs.reap_call reap_at) tt)
          (λ reservations d.
            after-Calls limit d (on_queue (recover_expired_leases delay recover_at) d) _
              (queue_call no_call (queue_runs.recover_leases delay recover_at) tt)
              (λ _ e. no_call)))
