-- ===== src/Lifecycle/Turns.antt =====
-- Whole runs of a lifecycle (recon/core/lifecycle.py) as runs of its queue and of its budgets.
use night_scout.Prelude.{ℕ, ◌+◌, ◌≤◌, String, ◌≡◌, true, Option, some, List, [], ◌∷◌, All}
use night_scout.Prelude.Int.{ℤ}
use night_scout.Prelude.Dict.Totals.{total}
use night_scout.Queue.Task.{Task, running, is_some}
use night_scout.Queue.Store.{empty_store, task_at}
use night_scout.Queue.Writes.{IsToken}
use night_scout.Queue.Runs as queue_runs
use night_scout.Queue.Progress.{attempts_bounded}
use night_scout.Budgets.Model.{tolerance, BucketKey}
use night_scout.Budgets.Store.{spent_at, reserved_at}
use night_scout.Budgets.Balance.{owed, empty_budgets}
use night_scout.Budgets.Runs as budget_runs
use night_scout.Scheduler.Batch.{ScheduleDecision}
use night_scout.Lifecycle.Model.{Core, DispatchTicket, Lifecycle}
use night_scout.Lifecycle.Admit.{Readings, admit, admit_each, admit_batch, recover_expired}
use night_scout.Lifecycle.Execute.{WorkerRun, execute_claimed, run_once}
use night_scout.Lifecycle.Calls.{
  Calls, no_call, queue_call, budget_call, Calls-trans, OnlyCalls, after-Calls, IsPolite,
}
use night_scout.Lifecycle.AdmitCalls.{admit-Calls, recover_expired-Calls}
use night_scout.Lifecycle.ExecuteCalls.{IsPoliteRun, execute_claimed-Calls, run_once-Calls}

module _ (limit : BucketKey → ℕ) where
  -- A run of a lifecycle: its methods one after the other, whether they return or raise, with calls of
  -- the queue and the budgets that others make in between.
  pub data Turns (l : Lifecycle) (c : Core) : Core → Type 0 where
    begin : Turns l c c
    others : {d e : Core} → Turns l c d → Calls limit d e → Turns l c e
    recover_turn :
        {d : Core}
        → Turns l c d
        → (delay : ℤ) (reap_at recover_at : ℕ)
        → Turns l c (recover_expired delay reap_at recover_at d).1
    batch_turn :
        {d : Core}
        → Turns l c d
        → (schedules : List (ScheduleDecision × Readings))
        → All (λ (s : ScheduleDecision × Readings). IsToken s.1.new_claim_token) schedules
        → Turns l c (admit_batch l schedules d).1
    execute_turn :
        {d : Core}
        → Turns l c d
        → (t : DispatchTicket) (run : WorkerRun) → IsPoliteRun limit run
        → Turns l c (execute_claimed l t run d).1
    once_turn :
        {d : Core}
        → Turns l c d
        → (schedule : Option ScheduleDecision) (r : Readings) (worker : Task → WorkerRun)
        → IsToken r.new_claim_token
        → ((task : Task) → IsPoliteRun limit (worker task))
        → Turns l c (run_once l schedule r worker d).1

  module _ (l : Lifecycle) (p : IsPolite limit l) where
    admit_each-Calls :
        (schedules : List (ScheduleDecision × Readings))
        → All (λ (s : ScheduleDecision × Readings). IsToken s.1.new_claim_token) schedules
        → OnlyCalls limit (admit_each l schedules)
    unfolding admit_each
    admit_each-Calls [] tokens c = no_call
    admit_each-Calls ((schedule, r) ∷ schedules) tokens c =
        after-Calls limit c (admit l schedule r c) _ (admit-Calls limit l p schedule r tokens.0 c)
          (λ admission d.
            after-Calls limit d (admit_each l schedules d) _ (admit_each-Calls schedules tokens.1 d)
              (λ rest e. no_call))

    admit_batch-Calls :
        (schedules : List (ScheduleDecision × Readings))
        → All (λ (s : ScheduleDecision × Readings). IsToken s.1.new_claim_token) schedules
        → OnlyCalls limit (admit_batch l schedules)
    unfolding admit_batch
    admit_batch-Calls [] tokens c = no_call
    admit_batch-Calls (s ∷ schedules) tokens c = admit_each-Calls (s ∷ schedules) tokens c

    Turns-Calls : {c d : Core} → Turns l c d → Calls limit c d
    Turns-Calls begin = no_call
    Turns-Calls (others before calls) = Calls-trans limit (Turns-Calls before) calls
    Turns-Calls (recover_turn before delay reap_at recover_at) =
        Calls-trans limit (Turns-Calls before)
          (recover_expired-Calls limit l p delay reap_at recover_at _)
    Turns-Calls (batch_turn before schedules tokens) =
        Calls-trans limit (Turns-Calls before) (admit_batch-Calls schedules tokens _)
    Turns-Calls (execute_turn before t run q) =
        Calls-trans limit (Turns-Calls before) (execute_claimed-Calls limit l p t run q _)
    Turns-Calls (once_turn before schedule r worker token q) =
        Calls-trans limit (Turns-Calls before)
          (run_once-Calls limit l p schedule r worker token q _)

  Calls-queue : {c d : Core} → Calls limit c d → queue_runs.Reach c.queue d.queue
  Calls-queue no_call = queue_runs.start
  Calls-queue (queue_call before k a) = queue_runs.call (Calls-queue before) k a
  Calls-queue (budget_call before k a) = Calls-queue before

  Calls-budgets :
      {c d : Core}
      → Calls limit c d
      → budget_runs.Reach limit c.budgets
      → budget_runs.Reach limit d.budgets
  Calls-budgets no_call r = r
  Calls-budgets (queue_call before k a) r = Calls-budgets before r
  Calls-budgets (budget_call before k a) r = budget_runs.call (Calls-budgets before r) k a

  -- A run of a lifecycle is a run of its queue and a run of its budgets: whatever its methods do, raise
  -- or not, they change the two only by admissible calls. What is given to the lifecycle (gates,
  -- reviewers, observer, planner, workers) must act on them by such calls too, and each check that a
  -- plan compiles must have its limit.
  pub Turns-Reach :
      (l : Lifecycle) (c d : Core)
      → IsPolite limit l
      → Turns l c d
      → queue_runs.Reach c.queue d.queue
        × (budget_runs.Reach limit c.budgets → budget_runs.Reach limit d.budgets)
  Turns-Reach l c d p turns =
      let calls = Turns-Calls l p turns in (Calls-queue calls, Calls-budgets calls)

  -- However a lifecycle runs from an empty queue and empty budgets, what is spent and reserved under a
  -- key exceeds the limit of the key by no more than the tolerance, the reserved amount is what the
  -- active reservations hold, no task has more attempts than `max_attempts`, and one that runs has a
  -- claim token and a lease. What is given to the lifecycle must act on the queue and the budgets by
  -- admissible calls, and each check that a plan compiles must have its limit.
  pub within_bounds :
      (l : Lifecycle) (d : Core)
      → IsPolite limit l
      → Turns l (record { queue = empty_store; budgets = empty_budgets }) d
      → ((k : BucketKey)
          → (spent_at d.budgets k + reserved_at d.budgets k ≤ limit k + tolerance)
            × (reserved_at d.budgets k ≡ total (owed k) d.budgets.reservations))
        × ((id : String) (t : Task)
            → task_at d.queue id ≡ some t
            → (t.attempts ≤ t.max_attempts)
              × (t.status ≡ running
                  → (is_some t.claim_token ≡ true) × (is_some t.lease_expires_at ≡ true)))
  within_bounds l d p turns =
      let (queue, budgets) = Turns-Reach l _ d p turns in
      (
        budget_runs.never_overspent limit d.budgets (budgets budget_runs.start),
        λ id t at. attempts_bounded d.queue id t queue at,
      )
