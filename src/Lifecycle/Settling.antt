-- ===== src/Lifecycle/Settling.antt =====
-- The reservation of a ticket after `Lifecycle.execute_claimed` (recon/core/lifecycle.py).
use night_scout.Prelude.{ℕ, String, string_eq, ◌≡◌, refl, subst, sym, some}
use night_scout.Prelude.Dict
use night_scout.Prelude.Exec.{after-state}
use night_scout.Budgets.Model.{BucketKey, BudgetReservation}
use night_scout.Budgets.Store.{commit}
use night_scout.Budgets.Spending.{IsSound}
use night_scout.Budgets.Runs.{run, run-IsSound}
use night_scout.Budgets.Settled.{Keeps, IsOver, Keeps-IsOver, Keeps-trans, run-Keeps, commit-IsOver}
use night_scout.Lifecycle.Model.{DispatchTicket, Core, on_budgets, suppressed, Lifecycle}
use night_scout.Lifecycle.Execute.{
  WorkerRun, supervise, commit_reservation, end_supervised, execute_claimed,
}
use night_scout.Lifecycle.Calls.{Calls, no_call, queue_call, budget_call, IsPolite}
use night_scout.Lifecycle.ExecuteCalls.{
  IsPoliteRun, commit_reservation-Calls, supervise-Calls, end_supervised-Calls,
}

module _ (limit : BucketKey → ℕ) where
  pub Calls-IsSound :
      {c d : Core} → Calls limit c d → IsSound limit c.budgets → IsSound limit d.budgets
  Calls-IsSound no_call w = w
  Calls-IsSound (queue_call before k a) w = Calls-IsSound before w
  Calls-IsSound (budget_call before k a) w = run-IsSound limit k _ a (Calls-IsSound before w)

  -- Whatever calls are made, a stored reservation stays stored, and exactly as it is once it is over.
  Calls-Keeps :
      (id : String) {c d : Core}
      → Calls limit c d
      → IsSound limit c.budgets
      → Keeps id c.budgets d.budgets
  Calls-Keeps id no_call w = λ r at. (r, at, λ over. refl)
  Calls-Keeps id (queue_call before k a) w = Calls-Keeps id before w
  Calls-Keeps id {c} (budget_call {d} before k a) w =
      Keeps-trans id c.budgets d.budgets (run k d.budgets) (Calls-Keeps id before w)
        (run-Keeps id d.budgets k (Calls-IsSound before w).0)

  after_commit-IsOver :
      (id : String) (t : DispatchTicket) (c : Core) (r : BudgetReservation)
      → t.reservation_id ≡ some id
      → IsSound limit c.budgets
      → Dict.get c.budgets.reservations id ≡ some r
      → IsOver id (suppressed (commit_reservation t.reservation_id c)).budgets
  unfolding commit_reservation
  after_commit-IsOver id t c r holds w at = rw holds (
      subst (λ (d : Core). IsOver id d.budgets)
        (sym (after-state (on_budgets (commit id) c) (λ _. tt)))
        (commit-IsOver id c.budgets r w.0 at))

  -- When the execution of a ticket is over, whether it returned, was cancelled or raised, the reservation
  -- of the ticket is stored and not active: nothing stays reserved for it. It must have been stored when the
  -- execution began, the budgets sound and within their limits; what is given to the lifecycle and what
  -- others do meanwhile must act on the queue and the budgets by admissible calls, and each check that
  -- a plan compiles must have its limit.
  pub execute_claimed-IsOver :
      (l : Lifecycle) (t : DispatchTicket) (run : WorkerRun) (c : Core) (id : String)
      (r : BudgetReservation)
      → IsPolite limit l
      → IsPoliteRun limit run
      → IsSound limit c.budgets
      → t.reservation_id ≡ some id
      → Dict.get c.budgets.reservations id ≡ some r
      → IsOver id (execute_claimed l t run c).1.budgets
  unfolding execute_claimed
  execute_claimed-IsOver l t run c id r p q w holds at =
      let (ending, d) = supervise l t run c in
      let supervised = supervise-Calls limit l p t run c q in
      let (now_stored, there, _) = Calls-Keeps id supervised w r at in
      let sound = Calls-IsSound supervised w in
      let mid = suppressed (commit_reservation t.reservation_id d) in
      let committing = commit_reservation-Calls limit l p t.reservation_id d in
      let rest = end_supervised-Calls limit l p t run.now ending d in
      Keeps-IsOver id mid.budgets (end_supervised l t run.now ending d).1.budgets
        (Calls-Keeps id rest (Calls-IsSound committing sound))
        (after_commit-IsOver id t d now_stored holds sound there)
