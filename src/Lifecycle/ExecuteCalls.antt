-- ===== src/Lifecycle/ExecuteCalls.antt =====
-- `Lifecycle.execute_claimed` (recon/core/lifecycle.py) as calls of the queue and the budgets.
use night_scout.Prelude.{
  ℕ, String, ◌≡◌, refl, inl, inr, Bool, Option, none, some, List, [], ◌∷◌, All, if◌then◌else◌,
  Option-cases,
}
use night_scout.Prelude.Int.{ℤ, pos}
use night_scout.Prelude.Exec.{Result, ok, after}
use night_scout.Queue.Task.{Task}
use night_scout.Queue.Ops.{heartbeat}
use night_scout.Queue.Writes.{IsToken}
use night_scout.Queue.Runs as queue_runs
use night_scout.Budgets.Model.{BucketKey}
use night_scout.Budgets.Store.{commit}
use night_scout.Budgets.Manager.{renew_for}
use night_scout.Budgets.Runs as budget_runs
use night_scout.Scheduler.Batch.{ScheduleDecision}
use night_scout.Lifecycle.Model.{
  WorkerOutcome, WorkerExecutionResult, LifecycleOutcome, LifecycleResult, DispatchTicket, Core,
  on_queue, on_budgets, except_transition, suppressed, Lifecycle, or_default, delay_of,
}
use night_scout.Lifecycle.Admit.{Admission, ended, ticket, admit_next, Readings}
use night_scout.Lifecycle.Execute.{
  Beat, raised, cancelled, returned, Supervised, worker_ended, heartbeat_failed, renew_reservation,
  beat_once, beats_on, WorkerRun, supervise, finished, cancellation, complete_claimed,
  written_result, retry_or_failed, finish_with, stale_result, finish_stale, with_token,
  fail_claimed, succeed_claimed, commit_reservation, end_unhealthy, end_cancelled, end_raised,
  end_outcome, end_returned, end_supervised, execute_claimed, run_admitted, run_once,
}
use night_scout.Lifecycle.Calls.{
  Calls, no_call, queue_call, budget_call, Calls-trans, OnlyCalls, after-Calls, except-Calls,
  if-Calls, IsPolite,
}
use night_scout.Lifecycle.AdmitCalls.{complete-Calls, admit-Calls}

-- what others do while the worker runs are calls of the queue and the budgets
pub record IsPoliteRun (limit : BucketKey → ℕ) (run : WorkerRun) : Type 0 where
  pub beats_call : All (λ (beat : Beat). (c : Core) → Calls limit c (beat.meanwhile c)) run.beats
  pub end_calls : (c : Core) → Calls limit c (run.at_end c)

module _ (limit : BucketKey → ℕ) (l : Lifecycle) (p : IsPolite limit l) where
  renew_reservation-Calls :
      (o : Option String) (lease_for : ℤ) (now : ℕ)
      → OnlyCalls limit (renew_reservation o lease_for now)
  unfolding renew_reservation budget_runs.run
  renew_reservation-Calls none lease_for now c = no_call
  renew_reservation-Calls (some id) lease_for now c =
      after-Calls limit c (on_budgets (renew_for id lease_for now) c) _
        (budget_call no_call (budget_runs.renew_call id lease_for now) tt) (λ _ d. no_call)

  beats_on-Calls :
      (id token : String) (o : Option String) (beats : List Beat)
      → All (λ (beat : Beat). (c : Core) → Calls limit c (beat.meanwhile c)) beats
      → OnlyCalls limit (beats_on l id token o beats)
  unfolding beats_on beat_once queue_runs.run
  beats_on-Calls id token o [] h c = no_call
  beats_on-Calls id token o (beat ∷ beats) h c =
      after-Calls limit c (beat_once l id token o beat c) _
        (after-Calls limit c
          (on_queue (heartbeat id token l.task_lease_for beat.task_now) (beat.meanwhile c)) _
          (queue_call (h.0 c) (queue_runs.heartbeat_task id token l.task_lease_for beat.task_now)
            tt)
          (λ _ d. renew_reservation-Calls o l.task_lease_for beat.budget_now d))
        (λ _ d. beats_on-Calls id token o beats h.1 d)

  pub supervise-Calls :
      (t : DispatchTicket) (run : WorkerRun) (c : Core)
      → IsPoliteRun limit run
      → Calls limit c (supervise l t run c).1
  unfolding supervise
  supervise-Calls t run c q = elim (Option-cases (t.task.claim_token)) [
    | inl bare ↦ rw bare (q.end_calls c)
    | inr (token, owned) ↦ rw owned (
        Calls-trans limit
          (beats_on-Calls t.task.task_id token t.reservation_id run.beats q.beats_call c)
          (q.end_calls _))
  ]

  finish_with-Calls :
      (t : DispatchTicket) (r : LifecycleResult) → OnlyCalls limit (finish_with l t r)
  unfolding finish_with complete_claimed
  finish_with-Calls t r c =
      after-Calls limit c (complete_claimed l t r c) _
        (complete-Calls limit l p l.attempt_observer t.attempt_id _ refl c) (λ _ d. no_call)

  finish_stale-Calls : (t : DispatchTicket) → OnlyCalls limit (finish_stale l t)
  unfolding finish_stale
  finish_stale-Calls t c = finish_with-Calls t (stale_result t c) c

  fail_claimed-Calls :
      (t : DispatchTicket) (error : String) (delay : Option ℤ) (now : ℕ)
      → OnlyCalls limit (fail_claimed t error delay now)
  unfolding fail_claimed with_token queue_runs.run
  fail_claimed-Calls t error delay now c = elim (Option-cases (t.task.claim_token)) [
    | inl bare ↦ rw bare no_call
    | inr (token, owned) ↦
        rw owned (queue_call no_call (queue_runs.fail_task t.task.task_id token error delay now) tt)
  ]

  succeed_claimed-Calls : (t : DispatchTicket) (now : ℕ) → OnlyCalls limit (succeed_claimed t now)
  unfolding succeed_claimed with_token queue_runs.run
  succeed_claimed-Calls t now c = elim (Option-cases (t.task.claim_token)) [
    | inl bare ↦ rw bare no_call
    | inr (token, owned) ↦
        rw owned (queue_call no_call (queue_runs.succeed_task t.task.task_id token now) tt)
  ]

  pub commit_reservation-Calls : (o : Option String) → OnlyCalls limit (commit_reservation o)
  unfolding commit_reservation budget_runs.run
  commit_reservation-Calls none c = no_call
  commit_reservation-Calls (some id) c =
      after-Calls limit c (on_budgets (commit id) c) _
        (budget_call no_call (budget_runs.commit_call id) tt) (λ _ d. no_call)

  module _ (t : DispatchTicket) (now : ℕ) where
    -- a transition of the task, whose result is recorded, or the stale result when it raises
    settle-Calls :
        (c : Core) (x : Result Task × Core) (result : Task → LifecycleResult)
        → Calls limit c x.1
        → Calls limit c (except_transition x (λ u. finish_with l t (result u)) (finish_stale l t)).1
    settle-Calls c x result h =
        except-Calls limit c x _ _ h (λ u. finish_with-Calls t (result u)) (finish_stale-Calls t)

    -- where every ending starts: the commit of the reservation, whether it returned or raised
    abbrev after_commit : Core → Core
    after_commit c = suppressed (commit_reservation t.reservation_id c)

    end_unhealthy-Calls : (c : Core) → Calls limit (after_commit c) (end_unhealthy l t now c).1
    unfolding end_unhealthy
    end_unhealthy-Calls c =
        settle-Calls (after_commit c)
          (fail_claimed t "lease heartbeat failed" (some (pos 0)) now (after_commit c))
          (λ u. written_result t (retry_or_failed u.status) u.last_error u)
          (fail_claimed-Calls t "lease heartbeat failed" (some (pos 0)) now (after_commit c))

    end_cancelled-Calls :
        (externally : Bool) (c : Core)
        → Calls limit (after_commit c) (end_cancelled l t externally now c).1
    unfolding end_cancelled
    end_cancelled-Calls externally c =
        let error =
          if externally
          then "execution cancelled by operator"
          else "worker execution cancelled unexpectedly" in
        let failing = fail_claimed t error (some (pos 0)) now (after_commit c) in
        let completing = λ (u : Task).
          complete_claimed l t (written_result t (retry_or_failed u.status) u.last_error u) in
        let attempt = after failing completing in
        let attempt-calls =
          after-Calls limit (after_commit c) failing completing
            (fail_claimed-Calls t error (some (pos 0)) now (after_commit c))
            (λ u.
              unfold complete_claimed in
              complete-Calls limit l p l.attempt_observer t.attempt_id _ refl) in
        if-Calls limit (after_commit c) externally
          (after attempt (λ result d. (ok cancellation, d)))
          (except_transition attempt (λ result d. (ok (finished result), d)) (finish_stale l t))
          (after-Calls limit (after_commit c) attempt (λ result d. (ok cancellation, d))
            attempt-calls (λ result d. no_call))
          (except-Calls limit (after_commit c) attempt (λ result d. (ok (finished result), d))
            (finish_stale l t) attempt-calls (λ result d. no_call) (finish_stale-Calls t))

    end_raised-Calls : (c : Core) → Calls limit (after_commit c) (end_raised l t now c).1
    unfolding end_raised
    end_raised-Calls c =
        after-Calls limit (after_commit c) (commit_reservation t.reservation_id c) _ no_call (λ _ d.
          settle-Calls d (fail_claimed t "executor exception" none now d)
            (λ u. written_result t LifecycleOutcome.failed u.last_error u)
            (fail_claimed-Calls t "executor exception" none now d))

    end_outcome-Calls :
        (execution : WorkerExecutionResult) (outcome : WorkerOutcome)
        → execution.outcome ≡ outcome
        → OnlyCalls limit (end_outcome l t execution now)
    unfolding end_outcome
    end_outcome-Calls execution WorkerOutcome.worker_succeeded is c = rw is (
        settle-Calls c (succeed_claimed t now c)
          (λ u. written_result t LifecycleOutcome.succeeded none u) (succeed_claimed-Calls t now c))
    end_outcome-Calls execution WorkerOutcome.worker_retry is c =
        let error = or_default execution.error "worker requested retry" in
        let delay = some (delay_of execution.retry_after) in
        rw is (
          settle-Calls c (fail_claimed t error delay now c)
            (λ u. written_result t (retry_or_failed u.status) u.last_error u)
            (fail_claimed-Calls t error delay now c))
    end_outcome-Calls execution WorkerOutcome.worker_failed is c =
        let error = or_default execution.error "worker failed" in
        rw is (
          settle-Calls c (fail_claimed t error none now c)
            (λ u. written_result t LifecycleOutcome.failed u.last_error u)
            (fail_claimed-Calls t error none now c))

    pub end_supervised-Calls :
        (e : Supervised) (c : Core) → Calls limit (after_commit c) (end_supervised l t now e c).1
    unfolding end_supervised end_returned
    end_supervised-Calls heartbeat_failed c = end_unhealthy-Calls c
    end_supervised-Calls (worker_ended (cancelled externally)) c = end_cancelled-Calls externally c
    end_supervised-Calls (worker_ended raised) c = end_raised-Calls c
    end_supervised-Calls (worker_ended (returned execution)) c =
        after-Calls limit (after_commit c) (commit_reservation t.reservation_id c) _ no_call
          (λ _. end_outcome-Calls execution execution.outcome refl)

  pub execute_claimed-Calls :
      (t : DispatchTicket) (run : WorkerRun)
      → IsPoliteRun limit run
      → OnlyCalls limit (execute_claimed l t run)
  unfolding execute_claimed
  execute_claimed-Calls t run q c =
      let d = (supervise l t run c).1 in
      Calls-trans limit (supervise-Calls t run c q) (
        Calls-trans limit (commit_reservation-Calls t.reservation_id d)
          (end_supervised-Calls t run.now (supervise l t run c).0 d))

  run_admitted-Calls :
      (worker : Task → WorkerRun) (a : Admission)
      → ((task : Task) → IsPoliteRun limit (worker task))
      → OnlyCalls limit (run_admitted l worker a)
  unfolding run_admitted
  run_admitted-Calls worker (ended result) q c = no_call
  run_admitted-Calls worker (ticket t) q c = execute_claimed-Calls t (worker t.task) (q t.task) c

  admit_next-Calls :
      (schedule : Option ScheduleDecision) (r : Readings)
      → IsToken r.new_claim_token
      → OnlyCalls limit (admit_next l schedule r)
  unfolding admit_next
  admit_next-Calls none r token c = no_call
  admit_next-Calls (some schedule) r token c = admit-Calls limit l p schedule r token c

  pub run_once-Calls :
      (schedule : Option ScheduleDecision) (r : Readings) (worker : Task → WorkerRun)
      → IsToken r.new_claim_token
      → ((task : Task) → IsPoliteRun limit (worker task))
      → OnlyCalls limit (run_once l schedule r worker)
  unfolding run_once
  run_once-Calls schedule r worker token q c =
      after-Calls limit c (admit_next l schedule r c) _ (admit_next-Calls schedule r token c)
        (λ a. run_admitted-Calls worker a q)
