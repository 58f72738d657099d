-- ===== src/Lifecycle/Execute.antt =====
-- `Lifecycle.execute_claimed` with its heartbeats (recon/core/lifecycle.py). The worker's run is an
-- argument: the moments of its heartbeats with what others did before each, and how the run ends.
use night_scout.Prelude.{ℕ, String, Bool, true, Option, none, some, List, [], ◌∷◌, if◌then◌else◌}
use night_scout.Prelude.Int.{ℤ, pos}
use night_scout.Prelude.Exec.{value_error, Result, ok, err, Exec, after}
use night_scout.Queue.Task.{Task, TaskStatus, deferred, status_beq}
use night_scout.Queue.Store.{TaskStore}
use night_scout.Queue.Ops.{heartbeat, fail}
use night_scout.Queue.Finish.{succeed}
use night_scout.Budgets.Store.{commit}
use night_scout.Budgets.Manager.{renew_for}
use night_scout.Scheduler.Batch.{ScheduleDecision}
use night_scout.Lifecycle.Model.{
  WorkerOutcome, WorkerExecutionResult, LifecycleOutcome, LifecycleResult, DispatchTicket, Core,
  on_queue, on_budgets, except_transition, suppressed, Lifecycle, result_of, or_default, delay_of,
}
use night_scout.Lifecycle.Admit.{
  complete, status_at, Admission, ended, ticket, admit_next, Readings,
}

-- a heartbeat: what happens before it, and the clock at its two calls
pub record Beat : Type 0 where
  pub meanwhile : Core → Core
  pub task_now : ℕ
  pub budget_now : ℕ

-- how the worker's run ends; `raised` stands for an exception that is no LeaseHeartbeatError
pub data Ending : Type 0 where
  returned : WorkerExecutionResult → Ending
  raised : Ending
  cancelled : (externally : Bool) → Ending

-- what `_supervise_execution` comes to: the worker's ending, or a heartbeat that failed
pub data Supervised : Type 0 where
  worker_ended : Ending → Supervised
  heartbeat_failed : Supervised

-- `if reservation_id is not None: await self._budgets.renew(…)`
unfoldable pub renew_reservation : Option String → ℤ → ℕ → Exec Core (Unit {0})
renew_reservation none lease_for now c = (ok tt, c)
renew_reservation (some id) lease_for now c =
    after (on_budgets (renew_for id lease_for now) c) λ _ d. (ok tt, d)

-- one turn of `_heartbeat_loop`: whatever its calls raise, the heartbeat failed
unfoldable pub beat_once : Lifecycle → String → String → Option String → Beat → Exec Core (Unit {0})
beat_once l task_id claim_token reservation_id beat c =
    after
      (on_queue (heartbeat task_id claim_token l.task_lease_for beat.task_now) (beat.meanwhile c))
      λ _ d. renew_reservation reservation_id l.task_lease_for beat.budget_now d

-- the race of the worker against its heartbeats; a heartbeat that fails ends the worker
unfoldable pub beats_on :
    Lifecycle → String → String → Option String → List Beat → Exec Core (Unit {0})
beats_on l task_id claim_token reservation_id [] c = (ok tt, c)
beats_on l task_id claim_token reservation_id (beat ∷ beats) c =
    after (beat_once l task_id claim_token reservation_id beat c)
      λ _ d. beats_on l task_id claim_token reservation_id beats d

unfoldable pub ending_of : Result (Unit {0}) → Ending → Supervised
ending_of (ok _) ending = worker_ended ending
ending_of (err e) ending = heartbeat_failed

-- the run of a worker: its heartbeats, what others do until it ends, how it ends, and the clock then
pub record WorkerRun : Type 0 where
  pub beats : List Beat
  pub at_end : Core → Core
  pub ending : Ending
  pub now : ℕ

-- `_supervise_execution`; without a claim token the heartbeat stops at once, which counts as a failure
unfoldable pub supervise : Lifecycle → DispatchTicket → WorkerRun → Core → Supervised × Core
supervise l t run c = elim (t.task.claim_token) [
  | none ↦ (heartbeat_failed, run.at_end c)
  | some token ↦
      let (r, d) = beats_on l t.task.task_id token t.reservation_id run.beats c in
      (ending_of r run.ending, run.at_end d)
]

-- the method's answer: a result, or the cancellation that it passes on
pub data Executed : Type 0 where
  finished : LifecycleResult → Executed
  cancellation : Executed

-- `complete`
unfoldable pub complete_claimed :
    Lifecycle → DispatchTicket → LifecycleResult → Exec Core LifecycleResult
complete_claimed l t result c =
    complete l.attempt_observer t.attempt_id
      (record result { claimed = true; execution_attempt = some t.task.attempts }) c

unfoldable pub finish_with : Lifecycle → DispatchTicket → LifecycleResult → Exec Core Executed
finish_with l t result c = after (complete_claimed l t result c) λ r d. (ok (finished r), d)

-- `_stale_completion_result`
unfoldable pub stale_result : DispatchTicket → Core → LifecycleResult
stale_result t c = record (result_of LifecycleOutcome.stale t.task t.schedule) {
  reason = some "stale execution could not finalize task";
  reservation_id = t.reservation_id;
  queue_status = status_at c t.task.task_id;
}

unfoldable pub finish_stale : Lifecycle → DispatchTicket → Exec Core Executed
finish_stale l t c = finish_with l t (stale_result t c) c

-- the result of a written task
unfoldable pub written_result :
    DispatchTicket → LifecycleOutcome → Option String → Task → LifecycleResult
written_result t outcome reason written = record (result_of outcome t.task t.schedule) {
  reason = reason;
  reservation_id = t.reservation_id;
  queue_status = some written.status;
}

-- `RETRY if status is DEFERRED else FAILED`
unfoldable pub retry_or_failed : TaskStatus → LifecycleOutcome
retry_or_failed status =
    if status_beq status deferred then LifecycleOutcome.retry else LifecycleOutcome.failed

-- `_claim_token`, before the call that needs it
unfoldable pub with_token : Option String → (String → Exec TaskStore Task) → Exec TaskStore Task
with_token none m s = (err value_error, s)
with_token (some token) m s = m token s

unfoldable pub fail_claimed : DispatchTicket → String → Option ℤ → ℕ → Exec Core Task
fail_claimed t error retry_delay now c =
    on_queue
      (with_token t.task.claim_token (λ token. fail t.task.task_id token error retry_delay now)) c

unfoldable pub succeed_claimed : DispatchTicket → ℕ → Exec Core Task
succeed_claimed t now c =
    on_queue (with_token t.task.claim_token (λ token. succeed t.task.task_id token now)) c

-- `if reservation_id is not None: await self._budgets.commit(reservation_id)`
unfoldable pub commit_reservation : Option String → Exec Core (Unit {0})
commit_reservation none c = (ok tt, c)
commit_reservation (some id) c = after (on_budgets (commit id) c) λ _ d. (ok tt, d)

-- the branch of a heartbeat that failed
unfoldable pub end_unhealthy : Lifecycle → DispatchTicket → ℕ → Exec Core Executed
end_unhealthy l t now c =
    except_transition
      (fail_claimed t "lease heartbeat failed" (some (pos 0)) now
        (suppressed (commit_reservation t.reservation_id c)))
      (λ u. finish_with l t (written_result t (retry_or_failed u.status) u.last_error u))
      (finish_stale l t)

-- the branch of a cancellation; of one from outside, the bare `raise` in the handler of the failed
-- transition raises that exception again, not the cancellation
unfoldable pub end_cancelled : Lifecycle → DispatchTicket → Bool → ℕ → Exec Core Executed
end_cancelled l t externally now c =
    let attempt =
      after
        (fail_claimed t
          (if externally
            then "execution cancelled by operator"
            else "worker execution cancelled unexpectedly")
          (some (pos 0)) now (suppressed (commit_reservation t.reservation_id c)))
        λ u. complete_claimed l t (written_result t (retry_or_failed u.status) u.last_error u) in
    let reraised = after attempt λ result d. (ok cancellation, d) in
    let contained =
      except_transition attempt (λ result d. (ok (finished result), d)) (finish_stale l t) in
    if externally then reraised else contained

-- the branch of an exception of the executor
unfoldable pub end_raised : Lifecycle → DispatchTicket → ℕ → Exec Core Executed
end_raised l t now c = after (commit_reservation t.reservation_id c) λ _ d.
    except_transition (fail_claimed t "executor exception" none now d)
      (λ u. finish_with l t (written_result t LifecycleOutcome.failed u.last_error u))
      (finish_stale l t)

-- the end of a worker that returned, once its reservation is committed
unfoldable pub end_outcome :
    Lifecycle → DispatchTicket → WorkerExecutionResult → ℕ → Exec Core Executed
end_outcome l t execution now c = elim (execution.outcome) [
  | WorkerOutcome.worker_succeeded ↦
      except_transition (succeed_claimed t now c)
        (λ u. finish_with l t (written_result t LifecycleOutcome.succeeded none u))
        (finish_stale l t)
  | WorkerOutcome.worker_retry ↦
      except_transition
        (fail_claimed t (or_default execution.error "worker requested retry")
          (some (delay_of execution.retry_after)) now c)
        (λ u. finish_with l t (written_result t (retry_or_failed u.status) u.last_error u))
        (finish_stale l t)
  | WorkerOutcome.worker_failed ↦
      except_transition (fail_claimed t (or_default execution.error "worker failed") none now c)
        (λ u. finish_with l t (written_result t LifecycleOutcome.failed u.last_error u))
        (finish_stale l t)
]

unfoldable pub end_returned :
    Lifecycle → DispatchTicket → WorkerExecutionResult → ℕ → Exec Core Executed
end_returned l t execution now c =
    after (commit_reservation t.reservation_id c) λ _ d. end_outcome l t execution now d

unfoldable pub end_supervised : Lifecycle → DispatchTicket → ℕ → Supervised → Exec Core Executed
end_supervised l t now heartbeat_failed c = end_unhealthy l t now c
end_supervised l t now (worker_ended (cancelled externally)) c = end_cancelled l t externally now c
end_supervised l t now (worker_ended raised) c = end_raised l t now c
end_supervised l t now (worker_ended (returned execution)) c = end_returned l t execution now c

-- `Lifecycle.execute_claimed`
unfoldable pub execute_claimed : Lifecycle → DispatchTicket → WorkerRun → Exec Core Executed
execute_claimed l t run c =
    let (ending, d) = supervise l t run c in end_supervised l t run.now ending d

-- `Lifecycle.run_once`, for what the scheduler selected and the run that the worker would make
unfoldable pub run_admitted : Lifecycle → (Task → WorkerRun) → Admission → Exec Core Executed
run_admitted l worker (ended result) c = (ok (finished result), c)
run_admitted l worker (ticket t) c = execute_claimed l t (worker t.task) c

unfoldable pub run_once :
    Lifecycle → Option ScheduleDecision → Readings → (Task → WorkerRun) → Exec Core Executed
run_once l schedule r worker c = after (admit_next l schedule r c) (run_admitted l worker)
