-- ===== src/Lifecycle/Gates.antt =====
-- `Lifecycle._apply_gates` (recon/core/lifecycle.py): what the gates' decisions come to.
use Prim.Native.String
use night_scout.Prelude.{ℕ, String, Option, none, some, List, [], ◌∷◌, if◌then◌else◌}
use night_scout.Prelude.Text.{is_within}
use night_scout.Prelude.Exec.{ok, Exec, after}
use night_scout.Queue.Task.{Task}
use night_scout.Queue.Ops.{defer}
use night_scout.Queue.Finish.{block, send_to_review}
use night_scout.Scheduler.Batch.{ScheduleDecision}
use night_scout.Lifecycle.Model.{
  GateOutcome, GateDecision, LifecycleOutcome, LifecycleResult, Core, on_queue, ExecutionGate,
  LifecycleReviewCoordinator, result_of, or_default, delay_of,
}

-- `f"{reason}; case={case_id}" if case_id is not None and f"case={case_id}" not in reason else reason`
unfoldable pub case_reason : String → Option String → String
case_reason reason none = reason
case_reason reason (some case_id) =
    let mark = String.◌++◌ "case=" case_id in
    if is_within mark reason then reason else String.◌++◌ reason (String.◌++◌ "; " mark)

-- the result of a gate that did not let the task pass
abbrev pub gate_result :
    LifecycleOutcome → Task → ScheduleDecision → Option String → Task → LifecycleResult
gate_result outcome task schedule reason written = record (result_of outcome task schedule) {
  reason = reason;
  queue_status = some written.status;
}

unfoldable pub send_case :
    Task → ScheduleDecision → String → Option String → ℕ → Exec Core (Option LifecycleResult)
send_case task schedule reason case_id now c =
    after (on_queue (send_to_review task.task_id (case_reason reason case_id) now) c) λ t d. (
      ok (
          some (
            gate_result LifecycleOutcome.in_review task schedule (some (case_reason reason case_id))
              t)),
      d,
    )

-- a REVIEW without a case of its own: passed if the review was approved, else a case is opened
unfoldable pub ask_reviewers :
    Option LifecycleReviewCoordinator
    → String
    → Task
    → ScheduleDecision
    → String
    → ℕ
    → Exec Core (Option LifecycleResult)
ask_reviewers none gate_name task schedule reason now c = send_case task schedule reason none now c
ask_reviewers (some reviews) gate_name task schedule reason now c =
    after (reviews.approved_for task gate_name reason c) λ approved d.
      let opened =
        after (reviews.open_case task gate_name reason d)
          λ case_id e. send_case task schedule reason (some case_id) now e in
      if approved then (ok none, d) else opened

-- what one gate's decision comes to; None to go on with the next gate
unfoldable pub obey :
    Option LifecycleReviewCoordinator
    → String
    → Task
    → ScheduleDecision
    → ℕ
    → GateDecision
    → Exec Core (Option LifecycleResult)
obey reviews gate_name task schedule now d c = elim (d.outcome) [
  | GateOutcome.allow ↦ (ok none, c)
  | GateOutcome.defer ↦
      after
        (on_queue
          (defer task.task_id (delay_of d.retry_after)
            (some (or_default d.reason "execution gate deferred task")) now)
          c)
        λ t e. (ok (some (gate_result LifecycleOutcome.deferred task schedule d.reason t)), e)
  | GateOutcome.review ↦
      let reason = or_default d.reason "manual review required" in
      elim (d.review_case_id) [
        | none ↦ ask_reviewers reviews gate_name task schedule reason now c
        | some case_id ↦ send_case task schedule reason (some case_id) now c
      ]
  | GateOutcome.block ↦
      after
        (on_queue (block task.task_id (or_default d.reason "execution gate blocked task") now) c)
        λ t e. (ok (some (gate_result LifecycleOutcome.blocked task schedule d.reason t)), e)
]

-- `if (result := …) is not None: return result`, else the rest of the method
unfoldable pub unless_stopped :
    (Exec Core (Option LifecycleResult))
    → Option LifecycleResult
    → Exec Core (Option LifecycleResult)
unless_stopped rest (some result) c = (ok (some result), c)
unless_stopped rest none c = rest c

-- `_apply_gates`
unfoldable pub apply_gates :
    Option LifecycleReviewCoordinator
    → List ExecutionGate
    → Task
    → ScheduleDecision
    → ℕ
    → Exec Core (Option LifecycleResult)
apply_gates reviews [] task schedule now c = (ok none, c)
apply_gates reviews (gate ∷ gates) task schedule now c =
    after (gate.evaluate task schedule c) λ decision d.
      after (obey reviews gate.name task schedule now decision d)
        (unless_stopped (apply_gates reviews gates task schedule now))
