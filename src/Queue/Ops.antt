-- ===== src/Queue/Ops.antt =====
-- `TaskQueue` (recon/core/queue.py) over the in-memory store. A method reads a task, edits its
-- copy and saves the copy by compare and swap. `now` stands for `utc_now()`, `token` for
-- `new_claim_token()`.
use night_scout.Prelude.{
  ℕ, ◌+◌, String, Bool, not, ◌||◌, Option, none, some, List, [], ◌∷◌, ◌==◌, ltb, if◌then◌else◌,
  string_eq, option_eq,
}
use night_scout.Prelude.Int.{ℤ, is_negative, is_nonpositive, shift}
use night_scout.Prelude.Text.{strip, is_blank, strip_or_none}
use night_scout.Prelude.Exec.{value_error, key_error, Result, ok, err, Exec, ◌>>=◌, after, check}
use night_scout.Queue.Task.{
  TaskStatus, running, deferred, failed, Task, status_beq, is_runnable_status,
}
use night_scout.Queue.Validate.{validate, validate_lifecycle}
use night_scout.Queue.Store.{TaskStore, task_at, put, save, claim}

-- `_require`
unfoldable pub found : Option Task → Result Task
found none = err key_error
found (some task) = ok task

unfoldable pub require : TaskStore → String → Result Task
unfolding found
require s task_id = found (task_at s task_id)

-- `_require_claim_token`
unfoldable pub require_claim_token : Task → String → Result Task
require_claim_token task claim_token =
    let normalized = strip claim_token in
    if is_blank normalized || not (task.claim_token == some normalized)
    then err value_error
    else ok task

unfoldable pub require_status : TaskStatus → Task → Result Task
require_status status task = if status_beq task.status status then ok task else err value_error

-- `_require_running`
unfoldable pub require_running : TaskStore → String → Result Task
unfolding require require_status
require_running s task_id = do task ← require s task_id; require_status running task

-- `error.strip() or default`
unfoldable pub text_or : String → String → String
text_or text default = let t = strip text in if is_blank t then default else t

unfoldable pub enqueue : Task → ℕ → Exec TaskStore Bool
enqueue task now s =
    if not (is_runnable_status task.status)
    then (err value_error, s)
    else check (validate_lifecycle (record task { updated_at = now }))
        (λ t s. let (inserted, s') = put t s in (ok inserted, s')) s

-- the tasks with the moment at which the clock is read for each
unfoldable pub enqueue_many : List (Task × ℕ) → Exec TaskStore ℕ
unfolding enqueue
enqueue_many [] s = (ok 0, s)
enqueue_many ((t, now) ∷ ts) s =
    after (enqueue t now s)
      λ inserted s'. after (enqueue_many ts s') λ n s''. (ok (if inserted then n + 1 else n), s'')

unfoldable pub claim_next : String → ℤ → ℕ → String → Exec TaskStore Task
claim_next task_id lease_for now token s =
    if is_nonpositive lease_for
    then (err value_error, s)
    else claim task_id now (shift now lease_for) token s

unfoldable pub heartbeat_edit : Task → String → ℤ → ℕ → Result Task
unfolding require_status require_claim_token
heartbeat_edit task claim_token lease_for now = do
  held ← require_status running task
  owned ← require_claim_token held claim_token
  leased ← validate_lifecycle (record owned { lease_expires_at = some (shift now lease_for) })
  validate_lifecycle (record leased { updated_at = now })

unfoldable pub heartbeat : String → String → ℤ → ℕ → Exec TaskStore Task
unfolding require heartbeat_edit
heartbeat task_id claim_token lease_for now s =
    if is_nonpositive lease_for
    then (err value_error, s)
    else check (do task ← require s task_id; heartbeat_edit task claim_token lease_for now)
        (λ task. save task running (some claim_token) none) s

-- `_updated_task` with the fields that every end of a run resets
unfoldable pub released : Task → Task
released t = record t { lease_expires_at = none; claim_token = none }

-- `now + retry_delay` with DEFERRED while attempts remain, FAILED otherwise
unfoldable pub fail_updates : Task → Option ℤ → ℕ → Result Task
fail_updates task none now = ok (record task { status = failed; finished_at = some now })
fail_updates task (some retry_delay) now =
    if ltb task.attempts task.max_attempts
    then (if is_negative retry_delay
        then err value_error
        else ok (record task {
          status = deferred;
          available_at = shift now retry_delay;
          started_at = none;
          finished_at = none;
        }))
    else ok (record task { status = failed; finished_at = some now })

unfoldable pub fail_edit : Task → String → String → Option ℤ → ℕ → Result Task
unfolding require_claim_token fail_updates released text_or
fail_edit task claim_token error retry_delay now = do
  owned ← require_claim_token task claim_token
  updated ← fail_updates owned retry_delay now
  validate (record (released updated) {
    last_error = some (text_or error "unknown error");
    updated_at = now;
  })

unfoldable pub fail : String → String → String → Option ℤ → ℕ → Exec TaskStore Task
unfolding require_running fail_edit
fail task_id claim_token error retry_delay now s =
    check (do task ← require_running s task_id; fail_edit task claim_token error retry_delay now)
      (λ task. save task running (some claim_token) none) s

-- `if reason: task.last_error = reason.strip() or None`
unfoldable pub reason_or : Option String → Option String → Option String
reason_or none last = last
reason_or (some reason) last = if is_blank reason then last else strip_or_none reason

unfoldable pub defer_edit : Task → ℤ → Option String → ℕ → Result Task
unfolding reason_or
defer_edit task delay reason now =
    if not (is_runnable_status task.status) then err value_error else (do
      a ← validate_lifecycle (record task { status = deferred })
      b ← validate_lifecycle (record a { available_at = shift now delay })
      c ← validate_lifecycle (record b { updated_at = now })
      validate_lifecycle (record c { last_error = reason_or reason c.last_error }))

unfoldable pub defer : String → ℤ → Option String → ℕ → Exec TaskStore Task
unfolding require defer_edit
defer task_id delay reason now s =
    if is_negative delay
    then (err value_error, s)
    else check (require s task_id)
        (λ task. check (defer_edit task delay reason now) (λ t. save t task.status none none)) s
