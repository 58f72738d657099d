-- ===== src/Queue/Finish.antt =====
-- `TaskQueue` (recon/core/queue.py), the rest: completion, review, cancellation and the recovery
-- of expired leases.
use night_scout.Prelude.{
  ℕ, String, Bool, true, false, not, ◌&&◌, Option, none, some, List, [], ◌∷◌, ltb, leb,
  if◌then◌else◌,
}
use night_scout.Prelude.Int.{ℤ, pos, is_negative, shift}
use night_scout.Prelude.Text.{strip_or_none}
use night_scout.Prelude.Exec.{
  value_error, assertion_error, Result, ok, err, Exec, ◌>>=◌, after, check,
}
use night_scout.Queue.Task.{
  TaskStatus, pending, running, deferred, succeeded, failed, cancelled, blocked, review, Task,
  is_terminal, status_beq, is_terminal_status,
}
use night_scout.Queue.Validate.{validate, validate_lifecycle}
use night_scout.Queue.Store.{TaskStore, all, save}
use night_scout.Queue.Ops.{require, require_status, require_claim_token, text_or}

-- `if require_running: …` with the missing token of a call that needs one
unfoldable pub require_owner : Bool → Option String → Task → Result Task
unfolding require_status require_claim_token
require_owner false claim_token task = ok task
require_owner true none task = do held ← require_status running task; err value_error
require_owner true (some token) task = do
  held ← require_status running task
  require_claim_token held token

-- `if error is not None: updates["last_error"] = error.strip() or None`
unfoldable pub error_or : Option String → Option String → Option String
error_or none last = last
error_or (some error) last = strip_or_none error

unfoldable pub finish_edit :
    Task → TaskStatus → Option String → Bool → Option String → ℕ → Result Task
unfolding require_owner error_or
finish_edit task status error require_running claim_token now = do
  owned ← require_owner require_running claim_token task
  if is_terminal owned
      then err value_error
      else validate (record owned {
        lease_expires_at = none;
        claim_token = none;
        status = status;
        updated_at = now;
        finished_at = some now;
        last_error = error_or error owned.last_error;
      })

-- `_finish`
unfoldable pub finish :
    String → TaskStatus → Option String → Bool → Option String → ℕ → Exec TaskStore Task
unfolding require finish_edit
finish task_id status error require_running claim_token now s =
    if not (is_terminal_status status)
    then (err value_error, s)
    else check (require s task_id)
        (λ task.
          check (finish_edit task status error require_running claim_token now)
            (λ t. save t task.status task.claim_token none))
        s

abbrev pub succeed : String → String → ℕ → Exec TaskStore Task
succeed task_id claim_token now = finish task_id succeeded none true (some claim_token) now

abbrev pub block : String → String → ℕ → Exec TaskStore Task
block task_id reason now = finish task_id blocked (some reason) false none now

abbrev pub cancel : String → Option String → ℕ → Exec TaskStore Task
cancel task_id reason now = finish task_id cancelled reason false none now

unfoldable pub review_edit : Task → String → ℕ → Result Task
unfolding text_or
review_edit task reason now =
    if is_terminal task
    then err value_error
    else validate (record task {
      lease_expires_at = none;
      claim_token = none;
      status = review;
      started_at = none;
      finished_at = none;
      updated_at = now;
      last_error = some (text_or reason "manual review required");
    })

unfoldable pub send_to_review : String → String → ℕ → Exec TaskStore Task
unfolding require review_edit
send_to_review task_id reason now s =
    check (require s task_id)
      (λ task. check (review_edit task reason now) (λ t. save t task.status task.claim_token none))
      s

-- `TaskStatus.PENDING if delay == timedelta(0) else TaskStatus.DEFERRED`
unfoldable pub released_status : ℤ → TaskStatus
released_status (pos (ℕ.zero)) = pending
released_status _ = deferred

unfoldable pub release_edit : Task → ℤ → ℕ → Result Task
unfolding require_status released_status
release_edit task delay now = do
  held ← require_status review task
  a ← validate_lifecycle (record held { available_at = shift now delay })
  b ← validate_lifecycle (record a { updated_at = now })
  c ← validate_lifecycle (record b { last_error = none })
  d ← validate_lifecycle (record c { status = released_status delay })
  validate_lifecycle (record d { started_at = none })

unfoldable pub release_review : String → ℤ → ℕ → Exec TaskStore Task
unfolding require release_edit
release_review task_id delay now s =
    if is_negative delay
    then (err value_error, s)
    else check (require s task_id)
        (λ task. check (release_edit task delay now) (λ t. save t review none none)) s

-- the lease that is over at `now`, if the task is RUNNING and holds one
unfoldable pub expired_lease : Task → ℕ → Option ℕ
expired_lease t now = elim t.lease_expires_at [
  | none ↦ none
  | some lease ↦ if status_beq t.status running && leb lease now then some lease else none
]

unfoldable pub recover_edit : Task → ℤ → ℕ → Result Task
recover_edit t retry_delay now =
    if ltb t.attempts t.max_attempts
    then validate (record t {
      status = deferred;
      started_at = none;
      available_at = shift now retry_delay;
      finished_at = none;
      lease_expires_at = none;
      claim_token = none;
      updated_at = now;
      last_error = some "worker lease expired";
    })
    else validate (record t {
      status = failed;
      finished_at = some now;
      lease_expires_at = none;
      claim_token = none;
      updated_at = now;
      last_error = some "worker lease expired";
    })

-- `except ValueError: continue`, and any other exception goes on
unfoldable pub caught : Result Task → Result (Option Task)
caught (ok t) = ok (some t)
caught (err value_error) = ok none
caught (err e) = err e

unfoldable pub recover_one_lease :
    Task → Option ℕ → Option String → ℤ → ℕ → TaskStore → Result (Option Task) × TaskStore
recover_one_lease t none token retry_delay now s = (ok none, s)
recover_one_lease t (some lease) none retry_delay now s = (err assertion_error, s)
recover_one_lease t (some lease) (some token) retry_delay now s =
    check (recover_edit t retry_delay now)
      (λ u s. let (r, s') = save u running (some token) (some lease) s in (caught r, s')) s

-- one round of the loop; `none` where it goes on with the next task
unfoldable pub recover_one : Task → ℤ → ℕ → Exec TaskStore (Option Task)
recover_one t retry_delay now s =
    recover_one_lease t (expired_lease t now) t.claim_token retry_delay now s

unfoldable pub with_recovered : Option Task → List Task → List Task
with_recovered none rest = rest
with_recovered (some t) rest = t ∷ rest

unfoldable pub recover_all : List Task → ℤ → ℕ → Exec TaskStore (List Task)
unfolding recover_one with_recovered
recover_all [] retry_delay now s = (ok [], s)
recover_all (t ∷ ts) retry_delay now s =
    after (recover_one t retry_delay now s) λ r s'.
      after (recover_all ts retry_delay now s') λ rest s''. (ok (with_recovered r rest), s'')

unfoldable pub recover_expired_leases : ℤ → ℕ → Exec TaskStore (List Task)
unfolding recover_all
recover_expired_leases retry_delay now s =
    if is_negative retry_delay then (err value_error, s) else recover_all (all s) retry_delay now s
