-- ===== src/Queue/Store.antt =====
-- `InMemoryTaskStore` (recon/core/queue.py). Each method runs under the store's lock, so a method
-- is one step. The clock and the new claim token are arguments.
use night_scout.Prelude.{
  ℕ, ◌+◌, String, Bool, true, false, not, ◌&&◌, Option, none, some, List, [], ◌∷◌, ◌==◌, ltb, leb,
  if◌then◌else◌, keep, min, nat_eq, string_eq, option_eq,
}
use night_scout.Prelude.Dict
use night_scout.Prelude.Dict.{Dict}
use night_scout.Prelude.Exec.{value_error, key_error, Result, ok, err, Exec}
use night_scout.Queue.Task.{
  TaskStatus, running, Task, is_some, is_terminal, status_beq, is_runnable_status, dedupe_key,
}

pub record TaskStore : Type 0 where
  pub tasks : Dict String Task
  pub active_keys : Dict String String
  pub known_keys : Dict String String

abbrev pub empty_store : TaskStore
empty_store = record { tasks = Dict.empty; active_keys = Dict.empty; known_keys = Dict.empty }

-- `store.get(task_id)`
abbrev pub task_at : TaskStore → String → Option Task
task_at s task_id = Dict.get s.tasks task_id

-- the last part of `put`: the task is stored and its key becomes known
unfoldable pub insert_task : Task → TaskStore → TaskStore
insert_task task s = record {
  tasks = Dict.put s.tasks task.task_id task;
  active_keys =
      if is_terminal task
      then s.active_keys
      else Dict.put s.active_keys (dedupe_key task) task.task_id;
  known_keys = Dict.put s.known_keys (dedupe_key task) task.task_id;
}

-- whether the task that holds the active key still counts
is_live : Option Task → Bool
is_live none = false
is_live (some existing) = not (is_terminal existing)

put_active : Option String → Task → TaskStore → Bool × TaskStore
unfolding is_live
put_active none task s = (true, insert_task task s)
put_active (some existing_id) task s = if is_live (task_at s existing_id) then (false, s) else (
  true,
  insert_task task (record s { active_keys = Dict.remove s.active_keys (dedupe_key task) }),
)

unfoldable pub put : Task → TaskStore → Bool × TaskStore
unfolding put_active insert_task
put task s =
    if Dict.contains s.known_keys (dedupe_key task)
    then (false, s)
    else put_active (Dict.get s.active_keys (dedupe_key task)) task s

-- `expected_lease_expires_at is not None and previous.lease_expires_at != expected_lease_expires_at`
unfoldable pub lease_changed : Option ℕ → Option ℕ → Bool
lease_changed none lease = false
lease_changed (some expected) lease = not (lease == some expected)

-- the part of `save` behind its checks: a stored active task wants its key for itself
unfoldable pub write_task : Task → Task → TaskStore → Result Task × TaskStore
write_task previous task s =
    let freed =
      (if Dict.get s.active_keys (dedupe_key previous) == some task.task_id
        then Dict.remove s.active_keys (dedupe_key previous)
        else s.active_keys) in
    let tasks = Dict.put s.tasks task.task_id task in
    let active_id = Dict.get freed (dedupe_key task) in
    if is_terminal task
    then (ok task, record s { tasks = tasks; active_keys = freed })
    else if is_some active_id && not (active_id == some task.task_id)
    then (err value_error, record s { tasks = tasks; active_keys = freed })
    else (
      ok task,
      record s { tasks = tasks; active_keys = Dict.put freed (dedupe_key task) task.task_id },
    )

save_over :
    Option Task → Task → TaskStatus → Option String → Option ℕ → TaskStore → Result Task × TaskStore
unfolding write_task
save_over none task expected_status expected_token expected_lease s = (err key_error, s)
save_over (some previous) task expected_status expected_token expected_lease s =
    if not (status_beq previous.status expected_status)
    then (err value_error, s)
    else if not (previous.claim_token == expected_token)
    then (err value_error, s)
    else if lease_changed expected_lease previous.lease_expires_at
    then (err value_error, s)
    else write_task previous task s

-- compare and swap
unfoldable pub save : Task → TaskStatus → Option String → Option ℕ → Exec TaskStore Task
unfolding save_over
save task expected_status expected_token expected_lease s =
    save_over (task_at s task.task_id) task expected_status expected_token expected_lease s

-- `task.attempts < task.max_attempts` and the status and time tests of `claim` and `ready`
unfoldable pub is_ready : ℕ → Task → Bool
is_ready now t =
    is_runnable_status t.status && leb t.available_at now && ltb t.attempts t.max_attempts

abbrev pub claimed : Task → ℕ → ℕ → String → Task
claimed current now lease_expires_at token = record current {
  attempts = current.attempts + 1;
  started_at = some now;
  finished_at = none;
  status = running;
  lease_expires_at = some lease_expires_at;
  claim_token = some token;
  updated_at = now;
  last_error = none;
}

claim_task : Option Task → String → ℕ → ℕ → String → TaskStore → Result Task × TaskStore
claim_task none task_id now lease token s = (err key_error, s)
claim_task (some current) task_id now lease token s =
    if not (is_runnable_status current.status)
    then (err value_error, s)
    else if ltb now current.available_at
    then (err value_error, s)
    else if leb current.max_attempts current.attempts
    then (err value_error, s)
    else (
      ok (claimed current now lease token),
      record s { tasks = Dict.put s.tasks task_id (claimed current now lease token) },
    )

unfoldable pub claim : String → ℕ → ℕ → String → Exec TaskStore Task
unfolding claim_task
claim task_id now lease_expires_at token s =
    claim_task (task_at s task_id) task_id now lease_expires_at token s

active_task : String → String → TaskStore → Option Task × TaskStore
active_task key task_id s = elim (task_at s task_id) [
  | none ↦ (none, record s { active_keys = Dict.remove s.active_keys key })
  | some task ↦
      if is_terminal task
      then (none, record s { active_keys = Dict.remove s.active_keys key })
      else (some task, s)
]

unfoldable pub active_by_dedupe_key : String → TaskStore → Option Task × TaskStore
unfolding active_task
active_by_dedupe_key key s = elim (Dict.get s.active_keys key) [
  | none ↦ (none, s)
  | some task_id ↦ active_task key task_id s
]

-- `store.all()`
abbrev pub all : TaskStore → List Task
all s = Dict.values s.tasks

-- the tests of `next_ready_at`
unfoldable pub may_run : Task → Bool
may_run t = is_runnable_status t.status && ltb t.attempts t.max_attempts

-- `min(values, default=None)`
earliest : List Task → Option ℕ
earliest [] = none
earliest (t ∷ ts) =
    let rest = earliest ts in
    elim rest [ none ↦ some t.available_at | some at ↦ some (min t.available_at at) ]

unfoldable pub next_ready_at : TaskStore → Option ℕ
unfolding may_run earliest
next_ready_at s = earliest (keep may_run (all s))
