-- ===== src/Queue/Runs.antt =====
-- Enqueueing and lease recovery, and whole runs of a `TaskQueue` (recon/core/queue.py): its calls as
-- data, with the clock readings and the new claim tokens that they meet.
use night_scout.Prelude.{
  ℕ, String, ◌≡◌, inl, inr, true, false, Option, none, some, arith, Bool-cases, string_eq,
}
use night_scout.Prelude.Dict.{IsDistinct-empty, get-empty}
use night_scout.Prelude.Int.{ℤ}
use night_scout.Queue.Task.{succeeded, blocked, cancelled, Task, is_runnable_status}
use night_scout.Queue.Validate.{validate_lifecycle}
use night_scout.Queue.Valid.{IsValid}
use night_scout.Queue.Store.{TaskStore, empty_store, task_at, put}
use night_scout.Queue.Ops.{enqueue, claim_next, heartbeat, fail, defer}
use night_scout.Queue.Finish.{
  succeed, block, cancel, send_to_review, release_review, recover_expired_leases,
}
use night_scout.Queue.RecoverySpec.{recover-Steps}
use night_scout.Queue.Invariant.{WellFormed}
use night_scout.Queue.Writes.{put_cases, IsToken}
use night_scout.Queue.History.{Steps, insert, here, then_step, Steps-trans, Steps-WellFormed}
use night_scout.Queue.Commands.{
  claim-Steps, heartbeat-Steps, fail-Steps, defer-Steps, finish-Steps, review-Steps, release-Steps,
}

touched-IsValid : (t : Task) (now : ℕ) → IsValid t → IsValid (record t { updated_at = now })
unfolding validate_lifecycle
touched-IsValid t now v = record { normal = v.normal; token = v.token; lifecycle = ground arith }

put-Steps :
    (s : TaskStore) (t : Task)
    → WellFormed s
    → IsValid t
    → is_runnable_status t.status ≡ true
    → task_at s t.task_id ≡ none
    → Steps s (put t s).1
put-Steps s t w v runnable unused = elim (put_cases s t w (ground arith) unused) [
  | inl (seen, same) ↦ rw same here
  | inr (done, i) ↦ rw done (then_step here (insert t v runnable i))
]

-- `enqueue` of a valid task with an identifier of its own is one insertion at most.
pub enqueue-Steps :
    (s : TaskStore) (t : Task) (now : ℕ)
    → WellFormed s
    → IsValid t
    → task_at s t.task_id ≡ none
    → Steps s (enqueue t now s).1
unfolding enqueue
enqueue-Steps s t now w v unused = elim (Bool-cases (is_runnable_status t.status)) [
  | inr bad ↦ rw bad here
  | inl runnable ↦
      let v' = touched-IsValid t now v in
      rw runnable
        (rw v'.lifecycle (put-Steps s (record t { updated_at = now }) w v' runnable unused))
]

pub data Command : Type 0 where
  enqueue_task : (task : Task) (now : ℕ) → Command
  claim_task : (task_id : String) (lease_for : ℤ) (now : ℕ) (token : String) → Command
  heartbeat_task : (task_id claim_token : String) (lease_for : ℤ) (now : ℕ) → Command
  succeed_task : (task_id claim_token : String) (now : ℕ) → Command
  fail_task : (task_id claim_token error : String) (retry_delay : Option ℤ) (now : ℕ) → Command
  defer_task : (task_id : String) (delay : ℤ) (reason : Option String) (now : ℕ) → Command
  block_task : (task_id reason : String) (now : ℕ) → Command
  review_task : (task_id reason : String) (now : ℕ) → Command
  release_task : (task_id : String) (delay : ℤ) (now : ℕ) → Command
  cancel_task : (task_id : String) (reason : Option String) (now : ℕ) → Command
  recover_leases : (retry_delay : ℤ) (now : ℕ) → Command

-- the store after a call, whether it returned or raised
unfoldable pub run : Command → TaskStore → TaskStore
run (enqueue_task task now) s = (enqueue task now s).1
run (claim_task k lease_for now token) s = (claim_next k lease_for now token s).1
run (heartbeat_task k token lease_for now) s = (heartbeat k token lease_for now s).1
run (succeed_task k token now) s = (succeed k token now s).1
run (fail_task k token error delay now) s = (fail k token error delay now s).1
run (defer_task k delay reason now) s = (defer k delay reason now s).1
run (block_task k reason now) s = (block k reason now s).1
run (review_task k reason now) s = (send_to_review k reason now s).1
run (release_task k delay now) s = (release_review k delay now s).1
run (cancel_task k reason now) s = (cancel k reason now s).1
run (recover_leases delay now) s = (recover_expired_leases delay now s).1

-- What the program gives the queue: tasks that Pydantic accepted, under new identifiers, and tokens
-- without blanks around them, as `uuid4` makes both.
abbrev pub IsAdmissible : TaskStore → Command → Type 0
IsAdmissible s (enqueue_task t now) = IsValid t × (task_at s t.task_id ≡ none)
IsAdmissible s (claim_task k lease_for now token) = IsToken token
IsAdmissible s _ = Unit

pub run-Steps : (s : TaskStore) (c : Command) → WellFormed s → IsAdmissible s c → Steps s (run c s)
unfolding run
run-Steps s (enqueue_task t now) w a = enqueue-Steps s t now w a.0 a.1
run-Steps s (claim_task k lease_for now token) w a = claim-Steps s w k lease_for now token a
run-Steps s (heartbeat_task k token lease_for now) w a = heartbeat-Steps s w k token lease_for now
run-Steps s (succeed_task k token now) w a = finish-Steps s w k succeeded none true (some token) now
run-Steps s (fail_task k token error delay now) w a = fail-Steps s w k token error delay now
run-Steps s (defer_task k delay reason now) w a = defer-Steps s w k delay reason now
run-Steps s (block_task k reason now) w a = finish-Steps s w k blocked (some reason) false none now
run-Steps s (review_task k reason now) w a = review-Steps s w k reason now
run-Steps s (release_task k delay now) w a = release-Steps s w k delay now
run-Steps s (cancel_task k reason now) w a = finish-Steps s w k cancelled reason false none now
run-Steps s (recover_leases delay now) w a = recover-Steps delay now s w

-- The stores that calls of the queue lead to.
pub data Reach (s : TaskStore) : TaskStore → Type 0 where
  start : Reach s s
  call : {t : TaskStore} → Reach s t → (c : Command) → IsAdmissible t c → Reach s (run c t)

pub empty-WellFormed : WellFormed empty_store
empty-WellFormed = record {
  distinct = IsDistinct-empty String Task;
  ids = λ k t h. absurd (none_at k t h);
  valid = λ k t h. absurd (none_at k t h);
  leased = λ k t h. absurd (none_at k t h);
  active = λ k t h. absurd (none_at k t h);
  held = λ d k h. absurd (ground (arith, get-empty {V = String} d));
  known = λ k t h. absurd (none_at k t h);
}
  where
    none_at : (k : String) (t : Task) → task_at empty_store k ≡ some t → ⊥
    none_at k t h = ground (arith, get-empty {V = Task} k)

pub Reach-Steps : {s t : TaskStore} → WellFormed s → Reach s t → Steps s t
Reach-Steps w start = here
Reach-Steps w (call {t} r c a) =
    let before = Reach-Steps w r in Steps-trans before (run-Steps t c (Steps-WellFormed before w) a)

pub Reach-WellFormed : {s t : TaskStore} → WellFormed s → Reach s t → WellFormed t
Reach-WellFormed w r = Steps-WellFormed (Reach-Steps w r) w
