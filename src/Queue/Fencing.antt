-- ===== src/Queue/Fencing.antt =====
-- Claims fence executions (recon/core/queue.py): who does not hold the current claim of a task
-- cannot finish it, fail it or prolong its lease.
use night_scout.Prelude.{
  ℕ, String, ◌≡◌, refl, sym, subst, ◌⊎◌, inl, inr, true, Option, none, some, string_eq, option_eq,
  Bool-cases,
}
use night_scout.Prelude.Int.{ℤ, is_nonpositive}
use night_scout.Prelude.Text.{strip}
use night_scout.Prelude.Exec.{
  Error, value_error, key_error, bind_assoc, Result, ok, err, ◌>>=◌, check,
}
use night_scout.Queue.Task.{TaskStatus, running, succeeded, Task}
use night_scout.Queue.Store.{TaskStore, task_at, save}
use night_scout.Queue.Ops.{
  require, found, require_status, heartbeat, heartbeat_edit, fail, fail_edit,
}
use night_scout.Queue.Finish.{finish, finish_edit, succeed}
use night_scout.Queue.Invariant.{WellFormed, Evolves}
use night_scout.Queue.Edits.{heartbeat_edit-Evolves, finish_edit-Evolves}
use night_scout.Queue.Owners.{
  heartbeat_edit-live, finish_edit-live, heartbeat_edit-owner, finish_edit-owner,
  running_fail-Evolves, running_fail-owner,
}
use night_scout.Queue.Writes.{save_cases, overwritten}

-- The call raised and left the store alone, or the task `k` runs under the claim `token` and its
-- new value is written over it.
abbrev pub IsFenced : TaskStore → String → String → Result Task × TaskStore → Type 0
IsFenced s k token x =
    ((e : Error) × (x ≡ (err e, s)))
    ⊎ ((p u : Task) × (task_at s k ≡ some p)
        × (p.status ≡ running)
        × (p.claim_token ≡ some (strip token))
        × (x ≡ (ok u, overwritten s p u)))

-- what a fenced edit needs of the task that it edits
abbrev Owns : String → Task → Task → Type 0
Owns token p u = Evolves p u × ((p.status ≡ running) × (p.claim_token ≡ some (strip token)))

module _ (s : TaskStore) (w : WellFormed s) (k token : String) where
  save-IsFenced :
      (p u : Task) (st : TaskStatus) (expected : Option String)
      → task_at s k ≡ some p
      → Owns token p u
      → IsFenced s k token (save u st expected none s)
  save-IsFenced p u st expected at (e, (runs, owned)) =
      elim (save_cases s p u st expected none w (cc (at, w.ids k p at, e.id)) e) [
        | inl (x, same) ↦ inl (x, same)
        | inr (a, b, saved) ↦ inr (p, u, at, runs, owned, saved)
      ]

  edit-IsFenced :
      (p : Task) (m : Result Task) (st : TaskStatus) (expected : Option String)
      → task_at s k ≡ some p
      → ((u : Task) → m ≡ ok u → Owns token p u)
      → IsFenced s k token (check m (λ t. save t st expected none) s)
  edit-IsFenced p (err e) st expected at h = inl (e, refl)
  edit-IsFenced p (ok u) st expected at h = save-IsFenced p u st expected at (h u refl)

  chain-IsFenced :
      (o : Option Task)
      → task_at s k ≡ o
      → (edit : Task → Result Task) (st : TaskStatus) (expected : Option String)
      → ((p u : Task) → task_at s k ≡ some p → edit p ≡ ok u → Owns token p u)
      → IsFenced s k token (check (found o >>= edit) (λ t. save t st expected none) s)
  unfolding found
  chain-IsFenced none at edit st expected h = inl (key_error, refl)
  chain-IsFenced (some p) at edit st expected h =
      edit-IsFenced p (edit p) st expected at (λ u e. h p u at e)

  finish-IsFenced :
      (o : Option Task)
      → task_at s k ≡ o
      → (now : ℕ)
      → IsFenced s k token (
          check
            (found o)
            (λ task.
              check
                (finish_edit task succeeded none true (some token) now)
                (λ t. save t task.status task.claim_token none))
            s)
  unfolding found
  finish-IsFenced none at now = inl (key_error, refl)
  finish-IsFenced (some p) at now =
      edit-IsFenced p (finish_edit p succeeded none true (some token) now) p.status p.claim_token at
        (λ u h. (
          finish_edit-Evolves p u (w.valid k p at)
              (finish_edit-live p u succeeded none true (some token) now h) succeeded none true
              (some token) now (λ e. cc) h,
          finish_edit-owner p u succeeded none token now h,
        ))

  heartbeat-IsFenced :
      (lease_for : ℤ) (now : ℕ) → IsFenced s k token (heartbeat k token lease_for now s)
  unfolding heartbeat require
  heartbeat-IsFenced lease_for now = elim (Bool-cases (is_nonpositive lease_for)) [
    | inl bad ↦ inl (value_error, rw bad)
    | inr good ↦ rw good (
        chain-IsFenced (task_at s k) refl (λ t. heartbeat_edit t token lease_for now) running
          (some token)
          (λ p u at h. (
            heartbeat_edit-Evolves p u (w.valid k p at)
                (heartbeat_edit-live p u token lease_for now h) token lease_for now h,
            heartbeat_edit-owner p u token lease_for now h,
          )))
  ]

  fail-IsFenced :
      (error : String) (delay : Option ℤ) (now : ℕ)
      → IsFenced s k token (fail k token error delay now s)
  unfolding fail require
  fail-IsFenced error delay now =
      subst (λ m. IsFenced s k token (check m (λ t. save t running (some token) none) s))
        (sym (
          bind_assoc (require s k) (require_status running)
            (λ t. fail_edit t token error delay now)))
        (chain-IsFenced (task_at s k) refl _ running (some token) (λ p u at h. (
          running_fail-Evolves p u (w.valid k p at) token error delay now h,
          running_fail-owner p u token error delay now h,
        )))

  -- In a well-formed store a heartbeat, a success and a failure are fenced by the claim token: they take effect only on a
  -- task that runs under the token that the caller gives, the blanks around it aside; on any other
  -- they raise and change nothing.
  pub completion-IsFenced :
      (lease_for : ℤ) (error : String) (delay : Option ℤ) (now : ℕ)
      → IsFenced s k token (heartbeat k token lease_for now s)
        × IsFenced s k token (succeed k token now s)
        × IsFenced s k token (fail k token error delay now s)
  completion-IsFenced lease_for error delay now = (
    heartbeat-IsFenced lease_for now,
    unfold finish require in finish-IsFenced (task_at s k) refl now,
    fail-IsFenced error delay now,
  )
