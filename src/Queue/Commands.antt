-- ===== src/Queue/Commands.antt =====
-- The calls of a `TaskQueue` (recon/core/queue.py) as data, with the clock readings and the new
-- claim tokens that they meet, and what each may do to the store.
use night_scout.Prelude.{
  ℕ, String, ◌≡◌, refl, sym, ap, subst, inl, inr, Bool, Option, none, some, Bool-cases,
}
use night_scout.Prelude.Int.{ℤ, shift, is_nonpositive, is_negative}
use night_scout.Prelude.Exec.{Result, ok, err, check, bind_assoc, Exec, ◌>>=◌}
use night_scout.Queue.Task.{TaskStatus, running, review, Task, is_terminal_status}
use night_scout.Queue.Store.{TaskStore, task_at, claim, claimed, save}
use night_scout.Queue.Ops.{
  require, found, claim_next, heartbeat, heartbeat_edit, fail, fail_edit, defer, defer_edit,
  require_status,
}
use night_scout.Queue.Finish.{
  finish, finish_edit, send_to_review, review_edit, release_review, release_edit,
}
use night_scout.Queue.Invariant.{WellFormed, Evolves}
use night_scout.Queue.Edits.{
  heartbeat_edit-Evolves, defer_edit-Evolves, finish_edit-Evolves, review_edit-Evolves,
  release_edit-Evolves,
}
use night_scout.Queue.Owners.{
  heartbeat_edit-live, defer_edit-live, finish_edit-live, review_edit-live, release_edit-live,
  running_fail-Evolves,
}
use night_scout.Queue.Writes.{
  save_cases, save_Evolves, claim_cases, claim-none, claimed-Evolves, claimed-Replaced, IsToken,
}
use night_scout.Queue.History.{Steps, write, here, then_step}

module _ (s : TaskStore) (w : WellFormed s) (k : String) where
  -- A saved edit of a task is one step at most.
  save-Steps :
      (p u : Task) (st : TaskStatus) (token : Option String) (lease : Option ℕ)
      → task_at s k ≡ some p
      → Evolves p u
      → Steps s (save u st token lease s).1
  save-Steps p u st token lease at e =
      let at' : task_at s u.task_id ≡ some p = cc (at, w.ids k p at, e.id) in
      elim (save_cases s p u st token lease w at' e) [
        | inl (x, same) ↦ rw same here
        | inr (a, b, saved) ↦ rw saved (then_step here (write p u at' e (save_Evolves s p u at' e)))
      ]

  edited-Steps :
      (p : Task) (m : Result Task) (st : TaskStatus) (token : Option String) (lease : Option ℕ)
      → task_at s k ≡ some p
      → ((u : Task) → m ≡ ok u → Evolves p u)
      → Steps s (check m (λ t. save t st token lease) s).1
  edited-Steps p (ok u) st token lease at e = save-Steps p u st token lease at (e u refl)
  edited-Steps p (err x) st token lease at e = here

  found_or_not :
      (o : Option Task)
      → task_at s k ≡ o
      → (f : Task → Exec TaskStore Task) → ((p : Task) → task_at s k ≡ some p → Steps s (f p s).1)
      → Steps s (check (found o) f s).1
  unfolding found
  found_or_not none at f h = here
  found_or_not (some p) at f h = h p at

  required-Steps :
      (f : Task → Exec TaskStore Task)
      → ((p : Task) → task_at s k ≡ some p → Steps s (f p s).1)
      → Steps s (check (require s k) f s).1
  unfolding require
  required-Steps f h = found_or_not (task_at s k) refl f h

  chain_found :
      (o : Option Task)
      → task_at s k ≡ o
      → (edit : Task → Result Task) (st : TaskStatus) (token : Option String)
      → ((p u : Task) → task_at s k ≡ some p → edit p ≡ ok u → Evolves p u)
      → Steps s (check (found o >>= edit) (λ t. save t st token none) s).1
  unfolding found
  chain_found none at edit st token e = here
  chain_found (some p) at edit st token e =
      edited-Steps p (edit p) st token none at (λ u h. e p u at h)

  chained-Steps :
      (edit : Task → Result Task) (st : TaskStatus) (token : Option String)
      → ((p u : Task) → task_at s k ≡ some p → edit p ≡ ok u → Evolves p u)
      → Steps s (check (require s k >>= edit) (λ t. save t st token none) s).1
  unfolding require
  chained-Steps edit st token e = chain_found (task_at s k) refl edit st token e

  pub heartbeat-Steps :
      (token : String) (lease_for : ℤ) (now : ℕ) → Steps s (heartbeat k token lease_for now s).1
  unfolding heartbeat
  heartbeat-Steps token lease_for now = elim (Bool-cases (is_nonpositive lease_for)) [
    | inl bad ↦ rw bad here
    | inr good ↦ rw good (
        chained-Steps (λ task. heartbeat_edit task token lease_for now) running (some token)
          (λ p u at h.
            heartbeat_edit-Evolves p u (w.valid k p at)
              (heartbeat_edit-live p u token lease_for now h) token lease_for now h))
  ]

  claimed_or_not :
      (o : Option Task)
      → task_at s k ≡ o
      → (lease now : ℕ) (token : String) → IsToken token
      → Steps s (claim k now lease token s).1
  claimed_or_not none at lease now token t = rw (claim-none s k now lease token at) here
  claimed_or_not (some p) at lease now token t = elim (claim_cases s k p now lease token at) [
    | inr (x, same) ↦ rw same here
    | inl (facts, done) ↦
        let e = claimed-Evolves p now lease token (w.valid k p at) t facts in
        rw done (
          then_step here (
            write p (claimed p now lease token) (cc (at, w.ids k p at)) e
              (claimed-Replaced s k p now lease token w at e.live)))
  ]

  pub fail-Steps :
      (token error : String) (delay : Option ℤ) (now : ℕ)
      → Steps s (fail k token error delay now s).1
  unfolding fail
  fail-Steps token error delay now =
      subst (λ m. Steps s (check m (λ t. save t running (some token) none) s).1)
        (sym (
          bind_assoc (require s k) (require_status running)
            (λ t. fail_edit t token error delay now)))
        (chained-Steps _ running (some token)
          (λ p u at h. running_fail-Evolves p u (w.valid k p at) token error delay now h))

  pub claim-Steps :
      (lease_for : ℤ) (now : ℕ) (token : String)
      → IsToken token
      → Steps s (claim_next k lease_for now token s).1
  unfolding claim_next
  claim-Steps lease_for now token t = elim (Bool-cases (is_nonpositive lease_for)) [
    | inl bad ↦ rw bad here
    | inr good ↦ rw good (claimed_or_not (task_at s k) refl (shift now lease_for) now token t)
  ]

  pub defer-Steps :
      (delay : ℤ) (reason : Option String) (now : ℕ) → Steps s (defer k delay reason now s).1
  unfolding defer
  defer-Steps delay reason now = elim (Bool-cases (is_negative delay)) [
    | inl bad ↦ rw bad here
    | inr good ↦ rw good (
        required-Steps _ (λ p at.
          edited-Steps p (defer_edit p delay reason now) p.status none none at (λ u h.
            defer_edit-Evolves p u (w.valid k p at) (defer_edit-live p u delay reason now h) delay
              reason now h)))
  ]

  pub finish-Steps :
      (status : TaskStatus) (error : Option String) (must_run : Bool) (token : Option String)
      (now : ℕ)
      → Steps s (finish k status error must_run token now s).1
  unfolding finish
  finish-Steps status error must_run token now = elim (Bool-cases (is_terminal_status status)) [
    | inr bad ↦ rw bad here
    | inl good ↦ rw good (
        required-Steps _ (λ p at.
          edited-Steps p (finish_edit p status error must_run token now) p.status p.claim_token none
            at
            (λ u h.
              finish_edit-Evolves p u (w.valid k p at)
                (finish_edit-live p u status error must_run token now h) status error must_run token
                now (λ e. cc (ap is_terminal_status e)) h)))
  ]

  pub review-Steps : (reason : String) (now : ℕ) → Steps s (send_to_review k reason now s).1
  unfolding send_to_review
  review-Steps reason now = required-Steps _ (λ p at.
      edited-Steps p (review_edit p reason now) p.status p.claim_token none at (λ u h.
        review_edit-Evolves p u (w.valid k p at) (review_edit-live p u reason now h) reason now h))

  pub release-Steps : (delay : ℤ) (now : ℕ) → Steps s (release_review k delay now s).1
  unfolding release_review
  release-Steps delay now = elim (Bool-cases (is_negative delay)) [
    | inl bad ↦ rw bad here
    | inr good ↦ rw good (
        required-Steps _ (λ p at.
          edited-Steps p (release_edit p delay now) review none none at (λ u h.
            release_edit-Evolves p u (w.valid k p at) (release_edit-live p u delay now h) delay now
              h)))
  ]
