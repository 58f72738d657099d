-- ===== src/Queue/Owners.antt =====
-- What an edit of `TaskQueue` (recon/core/queue.py) says of the task that it succeeds on.
use night_scout.Prelude.{
  ℕ, String, ◌≡◌, inl, inr, Bool, true, false, Option, some, arith, Bool-cases, string_eq,
  option_eq,
}
use night_scout.Prelude.Int.{ℤ}
use night_scout.Prelude.Text.{strip}
use night_scout.Prelude.Exec.{ok, ◌>>=◌, bind-eq-ok}
use night_scout.Queue.Task.{TaskStatus, running, review, Task, is_terminal, is_runnable_status}
use night_scout.Queue.Valid.{IsValid}
use night_scout.Queue.Ops.{
  require_claim_token, require_status, heartbeat_edit, fail_edit, defer_edit,
}
use night_scout.Queue.Finish.{finish_edit, review_edit, release_edit, require_owner}
use night_scout.Queue.Edits.{
  fail_edit-Evolves, require_claim_token-eq-ok, require_status-eq-ok, require_owner-eq-ok,
}
use night_scout.Queue.Invariant.{Evolves}

-- An edit of a finished task raises.
module _ (p u : Task) where
  pub heartbeat_edit-live :
      (token : String) (lease_for : ℤ) (now : ℕ)
      → heartbeat_edit p token lease_for now ≡ ok u
      → is_terminal p ≡ false
  unfolding heartbeat_edit
  heartbeat_edit-live token lease_for now h =
      let (o, e, g) = bind-eq-ok (require_status running p) _ h in
      rw (require_status-eq-ok running p o e).1

  pub defer_edit-live :
      (delay : ℤ) (reason : Option String) (now : ℕ)
      → defer_edit p delay reason now ≡ ok u
      → is_terminal p ≡ false
  unfolding defer_edit
  defer_edit-live delay reason now h = elim (Bool-cases (is_runnable_status p.status)) [
    | inl runnable ↦ ground arith
    | inr other ↦ ground arith
  ]

  pub finish_edit-live :
      (status : TaskStatus) (error : Option String) (must_run : Bool) (token : Option String)
      (now : ℕ)
      → finish_edit p status error must_run token now ≡ ok u
      → is_terminal p ≡ false
  unfolding finish_edit
  finish_edit-live status error must_run token now h =
      let (o, a, b) = bind-eq-ok (require_owner must_run token p) _ h in
      let c = rw (require_owner-eq-ok must_run token p o a) at b in
      elim (Bool-cases (is_terminal p)) [ inl over ↦ absurd (ground arith) | inr live ↦ live ]

  pub review_edit-live :
      (reason : String) (now : ℕ) → review_edit p reason now ≡ ok u → is_terminal p ≡ false
  unfolding review_edit
  review_edit-live reason now h = ground arith

  pub release_edit-live :
      (delay : ℤ) (now : ℕ) → release_edit p delay now ≡ ok u → is_terminal p ≡ false
  unfolding release_edit
  release_edit-live delay now h =
      let (o, e, g) = bind-eq-ok (require_status review p) _ h in
      rw (require_status-eq-ok review p o e).1

  pub heartbeat_edit-owner :
      (token : String) (lease_for : ℤ) (now : ℕ)
      → heartbeat_edit p token lease_for now ≡ ok u
      → (p.status ≡ running) × (p.claim_token ≡ some (strip token))
  unfolding heartbeat_edit
  heartbeat_edit-owner token lease_for now h =
      let (o, e, g) = bind-eq-ok (require_status running p) _ h in
      let (same, runs) = require_status-eq-ok running p o e in
      let (o', e', g') = bind-eq-ok (require_claim_token p token) _ (rw same at g) in
      (runs, (require_claim_token-eq-ok p o' token e').1)

  pub finish_edit-owner :
      (status : TaskStatus) (error : Option String) (token : String) (now : ℕ)
      → finish_edit p status error true (some token) now ≡ ok u
      → (p.status ≡ running) × (p.claim_token ≡ some (strip token))
  unfolding finish_edit require_owner
  finish_edit-owner status error token now h =
      let (o, a, b) = bind-eq-ok (require_owner true (some token) p) _ h in
      let (o', a', b') = bind-eq-ok (require_status running p) _ a in
      let (same, runs) = require_status-eq-ok running p o' a' in
      (runs, (require_claim_token-eq-ok p o token (rw same at b')).1)

  pub running_fail-owner :
      (token error : String) (delay : Option ℤ) (now : ℕ)
      → (require_status running p >>= λ t. fail_edit t token error delay now) ≡ ok u
      → (p.status ≡ running) × (p.claim_token ≡ some (strip token))
  unfolding fail_edit
  running_fail-owner token error delay now h =
      let (o, e, g) = bind-eq-ok (require_status running p) _ h in
      let (same, runs) = require_status-eq-ok running p o e in
      let (o', e', g') = bind-eq-ok (require_claim_token p token) _ (rw same at g) in
      (runs, (require_claim_token-eq-ok p o' token e').1)

  pub running_fail-Evolves :
      IsValid p
      → (token error : String) (delay : Option ℤ) (now : ℕ)
      → (require_status running p >>= λ t. fail_edit t token error delay now) ≡ ok u
      → Evolves p u
  running_fail-Evolves v token error delay now h =
      let (o, e, g) = bind-eq-ok (require_status running p) _ h in
      let (same, runs) = require_status-eq-ok running p o e in
      fail_edit-Evolves p u v (rw runs) token error delay now (rw same at g)
