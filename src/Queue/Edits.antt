-- ===== src/Queue/Edits.antt =====
-- Every edit that a method of `TaskQueue` (recon/core/queue.py) makes of a valid task evolves it.
use night_scout.Prelude.{
  ℕ, String, ◌≡◌, refl, sym, ap, subst, ◌≢◌, inl, inr, Bool, true, false, Option, none, some, arith,
  ◌∙◌, Bool-cases, ltb, ==_iff, string_eq, option_eq, zero, suc,
}
use night_scout.Prelude.Int.{ℤ, pos, negsuc, shift, is_negative}
use night_scout.Prelude.Text.{strip}
use night_scout.Prelude.Exec.{Result, ok, ◌>>=◌, bind-eq-ok}
use night_scout.Queue.Task.{
  TaskStatus, running, deferred, failed, review, Task, is_some, is_terminal, is_runnable_status,
  dedupe_key, status_beq_iff,
}
use night_scout.Queue.Validate.{validate, validate_lifecycle}
use night_scout.Queue.Valid.{IsValid, IsValid-unclaimed, validate_lifecycle-eq}
use night_scout.Queue.Ops.{
  require_claim_token, require_status, heartbeat_edit, fail_edit, defer_edit, text_or, reason_or,
  fail_updates, released,
}
use night_scout.Queue.Finish.{
  finish_edit, review_edit, release_edit, recover_edit, require_owner, error_or, released_status,
}
use night_scout.Queue.Invariant.{Evolves}

-- the updates that `_updated_task` is called with: the claim and the lease go
abbrev unclaimed : Task → TaskStatus → Option ℕ → Option ℕ → ℕ → ℕ → Option String → Task
unclaimed p status started finished available now error = record p {
  status = status;
  started_at = started;
  finished_at = finished;
  available_at = available;
  updated_at = now;
  last_error = error;
  lease_expires_at = none;
  claim_token = none;
}

-- the fields that are assigned one by one: the claim stays
abbrev assigned : Task → TaskStatus → Option ℕ → ℕ → ℕ → Option String → Option ℕ → Task
assigned p status started available now error lease = record p {
  status = status;
  started_at = started;
  available_at = available;
  updated_at = now;
  last_error = error;
  lease_expires_at = lease;
}

lifecycle-bind :
    (x : Task) (f : Task → Result Task) {u : Task}
    → (validate_lifecycle x >>= f) ≡ ok u
    → f x ≡ ok u
lifecycle-bind x f h =
    let (a, e, g) = bind-eq-ok (validate_lifecycle x) f h in rw (validate_lifecycle-eq x a e) at g

pub require_claim_token-eq-ok :
    (t o : Task) (token : String)
    → require_claim_token t token ≡ ok o
    → (o ≡ t) × (t.claim_token ≡ some (strip token))
unfolding require_claim_token
require_claim_token-eq-ok t o token h = ground (arith, ==_iff t.claim_token (some (strip token)))

pub require_status-eq-ok :
    (status : TaskStatus) (t o : Task)
    → require_status status t ≡ ok o
    → (o ≡ t) × (t.status ≡ status)
unfolding require_status
require_status-eq-ok status t o h = ground (arith, status_beq_iff t.status status)

pub require_owner-eq-ok :
    (must_run : Bool) (token : Option String) (t o : Task)
    → require_owner must_run token t ≡ ok o
    → o ≡ t
unfolding require_owner require_claim_token
require_owner-eq-ok must_run token t o h = ground arith

released_status-ne-running : (delay : ℤ) → released_status delay ≢ running
unfolding released_status
released_status-ne-running (pos zero) e = cc
released_status-ne-running (pos (suc n)) e = cc
released_status-ne-running (negsuc n) e = cc

module _ (p u : Task) (v : IsValid p) (live : is_terminal p ≡ false) where
  unclaimed-Evolves :
      (status : TaskStatus) (started finished : Option ℕ) (available now : ℕ)
      (error : Option String)
      → status ≢ running
      → validate (unclaimed p status started finished available now error) ≡ ok u
      → Evolves p u
  unfolding dedupe_key
  unclaimed-Evolves status started finished available now error stops h =
      let x = unclaimed p status started finished available now error in
      let (same, valid) = IsValid-unclaimed x u v.normal refl h in
      record {
        id = cc;
        key = ap dedupe_key same;
        limit = ap (λ (t : Task). t.max_attempts) same;
        live = live;
        valid = subst IsValid (sym same) valid;
        leased = λ r. absurd (stops (ap (λ (t : Task). t.status) (sym same) ∙ r));
        attempt = inl (
          ap (λ (t : Task). t.attempts) same,
          λ r. absurd (stops (ap (λ (t : Task). t.status) (sym same) ∙ r)),
        );
      }

  assigned-Evolves :
      (status : TaskStatus) (started : Option ℕ) (available now : ℕ) (error : Option String)
      (lease : Option ℕ)
      → (status ≡ running → (p.status ≡ running) × (is_some lease ≡ true))
      → validate_lifecycle (assigned p status started available now error lease) ≡ ok u
      → Evolves p u
  unfolding dedupe_key
  assigned-Evolves status started available now error lease runs h =
      let x = assigned p status started available now error lease in
      let same = validate_lifecycle-eq x u h in
      record {
        id = cc;
        key = ap dedupe_key same;
        limit = ap (λ (t : Task). t.max_attempts) same;
        live = live;
        valid =
            subst IsValid (sym same)
              (record { normal = v.normal; token = v.token; lifecycle = rw same at h });
        leased = λ r. rw same (runs (ap (λ (t : Task). t.status) (sym same) ∙ r)).1;
        attempt = inl (
          ap (λ (t : Task). t.attempts) same,
          λ r. (
            (runs (ap (λ (t : Task). t.status) (sym same) ∙ r)).0,
            ap (λ (t : Task). t.claim_token) same,
          ),
        );
      }

  pub recover_edit-Evolves : (delay : ℤ) (now : ℕ) → recover_edit p delay now ≡ ok u → Evolves p u
  unfolding recover_edit
  recover_edit-Evolves delay now h = elim (Bool-cases (ltb p.attempts p.max_attempts)) [
    | inl more ↦
        unclaimed-Evolves deferred none none (shift now delay) now (some "worker lease expired")
          (λ e. cc) (rw more at h)
    | inr over ↦
        unclaimed-Evolves failed p.started_at (some now) p.available_at now
          (some "worker lease expired") (λ e. cc) (rw over at h)
  ]

  pub review_edit-Evolves :
      (reason : String) (now : ℕ) → review_edit p reason now ≡ ok u → Evolves p u
  unfolding review_edit
  review_edit-Evolves reason now h =
      unclaimed-Evolves review none none p.available_at now
        (some (text_or reason "manual review required")) (λ e. cc) (rw live at h)

  fail_delay-Evolves :
      (token error : String) (delay : ℤ) (now : ℕ)
      → (fail_updates p (some delay) now >>= λ updated. validate (record (released updated) {
        last_error = some (text_or error "unknown error");
        updated_at = now;
      }))
        ≡ ok u
      → Evolves p u
  unfolding fail_updates released
  fail_delay-Evolves token error delay now h = elim (Bool-cases (ltb p.attempts p.max_attempts)) [
    | inl more ↦ elim (Bool-cases (is_negative delay)) [
      | inl negative ↦ ground arith
      | inr forward ↦
          unclaimed-Evolves deferred none none (shift now delay) now
            (some (text_or error "unknown error")) (λ e. cc) (rw forward at (rw more at h))
    ]
    | inr over ↦
        unclaimed-Evolves failed p.started_at (some now) p.available_at now
          (some (text_or error "unknown error")) (λ e. cc) (rw over at h)
  ]

  pub fail_edit-Evolves :
      (token error : String) (delay : Option ℤ) (now : ℕ)
      → fail_edit p token error delay now ≡ ok u
      → Evolves p u
  unfolding fail_edit
  fail_edit-Evolves token error none now h =
      let (o, a, b) = bind-eq-ok (require_claim_token p token) _ h in
      unclaimed-Evolves failed p.started_at (some now) p.available_at now
        (some (text_or error "unknown error")) (λ e. cc)
        (rw (require_claim_token-eq-ok p o token a).0 at b)
  fail_edit-Evolves token error (some delay) now h =
      let (o, a, b) = bind-eq-ok (require_claim_token p token) _ h in
      fail_delay-Evolves token error delay now (rw (require_claim_token-eq-ok p o token a).0 at b)

  pub finish_edit-Evolves :
      (status : TaskStatus) (error : Option String) (must_run : Bool) (token : Option String)
      (now : ℕ)
      → status ≢ running
      → finish_edit p status error must_run token now ≡ ok u
      → Evolves p u
  unfolding finish_edit
  finish_edit-Evolves status error must_run token now stops h =
      let (o, a, b) = bind-eq-ok (require_owner must_run token p) _ h in
      let c = rw (require_owner-eq-ok must_run token p o a) at b in
      unclaimed-Evolves status p.started_at (some now) p.available_at now
        (error_or error p.last_error) stops (rw live at c)

  pub defer_edit-Evolves :
      (delay : ℤ) (reason : Option String) (now : ℕ)
      → defer_edit p delay reason now ≡ ok u
      → Evolves p u
  unfolding defer_edit
  defer_edit-Evolves delay reason now h = elim (Bool-cases (is_runnable_status p.status)) [
    | inl runnable ↦
        let a = lifecycle-bind _ _ (rw runnable at h) in
        let b = lifecycle-bind _ _ a in
        let c = lifecycle-bind _ _ b in
        assigned-Evolves deferred p.started_at (shift now delay) now (reason_or reason p.last_error)
          p.lease_expires_at (λ e. cc) c
    | inr other ↦ ground arith
  ]

  pub release_edit-Evolves : (delay : ℤ) (now : ℕ) → release_edit p delay now ≡ ok u → Evolves p u
  unfolding release_edit
  release_edit-Evolves delay now h =
      let (o, e, g) = bind-eq-ok (require_status review p) _ h in
      let a = rw (require_status-eq-ok review p o e).0 at g in
      let b = lifecycle-bind _ _ a in
      let c = lifecycle-bind _ _ b in
      let d = lifecycle-bind _ _ c in
      let f = lifecycle-bind _ _ d in
      assigned-Evolves (released_status delay) none (shift now delay) now none p.lease_expires_at
        (λ r. absurd (released_status-ne-running delay r)) f

  pub heartbeat_edit-Evolves :
      (token : String) (lease_for : ℤ) (now : ℕ)
      → heartbeat_edit p token lease_for now ≡ ok u
      → Evolves p u
  unfolding heartbeat_edit
  heartbeat_edit-Evolves token lease_for now h =
      let (o, e, g) = bind-eq-ok (require_status running p) _ h in
      let (same, runs) = require_status-eq-ok running p o e in
      let (o', e', g') = bind-eq-ok (require_claim_token p token) _ (rw same at g) in
      let a = rw (require_claim_token-eq-ok p o' token e').0 at g' in
      let b = lifecycle-bind _ _ a in
      assigned-Evolves p.status p.started_at p.available_at now p.last_error
        (some (shift now lease_for)) (λ r. (r, refl)) b
