-- ===== src/Queue/Progress.antt =====
-- What becomes of one task through a history of the queue (recon/core/queue.py).
use night_scout.Prelude.{
  ◌≤◌, ◌<◌, String, ◌≡◌, refl, sym, subst, ◌∙◌, ◌⊎◌, inl, inr, true, some, arith, ◌==◌, ==_iff,
  string_eq, Bool-cases,
}
use night_scout.Prelude.Exec.{ok}
use night_scout.Queue.Task.{Task, running, is_some, is_terminal, dedupe_key}
use night_scout.Queue.Validate.{validate_lifecycle}
use night_scout.Queue.Valid.{IsValid}
use night_scout.Queue.Store.{TaskStore, empty_store, task_at}
use night_scout.Queue.Invariant.{WellFormed, Evolves}
use night_scout.Queue.History.{Step, Steps, write, insert, here, then_step, Steps-WellFormed}
use night_scout.Queue.Runs.{Reach, Reach-Steps, Reach-WellFormed, empty-WellFormed}

-- The task `u` is what `p` became: the same work, with a new attempt or under the old claim, and
-- nothing else once it was finished.
pub record IsLater (p u : Task) : Type 0 where
  pub key : dedupe_key u ≡ dedupe_key p
  pub limit : u.max_attempts ≡ p.max_attempts
  pub frozen : is_terminal p ≡ true → u ≡ p
  pub attempts :
      (p.attempts < u.attempts)
      ⊎ (p.attempts ≡ u.attempts)
        × (u.status ≡ running → (p.status ≡ running) × (u.claim_token ≡ p.claim_token))

IsLater-refl : (p : Task) → IsLater p p
IsLater-refl p = record {
  key = refl;
  limit = refl;
  frozen = λ h. refl;
  attempts = inr (refl, λ r. (r, refl));
}

IsLater-Evolves : {p u : Task} → Evolves p u → IsLater p u
IsLater-Evolves e = record {
  key = e.key;
  limit = e.limit;
  frozen = λ h. absurd (cc (h, e.live));
  attempts = elim e.attempt [
    | inl (same, runs) ↦ inr (sym same, runs)
    | inr (more, runnable, runs) ↦ inl (omega arith)
  ];
}

IsLater-trans : {p u v : Task} → IsLater p u → IsLater u v → IsLater p v
IsLater-trans {p} {u} {v} a b = record {
  key = b.key ∙ a.key;
  limit = b.limit ∙ a.limit;
  frozen = λ h.
      let e = a.frozen h in b.frozen (subst (λ (t : Task). is_terminal t ≡ true) (sym e) h) ∙ e;
  attempts = elim a.attempts [
    | inl less ↦ elim b.attempts [
      | inl more ↦ inl (omega arith)
      | inr (same, _) ↦ inl (omega arith)
    ]
    | inr (same, runs) ↦ elim b.attempts [
      | inl more ↦ inl (omega arith)
      | inr (same', runs') ↦
          inr (
            same ∙ same',
            λ r. let (r', e') = runs' r in let (r'', e'') = runs r' in (r'', e' ∙ e''),
          )
    ]
  ];
}

-- The task `k` of the first store is still there in the second one, and is a later state of it.
abbrev pub Follows : TaskStore → TaskStore → Type 0
Follows s t =
    (k : String) (p : Task)
    → task_at s k ≡ some p
    → (u : Task) × (task_at t k ≡ some u) × IsLater p u

Step-Follows : {s t : TaskStore} → WellFormed s → Step s t → Follows s t
Step-Follows w (write p u at e r) k q found = elim (Bool-cases (u.task_id == k)) [
  | inl same ↦
      let id : u.task_id ≡ k = (==_iff u.task_id k).0 same in
      let q_is_p : p ≡ q = cc in
      (u, ground (arith, r.tasks k), subst (λ x. IsLater x u) q_is_p (IsLater-Evolves e))
  | inr other ↦ (q, ground (arith, r.tasks k), IsLater-refl q)
]
Step-Follows w (insert u v runnable i) k q found =
    (q, ground (arith, i.tasks k, i.unused, ==_iff u.task_id k), IsLater-refl q)

pub Steps-Follows : {s t : TaskStore} → WellFormed s → Steps s t → Follows s t
Steps-Follows w here k p at = (p, at, IsLater-refl p)
Steps-Follows w (then_step a b) k p at =
    let (u, at_u, later) = Steps-Follows w a k p at in
    let (v, at_v, later') = Step-Follows (Steps-WellFormed a w) b k u at_u in
    (v, at_v, IsLater-trans later later')

-- From an empty store, after any admissible calls of a queue (the enqueued tasks valid and under new
-- identifiers, the claim tokens without blanks around them), the store is well formed.
pub Reach-empty-WellFormed : (s : TaskStore) → Reach empty_store s → WellFormed s
Reach-empty-WellFormed s r = Reach-WellFormed empty-WellFormed r

-- In a store that admissible calls reached from an empty one, and under any further admissible
-- calls, a task never disappears: it keeps its work and its limit of attempts, its attempts do not
-- fall, and a finished task stays exactly as it was.
pub Reach-Follows : (s t : TaskStore) → Reach empty_store s → Reach s t → Follows s t
Reach-Follows s t r m = let w = Reach-empty-WellFormed s r in Steps-Follows w (Reach-Steps w m)

-- In a store that admissible calls reached from an empty one, one task at most stands for one
-- deduplication key, finished tasks included.
pub one_task_per_key :
    (s : TaskStore) (k j : String) (t u : Task)
    → Reach empty_store s
    → task_at s k ≡ some t
    → task_at s j ≡ some u
    → dedupe_key t ≡ dedupe_key u
    → k ≡ j
one_task_per_key s k j t u r at at' same =
    let w = Reach-empty-WellFormed s r in cc (w.known k t at, w.known j u at', same)

lifecycle-facts :
    (t : Task)
    → validate_lifecycle t ≡ ok t
    → (t.attempts ≤ t.max_attempts) × (t.status ≡ running → is_some t.claim_token ≡ true)
unfolding validate_lifecycle
lifecycle-facts t h = (ground arith, λ runs. ground arith)

-- In a store that admissible calls reached from an empty one, no task has more attempts than
-- `max_attempts`, and one that runs has a claim token and a lease.
pub attempts_bounded :
    (s : TaskStore) (k : String) (t : Task)
    → Reach empty_store s
    → task_at s k ≡ some t
    → (t.attempts ≤ t.max_attempts)
      × (t.status ≡ running → (is_some t.claim_token ≡ true) × (is_some t.lease_expires_at ≡ true))
attempts_bounded s k t r at =
    let w = Reach-empty-WellFormed s r in
    let (bound, token) = lifecycle-facts t (IsValid.lifecycle (w.valid k t at)) in
    (bound, λ runs. (token runs, w.leased k t at runs))
