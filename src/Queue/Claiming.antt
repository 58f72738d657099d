-- ===== src/Queue/Claiming.antt =====
-- `TaskQueue.claim` on a stored task (recon/core/queue.py), and the claims that come after it.
use night_scout.Prelude.{
  ℕ, ◌+◌, ◌≤◌, ◌<◌, String, ◌≡◌, refl, ◌⊎◌, ◌↔◌, inl, inr, true, false, none, some, arith, ◌==◌,
  ==_iff, string_eq, if◌then◌else◌, Bool-cases,
}
use night_scout.Prelude.Int.{ℤ, is_nonpositive, shift}
use night_scout.Prelude.Dict
use night_scout.Prelude.Dict.{get-put}
use night_scout.Prelude.Exec.{value_error, ok, err}
use night_scout.Queue.Task.{Task, TaskStatus, pending, deferred, running, is_runnable_status}
use night_scout.Queue.Store.{TaskStore, task_at, is_ready, claimed}
use night_scout.Queue.Ops.{claim_next}
use night_scout.Queue.Writes.{ClaimFacts, claim_cases}

-- a task that may be claimed: PENDING or DEFERRED, available, and with attempts left
abbrev pub IsClaimable : Task → ℕ → Type 0
IsClaimable p now =
    ((p.status ≡ pending) ⊎ (p.status ≡ deferred))
    × (p.available_at ≤ now)
    × (p.attempts < p.max_attempts)

-- `u` is the task `p` under a claim
pub record IsClaimOf (p : Task) (now lease : ℕ) (token : String) (u : Task) : Type 0 where
  pub counted : u.attempts ≡ p.attempts + 1
  pub runs : u.status ≡ running
  pub owned : u.claim_token ≡ some token
  pub leased : u.lease_expires_at ≡ some lease
  pub started : u.started_at ≡ some now
  pub touched : u.updated_at ≡ now
  pub unfinished : u.finished_at ≡ none
  pub cleared : u.last_error ≡ none
  pub same_id : u.task_id ≡ p.task_id
  pub same_worker : u.worker ≡ p.worker
  pub same_action : u.action ≡ p.action
  pub same_event : u.input_event_id ≡ p.input_event_id
  pub same_identity : u.input_identity_key ≡ p.input_identity_key
  pub same_branch : u.branch_id ≡ p.branch_id
  pub same_rule : u.route_rule_id ≡ p.route_rule_id
  pub same_reason : u.routing_reason ≡ p.routing_reason
  pub same_priority : u.priority ≡ p.priority
  pub same_limit : u.max_attempts ≡ p.max_attempts
  pub same_creation : u.created_at ≡ p.created_at
  pub same_start : u.available_at ≡ p.available_at
  pub same_tier : u.search_tier ≡ p.search_tier
  pub same_hint : u.candidate_limit_hint ≡ p.candidate_limit_hint

claimed-IsClaimOf :
    (p : Task) (now lease : ℕ) (token : String)
    → IsClaimOf p now lease token (claimed p now lease token)
claimed-IsClaimOf p now lease token = record {
  counted = refl;
  runs = refl;
  owned = refl;
  leased = refl;
  started = refl;
  touched = refl;
  unfinished = refl;
  cleared = refl;
  same_id = refl;
  same_worker = refl;
  same_action = refl;
  same_event = refl;
  same_identity = refl;
  same_branch = refl;
  same_rule = refl;
  same_reason = refl;
  same_priority = refl;
  same_limit = refl;
  same_creation = refl;
  same_start = refl;
  same_tier = refl;
  same_hint = refl;
}

runnable_iff :
    (st : TaskStatus) → (is_runnable_status st ≡ true) ↔ ((st ≡ pending) ⊎ (st ≡ deferred))
runnable_iff st = ground arith

ready-facts : (p : Task) (now : ℕ) → ClaimFacts p now → is_ready now p ≡ true
unfolding is_ready
ready-facts p now f = ground arith

unready : (p : Task) (now : ℕ) → ¬ ClaimFacts p now → is_ready now p ≡ false
unfolding is_ready
unready p now f = elim (Bool-cases (is_ready now p)) [
  | inr waits ↦ waits
  | inl ready ↦ absurd (f (ground arith, ground arith, ground arith))
]

-- `ready` offers the tasks that may be claimed.
pub is_ready_iff : (p : Task) (now : ℕ) → (is_ready now p ≡ true) ↔ IsClaimable p now
unfolding is_ready
is_ready_iff p now = (
  λ is. ((runnable_iff p.status).0 (ground arith), ground arith, ground arith),
  λ h. let runnable = (runnable_iff p.status).1 h.0 in ground (arith, runnable, h.1, h.2),
)

-- A task that runs cannot be claimed.
claim_next-running :
    (s : TaskStore) (k : String) (u : Task) (lease_for : ℤ) (now : ℕ) (token : String)
    → task_at s k ≡ some u
    → u.status ≡ running
    → claim_next k lease_for now token s ≡ (err value_error, s)
unfolding claim_next
claim_next-running s k u lease_for now token at runs =
    elim (Bool-cases (is_nonpositive lease_for)) [
      | inl bad ↦ rw bad refl
      | inr good ↦ rw good (elim (claim_cases s k u now (shift now lease_for) token at) [
        | inr (_, raises) ↦ raises
        | inl (facts, _) ↦ absurd (ground (arith, runs))
      ])
    ]

-- `claim` of a stored task does one of two things. If `lease_for` is positive and the task is PENDING or
-- DEFERRED, available at `now` and has attempts left, it returns the task under the claim: one attempt
-- more, RUNNING since `now`, with the new token and a lease until `now + lease_for`, without an error of
-- an earlier run, and otherwise as it was. The store then has this task in the place of the old one and
-- nothing else changed, and `ready` would have offered the task. A second claim, with any token and at
-- any time, raises ValueError and changes nothing. In every other case it raises ValueError and changes
-- nothing, and unless `lease_for` is not positive, `ready` would not have offered the task.
pub claim_next_lem :
    (s : TaskStore) (k : String) (p : Task) (lease_for : ℤ) (now : ℕ) (token : String)
    → task_at s k ≡ some p
    → ((u : Task) × (s' : TaskStore) × (is_nonpositive lease_for ≡ false)
        × IsClaimable p now
        × (is_ready now p ≡ true)
        × (claim_next k lease_for now token s ≡ (ok u, s'))
        × IsClaimOf p now (shift now lease_for) token u
        × ((j : String) → task_at s' j ≡ (if k == j then some u else task_at s j))
        × (s'.active_keys ≡ s.active_keys)
        × (s'.known_keys ≡ s.known_keys)
        × ((again : ℤ) (later : ℕ) (other : String)
            → claim_next k again later other s' ≡ (err value_error, s')))
      ⊎ (((is_nonpositive lease_for ≡ true) ⊎ (¬ IsClaimable p now) × (is_ready now p ≡ false))
          × (claim_next k lease_for now token s ≡ (err value_error, s)))
unfolding claim_next
claim_next_lem s k p lease_for now token at = elim (Bool-cases (is_nonpositive lease_for)) [
  | inl bad ↦ inr (inl bad, rw bad refl)
  | inr good ↦ elim (claim_cases s k p now (shift now lease_for) token at) [
    | inr (stays, raises) ↦
        let unclaimable : ¬ IsClaimable p now =
          λ h. stays ((runnable_iff p.status).1 h.0, h.1, h.2) in
        inr (inr (unclaimable, unready p now stays), rw good raises)
    | inl (facts, done) ↦
        let u = claimed p now (shift now lease_for) token in
        let s' = record s { tasks = Dict.put s.tasks k u } in
        let there : task_at s' k ≡ some u = ground (arith, get-put s.tasks k k u, ==_iff k k) in
        inl (
          u,
          s',
          good,
          ((runnable_iff p.status).0 facts.0, facts.1, facts.2),
          ready-facts p now facts,
          rw good done,
          claimed-IsClaimOf p now (shift now lease_for) token,
          (λ j. get-put s.tasks k j u),
          refl,
          refl,
          λ again later other. claim_next-running s' k u again later other there refl,
        )
  ]
]
