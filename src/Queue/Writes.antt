-- ===== src/Queue/Writes.antt =====
-- What `save`, `claim` and `put` do to a well-formed store.
use night_scout.Prelude.{
  ℕ, ◌≤◌, ◌<◌, String, ◌≡◌, refl, ap, ◌⊎◌, inl, inr, true, false, Option, none, some, arith, ◌==◌,
  ==_iff, string_eq, option_eq, if◌then◌else◌, Bool-cases, Option-cases, ltb, leb,
}
use night_scout.Prelude.Dict
use night_scout.Prelude.Dict.{get-put, get-remove, IsDistinct-put}
use night_scout.Prelude.Exec.{Error, value_error, key_error, ok, err}
use night_scout.Queue.Task.{
  TaskStatus, Task, is_terminal, is_runnable_status, status_beq, status_beq_iff, dedupe_key,
}
use night_scout.Queue.Validate.{normalize_claim_token, validate_lifecycle}
use night_scout.Queue.Valid.{IsValid}
use night_scout.Queue.Store.{
  TaskStore, task_at, insert_task, put, lease_changed, write_task, save, claim, claimed,
}
use night_scout.Queue.Invariant.{WellFormed, Evolves, Replaced}

-- The store that a successful `save` of `u` over `p` leaves.
abbrev pub overwritten : TaskStore → Task → Task → TaskStore
overwritten s p u =
    let freed = Dict.remove s.active_keys (dedupe_key p) in
    record s {
      tasks = Dict.put s.tasks u.task_id u;
      active_keys = if is_terminal u then freed else Dict.put freed (dedupe_key u) u.task_id;
    }

overwritten-Replaced :
    (s : TaskStore) (p u : Task) → dedupe_key u ≡ dedupe_key p → Replaced s u (overwritten s p u)
overwritten-Replaced s p u same = record {
  distinct = IsDistinct-put s.tasks u.task_id u;
  tasks = λ k. get-put s.tasks u.task_id k u;
  active_keys = λ d. ground (
    arith,
    get-remove s.active_keys (dedupe_key p) d,
    get-put (Dict.remove s.active_keys (dedupe_key p)) (dedupe_key u) d u.task_id,
    ==_iff (dedupe_key u) d,
    ==_iff (dedupe_key p) d,
    same,
  );
  known_keys = λ d. refl;
}

write_task_lem :
    (s : TaskStore) (p u : Task)
    → WellFormed s
    → task_at s u.task_id ≡ some p
    → Evolves p u
    → write_task p u s ≡ (ok u, overwritten s p u)
unfolding write_task
write_task_lem s p u w at e = ground (
  arith,
  w.active u.task_id p at e.live,
  e.key,
  ==_iff (some u.task_id) (some u.task_id),
  get-remove s.active_keys (dedupe_key p) (dedupe_key u),
  ==_iff (dedupe_key p) (dedupe_key u),
)

-- A save whose comparisons hold puts `u` in the place of `p`.
pub save_success :
    (s : TaskStore) (p u : Task) (lease : Option ℕ)
    → WellFormed s
    → task_at s u.task_id ≡ some p
    → Evolves p u
    → lease_changed lease p.lease_expires_at ≡ false
    → save u p.status p.claim_token lease s ≡ (ok u, overwritten s p u)
unfolding save
save_success s p u lease w at e kept = rw at (
    rw ((status_beq_iff p.status p.status).1 refl)
      (rw ((==_iff p.claim_token p.claim_token).1 refl) (rw kept (write_task_lem s p u w at e))))

-- `save` compares and swaps: either a comparison fails and nothing changes, or the status and the
-- token are the expected ones and `u` stands in the place of `p`. The conflict of two active tasks
-- that `save` tests for last does not happen.
pub save_cases :
    (s : TaskStore) (p u : Task) (st : TaskStatus) (token : Option String) (lease : Option ℕ)
    → WellFormed s
    → task_at s u.task_id ≡ some p
    → Evolves p u
    → ((x : Error) × (save u st token lease s ≡ (err x, s)))
      ⊎ (p.status ≡ st)
        × (p.claim_token ≡ token)
        × (save u st token lease s ≡ (ok u, overwritten s p u))
unfolding save
save_cases s p u st token lease w at e = elim (Bool-cases (status_beq p.status st)) [
  | inr other ↦ inl (value_error, rw at (rw other))
  | inl same ↦ elim (Bool-cases (p.claim_token == token)) [
    | inr other ↦ inl (value_error, rw at (ground arith))
    | inl owned ↦ elim (Bool-cases (lease_changed lease p.lease_expires_at)) [
      | inr kept ↦ inr (
        (status_beq_iff p.status st).0 same,
        (==_iff p.claim_token token).0 owned,
        rw at (rw same (rw owned (rw kept (write_task_lem s p u w at e)))),
      )
      | inl changed ↦ inl (value_error, rw at (rw same (rw owned (rw changed))))
    ]
  ]
]

pub save_Evolves :
    (s : TaskStore) (p u : Task)
    → task_at s u.task_id ≡ some p
    → Evolves p u
    → Replaced s u (overwritten s p u)
save_Evolves s p u at e = overwritten-Replaced s p u e.key

-- a token that `Task` accepts as it is
abbrev pub IsToken : String → Type 0
IsToken token = normalize_claim_token (some token) ≡ ok (some token)

abbrev pub ClaimFacts : Task → ℕ → Type 0
ClaimFacts p now =
    (is_runnable_status p.status ≡ true) × (p.available_at ≤ now) × (p.attempts < p.max_attempts)

pub claimed-Evolves :
    (p : Task) (now lease : ℕ) (token : String)
    → IsValid p
    → IsToken token
    → ClaimFacts p now
    → Evolves p (claimed p now lease token)
unfolding dedupe_key validate_lifecycle
claimed-Evolves p now lease token v t (runnable, available, more) = record {
  id = refl;
  key = refl;
  limit = refl;
  live = ground arith;
  valid = record { normal = v.normal; token = t; lifecycle = ground arith };
  leased = λ r. refl;
  attempt = inr (refl, runnable, refl);
}

pub claimed-Replaced :
    (s : TaskStore) (k : String) (p : Task) (now lease : ℕ) (token : String)
    → WellFormed s
    → task_at s k ≡ some p
    → is_terminal p ≡ false
    → Replaced s
        (claimed p now lease token)
        (record s { tasks = Dict.put s.tasks k (claimed p now lease token) })
unfolding dedupe_key
claimed-Replaced s k p now lease token w at live =
    let u = claimed p now lease token in
    record {
      distinct = IsDistinct-put s.tasks k u;
      tasks =
          λ j. ground (arith, w.ids k p at, get-put s.tasks k j u, ==_iff p.task_id j, ==_iff k j);
      active_keys =
          λ d. ground (arith, w.active k p at live, w.ids k p at, ==_iff (dedupe_key p) d);
      known_keys = λ d. refl;
    }

-- On a stored task, `claim` writes the claimed task if the task may run, is due and has attempts
-- left, and otherwise raises ValueError and changes nothing.
pub claim_cases :
    (s : TaskStore) (k : String) (p : Task) (now lease : ℕ) (token : String)
    → task_at s k ≡ some p
    → ClaimFacts p now
        × (claim k now lease token s ≡ (
          ok (claimed p now lease token),
          record s { tasks = Dict.put s.tasks k (claimed p now lease token) },
        ))
      ⊎ (¬ ClaimFacts p now) × (claim k now lease token s ≡ (err value_error, s))
unfolding claim
claim_cases s k p now lease token at = elim (Bool-cases (is_runnable_status p.status)) [
  | inr idle ↦ inr (λ f. ground arith, rw at (rw idle))
  | inl runnable ↦ elim (Bool-cases (ltb now p.available_at)) [
    | inl early ↦ inr (λ f. ground arith, rw at (rw runnable (rw early)))
    | inr due ↦ elim (Bool-cases (leb p.max_attempts p.attempts)) [
      | inl spent ↦ inr (λ f. ground arith, rw at (rw runnable (rw due (rw spent))))
      | inr left ↦
          inl ((runnable, ground arith, ground arith), rw at (rw runnable (rw due (rw left))))
    ]
  ]
]

pub claim-none :
    (s : TaskStore) (k : String) (now lease : ℕ) (token : String)
    → task_at s k ≡ none
    → claim k now lease token s ≡ (err key_error, s)
unfolding claim
claim-none s k now lease token at = rw at

-- The store with a new task in it.
pub record Inserted (s : TaskStore) (u : Task) (s' : TaskStore) : Type 0 where
  pub unused : task_at s u.task_id ≡ none
  pub unknown : Dict.get s.known_keys (dedupe_key u) ≡ none
  pub distinct : Dict.IsDistinct s.tasks → Dict.IsDistinct s'.tasks
  pub tasks : (k : String) → task_at s' k ≡ (if u.task_id == k then some u else task_at s k)
  pub active_keys :
      (d : String)
      → Dict.get s'.active_keys d
        ≡ (if dedupe_key u == d then some u.task_id else Dict.get s.active_keys d)
  pub known_keys :
      (d : String)
      → Dict.get s'.known_keys d
        ≡ (if dedupe_key u == d then some u.task_id else Dict.get s.known_keys d)

insert_task-Inserted :
    (s : TaskStore) (u : Task)
    → is_terminal u ≡ false
    → task_at s u.task_id ≡ none
    → Dict.get s.known_keys (dedupe_key u) ≡ none
    → Inserted s u (insert_task u s)
unfolding insert_task
insert_task-Inserted s u live unused unknown = record {
  unused = unused;
  unknown = unknown;
  distinct = IsDistinct-put s.tasks u.task_id u;
  tasks = λ k. get-put s.tasks u.task_id k u;
  active_keys = λ d. rw live (get-put s.active_keys (dedupe_key u) d u.task_id);
  known_keys = λ d. get-put s.known_keys (dedupe_key u) d u.task_id;
}

-- For an unfinished task under a new identifier, in a well-formed store: `put` returns False and
-- changes nothing if the key was used before, by a finished task too, and inserts otherwise.
pub put_cases :
    (s : TaskStore) (u : Task)
    → WellFormed s
    → is_terminal u ≡ false
    → task_at s u.task_id ≡ none
    → (Dict.contains s.known_keys (dedupe_key u) ≡ true) × (put u s ≡ (false, s))
      ⊎ (put u s ≡ (true, insert_task u s)) × Inserted s u (insert_task u s)
unfolding put
put_cases s u w live unused = elim (Option-cases (Dict.get s.known_keys (dedupe_key u))) [
  | inr (k, e) ↦ inl (ground arith, ground arith)
  | inl unknown ↦ elim (Option-cases (Dict.get s.active_keys (dedupe_key u))) [
    | inr (k, e) ↦
        let (t, a, b, c) = w.held (dedupe_key u) k e in
        absurd (ground (arith, w.known k t a, ap (Dict.get s.known_keys) b))
    | inl free ↦ inr (ground arith, insert_task-Inserted s u live unused unknown)
  ]
]
