-- ===== src/Queue/Tests.antt =====
-- Runs of the queue on small inputs, and the theorems at such inputs.
use mathlib.Core.Option
use night_scout.Prelude.{◌≤◌, String, ◌≡◌, refl, true, false, none, some, string_eq, List}
use night_scout.Prelude.Dict
use night_scout.Prelude.Int.{ℤ, pos, is_nonpositive}
use night_scout.Prelude.Text.{strip}
use night_scout.Prelude.Exec.{ok}
use night_scout.Queue.Task.{Task, pending, running, failed, is_some, dedupe_key}
use night_scout.Queue.Validate.{
  validate, normalize_claim_token, must_not_be_blank, normalize_optional, normalize_search_tier,
  at_least_one,
}
use night_scout.Queue.Valid.{IsValid, IsValid-validate}
use night_scout.Queue.Store.{TaskStore, empty_store, task_at, put, save, claim, lease_changed}
use night_scout.Queue.Ops.{enqueue, claim_next, heartbeat, fail}
use night_scout.Queue.Finish.{
  finish, succeed, recover_expired_leases, expired_lease, recover_one_lease, recover_edit, caught,
}
use night_scout.Queue.Invariant.{WellFormed}
use night_scout.Queue.Writes.{IsToken, put_cases}
use night_scout.Queue.Claiming.{IsClaimable, IsClaimOf, claim_next_lem}
use night_scout.Queue.Writes.{Inserted}
use night_scout.Queue.Ready.{ready, fair_lane_limits}
use night_scout.Queue.Shortlist.{ids, ready_lem}
use night_scout.Queue.Lanes.{fair_lane_limits_lem}
use night_scout.Prelude.Sets.{member, NoRepeat}
use night_scout.Queue.Store.{is_ready, insert_task}
use night_scout.Prelude.{ℕ, false, ◌==◌, if◌then◌else◌, length, All, ◌⊎◌, ◌+◌, arith}
use night_scout.Prelude.Exec.{err, value_error}
use night_scout.Queue.Recovery.{settled}
use night_scout.Queue.RecoverySpec.{recover_lem}
use night_scout.Queue.Runs.{enqueue_task, claim_task, recover_leases, run, Reach, start, call}
use night_scout.Queue.Progress.{
  Follows, Reach-empty-WellFormed, Reach-Follows, one_task_per_key, attempts_bounded,
}
use night_scout.Queue.Fencing.{IsFenced, completion-IsFenced}

abbrev sample : String → Task
sample id = record {
  task_id = id;
  worker = "dns";
  action = "resolve";
  input_event_id = id;
  input_identity_key = none;
  branch_id = none;
  route_rule_id = none;
  routing_reason = none;
  status = pending;
  priority = pos 0;
  attempts = 0;
  max_attempts = 1;
  created_at = 0;
  updated_at = 0;
  available_at = 0;
  started_at = none;
  finished_at = none;
  lease_expires_at = none;
  claim_token = none;
  last_error = none;
  search_tier = none;
  candidate_limit_hint = none;
}

abbrev sample_of : String → String → Task
sample_of id event = record (sample event) { task_id = id }

abbrev waiting : Task
waiting = record (sample "a") { updated_at = 1 }

program : Unit {0}
unfolding strip Dict.values validate must_not_be_blank normalize_claim_token normalize_optional
    at_least_one normalize_search_tier dedupe_key Dict.get Dict.put Dict.remove put save
    lease_changed claim enqueue claim_next heartbeat fail finish recover_expired_leases
    expired_lease recover_one_lease recover_edit caught run
program = tt

abbrev queued : TaskStore
queued = run (enqueue_task (sample "a") 1) empty_store

abbrev claimed_store : TaskStore
claimed_store = run (claim_task "a" (pos 10) 2 "clm_1") queued

abbrev failed_store : TaskStore
failed_store = run (recover_leases (pos 0) 12) claimed_store

the_claim : Task
the_claim = record (sample "a") {
  status = running;
  attempts = 1;
  started_at = some 2;
  updated_at = 2;
  lease_expires_at = some 12;
  claim_token = some "clm_1";
}

claimed-at : task_at claimed_store "a" ≡ some the_claim
unfolding program the_claim
claimed-at = refl

waiting-at : task_at queued "a" ≡ some waiting
unfolding program
waiting-at = refl

recovered-status : Option.map (λ (t : Task). t.status) (task_at failed_store "a") ≡ some failed
unfolding program
recovered-status = refl

sample-IsValid : IsValid (sample "a")
unfolding program
sample-IsValid = IsValid-validate (sample "a") refl

clm-IsToken : IsToken "clm_1"
unfolding program
clm-IsToken = refl

queued-Reach : Reach empty_store queued
unfolding program
queued-Reach = call start (enqueue_task (sample "a") 1) (sample-IsValid, refl)

claimed-Reach : Reach queued claimed_store
claimed-Reach = call start (claim_task "a" (pos 10) 2 "clm_1") clm-IsToken

claimed-Reach-empty : Reach empty_store claimed_store
claimed-Reach-empty = call queued-Reach (claim_task "a" (pos 10) 2 "clm_1") clm-IsToken

claimed-WellFormed : WellFormed claimed_store
claimed-WellFormed = Reach-empty-WellFormed claimed_store claimed-Reach-empty

Reach-empty-WellFormed_example : WellFormed claimed_store
Reach-empty-WellFormed_example = Reach-empty-WellFormed claimed_store claimed-Reach-empty

Reach-Follows_example : Follows queued claimed_store
Reach-Follows_example = Reach-Follows queued claimed_store queued-Reach claimed-Reach

one_task_per_key_example : ◌≡◌ {A = String} "a" "a"
one_task_per_key_example =
    one_task_per_key claimed_store "a" "a" the_claim the_claim claimed-Reach-empty claimed-at
      claimed-at refl

attempts_bounded_example :
    (the_claim.attempts ≤ the_claim.max_attempts)
    × (the_claim.status ≡ running
        → (is_some the_claim.claim_token ≡ true) × (is_some the_claim.lease_expires_at ≡ true))
attempts_bounded_example =
    attempts_bounded claimed_store "a" the_claim claimed-Reach-empty claimed-at

completion-IsFenced_example :
    IsFenced claimed_store "a" "clm_0" (heartbeat "a" "clm_0" (pos 5) 3 claimed_store)
    × IsFenced claimed_store "a" "clm_0" (succeed "a" "clm_0" 3 claimed_store)
    × IsFenced claimed_store "a" "clm_0" (fail "a" "clm_0" "timeout" none 3 claimed_store)
completion-IsFenced_example =
    completion-IsFenced claimed_store claimed-WellFormed "a" "clm_0" (pos 5) "timeout" none 3

recover_lem_example :
    (task_at failed_store "a" ≡ Option.map (λ t. settled t (pos 0) 12) (task_at claimed_store "a"))
    × ((ts : List Task) × ((recover_expired_leases (pos 0) 12 claimed_store).0 ≡ ok ts))
unfolding run
recover_lem_example = recover_lem (pos 0) 12 claimed_store "a" claimed-WellFormed refl

ready_lem_example :
    (ts : List Task) × (ready 5 (some 2) true queued ≡ ok ts)
    × (length ts ≤ 2)
    × NoRepeat (ids ts)
    × All (λ t. IsClaimable t 5) ts
    × ((length ts ≡ 2)
        ⊎ ((k : String) (t : Task)
            → task_at queued k ≡ some t
            → IsClaimable t 5
            → member t.task_id (ids ts) ≡ true))
ready_lem_example = ready_lem 5 2 queued (ground arith)

fair_lane_limits_lem_example :
    let l = fair_lane_limits 11 in
    (l.top + l.oldest + l.exploration + l.tail ≡ 11) × (1 ≤ 11 → 1 ≤ l.top)
fair_lane_limits_lem_example = fair_lane_limits_lem 11

claim_next_lem_example :
    ((u : Task) × (s' : TaskStore) × (is_nonpositive (pos 10) ≡ false)
      × IsClaimable waiting 2
      × (is_ready 2 waiting ≡ true)
      × (claim_next "a" (pos 10) 2 "clm_1" queued ≡ (ok u, s'))
      × IsClaimOf waiting 2 12 "clm_1" u
      × ((j : String) → task_at s' j ≡ (if "a" == j then some u else task_at queued j))
      × (s'.active_keys ≡ queued.active_keys)
      × (s'.known_keys ≡ queued.known_keys)
      × ((again : ℤ) (later : ℕ) (other : String)
          → claim_next "a" again later other s' ≡ (err value_error, s')))
    ⊎ (((is_nonpositive (pos 10) ≡ true) ⊎ (¬ IsClaimable waiting 2) × (is_ready 2 waiting ≡ false))
        × (claim_next "a" (pos 10) 2 "clm_1" queued ≡ (err value_error, queued)))
claim_next_lem_example = claim_next_lem queued "a" waiting (pos 10) 2 "clm_1" waiting-at

put_cases_example :
    (Dict.contains queued.known_keys (dedupe_key (sample_of "b" "a")) ≡ true)
      × (put (sample_of "b" "a") queued ≡ (false, queued))
    ⊎ (put (sample_of "b" "a") queued ≡ (true, insert_task (sample_of "b" "a") queued))
      × Inserted queued (sample_of "b" "a") (insert_task (sample_of "b" "a") queued)
unfolding program
put_cases_example =
    put_cases queued (sample_of "b" "a") (Reach-empty-WellFormed queued queued-Reach) refl refl
