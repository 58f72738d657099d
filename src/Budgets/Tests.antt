-- ===== src/Budgets/Tests.antt =====
-- Runs of the budget store (recon/core/budgets.py) on small inputs, and its theorems at such inputs.
use night_scout.Prelude.{
  ℕ, ◌+◌, ◌≤◌, String, ◌≡◌, refl, ◌⊎◌, true, false, none, some, List, [], ◌∷◌, arith, All, any,
  ◌==◌, if◌then◌else◌, string_eq,
}
use night_scout.Prelude.Dict
use night_scout.Prelude.Exec.{ok, err, value_error}
use night_scout.Budgets.Model.{
  tolerance, unit, BucketKey, key_eq, key_beq, hard, cost, active, committed, released, BudgetCheck,
  BudgetReservation, BudgetViolation,
}
use mathlib.Core.Option
use night_scout.Prelude.{subst, sym}
use night_scout.Prelude.Int.{pos}
use night_scout.Prelude.Sort.{sort}
use night_scout.Prelude.Dict.Totals.{total}
use night_scout.Queue.Task.{Task, pending}
use night_scout.Budgets.Model.{BudgetCaps, BudgetDemand, BudgetContext, normal, metric_beq}
use night_scout.Budgets.Checks.{
  raw_checks, class_checks, checks_for_caps, as_metric_limits, as_metric_amounts, check_for,
  is_reduced, merge_checks, merge_into, merge_one,
}
use night_scout.Budgets.Manager.{BudgetManager, reserve}
use night_scout.Budgets.Store.{
  reap_expired, require_active, active_or_raise, commit_items, subtract_reserved, charge,
}
use night_scout.Budgets.Balance.{owed}
use night_scout.Budgets.Merging.{has_conflict, IsMergedFrom, merge_checks_lem}
use night_scout.Budgets.Spending.{IsSound, IsBounded, reserve-IsSound}
use night_scout.Budgets.Reaping.{reaped, reap_expired_lem}
use night_scout.Budgets.Settled.{over_stays_over}
use night_scout.Budgets.Runs.{
  Command, reserve_call, commit_call, release_call, run, run-IsSound, start, call, never_overspent,
}
use night_scout.Budgets.Store.{
  BudgetStore, spent_at, reserved_at, exceeds, violations_of, reserve_items, try_reserve, commit,
  release,
}
use night_scout.Budgets.Ledger.{item_sum, spent_sum, IsSizeable}
use night_scout.Budgets.Balance.{IsBalanced, empty_budgets, release_lem, commit_lem}
use night_scout.Budgets.Reserving.{
  reserved_for, reserved_for-IsBalanced, try_reserve_lem, empty_budgets-IsBalanced,
}

abbrev cost_key : BucketKey
cost_key = record { bucket = "global"; budget_class = hard; metric = cost }

abbrev cost_check : BudgetCheck
cost_check = record {
  key = cost_key;
  requested = 5000;
  configured_limit = 12000;
  effective_limit = 12000;
}

abbrev reservation : String → BudgetReservation
reservation id = record {
  reservation_id = id;
  task_id = "tsk_1";
  items = record { key = cost_key; amount = 5000 } ∷ [];
  created_at = 0;
  expires_at = 10;
  state = active;
}

abbrev one_reserved : BudgetStore
one_reserved = reserved_for (reservation "a") empty_budgets

abbrev twice : BudgetCheck
twice = record cost_check { requested = 10000 }

merged : merge_checks (cost_check ∷ cost_check ∷ []) ≡ ok (twice ∷ [])
unfolding merge_checks merge_into merge_one Dict.get Dict.put Dict.values sort key_beq
merged = refl

program : Unit {0}
unfolding Dict.get Dict.put key_beq reserved_for reserve_items violations_of try_reserve
program = tt

sizeable : IsSizeable (record { key = cost_key; amount = 5000 } ∷ [])
sizeable = (ground arith, tt)

one_reserved-IsBalanced : IsBalanced one_reserved
unfolding Dict.get
one_reserved-IsBalanced =
    reserved_for-IsBalanced (reservation "a") empty_budgets empty_budgets-IsBalanced refl refl
      sizeable

stored : Dict.get one_reserved.reservations "a" ≡ some (reservation "a")
unfolding program
stored = refl

-- a third reservation of five thousand units is over the limit of twelve thousand
third : violations_of (cost_check ∷ []) (reserved_for (reservation "b") one_reserved) ≡ (
    record {
      key = cost_key;
      committed = 0;
      reserved = 10000;
      requested = 5000;
      configured_limit = 12000;
      effective_limit = 12000;
    }
    ∷ [])
unfolding program
third = refl

release_lem_example :
    (s' : BudgetStore) × (release "a" one_reserved
      ≡ (ok (record (reservation "a") { state = released }), s'))
    × ((k : BucketKey)
        → reserved_at s' k + item_sum k (reservation "a").items ≡ reserved_at one_reserved k)
    × (s'.spent ≡ one_reserved.spent)
    × IsBalanced s'
release_lem_example =
    release_lem one_reserved "a" (reservation "a") one_reserved-IsBalanced stored refl

commit_lem_example :
    (s' : BudgetStore) × (commit "a" one_reserved
      ≡ (ok (record (reservation "a") { state = committed }), s'))
    × ((k : BucketKey)
        → reserved_at s' k + item_sum k (reservation "a").items ≡ reserved_at one_reserved k)
    × ((k : BucketKey)
        → spent_at s' k ≡ spent_at one_reserved k + spent_sum k (reservation "a").items)
    × IsBalanced s'
commit_lem_example =
    commit_lem one_reserved "a" (reservation "a") one_reserved-IsBalanced stored refl

try_reserve_lem_example :
    ((q : BudgetReservation) × (Dict.get one_reserved.reservations "b" ≡ some q)
      × (try_reserve (reservation "b") (cost_check ∷ []) one_reserved
          ≡ (err value_error, one_reserved)))
    ⊎ ((v : BudgetViolation) × ((rest : List BudgetViolation) × (Dict.get one_reserved.reservations
              "b"
            ≡ none)
          × (any (exceeds one_reserved) (cost_check ∷ []) ≡ true)
          × (violations_of (cost_check ∷ []) one_reserved ≡ v ∷ rest)
          × (try_reserve (reservation "b") (cost_check ∷ []) one_reserved
              ≡ (ok (false, v ∷ rest), one_reserved))))
    ⊎ ((s' : BudgetStore) × (Dict.get one_reserved.reservations "b" ≡ none)
        × All (λ c. exceeds one_reserved c ≡ false) (cost_check ∷ [])
        × (try_reserve (reservation "b") (cost_check ∷ []) one_reserved ≡ (ok (true, []), s'))
        × ((id : String)
            → Dict.get s'.reservations id ≡ (
                if "b" == id
                then some (reservation "b")
                else Dict.get one_reserved.reservations id))
        × ((k : BucketKey)
            → reserved_at s' k ≡ reserved_at one_reserved k + item_sum k (reservation "b").items)
        × (s'.spent ≡ one_reserved.spent)
        × IsBalanced s')
try_reserve_lem_example =
    try_reserve_lem (reservation "b") (cost_check ∷ []) one_reserved one_reserved-IsBalanced refl
      sizeable

abbrev no_caps : BudgetCaps
no_caps = record {
  tasks_cap = none;
  cost_cap = none;
  requests_cap = none;
  candidates_cap = none;
  runtime_seconds_cap = none;
  concurrent_tasks_cap = none;
}

abbrev manager : BudgetManager
manager = record {
  profile = record {
    soft_global_limits = no_caps;
    soft_branch_limits = no_caps;
    soft_resource_limits = no_caps;
    soft_worker_limits = Dict.empty;
    hard_global_limits = record no_caps { cost_cap = some 12000 };
    hard_branch_limits = no_caps;
    hard_resource_limits = no_caps;
    hard_worker_limits = Dict.empty;
    soft_max_branch_depth = none;
    hard_max_branch_depth = some 3;
    exploration_reserve_fraction = 200_000_000_000;
  };
  capacity_retry_after = 1;
}

abbrev demand : BudgetDemand
demand = record {
  tasks_amount = 0;
  cost_amount = 5000;
  requests_amount = 0;
  candidates_amount = 0;
  runtime_seconds_amount = 0;
  concurrent_tasks_amount = 0;
}

abbrev context : BudgetContext
context = record {
  branch_depth = 0;
  resource_keys = [];
  lane = normal;
  branch_soft_multiplier = unit;
}

abbrev task : Task
task = record {
  task_id = "tsk_1";
  worker = "dns";
  action = "resolve";
  input_event_id = "evt_1";
  input_identity_key = none;
  branch_id = none;
  route_rule_id = none;
  routing_reason = none;
  status = pending;
  priority = pos 0;
  attempts = 0;
  max_attempts = 3;
  created_at = 0;
  updated_at = 0;
  available_at = 0;
  started_at = none;
  finished_at = none;
  lease_expires_at = none;
  claim_token = none;
  last_error = none;
  search_tier = none;
  candidate_limit_hint = none;
}

abbrev limit : BucketKey → ℕ
limit key = 12000

compiled : raw_checks manager.profile task demand context ≡ (cost_check ∷ [])
unfolding program raw_checks class_checks checks_for_caps as_metric_limits as_metric_amounts
    metric_beq check_for is_reduced sort Dict.items
compiled = refl

bounded : All (IsBounded limit) (raw_checks manager.profile task demand context)
bounded = subst (All (IsBounded limit)) (sym compiled) ((omega arith, omega arith), tt)

empty-IsSound : IsSound limit empty_budgets
unfolding Dict.get
empty-IsSound = (empty_budgets-IsBalanced, λ k. ground arith)

reserve-IsSound_example :
    IsSound limit (reserve manager task demand context (pos 10) "a" 0 empty_budgets).1
reserve-IsSound_example =
    reserve-IsSound limit empty_budgets empty-IsSound manager task demand context (pos 10) "a" 0
      bounded

abbrev reserve_a : Command
reserve_a = reserve_call manager task demand context (pos 10) "a" 0

never_overspent_example :
    (spent_at (run (commit_call "a") (run reserve_a empty_budgets)) cost_key
        + reserved_at (run (commit_call "a") (run reserve_a empty_budgets)) cost_key
      ≤ 12000 + tolerance)
    × (reserved_at (run (commit_call "a") (run reserve_a empty_budgets)) cost_key
        ≡ total (owed cost_key) (run (commit_call "a") (run reserve_a empty_budgets)).reservations)
never_overspent_example =
    never_overspent limit (run (commit_call "a") (run reserve_a empty_budgets))
      (call (call start reserve_a bounded) (commit_call "a") tt) cost_key

reap_expired_lem_example :
    (Dict.get (reap_expired 20 one_reserved).1.reservations "a"
      ≡ Option.map (reaped 20) (Dict.get one_reserved.reservations "a"))
    × ((rs : List BudgetReservation) × ((reap_expired 20 one_reserved).0 ≡ ok rs))
reap_expired_lem_example = reap_expired_lem 20 one_reserved "a" one_reserved-IsBalanced

-- the checks of two resources that share a bucket
merge_checks_lem_example :
    ((has_conflict (cost_check ∷ cost_check ∷ []) ≡ true)
      × (merge_checks (cost_check ∷ cost_check ∷ []) ≡ err value_error))
    ⊎ ((out : List BudgetCheck) × (has_conflict (cost_check ∷ cost_check ∷ []) ≡ false)
        × (merge_checks (cost_check ∷ cost_check ∷ []) ≡ ok out)
        × IsMergedFrom (cost_check ∷ cost_check ∷ []) out)
merge_checks_lem_example = merge_checks_lem (cost_check ∷ cost_check ∷ [])

-- limits that differ
clash :
    merge_checks (cost_check ∷ record cost_check { effective_limit = 9000 } ∷ []) ≡ err value_error
unfolding merge_checks merge_into merge_one Dict.get Dict.put key_beq
clash = refl

abbrev one_committed : BudgetStore
one_committed = run (commit_call "a") one_reserved

committed-IsBalanced : IsBalanced one_committed
committed-IsBalanced =
    (run-IsSound (λ k. spent_at one_reserved k + reserved_at one_reserved k) (commit_call "a")
      one_reserved tt (one_reserved-IsBalanced, λ k. omega arith)).0

kept :
    Dict.get one_committed.reservations "a" ≡ some (record (reservation "a") { state = committed })
unfolding program run commit require_active active_or_raise commit_items subtract_reserved charge
    Dict.remove
kept = refl

over_stays_over_example :
    Dict.get (run (release_call "a") one_committed).reservations "a"
    ≡ some (record (reservation "a") { state = committed })
over_stays_over_example =
    over_stays_over "a" one_committed (release_call "a")
      (record (reservation "a") { state = committed }) committed-IsBalanced kept refl
