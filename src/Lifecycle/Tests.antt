-- ===== src/Lifecycle/Tests.antt =====
-- A lifecycle (recon/core/lifecycle.py) over one task, and the theorems at its runs.
use night_scout.Prelude.{
  ℕ, ◌+◌, ◌≤◌, String, ◌≡◌, refl, true, none, some, [], ◌∷◌, arith, All, string_eq, subst, sym, ap,
  inl, inr, Option-cases,
}
use mathlib.Core.Option
use night_scout.Prelude.Dict
use night_scout.Prelude.Dict.Totals.{total}
use night_scout.Prelude.Int.{pos}
use night_scout.Prelude.Exec.{Result, ok, err}
use night_scout.Prelude.Sort.{sort}
use night_scout.Prelude.Text.{strip}
use night_scout.Queue.Task.{Task, pending, running, succeeded, is_some, dedupe_key}
use night_scout.Queue.Validate.{
  validate, normalize_claim_token, must_not_be_blank, normalize_optional, normalize_search_tier,
  at_least_one,
}
use night_scout.Queue.Valid.{IsValid, IsValid-validate}
use night_scout.Queue.Store.{empty_store, task_at, put, save, claim, lease_changed}
use night_scout.Queue.Ops.{enqueue, claim_next, heartbeat}
use night_scout.Queue.Finish.{finish}
use night_scout.Queue.Writes.{IsToken}
use night_scout.Queue.Runs as queue_runs
use night_scout.Budgets.Model.{
  tolerance, unit, BucketKey, key_beq, hard, cost, normal, active, BudgetReservation, metric_beq,
  BudgetCaps, BudgetDemand, BudgetContext, BudgetCheck,
}
use night_scout.Budgets.Checks.{
  raw_checks, class_checks, checks_for_caps, as_metric_limits, as_metric_amounts, check_for,
  is_reduced, merge_checks, merge_into, merge_one, compile_checks,
}
use night_scout.Budgets.Store.{
  spent_at, reserved_at, try_reserve, violations_of, reserve_items, renew, require_active, commit,
  commit_items, charge, subtract_reserved,
}
use night_scout.Budgets.Balance.{owed, empty_budgets}
use night_scout.Budgets.Spending.{IsSound, IsBounded}
use night_scout.Budgets.Manager.{BudgetManager, reserve, is_beyond, renew_for}
use night_scout.Budgets.Runs as budget_runs
use night_scout.Scheduler.Batch.{ScheduleDecision}
use night_scout.Lifecycle.Model.{
  BudgetPlan, GateOutcome, WorkerOutcome, DispatchTicket, Core, ExecutionGate, Lifecycle,
  make_lifecycle, require_claim,
}
use night_scout.Lifecycle.Gates.{apply_gates, obey, unless_stopped}
use night_scout.Lifecycle.Admit.{
  Readings, ticket, admit, admit_next, admit_found, after_gates, reserve_passed, obey_budget,
  claim_reserved, start_attempt, complete,
}
use night_scout.Lifecycle.Execute.{
  WorkerRun, returned, run_once, run_admitted, execute_claimed, supervise, beats_on, beat_once,
  ending_of, renew_reservation, end_supervised, end_returned, commit_reservation, end_outcome,
  succeed_claimed, with_token, finish_with, complete_claimed,
}
use night_scout.Lifecycle.Admitted.{IsAdmitted, admit-IsAdmitted}
use night_scout.Lifecycle.Calls.{no_call, queue_call, IsPolite}
use night_scout.Lifecycle.ExecuteCalls.{IsPoliteRun}
use night_scout.Lifecycle.AdmitCalls.{admit-Calls}
use night_scout.Lifecycle.Settling.{Calls-IsSound, execute_claimed-IsOver}
use night_scout.Budgets.Settled.{IsOver}
use night_scout.Budgets.Reserving.{empty_budgets-IsBalanced}
use night_scout.Lifecycle.Turns.{Turns, begin, others, once_turn, Turns-Reach, within_bounds}

abbrev no_caps : BudgetCaps
no_caps = record {
  tasks_cap = none;
  cost_cap = none;
  requests_cap = none;
  candidates_cap = none;
  runtime_seconds_cap = none;
  concurrent_tasks_cap = none;
}

abbrev manager : BudgetManager
manager = record {
  profile = record {
    soft_global_limits = no_caps;
    soft_branch_limits = no_caps;
    soft_resource_limits = no_caps;
    soft_worker_limits = Dict.empty;
    hard_global_limits = record no_caps { cost_cap = some 12000 };
    hard_branch_limits = no_caps;
    hard_resource_limits = no_caps;
    hard_worker_limits = Dict.empty;
    soft_max_branch_depth = none;
    hard_max_branch_depth = some 3;
    exploration_reserve_fraction = 200_000_000_000;
  };
  capacity_retry_after = 1;
}

abbrev demand : BudgetDemand
demand = record {
  tasks_amount = 0;
  cost_amount = 5000;
  requests_amount = 0;
  candidates_amount = 0;
  runtime_seconds_amount = 0;
  concurrent_tasks_amount = 0;
}

abbrev context : BudgetContext
context = record {
  branch_depth = 0;
  resource_keys = [];
  lane = normal;
  branch_soft_multiplier = unit;
}

abbrev scope_gate : ExecutionGate
scope_gate = record {
  name = "scope";
  evaluate = λ task schedule c. (
    ok (record {
      outcome = GateOutcome.allow;
      reason = none;
      review_case_id = none;
      retry_after = none;
    }),
    c,
  );
}

abbrev lifecycle : Lifecycle
lifecycle = record {
  budgets = manager;
  gates = scope_gate ∷ [];
  budget_planner = λ task schedule c. (ok (record { demand = demand; context = context }), c);
  task_lease_for = pos 10;
  heartbeat_interval = pos 3;
  review_coordinator = none;
  attempt_observer = none;
}

made : make_lifecycle lifecycle ≡ ok lifecycle
unfolding make_lifecycle
made = refl

abbrev waiting : Task
waiting = record {
  task_id = "a";
  worker = "dns";
  action = "resolve";
  input_event_id = "evt_1";
  input_identity_key = none;
  branch_id = none;
  route_rule_id = none;
  routing_reason = none;
  status = pending;
  priority = pos 0;
  attempts = 0;
  max_attempts = 3;
  created_at = 0;
  updated_at = 0;
  available_at = 0;
  started_at = none;
  finished_at = none;
  lease_expires_at = none;
  claim_token = none;
  last_error = none;
  search_tier = none;
  candidate_limit_hint = none;
}

abbrev chosen : ScheduleDecision
chosen = record {
  task_id = "a";
  worker = "dns";
  action = "resolve";
  input_event_id = "evt_1";
  branch_id = none;
  score = pos 7;
  evaluated_at = 1;
  route_rule_id = none;
  routing_reason = none;
}

abbrev readings : Readings
readings = record {
  gate_now = 1;
  reserve_now = 1;
  defer_now = 1;
  claim_now = 2;
  new_reservation_id = "res_1";
  new_claim_token = "clm_1";
}

abbrev enqueue_waiting : queue_runs.Command
enqueue_waiting = queue_runs.enqueue_task waiting 0

abbrev nothing : Core
nothing = record { queue = empty_store; budgets = empty_budgets }

abbrev queued : Core
queued = record nothing { queue = queue_runs.run enqueue_waiting empty_store }

-- the worker renews its lease once, then returns a success
abbrev worker : Task → WorkerRun
worker task = record {
  beats = record { meanwhile = λ c. c; task_now = 4; budget_now = 4 } ∷ [];
  at_end = λ c. c;
  ending =
      returned
        (record { outcome = WorkerOutcome.worker_succeeded; error = none; retry_after = none });
  now = 6;
}

abbrev done : Core
done = (run_once lifecycle (some chosen) readings worker queued).1

limit : BucketKey → ℕ
limit key = 12000

abbrev cost_check : BudgetCheck
cost_check = record {
  key = record { bucket = "global"; budget_class = hard; metric = cost };
  requested = 5000;
  configured_limit = 12000;
  effective_limit = 12000;
}

compiled : (task : Task) → raw_checks manager.profile task demand context ≡ (cost_check ∷ [])
unfolding Dict.get raw_checks class_checks checks_for_caps as_metric_limits as_metric_amounts
    metric_beq check_for is_reduced Dict.items sort
compiled task = elim (Option-cases (task.branch_id)) [
  | inl bare ↦ rw bare refl
  | inr (branch, on) ↦ rw on refl
]

abbrev plan_of : Result BudgetPlan × Core → BudgetPlan
plan_of (ok plan, c) = plan
plan_of (err e, c) = record { demand = demand; context = context }

lifecycle-IsPolite : IsPolite limit lifecycle
unfolding limit
lifecycle-IsPolite = record {
  gates_call = ((λ task schedule c. no_call), tt);
  reviews_call = λ reviews is. absurd (ground (arith, is));
  observer_starts = λ observer is. absurd (ground (arith, is));
  observer_finishes = λ observer is. absurd (ground (arith, is));
  planner_calls = λ task schedule c. no_call;
  bounded = λ task schedule c d plan planned.
      subst
        (λ (plan : BudgetPlan).
          All (IsBounded limit) (raw_checks manager.profile task plan.demand plan.context))
        (ap plan_of planned)
        (subst (All (IsBounded limit)) (sym (compiled task)) ((omega arith, omega arith), tt));
}

worker-IsPoliteRun : (task : Task) → IsPoliteRun limit (worker task)
worker-IsPoliteRun task = record { beats_call = ((λ c. no_call), tt); end_calls = λ c. no_call }

program : Unit {0}
unfolding Dict.values validate must_not_be_blank normalize_claim_token normalize_optional
    at_least_one normalize_search_tier dedupe_key Dict.get Dict.put Dict.remove put save
    lease_changed claim enqueue claim_next heartbeat finish queue_runs.run raw_checks class_checks
    checks_for_caps as_metric_limits as_metric_amounts metric_beq check_for is_reduced Dict.items
    merge_checks merge_into merge_one compile_checks key_beq run_once strip sort make_lifecycle
    admit_next admit admit_found apply_gates obey unless_stopped after_gates reserve_passed reserve
    is_beyond try_reserve violations_of reserve_items obey_budget claim_reserved start_attempt
    require_claim run_admitted execute_claimed supervise beats_on beat_once ending_of
    renew_reservation renew_for renew require_active end_supervised end_returned commit_reservation
    commit commit_items charge subtract_reserved end_outcome succeed_claimed with_token finish_with
    complete_claimed complete
program = tt

abbrev the_ticket : DispatchTicket
the_ticket = record {
  task = record waiting {
    status = running;
    attempts = 1;
    started_at = some 2;
    updated_at = 2;
    lease_expires_at = some 12;
    claim_token = some "clm_1";
  };
  schedule = chosen;
  reservation_id = some "res_1";
  attempt_id = none;
}

admits :
    admit lifecycle chosen readings queued
    ≡ (ok (ticket the_ticket), (admit lifecycle chosen readings queued).1)
unfolding program
admits = refl

-- what the run of the worker ends with
ends :
    (Option.map (λ (t : Task). t.status) (task_at done.queue "a") ≡ some succeeded)
    × (spent_at done.budgets (record { bucket = "global"; budget_class = hard; metric = cost })
        ≡ 5000)
unfolding program
ends = (refl, refl)

waiting-IsValid : IsValid waiting
unfolding program
waiting-IsValid = IsValid-validate waiting refl

clm-IsToken : IsToken "clm_1"
unfolding program
clm-IsToken = refl

done-Turns : Turns limit lifecycle nothing done
unfolding program
done-Turns =
    once_turn (others begin (queue_call no_call enqueue_waiting (waiting-IsValid, refl)))
      (some chosen) readings worker clm-IsToken worker-IsPoliteRun

admit-IsAdmitted_example :
    IsAdmitted lifecycle chosen readings queued the_ticket
      (admit lifecycle chosen readings queued).1
admit-IsAdmitted_example =
    admit-IsAdmitted lifecycle chosen readings queued the_ticket
      (admit lifecycle chosen readings queued).1 admits

Turns-Reach_example :
    queue_runs.Reach empty_store done.queue
    × (budget_runs.Reach limit empty_budgets → budget_runs.Reach limit done.budgets)
Turns-Reach_example = Turns-Reach limit lifecycle nothing done lifecycle-IsPolite done-Turns

within_bounds_example :
    ((k : BucketKey)
      → (spent_at done.budgets k + reserved_at done.budgets k ≤ limit k + tolerance)
        × (reserved_at done.budgets k ≡ total (owed k) done.budgets.reservations))
    × ((id : String) (t : Task)
        → task_at done.queue id ≡ some t
        → (t.attempts ≤ t.max_attempts)
          × (t.status ≡ running
              → (is_some t.claim_token ≡ true) × (is_some t.lease_expires_at ≡ true)))
within_bounds_example = within_bounds limit lifecycle done lifecycle-IsPolite done-Turns

abbrev admitted : Core
admitted = (admit lifecycle chosen readings queued).1

empty-IsSound : IsSound limit empty_budgets
unfolding Dict.get
empty-IsSound = (empty_budgets-IsBalanced, λ k. ground arith)

admitted-IsSound : IsSound limit admitted.budgets
admitted-IsSound =
    Calls-IsSound limit
      (admit-Calls limit lifecycle lifecycle-IsPolite chosen readings clm-IsToken queued)
      empty-IsSound

abbrev the_reservation : BudgetReservation
the_reservation = record {
  reservation_id = "res_1";
  task_id = "a";
  items = record { key = cost_check.key; amount = 5000 } ∷ [];
  created_at = 1;
  expires_at = 11;
  state = active;
}

reserved : Dict.get admitted.budgets.reservations "res_1" ≡ some the_reservation
unfolding program
reserved = refl

execute_claimed-IsOver_example :
    IsOver "res_1" (execute_claimed lifecycle the_ticket (worker waiting) admitted).1.budgets
execute_claimed-IsOver_example =
    execute_claimed-IsOver limit lifecycle the_ticket (worker waiting) admitted "res_1"
      the_reservation lifecycle-IsPolite (worker-IsPoliteRun waiting) admitted-IsSound refl reserved
