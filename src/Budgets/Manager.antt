-- ===== src/Budgets/Manager.antt =====
-- `BudgetManager` (recon/core/budgets.py) over the in-memory store. The clock and the new
-- reservation's id are arguments; `record`s stand for the profile and the retry delay.
use night_scout.Prelude.{
  ℕ, String, Bool, true, false, not, Option, none, some, List, [], ◌∷◌, map, keep, any, ltb,
  if◌then◌else◌,
}
use night_scout.Prelude.Int.{ℤ, is_nonpositive, shift}
use night_scout.Prelude.Exec.{value_error, ok, err, Exec, after, check}
use night_scout.Queue.Task.{Task}
use night_scout.Budgets.Model.{
  BudgetProfile, BudgetDemand, BudgetContext, BudgetCheck, BudgetReservationItem, BudgetReservation,
  active, BudgetViolation, BudgetOutcome, allow, defer, deny, BudgetDecision, is_capacity, is_hard,
}
use night_scout.Budgets.Checks.{compile_checks}
use night_scout.Budgets.Store.{BudgetStore, try_reserve, renew, reap_expired}

pub record BudgetManager : Type 0 where
  pub profile : BudgetProfile
  pub capacity_retry_after : ℕ

-- `limit is not None and depth > limit`
unfoldable pub is_beyond : ℕ → Option ℕ → Bool
is_beyond depth none = false
is_beyond depth (some limit) = ltb limit depth

abbrev pub bare_decision : BudgetOutcome → String → String → BudgetDecision
bare_decision outcome task_id reason = record {
  outcome = outcome;
  task_id = task_id;
  reservation = none;
  violations = [];
  checked_limits = [];
  reason = some reason;
  retry_after_seconds = none;
}

abbrev pub item_of : BudgetCheck → BudgetReservationItem
item_of check = record { key = check.key; amount = check.requested }

abbrev pub new_reservation : String → String → List BudgetCheck → ℤ → ℕ → BudgetReservation
new_reservation id task_id checks lease_for now = record {
  reservation_id = id;
  task_id = task_id;
  items = map item_of checks;
  created_at = now;
  expires_at = shift now lease_for;
  state = active;
}

-- the violations whose metric is no capacity
abbrev pub permanent : List BudgetViolation → List BudgetViolation
permanent = keep (λ v. not (is_capacity v.key.metric))

abbrev pub has_hard : List BudgetViolation → Bool
has_hard = any (λ v. is_hard v.key.budget_class)

refuse_with :
    List BudgetViolation → ℕ → String → List BudgetViolation → List BudgetCheck → BudgetDecision
refuse_with (v ∷ lasting) retry_after task_id violations checks =
    record (bare_decision deny task_id (
      if has_hard (v ∷ lasting)
      then "hard cumulative budget limit would be exceeded"
      else "soft exploration budget exhausted; close frontier task")) {
        violations = violations;
        checked_limits = checks;
      }
refuse_with [] retry_after task_id violations checks =
    record (bare_decision defer task_id (
      if has_hard violations
      then "hard execution capacity exhausted; preserve task in frontier"
      else "soft execution capacity exhausted; preserve task until capacity is released")) {
        violations = violations;
        checked_limits = checks;
        retry_after_seconds = some retry_after;
      }

-- the decision of `reserve` on violations
unfoldable pub refuse : ℕ → String → List BudgetViolation → List BudgetCheck → BudgetDecision
unfolding refuse_with
refuse retry_after task_id violations checks =
    refuse_with (permanent violations) retry_after task_id violations checks

unfoldable pub decide :
    ℕ → BudgetReservation → List BudgetCheck → Bool × List BudgetViolation → BudgetDecision
decide retry_after r checks (true, violations) = record {
  outcome = allow;
  task_id = r.task_id;
  reservation = some r;
  violations = [];
  checked_limits = checks;
  reason = none;
  retry_after_seconds = none;
}
decide retry_after r checks (false, violations) = refuse retry_after r.task_id violations checks

unfoldable pub reserve_checks :
    ℕ → Task → ℤ → String → ℕ → List BudgetCheck → Exec BudgetStore BudgetDecision
unfolding decide
reserve_checks retry_after task lease_for id now [] s =
    (ok (bare_decision allow task.task_id "no matching budget limits"), s)
reserve_checks retry_after task lease_for id now (c ∷ checks) s =
    let r = new_reservation id task.task_id (c ∷ checks) lease_for now in
    after (try_reserve r (c ∷ checks) s)
      λ answer t. (ok (decide retry_after r (c ∷ checks) answer), t)

-- `BudgetManager.reserve`
unfoldable pub reserve :
    BudgetManager
    → Task
    → BudgetDemand
    → BudgetContext
    → ℤ
    → String
    → ℕ
    → Exec BudgetStore BudgetDecision
unfolding reserve_checks
reserve m task demand context lease_for id now s =
    if is_nonpositive lease_for
    then (err value_error, s)
    else if is_beyond context.branch_depth m.profile.hard_max_branch_depth
    then (ok (bare_decision deny task.task_id "branch depth exceeds hard maximum"), s)
    else if is_beyond context.branch_depth m.profile.soft_max_branch_depth
    then (
      ok (bare_decision deny task.task_id "soft exploration depth exhausted; close frontier task"),
      s,
    )
    else check (compile_checks m.profile task demand context)
        (reserve_checks m.capacity_retry_after task lease_for id now) s

-- `BudgetManager.renew` and `BudgetManager.reap_expired`; `commit`, `release` and `usage` are the
-- store's.
unfoldable pub renew_for : String → ℤ → ℕ → Exec BudgetStore BudgetReservation
renew_for id lease_for now s =
    if is_nonpositive lease_for then (err value_error, s) else renew id (shift now lease_for) now s

unfoldable pub reap_now : ℕ → Exec BudgetStore (List BudgetReservation)
reap_now now = reap_expired now
