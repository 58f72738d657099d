-- ===== src/Budgets/Checks.antt =====
-- The limits that apply to a task: `_compile_checks`, `_checks_for_caps` and `_merge_checks` of
-- recon/core/budgets.py.
use night_scout.Prelude.{
  ℕ, ◌+◌, ◌-◌, ◌*◌, ◌/◌, String, Bool, true, false, not, Option, none, some, List, [], ◌∷◌, ◌++◌,
  map, keep, leb, ltb, eqb, ◌||◌, ◌==◌, if◌then◌else◌, string_eq,
}
use Prim.Native.String
use night_scout.Prelude.Dict
use night_scout.Prelude.Dict.{Dict}
use night_scout.Prelude.Sort.{sort, leb_text}
use night_scout.Prelude.Sets.{set_of}
use night_scout.Prelude.Text.{strip, lower, is_blank}
use night_scout.Prelude.Exec.{value_error, Result, ok, err, ◌>>=◌}
use night_scout.Queue.Task.{Task}
use night_scout.Budgets.Model.{
  unit, BucketKey, key_eq, metric_eq, class_rank, metric_rank, is_hard, BudgetMetric, tasks, cost,
  requests, candidates, runtime_seconds, concurrent_tasks, BudgetClass, soft, hard, BudgetLane,
  normal, BudgetCaps, BudgetProfile, BudgetDemand, BudgetContext, BudgetCheck,
}

present : List (BudgetMetric × Option ℕ) → List (BudgetMetric × ℕ)
present [] = []
present ((m, none) ∷ values) = present values
present ((m, some v) ∷ values) = (m, v) ∷ present values

-- `BudgetCaps.as_metric_limits`
unfoldable pub as_metric_limits : BudgetCaps → Dict BudgetMetric ℕ
unfolding present
as_metric_limits caps = record {
  entries = present (
      (tasks, caps.tasks_cap)
      ∷ (cost, caps.cost_cap)
      ∷ (requests, caps.requests_cap)
      ∷ (candidates, caps.candidates_cap)
      ∷ (runtime_seconds, caps.runtime_seconds_cap)
      ∷ (concurrent_tasks, caps.concurrent_tasks_cap)
      ∷ []);
}

is_demanded : BudgetMetric × ℕ → Bool
is_demanded (m, amount) = ltb 0 amount

-- `BudgetDemand.as_metric_amounts`
unfoldable pub as_metric_amounts : BudgetDemand → Dict BudgetMetric ℕ
unfolding is_demanded
as_metric_amounts demand = record {
  entries = keep is_demanded (
      (tasks, demand.tasks_amount)
      ∷ (cost, demand.cost_amount)
      ∷ (requests, demand.requests_amount)
      ∷ (candidates, demand.candidates_amount)
      ∷ (runtime_seconds, demand.runtime_seconds_amount)
      ∷ (concurrent_tasks, demand.concurrent_tasks_amount)
      ∷ []);
}

-- `BudgetContext.normalize_resource_keys`
unfoldable pub normalize_resource_keys : List String → List String
normalize_resource_keys keys =
    set_of (map (λ key. lower (strip key)) (keep (λ key. not (is_blank (strip key))) keys))

-- a product of two fixed-point numbers
abbrev pub scale : ℕ → ℕ → ℕ
scale a b = a * b / unit

-- `budget_class is BudgetClass.SOFT and context.lane is BudgetLane.NORMAL`
unfoldable pub is_reduced : BudgetClass → BudgetLane → Bool
is_reduced soft normal = true
is_reduced _ _ = false

unfoldable pub check_for :
    String → BudgetClass → BudgetContext → ℕ → ℕ → BudgetMetric → ℕ → ℕ → BudgetCheck
check_for bucket_key budget_class context reserve_fraction multiplier metric configured requested =
    let configured_limit = scale configured multiplier in
    record {
      key = record { bucket = bucket_key; budget_class = budget_class; metric = metric };
      requested = requested;
      configured_limit = configured_limit;
      effective_limit =
          if is_reduced budget_class context.lane
          then scale configured_limit (unit - reserve_fraction)
          else configured_limit;
    }

checks_of :
    (BudgetMetric → ℕ → ℕ → BudgetCheck)
    → Dict BudgetMetric ℕ
    → List (BudgetMetric × ℕ)
    → List BudgetCheck
checks_of make amounts [] = []
checks_of make amounts ((metric, configured) ∷ limits) =
    let rest = checks_of make amounts limits in
    elim (Dict.get amounts metric) [
      | none ↦ rest
      | some requested ↦ make metric configured requested ∷ rest
    ]

-- `_checks_for_caps`
unfoldable pub checks_for_caps :
    String
    → BudgetCaps
    → Dict BudgetMetric ℕ
    → BudgetClass
    → BudgetContext
    → ℕ
    → ℕ
    → List BudgetCheck
unfolding checks_of
checks_for_caps bucket_key caps amounts budget_class context reserve_fraction multiplier =
    checks_of (check_for bucket_key budget_class context reserve_fraction multiplier) amounts
      (Dict.items (as_metric_limits caps))

resource_checks : (String → List BudgetCheck) → List String → List BudgetCheck
resource_checks f [] = []
resource_checks f (key ∷ keys) = f key ++ resource_checks f keys

-- the body of the loop of `_compile_checks`, for the caps of one class
unfoldable pub class_checks :
    BudgetClass
    → BudgetCaps
    → BudgetCaps
    → BudgetCaps
    → Option BudgetCaps
    → Task
    → BudgetDemand
    → BudgetContext
    → ℕ
    → List BudgetCheck
unfolding resource_checks
class_checks budget_class global_caps branch_caps resource_caps worker_caps task demand context
      fraction =
    let amounts = as_metric_amounts demand in
    let checks = λ (bucket : String) (caps : BudgetCaps) (multiplier : ℕ).
      checks_for_caps bucket caps amounts budget_class context fraction multiplier in
    checks "global" global_caps unit
    ++ (elim worker_caps [
      | none ↦ []
      | some caps ↦ checks (String.◌++◌ "worker:" task.worker) caps unit
    ])
    ++ (elim (task.branch_id) [
      | none ↦ []
      | some branch_id ↦
          checks (String.◌++◌ "branch:" branch_id) branch_caps
            (if is_hard budget_class then unit else context.branch_soft_multiplier)
    ])
    ++ resource_checks (λ key. checks (String.◌++◌ "resource:" key) resource_caps unit)
        (sort leb_text context.resource_keys)

-- the checks of `_compile_checks` before they are merged
unfoldable pub raw_checks : BudgetProfile → Task → BudgetDemand → BudgetContext → List BudgetCheck
raw_checks p task demand context =
    class_checks hard p.hard_global_limits p.hard_branch_limits p.hard_resource_limits
      (Dict.get p.hard_worker_limits task.worker) task demand context p.exploration_reserve_fraction
    ++ class_checks soft p.soft_global_limits p.soft_branch_limits p.soft_resource_limits
        (Dict.get p.soft_worker_limits task.worker) task demand context
        p.exploration_reserve_fraction

-- one turn of the loop of `_merge_checks`
unfoldable pub merge_one :
    BudgetCheck
    → Dict BucketKey BudgetCheck
    → Option BudgetCheck
    → Result (Dict BucketKey BudgetCheck)
merge_one check merged none = ok (Dict.put merged check.key check)
merge_one check merged (some existing) =
    if not (eqb existing.configured_limit check.configured_limit)
      || not (eqb existing.effective_limit check.effective_limit)
    then err value_error
    else ok (
        Dict.put merged check.key
          (record check { requested = existing.requested + check.requested }))

unfoldable pub merge_into :
    List BudgetCheck → Dict BucketKey BudgetCheck → Result (Dict BucketKey BudgetCheck)
merge_into [] merged = ok merged
merge_into (check ∷ checks) merged =
    merge_one check merged (Dict.get merged check.key) >>= λ next. merge_into checks next

-- the order of `sorted(merged, key=…)`
unfoldable pub key_before : BucketKey → BucketKey → Bool
key_before a b =
    if a.bucket == b.bucket
    then (if eqb (class_rank a.budget_class) (class_rank b.budget_class)
        then leb (metric_rank a.metric) (metric_rank b.metric)
        else leb (class_rank a.budget_class) (class_rank b.budget_class))
    else leb_text a.bucket b.bucket

-- `_merge_checks`. The keys of `merged` are those of its checks.
unfoldable pub merge_checks : List BudgetCheck → Result (List BudgetCheck)
merge_checks checks = merge_into checks Dict.empty >>= λ merged.
    ok (sort (λ a b. key_before a.key b.key) (Dict.values merged))

-- `_compile_checks`
unfoldable pub compile_checks :
    BudgetProfile → Task → BudgetDemand → BudgetContext → Result (List BudgetCheck)
compile_checks profile task demand context = merge_checks (raw_checks profile task demand context)
