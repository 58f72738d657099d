-- ===== src/Budgets/Model.antt =====
-- The data of recon/core/budgets.py. Amounts are fixed-point numbers in units of 10^-12, so the
-- source's tolerance of 1e-9 is a thousand units; factors and fractions are counted in the same unit.
use night_scout.Prelude.{
  ℕ, String, ◌≡◌, ◌↔◌, Bool, true, false, Option, List, arith, Eq, eqb, ◌&&◌, ==_iff, ◌==◌,
  string_eq,
}
use night_scout.Prelude.Dict.{Dict}

abbrev pub unit : ℕ
unit = 1_000_000_000_000

-- 1e-9
abbrev pub tolerance : ℕ
tolerance = 1000

pub data BudgetMetric : Type 0 where
  tasks cost requests candidates runtime_seconds concurrent_tasks : BudgetMetric

pub data BudgetClass : Type 0 where
  soft hard : BudgetClass

pub data BudgetOutcome : Type 0 where
  allow defer deny : BudgetOutcome

pub data BudgetLane : Type 0 where
  normal exploration : BudgetLane

pub data ReservationState : Type 0 where
  active committed released expired : ReservationState

-- `BudgetMetric.is_capacity`
abbrev pub is_capacity : BudgetMetric → Bool
is_capacity concurrent_tasks = true
is_capacity _ = false

-- `state is ReservationState.ACTIVE`
abbrev pub is_active : ReservationState → Bool
is_active active = true
is_active _ = false

abbrev pub is_hard : BudgetClass → Bool
is_hard hard = true
is_hard soft = false

-- the places of the metrics in the order of their values, as `sorted` compares them
abbrev pub metric_rank : BudgetMetric → ℕ
metric_rank candidates = 0
metric_rank concurrent_tasks = 1
metric_rank cost = 2
metric_rank requests = 3
metric_rank runtime_seconds = 4
metric_rank tasks = 5

abbrev pub class_rank : BudgetClass → ℕ
class_rank hard = 0
class_rank soft = 1

-- the key `(bucket_key, budget_class, metric)` of a ledger
pub record BucketKey : Type 0 where
  pub bucket : String
  pub budget_class : BudgetClass
  pub metric : BudgetMetric

unfoldable pub key_beq : BucketKey → BucketKey → Bool
key_beq a b =
    a.bucket == b.bucket
    && eqb (class_rank a.budget_class) (class_rank b.budget_class)
    && eqb (metric_rank a.metric) (metric_rank b.metric)

class_rank-injective : (a b : BudgetClass) → class_rank a ≡ class_rank b → a ≡ b
class_rank-injective a b h = ground arith

metric_rank-injective : (a b : BudgetMetric) → metric_rank a ≡ metric_rank b → a ≡ b
metric_rank-injective a b h = ground arith

pub key_beq_iff : (a b : BucketKey) → (key_beq a b ≡ true) ↔ (a ≡ b)
unfolding key_beq
key_beq_iff a b = ground (
  arith,
  ==_iff a.bucket b.bucket,
  class_rank-injective a.budget_class b.budget_class,
  metric_rank-injective a.metric b.metric,
)

unfoldable pub metric_beq : BudgetMetric → BudgetMetric → Bool
metric_beq a b = eqb (metric_rank a) (metric_rank b)

pub metric_beq_iff : (a b : BudgetMetric) → (metric_beq a b ≡ true) ↔ (a ≡ b)
unfolding metric_beq
metric_beq_iff a b = ground (arith, metric_rank-injective a b)

instance abbrev pub metric_eq : Eq BudgetMetric
metric_eq = record { beq = metric_beq; beq_iff = metric_beq_iff }

instance abbrev pub key_eq : Eq BucketKey
key_eq = record { beq = key_beq; beq_iff = key_beq_iff }

pub record BudgetCaps : Type 0 where
  pub tasks_cap : Option ℕ
  pub cost_cap : Option ℕ
  pub requests_cap : Option ℕ
  pub candidates_cap : Option ℕ
  pub runtime_seconds_cap : Option ℕ
  pub concurrent_tasks_cap : Option ℕ

pub record BudgetProfile : Type 0 where
  pub soft_global_limits : BudgetCaps
  pub soft_branch_limits : BudgetCaps
  pub soft_resource_limits : BudgetCaps
  pub soft_worker_limits : Dict String BudgetCaps
  pub hard_global_limits : BudgetCaps
  pub hard_branch_limits : BudgetCaps
  pub hard_resource_limits : BudgetCaps
  pub hard_worker_limits : Dict String BudgetCaps
  pub soft_max_branch_depth : Option ℕ
  pub hard_max_branch_depth : Option ℕ
  pub exploration_reserve_fraction : ℕ

pub record BudgetDemand : Type 0 where
  pub tasks_amount : ℕ
  pub cost_amount : ℕ
  pub requests_amount : ℕ
  pub candidates_amount : ℕ
  pub runtime_seconds_amount : ℕ
  pub concurrent_tasks_amount : ℕ

pub record BudgetContext : Type 0 where
  pub branch_depth : ℕ
  pub resource_keys : List String
  pub lane : BudgetLane
  pub branch_soft_multiplier : ℕ

pub record BudgetCheck : Type 0 where
  pub key : BucketKey
  pub requested : ℕ
  pub configured_limit : ℕ
  pub effective_limit : ℕ

pub record BudgetReservationItem : Type 0 where
  pub key : BucketKey
  pub amount : ℕ

pub record BudgetReservation : Type 0 where
  pub reservation_id : String
  pub task_id : String
  pub items : List BudgetReservationItem
  pub created_at : ℕ
  pub expires_at : ℕ
  pub state : ReservationState

pub record BudgetViolation : Type 0 where
  pub key : BucketKey
  pub committed : ℕ
  pub reserved : ℕ
  pub requested : ℕ
  pub configured_limit : ℕ
  pub effective_limit : ℕ

pub record BudgetUsage : Type 0 where
  pub key : BucketKey
  pub committed : ℕ
  pub reserved : ℕ

pub record BudgetDecision : Type 0 where
  pub outcome : BudgetOutcome
  pub task_id : String
  pub reservation : Option BudgetReservation
  pub violations : List BudgetViolation
  pub checked_limits : List BudgetCheck
  pub reason : Option String
  pub retry_after_seconds : Option ℕ
