-- ===== src/Rates/Model.antt =====
-- The data of recon/policy/rate_limit.py. Amounts of requests, rates and seconds are fixed-point
-- numbers in units of 10^-12, so the source's tolerance of 1e-9 is a thousand units; moments are
-- microseconds.
use night_scout.Prelude.{
  ℕ, String, ◌≡◌, ◌↔◌, Bool, true, false, not, Option, none, some, List, [], ◌∷◌, map, keep, arith,
  Eq, eqb, ◌&&◌, ==_iff, ◌==◌, if◌then◌else◌, string_eq,
}
use night_scout.Prelude.Int.{ℤ}
use night_scout.Prelude.Exec.{Result, ok, err, value_error, ◌>>=◌}
use night_scout.Prelude.Text.{strip, strip_or_none, lower, is_blank}
use night_scout.Prelude.Sets.{member, set_of}
use night_scout.Prelude.Glob.{glob_match}

-- 1e-9
abbrev pub tolerance : ℕ
tolerance = 1000

-- a microsecond, in the unit of the seconds
abbrev pub microsecond : ℕ
microsecond = 1_000_000

-- 0.001 seconds
abbrev pub least_wait : ℕ
least_wait = 1_000_000_000

pub data RateLimitScope : Type 0 where
  global per_resource : RateLimitScope

pub data RateLimitOutcome : Type 0 where
  allow defer deny : RateLimitOutcome

pub data RateLeaseState : Type 0 where
  active released expired : RateLeaseState

-- `state is RateLeaseState.ACTIVE`
abbrev pub is_active : RateLeaseState → Bool
is_active active = true
is_active _ = false

pub record RateLimitRule : Type 0 where
  pub rule_id : String
  pub scope : RateLimitScope
  pub resource_pattern : String
  pub requests_per_second : Option ℕ
  pub burst : Option ℕ
  pub max_concurrency : Option ℕ
  pub workers : List String
  pub reason : Option String

-- `RateLimitRule.normalize_required_text`
unfoldable pub normalize_required_text : String → Result String
normalize_required_text value =
    let normalized = strip value in if is_blank normalized then err value_error else ok normalized

-- `RateLimitRule.normalize_workers`
unfoldable pub normalize_workers : List String → List String
normalize_workers value = set_of (map strip (keep (λ worker. not (is_blank (strip worker))) value))

-- `RateLimitRule.normalize_reason`
unfoldable pub normalize_reason : Option String → Option String
normalize_reason none = none
normalize_reason (some value) = strip_or_none value

-- `RateLimitRule.validate_rule`
unfoldable pub validate_rule : RateLimitRule → Result RateLimitRule
validate_rule rule = elim (rule.requests_per_second) [
  | none ↦ elim (rule.max_concurrency) [
    | none ↦ err value_error
    | some bound ↦ elim (rule.burst) [ none ↦ ok rule | some b ↦ err value_error ]
  ]
  | some rate ↦ elim (rule.burst) [
    | none ↦ ok (record rule { burst = some rate })
    | some b ↦ ok rule
  ]
]

-- a positive number or None, as `Field(gt=0.0)` and `Field(ge=1)` demand
unfoldable pub positive_or_none : Option ℕ → Result (Option ℕ)
positive_or_none none = ok none
positive_or_none (some n) = if eqb n 0 then err value_error else ok (some n)

-- `RateLimitRule(…)`: the fields first, then the rule
unfoldable pub make_rule : RateLimitRule → Result RateLimitRule
make_rule rule = normalize_required_text rule.rule_id >>= λ id.
    normalize_required_text rule.resource_pattern >>= λ pattern.
    positive_or_none rule.requests_per_second >>= λ rate. positive_or_none rule.burst >>= λ burst.
    positive_or_none rule.max_concurrency >>= λ bound. validate_rule (record rule {
      rule_id = id;
      resource_pattern = pattern;
      requests_per_second = rate;
      burst = burst;
      max_concurrency = bound;
      workers = normalize_workers rule.workers;
      reason = normalize_reason rule.reason;
    })

-- `RateLimitRule.matches_worker`
unfoldable pub matches_worker : RateLimitRule → String → Bool
matches_worker rule worker = elim (rule.workers) [ [] ↦ true | w ∷ ws ↦ member worker (w ∷ ws) ]

-- `RateLimitRule.matches_resource`
unfoldable pub matches_resource : RateLimitRule → String → Bool
matches_resource rule resource_key = glob_match resource_key (lower rule.resource_pattern)

pub record RateLimitProfile : Type 0 where
  pub rules : List RateLimitRule
  pub require_matching_rule : Bool
  pub default_retry_after_seconds : ℕ

unfoldable pub no_duplicates : List String → List RateLimitRule → Result (Unit {0})
no_duplicates seen [] = ok tt
no_duplicates seen (rule ∷ rules) =
    let rest = no_duplicates (rule.rule_id ∷ seen) rules in
    if member rule.rule_id seen then err value_error else rest

-- `RateLimitProfile.validate_unique_rule_ids`
unfoldable pub validate_unique_rule_ids : RateLimitProfile → Result RateLimitProfile
unfolding no_duplicates
validate_unique_rule_ids profile = no_duplicates [] profile.rules >>= λ _. ok profile

pub record RateLimitContext : Type 0 where
  pub resource_keys : List String

-- `RateLimitContext.normalize_resource_keys`
unfoldable pub normalize_resource_keys : List String → List String
normalize_resource_keys keys =
    set_of (map (λ key. lower (strip key)) (keep (λ key. not (is_blank (strip key))) keys))

pub record RateLimitDemand : Type 0 where
  pub requests : ℕ
  pub concurrency : ℕ

-- `RateLimitDemand.require_some_demand`
unfoldable pub require_some_demand : RateLimitDemand → Result RateLimitDemand
require_some_demand demand =
    if eqb demand.requests 0 && eqb demand.concurrency 0 then err value_error else ok demand

pub record RateLimitPlan : Type 0 where
  pub task_id : String
  pub resource_keys : List String
  pub matched_rule_ids : List String
  pub aggregate_rps_ceiling : Option ℕ
  pub safe_rps_hint : Option ℕ
  pub max_concurrency_hint : Option ℕ
  pub matched : Bool

-- the key `(rule_id, bucket_key)` of a bucket
pub record RateKey : Type 0 where
  pub rule_id : String
  pub bucket_key : String

unfoldable pub key_beq : RateKey → RateKey → Bool
key_beq a b = a.rule_id == b.rule_id && a.bucket_key == b.bucket_key

pub key_beq_iff : (a b : RateKey) → (key_beq a b ≡ true) ↔ (a ≡ b)
unfolding key_beq
key_beq_iff a b = ground (arith, ==_iff a.rule_id b.rule_id, ==_iff a.bucket_key b.bucket_key)

instance abbrev pub key_eq : Eq RateKey
key_eq = record { beq = key_beq; beq_iff = key_beq_iff }

pub record RateBucketCheck : Type 0 where
  pub key : RateKey
  pub requests : ℕ
  pub concurrency : ℕ
  pub requests_per_second : Option ℕ
  pub burst : Option ℕ
  pub max_concurrency : Option ℕ

pub record RateLimitViolation : Type 0 where
  pub key : RateKey
  pub kind : String
  pub reason : String
  pub retry_after_seconds : ℕ

pub record RateLeaseItem : Type 0 where
  pub key : RateKey
  pub concurrency : ℕ

pub record RateLimitLease : Type 0 where
  pub lease_id : String
  pub task_id : String
  pub items : List RateLeaseItem
  pub created_at : ℕ
  pub expires_at : ℕ
  pub state : RateLeaseState

pub record RateLimitDecision : Type 0 where
  pub outcome : RateLimitOutcome
  pub task_id : String
  pub lease : Option RateLimitLease
  pub violations : List RateLimitViolation
  pub checked_buckets : List RateBucketCheck
  pub reason : Option String
  pub retry_after_seconds : Option ℕ

-- The tokens may fall below zero by what the tolerance forgives.
pub record RateBucketState : Type 0 where
  pub key : RateKey
  pub tokens : ℤ
  pub last_refill_at : ℕ
  pub active_concurrency : ℕ
