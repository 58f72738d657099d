-- ===== src/Rates/Plan.antt =====
-- `RateLimiter.plan` and `tool_integer_rps_hint` (recon/policy/rate_limit.py).
use night_scout.Prelude.{
  ℕ, ◌/◌, min, String, true, false, Option, none, some, List, [], ◌∷◌, map, leb, if◌then◌else◌,
  string_eq,
}
use night_scout.Prelude.Dict
use night_scout.Prelude.Dict.{Dict}
use night_scout.Prelude.Sort.{sort, leb_text}
use night_scout.Queue.Task.{Task}
use night_scout.Rates.Model.{
  RateLimitRule, RateLimitProfile, RateLimitContext, RateLimitPlan, key_eq,
}
use night_scout.Rates.Limiter.{Match, matching_rule_resources}

-- `min(values)`, None for no values
unfoldable pub least : List ℕ → Option ℕ
least [] = none
least (n ∷ ns) = elim (least ns) [ none ↦ some n | some m ↦ some (min n m) ]

-- `matched_rules`: the rules by their ids
unfoldable pub matched_rules : List Match → Dict String RateLimitRule → Dict String RateLimitRule
matched_rules [] rules = rules
matched_rules (m ∷ matches) rules = matched_rules matches (Dict.put rules m.rule.rule_id m.rule)

unfoldable pub rates_of : List RateLimitRule → List ℕ
rates_of [] = []
rates_of (r ∷ rules) =
    let rest = rates_of rules in
    elim (r.requests_per_second) [ none ↦ rest | some rate ↦ rate ∷ rest ]

unfoldable pub bounds_of : List RateLimitRule → List ℕ
bounds_of [] = []
bounds_of (r ∷ rules) =
    let rest = bounds_of rules in
    elim (r.max_concurrency) [ none ↦ rest | some bound ↦ bound ∷ rest ]

-- the rate that each of the rule's consumers may assume
unfoldable pub share : ℕ → Option ℕ → ℕ
share rate none = rate
share rate (some bound) = rate / bound

unfoldable pub shares_of : List RateLimitRule → List ℕ
shares_of [] = []
shares_of (r ∷ rules) =
    let rest = shares_of rules in
    elim (r.requests_per_second) [ none ↦ rest | some rate ↦ share rate r.max_concurrency ∷ rest ]

unfoldable pub plan_of : String → List String → List Match → RateLimitPlan
plan_of task_id keys [] = record {
  task_id = task_id;
  resource_keys = sort leb_text keys;
  matched_rule_ids = [];
  aggregate_rps_ceiling = none;
  safe_rps_hint = none;
  max_concurrency_hint = none;
  matched = false;
}
plan_of task_id keys (m ∷ matches) =
    let rules = Dict.values (matched_rules (m ∷ matches) Dict.empty) in
    record {
      task_id = task_id;
      resource_keys = sort leb_text keys;
      matched_rule_ids = sort leb_text (map (λ r. r.rule_id) rules);
      aggregate_rps_ceiling = least (rates_of rules);
      safe_rps_hint = least (shares_of rules);
      max_concurrency_hint = least (bounds_of rules);
      matched = true;
    }

-- `RateLimiter.plan`
unfoldable pub plan : RateLimitProfile → Task → RateLimitContext → RateLimitPlan
unfolding plan_of
plan profile task context =
    plan_of task.task_id context.resource_keys (matching_rule_resources profile task context)

-- `tool_integer_rps_hint`: the floor, unless it is below one
unfoldable pub tool_integer_rps_hint : RateLimitPlan → Option ℕ
tool_integer_rps_hint p = elim (p.safe_rps_hint) [
  | none ↦ none
  | some rps ↦ let floored = rps / 1_000_000_000_000 in if leb 1 floored then some floored else none
]
