-- ===== src/Rates/Limiter.antt =====
-- `RateLimiter` (recon/policy/rate_limit.py) over the in-memory store. The clock and a new lease's id
-- are arguments; the profile is passed to the operations that read it.
use night_scout.Prelude.{
  ℕ, String, Bool, Option, none, some, List, [], ◌∷◌, ◌++◌, any, ltb, ◌&&◌, ◌||◌, ◌==◌,
  if◌then◌else◌, string_eq,
}
use Prim.Native.String
use night_scout.Prelude.Int.{ℤ, is_nonpositive, shift}
use night_scout.Prelude.Dict
use night_scout.Prelude.Dict.{Dict}
use night_scout.Prelude.Sort.{sort, leb_text}
use night_scout.Prelude.Exec.{value_error, ok, err, Exec}
use night_scout.Queue.Task.{Task}
use night_scout.Rates.Model.{
  RateLimitScope, global, per_resource, RateLimitRule, RateLimitProfile, RateLimitContext,
  RateLimitDemand, RateKey, key_eq, RateBucketCheck, RateLimitDecision, RateLimitLease, allow, deny,
  matches_worker, matches_resource,
}
use night_scout.Rates.Buckets.{RateStore}
use night_scout.Rates.Store.{bare_decision, try_acquire, renew, reap_expired}

-- a rule, and the resource it matches; None for a GLOBAL rule
pub record Match : Type 0 where
  pub rule : RateLimitRule
  pub resource_key : Option String

unfoldable pub match_resources : RateLimitRule → List String → List Match
match_resources rule [] = []
match_resources rule (key ∷ keys) =
    let rest = match_resources rule keys in
    if matches_resource rule key
    then record { rule = rule; resource_key = some key } ∷ rest
    else rest

-- A GLOBAL rule applies to resources that it matches, and to none if its pattern is `*`.
unfoldable pub applies_globally : RateLimitRule → List String → Bool
applies_globally rule [] = rule.resource_pattern == "*"
applies_globally rule (key ∷ keys) = any (matches_resource rule) (key ∷ keys)

unfoldable pub match_scope : RateLimitScope → RateLimitRule → List String → List Match
unfolding match_resources applies_globally
match_scope global rule keys =
    if applies_globally rule keys then record { rule = rule; resource_key = none } ∷ [] else []
match_scope per_resource rule keys = match_resources rule (sort leb_text keys)

-- one round of the loop of `_matching_rule_resources`
unfoldable pub match_rule : String → List String → RateLimitRule → List Match
unfolding match_scope
match_rule worker keys rule =
    if matches_worker rule worker then match_scope rule.scope rule keys else []

unfoldable pub match_rules : String → List String → List RateLimitRule → List Match
match_rules worker keys [] = []
match_rules worker keys (rule ∷ rules) =
    match_rule worker keys rule ++ match_rules worker keys rules

-- `_matching_rule_resources`
unfoldable pub matching_rule_resources : RateLimitProfile → Task → RateLimitContext → List Match
matching_rule_resources profile task context =
    match_rules task.worker context.resource_keys profile.rules

-- `f"resource:{resource_key}"`; a resource that is None prints as `None`
bucket_name : RateLimitScope → Option String → String
bucket_name global key = "global"
bucket_name per_resource none = "resource:None"
bucket_name per_resource (some key) = String.◌++◌ "resource:" key

unfoldable pub check_of : RateLimitDemand → Match → RateBucketCheck
unfolding bucket_name
check_of demand m = record {
  key = record { rule_id = m.rule.rule_id; bucket_key = bucket_name m.rule.scope m.resource_key };
  requests = demand.requests;
  concurrency = demand.concurrency;
  requests_per_second = m.rule.requests_per_second;
  burst = m.rule.burst;
  max_concurrency = m.rule.max_concurrency;
}

-- the loop of `_compile_checks`: the first check of a key stays
unfoldable pub collect_checks :
    RateLimitDemand → List Match → Dict RateKey RateBucketCheck → Dict RateKey RateBucketCheck
collect_checks demand [] checks = checks
collect_checks demand (m ∷ matches) checks =
    let c = check_of demand m in
    collect_checks demand matches
      (if Dict.contains checks c.key then checks else Dict.put checks c.key c)

-- the order of `sorted(checks)`
unfoldable pub key_before : RateKey → RateKey → Bool
key_before a b =
    if a.rule_id == b.rule_id
    then leb_text a.bucket_key b.bucket_key
    else leb_text a.rule_id b.rule_id

-- `_compile_checks`. The keys of the dictionary are those of its checks.
unfoldable pub compile_checks : List Match → RateLimitDemand → List RateBucketCheck
compile_checks matches demand =
    sort (λ a b. key_before a.key b.key) (Dict.values (collect_checks demand matches Dict.empty))

unfoldable pub acquire_matches :
    RateLimitProfile
    → Task
    → RateLimitDemand
    → ℤ
    → String
    → ℕ
    → List Match
    → Exec RateStore RateLimitDecision
acquire_matches profile task demand lease_for id now [] s =
    if profile.require_matching_rule && (ltb 0 demand.requests || ltb 0 demand.concurrency)
    then (
      ok (record (bare_decision deny task.task_id) {
        reason = some "network request demand has no matching rate-limit rule; fail closed";
      }),
      s,
    )
    else (
      ok (record (bare_decision allow task.task_id) {
        reason = some "no matching rate-limit rule required";
      }),
      s,
    )
acquire_matches profile task demand lease_for id now (m ∷ matches) s =
    try_acquire task.task_id (compile_checks (m ∷ matches) demand) lease_for id now s

-- `RateLimiter.acquire`
unfoldable pub acquire :
    RateLimitProfile
    → Task
    → RateLimitContext
    → RateLimitDemand
    → ℤ
    → String
    → ℕ
    → Exec RateStore RateLimitDecision
unfolding acquire_matches
acquire profile task context demand lease_for id now s =
    if is_nonpositive lease_for
    then (err value_error, s)
    else acquire_matches profile task demand lease_for id now
        (matching_rule_resources profile task context) s

-- `RateLimiter.renew` and `RateLimiter.reap_expired`; `release` and `bucket_state` are the store's.
unfoldable pub renew_for : String → ℤ → ℕ → Exec RateStore RateLimitLease
renew_for id lease_for now s =
    if is_nonpositive lease_for then (err value_error, s) else renew id (shift now lease_for) now s

unfoldable pub reap_now : ℕ → Exec RateStore (List RateLimitLease)
reap_now now = reap_expired now
