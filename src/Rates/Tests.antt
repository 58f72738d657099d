-- ===== src/Rates/Tests.antt =====
-- Runs of the rate limiter (recon/policy/rate_limit.py) on small inputs, and its theorems at such inputs.
use mathlib.Core.Option
use night_scout.Prelude.{
  ℕ, ◌+◌, ◌-◌, ◌*◌, ◌≤◌, String, ◌≡◌, refl, true, false, none, some, List, [], ◌∷◌, arith, All,
  string_eq,
}
use night_scout.Prelude.Int.{pos, pos_part, neg_part}
use night_scout.Prelude.Dict
use night_scout.Prelude.Text
use night_scout.Prelude.Sets
use night_scout.Prelude.Sort
use night_scout.Prelude.Int
use night_scout.Rates.Buckets
use night_scout.Rates.Store
use night_scout.Rates.Limiter
use night_scout.Rates.Model
use night_scout.Rates.Plan
use night_scout.Prelude.Dict.{get-empty}
use night_scout.Prelude.Glob.{glob_match}
use night_scout.Prelude.Exec.{Result, ok, err, value_error}
use night_scout.Prelude.Dict.Totals.{total}
use night_scout.Queue.Task.{Task, pending}
use night_scout.Rates.Model.{
  tolerance, RateKey, key_eq, RateLimitRule, RateLimitProfile, RateLimitContext, RateLimitDemand,
  RateBucketCheck, RateLimitLease, RateLimitDecision, global, per_resource, active, released,
  is_active, make_rule, validate_rule, normalize_required_text, normalize_workers, normalize_reason,
  positive_or_none, defer, allow,
}
use night_scout.Rates.Buckets.{Bucket, RateStore, active_at, token_retry, refilled, seconds_for}
use night_scout.Rates.Store.{
  lease_items, lease_of, try_acquire, release, reap_expired, bucket_state,
}
use night_scout.Rates.Limiter.{matching_rule_resources, acquire}
use night_scout.Rates.Plan.{plan, tool_integer_rps_hint}
use night_scout.Rates.Ledger.{item_sum, owed, IsBalanced, timing, release-item_sum}
use night_scout.Rates.Acquiring.{IsPaced}
use night_scout.Rates.Granting.{AllOrNothing, try_acquire_lem}
use night_scout.Rates.Rules.{IsValidRule, make_rule-IsValidRule}
use night_scout.Rates.Sound.{IsSound}
use night_scout.Rates.Reaping.{reaped, reap_expired-reaped}
use night_scout.Rates.Profile.{IsValidProfile, slots_limit, burst_limit, rule_with}
use night_scout.Rates.Runs.{
  Command, acquire_call, release_call, run, start, call, no_usage, never_over_limit, Reach-IsSound,
}
use night_scout.Rates.Guarantee.{granted_by, moment, opens, goes_on, never_too_fast}
use night_scout.Rates.Waiting.{later, token_wait_suffices}
use night_scout.Rates.Shares.{FitsRule, plan_lem}
use night_scout.Rates.Await.{Wake, await_acquire, await_acquire_returns}

-- `glob_match` on texts with and without classes
globs :
    (glob_match "host:api.example.com" "host:*.example.com" ≡ true)
    × (glob_match "ip:203.0.113.7" "ip:203.0.113.[!0-68]" ≡ true)
    × (glob_match "a[b" "a[b" ≡ true)
    × (glob_match "host:a" "host:a?" ≡ false)
unfolding glob_match
globs = (refl, refl, refl, refl)

-- two requests in a second, at most one at a time, for each host
abbrev raw_rule : RateLimitRule
raw_rule = record {
  rule_id = " hosts ";
  scope = per_resource;
  resource_pattern = "host:*";
  requests_per_second = some 2_000_000_000_000;
  burst = none;
  max_concurrency = some 2;
  workers = [];
  reason = none;
}

abbrev hosts : RateLimitRule
hosts = record raw_rule { rule_id = "hosts"; burst = some 2_000_000_000_000 }

made : make_rule raw_rule ≡ ok hosts
unfolding make_rule normalize_required_text normalize_workers normalize_reason positive_or_none
    validate_rule Text.strip Sets.set_of
made = refl

make_rule-IsValidRule_example : IsValidRule hosts
make_rule-IsValidRule_example = make_rule-IsValidRule raw_rule hosts made

abbrev host_profile : RateLimitProfile
host_profile = record {
  rules = hosts ∷ [];
  require_matching_rule = true;
  default_retry_after_seconds = 1_000_000_000_000;
}

host_profile-IsValidProfile : IsValidProfile host_profile
host_profile-IsValidProfile = record {
  unique = (refl, tt);
  valid = (make_rule-IsValidRule raw_rule hosts made, tt);
}

abbrev scan : Task
scan = record {
  task_id = "tsk_1";
  worker = "httpx";
  action = "probe";
  input_event_id = "evt_1";
  input_identity_key = none;
  branch_id = none;
  route_rule_id = none;
  routing_reason = none;
  status = pending;
  priority = pos 0;
  attempts = 0;
  max_attempts = 3;
  created_at = 0;
  updated_at = 0;
  available_at = 0;
  started_at = none;
  finished_at = none;
  lease_expires_at = none;
  claim_token = none;
  last_error = none;
  search_tier = none;
  candidate_limit_hint = none;
}

abbrev one_host : RateLimitContext
one_host = record { resource_keys = "host:a" ∷ [] }

abbrev one_request : RateLimitDemand
one_request = record { requests = 1_000_000_000_000; concurrency = 1 }

abbrev host_key : RateKey
host_key = record { rule_id = "hosts"; bucket_key = "resource:host:a" }

-- an acquisition at a moment
abbrev acquires : String → ℕ → Command host_profile
acquires id now = acquire_call scan one_host one_request (pos 5) id now

abbrev first : RateStore
first = run host_profile (acquires "rtl_1" 10) no_usage

acquired_twice :
    (active_at first host_key ≡ 1)
    × (active_at (run host_profile (acquires "rtl_2" 11) first) host_key ≡ 2)
    × (active_at (run host_profile (release_call "rtl_1") first) host_key ≡ 0)
unfolding run acquire matching_rule_resources Limiter.match_rules Limiter.match_rule
    Model.matches_worker Sort.sort Model.matches_resource glob_match Text.lower try_acquire
    Buckets.examine_all Limiter.compile_checks Limiter.collect_checks Dict.get Dict.values Dict.put
    Dict.items Int.min_ℤ Int.◌+ℤ◌ Int.◌-ℤ◌ Buckets.add_violation Buckets.concurrency_retry
    Buckets.current_bucket Buckets.current_or_new Buckets.examine Buckets.go_on Buckets.judge
    Buckets.refill refilled seconds_for Buckets.taken token_retry Limiter.acquire_matches
    Limiter.check_of Limiter.key_before Limiter.match_resources Limiter.match_scope Model.key_beq
    Store.active_or_raise Store.add_lease lease_items lease_of Store.new_lease release
    Store.release_item Store.release_lease_items Store.require_active_lease Store.settle
    Store.write_buckets
acquired_twice = (refl, refl, refl)

never_over_limit_example :
    (active_at first host_key ≤ slots_limit host_profile host_key)
    × (active_at first host_key ≡ total (owed host_key) first.leases)
    × ((b : Bucket)
        → Dict.get first.buckets host_key ≡ some b
        → (pos_part b.tokens ≤ burst_limit host_profile host_key) × (neg_part b.tokens ≤ tolerance))
never_over_limit_example =
    never_over_limit host_profile host_profile-IsValidProfile first
      (call start (acquires "rtl_1" 10) (get-empty "rtl_1")) host_key

moments : (5 ≤ moment (acquires "rtl_1" 10) 5) × (10 ≤ moment (acquires "rtl_2" 30) 10)
unfolding moment
moments = (omega arith, omega arith)

second_fresh : Dict.get first.leases "rtl_2" ≡ none
unfolding run acquire matching_rule_resources Limiter.match_rules Limiter.match_rule
    Model.matches_worker Sort.sort Model.matches_resource glob_match Text.lower try_acquire
    Buckets.examine_all Limiter.compile_checks Limiter.collect_checks Dict.get Dict.values Dict.put
    Dict.items Int.min_ℤ Int.◌+ℤ◌ Int.◌-ℤ◌ Buckets.add_violation Buckets.concurrency_retry
    Buckets.current_bucket Buckets.current_or_new Buckets.examine Buckets.go_on Buckets.judge
    Buckets.refill refilled seconds_for Buckets.taken token_retry Limiter.acquire_matches
    Limiter.check_of Limiter.key_before Limiter.match_resources Limiter.match_scope Model.key_beq
    Store.add_lease lease_items lease_of Store.new_lease Store.settle Store.write_buckets
second_fresh = refl

never_too_fast_example :
    (0
        + granted_by host_profile host_key (acquires "rtl_1" 10) no_usage
        + granted_by host_profile host_key (acquires "rtl_2" 30) first)
      * 1_000_000
    ≤ (2_000_000_000_000 + tolerance) * 1_000_000 + (30 - 5) * 2_000_000_000_000
unfolding moment
never_too_fast_example =
    never_too_fast host_profile host_key hosts 2_000_000_000_000 2_000_000_000_000 5 no_usage
      (run host_profile (acquires "rtl_2" 30) first) 30
      (λ k.
        0
        + granted_by host_profile k (acquires "rtl_1" 10) no_usage
        + granted_by host_profile k (acquires "rtl_2" 30) first)
      host_profile-IsValidProfile (unfold rule_with in refl) refl refl start
      (goes_on (goes_on opens (acquires "rtl_1" 10) (get-empty "rtl_1") moments.0)
        (acquires "rtl_2" 30) second_fresh moments.1)

-- one check of one request and one slot
abbrev host_check : RateBucketCheck
host_check = record {
  key = host_key;
  requests = 1_000_000_000_000;
  concurrency = 1;
  requests_per_second = some 2_000_000_000_000;
  burst = some 2_000_000_000_000;
  max_concurrency = some 2;
}

host_check-IsPaced : IsPaced host_check
host_check-IsPaced rate is = ground (arith, is)

try_acquire_lem_example :
    AllOrNothing no_usage 10
      (host_check ∷ [])
      (lease_of "rtl_1" "tsk_1" (lease_items (host_check ∷ [])) (pos 5) 10)
      (try_acquire "tsk_1" (host_check ∷ []) (pos 5) "rtl_1" 10 no_usage)
try_acquire_lem_example =
    try_acquire_lem no_usage "tsk_1" (host_check ∷ []) (pos 5) "rtl_1" 10 (host_check-IsPaced, tt)
      (refl, tt)

-- a bucket that has half a request left
abbrev low : Bucket
low = record { tokens = pos 500_000_000_000; last_refill_at = 10; active_concurrency = 0 }

low_asks : token_retry low host_check ≡ ok 250_000_000_000
unfolding token_retry seconds_for Int.◌+ℤ◌
low_asks = refl

token_wait_suffices_example :
    token_retry
      (later low host_check 2_000_000_000_000 2_000_000_000_000 250_000 250_000_000_000
        (omega arith)
        refl
        refl
        low_asks
        (omega arith))
      host_check
    ≡ ok 0
token_wait_suffices_example =
    token_wait_suffices low host_check 2_000_000_000_000 2_000_000_000_000 250_000 250_000_000_000
      (omega arith) refl refl low_asks (omega arith)

-- Two processes at the rate of the plan stay within the rule's rate.
host_plan :
    ((plan host_profile scan one_host).safe_rps_hint ≡ some 1_000_000_000_000)
    × (tool_integer_rps_hint (plan host_profile scan one_host) ≡ some 1)
unfolding plan tool_integer_rps_hint matching_rule_resources Limiter.match_rules Limiter.match_rule
    Model.matches_worker Sort.sort Model.matches_resource glob_match Text.lower
    Limiter.match_resources Limiter.match_scope Plan.plan_of Plan.least Plan.matched_rules
    Plan.shares_of Plan.share Dict.put Dict.values
host_plan = (refl, refl)

plan_lem_example :
    All
      (λ m. FitsRule 1_000_000_000_000 m.rule)
      (matching_rule_resources host_profile scan one_host)
plan_lem_example =
    plan_lem host_profile scan one_host 1_000_000_000_000 host_profile-IsValidProfile host_plan.0

abbrev wakes : List Wake
wakes =
    record { lease_id = "rtl_1"; now = 10; waited = 0; meanwhile = λ s. s }
    ∷ record { lease_id = "rtl_2"; now = 3_000_010; waited = 3_000_000_000_000; meanwhile = λ s. s }
    ∷ []

await_acquire_returns_example :
    (answer : Result RateLimitDecision) × ((await_acquire host_profile scan one_host one_request
        (pos 5)
        (some (pos 2_000_000_000_000))
        wakes
        first).0
      ≡ some answer)
await_acquire_returns_example =
    await_acquire_returns host_profile scan one_host one_request (pos 5) (pos 2_000_000_000_000)
      wakes first refl

abbrev held : RateLimitLease
held = record {
  lease_id = "rtl_1";
  task_id = "tsk_1";
  items = record { key = host_key; concurrency = 1 } ∷ [];
  created_at = 10;
  expires_at = 15;
  state = active;
}

first_lease : Dict.get first.leases "rtl_1" ≡ some held
unfolding run acquire matching_rule_resources Limiter.match_rules Limiter.match_rule
    Model.matches_worker Sort.sort Model.matches_resource glob_match Text.lower try_acquire
    Buckets.examine_all Limiter.compile_checks Limiter.collect_checks Dict.get Dict.values Dict.put
    Dict.items Int.min_ℤ Int.◌+ℤ◌ Int.◌-ℤ◌ Buckets.add_violation Buckets.concurrency_retry
    Buckets.current_bucket Buckets.current_or_new Buckets.examine Buckets.go_on Buckets.judge
    Buckets.refill refilled seconds_for Buckets.taken token_retry Limiter.acquire_matches
    Limiter.check_of Limiter.key_before Limiter.match_resources Limiter.match_scope Model.key_beq
    Store.add_lease lease_items lease_of Store.new_lease Store.settle Store.write_buckets
first_lease = refl

first-IsSound : IsSound (slots_limit host_profile) (burst_limit host_profile) first
first-IsSound =
    Reach-IsSound host_profile host_profile-IsValidProfile
      (call start (acquires "rtl_1" 10) (get-empty "rtl_1"))

release-item_sum_example :
    (s' : RateStore) × (release "rtl_1" first ≡ (ok (record held { state = released }), s'))
    × ((k : RateKey) → active_at s' k + item_sum k held.items ≡ active_at first k)
    × ((k : RateKey) → timing (Dict.get s'.buckets k) ≡ timing (Dict.get first.buckets k))
    × IsBalanced s'
release-item_sum_example =
    release-item_sum first "rtl_1" held first-IsSound.balance first_lease refl

reap_expired-reaped_example :
    ((leases : List RateLimitLease) × ((reap_expired 20 first).0 ≡ ok leases))
    × IsSound (slots_limit host_profile) (burst_limit host_profile) (reap_expired 20 first).1
    × ((k : String)
        → Dict.get (reap_expired 20 first).1.leases k
          ≡ Option.map (reaped 20) (Dict.get first.leases k))
    × ((k : RateKey)
        → timing (Dict.get (reap_expired 20 first).1.buckets k) ≡ timing (Dict.get first.buckets k))
reap_expired-reaped_example =
    reap_expired-reaped (slots_limit host_profile) (burst_limit host_profile) 20 first first-IsSound

-- An acquisition that the tolerance lets through leaves the bucket below zero, and `bucket_state` raises.
bucket_state_raises :
    bucket_state
      (try_acquire "tsk_1"
        (record host_check { requests = 500_000_000_001; concurrency = 0 } ∷ [])
        (pos 5)
        "rtl_1"
        10
        (record no_usage { buckets = Dict.put Dict.empty host_key low })).1
      host_key
    ≡ err value_error
unfolding bucket_state try_acquire Buckets.examine_all Dict.get Dict.put Dict.items Int.min_ℤ
    Int.◌+ℤ◌ Int.◌-ℤ◌ Buckets.add_violation Buckets.concurrency_retry Buckets.current_bucket
    Buckets.current_or_new Buckets.examine Buckets.go_on Buckets.judge Buckets.refill refilled
    seconds_for Buckets.taken token_retry Model.key_beq Store.add_lease lease_items lease_of
    Store.new_lease Store.settle Store.write_buckets
bucket_state_raises = refl
