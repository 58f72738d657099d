-- ===== src/Rates/Buckets.antt =====
-- The buckets of `InMemoryRateLimitStore` (recon/policy/rate_limit.py): refilling, and what a check finds.
use night_scout.Prelude.{
  ℕ, ◌+◌, ◌-◌, ◌*◌, ◌/◌, max, min, String, Option, none, some, List, [], ◌∷◌, any, ltb, eqb, ◌&&◌,
  ◌==◌, if◌then◌else◌, string_eq,
}
use night_scout.Prelude.Int.{ℤ, pos, ltb_ℤ, ◌+ℤ◌, ◌-ℤ◌, min_ℤ, gap}
use night_scout.Prelude.Dict
use night_scout.Prelude.Dict.{Dict}
use night_scout.Prelude.Exec.{value_error, Result, ok, err, ◌>>=◌, check}
use night_scout.Rates.Model.{
  tolerance, microsecond, least_wait, RateKey, key_eq, is_active, RateBucketCheck,
  RateLimitViolation, RateLeaseItem, RateLimitLease,
}

-- `_MutableBucket`
pub record Bucket : Type 0 where
  pub tokens : ℤ
  pub last_refill_at : ℕ
  pub active_concurrency : ℕ

pub record RateStore : Type 0 where
  pub buckets : Dict RateKey Bucket
  pub leases : Dict String RateLimitLease

-- a quotient in fixed-point numbers, rounded up, so that it is positive when `a` is
unfoldable pub seconds_for : ℕ → ℕ → ℕ
seconds_for amount rate = (amount * 1_000_000_000_000 + (rate - 1)) / rate

-- what a rate yields between two moments; a clock that went back yields nothing
unfoldable pub refill : ℕ → ℕ → ℕ → ℕ
refill rate from now = (now - from) * rate / 1_000_000

-- the refilled bucket
unfoldable pub refilled : ℕ → ℕ → ℕ → Bucket → Bucket
refilled rate burst now bucket = record bucket {
  tokens = min_ℤ (pos burst) (bucket.tokens +ℤ pos (refill rate bucket.last_refill_at now));
  last_refill_at = now;
}

-- `check.burst or 0.0`
abbrev pub or_zero : Option ℕ → ℕ
or_zero none = 0
or_zero (some n) = n

unfoldable pub current_or_new : Option Bucket → RateBucketCheck → ℕ → Bucket
current_or_new none check now = record {
  tokens = pos (or_zero check.burst);
  last_refill_at = now;
  active_concurrency = 0;
}
current_or_new (some existing) check now = elim (check.requests_per_second) [
  | none ↦ existing
  | some rate ↦ elim (check.burst) [
    | none ↦ existing
    | some burst ↦ refilled rate burst now existing
  ]
]

-- `_current_bucket`
unfoldable pub current_bucket : RateStore → RateBucketCheck → ℕ → Bucket
unfolding current_or_new
current_bucket s check now = current_or_new (Dict.get s.buckets check.key) check now

-- `self._buckets.get(key)` as far as the concurrency goes
abbrev pub active_at : RateStore → RateKey → ℕ
active_at s key = elim (Dict.get s.buckets key) [ none ↦ 0 | some b ↦ b.active_concurrency ]

-- what `_earliest_concurrency_release` collects
unfoldable pub expiries : RateKey → List RateLimitLease → List ℕ
expiries key [] = []
expiries key (lease ∷ leases) =
    let rest = expiries key leases in
    if is_active lease.state
      && any (λ (item : RateLeaseItem). item.key == key && ltb 0 item.concurrency) lease.items
    then lease.expires_at ∷ rest
    else rest

unfoldable pub earliest : ℕ → List ℕ → ℕ
earliest n [] = n
earliest n (m ∷ ms) = earliest (min n m) ms

unfoldable pub wait_until_first : ℕ → List ℕ → ℕ
wait_until_first now [] = least_wait
wait_until_first now (n ∷ ns) = max ((earliest n ns - now) * microsecond) least_wait

-- `_earliest_concurrency_release`
unfoldable pub earliest_concurrency_release : RateStore → RateKey → ℕ → ℕ
unfolding wait_until_first
earliest_concurrency_release s key now = wait_until_first now (expiries key (Dict.values s.leases))

-- what one round of the loop of `try_acquire` finds: a violation, or the bucket as it would become
pub data Verdict : Type 0 where
  short : RateLimitViolation → Verdict
  fits : Bucket → Verdict

-- `token_retry`: the wait for the missing tokens, where the check has requests and a rate
unfoldable pub token_retry : Bucket → RateBucketCheck → Result ℕ
token_retry candidate check =
    if eqb check.requests 0 then ok 0 else elim (check.requests_per_second) [
      | none ↦ ok 0
      | some rate ↦ elim (check.burst) [
        | none ↦ ok 0
        | some burst ↦
            if ltb (burst + tolerance) check.requests
            then err value_error
            else if ltb_ℤ (candidate.tokens +ℤ pos tolerance) (pos check.requests)
            then ok (seconds_for (gap check.requests candidate.tokens) rate)
            else ok 0
      ]
    ]

-- `concurrency_retry`: the wait for the first lease to end, where the slots are taken
unfoldable pub concurrency_retry : RateStore → ℕ → Bucket → RateBucketCheck → ℕ
concurrency_retry s now candidate check = elim (check.max_concurrency) [
  | none ↦ 0
  | some bound ↦
      if ltb 0 check.concurrency && ltb bound (candidate.active_concurrency + check.concurrency)
      then earliest_concurrency_release s check.key now
      else 0
]

-- the tokens and the slots that an acquisition takes from a bucket
unfoldable pub taken : RateBucketCheck → Bucket → Bucket
taken check candidate = record candidate {
  tokens = elim (check.requests_per_second) [
    | none ↦ candidate.tokens
    | some rate ↦ candidate.tokens -ℤ check.requests
  ];
  active_concurrency = elim (check.max_concurrency) [
    | none ↦ candidate.active_concurrency
    | some bound ↦ candidate.active_concurrency + check.concurrency
  ];
}

kind_of : ℕ → ℕ → String
kind_of tokens slots =
    if ltb 0 tokens && ltb 0 slots
    then "TOKENS_AND_CONCURRENCY"
    else if ltb 0 tokens
    then "TOKENS"
    else "CONCURRENCY"

unfoldable pub judge : RateBucketCheck → Bucket → ℕ → ℕ → Verdict
unfolding kind_of
judge check candidate tokens slots =
    if ltb 0 (max tokens slots)
    then short (record {
      key = check.key;
      kind = kind_of tokens slots;
      reason = "shared rate/concurrency capacity is temporarily unavailable";
      retry_after_seconds = max tokens slots;
    })
    else fits (taken check candidate)

-- one round of the loop of `try_acquire`
unfoldable pub examine : RateStore → ℕ → RateBucketCheck → Result Verdict
examine s now check =
    let candidate = current_bucket s check now in
    token_retry candidate check >>= λ tokens.
    ok (judge check candidate tokens (concurrency_retry s now candidate check))

-- `violations.append(…)`
unfoldable pub add_violation :
    RateLimitViolation
    → List RateLimitViolation × Dict RateKey Bucket
    → List RateLimitViolation × Dict RateKey Bucket
add_violation v (violations, projected) = (v ∷ violations, projected)

-- what a round of the loop does with its verdict, before the rounds that follow
unfoldable pub go_on :
    RateBucketCheck
    → Dict RateKey Bucket
    → (Dict RateKey Bucket → Result (List RateLimitViolation × Dict RateKey Bucket))
    → Verdict
    → Result (List RateLimitViolation × Dict RateKey Bucket)
go_on check projected rest (short v) = rest projected >>= λ found. ok (add_violation v found)
go_on check projected rest (fits b) = rest (Dict.put projected check.key b)

-- the loop: the violations, and the projected buckets
unfoldable pub examine_all :
    RateStore
    → ℕ
    → List RateBucketCheck
    → Dict RateKey Bucket
    → Result (List RateLimitViolation × Dict RateKey Bucket)
examine_all s now [] projected = ok ([], projected)
examine_all s now (check ∷ checks) projected =
    examine s now check >>= go_on check projected (examine_all s now checks)
