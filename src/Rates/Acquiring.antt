-- ===== src/Rates/Acquiring.antt =====
-- `try_acquire` (recon/policy/rate_limit.py): what an acquisition that is allowed takes, and that one
-- that is not takes nothing.
use night_scout.Prelude.{
  ℕ, ◌+◌, ◌-◌, ◌*◌, ◌≤◌, ◌<◌, max, ltb, eqb, ◌≡◌, ap, ◌∙◌, ◌⊎◌, inl, inr, some, List, [], ◌∷◌,
  arith, string_eq, Bool-cases, ◌&&◌,
}
use native.Mathlib.Nat.{le-div_iff_mul-le}
use night_scout.Prelude.Int.{pos, pos_part, neg_part, ltb_ℤ, ◌+ℤ◌, plus-parts, gap}
use night_scout.Prelude.Dict
use night_scout.Prelude.Dict.{Dict, get-put, get-empty, IsDistinct-put, IsDistinct-empty}
use night_scout.Prelude.Exec.{ok, err, value_error, bind-eq-ok}
use night_scout.Rates.Model.{tolerance, RateKey, key_eq, RateBucketCheck}
use night_scout.Rates.Buckets.{
  Bucket, RateStore, current_bucket, seconds_for, token_retry, expiries, concurrency_retry,
  earliest_concurrency_release, wait_until_first, taken, judge, fits, examine,
}

-- a check whose rate is positive
abbrev pub IsPaced : RateBucketCheck → Type 0
IsPaced c = (rate : ℕ) → c.requests_per_second ≡ some rate → 0 < rate

-- what a check demands of the bucket that it is allowed to take from
pub record Fits (s : RateStore) (now : ℕ) (c : RateBucketCheck) : Type 0 where
  pub slots_fit :
      (bound : ℕ)
      → c.max_concurrency ≡ some bound
      → (c.concurrency ≡ 0) ⊎ ((current_bucket s c now).active_concurrency + c.concurrency ≤ bound)
  pub tokens_fit :
      (rate burst : ℕ)
      → c.requests_per_second ≡ some rate
      → c.burst ≡ some burst
      → (c.requests ≡ 0)
        ⊎ (c.requests + neg_part (current_bucket s c now).tokens
            ≤ pos_part (current_bucket s c now).tokens + tolerance)

seconds_for_positive : (amount rate : ℕ) → 0 < amount → 0 < rate → 0 < seconds_for amount rate
unfolding seconds_for
seconds_for_positive amount rate h k =
    let enough : 1 * rate ≤ amount * 1_000_000_000_000 + (rate - 1) = omega (arith, h, k) in
    omega (arith, (le-div_iff_mul-le {x = 1} k).1 enough)

wait_until_first-positive : (now : ℕ) (ns : List ℕ) → 0 < wait_until_first now ns
unfolding wait_until_first
wait_until_first-positive now [] = omega arith
wait_until_first-positive now (n ∷ ns) = omega arith

waits : (s : RateStore) (k : RateKey) (now : ℕ) → 0 < earliest_concurrency_release s k now
unfolding earliest_concurrency_release
waits s k now = wait_until_first-positive now (expiries k (Dict.values s.leases))

token_retry-none :
    (b : Bucket) (c : RateBucketCheck) (rate burst : ℕ)
    → 0 < rate
    → c.requests_per_second ≡ some rate
    → c.burst ≡ some burst
    → token_retry b c ≡ ok 0
    → (c.requests ≡ 0) ⊎ (c.requests + neg_part b.tokens ≤ pos_part b.tokens + tolerance)
unfolding token_retry
token_retry-none b c rate burst p r u h = elim (Bool-cases (eqb c.requests 0)) [
  | inl nothing ↦ inl (ground (arith, nothing))
  | inr asked ↦ elim (Bool-cases (ltb_ℤ (b.tokens +ℤ pos tolerance) (pos c.requests))) [
    | inr enough ↦ inr (ground (arith, enough, plus-parts b.tokens (pos tolerance)))
    | inl lacking ↦ absurd (elim (Bool-cases (ltb (burst + tolerance) c.requests)) [
      | inl over ↦
          let raises : err value_error ≡ ok 0 = rw (asked, r, u, over) at h in
          ground (arith, raises)
      | inr within ↦
          let is : ok (seconds_for (gap c.requests b.tokens) rate) ≡ ok 0 =
            rw (asked, r, u, within, lacking) at h in
          let some_missing : 0 < gap c.requests b.tokens =
            ground (arith, lacking, plus-parts b.tokens (pos tolerance)) in
          ground (arith, is, seconds_for_positive (gap c.requests b.tokens) rate some_missing p)
    ])
  ]
]

concurrency_retry-none :
    (s : RateStore) (now : ℕ) (b : Bucket) (c : RateBucketCheck) (bound : ℕ)
    → c.max_concurrency ≡ some bound
    → concurrency_retry s now b c ≡ 0
    → (c.concurrency ≡ 0) ⊎ (b.active_concurrency + c.concurrency ≤ bound)
unfolding concurrency_retry
concurrency_retry-none s now b c bound m h =
    elim (Bool-cases (ltb 0 c.concurrency && ltb bound (b.active_concurrency + c.concurrency))) [
      | inl full ↦
          let is : earliest_concurrency_release s c.key now ≡ 0 = rw (m, full) at h in
          absurd (omega (arith, is, waits s c.key now))
      | inr free ↦ ground (arith, free)
    ]

judge-fits :
    (c : RateBucketCheck) (b : Bucket) (tokens slots : ℕ) {b' : Bucket}
    → judge c b tokens slots ≡ fits b'
    → (tokens ≡ 0) × (slots ≡ 0) × (taken c b ≡ b')
unfolding judge
judge-fits c b tokens slots h = elim (Bool-cases (ltb 0 (max tokens slots))) [
  | inl waits ↦ absurd (ground (arith, waits, h))
  | inr free ↦ (ground (arith, free), ground (arith, free), ground (arith, free, h))
]

-- A check that finds no violation fits, and takes its share.
pub examine-Fits :
    (s : RateStore) (now : ℕ) (c : RateBucketCheck) (b : Bucket)
    → IsPaced c
    → examine s now c ≡ ok (fits b)
    → Fits s now c × (taken c (current_bucket s c now) ≡ b)
unfolding examine
examine-Fits s now c b paced h =
    let candidate = current_bucket s c now in
    let (t, retry, rest) =
      bind-eq-ok (token_retry candidate c)
        (λ tokens. ok (judge c candidate tokens (concurrency_retry s now candidate c))) h in
    let is : judge c candidate t (concurrency_retry s now candidate c) ≡ fits b =
      ground (arith, rest) in
    let (no_tokens, no_slots, takes) =
      judge-fits c candidate t (concurrency_retry s now candidate c) is in
    (
      record {
        slots_fit = λ bound m. concurrency_retry-none s now candidate c bound m no_slots;
        tokens_fit = λ rate burst r u.
            token_retry-none candidate c rate burst (paced rate r) r u (retry ∙ ap ok no_tokens);
      },
      takes,
    )
