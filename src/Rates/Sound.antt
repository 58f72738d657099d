-- ===== src/Rates/Sound.antt =====
-- The invariant of `InMemoryRateLimitStore` (recon/policy/rate_limit.py), and that acquisitions keep it.
use night_scout.Prelude.{
  ℕ, ◌+◌, ◌≤◌, ◌≡◌, refl, inl, inr, none, some, Option, arith, Option-cases, string_eq,
}
use night_scout.Prelude.Int.{pos, pos_part, neg_part, min_ℤ, plus-parts, minus-parts}
use night_scout.Prelude.Dict
use night_scout.Prelude.Dict.{Dict, get-put, get-empty, IsDistinct-put, IsDistinct-empty}
use night_scout.Rates.Model.{tolerance, RateKey, key_eq, RateBucketCheck}
use night_scout.Rates.Buckets.{
  Bucket, RateStore, active_at, current_bucket, current_or_new, refilled, refill, taken,
}
use night_scout.Rates.Ledger.{IsBalanced}
use night_scout.Rates.Acquiring.{IsPaced, Fits}
use night_scout.Rates.Examining.{taken_now}
use night_scout.Rates.Granting.{slots}

-- the tokens of a bucket lie between what the tolerance forgives and a cap
abbrev pub IsWithin : ℕ → Bucket → Type 0
IsWithin cap b = (pos_part b.tokens ≤ cap) × (neg_part b.tokens ≤ tolerance)

module _ (limit cap : RateKey → ℕ) where
  -- a check whose limits lie within those of its key
  pub record IsBounded (c : RateBucketCheck) : Type 0 where
    pub paced : IsPaced c
    pub bursts :
        (rate : ℕ) → c.requests_per_second ≡ some rate → (burst : ℕ) × (c.burst ≡ some burst)
    pub burst_bounded : (burst : ℕ) → c.burst ≡ some burst → burst ≤ cap c.key
    pub slots_bounded : (bound : ℕ) → c.max_concurrency ≡ some bound → bound ≤ limit c.key

  -- The slots in use are those that the active leases hold and lie within the limit of their key, and
  -- the tokens lie within the cap of their key.
  pub record IsSound (s : RateStore) : Type 0 where
    pub balance : IsBalanced s
    pub slots_within : (k : RateKey) → active_at s k ≤ limit k
    pub tokens_within :
        (k : RateKey) (b : Bucket) → Dict.get s.buckets k ≡ some b → IsWithin (cap k) b

  refilled-IsWithin :
      (rate burst now bound : ℕ) (b : Bucket)
      → burst ≤ bound
      → IsWithin bound b
      → IsWithin bound (refilled rate burst now b)
  unfolding refilled min_ℤ
  refilled-IsWithin rate burst now bound b h w =
      ground (arith, plus-parts b.tokens (pos (refill rate b.last_refill_at now)), w.0, w.1)

  pub current-IsWithin :
      (o : Option Bucket) (c : RateBucketCheck) (now : ℕ)
      → IsBounded c
      → ((b : Bucket) → o ≡ some b → IsWithin (cap c.key) b)
      → IsWithin (cap c.key) (current_or_new o c now)
  unfolding current_or_new
  current-IsWithin none c now bounded w = elim (Option-cases (c.burst)) [
    | inl u ↦ rw u (ground arith)
    | inr (burst, u) ↦ let within = bounded.burst_bounded burst u in rw u (ground arith)
  ]
  current-IsWithin (some b) c now bounded w = elim (Option-cases (c.requests_per_second)) [
    | inl r ↦ rw r (w b refl)
    | inr (rate, r) ↦
        let (burst, u) = bounded.bursts rate r in
        rw (r, u)
          (refilled-IsWithin rate burst now (cap c.key) b (bounded.burst_bounded burst u)
            (w b refl))
  ]

  pub current-active :
      (o : Option Bucket) (c : RateBucketCheck) (now : ℕ)
      → (current_or_new o c now).active_concurrency
        ≡ (elim o [ none ↦ 0 | some b ↦ b.active_concurrency ])
  unfolding current_or_new refilled
  current-active none c now = refl
  current-active (some b) c now = ground arith

  pub taken-IsWithin :
      (s : RateStore) (now : ℕ) (c : RateBucketCheck)
      → IsBounded c
      → IsWithin (cap c.key) (current_bucket s c now)
      → Fits s now c
      → IsWithin (cap c.key) (taken_now s now c)
  unfolding taken_now taken
  taken-IsWithin s now c bounded w fit = elim (Option-cases (c.requests_per_second)) [
    | inl r ↦ rw r w
    | inr (rate, r) ↦
        let (burst, u) = bounded.bursts rate r in
        let enough = fit.tokens_fit rate burst r u in
        rw r
          (ground (arith, enough, minus-parts (current_bucket s c now).tokens c.requests, w.0, w.1))
  ]

  pub taken-active :
      (s : RateStore) (now : ℕ) (c : RateBucketCheck)
      → (taken_now s now c).active_concurrency ≡ active_at s c.key + slots c
  unfolding taken_now taken current_bucket
  taken-active s now c =
      let is = current-active (Dict.get s.buckets c.key) c now in ground (arith, is)
