-- ===== src/Rates/Pacing.antt =====
-- The promise of the token buckets (recon/policy/rate_limit.py): in any stretch of time a rule grants
-- no more requests than its burst and what its rate yields in that time.
use night_scout.Prelude.{
  ℕ, ◌+◌, ◌-◌, ◌*◌, ◌≤◌, ◌≡◌, refl, sym, ap, ◌∙◌, subst, ◌⊎◌, inl, inr, some, none, Option, arith,
  string_eq,
}
use native.Mathlib.Nat.{mul-div-le, add-mul}
use night_scout.Prelude.Dict
use night_scout.Prelude.Dict.{Dict}
use night_scout.Prelude.Int.{pos, pos_part, neg_part, min_ℤ, plus-parts, minus-parts}
use night_scout.Rates.Model.{tolerance, RateKey, key_eq, RateBucketCheck}
use night_scout.Rates.Buckets.{
  Bucket, RateStore, current_bucket, current_or_new, refilled, refill, taken,
}
use night_scout.Rates.Ledger.{timing, timing-some}
use night_scout.Rates.Examining.{taken_now}

-- the requests that a check takes tokens for
abbrev pub requests_of : RateBucketCheck → ℕ
requests_of c = elim (c.requests_per_second) [ none ↦ 0 | some rate ↦ c.requests ]

module _ (rate burst since : ℕ) where
  -- A bucket from which `used` requests were granted since a moment: what was granted and what is left
  -- came out of the burst and the refills since.
  pub record IsPacedBucket (used : ℕ) (b : Bucket) : Type 0 where
    pub after_since : since ≤ b.last_refill_at
    pub paced :
        (used + pos_part b.tokens) * 1_000_000
        ≤ burst * 1_000_000 + (b.last_refill_at - since) * rate + neg_part b.tokens * 1_000_000

  refill-most : (from now : ℕ) → refill rate from now * 1_000_000 ≤ (now - from) * rate
  unfolding refill
  refill-most from now = omega (arith, mul-div-le ((now - from) * rate) 1_000_000)

  stretch :
      (from now : ℕ)
      → since ≤ from
      → from ≤ now
      → (now - since) * rate ≡ (now - from) * rate + (from - since) * rate
  stretch from now h k =
      let whole : now - since ≡ (now - from) + (from - since) = omega (arith, h, k) in
      ap (λ x. x * rate) whole ∙ add-mul (now - from) (from - since) rate

  refilled-IsPacedBucket :
      (used now : ℕ) (b : Bucket)
      → b.last_refill_at ≤ now
      → IsPacedBucket used b
      → IsPacedBucket used (refilled rate burst now b)
  unfolding refilled min_ℤ
  refilled-IsPacedBucket used now b h w =
      let most = refill-most b.last_refill_at now in
      let whole = stretch b.last_refill_at now w.after_since h in
      let parts = plus-parts b.tokens (pos (refill rate b.last_refill_at now)) in
      record {
        after_since = omega (arith, h, w.after_since);
        paced = ground (arith, most, whole, parts, w.paced);
      }

  -- A bucket no fuller than the burst, from which nothing was granted.
  fresh-IsPacedBucket :
      (b : Bucket) → since ≤ b.last_refill_at → pos_part b.tokens ≤ burst → IsPacedBucket 0 b
  fresh-IsPacedBucket b h k = record { after_since = h; paced = omega (arith, k) }

  taken-IsPacedBucket :
      (used : ℕ) (c : RateBucketCheck) (b : Bucket)
      → c.requests_per_second ≡ some rate
      → IsPacedBucket used b
      → IsPacedBucket (used + requests_of c) (taken c b)
  unfolding taken
  taken-IsPacedBucket used c b r w =
      let parts = minus-parts b.tokens c.requests in
      rw r (record { after_since = w.after_since; paced = ground (arith, parts, w.paced) })

  slots-IsPacedBucket :
      (used n : ℕ) (b : Bucket)
      → IsPacedBucket used (record b { active_concurrency = n })
      → IsPacedBucket used b
  slots-IsPacedBucket used n b w = record { after_since = w.after_since; paced = w.paced }

  -- the state of a key: nothing granted, or a bucket that accounts for it
  abbrev pub IsPacedKey : RateKey → ℕ → RateStore → ℕ → Type 0
  IsPacedKey k t s used =
      (used ≡ 0)
      ⊎ ((b : Bucket) × (Dict.get s.buckets k ≡ some b)
          × (b.last_refill_at ≤ t)
          × IsPacedBucket used b)

  -- What was granted stays within the burst and the yield of the rate.
  pub IsPacedKey-bound :
      (k : RateKey) (t : ℕ) (s : RateStore) (used : ℕ)
      → IsPacedKey k t s used
      → ((b : Bucket) → Dict.get s.buckets k ≡ some b → neg_part b.tokens ≤ tolerance)
      → used * 1_000_000 ≤ (burst + tolerance) * 1_000_000 + (t - since) * rate
  IsPacedKey-bound k t s used (inl nothing) forgiven = omega (arith, nothing)
  IsPacedKey-bound k t s used (inr (b, at, before, w)) forgiven =
      let whole = stretch b.last_refill_at t w.after_since before in
      omega (arith, whole, w.paced, forgiven b at)

  -- Calls that leave the timing of the buckets keep the account.
  pub timing-IsPacedKey :
      (k : RateKey) (t : ℕ) (s s' : RateStore) (used : ℕ)
      → timing (Dict.get s'.buckets k) ≡ timing (Dict.get s.buckets k)
      → IsPacedKey k t s used
      → IsPacedKey k t s' used
  timing-IsPacedKey k t s s' used same (inl nothing) = inl nothing
  timing-IsPacedKey k t s s' used same (inr (b, at, before, w)) =
      let (n, there) = timing-some (Dict.get s'.buckets k) b (same ∙ ap timing at) in
      inr (
        record b { active_concurrency = n },
        there,
        before,
        slots-IsPacedBucket used b.active_concurrency (record b { active_concurrency = n }) w,
      )

  pub later-IsPacedKey :
      (k : RateKey) (t now : ℕ) (s : RateStore) (used : ℕ)
      → t ≤ now
      → IsPacedKey k t s used
      → IsPacedKey k now s used
  later-IsPacedKey k t now s used h (inl nothing) = inl nothing
  later-IsPacedKey k t now s used h (inr (b, at, before, w)) =
      inr (b, at, omega (arith, before, h), w)

  current-last :
      (o : Option Bucket) (c : RateBucketCheck) (now : ℕ)
      → c.requests_per_second ≡ some rate
      → c.burst ≡ some burst
      → (current_or_new o c now).last_refill_at ≡ now
  unfolding current_or_new refilled
  current-last none c now r u = refl
  current-last (some b) c now r u = rw (r, u) refl

  current-IsPacedBucket :
      (s : RateStore) (t now used : ℕ) (c : RateBucketCheck)
      → since ≤ now
      → t ≤ now
      → c.requests_per_second ≡ some rate
      → c.burst ≡ some burst
      → pos_part (current_bucket s c now).tokens ≤ burst
      → IsPacedKey c.key t s used
      → IsPacedBucket used (current_bucket s c now)
        × ((current_bucket s c now).last_refill_at ≡ now)
  current-IsPacedBucket s t now used c h k r u most (inl nothing) =
      let is : (current_bucket s c now).last_refill_at ≡ now =
        unfold current_bucket in current-last (Dict.get s.buckets c.key) c now r u in
      (
        subst (λ n. IsPacedBucket n (current_bucket s c now)) (sym nothing)
            (fresh-IsPacedBucket (current_bucket s c now) (omega (arith, is, h)) most),
        is,
      )
  current-IsPacedBucket s t now used c h k r u most (inr (b, at, before, w)) =
      let is : (current_bucket s c now).last_refill_at ≡ now =
        unfold current_bucket in current-last (Dict.get s.buckets c.key) c now r u in
      let same : current_bucket s c now ≡ refilled rate burst now b =
        unfold current_bucket current_or_new in rw (at, r, u) refl in
      (
        subst (IsPacedBucket used) (sym same)
            (refilled-IsPacedBucket used now b (omega (arith, before, k)) w),
        is,
      )

  -- A grant accounts for the tokens that it takes.
  pub granted-IsPacedKey :
      (s : RateStore) (t now used : ℕ) (c : RateBucketCheck) (s' : RateStore)
      → since ≤ now
      → t ≤ now
      → c.requests_per_second ≡ some rate
      → c.burst ≡ some burst
      → pos_part (current_bucket s c now).tokens ≤ burst
      → Dict.get s'.buckets c.key ≡ some (taken_now s now c)
      → IsPacedKey c.key t s used
      → IsPacedKey c.key now s' (used + requests_of c)
  unfolding taken_now
  granted-IsPacedKey s t now used c s' h k r u most at paced =
      let (w, is) = current-IsPacedBucket s t now used c h k r u most paced in
      inr (
        taken c (current_bucket s c now),
        at,
        (unfold taken in omega (arith, is)),
        taken-IsPacedBucket used c (current_bucket s c now) r w,
      )
