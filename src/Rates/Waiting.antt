-- ===== src/Rates/Waiting.antt =====
-- The wait that a lack of tokens asks for (recon/policy/rate_limit.py) is long enough.
use night_scout.Prelude.{
  ℕ, ◌+◌, ◌-◌, ◌*◌, ◌≤◌, ◌<◌, eqb, ltb, ◌≡◌, refl, sym, ap, ◌∙◌, inl, inr, true, false, some, arith,
  Bool-cases,
}
use native.Mathlib.Nat.{le-div_iff_mul-le, lt-div-mul-add, mul-le-mul_right, mul_assoc, mul_comm}
use night_scout.Prelude.Int.{pos, ltb_ℤ, ◌+ℤ◌, min_ℤ, plus-parts, gap}
use night_scout.Prelude.Exec.{ok, err, value_error}
use night_scout.Rates.Model.{tolerance, RateBucketCheck}
use night_scout.Rates.Buckets.{Bucket, refilled, refill, seconds_for, token_retry}

seconds_for-enough :
    (amount rate : ℕ) → 0 < rate → amount * 1_000_000_000_000 ≤ seconds_for amount rate * rate
unfolding seconds_for
seconds_for-enough amount rate h =
    omega (arith, h, lt-div-mul-add {a = amount * 1_000_000_000_000 + (rate - 1)} h)

-- The tokens that were lacking come back in the time that they ask for.
refill-enough :
    (amount rate from wait : ℕ)
    → 0 < rate
    → seconds_for amount rate ≤ wait * 1_000_000
    → amount ≤ refill rate from (from + wait)
unfolding refill
refill-enough amount rate from wait h long =
    let elapsed : from + wait - from ≡ wait = omega arith in
    let worth : seconds_for amount rate * rate ≤ wait * 1_000_000 * rate =
      mul-le-mul_right rate long in
    let turned : wait * 1_000_000 * rate ≡ wait * rate * 1_000_000 =
      mul_assoc wait 1_000_000 rate
      ∙ ap (λ x. wait * x) (mul_comm 1_000_000 rate)
      ∙ sym (mul_assoc wait rate 1_000_000) in
    let enough : amount * 1_000_000 ≤ wait * rate =
      omega (arith, worth, turned, seconds_for-enough amount rate h) in
    rw elapsed ((le-div_iff_mul-le (omega arith)).1 enough)

module _ (b : Bucket) (c : RateBucketCheck) (rate burst wait seconds : ℕ) (h : 0 < rate)
    (r : c.requests_per_second ≡ some rate) (u : c.burst ≡ some burst)
    (asks : token_retry b c ≡ ok seconds) (long : seconds ≤ wait * 1_000_000) where
  -- the bucket after the wait
  unfoldable pub later : Bucket
  later = refilled rate burst (b.last_refill_at + wait) b

  seconds_are :
      eqb c.requests 0 ≡ false
      → ltb (burst + tolerance) c.requests ≡ false
      → ltb_ℤ (b.tokens +ℤ pos tolerance) (pos c.requests) ≡ true
      → seconds_for (gap c.requests b.tokens) rate ≡ seconds
  seconds_are asked within lacking =
      let is : token_retry b c ≡ ok (seconds_for (gap c.requests b.tokens) rate) =
        unfold token_retry in rw (asked, r, u, within, lacking) refl in
      ground (arith, is, asks)

  made_up :
      eqb c.requests 0 ≡ false
      → ltb (burst + tolerance) c.requests ≡ false
      → gap c.requests b.tokens ≤ refill rate b.last_refill_at (b.last_refill_at + wait) + tolerance
  made_up asked within = elim (Bool-cases (ltb_ℤ (b.tokens +ℤ pos tolerance) (pos c.requests))) [
    | inr enough ↦ ground (arith, enough, plus-parts b.tokens (pos tolerance))
    | inl lacking ↦
        let is : seconds_for (gap c.requests b.tokens) rate ≡ seconds =
          seconds_are asked within lacking in
        let refills =
          refill-enough (gap c.requests b.tokens) rate b.last_refill_at wait h
            (omega (arith, is, long)) in
        omega (arith, refills)
  ]

  enough_later :
      eqb c.requests 0 ≡ false
      → ltb (burst + tolerance) c.requests ≡ false
      → ltb_ℤ (later.tokens +ℤ pos tolerance) (pos c.requests) ≡ false
  unfolding later refilled min_ℤ
  enough_later asked within =
      let yield = refill rate b.last_refill_at (b.last_refill_at + wait) in
      let fuller = b.tokens +ℤ pos yield in
      let missing : gap c.requests b.tokens ≤ yield + tolerance = made_up asked within in
      ground (
        arith,
        within,
        missing,
        plus-parts b.tokens (pos yield),
        plus-parts fuller (pos tolerance),
        plus-parts (pos burst) (pos tolerance),
      )

  -- A check that lacks tokens, but asks for no more than the burst, finds enough of them once the time
  -- has passed that it was told to wait, in whole microseconds, if nothing else takes from the bucket;
  -- its rate must be positive.
  pub token_wait_suffices : token_retry later c ≡ ok 0
  unfolding token_retry
  token_wait_suffices = elim (Bool-cases (eqb c.requests 0)) [
    | inl nothing ↦ rw nothing refl
    | inr asked ↦ elim (Bool-cases (ltb (burst + tolerance) c.requests)) [
      | inl over ↦
          let raises : token_retry b c ≡ err value_error = rw (asked, r, u, over) refl in
          absurd (ground (arith, raises, asks))
      | inr within ↦ rw (asked, r, u, within, enough_later asked within) refl
    ]
  ]
