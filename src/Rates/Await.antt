-- ===== src/Rates/Await.antt =====
-- `RateLimiter.await_acquire` (recon/policy/rate_limit.py). What the world does between two attempts is an
-- argument: the moments at which the caller wakes, by a notification or by its timer, and what other
-- workers did to the store meanwhile. The count of waiting callers is back where it was whenever the
-- loop goes on, and is left out.
use night_scout.Prelude.{
  ℕ, ◌-◌, ◌≡◌, refl, ap, ◌∙◌, inl, inr, Bool, true, false, max, min, leb, any, String, Option, none,
  some, List, [], ◌∷◌, arith, if◌then◌else◌, Bool-cases, Option-cases,
}
use night_scout.Prelude.Int.{ℤ, is_negative, pos_part}
use night_scout.Prelude.Exec.{Result, ok, err, value_error}
use night_scout.Queue.Task.{Task}
use night_scout.Rates.Model.{
  least_wait, RateLimitProfile, RateLimitContext, RateLimitDemand, RateLimitDecision, defer,
}
use night_scout.Rates.Buckets.{RateStore}
use night_scout.Rates.Limiter.{acquire}

-- an attempt: the identifier of a new lease, the clock, how long the caller has waited, and what others
-- do before the next attempt
pub record Wake : Type 0 where
  pub lease_id : String
  pub now : ℕ
  pub waited : ℕ
  pub meanwhile : RateStore → RateStore

-- `RateLimitDecision.should_defer`
abbrev pub should_defer : RateLimitDecision → Bool
should_defer d = elim (d.outcome) [ defer ↦ true | _ ↦ false ]

-- the time to sleep after a deferral; None when the caller has waited long enough
unfoldable pub sleep_for : RateLimitProfile → Option ℕ → RateLimitDecision → ℕ → Option ℕ
sleep_for profile max_wait d waited =
    let asked : ℕ = elim (d.retry_after_seconds) [
      | none ↦ profile.default_retry_after_seconds
      | some seconds ↦ seconds
    ] in
    let retry_after = max asked least_wait in
    elim max_wait [
      | none ↦ some retry_after
      | some limit ↦ if leb limit waited then none else some (min retry_after (limit - waited))
    ]

-- what an attempt comes to: an answer, or None to sleep and try again
unfoldable pub settled :
    RateLimitProfile → Option ℕ → ℕ → Result RateLimitDecision → Option (Result RateLimitDecision)
settled profile max_wait waited (err e) = some (err e)
settled profile max_wait waited (ok d) =
    if should_defer d
    then (elim (sleep_for profile max_wait d waited) [ none ↦ some (ok d) | some seconds ↦ none ])
    else some (ok d)

module _ (profile : RateLimitProfile) (task : Task) (context : RateLimitContext)
    (demand : RateLimitDemand) (lease_for : ℤ) where
  -- the loop of `await_acquire`; None if it still waits behind the last attempt of the list
  unfoldable pub attempts :
      Option ℕ → List Wake → RateStore → Option (Result RateLimitDecision) × RateStore
  attempts max_wait [] s = (none, s)
  attempts max_wait (wake ∷ wakes) s =
      let done = acquire profile task context demand lease_for wake.lease_id wake.now s in
      elim (settled profile max_wait wake.waited done.0) [
        | none ↦ attempts max_wait wakes (wake.meanwhile done.1)
        | some answer ↦ (some answer, done.1)
      ]

  -- `await_acquire`
  unfoldable pub await_acquire :
      Option ℤ → List Wake → RateStore → Option (Result RateLimitDecision) × RateStore
  await_acquire none wakes s = attempts none wakes s
  await_acquire (some limit) wakes s =
      if is_negative limit
      then (some (err value_error), s)
      else attempts (some (pos_part limit)) wakes s

  settled-late :
      (limit waited : ℕ) (r : Result RateLimitDecision)
      → leb limit waited ≡ true
      → (answer : Result RateLimitDecision) × (settled profile (some limit) waited r ≡ some answer)
  unfolding settled sleep_for
  settled-late limit waited (err e) late = (err e, refl)
  settled-late limit waited (ok d) late = elim (Bool-cases (should_defer d)) [
    | inl defers ↦ (ok d, rw (defers, late) refl)
    | inr settles ↦ (ok d, rw settles refl)
  ]

  attempts-sleep :
      (limit : ℕ) (wake : Wake) (wakes : List Wake) (s : RateStore)
      → settled profile
          (some limit)
          wake.waited
          (acquire profile task context demand lease_for wake.lease_id wake.now s).0
        ≡ none
      → attempts (some limit) (wake ∷ wakes) s
        ≡ attempts (some limit) wakes (
            wake.meanwhile
              (acquire profile task context demand lease_for wake.lease_id wake.now s).1)
  unfolding attempts
  attempts-sleep limit wake wakes s sleeps = rw (sleeps, attempts) refl

  attempts-return :
      (limit : ℕ) (wakes : List Wake) (s : RateStore)
      → any (λ (wake : Wake). leb limit wake.waited) wakes ≡ true
      → (answer : Result RateLimitDecision) × ((attempts (some limit) wakes s).0 ≡ some answer)
  unfolding attempts
  attempts-return limit [] s h = absurd (ground arith)
  attempts-return limit (wake ∷ wakes) s h =
      let done = acquire profile task context demand lease_for wake.lease_id wake.now s in
      elim (Option-cases (settled profile (some limit) wake.waited done.0)) [
        | inr (answer, is) ↦ (answer, rw (is, attempts) refl)
        | inl sleeps ↦ elim (Bool-cases (leb limit wake.waited)) [
          | inl late ↦
              let (answer, is) = settled-late limit wake.waited done.0 late in
              absurd (ground (arith, is, sleeps))
          | inr early ↦
              let (answer, is) =
                attempts-return limit wakes (wake.meanwhile done.1) (ground (arith, h, early)) in
              (answer, ap (λ x. x.0) (attempts-sleep limit wake wakes s sleeps) ∙ is)
        ]
      ]

  -- With a bound on the wait, `await_acquire` answers at the latest at the first attempt by which the
  -- caller has waited as long as the bound, whatever others do in between.
  pub await_acquire_returns :
      (limit : ℤ) (wakes : List Wake) (s : RateStore)
      → any (λ (wake : Wake). leb (pos_part limit) wake.waited) wakes ≡ true
      → (answer : Result RateLimitDecision) × ((await_acquire (some limit) wakes s).0 ≡ some answer)
  unfolding await_acquire
  await_acquire_returns limit wakes s h = elim (Bool-cases (is_negative limit)) [
    | inl bad ↦ (err value_error, rw bad refl)
    | inr good ↦ rw good (attempts-return (pos_part limit) wakes s h)
  ]
