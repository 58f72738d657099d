-- ===== src/Rates/Guarantee.antt =====
-- The rate that a limiter (recon/policy/rate_limit.py) guarantees over any stretch of its run.
use night_scout.Prelude.{
  ℕ, ◌+◌, ◌-◌, ◌*◌, ◌≤◌, String, ◌≡◌, refl, sym, ap, subst, ◌∙◌, inl, inr, some, arith, All-map,
  leb, string_eq, Bool-cases,
}
use night_scout.Prelude.Dict
use night_scout.Prelude.Dict.{Dict}
use night_scout.Prelude.Int.{ℤ, is_nonpositive, shift}
use night_scout.Queue.Task.{Task}
use night_scout.Rates.Model.{
  tolerance, RateKey, key_eq, RateLimitRule, RateLimitProfile, RateLimitContext, RateLimitDemand,
}
use night_scout.Rates.Buckets.{RateStore}
use night_scout.Rates.Store.{release, renew}
use night_scout.Rates.Limiter.{
  Match, matching_rule_resources, check_of, acquire, renew_for, reap_now,
}
use night_scout.Rates.Ledger.{timing, release-item_sum}
use night_scout.Rates.Sound.{IsSound}
use night_scout.Rates.Reaping.{reap_expired-reaped}
use night_scout.Rates.Profile.{
  IsValidProfile, IsOwn, slots_limit, burst_limit, rule_with, check_of-IsBounded, matching-IsOwn,
}
use night_scout.Rates.Pacing.{IsPacedKey, timing-IsPacedKey, later-IsPacedKey, IsPacedKey-bound}
use night_scout.Rates.Runs.{
  Command, acquire_call, release_call, renew_call, reap_call, run, IsFresh, Reach, run-IsSound,
  Reach-IsSound, require_active_lease-cases,
}
use night_scout.Rates.Window.{granted, HasLimits, acquire_matches-IsPacedKey}

-- the moment of a call: that of the clock it reads for the buckets
unfoldable pub moment : {profile : RateLimitProfile} → Command profile → ℕ → ℕ
moment (acquire_call task context demand lease_for id now) t = now
moment _ t = t

-- the requests that a call grants under a key
unfoldable pub granted_by : (profile : RateLimitProfile) → RateKey → Command profile → RateStore → ℕ
granted_by profile k (acquire_call task context demand lease_for id now) s =
    granted k (acquire profile task context demand lease_for id now s).0
granted_by profile k _ s = 0

-- A stretch of a run from the store `s0` at the moment `since`: the store it leads to, its last moment,
-- and the requests granted in it under each key. The clock does not go back.
pub data Stretch (profile : RateLimitProfile) (s0 : RateStore) (since : ℕ)
    : RateStore → ℕ → (RateKey → ℕ) → Type 0 where
  opens : Stretch profile s0 since s0 since (λ _. 0)
  goes_on :
      {s : RateStore} {t : ℕ} {used : RateKey → ℕ}
      → Stretch profile s0 since s t used
      → (c : Command profile) → IsFresh profile c s
      → t ≤ moment c t
      → Stretch profile s0 since
          (run profile c s)
          (moment c t)
          (λ k. used k + granted_by profile k c s)

module _ (profile : RateLimitProfile) (v : IsValidProfile profile) (k : RateKey)
    (rule : RateLimitRule) (rate burst : ℕ) (own : rule_with k.rule_id profile.rules ≡ some rule)
    (paces : rule.requests_per_second ≡ some rate) (bursts : rule.burst ≡ some burst) where
  check_of-HasLimits :
      (demand : RateLimitDemand) (m : Match)
      → IsOwn profile m.rule
      → HasLimits rate burst k (check_of demand m)
  unfolding check_of
  check_of-HasLimits demand m (valid, mine) is =
      let same : rule_with m.rule.rule_id profile.rules ≡ some rule =
        subst (λ (x : RateKey). rule_with x.rule_id profile.rules ≡ some rule) (sym is) own in
      let here : m.rule ≡ rule = ground (arith, mine, same) in
      (
        ap (λ (r : RateLimitRule). r.requests_per_second) here ∙ paces,
        ap (λ (r : RateLimitRule). r.burst) here ∙ bursts,
      )

  release-timing :
      (s : RateStore) (id : String)
      → IsSound (slots_limit profile) (burst_limit profile) s
      → timing (Dict.get (release id s).1.buckets k) ≡ timing (Dict.get s.buckets k)
  release-timing s id w = elim (require_active_lease-cases s id) [
    | inl (e, raises) ↦ unfold release in rw raises refl
    | inr (lease, at, runs, _) ↦
        let (s', does, back, kept, balanced) = release-item_sum s id lease w.balance at runs in
        rw does (kept k)
  ]

  renew_for-buckets :
      (s : RateStore) (id : String) (lease_for : ℤ) (now : ℕ)
      → (renew_for id lease_for now s).1.buckets ≡ s.buckets
  unfolding renew_for renew
  renew_for-buckets s id lease_for now = elim (Bool-cases (is_nonpositive lease_for)) [
    | inl bad ↦ rw bad refl
    | inr good ↦ elim (require_active_lease-cases s id) [
      | inl (e, raises) ↦ rw (good, raises) refl
      | inr (lease, at, _, found) ↦ elim (Bool-cases (leb (shift now lease_for) now)) [
        | inl past ↦ rw (good, found, past) refl
        | inr future ↦ rw (good, found, future) refl
      ]
    ]
  ]

  module _ (since : ℕ) where
    acquire-IsPacedKey :
        (task : Task) (context : RateLimitContext) (demand : RateLimitDemand) (lease_for : ℤ)
        (id : String) (now t : ℕ) (s : RateStore) (used : ℕ)
        → IsSound (slots_limit profile) (burst_limit profile) s
        → since ≤ now
        → t ≤ now
        → IsPacedKey rate burst since k t s used
        → IsPacedKey rate burst since k now
            (acquire profile task context demand lease_for id now s).1
            (used + granted k (acquire profile task context demand lease_for id now s).0)
    unfolding acquire granted
    acquire-IsPacedKey task context demand lease_for id now t s used w h later paced =
        elim (Bool-cases (is_nonpositive lease_for)) [
          | inl bad ↦
              rw (bad, granted)
                (subst (IsPacedKey rate burst since k now s) (omega arith)
                  (later-IsPacedKey rate burst since k t now s used later paced))
          | inr good ↦ rw good (
              acquire_matches-IsPacedKey (slots_limit profile) (burst_limit profile) rate burst
                since k s w t now h later (ground (arith, own, bursts)) profile task demand
                lease_for id used (matching_rule_resources profile task context)
                (All-map (matching_rule_resources profile task context)
                  (λ m mine.
                    (check_of-IsBounded profile demand m mine, check_of-HasLimits demand m mine))
                  (matching-IsOwn profile task context v))
                paced)
        ]

    stays :
        (s' s : RateStore) (t used : ℕ)
        → timing (Dict.get s'.buckets k) ≡ timing (Dict.get s.buckets k)
        → IsPacedKey rate burst since k t s used
        → IsPacedKey rate burst since k t s' (used + 0)
    stays s' s t used same paced =
        subst (IsPacedKey rate burst since k t s') (omega arith)
          (timing-IsPacedKey rate burst since k t s s' used same paced)

    call-IsPacedKey :
        (c : Command profile) (s : RateStore) (t used : ℕ)
        → IsSound (slots_limit profile) (burst_limit profile) s
        → since ≤ t
        → t ≤ moment c t
        → IsPacedKey rate burst since k t s used
        → IsPacedKey rate burst since k
            (moment c t)
            (run profile c s)
            (used + granted_by profile k c s)
    unfolding run moment granted_by reap_now
    call-IsPacedKey (acquire_call task context demand lease_for id now) s t used w h later paced =
        acquire-IsPacedKey task context demand lease_for id now t s used w (omega (arith, h, later))
          later paced
    call-IsPacedKey (release_call id) s t used w h later paced =
        stays (release id s).1 s t used (release-timing s id w) paced
    call-IsPacedKey (renew_call id lease_for now) s t used w h later paced =
        stays (renew_for id lease_for now s).1 s t used
          (ap (λ d. timing (Dict.get d k)) (renew_for-buckets s id lease_for now)) paced
    call-IsPacedKey (reap_call now) s t used w h later paced =
        let (_, _, _, timed) =
          reap_expired-reaped (slots_limit profile) (burst_limit profile) now s w in
        stays (reap_now now s).1 s t used (timed k) paced

    -- what holds all along a stretch
    Stretch-IsPacedKey :
        {s0 s : RateStore} {t : ℕ} {used : RateKey → ℕ}
        → Stretch profile s0 since s t used
        → IsSound (slots_limit profile) (burst_limit profile) s0
        → IsSound (slots_limit profile) (burst_limit profile) s
          × (since ≤ t)
          × IsPacedKey rate burst since k t s (used k)
    Stretch-IsPacedKey opens w = (w, omega arith, inl refl)
    Stretch-IsPacedKey (goes_on {s = s} {t = t} {used = used} before c fresh later) w =
        let (sound, h, paced) = Stretch-IsPacedKey before w in
        (
          run-IsSound profile v c s fresh sound,
          omega (arith, h, later),
          call-IsPacedKey c s t (used k) sound h later paced,
        )

-- In any stretch of a run of a rate limiter with a valid profile (its rules passed validation and have
-- different ids), from any store that calls lead to, while the clock does not go back, the requests
-- granted under a key stay within the burst of the key's rule, the tolerance, and what the rule's
-- rate yields in the time that passed, which is counted in microseconds.
pub never_too_fast :
    (profile : RateLimitProfile) (k : RateKey) (rule : RateLimitRule) (rate burst since : ℕ)
    (s0 s : RateStore) (t : ℕ) (used : RateKey → ℕ)
    → IsValidProfile profile
    → rule_with k.rule_id profile.rules ≡ some rule
    → rule.requests_per_second ≡ some rate
    → rule.burst ≡ some burst
    → Reach profile s0
    → Stretch profile s0 since s t used
    → used k * 1_000_000 ≤ (burst + tolerance) * 1_000_000 + (t - since) * rate
never_too_fast profile k rule rate burst since s0 s t used v own paces bursts r stretch =
    let (sound, h, paced) =
      Stretch-IsPacedKey profile v k rule rate burst own paces bursts since stretch
        (Reach-IsSound profile v r) in
    IsPacedKey-bound rate burst since k t s (used k) paced (λ b at. (sound.tokens_within k b at).1)
