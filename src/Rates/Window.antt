-- ===== src/Rates/Window.antt =====
-- Stretches of a limiter's run (recon/policy/rate_limit.py), with what each key was granted in them.
use night_scout.Prelude.{
  ℕ, ◌+◌, ◌≤◌, String, ◌≡◌, sym, ap, subst, ◌∙◌, inl, inr, true, false, some, Option, List, [], ◌∷◌,
  arith, All, All-map, All-zip, if◌then◌else◌, Bool, ◌&&◌, ◌||◌, ltb, string_eq, Bool-cases,
}
use night_scout.Prelude.Dict
use night_scout.Prelude.Dict.{Dict}
use night_scout.Prelude.Int.{ℤ, pos_part}
use night_scout.Prelude.Sets.{member, NoRepeat}
use night_scout.Prelude.Exec.{Result, ok, err}
use night_scout.Queue.Task.{Task}
use night_scout.Rates.Model.{
  RateKey, key_eq, RateLimitProfile, RateLimitDemand, RateBucketCheck, RateLimitDecision,
  RateLimitLease, allow,
}
use night_scout.Rates.Buckets.{RateStore, current_bucket}
use night_scout.Rates.Store.{try_acquire, lease_of, lease_items}
use night_scout.Rates.Limiter.{Match, check_of, compile_checks, acquire_matches}
use night_scout.Rates.Ledger.{timing}
use night_scout.Rates.Acquiring.{Fits}
use night_scout.Rates.Examining.{check_keys, taken_now}
use night_scout.Rates.Granting.{key_sum, key_sum-absent, pick, IsGranted, try_acquire_lem}
use night_scout.Rates.Sound.{IsBounded, IsSound, current-IsWithin}
use night_scout.Rates.Compiling.{compile_checks_lem}
use night_scout.Rates.Pacing.{
  requests_of, IsPacedKey, granted-IsPacedKey, timing-IsPacedKey, later-IsPacedKey,
}

-- `RateLimitDecision.allowed`
abbrev pub allowed : RateLimitDecision → Bool
allowed d = elim (d.outcome) [ allow ↦ true | _ ↦ false ]

-- the requests that an answer grants under a key
unfoldable pub granted : RateKey → Result RateLimitDecision → ℕ
granted k (err e) = 0
granted k (ok d) = if allowed d then key_sum requests_of k d.checked_buckets else 0

-- the limits that the rule of a key gives each check with the key
abbrev pub HasLimits : ℕ → ℕ → RateKey → RateBucketCheck → Type 0
HasLimits rate burst k c = c.key ≡ k → (c.requests_per_second ≡ some rate) × (c.burst ≡ some burst)

module _ (limit cap : RateKey → ℕ) (rate burst since : ℕ) (k : RateKey) (s : RateStore)
    (w : IsSound limit cap s) (t now : ℕ) (h : since ≤ now) (later : t ≤ now)
    (capped : cap k ≡ burst) where
  grant-IsPacedKey :
      (s' : RateStore) (cs : List RateBucketCheck) (lease : Option RateLimitLease) (used : ℕ)
      → IsGranted s s' now cs lease
      → NoRepeat (check_keys cs)
      → All (λ c. IsBounded limit cap c × HasLimits rate burst k c) cs
      → IsPacedKey rate burst since k t s used
      → IsPacedKey rate burst since k now s' (used + key_sum requests_of k cs)
  grant-IsPacedKey s' cs lease used g once limits paced =
      elim (Bool-cases (member k (check_keys cs))) [
        | inr out ↦
            let none_taken = key_sum-absent requests_of k cs out in
            let stays =
              timing-IsPacedKey rate burst since k now s s' used (ap timing (g.others k out))
                (later-IsPacedKey rate burst since k t now s used later paced) in
            subst (IsPacedKey rate burst since k now s') (omega (arith, none_taken)) stays
        | inl within ↦
            let (c, facts, is, sum) =
              pick
                (λ c.
                  (IsBounded limit cap c × HasLimits rate burst k c)
                  × (Fits s now c × (Dict.get s'.buckets c.key ≡ some (taken_now s now c))))
                k cs once within
                (All-zip (λ c. IsBounded limit cap c × HasLimits rate burst k c)
                  (λ c. Fits s now c × (Dict.get s'.buckets c.key ≡ some (taken_now s now c))) cs
                  limits g.fitting) in
            let (r, u) = facts.0.1 is in
            let most =
              current-IsWithin limit cap (Dict.get s.buckets c.key) c now facts.0.0
                (w.tokens_within c.key) in
            let capped_here : cap c.key ≡ burst = ap cap is ∙ capped in
            let full : pos_part (current_bucket s c now).tokens ≤ burst =
              unfold current_bucket in omega (arith, most.0, capped_here) in
            let before : IsPacedKey rate burst since c.key t s used =
              subst (λ j. IsPacedKey rate burst since j t s used) (sym is) paced in
            let granted_here =
              granted-IsPacedKey rate burst since s t now used c s' h later r u full facts.1.1
                before in
            subst (λ n. IsPacedKey rate burst since k now s' (used + n)) (sym (sum requests_of))
              (subst (λ j. IsPacedKey rate burst since j now s' (used + requests_of c)) is
                granted_here)
      ]

  try_acquire-IsPacedKey :
      (task_id : String) (cs : List RateBucketCheck) (lease_for : ℤ) (id : String) (used : ℕ)
      → NoRepeat (check_keys cs)
      → All (λ c. IsBounded limit cap c × HasLimits rate burst k c) cs
      → IsPacedKey rate burst since k t s used
      → IsPacedKey rate burst since k now
          (try_acquire task_id cs lease_for id now s).1
          (used + granted k (try_acquire task_id cs lease_for id now s).0)
  unfolding granted
  try_acquire-IsPacedKey task_id cs lease_for id used once limits paced =
      let still : IsPacedKey rate burst since k now s (used + 0) =
        subst (IsPacedKey rate burst since k now s) (omega arith)
          (later-IsPacedKey rate burst since k t now s used later paced) in
      elim (try_acquire_lem s task_id cs lease_for id now (All-map cs (λ c b. b.0.paced) limits)
        once) [
          | inl (e, is) ↦ rw is still
          | inr (inl (d, is, deferred, _, _)) ↦ rw (is, deferred) still
          | inr (inr (d, s', is, allows, _, checked, g)) ↦
              rw (is, allows, checked)
                (grant-IsPacedKey s' cs (lease_of id task_id (lease_items cs) lease_for now) used g
                  once limits paced)
        ]

  pub acquire_matches-IsPacedKey :
      (profile : RateLimitProfile) (task : Task) (demand : RateLimitDemand) (lease_for : ℤ)
      (id : String) (used : ℕ) (matches : List Match)
      → All
          (λ m.
            IsBounded limit cap (check_of demand m) × HasLimits rate burst k (check_of demand m))
          matches
      → IsPacedKey rate burst since k t s used
      → IsPacedKey rate burst since k now
          (acquire_matches profile task demand lease_for id now matches s).1
          (used + granted k (acquire_matches profile task demand lease_for id now matches s).0)
  unfolding acquire_matches granted key_sum
  acquire_matches-IsPacedKey profile task demand lease_for id used [] limits paced =
      let still : IsPacedKey rate burst since k now s (used + 0) =
        subst (IsPacedKey rate burst since k now s) (omega arith)
          (later-IsPacedKey rate burst since k t now s used later paced) in
      elim (Bool-cases
        (profile.require_matching_rule && (ltb 0 demand.requests || ltb 0 demand.concurrency))) [
          | inl refuses ↦ rw refuses still
          | inr passes ↦ rw passes still
        ]
  acquire_matches-IsPacedKey profile task demand lease_for id used (m ∷ ms) limits paced =
      let (once, all) =
        compile_checks_lem (λ c. IsBounded limit cap c × HasLimits rate burst k c) (m ∷ ms) demand
          limits in
      try_acquire-IsPacedKey task.task_id (compile_checks (m ∷ ms) demand) lease_for id used once
        all paced
