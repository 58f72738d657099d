-- ===== src/Rates/Runs.antt =====
-- Whole runs of a rate limiter over the in-memory store (recon/policy/rate_limit.py).
use night_scout.Prelude.{
  ℕ, ◌≤◌, String, ◌≡◌, refl, sym, ◌∙◌, ap, ◌⊎◌, inl, inr, true, some, none, List, [], ◌∷◌, arith,
  All, All-map, leb, ltb, ◌&&◌, ◌||◌, string_eq, Bool-cases, Option-cases,
}
use night_scout.Prelude.Dict
use night_scout.Prelude.Dict.{
  Dict, get-put, get-empty, values-All, IsDistinct-put, IsDistinct-empty,
}
use night_scout.Prelude.Dict.Totals.{total, weight, total-put, total-empty}
use night_scout.Prelude.Int.{ℤ, is_nonpositive, shift, pos_part, neg_part}
use night_scout.Prelude.Exec.{Error, key_error, value_error, ok, err}
use night_scout.Queue.Task.{Task}
use night_scout.Rates.Model.{
  tolerance, RateKey, key_eq, is_active, RateLimitProfile, RateLimitContext, RateLimitDemand,
  RateLimitLease,
}
use night_scout.Rates.Buckets.{Bucket, RateStore, active_at}
use night_scout.Rates.Store.{require_active_lease, active_or_raise, release, renew}
use night_scout.Rates.Limiter.{
  Match, matching_rule_resources, check_of, compile_checks, acquire_matches, acquire, renew_for,
  reap_now,
}
use night_scout.Rates.Ledger.{timing, timing-some, owed, release-item_sum}
use night_scout.Rates.Compiling.{compile_checks_lem}
use night_scout.Rates.Sound.{IsBounded, IsSound}
use night_scout.Rates.Spending.{try_acquire-IsSound}
use night_scout.Rates.Reaping.{reap_expired-reaped}
use night_scout.Rates.Profile.{
  IsValidProfile, slots_limit, burst_limit, check_of-IsBounded, matching-IsOwn,
}

-- A lease is looked up and active, or the lookup raises.
pub require_active_lease-cases :
    (s : RateStore) (id : String)
    → ((e : Error) × (require_active_lease s id ≡ err e))
      ⊎ ((lease : RateLimitLease) × (Dict.get s.leases id ≡ some lease)
          × (is_active lease.state ≡ true)
          × (require_active_lease s id ≡ ok lease))
unfolding require_active_lease active_or_raise
require_active_lease-cases s id = elim (Option-cases (Dict.get s.leases id)) [
  | inl missing ↦ inl (key_error, rw missing refl)
  | inr (lease, at) ↦ elim (Bool-cases (is_active lease.state)) [
    | inl runs ↦ inr (lease, at, runs, rw (at, runs) refl)
    | inr over ↦ inl (value_error, rw (at, over) refl)
  ]
]

module _ (limit cap : RateKey → ℕ) (s : RateStore) (w : IsSound limit cap s) where
  release-IsSound : (id : String) → IsSound limit cap (release id s).1
  release-IsSound id = elim (require_active_lease-cases s id) [
    | inl (e, raises) ↦ unfold release in rw raises w
    | inr (lease, at, runs, _) ↦
        let (s', does, back, kept, balanced) = release-item_sum s id lease w.balance at runs in
        rw does (record {
          balance = balanced;
          slots_within = λ k. omega (arith, back k, w.slots_within k);
          tokens_within = λ k b found.
              let (n, there) =
                timing-some (Dict.get s.buckets k) b (sym (kept k) ∙ ap timing found) in
              w.tokens_within k (record b { active_concurrency = n }) there;
        })
  ]

  renewed-IsSound :
      (id : String) (lease : RateLimitLease) (until : ℕ)
      → Dict.get s.leases id ≡ some lease
      → IsSound limit cap
          (record s { leases = Dict.put s.leases id (record lease { expires_at = until }) })
  renewed-IsSound id lease until at = record {
    balance = record {
      balanced = λ k.
          let put = total-put (owed k) s.leases id (record lease { expires_at = until }) in
          let same : owed k (record lease { expires_at = until }) ≡ owed k lease =
            unfold owed in refl in
          let held = ap (weight (owed k)) at in
          omega (arith, w.balance.balanced k, put, same, held);
      distinct =
          IsDistinct-put s.leases id (record lease { expires_at = until }) w.balance.distinct;
    };
    slots_within = w.slots_within;
    tokens_within = w.tokens_within;
  }

  renew_for-IsSound :
      (id : String) (lease_for : ℤ) (now : ℕ) → IsSound limit cap (renew_for id lease_for now s).1
  unfolding renew_for renew
  renew_for-IsSound id lease_for now = elim (Bool-cases (is_nonpositive lease_for)) [
    | inl bad ↦ rw bad w
    | inr good ↦ elim (require_active_lease-cases s id) [
      | inl (e, raises) ↦ rw (good, raises) w
      | inr (lease, at, _, found) ↦ elim (Bool-cases (leb (shift now lease_for) now)) [
        | inl past ↦ rw (good, found, past) w
        | inr future ↦ rw (good, found, future) (renewed-IsSound id lease (shift now lease_for) at)
      ]
    ]
  ]

acquire_matches-IsSound :
    (limit cap : RateKey → ℕ) (profile : RateLimitProfile) (s : RateStore) (task : Task)
    (demand : RateLimitDemand) (lease_for : ℤ) (id : String) (now : ℕ) (matches : List Match)
    → IsSound limit cap s
    → All (λ m. IsBounded limit cap (check_of demand m)) matches
    → Dict.get s.leases id ≡ none
    → IsSound limit cap (acquire_matches profile task demand lease_for id now matches s).1
unfolding acquire_matches
acquire_matches-IsSound limit cap profile s task demand lease_for id now [] w bounded fresh =
    elim (Bool-cases
      (profile.require_matching_rule && (ltb 0 demand.requests || ltb 0 demand.concurrency))) [
        | inl deny ↦ rw deny w
        | inr allow ↦ rw allow w
      ]
acquire_matches-IsSound limit cap profile s task demand lease_for id now (m ∷ ms) w bounded fresh =
    let (once, all) = compile_checks_lem (IsBounded limit cap) (m ∷ ms) demand bounded in
    try_acquire-IsSound limit cap s w task.task_id (compile_checks (m ∷ ms) demand) lease_for id now
      once all fresh

abbrev pub no_usage : RateStore
no_usage = record { buckets = Dict.empty; leases = Dict.empty }

module _ (profile : RateLimitProfile) where
  -- A call of the limiter, with the clock reading and the new identifier that it meets.
  pub data Command : Type 0 where
    acquire_call :
        (task : Task) (context : RateLimitContext) (demand : RateLimitDemand) (lease_for : ℤ)
        (id : String) (now : ℕ)
        → Command
    release_call : (id : String) → Command
    renew_call : (id : String) (lease_for : ℤ) (now : ℕ) → Command
    reap_call : (now : ℕ) → Command

  -- the store after a call, whether it returned or raised
  unfoldable pub run : Command → RateStore → RateStore
  run (acquire_call task context demand lease_for id now) s =
      (acquire profile task context demand lease_for id now s).1
  run (release_call id) s = (release id s).1
  run (renew_call id lease_for now) s = (renew_for id lease_for now s).1
  run (reap_call now) s = (reap_now now s).1

  -- The identifier of a new lease is new, as `uuid4` makes it.
  abbrev pub IsFresh : Command → RateStore → Type 0
  IsFresh (acquire_call task context demand lease_for id now) s = Dict.get s.leases id ≡ none
  IsFresh _ s = Unit

  -- The stores that calls lead to from an empty store.
  pub data Reach : RateStore → Type 0 where
    start : Reach no_usage
    call : {s : RateStore} → Reach s → (c : Command) → IsFresh c s → Reach (run c s)

  module _ (v : IsValidProfile profile) where
    acquire-IsSound :
        (task : Task) (context : RateLimitContext) (demand : RateLimitDemand) (lease_for : ℤ)
        (id : String) (now : ℕ) (s : RateStore)
        → Dict.get s.leases id ≡ none
        → IsSound (slots_limit profile) (burst_limit profile) s
        → IsSound
            (slots_limit profile)
            (burst_limit profile)
            (acquire profile task context demand lease_for id now s).1
    unfolding acquire
    acquire-IsSound task context demand lease_for id now s fresh w =
        elim (Bool-cases (is_nonpositive lease_for)) [
          | inl bad ↦ rw bad w
          | inr good ↦ rw good (
              acquire_matches-IsSound (slots_limit profile) (burst_limit profile) profile s task
                demand lease_for id now (matching_rule_resources profile task context) w
                (All-map (matching_rule_resources profile task context)
                  (check_of-IsBounded profile demand) (matching-IsOwn profile task context v))
                fresh)
        ]

    pub run-IsSound :
        (c : Command) (s : RateStore)
        → IsFresh c s
        → IsSound (slots_limit profile) (burst_limit profile) s
        → IsSound (slots_limit profile) (burst_limit profile) (run c s)
    unfolding run reap_now
    run-IsSound (acquire_call task context demand lease_for id now) s fresh w =
        acquire-IsSound task context demand lease_for id now s fresh w
    run-IsSound (release_call id) s fresh w =
        release-IsSound (slots_limit profile) (burst_limit profile) s w id
    run-IsSound (renew_call id lease_for now) s fresh w =
        renew_for-IsSound (slots_limit profile) (burst_limit profile) s w id lease_for now
    run-IsSound (reap_call now) s fresh w =
        let (_, sound, _, _) =
          reap_expired-reaped (slots_limit profile) (burst_limit profile) now s w in
        sound

    no_usage-IsSound : IsSound (slots_limit profile) (burst_limit profile) no_usage
    no_usage-IsSound = record {
      balance = record {
        balanced = λ k. ground (arith, get-empty {V = Bucket} k, total-empty String (owed k));
        distinct = IsDistinct-empty String RateLimitLease;
      };
      slots_within = λ k. ground (arith, get-empty {V = Bucket} k);
      tokens_within = λ k b at. absurd (ground (arith, get-empty {V = Bucket} k, at));
    }

    pub Reach-IsSound :
        {s : RateStore} → Reach s → IsSound (slots_limit profile) (burst_limit profile) s
    Reach-IsSound start = no_usage-IsSound
    Reach-IsSound (call {s = s} before c fresh) = run-IsSound c s fresh (Reach-IsSound before)

    -- Whatever calls are made of a rate limiter with a valid profile (its rules passed validation and
    -- have different ids) from an empty store, with a new identifier for each lease, under each key
    -- no more slots are in use than the rule of the key allows, as many as the active leases hold,
    -- and the tokens lie between minus the tolerance and the rule's burst.
    pub never_over_limit :
        (s : RateStore)
        → Reach s
        → (k : RateKey)
        → (active_at s k ≤ slots_limit profile k)
          × (active_at s k ≡ total (owed k) s.leases)
          × ((b : Bucket)
              → Dict.get s.buckets k ≡ some b
              → (pos_part b.tokens ≤ burst_limit profile k) × (neg_part b.tokens ≤ tolerance))
    never_over_limit s r k =
        let w = Reach-IsSound r in (w.slots_within k, w.balance.balanced k, w.tokens_within k)
