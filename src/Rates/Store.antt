-- ===== src/Rates/Store.antt =====
-- `InMemoryRateLimitStore` (recon/policy/rate_limit.py). Each method runs under the store's lock, so a
-- method is one step. The clock and a new lease's id are arguments.
use night_scout.Prelude.{
  ℕ, ◌-◌, max, String, Bool, Option, none, some, List, [], ◌∷◌, leb, ltb, eqb, ◌&&◌, if◌then◌else◌,
  string_eq,
}
use night_scout.Prelude.Int.{ℤ, is_negative, is_nonpositive, shift}
use night_scout.Prelude.Dict
use night_scout.Prelude.Dict.{Dict}
use night_scout.Prelude.Exec.{
  value_error, key_error, runtime_error, Result, ok, err, Exec, after, check,
}
use night_scout.Rates.Buckets.{Bucket, RateStore, examine_all}
use night_scout.Rates.Model.{
  RateKey, key_eq, is_active, active, released, expired, RateLeaseState, RateBucketCheck,
  RateLimitViolation, RateLeaseItem, RateLimitLease, RateLimitDecision, RateBucketState,
  RateLimitOutcome, allow, defer,
}

unfoldable pub longest : List RateLimitViolation → ℕ
longest [] = 0
longest (v ∷ violations) = max v.retry_after_seconds (longest violations)

unfoldable pub write_buckets : List (RateKey × Bucket) → Dict RateKey Bucket → Dict RateKey Bucket
write_buckets [] buckets = buckets
write_buckets ((key, b) ∷ projected) buckets = write_buckets projected (Dict.put buckets key b)

-- `lease_items`
unfoldable pub lease_items : List RateBucketCheck → List RateLeaseItem
lease_items [] = []
lease_items (check ∷ checks) =
    let rest = lease_items checks in
    elim (check.max_concurrency) [
      | none ↦ rest
      | some bound ↦
          if ltb 0 check.concurrency
          then record { key = check.key; concurrency = check.concurrency } ∷ rest
          else rest
    ]

unfoldable pub new_lease : String → String → List RateLeaseItem → ℤ → ℕ → RateLimitLease
new_lease id task_id items lease_for now = record {
  lease_id = id;
  task_id = task_id;
  items = items;
  created_at = now;
  expires_at = shift now lease_for;
  state = active;
}

-- `if lease_items: …`: the lease, and the leases with it
unfoldable pub lease_of : String → String → List RateLeaseItem → ℤ → ℕ → Option RateLimitLease
lease_of id task_id [] lease_for now = none
lease_of id task_id (item ∷ items) lease_for now =
    some (new_lease id task_id (item ∷ items) lease_for now)

unfoldable pub add_lease :
    Option RateLimitLease → Dict String RateLimitLease → Dict String RateLimitLease
add_lease none leases = leases
add_lease (some lease) leases = Dict.put leases lease.lease_id lease

abbrev pub bare_decision : RateLimitOutcome → String → RateLimitDecision
bare_decision outcome task_id = record {
  outcome = outcome;
  task_id = task_id;
  lease = none;
  violations = [];
  checked_buckets = [];
  reason = none;
  retry_after_seconds = none;
}

-- the end of `try_acquire`
unfoldable pub settle :
    String
    → List RateBucketCheck
    → Option RateLimitLease
    → List RateLimitViolation × Dict RateKey Bucket
    → Exec RateStore RateLimitDecision
settle task_id checks lease ([], projected) s = (
  ok (record (bare_decision allow task_id) { lease = lease; checked_buckets = checks }),
  record {
    buckets = write_buckets (Dict.items projected) s.buckets;
    leases = add_lease lease s.leases;
  },
)
settle task_id checks lease (v ∷ violations, projected) s = (
  ok (record (bare_decision defer task_id) {
    violations = v ∷ violations;
    checked_buckets = checks;
    reason = some "shared rate-limit capacity is temporarily exhausted";
    retry_after_seconds = some (longest (v ∷ violations));
  }),
  s,
)

unfoldable pub try_acquire :
    String → List RateBucketCheck → ℤ → String → ℕ → Exec RateStore RateLimitDecision
unfolding settle
try_acquire task_id checks lease_for id now s =
    if is_nonpositive lease_for
    then (err value_error, s)
    else check (examine_all s now checks Dict.empty)
        (settle task_id checks (lease_of id task_id (lease_items checks) lease_for now)) s

unfoldable pub active_or_raise : Option RateLimitLease → Result RateLimitLease
active_or_raise none = err key_error
active_or_raise (some lease) = if is_active lease.state then ok lease else err value_error

-- `_require_active_lease`
unfoldable pub require_active_lease : RateStore → String → Result RateLimitLease
unfolding active_or_raise
require_active_lease s lease_id = active_or_raise (Dict.get s.leases lease_id)

-- one round of `_release_lease_items`
unfoldable pub release_item : RateLeaseItem → Exec RateStore (Unit {0})
release_item item s =
    if eqb item.concurrency 0 then (ok tt, s) else elim (Dict.get s.buckets item.key) [
      | none ↦ (err runtime_error, s)
      | some bucket ↦
          if ltb bucket.active_concurrency item.concurrency then (err runtime_error, s) else (
            ok tt,
            record s {
              buckets = Dict.put s.buckets item.key (record bucket {
                active_concurrency = bucket.active_concurrency - item.concurrency;
              });
            },
          )
    ]

-- `_release_lease_items`
unfoldable pub release_lease_items : List RateLeaseItem → Exec RateStore (Unit {0})
release_lease_items [] s = (ok tt, s)
release_lease_items (item ∷ items) s =
    after (release_item item s) λ _ t. release_lease_items items t

-- `self._leases[lease_id] = lease.model_copy(update={"state": …})`
abbrev pub write_state : String → RateLimitLease → RateLeaseState → RateStore → RateStore
write_state id lease state s = record s {
  leases = Dict.put s.leases id (record lease { state = state });
}

unfoldable pub release : String → Exec RateStore RateLimitLease
release id s =
    check (require_active_lease s id)
      (λ lease s.
        after (release_lease_items lease.items s)
          λ _ t. (ok (record lease { state = released }), write_state id lease released t))
      s

unfoldable pub renew : String → ℕ → ℕ → Exec RateStore RateLimitLease
renew id expires_at now s =
    check (require_active_lease s id)
      (λ lease s. if leb expires_at now then (err value_error, s) else (
        ok (record lease { expires_at = expires_at }),
        record s { leases = Dict.put s.leases id (record lease { expires_at = expires_at }) },
      ))
      s

-- the test of `reap_expired`
abbrev pub is_due : ℕ → RateLimitLease → Bool
is_due now lease = is_active lease.state && leb lease.expires_at now

unfoldable pub reap : List (String × RateLimitLease) → ℕ → Exec RateStore (List RateLimitLease)
reap [] now s = (ok [], s)
reap ((id, lease) ∷ rest) now s =
    let skip = reap rest now s in
    let take_back = after (release_lease_items lease.items s) λ _ t.
      after (reap rest now (write_state id lease expired t))
        λ reaped u. (ok (record lease { state = expired } ∷ reaped), u) in
    if is_due now lease then take_back else skip

-- `list(self._leases.items())`
unfoldable pub reap_expired : ℕ → Exec RateStore (List RateLimitLease)
reap_expired now s = reap (Dict.items s.leases) now s

unfoldable pub get_lease : RateStore → String → Option RateLimitLease
get_lease s lease_id = Dict.get s.leases lease_id

-- The state that is returned is validated: negative tokens raise.
unfoldable pub bucket_state : RateStore → RateKey → Result (Option RateBucketState)
bucket_state s key = elim (Dict.get s.buckets key) [
  | none ↦ ok none
  | some bucket ↦
      if is_negative bucket.tokens
      then err value_error
      else ok (
          some (record {
            key = key;
            tokens = bucket.tokens;
            last_refill_at = bucket.last_refill_at;
            active_concurrency = bucket.active_concurrency;
          }))
]
