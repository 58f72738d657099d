-- ===== src/Rates/Spending.antt =====
-- `try_acquire` (recon/policy/rate_limit.py) keeps the invariant of the store.
use night_scout.Prelude.{
  ℕ, ◌+◌, ◌≤◌, String, ◌≡◌, refl, sym, ap, subst, ◌∙◌, inl, inr, none, some, Option, List, [], ◌∷◌,
  arith, All, All-map, All-zip, Bool-cases, Option-cases, string_eq,
}
use night_scout.Prelude.Int.{ℤ}
use night_scout.Prelude.Dict
use night_scout.Prelude.Dict.{Dict, get-put, IsDistinct-put}
use night_scout.Prelude.Dict.Totals.{total, weight, total-put}
use night_scout.Prelude.Sets.{member, NoRepeat}
use night_scout.Rates.Model.{RateKey, key_eq, RateBucketCheck, RateLimitLease, RateLeaseItem}
use night_scout.Rates.Buckets.{Bucket, RateStore, active_at, current_bucket}
use night_scout.Rates.Store.{lease_items, lease_of, new_lease, add_lease, try_acquire}
use night_scout.Rates.Ledger.{item_sum, owed}
use night_scout.Rates.Acquiring.{Fits}
use night_scout.Rates.Examining.{check_keys, taken_now}
use night_scout.Rates.Granting.{
  slots, key_sum, item_sum-key_sum, key_sum-absent, pick, IsGranted, try_acquire_lem,
}
use night_scout.Rates.Sound.{
  IsBounded, IsSound, IsWithin, current-IsWithin, current-active, taken-IsWithin, taken-active,
}

-- what a new lease adds to the slots that the leases hold
leased :
    (k : RateKey) (id task_id : String) (items : List RateLeaseItem) (lease_for : ℤ) (now : ℕ)
    (leases : Dict String RateLimitLease)
    → Dict.get leases id ≡ none
    → total (owed k) (add_lease (lease_of id task_id items lease_for now) leases)
      ≡ total (owed k) leases + item_sum k items
unfolding lease_of add_lease
leased k id task_id [] lease_for now leases fresh = unfold item_sum in omega arith
leased k id task_id (item ∷ items) lease_for now leases fresh =
    let lease = new_lease id task_id (item ∷ items) lease_for now in
    let held : owed k lease ≡ item_sum k (item ∷ items) = unfold owed new_lease in refl in
    let put = total-put (owed k) leases id lease in
    let nothing = ap (weight (owed k)) fresh in
    unfold new_lease in omega (arith, put, held, nothing)

leased-IsDistinct :
    (id task_id : String) (items : List RateLeaseItem) (lease_for : ℤ) (now : ℕ)
    (leases : Dict String RateLimitLease)
    → Dict.IsDistinct leases
    → Dict.IsDistinct (add_lease (lease_of id task_id items lease_for now) leases)
unfolding lease_of add_lease
leased-IsDistinct id task_id [] lease_for now leases u = u
leased-IsDistinct id task_id (item ∷ items) lease_for now leases u =
    IsDistinct-put leases _ (new_lease id task_id (item ∷ items) lease_for now) u

module _ (limit cap : RateKey → ℕ) (s : RateStore) (w : IsSound limit cap s) where
  slots_within-check :
      (now : ℕ) (c : RateBucketCheck)
      → IsBounded limit cap c
      → Fits s now c
      → active_at s c.key + slots c ≤ limit c.key
  slots_within-check now c bounded fit = elim (Option-cases (c.max_concurrency)) [
    | inl m ↦ ground (arith, w.slots_within c.key, m)
    | inr (bound, m) ↦
        let is : (current_bucket s c now).active_concurrency ≡ active_at s c.key =
          unfold current_bucket in current-active limit cap (Dict.get s.buckets c.key) c now in
        ground
          (arith, fit.slots_fit bound m, is, bounded.slots_bounded bound m, w.slots_within c.key, m)
  ]

  module _ (s' : RateStore) (now : ℕ) (cs : List RateBucketCheck) (lease : Option RateLimitLease)
      (g : IsGranted s s' now cs lease) (once : NoRepeat (check_keys cs))
      (bounded : All (IsBounded limit cap) cs) where
    -- all that is known of a check of the acquisition
    abbrev Granted : RateBucketCheck → Type 0
    Granted c =
        IsBounded limit cap c
        × (Fits s now c × (Dict.get s'.buckets c.key ≡ some (taken_now s now c)))

    -- what is known of a key after the acquisition
    record KeyFacts (k : RateKey) : Type 0 where
      pub slots_taken : active_at s' k ≡ active_at s k + item_sum k (lease_items cs)
      pub still_within : active_at s' k ≤ limit k
      pub tokens_still : (b : Bucket) → Dict.get s'.buckets k ≡ some b → IsWithin (cap k) b

    check-KeyFacts :
        (c : RateBucketCheck) → Granted c → key_sum slots c.key cs ≡ slots c → KeyFacts c.key
    check-KeyFacts c (b, (fit, at)) sum =
        let after = taken-active limit cap s now c in
        let before =
          current-IsWithin limit cap (Dict.get s.buckets c.key) c now b (w.tokens_within c.key) in
        let within = taken-IsWithin limit cap s now c b (unfold current_bucket in before) fit in
        record {
          slots_taken = ground (arith, at, after, sum, item_sum-key_sum c.key cs);
          still_within = ground (arith, at, after, slots_within-check now c b fit);
          tokens_still = λ d found.
              let is : taken_now s now c ≡ d = ground (arith, at, found) in
              subst (IsWithin (cap c.key)) is within;
        }

    key_facts : (k : RateKey) → KeyFacts k
    key_facts k = elim (Bool-cases (member k (check_keys cs))) [
      | inl within ↦
          let (c, facts, is, sum) = pick Granted k cs once within (
            All-zip (IsBounded limit cap)
              (λ c. Fits s now c × (Dict.get s'.buckets c.key ≡ some (taken_now s now c))) cs
              bounded g.fitting) in
          subst KeyFacts is (check-KeyFacts c facts (ap (λ x. key_sum slots x cs) is ∙ sum slots))
      | inr out ↦
          let same = g.others k out in
          record {
            slots_taken =
                ground (arith, same, item_sum-key_sum k cs, key_sum-absent slots k cs out);
            still_within = ground (arith, same, w.slots_within k);
            tokens_still = λ b found. w.tokens_within k b (sym same ∙ found);
          }
    ]

  -- A grant keeps the invariant.
  granted-IsSound :
      (s' : RateStore) (now : ℕ) (cs : List RateBucketCheck) (id task_id : String) (lease_for : ℤ)
      → IsGranted s s' now cs (lease_of id task_id (lease_items cs) lease_for now)
      → NoRepeat (check_keys cs)
      → All (IsBounded limit cap) cs
      → Dict.get s.leases id ≡ none
      → IsSound limit cap s'
  granted-IsSound s' now cs id task_id lease_for g once bounded fresh =
      let facts =
        key_facts s' now cs (lease_of id task_id (lease_items cs) lease_for now) g once bounded in
      record {
        balance = record {
          balanced = λ k.
              let more = leased k id task_id (lease_items cs) lease_for now s.leases fresh in
              let is = ap (total (owed k)) g.leases_are in
              omega (arith, (facts k).slots_taken, w.balance.balanced k, more, is);
          distinct = subst Dict.IsDistinct (sym g.leases_are) (
              leased-IsDistinct id task_id (lease_items cs) lease_for now s.leases
                w.balance.distinct);
        };
        slots_within = λ k. (facts k).still_within;
        tokens_within = λ k. (facts k).tokens_still;
      }

  pub try_acquire-IsSound :
      (task_id : String) (cs : List RateBucketCheck) (lease_for : ℤ) (id : String) (now : ℕ)
      → NoRepeat (check_keys cs)
      → All (IsBounded limit cap) cs
      → Dict.get s.leases id ≡ none
      → IsSound limit cap (try_acquire task_id cs lease_for id now s).1
  try_acquire-IsSound task_id cs lease_for id now once bounded fresh =
      elim (try_acquire_lem s task_id cs lease_for id now (All-map cs (λ c b. b.paced) bounded)
        once) [
          | inl (e, is) ↦ rw is w
          | inr (inl (d, is, _, _, _)) ↦ rw is w
          | inr (inr (d, s', is, _, _, _, g)) ↦
              rw is (granted-IsSound s' now cs id task_id lease_for g once bounded fresh)
        ]
