-- ===== src/Rates/Ledger.antt =====
-- The slots of `InMemoryRateLimitStore` (recon/policy/rate_limit.py): those in use under a key are those
-- that the active leases hold under it.
use night_scout.Prelude.{
  ℕ, ◌+◌, ◌-◌, ltb, String, ◌≡◌, refl, sym, ap, subst, ◌∙◌, inl, inr, true, false, none, some,
  Option, List, [], ◌∷◌, ◌==◌, ==_iff, eqb, arith, if◌then◌else◌, string_eq, Bool-cases,
  Option-cases,
}
use night_scout.Prelude.Int.{ℤ}
use night_scout.Prelude.Dict
use night_scout.Prelude.Dict.{Dict, get-put, get-empty, IsDistinct-put, IsDistinct-empty}
use night_scout.Prelude.Dict.Totals.{total, weight, total-put}
use night_scout.Prelude.Exec.{ok, after-ok}
use night_scout.Rates.Model.{
  RateKey, key_eq, is_active, RateLeaseItem, RateLimitLease, RateLeaseState, released,
}
use night_scout.Rates.Buckets.{Bucket, RateStore, active_at}
use night_scout.Rates.Store.{
  release_item, release_lease_items, write_state, release, require_active_lease, active_or_raise,
}

-- what a list of items holds under a key
unfoldable pub item_sum : RateKey → List RateLeaseItem → ℕ
item_sum key [] = 0
item_sum key (item ∷ items) =
    let rest = item_sum key items in if item.key == key then item.concurrency + rest else rest

-- what a lease holds under a key while it is active
unfoldable pub owed : RateKey → RateLimitLease → ℕ
owed key lease = if is_active lease.state then item_sum key lease.items else 0

-- Under each key as many slots are in use as the active leases hold; no lease stands twice.
pub record IsBalanced (s : RateStore) : Type 0 where
  pub balanced : (k : RateKey) → active_at s k ≡ total (owed k) s.leases
  pub distinct : Dict.IsDistinct s.leases

-- a bucket without its slots
abbrev pub timing : Option Bucket → Option (ℤ × ℕ)
timing none = none
timing (some b) = some (b.tokens, b.last_refill_at)

-- Only the slots of the buckets differ.
pub record SameTokens (s s' : RateStore) : Type 0 where
  pub same_leases : s'.leases ≡ s.leases
  pub same_timing : (k : RateKey) → timing (Dict.get s'.buckets k) ≡ timing (Dict.get s.buckets k)

SameTokens-refl : (s : RateStore) → SameTokens s s
SameTokens-refl s = record { same_leases = refl; same_timing = λ k. refl }

SameTokens-trans : (s t u : RateStore) → SameTokens s t → SameTokens t u → SameTokens s u
SameTokens-trans s t u f g = record {
  same_leases = g.same_leases ∙ f.same_leases;
  same_timing = λ k. g.same_timing k ∙ f.same_timing k;
}

-- A bucket has the timing that stands under its key in the other store.
pub timing-some :
    (o : Option Bucket) (b : Bucket)
    → timing o ≡ timing (some b)
    → (n : ℕ) × (o ≡ some (record b { active_concurrency = n }))
timing-some none b h = absurd (ground (arith, h))
timing-some (some a) b h = (a.active_concurrency, ground (arith, h))

taken_from : RateKey → Bucket → ℕ → RateStore → RateStore
taken_from key b left s = record s {
  buckets = Dict.put s.buckets key (record b { active_concurrency = left });
}

taken_from-SameTokens :
    (key : RateKey) (b : Bucket) (left : ℕ) (s : RateStore)
    → Dict.get s.buckets key ≡ some b
    → SameTokens s (taken_from key b left s)
unfolding taken_from
taken_from-SameTokens key b left s at = record {
  same_leases = refl;
  same_timing = λ k. elim (Bool-cases (key == k)) [
    | inl same ↦
        let is : Dict.get s.buckets k ≡ some b =
          ap (Dict.get s.buckets) (sym ((==_iff key k).0 same)) ∙ at in
        ground (arith, get-put s.buckets key k (record b { active_concurrency = left }), same, is)
    | inr other ↦
        ground (arith, get-put s.buckets key k (record b { active_concurrency = left }), other)
  ];
}

-- Giving back slots that the ledger covers raises nothing.
release_item_lem :
    (item : RateLeaseItem) (s : RateStore) (left : ℕ)
    → active_at s item.key ≡ item.concurrency + left
    → ((release_item item s).0 ≡ ok tt)
      × ((k : RateKey)
          → active_at (release_item item s).1 k ≡ (if item.key == k then left else active_at s k))
      × SameTokens s (release_item item s).1
unfolding release_item
release_item_lem item s left h = elim (Bool-cases (eqb item.concurrency 0)) [
  | inl nothing ↦ rw nothing (
    refl,
    (λ k. elim (Bool-cases (item.key == k)) [
      | inl same ↦
          let is = ap (active_at s) ((==_iff item.key k).0 same) in
          ground (arith, same, is, h, nothing)
      | inr other ↦ ground (arith, other)
    ]),
    SameTokens-refl s,
  )
  | inr some_slots ↦ elim (Option-cases (Dict.get s.buckets item.key)) [
    | inl missing ↦ absurd (ground (arith, h, missing, some_slots))
    | inr (b, at) ↦
        let counted : b.active_concurrency ≡ item.concurrency + left = ground (arith, h, at) in
        let covered : ltb b.active_concurrency item.concurrency ≡ false = ground (arith, counted) in
        let rest : b.active_concurrency - item.concurrency ≡ left = omega (arith, counted) in
        rw (some_slots, at, covered, rest)
          (
            refl,
            (λ k.
                ground
                  (arith, get-put s.buckets item.key k (record b { active_concurrency = left }))),
            (unfold taken_from in taken_from-SameTokens item.key b left s at),
          )
  ]
]

abbrev pub Covers : (RateKey → ℕ) → List RateLeaseItem → RateStore → Type 0
Covers rest items s = (k : RateKey) → active_at s k ≡ item_sum k items + rest k

first_item_lem :
    (item : RateLeaseItem) (items : List RateLeaseItem) (s : RateStore) (rest : RateKey → ℕ)
    → Covers rest (item ∷ items) s
    → ((release_item item s).0 ≡ ok tt)
      × Covers rest items (release_item item s).1
      × SameTokens s (release_item item s).1
unfolding item_sum
first_item_lem item items s rest c =
    let left = item_sum item.key items + rest item.key in
    let before : active_at s item.key ≡ item.concurrency + left =
      ground (arith, c item.key, ==_iff item.key item.key) in
    let (done, keys, same) = release_item_lem item s left before in
    (
      done,
      (λ k. elim (Bool-cases (item.key == k)) [
        | inl equal ↦
            let is : item.key ≡ k = (==_iff item.key k).0 equal in
            let moved : left ≡ item_sum k items + rest k = ap (λ x. item_sum x items + rest x) is in
            ground (arith, keys k, equal, moved)
        | inr other ↦ ground (arith, keys k, c k, other)
      ]),
      same,
    )

-- Giving back items that the ledger covers raises nothing and leaves the rest.
pub release_lease_items_lem :
    (items : List RateLeaseItem) (s : RateStore) (rest : RateKey → ℕ)
    → Covers rest items s
    → ((release_lease_items items s).0 ≡ ok tt)
      × ((k : RateKey) → active_at (release_lease_items items s).1 k ≡ rest k)
      × SameTokens s (release_lease_items items s).1
unfolding release_lease_items item_sum
release_lease_items_lem [] s rest c = (refl, (λ k. omega (arith, c k)), SameTokens-refl s)
release_lease_items_lem (item ∷ items) s rest c =
    let (done, covers, same) = first_item_lem item items s rest c in
    let t = (release_item item s).1 in
    let (ok_rest, left, same_rest) = release_lease_items_lem items t rest covers in
    rw (after-ok (release_item item s) tt (λ _ u. release_lease_items items u) done)
      (ok_rest, left, SameTokens-trans s t (release_lease_items items t).1 same same_rest)

module _ (s : RateStore) (id : String) (lease : RateLimitLease) (st : RateLeaseState)
    (w : IsBalanced s) (at : Dict.get s.leases id ≡ some lease)
    (runs : is_active lease.state ≡ true) (ends : is_active st ≡ false) where
  -- the leases once `lease` is over
  unfoldable pub closed : Dict String RateLimitLease
  closed = Dict.put s.leases id (record lease { state = st })

  closed-Covers : Covers (λ k. total (owed k) closed) lease.items s
  unfolding closed
  closed-Covers k =
      let put = total-put (owed k) s.leases id (record lease { state = st }) in
      let held = ap (weight (owed k)) at in
      let before : owed k lease ≡ item_sum k lease.items = unfold owed in rw runs refl in
      let behind : owed k (record lease { state = st }) ≡ 0 = unfold owed in rw ends refl in
      omega (arith, put, held, w.balanced k, before, behind)

  -- Giving back the items of an active lease raises nothing, and with the lease written as over the
  -- store is balanced; under each key the slots in use fall by what the items hold.
  pub release_lease_items-IsBalanced :
      ((release_lease_items lease.items s).0 ≡ ok tt)
      × SameTokens s (release_lease_items lease.items s).1
      × ((k : RateKey)
          → active_at (release_lease_items lease.items s).1 k + item_sum k lease.items
            ≡ active_at s k)
      × IsBalanced (write_state id lease st (release_lease_items lease.items s).1)
  unfolding closed
  release_lease_items-IsBalanced =
      let (done, left, same) =
        release_lease_items_lem lease.items s (λ k. total (owed k) closed) closed-Covers in
      let t = (release_lease_items lease.items s).1 in
      let is : closed ≡ (write_state id lease st t).leases =
        ap (λ d. Dict.put d id (record lease { state = st })) (sym same.same_leases) in
      (
        done,
        same,
        (λ k. omega (arith, left k, closed-Covers k)),
        record {
          balanced = λ k. left k ∙ ap (total (owed k)) is;
          distinct =
              subst Dict.IsDistinct is
                (IsDistinct-put s.leases id (record lease { state = st }) w.distinct);
        },
      )

require_active_lease-ok :
    (s : RateStore) (id : String) (lease : RateLimitLease)
    → Dict.get s.leases id ≡ some lease
    → is_active lease.state ≡ true
    → require_active_lease s id ≡ ok lease
unfolding require_active_lease active_or_raise
require_active_lease-ok s id lease at runs = rw (at, runs) refl

-- In a balanced store, releasing an active lease returns it as RELEASED; under each key the slots in
-- use fall by exactly what its items hold, no tokens come back, and the store is balanced.
pub release-item_sum :
    (s : RateStore) (id : String) (lease : RateLimitLease)
    → IsBalanced s
    → Dict.get s.leases id ≡ some lease
    → is_active lease.state ≡ true
    → (s' : RateStore) × (release id s ≡ (ok (record lease { state = released }), s'))
      × ((k : RateKey) → active_at s' k + item_sum k lease.items ≡ active_at s k)
      × ((k : RateKey) → timing (Dict.get s'.buckets k) ≡ timing (Dict.get s.buckets k))
      × IsBalanced s'
unfolding release
release-item_sum s id lease w at runs =
    let (done, same, back, balanced) =
      release_lease_items-IsBalanced s id lease released w at runs refl in
    let t = (release_lease_items lease.items s).1 in
    (
      write_state id lease released t,
      rw (require_active_lease-ok s id lease at runs) (
          after-ok (release_lease_items lease.items s) tt
            (λ _ u. (ok (record lease { state = released }), write_state id lease released u))
            done),
      back,
      same.same_timing,
      balanced,
    )
