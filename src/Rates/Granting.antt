-- ===== src/Rates/Granting.antt =====
-- `try_acquire` (recon/policy/rate_limit.py): all or nothing, and what all is.
use night_scout.Prelude.{
  ℕ, ◌+◌, String, ◌≡◌, refl, sym, ap, subst, ◌∙◌, ◌≢◌, ◌⊎◌, inl, inr, true, false, none, some,
  Option, List, [], ◌∷◌, ◌==◌, ==_iff, arith, All, All-map, if◌then◌else◌, Bool-cases, string_eq,
}
use night_scout.Prelude.Int.{ℤ, is_nonpositive}
use night_scout.Prelude.Dict
use night_scout.Prelude.Dict.{Dict, get-put, get-empty, IsDistinct-put, IsDistinct-empty}
use night_scout.Prelude.Sets.{member, NoRepeat}
use night_scout.Prelude.Exec.{Result, ok, err, Error, value_error, Result-cases}
use night_scout.Rates.Model.{
  RateKey, key_eq, RateBucketCheck, RateLimitViolation, RateLimitDecision, RateLimitLease, allow,
  defer,
}
use night_scout.Rates.Buckets.{Bucket, RateStore, examine_all}
use night_scout.Rates.Store.{
  write_buckets, lease_items, lease_of, add_lease, settle, try_acquire, bare_decision,
}
use night_scout.Rates.Ledger.{item_sum}
use night_scout.Rates.Acquiring.{IsPaced, Fits}
use night_scout.Rates.Examining.{
  check_keys, taken_now, or_else, IsExamined, examine_all-IsExamined, write_buckets_lem,
}

-- the slots that a check takes
abbrev pub slots : RateBucketCheck → ℕ
slots c = elim (c.max_concurrency) [ none ↦ 0 | some bound ↦ c.concurrency ]

-- the sum of a number of the checks with a key
unfoldable pub key_sum : (RateBucketCheck → ℕ) → RateKey → List RateBucketCheck → ℕ
key_sum f k [] = 0
key_sum f k (c ∷ cs) = let rest = key_sum f k cs in if c.key == k then f c + rest else rest

-- The lease items hold what the checks take.
pub item_sum-key_sum :
    (k : RateKey) (cs : List RateBucketCheck) → item_sum k (lease_items cs) ≡ key_sum slots k cs
unfolding lease_items item_sum key_sum
item_sum-key_sum k [] = refl
item_sum-key_sum k (c ∷ cs) = let ih = item_sum-key_sum k cs in ground (arith, ih)

-- Checks with other keys add nothing.
pub key_sum-absent :
    (f : RateBucketCheck → ℕ) (k : RateKey) (cs : List RateBucketCheck)
    → member k (check_keys cs) ≡ false
    → key_sum f k cs ≡ 0
unfolding key_sum
key_sum-absent f k [] h = refl
key_sum-absent f k (c ∷ cs) h =
    ground (arith, key_sum-absent f k cs, h, ==_iff c.key k, ==_iff k c.key)

-- The one check with a key.
pub pick :
    (P : RateBucketCheck → Type 0) (k : RateKey) (cs : List RateBucketCheck)
    → NoRepeat (check_keys cs)
    → member k (check_keys cs) ≡ true
    → All P cs
    → (c : RateBucketCheck) × P c × (c.key ≡ k) × ((f : RateBucketCheck → ℕ) → key_sum f k cs ≡ f c)
unfolding key_sum
pick P k [] once h p = absurd (ground arith)
pick P k (c ∷ cs) once h p = elim (Bool-cases (k == c.key)) [
  | inl same ↦
      let is : k ≡ c.key = (==_iff k c.key).0 same in
      let out : member k (check_keys cs) ≡ false =
        subst (λ x. member x (check_keys cs) ≡ false) (sym is) once.0 in
      (c, p.0, sym is, λ f. ground (arith, key_sum-absent f k cs out, ==_iff c.key k, is))
  | inr other ↦
      let (d, pd, at, sum) = pick P k cs once.1 (ground (arith, h, other)) p.1 in
      (d, pd, at, λ f. ground (arith, sum f, other, ==_iff c.key k, ==_iff k c.key))
]

-- What an acquisition that is allowed does: each check fits and takes its share of its bucket, the
-- other buckets stay, and the lease is added.
pub record IsGranted (s s' : RateStore) (now : ℕ) (cs : List RateBucketCheck)
    (lease : Option RateLimitLease) : Type 0 where
  pub fitting : All (λ c. Fits s now c × (Dict.get s'.buckets c.key ≡ some (taken_now s now c))) cs
  pub others :
      (k : RateKey)
      → member k (check_keys cs) ≡ false
      → Dict.get s'.buckets k ≡ Dict.get s.buckets k
  pub leases_are : s'.leases ≡ add_lease lease s.leases

module _ (s : RateStore) (now : ℕ) (lease : Option RateLimitLease) (q : Dict RateKey Bucket) where
  granted : RateStore
  granted = record {
    buckets = write_buckets (Dict.items q) s.buckets;
    leases = add_lease lease s.leases;
  }

  granted-IsGranted :
      (cs : List RateBucketCheck)
      → IsExamined s now cs Dict.empty q
      → IsGranted s granted now cs lease
  unfolding granted
  granted-IsGranted cs w = record {
    fitting =
        All-map cs
          (λ c both. (
            both.0,
            write_buckets_lem q s.buckets c.key w.distinct
                ∙ ap (λ o. or_else o (Dict.get s.buckets c.key)) both.1,
          ))
          w.fitting;
    others = λ k out.
        write_buckets_lem q s.buckets k w.distinct
        ∙ ap (λ o. or_else o (Dict.get s.buckets k)) (w.others k out ∙ get-empty {V = Bucket} k);
    leases_are = refl;
  }

-- what an attempt came to: an error or a deferral that changed nothing, or a grant
abbrev pub AllOrNothing :
    RateStore
    → ℕ
    → List RateBucketCheck
    → Option RateLimitLease
    → Result RateLimitDecision × RateStore
    → Type 0
AllOrNothing s now cs lease x =
    ((e : Error) × (x ≡ (err e, s)))
    ⊎ ((d : RateLimitDecision) × (x ≡ (ok d, s))
        × (d.outcome ≡ defer)
        × (d.violations ≢ [])
        × (d.lease ≡ none))
    ⊎ ((d : RateLimitDecision) × (s' : RateStore) × (x ≡ (ok d, s'))
        × (d.outcome ≡ allow)
        × (d.lease ≡ lease)
        × (d.checked_buckets ≡ cs)
        × IsGranted s s' now cs lease)

settle-AllOrNothing :
    (s : RateStore) (now : ℕ) (task_id : String) (cs : List RateBucketCheck)
    (lease : Option RateLimitLease) (found : List RateLimitViolation × Dict RateKey Bucket)
    → All IsPaced cs
    → NoRepeat (check_keys cs)
    → examine_all s now cs Dict.empty ≡ ok found
    → AllOrNothing s now cs lease (settle task_id cs lease found s)
unfolding settle
settle-AllOrNothing s now task_id cs lease ([], q) paced once h = inr (
    inr (
      record (bare_decision allow task_id) { lease = lease; checked_buckets = cs },
      granted s now lease q,
      (unfold granted in refl),
      refl,
      refl,
      refl,
      granted-IsGranted s now lease q cs (
          examine_all-IsExamined s now cs Dict.empty q paced once (IsDistinct-empty RateKey Bucket)
            h),
    ))
settle-AllOrNothing s now task_id cs lease (v ∷ vs, q) paced once h =
    inr (inl (_, refl, refl, (λ e. ground (arith, e)), refl))

-- An acquisition over checks with different keys and positive rates is all or nothing: either it
-- raises or is deferred with a violation, and nothing of the store changes, or it is allowed, every
-- check fits, each check's bucket becomes the refilled bucket less its share, no other bucket
-- changes, and the lease is added.
pub try_acquire_lem :
    (s : RateStore) (task_id : String) (cs : List RateBucketCheck) (lease_for : ℤ) (id : String)
    (now : ℕ)
    → All IsPaced cs
    → NoRepeat (check_keys cs)
    → AllOrNothing s now cs
        (lease_of id task_id (lease_items cs) lease_for now)
        (try_acquire task_id cs lease_for id now s)
unfolding try_acquire
try_acquire_lem s task_id cs lease_for id now paced once =
    elim (Bool-cases (is_nonpositive lease_for)) [
      | inl bad ↦ inl (value_error, rw bad refl)
      | inr good ↦ elim (Result-cases (examine_all s now cs Dict.empty)) [
        | inr (e, raises) ↦ inl (e, rw (good, raises) refl)
        | inl (found, is) ↦
            rw (good, is)
              (settle-AllOrNothing s now task_id cs
                (lease_of id task_id (lease_items cs) lease_for now) found paced once is)
      ]
    ]
