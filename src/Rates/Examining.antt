-- ===== src/Rates/Examining.antt =====
-- The loop of `try_acquire` (recon/policy/rate_limit.py) over checks with different keys.
use night_scout.Prelude.{
  ℕ, ◌≡◌, refl, sym, ap, subst, ◌∙◌, ◌≢◌, inl, inr, false, none, some, Option, List, [], ◌∷◌, map,
  ◌==◌, ==_iff, arith, All, if◌then◌else◌, Bool-cases,
}
use night_scout.Prelude.Dict
use night_scout.Prelude.Dict.{Dict, get-put, get-empty, IsDistinct-put, IsDistinct-empty}
use night_scout.Prelude.Dict.Totals.{item_keys, items_lem, get-absent}
use night_scout.Prelude.Sets.{member, NoRepeat}
use night_scout.Prelude.Exec.{Result, ok, ◌>>=◌, bind-eq-ok}
use night_scout.Rates.Model.{RateKey, key_eq, RateBucketCheck, RateLimitViolation}
use night_scout.Rates.Buckets.{
  Bucket, RateStore, current_bucket, taken, Verdict, short, fits, examine, add_violation, go_on,
  examine_all,
}
use night_scout.Rates.Store.{write_buckets}
use night_scout.Rates.Acquiring.{IsPaced, Fits, examine-Fits}

abbrev pub check_keys : List RateBucketCheck → List RateKey
check_keys checks = map (λ c. c.key) checks

-- the bucket that an acquisition writes for a check
unfoldable pub taken_now : RateStore → ℕ → RateBucketCheck → Bucket
taken_now s now c = taken c (current_bucket s c now)

module _ (s : RateStore) (now : ℕ) where
  -- what the loop leaves when it finds no violation
  pub record IsExamined (cs : List RateBucketCheck) (p q : Dict RateKey Bucket) : Type 0 where
    pub fitting : All (λ c. Fits s now c × (Dict.get q c.key ≡ some (taken_now s now c))) cs
    pub others : (k : RateKey) → member k (check_keys cs) ≡ false → Dict.get q k ≡ Dict.get p k
    pub distinct : Dict.IsDistinct q

  examine_all-short :
      (rest : Result (List RateLimitViolation × Dict RateKey Bucket)) (q : Dict RateKey Bucket)
      (v : RateLimitViolation)
      → (rest >>= λ found. ok (add_violation v found)) ≢ ok ([], q)
  unfolding add_violation
  examine_all-short rest q v h =
      let (found, _, more) = bind-eq-ok rest (λ found. ok (add_violation v found)) h in
      ground (arith, more)

  step-IsExamined :
      (c : RateBucketCheck) (cs : List RateBucketCheck) (p q : Dict RateKey Bucket) (b : Bucket)
      → member c.key (check_keys cs) ≡ false
      → Fits s now c
      → taken c (current_bucket s c now) ≡ b
      → IsExamined cs (Dict.put p c.key b) q
      → IsExamined (c ∷ cs) p q
  step-IsExamined c cs p q b new fit takes w = record {
    fitting = (
      (
        fit,
        w.others c.key new
            ∙ ground (arith, get-put p c.key c.key b, ==_iff c.key c.key)
            ∙ ap some (sym takes ∙ (unfold taken_now in refl)),
      ),
      w.fitting,
    );
    others = λ k out.
        ground (arith, w.others k, out, get-put p c.key k b, ==_iff c.key k, ==_iff k c.key);
    distinct = w.distinct;
  }

  by_verdict :
      (c : RateBucketCheck) (cs : List RateBucketCheck) (p q : Dict RateKey Bucket)
      (verdict : Verdict)
      → IsPaced c
      → member c.key (check_keys cs) ≡ false
      → examine s now c ≡ ok verdict
      → go_on c p (examine_all s now cs) verdict ≡ ok ([], q)
      → ((b : Bucket)
          → examine_all s now cs (Dict.put p c.key b) ≡ ok ([], q)
          → IsExamined cs (Dict.put p c.key b) q)
      → IsExamined (c ∷ cs) p q
  unfolding go_on
  by_verdict c cs p q (short v) paced new found rest ih =
      absurd (examine_all-short (examine_all s now cs p) q v rest)
  by_verdict c cs p q (fits b) paced new found rest ih =
      let (fit, takes) = examine-Fits s now c b paced found in
      step-IsExamined c cs p q b new fit takes (ih b rest)

  -- The loop that finds no violation has projected each check's share, and nothing else.
  pub examine_all-IsExamined :
      (cs : List RateBucketCheck) (p q : Dict RateKey Bucket)
      → All IsPaced cs
      → NoRepeat (check_keys cs)
      → Dict.IsDistinct p
      → examine_all s now cs p ≡ ok ([], q)
      → IsExamined cs p q
  unfolding examine_all
  examine_all-IsExamined [] p q paced once u h =
      let is : p ≡ q = ground (arith, h) in
      subst (λ x. IsExamined [] p x) is
        (record { fitting = tt; others = λ k _. refl; distinct = u })
  examine_all-IsExamined (c ∷ cs) p q paced once u h =
      let (verdict, found, rest) =
        bind-eq-ok (examine s now c) (go_on c p (examine_all s now cs)) h in
      by_verdict c cs p q verdict paced.0 once.0 found rest (λ b.
        examine_all-IsExamined cs (Dict.put p c.key b) q paced.1 once.1
          (IsDistinct-put p c.key b u))

-- the first of two optional values that is one
abbrev pub or_else {ℓ} : {A : Type ℓ} → Option A → Option A → Option A
or_else none o = o
or_else (some a) o = some a

write_entries :
    (d buckets : Dict RateKey Bucket) (l : List (RateKey × Bucket)) (k : RateKey)
    → All (λ e. Dict.get d e.0 ≡ some e.1) l
    → Dict.get (write_buckets l buckets) k
      ≡ or_else (if member k (item_keys l) then Dict.get d k else none) (Dict.get buckets k)
unfolding write_buckets
write_entries d buckets [] k h = refl
write_entries d buckets ((j, b) ∷ l) k h = elim (Bool-cases (j == k)) [
  | inl same ↦
      let is : Dict.get d k ≡ some b =
        subst (λ x. Dict.get d x ≡ some b) ((==_iff j k).0 same) h.0 in
      ground (
        arith,
        write_entries d (Dict.put buckets j b) l k h.1,
        get-put buckets j k b,
        same,
        is,
        ==_iff j k,
        ==_iff k j,
      )
  | inr other ↦ ground (
    arith,
    write_entries d (Dict.put buckets j b) l k h.1,
    get-put buckets j k b,
    other,
    ==_iff j k,
    ==_iff k j,
  )
]

-- The projected buckets replace those that stand under their keys.
pub write_buckets_lem :
    (d buckets : Dict RateKey Bucket) (k : RateKey)
    → Dict.IsDistinct d
    → Dict.get (write_buckets (Dict.items d) buckets) k
      ≡ or_else (Dict.get d k) (Dict.get buckets k)
write_buckets_lem d buckets k u =
    let found = (items_lem d u).0 in
    elim (Bool-cases (member k (item_keys (Dict.items d)))) [
      | inr out ↦
          ground (arith, write_entries d buckets (Dict.items d) k found, out, get-absent d k out)
      | inl within ↦ ground (arith, write_entries d buckets (Dict.items d) k found, within)
    ]
