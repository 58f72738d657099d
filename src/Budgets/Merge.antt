-- ===== src/Budgets/Merge.antt =====
-- `_merge_checks` (recon/core/budgets.py): what its loop keeps of each check.
use night_scout.Prelude.{ℕ, ◌+◌, ◌≡◌, subst, Option, none, some, List, [], ◌∷◌, ==_iff, arith, All}
use night_scout.Prelude.Dict
use night_scout.Prelude.Dict.{Dict, get-put, get-empty, IsDistinct-put, IsDistinct-empty}
use night_scout.Prelude.Dict.Totals.{All-put, keys-NoRepeat}
use night_scout.Prelude.Sets.{NoRepeat}
use night_scout.Prelude.Sort.{sort, All-sort, NoRepeat-sort}
use night_scout.Prelude.Exec.{ok, bind-eq-ok}
use night_scout.Budgets.Model.{BucketKey, key_eq, BudgetCheck}
use night_scout.Budgets.Checks.{merge_one, merge_into, merge_checks, key_before}
use night_scout.Budgets.Limits.{check_keys}

-- a predicate on checks that adding to what is requested keeps
abbrev pub IsKept : (BudgetCheck → Type 0) → Type 0
IsKept P = (c : BudgetCheck) (more : ℕ) → P c → P (record c { requested = more + c.requested })

module _ (P : BudgetCheck → Type 0) (kept : IsKept P) where
  -- what the loop keeps of its dictionary
  record IsMerged (m : Dict BucketKey BudgetCheck) : Type 0 where
    pub own : (k : BucketKey) (c : BudgetCheck) → Dict.get m k ≡ some c → c.key ≡ k
    pub distinct : Dict.IsDistinct m
    pub all : All P (Dict.values m)

  put-IsMerged :
      (m : Dict BucketKey BudgetCheck) (c : BudgetCheck)
      → P c
      → IsMerged m
      → IsMerged (Dict.put m c.key c)
  put-IsMerged m c p w = record {
    own = λ k d at. ground (arith, get-put m c.key k c, at, ==_iff c.key k, w.own k d);
    distinct = IsDistinct-put m c.key c w.distinct;
    all = All-put P m c.key c p w.all;
  }

  merge_one-IsMerged :
      (c : BudgetCheck) (m m' : Dict BucketKey BudgetCheck) (o : Option BudgetCheck)
      → P c
      → IsMerged m
      → merge_one c m o ≡ ok m'
      → IsMerged m'
  unfolding merge_one
  merge_one-IsMerged c m m' none p w h =
      let is : Dict.put m c.key c ≡ m' = ground (arith, h) in
      subst IsMerged is (put-IsMerged m c p w)
  merge_one-IsMerged c m m' (some q) p w h =
      let is : Dict.put m c.key (record c { requested = q.requested + c.requested }) ≡ m' =
        ground (arith, h) in
      subst IsMerged is (
        put-IsMerged m (record c { requested = q.requested + c.requested }) (kept c q.requested p)
          w)

  merge_into-IsMerged :
      (cs : List BudgetCheck) (m m' : Dict BucketKey BudgetCheck)
      → All P cs
      → IsMerged m
      → merge_into cs m ≡ ok m'
      → IsMerged m'
  unfolding merge_into
  merge_into-IsMerged [] m m' p w h = subst IsMerged (ground (arith, h)) w
  merge_into-IsMerged (c ∷ cs) m m' p w h =
      let (next, first, rest) =
        bind-eq-ok (merge_one c m (Dict.get m c.key)) (λ n. merge_into cs n) h in
      merge_into-IsMerged cs next m' p.1
        (merge_one-IsMerged c m next (Dict.get m c.key) p.0 w first) rest

  empty-IsMerged : IsMerged Dict.empty
  unfolding Dict.values
  empty-IsMerged = record {
    own = λ k c at. absurd (ground (arith, get-empty {V = BudgetCheck} k, at));
    distinct = IsDistinct-empty BucketKey BudgetCheck;
    all = tt;
  }

  -- The merged checks have different keys, and a predicate of the checks that does not mind a larger
  -- request holds of them too.
  pub merge_checks-All :
      (cs out : List BudgetCheck)
      → All P cs
      → merge_checks cs ≡ ok out
      → NoRepeat (check_keys out) × All P out
  unfolding merge_checks
  merge_checks-All cs out p h =
      let (m, loop, result) =
        bind-eq-ok (merge_into cs Dict.empty)
          (λ merged. ok (sort (λ a b. key_before a.key b.key) (Dict.values merged))) h in
      let w = merge_into-IsMerged cs Dict.empty m p empty-IsMerged loop in
      let before = λ (a b : BudgetCheck). key_before a.key b.key in
      let is : sort before (Dict.values m) ≡ out = ground (arith, result) in
      (
        subst (λ x. NoRepeat (check_keys x)) is
            (NoRepeat-sort before (λ c. c.key) (Dict.values m)
              (keys-NoRepeat (λ c. c.key) m w.distinct w.own)),
        subst (All P) is (All-sort before P (Dict.values m) w.all),
      )
