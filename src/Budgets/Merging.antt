-- ===== src/Budgets/Merging.antt =====
-- What `_merge_checks` (recon/core/budgets.py) makes of the checks, conflicts included.
use night_scout.Prelude.{
  ℕ, ◌+◌, ◌≡◌, refl, sym, subst, ◌∙◌, ◌⊎◌, inl, inr, Bool, true, false, not, ◌&&◌, ◌||◌, Option,
  none, some, List, [], ◌∷◌, ◌==◌, ==_iff, arith, All, any, eqb, if◌then◌else◌, Bool-cases,
  Option-cases,
}
use night_scout.Prelude.Dict
use night_scout.Prelude.Dict.{
  Dict, get-put, get-empty, All-values, IsDistinct-put, IsDistinct-empty,
}
use night_scout.Prelude.Dict.Totals.{weight, keys-NoRepeat, member-values}
use night_scout.Prelude.Sets.{member, NoRepeat}
use night_scout.Prelude.Sort.{sort, All-sort, NoRepeat-sort, member-sort}
use night_scout.Prelude.Exec.{value_error, ok, err}
use night_scout.Budgets.Model.{BucketKey, key_eq, BudgetCheck}
use night_scout.Budgets.Checks.{merge_one, merge_into, merge_checks, key_before}
use night_scout.Budgets.Limits.{check_keys}

-- what a list of checks asks for under a key
abbrev pub requested_under : BucketKey → List BudgetCheck → ℕ
requested_under k [] = 0
requested_under k (c ∷ cs) = (if c.key == k then c.requested else 0) + requested_under k cs

-- two checks of one key whose configured or effective limits differ
abbrev pub conflicting : BudgetCheck → BudgetCheck → Bool
conflicting c d =
    c.key == d.key
    && not (eqb c.configured_limit d.configured_limit && eqb c.effective_limit d.effective_limit)

-- whether some check conflicts with a later one
abbrev pub has_conflict : List BudgetCheck → Bool
has_conflict [] = false
has_conflict (c ∷ cs) = any (conflicting c) cs || has_conflict cs

-- the checks of the dictionary `m` and of `cs` disagree somewhere
conflicts_at : Dict BucketKey BudgetCheck → BudgetCheck → Bool
conflicts_at m c = elim (Dict.get m c.key) [ none ↦ false | some q ↦ conflicting q c ]

conflicts_with : Dict BucketKey BudgetCheck → List BudgetCheck → Bool
unfolding conflicts_at
conflicts_with m cs = any (conflicts_at m) cs || has_conflict cs

any-split :
    (p q r : BudgetCheck → Bool) (cs : List BudgetCheck)
    → ((c : BudgetCheck) → p c ≡ (q c || r c))
    → any p cs ≡ (any q cs || any r cs)
any-split p q r [] h = refl
any-split p q r (c ∷ cs) h = ground (arith, h c, any-split p q r cs h)

any-none :
    (p : BudgetCheck → Bool) (cs : List BudgetCheck)
    → ((c : BudgetCheck) → p c ≡ false)
    → any p cs ≡ false
any-none p [] h = refl
any-none p (c ∷ cs) h = ground (arith, h c, any-none p cs h)

record IsKeyed (m : Dict BucketKey BudgetCheck) : Type 0 where
  pub own : (k : BucketKey) (c : BudgetCheck) → Dict.get m k ≡ some c → c.key ≡ k
  pub distinct : Dict.IsDistinct m

-- what the loop makes of `m`
record IsMergeOf (m : Dict BucketKey BudgetCheck) (cs : List BudgetCheck)
    (n : Dict BucketKey BudgetCheck) : Type 0 where
  pub keyed : IsKeyed n
  pub sums :
      (k : BucketKey)
      → weight (λ c. c.requested) (Dict.get n k)
        ≡ weight (λ c. c.requested) (Dict.get m k) + requested_under k cs
  pub keys : (k : BucketKey) → Dict.contains n k ≡ (Dict.contains m k || member k (check_keys cs))
  pub agrees :
      (k : BucketKey) (c : BudgetCheck)
      → Dict.get n k ≡ some c
      → (any (conflicting c) cs ≡ false)
        × ((q : BudgetCheck) → Dict.get m k ≡ some q → conflicting q c ≡ false)

-- the check that one round writes
written : BudgetCheck → Option BudgetCheck → BudgetCheck
written c none = c
written c (some q) = record c { requested = q.requested + c.requested }

written-key : (c : BudgetCheck) (o : Option BudgetCheck) → (written c o).key ≡ c.key
unfolding written
written-key c none = refl
written-key c (some q) = refl

written-limits :
    (c : BudgetCheck) (o : Option BudgetCheck) (d : BudgetCheck)
    → conflicting (written c o) d ≡ conflicting c d
unfolding written
written-limits c none d = refl
written-limits c (some q) d = refl

conflicting_sym : (c d : BudgetCheck) → conflicting c d ≡ conflicting d c
conflicting_sym c d = ground (arith, ==_iff c.key d.key, ==_iff d.key c.key)

-- what conflicts with one check of a key conflicts with each that agrees with it
conflicting_trans :
    (q c d : BudgetCheck)
    → q.key ≡ c.key
    → conflicting q c ≡ false
    → conflicting c d ≡ false
    → conflicting q d ≡ false
conflicting_trans q c d is a b =
    ground (arith, ==_iff q.key c.key, ==_iff q.key d.key, ==_iff c.key d.key)

module _ (m : Dict BucketKey BudgetCheck) (c : BudgetCheck) (cs : List BudgetCheck)
    (w : IsKeyed m) where
  next : Dict BucketKey BudgetCheck
  unfolding written
  next = Dict.put m c.key (written c (Dict.get m c.key))

  next-get :
      (k : BucketKey)
      → Dict.get next k ≡ (if c.key == k then some (written c (Dict.get m c.key)) else Dict.get m k)
  unfolding next written
  next-get k = get-put m c.key k (written c (Dict.get m c.key))

  next-conflicts :
      conflicts_at m c ≡ false
      → (d : BudgetCheck) → conflicts_at next d ≡ (conflicts_at m d || conflicting c d)
  unfolding conflicts_at next written
  next-conflicts agree d =
      let here = next-get d.key in
      elim (Bool-cases (c.key == d.key)) [
        | inr other ↦ ground (arith, other, here)
        | inl same ↦
            let is : c.key ≡ d.key = (==_iff c.key d.key).0 same in
            elim (Option-cases (Dict.get m c.key)) [
              | inl new ↦
                  let absent : Dict.get m d.key ≡ none = subst (λ k. Dict.get m k ≡ none) is new in
                  ground (arith, same, here, new, absent)
              | inr (q, at) ↦
                  let there : Dict.get m d.key ≡ some q =
                    subst (λ k. Dict.get m k ≡ some q) is at in
                  let own = w.own c.key q at in
                  ground (
                    arith,
                    same,
                    here,
                    at,
                    there,
                    agree,
                    own,
                    ==_iff q.key c.key,
                    ==_iff q.key d.key,
                  )
            ]
      ]

  next-IsKeyed : IsKeyed next
  next-IsKeyed = record {
    own = λ k d at.
        ground (arith, next-get k, at, ==_iff c.key k, w.own k d, written-key c (Dict.get m c.key));
    distinct = unfold next in IsDistinct-put m c.key (written c (Dict.get m c.key)) w.distinct;
  }

  merge_one-cases :
      ((conflicts_at m c ≡ true) × (merge_one c m (Dict.get m c.key) ≡ err value_error))
      ⊎ ((conflicts_at m c ≡ false) × (merge_one c m (Dict.get m c.key) ≡ ok next))
  unfolding conflicts_at next merge_one written
  merge_one-cases = elim (Option-cases (Dict.get m c.key)) [
    | inl new ↦ inr (ground (arith, new), ground (arith, new))
    | inr (q, at) ↦
        let own = w.own c.key q at in
        elim (Bool-cases (conflicting q c)) [
          | inl clash ↦
              inl (ground (arith, at, clash), ground (arith, at, clash, own, ==_iff q.key c.key))
          | inr fine ↦
              inr (ground (arith, at, fine), ground (arith, at, fine, own, ==_iff q.key c.key))
        ]
  ]

  next-IsMergeOf :
      conflicts_at m c ≡ false
      → (n : Dict BucketKey BudgetCheck) → IsMergeOf next cs n
      → IsMergeOf m (c ∷ cs) n
  unfolding conflicts_at written
  next-IsMergeOf agree n h = record {
    keyed = h.keyed;
    sums = λ k. elim (Bool-cases (c.key == k)) [
      | inr other ↦ ground (arith, h.sums k, next-get k, other)
      | inl same ↦
          let is : c.key ≡ k = (==_iff c.key k).0 same in
          elim (Option-cases (Dict.get m c.key)) [
            | inl new ↦
                let absent : Dict.get m k ≡ none = subst (λ j. Dict.get m j ≡ none) is new in
                ground (arith, h.sums k, next-get k, same, new, absent)
            | inr (q, found) ↦
                let there : Dict.get m k ≡ some q = subst (λ j. Dict.get m j ≡ some q) is found in
                ground (arith, h.sums k, next-get k, same, found, there)
          ]
    ];
    keys = λ k. ground (arith, h.keys k, next-get k, ==_iff c.key k, ==_iff k c.key);
    agrees = λ k d at.
        let (calm, kept) = h.agrees k d at in
        let own = h.keyed.own k d at in
        elim (Bool-cases (c.key == k)) [
          | inr other ↦
              let same : Dict.get next k ≡ Dict.get m k = ground (arith, next-get k, other) in
              (
                ground (arith, calm, own, other, ==_iff d.key c.key, ==_iff c.key k),
                λ q found. kept q (same ∙ found),
              )
          | inl same ↦
              let is : c.key ≡ k = (==_iff c.key k).0 same in
              let o = Dict.get m c.key in
              let there : Dict.get next k ≡ some (written c o) = ground (arith, next-get k, same) in
              let ours = sym (written-limits c o d) ∙ kept (written c o) there in
              (
                ground (arith, calm, conflicting_sym d c, ours),
                λ q found.
                    let held : Dict.get m c.key ≡ some q =
                      subst (λ j. Dict.get m j ≡ some q) (sym is) found in
                    let fine : conflicting q c ≡ false = ground (arith, agree, held) in
                    conflicting_trans q c d (w.own c.key q held) fine ours,
              )
        ];
  }

-- The loop either meets a conflict and raises, or merges the checks into `m`.
merge_into-cases :
    (cs : List BudgetCheck) (m : Dict BucketKey BudgetCheck)
    → IsKeyed m
    → ((conflicts_with m cs ≡ true) × (merge_into cs m ≡ err value_error))
      ⊎ ((n : Dict BucketKey BudgetCheck) × (conflicts_with m cs ≡ false)
          × (merge_into cs m ≡ ok n)
          × IsMergeOf m cs n)
unfolding merge_into conflicts_with
merge_into-cases [] m w = inr (
  m,
  refl,
  refl,
  record {
    keyed = w;
    sums = λ k. omega arith;
    keys = λ k. ground arith;
    agrees = λ k c at. (refl, λ q found. ground (arith, at, found));
  },
)
merge_into-cases (c ∷ cs) m w = elim (merge_one-cases m c cs w) [
  | inl (clash, raises) ↦ inl (ground (arith, clash), rw raises refl)
  | inr (fine, goes) ↦
      let split =
        any-split (conflicts_at (next m c cs w)) (conflicts_at m) (conflicting c) cs
          (next-conflicts m c cs w fine) in
      elim (merge_into-cases cs (next m c cs w) (next-IsKeyed m c cs w)) [
        | inl (clash, raises) ↦ inl (ground (arith, clash, split, fine), rw goes raises)
        | inr (n, calm, done, h) ↦
            inr
              (n, ground (arith, calm, split, fine), rw goes done, next-IsMergeOf m c cs w fine n h)
      ]
]

empty-conflicts : (cs : List BudgetCheck) → conflicts_with Dict.empty cs ≡ has_conflict cs
unfolding conflicts_with conflicts_at
empty-conflicts cs =
    let calm =
      any-none (conflicts_at Dict.empty) cs
        (λ c. unfold conflicts_at in ground (arith, get-empty {V = BudgetCheck} c.key)) in
    ground (arith, calm)

empty-IsKeyed : IsKeyed Dict.empty
empty-IsKeyed = record {
  own = λ k c at. absurd (ground (arith, get-empty {V = BudgetCheck} k, at));
  distinct = IsDistinct-empty BucketKey BudgetCheck;
}

-- what the merged checks are to be
abbrev pub IsMergedFrom : List BudgetCheck → List BudgetCheck → Type 0
IsMergedFrom cs out =
    NoRepeat (check_keys out)
    × ((k : BucketKey) → member k (check_keys out) ≡ member k (check_keys cs))
    × All (λ d. (d.requested ≡ requested_under d.key cs) × (any (conflicting d) cs ≡ false)) out

-- `_merge_checks` raises ValueError exactly if two checks of one key differ in their configured or
-- effective limits. Else it returns one check for each key that the checks have and for no other; it
-- asks for the sum of what the checks of its key ask for, and has the limits of each of them.
pub merge_checks_lem :
    (cs : List BudgetCheck)
    → ((has_conflict cs ≡ true) × (merge_checks cs ≡ err value_error))
      ⊎ ((out : List BudgetCheck) × (has_conflict cs ≡ false)
          × (merge_checks cs ≡ ok out)
          × IsMergedFrom cs out)
unfolding merge_checks
merge_checks_lem cs = elim (merge_into-cases cs Dict.empty empty-IsKeyed) [
  | inl (clash, raises) ↦ inl (sym (empty-conflicts cs) ∙ clash, rw raises refl)
  | inr (m, calm, done, h) ↦
      let before = λ (a b : BudgetCheck). key_before a.key b.key in
      let key = λ (c : BudgetCheck). c.key in
      let facts =
        All-values
          (λ d. (d.requested ≡ requested_under d.key cs) × (any (conflicting d) cs ≡ false)) m
          h.keyed.distinct
          (λ k d at. (
            ground (arith, h.sums d.key, get-empty {V = BudgetCheck} d.key, h.keyed.own k d at, at),
            (h.agrees k d at).0,
          )) in
      inr (
        sort before (Dict.values m),
        sym (empty-conflicts cs) ∙ calm,
        rw done refl,
        (
          NoRepeat-sort before key (Dict.values m)
              (keys-NoRepeat key m h.keyed.distinct h.keyed.own),
          (λ k.
              member-sort before key k (Dict.values m)
              ∙ member-values key m h.keyed.distinct h.keyed.own k
              ∙ ground (arith, h.keys k, get-empty {V = BudgetCheck} k)),
          All-sort before _ (Dict.values m) facts,
        ),
      )
]
