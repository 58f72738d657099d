-- ===== src/Budgets/Limits.antt =====
-- Limits of `InMemoryBudgetStore` (recon/core/budgets.py): what is spent and reserved stays within them.
use night_scout.Prelude.{
  ℕ, ◌+◌, ◌≤◌, ◌≡◌, refl, subst, inl, inr, false, List, [], ◌∷◌, ◌==◌, ==_iff, arith, All, map,
  Bool-cases,
}
use night_scout.Prelude.Sets.{member, NoRepeat}
use night_scout.Budgets.Model.{tolerance, BucketKey, key_eq, BudgetCheck}
use night_scout.Budgets.Store.{BudgetStore, spent_at, reserved_at, exceeds}
use night_scout.Budgets.Manager.{item_of}
use night_scout.Budgets.Ledger.{item_sum}

-- Under each key, what is spent and reserved is within the limit, up to the tolerance of the store.
abbrev pub IsWithin : (BucketKey → ℕ) → BudgetStore → Type 0
IsWithin limit s = (k : BucketKey) → spent_at s k + reserved_at s k ≤ limit k + tolerance

abbrev pub check_keys : List BudgetCheck → List BucketKey
check_keys checks = map (λ c. c.key) checks

item_sum-absent :
    (k : BucketKey) (checks : List BudgetCheck)
    → member k (check_keys checks) ≡ false
    → item_sum k (map item_of checks) ≡ 0
unfolding item_sum
item_sum-absent k [] h = refl
item_sum-absent k (c ∷ checks) h =
    ground (arith, item_sum-absent k checks, h, ==_iff k c.key, ==_iff c.key k)

-- One check per key: if none exceeds its limit, their items fit.
pub checks_fit :
    (limit : BucketKey → ℕ) (s : BudgetStore) (checks : List BudgetCheck)
    → IsWithin limit s
    → NoRepeat (check_keys checks)
    → All (λ c. c.effective_limit ≤ limit c.key) checks
    → All (λ c. exceeds s c ≡ false) checks
    → (k : BucketKey)
    → spent_at s k + (reserved_at s k + item_sum k (map item_of checks)) ≤ limit k + tolerance
unfolding item_sum
checks_fit limit s [] w once bounds fits k = ground (arith, w k)
checks_fit limit s (c ∷ checks) w once bounds fits k = elim (Bool-cases (c.key == k)) [
  | inl same ↦
      let is : c.key ≡ k = (==_iff c.key k).0 same in
      let none_left : item_sum k (map item_of checks) ≡ 0 =
        item_sum-absent k checks (subst (λ x. member x (check_keys checks) ≡ false) is once.0) in
      let bound : spent_at s k + reserved_at s k + c.requested ≤ limit k + tolerance =
        subst (λ x. spent_at s x + reserved_at s x + c.requested ≤ limit x + tolerance) is
          (not_exceeding limit s c bounds.0 fits.0) in
      rw same (omega (arith, none_left, bound))
  | inr other ↦ rw other (checks_fit limit s checks w once.1 bounds.1 fits.1 k)
]
  where
    not_exceeding :
        (limit : BucketKey → ℕ) (s : BudgetStore) (c : BudgetCheck)
        → c.effective_limit ≤ limit c.key
        → exceeds s c ≡ false
        → spent_at s c.key + reserved_at s c.key + c.requested ≤ limit c.key + tolerance
    not_exceeding limit s c bound fit = ground arith
