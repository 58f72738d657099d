-- ===== src/Budgets/Spending.antt =====
-- `BudgetManager.reserve`, `commit` and `release` (recon/core/budgets.py) keep the store balanced and
-- within its limits.
use night_scout.Prelude.{
  ℕ, ◌≤◌, ◌<◌, String, refl, ap, inl, inr, List, [], ◌∷◌, arith, All, All-map, map, string_eq,
  Bool-cases,
}
use night_scout.Prelude.Dict
use night_scout.Prelude.Int.{ℤ, is_nonpositive}
use night_scout.Prelude.Sets.{NoRepeat}
use night_scout.Prelude.Exec.{after-state, Result-cases}
use night_scout.Queue.Task.{Task}
use night_scout.Budgets.Model.{
  tolerance, BucketKey, key_eq, BudgetCheck, BudgetContext, BudgetDemand,
}
use night_scout.Budgets.Checks.{raw_checks, compile_checks, merge_checks}
use night_scout.Budgets.Store.{BudgetStore, try_reserve}
use night_scout.Budgets.Manager.{
  BudgetManager, item_of, new_reservation, is_beyond, decide, reserve_checks, reserve,
}
use night_scout.Budgets.Ledger.{IsSizeable}
use night_scout.Budgets.Balance.{IsBalanced}
use night_scout.Budgets.Reserving.{try_reserve_lem}
use night_scout.Budgets.Limits.{IsWithin, check_keys, checks_fit}
use night_scout.Budgets.Merge.{merge_checks-All}

-- the store accounts for its reservations and is within its limits
abbrev pub IsSound : (BucketKey → ℕ) → BudgetStore → Type 0
IsSound limit s = IsBalanced s × IsWithin limit s

-- A check that asks for more than the tolerance, against no more than the limit of its key.
abbrev pub IsBounded : (BucketKey → ℕ) → BudgetCheck → Type 0
IsBounded limit c = (c.effective_limit ≤ limit c.key) × (tolerance < c.requested)

items-IsSizeable :
    (limit : BucketKey → ℕ) (cs : List BudgetCheck)
    → All (IsBounded limit) cs
    → IsSizeable (map item_of cs)
items-IsSizeable limit [] h = tt
items-IsSizeable limit (c ∷ cs) h = (h.0.1, items-IsSizeable limit cs h.1)

module _ (limit : BucketKey → ℕ) (s : BudgetStore) (w : IsSound limit s) where
  try_reserve-IsSound :
      (id task_id : String) (lease_for : ℤ) (now : ℕ) (cs : List BudgetCheck)
      → NoRepeat (check_keys cs)
      → All (IsBounded limit) cs
      → IsSound limit (try_reserve (new_reservation id task_id cs lease_for now) cs s).1
  try_reserve-IsSound id task_id lease_for now cs once bounds =
      let r = new_reservation id task_id cs lease_for now in
      elim (try_reserve_lem r cs s w.0 refl (items-IsSizeable limit cs bounds)) [
        | inl (q, known, raises) ↦ rw raises w
        | inr (inl (v, (rest, new, over, violations, same))) ↦ rw same w
        | inr (inr (s', new, fits, does, stored, holds, spends, balanced)) ↦ rw does (
          balanced,
          λ k. omega (
            arith,
            checks_fit limit s cs w.1 once (All-map cs (λ c b. b.0) bounds) fits k,
            holds k,
            ap (λ d. Dict.get_or d k 0) spends,
          ),
        )
      ]

  reserve_checks-IsSound :
      (retry_after : ℕ) (task : Task) (lease_for : ℤ) (id : String) (now : ℕ)
      (cs : List BudgetCheck)
      → NoRepeat (check_keys cs)
      → All (IsBounded limit) cs
      → IsSound limit (reserve_checks retry_after task lease_for id now cs s).1
  unfolding reserve_checks
  reserve_checks-IsSound retry_after task lease_for id now [] once bounds = w
  reserve_checks-IsSound retry_after task lease_for id now (c ∷ cs) once bounds =
      let r = new_reservation id task.task_id (c ∷ cs) lease_for now in
      rw (after-state (try_reserve r (c ∷ cs) s) (decide retry_after r (c ∷ cs)))
        (try_reserve-IsSound id task.task_id lease_for now (c ∷ cs) once bounds)

  -- `reserve`, whatever it answers, keeps a sound store sound, provided that each check that it compiles
  -- asks for more than the tolerance and has an effective limit within the limit of its key.
  pub reserve-IsSound :
      (m : BudgetManager) (task : Task) (demand : BudgetDemand) (context : BudgetContext)
      (lease_for : ℤ) (id : String) (now : ℕ)
      → All (IsBounded limit) (raw_checks m.profile task demand context)
      → IsSound limit (reserve m task demand context lease_for id now s).1
  unfolding reserve compile_checks
  reserve-IsSound m task demand context lease_for id now bounds =
      elim (Bool-cases (is_nonpositive lease_for)) [
        | inl bad ↦ rw bad w
        | inr good ↦
            elim (Bool-cases (is_beyond context.branch_depth m.profile.hard_max_branch_depth)) [
              | inl too_deep ↦ rw (good, too_deep) w
              | inr shallow ↦
                  elim (Bool-cases
                    (is_beyond context.branch_depth m.profile.soft_max_branch_depth)) [
                      | inl deep ↦ rw (good, shallow, deep) w
                      | inr allowed ↦
                          elim (Result-cases
                            (merge_checks (raw_checks m.profile task demand context))) [
                              | inr (e, conflict) ↦ rw (good, shallow, allowed, conflict) w
                              | inl (cs, compiled) ↦
                                  let (once, bounded) =
                                    merge_checks-All (IsBounded limit)
                                      (λ c more b. (b.0, omega (arith, b.1)))
                                      (raw_checks m.profile task demand context) cs bounds
                                      compiled in
                                  rw (good, shallow, allowed, compiled)
                                    (reserve_checks-IsSound m.capacity_retry_after task lease_for id
                                      now cs once bounded)
                            ]
                    ]
            ]
      ]
