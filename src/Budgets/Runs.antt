-- ===== src/Budgets/Runs.antt =====
-- Whole runs of a budget manager over the in-memory store (recon/core/budgets.py).
use night_scout.Prelude.{
  ℕ, ◌+◌, ◌≤◌, String, ◌≡◌, refl, ap, ◌⊎◌, inl, inr, true, some, arith, All, leb, string_eq,
  Bool-cases, Option-cases,
}
use night_scout.Prelude.Dict
use night_scout.Prelude.Dict.{Dict, get-put, get-empty, values-All, IsDistinct-put}
use night_scout.Prelude.Dict.Totals.{total, weight, total-put, All-put, items_lem}
use night_scout.Prelude.Int.{ℤ, is_nonpositive, shift}
use night_scout.Prelude.Exec.{Error, key_error, value_error, ok, err}
use night_scout.Queue.Task.{Task}
use night_scout.Budgets.Model.{
  tolerance, BucketKey, key_eq, is_active, BudgetContext, BudgetDemand, BudgetReservation,
}
use night_scout.Budgets.Checks.{raw_checks}
use night_scout.Budgets.Store.{
  BudgetStore, spent_at, reserved_at, require_active, active_or_raise, commit, release, renew,
  reap_expired,
}
use night_scout.Budgets.Manager.{BudgetManager, reserve, renew_for, reap_now}
use night_scout.Budgets.Ledger.{item_sum, spent_sum, IsSizeable}
use night_scout.Budgets.Balance.{owed, empty_budgets, release_lem, commit_lem}
use night_scout.Budgets.Reserving.{empty_budgets-IsBalanced}
use night_scout.Budgets.Reaping.{reap-IsSound}
use night_scout.Budgets.Spending.{IsSound, IsBounded, reserve-IsSound}

-- A reservation is looked up and active, or the lookup raises.
pub require_active-cases :
    (s : BudgetStore) (id : String)
    → ((e : Error) × (require_active s id ≡ err e))
      ⊎ ((r : BudgetReservation) × (Dict.get s.reservations id ≡ some r)
          × (is_active r.state ≡ true)
          × (require_active s id ≡ ok r))
unfolding require_active active_or_raise
require_active-cases s id = elim (Option-cases (Dict.get s.reservations id)) [
  | inl missing ↦ inl (key_error, rw (missing) refl)
  | inr (r, at) ↦ elim (Bool-cases (is_active r.state)) [
    | inl runs ↦ inr (r, at, runs, rw (at, runs) refl)
    | inr over ↦ inl (value_error, rw (at, over) refl)
  ]
]

spent_sum_bound : (k : BucketKey) (r : BudgetReservation) → spent_sum k r.items ≤ item_sum k r.items
unfolding spent_sum
spent_sum_bound k r = ground arith

module _ (limit : BucketKey → ℕ) (s : BudgetStore) (w : IsSound limit s) where
  release-IsSound : (id : String) → IsSound limit (release id s).1
  release-IsSound id = elim (require_active-cases s id) [
    | inl (e, raises) ↦ unfold release in rw raises w
    | inr (r, at, runs, _) ↦
        let (s', does, back, spends, balanced) = release_lem s id r w.0 at runs in
        rw does (balanced, λ k. omega (arith, w.1 k, back k, ap (λ d. Dict.get_or d k 0) spends))
  ]

  commit-IsSound : (id : String) → IsSound limit (commit id s).1
  commit-IsSound id = elim (require_active-cases s id) [
    | inl (e, raises) ↦ unfold commit in rw raises w
    | inr (r, at, runs, _) ↦
        let (s', does, back, spends, balanced) = commit_lem s id r w.0 at runs in
        rw does (balanced, λ k. omega (arith, w.1 k, back k, spends k, spent_sum_bound k r))
  ]

  renewed-IsSound :
      (id : String) (r : BudgetReservation) (until : ℕ)
      → Dict.get s.reservations id ≡ some r
      → IsSound limit
          (record s { reservations = Dict.put s.reservations id (record r { expires_at = until }) })
  renewed-IsSound id r until at = (
    record {
      balanced = λ k.
          let put = total-put (owed k) s.reservations id (record r { expires_at = until }) in
          let same : owed k (record r { expires_at = until }) ≡ owed k r = unfold owed in refl in
          let held = ap (weight (owed k)) at in omega (arith, w.0.balanced k, put, same, held);
      sizeable =
          All-put (λ q. IsSizeable q.items) s.reservations id (record r { expires_at = until })
            (values-All (λ q. IsSizeable q.items) s.reservations w.0.sizeable id r at) w.0.sizeable;
      distinct = IsDistinct-put s.reservations id (record r { expires_at = until }) w.0.distinct;
    },
    w.1,
  )

  renew_for-IsSound :
      (id : String) (lease_for : ℤ) (now : ℕ) → IsSound limit (renew_for id lease_for now s).1
  unfolding renew_for renew
  renew_for-IsSound id lease_for now = elim (Bool-cases (is_nonpositive lease_for)) [
    | inl bad ↦ rw bad w
    | inr good ↦ elim (require_active-cases s id) [
      | inl (e, raises) ↦ rw (good, raises) w
      | inr (r, at, _, found) ↦ elim (Bool-cases (leb (shift now lease_for) now)) [
        | inl past ↦ rw (good, found, past) w
        | inr future ↦ rw (good, found, future) (renewed-IsSound id r (shift now lease_for) at)
      ]
    ]
  ]

-- A call of the manager, with the clock reading and the new identifier that it meets.
pub data Command : Type 0 where
  reserve_call :
      (m : BudgetManager) (task : Task) (demand : BudgetDemand) (context : BudgetContext)
      (lease_for : ℤ) (id : String) (now : ℕ)
      → Command
  commit_call : (id : String) → Command
  release_call : (id : String) → Command
  renew_call : (id : String) (lease_for : ℤ) (now : ℕ) → Command
  reap_call : (now : ℕ) → Command

-- the store after a call, whether it returned or raised
unfoldable pub run : Command → BudgetStore → BudgetStore
run (reserve_call m task demand context lease_for id now) s =
    (reserve m task demand context lease_for id now s).1
run (commit_call id) s = (commit id s).1
run (release_call id) s = (release id s).1
run (renew_call id lease_for now) s = (renew_for id lease_for now s).1
run (reap_call now) s = (reap_now now s).1

-- Each check that a reservation compiles asks for more than the tolerance and has an effective limit
-- within the limit of its key.
abbrev pub IsAdmissible : (BucketKey → ℕ) → Command → Type 0
IsAdmissible limit (reserve_call m task demand context lease_for id now) =
    All (IsBounded limit) (raw_checks m.profile task demand context)
IsAdmissible limit _ = Unit

-- The stores that admissible calls lead to from an empty store.
pub data Reach (limit : BucketKey → ℕ) : BudgetStore → Type 0 where
  start : Reach limit empty_budgets
  call :
      {s : BudgetStore}
      → Reach limit s
      → (c : Command) → IsAdmissible limit c
      → Reach limit (run c s)

pub run-IsSound :
    (limit : BucketKey → ℕ) (c : Command) (s : BudgetStore)
    → IsAdmissible limit c
    → IsSound limit s
    → IsSound limit (run c s)
unfolding run reap_now reap_expired
run-IsSound limit (reserve_call m task demand context lease_for id now) s a w =
    reserve-IsSound limit s w m task demand context lease_for id now a
run-IsSound limit (commit_call id) s a w = commit-IsSound limit s w id
run-IsSound limit (release_call id) s a w = release-IsSound limit s w id
run-IsSound limit (renew_call id lease_for now) s a w = renew_for-IsSound limit s w id lease_for now
run-IsSound limit (reap_call now) s a w =
    (reap-IsSound limit now (Dict.items s.reservations) s (items_lem s.reservations w.0.distinct)
      w).1

-- Whatever admissible calls are made of a budget manager from an empty store (each check that a
-- reservation compiles asks for more than the tolerance and has an effective limit within the
-- limit of its key), what is spent and reserved under a key never exceeds the limit of the key
-- by more than the tolerance, and the reserved amount is exactly what the active reservations
-- hold.
pub never_overspent :
    (limit : BucketKey → ℕ) (s : BudgetStore)
    → Reach limit s
    → (k : BucketKey)
    → (spent_at s k + reserved_at s k ≤ limit k + tolerance)
      × (reserved_at s k ≡ total (owed k) s.reservations)
never_overspent limit s r k = let w = Reach-IsSound r in (w.1 k, w.0.balanced k)
  where
    Reach-IsSound : {t : BudgetStore} → Reach limit t → IsSound limit t
    Reach-IsSound start = (empty_budgets-IsBalanced, λ j. ground (arith, get-empty {V = ℕ} j))
    Reach-IsSound (call {s = t} before c a) = run-IsSound limit c t a (Reach-IsSound before)
