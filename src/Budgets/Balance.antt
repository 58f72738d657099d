-- ===== src/Budgets/Balance.antt =====
-- The invariant of `InMemoryBudgetStore` (recon/core/budgets.py) and what its methods do under it.
use night_scout.Prelude.{
  ℕ, ◌+◌, String, ◌≡◌, refl, sym, ap, subst, ◌∙◌, inl, true, false, some, arith, All, All-map,
  if◌then◌else◌, string_eq,
}
use night_scout.Prelude.Dict
use night_scout.Prelude.Dict.{
  Dict, get-put, get-empty, values-All, IsDistinct-put, IsDistinct-empty,
}
use night_scout.Prelude.Dict.Totals.{total, weight, total-put, total-All, All-put}
use night_scout.Prelude.Exec.{ok, after-ok}
use night_scout.Budgets.Model.{
  BucketKey, key_eq, is_active, committed, released, BudgetReservation, ReservationState,
}
use night_scout.Budgets.Store.{
  BudgetStore, spent_at, reserved_at, require_active, active_or_raise, commit_items, release_items,
  write_state, commit, release,
}
use night_scout.Budgets.Ledger.{
  item_sum, spent_sum, IsCounted, IsSizeable, IsCounted-add, item_sum-IsCounted, Left, Covers,
  release_items_lem, commit_items_lem,
}

-- what a reservation holds under a key while it is active
unfoldable pub owed : BucketKey → BudgetReservation → ℕ
owed key r = if is_active r.state then item_sum key r.items else 0

-- Under each key the store has reserved what the active reservations hold; no item is so small that the
-- tolerance swallows it; no reservation stands twice.
pub record IsBalanced (s : BudgetStore) : Type 0 where
  pub balanced : (k : BucketKey) → reserved_at s k ≡ total (owed k) s.reservations
  pub sizeable : All (λ r. IsSizeable r.items) (Dict.values s.reservations)
  pub distinct : Dict.IsDistinct s.reservations

abbrev pub empty_budgets : BudgetStore
empty_budgets = record { spent = Dict.empty; reserved = Dict.empty; reservations = Dict.empty }

owed-IsCounted : (k : BucketKey) (r : BudgetReservation) → IsSizeable r.items → IsCounted (owed k r)
unfolding owed
owed-IsCounted k r h = let sum = item_sum-IsCounted k r.items h in ground (arith, sum)

total-IsCounted :
    (k : BucketKey) (d : Dict String BudgetReservation)
    → All (λ r. IsSizeable r.items) (Dict.values d)
    → IsCounted (total (owed k) d)
total-IsCounted k d h =
    total-All IsCounted (owed k) d (inl refl) IsCounted-add
      (All-map (Dict.values d) (λ r sized. owed-IsCounted k r sized) h)

module _ (s : BudgetStore) (id : String) (r : BudgetReservation) (st : ReservationState)
    (w : IsBalanced s) (at : Dict.get s.reservations id ≡ some r) (runs : is_active r.state ≡ true)
    (ends : is_active st ≡ false) where
  -- the reservations once `r` is over
  unfoldable pub closed : Dict String BudgetReservation
  closed = Dict.put s.reservations id (record r { state = st })

  closed-IsSizeable : All (λ q. IsSizeable q.items) (Dict.values closed)
  unfolding closed
  closed-IsSizeable =
      All-put (λ q. IsSizeable q.items) s.reservations id (record r { state = st })
        (values-All (λ q. IsSizeable q.items) s.reservations w.sizeable id r at) w.sizeable

  owed-runs : (k : BucketKey) → owed k r ≡ item_sum k r.items
  unfolding owed
  owed-runs k = rw runs refl

  owed-ends : (k : BucketKey) → owed k (record r { state = st }) ≡ 0
  unfolding owed
  owed-ends k = rw ends refl

  closed-Covers : Covers (λ k. total (owed k) closed) r.items s
  unfolding closed
  closed-Covers = (
    (λ k.
        let put = total-put (owed k) s.reservations id (record r { state = st }) in
        let held = ap (weight (owed k)) at in
        omega (arith, put, held, w.balanced k, owed-runs k, owed-ends k)),
    λ k. total-IsCounted k closed closed-IsSizeable,
  )

  pub closed-IsBalanced :
      (t : BudgetStore) → Left (λ k. total (owed k) closed) s t → IsBalanced (write_state id r st t)
  unfolding closed
  closed-IsBalanced t left =
      let same : closed ≡ (write_state id r st t).reservations =
        ap (λ d. Dict.put d id (record r { state = st })) (sym left.1) in
      record {
        balanced = λ k. left.0 k ∙ ap (total (owed k)) same;
        sizeable =
            subst (λ d. All (λ q. IsSizeable q.items) (Dict.values d)) same closed-IsSizeable;
        distinct =
            subst Dict.IsDistinct same
              (IsDistinct-put s.reservations id (record r { state = st }) w.distinct);
      }

  sized : IsSizeable r.items
  sized = values-All (λ q. IsSizeable q.items) s.reservations w.sizeable id r at

  -- what is given back under each key
  pub given_back :
      (t : BudgetStore)
      → Left (λ k. total (owed k) closed) s t
      → (k : BucketKey) → reserved_at t k + item_sum k r.items ≡ reserved_at s k
  given_back t left k = omega (arith, left.0 k, closed-Covers.0 k)

  pub release_items-balanced :
      ((release_items r.items s).0 ≡ ok tt)
      × Left (λ k. total (owed k) closed) s (release_items r.items s).1
      × ((release_items r.items s).1.spent ≡ s.spent)
  release_items-balanced =
      release_items_lem r.items s (λ k. total (owed k) closed) sized closed-Covers

  pub commit_items-balanced :
      ((commit_items r.items s).0 ≡ ok tt)
      × Left (λ k. total (owed k) closed) s (commit_items r.items s).1
      × ((k : BucketKey)
          → spent_at (commit_items r.items s).1 k ≡ spent_at s k + spent_sum k r.items)
  commit_items-balanced =
      commit_items_lem r.items s (λ k. total (owed k) closed) sized closed-Covers

pub require_active-ok :
    (s : BudgetStore) (id : String) (r : BudgetReservation)
    → Dict.get s.reservations id ≡ some r
    → is_active r.state ≡ true
    → require_active s id ≡ ok r
unfolding require_active active_or_raise
require_active-ok s id r at runs = rw (at, runs) refl

-- In a balanced store, releasing an active reservation returns it as RELEASED; under each key the
-- reserved amount falls by exactly what its items hold, nothing is spent, and the store is balanced.
pub release_lem :
    (s : BudgetStore) (id : String) (r : BudgetReservation)
    → IsBalanced s
    → Dict.get s.reservations id ≡ some r
    → is_active r.state ≡ true
    → (s' : BudgetStore) × (release id s ≡ (ok (record r { state = released }), s'))
      × ((k : BucketKey) → reserved_at s' k + item_sum k r.items ≡ reserved_at s k)
      × (s'.spent ≡ s.spent)
      × IsBalanced s'
unfolding release
release_lem s id r w at runs =
    let (done, left, spends) = release_items-balanced s id r released w at runs refl in
    let t = (release_items r.items s).1 in
    (
      write_state id r released t,
      rw (require_active-ok s id r at runs) (
          after-ok (release_items r.items s) tt
            (λ _ u. (ok (record r { state = released }), write_state id r released u)) done),
      given_back s id r released w at runs refl t left,
      spends,
      closed-IsBalanced s id r released w at runs refl t left,
    )

-- In a balanced store, committing an active reservation returns it as COMMITTED; under each key the
-- reserved amount falls by exactly what its items hold, the spent amount grows by it, except that a
-- capacity is never spent, and the store is balanced.
pub commit_lem :
    (s : BudgetStore) (id : String) (r : BudgetReservation)
    → IsBalanced s
    → Dict.get s.reservations id ≡ some r
    → is_active r.state ≡ true
    → (s' : BudgetStore) × (commit id s ≡ (ok (record r { state = committed }), s'))
      × ((k : BucketKey) → reserved_at s' k + item_sum k r.items ≡ reserved_at s k)
      × ((k : BucketKey) → spent_at s' k ≡ spent_at s k + spent_sum k r.items)
      × IsBalanced s'
unfolding commit
commit_lem s id r w at runs =
    let (done, left, spends) = commit_items-balanced s id r committed w at runs refl in
    let t = (commit_items r.items s).1 in
    (
      write_state id r committed t,
      rw (require_active-ok s id r at runs) (
          after-ok (commit_items r.items s) tt
            (λ _ u. (ok (record r { state = committed }), write_state id r committed u)) done),
      given_back s id r committed w at runs refl t left,
      spends,
      closed-IsBalanced s id r committed w at runs refl t left,
    )
