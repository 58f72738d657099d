-- ===== src/Budgets/Reserving.antt =====
-- `InMemoryBudgetStore.try_reserve` (recon/core/budgets.py) under the invariant of the store.
use night_scout.Prelude.{
  ℕ, ◌+◌, String, ◌≡◌, refl, sym, ap, subst, ◌∙◌, ◌⊎◌, inl, inr, true, false, Option, none, some,
  List, [], ◌∷◌, arith, All, any, ◌==◌, if◌then◌else◌, string_eq, Bool-cases, Option-cases,
}
use night_scout.Prelude.Dict
use night_scout.Prelude.Dict.{Dict, get-empty, get-put, IsDistinct-put, IsDistinct-empty}
use night_scout.Prelude.Dict.Totals.{total, weight, total-put, total-empty, All-put}
use night_scout.Prelude.Exec.{value_error, ok, err}
use night_scout.Budgets.Model.{
  BucketKey, key_eq, is_active, BudgetCheck, BudgetReservation, BudgetReservationItem,
  BudgetViolation,
}
use night_scout.Budgets.Store.{
  BudgetStore, reserved_at, exceeds, violations_of, reserve_items, try_reserve, decide_reserve,
}
use night_scout.Budgets.Ledger.{item_sum, IsSizeable, reserve_items-reserved}
use night_scout.Budgets.Balance.{owed, IsBalanced, empty_budgets}

pub reserve_items-rest :
    (items : List BudgetReservationItem) (s : BudgetStore)
    → ((reserve_items items s).spent ≡ s.spent)
      × ((reserve_items items s).reservations ≡ s.reservations)
unfolding reserve_items
reserve_items-rest [] s = (refl, refl)
reserve_items-rest (item ∷ items) s =
    reserve_items-rest items
      (record s { reserved = Dict.put s.reserved item.key (reserved_at s item.key + item.amount) })

violations_of-none :
    (checks : List BudgetCheck) (s : BudgetStore)
    → violations_of checks s ≡ []
    → All (λ c. exceeds s c ≡ false) checks
unfolding violations_of
violations_of-none [] s h = tt
violations_of-none (c ∷ checks) s h = elim (Bool-cases (exceeds s c)) [
  | inl over ↦ absurd (ground (arith, h, over))
  | inr within ↦ (within, violations_of-none checks s (ground (arith, h, within)))
]

violations-cases :
    (vs : List BudgetViolation)
    → (vs ≡ []) ⊎ ((v : BudgetViolation) × ((rest : List BudgetViolation) × (vs ≡ v ∷ rest)))
violations-cases [] = inl refl
violations-cases (v ∷ rest) = inr (v, (rest, refl))

-- the store once `r` is reserved
unfoldable pub reserved_for : BudgetReservation → BudgetStore → BudgetStore
reserved_for r s =
    reserve_items r.items (record s { reservations = Dict.put s.reservations r.reservation_id r })

pub reserved_for-reserved :
    (r : BudgetReservation) (s : BudgetStore) (k : BucketKey)
    → reserved_at (reserved_for r s) k ≡ reserved_at s k + item_sum k r.items
unfolding reserved_for
reserved_for-reserved r s k =
    reserve_items-reserved r.items
      (record s { reservations = Dict.put s.reservations r.reservation_id r }) k

pub reserved_for-IsBalanced :
    (r : BudgetReservation) (s : BudgetStore)
    → IsBalanced s
    → Dict.get s.reservations r.reservation_id ≡ none
    → is_active r.state ≡ true
    → IsSizeable r.items
    → IsBalanced (reserved_for r s)
unfolding reserved_for
reserved_for-IsBalanced r s w new runs sized =
    let s1 = record s { reservations = Dict.put s.reservations r.reservation_id r } in
    let same = sym (reserve_items-rest r.items s1).1 in
    record {
      balanced = λ k.
          let put = total-put (owed k) s.reservations r.reservation_id r in
          let fresh = ap (weight (owed k)) new in
          let holds : owed k r ≡ item_sum k r.items = unfold owed in rw runs refl in
          omega (arith, reserve_items-reserved r.items s1 k, w.balanced k, put, fresh, holds)
          ∙ ap (total (owed k)) same;
      sizeable =
          subst (λ d. All (λ q. IsSizeable q.items) (Dict.values d)) same
            (All-put (λ q. IsSizeable q.items) s.reservations r.reservation_id r sized w.sizeable);
      distinct =
          subst Dict.IsDistinct same (IsDistinct-put s.reservations r.reservation_id r w.distinct);
    }

try_reserve-allowed :
    (r : BudgetReservation) (checks : List BudgetCheck) (s : BudgetStore)
    → Dict.get s.reservations r.reservation_id ≡ none
    → violations_of checks s ≡ []
    → try_reserve r checks s ≡ (ok (true, []), reserved_for r s)
unfolding try_reserve decide_reserve reserved_for
try_reserve-allowed r checks s new within = ground (arith, new, within)

violations_of-some :
    (checks : List BudgetCheck) (s : BudgetStore) (v : BudgetViolation)
    (rest : List BudgetViolation)
    → violations_of checks s ≡ v ∷ rest
    → any (exceeds s) checks ≡ true
unfolding violations_of
violations_of-some [] s v rest h = absurd (ground (arith, h))
violations_of-some (c ∷ checks) s v rest h = elim (Bool-cases (exceeds s c)) [
  | inl over ↦ rw over refl
  | inr within ↦ rw within (violations_of-some checks s v rest (rw within at h))
]

reserved_for-stored :
    (r : BudgetReservation) (s : BudgetStore) (id : String)
    → Dict.get (reserved_for r s).reservations id
      ≡ (if r.reservation_id == id then some r else Dict.get s.reservations id)
unfolding reserved_for
reserved_for-stored r s id =
    ap (λ d. Dict.get d id)
      (reserve_items-rest r.items
        (record s { reservations = Dict.put s.reservations r.reservation_id r })).1
    ∙ get-put s.reservations r.reservation_id id r

-- In a balanced store, and for an active reservation without items that the tolerance swallows,
-- `try_reserve` does one of three things. If the identifier is known, it raises ValueError and changes
-- nothing. If the identifier is new and some check exceeds its limit, it answers False with the
-- violations, one at least, and changes nothing. If the identifier is new and no check exceeds its limit,
-- it answers True, stores the reservation beside the others, the reserved amounts grow by what the items
-- hold, nothing is spent, and the store is balanced.
pub try_reserve_lem :
    (r : BudgetReservation) (checks : List BudgetCheck) (s : BudgetStore)
    → IsBalanced s
    → is_active r.state ≡ true
    → IsSizeable r.items
    → ((q : BudgetReservation) × (Dict.get s.reservations r.reservation_id ≡ some q)
        × (try_reserve r checks s ≡ (err value_error, s)))
      ⊎ ((v : BudgetViolation) × ((rest : List BudgetViolation) × (Dict.get s.reservations
                r.reservation_id
              ≡ none)
            × (any (exceeds s) checks ≡ true)
            × (violations_of checks s ≡ v ∷ rest)
            × (try_reserve r checks s ≡ (ok (false, v ∷ rest), s))))
      ⊎ ((s' : BudgetStore) × (Dict.get s.reservations r.reservation_id ≡ none)
          × All (λ c. exceeds s c ≡ false) checks
          × (try_reserve r checks s ≡ (ok (true, []), s'))
          × ((id : String)
              → Dict.get s'.reservations id
                ≡ (if r.reservation_id == id then some r else Dict.get s.reservations id))
          × ((k : BucketKey) → reserved_at s' k ≡ reserved_at s k + item_sum k r.items)
          × (s'.spent ≡ s.spent)
          × IsBalanced s')
unfolding try_reserve decide_reserve
try_reserve_lem r checks s w runs sized =
    elim (Option-cases (Dict.get s.reservations r.reservation_id)) [
      | inr (q, known) ↦ inl (q, known, ground (arith, known))
      | inl new ↦ elim (violations-cases (violations_of checks s)) [
        | inr (v, (rest, over)) ↦ inr (
            inl (
              v,
              (rest, new, violations_of-some checks s v rest over, over, ground (arith, new, over)),
            ))
        | inl within ↦ inr (
            inr (
              reserved_for r s,
              new,
              violations_of-none checks s within,
              try_reserve-allowed r checks s new within,
              reserved_for-stored r s,
              reserved_for-reserved r s,
              unfold reserved_for in
                  (reserve_items-rest r.items
                    (record s { reservations = Dict.put s.reservations r.reservation_id r })).0,
              reserved_for-IsBalanced r s w new runs sized,
            ))
      ]
    ]

pub empty_budgets-IsBalanced : IsBalanced empty_budgets
unfolding Dict.values
empty_budgets-IsBalanced = record {
  balanced = λ k.
      ap (λ (o : Option ℕ). weight (λ n. n) o) (get-empty {V = ℕ} k)
      ∙ sym (total-empty String (owed k));
  sizeable = tt;
  distinct = IsDistinct-empty String BudgetReservation;
}
