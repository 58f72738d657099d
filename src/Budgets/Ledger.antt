-- ===== src/Budgets/Ledger.antt =====
-- The ledger of `InMemoryBudgetStore` (recon/core/budgets.py): what is reserved under a key is what the
-- active reservations hold under it.
use night_scout.Prelude.{
  ℕ, ◌+◌, ◌-◌, ◌<◌, ◌≡◌, refl, ap, subst, ◌∙◌, ◌⊎◌, inl, inr, true, false, List, [], ◌∷◌, ◌==◌,
  ==_iff, ltb, leb, arith, All, if◌then◌else◌, string_eq, Bool-cases,
}
use night_scout.Prelude.Dict
use night_scout.Prelude.Dict.{Dict, get-put, get-remove, get-empty}
use night_scout.Prelude.Exec.{ok, after-ok}
use night_scout.Budgets.Model.{tolerance, BucketKey, key_eq, is_capacity, BudgetReservationItem}
use night_scout.Budgets.Store.{
  BudgetStore, spent_at, reserved_at, reserve_items, subtract_reserved, charge, commit_items,
  release_items,
}

-- what a list of items holds under a key
unfoldable pub item_sum : BucketKey → List BudgetReservationItem → ℕ
item_sum key [] = 0
item_sum key (item ∷ items) =
    let rest = item_sum key items in if item.key == key then item.amount + rest else rest

-- An amount that the tolerance does not swallow.
abbrev pub IsCounted : ℕ → Type 0
IsCounted n = (n ≡ 0) ⊎ (tolerance < n)

abbrev pub IsSizeable : List BudgetReservationItem → Type 0
IsSizeable items = All (λ item. tolerance < item.amount) items

pub IsCounted-add : (a b : ℕ) → IsCounted a → IsCounted b → IsCounted (a + b)
IsCounted-add a b h k = ground arith

pub item_sum-IsCounted :
    (key : BucketKey) (items : List BudgetReservationItem)
    → IsSizeable items
    → IsCounted (item_sum key items)
unfolding item_sum
item_sum-IsCounted key [] h = inl refl
item_sum-IsCounted key (item ∷ items) h =
    let ih = item_sum-IsCounted key items h.1 in ground (arith, ih, h.0)

pub reserve_items-reserved :
    (items : List BudgetReservationItem) (s : BudgetStore) (key : BucketKey)
    → reserved_at (reserve_items items s) key ≡ reserved_at s key + item_sum key items
unfolding reserve_items item_sum
reserve_items-reserved [] s key = omega arith
reserve_items-reserved (item ∷ items) s key =
    let s1 = record s {
      reserved = Dict.put s.reserved item.key (reserved_at s item.key + item.amount);
    } in
    let ih = reserve_items-reserved items s1 key in
    elim (Bool-cases (item.key == key)) [
      | inl same ↦
          let is : reserved_at s item.key ≡ reserved_at s key =
            ap (reserved_at s) ((==_iff item.key key).0 same) in
          ground (
            arith,
            ih,
            get-put s.reserved item.key key (reserved_at s item.key + item.amount),
            same,
            is,
          )
      | inr other ↦
          ground (
            arith,
            ih,
            get-put s.reserved item.key key (reserved_at s item.key + item.amount),
            other,
          )
    ]

subtract_reserved-nothing :
    (s : BudgetStore) (key : BucketKey) (amount : ℕ)
    → reserved_at s key ≡ amount
    → subtract_reserved key amount s ≡ (ok tt, record s { reserved = Dict.remove s.reserved key })
unfolding subtract_reserved
subtract_reserved-nothing s key amount h =
    let covered : ltb (reserved_at s key + tolerance) amount ≡ false = rw h (ground arith) in
    let over : leb (reserved_at s key) (amount + tolerance) ≡ true = rw h (ground arith) in
    rw (covered, over) refl

subtract_reserved-some :
    (s : BudgetStore) (key : BucketKey) (amount left : ℕ)
    → reserved_at s key ≡ amount + left
    → tolerance < left
    → subtract_reserved key amount s ≡ (ok tt, record s { reserved = Dict.put s.reserved key left })
unfolding subtract_reserved
subtract_reserved-some s key amount left h counted =
    let covered : ltb (reserved_at s key + tolerance) amount ≡ false = rw h (ground arith) in
    let more : leb (reserved_at s key) (amount + tolerance) ≡ false =
      rw h (ground (arith, counted)) in
    let rest : reserved_at s key - amount ≡ left = rw h (omega arith) in
    rw (covered, more, rest) refl

-- One subtraction that the ledger covers.
subtract_reserved_lem :
    (s : BudgetStore) (key : BucketKey) (amount left : ℕ)
    → reserved_at s key ≡ amount + left
    → IsCounted left
    → ((subtract_reserved key amount s).0 ≡ ok tt)
      × ((k : BucketKey)
          → reserved_at (subtract_reserved key amount s).1 k
            ≡ (if key == k then left else reserved_at s k))
      × ((subtract_reserved key amount s).1.spent ≡ s.spent)
      × ((subtract_reserved key amount s).1.reservations ≡ s.reservations)
subtract_reserved_lem s key amount left h (inl nothing) =
    rw (subtract_reserved-nothing s key amount (h ∙ omega (arith, nothing)))
      (refl, (λ k. ground (arith, get-remove s.reserved key k, nothing)), refl, refl)
subtract_reserved_lem s key amount left h (inr counted) =
    rw (subtract_reserved-some s key amount left h counted)
      (refl, (λ k. ground (arith, get-put s.reserved key k left)), refl, refl)

-- what the loops leave under each key
abbrev pub Left : (BucketKey → ℕ) → BudgetStore → BudgetStore → Type 0
Left rest s s' = ((k : BucketKey) → reserved_at s' k ≡ rest k) × (s'.reservations ≡ s.reservations)

abbrev pub Covers : (BucketKey → ℕ) → List BudgetReservationItem → BudgetStore → Type 0
Covers rest items s =
    ((k : BucketKey) → reserved_at s k ≡ item_sum k items + rest k)
    × ((k : BucketKey) → IsCounted (rest k))

-- The first subtraction of a covered list: it raises nothing, and the other items stay covered.
first_item_lem :
    (item : BudgetReservationItem) (items : List BudgetReservationItem) (s : BudgetStore)
    (rest : BucketKey → ℕ)
    → IsSizeable (item ∷ items)
    → Covers rest (item ∷ items) s
    → ((subtract_reserved item.key item.amount s).0 ≡ ok tt)
      × Covers rest items (subtract_reserved item.key item.amount s).1
      × ((subtract_reserved item.key item.amount s).1.spent ≡ s.spent)
      × ((subtract_reserved item.key item.amount s).1.reservations ≡ s.reservations)
unfolding item_sum
first_item_lem item items s rest sized c =
    let left = item_sum item.key items + rest item.key in
    let before : reserved_at s item.key ≡ item.amount + left =
      ground (arith, c.0 item.key, ==_iff item.key item.key) in
    let (done, keys, same_spent, same_held) =
      subtract_reserved_lem s item.key item.amount left before (
        IsCounted-add (item_sum item.key items) (rest item.key)
          (item_sum-IsCounted item.key items sized.1) (c.1 item.key)) in
    (
      done,
      (
        (λ k. elim (Bool-cases (item.key == k)) [
          | inl same ↦
              let is : item.key ≡ k = (==_iff item.key k).0 same in
              let moved : left ≡ item_sum k items + rest k =
                ap (λ x. item_sum x items + rest x) is in
              ground (arith, keys k, same, moved)
          | inr other ↦ ground (arith, keys k, c.0 k, other)
        ]),
        c.1,
      ),
      same_spent,
      same_held,
    )

-- Giving back items that the ledger covers raises nothing and leaves the rest.
pub release_items_lem :
    (items : List BudgetReservationItem) (s : BudgetStore) (rest : BucketKey → ℕ)
    → IsSizeable items
    → Covers rest items s
    → ((release_items items s).0 ≡ ok tt)
      × Left rest s (release_items items s).1
      × ((release_items items s).1.spent ≡ s.spent)
unfolding release_items item_sum
release_items_lem [] s rest sized c = (refl, ((λ k. omega (arith, c.0 k)), refl), refl)
release_items_lem (item ∷ items) s rest sized c =
    let (done, covers, same_spent, same_held) = first_item_lem item items s rest sized c in
    let t = (subtract_reserved item.key item.amount s).1 in
    let (ok_rest, left, spent_rest) = release_items_lem items t rest sized.1 covers in
    rw (after-ok (subtract_reserved item.key item.amount s) tt (λ _ u. release_items items u) done)
      (ok_rest, (left.0, left.1 ∙ same_held), spent_rest ∙ same_spent)

-- what `commit` adds to the spent amount of a key
unfoldable pub spent_sum : BucketKey → List BudgetReservationItem → ℕ
spent_sum key items = if is_capacity key.metric then 0 else item_sum key items

charge_lem :
    (item : BudgetReservationItem) (items : List BudgetReservationItem) (t : BudgetStore)
    → ((charge item t).reserved ≡ t.reserved)
      × ((charge item t).reservations ≡ t.reservations)
      × ((k : BucketKey)
          → spent_at (charge item t) k + spent_sum k items
            ≡ spent_at t k + spent_sum k (item ∷ items))
unfolding charge spent_sum item_sum
charge_lem item items t = elim (Bool-cases (is_capacity item.key.metric)) [
  | inl bounded ↦ rw bounded (
    refl,
    refl,
    λ k. elim (Bool-cases (item.key == k)) [
      | inl same ↦
          let is : is_capacity k.metric ≡ true =
            subst (λ x. is_capacity x.metric ≡ true) ((==_iff item.key k).0 same) bounded in
          ground (arith, is)
      | inr other ↦ ground (arith, other)
    ],
  )
  | inr counted ↦ rw counted (
    refl,
    refl,
    λ k. elim (Bool-cases (item.key == k)) [
      | inl same ↦
          let here : item.key ≡ k = (==_iff item.key k).0 same in
          let is : is_capacity k.metric ≡ false =
            subst (λ x. is_capacity x.metric ≡ false) here counted in
          let at : spent_at t item.key ≡ spent_at t k = ap (spent_at t) here in
          ground
            (arith, is, at, same, get-put t.spent item.key k (spent_at t item.key + item.amount))
      | inr other ↦
          ground (arith, other, get-put t.spent item.key k (spent_at t item.key + item.amount))
    ],
  )
]

-- Committing items that the ledger covers raises nothing, leaves the rest, and moves what the items
-- hold to the spent amounts, capacities aside.
pub commit_items_lem :
    (items : List BudgetReservationItem) (s : BudgetStore) (rest : BucketKey → ℕ)
    → IsSizeable items
    → Covers rest items s
    → ((commit_items items s).0 ≡ ok tt)
      × Left rest s (commit_items items s).1
      × ((k : BucketKey) → spent_at (commit_items items s).1 k ≡ spent_at s k + spent_sum k items)
unfolding commit_items item_sum
commit_items_lem [] s rest sized c =
    (refl, ((λ k. omega (arith, c.0 k)), refl), λ k. unfold spent_sum in ground arith)
commit_items_lem (item ∷ items) s rest sized c =
    let (done, covers, same_spent, same_held) = first_item_lem item items s rest sized c in
    let t = (subtract_reserved item.key item.amount s).1 in
    let (charged, held, spends) = charge_lem item items t in
    let covers1 : Covers rest items (charge item t) =
      ((λ k. ap (λ d. Dict.get_or d k 0) charged ∙ covers.0 k), covers.1) in
    let (ok_rest, left, spent_rest) = commit_items_lem items (charge item t) rest sized.1 covers1 in
    rw
      (after-ok (subtract_reserved item.key item.amount s) tt
        (λ _ u. commit_items items (charge item u)) done)
      (
        ok_rest,
        (left.0, left.1 ∙ held ∙ same_held),
        λ k. omega (arith, spent_rest k, spends k, ap (λ d. Dict.get_or d k 0) same_spent),
      )
