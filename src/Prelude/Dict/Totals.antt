-- ===== src/Prelude/Dict/Totals.antt =====
-- Sums over the values of a dictionary, and predicates on all of them.
use Prim.Native.Nat.{ℕ, ◌+◌}
use mathlib.Core.Path.{◌≡◌, refl, sym, subst}
use mathlib.Core.Logic.{inl, inr}
use mathlib.Core.Bool.{true, false}
use mathlib.Core.Option.{Option, none, some}
use mathlib.Core.List.{List, [], ◌∷◌, map}
use native.Mathlib.Omega.{arith}
use night_scout.Prelude.Tests.{Bool-cases, Option-cases}
use night_scout.Prelude.Lists.{All, All-map}
use night_scout.Prelude.Equality.{Eq, ◌==◌, ==_iff}
use night_scout.Prelude.Dict.{
  Dict, lookup, store, get, put, items, values, value_of, empty, Unique, IsDistinct, contains,
}
use night_scout.Prelude.Sets.{member, NoRepeat}

module _ {ℓ κ} {K : Type ℓ} {V : Type κ} where
  sum_of : (V → ℕ) → List (K × V) → ℕ
  sum_of f [] = 0
  sum_of f ((k, v) ∷ l) = f v + sum_of f l

  -- the sum of `f` over the values
  unfoldable pub total : (V → ℕ) → Dict K V → ℕ
  unfolding sum_of
  total f d = sum_of f d.entries

pub total-empty {ℓ κ} : (K : Type ℓ) {V : Type κ} (f : V → ℕ) → total f (empty {K = K} {V = V}) ≡ 0
unfolding total sum_of
total-empty K f = refl

-- what an optional value adds to the sum
abbrev pub weight {κ} : {V : Type κ} → (V → ℕ) → Option V → ℕ
weight f none = 0
weight f (some v) = f v

module _ {ℓ κ} {K : Type ℓ} {V : Type κ} ⦃e : Eq K⦄ where
  sum_of-store :
      (f : V → ℕ) (k : K) (v : V) (l : List (K × V))
      → sum_of f (store k v l) + weight f (lookup k l) ≡ sum_of f l + f v
  unfolding sum_of store lookup
  sum_of-store f k v [] = omega arith
  sum_of-store f k v ((j, w) ∷ l) = elim (Bool-cases (j == k)) [
    | inl same ↦ rw same (omega arith)
    | inr other ↦ rw other (omega (arith, sum_of-store f k v l))
  ]

  -- Writing a key replaces what the key added to the sum.
  pub total-put :
      (f : V → ℕ) (d : Dict K V) (k : K) (v : V)
      → total f (put d k v) + weight f (get d k) ≡ total f d + f v
  unfolding total put get
  total-put f d k v = sum_of-store f k v d.entries

  All-store :
      (P : V → Type 0) (k : K) (v : V) (l : List (K × V))
      → P v
      → All P (map value_of l)
      → All P (map value_of (store k v l))
  unfolding store value_of
  All-store P k v [] p h = (p, tt)
  All-store P k v ((j, w) ∷ l) p h = elim (Bool-cases (j == k)) [
    | inl same ↦ rw same (p, h.1)
    | inr other ↦ rw other (h.0, All-store P k v l p h.1)
  ]

  pub All-put :
      (P : V → Type 0) (d : Dict K V) (k : K) (v : V)
      → P v
      → All P (values d)
      → All P (values (put d k v))
  unfolding values put
  All-put P d k v p h = All-store P k v d.entries p h

module _ {ℓ κ} {K : Type ℓ} {V : Type κ} (P : ℕ → Type 0) (f : V → ℕ) where
  All-sum_of :
      (l : List (K × V))
      → P 0
      → ((a b : ℕ) → P a → P b → P (a + b))
      → All (λ v. P (f v)) (map value_of l)
      → P (sum_of f l)
  unfolding sum_of value_of
  All-sum_of [] zero plus h = zero
  All-sum_of ((k, v) ∷ l) zero plus h = plus (f v) (sum_of f l) h.0 (All-sum_of l zero plus h.1)

  -- A property of numbers that sums keep is the total's if each value's number has it.
  pub total-All :
      (d : Dict K V)
      → P 0
      → ((a b : ℕ) → P a → P b → P (a + b))
      → All (λ v. P (f v)) (values d)
      → P (total f d)
  unfolding total values
  total-All d zero plus h = All-sum_of d.entries zero plus h

module _ {ℓ κ} {K : Type ℓ} {V : Type κ} ⦃e : Eq K⦄ (key : V → K) where
  Keyed : List (K × V) → Type (ℓ ⊔ κ)
  Keyed l = (k : K) (v : V) → lookup k l ≡ some v → key v ≡ k

  Keyed-tail :
      (k : K) (v : V) (l : List (K × V)) → Unique ((k, v) ∷ l) → Keyed ((k, v) ∷ l) → Keyed l
  unfolding Keyed Unique lookup
  Keyed-tail k v l u own j w at = own j w (ground (arith, ==_iff k j, u.0, at))

  member-absent :
      (k : K) (l : List (K × V))
      → Unique l
      → Keyed l
      → lookup k l ≡ none
      → member k (map key (map value_of l)) ≡ false
  unfolding Unique lookup value_of
  member-absent k [] u own h = refl
  member-absent k ((j, v) ∷ l) u own h =
      let is : key v ≡ j = unfold Keyed in own j v (ground (arith, ==_iff j j)) in
      let ih = member-absent k l u.1 (Keyed-tail j v l u own) (ground (arith, h)) in
      ground (arith, ih, is, h, ==_iff k (key v), ==_iff j k)

  keys_once : (l : List (K × V)) → Unique l → Keyed l → NoRepeat (map key (map value_of l))
  unfolding Unique value_of
  keys_once [] u own = tt
  keys_once ((k, v) ∷ l) u own =
      let is : key v ≡ k = unfold Keyed lookup in own k v (ground (arith, ==_iff k k)) in
      let rest = Keyed-tail k v l u own in
      (
        subst (λ x. member x (map key (map value_of l)) ≡ false) (sym is)
            (member-absent k l u.1 rest u.0),
        keys_once l u.1 rest,
      )

  -- Values that carry their own keys carry different ones.
  pub keys-NoRepeat :
      (d : Dict K V)
      → IsDistinct d
      → ((k : K) (v : V) → get d k ≡ some v → key v ≡ k)
      → NoRepeat (map key (values d))
  unfolding IsDistinct get values Keyed
  keys-NoRepeat d u own = keys_once d.entries u own

  member-present :
      (k : K) (v : V) (l : List (K × V))
      → Keyed l
      → lookup k l ≡ some v
      → Unique l
      → member k (map key (map value_of l)) ≡ true
  unfolding lookup value_of Unique
  member-present k v [] own h u = absurd (ground (arith, h))
  member-present k v ((j, w) ∷ l) own h u =
      let is : key w ≡ j = unfold Keyed lookup in own j w (ground (arith, ==_iff j j)) in
      let ih = member-present k v l (Keyed-tail j w l u own) in
      ground (arith, ih, is, h, u.1, ==_iff j k, ==_iff k (key w))

  -- Values that carry their own keys carry those that stand for something.
  pub member-values :
      (d : Dict K V)
      → IsDistinct d
      → ((k : K) (v : V) → get d k ≡ some v → key v ≡ k)
      → (k : K) → member k (map key (values d)) ≡ contains d k
  unfolding IsDistinct get values Keyed
  member-values d u own k = elim (Option-cases (lookup k d.entries)) [
    | inl missing ↦ rw (missing, contains) (member-absent k d.entries u own missing)
    | inr (v, found) ↦ rw (found, contains) (member-present k v d.entries own found u)
  ]

module _ {ℓ κ} {K : Type ℓ} {V : Type κ} ⦃e : Eq K⦄ where
  abbrev pub item_keys : List (K × V) → List K
  item_keys l = map (λ p. p.0) l

  entries_found : (l : List (K × V)) → Unique l → All (λ p. lookup p.0 l ≡ some p.1) l
  unfolding Unique lookup
  entries_found [] u = tt
  entries_found ((k, v) ∷ l) u = (
    ground (arith, ==_iff k k),
    All-map l (λ p found. ground (arith, ==_iff k p.0, u.0, found)) (entries_found l u.1),
  )

  item_keys-absent : (k : K) (l : List (K × V)) → lookup k l ≡ none → member k (item_keys l) ≡ false
  unfolding lookup
  item_keys-absent k [] h = refl
  item_keys-absent k ((j, v) ∷ l) h =
      ground (arith, h, item_keys-absent k l, ==_iff k j, ==_iff j k)

  item_keys_once : (l : List (K × V)) → Unique l → NoRepeat (item_keys l)
  unfolding Unique
  item_keys_once [] u = tt
  item_keys_once ((k, v) ∷ l) u = (item_keys-absent k l u.0, item_keys_once l u.1)

  -- The items are what the keys stand for, each key once.
  pub items_lem :
      (d : Dict K V)
      → IsDistinct d
      → All (λ p. get d p.0 ≡ some p.1) (items d) × NoRepeat (item_keys (items d))
  unfolding IsDistinct get items
  items_lem d u = (entries_found d.entries u, item_keys_once d.entries u)

  lookup-absent : (k : K) (l : List (K × V)) → member k (item_keys l) ≡ false → lookup k l ≡ none
  unfolding lookup
  lookup-absent k [] h = refl
  lookup-absent k ((j, v) ∷ l) h = ground (arith, h, lookup-absent k l, ==_iff k j, ==_iff j k)

  -- A key that no item has stands for nothing.
  pub get-absent : (d : Dict K V) (k : K) → member k (item_keys (items d)) ≡ false → get d k ≡ none
  unfolding get items
  get-absent d k h = lookup-absent k d.entries h
