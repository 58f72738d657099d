-- ===== src/Prelude/Dict.antt =====
-- Python's `dict`: the entries in order of first insertion. Clients have the laws of `get`.
pub mod Totals
use mathlib.Core.Path.{◌≡◌, refl, subst}
use mathlib.Core.Logic.{inl, inr}
use mathlib.Core.Bool.{Bool, true, false}
use mathlib.Core.Option.{Option, none, some}
use mathlib.Core.List.{List, [], ◌∷◌, map}
use native.Mathlib.Omega.{arith}
use night_scout.Prelude.Tests.{if◌then◌else◌, Bool-cases}
use night_scout.Prelude.Lists.{All}
use night_scout.Prelude.Equality.{Eq, ◌==◌, ==_iff}

pub record Dict {ℓ κ} (K : Type ℓ) (V : Type κ) : Type (ℓ ⊔ κ) where
  pub entries : List (K × V)

module _ {ℓ κ} {K : Type ℓ} {V : Type κ} where
  abbrev pub empty : Dict K V
  empty = record { entries = [] }

  value_of : K × V → V
  value_of (k, v) = v

  -- `list(d.values())`
  unfoldable pub values : Dict K V → List V
  unfolding value_of
  values d = map value_of d.entries

  -- `list(d.items())`
  unfoldable pub items : Dict K V → List (K × V)
  items d = d.entries

module _ {ℓ κ} {K : Type ℓ} {V : Type κ} ⦃e : Eq K⦄ where
  lookup : K → List (K × V) → Option V
  lookup k [] = none
  lookup k ((j, v) ∷ l) = if j == k then some v else lookup k l

  without : K → List (K × V) → List (K × V)
  without x [] = []
  without x ((i, w) ∷ others) =
      let kept = without x others in if i == x then kept else (i, w) ∷ kept

  store : K → V → List (K × V) → List (K × V)
  store k v [] = (k, v) ∷ []
  store k v ((j, w) ∷ l) = let rest = store k v l in if j == k then (j, v) ∷ l else (j, w) ∷ rest

  -- `d.get(k)`
  unfoldable pub get : Dict K V → K → Option V
  unfolding lookup
  get d k = lookup k d.entries

  -- `d.pop(k, None)`
  unfoldable pub remove : Dict K V → K → Dict K V
  unfolding without
  remove d k = record { entries = without k d.entries }

  -- `d[k] = v`
  unfoldable pub put : Dict K V → K → V → Dict K V
  unfolding store
  put d k v = record { entries = store k v d.entries }

  lookup-without :
      (x i : K) (others : List (K × V))
      → lookup i (without x others) ≡ (if x == i then none else lookup i others)
  unfolding lookup without
  lookup-without x i [] = ground arith
  lookup-without x i ((h, w) ∷ others) =
      ground (arith, lookup-without x i others, ==_iff h x, ==_iff h i, ==_iff x i)

  lookup-store :
      (k j : K) (v : V) (l : List (K × V))
      → lookup j (store k v l) ≡ (if k == j then some v else lookup j l)
  unfolding lookup store
  lookup-store k j v [] = refl
  lookup-store k j v ((i, w) ∷ l) =
      ground (arith, lookup-store k j v l, ==_iff i k, ==_iff i j, ==_iff k j)

  pub get-remove :
      (d : Dict K V) (x i : K) → get (remove d x) i ≡ (if x == i then none else get d i)
  unfolding get remove
  get-remove d x i = lookup-without x i d.entries

  pub get-put :
      (d : Dict K V) (k j : K) (v : V) → get (put d k v) j ≡ (if k == j then some v else get d j)
  unfolding get put
  get-put d k j v = lookup-store k j v d.entries

  pub get-empty : (k : K) → get (empty {V = V}) k ≡ none
  unfolding get
  get-empty k = refl

module _ {ℓ κ} {K : Type ℓ} {V : Type κ} ⦃e : Eq K⦄ where
  Unique : List (K × V) → Type κ
  Unique [] = Unit
  Unique ((k, v) ∷ l) = (lookup k l ≡ none) × Unique l

  -- no key stands twice among the entries
  pub IsDistinct : Dict K V → Type κ
  unfolding Unique
  IsDistinct d = Unique d.entries

  Unique-store : (k : K) (v : V) (l : List (K × V)) → Unique l → Unique (store k v l)
  unfolding Unique lookup store
  Unique-store k v [] u = (refl, tt)
  Unique-store k v ((j, w) ∷ l) u = elim (Bool-cases (j == k)) [
    | inl same ↦ rw same u
    | inr other ↦
        rw other (
          ground (arith, lookup-store k j v l, ==_iff k j, ==_iff j k, u.0),
          Unique-store k v l u.1,
        )
  ]

  pub IsDistinct-put : (d : Dict K V) (k : K) (v : V) → IsDistinct d → IsDistinct (put d k v)
  unfolding IsDistinct put
  IsDistinct-put d k v u = Unique-store k v d.entries u

  All-entries :
      (P : V → Type 0) (l : List (K × V))
      → Unique l
      → ((k : K) (v : V) → lookup k l ≡ some v → P v)
      → All P (map value_of l)
  unfolding Unique lookup value_of
  All-entries P [] u h = tt
  All-entries P ((k, v) ∷ l) u h = (
    h k v (ground (arith, ==_iff k k)),
    All-entries P l u.1 (λ j w at. h j w (ground (arith, ==_iff k j, u.0))),
  )

  -- The values are what the keys stand for.
  pub All-values :
      (P : V → Type 0) (d : Dict K V)
      → IsDistinct d
      → ((k : K) (v : V) → get d k ≡ some v → P v)
      → All P (values d)
  unfolding IsDistinct get values
  All-values P d u h = All-entries P d.entries u h

  entries_All :
      (P : V → Type 0) (l : List (K × V))
      → All P (map value_of l)
      → (k : K) (v : V) → lookup k l ≡ some v
      → P v
  unfolding lookup value_of
  entries_All P [] h k v at = absurd (ground arith)
  entries_All P ((j, w) ∷ l) h k v at = elim (Bool-cases (j == k)) [
    | inl same ↦ let e : w ≡ v = ground arith in subst P e h.0
    | inr other ↦ entries_All P l h.1 k v (rw other at at)
  ]

  pub values-All :
      (P : V → Type 0) (d : Dict K V) → All P (values d) → (k : K) (v : V) → get d k ≡ some v → P v
  unfolding get values
  values-All P d h k v found = entries_All P d.entries h k v found

module _ {ℓ κ} {K : Type ℓ} {V : Type κ} ⦃e : Eq K⦄ where
  -- `d.get(k, default)`
  abbrev pub get_or : Dict K V → K → V → V
  get_or d k v = elim (get d k) [ none ↦ v | some w ↦ w ]

  -- `k in d`
  abbrev pub contains : Dict K V → K → Bool
  contains d k = elim (get d k) [ none ↦ false | some w ↦ true ]

pub IsDistinct-empty {ℓ κ} :
    (K : Type ℓ) (V : Type κ) ⦃e : Eq K⦄ → IsDistinct (empty {K = K} {V = V})
unfolding IsDistinct
IsDistinct-empty K V = tt
