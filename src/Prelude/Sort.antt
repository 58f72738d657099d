-- ===== src/Prelude/Sort.antt =====
-- Python's stable `sorted`, for a test "comes before or is equal", and the order of texts.
use Prim.Native.Nat.{Ordering}
use Prim.Native.String.{String, compare}
use mathlib.Core.Path.{◌≡◌, refl, ◌∙◌}
use mathlib.Core.Logic.{inl, inr}
use mathlib.Core.Bool.{Bool, true, false, ◌||◌}
use mathlib.Core.List.{List, [], ◌∷◌, map}
use native.Mathlib.Omega.{arith}
use night_scout.Prelude.Tests.{if◌then◌else◌, Bool-cases}
use night_scout.Prelude.Lists.{All}
use night_scout.Prelude.Equality.{Eq, ◌==◌, ==_iff}
use night_scout.Prelude.Sets.{member, NoRepeat}

abbrev pub leb_text : String → String → Bool
leb_text a b = elim (compare a b) [ Ordering.gt ↦ false | _ ↦ true ]

module _ {ℓ} {A : Type ℓ} (before : A → A → Bool) where
  insert_sorted : A → List A → List A
  insert_sorted x [] = x ∷ []
  insert_sorted x (y ∷ ys) =
      let rest = insert_sorted x ys in if before x y then x ∷ y ∷ ys else y ∷ rest

  unfoldable pub sort : List A → List A
  unfolding insert_sorted
  sort [] = []
  sort (x ∷ xs) = insert_sorted x (sort xs)

  All-insert_sorted :
      (P : A → Type 0) (x : A) (xs : List A) → P x → All P xs → All P (insert_sorted x xs)
  unfolding insert_sorted
  All-insert_sorted P x [] p h = (p, tt)
  All-insert_sorted P x (y ∷ ys) p h = let ih = All-insert_sorted P x ys p h.1 in ground (arith, ih)

  pub All-sort : (P : A → Type 0) (xs : List A) → All P xs → All P (sort xs)
  unfolding sort
  All-sort P [] h = tt
  All-sort P (x ∷ xs) h = All-insert_sorted P x (sort xs) h.0 (All-sort P xs h.1)

  insert_sorted-All :
      (P : A → Type 0) (x : A) (xs : List A) → All P (insert_sorted x xs) → P x × All P xs
  unfolding insert_sorted
  insert_sorted-All P x [] h = h
  insert_sorted-All P x (y ∷ ys) h = elim (Bool-cases (before x y)) [
    | inl first ↦ rw first at h
    | inr later ↦
        let k : P y × All P (insert_sorted x ys) = rw later at h in
        let (px, rest) = insert_sorted-All P x ys k.1 in (px, (k.0, rest))
  ]

  pub sort-All : (P : A → Type 0) (xs : List A) → All P (sort xs) → All P xs
  unfolding sort
  sort-All P [] h = tt
  sort-All P (x ∷ xs) h =
      let (px, rest) = insert_sorted-All P x (sort xs) h in (px, sort-All P xs rest)

  module _ {κ} {K : Type κ} ⦃e : Eq K⦄ (key : A → K) where
    member-insert_sorted :
        (k : K) (x : A) (xs : List A)
        → member k (map key (insert_sorted x xs)) ≡ (k == key x || member k (map key xs))
    unfolding insert_sorted
    member-insert_sorted k x [] = refl
    member-insert_sorted k x (y ∷ ys) = let ih = member-insert_sorted k x ys in ground (arith, ih)

    pub member-sort : (k : K) (xs : List A) → member k (map key (sort xs)) ≡ member k (map key xs)
    unfolding sort
    member-sort k [] = refl
    member-sort k (x ∷ xs) = ground (arith, member-insert_sorted k x (sort xs), member-sort k xs)

    NoRepeat-insert_sorted :
        (x : A) (xs : List A)
        → member (key x) (map key xs) ≡ false
        → NoRepeat (map key xs)
        → NoRepeat (map key (insert_sorted x xs))
    unfolding insert_sorted
    NoRepeat-insert_sorted x [] new h = (refl, tt)
    NoRepeat-insert_sorted x (y ∷ ys) new h = elim (Bool-cases (before x y)) [
      | inl first ↦ rw first (new, h)
      | inr later ↦ rw later (
        ground (
          arith,
          member-insert_sorted (key y) x ys,
          ==_iff (key x) (key y),
          ==_iff (key y) (key x),
          new,
          h.0,
        ),
        NoRepeat-insert_sorted x ys (ground (arith, new)) h.1,
      )
    ]

    -- Sorting keeps keys that are all different all different.
    pub NoRepeat-sort : (xs : List A) → NoRepeat (map key xs) → NoRepeat (map key (sort xs))
    unfolding sort
    NoRepeat-sort [] h = tt
    NoRepeat-sort (x ∷ xs) h =
        NoRepeat-insert_sorted x (sort xs) (member-sort (key x) xs ∙ h.0) (NoRepeat-sort xs h.1)
