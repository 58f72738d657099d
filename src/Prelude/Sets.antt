-- ===== src/Prelude/Sets.antt =====
-- Python's sets and frozensets, as lists in which nothing stands twice.
use mathlib.Core.Bool.{Bool, false, ◌||◌}
use mathlib.Core.List.{List, [], ◌∷◌, ◌++◌}
use mathlib.Core.Path.{◌≡◌, refl}
use native.Mathlib.Omega.{arith}
use night_scout.Prelude.Tests.{if◌then◌else◌}
use night_scout.Prelude.Lists.{any, every}
use night_scout.Prelude.Equality.{Eq, ◌==◌, ==_iff}

module _ {ℓ} {A : Type ℓ} ⦃e : Eq A⦄ where
  -- `x in xs`
  abbrev pub member : A → List A → Bool
  member x xs = any (λ y. x == y) xs

  -- `set(xs)`
  unfoldable pub set_of : List A → List A
  set_of [] = []
  set_of (x ∷ xs) = let rest = set_of xs in if member x rest then rest else x ∷ rest

  -- `xs.issubset(ys)`
  abbrev pub is_subset : List A → List A → Bool
  is_subset xs ys = every (λ x. member x ys) xs

  -- the truth of `xs & ys`
  abbrev pub overlaps : List A → List A → Bool
  overlaps xs ys = any (λ x. member x ys) xs

  -- nothing stands twice in the list
  abbrev pub NoRepeat : List A → Type 0
  NoRepeat [] = Unit
  NoRepeat (x ∷ xs) = (member x xs ≡ false) × NoRepeat xs

  pub member-append : (x : A) (ys zs : List A) → member x (ys ++ zs) ≡ (member x ys || member x zs)
  member-append x [] zs = refl
  member-append x (y ∷ ys) zs = ground (arith, member-append x ys zs)

  pub NoRepeat-snoc :
      (x : A) (ys : List A) → member x ys ≡ false → NoRepeat ys → NoRepeat (ys ++ (x ∷ []))
  NoRepeat-snoc x [] new h = (refl, tt)
  NoRepeat-snoc x (y ∷ ys) new h = (
    ground (arith, member-append y ys (x ∷ []), ==_iff x y, ==_iff y x, h.0),
    NoRepeat-snoc x ys (ground arith) h.1,
  )
