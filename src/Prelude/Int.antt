-- ===== src/Prelude/Int.antt =====
-- Signed integers over the native numbers: the signed durations and priorities of the program.
use Prim.Native.Nat.{ℕ, suc, ◌+◌, ◌-◌}
use mathlib.Core.Path.{◌≡◌}
use native.Mathlib.Omega.{arith}
use mathlib.Core.Bool.{Bool, true, false}
use night_scout.Prelude.Tests.{ltb, if◌then◌else◌}

-- `negsuc n` is -(n + 1).
pub data ℤ : Type 0 where
  pos : ℕ → ℤ
  negsuc : ℕ → ℤ

abbrev pub pos_part : ℤ → ℕ
pos_part (pos n) = n
pos_part (negsuc n) = 0

abbrev pub neg_part : ℤ → ℕ
neg_part (pos n) = 0
neg_part (negsuc n) = suc n

abbrev pub ltb_ℤ : ℤ → ℤ → Bool
ltb_ℤ a b = ltb (pos_part a + neg_part b) (pos_part b + neg_part a)

-- `d < timedelta(0)`
abbrev pub is_negative : ℤ → Bool
is_negative (pos n) = false
is_negative (negsuc n) = true

-- `d <= timedelta(0)`
abbrev pub is_nonpositive : ℤ → Bool
is_nonpositive (pos (ℕ.zero)) = true
is_nonpositive (pos (suc n)) = false
is_nonpositive (negsuc n) = true

-- `t + d` for a moment t
abbrev pub shift : ℕ → ℤ → ℕ
shift t (pos n) = t + n
shift t (negsuc n) = t - suc n

difference : ℕ → ℕ → ℤ
difference a b = if ltb a b then negsuc (b - a - 1) else pos (a - b)

infixl 65 ◌+ℤ◌
unfoldable pub ◌+ℤ◌ : ℤ → ℤ → ℤ
unfolding difference
a +ℤ b = difference (pos_part a + pos_part b) (neg_part a + neg_part b)

infixl 65 ◌-ℤ◌
-- an amount taken from a number
unfoldable pub ◌-ℤ◌ : ℤ → ℕ → ℤ
unfolding difference
a -ℤ n = difference (pos_part a) (neg_part a + n)

-- `min(a, b)`
unfoldable pub min_ℤ : ℤ → ℤ → ℤ
min_ℤ a b = if ltb_ℤ b a then b else a

-- `n - a`, where that is positive
abbrev pub gap : ℕ → ℤ → ℕ
gap n a = n + neg_part a - pos_part a

difference-parts :
    (a b : ℕ) → (pos_part (difference a b) ≡ a - b) × (neg_part (difference a b) ≡ b - a)
unfolding difference
difference-parts a b = (ground arith, ground arith)

-- The two parts of a sum.
pub plus-parts :
    (a b : ℤ)
    → (pos_part (a +ℤ b) ≡ pos_part a + pos_part b - (neg_part a + neg_part b))
      × (neg_part (a +ℤ b) ≡ neg_part a + neg_part b - (pos_part a + pos_part b))
unfolding ◌+ℤ◌
plus-parts a b = difference-parts (pos_part a + pos_part b) (neg_part a + neg_part b)

-- The two parts of a difference.
pub minus-parts :
    (a : ℤ) (n : ℕ)
    → (pos_part (a -ℤ n) ≡ pos_part a - (neg_part a + n))
      × (neg_part (a -ℤ n) ≡ neg_part a + n - pos_part a)
unfolding ◌-ℤ◌
minus-parts a n = difference-parts (pos_part a) (neg_part a + n)
