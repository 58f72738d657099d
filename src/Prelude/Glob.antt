-- ===== src/Prelude/Glob.antt =====
-- `fnmatch.fnmatchcase`: `*`, `?`, and classes in brackets. A bracket that nothing closes stands for
-- itself.
use Prim.Native.Char.{code}
use Prim.Native.Nat.{ℕ, zero, suc, ◌+◌}
use Prim.Native.String.{String}
use mathlib.Core.Bool.{Bool, true, false, not, ◌&&◌, ◌||◌}
use mathlib.Core.Option.{Option, none, some}
use mathlib.Core.List.{List, [], ◌∷◌}
use night_scout.Prelude.Tests.{leb, eqb, if◌then◌else◌}
use night_scout.Prelude.Lists.{length}

-- one piece of a pattern
pub data Glob : Type 0 where
  star : Glob
  any_char : Glob
  exactly : ℕ → Glob
  one_of : Bool → List (ℕ × ℕ) → Glob

codes : String → List ℕ
codes String.[] = []
codes (String.◌∷◌ c s) = code c ∷ codes s

-- the characters before the closing bracket, and those behind it
close : List ℕ → Option (List ℕ × List ℕ)
close [] = none
close (c ∷ cs) =
    let rest = close cs in
    if eqb c 93
    then some ([], cs)
    else elim rest [ none ↦ none | some (inside, behind) ↦ some (c ∷ inside, behind) ]

-- the ranges of a class; one character is a range of its own
ranges : List ℕ → List (ℕ × ℕ)
ranges [] = []
ranges (a ∷ []) = (a, a) ∷ []
ranges (a ∷ b ∷ []) = (a, a) ∷ (b, b) ∷ []
ranges (a ∷ b ∷ c ∷ cs) =
    let long = ranges cs in
    let short = ranges (b ∷ c ∷ cs) in if eqb b 45 then (a, c) ∷ long else (a, a) ∷ short

-- The class that begins behind an opening bracket, and the number of its characters. A closing bracket
-- that comes first stands for itself.
bracket_from : Bool → ℕ → List ℕ → Option (Glob × ℕ)
unfolding close ranges
bracket_from negated n [] = none
bracket_from negated n (c ∷ cs) = elim (close cs) [
  | none ↦ none
  | some (inside, behind) ↦
      some (one_of negated (ranges (c ∷ inside)), n + suc (suc (length inside)))
]

bracket : List ℕ → Option (Glob × ℕ)
unfolding bracket_from
bracket [] = none
bracket (c ∷ cs) = if eqb c 33 then bracket_from true 1 cs else bracket_from false 0 (c ∷ cs)

-- the pieces of a pattern behind the characters of a class that has been read
compile : ℕ → List ℕ → List Glob
unfolding bracket
compile n [] = []
compile (suc n) (c ∷ cs) = compile n cs
compile zero (c ∷ cs) =
    let rest = compile zero cs in
    if eqb c 42
    then star ∷ rest
    else if eqb c 63
    then any_char ∷ rest
    else if eqb c 91
    then (elim (bracket cs) [ none ↦ exactly c ∷ rest | some (g, n) ↦ g ∷ compile n cs ])
    else exactly c ∷ rest

in_ranges : ℕ → List (ℕ × ℕ) → Bool
in_ranges c [] = false
in_ranges c ((a, b) ∷ rs) = (leb a c && leb c b) || in_ranges c rs

accepts : Glob → ℕ → Bool
unfolding in_ranges
accepts star c = true
accepts any_char c = true
accepts (exactly a) c = eqb a c
accepts (one_of negated rs) c = if negated then not (in_ranges c rs) else in_ranges c rs

matches : List Glob → List ℕ → Bool
unfolding accepts
matches [] [] = true
matches [] (c ∷ cs) = false
matches (star ∷ gs) [] = matches gs []
matches (star ∷ gs) (c ∷ cs) = matches gs (c ∷ cs) || matches (star ∷ gs) cs
matches (g ∷ gs) [] = false
matches (g ∷ gs) (c ∷ cs) = accepts g c && matches gs cs

-- `fnmatchcase(text, pattern)`
unfoldable pub glob_match : String → String → Bool
unfolding matches compile codes
glob_match text pattern = matches (compile 0 (codes pattern)) (codes text)
