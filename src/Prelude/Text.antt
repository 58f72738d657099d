-- ===== src/Prelude/Text.antt =====
-- Python's `str.strip` on texts.
use Prim.Native.Char.{Char, code}
use Prim.Native.String.{String}
use mathlib.Core.Bool.{Bool, true, false, ◌&&◌, ◌||◌}
use mathlib.Core.Option.{Option, none, some}
use night_scout.Prelude.Tests.{leb, eqb, if◌then◌else◌}
use Prim.Native.Nat.{ℕ}

-- The characters that `str.isspace` accepts and `str.strip()` removes.
is_space : ℕ → Bool
is_space c =
    (leb 9 c && leb c 13)
    || (leb 28 c && leb c 32)
    || eqb c 0x85
    || eqb c 0xa0
    || eqb c 0x1680
    || (leb 0x2000 c && leb c 0x200a)
    || eqb c 0x2028
    || eqb c 0x2029
    || eqb c 0x202f
    || eqb c 0x205f
    || eqb c 0x3000

lstrip : String → String
unfolding is_space
lstrip String.[] = String.[]
lstrip (String.◌∷◌ c s) = let rest = lstrip s in if is_space (code c) then rest else String.◌∷◌ c s

rstrip_cons : ℕ → String → String → String
rstrip_cons c whole String.[] = if is_space c then String.[] else whole
rstrip_cons c whole (String.◌∷◌ d rest) = whole

rstrip : String → String
unfolding is_space rstrip_cons
rstrip String.[] = String.[]
rstrip (String.◌∷◌ c s) = let rest = rstrip s in rstrip_cons (code c) (String.◌∷◌ c rest) rest

unfoldable pub strip : String → String
unfolding lstrip rstrip
strip s = rstrip (lstrip s)

abbrev pub is_blank : String → Bool
is_blank String.[] = true
is_blank (String.◌∷◌ c s) = false

-- `value.strip() or None`, and None for None
abbrev pub strip_or_none : String → Option String
strip_or_none s = let t = strip s in if is_blank t then none else some t

-- `str.upper` and `str.lower`, on the ASCII letters; other characters are kept.
translate : String → String → Char → Char
translate (String.◌∷◌ a from) (String.◌∷◌ b to) c =
    let rest = translate from to c in if eqb (code a) (code c) then b else rest
translate _ _ c = c

map_chars : (Char → Char) → String → String
map_chars f String.[] = String.[]
map_chars f (String.◌∷◌ c s) = String.◌∷◌ (f c) (map_chars f s)

unfoldable pub upper : String → String
unfolding map_chars translate
upper = map_chars (translate "abcdefghijklmnopqrstuvwxyz" "ABCDEFGHIJKLMNOPQRSTUVWXYZ")

unfoldable pub lower : String → String
unfolding map_chars translate
lower = map_chars (translate "ABCDEFGHIJKLMNOPQRSTUVWXYZ" "abcdefghijklmnopqrstuvwxyz")

is_prefix : String → String → Bool
is_prefix String.[] t = true
is_prefix (String.◌∷◌ c s) String.[] = false
is_prefix (String.◌∷◌ c s) (String.◌∷◌ d t) = eqb (code c) (code d) && is_prefix s t

-- `part in text`
unfoldable pub is_within : String → String → Bool
unfolding is_prefix
is_within part String.[] = is_blank part
is_within part (String.◌∷◌ c text) = is_prefix part (String.◌∷◌ c text) || is_within part text
