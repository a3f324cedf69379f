-- ===== src/Prelude/Texts.antt =====
-- Python's `str.strip`, `casefold` and `upper`, on texts of ASCII characters.
use Prim.Native.Nat.{ℕ, ◌+◌}
use Prim.Native.Char.{code}
use Prim.Native.String.{String}
use mathlib.Core.Bool.{Bool, true, false, ◌&&◌, ◌||◌}
use mathlib.Core.List.{List, [], ◌∷◌}
use bit_cadence.Prelude.Tests.{leb, ◌==◌, if◌then◌else◌}

abbrev pub is_space : ℕ → Bool
is_space c = c == 32 || leb 9 c && leb c 13 || leb 28 c && leb c 31

-- not value.strip()
abbrev pub is_blank : String → Bool
is_blank String.[] = true
is_blank (String.◌∷◌ c s) = is_space (code c) && is_blank s

abbrev pub drop_left : String → String
drop_left String.[] = String.[]
drop_left (String.◌∷◌ c s) =
    let rest = drop_left s in if is_space (code c) then rest else String.◌∷◌ c s

abbrev pub drop_right : String → String
drop_right String.[] = String.[]
drop_right (String.◌∷◌ c s) =
    let rest = drop_right s in
    if is_space (code c) && is_blank rest then String.[] else String.◌∷◌ c rest

abbrev pub strip : String → String
strip s = drop_right (drop_left s)

-- the code points
abbrev pub codes_of : String → List ℕ
codes_of String.[] = []
codes_of (String.◌∷◌ c s) = code c ∷ codes_of s

abbrev pub lower_code : ℕ → ℕ
lower_code c = if leb 65 c && leb c 90 then c + 32 else c

abbrev pub same_codes : List ℕ → List ℕ → Bool
same_codes [] [] = true
same_codes (a ∷ xs) (b ∷ ys) = a == b && same_codes xs ys
same_codes _ _ = false

abbrev pub lower_codes : List ℕ → List ℕ
lower_codes [] = []
lower_codes (c ∷ cs) = lower_code c ∷ lower_codes cs

-- a.casefold() == b.casefold()
abbrev pub same_folded : String → String → Bool
same_folded a b = same_codes (lower_codes (codes_of a)) (lower_codes (codes_of b))
