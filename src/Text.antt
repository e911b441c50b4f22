-- ===== src/Text.antt =====
-- Text as the list of its code points, for the places where the program takes it apart.
use Prim.Native.Char.{code}
use Prim.Native.String.{String, ◌++◌ as ◌<>◌}
use umba_fx_engine.Prelude.{
  ℕ, zero, suc, ◌+◌, ◌/◌, ◌%◌, Bool, true, false, ◌&&◌, ◌||◌, List, [], ◌∷◌, map, leb, ◌==◌,
  if◌then◌else◌,
}

-- `String` has its own `[]` and `∷`.
abbrev pub codes : String → List ℕ
codes String.[] = []
codes (String.◌∷◌ c s) = code c ∷ codes s

abbrev pub same_codes : List ℕ → List ℕ → Bool
same_codes [] [] = true
same_codes (a ∷ xs) (b ∷ ys) = a == b && same_codes xs ys
same_codes _ _ = false

-- `str.lower()`, on the letters of ASCII.
abbrev pub lower_code : ℕ → ℕ
lower_code c = if leb b'A' c && leb c b'Z' then c + 32 else c

abbrev pub lower : List ℕ → List ℕ
lower = map lower_code

abbrev pub starts_with : List ℕ → List ℕ → Bool
starts_with [] s = true
starts_with (p ∷ ps) [] = false
starts_with (p ∷ ps) (c ∷ cs) = p == c && starts_with ps cs

-- `p in s`
abbrev pub is_inside : List ℕ → List ℕ → Bool
is_inside p [] = starts_with p []
is_inside p (c ∷ cs) = starts_with p (c ∷ cs) || is_inside p cs

-- `s.split(";")[0]`, at any separator.
abbrev pub before : ℕ → List ℕ → List ℕ
before sep [] = []
before sep (c ∷ cs) = elim (c == sep) [ true ↦ [] | false ↦ c ∷ before sep cs ]

-- The white space of ASCII.
abbrev pub is_space : ℕ → Bool
is_space c = c == 32 || (leb 9 c && leb c 13) || (leb 28 c && leb c 31)

abbrev pub strip_left : List ℕ → List ℕ
strip_left [] = []
strip_left (c ∷ cs) = elim (is_space c) [ true ↦ strip_left cs | false ↦ c ∷ cs ]

abbrev pub strip_right : List ℕ → List ℕ
strip_right [] = []
strip_right (c ∷ cs) = elim (strip_right cs) [
  | [] ↦ if is_space c then [] else c ∷ []
  | d ∷ ds ↦ c ∷ d ∷ ds
]

-- `str.strip()`
abbrev pub strip : List ℕ → List ℕ
strip s = strip_right (strip_left s)

digit_text : ℕ → String
digit_text d =
    if d == 0
    then "0"
    else if d == 1
    then "1"
    else if d == 2
    then "2"
    else if d == 3
    then "3"
    else if d == 4
    then "4"
    else if d == 5
    then "5"
    else if d == 6
    then "6"
    else if d == 7
    then "7"
    else if d == 8
    then "8"
    else "9"

str_from : ℕ → ℕ → String → String
unfolding digit_text
str_from zero n rest = rest
str_from (suc fuel) n rest = elim (n == 0) [
  | true ↦ rest
  | false ↦ str_from fuel (n / 10) (digit_text (n % 10) <> rest)
]

-- `str(n)`; `n` rounds are enough.
unfoldable pub str_nat : ℕ → String
unfolding str_from
str_nat n = if n == 0 then "0" else str_from n n ""
