-- ===== src/Js/Text.antt =====
-- Texts: letter case, trimming, membership, and the decimal texts of integers. Letter case and
-- blanks are those of ASCII.
use Prim.Native.Char.{Char, code}
use Prim.Native.String.{String, [], ◌∷◌}
use Prim.Native.String
use mathlib.Core.List.{List, [], ◌∷◌}
use federated_iot_platform.Prelude.{
  ℕ, zero, suc, ◌+◌, ◌-◌, ◌*◌, ◌/◌, ◌%◌, Bool, true, false, ◌&&◌, ◌||◌, Option, none, some, ◌==◌,
  leb, ◌===◌, if◌then◌else◌,
}
use federated_iot_platform.Prelude.Int.{ℤ, pos, negsuc}

infixr 65 ◌++◌
abbrev pub ◌++◌ : String → String → String
s ++ t = String.◌++◌ s t

-- The letters, upper case first in each pair.
letters : List (Char × Char)
letters =
    ("A", "a")
    ∷ ("B", "b")
    ∷ ("C", "c")
    ∷ ("D", "d")
    ∷ ("E", "e")
    ∷ ("F", "f")
    ∷ ("G", "g")
    ∷ ("H", "h")
    ∷ ("I", "i")
    ∷ ("J", "j")
    ∷ ("K", "k")
    ∷ ("L", "l")
    ∷ ("M", "m")
    ∷ ("N", "n")
    ∷ ("O", "o")
    ∷ ("P", "p")
    ∷ ("Q", "q")
    ∷ ("R", "r")
    ∷ ("S", "s")
    ∷ ("T", "t")
    ∷ ("U", "u")
    ∷ ("V", "v")
    ∷ ("W", "w")
    ∷ ("X", "x")
    ∷ ("Y", "y")
    ∷ ("Z", "z")
    ∷ []

upper_by : List (Char × Char) → Char → Char
upper_by [] c = c
upper_by ((u, l) ∷ rest) c = let other = upper_by rest c in if code l == code c then u else other

lower_by : List (Char × Char) → Char → Char
lower_by [] c = c
lower_by ((u, l) ∷ rest) c = let other = lower_by rest c in if code u == code c then l else other

-- `s.toUpperCase()` and `s.toLowerCase()`.
unfoldable pub upper : String → String
unfolding upper_by letters
upper [] = []
upper (c ∷ s) = upper_by letters c ∷ upper s

unfoldable pub lower : String → String
unfolding lower_by letters
lower [] = []
lower (c ∷ s) = lower_by letters c ∷ lower s

abbrev pub is_blank : Char → Bool
is_blank c = code c == 32 || (leb 9 (code c) && leb (code c) 13)

unfoldable pub trim_start : String → String
trim_start [] = []
trim_start (c ∷ s) = let rest = trim_start s in if is_blank c then rest else c ∷ s

unfoldable pub trim_end : String → String
trim_end [] = []
trim_end (c ∷ s) = elim (trim_end s) [ [] ↦ if is_blank c then [] else c ∷ [] | d ∷ r ↦ c ∷ d ∷ r ]

-- `s.trim()`.
unfoldable pub trim : String → String
unfolding trim_start trim_end
trim s = trim_end (trim_start s)

-- `list.includes(s)` and `set.has(s)` on texts.
unfoldable pub includes : List String → String → Bool
includes [] s = false
includes (t ∷ ts) s = t === s || includes ts s

-- `s.startsWith(t)`.
unfoldable pub begins_with : String → String → Bool
begins_with s [] = true
begins_with [] (d ∷ t) = false
begins_with (c ∷ s) (d ∷ t) = code c == code d && begins_with s t

-- `s.includes(t)`.
unfoldable pub contains : String → String → Bool
unfolding begins_with
contains [] t = begins_with [] t
contains (c ∷ s) t = begins_with (c ∷ s) t || contains s t

-- `parts.join(separator)`.
unfoldable pub join : String → List String → String
join sep [] = ""
join sep (s ∷ []) = s
join sep (s ∷ t ∷ rest) = s ++ (sep ++ join sep (t ∷ rest))

abbrev pub digit_char : ℕ → Char
digit_char n =
    if n == 0
    then "0"
    else if n == 1
    then "1"
    else if n == 2
    then "2"
    else if n == 3
    then "3"
    else if n == 4
    then "4"
    else if n == 5
    then "5"
    else if n == 6
    then "6"
    else if n == 7
    then "7"
    else if n == 8
    then "8"
    else "9"

-- The decimal digits of `n`, the last first on the way; `n < 10 ^ fuel` is enough.
unfoldable pub digits_from : ℕ → ℕ → String → String
digits_from zero n acc = acc
digits_from (suc fuel) n acc =
    let more = digits_from fuel (n / 10) (digit_char (n % 10) ∷ acc) in
    if n / 10 == 0 then digit_char (n % 10) ∷ acc else more

unfoldable pub decimal : ℕ → String
unfolding digits_from
decimal n = digits_from (suc n) n ""

unfoldable pub integer_text : ℤ → String
unfolding decimal
integer_text (pos n) = decimal n
integer_text (negsuc n) = "-" ++ decimal (suc n)

abbrev pub is_digit : Char → Bool
is_digit c = leb 48 (code c) && leb (code c) 57

unfoldable pub digits_value : ℕ → String → Option ℕ
digits_value acc [] = some acc
digits_value acc (c ∷ s) =
    let rest = digits_value (acc * 10 + (code c - 48)) s in if is_digit c then rest else none

-- The integer that a text of decimal digits with an optional sign spells.
unfoldable pub read_integer : String → Option ℤ
unfolding digits_value
read_integer [] = none
read_integer (c ∷ []) = if is_digit c then some (pos (code c - 48)) else none
read_integer (c ∷ d ∷ s) =
    if code c == b'-'
    then elim (digits_value 0 (d ∷ s)) [
      | none ↦ none
      | some n ↦ some (elim n [ zero ↦ pos 0 | suc m ↦ negsuc m ])
    ]
    else if code c == b'+'
    then elim (digits_value 0 (d ∷ s)) [ none ↦ none | some n ↦ some (pos n) ]
    else elim (digits_value 0 (c ∷ d ∷ s)) [ none ↦ none | some n ↦ some (pos n) ]

-- What follows the text `t` at the start of `s`.
unfoldable pub without_prefix : String → String → Option String
without_prefix s [] = some s
without_prefix [] (d ∷ t) = none
without_prefix (c ∷ s) (d ∷ t) =
    let rest = without_prefix s t in if code c == code d then rest else none
