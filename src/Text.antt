-- ===== src/Text.antt =====
-- What the programs do with texts character by character: Python's `str` of a natural number and `int`
-- of its digits, `split` and `join` on a separator, and `find` on a marker.
pub mod Laws
use Prim.Native.Char.{Char, char, code}
use iceberg_rest_catalog.Common.Int.{ℤ, pos, negsuc}
use Prim.Native.String.{count, ◌++◌ as ◌+++◌}
use iceberg_rest_catalog.Common.{
  ℕ, zero, suc, ◌+◌, ◌-◌, ◌*◌, ◌/◌, ◌%◌, String, Bool, true, false, ◌&&◌, ◌||◌, Option, none, some,
  List, [], ◌∷◌, if◌then◌else◌, ◌==◌, leb,
}

-- `[0-9]`
abbrev pub is_digit : Char → Bool
is_digit c = leb 48 (code c) && leb (code c) 57

-- The ten digits; any other number gives the last.
unfoldable pub digit : ℕ → Char
digit n =
    if n == 0
    then char 48 tt
    else if n == 1
    then char 49 tt
    else if n == 2
    then char 50 tt
    else if n == 3
    then char 51 tt
    else if n == 4
    then char 52 tt
    else if n == 5
    then char 53 tt
    else if n == 6
    then char 54 tt
    else if n == 7
    then char 55 tt
    else if n == 8
    then char 56 tt
    else char 57 tt

-- The digits of a number in front of a text, the last first. There are fewer than the number plus one.
unfoldable pub digits : (fuel : ℕ) → ℕ → String → String
unfolding digit
digits zero n rest = rest
digits (suc f) n rest =
    let longer = digits f (n / 10) (String.◌∷◌ (digit (n % 10)) rest) in
    if n / 10 == 0 then String.◌∷◌ (digit (n % 10)) rest else longer

-- `str(n)`
unfoldable pub decimal : ℕ → String
unfolding digits
decimal n = digits (suc n) n String.[]

-- `int(…)` of a text that `[0-9]+` matches, after the digits that were read; none if it does not match.
unfoldable pub read_digits : ℕ → String → Option ℕ
read_digits n String.[] = some n
read_digits n (String.◌∷◌ c s) = elim (is_digit c) [
  | true ↦ read_digits (n * 10 + (code c - 48)) s
  | false ↦ none
]

unfoldable pub read_decimal : String → Option ℕ
unfolding read_digits
read_decimal String.[] = none
read_decimal (String.◌∷◌ c s) = read_digits 0 (String.◌∷◌ c s)

-- What follows a text in another that begins with it.
unfoldable pub after_prefix : String → String → Option String
after_prefix String.[] s = some s
after_prefix (String.◌∷◌ c p) String.[] = none
after_prefix (String.◌∷◌ c p) (String.◌∷◌ d s) = elim (code c == code d) [
  | true ↦ after_prefix p s
  | false ↦ none
]

-- `at = s.find(marker)`, then `s[at + len(marker):]`; none where `find` gives -1.
unfoldable pub after_marker : String → String → Option String
unfolding after_prefix
after_marker m String.[] = after_prefix m String.[]
after_marker m (String.◌∷◌ c s) = elim (after_prefix m (String.◌∷◌ c s)) [
  | some rest ↦ some rest
  | none ↦ after_marker m s
]

abbrev pub onto_first : Char → List String → List String
onto_first c [] = String.◌∷◌ c String.[] ∷ []
onto_first c (p ∷ ps) = String.◌∷◌ c p ∷ ps

-- `s.split(separator)` for a separator of one character
unfoldable pub split : Char → String → List String
split d String.[] = String.[] ∷ []
split d (String.◌∷◌ c s) =
    let rest = split d s in if code c == code d then String.[] ∷ rest else onto_first c rest

-- `separator.join(parts)`
unfoldable pub join : String → List String → String
join d [] = String.[]
join d (p ∷ []) = p
join d (p ∷ q ∷ ps) = p +++ d +++ join d (q ∷ ps)

-- `s[:n]`
unfoldable pub first_chars : ℕ → String → String
first_chars zero s = String.[]
first_chars (suc n) String.[] = String.[]
first_chars (suc n) (String.◌∷◌ c s) = String.◌∷◌ c (first_chars n s)

abbrev pub after_chars : ℕ → String → String
after_chars zero s = s
after_chars (suc n) String.[] = String.[]
after_chars (suc n) (String.◌∷◌ c s) = after_chars n s

-- `s[-n:]`
unfoldable pub last_chars : ℕ → String → String
last_chars n s = after_chars (count s - n) s

-- `str(n)` of an integer
unfoldable pub int_text : ℤ → String
int_text (pos n) = decimal n
int_text (negsuc n) = "-" +++ decimal (suc n)
