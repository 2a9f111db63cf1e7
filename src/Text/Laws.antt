-- ===== src/Text/Laws.antt =====
-- Round trips of the functions on texts.
use Prim.Native.Char.{Char, code}
use Prim.Native.String.{◌++◌ as ◌+++◌}
use text.Mathlib.TextLemmas.{nil-append, cons-append}
use text.Mathlib.TextEquality.{Char-path}
use iceberg_rest_catalog.Common.{
  ℕ, zero, suc, ◌+◌, ◌*◌, ◌/◌, ◌%◌, ◌<◌, String, ◌≡◌, ◌≢◌, refl, some, List, [], ◌∷◌, arith,
  if◌then◌else◌, ◌==◌, Bool-cases, inl, inr, ap, ◌∙◌, ==_iff,
}
use iceberg_rest_catalog.Text.{
  digit, digits, decimal, read_digits, read_decimal, after_prefix, onto_first, split, join,
  after_marker,
}

code-digit : (d : ℕ) → d < 10 → code (digit d) ≡ 48 + d
unfolding digit
code-digit zero h = refl
code-digit (suc zero) h = refl
code-digit (suc (suc zero)) h = refl
code-digit (suc (suc (suc zero))) h = refl
code-digit (suc (suc (suc (suc zero)))) h = refl
code-digit (suc (suc (suc (suc (suc zero))))) h = refl
code-digit (suc (suc (suc (suc (suc (suc zero)))))) h = refl
code-digit (suc (suc (suc (suc (suc (suc (suc zero))))))) h = refl
code-digit (suc (suc (suc (suc (suc (suc (suc (suc zero)))))))) h = refl
code-digit (suc (suc (suc (suc (suc (suc (suc (suc (suc zero))))))))) h = refl
code-digit (suc (suc (suc (suc (suc (suc (suc (suc (suc (suc d)))))))))) h = absurd (omega arith)

read_one :
    (n d : ℕ) (rest : String)
    → d < 10
    → read_digits n (String.◌∷◌ (digit d) rest) ≡ read_digits (n * 10 + d) rest
unfolding read_digits
read_one n d rest h = ground (arith, code-digit d h)

read_digits-digits :
    (f n : ℕ) (rest : String) → n < f → read_digits 0 (digits f n rest) ≡ read_digits n rest
unfolding digits
read_digits-digits zero n rest h = absurd (omega arith)
read_digits-digits (suc f) n rest h = elim (Bool-cases (n / 10 == 0)) [
  | inl small ↦ ground (arith, read_one 0 (n % 10) rest)
  | inr large ↦ ground (
    arith,
    read_digits-digits f (n / 10) (String.◌∷◌ (digit (n % 10)) rest),
    read_one (n / 10) (n % 10) rest,
  )
]

digits_lead :
    (f n : ℕ) (c : Char) (rest : String)
    → read_decimal (digits f n (String.◌∷◌ c rest)) ≡ read_digits 0 (digits f n (String.◌∷◌ c rest))
unfolding digits read_decimal
digits_lead zero n c rest = refl
digits_lead (suc f) n c rest = elim (Bool-cases (n / 10 == 0)) [
  | inl small ↦ ground arith
  | inr large ↦ ground (arith, digits_lead f (n / 10) (digit (n % 10)) (String.◌∷◌ c rest))
]

decimal_lead : (n : ℕ) → read_decimal (decimal n) ≡ read_digits 0 (decimal n)
unfolding decimal digits read_decimal
decimal_lead n = elim (Bool-cases (n / 10 == 0)) [
  | inl small ↦ ground arith
  | inr large ↦ ground (arith, digits_lead n (n / 10) (digit (n % 10)) String.[])
]

read_none : (n : ℕ) → read_digits n String.[] ≡ some n
unfolding read_digits
read_none n = refl

-- The digits of a number read back as the number.
pub read_decimal-decimal : (n : ℕ) → read_decimal (decimal n) ≡ some n
unfolding decimal
read_decimal-decimal n =
    decimal_lead n ∙ read_digits-digits (suc n) n String.[] (omega arith) ∙ read_none n

-- A text behind a prefix is what follows the prefix.
pub after_prefix-append : (p s : String) → after_prefix p (p +++ s) ≡ some s
unfolding after_prefix
after_prefix-append String.[] s = ground (arith, nil-append s)
after_prefix-append (String.◌∷◌ c p) s = ground (arith, cons-append c p s, after_prefix-append p s)

join_one : (d p : String) → join d (p ∷ []) ≡ p
unfolding join
join_one d p = refl

join-onto :
    (c d : Char) (ps : List String)
    → join (String.◌∷◌ d String.[]) (onto_first c ps)
      ≡ String.◌∷◌ c (join (String.◌∷◌ d String.[]) ps)
unfolding join
join-onto c d [] = refl
join-onto c d (p ∷ []) = refl
join-onto c d (p ∷ q ∷ ps) = cons-append c p _

join-none :
    (d : Char) (ps : List String)
    → ps ≢ []
    → join (String.◌∷◌ d String.[]) (String.[] ∷ ps)
      ≡ String.◌∷◌ d (join (String.◌∷◌ d String.[]) ps)
unfolding join
join-none d [] h = absurd (h refl)
join-none d (p ∷ ps) h = nil-append _ ∙ cons-append d String.[] _ ∙ ap (String.◌∷◌ d) (nil-append _)

split_some : (d : Char) (s : String) → split d s ≢ []
unfolding split
split_some d String.[] = ground arith
split_some d (String.◌∷◌ c s) = elim (Bool-cases (code c == code d)) [
  | inl h ↦ ground arith
  | inr h ↦ onto_some (split d s)
]
  where
    onto_some :
        (ps : List String) → (if code c == code d then String.[] ∷ ps else onto_first c ps) ≢ []
    onto_some [] = ground arith
    onto_some (p ∷ ps) = ground arith

-- The parts of a text, joined by the separator, are the text.
pub join-split : (d : Char) (s : String) → join (String.◌∷◌ d String.[]) (split d s) ≡ s
unfolding split
join-split d String.[] = join_one _ String.[]
join-split d (String.◌∷◌ c s) = elim (Bool-cases (code c == code d)) [
  | inl h ↦ ground (
    arith,
    join-none d (split d s),
    split_some d s,
    join-split d s,
    Char-path c d,
    ==_iff (code c) (code d),
  )
  | inr h ↦ ground (arith, join-onto c d (split d s), join-split d s)
]

prefix_marker :
    (m t : String) {rest : String} → after_prefix m t ≡ some rest → after_marker m t ≡ some rest
unfolding after_marker
prefix_marker m String.[] h = h
prefix_marker m (String.◌∷◌ c t) h = ground arith

-- A text that begins with the marker is read from there.
pub after_marker-append : (m s : String) → after_marker m (m +++ s) ≡ some s
after_marker-append m s = prefix_marker m (m +++ s) (after_prefix-append m s)
