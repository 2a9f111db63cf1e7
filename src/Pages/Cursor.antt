-- ===== src/Pages/Cursor.antt =====
-- A cursor's text is read back as the row that it names.
use Prim.Native.Char.{char, code}
use Prim.Native.String.{◌++◌ as ◌+++◌}
use text.Mathlib.TextLemmas.{nil-append, cons-append}
use iceberg_rest_catalog.Common.{
  ℕ, String, ◌≡◌, ◌≢◌, Bool, true, false, some, ok, ◌∙◌, ap, arith, ◌==◌, Bool-cases, inl, inr,
  ◌=ₛ◌,
}
use iceberg_rest_catalog.Pages.{
  CursorTexts, split_bar, encode_cursor, decode_cursor, cursor_of, operation_dated,
}

-- A text without a bar.
unfoldable pub has_bar : String → Bool
has_bar String.[] = false
has_bar (String.◌∷◌ c s) = elim (code c == 124) [ true ↦ true | false ↦ has_bar s ]

-- What the code relies on: each text is read back as what it stands for, a time's text has no bar, and the
-- base64 of a text with a character in it is not empty.
pub record ReadsBack (t : CursorTexts) : Type 0 where
  pub iso : (n : ℕ) → t.read_iso (t.iso_text n) ≡ some n
  pub iso_bar : (n : ℕ) → has_bar (t.iso_text n) ≡ false
  pub id : (n : ℕ) → t.read_id (t.id_text n) ≡ some n
  pub base64 : (s : String) → t.from_base64 (t.to_base64 s) ≡ some s
  pub base64_some : (s : String) → s ≢ "" → (t.to_base64 s =ₛ "") ≡ false

split_first : (s r : String) → has_bar s ≡ false → split_bar (s +++ "|" +++ r) ≡ some (s, r)
unfolding has_bar split_bar
split_first String.[] r h = ap split_bar (
    nil-append ("|" +++ r)
    ∙ cons-append (char 124 tt) String.[] r
    ∙ ap (String.◌∷◌ (char 124 tt)) (nil-append r))
split_first (String.◌∷◌ c s) r h = elim (Bool-cases (code c == 124)) [
  | inl bar ↦ absurd (ground (arith, bar))
  | inr other ↦ ground (arith, other, cons-append c s ("|" +++ r), split_first s r)
]

module _ (t : CursorTexts) (laws : ReadsBack t) where
  raw_split :
      (time id : ℕ)
      → split_bar (t.iso_text time +++ "|" +++ t.id_text id) ≡ some (t.iso_text time, t.id_text id)
  raw_split time id = split_first (t.iso_text time) (t.id_text id) (laws.iso_bar time)

  raw_some : (time id : ℕ) → (t.iso_text time +++ "|" +++ t.id_text id) ≢ ""
  unfolding split_bar
  raw_some time id e = ground (arith, ap split_bar e, raw_split time id)

  -- A cursor is read back as the row that it names.
  pub cursor_of-encode_cursor : (c : ℕ × ℕ) → cursor_of t (some (encode_cursor t c)) ≡ ok (some c)
  unfolding cursor_of encode_cursor decode_cursor
  cursor_of-encode_cursor (time, id) = rw (
    laws.base64_some _ (raw_some time id),
    laws.base64 (t.iso_text time +++ "|" +++ t.id_text id),
    raw_split time id,
    laws.iso time,
    laws.id id,
  )
