-- ===== src/Examples/Listing.antt =====
-- Examples of the pages of requests, with texts that count in marks.
use Prim.Native.Char.{char}
use Prim.Native.String.{count}
use Prim.Native.String.count.{cons}
use iceberg_rest_catalog.Common.{
  ℕ, zero, suc, String, ◌≡◌, refl, true, false, Option, none, some, List, [], ◌∷◌, ok, arith, ap,
  ◌∙◌, eq_iff, ◌=ₛ◌, Bool-cases, inl, inr, length, keep,
}
use iceberg_rest_catalog.Store.{Operation, queued}
use iceberg_rest_catalog.Pages.{
  CursorTexts, ordered, operation_page, operation_wanted, operation_dated,
}
use iceberg_rest_catalog.Pages.Cursor.{ReadsBack, has_bar}
use iceberg_rest_catalog.Pages.Walk.{walk, operation_page-walked}
use iceberg_rest_catalog.Examples.{request_in, orders}

marks : ℕ → String
marks zero = ""
marks (suc n) = String.◌∷◌ (char 97 tt) (marks n)

read_back : String → Option String
read_back String.[] = none
read_back (String.◌∷◌ c s) = some s

abbrev texts : CursorTexts
texts = record {
  iso_text = marks;
  read_iso = λ s. some (count s);
  id_text = marks;
  read_id = λ s. some (count s);
  to_base64 = String.◌∷◌ (char 66 tt);
  from_base64 = read_back;
}

count-marks : (n : ℕ) → count (marks n) ≡ n
unfolding marks
count-marks zero = refl
count-marks (suc n) = cons (char 97 tt) (marks n) ∙ ap suc (count-marks n)

marks_plain : (n : ℕ) → has_bar (marks n) ≡ false
unfolding marks has_bar
marks_plain zero = refl
marks_plain (suc n) = marks_plain n

led_some : (s : String) → (String.◌∷◌ (char 66 tt) s =ₛ "") ≡ false
led_some s = elim (Bool-cases (String.◌∷◌ (char 66 tt) s =ₛ "")) [
  | inl same ↦ absurd (cc ((eq_iff (String.◌∷◌ (char 66 tt) s) "").0 same))
  | inr other ↦ other
]

texts_ReadsBack : ReadsBack texts
unfolding read_back
texts_ReadsBack = record {
  iso = λ n. ap some (count-marks n);
  iso_bar = marks_plain;
  id = λ n. ap some (count-marks n);
  base64 = λ s. refl;
  base64_some = λ s named. led_some s;
}

abbrev same : String → String
same s = s

abbrev later_request : Operation → Operation
later_request op = record op { id = 2; created_at = 200 }

abbrev requests : List Operation
requests = request_in queued ∷ later_request (request_in queued) ∷ []

operation_page-walked_example :
    (let selected =
        keep
          (operation_wanted texts same same
            (λ value pattern. true)
            (some "QUEUED")
            none
            (λ op. some orders))
          (requests) in
      walk texts texts_ReadsBack
        (λ cursor.
          operation_page texts same same
            (λ value pattern. true)
            1
            cursor
            (some "QUEUED")
            none
            (λ op. some orders)
            (requests))
        (suc (length selected))
        none
      ≡ ok (ordered selected))
operation_page-walked_example =
    operation_page-walked texts texts_ReadsBack same same (λ value pattern. true) 1 (some "QUEUED")
      none (λ op. some orders) (requests) (omega arith) (((λ e. omega arith), tt), (tt, tt))
