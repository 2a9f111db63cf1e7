-- ===== src/Pages/Walk.antt =====
-- A client that follows the cursors from page to page reads every row once, in order.
use mathlib.Core.List.{append_assoc}
use mathlib.Core.Path.{subst}
use iceberg_rest_catalog.Common.{
  ℕ, zero, suc, ◌+◌, ◌<◌, ◌≤◌, String, ◌≡◌, Bool, true, Option, none, some, List, [], ◌∷◌, ◌++◌,
  Outcome, ok, ◌>>=◌, refl, ◌∙◌, ap, sym, arith, ltb, keep, All, Bool-cases, inl, inr, length, take,
  drop, take-drop, take_whole, take-take, length-take, length-append,
}
use iceberg_rest_catalog.Requests.{ServiceError}
use iceberg_rest_catalog.Store.{Operation, ManagedTable}
use iceberg_rest_catalog.Pages.{
  Dated, is_after, stamp, ordered, past_cursor, last_stamp, Page, CursorTexts, encode_cursor,
  cursor_of, page_of, page_after, operation_wanted, operation_page, operation_dated,
}
use iceberg_rest_catalog.Pages.Order.{
  IsOrdered, IsDistinct, ordered-IsOrdered, keep-ordered, length-ordered, all_keep, after_irrefl,
  after_asym,
}
use iceberg_rest_catalog.Pages.Cursor.{ReadsBack, cursor_of-encode_cursor}

module _ (t : CursorTexts) (laws : ReadsBack t) where
  module _ {A : Type 0} ⦃dated : Dated A⦄ where
    -- A client that starts without a cursor and follows each that it is given.
    unfoldable pub walk :
        (page_at : Option String → Outcome ServiceError (Page A))
        → (fuel : ℕ) → Option String
        → Outcome ServiceError (List A)
    walk page_at zero cursor = ok []
    walk page_at (suc f) cursor = page_at cursor >>= λ page. elim (page.next_cursor) [
      | none ↦ ok (page.items)
      | some next ↦ walk page_at f (some next) >>= λ later. ok (page.items ++ later)
    ]

    -- A list that is not empty has a last element.
    last_of :
        (x : A) (xs : List A)
        → (init : List A) × (z : A) × (x ∷ xs ≡ init ++ z ∷ [])
          × (last_stamp (x ∷ xs) ≡ some (stamp z))
    unfolding last_stamp
    last_of x [] = ([], x, refl, refl)
    last_of x (y ∷ ys) = let (init, z, e, h) = last_of y ys in (x ∷ init, z, ap (λ r. x ∷ r) e, h)

    keep_all_true : (p : A → Bool) (xs : List A) → All (λ y. p y ≡ true) xs → keep p xs ≡ xs
    keep_all_true p [] h = refl
    keep_all_true p (x ∷ xs) (h, hs) = rw h (ap (λ r. x ∷ r) (keep_all_true p xs hs))

    all_true : (xs : List A) → All (λ y. true ≡ true) xs
    all_true [] = tt
    all_true (x ∷ xs) = (refl, all_true xs)

    after_member :
        (y : A) (pre : List A) (x : A) (post : List A)
        → All (λ z. is_after (stamp y) (stamp z) ≡ true) (pre ++ x ∷ post)
        → is_after (stamp y) (stamp x) ≡ true
    after_member y [] x post (h, hs) = h
    after_member y (w ∷ pre) x post (h, hs) = after_member y pre x post hs

    -- What lies past a row of the sorted rows is the rest of them.
    keep_past :
        (pre : List A) (x : A) (post : List A)
        → IsOrdered (pre ++ x ∷ post)
        → keep (past_cursor (some (stamp x))) (pre ++ x ∷ post) ≡ post
    unfolding past_cursor
    keep_past [] x post (h, o) = rw (after_irrefl (stamp x)) (keep_all_true _ post h)
    keep_past (y ∷ pre) x post (h, o) =
        rw (after_asym (stamp y) (stamp x) (after_member y pre x post h)) (keep_past pre x post o)

    page_last :
        (limit : ℕ) (rows : List A)
        → length rows ≤ limit
        → ((page_of t limit rows).items ≡ rows) × ((page_of t limit rows).next_cursor ≡ none)
    unfolding page_of
    page_last limit rows h = (
      take-take limit (limit + 1) rows (omega arith) ∙ take_whole limit rows h,
      rw (take_whole (limit + 1) rows (omega arith)) (ground arith),
    )

    page_more :
        (limit : ℕ) (rows : List A)
        → 0 < limit
        → limit < length rows
        → (init : List A) × (z : A) × (take limit rows ≡ init ++ z ∷ [])
          × ((page_of t limit rows).items ≡ take limit rows)
          × ((page_of t limit rows).next_cursor ≡ some (encode_cursor t (stamp z)))
    unfolding page_of
    page_more (suc l) (x ∷ rows) p h =
        let (init, z, e, g) = last_of x (take l rows) in
        (init, z, e, take-take (suc l) (suc l + 1) (x ∷ rows) (omega arith), next g)
      where
        next :
            {z : A}
            → last_stamp (x ∷ take l rows) ≡ some (stamp z)
            → (page_of t (suc l) (x ∷ rows)).next_cursor ≡ some (encode_cursor t (stamp z))
        next g =
            rw
              (
                length-take (suc l + 1) (x ∷ rows) (omega arith),
                take-take (suc l) (suc l + 1) (x ∷ rows) (omega arith),
                g,
              )
              (ground arith)
    page_more zero rows p h = absurd (omega arith)
    page_more (suc l) [] p h = absurd (omega arith)

    module _ (limit : ℕ) (some_limit : 0 < limit) (rows : List A) (distinct : IsDistinct rows) where
      -- A round that is given another cursor, when what follows it reads the rows past that.
      walk_more :
          (f : ℕ) (pre rest init : List A) (z : A)
          → ordered rows ≡ pre ++ rest
          → take limit rest ≡ init ++ z ∷ []
          → limit < length rest
          → length rest < suc f
          → ((before others : List A) (cursor : Option String) (from : Option (ℕ × ℕ))
              → cursor_of t cursor ≡ ok from
              → ordered rows ≡ before ++ others
              → keep (past_cursor from) (ordered rows) ≡ others
              → length others < f
              → walk (λ c. page_after t limit c rows) f cursor ≡ ok others)
          → (walk (λ c. page_after t limit c rows) f (some (encode_cursor t (stamp z))) >>= λ later.
              ok (take limit rest ++ later))
            ≡ ok rest
      walk_more f pre rest init z o e m h next =
          ap (λ later. later >>= λ later. ok (take limit rest ++ later))
            (next ((pre ++ init) ++ z ∷ []) (drop limit rest) (some (encode_cursor t (stamp z)))
              (some (stamp z)) (cursor_of-encode_cursor t laws (stamp z))
              (cut ∙ sym (append_assoc (pre ++ init) (z ∷ []) (drop limit rest)))
              (ap (keep (past_cursor (some (stamp z)))) cut
                ∙ keep_past (pre ++ init) z (drop limit rest)
                    (subst IsOrdered cut (ordered-IsOrdered rows distinct)))
              (omega (
                arith,
                ap length (take-drop limit rest),
                length-append (take limit rest) (drop limit rest),
                length-take limit rest (omega arith),
              )))
          ∙ ap ok (take-drop limit rest)
        where
          cut : ordered rows ≡ (pre ++ init) ++ z ∷ drop limit rest
          cut =
              o
              ∙ ap (λ r. pre ++ r)
                  (sym (take-drop limit rest)
                    ∙ ap (λ r. r ++ drop limit rest) e
                    ∙ append_assoc init (z ∷ []) (drop limit rest))
              ∙ sym (append_assoc pre init (z ∷ drop limit rest))

      -- From a cursor, the rows past it are read.
      walk_rest :
          (f : ℕ) (pre rest : List A) (cursor : Option String) (from : Option (ℕ × ℕ))
          → cursor_of t cursor ≡ ok from
          → ordered rows ≡ pre ++ rest
          → keep (past_cursor from) (ordered rows) ≡ rest
          → length rest < f
          → walk (λ c. page_after t limit c rows) f cursor ≡ ok rest
      unfolding walk page_after
      walk_rest zero pre rest cursor from c o k h = absurd (omega arith)
      walk_rest (suc f) pre rest cursor from c o k h =
          rw (walk, page_after, c, keep-ordered (past_cursor from) rows distinct, k)
            (elim (Bool-cases (ltb limit (length rest))) [
              | inr fits ↦
                  let (items, next) = page_last limit rest (ground (arith, fits)) in
                  rw (next, items) refl
              | inl more ↦
                  let (init, z, e, items, next) =
                    page_more limit rest some_limit (ground (arith, more)) in
                  rw (next, items)
                    (walk_more f pre rest init z o e (ground (arith, more)) h (walk_rest f))
            ])

      -- The pages from the first on are the rows in order.
      pub walk-ordered :
          walk (λ c. page_after t limit c rows) (suc (length rows)) none ≡ ok (ordered rows)
      unfolding cursor_of past_cursor
      walk-ordered =
          walk_rest (suc (length rows)) [] (ordered rows) none none refl refl
            (keep_all_true _ (ordered rows) (all_true (ordered rows)))
            (omega (arith, length-ordered rows))

    keep-IsDistinct : (p : A → Bool) (xs : List A) → IsDistinct xs → IsDistinct (keep p xs)
    keep-IsDistinct p [] d = tt
    keep-IsDistinct p (x ∷ xs) (h, d) = elim (Bool-cases (p x)) [
      | inl passes ↦ rw passes (all_keep _ p xs h, keep-IsDistinct p xs d)
      | inr fails ↦ rw fails (keep-IsDistinct p xs d)
    ]

  -- A client that starts without a cursor and follows each that it is given reads every request that passes
  -- the filters, once, the newest first, when the requests have different identifiers, the limit is positive,
  -- and times, identifiers and base64 texts are read back as what they stand for. It asks for no more pages
  -- than there are such requests, plus one.
  pub operation_page-walked :
      (upper strip : String → String) (ilike : String → String → Bool) (limit : ℕ)
      (state catalog : Option String) (table_of : Operation → Option ManagedTable)
      (operations : List Operation)
      → 0 < limit
      → IsDistinct operations
      → (let selected =
            keep (operation_wanted t upper strip ilike state catalog table_of) operations in
          walk
            (λ cursor.
              operation_page t upper strip ilike limit cursor state catalog table_of operations)
            (suc (length selected))
            none
          ≡ ok (ordered selected))
  unfolding operation_page
  operation_page-walked upper strip ilike limit state catalog table_of operations h d =
      walk-ordered limit h
        (keep (operation_wanted t upper strip ilike state catalog table_of) operations)
        (keep-IsDistinct _ operations d)
