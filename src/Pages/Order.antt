-- ===== src/Pages/Order.antt =====
-- The order of the pages: sorting is by a strict order, and reading past a row of the sorted rows gives the rest.
use iceberg_rest_catalog.Common.{
  ℕ, suc, ◌≡◌, ◌≢◌, Bool, true, false, List, [], ◌∷◌, refl, ◌∙◌, ap, sym, arith, keep, All,
  Bool-cases, inl, inr, length, if◌then◌else◌,
}
use iceberg_rest_catalog.Pages.{Dated, is_after, stamp, insert, ordered}

-- The order is strict.
pub after_irrefl : (a : ℕ × ℕ) → is_after a a ≡ false
unfolding is_after
after_irrefl (t, i) = ground arith

after_trans : (a b c : ℕ × ℕ) → is_after a b ≡ true → is_after b c ≡ true → is_after a c ≡ true
unfolding is_after
after_trans (t, i) (u, j) (v, k) h g = ground arith

pub after_asym : (a b : ℕ × ℕ) → is_after a b ≡ true → is_after b a ≡ false
unfolding is_after
after_asym (t, i) (u, j) h = ground arith

after_total : (a b : ℕ × ℕ) → a.1 ≢ b.1 → is_after a b ≡ false → is_after b a ≡ true
unfolding is_after
after_total (t, i) (u, j) h g = ground arith

module _ {A : Type 0} ⦃dated : Dated A⦄ where
  -- Each row comes after those before it.
  abbrev pub IsOrdered : List A → Type 0
  IsOrdered [] = Unit
  IsOrdered (x ∷ xs) = All (λ y. is_after (stamp x) (stamp y) ≡ true) xs × IsOrdered xs

  -- The rows have different identifiers.
  abbrev pub IsDistinct : List A → Type 0
  IsDistinct [] = Unit
  IsDistinct (x ∷ xs) = All (λ y. dated.key x ≢ dated.key y) xs × IsDistinct xs

  pub all_map : {P Q : A → Type 0} → ((a : A) → P a → Q a) → (xs : List A) → All P xs → All Q xs
  all_map f [] h = tt
  all_map f (x ∷ xs) (h, hs) = (f x h, all_map f xs hs)

  insert-all : (P : A → Type 0) (x : A) (ys : List A) → P x → All P ys → All P (insert x ys)
  unfolding insert
  insert-all P x [] p h = (p, tt)
  insert-all P x (y ∷ ys) p (h, hs) = elim (Bool-cases (is_after (stamp y) (stamp x))) [
    | inl later ↦ rw (insert, later) (h, insert-all P x ys p hs)
    | inr sooner ↦ rw (insert, sooner) (p, (h, hs))
  ]

  ordered-all : (P : A → Type 0) (xs : List A) → All P xs → All P (ordered xs)
  unfolding ordered
  ordered-all P [] h = tt
  ordered-all P (x ∷ xs) (h, hs) = insert-all P x (ordered xs) h (ordered-all P xs hs)

  length-insert : (x : A) (ys : List A) → length (insert x ys) ≡ suc (length ys)
  unfolding insert
  length-insert x [] = refl
  length-insert x (y ∷ ys) = ground (arith, length-insert x ys)

  pub length-ordered : (xs : List A) → length (ordered xs) ≡ length xs
  unfolding ordered
  length-ordered [] = refl
  length-ordered (x ∷ xs) = omega (arith, length-insert x (ordered xs), length-ordered xs)

  insert-IsOrdered :
      (x : A) (ys : List A)
      → All (λ y. dated.key x ≢ dated.key y) ys
      → IsOrdered ys
      → IsOrdered (insert x ys)
  unfolding insert
  insert-IsOrdered x [] h o = (tt, tt)
  insert-IsOrdered x (y ∷ ys) (h, hs) (o, os) = elim (Bool-cases (is_after (stamp y) (stamp x))) [
    | inl later ↦ rw (insert, later) (insert-all _ x ys later o, insert-IsOrdered x ys hs os)
    | inr sooner ↦
        let first = after_total (stamp y) (stamp x) (λ e. h (sym e)) sooner in
        rw (insert, sooner)
          ((first, all_map (λ z. after_trans (stamp x) (stamp y) (stamp z) first) ys o), (o, os))
  ]

  pub ordered-IsOrdered : (xs : List A) → IsDistinct xs → IsOrdered (ordered xs)
  unfolding ordered
  ordered-IsOrdered [] d = tt
  ordered-IsOrdered (x ∷ xs) (h, d) =
      insert-IsOrdered x (ordered xs) (ordered-all _ xs h) (ordered-IsOrdered xs d)

  -- A row that comes before all of them goes first.
  insert_first :
      (x : A) (ys : List A)
      → All (λ y. is_after (stamp x) (stamp y) ≡ true) ys
      → insert x ys ≡ x ∷ ys
  unfolding insert
  insert_first x [] h = refl
  insert_first x (y ∷ ys) (h, hs) = rw (insert, after_asym (stamp x) (stamp y) h)

  pub all_keep : (P : A → Type 0) (p : A → Bool) (xs : List A) → All P xs → All P (keep p xs)
  all_keep P p [] h = tt
  all_keep P p (x ∷ xs) (h, hs) = elim (Bool-cases (p x)) [
    | inl passes ↦ rw passes (h, all_keep P p xs hs)
    | inr fails ↦ rw fails (all_keep P p xs hs)
  ]

  keep-insert :
      (p : A → Bool) (x : A) (ys : List A)
      → All (λ y. dated.key x ≢ dated.key y) ys
      → IsOrdered ys
      → keep p (insert x ys) ≡ (if p x then insert x (keep p ys) else keep p ys)
  unfolding insert
  keep-insert p x [] h o = refl
  keep-insert p x (y ∷ ys) (h, hs) (o, os) = elim (Bool-cases (is_after (stamp y) (stamp x))) [
    | inl later ↦ ground (arith, later, keep-insert p x ys hs os)
    | inr sooner ↦
        let first = after_total (stamp y) (stamp x) (λ e. h (sym e)) sooner in
        ground (
          arith,
          sooner,
          insert_first x (keep p (y ∷ ys)) (
              all_keep _ p (y ∷ ys)
                (first, all_map (λ z. after_trans (stamp x) (stamp y) (stamp z) first) ys o)),
        )
  ]

  -- Filtering before sorting is filtering after it.
  pub keep-ordered :
      (p : A → Bool) (xs : List A) → IsDistinct xs → ordered (keep p xs) ≡ keep p (ordered xs)
  unfolding ordered
  keep-ordered p [] d = refl
  keep-ordered p (x ∷ xs) (h, d) = elim (Bool-cases (p x)) [
    | inl passes ↦ rw passes (
        ap (insert x) (keep-ordered p xs d)
        ∙ sym (
            keep-insert p x (ordered xs) (ordered-all _ xs h) (ordered-IsOrdered xs d) ∙ rw passes))
    | inr fails ↦ rw fails (
        keep-ordered p xs d
        ∙ sym
            (keep-insert p x (ordered xs) (ordered-all _ xs h) (ordered-IsOrdered xs d) ∙ rw fails))
  ]
