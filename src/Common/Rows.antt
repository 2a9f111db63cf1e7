-- ===== src/Common/Rows.antt =====
-- The rows of a database table, each found by its primary key, and the laws of reading after a
-- write. `session.get` is `find`, an update of a loaded row is `put`, `session.add` is `add`.
use Prim.Native.Nat.{ℕ}
use mathlib.Core.Path.{◌≡◌, refl}
use mathlib.Core.Logic.{◌≢◌, inl, inr}
use mathlib.Core.Bool.{false}
use mathlib.Core.Option.{Option, none, some}
use mathlib.Core.List.{List, [], ◌∷◌, ◌++◌}
use native.Mathlib.Omega.{arith}
use iceberg_rest_catalog.Common.Tests.{◌==◌, if◌then◌else◌, Bool-cases}
use iceberg_rest_catalog.Common.Lists.{All}

-- What a row type gives: its primary key.
pub record Row {ℓ} (A : Type ℓ) : Type ℓ where
  pub key : A → ℕ

module _ {ℓ} {A : Type ℓ} ⦃row : Row A⦄ where
  unfoldable pub find : ℕ → List A → Option A
  find k [] = none
  find k (r ∷ rs) = if row.key r == k then some r else find k rs

  -- Writes a loaded row back: every row with its key.
  unfoldable pub put : A → List A → List A
  put r [] = []
  put r (x ∷ rs) = (if row.key x == row.key r then r else x) ∷ put r rs

  -- A new row comes last.
  unfoldable pub add : A → List A → List A
  add r rs = rs ++ r ∷ []

  -- After a write, its key finds the new row if there was one, and other keys what they found.
  pub find-put :
      (k : ℕ) (r : A) (rs : List A)
      → find k (put r rs) ≡ (
          if row.key r == k
          then (elim (find k rs) [ none ↦ none | some _ ↦ some r ])
          else find k rs)
  unfolding find put
  find-put k r [] = ground arith
  find-put k r (x ∷ rs) = ground (arith, find-put k r rs)

  pub find-add :
      (k : ℕ) (r : A) (rs : List A)
      → find k (add r rs)
        ≡ (elim (find k rs) [ none ↦ if row.key r == k then some r else none | some x ↦ some x ])
  unfolding find add
  find-add k r [] = refl
  find-add k r (x ∷ rs) = ground (arith, find-add k r rs)

  -- What a key finds has that key.
  pub key-find : (k : ℕ) (rs : List A) (r : A) → find k rs ≡ some r → row.key r ≡ k
  unfolding find
  key-find k [] r h = cc
  key-find k (x ∷ rs) r h = ground (arith, key-find k rs r)

  pub find-put_self :
      (k : ℕ) (r x : A) (rs : List A)
      → find k rs ≡ some x
      → row.key r ≡ k
      → find k (put r rs) ≡ some r
  find-put_self k r x rs found same = ground (arith, find-put k r rs)

  pub find-put_ne : (k : ℕ) (r : A) (rs : List A) → row.key r ≢ k → find k (put r rs) ≡ find k rs
  find-put_ne k r rs differs = ground (arith, find-put k r rs)

  -- Every row is the one that its key finds: keys are unique.
  abbrev pub IsKeyed : List A → Type ℓ
  IsKeyed rs = All (λ r. find (row.key r) rs ≡ some r) rs

  put_other :
      (r x : A) (whole : List A)
      → find (row.key x) whole ≡ some x
      → (row.key x == row.key r) ≡ false
      → find (row.key x) (put r whole) ≡ some x
  put_other r x whole found differs = ground (arith, find-put (row.key x) r whole)

  add_new :
      (r : A) (whole : List A)
      → find (row.key r) whole ≡ none
      → find (row.key r) (add r whole) ≡ some r
  add_new r whole fresh = ground (arith, find-add (row.key r) r whole)

  add_other :
      (r x : A) (whole : List A)
      → find (row.key x) whole ≡ some x
      → find (row.key x) (add r whole) ≡ some x
  add_other r x whole found = ground (arith, find-add (row.key x) r whole)

  put_all :
      (r : A) (whole rs : List A)
      → find (row.key r) (put r whole) ≡ some r
      → All (λ x. find (row.key x) whole ≡ some x) rs
      → All (λ x. find (row.key x) (put r whole) ≡ some x) (put r rs)
  unfolding put
  put_all r whole [] self h = tt
  put_all r whole (x ∷ rs) self h = (
    elim (Bool-cases (row.key x == row.key r)) [
      | inl same ↦ rw same self
      | inr differs ↦ rw differs (put_other r x whole h.0 differs)
    ],
    put_all r whole rs self h.1,
  )

  pub put-IsKeyed :
      (r x : A) (rs : List A) → find (row.key r) rs ≡ some x → IsKeyed rs → IsKeyed (put r rs)
  put-IsKeyed r x rs found h = put_all r rs rs (find-put_self (row.key r) r x rs found refl) h

  add_all :
      (r : A) (whole rs : List A)
      → find (row.key r) whole ≡ none
      → All (λ x. find (row.key x) whole ≡ some x) rs
      → All (λ x. find (row.key x) (add r whole) ≡ some x) (add r rs)
  unfolding add
  add_all r whole [] fresh h = (add_new r whole fresh, tt)
  add_all r whole (x ∷ rs) fresh h = (add_other r x whole h.0, add_all r whole rs fresh h.1)

  pub add-IsKeyed :
      (r : A) (rs : List A) → find (row.key r) rs ≡ none → IsKeyed rs → IsKeyed (add r rs)
  add-IsKeyed r rs fresh h = add_all r rs rs fresh h
