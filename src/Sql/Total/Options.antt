-- ===== src/Sql/Total/Options.antt =====
-- The parts of a procedure call can be built from parameters that the services accept.
use Prim.Native.String.{count}
use iceberg_rest_catalog.Common.{
  ℕ, ◌≡◌, ◌≢◌, String, Bool, true, false, Option-cases, Bool-cases, inl, inr, refl, ◌∙◌, ap, arith,
  Outcome, ok, ◌>>=◌, raise_if, leb, ◌&&◌, ◌=ₛ◌, eq_iff, not, [], ◌∷◌,
}
use iceberg_rest_catalog.Common.Int.{pos, negsuc}
use iceberg_rest_catalog.Json.{
  Value, Items, Fields, null, bool, int, text, arr, nil, cons, get, get_or,
}
use iceberg_rest_catalog.Params.{
  storage_migration, spark, engine_capable, is_int_between, is_bool, is_columns, is_column,
  every_item, length_items,
}
use iceberg_rest_catalog.Params.Bounds.{Passes}
use iceberg_rest_catalog.Text.{decimal}
use iceberg_rest_catalog.Text.Laws.{read_decimal-decimal}
use iceberg_rest_catalog.Sql.{BadCall, bad_columns}
use iceberg_rest_catalog.Sql.Job.{
  sql_literal, bool_option, int_option, int_entry, bool_entry, has_nul, column_sql, columns_sql,
  hours_option, compute_stats_sql,
}

-- The code ends well.
abbrev pub IsOk {ℓ} : {A : Type ℓ} → Outcome BadCall A → Type ℓ
IsOk {A = A} m = (a : A) × (m ≡ ok a)

pub then-IsOk :
    {A : Type 0} {B : Type 0} (m : Outcome BadCall A) (f : A → Outcome BadCall B)
    → IsOk m
    → ((a : A) → IsOk (f a))
    → IsOk (m >>= f)
then-IsOk m f (a, h) next = let (b, g) = next a in (b, ap (λ o. o >>= f) h ∙ g)

pub bool_option-IsOk : (v : Value) (name : String) → is_bool v ≡ true → IsOk (bool_option v name)
unfolding bool_option is_bool
bool_option-IsOk (bool b) name h = (_, refl)
bool_option-IsOk _ name h = cc

-- The number that an accepted integer stands for.
int_option-IsOk :
    (v : Value) (name : String) (lo hi : ℕ)
    → is_int_between lo hi v ≡ true
    → (n : ℕ) × (int_option v name lo hi ≡ ok (decimal n))
unfolding int_option is_int_between
int_option-IsOk (int (pos n)) name lo hi h = (n, rw h)
int_option-IsOk (int (negsuc n)) name lo hi h = cc
int_option-IsOk _ name lo hi h = cc

pub int_option-Ok :
    (v : Value) (name : String) (lo hi : ℕ)
    → is_int_between lo hi v ≡ true
    → IsOk (int_option v name lo hi)
int_option-Ok v name lo hi h = let (n, g) = int_option-IsOk v name lo hi h in (decimal n, g)

pub not_spark : engine_capable spark storage_migration ≢ true
unfolding engine_capable
not_spark = ground arith

pub hours_option-IsOk :
    (v : Value) (name : String) (lo hi : ℕ)
    → is_int_between lo hi v ≡ true
    → IsOk (hours_option v name lo hi)
unfolding hours_option
hours_option-IsOk v name lo hi h =
    let (n, g) = int_option-IsOk v name lo hi h in (n, rw (g, read_decimal-decimal n))

-- A test that the value at a key passes, or else the default.
pub get_or-Passes :
    (p : Value → Bool) (k : String) (d : Value) (ps : Fields)
    → Passes p k ps
    → p d ≡ true
    → p (get_or k d ps) ≡ true
unfolding get_or
get_or-Passes p k d ps h g = elim (Option-cases (get k ps)) [
  | inl missing ↦ rw (get_or, missing) g
  | inr (v, found) ↦ rw (get_or, found) (h v found)
]

pub int_entry-IsOk :
    (ps : Fields) (source target : String) (lo hi : ℕ)
    → Passes (is_int_between lo hi) source ps
    → IsOk (int_entry ps source target lo hi)
unfolding int_entry
int_entry-IsOk ps source target lo hi h = elim (Option-cases (get source ps)) [
  | inl missing ↦ ([], ground arith)
  | inr (v, found) ↦
      let (n, g) = int_option-IsOk v source lo hi (h v found) in
      ((target, decimal n) ∷ [], ground arith)
]

pub bool_entry-IsOk :
    (ps : Fields) (source target : String)
    → Passes is_bool source ps
    → IsOk (bool_entry ps source target)
unfolding bool_entry
bool_entry-IsOk ps source target h = elim (Option-cases (get source ps)) [
  | inl missing ↦ ([], ground arith)
  | inr (v, found) ↦
      let (b, g) = bool_option-IsOk v source (h v found) in ((target, b) ∷ [], ground arith)
]

-- A column's name has no character of code 0: the services accept one, the job does not.
unfoldable pub nul_free : Value → Bool
nul_free (text s) = not (has_nul s)
nul_free _ = true

none_counted : count "" ≡ 0
none_counted = refl

column_text-IsOk :
    (s : String)
    → (leb 1 (count s) && leb (count s) 500) ≡ true
    → has_nul s ≡ false
    → IsOk (column_sql (text s))
unfolding column_sql
column_text-IsOk s h g = elim (Bool-cases (s =ₛ "")) [
  | inl empty ↦ absurd (ground (arith, ap count ((eq_iff s "").0 empty), none_counted))
  | inr named ↦ (sql_literal s, ground arith)
]

column_sql-IsOk : (v : Value) → is_column v ≡ true → nul_free v ≡ true → IsOk (column_sql v)
unfolding is_column nul_free
column_sql-IsOk (text s) h g = column_text-IsOk s h (ground arith)
column_sql-IsOk _ h g = cc

columns_sql-IsOk :
    (xs : Items)
    → every_item is_column xs ≡ true
    → every_item nul_free xs ≡ true
    → IsOk (columns_sql xs)
unfolding columns_sql every_item
columns_sql-IsOk nil h g = ([], refl)
columns_sql-IsOk (cons v xs) h g =
    then-IsOk (column_sql v) _ (column_sql-IsOk v (ground arith) (ground arith)) (λ a.
      then-IsOk (columns_sql xs) _ (columns_sql-IsOk xs (ground arith) (ground arith))
        (λ others. (a ∷ others, refl)))

-- The columns that are named, if any are.
unfoldable pub columns_nul_free : Value → Bool
columns_nul_free (arr xs) = every_item nul_free xs
columns_nul_free _ = true

pub compute_stats_sql-IsOk :
    (c t : String) (v : Value)
    → is_columns v ≡ true
    → columns_nul_free v ≡ true
    → IsOk (compute_stats_sql c t v)
unfolding compute_stats_sql is_columns columns_nul_free
compute_stats_sql-IsOk c t null h g = (_, refl)
compute_stats_sql-IsOk c t (arr xs) h g =
    then-IsOk (raise_if (not (leb 1 (length_items xs) && leb (length_items xs) 100)) bad_columns) _
      (tt, ground arith)
      (λ passed.
        then-IsOk (columns_sql xs) _ (columns_sql-IsOk xs (ground arith) (ground arith))
          (λ values. (_, refl)))
compute_stats_sql-IsOk c t _ h g = cc
