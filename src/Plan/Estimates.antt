-- ===== src/Plan/Estimates.antt =====
-- The estimates of a plan against what they stand for.
use Prim.Native.Nat.{max}
use iceberg_rest_catalog.Common.{
  ℕ, String, suc, zero, ◌%◌, ◌+◌, ◌*◌, ◌-◌, ◌/◌, ◌≤◌, ◌<◌, ◌≡◌, ◌≢◌, ◌⊎◌, ◌↔◌, refl, inl, inr, true,
  none, some, ok, arith, Option-cases,
}
use iceberg_rest_catalog.Json.{Value, Fields, null, bool, int, real, text, arr, obj, get}
use iceberg_rest_catalog.Common.Int.{pos, negsuc}
use native.Mathlib.Nat.{div-add-mod, mod-lt}
use iceberg_rest_catalog.Params.{
  Command, compute_stats, rewrite_manifests, rewrite_data_files, rewrite_position_deletes,
  expire_snapshots, remove_orphan_files, storage_migration, rollback, validate_parameters,
  is_int_between,
}
use iceberg_rest_catalog.Params.Bounds.{IsValidated, Passes, validate-IsValidated}
use iceberg_rest_catalog.Store.{ManagedTable, PlanItem}
use iceberg_rest_catalog.Plan.{
  Estimate, plan_item, expire_estimate, rewrite_estimate, estimate, int_parameter, plan_table,
}

-- Rounding up: `(b + t - 1) / t` parts of size `t` hold `b`, and one part fewer does not.
ceiling :
    (b t q r : ℕ) → 0 < t → t * q + r ≡ b + t - 1 → r < t → (b ≤ q * t) × (1 ≤ q → (q - 1) * t < b)
ceiling b t zero r h e l = (omega arith, λ c. omega arith)
ceiling b t (suc p) r h e l = (omega arith, λ c. rw (one_less p) (omega arith))
  where
    one_less : (m : ℕ) → suc m - 1 ≡ m
    one_less m = omega arith

at_least_one :
    (b t q n : ℕ)
    → n ≡ max 1 q
    → b ≤ q * t
    → (1 ≤ q → (q - 1) * t < b)
    → (b ≤ n * t) × ((n ≡ 1) ⊎ ((n - 1) * t < b))
at_least_one b t zero n e enough tight = (omega arith, inl (omega arith))
at_least_one b t (suc p) n e enough tight =
    let same : n ≡ suc p = omega arith in rw same (enough, inr (tight (omega arith)))

-- Files of the target size hold the table, and one file fewer would not, unless one is enough.
pub rewrite_estimate_exact :
    (table : ManagedTable) (target_size n : ℕ)
    → 0 < target_size
    → (rewrite_estimate table target_size).output_files ≡ some n
    → (table.total_bytes ≤ n * target_size)
      × ((n ≡ 1) ⊎ ((n - 1) * target_size < table.total_bytes))
unfolding rewrite_estimate
rewrite_estimate_exact table target_size n h e =
    let q = (table.total_bytes + target_size - 1) / target_size in
    let r = (table.total_bytes + target_size - 1) % target_size in
    let (enough, tight) =
      ceiling table.total_bytes target_size q r h
        (div-add-mod (table.total_bytes + target_size - 1) target_size)
        (mod-lt (table.total_bytes + target_size - 1) h) in
    at_least_one table.total_bytes target_size q n (ground arith) enough tight

-- A parameter that has passed its range check is read as a number in the range.
pub int_parameter-Passes :
    (k : String) (d lo hi : ℕ) (ps : Fields)
    → Passes (is_int_between lo hi) k ps
    → lo ≤ d
    → d ≤ hi
    → (n : ℕ) × (int_parameter k d ps ≡ ok n) × (lo ≤ n) × (n ≤ hi)
unfolding int_parameter is_int_between
int_parameter-Passes k d lo hi ps h l u = elim (Option-cases (get k ps)) [
  | inl missing ↦ (d, rw (missing, int_parameter), l, u)
  | inr (v, found) ↦ read v found (h v found)
]
  where
    read :
        (v : Value)
        → get k ps ≡ some v
        → is_int_between lo hi v ≡ true
        → (n : ℕ) × (int_parameter k d ps ≡ ok n) × (lo ≤ n) × (n ≤ hi)
    read (int (pos n)) f p = (n, rw (f, int_parameter), ground arith, ground arith)
    read (int (negsuc n)) f p = cc
    read null f p = cc
    read (bool b) f p = cc
    read (real r) f p = cc
    read (text t) f p = cc
    read (arr xs) f p = cc
    read (obj fs) f p = cc

estimate-total :
    (table : ManagedTable) (command : Command) (ps : Fields) (target_size : ℕ)
    → IsValidated command ps
    → (e : Estimate) × (estimate table command ps target_size ≡ ok e)
unfolding estimate
estimate-total table expire_snapshots ps target_size h =
    let (retain_last, read, _, _) =
      int_parameter-Passes "retainLast" 1 1 10000 ps h.retain (omega arith) (omega arith) in
    (expire_estimate table retain_last, rw read refl)
estimate-total table rewrite_data_files ps target_size h = (_, refl)
estimate-total table rewrite_position_deletes ps target_size h = (_, refl)
estimate-total table rewrite_manifests ps target_size h = (_, refl)
estimate-total table remove_orphan_files ps target_size h = (_, refl)
estimate-total table rollback ps target_size h = (_, refl)
estimate-total table compute_stats ps target_size h = (_, refl)
estimate-total table storage_migration ps target_size h = (_, refl)

executable_iff :
    (table : ManagedTable) (command : Command) (e : Estimate)
    → ((plan_item table command e).executable ≡ true) ↔ (table.current_snapshot_id ≢ none)
unfolding plan_item
executable_iff table command e = (λ h. ground arith, λ h. ground arith)

-- With accepted parameters a plan is always made: no value is read as a number that is none. It
-- can be executed exactly when the table has a current snapshot.
pub plan_table-total :
    (table : ManagedTable) (command : Command) (ps : Fields)
    → validate_parameters command ps ≡ ok tt
    → (item : PlanItem) × (plan_table table command ps ≡ ok item)
      × ((item.executable ≡ true) ↔ (table.current_snapshot_id ≢ none))
unfolding plan_table
plan_table-total table command ps valid =
    let h = validate-IsValidated command ps valid in
    let (target_size, read, _, _) =
      int_parameter-Passes "targetFileSizeBytes" 134217728 1048576 10737418240 ps h.target_size
        (omega arith) (omega arith) in
    let (e, estimated) = estimate-total table command ps target_size h in
    (plan_item table command e, simp (read, estimated), executable_iff table command e)
