-- ===== src/System/Members.antt =====
-- A bulk creation keeps the invariant: its requests all wait for approval.
use iceberg_rest_catalog.Common.{
  ℕ, suc, ◌≤◌, String, ◌≡◌, ◌≢◌, inl, inr, refl, sym, Bool, not, Option, none, List, [], ◌∷◌, ok,
  arith, or_raise, raise_if, >>=-eq-ok, is_none, Option-cases, if◌then◌else◌,
}
use iceberg_rest_catalog.Common.Rows.{find, add, find-add, add-IsKeyed}
use iceberg_rest_catalog.Params.{engine_capable}
use iceberg_rest_catalog.Store.{Operation, ManagedTable, PlanItem}
use iceberg_rest_catalog.Store.Jobs.{BulkJob, Db, table_row, operation_row, execution_row, job_row}
use iceberg_rest_catalog.Requests.{
  table_not_found, not_supported, not_executable, integrity_error, planned, validated,
}
use iceberg_rest_catalog.Requests.Create.{with_key, new_operation}
use iceberg_rest_catalog.Bulk.Create.{
  RequestBulkCreate, derived_key, member_row, write_member, create_member, create_members,
  job_with_key, all_found, new_job, insert_operations, create_operations,
}
use iceberg_rest_catalog.System.{System}
use iceberg_rest_catalog.System.Locked.{is_active, add-IsLocked}
use iceberg_rest_catalog.System.Safety.{IsSafe}
use iceberg_rest_catalog.System.Bulk.{same_tables-IsSafe}

module _ (item_key : String → ℕ → String) (op_ids item_ids : ℕ → ℕ)
    (distinct : (m n : ℕ) → op_ids m ≡ op_ids n → m ≡ n) where
  -- The identifiers from an ordinal on are not taken.
  abbrev pub Unused : ℕ → Db → Type 0
  Unused ordinal db = (m : ℕ) → ordinal ≤ m → find (op_ids m) db.operations ≡ none

  write_member-IsSafe :
      (s : System) (now job ordinal : ℕ) (key : Option String) (fingerprint : String)
      (request : RequestBulkCreate) (table : ManagedTable) (plan : PlanItem)
      → find (op_ids ordinal) s.db.operations ≡ none
      → IsSafe s
      → IsSafe (record s {
        db =
            write_member item_key op_ids item_ids now job ordinal key fingerprint request table plan
              s.db;
      })
  unfolding write_member member_row new_operation is_active
  write_member-IsSafe s now job ordinal key fingerprint request table plan unused safe =
      let op =
        member_row item_key op_ids item_ids now job ordinal key fingerprint request table plan in
      record {
        keyed = add-IsKeyed op s.db.operations unused safe.keyed;
        locked = add-IsLocked s.db.operations s.db.locks op refl safe.locked;
        running = λ o e c.
            let r = safe.running o e c in
            record {
              row = r.row;
              found = ground (arith, find-add o op s.db.operations, r.found);
              executing = r.executing;
              same_request = r.same_request;
            };
      }

  write_member-Unused :
      (db : Db) (now job ordinal : ℕ) (key : Option String) (fingerprint : String)
      (request : RequestBulkCreate) (table : ManagedTable) (plan : PlanItem)
      → Unused ordinal db
      → Unused (suc ordinal) (
          write_member item_key op_ids item_ids now job ordinal key fingerprint request table plan
            db)
  unfolding write_member member_row new_operation
  write_member-Unused db now job ordinal key fingerprint request table plan unused m le =
      let op =
        member_row item_key op_ids item_ids now job ordinal key fingerprint request table plan in
      let free = unused m (omega (arith, le)) in
      let other : op_ids ordinal ≢ op_ids m = λ e. later (distinct ordinal m e) in
      ground (arith, find-add (op_ids m) op db.operations)
    where
      later : ordinal ≡ m → ⊥
      later e = omega (arith, le, e)

  create_members-IsSafe :
      (s : System) (now job ordinal : ℕ) (key : Option String) (fingerprint : String)
      (request : RequestBulkCreate) (ts : List ℕ) (db' : Db)
      → Unused ordinal s.db
      → create_members item_key op_ids item_ids now job ordinal key fingerprint request ts s.db
        ≡ ok db'
      → IsSafe s
      → IsSafe (record s { db = db' })
  unfolding create_members create_member
  create_members-IsSafe s now job ordinal key fingerprint request [] db' unused h safe =
      let same : s.db ≡ db' = ground arith in rw (sym same) safe
  create_members-IsSafe s now job ordinal key fingerprint request (t ∷ ts) db' unused h safe =
      let (db₁, one, more) =
        >>=-eq-ok
          (create_member item_key op_ids item_ids now job ordinal key fingerprint request t s.db) _
          h in
      let (table, _, h₁) = >>=-eq-ok (or_raise (find t s.db.tables) table_not_found) _ one in
      let (plan, _, h₂) = >>=-eq-ok (planned table request.command request.parameters) _ h₁ in
      let (_, _, h₃) = >>=-eq-ok (raise_if (not plan.executable) not_executable) _ h₂ in
      let (_, _, h₄) =
        >>=-eq-ok
          (raise_if
            (not (
              is_none
                (with_key (derived_key item_key op_ids item_ids key table.id) s.db.operations)))
            integrity_error)
          _ h₃ in
      let db₂ =
        write_member item_key op_ids item_ids now job ordinal key fingerprint request table plan
          s.db in
      let same : db₁ ≡ db₂ = ground arith in
      let safe₁ : IsSafe (record s { db = db₁ }) = rw same (
        write_member-IsSafe s now job ordinal key fingerprint request table plan
          (unused ordinal (omega arith)) safe) in
      let unused₁ : Unused (suc ordinal) db₁ =
        rw same
          (write_member-Unused s.db now job ordinal key fingerprint request table plan unused) in
      create_members-IsSafe (record s { db = db₁ }) now job (suc ordinal) key fingerprint request ts
        db' unused₁ more safe₁

  insert_operations-IsSafe :
      (s : System) (fresh now : ℕ) (key : Option String) (fingerprint : String)
      (request : RequestBulkCreate) (reply : List Operation × BulkJob) (db' : Db)
      → Unused 0 s.db
      → insert_operations item_key op_ids item_ids fresh now key fingerprint request s.db
        ≡ ok (reply, db')
      → IsSafe s
      → IsSafe (record s { db = db' })
  unfolding insert_operations
  insert_operations-IsSafe s fresh now key fingerprint request reply db' unused h safe =
      let (_, _, h₁) =
        >>=-eq-ok
          (raise_if (not (engine_capable request.preferred_engine request.command)) not_supported) _
          h in
      let (_, _, h₂) =
        >>=-eq-ok (raise_if (not (all_found s.db.tables request.table_ids)) table_not_found) _ h₁ in
      let (_, _, h₃) =
        >>=-eq-ok (raise_if (not (is_none (job_with_key key s.db.jobs))) integrity_error) _ h₂ in
      let db₀ : Db = record s.db {
        jobs = add (new_job item_key op_ids item_ids fresh now key fingerprint request) s.db.jobs;
      } in
      let (db₁, made, h₄) =
        >>=-eq-ok
          (create_members item_key op_ids item_ids now fresh 0 key fingerprint request
            request.table_ids db₀)
          _ h₃ in
      let same : db₁ ≡ db' = ground arith in
      rw (sym same) (
        create_members-IsSafe (record s { db = db₀ }) now fresh 0 key fingerprint request
          request.table_ids db₁ unused made (same_tables-IsSafe s db₀ refl refl refl safe))

  pub bulk_created-IsSafe :
      (fingerprint_of : RequestBulkCreate → String) (s : System) (raced : Bool) (fresh now : ℕ)
      (request : RequestBulkCreate) (key : Option String) (reply : List Operation × BulkJob)
      (db' : Db)
      → Unused 0 s.db
      → create_operations item_key op_ids item_ids fingerprint_of raced fresh now request key s.db
        ≡ ok (reply, db')
      → IsSafe s
      → IsSafe (record s { db = db' })
  unfolding create_operations
  bulk_created-IsSafe fingerprint_of s raced fresh now request key reply db' unused h safe =
      let (_, _, h₁) = >>=-eq-ok (validated request.command request.parameters) _ h in
      elim (Option-cases (if raced then none else job_with_key key s.db.jobs)) [
        | inl free ↦
            insert_operations-IsSafe s fresh now key (fingerprint_of request) request reply db'
              unused (ground arith) safe
        | inr (job, found) ↦ let same : s.db ≡ db' = ground arith in rw (sym same) safe
      ]
