-- ===== src/Worker/Marks/Inversion.antt =====
-- What has happened when `mark_verifying` or `mark_succeeded` commits.
use iceberg_rest_catalog.Common.{
  ℕ, String, ◌≡◌, ◌⊎◌, inl, inr, Option, some, ok, arith, Option-cases, or_raise, >>=-eq-ok,
}
use iceberg_rest_catalog.Common.Int.{ℤ}
use iceberg_rest_catalog.Common.Rows.{find}
use iceberg_rest_catalog.Json.{Fields, get_null, as_fields}
use iceberg_rest_catalog.Store.{Operation, Execution, ManagedTable}
use iceberg_rest_catalog.Store.Jobs.{Db, operation_row, execution_row}
use iceberg_rest_catalog.Verify.{type_error, verify_result}
use iceberg_rest_catalog.Worker.{Settings}
use iceberg_rest_catalog.Worker.Marks.{
  nested, optional_int, observed, write_verifying, write_success, mark_verifying, mark_succeeded,
}

module _ (int_of_text int_of_real : String → Option ℤ) where
  pub mark_verifying-eq-ok :
      (now execution : ℕ) (result : Fields) (db db' : Db)
      → mark_verifying int_of_text int_of_real now execution result db ≡ ok db'
      → (db' ≡ db)
        ⊎ ((e : Execution) × (before : Option ℤ) × (after : Option ℤ) × (find execution
                db.executions
              ≡ some e)
            × (db' ≡ write_verifying now e result before after db))
  unfolding mark_verifying
  mark_verifying-eq-ok now execution result db db' h =
      elim (Option-cases (find execution db.executions)) [
        | inl gone ↦ inl (ground arith)
        | inr (e, found) ↦
            let (before, b, h₁) =
              >>=-eq-ok (nested "before" result) _ (rw (found, mark_verifying) at h) in
            let (after, a, h₂) = >>=-eq-ok (nested "after" result) _ h₁ in
            let (before_id, bi, h₃) =
              >>=-eq-ok (optional_int int_of_text int_of_real (get_null "snapshot_id" before)) _
                h₂ in
            let (after_id, ai, h₄) =
              >>=-eq-ok (optional_int int_of_text int_of_real (get_null "snapshot_id" after)) _
                h₃ in
            inr (e, before_id, after_id, found, cc h₄)
      ]

  pub mark_succeeded-eq-ok :
      (s : Settings) (now operation execution : ℕ) (result : Fields) (db db' : Db) (e : Execution)
      (op : Operation)
      → find execution db.executions ≡ some e
      → find operation db.operations ≡ some op
      → mark_succeeded int_of_text int_of_real s now operation execution result db ≡ ok db'
      → (verify_result int_of_text int_of_real op.command result op.parameters ≡ ok tt)
        × ((after : Fields) × (as_fields (get_null "after" result) ≡ some after)
            × (t : ManagedTable) × (observed int_of_text int_of_real now op after db ≡ ok t)
            × (db' ≡ write_success s now op e t db))
  unfolding mark_succeeded
  mark_succeeded-eq-ok s now operation execution result db db' e op fe fo h =
      let (u, v, h₁) =
        >>=-eq-ok (verify_result int_of_text int_of_real op.command result op.parameters) _
          (rw (fe, fo, mark_succeeded) at h) in
      let (after, a, h₂) =
        >>=-eq-ok (or_raise (as_fields (get_null "after" result)) type_error) _ h₁ in
      let (t, seen, h₃) = >>=-eq-ok (observed int_of_text int_of_real now op after db) _ h₂ in
      (v, (after, ground arith, t, seen, cc h₃))
