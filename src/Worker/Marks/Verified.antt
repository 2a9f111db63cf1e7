-- ===== src/Worker/Marks/Verified.antt =====
-- A request is marked as succeeded only for a result that was verified.
use iceberg_rest_catalog.Common.{ℕ, String, ◌≡◌, refl, Option, some, ok, arith}
use iceberg_rest_catalog.Common.Int.{ℤ}
use iceberg_rest_catalog.Common.Rows.{find, find-put_self, key-find}
use iceberg_rest_catalog.Json.{Fields, get_null, as_fields}
use iceberg_rest_catalog.Store.{succeeded, Operation, Execution}
use iceberg_rest_catalog.Store.Jobs.{Db, operation_row, execution_row}
use iceberg_rest_catalog.Store.Locks.{Owns, delete_locks_released}
use iceberg_rest_catalog.Verify.Sound.{IsVerified, verify-IsVerified}
use iceberg_rest_catalog.Worker.{Settings}
use iceberg_rest_catalog.Worker.Marks.{ended, write_success, mark_succeeded}
use iceberg_rest_catalog.Worker.Marks.Inversion.{mark_succeeded-eq-ok}

-- When `mark_succeeded` commits for a request and an execution that exist: the result has both table
-- states and they meet each condition, the stored request has succeeded, and it owns no lock.
pub mark_succeeded-IsVerified :
    (int_of_text int_of_real : String → Option ℤ) (s : Settings) (now operation execution : ℕ)
    (result : Fields) (db db' : Db) (e : Execution) (op : Operation)
    → find execution db.executions ≡ some e
    → find operation db.operations ≡ some op
    → mark_succeeded int_of_text int_of_real s now operation execution result db ≡ ok db'
    → ((before after : Fields) × (as_fields (get_null "before" result) ≡ some before)
        × (as_fields (get_null "after" result) ≡ some after)
        × IsVerified int_of_text int_of_real op.command before after op.parameters)
      × ((op' : Operation) × (find operation db'.operations ≡ some op') × (op'.state ≡ succeeded))
      × ((table : ℕ) → ¬ Owns db'.locks operation table)
unfolding write_success ended
mark_succeeded-IsVerified int_of_text int_of_real s now operation execution result db db' e op fe fo
      h =
    let (v, (_, _, t, _, written)) =
      mark_succeeded-eq-ok int_of_text int_of_real s now operation execution result db db' e op fe
        fo h in
    let key = key-find operation db.operations op fo in
    (
      verify-IsVerified int_of_text int_of_real op.command result op.parameters v,
      rw written (
        ended now succeeded op,
        find-put_self operation (ended now succeeded op) op db.operations fo key,
        refl,
      ),
      rw written (λ table. ground (arith, delete_locks_released operation db.locks table)),
    )
