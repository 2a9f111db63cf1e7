-- ===== src/Worker/Run/Bookkeeping.antt =====
-- What each transaction of an execution leaves: the rows of the claim, and at its end a request that
-- is over and owns no lock.
use iceberg_rest_catalog.Common.{
  ℕ, String, ◌≡◌, ◌≢◌, inl, inr, Option, none, some, List, ok, arith, Option-cases,
}
use iceberg_rest_catalog.Common.Int.{ℤ}
use iceberg_rest_catalog.Common.Rows.{Row, find, put, find-put, find-put_self, key-find}
use iceberg_rest_catalog.Json.{Fields}
use iceberg_rest_catalog.Store.{
  State, verifying, succeeded, failed, canceled, Operation, Execution, ManagedTable,
}
use iceberg_rest_catalog.Store.Jobs.{Db, operation_row, execution_row}
use iceberg_rest_catalog.Store.Locks.{Owns, delete_locks_released}
use iceberg_rest_catalog.Worker.{Settings}
use iceberg_rest_catalog.Worker.Marks.{
  ended, mark_submitted, mark_verifying, mark_succeeded, mark_failed, mark_canceled,
  write_verifying, write_success,
}
use iceberg_rest_catalog.Worker.Marks.Inversion.{mark_verifying-eq-ok, mark_succeeded-eq-ok}
use iceberg_rest_catalog.Worker.Run.{reported}

-- The states in which nothing is left to do.
pub data IsOver : State → Type 0 where
  over_succeeded : IsOver succeeded
  over_failed : IsOver failed
  over_canceled : IsOver canceled

-- The request is over, and owns the lock of no table.
pub record IsEnded (operation : ℕ) (db : Db) : Type 0 where
  pub row : Operation
  pub found : find operation db.operations ≡ some row
  pub over : IsOver row.state
  pub unlocked : (table : ℕ) → ¬ Owns db.locks operation table

module _ (s : Settings) (now operation execution : ℕ) where
  pub mark_failed-IsEnded :
      (error : String) (db : Db)
      → find operation db.operations ≢ none
      → IsEnded operation (mark_failed s now operation execution error db)
  unfolding mark_failed
  mark_failed-IsEnded error db there = elim (Option-cases (find operation db.operations)) [
    | inl gone ↦ absurd (there gone)
    | inr (op, here) ↦ record {
      row = ended now failed op;
      found = ground (
        arith,
        find-put_self operation (ended now failed op) op db.operations,
        key-find operation db.operations op,
      );
      over = over_failed;
      unlocked = λ table. ground (arith, delete_locks_released operation db.locks table);
    }
  ]

  pub mark_canceled-IsEnded :
      (message : String) (db : Db)
      → find operation db.operations ≢ none
      → IsEnded operation (mark_canceled s now operation execution message db)
  unfolding mark_canceled
  mark_canceled-IsEnded message db there = elim (Option-cases (find operation db.operations)) [
    | inl gone ↦ absurd (there gone)
    | inr (op, here) ↦
        let row = record (ended now canceled op) { canceled_at = some now } in
        record {
          row = row;
          found = ground (
            arith,
            find-put_self operation row op db.operations,
            key-find operation db.operations op,
          );
          over = over_canceled;
          unlocked = λ table. ground (arith, delete_locks_released operation db.locks table);
        }
  ]

-- Both rows of a claim are there.
pub record HasRows (operation execution : ℕ) (db : Db) : Type 0 where
  pub has_operation : find operation db.operations ≢ none
  pub has_execution : find execution db.executions ≢ none

put-ne_none {ℓ} :
    {A : Type ℓ} ⦃row : Row A⦄ (k : ℕ) (r : A) (rs : List A)
    → find k rs ≢ none
    → find k (put r rs) ≢ none
put-ne_none k r rs there = elim (Option-cases (find k rs)) [
  | inl gone ↦ absurd (there gone)
  | inr (x, found) ↦ ground (arith, find-put k r rs)
]

module _ (int_of_text int_of_real : String → Option ℤ) (s : Settings)
    (now operation execution : ℕ) where
  pub reported-HasRows :
      (submitted : Option String) (db : Db)
      → HasRows operation execution db
      → HasRows operation execution (reported execution submitted db)
  unfolding reported mark_submitted
  reported-HasRows none db h = h
  reported-HasRows (some external_id) db h = elim (Option-cases (find execution db.executions)) [
    | inl gone ↦ absurd (h.has_execution gone)
    | inr (e, found) ↦ record {
      has_operation = ground arith;
      has_execution = ground (
        arith,
        put-ne_none execution (record e { external_id = some external_id }) db.executions,
      );
    }
  ]

  write_verifying-HasRows :
      (result : Fields) (before after : Option ℤ) (db : Db) (e : Execution)
      → HasRows operation execution db
      → find execution db.executions ≡ some e
      → HasRows operation execution (write_verifying now e result before after db)
  unfolding write_verifying
  write_verifying-HasRows result before after db e h found =
      let e' = record e {
        state = verifying;
        before_snapshot_id = before;
        after_snapshot_id = after;
        result = result;
      } in
      elim (Option-cases (find e.operation_request_id db.operations)) [
        | inl gone ↦ record {
          has_operation = ground arith;
          has_execution = ground (arith, put-ne_none execution e' db.executions);
        }
        | inr (op, fo) ↦ record {
          has_operation = ground (
            arith,
            put-ne_none operation (record op { state = verifying; updated_at = now }) db.operations,
          );
          has_execution = ground (arith, put-ne_none execution e' db.executions);
        }
      ]

  pub mark_verifying-HasRows :
      (result : Fields) (db db' : Db)
      → HasRows operation execution db
      → mark_verifying int_of_text int_of_real now execution result db ≡ ok db'
      → HasRows operation execution db'
  mark_verifying-HasRows result db db' h e =
      elim (mark_verifying-eq-ok int_of_text int_of_real now execution result db db' e) [
        | inl same ↦ rw same h
        | inr (row, before, after, found, written) ↦
            rw written (write_verifying-HasRows result before after db row h found)
      ]

  write_success-IsEnded :
      (db : Db) (op : Operation) (e : Execution) (t : ManagedTable)
      → find operation db.operations ≡ some op
      → IsEnded operation (write_success s now op e t db)
  unfolding write_success
  write_success-IsEnded db op e t here = record {
    row = ended now succeeded op;
    found = ground (
      arith,
      find-put_self operation (ended now succeeded op) op db.operations,
      key-find operation db.operations op,
    );
    over = over_succeeded;
    unlocked = λ table. ground (
      arith,
      delete_locks_released operation db.locks table,
      key-find operation db.operations op,
    );
  }

  pub mark_succeeded-IsEnded :
      (result : Fields) (db db' : Db)
      → HasRows operation execution db
      → mark_succeeded int_of_text int_of_real s now operation execution result db ≡ ok db'
      → IsEnded operation db'
  mark_succeeded-IsEnded result db db' h done = elim (Option-cases (find operation db.operations)) [
    | inl gone ↦ absurd (h.has_operation gone)
    | inr (op, fo) ↦ elim (Option-cases (find execution db.executions)) [
      | inl gone ↦ absurd (h.has_execution gone)
      | inr (e, fe) ↦
          let (_, (_, _, t, _, written)) =
            mark_succeeded-eq-ok int_of_text int_of_real s now operation execution result db db' e
              op fe fo done in
          rw written (write_success-IsEnded db op e t fo)
    ]
  ]
