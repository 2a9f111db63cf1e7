-- ===== src/Bulk/Retry/Items.antt =====
-- What a bulk retry does with one item.
use iceberg_rest_catalog.Common.{
  ℕ, ◌+◌, ◌≡◌, ◌⊎◌, inl, inr, refl, Bool, true, false, ◌≤◌, ◌&&◌, none, some, List, ok, arith,
  Option-cases, Bool-cases, ◌==◌, or_raise, >>=-eq-ok, sym,
}
use mathlib.Core.Path.{subst}
use iceberg_rest_catalog.Common.Rows.{find, put, find-put, key-find}
use iceberg_rest_catalog.Store.{queued, ManagedTable, Operation, TableLock}
use iceberg_rest_catalog.Store.Jobs.{
  BulkJobItem, Db, table_row, operation_row, lock_row, job_row, item_row,
}
use iceberg_rest_catalog.Store.Locks.{
  Owns, insert_lock, insert_lock-Owns, owner-find, owner-insert_lock,
}
use iceberg_rest_catalog.Requests.{table_not_found, integrity_error}
use iceberg_rest_catalog.Requests.Acquire.{lock_of}
use iceberg_rest_catalog.Requests.Decide.{is_failed}
use iceberg_rest_catalog.Bulk.Retry.{Progress, requeue, retry_request, retry_item}

-- The item has failed, and stands for the request.
unfoldable pub is_failure_of : ℕ → BulkJobItem → Bool
unfolding is_failed
is_failure_of o i =
    is_failed i.state && (elim i.operation_request_id [ none ↦ false | some p ↦ p == o ])

-- A row of a request that was queued again: for the present snapshot of its table, without the
-- request for a cancellation, and with the lock of the table.
pub record IsQueuedAgain (db db' : Db) (o : ℕ) (row : Operation) : Type 0 where
  pub is_queued : row.state ≡ queued
  pub not_canceled : row.cancellation_requested_at ≡ none
  pub table : ManagedTable
  pub its_table : find row.table_id db.tables ≡ some table
  pub planned_anew : row.planned_snapshot_id ≡ table.current_snapshot_id
  pub locked : Owns db'.locks o row.table_id
  pub old : Operation
  pub was : find o db.operations ≡ some old
  pub newer : old.version + 1 ≤ row.version

-- What one item does: tables stay, no lock goes, and a request is left as it was, or is that of the
-- failed item and is queued again.
pub record ItemDone (i : BulkJobItem) (db db' : Db) : Type 0 where
  pub same_tables : db'.tables ≡ db.tables
  pub keeps : (id t : ℕ) → Owns db.locks id t → Owns db'.locks id t
  pub rows :
      (o : ℕ) (row : Operation)
      → find o db'.operations ≡ some row
      → (find o db.operations ≡ some row)
        ⊎ ((is_failure_of o i ≡ true) × IsQueuedAgain db db' o row)

untouched :
    (i : BulkJobItem) (db db' : Db)
    → db'.tables ≡ db.tables
    → db'.locks ≡ db.locks
    → db'.operations ≡ db.operations
    → ItemDone i db db'
untouched i db db' tables locks ops = record {
  same_tables = tables;
  keeps = λ id t held. rw locks held;
  rows = λ o row f. inl (rw ops at f);
}

requeue-ItemDone :
    (now o n : ℕ) (i : BulkJobItem) (op : Operation) (locks : List TableLock) (db : Db)
    (p : Progress)
    → find o db.operations ≡ some op
    → is_failure_of o i ≡ true
    → ((id t : ℕ) → Owns db.locks id t → Owns locks id t)
    → Owns locks op.id op.table_id
    → requeue now i op locks (n, db) ≡ ok p
    → ItemDone i db p.1
unfolding requeue
requeue-ItemDone now o n i op locks db p found failure kept own h =
    let (table, has_table, h₁) =
      >>=-eq-ok (or_raise (find op.table_id db.tables) table_not_found) _ h in
    let its_table : find op.table_id db.tables ≡ some table = ground arith in
    let same_key = key-find o db.operations op found in
    let new : Operation = record op {
      state = queued;
      planned_snapshot_id = table.current_snapshot_id;
      version = op.version + 1;
      updated_at = now;
      cancellation_requested_at = none;
    } in
    let ops : p.1.operations ≡ put new db.operations = ground arith in
    let same_locks : p.1.locks ≡ locks = ground arith in
    let tables : p.1.tables ≡ db.tables = ground arith in
    record {
      same_tables = tables;
      keeps = λ id t held. rw same_locks (kept id t held);
      rows = λ o' row f. elim (Bool-cases (op.id == o')) [
        | inr differs ↦ inl (ground (arith, f, ops, find-put o' new db.operations))
        | inl at_it ↦
            let same_o : o ≡ o' = ground arith in
            let is_new : new ≡ row =
              ground (arith, f, ops, found, same_o, find-put o' new db.operations) in
            inr (
              rw (sym same_o) failure,
              subst (λ r. IsQueuedAgain db p.1 o' r) is_new
                  (record {
                    is_queued = refl;
                    not_canceled = refl;
                    table = table;
                    its_table = its_table;
                    planned_anew = refl;
                    locked = ground (arith, own, same_locks, same_key, same_o);
                    old = op;
                    was = rw (sym same_o) found;
                    newer = omega arith;
                  }),
            )
      ];
    }

retry_request-ItemDone :
    (now o n : ℕ) (i : BulkJobItem) (op : Operation) (db : Db) (p : Progress)
    → find o db.operations ≡ some op
    → is_failure_of o i ≡ true
    → retry_request now i op (n, db) ≡ ok p
    → ItemDone i db p.1
unfolding retry_request
retry_request-ItemDone now o n i op db p found failure h =
    elim (Option-cases (find op.table_id db.locks)) [
      | inl free ↦
          let (locks, taken, h₁) =
            >>=-eq-ok (or_raise (insert_lock (lock_of now op) db.locks) integrity_error) _
              (rw (free, retry_request) at h) in
          let inserted : insert_lock (lock_of now op) db.locks ≡ some locks = ground arith in
          requeue-ItemDone now o n i op locks db p found failure
            (λ id t held. insert_lock-Owns (lock_of now op) db.locks locks id t inserted held)
            (ground (arith, owner-insert_lock (lock_of now op) db.locks locks op.table_id inserted))
            h₁
      | inr (l, has) ↦ elim (Bool-cases (l.operation_request_id == op.id)) [
        | inl own ↦
            requeue-ItemDone now o n i op db.locks db p found failure (λ id t held. held)
              (ground (arith, owner-find op.table_id db.locks)) (rw (has, own, retry_request) at h)
        | inr other ↦
            let left = rw (has, other, retry_request) at h in
            untouched i db p.1 (ground arith) (ground arith) (ground arith)
      ]
    ]

pub retry_item-ItemDone :
    (now n : ℕ) (i : BulkJobItem) (db : Db) (p : Progress)
    → retry_item now i (n, db) ≡ ok p
    → ItemDone i db p.1
unfolding retry_item is_failure_of
retry_item-ItemDone now n i db p h = elim (Bool-cases (is_failed i.state)) [
  | inr other ↦ untouched i db p.1 (ground arith) (ground arith) (ground arith)
  | inl was_failed ↦ elim (Option-cases i.operation_request_id) [
    | inl alone ↦ untouched i db p.1 (ground arith) (ground arith) (ground arith)
    | inr (o, has) ↦ elim (Option-cases (find o db.operations)) [
      | inl gone ↦ untouched i db p.1 (ground arith) (ground arith) (ground arith)
      | inr (op, found) ↦
          retry_request-ItemDone now o n i op db p found (ground arith)
            (rw (was_failed, has, found, retry_item) at h)
    ]
  ]
]
