-- ===== src/System/Requeued.antt =====
-- A bulk retry keeps the invariant where it leaves the worker's claim alone.
use iceberg_rest_catalog.Common.{
  ℕ, ◌+◌, String, ◌≡◌, ◌≢◌, inl, inr, none, some, List, [], ◌∷◌, ok, arith, Option-cases,
  Bool-cases, All, ◌==◌, or_raise, raise_if, >>=-eq-ok,
}
use mathlib.Core.Path.{subst}
use iceberg_rest_catalog.Common.Rows.{find, put, find-put, key-find, put-IsKeyed}
use iceberg_rest_catalog.Store.{queued, Operation, TableLock, ManagedTable}
use iceberg_rest_catalog.Store.Jobs.{
  BulkJob, BulkJobItem, Db, table_row, operation_row, lock_row, execution_row, job_row, item_row,
}
use iceberg_rest_catalog.Store.Locks.{
  Owns, insert_lock, insert_lock-Owns, owner-find, owner-insert_lock,
}
use iceberg_rest_catalog.Requests.{job_not_found, table_not_found, integrity_error, nothing_retried}
use iceberg_rest_catalog.Requests.Acquire.{lock_of}
use iceberg_rest_catalog.Requests.Decide.{is_failed}
use iceberg_rest_catalog.Bulk.{items_of}
use iceberg_rest_catalog.Bulk.Retry.{
  Progress, requeue, retry_request, retry_item, retry_items, write_retries, retry_failed_bulk_job,
}
use iceberg_rest_catalog.System.{System, IsApart}
use iceberg_rest_catalog.System.Locked.{put-IsLocked}
use iceberg_rest_catalog.System.Safety.{IsSafe}
use iceberg_rest_catalog.System.Bulk.{same_tables-IsSafe, bulk_job-IsSafe}

-- The row of a request, queued again.
abbrev requeued_row : (now : ℕ) → ManagedTable → Operation → Operation
requeued_row now table op = record op {
  state = queued;
  planned_snapshot_id = table.current_snapshot_id;
  version = op.version + 1;
  updated_at = now;
  cancellation_requested_at = none;
}

abbrev requeued_db : (now : ℕ) → ManagedTable → BulkJobItem → Operation → List TableLock → Db → Db
requeued_db now table i op locks db = record db {
  operations = put (requeued_row now table op) db.operations;
  locks = locks;
  items = put (record i { state = queued; error_message = none; finished_at = none }) db.items;
}

requeued_db-IsSafe :
    (s : System) (now o : ℕ) (table : ManagedTable) (i : BulkJobItem) (op : Operation)
    (locks : List TableLock)
    → find o s.db.operations ≡ some op
    → ((id t : ℕ) → Owns s.db.locks id t → Owns locks id t)
    → Owns locks op.id op.table_id
    → ((o' e : ℕ) → s.claim ≡ some (o', e) → o' ≢ o)
    → IsSafe s
    → IsSafe (record s { db = requeued_db now table i op locks s.db })
requeued_db-IsSafe s now o table i op locks found kept own apart safe =
    let row = requeued_row now table op in
    let same_key = key-find o s.db.operations op found in
    let own_key : find op.id s.db.operations ≡ some op = ground (arith, same_key, found) in
    record {
      keyed = put-IsKeyed row op s.db.operations own_key safe.keyed;
      locked =
          put-IsLocked s.db.operations s.db.locks locks op row own_key
            (λ id t ne held. kept id t held) (λ active. own) safe.locked;
      running = λ o' e c.
          let r = safe.running o' e c in
          let differs = apart o' e c in
          record {
            row = r.row;
            found = ground (arith, find-put o' row s.db.operations, r.found, differs, same_key);
            executing = r.executing;
            same_request = r.same_request;
          };
    }

requeue-IsSafe :
    (s : System) (now o n : ℕ) (i : BulkJobItem) (op : Operation) (locks : List TableLock)
    (p : Progress)
    → find o s.db.operations ≡ some op
    → ((id t : ℕ) → Owns s.db.locks id t → Owns locks id t)
    → Owns locks op.id op.table_id
    → ((o' e : ℕ) → s.claim ≡ some (o', e) → o' ≢ o)
    → requeue now i op locks (n, s.db) ≡ ok p
    → IsSafe s
    → IsSafe (record s { db = p.1 })
unfolding requeue
requeue-IsSafe s now o n i op locks p found kept own apart h safe =
    let (table, _, h₁) = >>=-eq-ok (or_raise (find op.table_id s.db.tables) table_not_found) _ h in
    let same : requeued_db now table i op locks s.db ≡ p.1 = ground arith in
    subst (λ db. IsSafe (record s { db = db })) same
      (requeued_db-IsSafe s now o table i op locks found kept own apart safe)

retry_request-IsSafe :
    (s : System) (now o n : ℕ) (i : BulkJobItem) (op : Operation) (p : Progress)
    → find o s.db.operations ≡ some op
    → ((o' e : ℕ) → s.claim ≡ some (o', e) → o' ≢ o)
    → retry_request now i op (n, s.db) ≡ ok p
    → IsSafe s
    → IsSafe (record s { db = p.1 })
unfolding retry_request
retry_request-IsSafe s now o n i op p found apart h safe =
    elim (Option-cases (find op.table_id s.db.locks)) [
      | inl free ↦
          let free_h = rw (free, retry_request) at h in
          let (locks, taken, h₁) =
            >>=-eq-ok (or_raise (insert_lock (lock_of now op) s.db.locks) integrity_error) _
              free_h in
          let inserted : insert_lock (lock_of now op) s.db.locks ≡ some locks = ground arith in
          requeue-IsSafe s now o n i op locks p found
            (λ id t held. insert_lock-Owns (lock_of now op) s.db.locks locks id t inserted held)
            (ground
              (arith, owner-insert_lock (lock_of now op) s.db.locks locks op.table_id inserted))
            apart h₁ safe
      | inr (l, has) ↦ elim (Bool-cases (l.operation_request_id == op.id)) [
        | inl own ↦
            requeue-IsSafe s now o n i op s.db.locks p found (λ id t held. held)
              (ground (arith, owner-find op.table_id s.db.locks)) apart
              (rw (has, own, retry_request) at h) safe
        | inr other ↦
            let left = rw (has, other, retry_request) at h in
            let ops : p.1.operations ≡ s.db.operations = ground arith in
            let locks : p.1.locks ≡ s.db.locks = ground arith in
            let execs : p.1.executions ≡ s.db.executions = ground arith in
            same_tables-IsSafe s p.1 ops locks execs safe
      ]
    ]

retry_item-IsSafe :
    (s : System) (now n : ℕ) (i : BulkJobItem) (p : Progress)
    → IsApart s.claim i
    → retry_item now i (n, s.db) ≡ ok p
    → IsSafe s
    → IsSafe (record s { db = p.1 })
unfolding retry_item IsApart
retry_item-IsSafe s now n i p apart h safe = elim (Bool-cases (is_failed i.state)) [
  | inr other ↦ same_tables-IsSafe s p.1 (ground arith) (ground arith) (ground arith) safe
  | inl was_failed ↦ elim (Option-cases i.operation_request_id) [
    | inl alone ↦ same_tables-IsSafe s p.1 (ground arith) (ground arith) (ground arith) safe
    | inr (o, has) ↦ elim (Option-cases (find o s.db.operations)) [
      | inl gone ↦ same_tables-IsSafe s p.1 (ground arith) (ground arith) (ground arith) safe
      | inr (op, found) ↦
          retry_request-IsSafe s now o n i op p found
            (λ o' e c same. apart o' e c was_failed (rw same has))
            (rw (was_failed, has, found, retry_item) at h) safe
    ]
  ]
]

retry_items-IsSafe :
    (s : System) (now : ℕ) (is : List BulkJobItem) (n : ℕ) (p : Progress)
    → All (IsApart s.claim) is
    → retry_items now is (n, s.db) ≡ ok p
    → IsSafe s
    → IsSafe (record s { db = p.1 })
unfolding retry_items
retry_items-IsSafe s now [] n p apart h safe =
    same_tables-IsSafe s p.1 (ground arith) (ground arith) (ground arith) safe
retry_items-IsSafe s now (i ∷ is) n p apart h safe =
    let ((n₁, db₁), one, more) = >>=-eq-ok (retry_item now i (n, s.db)) _ h in
    retry_items-IsSafe (record s { db = db₁ }) now is n₁ p apart.1 more
      (retry_item-IsSafe s now n i (n₁, db₁) apart.0 one safe)

pub bulk_retried-IsSafe :
    (s : System) (now id : ℕ) (actor : String) (job : BulkJob) (db' : Db)
    → ((j : BulkJob) → find id s.db.jobs ≡ some j → All (IsApart s.claim) (items_of j s.db.items))
    → retry_failed_bulk_job now id actor s.db ≡ ok (job, db')
    → IsSafe s
    → IsSafe (record s { db = db' })
unfolding retry_failed_bulk_job write_retries
bulk_retried-IsSafe s now id actor job db' apart h safe =
    let (j, some_j, h₁) = >>=-eq-ok (or_raise (find id s.db.jobs) job_not_found) _ h in
    let found : find id s.db.jobs ≡ some j = ground arith in
    let (db₁, wrote, h₂) = >>=-eq-ok (write_retries now actor j s.db) _ h₁ in
    let (p, made, h₃) = >>=-eq-ok (retry_items now (items_of j s.db.items) (0, s.db)) _ wrote in
    let (_, _, h₄) = >>=-eq-ok (raise_if (p.0 == 0) nothing_retried) _ h₃ in
    let safe₁ = retry_items-IsSafe s now (items_of j s.db.items) 0 p (apart j found) made safe in
    let ops : db₁.operations ≡ p.1.operations = ground arith in
    let locks : db₁.locks ≡ p.1.locks = ground arith in
    let execs : db₁.executions ≡ p.1.executions = ground arith in
    bulk_job-IsSafe s now id db₁ job db' h₂
      (same_tables-IsSafe (record s { db = p.1 }) db₁ ops locks execs safe₁)
