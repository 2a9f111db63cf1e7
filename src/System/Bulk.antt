-- ===== src/System/Bulk.antt =====
-- The services on bulk jobs keep the invariant.
use iceberg_rest_catalog.Common.{
  ℕ, ◌+◌, String, ◌≡◌, inl, inr, refl, true, false, some, List, [], ◌∷◌, ok, arith, Option-cases,
  or_raise, >>=-eq-ok, Bool-cases,
}
use iceberg_rest_catalog.Common.Rows.{find, key-find}
use iceberg_rest_catalog.Store.{State, canceled, cancel_requested, Operation, Execution}
use iceberg_rest_catalog.Store.Jobs.{
  BulkJob, BulkJobItem, Db, table_row, operation_row, execution_row, job_row, item_row,
}
use iceberg_rest_catalog.Store.Locks.{delete_locks-Owns}
use iceberg_rest_catalog.Requests.{job_not_found}
use iceberg_rest_catalog.Bulk.{is_terminal, items_of, refresh_bulk_job, bulk_job}
use iceberg_rest_catalog.Bulk.Cancel.{
  is_unbegun, cancel_request, cancel_item, cancel_items, write_cancel, cancel_bulk_job,
}
use iceberg_rest_catalog.System.{System, IsCurrent}
use iceberg_rest_catalog.System.Locked.{is_active, is_executing}
use iceberg_rest_catalog.System.Safety.{IsSafe, Updates-IsSafe}

-- The invariant reads three tables.
pub same_tables-IsSafe :
    (s : System) (db' : Db)
    → db'.operations ≡ s.db.operations
    → db'.locks ≡ s.db.locks
    → db'.executions ≡ s.db.executions
    → IsSafe s
    → IsSafe (record s { db = db' })
same_tables-IsSafe s db' ops locks execs safe = record {
  keyed = rw ops safe.keyed;
  locked = rw (ops, locks) safe.locked;
  running = λ o e c.
      let r = safe.running o e c in
      record {
        row = r.row;
        found = rw ops r.found;
        executing = r.executing;
        same_request = λ x f. r.same_request x (rw execs at f);
      };
}

own_key :
    (id : ℕ) (op : Operation) (operations : List Operation)
    → find id operations ≡ some op
    → find op.id operations ≡ some op
own_key id op operations f = ground (arith, key-find id operations op)

unbegun_idle : (s : State) → is_unbegun s ≡ true → is_executing s ≡ false
unfolding is_unbegun is_executing
unbegun_idle s h = ground arith

begun_active : (s : State) → is_unbegun s ≡ false → is_terminal s ≡ false → is_active s ≡ true
unfolding is_unbegun is_terminal is_active
begun_active s h t = ground arith

kept_rows :
    (db : Db) (e : ℕ) (x : Execution)
    → find e db.executions ≡ some x
    → (y : Execution) × (find e db.executions ≡ some y)
      × (y.operation_request_id ≡ x.operation_request_id)
kept_rows db e x f = (x, f, refl)

cancel_request-IsSafe :
    (s : System) (now id : ℕ) (i : BulkJobItem) (read op : Operation)
    → read.state ≡ op.state
    → find id s.db.operations ≡ some op
    → is_terminal op.state ≡ false
    → IsSafe s
    → IsSafe (record s { db = cancel_request now i read op s.db })
unfolding cancel_request is_active is_executing
cancel_request-IsSafe s now id i read op same found alive safe =
    elim (Bool-cases (is_unbegun op.state)) [
      | inl unbegun ↦
          Updates-IsSafe s (cancel_request now i read op s.db)
            (rw (same, unbegun, cancel_request)
              (record {
                old = op;
                new = record op {
                  cancellation_requested_at = some now;
                  version = read.version + 1;
                  updated_at = now;
                  state = canceled;
                  canceled_at = some now;
                };
                found = own_key id op s.db.operations found;
                written = refl;
                others = λ j table ne o. delete_locks-Owns op.id s.db.locks j table ne o;
                own = λ active. cc;
                executing = λ x. absurd (ground (arith, unbegun_idle op.state unbegun));
                same_request = kept_rows s.db;
              }))
            safe
      | inr begun ↦
          Updates-IsSafe s (cancel_request now i read op s.db)
            (rw (same, begun, cancel_request)
              (record {
                old = op;
                new = record op {
                  cancellation_requested_at = some now;
                  version = read.version + 1;
                  updated_at = now;
                  state = cancel_requested;
                };
                found = own_key id op s.db.operations found;
                written = refl;
                others = λ j table ne o. o;
                own = λ active.
                    safe.locked.held op.id op (own_key id op s.db.operations found)
                      (begun_active op.state begun alive);
                executing = λ x. refl;
                same_request = kept_rows s.db;
              }))
            safe
    ]

cancel_item-IsSafe :
    (s : System) (seen : Operation → Operation) (now : ℕ) (i : BulkJobItem)
    → IsCurrent seen
    → IsSafe s
    → IsSafe (record s { db = cancel_item seen now i s.db })
unfolding cancel_item
cancel_item-IsSafe s seen now i current safe = elim (Option-cases i.operation_request_id) [
  | inl alone ↦ rw (alone, cancel_item) (same_tables-IsSafe s _ refl refl refl safe)
  | inr (o, has) ↦ elim (Option-cases (find o s.db.operations)) [
    | inl gone ↦ rw (has, gone, cancel_item) safe
    | inr (op, found) ↦ elim (Bool-cases (is_terminal op.state)) [
      | inl over ↦
          let read_over : is_terminal ((seen op).state) ≡ true = rw (current op) over in
          rw (has, found, read_over, cancel_item) safe
      | inr alive ↦
          let read_alive : is_terminal ((seen op).state) ≡ false = rw (current op) alive in
          rw (has, found, read_alive, cancel_item)
            (cancel_request-IsSafe s now o i (seen op) op (current op) found alive safe)
    ]
  ]
]

cancel_items-IsSafe :
    (s : System) (seen : Operation → Operation) (now : ℕ) (is : List BulkJobItem)
    → IsCurrent seen
    → IsSafe s
    → IsSafe (record s { db = cancel_items seen now is s.db })
unfolding cancel_items
cancel_items-IsSafe s seen now [] current safe = safe
cancel_items-IsSafe s seen now (i ∷ is) current safe =
    cancel_items-IsSafe (record s { db = cancel_item seen now i s.db }) seen now is current
      (cancel_item-IsSafe s seen now i current safe)

-- The answer of a bulk service refreshes its job, which reads requests and writes none.
pub bulk_job-IsSafe :
    (s : System) (now id : ℕ) (db : Db) (job : BulkJob) (db' : Db)
    → bulk_job now id db ≡ ok (job, db')
    → IsSafe (record s { db = db })
    → IsSafe (record s { db = db' })
unfolding bulk_job refresh_bulk_job
bulk_job-IsSafe s now id db job db' h safe =
    let (j, _, h₁) = >>=-eq-ok (or_raise (find id db.jobs) job_not_found) _ h in
    let same : db' ≡ (refresh_bulk_job now j db).1 = ground arith in
    same_tables-IsSafe (record s { db = db }) db' (rw same refl) (rw same refl) (rw same refl) safe

pub bulk_canceled-IsSafe :
    (s : System) (seen : Operation → Operation) (now id : ℕ) (actor : String) (job : BulkJob)
    (db' : Db)
    → IsCurrent seen
    → cancel_bulk_job seen now id actor s.db ≡ ok (job, db')
    → IsSafe s
    → IsSafe (record s { db = db' })
unfolding cancel_bulk_job write_cancel
bulk_canceled-IsSafe s seen now id actor job db' current h safe =
    let (j, _, h₁) = >>=-eq-ok (or_raise (find id s.db.jobs) job_not_found) _ h in
    let safe' = cancel_items-IsSafe s seen now (items_of j s.db.items) current safe in
    bulk_job-IsSafe s now id (write_cancel seen now actor j s.db) job db' h₁ (
      same_tables-IsSafe (record s { db = cancel_items seen now (items_of j s.db.items) s.db })
        (write_cancel seen now actor j s.db) refl refl refl safe')
