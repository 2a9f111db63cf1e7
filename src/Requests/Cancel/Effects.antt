-- ===== src/Requests/Cancel/Effects.antt =====
-- What a cancellation does, by the state that it finds.
use iceberg_rest_catalog.Common.{
  ℕ, ◌+◌, String, ◌↔◌, ◌≡◌, ◌⊎◌, refl, true, false, Option, some, ok, err, arith,
}
use iceberg_rest_catalog.Common.Rows.{find, find-put_self, key-find}
use iceberg_rest_catalog.Store.{
  waiting_approval, queued, running, verifying, cancel_requested, succeeded, failed, rejected,
  canceled, Operation,
}
use iceberg_rest_catalog.Store.Jobs.{Db, operation_row}
use iceberg_rest_catalog.Store.Locks.{Owns, delete_locks_released}
use iceberg_rest_catalog.Requests.{version_changed, already_terminal}
use iceberg_rest_catalog.Requests.Cancel.{
  at_once_row, write_at_once, running_row, write_running, version_differs, cancel_effect, cancel_by,
  cancel_operation,
}

-- A request that no worker has begun is canceled at once when its version is the expected one: the
-- cancellation commits, the stored request is canceled with its version raised by one, and it owns no
-- lock.
pub cancel_unbegun :
    (now id : ℕ) (actor : String) (expected : Option ℕ) (db : Db) (op : Operation)
    → find id db.operations ≡ some op
    → (op.state ≡ waiting_approval) ⊎ (op.state ≡ queued)
    → version_differs op.version expected ≡ false
    → (op' : Operation) × (db' : Db) × (cancel_operation now id actor expected db ≡ ok (op', db'))
      × (find id db'.operations ≡ some op')
      × (op'.state ≡ canceled)
      × (op'.version ≡ op.version + 1)
      × ((table : ℕ) → ¬ Owns db'.locks id table)
unfolding cancel_operation write_at_once at_once_row cancel_by cancel_effect
cancel_unbegun now id actor expected db op found unbegun same =
    let (op', db') = write_at_once now actor op db in
    let key = key-find id db.operations op found in
    (
      op',
      db',
      ground arith,
      find-put_self id op' op db.operations found key,
      refl,
      refl,
      λ table. ground (arith, delete_locks_released op.id db.locks table),
    )

-- A request that a worker has begun is only marked when its version is the expected one: it stays
-- with its worker, and every lock stays.
pub cancel_begun :
    (now id : ℕ) (actor : String) (expected : Option ℕ) (db : Db) (op : Operation)
    → find id db.operations ≡ some op
    → (op.state ≡ running) ⊎ (op.state ≡ verifying) ⊎ (op.state ≡ cancel_requested)
    → version_differs op.version expected ≡ false
    → (op' : Operation) × (db' : Db) × (cancel_operation now id actor expected db ≡ ok (op', db'))
      × (find id db'.operations ≡ some op')
      × (op'.state ≡ cancel_requested)
      × (op'.version ≡ op.version + 1)
      × (db'.locks ≡ db.locks)
unfolding cancel_operation write_running running_row cancel_by cancel_effect
cancel_begun now id actor expected db op found begun same =
    let (op', db') = write_running now actor op db in
    let key = key-find id db.operations op found in
    (op', db', ground arith, find-put_self id op' op db.operations found key, refl, refl, refl)

-- A cancellation is refused, and nothing is written, exactly when the version is not the expected
-- one, or else the request has succeeded, failed or been rejected.
pub cancel_refused :
    (now id : ℕ) (actor : String) (expected : Option ℕ) (db : Db) (op : Operation)
    → find id db.operations ≡ some op
    → ((cancel_operation now id actor expected db ≡ err version_changed)
        ↔ (version_differs op.version expected ≡ true))
      × ((cancel_operation now id actor expected db ≡ err already_terminal) ↔ (
          (version_differs op.version expected ≡ false)
          × ((op.state ≡ succeeded) ⊎ (op.state ≡ failed) ⊎ (op.state ≡ rejected))))
unfolding cancel_operation cancel_by cancel_effect
cancel_refused now id actor expected db op found =
    ((λ e. ground arith, λ d. ground arith), (λ e. ground arith, λ d. ground arith))
