-- ===== src/Requests/Acquire.antt =====
-- What `acquire`, the taking of a table's lock by a request, leaves in the table of locks.
use iceberg_rest_catalog.Common.{
  ℕ, ◌≡◌, Bool, true, false, Option, none, some, List, ok, arith, or_raise, Option-cases, inl, inr,
}
use iceberg_rest_catalog.Common.Rows.{find}
use iceberg_rest_catalog.Store.{Operation, TableLock}
use iceberg_rest_catalog.Store.Jobs.{lock_row}
use iceberg_rest_catalog.Store.Locks.{
  insert_lock, Owns, owner-find, owner-insert_lock, insert_lock-Owns,
}
use iceberg_rest_catalog.Requests.{ServiceError, acquire}

abbrev pub lock_of : (now : ℕ) → Operation → TableLock
lock_of now op = record { table_id = op.table_id; operation_request_id = op.id; acquired_at = now }

inserted :
    (race : ServiceError) (m : Option (List TableLock)) {locks' : List TableLock}
    → or_raise m race ≡ ok locks'
    → m ≡ some locks'
inserted race none h = cc
inserted race (some locks) h = ground arith

-- Who takes a lock without an exception owns it afterwards.
pub acquire-Owns :
    (race : ServiceError) (raced : Bool) (now : ℕ) (op : Operation) (locks locks' : List TableLock)
    → acquire race raced now op locks ≡ ok locks'
    → Owns locks' op.id op.table_id
unfolding acquire
acquire-Owns race true now op locks locks' h =
    ground (arith, owner-insert_lock (lock_of now op) locks locks' op.table_id (inserted race _ h))
acquire-Owns race false now op locks locks' h = elim (Option-cases (find op.table_id locks)) [
  | inl free ↦ ground (
    arith,
    inserted race (insert_lock (lock_of now op) locks),
    owner-insert_lock (lock_of now op) locks locks' op.table_id,
  )
  | inr (l, found) ↦ ground (arith, owner-find op.table_id locks)
]

-- No other request loses its lock by it.
pub acquire-keeps :
    (race : ServiceError) (raced : Bool) (now : ℕ) (op : Operation) (locks locks' : List TableLock)
    (id table : ℕ)
    → acquire race raced now op locks ≡ ok locks'
    → Owns locks id table
    → Owns locks' id table
unfolding acquire
acquire-keeps race true now op locks locks' id table h o =
    insert_lock-Owns (lock_of now op) locks locks' id table (inserted race _ h) o
acquire-keeps race false now op locks locks' id table h o =
    elim (Option-cases (find op.table_id locks)) [
      | inl free ↦ ground (
        arith,
        inserted race (insert_lock (lock_of now op) locks),
        insert_lock-Owns (lock_of now op) locks locks' id table,
      )
      | inr (l, found) ↦ ground arith
    ]
