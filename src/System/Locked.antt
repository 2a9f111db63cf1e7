-- ===== src/System/Locked.antt =====
-- The invariant on requests and locks, and how an update of one request keeps it.
use iceberg_rest_catalog.Common.{
  ℕ, ◌≡◌, ◌≢◌, Bool, true, false, some, List, arith, ◌==◌, Bool-cases, inl, inr,
}
use iceberg_rest_catalog.Common.Rows.{find, put, add, find-put, find-add}
use iceberg_rest_catalog.Store.{
  State, waiting_approval, succeeded, failed, rejected, canceled, running, verifying,
  cancel_requested, Operation, TableLock,
}
use iceberg_rest_catalog.Store.Jobs.{operation_row}
use iceberg_rest_catalog.Store.Locks.{Owns}

-- A request that is neither waiting for approval nor over.
unfoldable pub is_active : State → Bool
is_active waiting_approval = false
is_active succeeded = false
is_active failed = false
is_active rejected = false
is_active canceled = false
is_active s = true

-- A request that a worker has begun.
unfoldable pub is_executing : State → Bool
is_executing running = true
is_executing verifying = true
is_executing cancel_requested = true
is_executing s = false

-- Every active request owns the lock of its table.
pub record IsLocked (operations : List Operation) (locks : List TableLock) : Type 0 where
  pub held :
      (id : ℕ) (op : Operation)
      → find id operations ≡ some op
      → is_active op.state ≡ true
      → Owns locks id op.table_id

-- A request is rewritten, its table kept, and the locks of the others with it.
pub put-IsLocked :
    (operations : List Operation) (locks locks' : List TableLock) (op op' : Operation)
    → find op'.id operations ≡ some op
    → ((id table : ℕ) → id ≢ op'.id → Owns locks id table → Owns locks' id table)
    → (is_active op'.state ≡ true → Owns locks' op'.id op'.table_id)
    → IsLocked operations locks
    → IsLocked (put op' operations) locks'
put-IsLocked operations locks locks' op op' found others own h = record {
  held = λ id x fx active. elim (Bool-cases (op'.id == id)) [
    | inl same ↦ ground (arith, find-put id op' operations)
    | inr differs ↦
        others id x.table_id (ground arith)
          (h.held id x (ground (arith, find-put id op' operations)) active)
  ];
}

-- A request that is added is not active.
pub add-IsLocked :
    (operations : List Operation) (locks : List TableLock) (op : Operation)
    → is_active op.state ≡ false
    → IsLocked operations locks
    → IsLocked (add op operations) locks
add-IsLocked operations locks op idle h = record {
  held = λ id x fx active. ground (arith, find-add id op operations, h.held id x);
}
