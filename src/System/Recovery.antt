-- ===== src/System/Recovery.antt =====
-- The recovery at the start of a worker keeps the invariant.
use iceberg_rest_catalog.Common.{
  ℕ, ◌≡◌, inl, inr, ◌&&◌, none, some, List, [], ◌∷◌, arith, Option-cases, if◌then◌else◌, keep,
}
use iceberg_rest_catalog.Common.Rows.{find, key-find, IsKeyed, put-IsKeyed}
use iceberg_rest_catalog.Store.{failed, Operation, Execution}
use iceberg_rest_catalog.Store.Jobs.{Db, operation_row, execution_row}
use iceberg_rest_catalog.Store.Locks.{delete_locks, delete_locks-Owns}
use iceberg_rest_catalog.Worker.{Settings}
use iceberg_rest_catalog.Worker.Marks.{ended}
use iceberg_rest_catalog.Worker.Recover.{
  Resumable, has_external, attach, give_up, recover_one, recover_rows, recover_stale_executions,
  is_stale,
}
use iceberg_rest_catalog.System.{System}
use iceberg_rest_catalog.System.Locked.{is_active, IsLocked, put-IsLocked}
use iceberg_rest_catalog.System.Safety.{IsSafe}

-- What is left of the invariant when no worker has a claim.
record IsIdle (db : Db) : Type 0 where
  keyed : IsKeyed db.operations
  locked : IsLocked db.operations db.locks

give_up-IsIdle :
    (now id : ℕ) (e : Execution) (op : Operation) (db : Db)
    → find id db.operations ≡ some op
    → IsIdle db
    → IsIdle (give_up now e (some op) db)
unfolding give_up ended is_active
give_up-IsIdle now id e op db found h =
    let own : find op.id db.operations ≡ some op = ground (arith, key-find id db.operations op) in
    record {
      keyed = put-IsKeyed (ended now failed op) op db.operations own h.keyed;
      locked =
          put-IsLocked db.operations db.locks (delete_locks op.id db.locks) op (ended now failed op)
            own (λ j table ne o. delete_locks-Owns op.id db.locks j table ne o) (λ active. cc)
            h.locked;
    }

recover_one-IsIdle :
    (s : Settings) (now : ℕ) (e : Execution) (p : List Resumable × Db)
    → IsIdle p.1
    → IsIdle (recover_one s now e p).1
unfolding recover_one attach give_up
recover_one-IsIdle s now e p h = elim (Option-cases (find e.operation_request_id p.1.operations)) [
  | inl gone ↦ rw (gone, recover_one) (record { keyed = h.keyed; locked = h.locked })
  | inr (op, found) ↦
      elim (Option-cases
        (if has_external e.external_id && s.livy_mode then e.external_id else none)) [
          | inl lost ↦
              rw (found, lost, recover_one)
                (give_up-IsIdle now e.operation_request_id e op p.1 found h)
          | inr (external, runs) ↦
              rw (found, runs, recover_one) (record { keyed = h.keyed; locked = h.locked })
        ]
]

recover_rows-IsIdle :
    (s : Settings) (now : ℕ) (es : List Execution) (p : List Resumable × Db)
    → IsIdle p.1
    → IsIdle (recover_rows s now es p).1
unfolding recover_rows
recover_rows-IsIdle s now [] p h = h
recover_rows-IsIdle s now (e ∷ es) p h =
    recover_rows-IsIdle s now es (recover_one s now e p) (recover_one-IsIdle s now e p h)

pub recovered-IsSafe :
    (settings : Settings) (s : System) (now : ℕ)
    → s.claim ≡ none
    → IsSafe s
    → IsSafe (record s { db = (recover_stale_executions settings now s.db).1 })
unfolding recover_stale_executions
recovered-IsSafe settings s now idle safe =
    let h =
      recover_rows-IsIdle settings now (keep (is_stale settings) s.db.executions) ([], s.db)
        (record { keyed = safe.keyed; locked = safe.locked }) in
    record { keyed = h.keyed; locked = h.locked; running = λ o e c. cc }
