-- ===== src/Worker/Recover/Kept.antt =====
-- What the body of the loop of a recovery leaves of the other executions.
use iceberg_rest_catalog.Common.{
  ℕ, ◌≡◌, ◌≢◌, inl, inr, false, ◌&&◌, none, some, List, arith, Option-cases, if◌then◌else◌,
}
use iceberg_rest_catalog.Common.Rows.{find, put, find-put, find-put_ne}
use iceberg_rest_catalog.Store.{failed, Execution, Operation}
use iceberg_rest_catalog.Store.Jobs.{Db, operation_row, execution_row}
use iceberg_rest_catalog.Store.Locks.{delete_locks}
use iceberg_rest_catalog.Worker.{Settings}
use iceberg_rest_catalog.Worker.Marks.{closed, ended}
use iceberg_rest_catalog.Worker.Recover.{
  stale_message, has_external, attach, give_up, Resumable, recover_one,
}
use iceberg_rest_catalog.Worker.Recover.Steps.{has_lock, IsHandled, kept_lockless, listed-append}

module _ (s : Settings) (now : ℕ) (x : Execution) where
  after_loss :
      (op : Operation) (p : List Resumable × Db) (o : Operation)
      → ((o : Operation)
          → find x.operation_request_id p.1.operations ≡ some o
          → (o.state ≡ failed) × (has_lock x.operation_request_id p.1.locks ≡ false))
      → find x.operation_request_id (put (ended now failed op) p.1.operations) ≡ some o
      → (o.state ≡ failed)
        × (has_lock x.operation_request_id (delete_locks op.id p.1.locks) ≡ false)
  unfolding ended
  after_loss op p o h f = elim (Option-cases (find x.operation_request_id p.1.operations)) [
    | inl gone ↦
        absurd
          (ground (arith, find-put x.operation_request_id (ended now failed op) p.1.operations))
    | inr (old, was) ↦
        let (was_failed, lockless) = h old was in
        (
          ground (arith, find-put x.operation_request_id (ended now failed op) p.1.operations),
          kept_lockless op.id x.operation_request_id p.1.locks lockless,
        )
  ]

  -- The body of the loop at another execution leaves what was done with this one.
  pub one_keeps :
      (e : Execution) (p : List Resumable × Db)
      → e.id ≢ x.id
      → IsHandled s now x p
      → IsHandled s now x (recover_one s now e p)
  unfolding recover_one attach give_up closed ended
  one_keeps e p differs (inl t) = elim (Option-cases (find e.operation_request_id p.1.operations)) [
    | inl gone ↦ inl (
        rw (gone, recover_one)
          (record {
            external = t.external;
            in_livy = t.in_livy;
            named = t.named;
            resumable = t.resumable;
            found =
                rw
                  (find-put_ne x.id (closed now failed (some stale_message) e) p.1.executions
                    differs)
                  t.found;
          }))
    | inr (op, has) ↦
        elim (Option-cases
          (if has_external e.external_id && s.livy_mode then e.external_id else none)) [
            | inl lost ↦ inl (
                rw (has, lost, recover_one)
                  (record {
                    external = t.external;
                    in_livy = t.in_livy;
                    named = t.named;
                    resumable = t.resumable;
                    found =
                        rw
                          (find-put_ne x.id (closed now failed (some stale_message) e)
                            p.1.executions differs)
                          t.found;
                  }))
            | inr (external, runs) ↦ inl (
                rw (has, runs, recover_one)
                  (record {
                    external = t.external;
                    in_livy = t.in_livy;
                    named = t.named;
                    resumable = listed-append x t.external p.0 (op.id, e.id, external) t.resumable;
                    found =
                        rw
                          (find-put_ne x.id (record e { worker_id = some s.worker_id })
                            p.1.executions differs)
                          t.found;
                  }))
          ]
  ]
  one_keeps e p differs (inr l) = elim (Option-cases (find e.operation_request_id p.1.operations)) [
    | inl gone ↦ inr (
        rw (gone, recover_one)
          (record {
            found =
                rw
                  (find-put_ne x.id (closed now failed (some stale_message) e) p.1.executions
                    differs)
                  l.found;
            reason = l.reason;
            request = l.request;
          }))
    | inr (op, has) ↦
        elim (Option-cases
          (if has_external e.external_id && s.livy_mode then e.external_id else none)) [
            | inl lost ↦ inr (
                rw (has, lost, recover_one)
                  (record {
                    found =
                        rw
                          (find-put_ne x.id (closed now failed (some stale_message) e)
                            p.1.executions differs)
                          l.found;
                    reason = elim l.reason [
                      | inl no_livy ↦ inl no_livy
                      | inr gone ↦ inr (
                          ground (
                            arith,
                            gone,
                            find-put x.operation_request_id (ended now failed op) p.1.operations,
                          ))
                    ];
                    request = λ o f. after_loss op p o l.request f;
                  }))
            | inr (external, runs) ↦ inr (
                rw (has, runs, recover_one)
                  (record {
                    found =
                        rw
                          (find-put_ne x.id (record e { worker_id = some s.worker_id })
                            p.1.executions differs)
                          l.found;
                    reason = l.reason;
                    request = l.request;
                  }))
          ]
  ]

  -- A row that is there stays there.
  pub one_there :
      (e : Execution) (p : List Resumable × Db) (y : Execution)
      → find x.id p.1.executions ≡ some y
      → (z : Execution) × (find x.id (recover_one s now e p).1.executions ≡ some z)
  unfolding recover_one attach give_up closed
  one_there e p y there = elim (Option-cases (find x.id (recover_one s now e p).1.executions)) [
    | inr (z, found) ↦ (z, found)
    | inl gone ↦ absurd (elim (Option-cases (find e.operation_request_id p.1.operations)) [
      | inl no_op ↦
          ground (arith, find-put x.id (closed now failed (some stale_message) e) p.1.executions)
      | inr (op, has) ↦
          elim (Option-cases
            (if has_external e.external_id && s.livy_mode then e.external_id else none)) [
              | inl lost ↦
                  ground
                    (arith, find-put x.id (closed now failed (some stale_message) e) p.1.executions)
              | inr (external, runs) ↦
                  ground (
                    arith,
                    find-put x.id (record e { worker_id = some s.worker_id }) p.1.executions,
                  )
            ]
    ])
  ]
