-- ===== src/Worker/Recover/Handled.antt =====
-- What a recovery does with each execution that another process has left in progress.
use iceberg_rest_catalog.Common.{
  ℕ, ◌≡◌, ◌≢◌, ◌⊎◌, inl, inr, sym, true, some, List, [], ◌∷◌, arith, keep, keep_all, Option-cases,
  Bool-cases, ◌==◌, eq_iff, some_of, All,
}
use mathlib.Core.Path.{subst}
use iceberg_rest_catalog.Common.Rows.{find, IsKeyed}
use iceberg_rest_catalog.Store.{running, verifying, Execution}
use iceberg_rest_catalog.Store.Jobs.{Db, operation_row, execution_row}
use iceberg_rest_catalog.Worker.{Settings}
use iceberg_rest_catalog.Worker.Recover.{
  in_progress, is_foreign, is_stale, Resumable, recover_one, recover_rows, recover_stale_executions,
}
use iceberg_rest_catalog.Worker.Recover.Steps.{IsHandled, one_handles}
use iceberg_rest_catalog.Worker.Recover.Kept.{one_keeps, one_there}

module _ (s : Settings) (now : ℕ) (x : Execution) where
  rows_keep :
      (es : List Execution) (p : List Resumable × Db) (y : Execution)
      → All (λ e. e.id ≡ x.id → e ≡ x) es
      → find x.id p.1.executions ≡ some y
      → IsHandled s now x p
      → IsHandled s now x (recover_rows s now es p)
  unfolding recover_rows
  rows_keep [] p y same there h = h
  rows_keep (e ∷ es) p y same there h =
      let (z, still) = one_there s now x e p y there in
      rows_keep es (recover_one s now e p) z same.1 still (elim (Bool-cases (e.id == x.id)) [
        | inl at_it ↦
            subst (λ r. IsHandled s now x (recover_one s now r p)) (sym (same.0 (ground arith)))
              (one_handles s now x p y there)
        | inr differs ↦ one_keeps s now x e p (ground arith) h
      ])

  rows_handle :
      (es : List Execution) (p : List Resumable × Db) (y : Execution)
      → All (λ e. e.id ≡ x.id → e ≡ x) es
      → find x.id p.1.executions ≡ some y
      → some_of (λ (e : Execution). e.id == x.id) es ≡ true
      → IsHandled s now x (recover_rows s now es p)
  unfolding recover_rows
  rows_handle [] p y same there ahead = cc
  rows_handle (e ∷ es) p y same there ahead =
      let (z, still) = one_there s now x e p y there in
      elim (Bool-cases (e.id == x.id)) [
        | inl at_it ↦ rows_keep es (recover_one s now e p) z same.1 still (
            subst (λ r. IsHandled s now x (recover_one s now r p)) (sym (same.0 (ground arith)))
              (one_handles s now x p y there))
        | inr differs ↦ rows_handle es (recover_one s now e p) z same.1 still (ground arith)
      ]

-- A row that is looked at under the key of another is that one.
same_row :
    (s : Settings) (x : Execution) (whole : List Execution)
    → find x.id whole ≡ some x
    → IsKeyed whole
    → All (λ e. e.id ≡ x.id → e ≡ x) (keep (is_stale s) whole)
same_row s x whole found keyed =
    same_key (keep (is_stale s) whole)
      (keep_all (λ e. find e.id whole ≡ some e) (is_stale s) whole keyed)
  where
    same_key :
        (es : List Execution)
        → All (λ e. (find e.id whole ≡ some e) × (is_stale s e ≡ true)) es
        → All (λ e. e.id ≡ x.id → e ≡ x) es
    same_key [] all = tt
    same_key (e ∷ es) all = (λ same. ground (arith, all.0.0, found), same_key es all.1)

stale_ahead :
    (s : Settings) (x : Execution) (es : List Execution)
    → find x.id es ≡ some x
    → is_stale s x ≡ true
    → some_of (λ (e : Execution). e.id == x.id) (keep (is_stale s) es) ≡ true
unfolding find
stale_ahead s x [] f stale = cc
stale_ahead s x (e ∷ es) f stale = ground (arith, stale_ahead s x es)

left_stale :
    (s : Settings) (x : Execution)
    → (x.state ≡ running) ⊎ (x.state ≡ verifying)
    → x.worker_id ≢ some s.worker_id
    → is_stale s x ≡ true
unfolding is_stale in_progress is_foreign
left_stale s x going other = elim (Option-cases x.worker_id) [
  | inl nobody ↦ ground arith
  | inr (w, is_w) ↦ ground (arith, eq_iff w s.worker_id)
]

-- Where executions have unique keys: an execution that is running or being verified, and is not this
-- worker's, is handled by a recovery. Either this worker has taken it over, and will resume it under
-- its identifier in Livy; or it has failed, since it has no such identifier, the worker does not use
-- Livy or its request is gone, and its request, if there is one, has failed too and has no lock on any
-- table.
pub recover-IsHandled :
    (s : Settings) (now : ℕ) (db : Db) (x : Execution)
    → IsKeyed db.executions
    → find x.id db.executions ≡ some x
    → (x.state ≡ running) ⊎ (x.state ≡ verifying)
    → x.worker_id ≢ some s.worker_id
    → IsHandled s now x (recover_stale_executions s now db)
unfolding recover_stale_executions
recover-IsHandled s now db x keyed found going other =
    rows_handle s now x (keep (is_stale s) db.executions) ([], db) x
      (same_row s x db.executions found keyed) found
      (stale_ahead s x db.executions found (left_stale s x going other))
