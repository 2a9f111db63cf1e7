-- ===== src/Worker/Recover/Ends.antt =====
-- After a recovery no execution is left with a process that is gone.
use iceberg_rest_catalog.Common.{
  ℕ, ◌≡◌, inl, inr, refl, true, false, ◌&&◌, none, some, List, [], ◌∷◌, arith, keep, Option-cases,
  Bool-cases, ◌==◌, if◌then◌else◌, eq_refl, some_of,
}
use iceberg_rest_catalog.Common.Rows.{find, put, find-put}
use iceberg_rest_catalog.Store.{failed, Execution}
use iceberg_rest_catalog.Store.Jobs.{Db, operation_row, execution_row}
use iceberg_rest_catalog.Worker.{Settings}
use iceberg_rest_catalog.Worker.Marks.{closed}
use iceberg_rest_catalog.Worker.Recover.{
  stale_message, in_progress, is_foreign, is_stale, has_external, attach, give_up, Resumable,
  recover_one, recover_rows, recover_stale_executions,
}

-- The executions after the body of the loop: the row was rewritten, and is stale no more.
one_rewrites :
    (s : Settings) (now : ℕ) (e : Execution) (p : List Resumable × Db)
    → (e' : Execution) × (e'.id ≡ e.id)
      × (is_stale s e' ≡ false)
      × ((recover_one s now e p).1.executions ≡ put e' p.1.executions)
unfolding recover_one attach give_up closed is_stale in_progress is_foreign
one_rewrites s now e p = elim (Option-cases (find e.operation_request_id p.1.operations)) [
  | inl gone ↦ (closed now failed (some stale_message) e, refl, refl, ground arith)
  | inr (op, found) ↦
      elim (Option-cases
        (if has_external e.external_id && s.livy_mode then e.external_id else none)) [
          | inl lost ↦ (closed now failed (some stale_message) e, refl, refl, ground arith)
          | inr (external, runs) ↦ (
            record e { worker_id = some s.worker_id },
            refl,
            ground (arith, eq_refl s.worker_id),
            ground arith,
          )
        ]
]

-- A key is that of a row which is still to be looked at.
abbrev pub Ahead : ℕ → List Execution → Type 0
Ahead k es = some_of (λ e. e.id == k) es ≡ true

-- Every stale row is ahead.
abbrev pub StaleAhead : Settings → List Execution → Db → Type 0
StaleAhead s es db =
    (k : ℕ) (x : Execution) → find k db.executions ≡ some x → is_stale s x ≡ true → Ahead k es

recover_one-StaleAhead :
    (s : Settings) (now : ℕ) (e : Execution) (es : List Execution) (p : List Resumable × Db)
    → StaleAhead s (e ∷ es) p.1
    → StaleAhead s es (recover_one s now e p).1
recover_one-StaleAhead s now e es p h k x f stale =
    let (e', same, fresh, written) = one_rewrites s now e p in
    let f' : find k (put e' p.1.executions) ≡ some x = rw written at f in
    ground (arith, find-put k e' p.1.executions, h k x)

recover_rows-StaleAhead :
    (s : Settings) (now : ℕ) (es : List Execution) (p : List Resumable × Db)
    → StaleAhead s es p.1
    → StaleAhead s [] (recover_rows s now es p).1
unfolding recover_rows
recover_rows-StaleAhead s now [] p h = h
recover_rows-StaleAhead s now (e ∷ es) p h =
    recover_rows-StaleAhead s now es (recover_one s now e p) (recover_one-StaleAhead s now e es p h)

all-Ahead :
    (s : Settings) (k : ℕ) (x : Execution) (es : List Execution)
    → find k es ≡ some x
    → is_stale s x ≡ true
    → Ahead k (keep (is_stale s) es)
unfolding find
all-Ahead s k x [] f stale = cc
all-Ahead s k x (e ∷ es) f stale = ground (arith, all-Ahead s k x es)

-- After a recovery no execution that is running or being verified belongs to another process.
pub recover-none_stale :
    (s : Settings) (now k : ℕ) (db : Db) (x : Execution)
    → find k (recover_stale_executions s now db).1.executions ≡ some x
    → is_stale s x ≡ false
unfolding recover_stale_executions
recover-none_stale s now k db x f = elim (Bool-cases (is_stale s x)) [
  | inl stale ↦ absurd (
      not_ahead (
        recover_rows-StaleAhead s now (keep (is_stale s) db.executions) ([], db)
          (λ k' x' f' stale'. all-Ahead s k' x' db.executions f' stale') k x f stale))
  | inr fresh ↦ fresh
]
  where
    not_ahead : Ahead k [] → ⊥
    not_ahead e = cc
