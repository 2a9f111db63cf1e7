-- ===== src/Store/Locks.antt =====
-- The table of execution locks, with the two uniqueness constraints of `OperationTableLock`, and
-- what reading it gives after each write.
use iceberg_rest_catalog.Common.{
  ℕ, ◌≡◌, refl, ◌≢◌, Bool, false, not, ◌||◌, Option, none, some, List, [], ◌∷◌, arith, ◌==◌,
  if◌then◌else◌, keep, some_of,
}
use iceberg_rest_catalog.Common.Rows.{find, add}
use iceberg_rest_catalog.Store.{TableLock}
use iceberg_rest_catalog.Store.Jobs.{lock_row}

-- The constraints: no row of the same table, none of the same request.
abbrev pub clashes : TableLock → TableLock → Bool
clashes l x = (x.table_id == l.table_id) || (x.operation_request_id == l.operation_request_id)

-- The insert of a lock: `IntegrityError` where its table is locked, or its request owns a lock.
unfoldable pub insert_lock : TableLock → List TableLock → Option (List TableLock)
insert_lock l ls = if some_of (clashes l) ls then none else some (add l ls)

-- `delete(OperationTableLock).where(operation_request_id == operation.id)`
unfoldable pub delete_locks : ℕ → List TableLock → List TableLock
delete_locks op = keep (λ l. not (l.operation_request_id == op))

-- The request that owns the lock of a table.
unfoldable pub owner : ℕ → List TableLock → Option ℕ
owner table [] = none
owner table (l ∷ ls) = if l.table_id == table then some l.operation_request_id else owner table ls

abbrev pub Owns : List TableLock → ℕ → ℕ → Type 0
Owns ls op table = owner table ls ≡ some op

-- `session.get` of a lock finds the one that names the owner.
pub owner-find :
    (table : ℕ) (ls : List TableLock)
    → owner table ls ≡ (elim (find table ls) [ none ↦ none | some l ↦ some l.operation_request_id ])
unfolding owner find
owner-find table [] = refl
owner-find table (l ∷ ls) = ground (arith, owner-find table ls)

owner-add :
    (l : TableLock) (ls : List TableLock) (table : ℕ)
    → owner table (add l ls) ≡ (elim (owner table ls) [
      | none ↦ if l.table_id == table then some l.operation_request_id else none
      | some op ↦ some op
    ])
unfolding owner add
owner-add l [] table = refl
owner-add l (x ∷ ls) table = ground (arith, owner-add l ls table)

owner_free :
    (l : TableLock) (ls : List TableLock)
    → some_of (clashes l) ls ≡ false
    → owner l.table_id ls ≡ none
unfolding owner
owner_free l [] h = refl
owner_free l (x ∷ ls) h = ground (arith, owner_free l ls)

-- After an insert its table is owned by its request, and every other table by whom it was.
pub owner-insert_lock :
    (l : TableLock) (ls ls' : List TableLock) (table : ℕ)
    → insert_lock l ls ≡ some ls'
    → owner table ls'
      ≡ (if l.table_id == table then some l.operation_request_id else owner table ls)
unfolding insert_lock
owner-insert_lock l ls ls' table h = ground (arith, owner_free l ls, owner-add l ls table)

-- A lock that was there is there after an insert.
pub insert_lock-Owns :
    (l : TableLock) (ls ls' : List TableLock) (op table : ℕ)
    → insert_lock l ls ≡ some ls'
    → Owns ls op table
    → Owns ls' op table
unfolding insert_lock
insert_lock-Owns l ls ls' op table h o = ground (arith, owner-add l ls table)

-- The locks of other requests outlive a delete.
pub delete_locks-Owns :
    (a : ℕ) (ls : List TableLock) (op table : ℕ)
    → op ≢ a
    → Owns ls op table
    → Owns (delete_locks a ls) op table
unfolding delete_locks owner
delete_locks-Owns a [] op table ne o = o
delete_locks-Owns a (l ∷ ls) op table ne o = ground (arith, delete_locks-Owns a ls op table ne)

-- A request that has let its locks go owns none.
pub delete_locks_released :
    (a : ℕ) (ls : List TableLock) (table : ℕ) → ¬ Owns (delete_locks a ls) a table
unfolding delete_locks owner
delete_locks_released a [] table o = cc
delete_locks_released a (l ∷ ls) table o = ground (arith, delete_locks_released a ls table)
