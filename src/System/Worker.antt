-- ===== src/System/Worker.antt =====
-- The worker's transactions in the form in which the invariant is kept.
use iceberg_rest_catalog.Common.{
  ℕ, ◌≡◌, inl, inr, refl, true, Option, none, some, List, arith, Option-cases, ap, sym,
}
use mathlib.Core.Path.{subst}
use iceberg_rest_catalog.Common.Int.{ℤ}
use iceberg_rest_catalog.Common.Rows.{
  find, put, find-put, find-put_self, find-add, key-find, IsKeyed, put-IsKeyed,
}
use iceberg_rest_catalog.Json.{Fields}
use iceberg_rest_catalog.Store.{
  State, running, verifying, Operation, Execution, TableLock, ManagedTable,
}
use iceberg_rest_catalog.Store.Jobs.{Db, operation_row, execution_row}
use iceberg_rest_catalog.Store.Locks.{Owns}
use iceberg_rest_catalog.Worker.{Settings}
use iceberg_rest_catalog.Worker.Claim.{Claim, Others, start, new_execution}
use iceberg_rest_catalog.Worker.Claim.Inversion.{
  Claimed, lock_claimed-Owns, lock_claimed-keeps, claimable-own,
}
use iceberg_rest_catalog.Worker.Marks.{write_verifying}
use iceberg_rest_catalog.System.Locked.{is_active, is_executing, IsLocked, put-IsLocked}
use iceberg_rest_catalog.System.Requests.{Updates}

-- The request of a claim is being executed, and the claim's execution is one of that request.
pub record IsRunning (o e : ℕ) (db : Db) : Type 0 where
  pub row : Operation
  pub found : find o db.operations ≡ some row
  pub executing : is_executing row.state ≡ true
  pub same_request : (x : Execution) → find e db.executions ≡ some x → x.operation_request_id ≡ o

executing-active : (s : State) → is_executing s ≡ true → is_active s ≡ true
unfolding is_executing is_active
executing-active s h = ground arith

-- The lock of a request that is being executed is its own.
pub IsRunning-Owns :
    (o e : ℕ) (db : Db)
    → IsLocked db.operations db.locks
    → (r : IsRunning o e db) → Owns db.locks o r.row.table_id
IsRunning-Owns o e db h r = h.held o r.row r.found (executing-active r.row.state r.executing)

-- A claim keeps the locks where no other transaction commits one meanwhile, and its request is then
-- being executed.
pub start-IsLocked :
    (s : Settings) (others : Others) (fresh now : ℕ) (db : Db) (c : Claim) (db' : Db)
    → Claimed s others fresh now db c db'
    → ((locks : List TableLock) → others.committed locks ≡ locks)
    → IsLocked db.operations db.locks
    → IsLocked db'.operations db'.locks
unfolding start
start-IsLocked s others fresh now db c db' k alone h =
    let same : db' ≡ (start s fresh now k.op k.table k.locks db).1 =
      ap (λ (p : Claim × Db). p.1) k.written in
    rw same (
      put-IsLocked db.operations db.locks k.locks k.op
        (record k.op { state = running; updated_at = now }) k.found
        (λ id table ne o.
          lock_claimed-keeps others.raced now k.op (others.committed db.locks) k.locks id table
            k.acquired (rw (alone db.locks) o))
        (λ active.
          elim (lock_claimed-Owns others.raced now k.op (others.committed db.locks) k.locks
            k.acquired) [
              | inl own ↦ own
              | inr (l, found, other) ↦
                  absurd
                    (other (claimable-own s db k.op l k.allowed (rw (alone db.locks) at found)))
            ])
        h)

pub start-IsKeyed :
    (s : Settings) (others : Others) (fresh now : ℕ) (db : Db) (c : Claim) (db' : Db)
    → Claimed s others fresh now db c db'
    → IsKeyed db.operations
    → IsKeyed db'.operations
unfolding start
start-IsKeyed s others fresh now db c db' k h =
    let same : db' ≡ (start s fresh now k.op k.table k.locks db).1 =
      ap (λ (p : Claim × Db). p.1) k.written in
    rw same
      (put-IsKeyed (record k.op { state = running; updated_at = now }) k.op db.operations k.found h)

started-IsRunning :
    (s : Settings) (fresh now : ℕ) (op : Operation) (table : ManagedTable) (locks : List TableLock)
    (db : Db)
    → find op.id db.operations ≡ some op
    → find fresh db.executions ≡ none
    → let (c, db') = start s fresh now op table locks db in IsRunning c.0 c.1 db'
unfolding start new_execution is_executing
started-IsRunning s fresh now op table locks db found unused =
    let row = record op { state = running; updated_at = now } in
    record {
      row = row;
      found = find-put_self op.id row op db.operations found refl;
      executing = refl;
      same_request =
          λ x f. ground (arith, find-add fresh (new_execution s fresh now op db) db.executions);
    }

pub start-IsRunning :
    (s : Settings) (others : Others) (fresh now : ℕ) (db : Db) (c : Claim) (db' : Db)
    → Claimed s others fresh now db c db'
    → find fresh db.executions ≡ none
    → IsRunning c.0 c.1 db'
start-IsRunning s others fresh now db c db' k unused =
    subst (λ (p : Claim × Db). IsRunning p.0.0 p.0.1 p.1) (sym k.written)
      (started-IsRunning s fresh now k.op k.table k.locks db k.found unused)

-- A rewritten execution belongs to the request that it belonged to.
pub put_same_request :
    (executions : List Execution) (e : ℕ) (x x' : Execution)
    → find e executions ≡ some x
    → x'.id ≡ x.id
    → x'.operation_request_id ≡ x.operation_request_id
    → (j : ℕ) (z : Execution) → find j (put x' executions) ≡ some z
    → (y : Execution) × (find j executions ≡ some y)
      × (y.operation_request_id ≡ z.operation_request_id)
put_same_request executions e x x' f same_id same_op j z g =
    elim (Option-cases (find j executions)) [
      | inl gone ↦ absurd (ground (arith, find-put j x' executions))
      | inr (y, found) ↦ (
        y,
        found,
        ground (arith, find-put j x' executions, key-find e executions x, key-find j executions y),
      )
    ]

-- The writes of `mark_verifying` update the request of the claim.
pub write_verifying-Updates :
    (now o e : ℕ) (result : Fields) (before after : Option ℤ) (db : Db) (x : Execution)
    → IsLocked db.operations db.locks
    → IsRunning o e db
    → find e db.executions ≡ some x
    → Updates db (write_verifying now x result before after db)
unfolding write_verifying is_executing
write_verifying-Updates now o e result before after db x h r f =
    let x' = record x {
      state = verifying;
      before_snapshot_id = before;
      after_snapshot_id = after;
      result = result;
    } in
    let row : find x.operation_request_id db.operations ≡ some r.row =
      rw (r.same_request x f) r.found in
    rw (row, write_verifying)
      (record {
        old = r.row;
        new = record r.row { state = verifying; updated_at = now };
        found = ground (arith, key-find o db.operations r.row r.found);
        written = refl;
        others = λ id table ne held. held;
        own = λ active.
            ground (arith, IsRunning-Owns o e db h r, key-find o db.operations r.row r.found);
        executing = λ _. refl;
        same_request = put_same_request db.executions e x x' f refl refl;
      })
