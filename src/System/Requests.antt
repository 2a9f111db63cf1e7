-- ===== src/System/Requests.antt =====
-- The services as updates of one request, in the form in which the invariant is kept.
use iceberg_rest_catalog.Common.{
  ℕ, String, ◌≡◌, ◌≢◌, ◌⊎◌, inl, inr, refl, Bool, true, false, Option, some, List, ok, arith,
  >>=-eq-ok, or_raise, raise_if,
}
use iceberg_rest_catalog.Common.Rows.{find, put, key-find}
use iceberg_rest_catalog.Store.{
  State, failed, waiting_approval, Decision, approved, declined, Operation, Execution, TableLock,
}
use iceberg_rest_catalog.Store.Jobs.{Db, operation_row, execution_row}
use iceberg_rest_catalog.Store.Locks.{Owns, delete_locks-Owns}
use iceberg_rest_catalog.Requests.{operation_not_found, version_changed, integrity_error}
use iceberg_rest_catalog.Requests.Acquire.{acquire-Owns, acquire-keeps}
use iceberg_rest_catalog.Requests.Decide.{
  write_decision, decided, race_error, decided_row, lock_for, retried_row, write_retry,
}
use iceberg_rest_catalog.Requests.Decide.Inversion.{Retried, Decided, found_row}
use iceberg_rest_catalog.Requests.Cancel.{
  CancelEffect, already, refuse, at_once, ask_worker, cancel_effect, version_differs, at_once_row,
  running_row, write_at_once, write_running, cancel_by, cancel_operation,
}
use iceberg_rest_catalog.System.Locked.{is_active, is_executing, IsLocked}

-- One request was rewritten. No other lost a lock; if it is active it owns its own; a worker that
-- had begun it is still at it; and executions belong to the requests that they belonged to.
pub record Updates (db db' : Db) : Type 0 where
  pub old : Operation
  pub new : Operation
  pub found : find new.id db.operations ≡ some old
  pub written : db'.operations ≡ put new db.operations
  pub others : (id table : ℕ) → id ≢ new.id → Owns db.locks id table → Owns db'.locks id table
  pub own : is_active new.state ≡ true → Owns db'.locks new.id new.table_id
  pub executing : is_executing old.state ≡ true → is_executing new.state ≡ true
  pub same_request :
      (e : ℕ) (x : Execution)
      → find e db'.executions ≡ some x
      → (y : Execution) × (find e db.executions ≡ some y)
        × (y.operation_request_id ≡ x.operation_request_id)

-- The row that a key finds in a table that was not written.
kept_rows :
    (db : Db) (executions : List Execution)
    → executions ≡ db.executions
    → (e : ℕ) (x : Execution) → find e executions ≡ some x
    → (y : Execution) × (find e db.executions ≡ some y)
      × (y.operation_request_id ≡ x.operation_request_id)
kept_rows db executions same e x f = (x, rw same at f, refl)

-- The row is found by its own key too.
own_key :
    (id : ℕ) (op : Operation) (operations : List Operation)
    → find id operations ≡ some op
    → find op.id operations ≡ some op
own_key id op operations f = ground (arith, key-find id operations op)

failed_idle : (s : State) → s ≡ failed → is_executing s ≡ true → ⊥
unfolding is_executing
failed_idle s h x = ground arith

waiting_idle : (s : State) → s ≡ waiting_approval → is_executing s ≡ true → ⊥
unfolding is_executing
waiting_idle s h x = ground arith

pub write_retry-Updates :
    (raced : Bool) (now id : ℕ) (actor : String) (db : Db) (result : Operation × Db)
    → Retried raced now id actor db result
    → Updates db result.1
unfolding write_retry
write_retry-Updates raced now id actor db result r = rw r.written (record {
  old = r.op;
  new = retried_row now r.table r.op;
  found = unfold retried_row in own_key id r.op db.operations r.found;
  written = refl;
  others = λ j table ne o.
      acquire-keeps integrity_error raced now r.op db.locks r.locks j table r.acquired o;
  own = λ active.
      unfold retried_row in acquire-Owns integrity_error raced now r.op db.locks r.locks r.acquired;
  executing = λ x. absurd (failed_idle r.op.state r.was_failed x);
  same_request = kept_rows db _ refl;
})

lock_for-Owns :
    (d : Decision) (raced : Bool) (now : ℕ) (op : Operation) (locks locks' : List TableLock)
    → lock_for d raced now op locks ≡ ok locks'
    → is_active (decided d) ≡ true
    → Owns locks' op.id op.table_id
unfolding lock_for is_active
lock_for-Owns approved raced now op locks locks' h active =
    acquire-Owns (race_error op) raced now op locks locks' h
lock_for-Owns declined raced now op locks locks' h active = cc

lock_for-keeps :
    (d : Decision) (raced : Bool) (now : ℕ) (op : Operation) (locks locks' : List TableLock)
    (id table : ℕ)
    → lock_for d raced now op locks ≡ ok locks'
    → Owns locks id table
    → Owns locks' id table
unfolding lock_for
lock_for-keeps approved raced now op locks locks' id table h o =
    acquire-keeps (race_error op) raced now op locks locks' id table h o
lock_for-keeps declined raced now op locks locks' id table h o = ground arith

pub write_decision-Updates :
    (casefold : String → String) (raced : Bool) (now id : ℕ) (approver word : String)
    (comment : Option String) (db : Db) (result : Operation × Db)
    → Decided casefold raced now id approver word comment db result
    → Updates db result.1
unfolding write_decision decided_row
write_decision-Updates casefold raced now id approver word comment db result r =
    rw r.written (record {
      old = r.op;
      new = decided_row now r.decision r.op;
      found = own_key id r.op db.operations r.found;
      written = refl;
      others = λ j table ne o.
          lock_for-keeps r.decision raced now r.op db.locks r.locks j table r.acquired o;
      own = λ active. lock_for-Owns r.decision raced now r.op db.locks r.locks r.acquired active;
      executing = λ x. absurd (waiting_idle r.op.state r.was_waiting x);
      same_request = kept_rows db _ refl;
    })

at_once_idle : (s : State) → cancel_effect s ≡ at_once → is_executing s ≡ false
unfolding cancel_effect is_executing
at_once_idle s e = ground arith

ask_worker_active : (s : State) → cancel_effect s ≡ ask_worker → is_active s ≡ true
unfolding cancel_effect is_active
ask_worker_active s e = ground arith

write_at_once-Updates :
    (now id : ℕ) (actor : String) (db : Db) (op : Operation)
    → find id db.operations ≡ some op
    → is_executing op.state ≡ false
    → Updates db (write_at_once now actor op db).1
unfolding write_at_once at_once_row is_active is_executing
write_at_once-Updates now id actor db op f idle = record {
  old = op;
  new = at_once_row now op;
  found = own_key id op db.operations f;
  written = refl;
  others = λ j table ne o. delete_locks-Owns op.id db.locks j table ne o;
  own = λ active. cc;
  executing = λ x. cc;
  same_request = kept_rows db _ refl;
}

write_running-Updates :
    (now id : ℕ) (actor : String) (db : Db) (op : Operation)
    → IsLocked db.operations db.locks
    → find id db.operations ≡ some op
    → is_active op.state ≡ true
    → Updates db (write_running now actor op db).1
unfolding write_running running_row is_executing
write_running-Updates now id actor db op h f active = record {
  old = op;
  new = running_row now op;
  found = own_key id op db.operations f;
  written = refl;
  others = λ j table ne o. o;
  own = λ _. h.held op.id op (own_key id op db.operations f) active;
  executing = λ x. refl;
  same_request = kept_rows db _ refl;
}

module _ (now id : ℕ) (actor : String) (db : Db) (op : Operation) (result : Operation × Db)
    (h : IsLocked db.operations db.locks) (found : find id db.operations ≡ some op) where
  cancel_by-Updates :
      (c : CancelEffect)
      → cancel_effect op.state ≡ c
      → cancel_by c now actor op db ≡ ok result
      → (result.1 ≡ db) ⊎ Updates db result.1
  unfolding cancel_by
  cancel_by-Updates already e r = inl (ground arith)
  cancel_by-Updates refuse e r = cc
  cancel_by-Updates at_once e r =
      let same : result ≡ write_at_once now actor op db = cc r in
      inr (rw same (write_at_once-Updates now id actor db op found (at_once_idle op.state e)))
  cancel_by-Updates ask_worker e r =
      let same : result ≡ write_running now actor op db = cc r in
      inr
        (rw same (write_running-Updates now id actor db op h found (ask_worker_active op.state e)))

-- A cancellation that commits changes nothing, for a request that is canceled, or updates one.
pub cancel-Updates :
    (now id : ℕ) (actor : String) (expected : Option ℕ) (db : Db) (result : Operation × Db)
    → IsLocked db.operations db.locks
    → cancel_operation now id actor expected db ≡ ok result
    → (result.1 ≡ db) ⊎ Updates db result.1
unfolding cancel_operation
cancel-Updates now id actor expected db result h e =
    let (op, f, h₁) = >>=-eq-ok (or_raise (find id db.operations) operation_not_found) _ e in
    let (_, v, h₂) =
      >>=-eq-ok (raise_if (version_differs op.version expected) version_changed) _ h₁ in
    cancel_by-Updates now id actor db op result h (found_row _ operation_not_found f)
      (cancel_effect op.state) refl h₂
