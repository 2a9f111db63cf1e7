-- ===== src/Requests/Decide/Inversion.antt =====
-- What `decide_operation` and `retry_operation` have found when they commit.
use iceberg_rest_catalog.Common.{
  ℕ, String, ◌≡◌, refl, Bool, true, false, Option, none, some, List, ok, arith, not, or_raise,
  raise_if, >>=-eq-ok, ◌=ₛ◌,
}
use iceberg_rest_catalog.Common.Rows.{find}
use iceberg_rest_catalog.Store.{
  waiting_approval, failed, Decision, ManagedTable, Operation, TableLock,
}
use iceberg_rest_catalog.Store.Jobs.{Db, table_row, operation_row}
use iceberg_rest_catalog.Requests.{
  ServiceError, operation_not_found, not_waiting, self_approval, bad_decision, not_failed,
  table_not_found, integrity_error, acquire,
}
use iceberg_rest_catalog.Requests.Decide.{
  is_waiting, is_failed, decision_word, lock_for, write_decision, write_retry, decide_operation,
  retry_operation,
}

pub raised_nothing : (b : Bool) (e : ServiceError) {u : Unit {0}} → raise_if b e ≡ ok u → b ≡ false
raised_nothing true e h = cc
raised_nothing false e h = refl

pub found_row {ℓ} :
    {A : Type ℓ} (o : Option A) (e : ServiceError) {a : A} → or_raise o e ≡ ok a → o ≡ some a
found_row none e h = cc
found_row (some a) e h = ground arith

pub record Retried (raced : Bool) (now id : ℕ) (actor : String) (db : Db) (result : Operation × Db)
    : Type 0 where
  pub op : Operation
  pub table : ManagedTable
  pub locks : List TableLock
  pub found : find id db.operations ≡ some op
  pub was_failed : op.state ≡ failed
  pub has_table : find op.table_id db.tables ≡ some table
  pub acquired : acquire integrity_error raced now op db.locks ≡ ok locks
  pub written : result ≡ write_retry now id actor op table locks db

pub retry-Retried :
    (raced : Bool) (now id : ℕ) (actor : String) (db : Db) (result : Operation × Db)
    → retry_operation raced now id actor db ≡ ok result
    → Retried raced now id actor db result
unfolding retry_operation
retry-Retried raced now id actor db result h =
    let (op, f, h₁) = >>=-eq-ok (or_raise (find id db.operations) operation_not_found) _ h in
    let (_, g, h₂) = >>=-eq-ok (raise_if (not (is_failed op.state)) not_failed) _ h₁ in
    let (table, t, h₃) = >>=-eq-ok (or_raise (find op.table_id db.tables) table_not_found) _ h₂ in
    let (locks, l, h₄) = >>=-eq-ok (acquire integrity_error raced now op db.locks) _ h₃ in
    record {
      op = op;
      table = table;
      locks = locks;
      found = found_row _ operation_not_found f;
      was_failed = ground (arith, raised_nothing _ not_failed g);
      has_table = found_row _ table_not_found t;
      acquired = l;
      written = cc h₄;
    }

pub record Decided (casefold : String → String) (raced : Bool) (now id : ℕ) (approver word : String)
    (comment : Option String) (db : Db) (result : Operation × Db) : Type 0 where
  pub op : Operation
  pub decision : Decision
  pub locks : List TableLock
  pub found : find id db.operations ≡ some op
  pub was_waiting : op.state ≡ waiting_approval
  pub four_eyes : (casefold op.requester =ₛ casefold approver) ≡ false
  pub read : decision_word word ≡ some decision
  pub acquired : lock_for decision raced now op db.locks ≡ ok locks
  pub written : result ≡ write_decision now id approver decision comment op locks db

pub decide-Decided :
    (upper casefold : String → String) (raced : Bool) (now id : ℕ) (approver decision : String)
    (comment : Option String) (db : Db) (result : Operation × Db)
    → decide_operation upper casefold raced now id approver decision comment db ≡ ok result
    → Decided casefold raced now id approver (upper decision) comment db result
unfolding decide_operation
decide-Decided upper casefold raced now id approver decision comment db result h =
    let (op, f, h₁) = >>=-eq-ok (or_raise (find id db.operations) operation_not_found) _ h in
    let (_, g, h₂) = >>=-eq-ok (raise_if (not (is_waiting op.state)) not_waiting) _ h₁ in
    let (_, s, h₃) =
      >>=-eq-ok (raise_if (casefold op.requester =ₛ casefold approver) self_approval) _ h₂ in
    let (d, r, h₄) = >>=-eq-ok (or_raise (decision_word (upper decision)) bad_decision) _ h₃ in
    let (locks, l, h₅) = >>=-eq-ok (lock_for d raced now op db.locks) _ h₄ in
    record {
      op = op;
      decision = d;
      locks = locks;
      found = found_row _ operation_not_found f;
      was_waiting = ground (arith, raised_nothing _ not_waiting g);
      four_eyes = raised_nothing _ self_approval s;
      read = found_row _ bad_decision r;
      acquired = l;
      written = cc h₅;
    }
