-- ===== src/Requests/Decide/Effects.antt =====
-- What a decision and a retry leave behind, and when they are refused.
use iceberg_rest_catalog.Common.{
  ℕ, ◌+◌, String, ◌≡◌, ◌≢◌, ◌⊎◌, ◌↔◌, inl, inr, refl, sym, ap, Bool, true, false, Option, none,
  some, List, [], ◌∷◌, ok, err, arith, ◌=ₛ◌, some_of, if◌then◌else◌,
}
use iceberg_rest_catalog.Common.Rows.{find, add, find-put_self, key-find}
use iceberg_rest_catalog.Store.{
  State, waiting_approval, queued, failed, rejected, Decision, approved, declined, ManagedTable,
  Operation, TableLock,
}
use iceberg_rest_catalog.Store.Jobs.{Db, table_row, operation_row, lock_row}
use iceberg_rest_catalog.Store.Locks.{Owns, insert_lock, clashes}
use iceberg_rest_catalog.Requests.{acquire, lock_owned, self_approval, not_waiting, integrity_error}
use iceberg_rest_catalog.Requests.Acquire.{lock_of, acquire-Owns}
use iceberg_rest_catalog.Requests.Decide.{
  is_waiting, decision_word, lock_for, race_error, decided_row, write_decision, retried_row,
  write_retry, decide_operation, retry_operation,
}
use iceberg_rest_catalog.Requests.Decide.Inversion.{decide-Decided, retry-Retried}

-- What a committed decision has done to the locks.
abbrev pub LocksDecided : Db → Db → ℕ → Operation → State → Type 0
LocksDecided db db' id op s =
    ((s ≡ queued) × Owns db'.locks id op.table_id) ⊎ ((s ≡ rejected) × (db'.locks ≡ db.locks))

locks_decided :
    (casefold : String → String) (raced : Bool) (now id : ℕ) (approver word : String)
    (comment : Option String) (db : Db) (op : Operation) (locks : List TableLock) (d : Decision)
    → op.id ≡ id
    → lock_for d raced now op db.locks ≡ ok locks
    → LocksDecided db
        (write_decision now id approver d comment op locks db).1
        id
        op
        (write_decision now id approver d comment op locks db).0.state
unfolding write_decision decided_row lock_for
locks_decided casefold raced now id approver word comment db op locks approved key h =
    inl (refl, rw (sym key) (acquire-Owns (race_error op) raced now op db.locks locks h))
locks_decided casefold raced now id approver word comment db op locks declined key h =
    inr (refl, ground arith)

-- A decision commits only for a request that waits for approval, and for an approver whose name is
-- not the requester's, upper and lower case taken as one. The stored request is then queued and owns
-- the lock of its table, or is rejected and no lock has changed; its version is raised by one.
pub decide_committed :
    (upper casefold : String → String) (raced : Bool) (now id : ℕ) (approver decision : String)
    (comment : Option String) (db : Db) (op' : Operation) (db' : Db)
    → decide_operation upper casefold raced now id approver decision comment db ≡ ok (op', db')
    → (op : Operation) × (find id db.operations ≡ some op)
      × (op.state ≡ waiting_approval)
      × ((casefold op.requester =ₛ casefold approver) ≡ false)
      × (find id db'.operations ≡ some op')
      × (op'.version ≡ op.version + 1)
      × LocksDecided db db' id op op'.state
unfolding write_decision decided_row
decide_committed upper casefold raced now id approver decision comment db op' db' h =
    let r = decide-Decided upper casefold raced now id approver decision comment db (op', db') h in
    let same_op : op' ≡ (write_decision now id approver r.decision comment r.op r.locks db).0 =
      ap (λ (p : Operation × Db). p.0) r.written in
    let same_db : db' ≡ (write_decision now id approver r.decision comment r.op r.locks db).1 =
      ap (λ (p : Operation × Db). p.1) r.written in
    let key = key-find id db.operations r.op r.found in
    rw (same_op, same_db)
      (
        r.op,
        r.found,
        r.was_waiting,
        r.four_eyes,
        find-put_self id (decided_row now r.decision r.op) r.op db.operations r.found key,
        refl,
        locks_decided casefold raced now id approver (upper decision) comment db r.op r.locks
            r.decision key r.acquired,
      )

clashing :
    (now : ℕ) (op : Operation) (locks : List TableLock) (l : TableLock)
    → find op.table_id locks ≡ some l
    → some_of (clashes (lock_of now op)) locks ≡ true
unfolding find
clashing now op [] l h = cc
clashing now op (x ∷ xs) l h = ground (arith, clashing now op xs l)

-- An approval by another person of a request that waits commits when neither the table nor the
-- request has a lock, and no other transaction took one meanwhile.
pub decide_approval :
    (upper casefold : String → String) (now id : ℕ) (approver decision : String)
    (comment : Option String) (db : Db) (op : Operation)
    → find id db.operations ≡ some op
    → op.state ≡ waiting_approval
    → (casefold op.requester =ₛ casefold approver) ≡ false
    → decision_word (upper decision) ≡ some approved
    → find op.table_id db.locks ≡ none
    → some_of (clashes (lock_of now op)) db.locks ≡ false
    → (result : Operation × Db) × (decide_operation upper casefold false now id approver decision
          comment db
        ≡ ok result)
      × (result.0.state ≡ queued)
unfolding decide_operation lock_for is_waiting acquire insert_lock write_decision decided_row
decide_approval upper casefold now id approver decision comment db op found waiting four_eyes word
      unlocked free =
    (
      write_decision now id approver approved comment op (add (lock_of now op) db.locks) db,
      ground arith,
      refl,
    )

-- An approval by another person of a request that waits is refused when another request owns the
-- lock of its table: by the read of the lock, or by the constraint if the lock is newer than it.
pub decide_locked :
    (upper casefold : String → String) (raced : Bool) (now id : ℕ) (approver decision : String)
    (comment : Option String) (db : Db) (op : Operation) (l : TableLock)
    → find id db.operations ≡ some op
    → op.state ≡ waiting_approval
    → (casefold op.requester =ₛ casefold approver) ≡ false
    → decision_word (upper decision) ≡ some approved
    → find op.table_id db.locks ≡ some l
    → l.operation_request_id ≢ op.id
    → decide_operation upper casefold raced now id approver decision comment db
      ≡ err (if raced then race_error op else lock_owned)
unfolding decide_operation lock_for is_waiting acquire insert_lock
decide_locked upper casefold raced now id approver decision comment db op l found waiting four_eyes
      word taken other =
    ground (arith, clashing now op db.locks l taken)

-- A decision is refused as not waiting exactly when the request does not wait for approval, and as a
-- self-approval exactly when it waits and the approver's name is the requester's.
pub decide_refused :
    (upper casefold : String → String) (raced : Bool) (now id : ℕ) (approver decision : String)
    (comment : Option String) (db : Db) (op : Operation)
    → find id db.operations ≡ some op
    → ((decide_operation upper casefold raced now id approver decision comment db ≡ err not_waiting)
        ↔ (op.state ≢ waiting_approval))
      × ((decide_operation upper casefold raced now id approver decision comment db
            ≡ err self_approval)
          ↔ ((op.state ≡ waiting_approval) × ((casefold op.requester =ₛ casefold approver) ≡ true)))
unfolding decide_operation is_waiting lock_for acquire
decide_refused upper casefold raced now id approver decision comment db op found =
    ((λ e. ground arith, λ n. ground arith), (λ e. ground arith, λ w. ground arith))

-- A retry commits only for a failed request. The stored request is queued again, owns the lock of its
-- table, is planned for the snapshot that the table has now, and asks no more for a cancellation.
pub retry_committed :
    (raced : Bool) (now id : ℕ) (actor : String) (db : Db) (op' : Operation) (db' : Db)
    → retry_operation raced now id actor db ≡ ok (op', db')
    → (op : Operation) × (table : ManagedTable) × (find id db.operations ≡ some op)
      × (op.state ≡ failed)
      × (find op.table_id db.tables ≡ some table)
      × (find id db'.operations ≡ some op')
      × (op'.state ≡ queued)
      × (op'.planned_snapshot_id ≡ table.current_snapshot_id)
      × (op'.cancellation_requested_at ≡ none)
      × Owns db'.locks id op.table_id
unfolding write_retry retried_row
retry_committed raced now id actor db op' db' h =
    let r = retry-Retried raced now id actor db (op', db') h in
    let same_op : op' ≡ (write_retry now id actor r.op r.table r.locks db).0 =
      ap (λ (p : Operation × Db). p.0) r.written in
    let same_db : db' ≡ (write_retry now id actor r.op r.table r.locks db).1 =
      ap (λ (p : Operation × Db). p.1) r.written in
    let key = key-find id db.operations r.op r.found in
    rw (same_op, same_db)
      (
        r.op,
        r.table,
        r.found,
        r.was_failed,
        r.has_table,
        find-put_self id (retried_row now r.table r.op) r.op db.operations r.found key,
        refl,
        refl,
        refl,
        ground (arith, acquire-Owns integrity_error raced now r.op db.locks r.locks r.acquired),
      )
