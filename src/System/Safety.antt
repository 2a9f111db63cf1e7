-- ===== src/System/Safety.antt =====
-- What holds of every interleaving: the invariant, and what follows for a table.
use iceberg_rest_catalog.Common.{
  ℕ, String, ◌≡◌, inl, inr, refl, false, Option, none, some, ok, arith, Option-cases, Bool-cases,
  ◌==◌, sym, ◌∙◌,
}
use iceberg_rest_catalog.Common.Rows.{
  find, put, find-put, find-add, key-find, IsKeyed, put-IsKeyed, add-IsKeyed,
}
use iceberg_rest_catalog.Json.{Fields}
use iceberg_rest_catalog.Store.{
  failed, canceled, succeeded, Operation, Execution, ManagedTable, PlanItem,
}
use iceberg_rest_catalog.Requests.Create.{RequestCreate, write_creation, new_operation}
use iceberg_rest_catalog.Store.Jobs.{Db, operation_row, execution_row}
use iceberg_rest_catalog.Store.Locks.{delete_locks, delete_locks-Owns}
use iceberg_rest_catalog.Worker.Marks.{
  ended, write_success, mark_succeeded, mark_failed, mark_canceled,
}
use iceberg_rest_catalog.Worker.Marks.Inversion.{mark_succeeded-eq-ok}
use iceberg_rest_catalog.System.{Host, System}
use iceberg_rest_catalog.System.Locked.{is_active, IsLocked, put-IsLocked, add-IsLocked}
use iceberg_rest_catalog.System.Requests.{Updates}
use iceberg_rest_catalog.System.Worker.{IsRunning}

-- The invariant: requests have unique keys, active ones own the lock of their table, and the claim
-- of the worker is a request that is being executed.
pub record IsSafe (s : System) : Type 0 where
  pub keyed : IsKeyed s.db.operations
  pub locked : IsLocked s.db.operations s.db.locks
  pub running : (o e : ℕ) → s.claim ≡ some (o, e) → IsRunning o e s.db

-- An update of one request keeps the locks in order.
Updates-IsLocked :
    (db db' : Db)
    → Updates db db'
    → IsLocked db.operations db.locks
    → IsLocked db'.operations db'.locks
Updates-IsLocked db db' u h =
    rw u.written
      (put-IsLocked db.operations db.locks db'.locks u.old u.new u.found u.others u.own h)

pub Updates-IsRunning :
    (o e : ℕ) (db db' : Db) → Updates db db' → IsRunning o e db → IsRunning o e db'
Updates-IsRunning o e db db' u r = elim (Bool-cases (u.new.id == o)) [
  | inl same ↦ record {
    row = u.new;
    found = rw u.written (ground (arith, find-put o u.new db.operations, u.found, r.found));
    executing = ground (arith, u.executing, u.found, r.found, r.executing);
    same_request = requests;
  }
  | inr differs ↦ record {
    row = r.row;
    found = rw u.written (ground (arith, find-put o u.new db.operations, r.found));
    executing = r.executing;
    same_request = requests;
  }
]
  where
    requests : (x : Execution) → find e db'.executions ≡ some x → x.operation_request_id ≡ o
    requests x f = let (y, g, same_op) = u.same_request e x f in sym same_op ∙ r.same_request y g

pub Updates-IsSafe :
    (s : System) (db' : Db) → Updates s.db db' → IsSafe s → IsSafe (record s { db = db' })
Updates-IsSafe s db' u h = record {
  keyed = rw u.written (put-IsKeyed u.new u.old s.db.operations u.found h.keyed);
  locked = Updates-IsLocked s.db db' u h.locked;
  running = λ o e c. Updates-IsRunning o e s.db db' u (h.running o e c);
}

-- The request of the claim is over: its row is written, and its lock goes.
pub ended-IsSafe :
    (s : System) (db' : Db) (o e : ℕ) (op : Operation)
    → IsSafe s
    → s.claim ≡ some (o, e)
    → op.id ≡ o
    → is_active op.state ≡ false
    → db'.operations ≡ put op s.db.operations
    → db'.locks ≡ delete_locks o s.db.locks
    → IsSafe (record { db = db'; claim = none })
ended-IsSafe s db' o e op h c same over operations locks =
    let r = h.running o e c in
    let found : find op.id s.db.operations ≡ some r.row = rw same r.found in
    record {
      keyed = rw operations (put-IsKeyed op r.row s.db.operations found h.keyed);
      locked =
          rw (operations, locks)
            (put-IsLocked s.db.operations s.db.locks (delete_locks o s.db.locks) r.row op found
              (λ id table ne owns.
                delete_locks-Owns o s.db.locks id table (λ eq. ne (eq ∙ sym same)) owns)
              (λ active. cc) h.locked);
      running = λ o' e' none_some. cc;
    }

pub mark_failed-IsSafe :
    (h : Host) (s : System) (now o e : ℕ) (message : String)
    → IsSafe s
    → s.claim ≡ some (o, e)
    → IsSafe (record { db = mark_failed h.settings now o e message s.db; claim = none })
unfolding mark_failed is_active
mark_failed-IsSafe h s now o e message safe c =
    let r = safe.running o e c in
    ended-IsSafe s (mark_failed h.settings now o e message s.db) o e (ended now failed r.row) safe c
      (unfold ended in key-find o s.db.operations r.row r.found) refl
      (rw (r.found, mark_failed) refl) (rw (r.found, mark_failed) refl)

pub mark_canceled-IsSafe :
    (h : Host) (s : System) (now o e : ℕ) (message : String)
    → IsSafe s
    → s.claim ≡ some (o, e)
    → IsSafe (record { db = mark_canceled h.settings now o e message s.db; claim = none })
unfolding mark_canceled is_active
mark_canceled-IsSafe h s now o e message safe c =
    let r = safe.running o e c in
    ended-IsSafe s (mark_canceled h.settings now o e message s.db) o e
      (record (ended now canceled r.row) { canceled_at = some now }) safe c
      (unfold ended in key-find o s.db.operations r.row r.found) refl
      (rw (r.found, mark_canceled) refl) (rw (r.found, mark_canceled) refl)

-- A claim that is let go without a write.
pub let_go-IsSafe : (s : System) → IsSafe s → IsSafe (record s { claim = none })
let_go-IsSafe s safe = record {
  keyed = safe.keyed;
  locked = safe.locked;
  running = λ o e none_some. cc;
}

pub mark_succeeded-IsSafe :
    (h : Host) (s : System) (now o e : ℕ) (result : Fields) (db' : Db)
    → IsSafe s
    → s.claim ≡ some (o, e)
    → mark_succeeded h.int_of_text h.int_of_real h.settings now o e result s.db ≡ ok db'
    → IsSafe (record { db = db'; claim = none })
unfolding mark_succeeded write_success is_active
mark_succeeded-IsSafe h s now o e result db' safe c done =
    let r = safe.running o e c in
    elim (Option-cases (find e s.db.executions)) [
      | inl gone ↦ let same : db' ≡ s.db = ground arith in rw same (let_go-IsSafe s safe)
      | inr (x, found) ↦
          let (_, (_, _, t, _, written)) =
            mark_succeeded-eq-ok h.int_of_text h.int_of_real h.settings now o e result s.db db' x
              r.row found r.found done in
          let same_key = key-find o s.db.operations r.row r.found in
          ended-IsSafe s db' o e (ended now succeeded r.row) safe c (unfold ended in same_key) refl
            (rw (written, write_success) refl) (rw (written, write_success, same_key) refl)
    ]

-- A request that is added waits for approval.
pub write_creation-IsSafe :
    (s : System) (fresh now : ℕ) (key : Option String) (fingerprint : String)
    (request : RequestCreate) (table : ManagedTable) (plan : PlanItem)
    → find fresh s.db.operations ≡ none
    → IsSafe s
    → IsSafe
        (record s { db = (write_creation fresh now key fingerprint request table plan s.db).1 })
unfolding write_creation new_operation is_active
write_creation-IsSafe s fresh now key fingerprint request table plan unused safe =
    let op = new_operation fresh now key fingerprint request table plan in
    record {
      keyed = add-IsKeyed op s.db.operations unused safe.keyed;
      locked = add-IsLocked s.db.operations s.db.locks op refl safe.locked;
      running = λ o e c.
          let r = safe.running o e c in
          record {
            row = r.row;
            found = ground (arith, find-add o op s.db.operations, r.found);
            executing = r.executing;
            same_request = r.same_request;
          };
    }
