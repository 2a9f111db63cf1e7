-- ===== src/System/Reached.antt =====
-- The invariant along an interleaving, and what follows for a table.
use iceberg_rest_catalog.Common.{
  ℕ, String, ◌≡◌, inl, inr, refl, Bool, true, sym, ◌∙◌, Option, none, some, List, ok, arith,
  Option-cases, ap,
}
use mathlib.Core.Path.{subst}
use iceberg_rest_catalog.Common.Rows.{find}
use iceberg_rest_catalog.Json.{Fields}
use iceberg_rest_catalog.Store.{Operation, Execution, TableLock}
use iceberg_rest_catalog.Store.Jobs.{Db, operation_row, execution_row}
use iceberg_rest_catalog.Store.Locks.{Owns}
use iceberg_rest_catalog.Requests.Create.{RequestCreate, create_operation}
use iceberg_rest_catalog.Requests.Create.Inversion.{create_cases}
use iceberg_rest_catalog.Requests.Decide.Inversion.{retry-Retried, decide-Decided}
use iceberg_rest_catalog.Requests.Cancel.{cancel_operation}
use iceberg_rest_catalog.Worker.Claim.{Claim, Others, claim_operation}
use iceberg_rest_catalog.Worker.Claim.Inversion.{claim-Claimed}
use iceberg_rest_catalog.Worker.Marks.{mark_submitted, write_verifying, mark_verifying}
use iceberg_rest_catalog.Worker.Marks.Inversion.{mark_verifying-eq-ok}
use iceberg_rest_catalog.System.{
  Host, System, Step, Reach, here, next, created, decided, retried, cancel_asked, claimed,
  submitted, ran, succeeded_with, failed_with, canceled_with, bulk_canceled, bulk_read,
  bulk_retried, bulk_created, recovered, resumed, stopped, IsCalm, IsCalmRun,
}
use iceberg_rest_catalog.System.Locked.{is_active, is_executing}
use iceberg_rest_catalog.System.Requests.{
  write_retry-Updates, write_decision-Updates, cancel-Updates,
}
use iceberg_rest_catalog.System.Worker.{
  IsRunning, IsRunning-Owns, start-IsLocked, start-IsKeyed, start-IsRunning,
  write_verifying-Updates, put_same_request,
}
use iceberg_rest_catalog.System.Safety.{
  IsSafe, Updates-IsSafe, write_creation-IsSafe, mark_succeeded-IsSafe, mark_failed-IsSafe,
  mark_canceled-IsSafe, let_go-IsSafe,
}
use iceberg_rest_catalog.System.Recovery.{recovered-IsSafe}
use iceberg_rest_catalog.System.Members.{bulk_created-IsSafe}
use iceberg_rest_catalog.System.Requeued.{bulk_retried-IsSafe}
use iceberg_rest_catalog.System.Bulk.{bulk_canceled-IsSafe, bulk_job-IsSafe}

created-IsSafe :
    (h : Host) (s : System) (raced : Bool) (fresh now : ℕ) (request : RequestCreate)
    (key : Option String) (op : Operation) (db' : Db)
    → find fresh s.db.operations ≡ none
    → create_operation h.fingerprint raced fresh now request key s.db ≡ ok (op, db')
    → IsSafe s
    → IsSafe (record s { db = db' })
created-IsSafe h s raced fresh now request key op db' unused e safe =
    elim (create_cases h.fingerprint raced fresh now request key s.db (op, db') e) [
      | inl same ↦ rw same safe
      | inr i ↦
          let same = ap (λ (p : Operation × Db). p.1) i.written in
          rw same (
            write_creation-IsSafe s fresh now key (h.fingerprint request) request i.table i.plan
              unused safe)
    ]

cancel_asked-IsSafe :
    (s : System) (now id : ℕ) (actor : String) (expected : Option ℕ) (op : Operation) (db' : Db)
    → cancel_operation now id actor expected s.db ≡ ok (op, db')
    → IsSafe s
    → IsSafe (record s { db = db' })
cancel_asked-IsSafe s now id actor expected op db' e safe =
    elim (cancel-Updates now id actor expected s.db (op, db') safe.locked e) [
      | inl same ↦ rw same safe
      | inr u ↦ Updates-IsSafe s db' u safe
    ]

claimed-IsSafe :
    (h : Host) (s : System) (others : Others) (fresh now : ℕ) (c : Claim) (db' : Db)
    → s.claim ≡ none
    → find fresh s.db.executions ≡ none
    → claim_operation h.settings others fresh now s.db ≡ ok (some c, db')
    → ((locks : List TableLock) → others.committed locks ≡ locks)
    → IsSafe s
    → IsSafe (record { db = db'; claim = some (c.0, c.1) })
claimed-IsSafe h s others fresh now c db' idle unused e alone safe =
    let k = claim-Claimed h.settings others fresh now s.db c db' safe.keyed e in
    record {
      keyed = start-IsKeyed h.settings others fresh now s.db c db' k safe.keyed;
      locked = start-IsLocked h.settings others fresh now s.db c db' k alone safe.locked;
      running = λ o x same.
          let eq_o : c.0 ≡ o = ground arith in
          let eq_x : c.1 ≡ x = ground arith in
          subst (λ n. IsRunning n x db') eq_o
            (subst (λ n. IsRunning c.0 n db') eq_x
              (start-IsRunning h.settings others fresh now s.db c db' k unused));
    }

submitted-IsSafe :
    (s : System) (o e : ℕ) (external_id : String)
    → s.claim ≡ some (o, e)
    → IsSafe s
    → IsSafe (record s { db = mark_submitted e external_id s.db })
unfolding mark_submitted
submitted-IsSafe s o e external_id c safe = elim (Option-cases (find e s.db.executions)) [
  | inl gone ↦ rw (gone, mark_submitted) safe
  | inr (x, found) ↦
      let x' = record x { external_id = some external_id } in
      rw (found, mark_submitted)
        (record {
          keyed = safe.keyed;
          locked = safe.locked;
          running = λ o' e' same.
              let r = safe.running o' e' same in
              record {
                row = r.row;
                found = r.found;
                executing = r.executing;
                same_request = λ z g.
                    let (y, was, same_op) =
                      put_same_request s.db.executions e x x' found refl refl e' z g in
                    sym same_op ∙ r.same_request y was;
              };
        })
]

ran-IsSafe :
    (h : Host) (s : System) (o e now : ℕ) (result : Fields) (db' : Db)
    → s.claim ≡ some (o, e)
    → mark_verifying h.int_of_text h.int_of_real now e result s.db ≡ ok db'
    → IsSafe s
    → IsSafe (record s { db = db' })
ran-IsSafe h s o e now result db' c done safe =
    elim (mark_verifying-eq-ok h.int_of_text h.int_of_real now e result s.db db' done) [
      | inl same ↦ rw same safe
      | inr (x, before, after, found, written) ↦ rw written (
          Updates-IsSafe s (write_verifying now x result before after s.db)
            (write_verifying-Updates now o e result before after s.db x safe.locked
              (safe.running o e c) found)
            safe)
    ]

resumed-IsSafe :
    (s : System) (e : ℕ) (x : Execution) (row : Operation)
    → find e s.db.executions ≡ some x
    → find x.operation_request_id s.db.operations ≡ some row
    → is_executing row.state ≡ true
    → IsSafe s
    → IsSafe (record s { claim = some (x.operation_request_id, e) })
resumed-IsSafe s e x row found has going safe = record {
  keyed = safe.keyed;
  locked = safe.locked;
  running = λ o e' c.
      let same_request : x.operation_request_id ≡ o = ground arith in
      let same_execution : e ≡ e' = ground arith in
      record {
        row = row;
        found = rw (sym same_request) has;
        executing = going;
        same_request = λ y f. ground arith;
      };
}

-- Every calm transaction keeps the invariant: requests have unique keys, active ones own the lock of
-- their table, and the worker's claim is of a request that is being executed. All transactions are
-- calm but four kinds: a bulk cancellation is where no request has changed its state since it was
-- read, a bulk retry where no failed item is of the claimed request, a claim where no lock is
-- committed between its choice and its second reading, and a resumption where the request is being
-- executed.
pub Step-IsSafe : (h : Host) (s t : System) (step : Step h s t) → IsCalm step → IsSafe s → IsSafe t
unfolding IsCalm
Step-IsSafe h s t (created raced fresh now request key unused e) calm safe =
    created-IsSafe h s raced fresh now request key _ _ unused e safe
Step-IsSafe h s t (decided raced now id approver decision comment {db'} e) calm safe =
    Updates-IsSafe s db'
      (write_decision-Updates h.casefold raced now id approver (h.upper decision) comment s.db _
        (decide-Decided h.upper h.casefold raced now id approver decision comment s.db _ e))
      safe
Step-IsSafe h s t (retried raced now id actor {db'} e) calm safe =
    Updates-IsSafe s db'
      (write_retry-Updates raced now id actor s.db _ (retry-Retried raced now id actor s.db _ e))
      safe
Step-IsSafe h s t (cancel_asked now id actor expected e) calm safe =
    cancel_asked-IsSafe s now id actor expected _ _ e safe
Step-IsSafe h s t (claimed others fresh now idle unused e) calm safe =
    claimed-IsSafe h s others fresh now _ _ idle unused e calm safe
Step-IsSafe h s t (submitted external_id c) calm safe = submitted-IsSafe s _ _ external_id c safe
Step-IsSafe h s t (ran now result c e) calm safe = ran-IsSafe h s _ _ now result _ c e safe
Step-IsSafe h s t (succeeded_with now result c e) calm safe =
    mark_succeeded-IsSafe h s now _ _ result _ safe c e
Step-IsSafe h s t (failed_with now message c) calm safe =
    mark_failed-IsSafe h s now _ _ message safe c
Step-IsSafe h s t (canceled_with now message c) calm safe =
    mark_canceled-IsSafe h s now _ _ message safe c
Step-IsSafe h s t (bulk_canceled seen now id actor e) calm safe =
    bulk_canceled-IsSafe s seen now id actor _ _ calm e safe
Step-IsSafe h s t (bulk_retried now id actor e) calm safe =
    bulk_retried-IsSafe s now id actor _ _ calm e safe
Step-IsSafe h s t (bulk_read now id e) calm safe = bulk_job-IsSafe s now id s.db _ _ e safe
Step-IsSafe h s t (bulk_created raced op_ids item_ids fresh now request key distinct unused e) calm
      safe =
    bulk_created-IsSafe h.item_key op_ids item_ids distinct h.bulk_fingerprint s raced fresh now
      request key _ _ (λ m _. unused m) e safe
Step-IsSafe h s t (recovered now idle) calm safe = recovered-IsSafe h.settings s now idle safe
Step-IsSafe h s t (resumed e idle found going mine) (row, has, executing) safe =
    resumed-IsSafe s e _ row found has executing safe
Step-IsSafe h s t stopped calm safe = let_go-IsSafe s safe

pub Reach-IsSafe : (h : Host) (s t : System) (r : Reach h s t) → IsCalmRun r → IsSafe s → IsSafe t
unfolding IsCalmRun
Reach-IsSafe h s t here calm safe = safe
Reach-IsSafe h s t (next {t = u} r step) (before, calm) safe =
    Step-IsSafe h u t step calm (Reach-IsSafe h s u r before safe)

-- From a state in which the invariant holds, however calm transactions of the services and of the
-- worker interleave (`IsCalm` says what is asked of a bulk cancellation, a bulk retry, a claim and a
-- resumption): two requests on one table that are both active (queued or begun, and not over) are one
-- and the same.
pub Reach-exclusive :
    (h : Host) (s t : System) (a b : ℕ) (x y : Operation)
    → IsSafe s
    → (r : Reach h s t) → IsCalmRun r
    → find a t.db.operations ≡ some x
    → find b t.db.operations ≡ some y
    → is_active x.state ≡ true
    → is_active y.state ≡ true
    → x.table_id ≡ y.table_id
    → a ≡ b
Reach-exclusive h s t a b x y safe r calm fx fy ax ay same =
    let locked = (Reach-IsSafe h s t r calm safe).locked in
    let ox : Owns t.db.locks a y.table_id =
      subst (λ n. Owns t.db.locks a n) same (locked.held a x fx ax) in
    ground (arith, locked.held b y fy ay)

-- From a state in which the invariant holds, however calm transactions interleave: a request that the
-- worker has claimed and not yet ended is being executed, and owns the lock of its table.
pub Reach-claim-Owns :
    (h : Host) (s t : System) (o e : ℕ)
    → IsSafe s
    → (r : Reach h s t) → IsCalmRun r
    → t.claim ≡ some (o, e)
    → (x : Operation) × (find o t.db.operations ≡ some x)
      × (is_executing x.state ≡ true)
      × Owns t.db.locks o x.table_id
Reach-claim-Owns h s t o e safe r calm c =
    let now_safe = Reach-IsSafe h s t r calm safe in
    let running = now_safe.running o e c in
    (running.row, running.found, running.executing, IsRunning-Owns o e t.db now_safe.locked running)
