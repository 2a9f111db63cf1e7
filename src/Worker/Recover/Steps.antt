-- ===== src/Worker/Recover/Steps.antt =====
-- What the body of the loop of a recovery does with an execution that another process has left in progress.
use iceberg_rest_catalog.Common.{
  ℕ, String, ◌≡◌, ◌⊎◌, inl, inr, refl, sym, Bool, true, false, ◌&&◌, none, some, List, [], ◌∷◌,
  ◌++◌, arith, Option-cases, Bool-cases, ◌==◌, ◌=ₛ◌, eq_refl, some_of,
}
use mathlib.Core.Path.{subst}
use iceberg_rest_catalog.Common.Rows.{find, find-put, find-put_self, key-find}
use iceberg_rest_catalog.Store.{failed, Execution, Operation, TableLock}
use iceberg_rest_catalog.Store.Jobs.{Db, operation_row, execution_row}
use iceberg_rest_catalog.Store.Locks.{delete_locks}
use iceberg_rest_catalog.Worker.{Settings}
use iceberg_rest_catalog.Worker.Marks.{closed, ended}
use iceberg_rest_catalog.Worker.Recover.{
  stale_message, has_external, attach, give_up, Resumable, recover_one,
}

-- An execution is on the list of those that are resumed, for its request and under its identifier.
unfoldable pub listed : Execution → String → List Resumable → Bool
listed x external =
    some_of
      (λ (r : Resumable). (r.0 == x.operation_request_id) && ((r.1 == x.id) && (r.2 =ₛ external)))

-- Whether a request has a lock on any table.
unfoldable pub has_lock : ℕ → List TableLock → Bool
has_lock op = some_of (λ (l : TableLock). l.operation_request_id == op)

-- This worker has taken the execution over, which runs in Livy, and will resume it.
pub record IsTaken (s : Settings) (x : Execution) (p : List Resumable × Db) : Type 0 where
  pub external : String
  pub in_livy : s.livy_mode ≡ true
  pub named : x.external_id ≡ some external
  pub resumable : listed x external p.0 ≡ true
  pub found : find x.id p.1.executions ≡ some (record x { worker_id = some s.worker_id })

-- The execution has failed: it cannot be resumed, or has no request; and if it has one, that has
-- failed too, and has no lock.
pub record IsLost (s : Settings) (now : ℕ) (x : Execution) (p : List Resumable × Db) : Type 0 where
  pub found :
      find x.id p.1.executions
      ≡ some
          (record x { state = failed; error_message = some stale_message; finished_at = some now })
  pub reason :
      (has_external x.external_id && s.livy_mode ≡ false)
      ⊎ (find x.operation_request_id p.1.operations ≡ none)
  pub request :
      (op : Operation)
      → find x.operation_request_id p.1.operations ≡ some op
      → (op.state ≡ failed) × (has_lock x.operation_request_id p.1.locks ≡ false)

abbrev pub IsHandled : Settings → ℕ → Execution → List Resumable × Db → Type 0
IsHandled s now x p = IsTaken s x p ⊎ IsLost s now x p

pub deleted_lock : (op : ℕ) (locks : List TableLock) → has_lock op (delete_locks op locks) ≡ false
unfolding has_lock delete_locks
deleted_lock op [] = refl
deleted_lock op (l ∷ ls) = ground (arith, deleted_lock op ls)

pub kept_lockless :
    (a op : ℕ) (locks : List TableLock)
    → has_lock op locks ≡ false
    → has_lock op (delete_locks a locks) ≡ false
unfolding has_lock delete_locks
kept_lockless a op [] h = refl
kept_lockless a op (l ∷ ls) h = ground (arith, kept_lockless a op ls)

pub listed-append :
    (x : Execution) (external : String) (rs : List Resumable) (r : Resumable)
    → listed x external rs ≡ true
    → listed x external (rs ++ r ∷ []) ≡ true
unfolding listed
listed-append x external [] r h = cc
listed-append x external (q ∷ rs) r h = ground (arith, listed-append x external rs r)

listed_last :
    (x : Execution) (external : String) (rs : List Resumable)
    → listed x external (rs ++ (x.operation_request_id, x.id, external) ∷ []) ≡ true
unfolding listed
listed_last x external [] = ground (arith, eq_refl external)
listed_last x external (q ∷ rs) = ground (arith, listed_last x external rs)

module _ (s : Settings) (now : ℕ) (x : Execution) where
  -- The body of the loop handles the execution that it is at.
  pub one_handles :
      (p : List Resumable × Db) (y : Execution)
      → find x.id p.1.executions ≡ some y
      → IsHandled s now x (recover_one s now x p)
  unfolding recover_one attach give_up closed ended has_external
  one_handles p y there = elim (Option-cases (find x.operation_request_id p.1.operations)) [
    | inl gone ↦ inr (
        rw (gone, recover_one)
          (record {
            found =
                find-put_self x.id (closed now failed (some stale_message) x) y p.1.executions there
                  refl;
            reason = inr gone;
            request = λ op f. absurd (ground (arith, gone, f));
          }))
    | inr (op, has) ↦
        let same_key = key-find x.operation_request_id p.1.operations op has in
        elim (Bool-cases (has_external x.external_id && s.livy_mode)) [
          | inl runs ↦ elim (Option-cases x.external_id) [
            | inl no_name ↦ absurd (ground arith)
            | inr (external, named) ↦
                let taken : recover_one s now x p
                    ≡ (p.0 ++ (op.id, x.id, external) ∷ [], attach s x p.1) =
                  ground (arith, has, runs, named) in
                inl (
                  subst (λ q. IsTaken s x q) (sym taken)
                    (record {
                      external = external;
                      in_livy = ground arith;
                      named = named;
                      resumable = rw same_key (listed_last x external p.0);
                      found =
                          find-put_self x.id (record x { worker_id = some s.worker_id }) y
                            p.1.executions there refl;
                    }))
          ]
          | inr lost ↦ inr (
              rw (has, lost, recover_one)
                (record {
                  found =
                      find-put_self x.id (closed now failed (some stale_message) x) y p.1.executions
                        there refl;
                  reason = inl lost;
                  request = λ o f. (
                    ground (
                      arith,
                      f,
                      same_key,
                      find-put x.operation_request_id (ended now failed op) p.1.operations,
                    ),
                    rw (sym same_key) (deleted_lock op.id p.1.locks),
                  );
                }))
        ]
  ]
