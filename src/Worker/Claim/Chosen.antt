-- ===== src/Worker/Claim/Chosen.antt =====
-- Which request a worker claims, and what the claim leaves behind.
use iceberg_rest_catalog.Common.{
  ℕ, ◌+◌, ◌≤◌, ◌≡◌, ◌≢◌, ◌⊎◌, inl, inr, refl, ap, true, false, none, some, List, [], ◌∷◌, ok, arith,
  Option-cases, Bool-cases, All, leb, keep, keep_all,
}
use iceberg_rest_catalog.Common.Rows.{find, find-put_self, find-add, IsKeyed}
use iceberg_rest_catalog.Params.{auto, spark}
use iceberg_rest_catalog.Store.{queued, running, Operation, Execution, ManagedTable, TableLock}
use iceberg_rest_catalog.Store.Jobs.{Db, table_row, operation_row, execution_row, lock_row}
use iceberg_rest_catalog.Store.Locks.{Owns}
use iceberg_rest_catalog.Worker.{Settings}
use iceberg_rest_catalog.Worker.Claim.{
  oldest, is_queued, runs_on_spark, in_scope, Others, claimable, selectable, last_attempt,
  new_execution, Claim, start, claim_chosen, claim_operation,
}
use iceberg_rest_catalog.Worker.Claim.Inversion.{
  oldest_all, claim-Claimed, lock_claimed-Owns, claimable-own,
}

-- A claimed request was queued, asked for Spark or for any engine, its catalog is in the worker's
-- scope, no other transaction had locked its row, and a lock of its table was its own.
pub record IsClaimable (s : Settings) (others : Others) (db : Db) (op : Operation) : Type 0 where
  pub was_queued : op.state ≡ queued
  pub on_spark : (op.preferred_engine ≡ auto) ⊎ (op.preferred_engine ≡ spark)
  pub in_reach :
      (t : ManagedTable)
      → find op.table_id db.tables ≡ some t
      → in_scope s.playground_scope t.catalog.catalog_type ≡ true
  pub unlocked : others.row_locked op.id ≡ false
  pub lock_its_own :
      (l : TableLock) → find op.table_id db.locks ≡ some l → l.operation_request_id ≡ op.id

claimable-IsClaimable :
    (s : Settings) (others : Others) (db : Db) (op : Operation)
    → others.row_locked op.id ≡ false
    → claimable s db op ≡ true
    → IsClaimable s others db op
unfolding claimable is_queued runs_on_spark
claimable-IsClaimable s others db op unlocked h = record {
  was_queued = ground arith;
  on_spark = ground arith;
  in_reach = λ t f. ground arith;
  unlocked = unlocked;
  lock_its_own = λ l f. claimable-own s db op l h f;
}

-- Where requests have unique keys and the new execution's key is not taken, whatever the other
-- transactions do meanwhile: a claim of a worker is of one request that may be claimed. It is running
-- afterwards; it owns the lock of its table, unless a lock of another request was committed between
-- the choice and the second reading; and an execution of it was added that is running, counts one
-- attempt more than the last one, and is planned for the snapshot that the request was planned for.
pub claim-IsClaimable :
    (s : Settings) (others : Others) (fresh now : ℕ) (db : Db) (c : Claim) (db' : Db)
    → IsKeyed db.operations
    → find fresh db.executions ≡ none
    → claim_operation s others fresh now db ≡ ok (some c, db')
    → (op : Operation) × (find c.0 db.operations ≡ some op)
      × IsClaimable s others db op
      × (find c.0 db'.operations ≡ some (record op { state = running; updated_at = now }))
      × (Owns db'.locks c.0 op.table_id
          ⊎ ((l : TableLock) × (find op.table_id (others.committed db.locks) ≡ some l)
              × (l.operation_request_id ≢ op.id)))
      × ((x : Execution) × (find c.1 db'.executions ≡ some x)
          × (x.operation_request_id ≡ c.0)
          × (x.state ≡ running)
          × (x.attempt ≡ last_attempt c.0 db.executions + 1)
          × (x.planned_snapshot_id ≡ op.planned_snapshot_id))
unfolding start new_execution
claim-IsClaimable s others fresh now db c db' keyed unused h =
    let k = claim-Claimed s others fresh now db c db' keyed h in
    let new = record k.op { state = running; updated_at = now } in
    let row = new_execution s fresh now k.op db in
    let same_claim : c ≡ (start s fresh now k.op k.table k.locks db).0 =
      ap (λ (p : Claim × Db). p.0) k.written in
    let same_db : db' ≡ (start s fresh now k.op k.table k.locks db).1 =
      ap (λ (p : Claim × Db). p.1) k.written in
    rw (same_claim, same_db)
      (
        k.op,
        k.found,
        claimable-IsClaimable s others db k.op k.unlocked k.allowed,
        find-put_self k.op.id new k.op db.operations k.found refl,
        lock_claimed-Owns others.raced now k.op (others.committed db.locks) k.locks k.acquired,
        (row, ground (arith, find-add fresh row db.executions), refl, refl, refl, refl),
      )

oldest_least :
    (os : List Operation) (op : Operation)
    → oldest os ≡ some op
    → All (λ o. op.created_at ≤ o.created_at) os
unfolding oldest
oldest_least [] op h = cc
oldest_least (o ∷ os) op h = elim (Option-cases (oldest os)) [
  | inl last ↦ (ground arith, oldest_none os op last)
  | inr (p, some_p) ↦ elim (Bool-cases (leb o.created_at p.created_at)) [
    | inl older ↦ (ground arith, weaken os p op (ground arith) (oldest_least os p some_p))
    | inr younger ↦ (ground arith, weaken os p op (ground arith) (oldest_least os p some_p))
  ]
]
  where
    oldest_none :
        (xs : List Operation) (x : Operation)
        → oldest xs ≡ none
        → All (λ o. x.created_at ≤ o.created_at) xs
    oldest_none [] x e = tt
    oldest_none (y ∷ ys) x e = absurd (ground arith)

    weaken :
        (xs : List Operation) (x y : Operation)
        → y.created_at ≤ x.created_at
        → All (λ o. x.created_at ≤ o.created_at) xs
        → All (λ o. y.created_at ≤ o.created_at) xs
    weaken [] x y l a = tt
    weaken (z ∷ zs) x y l a = (omega (arith, l, a.0), weaken zs x y l a.1)

chosen_id :
    (s : Settings) (others : Others) (fresh now : ℕ) (op : Operation) (db : Db) (c : Claim)
    (db' : Db)
    → claim_chosen s others fresh now op db ≡ ok (some c, db')
    → c.0 ≡ op.id
unfolding claim_chosen start
chosen_id s others fresh now op db c db' h = ground arith

-- Where requests have unique keys: of the requests that could be claimed and whose rows no other
-- transaction has locked, none is older than the one that a worker claims.
pub claim_oldest :
    (s : Settings) (others : Others) (fresh now : ℕ) (db : Db) (c : Claim) (db' : Db)
    → IsKeyed db.operations
    → claim_operation s others fresh now db ≡ ok (some c, db')
    → (op : Operation) × (find c.0 db.operations ≡ some op)
      × All (λ o. op.created_at ≤ o.created_at) (keep (selectable s others db) db.operations)
unfolding claim_operation
claim_oldest s others fresh now db c db' keyed h =
    elim (Option-cases (oldest (keep (selectable s others db) db.operations))) [
      | inl idle ↦ absurd (ground arith)
      | inr (op, first) ↦
          let (found, _) =
            oldest_all _ _ op
              (keep_all (λ o. find o.id db.operations ≡ some o) (selectable s others db)
                db.operations keyed)
              first in
          (op, ground (arith, chosen_id s others fresh now op db c db'), oldest_least _ op first)
    ]
