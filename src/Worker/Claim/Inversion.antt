-- ===== src/Worker/Claim/Inversion.antt =====
-- What `claim_operation` has found when it hands out a request.
use iceberg_rest_catalog.Common.{
  ℕ, ◌≡◌, ◌≢◌, ◌⊎◌, ◌==◌, Bool, true, false, Option, some, List, [], ◌∷◌, Outcome, ok, arith, leb,
  All, keep, keep_all, Option-cases, Bool-cases, inl, inr,
}
use mathlib.Core.Path.{subst}
use iceberg_rest_catalog.Common.Rows.{find, IsKeyed}
use iceberg_rest_catalog.Store.{ManagedTable, Operation, TableLock}
use iceberg_rest_catalog.Store.Jobs.{Db, table_row, operation_row, lock_row}
use iceberg_rest_catalog.Store.Locks.{Owns, owner-find, owner-insert_lock, insert_lock-Owns}
use iceberg_rest_catalog.Requests.Acquire.{lock_of}
use iceberg_rest_catalog.Worker.{Settings}
use iceberg_rest_catalog.Worker.Claim.{
  Claim, ClaimError, Others, claimable, selectable, oldest, lock_claimed, lock_free_or_own, start,
  claim_chosen, claim_operation,
}

-- The oldest of a list is one of it.
pub oldest_all {κ} :
    (P : Operation → Type κ) (os : List Operation) (op : Operation)
    → All P os
    → oldest os ≡ some op
    → P op
unfolding oldest
oldest_all P [] op h e = cc
oldest_all P (o ∷ os) op h e = elim (Option-cases (oldest os)) [
  | inl last ↦ let same : o ≡ op = ground arith in subst P same h.0
  | inr (p, some_p) ↦ elim (Bool-cases (leb o.created_at p.created_at)) [
    | inl older ↦ let same : o ≡ op = ground arith in subst P same h.0
    | inr younger ↦ let same : p ≡ op = ground arith in subst P same (oldest_all P os p h.1 some_p)
  ]
]

pub record Claimed (s : Settings) (others : Others) (fresh now : ℕ) (db : Db) (c : Claim) (db' : Db)
    : Type 0 where
  pub op : Operation
  pub table : ManagedTable
  pub locks : List TableLock
  pub found : find op.id db.operations ≡ some op
  pub unlocked : others.row_locked op.id ≡ false
  pub allowed : claimable s db op ≡ true
  pub acquired : lock_claimed others.raced now op (others.committed db.locks) ≡ some locks
  pub written : (c, db') ≡ start s fresh now op table locks db

module _ (s : Settings) (others : Others) (fresh now : ℕ) (db : Db) (c : Claim) (db' : Db) where
  same_start :
      (started : Claim × Db)
      → ◌≡◌ {A = Outcome ClaimError (Option Claim × Db)}
          (ok (some started.0, started.1))
          (ok (some c, db'))
      → (c, db') ≡ started
  same_start (a, b) h = ground arith

  chosen :
      (op : Operation)
      → find op.id db.operations ≡ some op
      → selectable s others db op ≡ true
      → claim_chosen s others fresh now op db ≡ ok (some c, db')
      → Claimed s others fresh now db c db'
  unfolding claim_chosen selectable
  chosen op found allowed h = elim (Option-cases (find op.table_id db.tables)) [
    | inl gone ↦ absurd (ground arith)
    | inr (table, has_table) ↦
        elim (Option-cases (lock_claimed others.raced now op (others.committed db.locks))) [
          | inl taken ↦ absurd (ground arith)
          | inr (locks, acquired) ↦ record {
            op = op;
            table = table;
            locks = locks;
            found = found;
            unlocked = ground arith;
            allowed = ground arith;
            acquired = acquired;
            written =
                same_start (start s fresh now op table locks db)
                  (rw (has_table, acquired, claim_chosen) at h);
          }
        ]
  ]

  pub claim-Claimed :
      IsKeyed db.operations
      → claim_operation s others fresh now db ≡ ok (some c, db')
      → Claimed s others fresh now db c db'
  unfolding claim_operation
  claim-Claimed keyed h =
      elim (Option-cases (oldest (keep (selectable s others db) db.operations))) [
        | inl idle ↦ absurd (ground arith)
        | inr (op, first) ↦
            let (found, allowed) =
              oldest_all _ _ op
                (keep_all (λ o. find o.id db.operations ≡ some o) (selectable s others db)
                  db.operations keyed)
                first in
            chosen op found allowed (ground arith)
      ]

-- After the second reading the lock belongs to the request, or that reading has found another's.
pub lock_claimed-Owns :
    (raced : Bool) (now : ℕ) (op : Operation) (locks locks' : List TableLock)
    → lock_claimed raced now op locks ≡ some locks'
    → Owns locks' op.id op.table_id
      ⊎ ((l : TableLock) × (find op.table_id locks ≡ some l) × (l.operation_request_id ≢ op.id))
unfolding lock_claimed
lock_claimed-Owns true now op locks locks' h =
    inl (ground (arith, owner-insert_lock (lock_of now op) locks locks' op.table_id h))
lock_claimed-Owns false now op locks locks' h = elim (Option-cases (find op.table_id locks)) [
  | inl free ↦ inl (ground (arith, owner-insert_lock (lock_of now op) locks locks' op.table_id))
  | inr (l, found) ↦ elim (Bool-cases (l.operation_request_id == op.id)) [
    | inl own ↦ inl (ground (arith, owner-find op.table_id locks))
    | inr other ↦ inr (l, found, ground arith)
  ]
]

-- A lock that a claimable request meets is its own.
pub claimable-own :
    (s : Settings) (db : Db) (op : Operation) (l : TableLock)
    → claimable s db op ≡ true
    → find op.table_id db.locks ≡ some l
    → l.operation_request_id ≡ op.id
unfolding claimable lock_free_or_own
claimable-own s db op l h found = ground arith

pub lock_claimed-keeps :
    (raced : Bool) (now : ℕ) (op : Operation) (locks locks' : List TableLock) (id table : ℕ)
    → lock_claimed raced now op locks ≡ some locks'
    → Owns locks id table
    → Owns locks' id table
unfolding lock_claimed
lock_claimed-keeps true now op locks locks' id table h o =
    insert_lock-Owns (lock_of now op) locks locks' id table h o
lock_claimed-keeps false now op locks locks' id table h o =
    elim (Option-cases (find op.table_id locks)) [
      | inl free ↦ ground (arith, insert_lock-Owns (lock_of now op) locks locks' id table)
      | inr (l, found) ↦ ground arith
    ]
