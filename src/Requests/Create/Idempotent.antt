-- ===== src/Requests/Create/Idempotent.antt =====
-- Idempotency keys: what a second `create_operation` with the key of a committed request answers.
use iceberg_rest_catalog.Common.{
  ℕ, String, ◌≡◌, ◌≢◌, inl, inr, refl, Bool, true, false, Option, none, some, List, [], ◌∷◌, ok,
  err, arith, >>=-eq-ok, if◌then◌else◌, Option-cases, eq_refl, eq_iff,
}
use iceberg_rest_catalog.Common.Rows.{add}
use iceberg_rest_catalog.Params.{validate_parameters}
use iceberg_rest_catalog.Store.{Operation}
use iceberg_rest_catalog.Store.Jobs.{Db, operation_row}
use iceberg_rest_catalog.Requests.{key_reused, validated, text_is}
use iceberg_rest_catalog.Requests.Create.{
  RequestCreate, with_key, answer_existing, new_operation, write_creation, create_operation,
}
use iceberg_rest_catalog.Requests.Create.Inversion.{Inserted, insert-Inserted}

with_key-add :
    (k : String) (o : Operation) (os : List Operation)
    → o.idempotency_key ≡ some k
    → with_key (some k) os ≡ none
    → with_key (some k) (add o os) ≡ some o
unfolding with_key add
with_key-add k o [] has free = ground (arith, eq_refl k)
with_key-add k o (x ∷ xs) has free = ground (arith, with_key-add k o xs has)

fingerprint_matches : (f : String) (o : Option String) → text_is f o ≡ true → o ≡ some f
fingerprint_matches f none e = cc
fingerprint_matches f (some g) e = ground (arith, eq_iff g f)

Inserted-row :
    (fresh now : ℕ) (k fingerprint : String) (request : RequestCreate) (db : Db)
    (result : Operation × Db)
    → Inserted fresh now (some k) fingerprint request db result
    → (with_key (some k) result.1.operations ≡ some result.0)
      × (result.0.request_fingerprint ≡ some fingerprint)
unfolding write_creation new_operation
Inserted-row fresh now k fingerprint request db result i = rw i.written (
  with_key-add k (new_operation fresh now (some k) fingerprint request i.table i.plan) db.operations
      refl i.free_key,
  refl,
)

-- A committed request is what its key finds, and carries the fingerprint of what was asked.
pub created_row :
    (fingerprint_of : RequestCreate → String) (raced : Bool) (fresh now : ℕ)
    (request : RequestCreate) (k : String) (db : Db) (op : Operation) (db' : Db)
    → create_operation fingerprint_of raced fresh now request (some k) db ≡ ok (op, db')
    → (validated request.command request.parameters ≡ ok tt)
      × (with_key (some k) db'.operations ≡ some op)
      × (op.request_fingerprint ≡ some (fingerprint_of request))
unfolding create_operation answer_existing
created_row fingerprint_of raced fresh now request k db op db' h =
    let (u, v, h₁) = >>=-eq-ok (validated request.command request.parameters) _ h in
    elim (Option-cases (if raced then none else with_key (some k) db.operations)) [
      | inl free ↦
          let i =
            insert-Inserted fresh now (some k) (fingerprint_of request) request db (op, db')
              (ground arith) in
          let (finds, prints) =
            Inserted-row fresh now k (fingerprint_of request) request db (op, db') i in
          (cc v, finds, prints)
      | inr (existing, found) ↦ (
        cc v,
        ground arith,
        ground (arith, fingerprint_matches (fingerprint_of request) existing.request_fingerprint),
      )
    ]

-- Asking again, with the same key and the same request, for an operation that was committed answers
-- with that operation and writes nothing.
pub create-repeat :
    (fingerprint_of : RequestCreate → String) (raced : Bool) (fresh now fresh' now' : ℕ)
    (request : RequestCreate) (k : String) (db : Db) (op : Operation) (db' : Db)
    → create_operation fingerprint_of raced fresh now request (some k) db ≡ ok (op, db')
    → create_operation fingerprint_of false fresh' now' request (some k) db' ≡ ok (op, db')
unfolding create_operation answer_existing
create-repeat fingerprint_of raced fresh now fresh' now' request k db op db' h =
    let (v, found, same) = created_row fingerprint_of raced fresh now request k db op db' h in
    ground (arith, eq_refl (fingerprint_of request))

-- A key that a committed request has used is refused to a valid request of another fingerprint.
pub create-key_reused :
    (fingerprint_of : RequestCreate → String) (raced : Bool) (fresh now fresh' now' : ℕ)
    (request other : RequestCreate) (k : String) (db : Db) (op : Operation) (db' : Db)
    → create_operation fingerprint_of raced fresh now request (some k) db ≡ ok (op, db')
    → validate_parameters other.command other.parameters ≡ ok tt
    → fingerprint_of request ≢ fingerprint_of other
    → create_operation fingerprint_of false fresh' now' other (some k) db' ≡ err key_reused
unfolding create_operation answer_existing
create-key_reused fingerprint_of raced fresh now fresh' now' request other k db op db' h valid
      differs =
    let (v, found, same) = created_row fingerprint_of raced fresh now request k db op db' h in
    ground (arith, eq_iff (fingerprint_of request) (fingerprint_of other))
