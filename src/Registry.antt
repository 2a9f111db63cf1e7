-- ===== src/Registry.antt =====
-- The registry of backend/app/routers/playground.py: the Hadoop catalogs and namespaces that an operator has
-- registered, and the bulk inspection of tables in them.
pub mod Scope
pub mod Jobs
use iceberg_rest_catalog.Common.{
  ℕ, zero, suc, String, Bool, true, false, ◌&&◌, Option, none, some, List, [], ◌∷◌, ◌++◌, Outcome,
  ok, err, ◌>>=◌, ◌>>◌, raise_if, if◌then◌else◌, ◌==◌, ◌=ₛ◌, some_of, length, is_none, not,
}
use iceberg_rest_catalog.Common.Rows.{add}
use iceberg_rest_catalog.Json.{end}
use iceberg_rest_catalog.Store.{Catalog, queued, bulk_table_inspection_requested}
use iceberg_rest_catalog.Store.Jobs.{BulkJob, BulkJobItem, table_inspect, Db, job_row}
use iceberg_rest_catalog.Requests.{text_is, audited}
use iceberg_rest_catalog.Bulk.Create.{job_with_key}

-- `Catalog` and `CatalogNamespace`, the latter by its catalog and its name.
pub record Registry : Type 0 where
  pub catalogs : List Catalog
  pub namespaces : List (ℕ × String)

-- The `HTTPException`s: 404, 409; and the exception of a commit that breaks a constraint.
pub data RegistryError : Type 0 where
  catalog_not_found namespace_not_found other_settings key_reused broken_constraint : RegistryError

unfoldable pub catalog_named : String → List Catalog → Option Catalog
catalog_named name [] = none
catalog_named name (c ∷ cs) = if c.name =ₛ name then some c else catalog_named name cs

-- `Catalog.name == name, Catalog.catalog_type == "HADOOP"`; names are unique
unfoldable pub hadoop_catalog : String → List Catalog → Option Catalog
hadoop_catalog name catalogs = elim (catalog_named name catalogs) [
  | none ↦ none
  | some c ↦ if c.catalog_type =ₛ "HADOOP" then some c else none
]

unfoldable pub has_namespace : ℕ → String → List (ℕ × String) → Bool
has_namespace catalog_id name = some_of (λ n. n.0 == catalog_id && n.1 =ₛ name)

abbrev pub new_catalog : (fresh : ℕ) → (name warehouse : String) → Catalog
new_catalog fresh name warehouse = record {
  id = fresh;
  name = name;
  catalog_type = "HADOOP";
  warehouse = some warehouse;
}

-- Registering what is there with the same settings answers with it.
unfoldable pub register_catalog :
    (fresh : ℕ) → (name warehouse : String) → Registry → Outcome RegistryError (Catalog × Registry)
register_catalog fresh name warehouse r = elim (catalog_named name (r.catalogs)) [
  | none ↦ ok (
    new_catalog fresh name warehouse,
    record r { catalogs = r.catalogs ++ new_catalog fresh name warehouse ∷ [] },
  )
  | some c ↦
      if c.catalog_type =ₛ "HADOOP" && text_is warehouse (c.warehouse)
      then ok (c, r)
      else err other_settings
]

abbrev pub with_namespace : ℕ → String → Registry → Registry
with_namespace catalog_id name r =
    if has_namespace catalog_id name (r.namespaces)
    then r
    else record r { namespaces = r.namespaces ++ (catalog_id, name) ∷ [] }

unfoldable pub register_namespace :
    (catalog_name name : String) → Registry → Outcome RegistryError (Catalog × Registry)
register_namespace catalog_name name r = elim (hadoop_catalog catalog_name (r.catalogs)) [
  | none ↦ err catalog_not_found
  | some c ↦ ok (c, with_namespace (c.id) name r)
]

unfoldable pub registered_table_scope :
    (catalog_name namespace_name : String) → Registry → Outcome RegistryError Catalog
registered_table_scope catalog_name namespace_name r =
    elim (hadoop_catalog catalog_name (r.catalogs)) [
      | none ↦ err catalog_not_found
      | some c ↦
          if is_none (c.warehouse)
          then err catalog_not_found
          else if has_namespace (c.id) namespace_name (r.namespaces)
          then ok c
          else err namespace_not_found
    ]

-- `PlaygroundTableBulkRegister`
pub record TableBulkRegister : Type 0 where
  pub catalog_name : String
  pub namespace_name : String
  pub table_names : List String

unfoldable pub inspection_job :
    (fresh now : ℕ)
    → Option String
    → (fingerprint : String) → TableBulkRegister
    → Catalog
    → (actor : String) → BulkJob
inspection_job fresh now key fingerprint request catalog actor = record {
  id = fresh;
  kind = table_inspect;
  state = queued;
  idempotency_key = key;
  request_fingerprint = some fingerprint;
  catalog_id = some (catalog.id);
  namespace_name = some (request.namespace_name);
  command = none;
  parameters = end;
  requested_by = actor;
  total_items = length (request.table_names);
  completed_items = 0;
  succeeded_items = 0;
  failed_items = 0;
  canceled_items = 0;
  started_at = none;
  finished_at = none;
  cancellation_requested_at = none;
  created_at = now;
}

-- One item for each name, in order; `item_ids` gives their identifiers.
unfoldable pub inspection_items :
    (item_ids : ℕ → ℕ) → (job ordinal : ℕ) → List String → List BulkJobItem
inspection_items item_ids job ordinal [] = []
inspection_items item_ids job ordinal (name ∷ names) =
    record {
      id = item_ids ordinal;
      bulk_job_id = job;
      ordinal = ordinal;
      table_name = some name;
      table_id = none;
      operation_request_id = none;
      state = queued;
      result = end;
      error_message = none;
      started_at = none;
      finished_at = none;
    }
    ∷ inspection_items item_ids job (suc ordinal) names

-- The insert of the job is flushed before the guarded commit, so that a key that another request has taken
-- since the read ends in the constraint's own exception.
unfoldable pub insert_inspection :
    (item_ids : ℕ → ℕ)
    → (fresh now : ℕ) → Option String
    → (fingerprint : String) → TableBulkRegister
    → Catalog
    → (actor : String) → Db
    → Outcome RegistryError (BulkJob × Db)
insert_inspection item_ids fresh now key fingerprint request catalog actor db =
    raise_if (not (is_none (job_with_key key (db.jobs)))) broken_constraint
    >> (let job = inspection_job fresh now key fingerprint request catalog actor in
        ok (
          job,
          record db {
            jobs = add job (db.jobs);
            items = db.items ++ inspection_items item_ids fresh 0 (request.table_names);
            audit = audited actor bulk_table_inspection_requested fresh (db.audit);
          },
        ))

-- With `raced`, another request took the key after the read.
unfoldable pub create_inspection :
    (fingerprint_of : TableBulkRegister → String)
    → (item_ids : ℕ → ℕ) → (raced : Bool) → (fresh now : ℕ) → TableBulkRegister
    → Option String
    → (actor : String) → Registry
    → Db
    → Outcome RegistryError (BulkJob × Db)
create_inspection fingerprint_of item_ids raced fresh now request key actor r db =
    registered_table_scope (request.catalog_name) (request.namespace_name) r >>= λ catalog.
    elim (if raced then none else job_with_key key (db.jobs)) [
      | none ↦
          insert_inspection item_ids fresh now key (fingerprint_of request) request catalog actor db
      | some job ↦
          if text_is (fingerprint_of request) (job.request_fingerprint)
          then ok (job, db)
          else err key_reused
    ]
