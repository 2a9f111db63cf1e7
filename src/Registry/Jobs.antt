-- ===== src/Registry/Jobs.antt =====
-- The jobs of bulk inspection: their items, and what a repeated request is answered.
use iceberg_rest_catalog.Common.{
  ℕ, suc, String, ◌≡◌, false, Option, some, List, [], ◌∷◌, ok, refl, ap, length, eq_refl,
}
use iceberg_rest_catalog.Store.{Catalog}
use iceberg_rest_catalog.Store.Jobs.{BulkJob, Db}
use iceberg_rest_catalog.Bulk.Create.{job_with_key}
use iceberg_rest_catalog.Registry.{
  Registry, TableBulkRegister, inspection_items, registered_table_scope, create_inspection,
}

-- A job has an item for each name.
pub length-inspection_items :
    (item_ids : ℕ → ℕ) (job ordinal : ℕ) (names : List String)
    → length (inspection_items item_ids job ordinal names) ≡ length names
unfolding inspection_items
length-inspection_items item_ids job ordinal [] = refl
length-inspection_items item_ids job ordinal (name ∷ names) =
    ap suc (length-inspection_items item_ids job (suc ordinal) names)

-- A request with a key whose job was made for the same request is answered with that job, and writes nothing.
pub create_inspection-repeat :
    (fingerprint_of : TableBulkRegister → String) (item_ids : ℕ → ℕ) (fresh now : ℕ)
    (request : TableBulkRegister) (key : Option String) (actor : String) (r : Registry) (db : Db)
    (catalog : Catalog) (job : BulkJob)
    → registered_table_scope (request.catalog_name) (request.namespace_name) r ≡ ok catalog
    → job_with_key key (db.jobs) ≡ some job
    → job.request_fingerprint ≡ some (fingerprint_of request)
    → create_inspection fingerprint_of item_ids false fresh now request key actor r db
      ≡ ok (job, db)
unfolding create_inspection
create_inspection-repeat fingerprint_of item_ids fresh now request key actor r db catalog job scope
      keyed same =
    rw (create_inspection, scope, keyed, same, eq_refl (fingerprint_of request))
