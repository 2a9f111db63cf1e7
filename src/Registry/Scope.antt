-- ===== src/Registry/Scope.antt =====
-- What has been registered is found again.
use iceberg_rest_catalog.Common.{
  ℕ, String, ◌≡◌, ◌≢◌, true, none, List, [], ◌∷◌, ◌++◌, ok, arith, Bool-cases, Option-cases, inl,
  inr, ==_iff, eq_refl,
}
use iceberg_rest_catalog.Store.{Catalog}
use iceberg_rest_catalog.Registry.{
  Registry, hadoop_catalog, has_namespace, with_namespace, register_namespace,
  registered_table_scope,
}

has_namespace-append :
    (id : ℕ) (name : String) (ns : List (ℕ × String))
    → has_namespace id name (ns ++ (id, name) ∷ []) ≡ true
unfolding has_namespace
has_namespace-append id name [] = ground (arith, eq_refl name, (==_iff id id))
has_namespace-append id name (n ∷ ns) = ground (arith, has_namespace-append id name ns)

with_namespace-has :
    (id : ℕ) (name : String) (r : Registry)
    → has_namespace id name (with_namespace id name r).namespaces ≡ true
with_namespace-has id name r = elim (Bool-cases (has_namespace id name (r.namespaces))) [
  | inl there ↦ rw there there
  | inr missing ↦ rw missing (has_namespace-append id name (r.namespaces))
]

with_namespace_catalogs :
    (id : ℕ) (name : String) (r : Registry) → (with_namespace id name r).catalogs ≡ r.catalogs
with_namespace_catalogs id name r = ground arith

-- A namespace that was registered in a catalog with a warehouse is a scope for tables, of that catalog.
pub register_namespace-scope :
    (catalog_name name : String) (r r' : Registry) (c : Catalog)
    → register_namespace catalog_name name r ≡ ok (c, r')
    → c.warehouse ≢ none
    → registered_table_scope catalog_name name r' ≡ ok c
unfolding register_namespace registered_table_scope
register_namespace-scope catalog_name name r r' c h w =
    elim (Option-cases (hadoop_catalog catalog_name (r.catalogs))) [
      | inl missing ↦ absurd (ground (arith, missing, h))
      | inr (k, found) ↦ ground (
        arith,
        found,
        h,
        w,
        with_namespace-has (k.id) name r,
        with_namespace_catalogs (k.id) name r,
      )
    ]
