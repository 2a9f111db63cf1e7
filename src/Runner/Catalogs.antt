-- ===== src/Runner/Catalogs.antt =====
-- `configure_hadoop_catalog` of playground/spark/app/main.py.
use Prim.Native.Char.{code}
use Prim.Native.String.{◌++◌ as ◌+++◌}
use iceberg_rest_catalog.Common.{
  String, Bool, false, ◌&&◌, not, Option, none, some, ok, err, if◌then◌else◌, ◌==◌, ◌=ₛ◌,
}
use iceberg_rest_catalog.Common.Effects.{Run}
use iceberg_rest_catalog.Sql.Runner.{identifier}
use iceberg_rest_catalog.Runner.{SparkApi, RunnerError, bad_request, bad_warehouse, other_warehouse}

-- `rstrip("/")`
unfoldable pub rstrip_slash : String → String
rstrip_slash String.[] = String.[]
rstrip_slash (String.◌∷◌ c s) =
    let rest = rstrip_slash s in
    if rest =ₛ ""
    then (if code c == 47 then String.[] else String.◌∷◌ c rest)
    else String.◌∷◌ c rest

abbrev pub starts_with_slash : String → Bool
starts_with_slash String.[] = false
starts_with_slash (String.◌∷◌ c s) = code c == 47

-- `configured_warehouse is not None and configured_warehouse.rstrip("/") != normalized_warehouse`
unfoldable pub conflicts : Option String → (normalized : String) → Bool
conflicts none normalized = false
conflicts (some configured) normalized = not (rstrip_slash configured =ₛ normalized)

-- `urlparse` gives the scheme and the path of a URI, and `lower` is Python's.
module _ (urlparse : String → String × String) (lower : String → String) {S W : Type 0}
    (spark : SparkApi S W) where
  unfoldable pub absolute_hdfs : (normalized : String) → Bool
  absolute_hdfs normalized =
      lower (urlparse normalized).0 =ₛ "hdfs" && starts_with_slash (urlparse normalized).1

  abbrev pub catalog_key : (catalog : String) → String
  catalog_key catalog = "spark.sql.catalog." +++ catalog

  unfoldable pub set_catalog : S → (catalog normalized : String) → W → W
  set_catalog session catalog normalized w =
      let first =
        spark.conf_set session (catalog_key catalog) "org.apache.iceberg.spark.SparkCatalog" w in
      let second = spark.conf_set session (catalog_key catalog +++ ".type") "hadoop" first in
      spark.conf_set session (catalog_key catalog +++ ".warehouse") normalized second

  -- What follows the check of the catalog's name.
  unfoldable pub configure_named : S → (catalog normalized : String) → Run RunnerError W (Unit {0})
  configure_named session catalog normalized w =
      if not (absolute_hdfs normalized)
      then (err bad_warehouse, w)
      else if conflicts (spark.conf_get session (catalog_key catalog +++ ".warehouse") w) normalized
      then (err (other_warehouse catalog), w)
      else (ok tt, set_catalog session catalog normalized w)

  unfoldable pub configure_hadoop_catalog :
      S → (catalog warehouse : String) → Run RunnerError W (Unit {0})
  configure_hadoop_catalog session catalog warehouse w = elim (identifier catalog) [
    | err e ↦ (err (bad_request e), w)
    | ok name ↦ configure_named session name (rstrip_slash warehouse) w
  ]
