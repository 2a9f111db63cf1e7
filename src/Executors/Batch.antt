-- ===== src/Executors/Batch.antt =====
-- `batch_payload` of `LivyBatchExecutor`: the submission of the Spark job.
use Prim.Native.String.{◌++◌ as ◌+++◌}
use iceberg_rest_catalog.Common.{
  ℕ, String, Option, none, some, List, [], ◌∷◌, Outcome, ok, err, ◌>>=◌, if◌then◌else◌, ◌=ₛ◌,
}
use iceberg_rest_catalog.Common.Int.{pos}
use iceberg_rest_catalog.Json.{Items, Fields, text, int, obj, arr, nil, cons, field, end, put_field}
use iceberg_rest_catalog.Text.{decimal}
use iceberg_rest_catalog.Worker.{Payload}
use iceberg_rest_catalog.Sql.{command_text}
use iceberg_rest_catalog.Sql.Job.{is_identifier}
use iceberg_rest_catalog.Executors.{ExecutorSettings, ExecutorError, unsupported_catalog}

abbrev pub args_of : List String → Items
args_of [] = nil
args_of (a ∷ args) = cons (text a) (args_of args)

-- `if payload.get("expected_snapshot_id") is not None`
unfoldable pub snapshot_arguments : Option ℕ → List String
snapshot_arguments none = []
snapshot_arguments (some snapshot) = "--expected-snapshot-id" ∷ decimal snapshot ∷ []

-- `id_text` is the text of an identifier, `dumps` that of an object: keys in order, no spaces.
module _ (id_text : ℕ → String) (dumps : Fields → String) where
  unfoldable pub arguments : Payload → List String
  arguments payload =
      "--operation-id"
      ∷ id_text (payload.operation_id)
      ∷ "--catalog"
      ∷ payload.catalog
      ∷ "--namespace"
      ∷ payload.namespace_name
      ∷ "--table"
      ∷ payload.table
      ∷ "--command"
      ∷ command_text (payload.command)
      ∷ "--parameters-json"
      ∷ dumps (payload.parameters)
      ∷ snapshot_arguments (payload.expected_snapshot_id)

  -- A warehouse that is missing or empty configures nothing.
  unfoldable pub hadoop_warehouse : Payload → Option String
  hadoop_warehouse payload = elim (payload.warehouse) [
    | none ↦ none
    | some warehouse ↦
        if payload.catalog_type =ₛ "HADOOP"
        then (if warehouse =ₛ "" then none else some warehouse)
        else none
  ]

  unfoldable pub catalog_conf : (catalog warehouse : String) → Fields → Fields
  catalog_conf catalog warehouse conf =
      let prefix = "spark.sql.catalog." +++ catalog in
      put_field (prefix +++ ".warehouse") (text warehouse) (
        put_field (prefix +++ ".type") (text "hadoop")
          (put_field prefix (text "org.apache.iceberg.spark.SparkCatalog") conf))

  unfoldable pub batch_conf : ExecutorSettings → Payload → Outcome ExecutorError Fields
  batch_conf s payload = elim (hadoop_warehouse payload) [
    | none ↦ ok (s.livy_conf)
    | some warehouse ↦
        if is_identifier (payload.catalog)
        then ok (catalog_conf (payload.catalog) warehouse (s.livy_conf))
        else err (unsupported_catalog (payload.catalog))
  ]

  abbrev pub text_option : (key : String) → Option String → Fields → Fields
  text_option key none batch = batch
  text_option key (some value) batch = field key (text value) batch

  abbrev pub number_option : (key : String) → Option ℕ → Fields → Fields
  number_option key none batch = batch
  number_option key (some value) batch = field key (int (pos value)) batch

  unfoldable pub options_of : ExecutorSettings → Fields
  options_of s = text_option "proxyUser" (s.livy_proxy_user) (
      text_option "queue" (s.livy_queue) (
        text_option "driverMemory" (s.livy_driver_memory) (
          number_option "driverCores" (s.livy_driver_cores) (
            text_option "executorMemory" (s.livy_executor_memory) (
              number_option "executorCores" (s.livy_executor_cores)
                (number_option "numExecutors" (s.livy_num_executors) end))))))

  unfoldable pub batch_payload : ExecutorSettings → Payload → Outcome ExecutorError Fields
  batch_payload s payload = batch_conf s payload >>= λ conf. ok (
      field "file" (text (s.livy_job_file)) (
        field "args" (arr (args_of (arguments payload))) (
          field "name" (text ("iceberg-ops-" +++ id_text (payload.operation_id)))
            (field "conf" (obj conf) (options_of s)))))
