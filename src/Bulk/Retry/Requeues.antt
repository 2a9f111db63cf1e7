-- ===== src/Bulk/Retry/Requeues.antt =====
-- What a bulk retry does with the requests.
use iceberg_rest_catalog.Store.Jobs.{table_row, operation_row, lock_row, job_row, item_row}
