-- ===== src/Lib.antt =====
-- Iceberg Ops Console: the backend that takes maintenance requests for Iceberg tables, has them
-- approved, and runs them on Spark, one at a time for each table.
--
-- The parts. The services of backend/app/services.py create, approve, retry and cancel requests and
-- bulk jobs; the operation worker of backend/app/worker.py claims queued requests, hands them to an
-- executor and records how they end; the bulk worker of backend/app/bulk_worker.py inspects tables.
-- They meet only in the database of backend/app/models.py: a request in a state, and a lock on its
-- table with uniqueness constraints. An executor of backend/app/executors.py has the maintenance done,
-- through Livy by the job of spark-jobs/iceberg_maintenance.py, or by the runner of
-- playground/spark/app/main.py, and reads back what was done.
--
-- The files.
--   Common           Boolean tests, lists, integers, rows by primary key, exceptions as values
--   Json             documents (`dict[str, Any]`) and the reads of them; Json/Equality is Python's
--                    `==` and `>`; Json/Redact is `redact_metric_payload`
--   Params           commands, engines, risks, `validate_parameters`
--   Store            the tables; Store/Jobs has bulk jobs and the whole database `Db`, Store/Locks the
--                    constraints of `OperationTableLock`
--   Plan             `plan_table`
--   Requests         what the services share; Requests/Create, Requests/Decide and Requests/Cancel are
--                    `create_operation`, `decide_operation`, `retry_operation` and `cancel_operation`
--   Bulk             `_refresh_bulk_job`, `bulk_job`, `bulk_jobs`; Bulk/Create, Bulk/Cancel and
--                    Bulk/Retry are `create_operations`, `cancel_bulk_job` and
--                    `retry_failed_bulk_job`; Bulk/Inspect is backend/app/bulk_worker.py
--   Verify           `verify_result` of backend/app/worker.py
--   Worker           Worker/Claim is `claim_operation`, Worker/Marks the functions `mark_…`,
--                    Worker/Run `execute_claim`, Worker/Recover `recover_stale_executions`
--   Text             Python's `str` of a number, `int`, `split`, `join` and `find` on texts
--   Sql              the procedure calls: Sql/Job is `procedure_sql` of
--                    spark-jobs/iceberg_maintenance.py, Sql/Runner that of
--                    playground/spark/app/main.py
--   Executors        backend/app/executors.py: Executors/Batch is `batch_payload`, Executors/Logs
--                    `logs` and `result_from_logs`, Executors/Livy the executor for Livy,
--                    Executors/Playground that for the playground
--   Pages            `operation_page`, `table_page` and their cursors, of backend/app/services.py
--   Console          `operation_plan`, `worker_status` and the counts of `dashboard`, of the same
--                    file; Console/Heartbeats is `heartbeat` of backend/app/worker.py
--   SparkJob         `main` of spark-jobs/iceberg_maintenance.py
--   Registry         backend/app/routers/playground.py: the registration of catalogs and namespaces, and
--                    the jobs of bulk inspection
--   Runner           playground/spark/app/main.py: Runner/Session is `get_spark`, Runner/Catalogs
--                    `configure_hadoop_catalog`, Runner/Execute `execute_operation`, Runner/Inspect
--                    `query` and `inspect_tables`
--   System           the transactions as a step relation on the database and the worker's claim, and
--                    the invariant of its interleavings
--   Examples         sample data, and an instance of each result
--
-- How the model stands to the code. A service or a `mark_…` function is one transaction: a function
-- from the database to the database that it commits, or to an exception, after which nothing is
-- written. The services on one request lock its row (`with_for_update`), so that they do not overlap;
-- what is read without a lock can be stale. A flag `raced` says that the row in question was committed
-- by another transaction after the read, so that only the constraint finds it. `cancel_bulk_job` reads
-- requests without a lock, and `seen` gives the version of a row that it read. `claim_operation` passes
-- over locked rows and reads the lock of the table twice; `Others` says which rows are locked and what
-- is committed in between. What `retry_failed_bulk_job` reads is taken to be current.
-- `execute_claim` is four transactions, with an arbitrary function `env` for what the others commit in
-- between. Identifiers (UUIDs) and times are natural numbers; a fresh identifier is an argument, and
-- that it is fresh a premise. Loops run over lists and recursion is structural, but for the
-- executor's wait.
-- The executors are functions from a world (the service they talk to, the callbacks, the clock) to
-- how the run ends and the world after it. The wait for a batch runs on fuel: one round more than the
-- polls that cover the timeout is enough when the clock runs; the reading of a log takes no more rounds
-- than it may have lines. The callbacks of an executor can raise.
-- The small-file ratio is in hundred-thousandths, as its column has five decimals.
--
-- Parameters: the fingerprint of a request (a digest of its JSON text), the derived keys of a bulk
-- request, `str.upper` and `str.casefold`, `int(…)` on texts and on numbers with a fraction, the texts
-- of exceptions, the end of an executor's run, the inspection of a table, the text of a time so many hours
-- back, and, of the executors, the service, the clock, `str`, `json.dumps` and the decoding of a result.
--
-- Not modelled: the texts and details of events and of audit entries, the polling loops,
-- the queries that only read (lists, metrics, details), the HTTP layer, and of the Spark jobs
-- what they ask Spark for. The runner's requests run one at a time, as its lock has it. A value that
-- is no natural number in a count of a table is taken to fail at the commit.
-- Foreign keys are taken to hold: where the code would read through a missing table, the model ends
-- in an exception. Numbers with a fraction are texts, which the model tells apart and does not order.
-- The invariant of System is stated for one worker and the transactions of System.Step, which leave out
-- the bulk worker, as it writes no request and no lock. Four kinds of steps have a condition (`IsCalm`),
-- where the code relies on what it has not locked.
pub mod Common
pub mod Json
pub mod Params
pub mod Text
pub mod Sql
pub mod Executors
pub mod Pages
pub mod Console
pub mod Runner
pub mod SparkJob
pub mod Registry
pub mod Store
pub mod Plan
pub mod Requests
pub mod Verify
pub mod Worker
pub mod Bulk
pub mod System
pub mod Examples
