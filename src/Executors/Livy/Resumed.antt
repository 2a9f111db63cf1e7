-- ===== src/Executors/Livy/Resumed.antt =====
-- The identifier under which a submission is recorded names the batch again when the execution is resumed.
use iceberg_rest_catalog.Common.{ℕ, ◌≡◌, some}
use iceberg_rest_catalog.Common.Int.{pos}
use iceberg_rest_catalog.Text.{int_text, decimal}
use iceberg_rest_catalog.Text.Laws.{after_prefix-append, read_decimal-decimal}
use iceberg_rest_catalog.Executors.Livy.{external_id, batch_of}

-- Livy's batch is found again from the external identifier that was recorded at its submission.
pub batch_of-external_id : (n : ℕ) → batch_of (external_id (int_text (pos n))) ≡ some n
unfolding batch_of external_id int_text
batch_of-external_id n =
    rw (batch_of, external_id, int_text, after_prefix-append "livy-batch:" (decimal n))
      (read_decimal-decimal n)
