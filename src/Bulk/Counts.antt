-- ===== src/Bulk/Counts.antt =====
-- What `_refresh_bulk_job` makes of a job.
use iceberg_rest_catalog.Common.{
  ℕ, ◌+◌, ◌≤◌, ◌≡◌, ◌≢◌, ◌↔◌, inl, inr, refl, Bool, true, false, Option, none, some, List, [], ◌∷◌,
  arith, Option-cases, length, tally, every,
}
use iceberg_rest_catalog.Common.Rows.{put}
use iceberg_rest_catalog.Store.{State, succeeded, failed, canceled, partial_success, Operation}
use iceberg_rest_catalog.Store.Jobs.{BulkJob, BulkJobItem, Db, operation_row, job_row}
use iceberg_rest_catalog.Bulk.{
  is_terminal, is_succeeded, is_lost, is_canceled, items_of, request_of, refreshed, refresh_items,
  states_of, closed_state, job_state, finished_time, recount, refresh_bulk_job,
}

counts_add :
    (states : List State)
    → tally is_terminal states
      ≡ tally is_succeeded states + tally is_lost states + tally is_canceled states
unfolding is_terminal is_succeeded is_lost is_canceled
counts_add [] = refl
counts_add (s ∷ ss) = ground (arith, counts_add ss)

counts_bound : (states : List State) → tally is_terminal states ≤ length states
counts_bound [] = omega arith
counts_bound (s ∷ ss) = ground (arith, counts_bound ss)

-- The counts of a refreshed job add up, and are at most the number of its items.
pub recount_adds_up :
    (now : ℕ) (states : List State) (job : BulkJob)
    → let j = recount now states job in
      (j.completed_items ≡ j.succeeded_items + j.failed_items + j.canceled_items)
      × (j.completed_items ≤ length states)
unfolding recount
recount_adds_up now states job = (counts_add states, counts_bound states)

bound : (p : State → Bool) (states : List State) → tally p states ≤ length states
bound p [] = omega arith
bound p (s ∷ ss) = ground (arith, bound p ss)

full_every :
    (p : State → Bool) (states : List State)
    → (tally p states ≡ length states) ↔ (every p states ≡ true)
full_every p [] = ((λ e. refl), λ e. refl)
full_every p (s ∷ ss) =
    let b = bound p ss in
    let (there, back) = full_every p ss in
    ((λ e. ground (arith, b, there)), λ e. ground (arith, back))

-- A state in which a job stays.
unfoldable pub is_job_over : State → Bool
is_job_over succeeded = true
is_job_over failed = true
is_job_over canceled = true
is_job_over partial_success = true
is_job_over s = false

closed_over : (states : List State) → is_job_over (closed_state states) ≡ true
unfolding closed_state is_job_over
closed_over states = ground arith

-- A job with items is over exactly when each of its items is.
pub job_state_over :
    (s : State) (ss : List State) → is_job_over (job_state (s ∷ ss)) ≡ every is_terminal (s ∷ ss)
unfolding job_state is_job_over
job_state_over s ss = ground (arith, closed_over (s ∷ ss))

all_succeeded_terminal :
    (states : List State) → every is_succeeded states ≡ true → every is_terminal states ≡ true
unfolding is_succeeded is_terminal
all_succeeded_terminal [] h = refl
all_succeeded_terminal (s ∷ ss) h = ground (arith, all_succeeded_terminal ss)

-- A job has succeeded exactly when it has items and each of them has.
pub job_state_succeeded :
    (states : List State)
    → (job_state states ≡ succeeded) ↔ ((states ≢ []) × (every is_succeeded states ≡ true))
unfolding job_state closed_state
job_state_succeeded [] = ((λ e. cc), λ h. absurd (h.0 refl))
job_state_succeeded (s ∷ ss) =
    let (there, back) = full_every is_succeeded (s ∷ ss) in
    let terminal = all_succeeded_terminal (s ∷ ss) in
    ((λ e. ((λ n. cc), ground (arith, there))), λ h. ground (arith, back, terminal))

same_refreshed :
    (operations : List Operation) (i : BulkJobItem)
    → refreshed operations (refreshed operations i) ≡ refreshed operations i
unfolding refreshed
same_refreshed operations i = elim (Option-cases (request_of operations i)) [
  | inl alone ↦ ground arith
  | inr (op, found) ↦ ground arith
]

same_job :
    (operations : List Operation) (i : BulkJobItem)
    → (refreshed operations i).bulk_job_id ≡ i.bulk_job_id
unfolding refreshed
same_job operations i = ground arith

refresh_twice :
    (job job' : BulkJob) (operations : List Operation) (items : List BulkJobItem)
    → job'.id ≡ job.id
    → refresh_items job' operations (refresh_items job operations items)
      ≡ refresh_items job operations items
unfolding refresh_items
refresh_twice job job' operations [] h = refl
refresh_twice job job' operations (i ∷ is) h = ground (
  arith,
  refresh_twice job job' operations is h,
  same_refreshed operations i,
  same_job operations i,
)

put_twice : (job : BulkJob) (jobs : List BulkJob) → put job (put job jobs) ≡ put job jobs
unfolding put
put_twice job [] = refl
put_twice job (j ∷ js) = ground (arith, put_twice job js)

same_items :
    (job job' : BulkJob) (items : List BulkJobItem)
    → job'.id ≡ job.id
    → items_of job' items ≡ items_of job items
unfolding items_of
same_items job job' items h = rw h refl

same_time :
    (now later : ℕ) (before : Option ℕ) (states : List State)
    → finished_time later (finished_time now before states) states ≡ finished_time now before states
unfolding finished_time
same_time now later before [] = refl
same_time now later none (s ∷ ss) = ground arith
same_time now later (some t) (s ∷ ss) = ground arith

same_recount :
    (now later : ℕ) (states : List State) (job : BulkJob)
    → recount later states (recount now states job) ≡ recount now states job
unfolding recount
same_recount now later states job = simp (same_time now later job.finished_at states)

-- To refresh a job again at any later time, with no other write in between, changes nothing.
pub refresh_bulk_job-again :
    (now later : ℕ) (job : BulkJob) (db : Db)
    → let (job', db') = refresh_bulk_job now job db in refresh_bulk_job later job' db' ≡ (job', db')
unfolding refresh_bulk_job
refresh_bulk_job-again now later job db =
    let items = refresh_items job db.operations db.items in
    let states = states_of (items_of job items) in
    let job' = recount now states job in
    let key : job'.id ≡ job.id = unfold recount in refl in
    simp (
      refresh_twice job job' db.operations db.items key,
      same_items job job' items key,
      same_recount now later states job,
      put_twice job' db.jobs,
    )
