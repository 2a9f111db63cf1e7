-- ===== src/Bulk/Create/Members.antt =====
-- What `create_operations` writes.
use iceberg_rest_catalog.Common.{
  ℕ, suc, String, ◌≡◌, refl, sym, ◌∙◌, not, Option, some, List, [], ◌∷◌, ok, arith, or_raise,
  raise_if, >>=-eq-ok, is_none, length, ◌++◌, ap,
}
use mathlib.Core.List.{append-nil, append_assoc}
use iceberg_rest_catalog.Common.Rows.{find, add, key-find}
use iceberg_rest_catalog.Params.{engine_capable}
use iceberg_rest_catalog.Store.{waiting_approval, Operation}
use iceberg_rest_catalog.Store.Jobs.{
  BulkJob, BulkJobItem, Db, table_row, operation_row, job_row, item_row,
}
use iceberg_rest_catalog.Requests.{
  table_not_found, not_supported, not_executable, integrity_error, planned,
}
use iceberg_rest_catalog.Requests.Create.{with_key, new_operation}
use iceberg_rest_catalog.Bulk.Create.{
  RequestBulkCreate, derived_key, single, member_row, item_row_of, write_member, create_member,
  create_members, job_with_key, all_found, new_job, insert_operations,
}

-- A request and an item of a bulk job, for one table.
pub record IsMember (request : RequestBulkCreate) (job ordinal t : ℕ) (op : Operation)
    (i : BulkJobItem) : Type 0 where
  pub for_table : op.table_id ≡ t
  pub command : op.command ≡ request.command
  pub by : op.requester ≡ request.requester
  pub waits : op.state ≡ waiting_approval
  pub of_job : op.bulk_job_id ≡ some job
  pub item_table : i.table_id ≡ some t
  pub item_request : i.operation_request_id ≡ some op.id
  pub item_job : i.bulk_job_id ≡ job
  pub item_ordinal : i.ordinal ≡ ordinal
  pub item_waits : i.state ≡ waiting_approval

-- A request and an item for each table, in the tables' order, the items numbered.
pub data Members (request : RequestBulkCreate) (job : ℕ)
    : ℕ → List ℕ → List Operation → List BulkJobItem → Type 0 where
  no_more : {n : ℕ} → Members request job n [] [] []
  one_more :
      {n t : ℕ} {ts : List ℕ} {op : Operation} {ops : List Operation} {i : BulkJobItem}
      {is : List BulkJobItem}
      → IsMember request job n t op i
      → Members request job (suc n) ts ops is
      → Members request job n (t ∷ ts) (op ∷ ops) (i ∷ is)

-- The members were added behind what was there, and no lock, execution or table was touched.
pub record Grown (request : RequestBulkCreate) (job ordinal : ℕ) (ts : List ℕ) (db db' : Db)
    : Type 0 where
  pub ops : List Operation
  pub items : List BulkJobItem
  pub members : Members request job ordinal ts ops items
  pub more_requests : db'.operations ≡ db.operations ++ ops
  pub more_items : db'.items ≡ db.items ++ items
  pub same_locks : db'.locks ≡ db.locks
  pub same_executions : db'.executions ≡ db.executions
  pub same_tables : db'.tables ≡ db.tables

joined :
    (request : RequestBulkCreate) (job n t : ℕ) (ts : List ℕ) (os os' : List Operation)
    (is is' : List BulkJobItem)
    → Members request job n (t ∷ []) os is
    → Members request job (suc n) ts os' is'
    → Members request job n (t ∷ ts) (os ++ os') (is ++ is')
joined request job n t ts os os' is is' (one_more m no_more) rest = one_more m rest

module _ (item_key : String → ℕ → String) (op_ids item_ids : ℕ → ℕ) where
  member-Grown :
      (now job ordinal : ℕ) (key : Option String) (fingerprint : String)
      (request : RequestBulkCreate) (t : ℕ) (db db' : Db)
      → create_member item_key op_ids item_ids now job ordinal key fingerprint request t db ≡ ok db'
      → Grown request job ordinal (t ∷ []) db db'
  unfolding create_member write_member add member_row item_row_of new_operation single
  member-Grown now job ordinal key fingerprint request t db db' h =
      let (table, found, h₁) = >>=-eq-ok (or_raise (find t db.tables) table_not_found) _ h in
      let (plan, _, h₂) = >>=-eq-ok (planned table request.command request.parameters) _ h₁ in
      let (_, _, h₃) = >>=-eq-ok (raise_if (not plan.executable) not_executable) _ h₂ in
      let (_, _, h₄) =
        >>=-eq-ok
          (raise_if
            (not (
              is_none (with_key (derived_key item_key op_ids item_ids key table.id) db.operations)))
            integrity_error)
          _ h₃ in
      let its_key : table.id ≡ t = ground (arith, found, key-find t db.tables table) in
      let same : write_member item_key op_ids item_ids now job ordinal key fingerprint request table
            plan db
          ≡ db' =
        cc h₄ in
      rw (sym same) (record {
        ops =
            member_row item_key op_ids item_ids now job ordinal key fingerprint request table plan
            ∷ [];
        items = item_row_of item_key op_ids item_ids job ordinal table ∷ [];
        members =
            one_more
              (record {
                for_table = its_key;
                command = refl;
                by = refl;
                waits = refl;
                of_job = refl;
                item_table = ap some its_key;
                item_request = refl;
                item_job = refl;
                item_ordinal = refl;
                item_waits = refl;
              })
              no_more;
        more_requests = refl;
        more_items = refl;
        same_locks = refl;
        same_executions = refl;
        same_tables = refl;
      })

  members-Grown :
      (now job ordinal : ℕ) (key : Option String) (fingerprint : String)
      (request : RequestBulkCreate) (ts : List ℕ) (db db' : Db)
      → create_members item_key op_ids item_ids now job ordinal key fingerprint request ts db
        ≡ ok db'
      → Grown request job ordinal ts db db'
  unfolding create_members
  members-Grown now job ordinal key fingerprint request [] db db' h =
      let same : db ≡ db' = ground arith in
      rw (sym same) (record {
        ops = [];
        items = [];
        members = no_more;
        more_requests = sym (append-nil db.operations);
        more_items = sym (append-nil db.items);
        same_locks = refl;
        same_executions = refl;
        same_tables = refl;
      })
  members-Grown now job ordinal key fingerprint request (t ∷ ts) db db' h =
      let (db₁, one, more) =
        >>=-eq-ok
          (create_member item_key op_ids item_ids now job ordinal key fingerprint request t db) _
          h in
      let a = member-Grown now job ordinal key fingerprint request t db db₁ one in
      let b = members-Grown now job (suc ordinal) key fingerprint request ts db₁ db' more in
      record {
        ops = a.ops ++ b.ops;
        items = a.items ++ b.items;
        members = joined request job ordinal t ts a.ops b.ops a.items b.items a.members b.members;
        more_requests =
            b.more_requests
            ∙ (ap (λ os. os ++ b.ops) a.more_requests ∙ append_assoc db.operations a.ops b.ops);
        more_items =
            b.more_items
            ∙ (ap (λ os. os ++ b.items) a.more_items ∙ append_assoc db.items a.items b.items);
        same_locks = b.same_locks ∙ a.same_locks;
        same_executions = b.same_executions ∙ a.same_executions;
        same_tables = b.same_tables ∙ a.same_tables;
      }

  -- A bulk creation that commits has added, in the order of the tables that were asked for, a request
  -- of the job for each of them, which waits for approval, and an item that names the table, that
  -- request and its own ordinal; the job counts as many; and it has touched no lock, no execution and
  -- no table.
  pub insert_operations-Grown :
      (fresh now : ℕ) (key : Option String) (fingerprint : String) (request : RequestBulkCreate)
      (db : Db) (ops : List Operation) (job : BulkJob) (db' : Db)
      → insert_operations item_key op_ids item_ids fresh now key fingerprint request db
        ≡ ok ((ops, job), db')
      → Grown request fresh 0 request.table_ids db db'
        × (job.total_items ≡ length request.table_ids)
  unfolding insert_operations new_job
  insert_operations-Grown fresh now key fingerprint request db ops job db' h =
      let (_, _, h₁) =
        >>=-eq-ok
          (raise_if (not (engine_capable request.preferred_engine request.command)) not_supported) _
          h in
      let (_, _, h₂) =
        >>=-eq-ok (raise_if (not (all_found db.tables request.table_ids)) table_not_found) _ h₁ in
      let (_, _, h₃) =
        >>=-eq-ok (raise_if (not (is_none (job_with_key key db.jobs))) integrity_error) _ h₂ in
      let new = new_job item_key op_ids item_ids fresh now key fingerprint request in
      let db₀ : Db = record db { jobs = add new db.jobs } in
      let (db₁, made, h₄) =
        >>=-eq-ok
          (create_members item_key op_ids item_ids now fresh 0 key fingerprint request
            request.table_ids db₀)
          _ h₃ in
      let g = members-Grown now fresh 0 key fingerprint request request.table_ids db₀ db₁ made in
      let same_db : db₁ ≡ db' = ground arith in
      let same_job : new ≡ job = ground arith in
      (
        rw (sym same_db) (record {
          ops = g.ops;
          items = g.items;
          members = g.members;
          more_requests = g.more_requests;
          more_items = g.more_items;
          same_locks = g.same_locks;
          same_executions = g.same_executions;
          same_tables = g.same_tables;
        }),
        rw (sym same_job) refl,
      )
