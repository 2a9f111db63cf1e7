-- ===== src/Pages.antt =====
-- The pages of backend/app/services.py: `encode_cursor`, `decode_cursor`, `operation_page`, `table_page`, and
-- the readings `operation_plan`, `worker_status` and `dashboard`.
pub mod Order
pub mod Cursor
pub mod Walk
use Prim.Native.Char.{Char, char, code}
use Prim.Native.String.{◌++◌ as ◌+++◌}
use iceberg_rest_catalog.Common.{
  ℕ, zero, suc, ◌+◌, String, Bool, true, false, ◌&&◌, ◌||◌, not, Option, none, some, List, [], ◌∷◌,
  ◌++◌, Outcome, ok, err, ◌>>=◌, ◌>>◌, raise_if, or_raise, if◌then◌else◌, ltb, ◌==◌, ◌=ₛ◌, length,
  take, keep, one_of,
}
use iceberg_rest_catalog.Store.{
  State, pending, planning, waiting_approval, queued, running, verifying, cancel_requested,
  succeeded, failed, rejected, canceled, partial_success, Health, healthy, warning, critical,
  unknown, ManagedTable, Operation,
}
use iceberg_rest_catalog.Requests.{ServiceError, bad_cursor, bad_health}

-- What a page is ordered by: the newest first, and among those of one time the greatest identifier.
pub record Dated {ℓ} (A : Type ℓ) : Type ℓ where
  pub created_at : A → ℕ
  pub key : A → ℕ

-- `created_at < cursor.created_at`, or equal and `id < cursor.id`: after the cursor in that order.
unfoldable pub is_after : (cursor : ℕ × ℕ) → (row : ℕ × ℕ) → Bool
is_after (time, id) (created_at, key) = ltb created_at time || created_at == time && ltb key id

module _ {A : Type 0} ⦃dated : Dated A⦄ where
  abbrev pub stamp : A → ℕ × ℕ
  stamp row = (dated.created_at row, dated.key row)

  unfoldable pub insert : A → List A → List A
  insert row [] = row ∷ []
  insert row (other ∷ rows) =
      let later = insert row rows in
      if is_after (stamp other) (stamp row) then other ∷ later else row ∷ other ∷ rows

  -- `order_by(created_at.desc(), id.desc())`
  unfoldable pub ordered : List A → List A
  ordered [] = []
  ordered (row ∷ rows) = insert row (ordered rows)

  unfoldable pub past_cursor : Option (ℕ × ℕ) → A → Bool
  past_cursor none row = true
  past_cursor (some cursor) row = is_after cursor (stamp row)

  -- The last row of a page, if the page has one.
  unfoldable pub last_stamp : List A → Option (ℕ × ℕ)
  last_stamp [] = none
  last_stamp (row ∷ []) = some (stamp row)
  last_stamp (row ∷ other ∷ rows) = last_stamp (other ∷ rows)

-- `OperationPage` and `TablePage`, with the rows whose columns the API copies.
pub record Page (A : Type 0) : Type 0 where
  pub items : List A
  pub has_more : Bool
  pub next_cursor : Option String

-- `isoformat` and its reading, a UUID's text and its reading, and base64 for URLs without its padding.
pub record CursorTexts : Type 0 where
  pub iso_text : ℕ → String
  pub read_iso : String → Option ℕ
  pub id_text : ℕ → String
  pub read_id : String → Option ℕ
  pub to_base64 : String → String
  pub from_base64 : String → Option String

-- `split("|", 1)`, if the bar is there
unfoldable pub split_bar : String → Option (String × String)
split_bar String.[] = none
split_bar (String.◌∷◌ c s) = elim (code c == 124) [
  | true ↦ some (String.[], s)
  | false ↦ elim (split_bar s) [ none ↦ none | some parts ↦ some (String.◌∷◌ c parts.0, parts.1) ]
]

abbrev pub both : Option ℕ → Option ℕ → Option (ℕ × ℕ)
both (some time) (some id) = some (time, id)
both _ _ = none

abbrev pub read_parts : CursorTexts → Option (String × String) → Option (ℕ × ℕ)
read_parts t none = none
read_parts t (some parts) = both (t.read_iso parts.0) (t.read_id parts.1)

abbrev pub read_raw : CursorTexts → Option String → Option (ℕ × ℕ)
read_raw t none = none
read_raw t (some raw) = read_parts t (split_bar raw)

module _ (t : CursorTexts) where
  unfoldable pub encode_cursor : ℕ × ℕ → String
  encode_cursor (created_at, id) = t.to_base64 (t.iso_text created_at +++ "|" +++ t.id_text id)

  unfoldable pub decode_cursor : String → Outcome ServiceError (ℕ × ℕ)
  decode_cursor value = or_raise (read_raw t (t.from_base64 value)) bad_cursor

  -- `if cursor:`, where an empty text counts as none
  unfoldable pub cursor_of : Option String → Outcome ServiceError (Option (ℕ × ℕ))
  cursor_of none = ok none
  cursor_of (some cursor) =
      if cursor =ₛ "" then ok none else decode_cursor cursor >>= λ decoded. ok (some decoded)

  module _ {A : Type 0} ⦃dated : Dated A⦄ where
    -- One row more than the limit is read, to see whether there is a next page.
    unfoldable pub page_of : (limit : ℕ) → (rows : List A) → Page A
    page_of limit rows =
        let read = take (limit + 1) rows in
        record {
          items = take limit read;
          has_more = ltb limit (length read);
          next_cursor =
              if ltb limit (length read)
              then (elim (last_stamp (take limit read)) [
                | none ↦ none
                | some last ↦ some (encode_cursor last)
              ])
              else none;
        }

    unfoldable pub page_after :
        (limit : ℕ) → (cursor : Option String) → (rows : List A) → Outcome ServiceError (Page A)
    page_after limit cursor rows =
        cursor_of cursor >>= λ from. ok (page_of limit (ordered (keep (past_cursor from) rows)))

instance abbrev pub operation_dated : Dated Operation
operation_dated = record { created_at = λ op. op.created_at; key = λ op. op.id }

instance abbrev pub table_dated : Dated ManagedTable
table_dated = record { created_at = λ table. table.created_at; key = λ table. table.id }

unfoldable pub state_text : State → String
state_text pending = "PENDING"
state_text planning = "PLANNING"
state_text waiting_approval = "WAITING_APPROVAL"
state_text queued = "QUEUED"
state_text running = "RUNNING"
state_text verifying = "VERIFYING"
state_text cancel_requested = "CANCEL_REQUESTED"
state_text succeeded = "SUCCEEDED"
state_text failed = "FAILED"
state_text rejected = "REJECTED"
state_text canceled = "CANCELED"
state_text partial_success = "PARTIAL_SUCCESS"

unfoldable pub health_text : Health → String
health_text healthy = "HEALTHY"
health_text warning = "WARNING"
health_text critical = "CRITICAL"
health_text unknown = "UNKNOWN"

-- `if wanted:`: an empty text filters nothing.
abbrev pub passes_filter : Option String → (String → Bool) → Bool
passes_filter none test = true
passes_filter (some wanted) test = wanted =ₛ "" || test wanted

-- `upper`, `strip` and the database's `ilike` are parameters.
module _ (t : CursorTexts) (upper strip : String → String)
    (ilike : (value pattern : String) → Bool) where
  unfoldable pub operation_wanted :
      (state catalog : Option String)
      → (table_of : Operation → Option ManagedTable) → Operation
      → Bool
  operation_wanted state catalog table_of op =
      passes_filter state (λ wanted. state_text (op.state) =ₛ upper wanted)
      && passes_filter catalog (λ wanted. elim (table_of op) [
        | none ↦ false
        | some table ↦ table.catalog.name =ₛ wanted
      ])

  unfoldable pub operation_page :
      (limit : ℕ)
      → (cursor state catalog : Option String) → (table_of : Operation → Option ManagedTable)
      → List Operation
      → Outcome ServiceError (Page Operation)
  operation_page limit cursor state catalog table_of operations =
      page_after t limit cursor (keep (operation_wanted state catalog table_of) operations)

  unfoldable pub table_wanted : (query catalog health : Option String) → ManagedTable → Bool
  table_wanted query catalog health table =
      passes_filter query (λ wanted.
        strip wanted =ₛ ""
        || ilike (table.namespace_name +++ "." +++ table.table_name) ("%" +++ strip wanted +++ "%"))
      && passes_filter catalog (λ wanted. table.catalog.name =ₛ wanted)
      && passes_filter health (λ wanted. health_text (table.health) =ₛ upper wanted)

  abbrev pub health_names : List String
  health_names = "HEALTHY" ∷ "WARNING" ∷ "CRITICAL" ∷ "UNKNOWN" ∷ []

  unfoldable pub table_page :
      (limit : ℕ)
      → (cursor query catalog health : Option String) → List ManagedTable
      → Outcome ServiceError (Page ManagedTable)
  table_page limit cursor query catalog health tables =
      raise_if (not (passes_filter health (λ wanted. one_of (upper wanted) health_names)))
        bad_health
      >> page_after t limit cursor (keep (table_wanted query catalog health) tables)
