-- ===== src/Persistence/Idempotency.antt =====
-- packages/persistence/src/security.ts: the idempotency records. `beginIdempotency` runs up to four
-- statements, each of which is a function here; `completeIdempotency` and `abandonIdempotency` run
-- one. Left out are the columns `created_at` and `updated_at`, which nothing reads.
pub mod Statements
mod Tests
use canalis.Base.{
  ℕ, ◌+◌, String, Option, none, some, Bool, true, false, not, ◌&&◌, ◌==◌, ltb, leb, if◌then◌else◌,
}
use canalis.Persistence.Clock.{seconds, bounded}

pub data IdempotencyState : Type 0 where
  in_progress : IdempotencyState
  completed : IdempotencyState

abbrev pub is_in_progress : IdempotencyState → Bool
is_in_progress in_progress = true
is_in_progress completed = false

-- A row of `idempotency_records`, less its key.
pub record IdempotencyRecord : Type 0 where
  pub request_hash : String
  pub state : IdempotencyState
  pub response_status : Option ℕ
  pub response_body : Option String
  pub response_content_type : Option String
  pub lease_expires_at : ℕ
  pub expires_at : ℕ

-- Of the owner, the operation and the key.
abbrev pub IdempotencyRecords : Type 0
IdempotencyRecords = String → String → String → Option IdempotencyRecord

-- Who asks for what: the four fields that every call is given.
pub record Identity : Type 0 where
  pub owner_wallet : String
  pub operation : String
  pub idempotency_key : String
  pub request_hash : String

pub record BeginInput : Type 0 where
  pub identity : Identity
  pub lease_seconds : Option ℕ
  pub ttl_seconds : Option ℕ

pub record CompleteInput : Type 0 where
  pub identity : Identity
  pub response_status : ℕ
  pub response_body : String
  pub response_content_type : Option String
  pub ttl_seconds : Option ℕ

pub record IdempotencyReplay : Type 0 where
  pub response_status : ℕ
  pub response_body : String
  pub response_content_type : String

pub data IdempotencyBeginResult : Type 0 where
  acquired : IdempotencyBeginResult
  in_flight : IdempotencyBeginResult
  conflict : IdempotencyBeginResult
  replay : IdempotencyReplay → IdempotencyBeginResult

-- The row of an identity, and a write of it; `none` deletes it.
abbrev pub select : Identity → IdempotencyRecords → Option IdempotencyRecord
select i table = table i.owner_wallet i.operation i.idempotency_key

abbrev pub is_key : Identity → (owner operation key : String) → Bool
is_key i owner operation key =
    i.owner_wallet == owner && i.operation == operation && i.idempotency_key == key

abbrev pub put : Identity → Option IdempotencyRecord → IdempotencyRecords → IdempotencyRecords
put i row table =
    λ owner operation key. if is_key i owner operation key then row else table owner operation key

-- `DELETE ... WHERE expires_at < NOW()`
abbrev pub unexpired : ℕ → Option IdempotencyRecord → Option IdempotencyRecord
unexpired now none = none
unexpired now (some row) = if ltb row.expires_at now then none else some row

unfoldable pub delete_expired : ℕ → IdempotencyRecords → IdempotencyRecords
delete_expired now table = λ owner operation key. unexpired now (table owner operation key)

abbrev pub lease : BeginInput → ℕ
lease input = bounded 30 300 300 input.lease_seconds

abbrev pub ttl : Option ℕ → ℕ
ttl ttl_seconds = bounded 300 172800 86400 ttl_seconds

abbrev pub fresh : ℕ → BeginInput → IdempotencyRecord
fresh now input = record {
  request_hash = input.identity.request_hash;
  state = in_progress;
  response_status = none;
  response_body = none;
  response_content_type = none;
  lease_expires_at = now + seconds (lease input);
  expires_at = now + seconds (ttl input.ttl_seconds);
}

-- `INSERT ... ON CONFLICT DO NOTHING`: whether a row was inserted.
abbrev pub insert_over : ℕ → BeginInput → Option IdempotencyRecord → Bool × Option IdempotencyRecord
insert_over now input none = (true, some (fresh now input))
insert_over now input (some row) = (false, some row)

unfoldable pub insert_record : ℕ → BeginInput → IdempotencyRecords → Bool × IdempotencyRecords
insert_record now input table =
    let (inserted, row) = insert_over now input (select input.identity table) in
    (inserted, put input.identity row table)

-- The rows of this request that are not completed.
abbrev pub is_running : Identity → IdempotencyRecord → Bool
is_running i row = row.request_hash == i.request_hash && is_in_progress row.state

-- The last `UPDATE` of `beginIdempotency`: whether a row was updated.
abbrev pub reclaim_over :
    ℕ → BeginInput → Option IdempotencyRecord → Bool × Option IdempotencyRecord
reclaim_over now input none = (false, none)
reclaim_over now input (some row) =
    if is_running input.identity row && leb row.lease_expires_at now
    then (
      true,
      some (record row {
        lease_expires_at = now + seconds (lease input);
        expires_at = now + seconds (ttl input.ttl_seconds);
      }),
    )
    else (false, some row)

unfoldable pub reclaim_record : ℕ → BeginInput → IdempotencyRecords → Bool × IdempotencyRecords
reclaim_record now input table =
    let (reclaimed, row) = reclaim_over now input (select input.identity table) in
    (reclaimed, put input.identity row table)

abbrev pub default_content_type : String
default_content_type = "application/json; charset=utf-8"

abbrev pub or_default {ℓ} : {A : Type ℓ} → A → Option A → A
or_default fallback none = fallback
or_default fallback (some a) = a

-- What the selected row and the last statement decide.
abbrev pub judge_record :
    ℕ
    → BeginInput
    → IdempotencyRecords
    → Option IdempotencyRecord
    → IdempotencyBeginResult × IdempotencyRecords
judge_record now input table none = (in_flight, table)
judge_record now input table (some current) =
    let (reclaimed, table') = reclaim_record now input table in
    if not (current.request_hash == input.identity.request_hash)
    then (conflict, table)
    else if is_in_progress current.state
    then (if reclaimed then acquired else in_flight, table')
    else (
      replay (record {
        response_status = or_default 200 current.response_status;
        response_body = or_default "" current.response_body;
        response_content_type = or_default default_content_type current.response_content_type;
      }),
      table,
    )

unfoldable pub begin_idempotency :
    ℕ → BeginInput → IdempotencyRecords → IdempotencyBeginResult × IdempotencyRecords
begin_idempotency now input table =
    let kept = delete_expired now table in
    let (inserted, table') = insert_record now input kept in
    let judged = judge_record now input table' (select input.identity table') in
    if inserted then (acquired, table') else judged

abbrev pub complete_over : ℕ → CompleteInput → Option IdempotencyRecord → Option IdempotencyRecord
complete_over now input none = none
complete_over now input (some row) =
    if is_running input.identity row
    then some (record row {
      state = completed;
      response_status = some input.response_status;
      response_body = some input.response_body;
      response_content_type = some (or_default default_content_type input.response_content_type);
      lease_expires_at = now;
      expires_at = now + seconds (ttl input.ttl_seconds);
    })
    else some row

unfoldable pub complete_idempotency : ℕ → CompleteInput → IdempotencyRecords → IdempotencyRecords
complete_idempotency now input table =
    put input.identity (complete_over now input (select input.identity table)) table

abbrev pub abandon_over : Identity → Option IdempotencyRecord → Option IdempotencyRecord
abandon_over i none = none
abandon_over i (some row) = if is_running i row then none else some row

unfoldable pub abandon_idempotency : Identity → IdempotencyRecords → IdempotencyRecords
abandon_idempotency i table = put i (abandon_over i (select i table)) table
