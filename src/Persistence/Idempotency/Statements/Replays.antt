-- ===== src/Persistence/Idempotency/Statements/Replays.antt =====
-- That a completed request is answered by its recorded response.
use canalis.Base.{
  ℕ, ◌+◌, ◌≤◌, String, Option, some, true, ◌==◌, if◌then◌else◌, ◌≡◌, refl, arith, eq_iff,
}
use canalis.Persistence.Clock.{seconds}
use canalis.Persistence.Idempotency.{
  IdempotencyRecord, IdempotencyRecords, Identity, BeginInput, CompleteInput, IdempotencyReplay,
  completed, replay, conflict, ttl, select, delete_expired, insert_record, reclaim_record,
  complete_idempotency, abandon_idempotency, begin_idempotency, is_running, or_default,
  default_content_type,
}
use canalis.Persistence.Idempotency.Statements.{
  World, ended, Step, wait, purge, insert, reclaim, complete, abandon, Reach, here, next, key_facts,
}

Step_clock : {w v : World} → Step w v → w.clock ≤ v.clock
Step_clock (wait w time) = omega arith
Step_clock (purge w) = omega arith
Step_clock (insert w input) = omega arith
Step_clock (reclaim w input) = omega arith
Step_clock (complete w input) = omega arith
Step_clock (abandon w i) = omega arith

-- No statement changes a completed row that has not expired.
Step-keeps :
    {w v : World} (i : Identity) (row : IdempotencyRecord)
    → Step w v
    → select i w.table ≡ some row
    → row.state ≡ completed
    → v.clock ≤ row.expires_at
    → select i v.table ≡ some row
unfolding delete_expired insert_record reclaim_record complete_idempotency abandon_idempotency
Step-keeps i row (wait w time) e d fresh = ground (arith, e)
Step-keeps i row (purge w) e d fresh = ground (arith, e, d, fresh)
Step-keeps i row (insert w input) e d fresh =
    ground
      (arith, e, d, fresh, key_facts input.identity i.owner_wallet i.operation i.idempotency_key)
Step-keeps i row (reclaim w input) e d fresh =
    ground
      (arith, e, d, fresh, key_facts input.identity i.owner_wallet i.operation i.idempotency_key)
Step-keeps i row (complete w input) e d fresh =
    ground
      (arith, e, d, fresh, key_facts input.identity i.owner_wallet i.operation i.idempotency_key)
Step-keeps i row (abandon w j) e d fresh =
    ground (arith, e, d, fresh, key_facts j i.owner_wallet i.operation i.idempotency_key)

Reach-keeps :
    {w v : World} (i : Identity) (row : IdempotencyRecord)
    → Reach w v
    → select i w.table ≡ some row
    → row.state ≡ completed
    → v.clock ≤ row.expires_at
    → select i v.table ≡ some row
Reach-keeps i row here e d fresh = e
Reach-keeps i row (next {u} reach step) e d fresh =
    (Step-keeps i row step (Reach-keeps i row reach e d (omega (arith, Step_clock step))) d fresh)

-- What the completion of a running request records.
abbrev pub response : CompleteInput → IdempotencyReplay
response input = record {
  response_status = input.response_status;
  response_body = input.response_body;
  response_content_type = or_default default_content_type input.response_content_type;
}

begin_idempotency_answered :
    (now : ℕ) (input : BeginInput) (table : IdempotencyRecords) (row : IdempotencyRecord)
    (status : ℕ) (body content : String)
    → select input.identity table ≡ some row
    → row.state ≡ completed
    → row.response_status ≡ some status
    → row.response_body ≡ some body
    → row.response_content_type ≡ some content
    → now ≤ row.expires_at
    → (begin_idempotency now input table).0 ≡ (
        if row.request_hash == input.identity.request_hash
        then replay (record {
          response_status = status;
          response_body = body;
          response_content_type = content;
        })
        else conflict)
unfolding begin_idempotency delete_expired insert_record reclaim_record
begin_idempotency_answered now input table row status body content e d s b c fresh = ground (
  arith,
  e,
  d,
  s,
  b,
  c,
  fresh,
  key_facts input.identity input.identity.owner_wallet input.identity.operation
      input.identity.idempotency_key,
)

unfoldable pub completed_row : ℕ → CompleteInput → IdempotencyRecord → IdempotencyRecord
completed_row now input row = record row {
  state = completed;
  response_status = some input.response_status;
  response_body = some input.response_body;
  response_content_type = some (or_default default_content_type input.response_content_type);
  lease_expires_at = now;
  expires_at = now + seconds (ttl input.ttl_seconds);
}

pub complete_idempotency_row :
    (now : ℕ) (input : CompleteInput) (table : IdempotencyRecords) (row : IdempotencyRecord)
    → select input.identity table ≡ some row
    → is_running input.identity row ≡ true
    → select input.identity (complete_idempotency now input table)
      ≡ some (completed_row now input row)
unfolding complete_idempotency completed_row
complete_idempotency_row now input table row e running = ground (
  arith,
  e,
  running,
  key_facts input.identity input.identity.owner_wallet input.identity.operation
      input.identity.idempotency_key,
)

-- A later call for the same owner, operation and key, with the hash of its own request.
abbrev pub again : Identity → String → Option ℕ → Option ℕ → BeginInput
again i hash lease_seconds ttl_seconds = record {
  identity = record i { request_hash = hash };
  lease_seconds = lease_seconds;
  ttl_seconds = ttl_seconds;
}

-- A completed row goes on answering, whatever statements follow.
pub begin_idempotency_after :
    (u v : World) (i : Identity) (row : IdempotencyRecord) (r : IdempotencyReplay)
    → select i u.table ≡ some row
    → row.state ≡ completed
    → row.response_status ≡ some r.response_status
    → row.response_body ≡ some r.response_body
    → row.response_content_type ≡ some r.response_content_type
    → Reach u v
    → v.clock ≤ row.expires_at
    → (hash : String) (lease_seconds ttl_seconds : Option ℕ)
    → (begin_idempotency v.clock (again i hash lease_seconds ttl_seconds) v.table).0
      ≡ (if row.request_hash == hash then replay r else conflict)
begin_idempotency_after u v i row r e d s b c reach fresh hash lease_seconds ttl_seconds =
    begin_idempotency_answered v.clock (again i hash lease_seconds ttl_seconds) v.table row
      r.response_status r.response_body r.response_content_type (Reach-keeps i row reach e d fresh)
      d s b c fresh

-- When a caller completes the request that its row has in progress, then, whatever statements follow
-- and until the lifetime that it asked for has passed, `beginIdempotency` for that owner, operation
-- and key answers a request of the same hash with the recorded status, body and content type, and
-- a request of another hash with a conflict.
pub begin_idempotency-complete_idempotency :
    (w v : World) (done : CompleteInput) (row : IdempotencyRecord)
    → select done.identity w.table ≡ some row
    → is_running done.identity row ≡ true
    → Reach (ended done.identity (complete_idempotency w.clock done w.table) w) v
    → v.clock ≤ w.clock + seconds (ttl done.ttl_seconds)
    → (hash : String) (lease_seconds ttl_seconds : Option ℕ)
    → (begin_idempotency v.clock (again done.identity hash lease_seconds ttl_seconds) v.table).0
      ≡ (if done.identity.request_hash == hash then replay (response done) else conflict)
unfolding completed_row
begin_idempotency-complete_idempotency w v done row e running reach fresh hash lease_seconds
      ttl_seconds =
    let same = eq_iff row.request_hash done.identity.request_hash in
    let hash_kept : row.request_hash ≡ done.identity.request_hash = ground (arith, running, same) in
    rw (← hash_kept) (
      begin_idempotency_after (ended done.identity (complete_idempotency w.clock done w.table) w) v
        done.identity (completed_row w.clock done row) (response done)
        (complete_idempotency_row w.clock done w.table row e running) refl refl refl refl reach
        fresh hash lease_seconds ttl_seconds)
