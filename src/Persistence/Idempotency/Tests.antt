-- ===== src/Persistence/Idempotency/Tests.antt =====
-- Two callers with the same key.
use canalis.Base.{none, false, ◌≡◌, ◌≢◌, refl, arith}
use canalis.Persistence.Idempotency.{
  BeginInput, CompleteInput, acquired, replay, conflict, in_flight, select, fresh, delete_expired,
  insert_record, reclaim_record, begin_idempotency, complete_idempotency, abandon_idempotency,
}
use canalis.Persistence.Idempotency.Statements.{World, initial, granted, ended, here, next, wait}
use canalis.Base.{some, true}
use canalis.Persistence.Idempotency.Statements.Turns.{
  Turns, start, takes, gives_back, claim_of, inserts, opening, turn, Played-Single,
}
use canalis.Persistence.Idempotency.Statements.Replays.{
  response, again, begin_idempotency-complete_idempotency,
}

abbrev first_call : BeginInput
first_call = record {
  identity = record {
    owner_wallet = "wallet";
    operation = "task.create";
    idempotency_key = "key-00001";
    request_hash = "aa";
  };
  lease_seconds = none;
  ttl_seconds = none;
}

abbrev working : World
working = granted first_call (insert_record 0 first_call initial.table) initial

abbrev claimed : Turns
claimed = takes 1 first_call (insert_record 0 first_call initial.table) start

Played-Single_example :
    ((insert_record 0 first_call claimed.world.table).0 ≡ false)
    × ((reclaim_record 0 first_call claimed.world.table).0 ≡ false)
    × ((begin_idempotency 0 first_call claimed.world.table).0 ≢ acquired)
unfolding insert_record
Played-Single_example =
    Played-Single (turn opening (inserts start 1 first_call)) first_call
      (record { call = 1; until = 300000000; overtaken = false }) refl refl (omega arith)

-- A first call whose lease has run out abandons the key that a second one has reclaimed; a third
-- one can then acquire it, while the second is at work.
abbrev expired : Turns
expired = record claimed { world = record claimed.world { clock = 300000000 } }

abbrev reclaimed : Turns
reclaimed = takes 2 first_call (reclaim_record 300000000 first_call expired.world.table) expired

abbrev freed : Turns
freed =
    gives_back 1 first_call.identity (abandon_idempotency first_call.identity reclaimed.world.table)
      reclaimed

stale_report_frees :
    ((begin_idempotency 300000000 first_call freed.world.table).0 ≡ acquired)
    × (claim_of first_call.identity freed
        ≡ some (record { call = 2; until = 600000000; overtaken = true }))
unfolding insert_record reclaim_record begin_idempotency abandon_idempotency delete_expired
stale_report_frees = (refl, refl)

abbrev done : CompleteInput
done = record {
  identity = first_call.identity;
  response_status = 201;
  response_body = "{}";
  response_content_type = none;
  ttl_seconds = none;
}

abbrev finished : World
finished = ended done.identity (complete_idempotency 0 done working.table) working

abbrev later : World
later = record finished { clock = 5000 }

begin_idempotency-complete_idempotency_example :
    (begin_idempotency 5000 (again first_call.identity "aa" none none) later.table).0
    ≡ replay (response done)
unfolding insert_record
begin_idempotency-complete_idempotency_example =
    begin_idempotency-complete_idempotency working later done (fresh 0 first_call) refl refl
      (next here (wait finished 5000)) (omega arith) "aa" none none

abbrev reused : BeginInput
reused = record first_call { identity = record first_call.identity { request_hash = "bb" } }

reused_key : (begin_idempotency 1 reused working.table).0 ≡ conflict
unfolding begin_idempotency delete_expired insert_record reclaim_record
reused_key = refl

retried_early : (begin_idempotency 1 first_call working.table).0 ≡ in_flight
unfolding begin_idempotency delete_expired insert_record reclaim_record
retried_early = refl

retried_late : (begin_idempotency 300000000 first_call working.table).0 ≡ acquired
unfolding begin_idempotency delete_expired insert_record reclaim_record
retried_late = refl

abandoned :
    select first_call.identity (abandon_idempotency first_call.identity working.table) ≡ none
unfolding abandon_idempotency insert_record
abandoned = refl
