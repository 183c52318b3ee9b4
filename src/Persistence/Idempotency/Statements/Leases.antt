-- ===== src/Persistence/Idempotency/Statements/Leases.antt =====
-- That a key is worked on by one caller at a time.
use canalis.Base.{
  ℕ, ◌≤◌, ◌<◌, String, Option, none, some, false, ◌&&◌, leb, if◌then◌else◌, ◌≡◌, ◌≢◌, refl, arith,
}
use canalis.Persistence.Clock.{bounded_range}
use canalis.Persistence.Idempotency.{
  IdempotencyRecord, IdempotencyRecords, Identity, BeginInput, CompleteInput, lease, ttl, select,
  delete_expired, insert_record, reclaim_record, complete_idempotency, abandon_idempotency,
  acquired, begin_idempotency, is_in_progress, unexpired,
}
use canalis.Persistence.Idempotency.Statements.{
  World, initial, lease_of, granted, ended, wait, purge, insert, reclaim, complete, abandon, Reach,
  here, next, key_facts,
}

-- The end of the lease of a row in progress, if the row is kept at least as long.
abbrev lease_end : Option IdempotencyRecord → Option ℕ
lease_end none = none
lease_end (some row) =
    if is_in_progress row.state && leb row.lease_expires_at row.expires_at
    then some row.lease_expires_at
    else none

abbrev Backed : World → Type 0
Backed w =
    (o p k : String) (end : ℕ)
    → w.leases o p k ≡ some end
    → w.clock < end
    → lease_end (w.table o p k) ≡ some end

-- The clamps of the lease and of the lifetime meet.
lease-le-ttl : (input : BeginInput) → lease input ≤ ttl input.ttl_seconds
lease-le-ttl input = omega (
  arith,
  bounded_range 30 300 300 input.lease_seconds (omega arith),
  bounded_range 300 172800 86400 input.ttl_seconds (omega arith),
)

purge-Backed : (w : World) → Backed w → Backed (record w { table = delete_expired w.clock w.table })
unfolding delete_expired
purge-Backed w back o p k end e live = outcome (w.table o p k) (back o p k end e live)
  where
    outcome :
        (row : Option IdempotencyRecord)
        → lease_end row ≡ some end
        → lease_end (unexpired w.clock row) ≡ some end
    outcome none h = h
    outcome (some row) h = ground arith

insert-Backed :
    (w : World) (input : BeginInput)
    → Backed w
    → Backed (granted input (insert_record w.clock input w.table) w)
unfolding insert_record
insert-Backed w input back o p k end e live = outcome (select input.identity w.table) refl
  where
    outcome :
        (row : Option IdempotencyRecord)
        → select input.identity w.table ≡ row
        → lease_end ((granted input (insert_record w.clock input w.table) w).table o p k) ≡ some end
    outcome none q =
        ground
          (arith, q, e, live, back o p k end, lease-le-ttl input, key_facts input.identity o p k)
    outcome (some row) q =
        ground
          (arith, q, e, live, back o p k end, lease-le-ttl input, key_facts input.identity o p k)

reclaim-Backed :
    (w : World) (input : BeginInput)
    → Backed w
    → Backed (granted input (reclaim_record w.clock input w.table) w)
unfolding reclaim_record
reclaim-Backed w input back o p k end e live = outcome (select input.identity w.table) refl
  where
    outcome :
        (row : Option IdempotencyRecord)
        → select input.identity w.table ≡ row
        → lease_end ((granted input (reclaim_record w.clock input w.table) w).table o p k)
          ≡ some end
    outcome none q =
        ground
          (arith, q, e, live, back o p k end, lease-le-ttl input, key_facts input.identity o p k)
    outcome (some row) q =
        ground
          (arith, q, e, live, back o p k end, lease-le-ttl input, key_facts input.identity o p k)

complete-Backed :
    (w : World) (input : CompleteInput)
    → Backed w
    → Backed (ended input.identity (complete_idempotency w.clock input w.table) w)
unfolding complete_idempotency
complete-Backed w input back o p k end e live = outcome (select input.identity w.table) refl
  where
    outcome :
        (row : Option IdempotencyRecord)
        → select input.identity w.table ≡ row
        → lease_end
            ((ended input.identity (complete_idempotency w.clock input w.table) w).table o p k)
          ≡ some end
    outcome none q = ground (arith, q, e, live, back o p k end, key_facts input.identity o p k)
    outcome (some row) q =
        ground (arith, q, e, live, back o p k end, key_facts input.identity o p k)

abandon-Backed :
    (w : World) (i : Identity) → Backed w → Backed (ended i (abandon_idempotency i w.table) w)
unfolding abandon_idempotency
abandon-Backed w i back o p k end e live = outcome (select i w.table) refl
  where
    outcome :
        (row : Option IdempotencyRecord)
        → select i w.table ≡ row
        → lease_end ((ended i (abandon_idempotency i w.table) w).table o p k) ≡ some end
    outcome none q = ground (arith, q, e, live, back o p k end, key_facts i o p k)
    outcome (some row) q = ground (arith, q, e, live, back o p k end, key_facts i o p k)

Reach-Backed : {w : World} → Reach initial w → Backed w
Reach-Backed here = λ o p k end e live. cc
Reach-Backed (next reach (wait w time)) =
    λ o p k end e live. Reach-Backed reach o p k end e (omega arith)
Reach-Backed (next reach (purge w)) = purge-Backed w (Reach-Backed reach)
Reach-Backed (next reach (insert w input)) = insert-Backed w input (Reach-Backed reach)
Reach-Backed (next reach (reclaim w input)) = reclaim-Backed w input (Reach-Backed reach)
Reach-Backed (next reach (complete w input)) = complete-Backed w input (Reach-Backed reach)
Reach-Backed (next reach (abandon w i)) = abandon-Backed w i (Reach-Backed reach)

leased_is_kept :
    (now : ℕ) (input : BeginInput) (table : IdempotencyRecords) (end : ℕ)
    → lease_end (select input.identity table) ≡ some end
    → now < end
    → ((insert_record now input table).0 ≡ false) × ((reclaim_record now input table).0 ≡ false)
unfolding insert_record reclaim_record
leased_is_kept now input table end e live = outcome (select input.identity table) refl
  where
    outcome :
        (row : Option IdempotencyRecord)
        → select input.identity table ≡ row
        → ((insert_record now input table).0 ≡ false) × ((reclaim_record now input table).0 ≡ false)
    outcome none q = ground (arith, q, e, live)
    outcome (some row) q = ground (arith, q, e, live)

begin_idempotency_busy :
    (now : ℕ) (input : BeginInput) (table : IdempotencyRecords) (end : ℕ)
    → lease_end (select input.identity (delete_expired now table)) ≡ some end
    → now < end
    → (begin_idempotency now input table).0 ≢ acquired
unfolding begin_idempotency insert_record reclaim_record
begin_idempotency_busy now input table end e live =
    outcome (select input.identity (delete_expired now table)) refl
  where
    outcome :
        (row : Option IdempotencyRecord)
        → select input.identity (delete_expired now table) ≡ row
        → (begin_idempotency now input table).0 ≢ acquired
    outcome none q = ground (arith, q, e, live)
    outcome (some row) q = ground (
      arith,
      q,
      e,
      live,
      key_facts input.identity input.identity.owner_wallet input.identity.operation
          input.identity.idempotency_key,
    )

-- A key whose lease is live, and on which no report has taken effect since, is given to nobody.
pub Reach-Single :
    {w : World}
    → Reach initial w
    → (input : BeginInput) (end : ℕ) → lease_of input.identity w ≡ some end
    → w.clock < end
    → ((insert_record w.clock input w.table).0 ≡ false)
      × ((reclaim_record w.clock input w.table).0 ≡ false)
      × ((begin_idempotency w.clock input w.table).0 ≢ acquired)
Reach-Single {w} reach input end e live =
    let back =
      Reach-Backed reach input.identity.owner_wallet input.identity.operation
        input.identity.idempotency_key end e live in
    let purged =
      Reach-Backed (next reach (purge w)) input.identity.owner_wallet input.identity.operation
        input.identity.idempotency_key end e live in
    let (a, b) = leased_is_kept w.clock input w.table end back live in
    (a, b, begin_idempotency_busy w.clock input w.table end purged live)
