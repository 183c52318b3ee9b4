-- ===== src/Persistence/Idempotency/Statements.antt =====
-- Every interleaving of the statements on the idempotency records, and of the passing of time.
pub mod Leases
pub mod Replays
pub mod Turns
use canalis.Base.{
  ℕ, ◌+◌, String, Option, none, some, Bool, true, false, ◌==◌, if◌then◌else◌, ◌≡◌, ◌↔◌, eq_iff,
}
use canalis.Persistence.Clock.{seconds}
use canalis.Persistence.Idempotency.{
  IdempotencyRecords, Identity, BeginInput, CompleteInput, is_key, lease, delete_expired,
  insert_record, reclaim_record, select, is_running, complete_idempotency, abandon_idempotency,
}

-- The clock, the table, and for each key the end of the lease that a caller was given last, until a
-- report on the key takes effect, be it of that caller or of one whose lease ran out before.
pub record World : Type 0 where
  pub clock : ℕ
  pub table : IdempotencyRecords
  pub leases : String → String → String → Option ℕ

abbrev pub initial : World
initial = record { clock = 0; table = λ _ _ _. none; leases = λ _ _ _. none }

abbrev pub lease_of : Identity → World → Option ℕ
lease_of i w = w.leases i.owner_wallet i.operation i.idempotency_key

abbrev pub put_lease :
    Identity
    → Option ℕ
    → (String → String → String → Option ℕ)
    → String
    → String
    → String
    → Option ℕ
put_lease i end leases owner operation key =
    if is_key i owner operation key then end else leases owner operation key

-- The caller may work when its statement reports a row.
abbrev pub granted : BeginInput → Bool × IdempotencyRecords → World → World
granted input (acquired, table) w = record w {
  table = table;
  leases =
      if acquired
      then put_lease input.identity (some (w.clock + seconds (lease input))) w.leases
      else w.leases;
}

-- A report takes effect on the row of its own request, while that is in progress.
abbrev pub reports : Identity → IdempotencyRecords → Bool
reports i table = elim (select i table) [ none ↦ false | some row ↦ is_running i row ]

abbrev pub ended : Identity → IdempotencyRecords → World → World
ended i table w = record w {
  table = table;
  leases = if reports i w.table then put_lease i none w.leases else w.leases;
}

pub data Step : World → World → Type 0 where
  wait : (w : World) (time : ℕ) → Step w (record w { clock = w.clock + time })
  purge : (w : World) → Step w (record w { table = delete_expired w.clock w.table })
  insert :
      (w : World) (input : BeginInput)
      → Step w (granted input (insert_record w.clock input w.table) w)
  reclaim :
      (w : World) (input : BeginInput)
      → Step w (granted input (reclaim_record w.clock input w.table) w)
  complete :
      (w : World) (input : CompleteInput)
      → Step w (ended input.identity (complete_idempotency w.clock input w.table) w)
  abandon : (w : World) (i : Identity) → Step w (ended i (abandon_idempotency i w.table) w)

pub data Reach (w : World) : World → Type 0 where
  here : Reach w w
  next : {u v : World} → Reach w u → Step u v → Reach w v

-- What the comparisons of a key's parts decide.
pub key_facts :
    (i : Identity) (o p k : String)
    → (((i.owner_wallet == o) ≡ true) ↔ (i.owner_wallet ≡ o))
      × (((i.operation == p) ≡ true) ↔ (i.operation ≡ p))
      × (((i.idempotency_key == k) ≡ true) ↔ (i.idempotency_key ≡ k))
key_facts i o p k = (eq_iff i.owner_wallet o, eq_iff i.operation p, eq_iff i.idempotency_key k)
