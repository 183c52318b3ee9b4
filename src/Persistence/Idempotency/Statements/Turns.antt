-- ===== src/Persistence/Idempotency/Statements/Turns.antt =====
-- Who works on a key: the statements with the calls that run them.
use canalis.Base.{
  ℕ, ◌+◌, ◌<◌, String, Option, none, some, Bool, true, false, eqb, if◌then◌else◌, ◌≡◌, ◌≢◌, refl,
  arith,
}
use canalis.Persistence.Clock.{seconds}
use canalis.Persistence.Idempotency.{
  IdempotencyRecords, Identity, BeginInput, CompleteInput, is_key, lease, delete_expired,
  insert_record, reclaim_record, complete_idempotency, abandon_idempotency, acquired,
  begin_idempotency,
}
use canalis.Persistence.Idempotency.Statements.{
  World, initial, granted, ended, reports, wait, purge, insert, reclaim, complete, abandon, Reach,
  here, next, key_facts,
}
use canalis.Persistence.Idempotency.Statements.Leases.{Reach-Single}

-- The call that was given a key, the end of its lease, and whether the report of another call, as
-- of one that has outlived its own lease, has taken effect since.
pub record Claim : Type 0 where
  pub call : ℕ
  pub until : ℕ
  pub overtaken : Bool

pub record Turns : Type 0 where
  pub world : World
  pub claims : String → String → String → Option Claim

abbrev pub start : Turns
start = record { world = initial; claims = λ _ _ _. none }

abbrev pub claim_of : Identity → Turns → Option Claim
claim_of i t = t.claims i.owner_wallet i.operation i.idempotency_key

abbrev pub takes : ℕ → BeginInput → Bool × IdempotencyRecords → Turns → Turns
takes call input result t = record {
  world = granted input result t.world;
  claims = λ owner operation key.
      if is_key input.identity owner operation key
      then if result.0
        then some (record {
          call = call;
          until = t.world.clock + seconds (lease input);
          overtaken = false;
        })
        else t.claims owner operation key
      else t.claims owner operation key;
}

-- The claim of a key after a report of `call` on it.
abbrev pub after_report : ℕ → (took_effect : Bool) → Option Claim → Option Claim
after_report call took_effect none = none
after_report call took_effect (some c) =
    if eqb call c.call
    then none
    else if took_effect
    then some (record c { overtaken = true })
    else some c

abbrev pub gives_back : ℕ → Identity → IdempotencyRecords → Turns → Turns
gives_back call i table t = record {
  world = ended i table t.world;
  claims = λ owner operation key.
      if is_key i owner operation key
      then after_report call (reports i t.world.table) (t.claims owner operation key)
      else t.claims owner operation key;
}

-- Any call may run any statement at any time, also with a key, or a lease, that is not its own.
pub data Turn : Turns → Turns → Type 0 where
  waits :
      (t : Turns) (time : ℕ)
      → Turn t (record t { world = record t.world { clock = t.world.clock + time } })
  purges :
      (t : Turns)
      → Turn t (record t {
        world = record t.world { table = delete_expired t.world.clock t.world.table };
      })
  inserts :
      (t : Turns) (call : ℕ) (input : BeginInput)
      → Turn t (takes call input (insert_record t.world.clock input t.world.table) t)
  reclaims :
      (t : Turns) (call : ℕ) (input : BeginInput)
      → Turn t (takes call input (reclaim_record t.world.clock input t.world.table) t)
  completes :
      (t : Turns) (call : ℕ) (input : CompleteInput)
      → Turn t (
          gives_back call input.identity (complete_idempotency t.world.clock input t.world.table) t)
  abandons :
      (t : Turns) (call : ℕ) (i : Identity)
      → Turn t (gives_back call i (abandon_idempotency i t.world.table) t)

pub data Played : Turns → Type 0 where
  opening : Played start
  turn : {t t' : Turns} → Played t → Turn t t' → Played t'

Played-Reach : {t : Turns} → Played t → Reach initial t.world
Played-Reach opening = here
Played-Reach (turn p (waits t time)) = next (Played-Reach p) (wait t.world time)
Played-Reach (turn p (purges t)) = next (Played-Reach p) (purge t.world)
Played-Reach (turn p (inserts t call input)) = next (Played-Reach p) (insert t.world input)
Played-Reach (turn p (reclaims t call input)) = next (Played-Reach p) (reclaim t.world input)
Played-Reach (turn p (completes t call input)) = next (Played-Reach p) (complete t.world input)
Played-Reach (turn p (abandons t call i)) = next (Played-Reach p) (abandon t.world i)

-- A claim that was not overtaken is the lease.
abbrev Leased : Turns → Type 0
Leased t =
    (o p k : String) (c : Claim)
    → t.claims o p k ≡ some c
    → c.overtaken ≡ false
    → t.world.leases o p k ≡ some c.until

takes-Leased :
    (call : ℕ) (input : BeginInput) (result : Bool × IdempotencyRecords) (t : Turns)
    → Leased t
    → Leased (takes call input result t)
takes-Leased call input (false, table) t h o p k c e fair =
    ground (arith, h o p k c, e, fair, key_facts input.identity o p k)
takes-Leased call input (true, table) t h o p k c e fair =
    ground (arith, h o p k c, e, fair, key_facts input.identity o p k)

gives_back-Leased :
    (call : ℕ) (i : Identity) (table : IdempotencyRecords) (t : Turns)
    → Leased t
    → Leased (gives_back call i table t)
gives_back-Leased call i table t h o p k c e fair = outcome (t.claims o p k) refl
  where
    outcome :
        (x : Option Claim)
        → t.claims o p k ≡ x
        → (gives_back call i table t).world.leases o p k ≡ some c.until
    outcome none q = ground (arith, q, e, fair, h o p k c, key_facts i o p k)
    outcome (some c') q = ground (arith, q, e, fair, h o p k c, key_facts i o p k)

Played-Leased : {t : Turns} → Played t → Leased t
Played-Leased opening = λ o p k c e fair. cc
Played-Leased (turn p (waits t time)) = Played-Leased p
Played-Leased (turn p (purges t)) = Played-Leased p
Played-Leased (turn p (inserts t call input)) =
    takes-Leased call input (insert_record t.world.clock input t.world.table) t (Played-Leased p)
Played-Leased (turn p (reclaims t call input)) =
    takes-Leased call input (reclaim_record t.world.clock input t.world.table) t (Played-Leased p)
Played-Leased (turn p (completes t call input)) =
    gives_back-Leased call input.identity (complete_idempotency t.world.clock input t.world.table) t
      (Played-Leased p)
Played-Leased (turn p (abandons t call i)) =
    gives_back-Leased call i (abandon_idempotency i t.world.table) t (Played-Leased p)

-- In every state that the calls' statements can reach, in any order and at any times, a key that was
-- given to a call whose lease is still running and which has not reported the end of its work is
-- given to nobody, unless a report of another call has taken effect on the key since: the statement
-- that inserts and the one that reclaims report no row, and a whole call of `beginIdempotency` does
-- not say that the key was acquired.
pub Played-Single :
    {t : Turns}
    → Played t
    → (input : BeginInput) (c : Claim) → claim_of input.identity t ≡ some c
    → c.overtaken ≡ false
    → t.world.clock < c.until
    → ((insert_record t.world.clock input t.world.table).0 ≡ false)
      × ((reclaim_record t.world.clock input t.world.table).0 ≡ false)
      × ((begin_idempotency t.world.clock input t.world.table).0 ≢ acquired)
Played-Single {t} played input c e fair live =
    Reach-Single (Played-Reach played) input c.until
      (Played-Leased played input.identity.owner_wallet input.identity.operation
        input.identity.idempotency_key c e fair)
      live
