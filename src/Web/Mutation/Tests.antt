-- ===== src/Web/Mutation/Tests.antt =====
-- A handler that counts its calls.
use canalis.Base.{if◌then◌else◌}
use canalis.Base.Dict.{lookup}
use canalis.Base.Result.{ok, err}
use canalis.Base.Action.{error}
use canalis.Persistence.Idempotency.{CompleteInput}
use canalis.Web.Mutation.Repeated.{failing}
use canalis.Base.{ℕ, suc, ◌+◌, String, Option, none, some, [], ◌∷◌, ◌≡◌, ◌≢◌, refl, inl, arith}
use canalis.Base.Text.{template}
use canalis.Base.Action.{Action, returned, threw, own}
use canalis.Application.Errors.{ApplicationError}
use canalis.Persistence.Idempotency.{
  Identity, fresh, select, begin_idempotency, complete_idempotency, delete_expired, insert_record,
  reclaim_record,
}
use canalis.Persistence.Idempotency.Statements.{here, next, wait}
use canalis.Persistence.Locks.{acquire_mutation_lock, release_mutation_lock}
use canalis.Web.Errors.{Response}
use canalis.Web.Requests.{Platform}
use canalis.Web.Mutation.{begin_input, holder_key, lock_request, run_identified}
use canalis.Web.Mutation.Store.{Server, postgres_store}
use canalis.Web.Mutation.Calls.{holder, begun}
use canalis.Web.Mutation.Refused.{run_identified_busy, run_identified_locked_out}
use canalis.Web.Mutation.Repeated.{
  Constructs, fits, Agrees, view, later, run_identified-Released, run_identified_twice,
}

abbrev platform : Platform
platform = record {
  sha256 = λ text. "0123456789abcdef0123";
  random_uuid = "uuid";
  json = λ envelope status. record { status = status; body = envelope.message; headers = [] };
  new_response = λ body status headers.
      if fits status
      then ok (record { status = status; body = body; headers = headers })
      else err "Invalid response status";
  ttl_seconds = 86400;
}

platform-Constructs : Constructs platform
platform-Constructs body status headers h =
    (record { status = status; body = body; headers = headers }, rw h refl, refl, refl, λ v e. e)

abbrev identity : Identity
identity = record {
  owner_wallet = "wallet";
  operation = "task.lifecycle";
  idempotency_key = "key-00001";
  request_hash = "0123456789abcdef0123";
}

abbrev task_key : Option String
task_key = some "task:t1:mutation"

abbrev created : Response
created = record { status = 201; body = "{}"; headers = ("content-type", "application/json") ∷ [] }

abbrev handler : Action (Server ℕ) ApplicationError Response
handler s = (returned created, record s { world = suc s.world })

abbrev idle : Server ℕ
idle = record { clock = 0; records = λ _ _ _. none; locks = λ _. none; world = 0 }

abbrev first_end : Server ℕ
first_end = (run_identified platform postgres_store identity task_key handler idle).1

first_runs : first_end.world ≡ 1
unfolding run_identified postgres_store begin_idempotency complete_idempotency delete_expired
    insert_record acquire_mutation_lock release_mutation_lock template
first_runs = refl

-- The answer of the first call is not recorded.
abbrev rejecting : CompleteInput → Action (Server ℕ) ApplicationError (Unit {0})
rejecting input s = (threw (error "Connection terminated"), s)

run_identified-Released_example :
    holder (
      (run_identified platform
          (failing platform rejecting identity task_key handler)
          identity
          task_key
          handler
          idle).1.locks
        "task:t1:mutation")
    ≢ some (holder_key identity)
unfolding begin_idempotency delete_expired insert_record
run_identified-Released_example =
    run_identified-Released platform rejecting identity task_key handler idle refl refl

run_identified_twice_example :
    let (o, _) = run_identified platform postgres_store identity task_key handler idle in
    let (o', s') = run_identified platform postgres_store identity task_key handler (
      later platform identity task_key handler
        (record (view platform identity task_key handler first_end) { clock = 5 + first_end.clock })
        idle.locks
        7) in
    (first : Response) × (second : Response) × (o ≡ returned first)
    × (o' ≡ returned second)
    × Agrees platform identity task_key handler second first
    × (s'.world ≡ 7)
    × (s'.locks ≡ idle.locks)
unfolding run_identified postgres_store begin_idempotency complete_idempotency delete_expired
    insert_record acquire_mutation_lock release_mutation_lock template lookup
run_identified_twice_example =
    run_identified_twice platform identity task_key handler platform-Constructs idle
      (fresh 0 (begin_input platform identity)) "application/json" refl refl refl (λ _. refl) refl
      refl
      (record (view platform identity task_key handler first_end) { clock = 5 + first_end.clock })
      (next here (wait (view platform identity task_key handler first_end) 5)) (omega arith)
      idle.locks 7 handler

-- While the first call is at work.
abbrev at_work : Server ℕ
at_work = begun platform identity task_key handler idle

second_call_refused :
    (e : ApplicationError) × (run_identified platform postgres_store identity task_key handler
        at_work
      ≡ (threw (own e), begun platform identity task_key handler at_work))
    × (e.status ≡ 409)
unfolding begin_idempotency delete_expired insert_record reclaim_record
second_call_refused = run_identified_busy platform identity task_key handler at_work (inl refl)

-- While another key holds the task.
abbrev taken : Server ℕ
taken = record idle {
  locks =
      (acquire_mutation_lock 0
        (record (lock_request identity "task:t1:mutation") { holder_key = "another" })
        idle.locks).1;
}

run_identified_locked_out_example :
    let (o, s') = run_identified platform postgres_store identity task_key handler taken in
    (e : ApplicationError) × (o ≡ threw (own e))
    × (e.status ≡ 409)
    × (s'.world ≡ taken.world)
    × (s'.clock ≡ taken.clock)
    × ((r : String) → s'.locks r ≡ taken.locks r)
    × (select identity s'.records ≡ none)
unfolding begin_idempotency delete_expired insert_record acquire_mutation_lock template
run_identified_locked_out_example =
    run_identified_locked_out platform identity task_key handler taken refl refl refl
