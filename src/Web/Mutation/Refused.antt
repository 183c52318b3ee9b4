-- ===== src/Web/Mutation/Refused.antt =====
-- The calls that carry nothing out.
use text.Mathlib.TextPositions.{eq_refl}
use canalis.Base.{
  ℕ, String, Option, none, some, true, false, ◌≡◌, refl, arith, eq_iff, truthy, ap, ◌∙◌, ◌⊎◌, inl,
  inr,
}
use canalis.Base.Action.{Action, returned, threw}
use canalis.Application.Errors.{ApplicationError}
use canalis.Persistence.Idempotency.{
  Identity, IdempotencyRecord, IdempotencyRecords, BeginInput, acquired, begin_idempotency,
  abandon_idempotency, select,
}
use canalis.Persistence.Locks.{LockRequest, acquire_mutation_lock, MutationLock, MutationLocks}
use canalis.Web.Requests.{Platform, or_empty}
use canalis.Web.Errors.{Response}
use canalis.Web.Mutation.{SecurityStore, lock_request, begin_input, concurrent, run_identified}
use canalis.Web.Mutation.Store.{Server, postgres_store}
use canalis.Base.Action.{own, ◌>>=◌, >>=-returned}
use canalis.Persistence.Idempotency.{
  delete_expired, insert_record, reclaim_record, in_flight, conflict,
}
use canalis.Persistence.Locks.{MutationLock}
use canalis.Persistence.Idempotency.Statements.{key_facts}
use canalis.Web.Requests.{Request, request_fingerprint, idempotency_key}
use canalis.Web.Mutation.{key_reused, key_in_progress, run_idempotent_mutation}
use canalis.Web.Mutation.Calls.{begun, guarded_refused, run_acquired}

-- A key that was acquired and is abandoned has no row.
abandon_idempotency-begin_idempotency :
    (now : ℕ) (input : BeginInput) (table : IdempotencyRecords)
    → (begin_idempotency now input table).0 ≡ acquired
    → select input.identity
        (abandon_idempotency input.identity (begin_idempotency now input table).1)
      ≡ none
unfolding begin_idempotency delete_expired insert_record reclaim_record abandon_idempotency
abandon_idempotency-begin_idempotency now input table e =
    outcome (select input.identity (delete_expired now table)) refl
  where
    outcome :
        (row : Option IdempotencyRecord)
        → select input.identity (delete_expired now table) ≡ row
        → select input.identity
            (abandon_idempotency input.identity (begin_idempotency now input table).1)
          ≡ none
    outcome none q = ground (
      arith,
      q,
      key_facts input.identity input.identity.owner_wallet input.identity.operation
          input.identity.idempotency_key,
      eq_refl input.identity.request_hash,
    )
    outcome (some row) q = ground (
      arith,
      q,
      e,
      key_facts input.identity input.identity.owner_wallet input.identity.operation
          input.identity.idempotency_key,
      eq_refl input.identity.request_hash,
    )

-- A refused call leaves every lock as it was.
acquire_mutation_lock_refused :
    (now : ℕ) (input : LockRequest) (locks : MutationLocks)
    → (acquire_mutation_lock now input locks).0 ≡ false
    → (r : String) → (acquire_mutation_lock now input locks).1 r ≡ locks r
unfolding acquire_mutation_lock
acquire_mutation_lock_refused now input locks refused r = outcome (locks input.resource_key) refl
  where
    outcome :
        (row : Option MutationLock)
        → locks input.resource_key ≡ row
        → (acquire_mutation_lock now input locks).1 r ≡ locks r
    outcome none e = ground (arith, e, refused, eq_refl input.holder_key)
    outcome (some row) e =
        ground (arith, e, refused, eq_refl input.holder_key, eq_iff input.resource_key r)

module _ {W : Type 0} (p : Platform) (identity : Identity) (resource_key : Option String)
    (handler : Action (Server W) ApplicationError Response) where
  -- When the key is at work elsewhere or was used for another request, the call throws an error of
  -- status 409 without calling its handler: the clock, the locks and the world stay as they are.
  pub run_identified_busy :
      (s : Server W)
      → ((begin_idempotency s.clock (begin_input p identity) s.records).0 ≡ in_flight)
        ⊎ ((begin_idempotency s.clock (begin_input p identity) s.records).0 ≡ conflict)
      → (e : ApplicationError) × (run_identified p postgres_store identity resource_key handler s
          ≡ (threw (own e), begun p identity resource_key handler s))
        × (e.status ≡ 409)
  unfolding run_identified postgres_store
  run_identified_busy s (inl e) = (key_in_progress, rw e refl, refl)
  run_identified_busy s (inr e) = (key_reused, rw e refl, refl)

  -- When the key is acquired but another holder has the resource, the call throws an error of status
  -- 409 without calling its handler: the clock, the world and every lock stay as they are, and the
  -- key is free again, so that its next call for a new record can acquire it.
  pub run_identified_locked_out :
      (s : Server W)
      → (begin_idempotency s.clock (begin_input p identity) s.records).0 ≡ acquired
      → truthy resource_key ≡ true
      → (acquire_mutation_lock s.clock (lock_request identity (or_empty resource_key)) s.locks).0
        ≡ false
      → let (o, s') = run_identified p postgres_store identity resource_key handler s in
        (e : ApplicationError) × (o ≡ threw (own e))
        × (e.status ≡ 409)
        × (s'.world ≡ s.world)
        × (s'.clock ≡ s.clock)
        × ((r : String) → s'.locks r ≡ s.locks r)
        × (select identity s'.records ≡ none)
  run_identified_locked_out s e named refused =
      let ran =
        run_acquired p identity resource_key handler s e
        ∙ guarded_refused p identity resource_key handler (begun p identity resource_key handler s)
            named refused in
      (
        concurrent,
        ap (λ x. x.0) ran,
        refl,
        ap (λ x. x.1.world) ran,
        ap (λ x. x.1.clock) ran,
        (λ r.
            ap (λ x. x.1.locks r) ran
            ∙ acquire_mutation_lock_refused s.clock (lock_request identity (or_empty resource_key))
                s.locks refused r),
        ap (λ x. select identity x.1.records) ran
            ∙ abandon_idempotency-begin_idempotency s.clock (begin_input p identity) s.records e,
      )

-- Once the repository is ready, a request is carried on under the hash of its fingerprint and its own key, or a new one.
pub run_idempotent_mutation_lem :
    {S : Type 0} (p : Platform) (security_repository : Action S ApplicationError (Unit {0}))
    (store : SecurityStore S) (request : Request) (owner_wallet operation : String)
    (resource_key : Option String) (handler : Action S ApplicationError Response) (s0 s : S)
    (hash key : String)
    → security_repository s0 ≡ (returned tt, s)
    → request_fingerprint {S = S} p request operation resource_key s ≡ (returned hash, s)
    → idempotency_key {S = S} p request s ≡ (returned key, s)
    → run_idempotent_mutation p security_repository store request owner_wallet operation
        resource_key handler s0
      ≡ run_identified p store
          (record {
            owner_wallet = owner_wallet;
            operation = operation;
            idempotency_key = key;
            request_hash = hash;
          })
          resource_key
          handler
          s
unfolding run_idempotent_mutation
run_idempotent_mutation_lem {S} p security_repository store request owner_wallet operation
      resource_key handler s0 s hash key ready e k =
    let identify : String → String → Identity = λ hash key. record {
      owner_wallet = owner_wallet;
      operation = operation;
      idempotency_key = key;
      request_hash = hash;
    } in
    let go_on : String → String → Action S ApplicationError Response =
      λ hash key. run_identified p store (identify hash key) resource_key handler in
    >>=-returned security_repository
      (λ _. request_fingerprint p request operation resource_key >>= λ hash.
        idempotency_key p request >>= go_on hash)
      s0 s tt ready
    ∙ >>=-returned (request_fingerprint p request operation resource_key)
        (λ hash. idempotency_key p request >>= go_on hash) s s hash e
    ∙ >>=-returned (idempotency_key p request) (go_on hash) s s key k
