-- ===== src/Web/Mutation/Calls.antt =====
-- What a call of `runIdempotentMutation` comes to, by what the tables say.
use text.Mathlib.TextPositions.{eq_refl}
use canalis.Base.{
  ℕ, String, Option, none, some, true, false, if◌then◌else◌, ◌≡◌, ◌≢◌, refl, arith, eq_iff, truthy,
  Bool-cases, ap, ◌∙◌, sym, inl, inr,
}
use canalis.Base.Dict.{insert}
use canalis.Base.Result.{Result, ok, err}
use canalis.Base.Action.{Action, own, Outcome, returned, threw, error, of_result}
use canalis.Application.Errors.{ApplicationError}
use canalis.Persistence.Idempotency.{
  Identity, CompleteInput, IdempotencyReplay, replay, acquired, begin_idempotency,
  complete_idempotency, abandon_idempotency,
}
use canalis.Persistence.Locks.{
  LockRequest, acquire_mutation_lock, release_mutation_lock, MutationLock, MutationLocks,
}
use canalis.Web.Requests.{Platform, or_empty}
use canalis.Web.Errors.{Response, api_error_response}
use canalis.Web.Mutation.{
  recorded_response, lock_request, begin_input, concurrent, content_type, holder_key, perform,
  guarded, run_identified,
}
use canalis.Web.Mutation.Store.{Server, postgres_store}

module _ (p : Platform) (identity : Identity) where
  abbrev pub answer : Outcome ApplicationError Response → Response
  answer (returned response) = response
  answer (threw t) = api_error_response p.json t

  -- The rest of a call once the handler has ended with the outcome `o` in the state `s`.
  abbrev pub completion : Outcome ApplicationError Response → CompleteInput
  completion o = record {
    identity = identity;
    response_status = (answer o).status;
    response_body = (answer o).body;
    response_content_type = some (content_type (answer o));
    ttl_seconds = some p.ttl_seconds;
  }

  abbrev pub sent : Outcome ApplicationError Response → Result Response
  sent o =
      p.new_response (answer o).body (answer o).status
        (insert "idempotency-key" identity.idempotency_key (answer o).headers)

-- How a call ends that makes its response last.
abbrev pub made : Result Response → Outcome ApplicationError Response
made (ok response) = returned response
made (err message) = threw (error message)

pub of_result-made : {S : Type 0} (r : Result Response) (s : S) → of_result r s ≡ (made r, s)
of_result-made (ok response) s = refl
of_result-made (err message) s = refl

abbrev pub recorded :
    {W : Type 0} → Platform → Identity → Outcome ApplicationError Response × Server W → Server W
recorded p identity (o, s) = record s {
  records = complete_idempotency s.clock (completion p identity o) s.records;
}

pub perform_lem :
    {W : Type 0} (p : Platform) (identity : Identity)
    (handler : Action (Server W) ApplicationError Response) (s s' : Server W)
    (o : Outcome ApplicationError Response)
    → handler s ≡ (o, s')
    → perform p postgres_store identity handler s
      ≡ (made (sent p identity o), recorded p identity (o, s'))
unfolding postgres_store
perform_lem p identity handler s s' (returned response) e =
    ap (λ x. perform p postgres_store identity (λ _. x) s) e
    ∙ of_result-made (sent p identity (returned response))
        (recorded p identity (returned response, s'))
perform_lem p identity handler s s' (threw t) e =
    ap (λ x. perform p postgres_store identity (λ _. x) s) e
    ∙ of_result-made (sent p identity (threw t)) (recorded p identity (threw t, s'))

abbrev pub holder : Option MutationLock → Option String
holder none = none
holder (some row) = some row.holder_key

-- After the lock was given back, the row of the resource is not the holder's.
pub release_mutation_lock_lem :
    (resource key : String) (locks : MutationLocks)
    → holder (release_mutation_lock resource key locks resource) ≢ some key
unfolding release_mutation_lock
release_mutation_lock_lem resource key locks = outcome (locks resource) refl
  where
    outcome :
        (row : Option MutationLock)
        → locks resource ≡ row
        → holder (release_mutation_lock resource key locks resource) ≢ some key
    outcome none e = ground (arith, e, eq_refl resource)
    outcome (some row) e = ground (arith, e, eq_refl resource, eq_iff row.holder_key key)

pub refused_lem :
    (now : ℕ) (input : LockRequest) (locks : MutationLocks)
    → (acquire_mutation_lock now input locks).0 ≡ false
    → holder ((acquire_mutation_lock now input locks).1 input.resource_key) ≢ some input.holder_key
unfolding acquire_mutation_lock
refused_lem now input locks refused = outcome (locks input.resource_key) refl
  where
    outcome :
        (row : Option MutationLock)
        → locks input.resource_key ≡ row
        → holder ((acquire_mutation_lock now input locks).1 input.resource_key)
          ≢ some input.holder_key
    outcome none e =
        ground (arith, e, refused, eq_refl input.resource_key, eq_refl input.holder_key)
    outcome (some row) e = ground (
      arith,
      e,
      refused,
      eq_refl input.resource_key,
      eq_refl input.holder_key,
      eq_iff row.holder_key input.holder_key,
    )

module _ {W : Type 0} (p : Platform) (identity : Identity) (resource_key : Option String)
    (handler : Action (Server W) ApplicationError Response) where
  abbrev pub request : LockRequest
  request = lock_request identity (or_empty resource_key)

  abbrev pub locked : Server W → Server W
  locked s = record s { locks = (acquire_mutation_lock s.clock request s.locks).1 }

  abbrev pub begun : Server W → Server W
  begun s = record s { records = (begin_idempotency s.clock (begin_input p identity) s.records).1 }

  abbrev pub unlocked : Server W → Server W
  unlocked s = record s {
    locks = release_mutation_lock (or_empty resource_key) (holder_key identity) s.locks;
  }

  pub guarded_granted :
      (s s' : Server W) (o : Outcome ApplicationError Response)
      → truthy resource_key ≡ true
      → (acquire_mutation_lock s.clock request s.locks).0 ≡ true
      → handler (locked s) ≡ (o, s')
      → guarded p postgres_store identity resource_key handler s
        ≡ (made (sent p identity o), unlocked (recorded p identity (o, s')))
  unfolding postgres_store
  guarded_granted s s' o named granted e =
      rw (named, granted, perform_lem p identity handler (locked s) s' o e) refl

  pub guarded_refused :
      (s : Server W)
      → truthy resource_key ≡ true
      → (acquire_mutation_lock s.clock request s.locks).0 ≡ false
      → guarded p postgres_store identity resource_key handler s ≡ (
        threw (own concurrent),
        record (locked s) { records = abandon_idempotency identity s.records },
      )
  unfolding postgres_store
  guarded_refused s named refused = rw (named, refused) refl

  pub guarded_free :
      (s s' : Server W) (o : Outcome ApplicationError Response)
      → truthy resource_key ≡ false
      → handler s ≡ (o, s')
      → guarded p postgres_store identity resource_key handler s
        ≡ (made (sent p identity o), recorded p identity (o, s'))
  guarded_free s s' o named e = rw named (perform_lem p identity handler s s' o e)

  pub run_acquired :
      (s : Server W)
      → (begin_idempotency s.clock (begin_input p identity) s.records).0 ≡ acquired
      → run_identified p postgres_store identity resource_key handler s
        ≡ guarded p postgres_store identity resource_key handler (begun s)
  unfolding run_identified postgres_store
  run_acquired s e = rw e refl

  -- Nobody else holds the resource, if there is one.
  abbrev pub Grants : Server W → Type 0
  Grants s = truthy resource_key ≡ true → (acquire_mutation_lock s.clock request s.locks).0 ≡ true

  -- The state in which the handler is called.
  abbrev pub entered : Server W → Server W
  entered s = if truthy resource_key then locked (begun s) else begun s

  -- A call that acquired its key and its lock calls the handler, and records how it ends.
  pub run_carried_out :
      (s : Server W)
      → (begin_idempotency s.clock (begin_input p identity) s.records).0 ≡ acquired
      → Grants s
      → (locks : MutationLocks) × (run_identified p postgres_store identity resource_key handler s
          ≡ (
            made (sent p identity (handler (entered s)).0),
            record (recorded p identity (handler (entered s))) { locks = locks },
          ))
  run_carried_out s e free = elim (Bool-cases (truthy resource_key)) [
    | inl named ↦
        let at = ap (λ b. handler (if b then locked (begun s) else begun s)) (sym named) in
        let end = handler (entered s) in
        (
          (unlocked (recorded p identity end)).locks,
          run_acquired s e ∙ guarded_granted (begun s) end.1 end.0 named (free named) at,
        )
    | inr unnamed ↦
        let at = ap (λ b. handler (if b then locked (begun s) else begun s)) (sym unnamed) in
        let end = handler (entered s) in
        (end.1.locks, run_acquired s e ∙ guarded_free (begun s) end.1 end.0 unnamed at)
  ]

  -- A call whose record is completed answers with what is recorded.
  pub run_replayed :
      (s : Server W) (r : IdempotencyReplay)
      → (begin_idempotency s.clock (begin_input p identity) s.records).0 ≡ replay r
      → run_identified p postgres_store identity resource_key handler s
        ≡ (made (recorded_response p identity.idempotency_key r), begun s)
  unfolding run_identified postgres_store
  run_replayed s r e =
      rw e (of_result-made (recorded_response p identity.idempotency_key r) (begun s))
