-- ===== src/Web/Mutation.antt =====
-- apps/web/src/server/security.ts: `runIdempotentMutation`, around a handler that may do anything
-- to the world, and over a repository whose calls may reject. What the framework's constructor of
-- responses makes, and when it throws, is the platform's.
pub mod Store
pub mod Calls
pub mod Refused
pub mod Repeated
mod Tests
use Prim.Native.Char.{code}
use Prim.Native.String
use canalis.Base.{
  ℕ, ◌+◌, String, Option, none, some, List, [], ◌∷◌, Bool, true, false, not, ◌&&◌, ◌||◌, ltb, leb,
  eqb, if◌then◌else◌, truthy,
}
use canalis.Base.Dict.{Dict, lookup, insert}
use canalis.Base.Text.{template, trim, byte_length, first_chars}
use canalis.Base.Action.{Action, Thrown, own, ◌>>=◌, ◌>>◌, pure, throw, catch, finally, of_result}
use canalis.Base.Result.{Result}
use canalis.Application.Errors.{
  ApplicationErrorCode, ApplicationError, request_body_too_large, idempotency_key_invalid,
  idempotency_key_reused, idempotency_in_progress, concurrent_mutation,
}
use canalis.Persistence.Idempotency.{
  Identity, BeginInput, CompleteInput, IdempotencyReplay, IdempotencyBeginResult, acquired,
  in_flight, conflict, replay,
}
use canalis.Persistence.Locks.{LockRequest}
use canalis.Web.Requests.{
  Request, Platform, refusal, or_empty, request_fingerprint, idempotency_key,
}
use canalis.Web.Errors.{Response, ErrorEnvelope, api_error_response}

-- The repository's calls, which may also reject, as when the database is not reached.
pub record SecurityStore (S : Type 0) : Type 1 where
  pub begin_idempotency : BeginInput → Action S ApplicationError IdempotencyBeginResult
  pub complete_idempotency : CompleteInput → Action S ApplicationError (Unit {0})
  pub abandon_idempotency : Identity → Action S ApplicationError (Unit {0})
  pub acquire_mutation_lock : LockRequest → Action S ApplicationError Bool
  pub release_mutation_lock : (resource holder : String) → Action S ApplicationError (Unit {0})

-- The answer of a record that is completed.
abbrev pub recorded_response : Platform → String → IdempotencyReplay → Result Response
recorded_response p key r = p.new_response r.response_body r.response_status (
    ("content-type", r.response_content_type)
    ∷ ("idempotency-key", key)
    ∷ ("idempotency-replayed", "true")
    ∷ [])

abbrev pub content_type : Response → String
content_type response = elim (lookup "content-type" response.headers) [
  | none ↦ "application/json; charset=utf-8"
  | some value ↦ value
]

abbrev pub holder_key : Identity → String
holder_key identity =
    template (identity.idempotency_key ∷ ":" ∷ first_chars 16 identity.request_hash ∷ [])

abbrev pub lock_request : Identity → (resource : String) → LockRequest
lock_request identity resource = record {
  resource_key = resource;
  owner_wallet = identity.owner_wallet;
  operation = identity.operation;
  holder_key = holder_key identity;
  ttl_seconds = none;
}

abbrev pub begin_input : Platform → Identity → BeginInput
begin_input p identity = record {
  identity = identity;
  lease_seconds = none;
  ttl_seconds = some p.ttl_seconds;
}

abbrev pub concurrent : ApplicationError
concurrent =
    refusal concurrent_mutation
      "Another mutation is already changing this resource. Retry after it finishes." 409

abbrev pub key_reused : ApplicationError
key_reused =
    refusal idempotency_key_reused "This Idempotency-Key was already used with a different request."
      409

abbrev pub key_in_progress : ApplicationError
key_in_progress =
    refusal idempotency_in_progress
      "An identical mutation is already in progress. Retry with the same Idempotency-Key shortly."
      409

module _ {S : Type 0} where
  -- The inner `try`, the recording of the response, and the response that is sent.
  abbrev pub perform :
      Platform
      → SecurityStore S
      → Identity
      → Action S ApplicationError Response
      → Action S ApplicationError Response
  perform p store identity handler =
      catch handler (λ t. pure (api_error_response p.json t)) >>= λ response.
      store.complete_idempotency (record {
        identity = identity;
        response_status = response.status;
        response_body = response.body;
        response_content_type = some (content_type response);
        ttl_seconds = some p.ttl_seconds;
      })
      >> of_result (
          p.new_response response.body response.status
            (insert "idempotency-key" identity.idempotency_key response.headers))

  -- With the lock of the resource, or without it.
  abbrev pub after_lock :
      Platform
      → SecurityStore S
      → Identity
      → (resource : String) → Action S ApplicationError Response
      → Bool
      → Action S ApplicationError Response
  after_lock p store identity resource run true =
      finally run (store.release_mutation_lock resource (holder_key identity))
  after_lock p store identity resource run false =
      store.abandon_idempotency identity >> throw (own concurrent)

  -- What follows when the key was acquired: with a resource, its lock around the rest.
  abbrev pub guarded :
      Platform
      → SecurityStore S
      → Identity
      → Option String
      → Action S ApplicationError Response
      → Action S ApplicationError Response
  guarded p store identity resource_key handler =
      let run = perform p store identity handler in
      let resource = or_empty resource_key in
      if truthy resource_key
      then store.acquire_mutation_lock (lock_request identity resource)
        >>= after_lock p store identity resource run
      else run

  abbrev pub after_begin :
      Platform
      → SecurityStore S
      → Identity
      → Option String
      → Action S ApplicationError Response
      → IdempotencyBeginResult
      → Action S ApplicationError Response
  after_begin p store identity resource_key handler conflict = throw (own key_reused)
  after_begin p store identity resource_key handler in_flight = throw (own key_in_progress)
  after_begin p store identity resource_key handler (replay r) =
      of_result (recorded_response p identity.idempotency_key r)
  after_begin p store identity resource_key handler acquired =
      guarded p store identity resource_key handler

  -- All that follows once the request is identified.
  unfoldable pub run_identified :
      Platform
      → SecurityStore S
      → Identity
      → Option String
      → Action S ApplicationError Response
      → Action S ApplicationError Response
  run_identified p store identity resource_key handler =
      store.begin_idempotency (begin_input p identity)
      >>= after_begin p store identity resource_key handler

  -- To wait for `securityRepository()` may initialize the storage, or throw, before it hands out
  -- the store.
  unfoldable pub run_idempotent_mutation :
      Platform
      → (security_repository : Action S ApplicationError (Unit {0})) → SecurityStore S
      → Request
      → (owner_wallet operation : String) → (resource_key : Option String)
      → (handler : Action S ApplicationError Response) → Action S ApplicationError Response
  unfolding run_identified
  run_idempotent_mutation p security_repository store request owner_wallet operation resource_key
        handler =
      security_repository
      >> (request_fingerprint p request operation resource_key >>= λ hash.
          idempotency_key p request >>= λ key.
          run_identified p store
            (record {
              owner_wallet = owner_wallet;
              operation = operation;
              idempotency_key = key;
              request_hash = hash;
            })
            resource_key handler)
