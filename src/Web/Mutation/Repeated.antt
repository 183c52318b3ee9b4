-- ===== src/Web/Mutation/Repeated.antt =====
-- That the lock of a resource is given back, and that a request is carried out once.
use text.Mathlib.TextPositions.{eq_refl}
use canalis.Base.{ℕ, Bool, leb, eqb, not, ◌&&◌}
use canalis.Base.Dict.{Dict}
use canalis.Base.Result.{ok}
use canalis.Base.Action.{finally}
use canalis.Persistence.Idempotency.{CompleteInput}
use canalis.Web.Mutation.{SecurityStore, perform}
use canalis.Web.Mutation.Calls.{made}
use canalis.Base.{[], ◌∷◌, sym}
use canalis.Base.{
  ◌+◌, ◌≤◌, String, Option, none, some, true, ◌==◌, ◌≡◌, ◌≢◌, refl, arith, eq_iff, truthy,
  Bool-cases, if_rule, subst, ap, ◌∙◌, inl, inr,
}
use canalis.Base.Dict.{lookup, insert, lookup-insert}
use canalis.Base.Action.{Action, Outcome, returned}
use canalis.Application.Errors.{ApplicationError}
use canalis.Persistence.Clock.{seconds}
use canalis.Persistence.Idempotency.{
  Identity, IdempotencyRecord, acquired, begin_idempotency, select, is_running, ttl,
}
use canalis.Persistence.Locks.{acquire_mutation_lock, MutationLocks}
use canalis.Web.Requests.{Platform, or_empty}
use canalis.Web.Errors.{Response}
use canalis.Web.Mutation.{lock_request, begin_input, content_type, holder_key, run_identified}
use canalis.Web.Mutation.Store.{Server, postgres_store}
use canalis.Persistence.Idempotency.{IdempotencyReplay, replay}
use canalis.Persistence.Idempotency.Statements.{World, Reach}
use canalis.Persistence.Idempotency.Statements.Replays.{
  begin_idempotency_after, completed_row, complete_idempotency_row,
}
use canalis.Web.Mutation.Calls.{
  answer, completion, recorded, holder, release_mutation_lock_lem, refused_lem, locked, begun,
  Grants, entered, run_carried_out, run_replayed,
}

-- The statuses at which a response with a body can be made.
abbrev pub fits : ℕ → Bool
fits status =
    leb 200 status
    && leb status 599
    && not (eqb status 204)
    && not (eqb status 205)
    && not (eqb status 304)

-- What is documented of the constructor of responses: at such a status, it makes one of this status
-- and body, which has the type of content that the headers give, if they give one.
abbrev pub Constructs : Platform → Type 0
Constructs p =
    (body : String) (status : ℕ) (headers : Dict String)
    → fits status ≡ true
    → (r : Response) × (p.new_response body status headers ≡ ok r)
      × (r.status ≡ status)
      × (r.body ≡ body)
      × ((value : String)
          → lookup "content-type" headers ≡ some value
          → lookup "content-type" r.headers ≡ some value)

given-content_type :
    (r : Response) (value : String)
    → lookup "content-type" r.headers ≡ some value
    → content_type r ≡ value
given-content_type r value e = rw (content_type, e) refl

head-content_type :
    (value : String) (rest : Dict String)
    → lookup "content-type" (("content-type", value) ∷ rest) ≡ some value
unfolding lookup
head-content_type value rest = refl

-- A body of a `try` is followed by the release, however it ends.
finally_released :
    {W : Type 0} (resource key : String) (run : Action (Server W) ApplicationError Response)
    (s : Server W)
    → holder ((finally run (postgres_store.release_mutation_lock resource key) s).1.locks resource)
      ≢ some key
unfolding postgres_store
finally_released {W} resource key run s = go (run s)
  where
    go :
        (x : Outcome ApplicationError Response × Server W)
        → holder (
            (finally (λ _. x) (postgres_store.release_mutation_lock resource key) s).1.locks
              resource)
          ≢ some key
    go (o, s') = release_mutation_lock_lem resource key s'.locks

module _ {W : Type 0} (p : Platform)
    (complete : CompleteInput → Action (Server W) ApplicationError (Unit {0})) (identity : Identity)
    (resource_key : Option String) (handler : Action (Server W) ApplicationError Response) where
  -- The repository, with a call to record the answers that may do anything, or reject.
  abbrev pub failing : SecurityStore (Server W)
  failing = record postgres_store { complete_idempotency = complete }

  -- However the handler, the recording of its answer and the making of the response end, and
  -- whatever they change, a call that acquired its key does not leave the resource locked in its name.
  pub run_identified-Released :
      (s : Server W)
      → truthy resource_key ≡ true
      → (begin_idempotency s.clock (begin_input p identity) s.records).0 ≡ acquired
      → holder (
          (run_identified p failing identity resource_key handler s).1.locks
            (or_empty resource_key))
        ≢ some (holder_key identity)
  unfolding run_identified postgres_store
  run_identified-Released s named e =
      let asked = lock_request identity (or_empty resource_key) in
      let start = begun p identity resource_key handler s in
      elim (Bool-cases (acquire_mutation_lock s.clock asked s.locks).0) [
        | inl granted ↦
            rw (e, named, granted)
              (finally_released (or_empty resource_key) (holder_key identity)
                (perform p failing identity handler) (locked p identity resource_key handler start))
        | inr refused ↦ rw (e, named, refused) (refused_lem s.clock asked s.locks refused)
      ]

module _ {W : Type 0} (p : Platform) (identity : Identity) (resource_key : Option String)
    (handler : Action (Server W) ApplicationError Response) where
  -- What the record of the handler's end answers.
  abbrev replay_of : Outcome ApplicationError Response → IdempotencyReplay
  replay_of o = record {
    response_status = (answer p identity o).status;
    response_body = (answer p identity o).body;
    response_content_type = content_type (answer p identity o);
  }

  -- The tables as the repository's callers see them.
  abbrev pub view : Server W → World
  view s = record { clock = s.clock; table = s.records; leases = λ _ _ _. none }

  -- The same status, body and type of content.
  abbrev pub Agrees : Response → Response → Type 0
  Agrees a b = (a.status ≡ b.status) × (a.body ≡ b.body) × (content_type a ≡ content_type b)

  abbrev pub later : World → MutationLocks → W → Server W
  later u locks world = record { clock = u.clock; records = u.table; locks = locks; world = world }

  -- A call that acquired its key, with the resource free, and whose handler leaves its record in
  -- progress and answers at a status of a response with a body and with a type of content, answers
  -- with a response; and any later call of the same identity within the lifetime
  -- of the record, whatever statements ran on the records between, answers with a response of the
  -- same status, body and type of content, without calling its handler: the world and the locks
  -- stay as they are.
  pub run_identified_twice :
      Constructs p
      → (s : Server W) (row : IdempotencyRecord) (value : String)
      → fits (answer p identity (handler (entered p identity resource_key handler s)).0).status
        ≡ true
      → lookup "content-type"
          (answer p identity (handler (entered p identity resource_key handler s)).0).headers
        ≡ some value
      → (begin_idempotency s.clock (begin_input p identity) s.records).0 ≡ acquired
      → Grants p identity resource_key handler s
      → select identity (handler (entered p identity resource_key handler s)).1.records ≡ some row
      → is_running identity row ≡ true
      → (u : World)
      → Reach (view (run_identified p postgres_store identity resource_key handler s).1) u
      → u.clock
        ≤ (run_identified p postgres_store identity resource_key handler s).1.clock
          + seconds (ttl (some p.ttl_seconds))
      → (locks : MutationLocks) (world : W) (another : Action (Server W) ApplicationError Response)
      → let (o, _) = run_identified p postgres_store identity resource_key handler s in
        let (o', s') =
          run_identified p postgres_store identity resource_key another (later u locks world) in
        (first : Response) × (second : Response) × (o ≡ returned first)
        × (o' ≡ returned second)
        × Agrees second first
        × (s'.world ≡ world)
        × (s'.locks ≡ locks)
  unfolding completed_row
  run_identified_twice constructs s row value fit typed e free kept running u reach fresh locks
        world another =
      let (locks', ran) = run_carried_out p identity resource_key handler s e free in
      let (o, s') = handler (entered p identity resource_key handler s) in
      let done = completion p identity o in
      let row' = completed_row s'.clock done row in
      let Ran : Outcome ApplicationError Response × Server W → Type 0 = λ x. Reach (view x.1) u in
      let same : row.request_hash ≡ identity.request_hash =
        ground (arith, running, eq_iff row.request_hash identity.request_hash) in
      let answered =
        begin_idempotency_after (view (record (recorded p identity (o, s')) { locks = locks' })) u
          identity row' (replay_of o)
          (complete_idempotency_row s'.clock done s'.records row kept running) refl refl refl refl
          (subst Ran ran reach)
          (subst (λ x. u.clock ≤ x.1.clock + seconds (ttl (some p.ttl_seconds))) ran fresh)
          identity.request_hash none (some p.ttl_seconds) in
      let replayed =
        run_replayed p identity resource_key another (later u locks world) (replay_of o) (
          answered
          ∙ if_rule (λ x. x ≡ replay (replay_of o)) (row.request_hash == identity.request_hash)
              (λ _. refl) (λ n. cc (n, same, eq_refl identity.request_hash))) in
      let (first, made_first, status1, body1, type1) =
        constructs (answer p identity o).body (answer p identity o).status
          (insert "idempotency-key" identity.idempotency_key (answer p identity o).headers) fit in
      let (second, made_second, status2, body2, type2) =
        constructs (answer p identity o).body (answer p identity o).status
          (("content-type", content_type (answer p identity o))
            ∷ ("idempotency-key", identity.idempotency_key)
            ∷ ("idempotency-replayed", "true")
            ∷ [])
          fit in
      let value_is = given-content_type (answer p identity o) value typed in
      (
        first,
        second,
        ap (λ x. x.0) ran ∙ ap made made_first,
        ap (λ x. x.0) replayed ∙ ap made made_second,
        (
          status2 ∙ sym status1,
          body2 ∙ sym body1,
          given-content_type second value (
                type2 value
                  (head-content_type (content_type (answer p identity o)) _ ∙ ap some value_is))
              ∙ sym (
                  given-content_type first value (
                    type1 value (
                      lookup-insert "idempotency-key" "content-type" identity.idempotency_key
                        (answer p identity o).headers
                      ∙ typed))),
        ),
        ap (λ x. x.1.world) replayed,
        ap (λ x. x.1.locks) replayed,
      )
