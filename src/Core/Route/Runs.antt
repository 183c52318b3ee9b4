-- ===== src/Core/Route/Runs.antt =====
-- A call of `execute` is made of the orchestrator's steps, whatever its provider does.
use canalis.Base.{true}
use canalis.Base.{ℕ, String, Option, none, some, ◌≡◌, ◌≢◌, ◌⊎◌, inl, inr, refl, ap, subst, length}
use canalis.Base.Int.{ℤ}
use canalis.Base.Dict.{Dict, lookup}
use canalis.Base.Action.{Outcome, returned, threw, Thrown, error, own, alien}
use canalis.Core.Flow.{
  provider_not_found, provider_not_reserved, RouteFlow, ProviderRouteState, Orchestrator,
  RouteRejectionCode,
}
use canalis.Core.Authorize.{Verdict, refused, granted, authorize, fulfil_flow, fail_flow}
use canalis.Core.Authorize.Invariant.{IsSound}
use canalis.Core.Authorize.History.{Reach, IsAttributed, Reach-IsSound, Reach-IsAttributed}
use canalis.Providers.Types.{
  ProviderReceipt, ProviderRequest, ProviderQuote, PaymentAuthorization, ProviderResult,
  ProviderAdapter,
}
use canalis.Providers.Execute.{execute_provider_request}
use canalis.Providers.Execute.Rule.{execute_provider_request_rule, Decided, Ended}
use canalis.Core.Route.{
  Call, RouteExecutionResult, adapted, answer, authorizer, finish, reject_at_once, execute,
}
use canalis.Core.Route.Decided.{
  Decides, Run, nothing, rejects_at_once, refuses, grants, then_fulfils, then_fails, Run-Reach,
}

module _ {W : Type 0} (o : Orchestrator) (k r : String) (now : ℤ) where
  -- Before the authorization nothing has happened to the orchestrator.
  abbrev Before : Call W → Type 0
  Before c = (c.orchestrator ≡ o) × (c.active_flow ≡ none)

  -- Afterwards the active flow is the one that the authorizer has recorded.
  abbrev Granted : Call W → Type 0
  Granted c =
      (c.active_flow ≡ some (length o.flows))
      × ((a : PaymentAuthorization) × Decides o k r now (granted a) c.orchestrator)

  -- A rejection is a decision too; the authorizer throws nothing else, if the state object is there.
  abbrev Denied : Thrown RouteFlow → Call W → Type 0
  Denied t c =
      Before c ⊎ ((f : RouteFlow) × (t ≡ own f) × Decides o k r now (refused f) c.orchestrator)

  abbrev Authorized : Outcome RouteFlow PaymentAuthorization × Call W → Type 0
  Authorized (returned _, c) = Granted c
  Authorized (threw t, c) = Denied t c

  answer_rule :
      (c : Call W) (v : Verdict) (o' : Orchestrator)
      → c.orchestrator ≡ o
      → Decides o k r now v o'
      → Authorized (answer c v o')
  unfolding answer
  answer_rule c (granted a) o' same d = (ap (λ x. some (length x.flows)) same, (a, d))
  answer_rule c (refused f) o' same d = inr (f, refl, d)

  authorizer_rule :
      (q : ProviderQuote) (c : Call W) → Before c → Authorized (authorizer k r now q c)
  unfolding authorizer
  authorizer_rule q c (same, quiet) = go (lookup k c.orchestrator.provider_states) refl
    where
      go :
          (x : Option ProviderRouteState)
          → lookup k c.orchestrator.provider_states ≡ x
          → Authorized (elim x [
            | none ↦ (threw (alien true), c)
            | some state ↦
                let (verdict, o') = authorize k r state q now c.orchestrator in answer c verdict o'
          ])
      go none e = inl (same, quiet)
      go (some st) e =
          answer_rule c (authorize k r st q now c.orchestrator).0
            (authorize k r st q now c.orchestrator).1 same
            (subst
              (λ x.
                Decides x k r now (authorize k r st q now c.orchestrator).0
                  (authorize k r st q now c.orchestrator).1)
              same (st, q, e, refl))

  -- How the provider request of the call ends.
  abbrev Over : {Out : Type 0} → Outcome RouteFlow (ProviderResult Out) × Call W → Type 0
  Over (returned _, c) = Granted c
  Over (threw t, c) = Before c ⊎ (Granted c ⊎ Denied t c)

  fulfil_rule :
      (i : ℕ) (receipt : ProviderReceipt) (c : Call W)
      → c.active_flow ≡ some i
      → Granted c
      → Run o k r now (fulfil_flow i receipt c.orchestrator)
  fulfil_rule i receipt c e (last, (a, d)) =
      let at : i ≡ length o.flows = cc in
      then_fulfils a c.orchestrator receipt d (ap (λ n. fulfil_flow n receipt c.orchestrator) at)

  fail_rule :
      (i : ℕ) (message : String) (c : Call W)
      → c.active_flow ≡ some i
      → Granted c
      → Run o k r now (fail_flow i message c.orchestrator)
  fail_rule i message c e (last, (a, d)) =
      let at : i ≡ length o.flows = cc in
      then_fails a c.orchestrator message d (ap (λ n. fail_flow n message c.orchestrator) at)

  -- An error other than a rejection leaves a flow to fail only after a granted authorization.
  failed_rule :
      (t : Thrown RouteFlow) (i : ℕ) (message : String) (c : Call W)
      → ((f : RouteFlow) → t ≢ own f)
      → c.active_flow ≡ some i
      → Before c ⊎ (Granted c ⊎ Denied t c)
      → Run o k r now (fail_flow i message c.orchestrator)
  failed_rule t i message c other e (inl (same, quiet)) = absurd (cc)
  failed_rule t i message c other e (inr (inl g)) = fail_rule i message c e g
  failed_rule t i message c other e (inr (inr (inl (same, quiet)))) = absurd (cc)
  failed_rule t i message c other e (inr (inr (inr (f, is, d)))) = absurd (other f is)

  threw_rule :
      (t : Thrown RouteFlow) (c : Call W)
      → Before c ⊎ (Granted c ⊎ Denied t c)
      → Run o k r now c.orchestrator
  threw_rule t c (inl (same, _)) = nothing same
  threw_rule t c (inr (inl (_, (a, d)))) = grants a d
  threw_rule t c (inr (inr (inl (same, _)))) = nothing same
  threw_rule t c (inr (inr (inr (f, _, d)))) = refuses f d

  finish_rule :
      {Out : Type 0} (x : Outcome RouteFlow (ProviderResult Out)) (m : Option ℕ) (c : Call W)
      → c.active_flow ≡ m
      → Over (x, c)
      → Run o k r now (finish x m c).1.orchestrator
  unfolding finish
  finish_rule (returned result) (some i) c e h = fulfil_rule i result.receipt c e h
  finish_rule (returned result) none c e (_, (a, d)) = grants a d
  finish_rule (threw (own flow)) (some i) c e h = threw_rule (own flow) c h
  finish_rule (threw (own flow)) none c e h = threw_rule (own flow) c h
  finish_rule (threw (error message)) (some i) c e h =
      failed_rule (error message) i message c (λ f d. cc) e h
  finish_rule (threw (error message)) none c e h = threw_rule (error message) c h
  finish_rule (threw (alien b)) (some i) c e h = failed_rule (alien b) i _ c (λ f d. cc) e h
  finish_rule (threw (alien b)) none c e h = threw_rule (alien b) c h

module _ {W In Out : Type 0} (providers : Dict (ProviderAdapter W ⊥ In Out)) (hash : Out → String)
    (id : String) (request : ProviderRequest In) (now receipt_time : ℤ) where
  request_rule :
      (provider : ProviderAdapter W ⊥ In Out) (c : Call W)
      → c.active_flow ≡ none
      → Over c.orchestrator id request.request_id now (
          execute_provider_request
            (adapted provider)
            request
            (authorizer id request.request_id now)
            hash
            receipt_time
            c)
  request_rule provider c quiet = to_Over _ (
      execute_provider_request_rule (adapted provider) request
        (authorizer id request.request_id now) hash receipt_time
        (Before c.orchestrator id request.request_id now)
        (Granted c.orchestrator id request.request_id now)
        (Denied c.orchestrator id request.request_id now) (λ s h. h)
        (λ q s h. to_Decided _ (authorizer_rule c.orchestrator id request.request_id now q s h))
        (λ q a s h. h) c (refl, quiet))
    where
      to_Over :
          (x : Outcome RouteFlow (ProviderResult Out) × Call W)
          → Ended
              (adapted provider)
              request
              (authorizer id request.request_id now)
              hash
              receipt_time
              (Before c.orchestrator id request.request_id now)
              (Granted c.orchestrator id request.request_id now)
              (Denied c.orchestrator id request.request_id now)
              x
          → Over c.orchestrator id request.request_id now x
      to_Over (returned _, s) h = h
      to_Over (threw _, s) h = h

      to_Decided :
          (x : Outcome RouteFlow PaymentAuthorization × Call W)
          → Authorized c.orchestrator id request.request_id now x
          → Decided
              (adapted provider)
              request
              (authorizer id request.request_id now)
              hash
              receipt_time
              (Before c.orchestrator id request.request_id now)
              (Granted c.orchestrator id request.request_id now)
              (Denied c.orchestrator id request.request_id now)
              x
      to_Decided (returned _, s) h = h
      to_Decided (threw _, s) h = h

  abbrev Ends : Call W → Outcome RouteFlow (RouteExecutionResult Out) × Call W → Type 0
  Ends c x = Run c.orchestrator id request.request_id now x.1.orchestrator

  -- Whatever its provider quotes, returns or throws, a call of `execute` that starts with no active
  -- flow does one of these to the orchestrator: nothing; one rejection of its own request; or one
  -- authorization of it, after which it changes at most the flow that was then recorded, once, to
  -- fulfilled or to failed.
  pub execute-Run :
      (c : Call W)
      → c.active_flow ≡ none
      → Run c.orchestrator id request.request_id now
          (execute providers hash id request now receipt_time c).1.orchestrator
  unfolding execute reject_at_once
  execute-Run c quiet = at_provider (lookup id providers)
    where
      rejected_at_once :
          (code : RouteRejectionCode) (message : String)
          → Ends c (reject_at_once id request.request_id code message now c)
      rejected_at_once code message = rejects_at_once code message refl

      at_state :
          (provider : ProviderAdapter W ⊥ In Out) (x : Option ProviderRouteState)
          → Ends c (elim x [
            | none ↦
                reject_at_once id request.request_id provider_not_reserved
                  "No task channel ceiling was reserved for this provider." now c
            | some _ ↦
                let (outcome, c') =
                  execute_provider_request
                    (adapted provider)
                    request
                    (authorizer id request.request_id now)
                    hash
                    receipt_time
                    c in
                finish outcome c'.active_flow c'
          ])
      at_state provider none = rejected_at_once provider_not_reserved _
      at_state provider (some _) =
          finish_rule c.orchestrator id request.request_id now _ _ _ refl
            (request_rule provider c quiet)

      at_provider :
          (x : Option (ProviderAdapter W ⊥ In Out))
          → Ends c (elim x [
            | none ↦
                reject_at_once id request.request_id provider_not_found
                  "The provider is not registered." now c
            | some provider ↦ elim (lookup id c.orchestrator.provider_states) [
              | none ↦
                  reject_at_once id request.request_id provider_not_reserved
                    "No task channel ceiling was reserved for this provider." now c
              | some _ ↦
                  let (outcome, c') =
                    execute_provider_request
                      (adapted provider)
                      request
                      (authorizer id request.request_id now)
                      hash
                      receipt_time
                      c in
                  finish outcome c'.active_flow c'
            ]
          ])
      at_provider none = rejected_at_once provider_not_found _
      at_provider (some provider) = at_state provider (lookup id c.orchestrator.provider_states)

  pub execute-Reach :
      (c : Call W)
      → c.active_flow ≡ none
      → Reach c.orchestrator (execute providers hash id request now receipt_time c).1.orchestrator
  execute-Reach c quiet = Run-Reach c.orchestrator id request.request_id now _ (execute-Run c quiet)

  -- A call of `execute` that starts with no active flow keeps the books sound and attributed: its
  -- provider cannot take the task over its budget, its ceiling or its cap.
  pub execute-IsSound :
      (c : Call W)
      → c.active_flow ≡ none
      → IsSound c.orchestrator
      → IsAttributed c.orchestrator
      → IsSound (execute providers hash id request now receipt_time c).1.orchestrator
        × IsAttributed (execute providers hash id request now receipt_time c).1.orchestrator
  execute-IsSound c quiet sound attributed = (
    Reach-IsSound (execute-Reach c quiet) sound,
    Reach-IsAttributed (execute-Reach c quiet) attributed,
  )
