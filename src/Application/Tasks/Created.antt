-- ===== src/Application/Tasks/Created.antt =====
-- What a created task starts with.
use canalis.Base.{true, false, In, ◌↔◌}
use canalis.Base.Action.{returned, threw, own}
use canalis.Application.Errors.{ApplicationError}
use canalis.Application.Tasks.{
  ProviderMode, deterministic, x402, mpp, PersistedTask, is_x402, is_deterministic, is_listed,
  invalid, actual_mint, actual_protocol,
}
use canalis.Core.Domain.{Task}
use canalis.Base.{
  ◌≤◌, String, Option, none, some, List, [], ◌∷◌, ◌≡◌, refl, ap, ◌∙◌, ◌⊎◌, inl, inr, All, map,
  arith, Option-cases,
}
use canalis.Base.Int.{ℤ, pos, ◌≤ℤ◌}
use canalis.Base.Result.{Result, ok, err}
use canalis.Application.Reservations.{Slot, allocate_reservations}
use canalis.Application.Reservations.Rounds.{InCap}
use canalis.Application.Reservations.Total.{allocate_reservations_total}
use canalis.Application.Tasks.{
  ParsedCreateTaskRequest, PersistedChannel, Sandbox, reserved, parse_usdc, parse_caps,
  request_error, task_of, channel_of, create_task,
}

-- A channel that only holds its reservation.
pub record IsReserved (id : String) (c : PersistedChannel) : Type 0 where
  pub task : c.task_id ≡ id
  pub status : c.status ≡ reserved
  pub unspent : c.spent_atomic ≡ pos 0
  pub unauthorized : c.cumulative_authorized_atomic ≡ pos 0
  pub ceiling : pos 1 ≤ℤ c.ceiling_atomic

-- A request that the checks before the reservations let pass.
pub record Fit (sandbox : Sandbox) (parsed : ParsedCreateTaskRequest) : Type 0 where
  pub budget : 1 ≤ parse_usdc parsed.budget_usd
  pub per_call : 1 ≤ parse_usdc parsed.max_per_call_usd
  pub per_call_fits : parse_usdc parsed.max_per_call_usd ≤ parse_usdc parsed.budget_usd
  pub live : parsed.mode ≡ x402 → parse_usdc parsed.budget_usd ≤ sandbox.max_task_atomic
  pub asset :
      (parsed.allowed_mints ≡ []) ⊎ In (actual_mint sandbox parsed.mode) parsed.allowed_mints
  pub protocol : In (actual_protocol parsed.mode) parsed.allowed_protocols
  pub network :
      parsed.mode ≡ x402
      → (parsed.allowed_networks ≡ []) ⊎ In sandbox.network parsed.allowed_networks
  pub chainless : parsed.mode ≡ deterministic → parsed.allowed_networks ≡ []

-- What the created task takes from its request: positive amounts, the cap within the budget.
pub record Bounded (parsed : ParsedCreateTaskRequest) (task : Task) : Type 0 where
  pub amount : task.budget.total_atomic ≡ pos (parse_usdc parsed.budget_usd)
  pub budget : pos 1 ≤ℤ task.budget.total_atomic
  pub cap : ℤ
  pub is_cap : task.policy.max_per_call_atomic ≡ some cap
  pub cap_amount : cap ≡ pos (parse_usdc parsed.max_per_call_usd)
  pub per_call : pos 1 ≤ℤ cap
  pub per_call_fits : cap ≤ℤ task.budget.total_atomic
  pub providers : task.policy.allowed_provider_ids ≡ parsed.allowed_providers
  pub owner : task.owner ≡ parsed.owner

is_x402_iff : (mode : ProviderMode) → (is_x402 mode ≡ true) ↔ (mode ≡ x402)
is_x402_iff deterministic = ground arith
is_x402_iff x402 = (λ _. refl, λ _. refl)
is_x402_iff mpp = ground arith

is_deterministic_iff :
    (mode : ProviderMode) → (is_deterministic mode ≡ true) ↔ (mode ≡ deterministic)
is_deterministic_iff deterministic = (λ _. refl, λ _. refl)
is_deterministic_iff x402 = ground arith
is_deterministic_iff mpp = ground arith

is_listed_iff : (xs : List String) → (is_listed xs ≡ false) ↔ (xs ≡ [])
is_listed_iff [] = (λ _. refl, λ _. refl)
is_listed_iff (x ∷ xs) = ground arith

module _ (sandbox : Sandbox) (id : String) (now : ℤ) (parsed : ParsedCreateTaskRequest) where
  request-Fit : request_error sandbox parsed ≡ none → Fit sandbox parsed
  unfolding request_error
  request-Fit h =
      let a = is_x402_iff parsed.mode in
      let b = is_deterministic_iff parsed.mode in
      let c = is_listed_iff parsed.allowed_mints in
      let d = is_listed_iff parsed.allowed_networks in
      record {
        budget = ground (arith, h);
        per_call = ground (arith, h);
        per_call_fits = ground (arith, h);
        live = λ m. ground (arith, h, m, a);
        asset = ground (arith, h, c);
        protocol = ground (arith, h);
        network = λ m. ground (arith, h, m, a, d);
        chainless = λ m. ground (arith, h, m, b, d);
      }

  request-Unfit :
      (e : ApplicationError) → request_error sandbox parsed ≡ some e → ¬ Fit sandbox parsed
  unfolding request_error
  request-Unfit e h fit = ground (
    arith,
    h,
    fit.budget,
    fit.per_call,
    fit.per_call_fits,
    fit.live,
    fit.asset,
    fit.protocol,
    fit.network,
    fit.chainless,
    is_x402_iff parsed.mode,
    is_deterministic_iff parsed.mode,
    is_listed_iff parsed.allowed_mints,
    is_listed_iff parsed.allowed_networks,
  )

  task_of-Bounded : Fit sandbox parsed → Bounded parsed (task_of sandbox id now parsed).task
  task_of-Bounded fit = record {
    amount = refl;
    budget = omega (arith, fit.budget);
    cap = pos (parse_usdc parsed.max_per_call_usd);
    is_cap = refl;
    cap_amount = refl;
    per_call = omega (arith, fit.per_call);
    per_call_fits = omega (arith, fit.per_call_fits);
    providers = refl;
    owner = refl;
  }

  channels-IsReserved :
      (ss : List Slot)
      → All InCap ss
      → All (λ c. IsReserved id c) (map (channel_of sandbox id now) ss)
  channels-IsReserved [] h = tt
  channels-IsReserved (s ∷ ss) (h, hs) = (
    record {
      task = refl;
      status = refl;
      unspent = refl;
      unauthorized = refl;
      ceiling = omega (arith, h);
    },
    channels-IsReserved ss hs,
  )

  channel_ids :
      (ss : List Slot)
      → map (λ (c : PersistedChannel). c.provider_id) (map (channel_of sandbox id now) ss)
        ≡ map (λ (s : Slot). s.provider_id) ss
  channel_ids [] = refl
  channel_ids (s ∷ ss) = ap (λ xs. s.provider_id ∷ xs) (channel_ids ss)

  create_allocated :
      (x : Option (Result (List Slot)))
      → request_error sandbox parsed ≡ none
      → allocate_reservations
          (parse_usdc parsed.budget_usd)
          parsed.allowed_providers
          (parse_caps parsed.provider_caps_usd)
        ≡ x
      → create_task sandbox id now parsed ≡ (elim x [
        | none ↦ none
        | some (err message) ↦ some (threw (own (invalid message)))
        | some (ok slots) ↦
            some (returned (task_of sandbox id now parsed, map (channel_of sandbox id now) slots))
      ])
  unfolding create_task
  create_allocated x h e = ground (arith, h, e)

  create_refused :
      (e : ApplicationError)
      → request_error sandbox parsed ≡ some e
      → create_task sandbox id now parsed ≡ some (threw (own e))
  unfolding create_task
  create_refused e h = ground (arith, h)

  -- The reservations of this request.
  abbrev pub reserves : Option (Result (List Slot))
  reserves =
      allocate_reservations (parse_usdc parsed.budget_usd) parsed.allowed_providers
        (parse_caps parsed.provider_caps_usd)

  -- A refusal has its reason: a check that fails, or reservations that are refused.
  abbrev pub Refused : ApplicationError → Type 0
  Refused e =
      (e.status ≡ 400)
      × ((¬ Fit sandbox parsed)
          ⊎ ((message : String) × (reserves ≡ some (err message)) × (e.message ≡ message)))

  abbrev pub Created : PersistedTask → List PersistedChannel → Type 0
  Created task channels =
      Fit sandbox parsed
      × Bounded parsed task.task
      × All (λ c. IsReserved task.task.id c) channels
      × (map (λ (c : PersistedChannel). c.provider_id) channels ≡ parsed.allowed_providers)

  request_status : (e : ApplicationError) → request_error sandbox parsed ≡ some e → e.status ≡ 400
  unfolding request_error
  request_status e h = ground (arith, h)

  -- The two ends of a call, with the task that is made.
  pub create_task_ends :
      ((e : ApplicationError) × (create_task sandbox id now parsed ≡ some (threw (own e)))
        × Refused e)
      ⊎ ((channels : List PersistedChannel) × (create_task sandbox id now parsed
            ≡ some (returned (task_of sandbox id now parsed, channels)))
          × Created (task_of sandbox id now parsed) channels)
  create_task_ends = elim (Option-cases (request_error sandbox parsed)) [
    | inr (e, h) ↦ inl (e, create_refused e h, (request_status e h, inl (request-Unfit e h)))
    | inl h ↦
        elim (allocate_reservations_total (parse_usdc parsed.budget_usd)
          (parse_caps parsed.provider_caps_usd) parsed.allowed_providers) [
            | inl (message, e) ↦ inl (
              invalid message,
              create_allocated (some (err message)) h e,
              (refl, inr (message, e, refl)),
            )
            | inr (ss, e, (fits, ids, covered)) ↦ inr (
              map (channel_of sandbox id now) ss,
              create_allocated (some (ok ss)) h e,
              (
                request-Fit h,
                task_of-Bounded (request-Fit h),
                channels-IsReserved ss fits,
                channel_ids ss ∙ ids,
              ),
            )
          ]
  ]

  -- Every request is answered. It is refused with an error of status 400, because it fails a check
  -- of its amounts, its asset, its protocol or its networks, or because the reservations are
  -- refused; or it passes those checks and a task is created whose budget and cap per call are the
  -- ones asked for, both positive and the cap within the budget, with exactly one channel for each
  -- allowed provider, in order, reserved for this task with a positive ceiling and nothing spent.
  pub create_task_total :
      ((e : ApplicationError) × (create_task sandbox id now parsed ≡ some (threw (own e)))
        × Refused e)
      ⊎ ((task : PersistedTask) × (channels : List PersistedChannel) × (create_task sandbox id now
              parsed
            ≡ some (returned (task, channels)))
          × Created task channels)
  create_task_total = elim create_task_ends [
    | inl refused ↦ inl refused
    | inr (channels, e, created) ↦ inr (task_of sandbox id now parsed, channels, e, created)
  ]
