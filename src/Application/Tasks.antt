-- ===== src/Application/Tasks.antt =====
-- packages/application/src/service.ts: `createTask` up to its call of the repository, with
-- `parseUsdc` of contracts.ts and the stored types of repository.ts. The request is the one that
-- `parseCreateTaskRequest` returns; the identifier, the clock and the constants of the sandbox
-- are arguments.
pub mod Created
mod Tests
use Prim.Native.Char.{code}
use Prim.Native.String
use canalis.Base.{
  ℕ, zero, suc, ◌+◌, ◌-◌, ◌*◌, String, Option, none, some, List, [], ◌∷◌, Bool, true, false, not,
  ◌&&◌, ◌==◌, ltb, leb, eqb, if◌then◌else◌, map, includes,
}
use canalis.Base.Int.{ℤ, pos, ◌+ℤ◌}
use canalis.Base.Dict.{Dict}
use canalis.Base.Text.{template, first_chars}
use canalis.Base.Action.{Outcome, returned, threw, own}
use canalis.Application.Errors.{
  ApplicationErrorCode, ApplicationError, validation_error, live_sandbox_budget_exceeded,
}
use canalis.Base.Result.{Result, ok, err}
use canalis.Core.Domain.{TaskStatus, Budget, Policy, Task}
use canalis.Application.Reservations.{Slot, allocate_reservations}

pub data ProviderMode : Type 0 where
  deterministic : ProviderMode
  x402 : ProviderMode
  mpp : ProviderMode

pub record ParsedCreateTaskRequest : Type 0 where
  pub owner : String
  pub agent_id : String
  pub budget_usd : String
  pub max_per_call_usd : String
  pub allowed_providers : List String
  pub blocked_providers : List String
  pub provider_caps_usd : Dict String
  pub allowed_networks : List String
  pub allowed_mints : List String
  pub allowed_protocols : List String
  pub policy_source_id : Option String
  pub policy_source_version : Option ℕ
  pub policy_source_name : String
  pub policy_overrides : Dict String
  pub mode : ProviderMode
  pub initial_status : TaskStatus
  pub expiry_minutes : ℕ

pub record PersistedTask : Type 0 where
  pub task : Task
  pub mode : ProviderMode
  pub updated_at : ℤ

pub data ChannelStatus : Type 0 where
  reserved : ChannelStatus
  opened : ChannelStatus
  sealed : ChannelStatus
  distributed : ChannelStatus
  recovered : ChannelStatus
  failed : ChannelStatus

pub record PersistedChannel : Type 0 where
  pub task_id : String
  pub provider_id : String
  pub program_address : String
  pub network : String
  pub channel_address : Option String
  pub ceiling_atomic : ℤ
  pub cumulative_authorized_atomic : ℤ
  pub spent_atomic : ℤ
  pub status : ChannelStatus
  pub open_transaction_signature : Option String
  pub settle_transaction_signature : Option String
  pub distribution_transaction_signature : Option String
  pub refund_transaction_signature : Option String
  pub recovery_state : Option (Dict String)
  pub created_at : ℤ
  pub updated_at : ℤ

-- `BigInt(text)` of a text of digits, after those already read.
unfoldable pub read_digits : ℕ → String → ℕ
read_digits n String.[] = n
read_digits n (String.◌∷◌ c s) = read_digits (n * 10 + (code c - 48)) s

-- The part of a text before its first dot, and the part after it up to the next one.
unfoldable pub before_dot : String → String
before_dot String.[] = ""
before_dot (String.◌∷◌ c s) =
    let rest = before_dot s in if eqb (code c) 46 then "" else String.◌∷◌ c rest

unfoldable pub after_dot : String → String
unfolding before_dot
after_dot String.[] = ""
after_dot (String.◌∷◌ c s) =
    let rest = after_dot s in if eqb (code c) 46 then before_dot s else rest

unfoldable pub parse_usdc : String → ℕ
unfolding read_digits before_dot after_dot
parse_usdc value =
    let padded = first_chars 6 (String.◌++◌ (after_dot value) "000000") in
    read_digits 0 (before_dot value) * 1000000 + read_digits 0 padded

abbrev pub is_x402 : ProviderMode → Bool
is_x402 x402 = true
is_x402 _ = false

abbrev pub is_deterministic : ProviderMode → Bool
is_deterministic deterministic = true
is_deterministic _ = false

abbrev pub actual_protocol : ProviderMode → String
actual_protocol deterministic = "demo"
actual_protocol x402 = "x402"
actual_protocol mpp = "mpp"

-- `list.length > 0`
abbrev pub is_listed : List String → Bool
is_listed [] = false
is_listed (_ ∷ _) = true

-- What the sandbox and the chain are called.
pub record Sandbox : Type 0 where
  pub mint : String
  pub max_task_atomic : ℕ
  pub network : String
  pub program_address : String

abbrev pub actual_mint : Sandbox → ProviderMode → String
actual_mint sandbox mode = if is_x402 mode then sandbox.mint else "USDC"

abbrev pub refusal_of : ApplicationErrorCode → String → ApplicationError
refusal_of c message = record { code = c; message = message; status = 400; details = none }

abbrev pub invalid : String → ApplicationError
invalid message = refusal_of validation_error message

-- `if (test) throw error;` one after the other: the error of the first test that is true.
abbrev pub first_refusal : List (Bool × ApplicationError) → Option ApplicationError
first_refusal [] = none
first_refusal ((wrong, e) ∷ tests) = if wrong then some e else first_refusal tests

-- The checks before the allocation, in order.
unfoldable pub request_error : Sandbox → ParsedCreateTaskRequest → Option ApplicationError
unfolding parse_usdc
request_error sandbox parsed =
    let budget = parse_usdc parsed.budget_usd in
    let per_call = parse_usdc parsed.max_per_call_usd in
    let mint = actual_mint sandbox parsed.mode in
    let protocol = actual_protocol parsed.mode in
    first_refusal (
      (leb budget 0, invalid "Budget and per-call cap must both be greater than zero.")
      ∷ (leb per_call 0, invalid "Budget and per-call cap must both be greater than zero.")
      ∷ (ltb budget per_call, invalid "Per-call cap cannot exceed the task budget.")
      ∷ (
        is_x402 parsed.mode && ltb sandbox.max_task_atomic budget,
        refusal_of live_sandbox_budget_exceeded
            "Live devnet sandbox tasks are capped at 5 test USDC.",
      )
      ∷ (
        is_listed parsed.allowed_mints && not (includes parsed.allowed_mints mint),
        invalid (template ("Policy does not allow the task asset " ∷ mint ∷ "." ∷ [])),
      )
      ∷ (
        not (includes parsed.allowed_protocols protocol),
        invalid (template ("Policy does not allow " ∷ protocol ∷ " execution." ∷ [])),
      )
      ∷ (
        is_x402 parsed.mode
            && is_listed parsed.allowed_networks
            && not (includes parsed.allowed_networks sandbox.network),
        invalid (
            template
              ("Policy does not allow the live sandbox network " ∷ sandbox.network ∷ "." ∷ [])),
      )
      ∷ (
        is_deterministic parsed.mode && is_listed parsed.allowed_networks,
        invalid "Deterministic tasks cannot satisfy a blockchain network-restricted policy.",
      )
      ∷ [])

-- `Object.entries(...).map(([id, value]) => [id, parseUsdc(value)])`
abbrev pub parse_caps : Dict String → Dict ℕ
parse_caps [] = []
parse_caps ((id, value) ∷ rest) = (id, parse_usdc value) ∷ parse_caps rest

abbrev pub caps_atomic : Dict ℕ → Dict ℤ
caps_atomic [] = []
caps_atomic ((id, n) ∷ rest) = (id, pos n) ∷ caps_atomic rest

abbrev pub task_of : Sandbox → (id : String) → (now : ℤ) → ParsedCreateTaskRequest → PersistedTask
task_of sandbox id now parsed = record {
  task = record {
    id = id;
    owner = parsed.owner;
    agent_id = parsed.agent_id;
    budget = record {
      mint = actual_mint sandbox parsed.mode;
      total_atomic = pos (parse_usdc parsed.budget_usd);
    };
    policy = record {
      allowed_provider_ids = parsed.allowed_providers;
      blocked_provider_ids = some parsed.blocked_providers;
      max_per_call_atomic = some (pos (parse_usdc parsed.max_per_call_usd));
      provider_caps_atomic = some (caps_atomic (parse_caps parsed.provider_caps_usd));
      allowed_networks = some parsed.allowed_networks;
      allowed_mints = some parsed.allowed_mints;
      allowed_protocols = some parsed.allowed_protocols;
      source_policy_id = parsed.policy_source_id;
      source_policy_version = parsed.policy_source_version;
      source_policy_name = some parsed.policy_source_name;
      overrides = some parsed.policy_overrides;
    };
    status = parsed.initial_status;
    created_at = now;
    expires_at = now +ℤ pos (parsed.expiry_minutes * 60);
  };
  mode = parsed.mode;
  updated_at = now;
}

abbrev pub channel_of : Sandbox → (id : String) → (now : ℤ) → Slot → PersistedChannel
channel_of sandbox id now slot = record {
  task_id = id;
  provider_id = slot.provider_id;
  program_address = sandbox.program_address;
  network = sandbox.network;
  channel_address = none;
  ceiling_atomic = pos slot.allocated;
  cumulative_authorized_atomic = pos 0;
  spent_atomic = pos 0;
  status = reserved;
  open_transaction_signature = none;
  settle_transaction_signature = none;
  distribution_transaction_signature = none;
  refund_transaction_signature = none;
  recovery_state = none;
  created_at = now;
  updated_at = now;
}

-- The task and the channels that are handed to the repository; `none` is the allocation's.
unfoldable pub create_task :
    Sandbox
    → (id : String) → (now : ℤ) → ParsedCreateTaskRequest
    → Option (Outcome ApplicationError (PersistedTask × List PersistedChannel))
unfolding request_error
create_task sandbox id now parsed = elim (request_error sandbox parsed) [
  | some e ↦ some (threw (own e))
  | none ↦
      elim (allocate_reservations (parse_usdc parsed.budget_usd) parsed.allowed_providers
        (parse_caps parsed.provider_caps_usd)) [
          | none ↦ none
          | some (err message) ↦ some (threw (own (invalid message)))
          | some (ok slots) ↦
              some (returned (task_of sandbox id now parsed, map (channel_of sandbox id now) slots))
        ]
]
