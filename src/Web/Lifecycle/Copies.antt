-- ===== src/Web/Lifecycle/Copies.antt =====
-- apps/web/src/app/api/tasks/[id]/lifecycle/route.ts: the actions that copy a task, `rerun` and
-- `duplicate`, up to the request that they hand to `createTask`; and that the copy has the bounds of
-- the original. The request is taken to be one that `parseCreateTaskRequest` leaves as it is.
use canalis.Base.{
  ℕ, suc, ◌/◌, ◌%◌, String, Option, none, some, List, [], ◌∷◌, ltb, eqb, is_empty, if◌then◌else◌,
  ◌≡◌, refl, ap, subst, sym, ◌∙◌, inl, inr,
}
use canalis.Base.Int.{ℤ, pos, negsuc, pos_part, ◌-ℤ◌}
use canalis.Base.Dict.{Dict}
use canalis.Base.Action.{returned}
use canalis.Application.Tasks.{
  ProviderMode, ParsedCreateTaskRequest, PersistedTask, PersistedChannel, Sandbox, actual_protocol,
  parse_usdc, parse_caps, caps_atomic, task_of, create_task,
}
use canalis.Application.Tasks.Created.{create_task_ends}
use canalis.Core.Domain.{TaskStatus, draft, active, Task}
use canalis.Web.Amounts.{show, pad_start, strip_zeros, with_fraction, atomic_to_usd}
use canalis.Web.Amounts.Printed.{parse_usdc-atomic_to_usd}

pub data CopyAction : Type 0 where
  duplicate : CopyAction
  rerun : CopyAction

-- `atomicToUsd` of any integer: the quotient and the remainder of a negative one are not positive.
abbrev pub usd_of : ℤ → String
usd_of (pos n) = atomic_to_usd n
usd_of (negsuc n) =
    let whole = suc n / 1000000 in
    let rest = suc n % 1000000 in
    with_fraction (if eqb whole 0 then "0" else String.◌∷◌ "-" (show whole))
      (strip_zeros (pad_start 6 (if eqb rest 0 then "0" else String.◌∷◌ "-" (show rest))))

abbrev pub caps_usd : Dict ℤ → Dict String
caps_usd [] = []
caps_usd ((id, atomic) ∷ rest) = (id, usd_of atomic) ∷ caps_usd rest

abbrev pub or_else {ℓ} : {A : Type ℓ} → Option A → A → A
or_else none fallback = fallback
or_else (some a) _ = a

-- `...(value ? { field: value } : {})`
abbrev pub if_truthy : Option String → Option String
if_truthy none = none
if_truthy (some s) = if is_empty s then none else some s

abbrev pub if_nonzero : Option ℕ → Option ℕ
if_nonzero none = none
if_nonzero (some n) = if eqb n 0 then none else some n

abbrev pub or_protocol : ProviderMode → List String → List String
or_protocol mode [] = actual_protocol mode ∷ []
or_protocol mode (x ∷ xs) = x ∷ xs

-- `Math.max(1, Math.min(10_080, Number(durationSeconds / 60n)))`; a negative quotient gives 1.
abbrev pub expiry_minutes : ℤ → ℕ
expiry_minutes duration =
    let minutes = pos_part duration / 60 in
    let most = if ltb 10080 minutes then 10080 else minutes in if ltb most 1 then 1 else most

abbrev pub initial_status : CopyAction → TaskStatus
initial_status rerun = active
initial_status duplicate = draft

unfoldable pub copy_request :
    CopyAction → (wallet_address : String) → PersistedTask → ParsedCreateTaskRequest
copy_request action wallet_address existing =
    let task = existing.task in
    let policy = task.policy in
    record {
      owner = wallet_address;
      agent_id = task.agent_id;
      budget_usd = usd_of task.budget.total_atomic;
      max_per_call_usd = usd_of (or_else policy.max_per_call_atomic task.budget.total_atomic);
      allowed_providers = policy.allowed_provider_ids;
      blocked_providers = or_else policy.blocked_provider_ids [];
      provider_caps_usd = caps_usd (or_else policy.provider_caps_atomic []);
      allowed_networks = or_else policy.allowed_networks [];
      allowed_mints = or_else policy.allowed_mints [];
      allowed_protocols = or_protocol existing.mode (or_else policy.allowed_protocols []);
      policy_source_id = if_truthy policy.source_policy_id;
      policy_source_version = if_nonzero policy.source_policy_version;
      policy_source_name = or_else (if_truthy policy.source_policy_name) "Inline bounded policy";
      policy_overrides = or_else policy.overrides [];
      mode = existing.mode;
      initial_status = initial_status action;
      expiry_minutes = expiry_minutes (task.expires_at -ℤ task.created_at);
    }

parse_caps-caps_usd : (caps : Dict ℕ) → parse_caps (caps_usd (caps_atomic caps)) ≡ caps
parse_caps-caps_usd [] = refl
parse_caps-caps_usd ((id, n) ∷ rest) =
    rw (parse_usdc-atomic_to_usd n, parse_caps-caps_usd rest) refl

-- What a task is at first: ready to run, or to be looked over.
abbrev pub Starts : CopyAction → TaskStatus → Type 0
Starts rerun status = status ≡ active
Starts duplicate status = status ≡ draft

initial_status-Starts : (action : CopyAction) → Starts action (initial_status action)
initial_status-Starts rerun = refl
initial_status-Starts duplicate = refl

-- What a copy has of its original: the bounds and the lists of its policy.
pub record IsCopy (action : CopyAction) (wallet : String) (old new : Task) : Type 0 where
  pub budget : new.budget.total_atomic ≡ old.budget.total_atomic
  pub per_call :
      new.policy.max_per_call_atomic
      ≡ some (or_else old.policy.max_per_call_atomic old.budget.total_atomic)
  pub caps : new.policy.provider_caps_atomic ≡ some (or_else old.policy.provider_caps_atomic [])
  pub allowed : new.policy.allowed_provider_ids ≡ old.policy.allowed_provider_ids
  pub blocked : new.policy.blocked_provider_ids ≡ some (or_else old.policy.blocked_provider_ids [])
  pub owner : new.owner ≡ wallet
  pub status : Starts action new.status

-- If the amounts of a task are not negative, then the task that `createTask` makes of the request of
-- a rerun or a duplicate has the same budget, the same cap per call (or the budget, if the task has
-- none), the same caps and the same allowed and blocked providers, belongs to the caller, and is
-- active after a rerun and a draft after a duplicate.
pub create_task-copy_request :
    (sandbox : Sandbox) (id : String) (now : ℤ) (action : CopyAction) (wallet : String)
    (existing : PersistedTask) (budget per_call : ℕ) (caps : Dict ℕ) (task : PersistedTask)
    (channels : List PersistedChannel)
    → existing.task.budget.total_atomic ≡ pos budget
    → or_else existing.task.policy.max_per_call_atomic existing.task.budget.total_atomic
      ≡ pos per_call
    → or_else existing.task.policy.provider_caps_atomic [] ≡ caps_atomic caps
    → create_task sandbox id now (copy_request action wallet existing)
      ≡ some (returned (task, channels))
    → IsCopy action wallet existing.task task.task
unfolding copy_request
create_task-copy_request sandbox id now action wallet existing budget per_call caps task channels b
      p c e =
    subst (λ (t : PersistedTask). IsCopy action wallet existing.task t.task) (sym made)
      (record {
        budget =
            ap (λ x. pos (parse_usdc (usd_of x))) b
            ∙ ap pos (parse_usdc-atomic_to_usd budget)
            ∙ sym b;
        per_call =
            ap (λ x. some (pos (parse_usdc (usd_of x)))) p
            ∙ ap (λ n. some (pos n)) (parse_usdc-atomic_to_usd per_call)
            ∙ ap some (sym p);
        caps =
            ap (λ x. some (caps_atomic (parse_caps (caps_usd x)))) c
            ∙ ap (λ x. some (caps_atomic x)) (parse_caps-caps_usd caps)
            ∙ ap some (sym c);
        allowed = refl;
        blocked = refl;
        owner = refl;
        status = initial_status-Starts action;
      })
  where
    request : ParsedCreateTaskRequest
    request = copy_request action wallet existing

    made : task ≡ task_of sandbox id now request
    made = elim (create_task_ends sandbox id now request) [
      | inl (error, refused, _) ↦ cc (e, refused)
      | inr (channels', total, _) ↦ cc (e, total)
    ]
