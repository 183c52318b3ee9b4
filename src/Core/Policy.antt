-- ===== src/Core/Policy.antt =====
-- packages/core/src/policy.ts: `evaluateSpend` and `applyApprovedSpend`.
pub mod Permits
pub mod Rejections
mod Tests
use canalis.Base.{
  String, Option, none, some, List, [], ◌∷◌, Bool, true, false, not, ◌&&◌, ◌==◌, includes, truthy,
  if◌then◌else◌,
}
use canalis.Base.Int.{ℤ, pos, ◌+ℤ◌, ◌-ℤ◌, ltb_ℤ, leb_ℤ, eqb_ℤ}
use canalis.Base.Dict.{Dict, lookup, insert}
use canalis.Base.Text.{template}
use canalis.Core.Domain.{
  TaskStatus, active, TaskLedger, SpendProposal, PolicyRejectionCode, task_not_active, task_expired,
  invalid_amount, provider_not_allowed, provider_blocked, per_call_cap_exceeded,
  network_not_allowed, mint_not_allowed, protocol_not_allowed, non_monotonic_voucher,
  voucher_delta_mismatch, channel_ceiling_exceeded, provider_cap_exceeded, task_budget_exceeded,
  ledger_task_mismatch, Approval, PolicyDecision, allowed, rejected,
}

-- `status === "active"`
abbrev pub is_active : TaskStatus → Bool
is_active active = true
is_active _ = false

-- `list?.includes(id)`
unfoldable pub listed : Option (List String) → String → Bool
listed none id = false
listed (some ids) id = includes ids id

-- `list?.length`, as a test
abbrev pub restricts : Option (List String) → Bool
restricts none = false
restricts (some []) = false
restricts (some (_ ∷ _)) = true

-- `value && list?.length && !list.includes(value)`
pub outside : Option (List String) → Option String → Bool
unfolding listed
outside ids none = false
outside ids (some v) = truthy (some v) && (restricts ids && not (listed ids v))

-- `list?.length` and then `!value || !list.includes(value)`
pub outside_or_missing : Option (List String) → Option String → Bool
unfolding listed
outside_or_missing ids none = restricts ids
outside_or_missing ids (some v) = restricts ids && not (truthy (some v) && listed ids v)

-- `value ?? 0n`
abbrev pub or_zero : Option ℤ → ℤ
or_zero none = pos 0
or_zero (some v) = v

-- `cap !== undefined && amount > cap`
abbrev pub above_cap : ℤ → Option ℤ → Bool
above_cap amount none = false
above_cap amount (some cap) = ltb_ℤ cap amount

-- `caps?.[id]`
abbrev pub cap_of : Option (Dict ℤ) → String → Option ℤ
cap_of none id = none
cap_of (some caps) id = lookup id caps

abbrev or_empty : Option String → String
or_empty none = ""
or_empty (some s) = s

-- The message of the network rejection: a missing network has its own.
network_message : Option String → String
network_message network =
    if truthy network
    then template
        ("The provider network " ∷ or_empty network ∷ " is not allowed by this task policy." ∷ [])
    else "The provider quote does not declare a network required by this task policy."

pub projected_provider_spend : SpendProposal → ℤ
projected_provider_spend p =
    or_zero (lookup p.provider_id p.ledger.provider_spent_atomic) +ℤ p.quoted_amount

pub projected_task_spend : SpendProposal → ℤ
projected_task_spend p = p.ledger.spent_atomic +ℤ p.quoted_amount

-- What `evaluateSpend` returns once every test has passed.
unfoldable pub approval : SpendProposal → Approval
unfolding projected_task_spend projected_provider_spend
approval p = record {
  amount = p.quoted_amount;
  projected_task_spend = projected_task_spend p;
  projected_provider_spend = projected_provider_spend p;
  next_cumulative = p.next_cumulative;
}

-- `if (test) { return reject(code, message); }` and the code below it.
infix 1 when◌reject◌saying◌otherwise◌
when◌reject◌saying◌otherwise◌ :
    Bool → PolicyRejectionCode → String → PolicyDecision → PolicyDecision
when true reject code saying message otherwise rest = rejected code message
when false reject code saying message otherwise rest = rest

-- The tests on the voucher and the running totals, the last ones of `evaluateSpend`.
evaluate_amounts : SpendProposal → PolicyDecision
evaluate_amounts p =
    when leb_ℤ p.next_cumulative p.current_cumulative
    reject non_monotonic_voucher
    saying "The provider cumulative voucher amount must increase."
    otherwise when not (eqb_ℤ (p.next_cumulative -ℤ p.current_cumulative) p.quoted_amount)
    reject voucher_delta_mismatch
    saying "The cumulative voucher increase does not match the quoted amount."
    otherwise when ltb_ℤ p.channel_ceiling p.next_cumulative
    reject channel_ceiling_exceeded
    saying "The proposed cumulative voucher exceeds the provider channel ceiling."
    otherwise when above_cap (projected_provider_spend p)
        (cap_of p.task.policy.provider_caps_atomic p.provider_id)
    reject provider_cap_exceeded
    saying "The proposed spend exceeds this provider's task-level cap."
    otherwise when ltb_ℤ p.task.budget.total_atomic (projected_task_spend p)
    reject task_budget_exceeded
    saying "The proposed spend exceeds the task's approved total budget."
    otherwise allowed (approval p)

-- The tests on mint, protocol, network and the size of one call.
evaluate_terms : SpendProposal → PolicyDecision
evaluate_terms p =
    when outside p.task.policy.allowed_mints p.mint
    reject mint_not_allowed
    saying template
        ("The quoted asset " ∷ or_empty p.mint ∷ " is not allowed by this task policy." ∷ [])
    otherwise when outside p.task.policy.allowed_protocols p.protocol
    reject protocol_not_allowed
    saying template
        ("The " ∷ or_empty p.protocol ∷ " protocol is not allowed by this task policy." ∷ [])
    otherwise when outside_or_missing p.task.policy.allowed_networks p.network
    reject network_not_allowed
    saying network_message p.network
    otherwise when above_cap p.quoted_amount p.task.policy.max_per_call_atomic
    reject per_call_cap_exceeded
    saying "The quoted amount exceeds the task's per-call cap."
    otherwise evaluate_amounts p

-- `evaluateSpend`: the first test that fails decides the code.
pub evaluate_spend : SpendProposal → PolicyDecision
evaluate_spend p =
    when not (p.ledger.task_id == p.task.id)
    reject ledger_task_mismatch
    saying "The supplied ledger does not belong to this task."
    otherwise when not (is_active p.task.status)
    reject task_not_active
    saying "The task is not active."
    otherwise when not (eqb_ℤ p.task.expires_at (pos 0)) && leb_ℤ p.task.expires_at p.now
    reject task_expired
    saying "The task spending window has expired."
    otherwise when leb_ℤ p.quoted_amount (pos 0)
    reject invalid_amount
    saying "A paid flow must have a positive amount."
    otherwise when listed p.task.policy.blocked_provider_ids p.provider_id
    reject provider_blocked
    saying "The provider is explicitly blocked by this task policy."
    otherwise when not (includes p.task.policy.allowed_provider_ids p.provider_id)
    reject provider_not_allowed
    saying "The provider is not allowed by this task policy."
    otherwise evaluate_terms p

-- `applyApprovedSpend`; `none` is the error that it throws at a rejected decision.
unfoldable pub apply_approved_spend : TaskLedger → String → PolicyDecision → Option TaskLedger
apply_approved_spend ledger provider_id (rejected code message) = none
apply_approved_spend ledger provider_id (allowed a) = some (record {
  task_id = ledger.task_id;
  spent_atomic = a.projected_task_spend;
  provider_spent_atomic =
      insert provider_id a.projected_provider_spend ledger.provider_spent_atomic;
})
