-- ===== src/Core/Policy/Permits.antt =====
-- What a spending mandate permits, stated apart from the order of the tests in `evaluateSpend`.
use canalis.Base.{
  String, Option, none, some, List, [], ◌∷◌, ◌≡◌, ◌∙◌, ◌≢◌, ◌⊎◌, ◌↔◌, true, false, In, arith,
  eq_iff,
}
use canalis.Base.Int.{ℤ, pos, ◌+ℤ◌, ◌≤ℤ◌, ◌<ℤ◌, delta_iff, eqb_ℤ_iff, +ℤ_parts}
use canalis.Base.Dict.{lookup}
use canalis.Core.Domain.{TaskStatus, active, SpendProposal, Approval, allowed}
use canalis.Core.Policy.{
  listed, outside, outside_or_missing, or_zero, cap_of, above_cap, approval, projected_task_spend,
  projected_provider_spend, when◌reject◌saying◌otherwise◌, evaluate_amounts, evaluate_terms,
  evaluate_spend, is_active,
}

-- The amount stays within a limit, where there is one.
abbrev pub Within : ℤ → Option ℤ → Type 0
Within amount none = Unit {0}
Within amount (some cap) = amount ≤ℤ cap

-- A value that is given is on the list, where the list has an entry.
abbrev pub Admits : Option (List String) → Option String → Type 0
Admits (some (x ∷ xs)) (some v) = (v ≡ "") ⊎ In v (x ∷ xs)
Admits _ _ = Unit {0}

-- A value has to be given and on the list, where the list has an entry.
abbrev pub Requires : Option (List String) → Option String → Type 0
Requires (some (x ∷ xs)) (some v) = (v ≢ "") × In v (x ∷ xs)
Requires (some (x ∷ xs)) none = ⊥
Requires _ _ = Unit {0}

pub record Permits (p : SpendProposal) : Type 0 where
  pub own_ledger : p.ledger.task_id ≡ p.task.id
  pub is_active : p.task.status ≡ active
  pub in_time : (p.task.expires_at ≡ pos 0) ⊎ (p.now <ℤ p.task.expires_at)
  pub positive : pos 0 <ℤ p.quoted_amount
  pub not_blocked : listed p.task.policy.blocked_provider_ids p.provider_id ≡ false
  pub on_allowlist : In p.provider_id p.task.policy.allowed_provider_ids
  pub mint : Admits p.task.policy.allowed_mints p.mint
  pub protocol : Admits p.task.policy.allowed_protocols p.protocol
  pub network : Requires p.task.policy.allowed_networks p.network
  pub per_call : Within p.quoted_amount p.task.policy.max_per_call_atomic
  pub exact_delta : p.next_cumulative ≡ p.current_cumulative +ℤ p.quoted_amount
  pub ceiling : p.next_cumulative ≤ℤ p.channel_ceiling
  pub provider_cap :
      Within
        (or_zero (lookup p.provider_id p.ledger.provider_spent_atomic) +ℤ p.quoted_amount)
        (cap_of p.task.policy.provider_caps_atomic p.provider_id)
  pub budget : p.ledger.spent_atomic +ℤ p.quoted_amount ≤ℤ p.task.budget.total_atomic

pub outside_iff :
    (ids : Option (List String)) (v : Option String) → (outside ids v ≡ false) ↔ Admits ids v
unfolding outside
outside_iff none none = ground arith
outside_iff none (some v) = ground arith
outside_iff (some []) none = ground arith
outside_iff (some []) (some v) = ground arith
outside_iff (some (x ∷ xs)) none = ground arith
outside_iff (some (x ∷ xs)) (some v) = ground (arith, eq_iff v "")

pub outside_or_missing_iff :
    (ids : Option (List String)) (v : Option String)
    → (outside_or_missing ids v ≡ false) ↔ Requires ids v
unfolding outside_or_missing
outside_or_missing_iff none none = ground arith
outside_or_missing_iff none (some v) = ground arith
outside_or_missing_iff (some []) none = ground arith
outside_or_missing_iff (some []) (some v) = ground arith
outside_or_missing_iff (some (x ∷ xs)) none = ground arith
outside_or_missing_iff (some (x ∷ xs)) (some v) = ground (arith, eq_iff v "")

pub Within-iff : (amount : ℤ) (cap : Option ℤ) → (above_cap amount cap ≡ false) ↔ Within amount cap
Within-iff amount none = ground arith
Within-iff amount (some cap) = ground arith

pub is_active_iff : (s : TaskStatus) → (is_active s ≡ true) ↔ (s ≡ active)
is_active_iff s = ground arith

record AmountsFit (p : SpendProposal) : Type 0 where
  positive : pos 0 <ℤ p.quoted_amount
  exact_delta : p.next_cumulative ≡ p.current_cumulative +ℤ p.quoted_amount
  ceiling : p.next_cumulative ≤ℤ p.channel_ceiling
  provider_cap :
      Within
        (or_zero (lookup p.provider_id p.ledger.provider_spent_atomic) +ℤ p.quoted_amount)
        (cap_of p.task.policy.provider_caps_atomic p.provider_id)
  budget : p.ledger.spent_atomic +ℤ p.quoted_amount ≤ℤ p.task.budget.total_atomic

amounts_sound :
    (p : SpendProposal) (a : Approval)
    → pos 0 <ℤ p.quoted_amount
    → evaluate_amounts p ≡ allowed a
    → (a ≡ approval p) × AmountsFit p
unfolding when◌reject◌saying◌otherwise◌ evaluate_amounts projected_provider_spend
    projected_task_spend
amounts_sound p a h e = grind (
  arith,
  delta_iff p.next_cumulative p.current_cumulative p.quoted_amount,
  Within-iff (or_zero (lookup p.provider_id p.ledger.provider_spent_atomic) +ℤ p.quoted_amount)
      (cap_of p.task.policy.provider_caps_atomic p.provider_id),
)

amounts_complete : (p : SpendProposal) → AmountsFit p → evaluate_amounts p ≡ allowed (approval p)
unfolding when◌reject◌saying◌otherwise◌ evaluate_amounts projected_provider_spend
    projected_task_spend
amounts_complete p h = ground (
  arith,
  h.positive,
  delta_iff p.next_cumulative p.current_cumulative p.quoted_amount,
  +ℤ_parts p.current_cumulative p.quoted_amount,
  Within-iff (or_zero (lookup p.provider_id p.ledger.provider_spent_atomic) +ℤ p.quoted_amount)
      (cap_of p.task.policy.provider_caps_atomic p.provider_id),
)

record TermsFit (p : SpendProposal) : Type 0 where
  mint : Admits p.task.policy.allowed_mints p.mint
  protocol : Admits p.task.policy.allowed_protocols p.protocol
  network : Requires p.task.policy.allowed_networks p.network
  per_call : Within p.quoted_amount p.task.policy.max_per_call_atomic

terms_sound :
    (p : SpendProposal) (a : Approval)
    → evaluate_terms p ≡ allowed a
    → TermsFit p × (evaluate_amounts p ≡ allowed a)
unfolding when◌reject◌saying◌otherwise◌ evaluate_terms
terms_sound p a e = ground (
  arith,
  outside_iff p.task.policy.allowed_mints p.mint,
  outside_iff p.task.policy.allowed_protocols p.protocol,
  outside_or_missing_iff p.task.policy.allowed_networks p.network,
  Within-iff p.quoted_amount p.task.policy.max_per_call_atomic,
)

terms_complete : (p : SpendProposal) → TermsFit p → evaluate_terms p ≡ evaluate_amounts p
unfolding when◌reject◌saying◌otherwise◌ evaluate_terms
terms_complete p h = ground (
  arith,
  outside_iff p.task.policy.allowed_mints p.mint,
  outside_iff p.task.policy.allowed_protocols p.protocol,
  outside_or_missing_iff p.task.policy.allowed_networks p.network,
  Within-iff p.quoted_amount p.task.policy.max_per_call_atomic,
)

record GatesFit (p : SpendProposal) : Type 0 where
  own_ledger : p.ledger.task_id ≡ p.task.id
  is_active : p.task.status ≡ active
  in_time : (p.task.expires_at ≡ pos 0) ⊎ (p.now <ℤ p.task.expires_at)
  positive : pos 0 <ℤ p.quoted_amount
  not_blocked : listed p.task.policy.blocked_provider_ids p.provider_id ≡ false
  on_allowlist : In p.provider_id p.task.policy.allowed_provider_ids

gates_sound :
    (p : SpendProposal) (a : Approval)
    → evaluate_spend p ≡ allowed a
    → GatesFit p × (evaluate_terms p ≡ allowed a)
unfolding when◌reject◌saying◌otherwise◌ evaluate_spend
gates_sound p a e = ground (
  arith,
  eq_iff p.ledger.task_id p.task.id,
  is_active_iff p.task.status,
  eqb_ℤ_iff p.task.expires_at (pos 0),
)

gates_complete : (p : SpendProposal) → GatesFit p → evaluate_spend p ≡ evaluate_terms p
unfolding when◌reject◌saying◌otherwise◌ evaluate_spend
gates_complete p h = ground (
  arith,
  eq_iff p.ledger.task_id p.task.id,
  is_active_iff p.task.status,
  eqb_ℤ_iff p.task.expires_at (pos 0),
)

-- Whatever is allowed is the approval of the proposal itself.
pub evaluate_spend-approval :
    (p : SpendProposal) (a : Approval) → evaluate_spend p ≡ allowed a → a ≡ approval p
unfolding when◌reject◌saying◌otherwise◌ evaluate_spend evaluate_terms evaluate_amounts
evaluate_spend-approval p a e = ground arith

-- An allowed proposal is permitted.
pub evaluate_spend-Permits :
    (p : SpendProposal) (a : Approval) → evaluate_spend p ≡ allowed a → Permits p
evaluate_spend-Permits p a e =
    let (gates, e') = gates_sound p a e in
    let (terms, e'') = terms_sound p a e' in
    let (_, fit) = amounts_sound p a gates.positive e'' in
    record {
      own_ledger = gates.own_ledger;
      is_active = gates.is_active;
      in_time = gates.in_time;
      positive = gates.positive;
      not_blocked = gates.not_blocked;
      on_allowlist = gates.on_allowlist;
      mint = terms.mint;
      protocol = terms.protocol;
      network = terms.network;
      per_call = terms.per_call;
      exact_delta = fit.exact_delta;
      ceiling = fit.ceiling;
      provider_cap = fit.provider_cap;
      budget = fit.budget;
    }

Permits-approved : (p : SpendProposal) → Permits p → evaluate_spend p ≡ allowed (approval p)
Permits-approved p h =
    gates_complete p (assumption h)
    ∙ terms_complete p (assumption h)
    ∙ amounts_complete p (assumption h)

-- The approval of a proposal is the decision exactly when the mandate permits the spend: the
-- ledger is the task's own, the task is active and not expired, the provider is on the allowlist
-- and not blocked, mint, protocol and network are admitted, the voucher advances by exactly the
-- quoted positive amount and stays under the channel ceiling, and the per-call cap, the
-- provider's cap and the task budget hold with this spend added.
pub evaluate_spend_iff : (p : SpendProposal) → (evaluate_spend p ≡ allowed (approval p)) ↔ Permits p
evaluate_spend_iff p = (evaluate_spend-Permits p (approval p), Permits-approved p)
