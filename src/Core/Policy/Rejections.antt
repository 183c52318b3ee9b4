-- ===== src/Core/Policy/Rejections.antt =====
-- What each rejection code of `evaluateSpend` says of the proposal.
use canalis.Base.{
  String, ◌≡◌, refl, subst, ◌≢◌, ◌↔◌, Bool, true, false, not, ◌&&◌, includes, arith, eq_iff,
}
use canalis.Base.Int.{
  pos, ◌+ℤ◌, ◌≤ℤ◌, ◌<ℤ◌, leb_ℤ, eqb_ℤ, eqb_ℤ_iff, delta_iff, leb_ℤ-sound, ltb_ℤ-sound,
}
use canalis.Base.Dict.{lookup}
use canalis.Core.Domain.{
  active, SpendProposal, PolicyRejectionCode, task_not_active, task_expired, invalid_amount,
  provider_not_allowed, provider_blocked, per_call_cap_exceeded, network_not_allowed,
  mint_not_allowed, protocol_not_allowed, non_monotonic_voucher, voucher_delta_mismatch,
  channel_ceiling_exceeded, provider_cap_exceeded, task_budget_exceeded, ledger_task_mismatch,
  Approval, PolicyDecision, allowed, rejected,
}
use canalis.Core.Policy.{
  listed, or_zero, cap_of, projected_task_spend, projected_provider_spend,
  when◌reject◌saying◌otherwise◌, evaluate_amounts, evaluate_terms, evaluate_spend,
}
use canalis.Core.Policy.Permits.{
  Within, Admits, Requires, Permits, outside_iff, outside_or_missing_iff, Within-iff, is_active_iff,
  evaluate_spend_iff,
}

abbrev pub Reason : PolicyRejectionCode → SpendProposal → Type 0
Reason ledger_task_mismatch p = p.ledger.task_id ≢ p.task.id
Reason task_not_active p = p.task.status ≢ active
Reason task_expired p = (p.task.expires_at ≢ pos 0) × (p.task.expires_at ≤ℤ p.now)
Reason invalid_amount p = p.quoted_amount ≤ℤ pos 0
Reason provider_blocked p = listed p.task.policy.blocked_provider_ids p.provider_id ≡ true
Reason provider_not_allowed p = includes p.task.policy.allowed_provider_ids p.provider_id ≡ false
Reason mint_not_allowed p = ¬ Admits p.task.policy.allowed_mints p.mint
Reason protocol_not_allowed p = ¬ Admits p.task.policy.allowed_protocols p.protocol
Reason network_not_allowed p = ¬ Requires p.task.policy.allowed_networks p.network
Reason per_call_cap_exceeded p = ¬ Within p.quoted_amount p.task.policy.max_per_call_atomic
Reason non_monotonic_voucher p = p.next_cumulative ≤ℤ p.current_cumulative
Reason voucher_delta_mismatch p = p.next_cumulative ≢ p.current_cumulative +ℤ p.quoted_amount
Reason channel_ceiling_exceeded p = p.channel_ceiling <ℤ p.next_cumulative
Reason provider_cap_exceeded p =
    ¬ Within (or_zero (lookup p.provider_id p.ledger.provider_spent_atomic) +ℤ p.quoted_amount)
      (cap_of p.task.policy.provider_caps_atomic p.provider_id)
Reason task_budget_exceeded p =
    p.task.budget.total_atomic <ℤ p.ledger.spent_atomic +ℤ p.quoted_amount

not-true : (b : Bool) → not b ≡ true → b ≢ true
not-true b h = ground arith

not-false : (b : Bool) → not b ≡ true → b ≡ false
not-false b h = ground arith

refuted : {A : Type 0} (b : Bool) → ((b ≡ false) ↔ A) → b ≡ true → ¬ A
refuted b i h a = cc (i.1 a)

expired :
    (p : SpendProposal)
    → (not (eqb_ℤ p.task.expires_at (pos 0)) && leb_ℤ p.task.expires_at p.now) ≡ true
    → Reason task_expired p
expired p h = ground (arith, eqb_ℤ_iff p.task.expires_at (pos 0))

-- A decision is backed when it is an approval, or its code's reason holds.
data Backed (p : SpendProposal) : PolicyDecision → Type 0 where
  approved : (a : Approval) → Backed p (allowed a)
  for_cause : (code : PolicyRejectionCode) (m : String) → Reason code p → Backed p (rejected code m)

guarded :
    (p : SpendProposal) (b : Bool) (code : PolicyRejectionCode) (m : String) (e : PolicyDecision)
    → (b ≡ true → Reason code p)
    → Backed p e
    → Backed p (when b reject code saying m otherwise e)
unfolding when◌reject◌saying◌otherwise◌
guarded p true code m e h k = for_cause code m (h refl)
guarded p false code m e h k = k

Reason-of :
    (p : SpendProposal) (code : PolicyRejectionCode) (m : String)
    → Backed p (rejected code m)
    → Reason code p
Reason-of p code m (for_cause _ _ r) = r

amounts-Backed : (p : SpendProposal) → Backed p (evaluate_amounts p)
unfolding evaluate_amounts projected_provider_spend projected_task_spend
amounts-Backed p = guarded _ _ _ _ _ (leb_ℤ-sound p.next_cumulative p.current_cumulative) (
    guarded _ _ _ _ _ (λ h e. not-true _ h ((delta_iff _ _ _).1 e))
      (guarded _ _ _ _ _ (ltb_ℤ-sound p.channel_ceiling p.next_cumulative) (
        guarded _ _ _ _ _ (refuted _ (Within-iff _ _)) (
          guarded _ _ _ _ _ (ltb_ℤ-sound p.task.budget.total_atomic (projected_task_spend p))
            (approved _)))))

terms-Backed : (p : SpendProposal) → Backed p (evaluate_terms p)
unfolding evaluate_terms
terms-Backed p = guarded _ _ _ _ _ (refuted _ (outside_iff _ _)) (
    guarded _ _ _ _ _ (refuted _ (outside_iff _ _)) (
      guarded _ _ _ _ _ (refuted _ (outside_or_missing_iff _ _))
        (guarded _ _ _ _ _ (refuted _ (Within-iff _ _)) (amounts-Backed p))))

spend-Backed : (p : SpendProposal) → Backed p (evaluate_spend p)
unfolding evaluate_spend
spend-Backed p =
    guarded _ _ _ _ _ (λ h e. not-true _ h ((eq_iff _ _).1 e))
      (guarded _ _ _ _ _ (λ h e. not-true _ h ((is_active_iff _).1 e))
        (guarded _ _ _ _ _ (expired p) (
          guarded _ _ _ _ _ (leb_ℤ-sound p.quoted_amount (pos 0))
            (guarded _ _ _ _ _ (λ h. h) (guarded _ _ _ _ _ (not-false _) (terms-Backed p))))))

-- Every rejection is for cause: the condition that the code names fails for the proposal, and the
-- mandate does not permit the spend.
pub evaluate_spend-Reason :
    (p : SpendProposal) (code : PolicyRejectionCode) (message : String)
    → evaluate_spend p ≡ rejected code message
    → Reason code p × (¬ Permits p)
evaluate_spend-Reason p code message e = (
  Reason-of p code message (subst (Backed p) e (spend-Backed p)),
  λ h. cc ((evaluate_spend_iff p).1 h),
)
