-- ===== src/Core/Policy/Tests.antt =====
-- Runs of the policy on concrete proposals.
use canalis.Base.{◌≡◌, refl, ◌↔◌}
use canalis.Base.Int.{pos, ◌+ℤ◌, ◌-ℤ◌}
use canalis.Base.Dict.{lookup}
use canalis.Core.Domain.{allowed, rejected, per_call_cap_exceeded}
use canalis.Core.Policy.{
  listed, outside, outside_or_missing, projected_task_spend, projected_provider_spend, approval,
  when◌reject◌saying◌otherwise◌, evaluate_amounts, evaluate_terms, evaluate_spend,
}
use canalis.Core.Policy.Permits.{Permits, evaluate_spend_iff, evaluate_spend-approval}
use canalis.Core.Policy.Rejections.{Reason, evaluate_spend-Reason}
use canalis.Samples.{sample_proposal, sample_approval}

sample_allowed : evaluate_spend (sample_proposal (pos 25)) ≡ allowed sample_approval
unfolding evaluate_spend evaluate_terms evaluate_amounts when◌reject◌saying◌otherwise◌ approval
    projected_task_spend projected_provider_spend listed outside outside_or_missing lookup ◌+ℤ◌ ◌-ℤ◌
sample_allowed = refl

sample_too_much :
    evaluate_spend (sample_proposal (pos 50))
    ≡ rejected per_call_cap_exceeded "The quoted amount exceeds the task's per-call cap."
unfolding evaluate_spend evaluate_terms evaluate_amounts when◌reject◌saying◌otherwise◌ approval
    projected_task_spend projected_provider_spend listed outside outside_or_missing lookup ◌+ℤ◌ ◌-ℤ◌
sample_too_much = refl

evaluate_spend_iff_example :
    (evaluate_spend (sample_proposal (pos 25)) ≡ allowed (approval (sample_proposal (pos 25))))
    ↔ Permits (sample_proposal (pos 25))
evaluate_spend_iff_example = evaluate_spend_iff (sample_proposal (pos 25))

sample_is_approved : sample_approval ≡ approval (sample_proposal (pos 25))
sample_is_approved =
    evaluate_spend-approval (sample_proposal (pos 25)) sample_approval sample_allowed

evaluate_spend-Reason_example :
    Reason per_call_cap_exceeded (sample_proposal (pos 50)) × (¬ Permits (sample_proposal (pos 50)))
evaluate_spend-Reason_example =
    evaluate_spend-Reason (sample_proposal (pos 50)) per_call_cap_exceeded
      "The quoted amount exceeds the task's per-call cap." sample_too_much
