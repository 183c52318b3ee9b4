-- ===== src/Solana/Finalization/Task/Tests.antt =====
-- Runs of the finalization of a task.
use canalis.Base.{none, [], ◌∷◌, ◌≡◌, refl, ◌+◌, true, length, arith}
use canalis.Base.Int.{pos, ◌+ℤ◌, ◌≤ℤ◌}
use canalis.Base.Action.{returned}
use canalis.Base.Text.{is_blank}
use canalis.Solana.Explorer.{devnet}
use canalis.Solana.Finalization.{assert_input}
use canalis.Solana.Finalization.Provider.Tests.{
  sample_input, sample_adapter, sample_record, sample_finalizes,
}
use canalis.Solana.Finalization.Task.{
  FinalizeTaskChannelsInput, TaskFinalizationSummary, assert_channels, summarize, finalize_each,
  finalize_task_channels,
}
use canalis.Solana.Finalization.Task.Sums.{AllAccounted}
use canalis.Solana.Finalization.Task.Books.{
  finalize_task_channels-AllAccounted, finalize_task_channels-balance,
  finalize_task_channels-reconciled,
}

abbrev sample_task_input : FinalizeTaskChannelsInput
sample_task_input = record {
  task_id = "t1";
  task_budget_atomic = pos 100;
  cluster = none;
  channels = sample_input ∷ [];
}

abbrev sample_summary : TaskFinalizationSummary
sample_summary = summarize sample_task_input devnet (sample_record ∷ [])

sample_task_finalizes :
    finalize_task_channels sample_adapter sample_task_input tt ≡ (returned sample_summary, tt)
unfolding finalize_task_channels finalize_each assert_channels assert_input is_blank ◌+ℤ◌
sample_task_finalizes = ground (arith, sample_finalizes)

finalize_task_channels-AllAccounted_example :
    AllAccounted (sample_input ∷ []) sample_summary.channels
    × (sample_summary.reserved_ceiling_atomic ≤ℤ sample_summary.task_budget_atomic)
    × (sample_summary.finalized_channel_count + sample_summary.recovery_required_channel_count
        ≡ length sample_summary.channels)
finalize_task_channels-AllAccounted_example =
    finalize_task_channels-AllAccounted sample_adapter sample_task_input tt tt sample_summary
      sample_task_finalizes

finalize_task_channels-balance_example :
    sample_summary.reconciled_atomic +ℤ sample_summary.unresolved_escrow_atomic
    ≡ sample_summary.task_budget_atomic
unfolding summarize
finalize_task_channels-balance_example =
    finalize_task_channels-balance sample_adapter sample_task_input tt tt sample_summary
      sample_task_finalizes (λ e. cc e, tt)

finalize_task_channels-reconciled_example :
    (sample_summary.is_reconciled ≡ true)
    × (sample_summary.provider_paid_atomic ≡ sample_summary.authorized_spend_atomic)
    × (sample_summary.unresolved_escrow_atomic ≡ pos 0)
    × (sample_summary.reconciled_atomic ≡ sample_summary.task_budget_atomic)
unfolding summarize
finalize_task_channels-reconciled_example =
    finalize_task_channels-reconciled sample_adapter sample_task_input tt tt sample_summary
      sample_task_finalizes refl
