-- ===== src/Solana/Finalization/Provider.antt =====
-- packages/solana/src/finalization.ts: `finalizeProviderChannel`, which brings one channel of a
-- task from any state to a distribution that reconciles, or says how to recover.
pub mod Exact
pub mod Tests
use canalis.Base.{
  ℕ, String, Option, none, some, List, [], ◌∷◌, Bool, true, false, not, ◌==◌, if◌then◌else◌, truthy,
}
use canalis.Base.Int.{ℤ, pos, ◌+ℤ◌, ◌-ℤ◌, eqb_ℤ, ltb_ℤ}
use canalis.Base.Text.{template, is_blank}
use canalis.Base.Result.{Result, ok, err}
use canalis.Base.Action.{
  Action, Thrown, error, own, alien, returned, threw, ◌>>=◌, ◌>>◌, pure, throw, assert, first_error,
  of_result, attempt,
}
use canalis.Solana.Types.{
  ChannelLifecycleState, opening, opened, closing, sealed, distributed, reclaimed,
  ChannelDescriptor, SettlementResult, SettleChannelRequest, DistributionResult, SignatureBytes,
  PaymentChannelAdapter,
}
use canalis.Solana.Explorer.{SolanaExplorerCluster, solana_explorer_transaction_url}
use canalis.Solana.Finalization.{
  FinalVoucherAuthorization, ChannelFinalizationInput, ChannelFinalizationFailurePhase, inspect,
  settle_and_seal, distribute, reconcile, ChannelRecoveryAction, inspect_channel,
  retry_settle_and_seal, retry_distribute, wait_for_forced_close, ChannelFinalizationRecord,
  finalized, error_message, assert_input, recovery_record, reconcile_failure, finalized_record,
  verify_channel_matches_input, verify_settlement, verify_distribution,
}

-- The name of a state that an error message shows.
abbrev state_name : ChannelLifecycleState → String
state_name opening = "opening"
state_name opened = "open"
state_name closing = "closing"
state_name sealed = "sealed"
state_name distributed = "distributed"
state_name reclaimed = "reclaimed"

module _ {S : Type 0} (adapter : PaymentChannelAdapter S) (input : ChannelFinalizationInput)
    (cluster : SolanaExplorerCluster) where
  abbrev recover :
      ChannelFinalizationFailurePhase
      → ChannelRecoveryAction
      → String
      → Option SettlementResult
      → Action S ⊥ ChannelFinalizationRecord
  recover phase action message settlement =
      of_result (recovery_record input phase action message cluster settlement)

  -- An open channel: its watermark is already the authorized spend, or a voucher moves it there.
  seal_open : ChannelDescriptor → Option FinalVoucherAuthorization → Action S ⊥ SettlementResult
  seal_open channel voucher =
      if eqb_ℤ channel.settled_amount input.authorized_cumulative_atomic
      then adapter.seal_current input.channel_address
      else elim voucher [
        | none ↦ throw (error "final voucher is required to advance the settled watermark")
        | some final ↦ adapter.settle_and_seal record {
          channel_address = input.channel_address;
          cumulative_amount = input.authorized_cumulative_atomic;
          expires_at = final.expires_at;
          voucher_signature = final.voucher_signature;
        }
      ]

  seal_at_authorized_watermark :
      ChannelDescriptor → ChannelLifecycleState → Action S ⊥ SettlementResult
  unfolding seal_open
  seal_at_authorized_watermark channel sealed =
      if not (eqb_ℤ channel.settled_amount input.authorized_cumulative_atomic)
      then throw (error "sealed channel watermark does not match Canalis authorization")
      else pure record {
        channel_address = channel.channel_address;
        settled_amount = channel.settled_amount;
        transaction_signature = "";
      }
  seal_at_authorized_watermark channel closing =
      throw (error "channel is in forced-close grace period")
  seal_at_authorized_watermark channel opened = seal_open channel input.final_voucher
  seal_at_authorized_watermark channel other =
      throw (error (template ("channel cannot be finalized from state " ∷ state_name other ∷ [])))

  -- The body of the first `try`.
  look_up : Action S ⊥ (Option ChannelDescriptor)
  unfolding verify_channel_matches_input
  look_up = do
    found ← adapter.get_channel input.channel_address
    assert (elim found [ none ↦ none | some channel ↦ verify_channel_matches_input channel input ])
    pure found

  -- The body of the second `try`.
  seal_channel : ChannelDescriptor → Action S ⊥ SettlementResult
  unfolding seal_at_authorized_watermark verify_settlement
  seal_channel channel = do
    settlement ← seal_at_authorized_watermark channel channel.state
    assert (verify_settlement settlement input)
    pure settlement

  -- The error of the last `try`, if the distribution does not reconcile.
  reconcile_outcome :
      SettlementResult → DistributionResult → Option String → Action S ⊥ ChannelFinalizationRecord
  unfolding reconcile_failure finalized_record
  reconcile_outcome settlement distribution (some message) =
      of_result (reconcile_failure input cluster settlement distribution message)
  reconcile_outcome settlement distribution none =
      of_result (finalized_record input cluster settlement distribution)

  -- What follows the distribution.
  reconcile_distribution :
      SettlementResult → DistributionResult → Action S ⊥ ChannelFinalizationRecord
  unfolding reconcile_outcome verify_distribution
  reconcile_distribution settlement distribution =
      reconcile_outcome settlement distribution (verify_distribution distribution input)

  -- What follows the settlement.
  distribute_channel : SettlementResult → Action S ⊥ ChannelFinalizationRecord
  unfolding reconcile_distribution recovery_record
  distribute_channel settlement =
      attempt (adapter.distribute input.channel_address)
        (λ t. recover distribute retry_distribute (error_message t) (some settlement))
        (reconcile_distribution settlement)

  settle_channel : ChannelDescriptor → ChannelRecoveryAction → Action S ⊥ ChannelFinalizationRecord
  unfolding seal_channel distribute_channel recovery_record
  settle_channel channel on_failure =
      attempt (seal_channel channel)
        (λ t. recover settle_and_seal on_failure (error_message t) none) distribute_channel

  abbrev already_terminal : Action S ⊥ ChannelFinalizationRecord
  already_terminal =
      recover inspect inspect_channel
        "Channel is already terminal but Canalis has no distribution receipt to reconcile." none

  finalize_in_state :
      ChannelDescriptor → ChannelLifecycleState → Action S ⊥ ChannelFinalizationRecord
  unfolding settle_channel recovery_record
  finalize_in_state channel distributed = already_terminal
  finalize_in_state channel reclaimed = already_terminal
  finalize_in_state channel closing =
      recover settle_and_seal wait_for_forced_close
        "Channel is in forced-close grace period; wait for seal eligibility, then distribute." none
  finalize_in_state channel sealed = settle_channel channel inspect_channel
  finalize_in_state channel _ = settle_channel channel retry_settle_and_seal

  -- What follows the look-up.
  finalize_found : Option ChannelDescriptor → Action S ⊥ ChannelFinalizationRecord
  unfolding finalize_in_state recovery_record
  finalize_found none =
      recover inspect inspect_channel
        "Channel account was not found; confirm whether it was already reclaimed." none
  finalize_found (some channel) = finalize_in_state channel channel.state

  unfoldable pub finalize_provider_channel : Action S ⊥ ChannelFinalizationRecord
  unfolding assert_input look_up finalize_found recovery_record
  finalize_provider_channel = do
    assert (assert_input input)
    attempt look_up (λ t. recover inspect inspect_channel (error_message t) none) finalize_found
