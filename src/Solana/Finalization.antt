-- ===== src/Solana/Finalization.antt =====
-- packages/solana/src/finalization.ts: the records of a finalization and the checks on them.
pub mod Provider
pub mod Task
use canalis.Base.{
  ℕ, String, Option, none, some, List, [], ◌∷◌, Bool, true, false, not, ◌==◌, if◌then◌else◌, truthy,
}
use canalis.Base.Int.{ℤ, pos, ◌+ℤ◌, ◌-ℤ◌, eqb_ℤ, ltb_ℤ}
use canalis.Base.Text.{template, is_blank}
use canalis.Base.Result.{Result, ok, err, ◌>>=◌}
use canalis.Base.Action.{Thrown, error, first_error}
use canalis.Solana.Types.{
  ChannelLifecycleState, opening, opened, closing, sealed, distributed, reclaimed,
  ChannelDescriptor, SettlementResult, SettleChannelRequest, DistributionResult, SignatureBytes,
  PaymentChannelAdapter,
}
use canalis.Solana.Explorer.{SolanaExplorerCluster, solana_explorer_transaction_url}

pub record FinalVoucherAuthorization : Type 0 where
  pub expires_at : ℤ
  pub voucher_signature : SignatureBytes

pub record ChannelFinalizationInput : Type 0 where
  pub provider_id : String
  pub channel_address : String
  pub deposit_ceiling_atomic : ℤ
  pub authorized_cumulative_atomic : ℤ
  pub final_voucher : Option FinalVoucherAuthorization

pub data ChannelFinalizationFailurePhase : Type 0 where
  inspect : ChannelFinalizationFailurePhase
  settle_and_seal : ChannelFinalizationFailurePhase
  distribute : ChannelFinalizationFailurePhase
  reconcile : ChannelFinalizationFailurePhase

pub data ChannelRecoveryAction : Type 0 where
  inspect_channel : ChannelRecoveryAction
  retry_settle_and_seal : ChannelRecoveryAction
  retry_distribute : ChannelRecoveryAction
  wait_for_forced_close : ChannelRecoveryAction

pub data ChannelFinalizationStatus : Type 0 where
  finalized : ChannelFinalizationStatus
  recovery_required : ChannelFinalizationStatus

pub record ChannelFinalizationRecord : Type 0 where
  pub provider_id : String
  pub channel_address : String
  pub status : ChannelFinalizationStatus
  pub deposit_ceiling_atomic : ℤ
  pub authorized_cumulative_atomic : ℤ
  pub expected_provider_amount_atomic : ℤ
  pub expected_payer_refund_atomic : ℤ
  pub provider_amount_atomic : ℤ
  pub payer_refund_atomic : ℤ
  pub settlement_transaction_signature : Option String
  pub distribution_transaction_signature : Option String
  pub settlement_explorer_url : Option String
  pub distribution_explorer_url : Option String
  pub failed_phase : Option ChannelFinalizationFailurePhase
  pub recovery_action : Option ChannelRecoveryAction
  pub error_message : Option String

abbrev pub error_message : Thrown ⊥ → String
error_message (error message) = message
error_message _ = "Unknown channel finalization failure"

abbrev pub assert_non_negative : String → ℤ → Bool × String
assert_non_negative label value =
    (ltb_ℤ value (pos 0), template (label ∷ " must not be negative" ∷ []))

pub assert_input : ChannelFinalizationInput → Option String
assert_input input = first_error (
    (is_blank input.provider_id, "providerId is required")
    ∷ (is_blank input.channel_address, "channelAddress is required")
    ∷ assert_non_negative "deposit ceiling" input.deposit_ceiling_atomic
    ∷ assert_non_negative "authorized cumulative amount" input.authorized_cumulative_atomic
    ∷ (
      ltb_ℤ input.deposit_ceiling_atomic input.authorized_cumulative_atomic,
      "authorized cumulative amount cannot exceed channel deposit ceiling",
    )
    ∷ [])

-- The link to a signature, where there is one that is not empty.
settlement_url : Option String → SolanaExplorerCluster → Result (Option String)
settlement_url none cluster = ok none
settlement_url (some signature) cluster =
    if signature == ""
    then ok none
    else do url ← solana_explorer_transaction_url signature cluster; ok (some url)

abbrev signature_of : Option SettlementResult → Option String
signature_of none = none
signature_of (some settlement) = some settlement.transaction_signature

abbrev pub recovery_fields :
    ChannelFinalizationInput
    → ChannelFinalizationFailurePhase
    → ChannelRecoveryAction
    → String
    → Option SettlementResult
    → Option String
    → ChannelFinalizationRecord
recovery_fields input phase action message settlement url = record {
  provider_id = input.provider_id;
  channel_address = input.channel_address;
  status = recovery_required;
  deposit_ceiling_atomic = input.deposit_ceiling_atomic;
  authorized_cumulative_atomic = input.authorized_cumulative_atomic;
  expected_provider_amount_atomic = input.authorized_cumulative_atomic;
  expected_payer_refund_atomic = input.deposit_ceiling_atomic -ℤ input.authorized_cumulative_atomic;
  provider_amount_atomic = pos 0;
  payer_refund_atomic = pos 0;
  settlement_transaction_signature = signature_of settlement;
  distribution_transaction_signature = none;
  settlement_explorer_url = url;
  distribution_explorer_url = none;
  failed_phase = some phase;
  recovery_action = some action;
  error_message = some message;
}

pub recovery_record :
    ChannelFinalizationInput
    → ChannelFinalizationFailurePhase
    → ChannelRecoveryAction
    → String
    → SolanaExplorerCluster
    → Option SettlementResult
    → Result ChannelFinalizationRecord
unfolding settlement_url
recovery_record input phase action message cluster settlement = do
  url ← settlement_url (signature_of settlement) cluster
  ok (recovery_fields input phase action message settlement url)

-- What the code writes into the record of a distribution that does not reconcile.
abbrev pub with_distribution :
    DistributionResult → ChannelFinalizationRecord → String → ChannelFinalizationRecord
with_distribution distribution failed url = record failed {
  provider_amount_atomic = distribution.provider_amount;
  payer_refund_atomic = distribution.payer_refund;
  distribution_transaction_signature = some distribution.transaction_signature;
  distribution_explorer_url = some url;
}

pub reconcile_failure :
    ChannelFinalizationInput
    → SolanaExplorerCluster
    → SettlementResult
    → DistributionResult
    → String
    → Result ChannelFinalizationRecord
unfolding recovery_record
reconcile_failure input cluster settlement distribution message = do
  failed ← recovery_record input reconcile inspect_channel message cluster (some settlement)
  url ← solana_explorer_transaction_url distribution.transaction_signature cluster
  ok (with_distribution distribution failed url)

abbrev pub finalized_fields :
    ChannelFinalizationInput
    → SettlementResult
    → DistributionResult
    → Option String
    → String
    → ChannelFinalizationRecord
finalized_fields input settlement distribution settled_url url = record {
  provider_id = input.provider_id;
  channel_address = input.channel_address;
  status = finalized;
  deposit_ceiling_atomic = input.deposit_ceiling_atomic;
  authorized_cumulative_atomic = input.authorized_cumulative_atomic;
  expected_provider_amount_atomic = input.authorized_cumulative_atomic;
  expected_payer_refund_atomic = input.deposit_ceiling_atomic -ℤ input.authorized_cumulative_atomic;
  provider_amount_atomic = distribution.provider_amount;
  payer_refund_atomic = distribution.payer_refund;
  settlement_transaction_signature =
      if settlement.transaction_signature == ""
      then none
      else some settlement.transaction_signature;
  distribution_transaction_signature = some distribution.transaction_signature;
  settlement_explorer_url = settled_url;
  distribution_explorer_url = some url;
  failed_phase = none;
  recovery_action = none;
  error_message = none;
}

-- The record of a finalized channel.
pub finalized_record :
    ChannelFinalizationInput
    → SolanaExplorerCluster
    → SettlementResult
    → DistributionResult
    → Result ChannelFinalizationRecord
unfolding settlement_url
finalized_record input cluster settlement distribution = do
  settled_url ← settlement_url (some settlement.transaction_signature) cluster
  url ← solana_explorer_transaction_url distribution.transaction_signature cluster
  ok (finalized_fields input settlement distribution settled_url url)

pub verify_channel_matches_input : ChannelDescriptor → ChannelFinalizationInput → Option String
verify_channel_matches_input channel input = first_error (
    (
      not (channel.channel_address == input.channel_address),
      "adapter returned a different channel address",
    )
    ∷ (
      not (eqb_ℤ channel.deposit_ceiling input.deposit_ceiling_atomic),
      "on-chain channel deposit does not match Canalis reservation",
    )
    ∷ (
      ltb_ℤ input.authorized_cumulative_atomic channel.settled_amount,
      "on-chain settled amount exceeds Canalis authorized cumulative spend",
    )
    ∷ [])

pub verify_settlement : SettlementResult → ChannelFinalizationInput → Option String
verify_settlement settlement input = first_error (
    (
      not (settlement.channel_address == input.channel_address),
      "settlement returned a different channel address",
    )
    ∷ (
      not (eqb_ℤ settlement.settled_amount input.authorized_cumulative_atomic),
      "settlement watermark does not equal authorized cumulative spend",
    )
    ∷ [])

pub verify_distribution : DistributionResult → ChannelFinalizationInput → Option String
verify_distribution distribution input = first_error (
    (
      not (distribution.channel_address == input.channel_address),
      "distribution returned a different channel address",
    )
    ∷ (
      not (eqb_ℤ distribution.provider_amount input.authorized_cumulative_atomic),
      "provider distribution does not equal authorized cumulative spend",
    )
    ∷ (
      not (
          eqb_ℤ distribution.payer_refund
            (input.deposit_ceiling_atomic -ℤ input.authorized_cumulative_atomic)),
      "payer refund does not equal unused channel deposit",
    )
    ∷ (
      not (
          eqb_ℤ (distribution.provider_amount +ℤ distribution.payer_refund)
            input.deposit_ceiling_atomic),
      "channel distribution does not reconcile with deposit ceiling",
    )
    ∷ [])
