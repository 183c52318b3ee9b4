-- ===== src/Solana/Finalization/Provider/Tests.antt =====
-- Runs of the finalization of one channel.
use canalis.Base.{none, some, ◌≡◌, refl}
use canalis.Base.Int.{pos, ◌+ℤ◌, ◌-ℤ◌}
use canalis.Base.Text.{template, is_blank}
use canalis.Base.Action.{returned, threw, alien}
use canalis.Base.{true}
use canalis.Solana.Types.{opened, ChannelDescriptor, PaymentChannelAdapter}
use canalis.Solana.Explorer.{devnet, encode_uri_component, solana_explorer_transaction_url}
use canalis.Solana.Finalization.{
  ChannelFinalizationInput, ChannelFinalizationRecord, finalized, assert_input, settlement_url,
  finalized_record, verify_channel_matches_input, verify_settlement, verify_distribution,
}
use canalis.Solana.Finalization.Provider.{
  seal_open, seal_at_authorized_watermark, look_up, seal_channel, reconcile_outcome,
  reconcile_distribution, distribute_channel, settle_channel, finalize_in_state, finalize_found,
  finalize_provider_channel,
}
use canalis.Solana.Finalization.Provider.Exact.{Accounted, finalize_provider_channel-Accounted}

abbrev pub sample_input : ChannelFinalizationInput
sample_input = record {
  provider_id = "search";
  channel_address = "addr";
  deposit_ceiling_atomic = pos 60;
  authorized_cumulative_atomic = pos 25;
  final_voucher = none;
}

abbrev sample_channel : ChannelDescriptor
sample_channel = record {
  channel_address = "addr";
  payer = "payer";
  payee = "payee";
  mint = "USDC";
  authorized_signer = "signer";
  deposit_ceiling = pos 60;
  settled_amount = pos 25;
  state = opened;
}

-- A chain on which the channel is open at its final watermark.
abbrev pub sample_adapter : PaymentChannelAdapter (Unit {0})
sample_adapter = record {
  open_channel = λ request s. (threw (alien true), s);
  settle = λ request s. (threw (alien true), s);
  settle_and_seal = λ request s. (threw (alien true), s);
  seal_current = λ address s. (
    returned record {
      channel_address = address;
      settled_amount = pos 25;
      transaction_signature = "sealed";
    },
    s,
  );
  distribute = λ address s. (
    returned record {
      channel_address = address;
      provider_amount = pos 25;
      payer_refund = pos 35;
      transaction_signature = "paid";
    },
    s,
  );
  withdraw_payer = λ address s. (threw (alien true), s);
  get_channel = λ address s. (returned (some sample_channel), s);
}

abbrev pub sample_record : ChannelFinalizationRecord
sample_record = record {
  provider_id = "search";
  channel_address = "addr";
  status = finalized;
  deposit_ceiling_atomic = pos 60;
  authorized_cumulative_atomic = pos 25;
  expected_provider_amount_atomic = pos 25;
  expected_payer_refund_atomic = pos 35;
  provider_amount_atomic = pos 25;
  payer_refund_atomic = pos 35;
  settlement_transaction_signature = some "sealed";
  distribution_transaction_signature = some "paid";
  settlement_explorer_url = some "https://explorer.solana.com/tx/sealed?cluster=devnet";
  distribution_explorer_url = some "https://explorer.solana.com/tx/paid?cluster=devnet";
  failed_phase = none;
  recovery_action = none;
  error_message = none;
}

pub sample_finalizes :
    finalize_provider_channel sample_adapter sample_input devnet tt ≡ (returned sample_record, tt)
unfolding finalize_provider_channel assert_input look_up verify_channel_matches_input finalize_found
    finalize_in_state settle_channel seal_channel seal_at_authorized_watermark seal_open
    verify_settlement distribute_channel reconcile_distribution reconcile_outcome
    verify_distribution finalized_record settlement_url solana_explorer_transaction_url
    encode_uri_component ◌+ℤ◌ ◌-ℤ◌ template is_blank
sample_finalizes = refl

finalize_provider_channel-Accounted_example : Accounted sample_input sample_record
finalize_provider_channel-Accounted_example =
    finalize_provider_channel-Accounted sample_adapter sample_input devnet tt tt sample_record
      sample_finalizes
