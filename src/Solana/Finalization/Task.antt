-- ===== src/Solana/Finalization/Task.antt =====
-- packages/solana/src/finalization.ts: `finalizeTaskChannels`, the finalization of a whole task.
pub mod Sums
pub mod Books
mod Tests
use canalis.Base.{
  ℕ, suc, ◌-◌, String, Option, none, some, List, [], ◌∷◌, Bool, true, false, ◌&&◌, eqb,
  if◌then◌else◌, length, includes,
}
use canalis.Base.Int.{ℤ, pos, ◌+ℤ◌, ◌-ℤ◌, eqb_ℤ, ltb_ℤ}
use canalis.Base.Text.{template}
use canalis.Base.Action.{Action, ◌>>=◌, ◌>>◌, pure, assert, first_error}
use canalis.Solana.Types.{PaymentChannelAdapter}
use canalis.Solana.Explorer.{SolanaExplorerCluster, devnet}
use canalis.Solana.Finalization.{
  ChannelFinalizationInput, ChannelFinalizationStatus, finalized, recovery_required,
  ChannelFinalizationRecord, assert_non_negative, assert_input,
}
use canalis.Solana.Finalization.Provider.{finalize_provider_channel}

pub record TaskFinalizationSummary : Type 0 where
  pub task_id : String
  pub cluster : SolanaExplorerCluster
  pub task_budget_atomic : ℤ
  pub reserved_ceiling_atomic : ℤ
  pub unreserved_budget_atomic : ℤ
  pub authorized_spend_atomic : ℤ
  pub provider_paid_atomic : ℤ
  pub channel_refund_atomic : ℤ
  pub total_recovered_atomic : ℤ
  pub unresolved_escrow_atomic : ℤ
  pub reconciled_atomic : ℤ
  pub is_fully_finalized : Bool
  pub is_reconciled : Bool
  pub finalized_channel_count : ℕ
  pub recovery_required_channel_count : ℕ
  pub channels : List ChannelFinalizationRecord

pub record FinalizeTaskChannelsInput : Type 0 where
  pub task_id : String
  pub task_budget_atomic : ℤ
  pub cluster : Option SolanaExplorerCluster
  pub channels : List ChannelFinalizationInput

-- The checks of the first loop, which knows the providers and channels before the present one.
assert_channels :
    (seen_providers seen_channels : List String) → List ChannelFinalizationInput → Option String
unfolding assert_input
assert_channels seen_providers seen_channels [] = none
assert_channels seen_providers seen_channels (channel ∷ channels) =
    let rest =
      assert_channels (channel.provider_id ∷ seen_providers)
        (channel.channel_address ∷ seen_channels) channels in
    elim (assert_input channel) [
      | some message ↦ some message
      | none ↦
          if includes seen_providers channel.provider_id
          then some (template ("duplicate provider finalization: " ∷ channel.provider_id ∷ []))
          else if includes seen_channels channel.channel_address
          then some (template ("duplicate channel finalization: " ∷ channel.channel_address ∷ []))
          else rest
    ]

-- The sums of the first loop; the order of exact additions does not matter.
abbrev pub reserved_ceiling : List ChannelFinalizationInput → ℤ
reserved_ceiling [] = pos 0
reserved_ceiling (channel ∷ channels) = channel.deposit_ceiling_atomic +ℤ reserved_ceiling channels

abbrev pub authorized_spend : List ChannelFinalizationInput → ℤ
authorized_spend [] = pos 0
authorized_spend (channel ∷ channels) =
    channel.authorized_cumulative_atomic +ℤ authorized_spend channels

-- The sums over the records.
abbrev pub provider_paid : List ChannelFinalizationRecord → ℤ
provider_paid [] = pos 0
provider_paid (r ∷ rs) = r.provider_amount_atomic +ℤ provider_paid rs

abbrev pub channel_refund : List ChannelFinalizationRecord → ℤ
channel_refund [] = pos 0
channel_refund (r ∷ rs) = r.payer_refund_atomic +ℤ channel_refund rs

abbrev pub is_finalized : ChannelFinalizationStatus → Bool
is_finalized finalized = true
is_finalized recovery_required = false

abbrev pub unresolved_escrow : List ChannelFinalizationRecord → ℤ
unresolved_escrow [] = pos 0
unresolved_escrow (r ∷ rs) =
    let rest = unresolved_escrow rs in
    if is_finalized r.status then rest else r.deposit_ceiling_atomic +ℤ rest

abbrev pub finalized_count : List ChannelFinalizationRecord → ℕ
finalized_count [] = 0
finalized_count (r ∷ rs) =
    let rest = finalized_count rs in if is_finalized r.status then suc rest else rest

-- The summary of the records of all channels.
pub summarize :
    FinalizeTaskChannelsInput
    → SolanaExplorerCluster
    → List ChannelFinalizationRecord
    → TaskFinalizationSummary
summarize input cluster records =
    let reserved = reserved_ceiling input.channels in
    let authorized = authorized_spend input.channels in
    let paid = provider_paid records in
    let refunded = channel_refund records in
    let unreserved = input.task_budget_atomic -ℤ reserved in
    let recovered = refunded +ℤ unreserved in
    let reconciled = paid +ℤ recovered in
    let recovery_count = length records - finalized_count records in
    let fully = eqb recovery_count 0 in
    record {
      task_id = input.task_id;
      cluster = cluster;
      task_budget_atomic = input.task_budget_atomic;
      reserved_ceiling_atomic = reserved;
      unreserved_budget_atomic = unreserved;
      authorized_spend_atomic = authorized;
      provider_paid_atomic = paid;
      channel_refund_atomic = refunded;
      total_recovered_atomic = recovered;
      unresolved_escrow_atomic = unresolved_escrow records;
      reconciled_atomic = reconciled;
      is_fully_finalized = fully;
      is_reconciled = fully && eqb_ℤ paid authorized && eqb_ℤ reconciled input.task_budget_atomic;
      finalized_channel_count = finalized_count records;
      recovery_required_channel_count = recovery_count;
      channels = records;
    }

-- `input.cluster ?? "devnet"`
abbrev cluster_of : Option SolanaExplorerCluster → SolanaExplorerCluster
cluster_of none = devnet
cluster_of (some cluster) = cluster

module _ {S : Type 0} (adapter : PaymentChannelAdapter S) where
  -- The second loop: one channel after the other.
  finalize_each :
      SolanaExplorerCluster
      → List ChannelFinalizationInput
      → Action S ⊥ (List ChannelFinalizationRecord)
  unfolding finalize_provider_channel
  finalize_each cluster [] = pure []
  finalize_each cluster (channel ∷ channels) = do
    record_of ← finalize_provider_channel adapter channel cluster
    records ← finalize_each cluster channels
    pure (record_of ∷ records)

  pub finalize_task_channels : FinalizeTaskChannelsInput → Action S ⊥ TaskFinalizationSummary
  unfolding assert_channels finalize_each summarize
  finalize_task_channels input = do
    assert (first_error (assert_non_negative "task budget" input.task_budget_atomic ∷ []))
    assert (assert_channels [] [] input.channels)
    assert (
        first_error (
          (
            ltb_ℤ input.task_budget_atomic (reserved_ceiling input.channels),
            "channel deposit ceilings exceed original task budget",
          )
          ∷ []))
    records ← finalize_each (cluster_of input.cluster) input.channels
    pure (summarize input (cluster_of input.cluster) records)
