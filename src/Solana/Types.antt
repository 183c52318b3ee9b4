-- ===== src/Solana/Types.antt =====
-- packages/solana/src/types.ts: the boundary to the payment-channels program. Its implementation
-- acts on a world `S` of its own.
use canalis.Base.{ℕ, String, Option, List}
use canalis.Base.Int.{ℤ}
use canalis.Base.Action.{Action}

-- The state `open` is `opened` here.
pub data ChannelLifecycleState : Type 0 where
  opening : ChannelLifecycleState
  opened : ChannelLifecycleState
  closing : ChannelLifecycleState
  sealed : ChannelLifecycleState
  distributed : ChannelLifecycleState
  reclaimed : ChannelLifecycleState

pub record ChannelDescriptor : Type 0 where
  pub channel_address : String
  pub payer : String
  pub payee : String
  pub mint : String
  pub authorized_signer : String
  pub deposit_ceiling : ℤ
  pub settled_amount : ℤ
  pub state : ChannelLifecycleState

pub record OpenChannelRequest : Type 0 where
  pub payer : String
  pub payee : String
  pub mint : String
  pub authorized_signer : String
  pub deposit_ceiling : ℤ
  pub grace_period_seconds : ℤ
  pub salt : ℤ

-- The bytes of a signature.
abbrev pub SignatureBytes : Type 0
SignatureBytes = List ℕ

pub record SettleChannelRequest : Type 0 where
  pub channel_address : String
  pub cumulative_amount : ℤ
  pub expires_at : ℤ
  pub voucher_signature : SignatureBytes

pub record SettlementResult : Type 0 where
  pub channel_address : String
  pub settled_amount : ℤ
  pub transaction_signature : String

pub record DistributionResult : Type 0 where
  pub channel_address : String
  pub provider_amount : ℤ
  pub payer_refund : ℤ
  pub transaction_signature : String

pub record PaymentChannelAdapter (S : Type 0) : Type 0 where
  pub open_channel : OpenChannelRequest → Action S ⊥ ChannelDescriptor
  pub settle : SettleChannelRequest → Action S ⊥ SettlementResult
  pub settle_and_seal : SettleChannelRequest → Action S ⊥ SettlementResult
  pub seal_current : String → Action S ⊥ SettlementResult
  pub distribute : String → Action S ⊥ DistributionResult
  pub withdraw_payer : String → Action S ⊥ DistributionResult
  pub get_channel : String → Action S ⊥ (Option ChannelDescriptor)
