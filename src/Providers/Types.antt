-- ===== src/Providers/Types.antt =====
-- packages/providers/src/types.ts. The types of a request's input and of a provider's output, the
-- world that a provider's calls change and the class of errors of the caller are parameters.
use canalis.Base.{String, Option}
use canalis.Base.Int.{ℤ}
use canalis.Base.Dict.{Dict}
use canalis.Base.Action.{Action}

pub data ProviderProtocol : Type 0 where
  demo x402 mpp : ProviderProtocol

abbrev pub ProtocolPaymentMetadata : Type 0
ProtocolPaymentMetadata = Dict String

pub record ProviderMetadata : Type 0 where
  pub id : String
  pub name : String
  pub payee : String
  pub protocol : ProviderProtocol
  pub description : String

pub record ProviderRequest (In : Type 0) : Type 0 where
  pub request_id : String
  pub input : In

pub record ProviderQuote : Type 0 where
  pub provider_id : String
  pub request_id : String
  pub mint : String
  pub price_atomic : ℤ
  pub protocol : ProviderProtocol
  pub protocol_metadata : Option ProtocolPaymentMetadata

pub record PaymentAuthorization : Type 0 where
  pub authorization_id : String
  pub provider_id : String
  pub request_id : String
  pub mint : String
  pub amount_atomic : ℤ
  pub protocol : ProviderProtocol
  pub payment_reference : Option String

pub record ProviderReceipt : Type 0 where
  pub provider_id : String
  pub request_id : String
  pub mint : String
  pub price_atomic : ℤ
  pub protocol : ProviderProtocol
  pub authorization_id : String
  pub payment_reference : Option String
  pub response_hash : String
  pub timestamp : ℤ
  pub protocol_metadata : Option ProtocolPaymentMetadata

pub record ProviderResult (Out : Type 0) : Type 0 where
  pub output : Out
  pub receipt : ProviderReceipt

-- What `fulfillAuthorized` resolves to: the bare output, or the tagged object that
-- `providerFulfillment` builds.
pub data Fulfillment (Out : Type 0) : Type 0 where
  plain : Out → Fulfillment Out
  tagged : Out → Option ProtocolPaymentMetadata → Fulfillment Out

abbrev pub PaymentAuthorizer : Type 0 → Type 0 → Type 0
PaymentAuthorizer S E = ProviderQuote → Action S E PaymentAuthorization

pub record ProviderAdapter (S E In Out : Type 0) : Type 0 where
  pub metadata : ProviderMetadata
  pub quote : ProviderRequest In → Action S E ProviderQuote
  pub fulfill_authorized :
      ProviderRequest In → ProviderQuote → PaymentAuthorization → Action S E (Fulfillment Out)
