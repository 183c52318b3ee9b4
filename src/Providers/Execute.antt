-- ===== src/Providers/Execute.antt =====
-- packages/providers/src/execute.ts: `executeProviderRequest`, the only way to a paid request.
-- The hash of a response (sha256 of its stable JSON text) and the clock are arguments.
pub mod Receipts
pub mod Rule
mod Tests
use canalis.Base.{
  String, Option, none, some, List, [], ◌∷◌, Bool, true, false, not, ◌==◌, if◌then◌else◌,
}
use canalis.Base.Int.{ℤ, pos, leb_ℤ, eqb_ℤ}
use canalis.Base.Dict.{Dict, insert}
use canalis.Base.Action.{Action, ◌>>=◌, ◌>>◌, pure, assert, first_error}
use canalis.Providers.Types.{
  ProviderProtocol, demo, x402, mpp, ProtocolPaymentMetadata, ProviderRequest, ProviderQuote,
  PaymentAuthorization, ProviderReceipt, ProviderResult, Fulfillment, plain, tagged,
  PaymentAuthorizer, ProviderAdapter,
}

abbrev pub protocol_name : ProviderProtocol → String
protocol_name demo = "demo"
protocol_name x402 = "x402"
protocol_name mpp = "mpp"

assert_quote_matches_request : String → String → ProviderQuote → Option String
assert_quote_matches_request provider_id request_id quote = first_error (
    (not (quote.provider_id == provider_id), "provider quote belongs to a different provider")
    ∷ (not (quote.request_id == request_id), "provider quote belongs to a different request")
    ∷ (leb_ℤ quote.price_atomic (pos 0), "provider quote must have a positive price")
    ∷ [])

assert_authorization_matches_quote : ProviderQuote → PaymentAuthorization → Option String
assert_authorization_matches_quote quote auth = first_error (
    (not (auth.provider_id == quote.provider_id), "payment authorization provider mismatch")
    ∷ (not (auth.request_id == quote.request_id), "payment authorization request mismatch")
    ∷ (not (auth.mint == quote.mint), "payment authorization mint mismatch")
    ∷ (not (eqb_ℤ auth.amount_atomic quote.price_atomic), "payment authorization amount mismatch")
    ∷ (
      not (protocol_name auth.protocol == protocol_name quote.protocol),
      "payment authorization protocol mismatch",
    )
    ∷ [])

-- `{ ...base, ...more }`
spread : Dict String → Dict String → Dict String
spread base [] = base
spread base ((k, v) ∷ more) = spread (insert k v base) more

pub merge_protocol_metadata :
    Option ProtocolPaymentMetadata → Option ProtocolPaymentMetadata → Option ProtocolPaymentMetadata
unfolding spread
merge_protocol_metadata none none = none
merge_protocol_metadata none (some fulfilled) = some (spread [] fulfilled)
merge_protocol_metadata (some quoted) none = some quoted
merge_protocol_metadata (some quoted) (some fulfilled) = some (spread quoted fulfilled)

abbrev output_of : {Out : Type 0} → Fulfillment Out → Out
output_of (plain output) = output
output_of (tagged output _) = output

abbrev metadata_of : {Out : Type 0} → Fulfillment Out → Option ProtocolPaymentMetadata
metadata_of (plain _) = none
metadata_of (tagged _ metadata) = metadata

-- The receipt that the call returns with its output.
pub make_result :
    {Out : Type 0}
    → (Out → String)
    → ℤ
    → ProviderQuote
    → PaymentAuthorization
    → Fulfillment Out
    → ProviderResult Out
make_result hash now quote auth fulfillment = record {
  output = output_of fulfillment;
  receipt = record {
    provider_id = quote.provider_id;
    request_id = quote.request_id;
    mint = quote.mint;
    price_atomic = quote.price_atomic;
    protocol = quote.protocol;
    authorization_id = auth.authorization_id;
    payment_reference = auth.payment_reference;
    response_hash = hash (output_of fulfillment);
    timestamp = now;
    protocol_metadata = merge_protocol_metadata quote.protocol_metadata (metadata_of fulfillment);
  };
}

module _ {S E In Out : Type 0} (provider : ProviderAdapter S E In Out)
    (request : ProviderRequest In) (authorize : PaymentAuthorizer S E) (hash : Out → String)
    (now : ℤ) where
  -- The paid call and its receipt.
  fulfill_and_receipt : ProviderQuote → PaymentAuthorization → Action S E (ProviderResult Out)
  fulfill_and_receipt quote auth = do
    fulfillment ← provider.fulfill_authorized request quote auth
    pure (make_result hash now quote auth fulfillment)

  -- What follows an authorization.
  after_authorization : ProviderQuote → PaymentAuthorization → Action S E (ProviderResult Out)
  after_authorization quote auth = do
    assert (assert_authorization_matches_quote quote auth)
    fulfill_and_receipt quote auth

  -- What follows a quote.
  after_quote : ProviderQuote → Action S E (ProviderResult Out)
  after_quote quote = do
    assert (assert_quote_matches_request provider.metadata.id request.request_id quote)
    auth ← authorize quote
    after_authorization quote auth

  pub execute_provider_request : Action S E (ProviderResult Out)
  execute_provider_request = do quote ← provider.quote request; after_quote quote
