-- ===== src/Providers/Execute/Receipts.antt =====
-- What a completed provider request guarantees, and what a refused one leaves undone.
use canalis.Base.{String, ◌≡◌, ap, inl, inr, Option-cases, ◌↔◌, arith, eq_iff, none}
use canalis.Base.Int.{ℤ, pos, ◌<ℤ◌, eqb_ℤ_iff}
use canalis.Base.Action.{returned, threw, Thrown, error, >>=-eq-returned, pure}
use canalis.Providers.Types.{
  ProviderProtocol, ProviderRequest, ProviderQuote, PaymentAuthorization, ProviderResult,
  Fulfillment, PaymentAuthorizer, ProviderAdapter,
}
use canalis.Providers.Execute.{
  protocol_name, assert_quote_matches_request, assert_authorization_matches_quote, make_result,
  fulfill_and_receipt, after_authorization, after_quote, execute_provider_request,
}

-- The quote is this provider's, for this request, at a positive price.
pub record QuoteFits (provider_id request_id : String) (q : ProviderQuote) : Type 0 where
  pub provider : q.provider_id ≡ provider_id
  pub request : q.request_id ≡ request_id
  pub price : pos 0 <ℤ q.price_atomic

-- The authorization is for exactly what was quoted.
pub record AuthorizationFits (q : ProviderQuote) (a : PaymentAuthorization) : Type 0 where
  pub provider : a.provider_id ≡ q.provider_id
  pub request : a.request_id ≡ q.request_id
  pub mint : a.mint ≡ q.mint
  pub amount : a.amount_atomic ≡ q.price_atomic
  pub protocol : a.protocol ≡ q.protocol

protocol_name-injective : (a b : ProviderProtocol) → protocol_name a ≡ protocol_name b → a ≡ b
protocol_name-injective a b h =
    ground (arith, eq_iff "demo" "x402", eq_iff "demo" "mpp", eq_iff "x402" "mpp")

assert_quote_iff :
    (p r : String) (q : ProviderQuote)
    → (assert_quote_matches_request p r q ≡ none) ↔ QuoteFits p r q
unfolding assert_quote_matches_request
assert_quote_iff p r q = ground (arith, eq_iff q.provider_id p, eq_iff q.request_id r)

assert_authorization_iff :
    (q : ProviderQuote) (a : PaymentAuthorization)
    → (assert_authorization_matches_quote q a ≡ none) ↔ AuthorizationFits q a
unfolding assert_authorization_matches_quote
assert_authorization_iff q a = ground (
  arith,
  eq_iff a.provider_id q.provider_id,
  eq_iff a.request_id q.request_id,
  eq_iff a.mint q.mint,
  eqb_ℤ_iff a.amount_atomic q.price_atomic,
  eq_iff (protocol_name a.protocol) (protocol_name q.protocol),
  protocol_name-injective a.protocol q.protocol,
  ap protocol_name {x = a.protocol} {y = q.protocol},
)

module _ {S E In Out : Type 0} where
  -- How a call that returned came about, and what its receipt attests.
  pub record Completed (provider : ProviderAdapter S E In Out) (request : ProviderRequest In)
      (authorize : PaymentAuthorizer S E) (hash : Out → String) (now : ℤ) (s s' : S)
      (r : ProviderResult Out) : Type 0 where
    pub quote : ProviderQuote
    pub auth : PaymentAuthorization
    pub fulfillment : Fulfillment Out
    pub quoted_at : S
    pub authorized_at : S
    pub quoted : provider.quote request s ≡ (returned quote, quoted_at)
    pub authorized : authorize quote quoted_at ≡ (returned auth, authorized_at)
    pub fulfilled :
        provider.fulfill_authorized request quote auth authorized_at ≡ (returned fulfillment, s')
    pub quote_fits : QuoteFits provider.metadata.id request.request_id quote
    pub auth_fits : AuthorizationFits quote auth
    pub result : r ≡ make_result hash now quote auth fulfillment

module _ {S E In Out : Type 0} (provider : ProviderAdapter S E In Out)
    (request : ProviderRequest In) (authorize : PaymentAuthorizer S E) (hash : Out → String)
    (now : ℤ) where
  fulfill_and_receipt-returned :
      (q : ProviderQuote) (a : PaymentAuthorization) (s : S) {r : ProviderResult Out} {s' : S}
      → fulfill_and_receipt provider request authorize hash now q a s ≡ (returned r, s')
      → (f : Fulfillment Out) × (provider.fulfill_authorized request q a s ≡ (returned f, s'))
        × (r ≡ make_result hash now q a f)
  unfolding fulfill_and_receipt
  fulfill_and_receipt-returned q a s e =
      let (f, s2, fulfilled, e2) =
        >>=-eq-returned (provider.fulfill_authorized request q a)
          (λ f. pure (make_result hash now q a f)) s e in
      (f, cc, cc)

  after_authorization-returned :
      (q : ProviderQuote) (a : PaymentAuthorization) (s : S) {r : ProviderResult Out} {s' : S}
      → after_authorization provider request authorize hash now q a s ≡ (returned r, s')
      → AuthorizationFits q a
        × (fulfill_and_receipt provider request authorize hash now q a s ≡ (returned r, s'))
  unfolding after_authorization
  after_authorization-returned q a s e =
      elim (Option-cases (assert_authorization_matches_quote q a)) [
        | inl passed ↦ ((assert_authorization_iff q a).0 passed, rw passed at e)
        | inr (message, failed) ↦ cc (rw failed at e)
      ]

  after_quote-returned :
      (q : ProviderQuote) (s : S) {r : ProviderResult Out} {s' : S}
      → after_quote provider request authorize hash now q s ≡ (returned r, s')
      → QuoteFits provider.metadata.id request.request_id q
        × ((a : PaymentAuthorization) × (s1 : S) × (authorize q s ≡ (returned a, s1))
            × (after_authorization provider request authorize hash now q a s1 ≡ (returned r, s')))
  unfolding after_quote
  after_quote-returned q s e =
      elim (Option-cases (assert_quote_matches_request provider.metadata.id request.request_id q)) [
        | inl passed ↦ (
          (assert_quote_iff _ _ q).0 passed,
          >>=-eq-returned (authorize q) (after_authorization provider request authorize hash now q)
              s (rw passed at e),
        )
        | inr (message, failed) ↦ cc (rw failed at e)
      ]

  -- A request that returns has been quoted, authorized and fulfilled in this order; the quote is
  -- the provider's own, for this request and positive, the authorization is for exactly that
  -- provider, request, mint, amount and protocol, and the result is built from these three.
  pub execute_provider_request-Completed :
      (s : S) {r : ProviderResult Out} {s' : S}
      → execute_provider_request provider request authorize hash now s ≡ (returned r, s')
      → Completed provider request authorize hash now s s' r
  unfolding execute_provider_request
  execute_provider_request-Completed s e =
      let (q, s1, quoted, e1) =
        >>=-eq-returned (provider.quote request) (after_quote provider request authorize hash now) s
          e in
      let (fits, (a, s2, authorized, e2)) = after_quote-returned q s1 e1 in
      let (fits', e3) = after_authorization-returned q a s2 e2 in
      let (f, fulfilled, made) = fulfill_and_receipt-returned q a s2 e3 in
      record {
        quote = q;
        auth = a;
        fulfillment = f;
        quoted_at = s1;
        authorized_at = s2;
        quoted = quoted;
        authorized = authorized;
        fulfilled = fulfilled;
        quote_fits = fits;
        auth_fits = fits';
        result = made;
      }

  -- A denied authorization ends the request: the error of the authorizer is thrown, and the paid
  -- call is never made, since the world is left as the authorizer left it.
  pub execute_provider_request-denied :
      (s s1 s2 : S) (q : ProviderQuote) (t : Thrown E)
      → provider.quote request s ≡ (returned q, s1)
      → QuoteFits provider.metadata.id request.request_id q
      → authorize q s1 ≡ (threw t, s2)
      → execute_provider_request provider request authorize hash now s ≡ (threw t, s2)
  unfolding execute_provider_request after_quote
  execute_provider_request-denied s s1 s2 q t quoted fits denied =
      ground (arith, (assert_quote_iff provider.metadata.id request.request_id q).1 fits)

  -- An authorization that does not fit the quote ends the request with an error before the paid
  -- call, too.
  pub execute_provider_request-mismatch :
      (s s1 s2 : S) (q : ProviderQuote) (a : PaymentAuthorization)
      → provider.quote request s ≡ (returned q, s1)
      → QuoteFits provider.metadata.id request.request_id q
      → authorize q s1 ≡ (returned a, s2)
      → ¬ AuthorizationFits q a
      → (message : String) × (execute_provider_request provider request authorize hash now s
          ≡ (threw (error message), s2))
  unfolding execute_provider_request after_quote after_authorization
  execute_provider_request-mismatch s s1 s2 q a quoted fits authorized wrong =
      elim (Option-cases (assert_authorization_matches_quote q a)) [
        | inl passed ↦ absurd (wrong ((assert_authorization_iff q a).0 passed))
        | inr (message, failed) ↦ (
          message,
          ground
              (arith, failed, (assert_quote_iff provider.metadata.id request.request_id q).1 fits),
        )
      ]
