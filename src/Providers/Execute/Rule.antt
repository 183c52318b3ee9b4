-- ===== src/Providers/Execute/Rule.antt =====
-- A rule for what a provider request keeps: its calls keep what held before the authorization, or
-- what the authorization established, and nothing between them changes the world.
use canalis.Base.{String, Option, none, some, ◌⊎◌, inl, inr}
use canalis.Base.Int.{ℤ}
use canalis.Base.Action.{Outcome, returned, threw, Thrown, error, Action, ◌>>=◌, ◌>>◌, assert, pure}
use canalis.Providers.Types.{
  ProviderRequest, ProviderQuote, PaymentAuthorization, ProviderResult, PaymentAuthorizer,
  ProviderAdapter,
}
use canalis.Providers.Execute.{
  fulfill_and_receipt, after_authorization, after_quote, execute_provider_request, make_result,
  assert_quote_matches_request, assert_authorization_matches_quote,
}

module _ {S E : Type 0} where
  -- A bind keeps what its first call leads to, and its second keeps from there.
  >>=_rule :
      {A B : Type 0} (m : Action S E A) (f : A → Action S E B) (s : S)
      (Mid : Outcome E A × S → Type 0) (End : Outcome E B × S → Type 0)
      → Mid (m s)
      → ((a : A) (s' : S) → Mid (returned a, s') → End (f a s'))
      → ((t : Thrown E) (s' : S) → Mid (threw t, s') → End (threw t, s'))
      → End ((m >>= f) s)
  >>=_rule {A} {B} m f s Mid End mid next stop = go (m s) mid
    where
      go :
          (x : Outcome E A × S)
          → Mid x
          → End (let (r, s') = x in elim r [ returned a ↦ f a s' | threw t ↦ (threw t, s') ])
      go (returned a, s') h = next a s' h
      go (threw t, s') h = stop t s' h

  assert_rule :
      {B : Type 0} (o : Option String) (k : Action S E B) (s : S) (End : Outcome E B × S → Type 0)
      → End (k s)
      → ((t : Thrown E) → End (threw t, s))
      → End ((assert o >> k) s)
  assert_rule none k s End next stop = next
  assert_rule (some message) k s End next stop = stop (error message)

module _ {S E In Out : Type 0} (provider : ProviderAdapter S E In Out)
    (request : ProviderRequest In) (authorize : PaymentAuthorizer S E) (hash : Out → String)
    (now : ℤ) (Before Granted : S → Type 0) (Denied : Thrown E → S → Type 0) where
  abbrev pub Decided : Outcome E PaymentAuthorization × S → Type 0
  Decided (returned _, s) = Granted s
  Decided (threw t, s) = Denied t s

  abbrev pub Ended : Outcome E (ProviderResult Out) × S → Type 0
  Ended (returned _, s) = Granted s
  Ended (threw t, s) = Before s ⊎ (Granted s ⊎ Denied t s)

  fulfill_rule :
      (q : ProviderQuote) (a : PaymentAuthorization) (s : S)
      → Granted (provider.fulfill_authorized request q a s).1
      → Ended (fulfill_and_receipt provider request authorize hash now q a s)
  unfolding fulfill_and_receipt
  fulfill_rule q a s h =
      >>=_rule (provider.fulfill_authorized request q a) (λ f. pure (make_result hash now q a f)) s
        (λ x. Granted x.1) Ended h (λ f s' k. k) (λ t s' k. inr (inl k))

  after_authorization_rule :
      (q : ProviderQuote) (a : PaymentAuthorization) (s : S)
      → Granted s
      → Granted (provider.fulfill_authorized request q a s).1
      → Ended (after_authorization provider request authorize hash now q a s)
  unfolding after_authorization
  after_authorization_rule q a s g h =
      assert_rule (assert_authorization_matches_quote q a)
        (fulfill_and_receipt provider request authorize hash now q a) s Ended (fulfill_rule q a s h)
        (λ t. inr (inl g))

  after_quote_rule :
      (q : ProviderQuote) (s : S)
      → Before s
      → Decided (authorize q s)
      → ((a : PaymentAuthorization) (s' : S)
          → Granted s'
          → Granted (provider.fulfill_authorized request q a s').1)
      → Ended (after_quote provider request authorize hash now q s)
  unfolding after_quote
  after_quote_rule q s b d fulfills =
      assert_rule (assert_quote_matches_request provider.metadata.id request.request_id q)
        (authorize q >>= after_authorization provider request authorize hash now q) s Ended
        (>>=_rule (authorize q) (after_authorization provider request authorize hash now q) s
          Decided Ended d (λ a s' g. after_authorization_rule q a s' g (fulfills a s' g))
          (λ t s' k. inr (inr k)))
        (λ t. inl b)

  -- If the quote keeps `Before`, the authorizer leads from there to `Granted` or throws into
  -- `Denied`, and the paid call keeps `Granted`, then a request that returns ends in `Granted`,
  -- and one that throws in one of the three.
  pub execute_provider_request_rule :
      ((s : S) → Before s → Before (provider.quote request s).1)
      → ((q : ProviderQuote) (s : S) → Before s → Decided (authorize q s))
      → ((q : ProviderQuote) (a : PaymentAuthorization) (s : S)
          → Granted s
          → Granted (provider.fulfill_authorized request q a s).1)
      → (s : S) → Before s
      → Ended (execute_provider_request provider request authorize hash now s)
  unfolding execute_provider_request
  execute_provider_request_rule quotes decides fulfills s h =
      >>=_rule (provider.quote request) (after_quote provider request authorize hash now) s
        (λ x. Before x.1) Ended (quotes s h)
        (λ q s' k. after_quote_rule q s' k (decides q s' k) (fulfills q)) (λ t s' k. inl k)
