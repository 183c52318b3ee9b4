-- ===== src/Providers/Execute/Tests.antt =====
-- Runs of provider requests against the sample provider.
use canalis.Base.{String, ◌≡◌, refl, arith}
use canalis.Base.Int.{ℤ, pos}
use canalis.Base.Action.{returned, threw, error}
use canalis.Providers.Types.{PaymentAuthorizer, ProviderResult, plain}
use canalis.Providers.Execute.{
  assert_quote_matches_request, assert_authorization_matches_quote, make_result,
  fulfill_and_receipt, after_authorization, after_quote, execute_provider_request,
}
use canalis.Providers.Execute.Receipts.{
  QuoteFits, AuthorizationFits, Completed, execute_provider_request-Completed,
  execute_provider_request-denied, execute_provider_request-mismatch,
}
use canalis.Samples.{sample_provider, sample_request, sample_quote, sample_authorization}

abbrev answering : ℤ → PaymentAuthorizer (Unit {0}) ⊥
answering amount quote s = (returned (sample_authorization amount), s)

abbrev denying : PaymentAuthorizer (Unit {0}) ⊥
denying quote s = (threw (error "denied"), s)

abbrev hash : String → String
hash output = output

abbrev sample_result : ProviderResult String
sample_result =
    make_result hash (pos 20) sample_quote (sample_authorization (pos 25)) (plain "found")

sample_completes :
    execute_provider_request sample_provider sample_request (answering (pos 25)) hash (pos 20) tt
    ≡ (returned sample_result, tt)
unfolding execute_provider_request after_quote after_authorization fulfill_and_receipt
    assert_quote_matches_request assert_authorization_matches_quote
sample_completes = refl

sample_fits : QuoteFits "search" "r1" sample_quote
sample_fits = record { provider = refl; request = refl; price = ground arith }

execute_provider_request-Completed_example :
    Completed sample_provider sample_request (answering (pos 25)) hash (pos 20) tt tt sample_result
execute_provider_request-Completed_example =
    execute_provider_request-Completed sample_provider sample_request (answering (pos 25)) hash
      (pos 20) tt sample_completes

execute_provider_request-denied_example :
    execute_provider_request sample_provider sample_request denying hash (pos 20) tt
    ≡ (threw (error "denied"), tt)
execute_provider_request-denied_example =
    execute_provider_request-denied sample_provider sample_request denying hash (pos 20) tt tt tt
      sample_quote (error "denied") refl sample_fits refl

sample_misfit : ¬ AuthorizationFits sample_quote (sample_authorization (pos 24))
sample_misfit fits = ground (arith, fits.amount)

execute_provider_request-mismatch_example :
    (message : String) × (execute_provider_request sample_provider sample_request
        (answering (pos 24))
        hash
        (pos 20)
        tt
      ≡ (threw (error message), tt))
execute_provider_request-mismatch_example =
    execute_provider_request-mismatch sample_provider sample_request (answering (pos 24)) hash
      (pos 20) tt tt tt sample_quote (sample_authorization (pos 24)) refl sample_fits refl
      sample_misfit
