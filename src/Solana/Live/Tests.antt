-- ===== src/Solana/Live/Tests.antt =====
-- Runs of the recovery of a broadcast.
use canalis.Base.{ℕ, zero, suc, String, Option, none, some, false, ◌≡◌, ◌↔◌}
use canalis.Base.Int.{pos, ◌-ℤ◌, ◌≤ℤ◌, ◌<ℤ◌}
use canalis.Base.Result.{ok}
use canalis.Base.Action.{Action, returned, threw, error}
use canalis.Solana.Live.{assert_live_settlement_accounting, SettleResponse, SignatureStatus}
use canalis.Solana.Live.Promoted.{assert_live_settlement_accounting_iff}

abbrev sample_result : SettleResponse
sample_result = record {
  success = false;
  transaction = some "tx";
  error_reason = none;
  error_message = some "HTTP 429";
}

-- A chain that is rate-limited once, and then reports the transaction confirmed.
abbrev sample_status : String → Action ℕ ⊥ (Option SignatureStatus)
sample_status transaction zero = (threw (error "429"), 1)
sample_status transaction (suc n) =
    (returned (some record { failure = none; confirmation_status = some "confirmed" }), suc n)

abbrev no_wait : ℕ → Action ℕ ⊥ (Unit {0})
no_wait n s = (returned tt, s)

assert_live_settlement_accounting_iff_example :
    (assert_live_settlement_accounting (pos 9) (pos 5) ≡ ok (pos 5, pos 9 -ℤ pos 5))
    ↔ ((pos 0 <ℤ pos 9) × (pos 0 ≤ℤ pos 5) × (pos 5 ≤ℤ pos 9))
assert_live_settlement_accounting_iff_example =
    assert_live_settlement_accounting_iff (pos 9) (pos 5)
