-- ===== src/Solana/Live/Promoted.antt =====
-- When a failed settlement is promoted to a confirmed one.
use canalis.Base.{ℕ, String, Option, none, some, true, ◌≡◌, ◌⊎◌, ◌↔◌, arith}
use canalis.Base.Int.{ℤ, pos, ◌+ℤ◌, ◌-ℤ◌, ◌≤ℤ◌, ◌<ℤ◌, eqb_ℤ_iff, int_laws}
use canalis.Base.Result.{ok}
use canalis.Base.Action.{Action, Outcome, returned, threw}
use canalis.Solana.Live.{
  assert_live_settlement_accounting, SettleResponse, SignatureStatus, is_confirmed, promoted,
}

module _ {S : Type 0} (status_of : String → Action S ⊥ (Option SignatureStatus))
    (wait : ℕ → Action S ⊥ (Unit {0})) (delay : ℕ) (result : SettleResponse) where
  -- The chain has reported the transaction confirmed, and no failure.
  pub record Reported (transaction : String) : Type 0 where
    pub before : S
    pub after : S
    pub status : SignatureStatus
    pub answered : status_of transaction before ≡ (returned (some status), after)
    pub succeeded : status.failure ≡ none
    pub confirmed : is_confirmed status.confirmation_status ≡ true

  -- The result is handed back, or promoted on such a report.
  abbrev pub Honest : String → SettleResponse → Type 0
  Honest transaction r = (r ≡ result) ⊎ ((r ≡ promoted transaction) × Reported transaction)

  abbrev Ends : String → Outcome ⊥ SettleResponse × S → Type 0
  Ends transaction (returned r, _) = Honest transaction r
  Ends transaction (threw _, _) = Unit

restored : (c s : ℤ) → s +ℤ (c -ℤ s) ≡ c
restored c s = omega int_laws

-- A claim is accounted for exactly if the ceiling is positive and the settled amount is between
-- zero and the ceiling; the rest of the ceiling is refunded.
pub assert_live_settlement_accounting_iff :
    (ceiling settled : ℤ)
    → (assert_live_settlement_accounting ceiling settled ≡ ok (settled, ceiling -ℤ settled))
      ↔ ((pos 0 <ℤ ceiling) × (pos 0 ≤ℤ settled) × (settled ≤ℤ ceiling))
unfolding assert_live_settlement_accounting
assert_live_settlement_accounting_iff c s =
    ground (arith, (eqb_ℤ_iff (s +ℤ (c -ℤ s)) c).1 (restored c s))
