-- ===== src/Solana/Live.antt =====
-- packages/solana/src/live-x402.ts: the accounting of a claim, and the recovery of a broadcast
-- whose confirmation was rate-limited. The connection and the sleep act on a world of their own.
pub mod Promoted
mod Tests
use Prim.Native.Char.{code}
use Prim.Native.String
use canalis.Base.{
  ℕ, zero, suc, ◌*◌, String, Option, none, some, List, [], ◌∷◌, Bool, true, false, not, ◌&&◌, ◌||◌,
  ◌==◌, eqb, if◌then◌else◌,
}
use canalis.Base.Int.{ℤ, pos, ◌+ℤ◌, ◌-ℤ◌, leb_ℤ, ltb_ℤ, eqb_ℤ}
use canalis.Base.Text.{template}
use canalis.Base.Result.{Result, ok, err}
use canalis.Base.Action.{
  Action, Thrown, error, own, alien, returned, threw, ◌>>=◌, ◌>>◌, pure, throw, attempt,
  first_error,
}

-- `assertLiveSettlementAccounting`: the settled and the refunded amount.
pub assert_live_settlement_accounting : (ceiling settled : ℤ) → Result (ℤ × ℤ)
assert_live_settlement_accounting ceiling settled =
    let refunded = ceiling -ℤ settled in
    elim (first_error (
      (leb_ℤ ceiling (pos 0), "Channel ceiling must be greater than zero.")
      ∷ (
        ltb_ℤ settled (pos 0) || ltb_ℤ ceiling settled,
        "Settled amount must be between zero and the channel ceiling.",
      )
      ∷ (
        not (eqb_ℤ (settled +ℤ refunded) ceiling),
        "Channel settlement accounting invariant failed.",
      )
      ∷ [])) [ some message ↦ err message | none ↦ ok (settled, refunded) ]

-- The fields that the code reads; one that is not a text is `none`.
pub record SettleResponse : Type 0 where
  pub success : Bool
  pub transaction : Option String
  pub error_reason : Option String
  pub error_message : Option String

-- A status of a signature; its error as JSON text.
pub record SignatureStatus : Type 0 where
  pub failure : Option String
  pub confirmation_status : Option String

-- `text.includes("429")`
starts_with : List ℕ → String → Bool
starts_with [] s = true
starts_with (c ∷ cs) String.[] = false
starts_with (c ∷ cs) (String.◌∷◌ d s) = eqb (code d) c && starts_with cs s

pub mentions_429 : String → Bool
unfolding starts_with
mentions_429 String.[] = false
mentions_429 (String.◌∷◌ c s) = starts_with (52 ∷ 50 ∷ 57 ∷ []) (String.◌∷◌ c s) || mentions_429 s

-- `error instanceof Error && error.message.includes("429")`
abbrev pub is_rate_limit : Thrown ⊥ → Bool
is_rate_limit (error message) = mentions_429 message
is_rate_limit _ = false

abbrev pub is_confirmed : Option String → Bool
is_confirmed none = false
is_confirmed (some status) = (status == "confirmed") || (status == "finalized")

-- The evidence of a confirmed transaction, without the fields of the error.
abbrev pub promoted : String → SettleResponse
promoted transaction = record {
  success = true;
  transaction = some transaction;
  error_reason = none;
  error_message = none;
}

-- The signature of a broadcast whose confirmation was rate-limited.
pub rate_limited_broadcast : SettleResponse → Option String
rate_limited_broadcast result = elim (result.transaction) [
  | none ↦ none
  | some transaction ↦ elim (result.error_message) [
    | none ↦ none
    | some message ↦
        if result.success || (transaction == "") || not (mentions_429 message)
        then none
        else some transaction
  ]
]

module _ {S : Type 0} (status_of : String → Action S ⊥ (Option SignatureStatus))
    (wait : ℕ → Action S ⊥ (Unit {0})) (delay : ℕ) (result : SettleResponse) where
  -- A failure is thrown; otherwise, whether the status says confirmed.
  pub verdict : (transaction : String) (failure confirmation : Option String) → Action S ⊥ Bool
  verdict transaction (some failure) confirmation =
      throw (
        error
          (template ("Broadcast Solana settlement " ∷ transaction ∷ " failed: " ∷ failure ∷ [])))
  verdict transaction none confirmation = pure (is_confirmed confirmation)

  pub judge : String → Option SignatureStatus → Action S ⊥ Bool
  unfolding verdict
  judge transaction none = pure false
  judge transaction (some status) = verdict transaction status.failure status.confirmation_status

  pub ask : String → Action S ⊥ Bool
  unfolding judge
  ask transaction = do status ← status_of transaction; judge transaction status

  -- The wait between two attempts, and none after the last one.
  pub pause : (left number : ℕ) → Action S ⊥ SettleResponse → Action S ⊥ SettleResponse
  pause zero number rest = rest
  pause (suc _) number rest = wait (delay * number) >> rest

  -- The loop, with the attempts that are left and the number of the present one.
  pub poll : (left number : ℕ) → String → Action S ⊥ SettleResponse
  unfolding ask pause
  poll zero number transaction = pure result
  poll (suc left) number transaction =
      let rest = pause left number (poll left (suc number) transaction) in
      attempt (ask transaction) (λ t. if is_rate_limit t then rest else throw t)
        (λ confirmed. if confirmed then pure (promoted transaction) else rest)

  pub recover_rate_limited_broadcast : (attempts : ℕ) → Action S ⊥ SettleResponse
  unfolding poll rate_limited_broadcast
  recover_rate_limited_broadcast attempts = elim (rate_limited_broadcast result) [
    | none ↦ pure result
    | some transaction ↦ poll attempts 1 transaction
  ]
