-- ===== src/Solana/Finalization/Provider/Exact.antt =====
-- What a finalization of one channel accounts for, on every branch.
use canalis.Base.{String, Option, none, some, ◌≡◌, refl, subst, ◌⊎◌, inl, inr, arith}
use canalis.Base.Int.{pos, ◌+ℤ◌, ◌-ℤ◌, eqb_ℤ_iff}
use canalis.Base.Result.{Result, ok, >>=-eq-ok, ok-injective, ◌>>=◌}
use canalis.Base.Action.{
  Outcome, returned, threw, attempt_rule, of_result_rule, of_result, attempt, assert, ◌>>◌,
}
use canalis.Solana.Types.{
  ChannelLifecycleState, opening, opened, closing, sealed, distributed, reclaimed,
  ChannelDescriptor, SettlementResult, DistributionResult, PaymentChannelAdapter,
}
use canalis.Solana.Explorer.{SolanaExplorerCluster, solana_explorer_transaction_url}
use canalis.Solana.Finalization.{
  ChannelFinalizationInput, ChannelFinalizationFailurePhase, inspect, settle_and_seal, distribute,
  reconcile, ChannelRecoveryAction, inspect_channel, retry_settle_and_seal, retry_distribute,
  wait_for_forced_close, ChannelFinalizationRecord, finalized, recovery_required, error_message,
  assert_input, settlement_url, recovery_record, recovery_fields, with_distribution,
  reconcile_failure, finalized_fields, finalized_record, verify_distribution, signature_of,
}
use canalis.Solana.Finalization.Provider.{
  look_up, seal_channel, reconcile_outcome, reconcile_distribution, distribute_channel,
  settle_channel, finalize_in_state, finalize_found, finalize_provider_channel,
}

-- The action that a failed phase advises.
pub data Advises : ChannelFinalizationFailurePhase → ChannelRecoveryAction → Type 0 where
  inspect_again : Advises inspect inspect_channel
  wait_for_close : Advises settle_and_seal wait_for_forced_close
  seal_again : Advises settle_and_seal retry_settle_and_seal
  inspect_sealed : Advises settle_and_seal inspect_channel
  distribute_again : Advises distribute retry_distribute
  inspect_distribution : Advises reconcile inspect_channel

-- The record speaks of this channel.
pub record Identifies (input : ChannelFinalizationInput) (r : ChannelFinalizationRecord)
    : Type 0 where
  pub provider : r.provider_id ≡ input.provider_id
  pub channel : r.channel_address ≡ input.channel_address
  pub ceiling : r.deposit_ceiling_atomic ≡ input.deposit_ceiling_atomic
  pub authorized : r.authorized_cumulative_atomic ≡ input.authorized_cumulative_atomic

-- A finalized channel has paid what was authorized and refunded the rest.
pub record Settled (input : ChannelFinalizationInput) (r : ChannelFinalizationRecord) : Type 0 where
  pub status : r.status ≡ finalized
  pub paid : r.provider_amount_atomic ≡ input.authorized_cumulative_atomic
  pub refunded :
      r.payer_refund_atomic ≡ input.deposit_ceiling_atomic -ℤ input.authorized_cumulative_atomic
  pub whole : r.provider_amount_atomic +ℤ r.payer_refund_atomic ≡ input.deposit_ceiling_atomic

-- Any other channel is left for recovery, and counts no money unless a distribution has moved it.
pub record Recovering (r : ChannelFinalizationRecord) : Type 0 where
  pub status : r.status ≡ recovery_required
  pub phase : ChannelFinalizationFailurePhase
  pub action : ChannelRecoveryAction
  pub failed : r.failed_phase ≡ some phase
  pub advised : r.recovery_action ≡ some action
  pub advises : Advises phase action
  pub unpaid :
      (phase ≡ reconcile) ⊎ ((r.provider_amount_atomic ≡ pos 0) × (r.payer_refund_atomic ≡ pos 0))

abbrev pub Accounted : ChannelFinalizationInput → ChannelFinalizationRecord → Type 0
Accounted input r = Identifies input r × (Settled input r ⊎ Recovering r)

recovery_record-Accounted :
    (input : ChannelFinalizationInput) (phase : ChannelFinalizationFailurePhase)
    (action : ChannelRecoveryAction) (message : String) (cluster : SolanaExplorerCluster)
    (settlement : Option SettlementResult) (r : ChannelFinalizationRecord)
    → Advises phase action
    → recovery_record input phase action message cluster settlement ≡ ok r
    → Accounted input r
unfolding recovery_record
recovery_record-Accounted input phase action message cluster settlement r advises e =
    let (url, _, made) =
      >>=-eq-ok (settlement_url (signature_of settlement) cluster)
        (λ url. ok (recovery_fields input phase action message settlement url)) e in
    subst (Accounted input) (ok-injective made) (
      record { provider = refl; channel = refl; ceiling = refl; authorized = refl },
      inr record {
        status = refl;
        phase = phase;
        action = action;
        failed = refl;
        advised = refl;
        advises = advises;
        unpaid = inr (refl, refl);
      },
    )

reconcile_failure-Accounted :
    (input : ChannelFinalizationInput) (cluster : SolanaExplorerCluster)
    (settlement : SettlementResult) (distribution : DistributionResult) (message : String)
    (r : ChannelFinalizationRecord)
    → reconcile_failure input cluster settlement distribution message ≡ ok r
    → Accounted input r
unfolding reconcile_failure recovery_record
reconcile_failure-Accounted input cluster settlement distribution message r e =
    let (failed, recovered, rest) =
      >>=-eq-ok (recovery_record input reconcile inspect_channel message cluster (some settlement))
        (λ failed.
          solana_explorer_transaction_url distribution.transaction_signature cluster >>= λ url.
          ok (with_distribution distribution failed url))
        e in
    let (settled, _, made) =
      >>=-eq-ok (settlement_url (some settlement.transaction_signature) cluster)
        (λ url. ok (recovery_fields input reconcile inspect_channel message (some settlement) url))
        recovered in
    let (url, _, made') =
      >>=-eq-ok (solana_explorer_transaction_url distribution.transaction_signature cluster)
        (λ url. ok (with_distribution distribution failed url)) rest in
    subst (Accounted input) (ok-injective made') (
      subst (λ f. Accounted input (with_distribution distribution f url)) (ok-injective made)
        (
          record { provider = refl; channel = refl; ceiling = refl; authorized = refl },
          inr record {
            status = refl;
            phase = reconcile;
            action = inspect_channel;
            failed = refl;
            advised = refl;
            advises = inspect_distribution;
            unpaid = inl refl;
          },
        ))

-- What a distribution that passes the checks amounts to.
verify_distribution-none :
    (d : DistributionResult) (input : ChannelFinalizationInput)
    → verify_distribution d input ≡ none
    → (d.provider_amount ≡ input.authorized_cumulative_atomic)
      × (d.payer_refund ≡ input.deposit_ceiling_atomic -ℤ input.authorized_cumulative_atomic)
      × (d.provider_amount +ℤ d.payer_refund ≡ input.deposit_ceiling_atomic)
unfolding verify_distribution
verify_distribution-none d input h = ground (
  arith,
  eqb_ℤ_iff d.provider_amount input.authorized_cumulative_atomic,
  eqb_ℤ_iff d.payer_refund (input.deposit_ceiling_atomic -ℤ input.authorized_cumulative_atomic),
  eqb_ℤ_iff (d.provider_amount +ℤ d.payer_refund) input.deposit_ceiling_atomic,
)

finalized_record-Accounted :
    (input : ChannelFinalizationInput) (cluster : SolanaExplorerCluster)
    (settlement : SettlementResult) (distribution : DistributionResult)
    (r : ChannelFinalizationRecord)
    → verify_distribution distribution input ≡ none
    → finalized_record input cluster settlement distribution ≡ ok r
    → Accounted input r
unfolding finalized_record
finalized_record-Accounted input cluster settlement distribution r passed e =
    let (settled_url, _, rest) =
      >>=-eq-ok (settlement_url (some settlement.transaction_signature) cluster)
        (λ settled.
          solana_explorer_transaction_url distribution.transaction_signature cluster >>= λ url.
          ok (finalized_fields input settlement distribution settled url))
        e in
    let (url, _, made) =
      >>=-eq-ok (solana_explorer_transaction_url distribution.transaction_signature cluster)
        (λ url. ok (finalized_fields input settlement distribution settled_url url)) rest in
    let (paid, refunded, whole) = verify_distribution-none distribution input passed in
    subst (Accounted input) (ok-injective made) (
      record { provider = refl; channel = refl; ceiling = refl; authorized = refl },
      inl record { status = refl; paid = paid; refunded = refunded; whole = whole },
    )

module _ {S : Type 0} (adapter : PaymentChannelAdapter S) (input : ChannelFinalizationInput)
    (cluster : SolanaExplorerCluster) where
  -- A call that returns accounts for the channel.
  abbrev Accounts : Outcome ⊥ ChannelFinalizationRecord × S → Type 0
  Accounts (returned r, _) = Accounted input r
  Accounts (threw _, _) = Unit

  of_result-Accounts :
      (x : Result ChannelFinalizationRecord) (s : S)
      → ((r : ChannelFinalizationRecord) → x ≡ ok r → Accounted input r)
      → Accounts (of_result x s)
  of_result-Accounts x s h = of_result_rule x s Accounts h (λ _ _. tt)

  recover-Accounts :
      (phase : ChannelFinalizationFailurePhase) (action : ChannelRecoveryAction) (message : String)
      (settlement : Option SettlementResult) (s : S)
      → Advises phase action
      → Accounts (of_result (recovery_record input phase action message cluster settlement) s)
  recover-Accounts phase action message settlement s advises =
      of_result-Accounts _ s
        (λ r e. recovery_record-Accounted input phase action message cluster settlement r advises e)

  outcome-Accounts :
      (settlement : SettlementResult) (distribution : DistributionResult) (o : Option String)
      (s : S)
      → verify_distribution distribution input ≡ o
      → Accounts (reconcile_outcome adapter input cluster settlement distribution o s)
  unfolding reconcile_outcome
  outcome-Accounts settlement distribution none s passed =
      of_result-Accounts (finalized_record input cluster settlement distribution) s
        (λ r e. finalized_record-Accounted input cluster settlement distribution r passed e)
  outcome-Accounts settlement distribution (some message) s failed =
      of_result-Accounts (reconcile_failure input cluster settlement distribution message) s
        (λ r e. reconcile_failure-Accounted input cluster settlement distribution message r e)

  distribute-Accounts :
      (settlement : SettlementResult) (s : S)
      → Accounts (distribute_channel adapter input cluster settlement s)
  unfolding distribute_channel reconcile_distribution
  distribute-Accounts settlement s =
      attempt_rule (adapter.distribute input.channel_address)
        (λ t. of_result (
          recovery_record input distribute retry_distribute (error_message t) cluster
            (some settlement)))
        (reconcile_distribution adapter input cluster settlement) s Accounts
        (λ t s' e.
          recover-Accounts distribute retry_distribute (error_message t) (some settlement) s'
            distribute_again)
        (λ d s' e. outcome-Accounts settlement d (verify_distribution d input) s' refl)

  settle-Accounts :
      (channel : ChannelDescriptor) (action : ChannelRecoveryAction) (s : S)
      → Advises settle_and_seal action
      → Accounts (settle_channel adapter input cluster channel action s)
  unfolding settle_channel
  settle-Accounts channel action s advises =
      attempt_rule (seal_channel adapter input cluster channel)
        (λ t.
          of_result (recovery_record input settle_and_seal action (error_message t) cluster none))
        (distribute_channel adapter input cluster) s Accounts
        (λ t s' e. recover-Accounts settle_and_seal action (error_message t) none s' advises)
        (λ settlement s' e. distribute-Accounts settlement s')

  in_state-Accounts :
      (channel : ChannelDescriptor) (state : ChannelLifecycleState) (s : S)
      → Accounts (finalize_in_state adapter input cluster channel state s)
  unfolding finalize_in_state
  in_state-Accounts channel distributed s =
      recover-Accounts inspect inspect_channel _ none s inspect_again
  in_state-Accounts channel reclaimed s =
      recover-Accounts inspect inspect_channel _ none s inspect_again
  in_state-Accounts channel closing s =
      recover-Accounts settle_and_seal wait_for_forced_close _ none s wait_for_close
  in_state-Accounts channel sealed s = settle-Accounts channel _ s inspect_sealed
  in_state-Accounts channel opening s = settle-Accounts channel _ s seal_again
  in_state-Accounts channel opened s = settle-Accounts channel _ s seal_again

  found-Accounts :
      (found : Option ChannelDescriptor) (s : S)
      → Accounts (finalize_found adapter input cluster found s)
  unfolding finalize_found
  found-Accounts none s = recover-Accounts inspect inspect_channel _ none s inspect_again
  found-Accounts (some channel) s = in_state-Accounts channel channel.state s

  checked-Accounts :
      (o : Option String) (s : S)
      → Accounts (
          (assert o
              >> attempt
                  (look_up adapter input cluster)
                  (λ t.
                    of_result (
                      recovery_record input inspect inspect_channel (error_message t) cluster none))
                  (finalize_found adapter input cluster))
            s)
  checked-Accounts (some message) s = tt
  checked-Accounts none s =
      attempt_rule (look_up adapter input cluster)
        (λ t.
          of_result (recovery_record input inspect inspect_channel (error_message t) cluster none))
        (finalize_found adapter input cluster) s Accounts
        (λ t s' e. recover-Accounts inspect inspect_channel (error_message t) none s' inspect_again)
        (λ found s' e. found-Accounts found s')

  -- Whatever state the channel is in and whatever the adapter does, a finalization that returns
  -- accounts for the channel: either it is finalized, with the provider paid exactly what was
  -- authorized and the payer refunded the rest of the ceiling, or it is left for recovery with a
  -- phase and the action advised for it, and with no amount unless a distribution was made.
  pub finalize_provider_channel-Accounted :
      (s s' : S) (r : ChannelFinalizationRecord)
      → finalize_provider_channel adapter input cluster s ≡ (returned r, s')
      → Accounted input r
  unfolding finalize_provider_channel
  finalize_provider_channel-Accounted s s' r e =
      subst Accounts e (checked-Accounts (assert_input input) s)
