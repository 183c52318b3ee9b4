-- ===== src/Solana/Finalization/Task/Books.antt =====
-- What the summary of a finalized task adds up to.
use canalis.Base.{
  ◌+◌, String, Option, List, [], ◌∷◌, Bool, true, false, ◌&&◌, ◌≡◌, refl, subst, sym, ap, ◌∙◌,
  arith, length, All,
}
use canalis.Base.Int.{ℤ, pos, ◌+ℤ◌, ◌-ℤ◌, ◌≤ℤ◌, ltb_ℤ, int_laws, eqb_ℤ_iff, +ℤ_assoc, ltb_ℤ-false}
use canalis.Base.Action.{
  Action, Outcome, returned, first_error, pure, >>=-eq-returned, ◌>>=◌, ◌>>◌, assert,
}
use canalis.Solana.Types.{PaymentChannelAdapter}
use canalis.Solana.Explorer.{SolanaExplorerCluster}
use canalis.Solana.Finalization.{
  ChannelFinalizationInput, ChannelFinalizationRecord, assert_non_negative,
}
use canalis.Solana.Finalization.Provider.{finalize_provider_channel}
use canalis.Solana.Finalization.Provider.Exact.{finalize_provider_channel-Accounted}
use canalis.Solana.Finalization.Task.{
  TaskFinalizationSummary, FinalizeTaskChannelsInput, assert_channels, reserved_ceiling,
  provider_paid, channel_refund, unresolved_escrow, finalized_count, summarize, cluster_of,
  finalize_each, finalize_task_channels,
}
use canalis.Solana.Finalization.Task.Sums.{
  AllAccounted, Undistributed, sums-balance, finalized_count-bound, all_finalized,
}

gather : (p q u c b : ℤ) → p +ℤ (q +ℤ (b -ℤ c)) +ℤ u ≡ p +ℤ q +ℤ u +ℤ (b -ℤ c)
gather p q u c b = omega int_laws

restore : (c b : ℤ) → c +ℤ (b -ℤ c) ≡ b
restore c b = omega int_laws

all_true : {a b c : Bool} → a ≡ true → b ≡ true → c ≡ true → (a && b && c) ≡ true
all_true h k l = rw h (rw k l)

module _ {S : Type 0} where
  returned-injective :
      {A : Type 0} {s s' : S} (a b : A)
      → ◌≡◌ {A = Outcome ⊥ A × S} (returned a, s) (returned b, s')
      → a ≡ b
  returned-injective a b e = cc (ap (λ x. x.0) e)

  -- An assertion that passes has found its test false.
  passed :
      (failed : Bool) (message : String) (s s' : S) (u : Unit {0})
      → assert {S = S} {E = ⊥} (first_error ((failed, message) ∷ [])) s ≡ (returned u, s')
      → failed ≡ false
  passed true message s s' u e = cc (ap (λ x. x.0) e)
  passed false message s s' u e = refl

module _ {S : Type 0} (adapter : PaymentChannelAdapter S) where
  finalize_each-AllAccounted :
      (cluster : SolanaExplorerCluster) (inputs : List ChannelFinalizationInput) (s s' : S)
      (records : List ChannelFinalizationRecord)
      → finalize_each adapter cluster inputs s ≡ (returned records, s')
      → AllAccounted inputs records
  unfolding finalize_each
  finalize_each-AllAccounted cluster [] s s' records e =
      subst (AllAccounted []) (returned-injective [] records e) tt
  finalize_each-AllAccounted cluster (i ∷ inputs) s s' records e =
      let (r, s1, first, e1) =
        >>=-eq-returned (finalize_provider_channel adapter i cluster)
          (λ r. finalize_each adapter cluster inputs >>= λ rs. pure (r ∷ rs)) s e in
      let (rs, s2, others, made) =
        >>=-eq-returned (finalize_each adapter cluster inputs) (λ rs. pure (r ∷ rs)) s1 e1 in
      subst (AllAccounted (i ∷ inputs)) (returned-injective (r ∷ rs) records made) (
        finalize_provider_channel-Accounted adapter i cluster s s1 r first,
        finalize_each-AllAccounted cluster inputs s1 s2 rs others,
      )

  -- How a call that returned came about.
  finalize_task_channels-returned :
      (input : FinalizeTaskChannelsInput) (s s' : S) (summary : TaskFinalizationSummary)
      → finalize_task_channels adapter input s ≡ (returned summary, s')
      → (reserved_ceiling input.channels ≤ℤ input.task_budget_atomic)
        × ((records : List ChannelFinalizationRecord) × AllAccounted input.channels records
            × (summarize input (cluster_of input.cluster) records ≡ summary))
  unfolding finalize_task_channels
  finalize_task_channels-returned input s s' summary e =
      let (_, s1, _, e1) =
        >>=-eq-returned
          (assert (first_error (assert_non_negative "task budget" input.task_budget_atomic ∷ [])))
          (λ _. assert (assert_channels [] [] input.channels) >> checked) s e in
      let (_, s2, _, e2) =
        >>=-eq-returned (assert (assert_channels [] [] input.channels)) (λ _. checked) s1 e1 in
      let (_, s3, within, e3) = >>=-eq-returned (assert over_budget) (λ _. summarized) s2 e2 in
      let (records, s4, each, made) =
        >>=-eq-returned (finalize_each adapter (cluster_of input.cluster) input.channels)
          (λ records. pure (summarize input (cluster_of input.cluster) records)) s3 e3 in
      (
        ltb_ℤ-false input.task_budget_atomic (reserved_ceiling input.channels)
            (passed _ _ s2 s3 _ within),
        (
          records,
          finalize_each-AllAccounted (cluster_of input.cluster) input.channels s3 s4 records each,
          returned-injective _ summary made,
        ),
      )
    where
      over_budget : Option String
      over_budget = first_error (
          (
            ltb_ℤ input.task_budget_atomic (reserved_ceiling input.channels),
            "channel deposit ceilings exceed original task budget",
          )
          ∷ [])

      summarized : Action S ⊥ TaskFinalizationSummary
      summarized = finalize_each adapter (cluster_of input.cluster) input.channels >>= λ records.
          pure (summarize input (cluster_of input.cluster) records)

      checked : Action S ⊥ TaskFinalizationSummary
      checked = assert over_budget >> summarized

  -- A finalization of a task that returns has a record for each channel, in order and accounted
  -- for; the ceilings fit the budget; and the two counts add up to the number of channels.
  pub finalize_task_channels-AllAccounted :
      (input : FinalizeTaskChannelsInput) (s s' : S) (summary : TaskFinalizationSummary)
      → finalize_task_channels adapter input s ≡ (returned summary, s')
      → AllAccounted input.channels summary.channels
        × (summary.reserved_ceiling_atomic ≤ℤ summary.task_budget_atomic)
        × (summary.finalized_channel_count + summary.recovery_required_channel_count
            ≡ length summary.channels)
  unfolding summarize
  finalize_task_channels-AllAccounted input s s' summary e =
      let (within, (records, accounted, made)) =
        finalize_task_channels-returned input s s' summary e in
      subst
        (λ (t : TaskFinalizationSummary).
          AllAccounted input.channels t.channels
          × (t.reserved_ceiling_atomic ≤ℤ t.task_budget_atomic)
          × (t.finalized_channel_count + t.recovery_required_channel_count ≡ length t.channels))
        made (accounted, within, omega (arith, finalized_count-bound records))

  -- Unless a distribution was made that failed to reconcile, no money of the task is lost: what
  -- was paid, refunded or never reserved, and what unfinished channels hold, is the budget.
  pub finalize_task_channels-balance :
      (input : FinalizeTaskChannelsInput) (s s' : S) (summary : TaskFinalizationSummary)
      → finalize_task_channels adapter input s ≡ (returned summary, s')
      → All Undistributed summary.channels
      → summary.reconciled_atomic +ℤ summary.unresolved_escrow_atomic ≡ summary.task_budget_atomic
  unfolding summarize
  finalize_task_channels-balance input s s' summary e =
      let (within, (records, accounted, made)) =
        finalize_task_channels-returned input s s' summary e in
      subst
        (λ (t : TaskFinalizationSummary).
          All Undistributed t.channels
          → t.reconciled_atomic +ℤ t.unresolved_escrow_atomic ≡ t.task_budget_atomic)
        made
        (λ quiet.
          gather (provider_paid records) (channel_refund records) (unresolved_escrow records)
            (reserved_ceiling input.channels) input.task_budget_atomic
          ∙ ap (λ x. x +ℤ (input.task_budget_atomic -ℤ reserved_ceiling input.channels))
              (sums-balance input.channels records accounted quiet)
          ∙ restore (reserved_ceiling input.channels) input.task_budget_atomic)

  -- A task whose channels are all finalized is reconciled: the providers were paid what was
  -- authorized, nothing is left in escrow, and the rest of the budget has come back.
  pub finalize_task_channels-reconciled :
      (input : FinalizeTaskChannelsInput) (s s' : S) (summary : TaskFinalizationSummary)
      → finalize_task_channels adapter input s ≡ (returned summary, s')
      → summary.is_fully_finalized ≡ true
      → (summary.is_reconciled ≡ true)
        × (summary.provider_paid_atomic ≡ summary.authorized_spend_atomic)
        × (summary.unresolved_escrow_atomic ≡ pos 0)
        × (summary.reconciled_atomic ≡ summary.task_budget_atomic)
  unfolding summarize
  finalize_task_channels-reconciled input s s' summary e =
      let (within, (records, accounted, made)) =
        finalize_task_channels-returned input s s' summary e in
      subst
        (λ (t : TaskFinalizationSummary).
          t.is_fully_finalized ≡ true
          → (t.is_reconciled ≡ true)
            × (t.provider_paid_atomic ≡ t.authorized_spend_atomic)
            × (t.unresolved_escrow_atomic ≡ pos 0)
            × (t.reconciled_atomic ≡ t.task_budget_atomic))
        made
        (λ full.
          let count : finalized_count records ≡ length records =
            ground (arith, finalized_count-bound records) in
          let (paid, nothing, whole) = all_finalized input.channels records accounted count in
          let back : provider_paid records
                +ℤ (channel_refund records
                    +ℤ (input.task_budget_atomic -ℤ reserved_ceiling input.channels))
              ≡ input.task_budget_atomic =
            sym (+ℤ_assoc (provider_paid records) (channel_refund records) _)
            ∙ ap (λ x. x +ℤ (input.task_budget_atomic -ℤ reserved_ceiling input.channels)) whole
            ∙ restore (reserved_ceiling input.channels) input.task_budget_atomic in
          (all_true full ((eqb_ℤ_iff _ _).1 paid) ((eqb_ℤ_iff _ _).1 back), paid, nothing, back))
