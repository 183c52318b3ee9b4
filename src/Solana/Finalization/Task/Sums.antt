-- ===== src/Solana/Finalization/Task/Sums.antt =====
-- The sums over the records of a finalized task.
use canalis.Base.{
  suc, ◌≤◌, some, List, [], ◌∷◌, true, ◌≡◌, refl, subst, sym, ap, ◌∙◌, if◌then◌else◌, ◌≢◌, inl, inr,
  arith, length, All, if_rule,
}
use canalis.Base.Int.{ℤ, pos, ◌+ℤ◌, int_laws, +ℤ-zero}
use canalis.Solana.Finalization.{
  ChannelFinalizationInput, ChannelFinalizationRecord, ChannelFinalizationStatus, finalized,
  recovery_required, reconcile,
}
use canalis.Solana.Finalization.Provider.Exact.{Accounted, Settled}
use canalis.Solana.Finalization.Task.{
  reserved_ceiling, authorized_spend, provider_paid, channel_refund, is_finalized,
  unresolved_escrow, finalized_count,
}

-- One record for each channel, in order, each accounted for.
abbrev pub AllAccounted : List ChannelFinalizationInput → List ChannelFinalizationRecord → Type 0
AllAccounted [] [] = Unit
AllAccounted (i ∷ inputs) (r ∷ records) = Accounted i r × AllAccounted inputs records
AllAccounted _ _ = ⊥

-- No distribution was made that failed to reconcile.
abbrev pub Undistributed : ChannelFinalizationRecord → Type 0
Undistributed r = r.failed_phase ≢ some reconcile

-- What an unfinished channel still holds.
abbrev escrow : ChannelFinalizationStatus → ℤ → ℤ
escrow finalized ceiling = pos 0
escrow recovery_required ceiling = ceiling

unresolved_escrow-cons :
    (r : ChannelFinalizationRecord) (rs : List ChannelFinalizationRecord)
    → unresolved_escrow (r ∷ rs) ≡ escrow r.status r.deposit_ceiling_atomic +ℤ unresolved_escrow rs
unresolved_escrow-cons r rs = go r.status
  where
    go :
        (st : ChannelFinalizationStatus)
        → (if is_finalized st
            then unresolved_escrow rs
            else r.deposit_ceiling_atomic +ℤ unresolved_escrow rs)
          ≡ escrow st r.deposit_ceiling_atomic +ℤ unresolved_escrow rs
    go finalized = omega int_laws
    go recovery_required = refl

zero_left : (c : ℤ) → pos 0 +ℤ pos 0 +ℤ c ≡ c
zero_left c = omega int_laws

exchange :
    (p p' q q' e e' : ℤ) → p +ℤ p' +ℤ (q +ℤ q') +ℤ (e +ℤ e') ≡ p +ℤ q +ℤ e +ℤ (p' +ℤ q' +ℤ e')
exchange p p' q q' e e' = omega int_laws

Accounted-balance :
    (i : ChannelFinalizationInput) (r : ChannelFinalizationRecord)
    → Accounted i r
    → Undistributed r
    → r.provider_amount_atomic +ℤ r.payer_refund_atomic +ℤ escrow r.status r.deposit_ceiling_atomic
      ≡ i.deposit_ceiling_atomic
Accounted-balance i r (same, inl settled) h =
    subst
      (λ st.
        r.provider_amount_atomic +ℤ r.payer_refund_atomic +ℤ escrow st r.deposit_ceiling_atomic
        ≡ i.deposit_ceiling_atomic)
      (sym settled.status) (+ℤ-zero _ ∙ settled.whole)
Accounted-balance i r (same, inr left) h = elim left.unpaid [
  | inl late ↦ absurd (h (cc (left.failed, late)))
  | inr (paid, refunded) ↦
      subst
        (λ st.
          r.provider_amount_atomic +ℤ r.payer_refund_atomic +ℤ escrow st r.deposit_ceiling_atomic
          ≡ i.deposit_ceiling_atomic)
        (sym left.status)
        (rw paid (rw refunded (rw same.ceiling (zero_left i.deposit_ceiling_atomic))))
]

pub sums-balance :
    (inputs : List ChannelFinalizationInput) (records : List ChannelFinalizationRecord)
    → AllAccounted inputs records
    → All Undistributed records
    → provider_paid records +ℤ channel_refund records +ℤ unresolved_escrow records
      ≡ reserved_ceiling inputs
sums-balance [] [] _ _ = zero_left (pos 0)
sums-balance (i ∷ inputs) (r ∷ records) (a, rest) (u, us) = rw (unresolved_escrow-cons r records) (
    exchange r.provider_amount_atomic (provider_paid records) r.payer_refund_atomic
      (channel_refund records) (escrow r.status r.deposit_ceiling_atomic)
      (unresolved_escrow records)
    ∙ ap (λ x. x +ℤ (provider_paid records +ℤ channel_refund records +ℤ unresolved_escrow records))
        (Accounted-balance i r a u)
    ∙ ap (λ x. i.deposit_ceiling_atomic +ℤ x) (sums-balance inputs records rest us))
sums-balance [] (r ∷ records) h us = absurd h
sums-balance (i ∷ inputs) [] h us = absurd h

pub finalized_count-bound : (rs : List ChannelFinalizationRecord) → finalized_count rs ≤ length rs
finalized_count-bound [] = omega arith
finalized_count-bound (r ∷ rs) =
    if_rule (λ n. n ≤ suc (length rs)) (is_finalized r.status)
      (λ _. omega (arith, finalized_count-bound rs)) (λ _. omega (arith, finalized_count-bound rs))

is_finalized_sound : (st : ChannelFinalizationStatus) → is_finalized st ≡ true → st ≡ finalized
is_finalized_sound finalized e = refl
is_finalized_sound recovery_required e = cc

-- A count that is full counts the first record, too.
finalized_count-full :
    (r : ChannelFinalizationRecord) (rs : List ChannelFinalizationRecord)
    → finalized_count (r ∷ rs) ≡ suc (length rs)
    → (r.status ≡ finalized) × (finalized_count rs ≡ length rs)
finalized_count-full r rs =
    if_rule (λ n. n ≡ suc (length rs) → (r.status ≡ finalized) × (finalized_count rs ≡ length rs))
      (is_finalized r.status) (λ e h. (is_finalized_sound r.status e, omega arith))
      (λ _ h. absurd (omega (arith, finalized_count-bound rs)))

finalized-Settled :
    (i : ChannelFinalizationInput) (r : ChannelFinalizationRecord)
    → Accounted i r
    → r.status ≡ finalized
    → Settled i r
finalized-Settled i r (same, inl settled) e = settled
finalized-Settled i r (same, inr left) e = cc (left.status, e)

-- With every channel finalized, the providers were paid what was authorized.
pub all_finalized :
    (inputs : List ChannelFinalizationInput) (records : List ChannelFinalizationRecord)
    → AllAccounted inputs records
    → finalized_count records ≡ length records
    → (provider_paid records ≡ authorized_spend inputs)
      × (unresolved_escrow records ≡ pos 0)
      × (provider_paid records +ℤ channel_refund records ≡ reserved_ceiling inputs)
all_finalized [] [] h e = (refl, refl, +ℤ-zero (pos 0))
all_finalized (i ∷ inputs) (r ∷ records) (a, rest) e =
    let (now, later) = finalized_count-full r records e in
    let settled = finalized-Settled i r a now in
    let (paid, nothing, whole) = all_finalized inputs records rest later in
    (
      rw settled.paid (ap (λ x. i.authorized_cumulative_atomic +ℤ x) paid),
      unresolved_escrow-cons r records
          ∙ subst (λ st. escrow st r.deposit_ceiling_atomic +ℤ unresolved_escrow records ≡ pos 0)
              (sym now) (ap (λ x. pos 0 +ℤ x) nothing ∙ +ℤ-zero (pos 0)),
      swap r.provider_amount_atomic (provider_paid records) r.payer_refund_atomic
            (channel_refund records)
          ∙ ap (λ x. x +ℤ (provider_paid records +ℤ channel_refund records)) settled.whole
          ∙ ap (λ x. i.deposit_ceiling_atomic +ℤ x) whole,
    )
  where
    swap : (p p' q q' : ℤ) → p +ℤ p' +ℤ (q +ℤ q') ≡ p +ℤ q +ℤ (p' +ℤ q')
    swap p p' q q' = omega int_laws
all_finalized [] (r ∷ records) h e = absurd h
all_finalized (i ∷ inputs) [] h e = absurd h
