-- ===== src/Application/Reservations/Rounds.antt =====
-- What one pass over the providers keeps, and that it makes progress.
use native.Mathlib.Nat.{le-div_iff_mul-le}
use canalis.Base.{
  ℕ, suc, ◌+◌, ◌-◌, ◌≤◌, List, [], ◌∷◌, Bool, true, false, ◌||◌, ltb, if◌then◌else◌, map, ◌≡◌, refl,
  ◌⊎◌, inl, inr, All, if_rule, ◌↔◌, arith, ap,
}
use canalis.Base.Int.{
  ℤ, pos, pos_part, neg_part, ◌+ℤ◌, ◌-ℤ◌, ◌≤ℤ◌, ◌<ℤ◌, ltb_ℤ, eqb_ℤ, int_laws, ltb_ℤ-sound, +ℤ_parts,
}
use canalis.Application.Reservations.{
  Slot, capacity, is_eligible, eligible_count, addition, give, pass, share_of,
}

-- What has been allocated so far.
abbrev pub total : List Slot → ℕ
total [] = 0
total (s ∷ ss) = s.allocated + total ss

-- Every provider has a positive ceiling within its cap.
abbrev pub InCap : Slot → Type 0
InCap s = (1 ≤ s.allocated) × (s.allocated ≤ s.cap)

-- What a round keeps, and that it makes progress.
record Gives (s : Slot) (r : ℤ) (x : Slot × ℤ × Bool) : Type 0 where
  fits : InCap x.0
  cap : x.0.cap ≡ s.cap
  id : x.0.provider_id ≡ s.provider_id
  sum : pos x.0.allocated +ℤ x.1 ≡ pos s.allocated +ℤ r
  less : (x.2 ≡ false) ⊎ (x.1 <ℤ r)
  no_more : x.1 ≤ℤ r

-- What is added never exceeds what the cap leaves.
addition-bound :
    (a share : ℕ) (r : ℤ)
    → ltb_ℤ (pos 0) (addition a share r) ≡ true
    → pos_part (addition a share r) ≤ a
unfolding addition
addition-bound a share r h = ground arith

addition_positive :
    (a share : ℕ) (r : ℤ)
    → 1 ≤ a
    → 1 ≤ share
    → pos 0 <ℤ r
    → ltb_ℤ (pos 0) (addition a share r) ≡ true
unfolding addition
addition_positive a share r h k l = ground arith

-- Moving a positive amount from what remains to a provider.
moved : (n : ℕ) (r add : ℤ) → pos 0 <ℤ add → pos (n + pos_part add) +ℤ (r -ℤ add) ≡ pos n +ℤ r
unfolding ◌+ℤ◌ ◌-ℤ◌
moved n r add h = ground arith

lessened : (r add : ℤ) → pos 0 <ℤ add → r -ℤ add <ℤ r
unfolding ◌-ℤ◌
lessened r add h = ground arith

give-Gives : (share : ℕ) (s : Slot) (r : ℤ) → InCap s → Gives s r (give share s r)
unfolding give
give-Gives share s r (one, top) =
    let add = addition (s.cap - s.allocated) share r in
    if_rule {A = Slot × ℤ × Bool} (λ x. Gives s r x) (ltb_ℤ (pos 0) add)
      (λ e. record {
        fits = (omega arith, omega (arith, addition-bound (s.cap - s.allocated) share r e));
        cap = refl;
        id = refl;
        sum = moved s.allocated r add (ltb_ℤ-sound (pos 0) add e);
        less = inr (lessened r add (ltb_ℤ-sound (pos 0) add e));
        no_more = omega (arith, lessened r add (ltb_ℤ-sound (pos 0) add e));
      })
      (λ e. record {
        fits = (one, top);
        cap = refl;
        id = refl;
        sum = refl;
        less = inl refl;
        no_more = omega arith;
      })

-- The same of a whole pass.
pub record Passes (ss : List Slot) (r : ℤ) (x : List Slot × ℤ × Bool) : Type 0 where
  pub fits : All InCap x.0
  pub cap : capacity x.0 ≡ capacity ss
  pub ids : map (λ (s : Slot). s.provider_id) x.0 ≡ map (λ (s : Slot). s.provider_id) ss
  pub sum : pos (total x.0) +ℤ x.1 ≡ pos (total ss) +ℤ r
  pub less : (x.2 ≡ false) ⊎ (x.1 <ℤ r)
  pub no_more : x.1 ≤ℤ r

stays : (s : Slot) (r : ℤ) → InCap s → Gives s r (s, r, false)
stays s r h = record {
  fits = h;
  cap = refl;
  id = refl;
  sum = refl;
  less = inl refl;
  no_more = omega arith;
}

-- An equation of two such sums, on the parts.
balance :
    (n m : ℕ) (r q : ℤ)
    → (pos n +ℤ r ≡ pos m +ℤ q) ↔ (n + pos_part r + neg_part q ≡ m + pos_part q + neg_part r)
balance n m r q = (
  λ e. omega (arith, +ℤ_parts (pos n) r, +ℤ_parts (pos m) q, ap pos_part e, ap neg_part e),
  λ e. omega (int_laws, e),
)

add_up :
    (a b a' b' : ℕ) (r r' r'' : ℤ)
    → pos a' +ℤ r' ≡ pos a +ℤ r
    → pos b' +ℤ r'' ≡ pos b +ℤ r'
    → pos (a' + b') +ℤ r'' ≡ pos (a + b) +ℤ r
add_up a b a' b' r r' r'' h k =
    (balance (a' + b') (a + b) r'' r).1
      (omega (arith, (balance a' a r' r).0 h, (balance b' b r'' r').0 k))

either_less :
    (p q : Bool) (r r' r'' : ℤ)
    → (p ≡ false) ⊎ (r' <ℤ r)
    → (q ≡ false) ⊎ (r'' <ℤ r')
    → r' ≤ℤ r
    → r'' ≤ℤ r'
    → ((p || q) ≡ false) ⊎ (r'' <ℤ r)
either_less p q r r' r'' h k l m = ground arith

pub pass-Passes :
    (share : ℕ) (ss : List Slot) (r : ℤ) → All InCap ss → Passes ss r (pass share ss r)
unfolding pass
pass-Passes share [] r h = record {
  fits = tt;
  cap = refl;
  ids = refl;
  sum = refl;
  less = inl refl;
  no_more = omega arith;
}
pass-Passes share (s ∷ ss) r (h, hs) =
    let x : Slot × ℤ × Bool = if is_eligible s then give share s r else (s, r, false) in
    go x
      (if_rule {A = Slot × ℤ × Bool} (λ x. Gives s r x) (is_eligible s)
        (λ _. give-Gives share s r h) (λ _. stays s r h))
      (pass share ss x.1) (pass-Passes share ss x.1 hs)
  where
    go :
        (x : Slot × ℤ × Bool)
        → Gives s r x
        → (y : List Slot × ℤ × Bool) → Passes ss x.1 y
        → Passes
            (s ∷ ss)
            r
            (if eqb_ℤ r (pos 0) then (s ∷ ss, r, false) else (x.0 ∷ y.0, y.1, x.2 || y.2))
    go x g y k =
        if_rule {A = List Slot × ℤ × Bool} (λ y. Passes (s ∷ ss) r y) (eqb_ℤ r (pos 0))
          (λ _. record {
            fits = (h, hs);
            cap = refl;
            ids = refl;
            sum = refl;
            less = inl refl;
            no_more = omega arith;
          })
          (λ _. record {
            fits = (g.fits, k.fits);
            cap = omega (arith, g.cap, k.cap);
            ids = cc (g.id, k.ids);
            sum = add_up s.allocated (total ss) x.0.allocated (total y.0) r x.1 y.1 g.sum k.sum;
            less = either_less x.2 y.2 r x.1 y.1 g.less k.less g.no_more k.no_more;
            no_more = omega (arith, g.no_more, k.no_more);
          })

give_progresses :
    (share : ℕ) (s : Slot) (r : ℤ)
    → 1 ≤ share
    → pos 0 <ℤ r
    → is_eligible s ≡ true
    → (give share s r).2 ≡ true
unfolding give
give_progresses share s r h k e =
    if_rule {A = Slot × ℤ × Bool} (λ x. x.2 ≡ true)
      (ltb_ℤ (pos 0) (addition (s.cap - s.allocated) share r)) (λ _. refl)
      (λ stuck. cc (stuck, addition_positive (s.cap - s.allocated) share r (ground arith) h k))

-- A pass with an eligible provider gives something away.
pub pass_progresses :
    (share : ℕ) (ss : List Slot) (r : ℤ)
    → 1 ≤ share
    → pos 0 <ℤ r
    → 1 ≤ eligible_count ss
    → (pass share ss r).2 ≡ true
unfolding pass
pass_progresses share [] r h k l = absurd (omega arith)
pass_progresses share (s ∷ ss) r h k l =
    if_rule {A = List Slot × ℤ × Bool} (λ y. y.2 ≡ true) (eqb_ℤ r (pos 0))
      (λ e. absurd (ground arith))
      (λ _. go (is_eligible s) (give_progresses share s r h k) l (pass_progresses share ss r h k))
  where
    go :
        (b : Bool)
        → (b ≡ true → (give share s r).2 ≡ true)
        → 1 ≤ (if b then suc (eligible_count ss) else eligible_count ss)
        → (1 ≤ eligible_count ss → (pass share ss r).2 ≡ true)
        → (let x : Slot × ℤ × Bool = if b then give share s r else (s, r, false) in
            x.2 || (pass share ss x.1).2)
          ≡ true
    go true given count later = ap (λ p. p || (pass share ss (give share s r).1).2) (given refl)
    go false given count later = later count

pub none_eligible : (ss : List Slot) → All InCap ss → eligible_count ss ≡ 0 → capacity ss ≤ total ss
none_eligible [] h e = omega arith
none_eligible (s ∷ ss) (h, hs) e =
    if_rule {A = ℕ} (λ n. n ≡ 0 → s.cap + capacity ss ≤ s.allocated + total ss) (is_eligible s)
      (λ _ e. absurd (omega arith)) (λ past e. omega (arith, none_eligible ss hs e, not_below past))
      e
  where
    not_below : ltb s.allocated s.cap ≡ false → s.cap ≤ s.allocated
    not_below past = ground arith

pub share_of_positive : (r : ℤ) (d : ℕ) → pos 0 <ℤ r → 1 ≤ d → 1 ≤ share_of r d
unfolding share_of
share_of_positive r d h k =
    (le-div_iff_mul-le {k = d} {x = 1} {y = pos_part r + d - 1} k).1 (omega arith)
