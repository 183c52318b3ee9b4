-- ===== src/Web/Amounts/Printed.antt =====
-- What is printed is read back.
use Prim.Native.Char.{code}
use Prim.Native.String
use Prim.Native.String.append
use canalis.Base.{
  ℕ, zero, suc, ◌+◌, ◌-◌, ◌*◌, ◌/◌, ◌%◌, ◌^◌, ◌<◌, ◌≤◌, String, ◌≡◌, refl, ap, subst, sym, ◌∙◌, eqb,
  ltb, is_empty, ◌&&◌, eq_iff, arith, inl, inr, Bool-cases, if_rule,
}
use canalis.Base.Text.{show_from, digit, first_chars}
use canalis.Application.Tasks.{parse_usdc, read_digits, before_dot, after_dot}
use canalis.Web.Amounts.{
  show, text_length, zeros, pad_start, strip_zeros, with_fraction, atomic_to_usd,
}

code-digit : (k : ℕ) → k < 10 → code (digit k) ≡ 48 + k
code-digit zero h = refl
code-digit (suc zero) h = refl
code-digit (suc (suc zero)) h = refl
code-digit (suc (suc (suc zero))) h = refl
code-digit (suc (suc (suc (suc zero)))) h = refl
code-digit (suc (suc (suc (suc (suc zero))))) h = refl
code-digit (suc (suc (suc (suc (suc (suc zero)))))) h = refl
code-digit (suc (suc (suc (suc (suc (suc (suc zero))))))) h = refl
code-digit (suc (suc (suc (suc (suc (suc (suc (suc zero)))))))) h = refl
code-digit (suc (suc (suc (suc (suc (suc (suc (suc (suc zero))))))))) h = refl
code-digit (suc (suc (suc (suc (suc (suc (suc (suc (suc (suc k)))))))))) h = omega arith

-- A digit that is written before a text is read before it.
read_digit :
    (k n : ℕ) (s : String)
    → k < 10
    → read_digits n (String.◌∷◌ (digit k) s) ≡ read_digits (n * 10 + k) s
unfolding read_digits
read_digit k n s h = ap (λ m. read_digits m s) (omega (arith, code-digit k h))

read_digits-show_from :
    (fuel n : ℕ) (rest : String)
    → n < fuel
    → read_digits 0 (show_from fuel n rest) ≡ read_digits n rest
unfolding show_from
read_digits-show_from zero n rest h = elim h [ ]
read_digits-show_from (suc fuel) n rest h =
    let more = read_digits-show_from fuel (n / 10) (String.◌∷◌ (digit (n % 10)) rest) in
    elim (Bool-cases (ltb n 10)) [
      | inl small ↦ rw small (
          read_digit (n % 10) 0 rest (omega arith)
          ∙ ap (λ m. read_digits m rest) (ground (arith, small)))
      | inr large ↦ rw large (
          more (ground (arith, large))
          ∙ read_digit (n % 10) (n / 10) rest (omega arith)
          ∙ ap (λ m. read_digits m rest) (omega arith))
    ]

-- No text of digits has a dot.
abbrev AllDigits : String → Type 0
AllDigits String.[] = Unit
AllDigits (String.◌∷◌ c s) = (48 ≤ code c) × AllDigits s

show_from-AllDigits :
    (fuel n : ℕ) (rest : String) → AllDigits rest → AllDigits (show_from fuel n rest)
unfolding show_from
show_from-AllDigits zero n rest h = h
show_from-AllDigits (suc fuel) n rest h =
    let here : 48 ≤ code (digit (n % 10)) = omega (arith, code-digit (n % 10) (omega arith)) in
    if_rule AllDigits (ltb n 10) (λ _. (here, h))
      (λ _. show_from-AllDigits fuel (n / 10) _ (here, h))

before_dot-append : (s t : String) → AllDigits s → before_dot (String.◌++◌ s (String.◌∷◌ "." t)) ≡ s
unfolding before_dot
before_dot-append String.[] t h = rw (append.nil (String.◌∷◌ "." t)) refl
before_dot-append (String.◌∷◌ c s) t (d, h) =
    rw (append.cons c s (String.◌∷◌ "." t)) (ground (arith, d, before_dot-append s t h))

after_dot-append :
    (s t : String)
    → AllDigits s
    → AllDigits t
    → after_dot (String.◌++◌ s (String.◌∷◌ "." t)) ≡ before_dot t
unfolding after_dot
after_dot-append String.[] t h k = rw (append.nil (String.◌∷◌ "." t)) refl
after_dot-append (String.◌∷◌ c s) t (d, h) k =
    rw (append.cons c s (String.◌∷◌ "." t)) (ground (arith, d, after_dot-append s t h k))

before_dot_lem : (s : String) → AllDigits s → before_dot s ≡ s
unfolding before_dot
before_dot_lem String.[] h = refl
before_dot_lem (String.◌∷◌ c s) (d, h) = ground (arith, d, before_dot_lem s h)

after_dot_lem : (s : String) → AllDigits s → after_dot s ≡ ""
unfolding after_dot
after_dot_lem String.[] h = refl
after_dot_lem (String.◌∷◌ c s) (d, h) = ground (arith, d, after_dot_lem s h)

-- A number below a power of ten has at most that many digits.
show_from_length :
    (fuel n k : ℕ) (rest : String)
    → n < fuel
    → n < 10 ^ suc k
    → text_length (show_from fuel n rest) ≤ suc k + text_length rest
unfolding show_from
show_from_length zero n k rest h b = elim h [ ]
show_from_length (suc fuel) n zero rest h b =
    if_rule (λ s. text_length s ≤ 1 + text_length rest) (ltb n 10) (λ _. omega arith)
      (λ e. ground (arith, e, b))
show_from_length (suc fuel) n (suc k) rest h b =
    if_rule (λ s. text_length s ≤ suc (suc k) + text_length rest) (ltb n 10) (λ _. omega arith)
      (λ e. omega (
        arith,
        show_from_length fuel (n / 10) k (String.◌∷◌ (digit (n % 10)) rest) (ground (arith, e))
            (omega (arith, b)),
      ))

text_length-zeros : (m : ℕ) (s : String) → text_length (zeros m s) ≡ m + text_length s
text_length-zeros zero s = omega arith
text_length-zeros (suc m) s = omega (arith, text_length-zeros m s)

read_digits-zeros : (m : ℕ) (s : String) → read_digits 0 (zeros m s) ≡ read_digits 0 s
unfolding read_digits
read_digits-zeros zero s = refl
read_digits-zeros (suc m) s = read_digits-zeros m s

zeros-AllDigits : (m : ℕ) (s : String) → AllDigits s → AllDigits (zeros m s)
zeros-AllDigits zero s h = h
zeros-AllDigits (suc m) s h = (omega arith, zeros-AllDigits m s h)

strip_zeros-AllDigits : (s : String) → AllDigits s → AllDigits (strip_zeros s)
strip_zeros-AllDigits String.[] h = tt
strip_zeros-AllDigits (String.◌∷◌ c s) (d, h) =
    if_rule AllDigits (eqb (code c) 48 && is_empty (strip_zeros s)) (λ _. tt)
      (λ _. (d, strip_zeros-AllDigits s h))

-- The zeros that were stripped are read back from those that are put behind.
read_digits-strip_zeros :
    (s : String) (a j : ℕ)
    → text_length s ≤ j
    → read_digits a (first_chars (text_length s) (String.◌++◌ (strip_zeros s) (zeros j "")))
      ≡ read_digits a s
unfolding read_digits
read_digits-strip_zeros String.[] a j h = refl
read_digits-strip_zeros (String.◌∷◌ c s) a zero h = elim h [ ]
read_digits-strip_zeros (String.◌∷◌ c s) a (suc j) h =
    elim (Bool-cases (eqb (code c) 48 && is_empty (strip_zeros s))) [
      | inl zero_end ↦
          let all : strip_zeros s ≡ "" = (eq_iff (strip_zeros s) "").0 (ground (arith, zero_end)) in
          let same : a * 10 + (code "0" - 48) ≡ a * 10 + (code c - 48) = ground (arith, zero_end) in
          let m = a * 10 + (code c - 48) in
          let blank = ap (λ u. String.◌++◌ u (zeros j "")) all ∙ append.nil (zeros j "") in
          rw (zero_end, append.nil (zeros (suc j) ""))
            (ap (λ n. read_digits n (first_chars (text_length s) (zeros j ""))) same
              ∙ subst (λ u. read_digits m (first_chars (text_length s) u) ≡ read_digits m s) blank
                  (read_digits-strip_zeros s m j (omega (arith, h))))
      | inr kept ↦
          rw (kept, append.cons c (strip_zeros s) (zeros (suc j) ""))
            (read_digits-strip_zeros s (a * 10 + (code c - 48)) (suc j) (omega arith))
    ]

abbrev padded : ℕ → String
padded r = pad_start 6 (show r)

padded_length : (r : ℕ) → r < 1000000 → text_length (padded r) ≡ 6
unfolding show
padded_length r h = omega (
  arith,
  text_length-zeros (6 - text_length (show r)) (show r),
  show_from_length (suc r) r 5 "" (omega arith) h,
)

read_digits-show : (n : ℕ) → read_digits 0 (show n) ≡ n
unfolding read_digits show
read_digits-show n = read_digits-show_from (suc n) n "" (omega arith)

show-AllDigits : (n : ℕ) → AllDigits (show n)
unfolding show
show-AllDigits n = show_from-AllDigits (suc n) n "" tt

-- The six digits after the dot, as `parseUsdc` reads them.
fraction_read :
    (r : ℕ)
    → r < 1000000
    → read_digits 0 (first_chars 6 (String.◌++◌ (strip_zeros (padded r)) "000000")) ≡ r
fraction_read r h =
    subst
      (λ n.
        read_digits 0 (first_chars n (String.◌++◌ (strip_zeros (padded r)) "000000"))
        ≡ read_digits 0 (padded r))
      (padded_length r h)
      (read_digits-strip_zeros (padded r) 0 6 (omega (arith, padded_length r h)))
    ∙ read_digits-zeros (6 - text_length (show r)) (show r)
    ∙ read_digits-show r

-- The parts of what is printed.
parts :
    (w f : String)
    → AllDigits w
    → AllDigits f
    → (before_dot (with_fraction w f) ≡ w) × (after_dot (with_fraction w f) ≡ f)
parts w f dw df = elim (Bool-cases (is_empty f)) [
  | inl none_left ↦
      let all : f ≡ "" = (eq_iff f "").0 none_left in
      rw none_left (before_dot_lem w dw, after_dot_lem w dw ∙ sym all)
  | inr left ↦
      let dotted : String.◌++◌ "." f ≡ String.◌∷◌ "." f =
        append.cons "." "" f ∙ ap (λ u. String.◌∷◌ "." u) (append.nil f) in
      rw (left, dotted) (before_dot-append w f dw, after_dot-append w f dw df ∙ before_dot_lem f df)
]

-- An amount that `atomicToUsd` prints, `parseUsdc` reads as the same amount.
pub parse_usdc-atomic_to_usd : (n : ℕ) → parse_usdc (atomic_to_usd n) ≡ n
unfolding parse_usdc atomic_to_usd
parse_usdc-atomic_to_usd n =
    let w = show (n / 1000000) in
    let r = n % 1000000 in
    let f = strip_zeros (padded r) in
    let (whole, fraction) = parts w f (show-AllDigits (n / 1000000)) (
      strip_zeros-AllDigits (padded r)
        (zeros-AllDigits (6 - text_length (show r)) (show r) (show-AllDigits r))) in
    let whole_read = ap (read_digits 0) whole ∙ read_digits-show (n / 1000000) in
    let fraction_read =
      ap (λ u. read_digits 0 (first_chars 6 (String.◌++◌ u "000000"))) fraction
      ∙ fraction_read r (omega arith) in
    omega (arith, whole_read, fraction_read)
