-- ===== src/Base/Result.antt =====
-- A computation that may throw an `Error`, where the program only reads its message.
use Prim.Native.String.{String}
use mathlib.Core.Path.{◌≡◌, refl}
use mathlib.Core.Option.{Option, none, some}

pub data Result {ℓ} (A : Type ℓ) : Type ℓ where
  err : String → Result A
  ok : A → Result A

-- The rest of a computation is skipped after a throw.
module _ {ℓ κ} {A : Type ℓ} {B : Type κ} where
  infixl 5 ◌>>=◌
  abbrev pub ◌>>=◌ : Result A → (A → Result B) → Result B
  err message >>= next = err message
  ok a >>= next = next a

  -- A chain that succeeds is taken apart.
  pub >>=-eq-ok :
      (call : Result A) (next : A → Result B) {b : B}
      → (call >>= next) ≡ ok b
      → (a : A) × (call ≡ ok a) × (next a ≡ ok b)
  >>=-eq-ok (err message) next thrown = cc
  >>=-eq-ok (ok a) next rest = (a, refl, rest)

module _ {κ} {B : Type κ} where
  infixl 5 ◌>>◌
  abbrev pub ◌>>◌ : Result (Unit {0}) → Result B → Result B
  call >> rest = call >>= λ _. rest

-- A call of an assertion, given the message that it throws, if it throws one.
abbrev pub assert : Option String → Result (Unit {0})
assert none = ok tt
assert (some message) = err message

pub ok-injective {ℓ} : {A : Type ℓ} {a b : A} → ok a ≡ ok b → a ≡ b
ok-injective h = cc

-- An assertion that passes is taken apart.
pub assert-eq-ok {ℓ} :
    {B : Type ℓ} (o : Option String) (k : Result B) {b : B}
    → (assert o >> k) ≡ ok b
    → (o ≡ none) × (k ≡ ok b)
assert-eq-ok none k h = (refl, h)
assert-eq-ok (some message) k h = cc
