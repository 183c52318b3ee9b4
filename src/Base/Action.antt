-- ===== src/Base/Action.antt =====
-- An asynchronous call of the program: it reads and changes a world `S`, and it resolves to a
-- value or rejects with what was thrown. What was changed before a throw stays changed.
use Prim.Native.String.{String}
use mathlib.Core.Path.{◌≡◌, refl, ap}
use mathlib.Core.Bool.{Bool}
use mathlib.Core.List.{List, [], ◌∷◌}
use mathlib.Core.Option.{Option, none, some}
use canalis.Base.Tests.{if◌then◌else◌}
use canalis.Base.Result.{Result, ok, err}

-- What a `catch` receives: an `Error` with its message, an error of a class of its own that
-- carries an `E`, or a value that is no `Error`, and may be truthy or not.
pub data Thrown (E : Type 0) : Type 0 where
  error : String → Thrown E
  own : E → Thrown E
  alien : (truthy : Bool) → Thrown E

pub data Outcome (E : Type 0) (A : Type 0) : Type 0 where
  returned : A → Outcome E A
  threw : Thrown E → Outcome E A

abbrev pub Action : Type 0 → Type 0 → Type 0 → Type 0
Action S E A = S → Outcome E A × S

infixl 5 ◌>>=◌ ◌>>◌
abbrev pub ◌>>=◌ : {S E A B : Type 0} → Action S E A → (A → Action S E B) → Action S E B
◌>>=◌ m f s = let (r, s') = m s in elim r [ returned a ↦ f a s' | threw t ↦ (threw t, s') ]

abbrev pub ◌>>◌ : {S E B : Type 0} → Action S E (Unit {0}) → Action S E B → Action S E B
m >> k = m >>= λ _. k

module _ {S E : Type 0} where
  abbrev pub pure : {A : Type 0} → A → Action S E A
  pure a s = (returned a, s)

  abbrev pub throw : {A : Type 0} → Thrown E → Action S E A
  throw t s = (threw t, s)

  -- A call of an assertion, given the message of the `Error` that it throws, if it throws one.
  abbrev pub assert : Option String → Action S E (Unit {0})
  assert none s = (returned tt, s)
  assert (some message) s = (threw (error message), s)

-- The body of an assertion, `if (test) throw new Error(message);` one after the other: the message
-- of the first test that is true.
abbrev pub first_error : List (Bool × String) → Option String
first_error [] = none
first_error ((failed, message) ∷ tests) = if failed then some message else first_error tests

-- `try { m } catch (t) { return handler(t); }`
abbrev pub catch : {S E F A : Type 0} → Action S E A → (Thrown E → Action S F A) → Action S F A
catch m handler s =
    let (r, s') = m s in elim r [ returned a ↦ (returned a, s') | threw t ↦ handler t s' ]

-- `let a; try { a = m } catch (t) { return handler(t); } return next(a);`
abbrev pub attempt :
    {S E F A B : Type 0}
    → Action S E A
    → (Thrown E → Action S F B)
    → (A → Action S F B)
    → Action S F B
attempt m handler next s =
    let (r, s') = m s in elim r [ returned a ↦ next a s' | threw t ↦ handler t s' ]

-- `try { m } finally { after }`: what `after` throws is thrown instead.
abbrev pub finally : {S E A : Type 0} → Action S E A → Action S E (Unit {0}) → Action S E A
finally m after s =
    let (r, s') = m s in
    let (ended, s'') = after s' in elim ended [ returned _ ↦ (r, s'') | threw t ↦ (threw t, s'') ]

-- A synchronous computation that throws nothing but an `Error`.
abbrev pub of_result : {S E A : Type 0} → Result A → Action S E A
of_result (ok a) s = (returned a, s)
of_result (err message) s = (threw (error message), s)

-- A call that returns hands its value on.
pub >>=-returned :
    {S E A B : Type 0} (m : Action S E A) (f : A → Action S E B) (s s' : S) (a : A)
    → m s ≡ (returned a, s')
    → (m >>= f) s ≡ f a s'
>>=-returned m f s s' a e = ap (λ x. ((λ _. x) >>= f) s) e

-- A call that returns is taken apart.
pub >>=-eq-returned :
    {S E A B : Type 0} (m : Action S E A) (f : A → Action S E B) (s : S) {b : B} {s'' : S}
    → (m >>= f) s ≡ (returned b, s'')
    → (a : A) × (s' : S) × (m s ≡ (returned a, s')) × (f a s' ≡ (returned b, s''))
>>=-eq-returned m f s {b} {s''} e = go (m s) refl e
  where
    go :
        (x : Outcome _ _ × _)
        → m s ≡ x
        → (let (r, s') = x in elim r [ returned a ↦ f a s' | threw t ↦ (threw t, s') ])
          ≡ (returned b, s'')
        → (a : _) × (s' : _) × (m s ≡ (returned a, s')) × (f a s' ≡ (returned b, s''))
    go (returned a, s') p q = (a, s', p, q)
    go (threw t, s') p q = cc (ap (λ y. y.0) q)

pub >>-eq-returned :
    {S E B : Type 0} (m : Action S E (Unit {0})) (k : Action S E B) (s : S) {b : B} {s'' : S}
    → (m >> k) s ≡ (returned b, s'')
    → (u : Unit {0}) × (s' : S) × (m s ≡ (returned u, s')) × (k s' ≡ (returned b, s''))
>>-eq-returned m k s e = >>=-eq-returned m (λ _. k) s e

-- What holds however the body of a `try` ends holds of the whole.
pub attempt_rule :
    {S E F A B : Type 0} (m : Action S E A) (handler : Thrown E → Action S F B)
    (next : A → Action S F B) (s : S) (End : Outcome F B × S → Type 0)
    → ((t : Thrown E) (s' : S) → m s ≡ (threw t, s') → End (handler t s'))
    → ((a : A) (s' : S) → m s ≡ (returned a, s') → End (next a s'))
    → End (attempt m handler next s)
attempt_rule {S} {E} {F} {A} {B} m handler next s End stop go_on = go (m s) refl
  where
    go :
        (x : Outcome E A × S)
        → m s ≡ x
        → End (let (r, s') = x in elim r [ returned a ↦ next a s' | threw t ↦ handler t s' ])
    go (returned a, s') p = go_on a s' p
    go (threw t, s') p = stop t s' p

-- What holds of the value of a synchronous computation holds of the call.
pub of_result_rule :
    {S E A : Type 0} (x : Result A) (s : S) (End : Outcome E A × S → Type 0)
    → ((a : A) → x ≡ ok a → End (returned a, s))
    → ((message : String) → x ≡ err message → End (threw (error message), s))
    → End (of_result x s)
of_result_rule (ok a) s End h k = h a refl
of_result_rule (err message) s End h k = k message refl
