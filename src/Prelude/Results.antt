-- ===== src/Prelude/Results.antt =====
-- Python's exceptions as values, and methods as functions from a state to a result and a state.
use mathlib.Core.Path.{◌≡◌, refl}
use mathlib.Core.Logic.{◌⊎◌, inl, inr}
use mathlib.Core.Bool.{Bool, true, false}

-- The exception classes that the modelled code raises.
pub data Error : Type 0 where
  value_error allocator_error out_of_blocks double_free index_error key_error : Error
  memory_budget_exceeded attribute_error runtime_error not_implemented zero_division : Error

pub data Result {ℓ} (A : Type ℓ) : Type ℓ where
  ok : A → Result A
  err : Error → Result A

-- A method: what it returns or raises, and the object afterwards, on the raising paths too.
abbrev pub Action : Type 0 → Type 0 → Type 0
Action S A = S → Result A × S

module _ {S : Type 0} where
  abbrev pub get : Action S S
  get s = (ok s, s)

  abbrev pub modify : (S → S) → Action S (Unit {0})
  modify f s = (ok tt, f s)

  module _ {A : Type 0} where
    abbrev pub pure : A → Action S A
    pure a s = (ok a, s)

    abbrev pub throw : Error → Action S A
    throw e s = (err e, s)

    -- A computation that reads no state.
    abbrev pub lift : Result A → Action S A
    lift r s = (r, s)

  module _ {A B : Type 0} where
    abbrev pub and_then : Result A → (A → Action S B) → Action S B
    and_then (ok a) f = f a
    and_then (err e) f = throw e

    infixl 5 ◌>>=◌ ◌>>◌
    abbrev pub ◌>>=◌ : Action S A → (A → Action S B) → Action S B
    m >>= f = λ s. let (r, s') = m s in and_then r f s'

    abbrev pub ◌>>◌ : Action S A → Action S B → Action S B
    m >> n = m >>= λ _. n

-- `if not b: raise e`
abbrev pub guard : {S : Type 0} → Bool → Error → Action S (Unit {0})
guard true e s = (ok tt, s)
guard false e s = (err e, s)

pub Result-cases {ℓ} :
    {A : Type ℓ} (r : Result A) → ((a : A) × (r ≡ ok a)) ⊎ ((e : Error) × (r ≡ err e))
Result-cases (ok a) = inl (a, refl)
Result-cases (err e) = inr (e, refl)

-- What follows with no effect of its own leaves the state as it is.
pub and_then-pure :
    {S A B : Type 0} (r : Result A) (f : A → B) (s : S) → (and_then r (λ a. pure (f a)) s).1 ≡ s
and_then-pure (ok a) f s = refl
and_then-pure (err e) f s = refl

pub and_then-pure-ok :
    {S A B : Type 0} (r : Result A) (f : A → B) (s : S) {b : B} {s' : S}
    → and_then r (λ a. pure (f a)) s ≡ (ok b, s')
    → (a : A) × (r ≡ ok a) × (s ≡ s') × (f a ≡ b)
and_then-pure-ok (ok a) f s e = (a, refl, cc, cc)
and_then-pure-ok (err x) f s e = cc

-- What a call returns, and its state, are determined.
pub ok_pair :
    {S A : Type 0} {r : Result A × S} (a a' : A) (s s' : S)
    → r ≡ (ok a, s)
    → r ≡ (ok a', s')
    → (a ≡ a') × (s ≡ s')
ok_pair a a' s s' e e' = (cc, cc)
