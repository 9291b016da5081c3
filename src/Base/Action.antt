-- ===== src/Base/Action.antt =====
-- A service call: a state, and an exception that keeps what was written before it.
use mathlib.Core.Path.{◌≡◌, refl}
use mathlib.Core.Bool.{Bool, true, false}
use mathlib.Core.Option.{Option, none, some}
use mathlib.Core.Logic.{◌⊎◌, inl, inr}
use ai_trader_api.Base.Tests.{⊤}

pub data Result (E A : Type 0) : Type 0 where
  ok : A → Result E A
  err : E → Result E A

abbrev pub Action : Type 0 → Type 0 → Type 0 → Type 0
Action E W A = W → Result E A × W

module _ {E W A : Type 0} where
  abbrev pub pure : A → Action E W A
  pure a w = (ok a, w)

  abbrev pub throw : E → Action E W A
  throw e w = (err e, w)

  abbrev pub gets : (W → A) → Action E W A
  gets f w = (ok (f w), w)

  abbrev pub or_throw : Option A → E → Action E W A
  or_throw none e = throw e
  or_throw (some a) e = pure a

  abbrev pub from_result : Result E A → Action E W A
  from_result r w = (r, w)

  abbrev pub recover : (E → Action E W A) → Result E A × W → Result E A × W
  recover handler (ok a, w) = (ok a, w)
  recover handler (err e, w) = handler e w

  -- `try { m } catch (e) { handler(e) }`
  abbrev pub try_catch : Action E W A → (E → Action E W A) → Action E W A
  try_catch m handler w = recover handler (m w)

pub Result-cases :
    {E A : Type 0} (r : Result E A) → ((a : A) × (r ≡ ok a)) ⊎ ((e : E) × (r ≡ err e))
Result-cases (ok a) = inl (a, refl)
Result-cases (err e) = inr (e, refl)

abbrev pub then_value : {E W A B : Type 0} → (A → Action E W B) → Result E A × W → Result E B × W
then_value f (ok a, v) = f a v
then_value f (err e, v) = (err e, v)

infixl 5 ◌>>=◌ ◌>>◌
abbrev pub ◌>>=◌ : {E W A B : Type 0} → Action E W A → (A → Action E W B) → Action E W B
◌>>=◌ m f w = then_value f (m w)

abbrev pub ◌>>◌ : {E W A B : Type 0} → Action E W A → Action E W B → Action E W B
m >> k = m >>= λ _. k

module _ {E W : Type 0} where
  abbrev pub throw_if : Bool → E → Action E W ⊤
  throw_if true e = throw e
  throw_if false e = pure tt

  abbrev pub modify : (W → W) → Action E W ⊤
  modify f w = (ok tt, f w)

-- To show a property of the outcome of a chain, show it of what follows each outcome of its first
-- call. `R` is stated of the pair of a result and a state.
module _ {ℓ} {E W A B : Type 0} (R : Result E B × W → Type ℓ) (f : A → Action E W B) where
  pub then_value-cases :
      (p : Result E A × W)
      → ((a : A) (v : W) → p ≡ (ok a, v) → R (f a v))
      → ((e : E) (v : W) → p ≡ (err e, v) → R (err e, v))
      → R (then_value f p)
  then_value-cases (ok a, v) good bad = good a v refl
  then_value-cases (err e, v) good bad = bad e v refl

  pub or_throw-cases :
      (o : Option A) (e : E) (w : W)
      → ((a : A) → o ≡ some a → R (f a w))
      → (o ≡ none → R (err e, w))
      → R (then_value f (or_throw o e w))
  or_throw-cases none e w good bad = bad refl
  or_throw-cases (some a) e w good bad = good a refl

  pub from_result-cases :
      (r : Result E A) (w : W)
      → ((a : A) → r ≡ ok a → R (f a w))
      → ((e : E) → r ≡ err e → R (err e, w))
      → R (then_value f (from_result r w))
  from_result-cases (ok a) w good bad = good a refl
  from_result-cases (err e) w good bad = bad e refl

pub throw_if-cases {ℓ} :
    {E W B : Type 0} (R : Result E B × W → Type ℓ) (f : ⊤ → Action E W B) (c : Bool) (e : E) (w : W)
    → (c ≡ false → R (f tt w))
    → (c ≡ true → R (err e, w))
    → R (then_value f (throw_if c e w))
throw_if-cases R f true e w good bad = bad refl
throw_if-cases R f false e w good bad = good refl

pub recover-cases {ℓ} :
    {E W A : Type 0} (R : Result E A × W → Type ℓ) (handler : E → Action E W A) (p : Result E A × W)
    → ((a : A) (v : W) → p ≡ (ok a, v) → R (ok a, v))
    → ((e : E) (v : W) → p ≡ (err e, v) → R (handler e v))
    → R (recover handler p)
recover-cases R handler (ok a, v) good bad = good a v refl
recover-cases R handler (err e, v) good bad = bad e v refl

-- What is claimed of a call's answer only.
abbrev pub Answers {ℓ} : {E W A : Type 0} → (A → W → Type ℓ) → Result E A × W → Type ℓ
Answers P (ok a, w) = P a w
Answers P (err e, w) = Unit
