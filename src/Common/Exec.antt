-- ===== src/Common/Exec.antt =====
-- Methods that change an object and may throw. What was written before a throw stays written, so
-- the state comes back beside the error too.
use mathlib.Core.Path.{◌≡◌, ap, ◌∙◌}

-- The errors of eno/eno.h that the modelled methods throw, and five that are none of them:
-- `out_of_storage` is an access outside the bytes that a buffer owns, `null_dereference` one
-- through a null pointer or at the top of an empty stack, `uninitialised` a variable that is read
-- before it is set, `overflow` signed overflow, and `endless` a loop that does not end.
-- `invalid_number` is what stoi and stof throw.
pub data Error : Type 0 where
  bound_error index_error size_error remaining_error out_of_storage : Error
  malformed_expr malformed_comparison divide_by_zero : Error
  malformed_addition malformed_subtract malformed_multiply malformed_division : Error
  null_dereference uninitialised invalid_number overflow malformed_column_expr endless token_error :
      Error

pub data Result {ℓ} (A : Type ℓ) : Type ℓ where
  ok : A → Result A
  err : Error → Result A

abbrev pub Exec {ℓ} : Type ℓ → Type ℓ → Type ℓ
Exec State Value = State → Result Value × State

module _ {ℓ} {State Value Answer : Type ℓ} where
  abbrev pub continue : Result Value → (Value → Exec State Answer) → Exec State Answer
  continue (err error) next state = (err error, state)
  continue (ok value) next state = next value state

module _ {ℓ} {State Value : Type ℓ} where
  pub throw : Error → Exec State Value
  throw error state = (err error, state)

  pub gets : (State → Value) → Exec State Value
  gets look state = (ok (look state), state)

  pub pure : Value → Exec State Value
  pure value state = (ok value, state)

module _ {ℓ} {State Value Answer : Type ℓ} where
  infixl 10 ◌>>=◌ ◌>>◌
  -- Unfolding this unfolds `pure`, `throw` and `gets` too.
  unfoldable pub ◌>>=◌ : Exec State Value → (Value → Exec State Answer) → Exec State Answer
  unfolding gets throw pure
  ◌>>=◌ action next before = let (outcome, after) = action before in continue outcome next after

  abbrev pub ◌>>◌ : Exec State Value → Exec State Answer → Exec State Answer
  first >> second = first >>= λ _. second

-- An action that returns, and what follows it.
pub bind_ok {ℓ} :
    {State Value Answer : Type ℓ} (action : Exec State Value) (next : Value → Exec State Answer)
    (before : State) {value : Value} {after : State} {outcome : Result Answer × State}
    → action before ≡ (ok value, after)
    → next value after ≡ outcome
    → (action >>= next) before ≡ outcome
unfolding ◌>>=◌
bind_ok action next before e h = ap (λ p. continue p.0 next p.1) e ∙ h

pub bind_err {ℓ} :
    {State Value Answer : Type ℓ} (action : Exec State Value) (next : Value → Exec State Answer)
    (before : State) {error : Error} {after : State}
    → action before ≡ (err error, after)
    → (action >>= next) before ≡ (err error, after)
unfolding ◌>>=◌
bind_err action next before e = ap (λ p. continue p.0 next p.1) e

-- Where `Good` holds before the action, it holds after it, also when the action throws.
pub record Maintains {ℓ} {State Value : Type ℓ} (Good : State → Type ℓ) (action : Exec State Value)
    : Type ℓ where
  pub kept : (before : State) → Good before → Good (action before).1

module _ {ℓ} {State Value : Type ℓ} {Good : State → Type ℓ} where
  pub Maintains-gets : (look : State → Value) → Maintains Good (gets look)
  unfolding gets
  Maintains-gets look = record { kept = λ before good. good }

  pub Maintains-throw : (error : Error) → Maintains Good (throw {Value = Value} error)
  unfolding throw
  Maintains-throw error = record { kept = λ before good. good }

  pub Maintains-pure : (value : Value) → Maintains Good (pure value)
  unfolding pure
  Maintains-pure value = record { kept = λ before good. good }

module _ {ℓ} {State Value Answer : Type ℓ} {Good : State → Type ℓ}
    (next : Value → Exec State Answer)
    (next_maintains : (value : Value) → Maintains Good (next value)) where
  Maintains-continue : (outcome : Result Value) → Maintains Good (continue outcome next)
  Maintains-continue (err error) = record { kept = λ before good. good }
  Maintains-continue (ok value) = record { kept = (next_maintains value).kept }

  pub Maintains-bind :
      (action : Exec State Value) → Maintains Good action → Maintains Good (action >>= next)
  unfolding ◌>>=◌
  Maintains-bind action action_maintains = record {
    kept = λ before good.
        let (outcome, after) = action before in
        (Maintains-continue outcome).kept after (action_maintains.kept before good);
  }

pub ruleset maintains_rules = (Maintains-gets, Maintains-throw, Maintains-pure, Maintains-bind)
