-- ===== src/Flow.antt =====
-- Code that talks to the outside: the calls that it makes, in their order, and how it ends. What a
-- call is answered is an argument, and so is the exception that it raises instead.
pub mod Laws
use trading_binance.Base.{Bool, true, false, List, [], ◌∷◌, ◌++◌, map, if◌then◌else◌}
use trading_binance.Py.{
  Call, answer, exception, Error, zero_division, index_error, value_error, exchange_error,
  order_error, runtime_error,
}

-- A part of the code, with its calls `E`, and the value that it returns or the exception that ends
-- it.
pub record Flow (E A : Type 0) : Type 0 where
  pub events : List E
  pub outcome : Call A

-- `RECOVERABLE_ERRORS`
unfoldable pub is_recoverable : Error → Bool
is_recoverable exchange_error = true
is_recoverable value_error = true
is_recoverable zero_division = false
is_recoverable index_error = false
is_recoverable order_error = false
is_recoverable runtime_error = false

-- `EXCHANGE_ERRORS`
unfoldable pub is_exchange_error : Error → Bool
is_exchange_error order_error = true
is_exchange_error e = is_recoverable e

module _ {E : Type 0} where
  -- what comes after the calls `es`, which ended in the outcome
  unfoldable pub resume : {A B : Type 0} → List E → Call A → (A → Flow E B) → Flow E B
  resume es (answer a) f =
      let rest = f a in record { events = es ++ rest.events; outcome = rest.outcome }
  resume es (exception e) f = record { events = es; outcome = exception e }

  infixl 5 ◌>>=◌ ◌>>◌
  unfoldable pub ◌>>=◌ : {A B : Type 0} → Flow E A → (A → Flow E B) → Flow E B
  m >>= f = resume m.events m.outcome f

  abbrev pub ◌>>◌ : {B : Type 0} → Flow E (Unit {0}) → Flow E B → Flow E B
  m >> k = m >>= λ _. k

  unfoldable pub pure : {A : Type 0} → A → Flow E A
  pure a = record { events = []; outcome = answer a }

  -- a call that only asks
  unfoldable pub ask : {A : Type 0} → Call A → Flow E A
  ask outcome = record { events = []; outcome = outcome }

  unfoldable pub emit : E → Flow E (Unit {0})
  emit e = record { events = e ∷ []; outcome = answer tt }

  -- a call that changes something, with what it is answered
  unfoldable pub send : {A : Type 0} → E → Call A → Flow E A
  send e outcome = record { events = e ∷ []; outcome = outcome }

  -- a branch between two parts
  unfoldable pub choose : {A : Type 0} → Bool → Flow E A → Flow E A → Flow E A
  choose c m n = if c then m else n

  unfoldable pub caught : {A : Type 0} → (Error → Flow E A) → Bool → Error → Flow E A
  caught handler true e = handler e
  caught handler false e = record { events = []; outcome = exception e }

  unfoldable pub on_outcome :
      {A B : Type 0}
      → (Error → Bool)
      → List E
      → Call A
      → (A → Flow E B)
      → (Error → Flow E B)
      → Flow E B
  on_outcome catches es (answer a) body handler =
      let rest = body a in record { events = es ++ rest.events; outcome = rest.outcome }
  on_outcome catches es (exception e) body handler =
      let rest = caught handler (catches e) e in
      record { events = es ++ rest.events; outcome = rest.outcome }

  -- `try: m except …`, with the exceptions that it catches and the code of the handler, and what
  -- follows an answer
  unfoldable pub rescue :
      {A B : Type 0} → (Error → Bool) → Flow E A → (A → Flow E B) → (Error → Flow E B) → Flow E B
  rescue catches m body handler = on_outcome catches m.events m.outcome body handler

-- `try: m finally:` and one more call
unfoldable pub finally_do : {E A : Type 0} → E → Flow E A → Flow E A
finally_do e m = record { events = m.events ++ (e ∷ []); outcome = m.outcome }

-- A part whose calls are calls of a larger component.
unfoldable pub within : {E E' A : Type 0} → (E → E') → Flow E A → Flow E' A
within f m = record { events = map f m.events; outcome = m.outcome }
