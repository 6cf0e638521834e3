-- ===== src/Flow/Laws.antt =====
-- Rules for what a part of the code does: a predicate of its calls and of how it ends.
use trading_binance.Base.{arith, ◌≡◌, refl, Bool, true, false, List, [], ◌∷◌, ◌++◌}
use trading_binance.Py.{Call, answer, exception, Error}
use trading_binance.Flow.{
  Flow, resume, ◌>>=◌, pure, ask, emit, send, choose, caught, on_outcome, rescue,
}

pub no_command : {A : Type 0} → false ≡ true → A
no_command h = ground arith

pub record Does {E A : Type 0} (m : Flow E A) (P : List E → Call A → Type 0) : Type 0 where
  pub holds : P m.events m.outcome

module _ {E : Type 0} where
  abbrev pub cons_append : (e : E) (ys : List E) → (e ∷ []) ++ ys ≡ e ∷ ys
  cons_append e ys = refl

  resume_does :
      {A B : Type 0} (P : List E → Call A → Type 0) {Q : List E → Call B → Type 0} (es : List E)
      (out : Call A) (f : A → Flow E B)
      → P es out
      → ((es : List E) (a : A) → P es (answer a) → Does (f a) (λ later r. Q (es ++ later) r))
      → ((es : List E) (e : Error) → P es (exception e) → Q es (exception e))
      → Does (resume es out f) Q
  unfolding resume
  resume_does P es (answer a) f p next fail = record { holds = (next es a p).holds }
  resume_does P es (exception e) f p next fail = record { holds = fail es e p }

  -- What follows a part, by what that part has done.
  pub bind_does :
      {A B : Type 0} {P : List E → Call A → Type 0} {Q : List E → Call B → Type 0} {m : Flow E A}
      {f : A → Flow E B}
      → Does m P
      → ((es : List E) (a : A) → P es (answer a) → Does (f a) (λ later r. Q (es ++ later) r))
      → ((es : List E) (e : Error) → P es (exception e) → Q es (exception e))
      → Does (m >>= f) Q
  unfolding ◌>>=◌
  bind_does {P} {Q} {m} {f} d next fail = resume_does P m.events m.outcome f d.holds next fail

  pub pure_does :
      {A : Type 0} {P : List E → Call A → Type 0} (a : A) → P [] (answer a) → Does (pure a) P
  unfolding pure
  pure_does a p = record { holds = p }

  ask_next :
      {A B : Type 0} {Q : List E → Call B → Type 0} (out : Call A) (f : A → Flow E B)
      → ((a : A) → out ≡ answer a → Does (f a) Q)
      → ((e : Error) → out ≡ exception e → Q [] (exception e))
      → Does (resume [] out f) Q
  unfolding resume
  ask_next (answer a) f next fail = record { holds = (next a refl).holds }
  ask_next (exception e) f next fail = record { holds = fail e refl }

  -- What follows a question.
  pub ask_does :
      {A B : Type 0} {Q : List E → Call B → Type 0} {out : Call A} {f : A → Flow E B}
      → ((a : A) → out ≡ answer a → Does (f a) Q)
      → ((e : Error) → out ≡ exception e → Q [] (exception e))
      → Does (ask out >>= f) Q
  unfolding ◌>>=◌ ask
  ask_does {out} {f} next fail = ask_next out f next fail

  -- What follows a call without an answer.
  pub emit_does :
      {B : Type 0} {Q : List E → Call B → Type 0} (e : E) (k : Unit {0} → Flow E B)
      → Does (k tt) (λ later r. Q (e ∷ later) r)
      → Does (emit e >>= k) Q
  unfolding resume ◌>>=◌ emit
  emit_does e k d = record { holds = d.holds }

  send_next :
      {A B : Type 0} (Q : List E → Call B → Type 0) (e : E) (out : Call A) (f : A → Flow E B)
      → ((a : A) → out ≡ answer a → Does (f a) (λ later r. Q (e ∷ later) r))
      → ((x : Error) → out ≡ exception x → Q (e ∷ []) (exception x))
      → Does (resume (e ∷ []) out f) Q
  unfolding resume
  send_next Q e (answer a) f next fail = record { holds = (next a refl).holds }
  send_next Q e (exception x) f next fail = record { holds = fail x refl }

  -- What follows a call that changes something.
  pub send_does :
      {A B : Type 0} {Q : List E → Call B → Type 0} (e : E) {out : Call A} {f : A → Flow E B}
      → ((a : A) → out ≡ answer a → Does (f a) (λ later r. Q (e ∷ later) r))
      → ((x : Error) → out ≡ exception x → Q (e ∷ []) (exception x))
      → Does (send e out >>= f) Q
  unfolding ◌>>=◌ send
  send_does {Q} e {out} {f} next fail = send_next Q e out f next fail

  pub choose_does :
      {A : Type 0} {P : List E → Call A → Type 0} (c : Bool) {m n : Flow E A}
      → (c ≡ true → Does m P)
      → (c ≡ false → Does n P)
      → Does (choose c m n) P
  unfolding choose
  choose_does true h k = record { holds = (h refl).holds }
  choose_does false h k = record { holds = (k refl).holds }

  caught_does :
      {A : Type 0} {Q : List E → Call A → Type 0} (c : Bool) (e : Error)
      (handler : Error → Flow E A)
      → (c ≡ true → Does (handler e) Q)
      → (c ≡ false → Q [] (exception e))
      → Does (caught handler c e) Q
  unfolding caught
  caught_does true e handler h k = record { holds = (h refl).holds }
  caught_does false e handler h k = record { holds = k refl }

  on_outcome_does :
      {A B : Type 0} (catches : Error → Bool) (P : List E → Call A → Type 0)
      {Q : List E → Call B → Type 0} (es : List E) (out : Call A) (body : A → Flow E B)
      (handler : Error → Flow E B)
      → P es out
      → ((es : List E) (a : A) → P es (answer a) → Does (body a) (λ later r. Q (es ++ later) r))
      → ((es : List E) (e : Error)
          → P es (exception e)
          → catches e ≡ true
          → Does (handler e) (λ later r. Q (es ++ later) r))
      → ((es : List E) (e : Error)
          → P es (exception e)
          → catches e ≡ false
          → Q (es ++ []) (exception e))
      → Does (on_outcome catches es out body handler) Q
  unfolding on_outcome
  on_outcome_does catches P es (answer a) body handler p next handle fail = record {
    holds = (next es a p).holds;
  }
  on_outcome_does catches P {Q} es (exception e) body handler p next handle fail = record {
    holds =
        (caught_does {Q = λ later r. Q (es ++ later) r} (catches e) e handler (handle es e p)
          (fail es e p)).holds;
  }

  -- What a `try` does, by what its part has done.
  pub rescue_does :
      {A B : Type 0} {P : List E → Call A → Type 0} {Q : List E → Call B → Type 0} {m : Flow E A}
      {catches : Error → Bool} {body : A → Flow E B} {handler : Error → Flow E B}
      → Does m P
      → ((es : List E) (a : A) → P es (answer a) → Does (body a) (λ later r. Q (es ++ later) r))
      → ((es : List E) (e : Error)
          → P es (exception e)
          → catches e ≡ true
          → Does (handler e) (λ later r. Q (es ++ later) r))
      → ((es : List E) (e : Error)
          → P es (exception e)
          → catches e ≡ false
          → Q (es ++ []) (exception e))
      → Does (rescue catches m body handler) Q
  unfolding rescue
  rescue_does {P} {Q} {m} {catches} {body} {handler} d next handle fail =
      on_outcome_does catches P m.events m.outcome body handler d.holds next handle fail

  pub weaken_does :
      {A : Type 0} {P Q : List E → Call A → Type 0} {m : Flow E A}
      → Does m P
      → ((es : List E) (r : Call A) → P es r → Q es r)
      → Does m Q
  weaken_does {m} d h = record { holds = h m.events m.outcome d.holds }

  on_ask_does :
      {A B : Type 0} (catches : Error → Bool) (Q : List E → Call B → Type 0) (out : Call A)
      (body : A → Flow E B) (handler : Error → Flow E B)
      → ((a : A) → out ≡ answer a → Does (body a) Q)
      → ((e : Error) → out ≡ exception e → catches e ≡ true → Does (handler e) Q)
      → ((e : Error) → out ≡ exception e → catches e ≡ false → Q [] (exception e))
      → Does (on_outcome catches [] out body handler) Q
  unfolding on_outcome
  on_ask_does catches Q (answer a) body handler next handle fail = record {
    holds = (next a refl).holds;
  }
  on_ask_does catches Q (exception e) body handler next handle fail = record {
    holds = (caught_does {Q = Q} (catches e) e handler (handle e refl) (fail e refl)).holds;
  }

  -- A `try` around a question.
  pub rescue_ask_does :
      {A B : Type 0} {Q : List E → Call B → Type 0} {out : Call A} {catches : Error → Bool}
      {body : A → Flow E B} {handler : Error → Flow E B}
      → ((a : A) → out ≡ answer a → Does (body a) Q)
      → ((e : Error) → out ≡ exception e → catches e ≡ true → Does (handler e) Q)
      → ((e : Error) → out ≡ exception e → catches e ≡ false → Q [] (exception e))
      → Does (rescue catches (ask out) body handler) Q
  unfolding rescue ask
  rescue_ask_does {Q} {out} {catches} {body} {handler} next handle fail =
      on_ask_does catches Q out body handler next handle fail

  on_send_does :
      {A B : Type 0} (catches : Error → Bool) (Q : List E → Call B → Type 0) (c : E) (out : Call A)
      (body : A → Flow E B) (handler : Error → Flow E B)
      → ((a : A) → out ≡ answer a → Does (body a) (λ later r. Q (c ∷ later) r))
      → ((e : Error)
          → out ≡ exception e
          → catches e ≡ true
          → Does (handler e) (λ later r. Q (c ∷ later) r))
      → ((e : Error) → out ≡ exception e → catches e ≡ false → Q (c ∷ []) (exception e))
      → Does (on_outcome catches (c ∷ []) out body handler) Q
  unfolding on_outcome
  on_send_does catches Q c (answer a) body handler next handle fail = record {
    holds = (next a refl).holds;
  }
  on_send_does catches Q c (exception e) body handler next handle fail = record {
    holds =
        (caught_does {Q = λ later r. Q (c ∷ later) r} (catches e) e handler (handle e refl)
          (fail e refl)).holds;
  }

  -- A `try` around a call that changes something.
  pub rescue_send_does :
      {A B : Type 0} {Q : List E → Call B → Type 0} (c : E) {out : Call A} {catches : Error → Bool}
      {body : A → Flow E B} {handler : Error → Flow E B}
      → ((a : A) → out ≡ answer a → Does (body a) (λ later r. Q (c ∷ later) r))
      → ((e : Error)
          → out ≡ exception e
          → catches e ≡ true
          → Does (handler e) (λ later r. Q (c ∷ later) r))
      → ((e : Error) → out ≡ exception e → catches e ≡ false → Q (c ∷ []) (exception e))
      → Does (rescue catches (send c out) body handler) Q
  unfolding rescue send
  rescue_send_does {Q} c {out} {catches} {body} {handler} next handle fail =
      on_send_does catches Q c out body handler next handle fail
