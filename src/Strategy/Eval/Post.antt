-- ===== src/Strategy/Eval/Post.antt =====
-- Rules for what an engine ensures: it raises only in a given case, it bumps at most one reject key and only
-- where it returns nothing, and the values that it returns meet a predicate.
use trading_binance.Base.{◌≡◌, refl, Bool, true, false, ◌⊎◌, inl, inr, String, Option, some, arith}
use trading_binance.Num.{Float, IsFloat, zero_float, ◌≤?◌}
use trading_binance.Strategy.Eval.{
  Step, value, stop, raised, Rejects, Eval, bump_reject, ◌>>=◌, pure, stop_if, reject, reject_if,
  choose, found, divided, ratio_or, of_call,
}
use trading_binance.Py.{Call, answer, exception, Error}

-- What a run that began with the dict `r` has done, by how it ended; it raises only where `X`.
abbrev pub Outcome : {A : Type 0} → Type 0 → (A → Type 0) → Rejects → Step A × Rejects → Type 0
Outcome X P r (value a, r') = P a × (r' ≡ r)
Outcome X P r (stop, r') = (r' ≡ r) ⊎ ((key : String) × (r' ≡ bump_reject key r))
Outcome X P r (raised e, r') = X

pub record Ensures {A : Type 0} (X : Type 0) (m : Eval A) (P : A → Type 0) : Type 0 where
  pub run : (r : Rejects) → Outcome X P r (m r)

abbrev pub Any : {A : Type 0} → A → Type 0
Any a = Unit

-- The rest of a run, after a part that ended in `s` and `r'`.
after :
    {A B X : Type 0} (P : A → Type 0) (Q : B → Type 0) (f : A → Eval B) (r : Rejects)
    (out : Step A × Rejects)
    → Outcome X P r out
    → ((a : A) → P a → Ensures X (f a) Q)
    → Outcome X Q r
        (elim out.0 [ value a ↦ f a out.1 | stop ↦ (stop, out.1) | raised e ↦ (raised e, out.1) ])
after P Q f r (value a, r') (p, same) h = rw same ((h a p).run r)
after P Q f r (stop, r') o h = o
after P Q f r (raised e, r') o h = o

pub bind_ensures :
    {A B X : Type 0} {P : A → Type 0} {Q : B → Type 0} {m : Eval A} {f : A → Eval B}
    → Ensures X m P
    → ((a : A) → P a → Ensures X (f a) Q)
    → Ensures X (m >>= f) Q
unfolding ◌>>=◌
bind_ensures {X} {P} {Q} {m} {f} e h = record { run = λ r. after {X = X} P Q f r (m r) (e.run r) h }

pub pure_ensures : {A X : Type 0} {P : A → Type 0} (a : A) → P a → Ensures X (pure a) P
unfolding pure
pure_ensures a p = record { run = λ r. (p, refl) }

pub reject_ensures :
    {A X : Type 0} {P : A → Type 0} (key : String) → Ensures X (reject {A = A} key) P
unfolding reject
reject_ensures key = record { run = λ r. inr (key, refl) }

pub reject_if_ensures :
    {X : Type 0} (c : Bool) (key : String) → Ensures X (reject_if c key) (λ _. c ≡ false)
unfolding reject_if
reject_if_ensures true key = record { run = λ r. inr (key, refl) }
reject_if_ensures false key = record { run = λ r. (refl, refl) }

pub stop_if_ensures : {X : Type 0} (c : Bool) → Ensures X (stop_if c) (λ _. c ≡ false)
unfolding stop_if
stop_if_ensures true = record { run = λ r. inl refl }
stop_if_ensures false = record { run = λ r. (refl, refl) }

pub choose_ensures :
    {A X : Type 0} {P : A → Type 0} (c : Bool) {m n : Eval A}
    → (c ≡ true → Ensures X m P)
    → (c ≡ false → Ensures X n P)
    → Ensures X (choose c m n) P
unfolding choose
choose_ensures true h k = record { run = λ r. (h refl).run r }
choose_ensures false h k = record { run = λ r. (k refl).run r }

pub found_ensures :
    {A X : Type 0} {P : A → Type 0} {o : Option A} (a : A)
    → o ≡ some a
    → P a
    → Ensures X (found o) P
unfolding found
found_ensures a e p = rw e (record { run = λ r. (p, refl) })

-- A call that raises only where `X`.
pub of_call_ensures :
    {A X : Type 0} {P : A → Type 0} (c : Call A)
    → ((a : A) → c ≡ answer a → P a)
    → ((e : Error) → c ≡ exception e → X)
    → Ensures X (of_call c) P
unfolding of_call
of_call_ensures (answer a) h k = record { run = λ r. (h a refl, refl) }
of_call_ensures (exception e) h k = record { run = λ r. k e refl }

outcome_mono :
    {A : Type 0} (X : Type 0) {P Q : A → Type 0} (r : Rejects) (out : Step A × Rejects)
    → Outcome X P r out
    → ((a : A) → P a → Q a)
    → Outcome X Q r out
outcome_mono X r (value a, r') (p, same) h = (h a p, same)
outcome_mono X r (stop, r') o h = o
outcome_mono X r (raised e, r') o h = o

pub weaken_ensures :
    {A X : Type 0} {P Q : A → Type 0} {m : Eval A}
    → Ensures X m P
    → ((a : A) → P a → Q a)
    → Ensures X m Q
weaken_ensures {X} {P} {Q} {m} e h = record {
  run = λ r. outcome_mono X {P = P} r (m r) (e.run r) h;
}

module _ {F X : Type 0} ⦃fl : Float F⦄ (laws : IsFloat F) where
  open laws use {le_of_eq, not_le_of_lt}

  -- A divisor that is not at or below zero does not raise; NaN gives NaN.
  pub divided_ensures :
      (x y : F) → (y ≤? zero_float) ≡ false → Ensures X (divided x y) (λ q. q ≡ fl.quotient x y)
  unfolding divided
  divided_ensures x y h = record { run = λ r. ground (arith, le_of_eq y zero_float) }

  pub ratio_or_ensures : (x y z : F) → Ensures X (ratio_or x y z) Any
  unfolding ratio_or
  ratio_or_ensures x y z = record {
    run = λ r. ground (arith, le_of_eq y zero_float, not_le_of_lt zero_float y);
  }

-- What the caller sees: a value comes with the dict as it was, and with its predicate.
pub value_of_ensures :
    {A X : Type 0} {P : A → Type 0} {m : Eval A} {a : A} {r r' : Rejects}
    → Ensures X m P
    → m r ≡ (value a, r')
    → P a × (r' ≡ r)
value_of_ensures {X} {P} {r} e h = rw h at (e.run r)
