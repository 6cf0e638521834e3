-- ===== src/Py/Laws.antt =====
-- Calls that return, and what the parts of a call that returned have returned.
use trading_binance.Base.{◌≡◌, refl, ap, arith}
use trading_binance.Py.{Call, answer, exception, Error, and_then}

abbrev pub Returns : {A : Type 0} → Call A → Type 0
Returns (answer a) = Unit
Returns (exception e) = ⊥

pub answer-Returns : {A : Type 0} {c : Call A} {a : A} → c ≡ answer a → Returns c
answer-Returns e = rw e tt

pub and_then-Returns :
    {A B : Type 0} (c : Call A) (f : A → Call B)
    → Returns c
    → ((a : A) → Returns (f a))
    → Returns (and_then c f)
unfolding and_then
and_then-Returns (answer a) f h k = k a
and_then-Returns (exception e) f h k = h

pub not_exception : {A P : Type 0} (c : Call A) (e : Error) → Returns c → c ≡ exception e → P
not_exception (answer a) e h same = absurd (ground arith)
not_exception (exception x) e h same = absurd h

pub and_then_inverse :
    {A B : Type 0} (c : Call A) (f : A → Call B) (b : B)
    → and_then c f ≡ answer b
    → (a : A) × (c ≡ answer a) × (f a ≡ answer b)
unfolding and_then
and_then_inverse (answer a) f b e = (a, refl, e)
and_then_inverse (exception x) f b e = absurd (ground arith)

answer_or : {A : Type 0} → A → Call A → A
answer_or default (answer a) = a
answer_or default (exception e) = default

pub answer_injective : {A : Type 0} {a b : A} → answer a ≡ answer b → a ≡ b
unfolding answer_or
answer_injective {a} e = ap (answer_or a) e
