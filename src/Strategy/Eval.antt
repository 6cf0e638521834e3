-- ===== src/Strategy/Eval.antt =====
-- How a signal engine of strategy.py runs: it reads and bumps the `rejects` dict, and it returns
-- a value, returns `None` early, or raises.
pub mod Post
use trading_binance.Base.{
  ℕ, suc, ◌+◌, Bool, true, false, String, str_eq, Option, none, some, List, [], ◌∷◌, if◌then◌else◌,
}
use trading_binance.Num.{Float, zero_float, lit, ◌<?◌}
use trading_binance.Py.{Call, answer, exception, Error, zero_division, index_error}

pub data Step (A : Type 0) : Type 0 where
  value : A → Step A
  stop : Step A
  raised : Error → Step A

-- `rejects: dict | None`, in insertion order
abbrev pub Rejects : Type 0
Rejects = Option (List (String × ℕ))

abbrev pub Eval : Type 0 → Type 0
Eval A = Rejects → Step A × Rejects

unfoldable pub bump : String → List (String × ℕ) → List (String × ℕ)
bump key [] = (key, 1) ∷ []
bump key ((other, n) ∷ rest) =
    if str_eq other key then (other, n + 1) ∷ rest else (other, n) ∷ bump key rest

-- `_bump_reject`, and the `_r` of the engines
unfoldable pub bump_reject : String → Rejects → Rejects
unfolding bump
bump_reject key none = none
bump_reject key (some rejects) = some (bump key rejects)

infixl 5 ◌>>=◌ ◌>>◌
unfoldable pub ◌>>=◌ : {A B : Type 0} → Eval A → (A → Eval B) → Eval B
◌>>=◌ m f r =
    let (s, r') = m r in elim s [ value a ↦ f a r' | stop ↦ (stop, r') | raised e ↦ (raised e, r') ]

abbrev pub ◌>>◌ : {B : Type 0} → Eval (Unit {0}) → Eval B → Eval B
m >> k = m >>= λ _. k

unfoldable pub pure : {A : Type 0} → A → Eval A
pure a r = (value a, r)

-- a call that may raise
unfoldable pub of_call : {A : Type 0} → Call A → Eval A
of_call (answer a) r = (value a, r)
of_call (exception e) r = (raised e, r)

-- `return None` where `c` holds
unfoldable pub stop_if : Bool → Eval (Unit {0})
stop_if c r = if c then (stop, r) else (value tt, r)

-- bump the key and `return None`
unfoldable pub reject : {A : Type 0} → String → Eval A
unfolding bump_reject
reject key r = (stop, bump_reject key r)

unfoldable pub reject_if : Bool → String → Eval (Unit {0})
unfolding bump_reject
reject_if c key r = if c then (stop, bump_reject key r) else (value tt, r)

-- a branch between two parts of an engine
unfoldable pub choose : {A : Type 0} → Bool → Eval A → Eval A → Eval A
choose c m n r = if c then m r else n r

-- `series.iloc[i]` for an index that was found or not
unfoldable pub found : {A : Type 0} → Option A → Eval A
found none r = (raised index_error, r)
found (some a) r = (value a, r)

-- `x / y`
unfoldable pub divided : {F : Type 0} ⦃fl : Float F⦄ → F → F → Eval F
divided ⦃fl⦄ x y r =
    if fl.eq y zero_float then (raised zero_division, r) else (value (fl.quotient x y), r)

-- `x / y if y > 0 else otherwise`
unfoldable pub ratio_or : {F : Type 0} ⦃fl : Float F⦄ → F → F → F → Eval F
unfolding choose divided pure
ratio_or x y otherwise = choose (zero_float <? y) (divided x y) (pure otherwise)
