-- ===== src/Positions/Symbols.antt =====
-- The symbols that `count_active_positions` returns.
use trading_binance.Base.{◌≡◌, ◌⊎◌, Bool, false, Option, none, some, List, [], ◌∷◌, String, str_eq}
use trading_binance.Num.{Float}
use trading_binance.Positions.Active.{Position, contains_text, active_symbol}

-- No symbol stands twice.
abbrev pub AllDistinct : List String → Type 0
AllDistinct [] = Unit
AllDistinct (s ∷ ss) = (contains_text s ss ≡ false) × AllDistinct ss

-- the test for one symbol
abbrev is_text : String → Option String → Bool
is_text s none = false
is_text s (some t) = str_eq t s

module _ {F : Type 0} ⦃fl : Float F⦄ where
  -- A position of the snapshot is active and has the symbol.
  abbrev pub IsHeld : String → List (Position F) → Type 0
  IsHeld s [] = ⊥
  IsHeld s (p ∷ ps) = (active_symbol p.symbol p.amount ≡ some s) ⊎ IsHeld s ps
