-- ===== src/Positions/Active.antt =====
-- `count_active_positions` and `has_any_position_or_entry_order`.
use trading_binance.Base.{
  ℕ, ◌≡◌, refl, ◌↔◌, Bool, true, false, ◌||◌, Option, none, some, List, [], ◌∷◌, ◌++◌, String,
  str_eq, length, ltb, if◌then◌else◌, arith, subst, sym, ap, ◌∙◌, length-append,
}
use trading_binance.Num.{Float, zero_float, absolute, ◌<?◌}

-- A position of the exchange's snapshot: `symbol` is `none` where it is missing or empty, and
-- `amount` where `float` raises; a missing amount is zero.
pub record Position (F : Type 0) : Type 0 where
  pub symbol : Option String
  pub amount : Option F

-- `PROTECTION_ORDER_TYPES`, and every other type
pub data OrderType : Type 0 where
  protection entry : OrderType

abbrev pub contains_text : String → List String → Bool
contains_text s [] = false
contains_text s (t ∷ ts) = str_eq t s || contains_text s ts

-- `active_symbols.add(symbol)`
unfoldable pub add_text : String → List String → List String
add_text s set = if contains_text s set then set else set ++ (s ∷ [])

abbrev pub any_entry : List OrderType → Bool
any_entry [] = false
any_entry (protection ∷ os) = any_entry os
any_entry (entry ∷ os) = true

abbrev pub AllProtection : List OrderType → Type 0
AllProtection [] = Unit
AllProtection (o ∷ os) = (o ≡ protection) × AllProtection os

length-add_text : (s : String) (set : List String) → ltb 0 (length (add_text s set)) ≡ true
unfolding add_text
length-add_text s [] = refl
length-add_text s (t ∷ set) = ground (arith, length-append set (s ∷ []))

abbrev pub add_symbol : Option String → List String → List String
add_symbol none set = set
add_symbol (some s) set = add_text s set

add_symbol-grows :
    (s : Option String) (set : List String)
    → ltb 0 (length set) ≡ true
    → ltb 0 (length (add_symbol s set)) ≡ true
add_symbol-grows none set h = h
add_symbol-grows (some s) set h = length-add_text s set

true_not_false : true ≡ false → ⊥
true_not_false h = ground arith

or_false : (a b : Bool) → (a || b) ≡ false → (a ≡ false) × (b ≡ false)
or_false a b h = (ground arith, ground arith)

all_protection : (os : List OrderType) → any_entry os ≡ false → AllProtection os
all_protection [] h = tt
all_protection (protection ∷ os) h = (refl, all_protection os h)
all_protection (entry ∷ os) h = ground arith

no_entry : (os : List OrderType) → AllProtection os → any_entry os ≡ false
no_entry [] h = refl
no_entry (protection ∷ os) (e, h) = no_entry os h
no_entry (entry ∷ os) (e, h) = ground (arith, e)

module _ {F : Type 0} ⦃fl : Float F⦄ where
  -- the symbol that a position adds, if it is active
  abbrev pub active_symbol : Option String → Option F → Option String
  active_symbol none amount = none
  active_symbol (some s) none = none
  active_symbol (some s) (some a) = if zero_float <? absolute a then some s else none

  unfoldable pub active_from : List (Position F) → List String → List String
  active_from [] set = set
  active_from (p ∷ ps) set = active_from ps (add_symbol (active_symbol p.symbol p.amount) set)

  unfoldable pub count_active_positions : List (Position F) → ℕ × List String
  count_active_positions ps = (length (active_from ps []), active_from ps [])

  unfoldable pub has_any_position_or_entry_order :
      Option (List (Position F)) → Option (List OrderType) → Bool
  has_any_position_or_entry_order none orders = true
  has_any_position_or_entry_order (some ps) none = true
  has_any_position_or_entry_order (some ps) (some os) =
      ltb 0 (count_active_positions ps).0 || any_entry os

  abbrev pub AllFlat : List (Position F) → Type 0
  AllFlat [] = Unit
  AllFlat (p ∷ ps) = (active_symbol p.symbol p.amount ≡ none) × AllFlat ps

  -- An account without positions and entry orders, on answers that came.
  abbrev pub IsIdle : Option (List (Position F)) → Option (List OrderType) → Type 0
  IsIdle none orders = ⊥
  IsIdle (some ps) none = ⊥
  IsIdle (some ps) (some os) = AllFlat ps × AllProtection os

  active_from-grows :
      (ps : List (Position F)) (set : List String)
      → ltb 0 (length set) ≡ true
      → ltb 0 (length (active_from ps set)) ≡ true
  unfolding active_from
  active_from-grows [] set h = h
  active_from-grows (p ∷ ps) set h =
      active_from-grows ps _ (add_symbol-grows (active_symbol p.symbol p.amount) set h)

  active_from-AllFlat :
      (ps : List (Position F)) (set : List String) → AllFlat ps → active_from ps set ≡ set
  unfolding active_from
  active_from-AllFlat [] set h = refl
  active_from-AllFlat (p ∷ ps) set (flat, rest) =
      active_from-AllFlat ps _ rest ∙ ap (λ x. add_symbol x set) flat

  none_added :
      (s : Option String) (ps : List (Position F))
      → ltb 0 (length (active_from ps (add_symbol s []))) ≡ false
      → s ≡ none
  none_added none ps h = refl
  none_added (some s) ps h =
      absurd (true_not_false (sym (active_from-grows ps _ (length-add_text s [])) ∙ h))

  none_active : (ps : List (Position F)) → ltb 0 (length (active_from ps [])) ≡ false → AllFlat ps
  unfolding active_from
  none_active [] h = tt
  none_active (p ∷ ps) h =
      let e = none_added (active_symbol p.symbol p.amount) ps h in
      (
        e,
        none_active ps (subst (λ x. ltb 0 (length (active_from ps (add_symbol x []))) ≡ false) e h),
      )

  -- The test for a position or an entry order says no exactly when the exchange answered both
  -- questions, no position with a symbol has an amount, and every open order is a protection.
  pub has_any_position_iff :
      (positions : Option (List (Position F))) (orders : Option (List OrderType))
      → (has_any_position_or_entry_order positions orders ≡ false) ↔ IsIdle positions orders
  unfolding has_any_position_or_entry_order count_active_positions
  has_any_position_iff none orders = (λ h. ground arith, λ h. absurd h)
  has_any_position_iff (some ps) none = (λ h. ground arith, λ h. absurd h)
  has_any_position_iff (some ps) (some os) = (
    λ h. (none_active ps (or_false _ _ h).0, all_protection os (or_false _ _ h).1),
    λ h. rw (active_from-AllFlat ps [] h.0) (no_entry os h.1),
  )
