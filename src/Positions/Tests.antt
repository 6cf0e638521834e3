-- ===== src/Positions/Tests.antt =====
-- Positions and their cache on concrete answers.
use trading_binance.Base.{ℕ, ◌+◌, ◌<◌, ◌≡◌, refl, arith, List, [], ◌∷◌, some, false, ◌↔◌}
use trading_binance.Num.{lit, zero_float}
use trading_binance.Num.Fixed.{Fixed, fixed_float}
use trading_binance.Positions.Active.{
  Position, protection, add_text, active_from, count_active_positions,
  has_any_position_or_entry_order, IsIdle, has_any_position_iff,
}
use trading_binance.Positions.Cache.{Times, Use, got, ttl, new_cache, get, use_all, get_recent}

abbrev held : Position Fixed
held = record { symbol = some "BTCUSDT"; amount = some (lit 5 1) }

abbrev flat : Position Fixed
flat = record { symbol = some "ETHUSDT"; amount = some zero_float }

-- A hedge position counts once.
count_runs : count_active_positions (held ∷ flat ∷ held ∷ []) ≡ (1, "BTCUSDT" ∷ [])
unfolding count_active_positions active_from add_text
count_runs = refl

-- The exchange's answer is the time itself.
abbrev snapshot : ℕ → ℕ
snapshot t = t

abbrev first : Times
first = record { looked = 5_000_000; answered = 5_100_000; stored = 5_200_000 }

abbrev second : Times
second = record { looked = 6_000_000; answered = 6_100_000; stored = 6_200_000 }

abbrev uses : List Use
uses = got first ∷ []

cache_runs : (get snapshot second (use_all snapshot uses (new_cache 0))).0 ≡ 5_100_000
unfolding get use_all
cache_runs = refl

get_recent_example :
    (f : ℕ) × ((get snapshot second (use_all snapshot uses (new_cache 0))).0 ≡ snapshot f)
    × (6_000_000 < f + 100_000 + ttl)
get_recent_example =
    get_recent snapshot 100_000 uses second 0 (ground arith, tt) (ground arith) (ground arith)

has_any_position_iff_example :
    (has_any_position_or_entry_order (some (flat ∷ [])) (some (protection ∷ [])) ≡ false)
    ↔ IsIdle (some (flat ∷ [])) (some (protection ∷ []))
has_any_position_iff_example = has_any_position_iff (some (flat ∷ [])) (some (protection ∷ []))

abbrev snapshot_positions : List (Position Fixed)
snapshot_positions = held ∷ flat ∷ held ∷ []
