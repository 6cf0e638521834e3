-- ===== src/Scan/Served.antt =====
-- `_cached_with_indicators` in a scan: the frames that it gives and the cache that it leaves.
use trading_binance.Base.{
  ℕ, ◌+◌, ◌≤◌, ◌≡◌, ◌⊎◌, arith, true, Option, none, some, List, [], ◌∷◌, length,
}
use trading_binance.Num.{Float}
use trading_binance.Indicators.{Pandas}
use trading_binance.Py.{answer}
use trading_binance.Strategy.Frame.{StrategyConfig, Context, context_length}
use trading_binance.Strategy.Signals.{MainFrame}
use trading_binance.Scan.{ensure_main_indicators, ensure_context_indicators}
use trading_binance.Scan.Cache.{
  indicator_cache_max, LastRow, Token, Key, Cached, main_entry, context_entry, store_main,
  same_token,
}

module _ {F : Type 0} where
  length-store_main :
      (key : Key) (token : Token F) (df : MainFrame F) (entries : List (Cached F))
      → length (store_main key token df entries) ≤ length entries + 1
  unfolding store_main
  length-store_main key token df [] = ground arith
  length-store_main key token df (main_entry other old frame ∷ rest) =
      ground (arith, length-store_main key token df rest)
  length-store_main key token df (context_entry other old frame ∷ rest) =
      ground (arith, length-store_main key token df rest)

module _ {F : Type 0} ⦃fl : Float F⦄ (pd : Pandas F) (cfg : StrategyConfig F) (owner : ℕ) where
  -- The token and the frame are those of a frame of the stream and of its enrichment.
  abbrev pub IsMade : Token F → MainFrame F → Type 0
  IsMade token df =
      (frame : MainFrame F) × (last : LastRow F) × (token
        ≡ record { rows = length frame.bars; last = last })
      × (ensure_main_indicators pd cfg frame ≡ answer df)

  abbrev pub IsEnriched : Cached F → Type 0
  IsEnriched (main_entry key token df) = key.owner ≡ owner → IsMade token df
  IsEnriched (context_entry key token df) =
      key.owner ≡ owner
      → (frame : Context F) × (last : LastRow F) × (token
          ≡ record { rows = context_length frame; last = last })
        × (ensure_context_indicators pd cfg frame ≡ answer df)

  abbrev pub AllEnriched : List (Cached F) → Type 0
  AllEnriched [] = Unit
  AllEnriched (entry ∷ rest) = IsEnriched entry × AllEnriched rest

  FoundMade : Option (Token F × MainFrame F) → Type 0
  FoundMade none = Unit
  FoundMade (some (token, df)) = IsMade token df

  -- An enrichment of the frame, or of a frame whose token is equal.
  abbrev pub IsServed : MainFrame F → Token F → MainFrame F → Type 0
  IsServed frame token df =
      (ensure_main_indicators pd cfg frame ≡ answer df)
      ⊎ ((old : Token F) × IsMade old df × (same_token old token ≡ true))

  Hits : Token F → Option (MainFrame F) → Type 0
  Hits token none = Unit
  Hits token (some df) = (old : Token F) × IsMade old df × (same_token old token ≡ true)

  -- What a call leaves.
  abbrev pub Serves : MainFrame F → Token F → MainFrame F × List (Cached F) → Type 0
  Serves frame token (df, later) =
      IsServed frame token df × AllEnriched later × (length later ≤ indicator_cache_max)
