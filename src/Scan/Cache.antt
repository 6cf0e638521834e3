-- ===== src/Scan/Cache.antt =====
-- The cache of enriched frames of services/signal_service.py, `_cached_with_indicators`: a dict in
-- insertion order, whose lookups and stores hold its lock,
-- used by one scan at a time.
use trading_binance.Base.{
  ℕ, ◌-◌, ◌==◌, Bool, ◌&&◌, Option, none, some, List, [], ◌∷◌, String, str_eq, length, drop,
  if◌then◌else◌,
}
use trading_binance.Num.{Float}
use trading_binance.Indicators.{Bar}
use trading_binance.Py.{Call, answer, and_then}
use trading_binance.Strategy.Frame.{Context}
use trading_binance.Strategy.Signals.{MainFrame}

-- `_INDICATOR_CACHE_MAX`
abbrev pub indicator_cache_max : ℕ
indicator_cache_max = 8000

-- The last row of a frame of the stream, its times in nanoseconds.
pub record LastRow (F : Type 0) : Type 0 where
  pub open_time : ℕ
  pub close_time : ℕ
  pub bar : Bar F

-- `_df_snapshot_token` of a frame that is not empty: its length and its last row
pub record Token (F : Type 0) : Type 0 where
  pub rows : ℕ
  pub last : LastRow F

-- The cache's key, less its kind. The owner is the stream with the signature of the configuration.
pub record Key : Type 0 where
  pub owner : ℕ
  pub symbol : String
  pub interval : String

-- An entry of the kind "main" or "context".
pub data Cached (F : Type 0) : Type 0 where
  main_entry : Key → Token F → MainFrame F → Cached F
  context_entry : Key → Token F → Context F → Cached F

abbrev pub same_key : Key → Key → Bool
same_key k other =
    (k.owner == other.owner) && str_eq k.symbol other.symbol && str_eq k.interval other.interval

module _ {F : Type 0} where
  unfoldable pub find_main : Key → List (Cached F) → Option (Token F × MainFrame F)
  find_main key [] = none
  find_main key (main_entry other token df ∷ rest) =
      if same_key other key then some (token, df) else find_main key rest
  find_main key (context_entry other token df ∷ rest) = find_main key rest

  unfoldable pub find_context : Key → List (Cached F) → Option (Token F × Context F)
  find_context key [] = none
  find_context key (context_entry other token df ∷ rest) =
      if same_key other key then some (token, df) else find_context key rest
  find_context key (main_entry other token df ∷ rest) = find_context key rest

  -- an assignment keeps the place of a key that is there
  unfoldable pub store_main : Key → Token F → MainFrame F → List (Cached F) → List (Cached F)
  store_main key token df [] = main_entry key token df ∷ []
  store_main key token df (main_entry other old frame ∷ rest) =
      if same_key other key
      then main_entry other token df ∷ rest
      else main_entry other old frame ∷ store_main key token df rest
  store_main key token df (context_entry other old frame ∷ rest) =
      context_entry other old frame ∷ store_main key token df rest

  unfoldable pub store_context : Key → Token F → Context F → List (Cached F) → List (Cached F)
  store_context key token df [] = context_entry key token df ∷ []
  store_context key token df (context_entry other old frame ∷ rest) =
      if same_key other key
      then context_entry other token df ∷ rest
      else context_entry other old frame ∷ store_context key token df rest
  store_context key token df (main_entry other old frame ∷ rest) =
      main_entry other old frame ∷ store_context key token df rest

  -- `_trim_indicator_cache_locked`
  unfoldable pub trim_indicator_cache : List (Cached F) → List (Cached F)
  trim_indicator_cache entries = drop (length entries - indicator_cache_max) entries

module _ {F : Type 0} ⦃fl : Float F⦄ where
  -- `cached[0] == token`; a NaN is not equal to itself
  unfoldable pub same_token : Token F → Token F → Bool
  same_token x y =
      (x.rows == y.rows)
      && (x.last.open_time == y.last.open_time)
      && (x.last.close_time == y.last.close_time)
      && fl.eq x.last.bar.open_price y.last.bar.open_price
      && fl.eq x.last.bar.high y.last.bar.high
      && fl.eq x.last.bar.low y.last.bar.low
      && fl.eq x.last.bar.close y.last.bar.close
      && fl.eq x.last.bar.volume y.last.bar.volume

  -- the entry, where its token is that of the frame
  unfoldable pub cache_hit : {A : Type 0} → Token F → Option (Token F × A) → Option A
  cache_hit token none = none
  cache_hit token (some (old, enriched)) = if same_token old token then some enriched else none

  -- what is found, or else the enrichment and its store
  unfoldable pub or_enrich :
      {A : Type 0}
      → List (Cached F)
      → Option A
      → Call A
      → (A → List (Cached F))
      → Call (A × List (Cached F))
  or_enrich entries (some enriched) enrichment store = answer (enriched, entries)
  or_enrich entries none enrichment store =
      and_then enrichment (λ enriched. answer (enriched, trim_indicator_cache (store enriched)))

  -- `_cached_with_indicators` of a frame that is not empty, of the kinds "main" and "context"
  unfoldable pub cached_main :
      Key → Token F → Call (MainFrame F) → List (Cached F) → Call (MainFrame F × List (Cached F))
  cached_main key token enrichment entries =
      or_enrich entries (cache_hit token (find_main key entries)) enrichment
        (λ df. store_main key token df entries)

  unfoldable pub cached_context :
      Key → Token F → Call (Context F) → List (Cached F) → Call (Context F × List (Cached F))
  cached_context key token enrichment entries =
      or_enrich entries (cache_hit token (find_context key entries)) enrichment
        (λ df. store_context key token df entries)
