-- ===== src/Risk/Store.antt =====
-- `save` and `load` of `RiskManager`. The texts of dates and the conversions of JSON values are
-- those of Python's library: the record `Codec` names the calls, and `Reads` what is documented of
-- them.
pub mod Back
mod Tests
use trading_binance.Base.{
  ℕ, ◌≡◌, refl, sym, ◌∙◌, ap, subst, arith, Bool, true, false, String, str_eq, Option, none, some,
  List, [], ◌∷◌, if◌then◌else◌,
}
use trading_binance.Num.{Float, zero_float}
use trading_binance.Py.{Call, answer, exception}
use trading_binance.Persistence.{
  Disk, target, Write, written, Done, done, Parsed, object, Loaded, atomic_write_text,
  load_json_safe, load_content, load_parsed, read,
}
use trading_binance.Persistence.Files.{atomic_write_text_lem}
use trading_binance.Risk.{RiskState}

-- A value of the JSON object.
pub data Value (F : Type 0) : Type 0 where
  null : Value F
  boolean : Bool → Value F
  integer : ℕ → Value F
  number : F → Value F
  text : String → Value F

abbrev pub Document : Type 0 → Type 0
Document F = List (String × Value F)

-- `int(v)`, `float(v)`, `bool(v)`, the two `isoformat` and `fromisoformat`, and `json.dumps` and
-- `json.load`; `none` is a TypeError or a ValueError.
pub record Codec (F : Type 0) : Type 0 where
  pub int_of : Value F → Option ℕ
  pub float_of : Value F → Option F
  pub bool_of : Value F → Bool
  pub datetime_text : ℕ → String
  pub datetime_of : Value F → Option ℕ
  pub date_text : ℕ → String
  pub date_of : Value F → Option ℕ
  pub dumps : Document F → String
  pub parse : String → Parsed (Document F)

module _ {F : Type 0} where
  -- `data.get(key, default)`
  unfoldable pub get_value : String → Value F → Document F → Value F
  get_value key default [] = default
  get_value key default ((other, value) ∷ data_rest) =
      if str_eq other key then value else get_value key default data_rest

  module _ ⦃fl : Float F⦄ (codec : Codec F) where
    -- `t.isoformat() if t else None`
    unfoldable pub optional_text : (ℕ → String) → Option ℕ → Value F
    optional_text iso none = null
    optional_text iso (some t) = text (iso t)

    -- the object that `save` writes
    unfoldable pub document_of : RiskState F → Document F
    document_of state =
        ("consecutive_losses", integer state.consecutive_losses)
        ∷ ("last_trade_time", optional_text codec.datetime_text state.last_trade_time)
        ∷ ("day_start_equity", number state.day_start_equity)
        ∷ ("current_day", optional_text codec.date_text state.current_day)
        ∷ ("equity", number state.equity)
        ∷ ("paused", boolean state.paused)
        ∷ ("loss_pause_until", optional_text codec.datetime_text state.loss_pause_until)
        ∷ []

    unfoldable pub save : Write → Done → String → RiskState F → Disk → Call (Unit {0}) × Disk
    save write replaced path state disk =
        atomic_write_text write replaced path (codec.dumps (document_of state)) disk

    unfoldable pub as_some : Option ℕ → Option (Option ℕ)
    as_some none = none
    as_some (some t) = some (some t)

    -- `fromisoformat(v) if v else None`; the outer `none` is an error
    unfoldable pub optional_value : (Value F → Option ℕ) → Value F → Option (Option ℕ)
    optional_value from_iso v = if codec.bool_of v then as_some (from_iso v) else some none

    -- One assignment and what follows it, or, where the conversion raises, the state as it is.
    unfoldable pub assign :
        {A : Type 0}
        → Option A
        → (A → RiskState F)
        → (RiskState F → RiskState F)
        → RiskState F
        → RiskState F
    assign none set next state = state
    assign (some a) set next state = next (set a)

    unfoldable pub load_losses :
        Document F → (RiskState F → RiskState F) → RiskState F → RiskState F
    load_losses d next state =
        assign (codec.int_of (get_value "consecutive_losses" (integer 0) d))
          (λ n. record state { consecutive_losses = n }) next state

    unfoldable pub load_last : Document F → (RiskState F → RiskState F) → RiskState F → RiskState F
    load_last d next state =
        assign (optional_value codec.datetime_of (get_value "last_trade_time" null d))
          (λ t. record state { last_trade_time = t }) next state

    unfoldable pub load_day : Document F → (RiskState F → RiskState F) → RiskState F → RiskState F
    load_day d next state =
        assign (optional_value codec.date_of (get_value "current_day" null d))
          (λ t. record state { current_day = t }) next state

    unfoldable pub load_start : Document F → (RiskState F → RiskState F) → RiskState F → RiskState F
    load_start d next state =
        assign (codec.float_of (get_value "day_start_equity" (number zero_float) d))
          (λ x. record state { day_start_equity = x }) next state

    unfoldable pub load_equity :
        Document F → (RiskState F → RiskState F) → RiskState F → RiskState F
    load_equity d next state =
        assign (codec.float_of (get_value "equity" (number zero_float) d))
          (λ x. record state { equity = x }) next state

    unfoldable pub load_paused : Document F → RiskState F → RiskState F
    load_paused d state = record state {
      paused = codec.bool_of (get_value "paused" (boolean false) d);
    }

    unfoldable pub load_pause : Document F → RiskState F → RiskState F
    load_pause d state =
        assign (optional_value codec.datetime_of (get_value "loss_pause_until" null d))
          (λ t. record state { loss_pause_until = t }) (λ s. s) state

    -- the assignments of `load`, in their order
    unfoldable pub restore : Document F → RiskState F → RiskState F
    restore d state =
        load_losses d
          (load_last d
            (load_day d (load_start d (load_equity d (λ s. load_pause d (load_paused d s))))))
          state

    -- `if not data: return`
    unfoldable pub restore_if : Option (Document F) → RiskState F → RiskState F
    restore_if none state = state
    restore_if (some []) state = state
    restore_if (some (entry ∷ entries)) state = restore (entry ∷ entries) state

    -- `load`: the state and the files after it
    unfoldable pub load : Done → Done → String → String → RiskState F → Disk → RiskState F × Disk
    load opened moved stamp path state disk =
        let (loaded, after) = load_json_safe codec.parse opened moved stamp path disk in
        (restore_if loaded.data_of state, after)

  -- A date is read back from its text, which is true.
  abbrev pub IsBack : Codec F → (ℕ → String) → (Value F → Option ℕ) → ℕ → Type 0
  IsBack codec iso from_iso t =
      (from_iso (text (iso t)) ≡ some t) × (codec.bool_of (text (iso t)) ≡ true)

  -- What is documented of the codec, for the values of one state: a conversion of a value of its
  -- own type is that value, a date is read back from its text, which is not empty, `None` is not
  -- true, and the object is read back from its JSON.
  pub record Reads ⦃fl : Float F⦄ (codec : Codec F) (saved : RiskState F) : Type 0 where
    pub int_back : codec.int_of (integer saved.consecutive_losses) ≡ some saved.consecutive_losses
    pub start_back : codec.float_of (number saved.day_start_equity) ≡ some saved.day_start_equity
    pub equity_back : codec.float_of (number saved.equity) ≡ some saved.equity
    pub paused_back : codec.bool_of (boolean saved.paused) ≡ saved.paused
    pub null_false : codec.bool_of null ≡ false
    pub last_back :
        (t : ℕ)
        → saved.last_trade_time ≡ some t
        → IsBack codec codec.datetime_text codec.datetime_of t
    pub pause_back :
        (t : ℕ)
        → saved.loss_pause_until ≡ some t
        → IsBack codec codec.datetime_text codec.datetime_of t
    pub day_back :
        (d : ℕ) → saved.current_day ≡ some d → IsBack codec codec.date_text codec.date_of d
    pub parse_dumps :
        codec.parse (codec.dumps (document_of codec saved)) ≡ object (document_of codec saved)
