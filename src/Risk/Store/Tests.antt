-- ===== src/Risk/Store/Tests.antt =====
-- A saved state, on a codec that knows its values, and the theorems on files at that input.
use trading_binance.Base.{
  ℕ, ◌≡◌, refl, Bool, true, false, str_eq, Option, none, some, [], ◌∷◌, if◌then◌else◌, arith,
}
use trading_binance.Num.{lit}
use trading_binance.Num.Fixed.{Fixed, fixed_float}
use trading_binance.Py.{answer}
use trading_binance.Persistence.{
  Disk, written, interrupted, done, object, malformed, atomic_write_text, replace_if,
  load_json_safe,
}
use trading_binance.Persistence.Files.{IsAtomic, Keeps, atomic_write_text_lem, load_json_safe-Keeps}
use trading_binance.Risk.{RiskState}
use trading_binance.Risk.Store.{
  Value, null, boolean, integer, number, text, Document, Codec, Reads, document_of, optional_text,
  save, load,
}
use trading_binance.Risk.Store.Back.{load-save}

abbrev saved : RiskState Fixed
saved = record {
  consecutive_losses = 2;
  last_trade_time = some 7;
  day_start_equity = lit 100 0;
  current_day = some 3;
  equity = lit 90 0;
  paused = true;
  loss_pause_until = none;
}

abbrev fresh : RiskState Fixed
fresh = record {
  consecutive_losses = 0;
  last_trade_time = none;
  day_start_equity = lit 0 0;
  current_day = none;
  equity = lit 0 0;
  paused = false;
  loss_pause_until = none;
}

abbrev saved_document : Document Fixed
saved_document =
    ("consecutive_losses", integer 2)
    ∷ ("last_trade_time", text "time")
    ∷ ("day_start_equity", number (lit 100 0))
    ∷ ("current_day", text "day")
    ∷ ("equity", number (lit 90 0))
    ∷ ("paused", boolean true)
    ∷ ("loss_pause_until", null)
    ∷ []

abbrev int_value : Value Fixed → Option ℕ
int_value (integer n) = some n
int_value _ = none

abbrev float_value : Value Fixed → Option Fixed
float_value (number x) = some x
float_value _ = none

abbrev truth : Value Fixed → Bool
truth null = false
truth (boolean b) = b
truth _ = true

abbrev codec : Codec Fixed
codec = record {
  int_of = int_value;
  float_of = float_value;
  bool_of = truth;
  datetime_text = λ t. "time";
  datetime_of = λ v. some 7;
  date_text = λ d. "day";
  date_of = λ v. some 3;
  dumps = λ d. "document";
  parse = λ s. if str_eq s "document" then object saved_document else malformed;
}

codec-Reads : Reads codec saved
unfolding document_of optional_text
codec-Reads = record {
  int_back = refl;
  start_back = refl;
  equity_back = refl;
  paused_back = refl;
  null_false = refl;
  last_back = λ t e. (e, refl);
  pause_back = λ t e. ground arith;
  day_back = λ d e. (e, refl);
  parse_dumps = refl;
}

abbrev empty : Disk
empty path = none

save_runs : (save codec written done "risk.json" saved empty).0 ≡ answer tt
unfolding save atomic_write_text replace_if
save_runs = refl

load-save_example :
    let after = (save codec written done "risk.json" saved empty).1 in
    load codec done done "stamp" "risk.json" fresh after ≡ (saved, after)
load-save_example =
    load-save codec saved codec-Reads written done done "stamp" "risk.json" fresh empty save_runs

atomic_write_text_lem_example :
    let (out, after) = atomic_write_text (interrupted "docu") done "risk.json" "document" empty in
    IsAtomic "risk.json" "document" empty after out
atomic_write_text_lem_example =
    atomic_write_text_lem (interrupted "docu") done "risk.json" "document" empty

abbrev one_file : Disk
one_file path = some "rubbish"

load_json_safe-Keeps_example :
    let out = load_json_safe codec.parse done done "stamp" "risk.json" one_file in
    Keeps codec.parse "risk.json" "stamp" "rubbish" out.0 out.1
load_json_safe-Keeps_example =
    load_json_safe-Keeps codec.parse done done "stamp" "risk.json" "rubbish" one_file refl
