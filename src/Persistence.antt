-- ===== src/Persistence.antt =====
-- persistence.py: atomic writes and safe loads of state files. A file system is a function from
-- paths to contents; whether an operation of it fails is an argument.
pub mod Files
use trading_binance.Base.{ℕ, Bool, true, false, String, str_eq, Option, none, some, if◌then◌else◌}
use trading_binance.Py.{Call, answer, exception, exchange_error, Error}

-- The paths of one state file: itself, its `.tmp`, and its `.bad-*` by the time of the quarantine.
pub data StatePath : Type 0 where
  target : String → StatePath
  temporary : String → StatePath
  quarantined : String → String → StatePath

abbrev pub Disk : Type 0
Disk = StatePath → Option String

unfoldable pub same_path : StatePath → StatePath → Bool
same_path (target a) (target b) = str_eq a b
same_path (temporary a) (temporary b) = str_eq a b
same_path (quarantined a s) (quarantined b t) = if str_eq a b then str_eq s t else false
same_path _ _ = false

-- the file at a path set, or removed by `none`
unfoldable pub put : StatePath → Option String → Disk → Disk
put path content disk other = if same_path path other then content else disk other

-- How a write of the temporary file goes: all of it, or an OSError after a part of it.
pub data Write : Type 0 where
  written : Write
  interrupted : String → Write

-- Whether a call of the file system returns or raises OSError.
pub data Done : Type 0 where
  done refused : Done

-- `os.replace`
unfoldable pub replace : StatePath → StatePath → Disk → Disk
replace from to disk = put from none (put to (disk from) disk)

unfoldable pub replace_if : Done → StatePath → StatePath → Disk → Call (Unit {0}) × Disk
replace_if done from to disk = (answer tt, replace from to disk)
replace_if refused from to disk = (exception exchange_error, disk)

-- `atomic_write_text`, after its directory is there
unfoldable pub atomic_write_text : Write → Done → String → String → Disk → Call (Unit {0}) × Disk
atomic_write_text written replaced path content disk =
    replace_if replaced (temporary path) (target path) (put (temporary path) (some content) disk)
atomic_write_text (interrupted part) replaced path content disk =
    (exception exchange_error, put (temporary path) (some part) disk)

-- What `json.load` makes of a text: nothing, an object, or a value of another kind.
pub data Parsed (D : Type 0) : Type 0 where
  malformed : Parsed D
  object : D → Parsed D
  other_root : Parsed D

-- What `load_json_safe` returns, and whether it calls `on_corrupt`.
pub record Loaded (D : Type 0) : Type 0 where
  pub data_of : Option D
  pub corrupt : Bool

module _ {D : Type 0} (parse : String → Parsed D) where
  -- the file as it is read: a read that raises is like a text that does not parse
  unfoldable pub read : Done → String → Parsed D
  read done content = parse content
  read refused content = malformed

  unfoldable pub load_parsed : Parsed D → Done → String → String → Disk → Loaded D × Disk
  load_parsed (object d) moved stamp path disk =
      (record { data_of = some d; corrupt = false }, disk)
  load_parsed other_root moved stamp path disk = (record { data_of = none; corrupt = true }, disk)
  load_parsed malformed moved stamp path disk = (
    record { data_of = none; corrupt = true },
    (replace_if moved (target path) (quarantined path stamp) disk).1,
  )

  unfoldable pub load_content :
      Option String → Done → Done → String → String → Disk → Loaded D × Disk
  load_content none opened moved stamp path disk =
      (record { data_of = none; corrupt = false }, disk)
  load_content (some content) opened moved stamp path disk =
      load_parsed (read opened content) moved stamp path disk

  -- `load_json_safe`, with `stamp` the time of a quarantine
  unfoldable pub load_json_safe : Done → Done → String → String → Disk → Loaded D × Disk
  load_json_safe opened moved stamp path disk =
      load_content (disk (target path)) opened moved stamp path disk
