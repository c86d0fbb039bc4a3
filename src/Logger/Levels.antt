-- ===== src/Logger/Levels.antt =====
-- `createLogger`, its `emit` and `write`, and `parseLogLevel` of packages/service/logger/src/index.ts.
-- The fields that a logger is bound to are a record on the heap, and a merge makes a new one. What
-- `JSON.stringify` is given is the entries in order.
pub mod Fields
pub mod Shown
pub mod Lines
use predictor_common.Prelude.Text.{Text, codes, text_eq}
use predictor_common.Prelude.Dict.{put, text_key}
use predictor_common.Logger.Words.{is_redact_key}
use predictor_common.Logger.Redaction.{
  Value, string, ref, Node, array, fields, opaque, Heap, node_at, Copy, kept, entries, Entries, end,
  entry, redact,
}
use predictor_common.Prelude.{
  ℕ, suc, Bool, true, false, ◌||◌, Option, none, some, List, [], ◌∷◌, ◌++◌, map, length, ltb,
  if◌then◌else◌,
}

pub data LogLevel : Type 0 where
  debug info warn error : LogLevel

abbrev pub level_order : LogLevel → ℕ
level_order debug = 10
level_order info = 20
level_order warn = 30
level_order error = 40

abbrev pub level_name : LogLevel → Text
level_name debug = codes "debug"
level_name info = codes "info"
level_name warn = codes "warn"
level_name error = codes "error"

unfoldable pub parse_log_level : Option Text → Option LogLevel
parse_log_level none = none
parse_log_level (some value) =
    if text_eq value (codes "debug")
    then some debug
    else if text_eq value (codes "info")
    then some info
    else if text_eq value (codes "warn")
    then some warn
    else if text_eq value (codes "error")
    then some error
    else none

abbrev pub default_redact_keys : List Text
default_redact_keys =
    codes "suri"
    ∷ codes "secret"
    ∷ codes "seed"
    ∷ codes "mnemonic"
    ∷ codes "password"
    ∷ codes "token"
    ∷ codes "credential"
    ∷ codes "credentials"
    ∷ codes "authorization"
    ∷ codes "apikey"
    ∷ codes "privatekey"
    ∷ codes "secretkey"
    ∷ codes "minisecret"
    ∷ []

-- `base` is the address of a record; `log_level` is `env.LOG_LEVEL`.
pub record LoggerOptions : Type 0 where
  pub level : Option LogLevel
  pub base : Option ℕ
  pub log_level : Option Text
  pub redact_keys : Option (List Text)

-- The variables that the methods of a logger close over.
pub record Logger : Type 0 where
  pub level : LogLevel
  pub base : ℕ
  pub redact_keys : List Text
  pub options : LoggerOptions

pub data Stream : Type 0 where
  stdout stderr : Stream

-- The object of a line: of copies, or of the live values where nothing is redacted.
pub data Line : Type 0 where
  copied : List (Text × Copy) → Line
  live : List (Text × Value) → Line

pub record Written : Type 0 where
  pub stream : Stream
  pub line : Line

abbrev pub or_else {ℓ} : {A : Type ℓ} → Option A → A → A
or_else none a = a
or_else (some b) a = b

-- `{ ...a, ...b }`.
abbrev pub spread {ℓ} : {V : Type ℓ} → List (Text × V) → List (Text × V) → List (Text × V)
spread a [] = a
spread a ((k, v) ∷ b) = spread (put a k v) b

abbrev pub entries_of : Node → List (Text × Value)
entries_of (fields es) = es
entries_of _ = []

abbrev pub copies_of : Entries → List (Text × Copy)
copies_of end = []
copies_of (entry k c es) = (k, c) ∷ copies_of es

abbrev pub stream_of : LogLevel → Stream
stream_of debug = stdout
stream_of info = stdout
stream_of warn = stderr
stream_of error = stderr

-- A new record on the heap.
abbrev pub alloc : Heap → List (Text × Value) → Heap × ℕ
alloc heap es = (heap ++ (fields es ∷ []), length heap)

abbrev pub header : LogLevel → Text → List (Text × Value)
header at msg = (codes "level", string (level_name at)) ∷ (codes "msg", string msg) ∷ []

abbrev pub copied_header : LogLevel → Text → List (Text × Copy)
copied_header at msg =
    (codes "level", kept (string (level_name at))) ∷ (codes "msg", kept (string msg)) ∷ []

-- `write` of the copy of a record.
abbrev pub line_of : LogLevel → Text → Option Copy → List Written
line_of at msg (some (entries es)) =
    record { stream = stream_of at; line = copied (spread (copied_header at msg) (copies_of es)) }
    ∷ []
line_of at msg _ = []

module _ (to_lower_case : Text → Text) where
  unfoldable pub create_logger : Heap → LoggerOptions → Heap × Logger
  create_logger heap options =
      let (heap', empty) = alloc heap [] in
      let level = or_else options.level (or_else (parse_log_level options.log_level) info) in
      (
        heap',
        record {
          level = level;
          base = or_else options.base empty;
          redact_keys = map to_lower_case (or_else options.redact_keys default_redact_keys);
          options = options;
        },
      )

  unfoldable pub child : Heap → Logger → List (Text × Value) → Heap × Logger
  child heap l bindings =
      let (heap', base) = alloc heap (spread (entries_of (node_at heap l.base)) bindings) in
      create_logger heap' (record {
        level = some l.level;
        base = some base;
        log_level = l.options.log_level;
        redact_keys = l.options.redact_keys;
      })

  -- The address of the record that a line is made of, and the heap with it.
  abbrev pub merged : Heap → Logger → Option (List (Text × Value)) → Heap × ℕ
  merged heap l none = (heap, l.base)
  merged heap l (some extra) = alloc heap (spread (entries_of (node_at heap l.base)) extra)

  -- `redactKeys.size > 0`.
  abbrev pub output : Heap → Logger → LogLevel → Text → ℕ → List Text → List Written
  output heap l at msg address [] =
      record {
        stream = stream_of at;
        line = live (spread (header at msg) (entries_of (node_at heap address)));
      }
      ∷ []
  output heap l at msg address (key ∷ keys) =
      line_of at msg (
        redact (is_redact_key to_lower_case (key ∷ keys)) heap (suc (length heap)) [] (ref address))

  unfoldable pub emit :
      Heap → Logger → LogLevel → Text → Option (List (Text × Value)) → List Written
  emit heap l at msg extra =
      if ltb (level_order at) (level_order l.level)
      then []
      else output (merged heap l extra).0 l at msg (merged heap l extra).1 l.redact_keys
