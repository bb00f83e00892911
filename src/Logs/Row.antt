-- ===== src/Logs/Row.antt =====
-- How server/src/config/pulsarLogsTransport.ts makes a row of a log line.
use expense_management_syste.Base.{
  ℕ, ◌+◌, not, Option, none, some, List, [], ◌∷◌, Text, codes, text_eq, any, filter, map, length,
  take, ltb, if◌then◌else◌,
}

-- What `JSON.stringify` with the replacer makes of a value: a text, undefined, or an exception.
pub data Json : Type 0 where
  json : Text → Json
  no_json : Json
  throws : Json

-- `info.message`: a string, or another value with its JSON and `String(raw)`.
pub data Message : Type 0 where
  text : Text → Message
  other : Json → Text → Message

-- The `metadata` of a row; a value that is kept is the one that its JSON parses to.
pub data Metadata : Type 0 where
  parsed : Text → Metadata
  truncated : ℕ → Metadata
  unserializable : Metadata

pub record LogRow : Type 0 where
  pub level : Text
  pub message : Text
  pub ts : Text
  pub request_id : Option Text
  pub host : Text
  pub dedup_key : Text
  pub metadata : Option Metadata

-- `info.timestamp` where it is a string or a number.
pub data Timestamp (Value : Type 0) : Type 0 where
  text : Text → Timestamp Value
  number : Value → Timestamp Value

-- Winston's `info`: the envelope fields that are strings, and all its entries.
pub record Info (Value : Type 0) : Type 0 where
  pub level : Option Text
  pub message : Message
  pub timestamp : Option (Timestamp Value)
  pub request_id : Option Text
  pub entries : List (Text × Value)

-- `Buffer.byteLength`, the JSON of an object, and `new Date(raw).toISOString()`, where that is a date.
pub record Platform (Value : Type 0) : Type 0 where
  pub byte_length : Text → ℕ
  pub stringify : List (Text × Value) → Json
  pub stringify_row : LogRow → Text
  pub iso_date : Timestamp Value → Option Text
  pub hostname : Text

abbrev pub msg_max_chars : ℕ
msg_max_chars = 8000

abbrev pub meta_max_bytes : ℕ
meta_max_bytes = 8000

abbrev pub clipped : Text → Text
clipped s = if ltb msg_max_chars (length s) then take msg_max_chars s else s

-- `coerceMessage`
unfoldable pub coerce_message : Message → Text
coerce_message (Message.text s) = clipped s
coerce_message (Message.other (Json.json s) shown) = clipped s
coerce_message (Message.other Json.no_json shown) = clipped shown
coerce_message (Message.other Json.throws shown) = clipped shown

-- `ENVELOPE_KEYS`
abbrev pub envelope_keys : List Text
envelope_keys = map codes ("level" ∷ "message" ∷ "timestamp" ∷ "service" ∷ "env" ∷ "requestId" ∷ [])

-- `str`
abbrev pub str : Option Text → Option Text
str none = none
str (some []) = none
str (some (c ∷ s)) = some (c ∷ s)

module _ {Value : Type 0} (platform : Platform Value) where
  -- `buildMetadata`: the entries of the object, when there is one
  abbrev pub build_metadata : List (Text × Value) → List (Text × Value)
  build_metadata = filter λ (key, value). not (any (text_eq key) envelope_keys)

  -- `capMetadata` of an object; `[]` is undefined
  unfoldable pub cap_metadata : List (Text × Value) → Option Metadata
  cap_metadata [] = none
  cap_metadata (e ∷ es) = elim (platform.stringify (e ∷ es)) [
    | Json.throws ↦ some Metadata.unserializable
    | Json.no_json ↦ none
    | Json.json s ↦
        if ltb meta_max_bytes (platform.byte_length s)
        then some (Metadata.truncated (platform.byte_length s))
        else some (Metadata.parsed s)
  ]

  -- `normalizeTs`, with the current time as it is written
  abbrev pub normalize_ts : Text → Option (Timestamp Value) → Text
  normalize_ts now none = now
  normalize_ts now (some s) = elim (platform.iso_date s) [ none ↦ now | some t ↦ t ]

  abbrev pub level_of : Option Text → Text
  level_of none = codes "info"
  level_of (some s) = s

  -- The row of `enqueue`, with a random key
  unfoldable pub row_of : Text → Text → Info Value → LogRow
  unfolding coerce_message cap_metadata
  row_of now dedup_key info = record {
    level = level_of info.level;
    message = coerce_message info.message;
    ts = normalize_ts now info.timestamp;
    request_id = str info.request_id;
    host = platform.hostname;
    dedup_key = dedup_key;
    metadata = cap_metadata (build_metadata info.entries);
  }

  -- `approxRowBytes`
  abbrev pub approx_row_bytes : LogRow → ℕ
  approx_row_bytes row = platform.byte_length (platform.stringify_row row) + 1
