-- ===== src/Logs/Limits.antt =====
-- The caps that server/src/config/pulsarLogsTransport.ts puts on one row.
use expense_management_syste.Base.{
  ℕ, ◌≤◌, Option, none, some, List, [], ◌∷◌, arith, Text, length, take, ltb, length-take-le, inl,
  inr, Bool-cases, if◌then◌else◌,
}
use expense_management_syste.Logs.Row.{
  Json, Message, Metadata, Info, Platform, msg_max_chars, meta_max_bytes, clipped, coerce_message,
  build_metadata, cap_metadata, row_of,
}

clip-le : (n : ℕ) (s : Text) → length (if ltb n (length s) then take n s else s) ≤ n
clip-le n s = elim (Bool-cases (ltb n (length s))) [
  | inl long ↦ rw (long) (length-take-le n s)
  | inr short ↦ rw (short) (ground (arith, short))
]

clipped-le : (s : Text) → length (clipped s) ≤ msg_max_chars
clipped-le s = clip-le msg_max_chars s

coerce_message-le : (m : Message) → length (coerce_message m) ≤ msg_max_chars
unfolding coerce_message
coerce_message-le (Message.text s) = clipped-le s
coerce_message-le (Message.other (Json.json s) shown) = clipped-le s
coerce_message-le (Message.other Json.no_json shown) = clipped-le shown
coerce_message-le (Message.other Json.throws shown) = clipped-le shown

module _ {Value : Type 0} (platform : Platform Value) where
  -- Metadata that is kept is within the cap of bytes.
  abbrev pub IsCapped : Option Metadata → Type 0
  IsCapped (some (Metadata.parsed s)) = platform.byte_length s ≤ meta_max_bytes
  IsCapped _ = Unit

  kept-IsCapped :
      (s : Text)
      → (let capped : Option Metadata =
            if ltb meta_max_bytes (platform.byte_length s)
            then some (Metadata.truncated (platform.byte_length s))
            else some (Metadata.parsed s) in
          IsCapped capped)
  kept-IsCapped s = elim (Bool-cases (ltb meta_max_bytes (platform.byte_length s))) [
    | inl long ↦ rw (long) tt
    | inr short ↦ rw (short) (ground (arith, short))
  ]

  cap_metadata-IsCapped : (entries : List (Text × Value)) → IsCapped (cap_metadata platform entries)
  unfolding cap_metadata
  cap_metadata-IsCapped [] = tt
  cap_metadata-IsCapped (e ∷ es) = by_json (platform.stringify (e ∷ es))
    where
      by_json :
          (j : Json)
          → (let capped : Option Metadata = elim j [
            | Json.throws ↦ some Metadata.unserializable
            | Json.no_json ↦ none
            | Json.json s ↦
                if ltb meta_max_bytes (platform.byte_length s)
                then some (Metadata.truncated (platform.byte_length s))
                else some (Metadata.parsed s)
          ] in
              IsCapped capped)
      by_json Json.throws = tt
      by_json Json.no_json = tt
      by_json (Json.json s) = kept-IsCapped s

  -- Whatever is logged, the row's message has at most 8,000 characters, and metadata that it keeps at
  -- most 8,000 bytes as JSON.
  pub row_of-IsCapped :
      (now dedup_key : Text) (info : Info Value)
      → (length (row_of platform now dedup_key info).message ≤ msg_max_chars)
        × IsCapped (row_of platform now dedup_key info).metadata
  unfolding row_of
  row_of-IsCapped now dedup_key info =
      (coerce_message-le info.message, cap_metadata-IsCapped (build_metadata platform info.entries))
