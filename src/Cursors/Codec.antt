-- ===== src/Cursors/Codec.antt =====
-- `encode_cursor` and `decode_cursor` of apps/backend/utils/pagination.py. Base64, JSON, SHA-256, ISO
-- dates and UUID texts are Python's; a time is in microseconds.
use elegance_shawls.Base.{
  ◌&&◌, ◌<>◌, ◌==◌, Bool, Option, String, if◌then◌else◌, false, is_text, leb, none, not, some,
  str_eq, text_length, ◌||◌, ℕ,
}

-- VERSION and MAX_LENGTH.
abbrev pub version : ℕ
version = 1

abbrev pub max_length : ℕ
max_length = 512

-- A datetime, with a time zone or without.
pub data Datetime : Type 0 where
  aware naive : (microseconds : ℕ) → Datetime

-- The document of a cursor, and any other that JSON may hold.
pub data Document : Type 0 where
  fields : (v : ℕ) → (c : String) → (i : String) → Document
  other : Document

-- Python's libraries. `encode64` is without the padding and `decode64` adds it; a reader returns `none`
-- where it raises.
pub record Codec (Bytes : Type 0) : Type 0 where
  pub dump : Document → Bytes
  pub load : Bytes → Option Document
  pub encode64 : Bytes → String
  pub decode64 : String → Option Bytes
  pub checksum : Bytes → String
  pub isoformat : ℕ → String
  pub fromisoformat : String → Option Datetime
  pub uuid_text : ℕ → String
  pub parse_uuid : String → Option ℕ

-- `cursor.partition(".")`: what is before the first dot, and what is behind it, if there is one.
unfoldable pub partition : String → String × Option String
partition String.[] = (String.[], none)
partition (String.◌∷◌ c t) =
    let rest = partition t in
    if str_eq (String.◌∷◌ c String.[]) "."
    then (String.[], some t)
    else (String.◌∷◌ c rest.0, rest.1)

abbrev pub has_dot : String → Bool
has_dot String.[] = false
has_dot (String.◌∷◌ c t) = str_eq (String.◌∷◌ c String.[]) "." || has_dot t

module _ {Bytes : Type 0} (codec : Codec Bytes) where
  abbrev pub payload : ℕ → ℕ → Bytes
  payload created_at row_id =
      codec.dump (Document.fields version (codec.isoformat created_at) (codec.uuid_text row_id))

  -- `none` where the ValueError is raised.
  unfoldable pub encode_cursor : Datetime → ℕ → Option String
  encode_cursor (Datetime.naive t) row_id = none
  encode_cursor (Datetime.aware t) row_id =
      let text = payload t row_id in some (codec.encode64 text <> "." <> codec.checksum text)

  -- The date and the id of a document.
  unfoldable pub position_of : Document → Option (ℕ × ℕ)
  position_of Document.other = none
  position_of (Document.fields v c i) =
      if not (v == version) then none else elim (codec.fromisoformat c) [
        | none ↦ none
        | some (Datetime.naive t) ↦ none
        | some (Datetime.aware t) ↦ elim (codec.parse_uuid i) [
          | none ↦ none
          | some row_id ↦ if str_eq (codec.uuid_text row_id) i then some (t, row_id) else none
        ]
      ]

  -- The decoded payload, if the checksum is its own.
  unfoldable pub checked : String → Option Bytes → Option (ℕ × ℕ)
  unfolding position_of
  checked sum none = none
  checked sum (some text) =
      if str_eq sum (codec.checksum text)
      then elim (codec.load text) [ none ↦ none | some document ↦ position_of document ]
      else none

  unfoldable pub decode_parts : String × Option String → Option (ℕ × ℕ)
  unfolding checked
  decode_parts (body, none) = none
  decode_parts (body, some sum) = if has_dot sum then none else checked sum (codec.decode64 body)

  -- `none` where the ValueError is raised.
  unfoldable pub decode_cursor : String → Option (ℕ × ℕ)
  unfolding decode_parts partition
  decode_cursor cursor =
      if is_text cursor && leb (text_length cursor) max_length
      then decode_parts (partition cursor)
      else none
