-- ===== src/Cursors/Roundtrip.antt =====
-- apps/backend/utils/pagination.py: a cursor is read back as the position that it was made of.
use mathlib.Core.Path.{subst}
use elegance_shawls.Cursors.Codec.{
  Codec, Datetime, Document, has_dot, partition, checked, decode_cursor, decode_parts,
  encode_cursor, max_length, payload, position_of, version,
}
use elegance_shawls.Base.{
  ◌<>◌, String, false, some, ℕ, ◌≡◌, arith, refl, str_eq, text_length, ◌∙◌, ◌≤◌, ap, eq_refl,
  is_text, leb, some_inj, sym, true,
}
use Prim.Native.Char.{Char}
use Prim.Native.String.append

-- What the code relies on of Python's libraries: readers undo writers, for JSON on the documents of
-- cursors, and neither base64 nor a hexadecimal checksum has a dot.
pub record IsLawful {Bytes : Type 0} (codec : Codec Bytes) : Type 0 where
  pub load-dump :
      (t i : ℕ)
      → codec.load (payload codec t i)
        ≡ some (Document.fields version (codec.isoformat t) (codec.uuid_text i))
  pub decode64-encode64 : (t : Bytes) → codec.decode64 (codec.encode64 t) ≡ some t
  pub encode64-dotless : (t : Bytes) → has_dot (codec.encode64 t) ≡ false
  pub checksum-dotless : (t : Bytes) → has_dot (codec.checksum t) ≡ false
  pub fromisoformat-isoformat :
      (t : ℕ) → codec.fromisoformat (codec.isoformat t) ≡ some (Datetime.aware t)
  pub parse_uuid-uuid_text : (i : ℕ) → codec.parse_uuid (codec.uuid_text i) ≡ some i

append_nil : (t : String) → (String.[] <> t) ≡ t
append_nil t = λ i. append.nil t i

append_cons : (c : Char) (s t : String) → (String.◌∷◌ c s <> t) ≡ String.◌∷◌ c (s <> t)
append_cons c s t = λ i. append.cons c s t i

-- A body without a dot is all that stands before the first one.
partition-dotted :
    (body sum : String) → has_dot body ≡ false → partition (body <> "." <> sum) ≡ (body, some sum)
unfolding partition
partition-dotted String.[] sum h = ap partition (
    append_nil ("." <> sum)
    ∙ append_cons "." String.[] sum
    ∙ ap (λ t. String.◌∷◌ "." t) (append_nil sum))
partition-dotted (String.◌∷◌ c t) sum h =
    let tail : has_dot t ≡ false = ground (arith, h) in
    let first : str_eq (String.◌∷◌ c String.[]) "." ≡ false = ground (arith, h) in
    ap partition (append_cons c t ("." <> sum)) ∙ rw (first, partition-dotted t sum tail) refl

is_text-dotted : (body sum : String) → is_text (body <> "." <> sum) ≡ true
is_text-dotted String.[] sum = ap is_text (append_nil ("." <> sum) ∙ append_cons "." String.[] sum)
is_text-dotted (String.◌∷◌ c t) sum = ap is_text (append_cons c t ("." <> sum))

module _ {Bytes : Type 0} (codec : Codec Bytes) (lawful : IsLawful codec) (t i : ℕ) where
  position_of-own :
      position_of codec (Document.fields version (codec.isoformat t) (codec.uuid_text i))
      ≡ some (t, i)
  unfolding position_of
  position_of-own =
      rw (position_of, lawful.fromisoformat-isoformat t)
        (rw (lawful.parse_uuid-uuid_text i) (rw (eq_refl (codec.uuid_text i)) refl))

  checked-own :
      checked codec (codec.checksum (payload codec t i)) (some (payload codec t i)) ≡ some (t, i)
  unfolding checked
  checked-own =
      rw (eq_refl (codec.checksum (payload codec t i))) (rw (lawful.load-dump t i) position_of-own)

  decode_parts-own :
      decode_parts codec
        (codec.encode64 (payload codec t i), some (codec.checksum (payload codec t i)))
      ≡ some (t, i)
  unfolding decode_parts
  decode_parts-own =
      rw (lawful.checksum-dotless (payload codec t i), lawful.decode64-encode64 (payload codec t i))
        checked-own

-- If the libraries' readers undo their writers and no body or checksum has a dot, then a cursor of at
-- most 512 characters decodes to exactly the date and the id that it was encoded from.
pub decode_cursor-encode_cursor :
    {Bytes : Type 0} (codec : Codec Bytes) (created_at : Datetime) (row_id : ℕ) (cursor : String)
    → IsLawful codec
    → encode_cursor codec created_at row_id ≡ some cursor
    → text_length cursor ≤ max_length
    → (t : ℕ) × (created_at ≡ Datetime.aware t) × (decode_cursor codec cursor ≡ some (t, row_id))
unfolding encode_cursor decode_cursor
decode_cursor-encode_cursor codec (Datetime.naive t) row_id cursor lawful e short = cc e
decode_cursor-encode_cursor codec (Datetime.aware t) row_id cursor lawful e short =
    let text = payload codec t row_id in
    let body = codec.encode64 text in
    let sum = codec.checksum text in
    let same : body <> "." <> sum ≡ cursor = some_inj e in
    let some_text : is_text cursor ≡ true =
      subst (λ x. is_text x ≡ true) same (is_text-dotted body sum) in
    let fits : leb (text_length cursor) max_length ≡ true = ground (arith, short) in
    let parts : partition cursor ≡ (body, some sum) =
      ap partition (sym same) ∙ partition-dotted body sum (lawful.encode64-dotless text) in
    (t, refl, rw (some_text, fits, parts) (decode_parts-own codec lawful t row_id))
