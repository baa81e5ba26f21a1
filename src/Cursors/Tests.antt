-- ===== src/Cursors/Tests.antt =====
-- The round trip with a codec whose texts are numbers of strokes.
use elegance_shawls.Base.{
  String, arith, if◌then◌else◌, false, refl, some, str_eq, suc, text_length, zero, ℕ, ◌≡◌, ap,
}
use elegance_shawls.Cursors.Roundtrip.{IsLawful, decode_cursor-encode_cursor}
use elegance_shawls.Cursors.Codec.{Codec, Datetime, Document, decode_cursor, encode_cursor, has_dot}

abbrev strokes : ℕ → String
strokes zero = String.[]
strokes (suc n) = String.◌∷◌ "|" (strokes n)

strokes-length : (n : ℕ) → text_length (strokes n) ≡ n
strokes-length zero = refl
strokes-length (suc n) = ap suc (strokes-length n)

abbrev dashes : ℕ → String
dashes zero = String.[]
dashes (suc n) = String.◌∷◌ "-" (dashes n)

-- Strokes, and then dashes.
abbrev marks : ℕ → ℕ → String
marks zero b = dashes b
marks (suc a) b = String.◌∷◌ "|" (marks a b)

abbrev count_of : String → String → ℕ
count_of mark String.[] = 0
count_of mark (String.◌∷◌ c t) =
    let rest = count_of mark t in if str_eq (String.◌∷◌ c String.[]) mark then suc rest else rest

dashes-counts : (b : ℕ) → (count_of "|" (dashes b) ≡ 0) × (count_of "-" (dashes b) ≡ b)
dashes-counts zero = (refl, refl)
dashes-counts (suc b) = let rest = dashes-counts b in (rest.0, ap suc rest.1)

marks-counts : (a b : ℕ) → (count_of "|" (marks a b) ≡ a) × (count_of "-" (marks a b) ≡ b)
marks-counts zero b = dashes-counts b
marks-counts (suc a) b = let rest = marks-counts a b in (ap suc rest.0, rest.1)

dashes-dotless : (b : ℕ) → has_dot (dashes b) ≡ false
dashes-dotless zero = refl
dashes-dotless (suc b) = dashes-dotless b

marks-dotless : (a b : ℕ) → has_dot (marks a b) ≡ false
marks-dotless zero b = dashes-dotless b
marks-dotless (suc a) b = marks-dotless a b

abbrev lengths : Document → ℕ × ℕ
lengths (Document.fields v c i) = (text_length c, text_length i)
lengths Document.other = (0, 0)

abbrev codec : Codec (ℕ × ℕ)
codec = record {
  dump = lengths;
  load = λ p. some (Document.fields 1 (strokes p.0) (strokes p.1));
  encode64 = λ p. marks p.0 p.1;
  decode64 = λ t. some (count_of "|" t, count_of "-" t);
  checksum = λ p. "ok";
  isoformat = strokes;
  fromisoformat = λ t. some (Datetime.aware (text_length t));
  uuid_text = strokes;
  parse_uuid = λ t. some (text_length t);
}

codec-IsLawful : IsLawful codec
codec-IsLawful = record {
  load-dump = λ t i. rw (strokes-length t, strokes-length i) refl;
  decode64-encode64 = λ p. rw ((marks-counts p.0 p.1).0, (marks-counts p.0 p.1).1) refl;
  encode64-dotless = λ p. marks-dotless p.0 p.1;
  checksum-dotless = λ p. refl;
  fromisoformat-isoformat = λ t. ap (λ n. some (Datetime.aware n)) (strokes-length t);
  parse_uuid-uuid_text = λ i. ap some (strokes-length i);
}

decode_cursor-encode_cursor_example :
    (t : ℕ) × (Datetime.aware 3 ≡ Datetime.aware t) × (decode_cursor codec "|||--.ok" ≡ some (t, 2))
unfolding encode_cursor
decode_cursor-encode_cursor_example =
    decode_cursor-encode_cursor codec (Datetime.aware 3) 2 "|||--.ok" codec-IsLawful refl
      (omega arith)
