-- ===== src/Query/Terms.antt =====
-- apps/backend/catalog/query.py: the vocabulary and the greedy segmentation of tokens. Tokens are
-- what `tokenize` returns; it rests on Python's Unicode tables and regular expressions, and is a
-- parameter here.
use elegance_shawls.Base.{
  ◌&&◌, Bool, List, Option, String, [], drop, if◌then◌else◌, false, length, min, none, some, str_eq,
  suc, take, true, zero, ℕ, ◌∷◌,
}

-- The kinds of vocabulary terms, and those of the items that are no terms: `num` and `word`.
pub data Kind : Type 0 where
  category color material in_stock : Kind
  max_before min_before max_after min_after : Kind
  between_start between_joiner currency_words : Kind
  neg_before neg_after stop num word : Kind

abbrev pub is_color : Kind → Bool
is_color Kind.color = true
is_color _ = false

abbrev pub is_material : Kind → Bool
is_material Kind.material = true
is_material _ = false

-- A segment of a query: its kind, and the canonical value or the token itself.
pub record Item : Type 0 where
  pub kind : Kind
  pub value : String

abbrev pub same_tokens : List String → List String → Bool
same_tokens [] [] = true
same_tokens (a ∷ as_) (b ∷ bs) = str_eq a b && same_tokens as_ bs
same_tokens _ _ = false

-- `terms.get(phrase)`.
unfoldable pub term : List String → List (List String × Item) → Option Item
term phrase [] = none
term phrase ((p, item) ∷ terms) = if same_tokens p phrase then some item else term phrase terms

pub record Vocabulary : Type 0 where
  pub terms : List (List String × Item)
  pub longest : ℕ

-- A term that the tokens begin with, and the number of its tokens.
pub record Match : Type 0 where
  pub item : Item
  pub size : ℕ

-- for size in range(size, 0, -1): the longest phrase first.
unfoldable pub longest_match : Vocabulary → ℕ → List String → Option Match
longest_match vocab zero tokens = none
longest_match vocab (suc size) tokens = elim (term (take (suc size) tokens) vocab.terms) [
  | some item ↦ some (record { item = item; size = suc size })
  | none ↦ longest_match vocab size tokens
]

unfoldable pub match_at : Vocabulary → List String → Option Match
unfolding longest_match
match_at vocab tokens = longest_match vocab (min vocab.longest (length tokens)) tokens

-- `is_number` is the test `_NUMBER.match(token)`.
abbrev pub single : (String → Bool) → String → Item
single is_number token = record {
  kind = if is_number token then Kind.num else Kind.word;
  value = token;
}

-- `_segment`: the fuel is the number of tokens, of which each round takes at least one.
unfoldable pub segment_from : (String → Bool) → Vocabulary → ℕ → List String → List Item
segment_from is_number vocab zero tokens = []
segment_from is_number vocab (suc fuel) [] = []
segment_from is_number vocab (suc fuel) (t ∷ ts) = elim (match_at vocab (t ∷ ts)) [
  | some m ↦ m.item ∷ segment_from is_number vocab fuel (drop m.size (t ∷ ts))
  | none ↦ single is_number t ∷ segment_from is_number vocab fuel ts
]

unfoldable pub segment : (String → Bool) → Vocabulary → List String → List Item
segment is_number vocab tokens = segment_from is_number vocab (length tokens) tokens

-- The longest term of a kind that the tokens begin with (`hit and hit[0] == kind`).
longest_of_kind : Vocabulary → (Kind → Bool) → ℕ → List String → Option Match
longest_of_kind vocab is_kind zero tokens = none
longest_of_kind vocab is_kind (suc size) tokens = elim (term (take (suc size) tokens) vocab.terms) [
  | some item ↦
      let rest = longest_of_kind vocab is_kind size tokens in
      if is_kind item.kind then some (record { item = item; size = suc size }) else rest
  | none ↦ longest_of_kind vocab is_kind size tokens
]

-- `Vocabulary.canonical`: the values of a kind found in the tokens of a text, as a set.
unfoldable pub canonical_from : Vocabulary → (Kind → Bool) → ℕ → List String → List String
unfolding longest_of_kind
canonical_from vocab is_kind zero tokens = []
canonical_from vocab is_kind (suc fuel) [] = []
canonical_from vocab is_kind (suc fuel) (t ∷ ts) =
    elim (longest_of_kind vocab is_kind (min vocab.longest (length (t ∷ ts))) (t ∷ ts)) [
      | some m ↦ m.item.value ∷ canonical_from vocab is_kind fuel (drop m.size (t ∷ ts))
      | none ↦ canonical_from vocab is_kind fuel ts
    ]

unfoldable pub canonical :
    (String → List String) → Vocabulary → (Kind → Bool) → Option String → List String
canonical tokenize vocab is_kind none =
    canonical_from vocab is_kind (length (tokenize "")) (tokenize "")
canonical tokenize vocab is_kind (some text) =
    canonical_from vocab is_kind (length (tokenize text)) (tokenize text)
