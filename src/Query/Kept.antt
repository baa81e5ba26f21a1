-- ===== src/Query/Kept.antt =====
-- apps/backend/catalog/query.py: nothing of a query is dropped in silence. Words that are not in the
-- vocabulary stay in the text, and operators that attach to nothing are reported.
use mathlib.Core.Path.{subst}
use elegance_shawls.Query.Terms.{
  Item, Kind, Match, Vocabulary, longest_match, match_at, same_tokens, segment, segment_from, term,
}
use elegance_shawls.Query.Parse.{
  Found, collect, is_used, item_found, kind_at, value_at, nothing_found, parse_items, is_kept,
  parse_query,
}
use elegance_shawls.Query.Words.{
  AllAttachable, collect-text, is_used-attachable, item_found-used, contains-last,
}
use elegance_shawls.Base.{
  ◌+◌, Bool, Bool-cases, List, Option, String, [], arith, contains, if◌then◌else◌, false, inl, inr,
  some, suc, sym, true, zero, ℕ, ◌∙◌, ◌∷◌, ◌≡◌, ap, ◌&&◌, ◌<◌, Option-cases, and_true, drop, eq_iff,
  length, length-drop, min, not, refl, select, some_inj, str_eq, take, ◌||◌, ◌≤◌, eq_refl,
}

pub plus_zero : (k : ℕ) → k ≡ k + 0
plus_zero k = omega arith

abbrev pub is_word : Option Kind → Bool
is_word (some Kind.word) = true
is_word _ = false

module _ (groups : String → ℕ × Bool) (items : List Item) where
  -- `rest` are the items from index `i` on.
  abbrev pub From : ℕ → List Item → Type 0
  From i rest = (j : ℕ) → kind_at rest j ≡ kind_at items (j + i)

  pub From-head :
      (i : ℕ) (x : Item) (xs : List Item) → From i (x ∷ xs) → kind_at items i ≡ some x.kind
  From-head i x xs f = let at : 0 + i ≡ i = omega arith in sym (f 0 ∙ ap (kind_at items) at)

  pub From-tail : (i : ℕ) (x : Item) (xs : List Item) → From i (x ∷ xs) → From (suc i) xs
  From-tail i x xs f j =
      let at : suc j + i ≡ j + suc i = omega arith in f (suc j) ∙ ap (kind_at items) at

  round-used :
      (i : ℕ) (x : Item) (found : Found)
      → kind_at items i ≡ some x.kind
      → AllAttachable items found
      → AllAttachable items
          (if is_used i found then found else item_found groups items i x.kind x.value found)
  round-used i x found e v = elim (Bool-cases (is_used i found)) [
    | inl p ↦ rw p v
    | inr p ↦ rw p (item_found-used groups items i x.kind x.value found e v)
  ]

  pub collect-used :
      (rest : List Item) (i : ℕ) (found : Found)
      → From i rest
      → AllAttachable items found
      → AllAttachable items (collect groups items i rest found)
  unfolding collect
  collect-used [] i found f v = v
  collect-used (x ∷ xs) i found f v =
      collect-used xs (suc i) _ (From-tail i x xs f) (round-used i x found (From-head i x xs f) v)

  item_found-word :
      (i : ℕ) (k : Kind) (value : String) (found : Found)
      → is_word (some k) ≡ true
      → contains value (item_found groups items i k value found).text ≡ true
  unfolding item_found
  item_found-word i Kind.word value found w = contains-last value found.text
  item_found-word i k value found w = absurd (ground arith)

  word_found :
      (i : ℕ) (x : Item) (found : Found)
      → kind_at items i ≡ some x.kind
      → AllAttachable items found
      → is_word (some x.kind) ≡ true
      → contains x.value
          (if is_used i found then found else item_found groups items i x.kind x.value found).text
        ≡ true
  word_found i x found e v w = elim (Bool-cases (is_used i found)) [
    | inl p ↦ absurd (ground (arith, is_used-attachable groups items i found.used v p))
    | inr p ↦ rw p (item_found-word i x.kind x.value found w)
  ]

  collect-word :
      (rest : List Item) (i j : ℕ) (found : Found)
      → From i rest
      → AllAttachable items found
      → is_word (kind_at rest j) ≡ true
      → contains (value_at rest j) (collect groups items i rest found).text ≡ true
  unfolding collect
  collect-word [] i j found f v w = absurd (ground arith)
  collect-word (x ∷ xs) i zero found f v w =
      collect-text groups items xs (suc i) x.value _ (word_found i x found (From-head i x xs f) v w)
  collect-word (x ∷ xs) i (suc j) found f v w =
      collect-word xs (suc i) j _ (From-tail i x xs f) (round-used i x found (From-head i x xs f) v)
        w

parse_items-word :
    (groups : String → ℕ × Bool) (items : List Item) (j : ℕ)
    → is_word (kind_at items j) ≡ true
    → contains (value_at items j) (parse_items groups items).text ≡ true
unfolding parse_items
parse_items-word groups items j w =
    collect-word groups items items 0 j nothing_found (λ k. ap (kind_at items) (plus_zero k)) tt w

-- Some item is the word `t`.
abbrev has_word : String → List Item → Bool
has_word t [] = false
has_word t (x ∷ xs) = is_word (some x.kind) && str_eq x.value t || has_word t xs

has_word-parsed :
    (groups : String → ℕ × Bool) (t : String) (items : List Item)
    → has_word t items ≡ true
    → contains t (parse_items groups items).text ≡ true
has_word-parsed groups t items h =
    let (j, w, same) = at items h in
    subst (λ u. contains u (parse_items groups items).text ≡ true) same
      (parse_items-word groups items j w)
  where
    at :
        (xs : List Item)
        → has_word t xs ≡ true
        → (j : ℕ) × (is_word (kind_at xs j) ≡ true) × (value_at xs j ≡ t)
    at [] e = absurd (ground arith)
    at (x ∷ xs) e = elim (Bool-cases (is_word (some x.kind) && str_eq x.value t)) [
      | inl p ↦
          let (k, v) = and_true (is_word (some x.kind)) (str_eq x.value t) p in
          (0, k, (eq_iff x.value t).0 v)
      | inr p ↦ let (j, w, same) = at xs (rw p at e) in (suc j, w, same)
    ]

has_word-kept :
    (t : String) (xs : List Item) → has_word t xs ≡ true → has_word t (select is_kept xs) ≡ true
has_word-kept t [] e = e
has_word-kept t (x ∷ xs) e = elim (Bool-cases (is_kept x)) [
  | inl k ↦ rw k (elim (Bool-cases (is_word (some x.kind) && str_eq x.value t)) [
    | inl p ↦ rw p refl
    | inr p ↦ rw p (has_word-kept t xs (rw p at e))
  ])
  | inr k ↦ rw k (
      has_word-kept t xs (elim (Bool-cases (is_word (some x.kind) && str_eq x.value t)) [
        | inl p ↦
            absurd
              (kept_word x.kind x.value k (and_true (is_word (some x.kind)) (str_eq x.value t) p).0)
        | inr p ↦ rw p at e
      ]))
]
  where
    kept_word :
        (k : Kind) (v : String)
        → is_kept (record { kind = k; value = v }) ≡ false
        → is_word (some k) ≡ true
        → ⊥
    kept_word k v e w = ground arith

or_later : (a b : Bool) → b ≡ true → a || b ≡ true
or_later true b h = refl
or_later false b h = h

-- No phrase of the vocabulary has the token.
abbrev pub is_unknown : String → List (List String × Item) → Bool
is_unknown t [] = true
is_unknown t ((phrase, item) ∷ terms) = not (contains t phrase) && is_unknown t terms

same_tokens-contains :
    (t : String) (us vs : List String) → same_tokens us vs ≡ true → contains t us ≡ contains t vs
same_tokens-contains t [] [] e = refl
same_tokens-contains t [] (v ∷ vs) e = absurd (ground arith)
same_tokens-contains t (u ∷ us) [] e = absurd (ground arith)
same_tokens-contains t (u ∷ us) (v ∷ vs) e =
    let (p, q) = and_true (str_eq u v) (same_tokens us vs) e in
    rw ((eq_iff u v).0 p, same_tokens-contains t us vs q) refl

term-unknown :
    (t : String) (phrase : List String) (terms : List (List String × Item)) {item : Item}
    → is_unknown t terms ≡ true
    → term phrase terms ≡ some item
    → contains t phrase ≡ false
unfolding term
term-unknown t phrase [] u e = absurd (ground arith)
term-unknown t phrase ((p, x) ∷ terms) u e =
    let (here, later) = and_true (not (contains t p)) (is_unknown t terms) u in
    elim (Bool-cases (same_tokens p phrase)) [
      | inl q ↦ sym (same_tokens-contains t p phrase q) ∙ ground arith
      | inr q ↦ term-unknown t phrase terms later (rw q at e)
    ]

longest_match-unknown :
    (t : String) (vocab : Vocabulary) (size : ℕ) (tokens : List String) {m : Match}
    → is_unknown t vocab.terms ≡ true
    → longest_match vocab size tokens ≡ some m
    → (contains t (take m.size tokens) ≡ false) × (0 < m.size)
unfolding longest_match
longest_match-unknown t vocab zero tokens u e = absurd (ground arith)
longest_match-unknown t vocab (suc size) tokens {m} u e =
    elim (Option-cases (term (take (suc size) tokens) vocab.terms)) [
      | inl q ↦ longest_match-unknown t vocab size tokens u (rw (q, longest_match) at e)
      | inr (item, q) ↦
          subst (λ (n : Match). (contains t (take n.size tokens) ≡ false) × (0 < n.size))
            (some_inj (rw (q, longest_match) at e))
            (term-unknown t (take (suc size) tokens) vocab.terms u q, omega arith)
    ]

contains-drop :
    (t : String) (n : ℕ) (tokens : List String)
    → contains t tokens ≡ true
    → contains t (take n tokens) ≡ false
    → contains t (drop n tokens) ≡ true
contains-drop t zero tokens h e = h
contains-drop t (suc n) [] h e = absurd (ground arith)
contains-drop t (suc n) (u ∷ us) h e = contains-drop t n us (ground arith) (ground arith)

-- A token that is no number and of no phrase becomes a word.
segment_from-word :
    (is_number : String → Bool) (vocab : Vocabulary) (t : String) (fuel : ℕ) (tokens : List String)
    → is_number t ≡ false
    → is_unknown t vocab.terms ≡ true
    → length tokens ≤ fuel
    → contains t tokens ≡ true
    → has_word t (segment_from is_number vocab fuel tokens) ≡ true
unfolding segment_from match_at
segment_from-word is_number vocab t zero [] n u f h = absurd (ground arith)
segment_from-word is_number vocab t zero (x ∷ xs) n u f h = absurd (omega arith)
segment_from-word is_number vocab t (suc fuel) [] n u f h = absurd (ground arith)
segment_from-word is_number vocab t (suc fuel) (x ∷ xs) n u f h =
    elim (Option-cases (match_at vocab (x ∷ xs))) [
      | inr (m, e) ↦
          let (apart, positive) =
            longest_match-unknown t vocab (min vocab.longest (length (x ∷ xs))) (x ∷ xs) u e in
          let rest =
            segment_from-word is_number vocab t fuel (drop m.size (x ∷ xs)) n u
              (omega (arith, length-drop m.size (x ∷ xs)))
              (contains-drop t m.size (x ∷ xs) h apart) in
          rw (e, segment_from) (or_later _ _ rest)
      | inl e ↦ elim (Bool-cases (str_eq x t)) [
        | inl p ↦ rw (e, segment_from) (rw ((eq_iff x t).0 p, n, eq_refl t) refl)
        | inr p ↦
            let rest = segment_from-word is_number vocab t fuel xs n u (omega arith) (rw p at h) in
            rw (e, segment_from) (or_later _ _ rest)
      ]
    ]

-- Every token of a query that is no number and occurs in no phrase of the vocabulary is in the text of the
-- parsed query.
pub parse_query-word :
    (tokenize : String → List String) (is_number : String → Bool) (groups : String → ℕ × Bool)
    (vocab : Vocabulary) (query t : String)
    → contains t (tokenize query) ≡ true
    → is_number t ≡ false
    → is_unknown t vocab.terms ≡ true
    → contains t (parse_query tokenize is_number groups vocab (some query)).text ≡ true
unfolding parse_query segment
parse_query-word tokenize is_number groups vocab query t h n u =
    has_word-parsed groups t
      (select is_kept (segment_from is_number vocab (length (tokenize query)) (tokenize query)))
      (has_word-kept t (segment_from is_number vocab (length (tokenize query)) (tokenize query)) (
        segment_from-word is_number vocab t (length (tokenize query)) (tokenize query) n u
          (omega arith) h))
