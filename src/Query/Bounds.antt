-- ===== src/Query/Bounds.antt =====
-- apps/backend/catalog/query.py: the price bounds of a parsed query.
use elegance_shawls.Query.Terms.{Item, Kind, Vocabulary, segment}
use elegance_shawls.Query.Parse.{
  Found, amount, bound_found, holds, is_max, is_range, is_used, item_found, kind_at, number_found,
  operator_of, price_limit, range_found, value_at, collect, is_kept, is_neg_after, is_neg_before,
  kind_before, largest, nothing_found, parse_items, parse_query, smallest,
}
use elegance_shawls.Base.{
  ◌+◌, All, All-append, Bool, Bool-cases, List, Option, Option-cases, String, arith, false, inl,
  inr, none, refl, some, true, ℕ, ◌≡◌, ◌≤◌, [], max, min, select, some_inj, suc, ◌||◌, ◌∷◌,
}

abbrev pub InRange : List ℕ → Type 0
InRange ns = All (λ n. n ≤ price_limit) ns

module _ (groups : String → ℕ × Bool) where
  amount-le : (value : String) {n : ℕ} → amount groups value ≡ some n → n ≤ price_limit
  unfolding amount
  amount-le value e = ground arith

  abbrev PricesInRange : Found → Type 0
  PricesInRange found = InRange found.mins × InRange found.maxs

  range_found-InRange :
      (low high : Option ℕ) (found : Found)
      → ((n : ℕ) → low ≡ some n → n ≤ price_limit)
      → ((n : ℕ) → high ≡ some n → n ≤ price_limit)
      → PricesInRange found
      → PricesInRange (range_found low high found)
  unfolding range_found
  range_found-InRange none high found l h v = v
  range_found-InRange (some a) none found l h v = v
  range_found-InRange (some a) (some b) found l h v =
      let la = l a refl in
      let hb = h b refl in
      (
        All-append (λ n. n ≤ price_limit) found.mins _ v.0 (omega arith, tt),
        All-append (λ n. n ≤ price_limit) found.maxs _ v.1 (omega arith, tt),
      )

  bound_found-InRange :
      (upper : Bool) (n : Option ℕ) (found : Found)
      → ((m : ℕ) → n ≡ some m → m ≤ price_limit)
      → PricesInRange found
      → PricesInRange (bound_found upper n found)
  unfolding bound_found
  bound_found-InRange true none found h v = v
  bound_found-InRange false none found h v = v
  bound_found-InRange true (some n) found h v =
      (v.0, All-append (λ n. n ≤ price_limit) found.maxs _ v.1 (h n refl, tt))
  bound_found-InRange false (some n) found h v =
      (All-append (λ n. n ≤ price_limit) found.mins _ v.0 (h n refl, tt), v.1)

  number_found-InRange :
      (items : List Item) (i : ℕ) (value : String) (found : Found)
      → PricesInRange found
      → PricesInRange (number_found groups items i value found)
  unfolding number_found
  number_found-InRange items i value found v = elim (Bool-cases (is_range items i)) [
    | inl p ↦ rw p (
        range_found-InRange (amount groups value) (amount groups (value_at items (i + 2))) _
          (λ n e. amount-le value e) (λ n e. amount-le (value_at items (i + 2)) e) v)
    | inr p ↦ elim (Option-cases (operator_of items i)) [
      | inl q ↦ rw (p, q, number_found) v
      | inr (op, q) ↦ elim (Bool-cases (is_used op found)) [
        | inl r ↦ rw (p, q, r, number_found) v
        | inr r ↦
            rw (p, q, r, number_found)
              (bound_found-InRange (holds is_max (kind_at items op)) (amount groups value) _
                (λ n e. amount-le value e) v)
      ]
    ]
  ]

  item_found-InRange :
      (items : List Item) (i : ℕ) (k : Kind) (value : String) (found : Found)
      → PricesInRange found
      → PricesInRange (item_found groups items i k value found)
  unfolding item_found
  item_found-InRange items i Kind.num value found v = number_found-InRange items i value found v
  item_found-InRange items i Kind.color value found v =
      elim (Bool-cases
        (holds is_neg_before (kind_before items i) || holds is_neg_after (kind_at items (i + 1)))) [
          | inl p ↦ rw p v
          | inr p ↦ rw p v
        ]
  item_found-InRange items i _ value found v = v

  collect-InRange :
      (items rest : List Item) (i : ℕ) (found : Found)
      → PricesInRange found
      → PricesInRange (collect groups items i rest found)
  unfolding collect
  collect-InRange items [] i found v = v
  collect-InRange items (x ∷ xs) i found v = elim (Bool-cases (is_used i found)) [
    | inl p ↦ rw (p, collect) (collect-InRange items xs (suc i) found v)
    | inr p ↦
        rw (p, collect)
          (collect-InRange items xs (suc i) (item_found groups items i x.kind x.value found)
            (item_found-InRange items i x.kind x.value found v))
  ]

largest-le : (ns : List ℕ) {n : ℕ} → InRange ns → largest ns ≡ some n → n ≤ price_limit
largest-le [] v e = absurd (ground arith)
largest-le (m ∷ ms) {n} v e = elim (Option-cases (largest ms)) [
  | inl q ↦ let same : m ≡ n = some_inj (rw q at e) in rw⁻¹ same v.0
  | inr (k, q) ↦
      let same : max m k ≡ n = some_inj (rw q at e) in
      let tail = largest-le ms v.1 q in let head = v.0 in omega (arith, same)
]

smallest-le : (ns : List ℕ) {n : ℕ} → InRange ns → smallest ns ≡ some n → n ≤ price_limit
smallest-le [] v e = absurd (ground arith)
smallest-le (m ∷ ms) {n} v e = elim (Option-cases (smallest ms)) [
  | inl q ↦ let same : m ≡ n = some_inj (rw q at e) in rw⁻¹ same v.0
  | inr (k, q) ↦
      let same : min m k ≡ n = some_inj (rw q at e) in
      let tail = smallest-le ms v.1 q in let head = v.0 in omega (arith, same)
]

-- A price is absent or within the limit.
abbrev pub IsBounded : Option ℕ → Type 0
IsBounded none = Unit
IsBounded (some n) = n ≤ price_limit

IsBounded-intro : (o : Option ℕ) → ((n : ℕ) → o ≡ some n → n ≤ price_limit) → IsBounded o
IsBounded-intro none h = tt
IsBounded-intro (some n) h = h n refl

-- Whatever the query, the vocabulary and the tokens, the two price bounds of the parsed query are
-- absent or at most 10,000,000: an amount that is larger never becomes a bound.
pub parse_query-IsBounded :
    (tokenize : String → List String) (is_number : String → Bool) (groups : String → ℕ × Bool)
    (vocab : Vocabulary) (query : Option String)
    → IsBounded (parse_query tokenize is_number groups vocab query).min_price
      × IsBounded (parse_query tokenize is_number groups vocab query).max_price
unfolding parse_query parse_items
parse_query-IsBounded tokenize is_number groups vocab query =
    let items =
      select is_kept (segment is_number vocab (tokenize (elim query [ none ↦ "" | some q ↦ q ]))) in
    let v = collect-InRange groups items items 0 nothing_found (tt, tt) in
    (IsBounded-intro _ (λ n e. largest-le _ v.0 e), IsBounded-intro _ (λ n e. smallest-le _ v.1 e))
