-- ===== src/Query/Parse.antt =====
-- `parse_query` of apps/backend/catalog/query.py, over the items of a query: a loop that attaches
-- operators to numbers and collects the constraints, and one that reports what was left unattached.
use elegance_shawls.Query.Terms.{Item, Kind, Vocabulary, is_color, segment}
use elegance_shawls.Base.{
  ◌&&◌, ◌*◌, ◌+◌, ◌++◌, ◌-◌, ◌==◌, Bool, List, Option, String, [], any, if◌then◌else◌, false, leb,
  max, min, none, not, select, some, suc, true, zero, ◌||◌, ℕ, ◌∷◌, first_seen, sorted_set,
}

-- The class ParsedQuery.
pub record ParsedQuery : Type 0 where
  pub categories : List String
  pub colors : List String
  pub exclude_colors : List String
  pub materials : List String
  pub min_price : Option ℕ
  pub max_price : Option ℕ
  pub in_stock : Bool
  pub text : List String
  pub unsupported : List String

abbrev pub price_limit : ℕ
price_limit = 10000000

-- `_amount`: `value` is a token that `_NUMBER` matches, read as digits and an optional k.
unfoldable pub amount : (String → ℕ × Bool) → String → Option ℕ
amount groups value =
    let (digits, thousand) = groups value in
    let n = digits * (if thousand then 1000 else 1) in if leb n price_limit then some n else none

-- The sets and lists that the first loop fills, and the indexes that it has attached.
pub record Found : Type 0 where
  pub category : List String
  pub color : List String
  pub exclude : List String
  pub material : List String
  pub mins : List ℕ
  pub maxs : List ℕ
  pub text : List String
  pub unsupported : List String
  pub in_stock : Bool
  pub used : List ℕ

abbrev pub nothing_found : Found
nothing_found = record {
  category = [];
  color = [];
  exclude = [];
  material = [];
  mins = [];
  maxs = [];
  text = [];
  unsupported = [];
  in_stock = false;
  used = [];
}

-- `kind(idx)`: none outside the items. `before` is `kind(i - 1)`, which is none at 0.
abbrev pub kind_at : List Item → ℕ → Option Kind
kind_at [] i = none
kind_at (x ∷ xs) zero = some x.kind
kind_at (x ∷ xs) (suc i) = kind_at xs i

abbrev pub kind_before : List Item → ℕ → Option Kind
kind_before items zero = none
kind_before items (suc i) = kind_at items i

abbrev pub value_at : List Item → ℕ → String
value_at [] i = ""
value_at (x ∷ xs) zero = x.value
value_at (x ∷ xs) (suc i) = value_at xs i

abbrev pub holds : (Kind → Bool) → Option Kind → Bool
holds p none = false
holds p (some k) = p k

abbrev pub is_between_start : Kind → Bool
is_between_start Kind.between_start = true
is_between_start _ = false

abbrev pub is_between_joiner : Kind → Bool
is_between_joiner Kind.between_joiner = true
is_between_joiner _ = false

abbrev pub is_num : Kind → Bool
is_num Kind.num = true
is_num _ = false

abbrev pub is_prefix_operator : Kind → Bool
is_prefix_operator Kind.max_before = true
is_prefix_operator Kind.min_before = true
is_prefix_operator _ = false

abbrev pub is_suffix_operator : Kind → Bool
is_suffix_operator Kind.max_after = true
is_suffix_operator Kind.min_after = true
is_suffix_operator _ = false

abbrev pub is_max : Kind → Bool
is_max Kind.max_before = true
is_max Kind.max_after = true
is_max _ = false

abbrev pub is_neg_before : Kind → Bool
is_neg_before Kind.neg_before = true
is_neg_before _ = false

abbrev pub is_neg_after : Kind → Bool
is_neg_after Kind.neg_after = true
is_neg_after _ = false

abbrev pub is_used : ℕ → Found → Bool
is_used i found = any (λ k. k == i) found.used

abbrev pub out_of_range : String
out_of_range = "price out of range"

-- Both ends of a range that starts at `i`.
unfoldable pub range_found : Option ℕ → Option ℕ → Found → Found
range_found (some low) (some high) found = record found {
  mins = found.mins ++ min low high ∷ [];
  maxs = found.maxs ++ max low high ∷ [];
}
range_found _ _ found = record found { unsupported = found.unsupported ++ out_of_range ∷ [] }

-- The amount of a number with an operator.
unfoldable pub bound_found : Bool → Option ℕ → Found → Found
bound_found upper none found = record found { unsupported = found.unsupported ++ out_of_range ∷ [] }
bound_found true (some n) found = record found { maxs = found.maxs ++ n ∷ [] }
bound_found false (some n) found = record found { mins = found.mins ++ n ∷ [] }

-- The operator of the number at `i`, before it or else behind it.
abbrev pub operator_of : List Item → ℕ → Option ℕ
operator_of items i =
    if holds is_prefix_operator (kind_before items i)
    then some (i - 1)
    else if holds is_suffix_operator (kind_at items (i + 1))
    then some (i + 1)
    else none

abbrev pub is_range : List Item → ℕ → Bool
is_range items i =
    holds is_between_start (kind_before items i)
    && holds is_between_joiner (kind_at items (i + 1))
    && holds is_num (kind_at items (i + 2))

-- The branch `k == "num"` of the first loop.
unfoldable pub number_found : (String → ℕ × Bool) → List Item → ℕ → String → Found → Found
unfolding range_found bound_found amount
number_found groups items i value found =
    if is_range items i
    then range_found (amount groups value) (amount groups (value_at items (i + 2)))
        (record found { used = (i - 1) ∷ (i + 1) ∷ (i + 2) ∷ found.used })
    else elim (operator_of items i) [
      | none ↦ record found { text = found.text ++ value ∷ [] }
      | some op ↦
          if is_used op found
          then record found { text = found.text ++ value ∷ [] }
          else bound_found (holds is_max (kind_at items op)) (amount groups value)
              (record found { used = op ∷ found.used })
    ]

-- One round of the first loop at an item that is not attached.
unfoldable pub item_found : (String → ℕ × Bool) → List Item → ℕ → Kind → String → Found → Found
unfolding number_found
item_found groups items i Kind.num value found = number_found groups items i value found
item_found groups items i Kind.color value found =
    if holds is_neg_before (kind_before items i) || holds is_neg_after (kind_at items (i + 1))
    then record found { exclude = value ∷ found.exclude }
    else record found { color = value ∷ found.color }
item_found groups items i Kind.category value found = record found {
  category = value ∷ found.category;
}
item_found groups items i Kind.material value found = record found {
  material = value ∷ found.material;
}
item_found groups items i Kind.in_stock value found = record found { in_stock = true }
item_found groups items i Kind.word value found = record found { text = found.text ++ value ∷ [] }
item_found groups items i _ value found = found

-- The first loop, from index `i` on; `items` is the whole query.
unfoldable pub collect : (String → ℕ × Bool) → List Item → ℕ → List Item → Found → Found
unfolding item_found
collect groups items i [] found = found
collect groups items i (x ∷ xs) found =
    collect groups items (suc i) xs
      (if is_used i found then found else item_found groups items i x.kind x.value found)

-- One round of the second loop: what it reports of an item, if anything.
unfoldable pub reported : List Item → Found → ℕ → Kind → Option String
reported items found i k =
    if is_neg_before k && not (holds is_color (kind_at items (i + 1)))
      || is_neg_after k && not (holds is_color (kind_before items i))
    then some "negation is only supported for colours"
    else if (is_prefix_operator k || is_suffix_operator k) && not (is_used i found)
    then some "price operator without a number"
    else if is_between_start k && not (is_used i found)
    then some "incomplete price range"
    else none

abbrev pub with_report : Option String → List String → List String
with_report none reports = reports
with_report (some r) reports = reports ++ r ∷ []

unfoldable pub report : List Item → Found → ℕ → List Item → List String → List String
unfolding reported
report items found i [] reports = reports
report items found i (x ∷ xs) reports =
    report items found (suc i) xs (with_report (reported items found i x.kind) reports)

-- max(mins) and min(maxs), none of nothing.
abbrev pub largest : List ℕ → Option ℕ
largest [] = none
largest (n ∷ ns) = elim (largest ns) [ none ↦ some n | some m ↦ some (max n m) ]

abbrev pub smallest : List ℕ → Option ℕ
smallest [] = none
smallest (n ∷ ns) = elim (smallest ns) [ none ↦ some n | some m ↦ some (min n m) ]

-- Stopwords and currency words are left out of the items.
abbrev pub is_kept : Item → Bool
is_kept item = elim item.kind [ Kind.stop ↦ false | Kind.currency_words ↦ false | _ ↦ true ]

unfoldable pub parse_items : (String → ℕ × Bool) → List Item → ParsedQuery
unfolding collect report
parse_items groups items =
    let found = collect groups items 0 items nothing_found in
    record {
      categories = sorted_set found.category;
      colors = sorted_set found.color;
      exclude_colors = sorted_set found.exclude;
      materials = sorted_set found.material;
      min_price = largest found.mins;
      max_price = smallest found.maxs;
      in_stock = found.in_stock;
      text = found.text;
      unsupported = first_seen [] (report items found 0 items found.unsupported);
    }

-- `parse_query`, of a query that may be missing.
unfoldable pub parse_query :
    (String → List String)
    → (String → Bool)
    → (String → ℕ × Bool)
    → Vocabulary
    → Option String
    → ParsedQuery
unfolding parse_items segment
parse_query tokenize is_number groups vocab query =
    let text : String = elim query [ none ↦ "" | some q ↦ q ] in
    parse_items groups (select is_kept (segment is_number vocab (tokenize text)))
