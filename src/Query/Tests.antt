-- ===== src/Query/Tests.antt =====
-- Runs of the query parser, and its theorems at concrete queries.
use elegance_shawls.Query.Kept.{parse_query-word}
use elegance_shawls.Query.Parse.{
  amount, bound_found, collect, item_found, number_found, parse_items, parse_query, report,
  reported,
}
use elegance_shawls.Query.Terms.{
  Item, Kind, Vocabulary, longest_match, match_at, segment, segment_from, term,
}
use elegance_shawls.Query.Bounds.{IsBounded, parse_query-IsBounded}
use elegance_shawls.Base.{
  Bool, List, String, [], contains, false, first_seen, insert_sorted, none, refl, some, sorted_set,
  str_eq, true, ℕ, ◌∷◌, ◌≡◌,
}

abbrev word_item : String → Item
word_item value = record { kind = Kind.word; value = value }

-- "not zari under 4000": a negation of something that is no colour, and an upper bound.
abbrev items : List Item
items =
    record { kind = Kind.neg_before; value = "" }
    ∷ word_item "zari"
    ∷ record { kind = Kind.max_before; value = "" }
    ∷ record { kind = Kind.num; value = "4000" }
    ∷ []

abbrev vocab : Vocabulary
vocab = record {
  terms =
      ("black" ∷ [], record { kind = Kind.color; value = "Black" })
      ∷ ("under" ∷ [], record { kind = Kind.max_before; value = "" })
      ∷ [];
  longest = 1;
}

abbrev tokens : String → List String
tokens text = "black" ∷ "under" ∷ "4000" ∷ "zari" ∷ []

abbrev is_number : String → Bool
is_number text = str_eq text "4000"

abbrev groups : String → ℕ × Bool
groups value = (4000, false)

parsed : parse_query tokens is_number groups vocab (some "black under 4000 zari") ≡ record {
  categories = [];
  colors = "Black" ∷ [];
  exclude_colors = [];
  materials = [];
  min_price = none;
  max_price = some 4000;
  in_stock = false;
  text = "zari" ∷ [];
  unsupported = [];
}
unfolding parse_query parse_items segment segment_from match_at longest_match term collect
    item_found number_found bound_found amount report reported first_seen sorted_set insert_sorted
parsed = refl

parse_query-IsBounded_example :
    IsBounded (parse_query tokens is_number groups vocab (some "black under 4000 zari")).min_price
    × IsBounded (parse_query tokens is_number groups vocab (some "black under 4000 zari")).max_price
parse_query-IsBounded_example =
    parse_query-IsBounded tokens is_number groups vocab (some "black under 4000 zari")

parse_query-word_example :
    contains "zari" (parse_query tokens is_number groups vocab (some "black under 4000 zari")).text
    ≡ true
parse_query-word_example =
    parse_query-word tokens is_number groups vocab "black under 4000 zari" "zari" refl refl refl
