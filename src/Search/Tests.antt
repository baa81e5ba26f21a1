-- ===== src/Search/Tests.antt =====
-- The theorems on the search at a concrete catalogue.
use elegance_shawls.Catalogue.Samples.{shawl}
use elegance_shawls.Search.Page.{search_page}
use elegance_shawls.Search.Batches.{remaining}
use elegance_shawls.Search.Complete.{search_page_complete}
use elegance_shawls.Search.Match.{
  evaluate, hits_of, matching_ids, price_ok, product_key, product_ok, product_words, text_ok,
  variant_ok,
}
use elegance_shawls.Query.Terms.{Vocabulary}
use elegance_shawls.Catalogue.Rows.{Product, ProductStatus}
use elegance_shawls.Query.Parse.{ParsedQuery}
use elegance_shawls.Keyset.{Key, after, key_less}
use elegance_shawls.Base.{
  ◌++◌, List, Option, String, [], arith, is_some, none, refl, some, take, true, ℕ, ◌∷◌, ◌≡◌,
}

abbrev words : String → List String
words text = text ∷ []

abbrev no_terms : Vocabulary
no_terms = record { terms = []; longest = 0 }

abbrev pool : List Product
pool =
    shawl 3 30 ProductStatus.active
    ∷ shawl 2 20 ProductStatus.draft
    ∷ shawl 1 10 ProductStatus.active
    ∷ []

abbrev batches : Option Key → ℕ → List Product
batches position n = take n (after key_less product_key position pool)

abbrev cheap : ParsedQuery
cheap = record {
  categories = [];
  colors = [];
  exclude_colors = [];
  materials = [];
  min_price = none;
  max_price = some 6000;
  in_stock = true;
  text = "shawl Black" ∷ [];
  unsupported = [];
}

abbrev too_cheap : ParsedQuery
too_cheap = record cheap { max_price = some 400 }

found_shawl : is_some (evaluate words no_terms cheap (shawl 3 30 ProductStatus.active)) ≡ true
unfolding evaluate matching_ids variant_ok product_ok text_ok product_words price_ok
found_shawl = refl

no_shawl : evaluate words no_terms too_cheap (shawl 3 30 ProductStatus.active) ≡ none
unfolding evaluate matching_ids variant_ok product_ok text_ok product_words price_ok
no_shawl = refl

search_page_complete_example :
    (search_page (evaluate words no_terms cheap) batches cheap 1 none 2 10).0
      ++ remaining
          (evaluate words no_terms cheap)
          pool
          (search_page (evaluate words no_terms cheap) batches cheap 1 none 2 10).1
    ≡ hits_of (evaluate words no_terms cheap) (after key_less product_key none pool)
search_page_complete_example =
    search_page_complete words no_terms cheap pool batches 1 2 10 none
      ((refl, (refl, tt)), ((refl, tt), (tt, tt))) (λ p n. refl) (omega arith) (omega arith) refl
