-- ===== src/Hybrid/Tests.antt =====
-- The hybrid search at a concrete catalogue.
use elegance_shawls.Hybrid.Scanned.{eligible_hits_exact}
use elegance_shawls.Hybrid.Page.{eligible_hits, hybrid_page}
use elegance_shawls.Hybrid.Fusion.{Position, rrf_score}
use elegance_shawls.Hybrid.Sorting.{Pairwise}
use elegance_shawls.Hybrid.Eligible.{IsEligible, hybrid_page-IsEligible}
use elegance_shawls.Hybrid.Ranked.{Apart}
use elegance_shawls.Base.{
  ◌==◌, All, List, Option, String, [], arith, if◌then◌else◌, false, length, none, refl, some, take,
  ℕ, ◌∷◌, ◌≡◌, ◌≤◌,
}
use elegance_shawls.Catalogue.Samples.{shawl}
use elegance_shawls.Search.Match.{Hit, evaluate, hits_of, product_key}
use elegance_shawls.Query.Terms.{Vocabulary}
use elegance_shawls.Catalogue.Rows.{Product, ProductStatus}
use elegance_shawls.Query.Parse.{ParsedQuery}
use elegance_shawls.Keyset.{Key, after, key_less}

abbrev letters : String → List String
letters text = text ∷ []

abbrev no_words : Vocabulary
no_words = record { terms = []; longest = 0 }

abbrev shelf : List Product
shelf =
    shawl 3 30 ProductStatus.active
    ∷ shawl 2 20 ProductStatus.draft
    ∷ shawl 1 10 ProductStatus.active
    ∷ []

abbrev reads : Option Key → ℕ → List Product
reads position n = take n (after key_less product_key position shelf)

abbrev anything : ParsedQuery
anything = record {
  categories = [];
  colors = [];
  exclude_colors = [];
  materials = [];
  min_price = none;
  max_price = none;
  in_stock = false;
  text = [];
  unsupported = [];
}

-- The older product is nearer.
abbrev distances : List Hit → ℕ → ℕ → Option ℕ
distances hits k id = if id == 1 then some 2 else some 7

-- 1 / 61 + 1 / 62 and 1 / 61.
both_ranks : rrf_score (some 1) (some 2) ≡ 32522474881
unfolding rrf_score
both_ranks = refl

one_rank : rrf_score (some 1) none ≡ 16393442623
unfolding rrf_score
one_rank = refl

-- The draft is on no page.
abbrev page : List Hit × Option Position
page = hybrid_page letters no_words reads anything (some distances) 5 none 10 10 100 2

hybrid_page-IsEligible_example :
    All (IsEligible (evaluate letters no_words (record anything { text = [] }))) page.0
    × Pairwise Apart page.0
    × (length page.0 ≤ 50)
hybrid_page-IsEligible_example =
    hybrid_page-IsEligible letters no_words reads anything (some distances) 5 none 10 10 100 2

eligible_hits_exact_example :
    eligible_hits (evaluate letters no_words anything) reads 2 100
    ≡ hits_of (evaluate letters no_words anything) (take 100 shelf)
eligible_hits_exact_example =
    eligible_hits_exact (evaluate letters no_words anything) shelf reads 2 100
      ((refl, (refl, tt)), ((refl, tt), (tt, tt))) (λ p n. refl) (omega arith)
