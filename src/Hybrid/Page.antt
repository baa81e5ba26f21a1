-- ===== src/Hybrid/Page.antt =====
-- `eligible_hits` and `hybrid_page` of apps/backend/search/hybrid.py. `eval` is `evaluate` at the query
-- without its free words, `fetch` is the repository's batch read, and `semantic` gives the distances of
-- hits, where it is available.
use elegance_shawls.Query.Terms.{Vocabulary}
use elegance_shawls.Catalogue.Rows.{Product}
use elegance_shawls.Hybrid.Fusion.{
  Position, Scored, fuse, lexical_ranking, position_less, position_of, semantic_ranking,
}
use elegance_shawls.Base.{
  ◌+◌, ◌++◌, ◌-◌, List, Option, String, [], if◌then◌else◌, length, ltb, map, max, min, none, select,
  some, suc, take, zero, ℕ, ◌∷◌, Bool,
}
use elegance_shawls.Search.Match.{Hit, product_key, is_empty, hits_of, evaluate}
use elegance_shawls.Search.Page.{max_limit}
use elegance_shawls.Query.Parse.{ParsedQuery}
use elegance_shawls.Keyset.{Key}

-- The position behind a batch.
abbrev pub last_row : Option Key → List Product → Option Key
last_row last [] = last
last_row last (p ∷ ps) = last_row (some (product_key p)) ps

module _ (eval : Product → Option Hit) (fetch : Option Key → ℕ → List Product)
    (batch max_scan : ℕ) where
  -- The loop, on fuel; each round with a positive batch examines a row or ends.
  unfoldable pub eligible_from : ℕ → List Hit → ℕ → Option Key → List Hit
  unfolding hits_of
  eligible_from zero hits scanned last = hits
  eligible_from (suc fuel) hits scanned last =
      let n = min batch (max_scan - scanned) in
      let rows = fetch last n in
      let found = hits ++ hits_of eval rows in
      let rest = eligible_from fuel found (scanned + length rows) (last_row last rows) in
      if ltb scanned max_scan then (if ltb (length rows) n then found else rest) else hits

  -- The fuel is one round more than the rows to examine.
  unfoldable pub eligible_hits : List Hit
  unfolding eligible_from
  eligible_hits = eligible_from (max_scan + 1) [] 0 none

abbrev pub last_scored : List Scored → Option Position
last_scored [] = none
last_scored (s ∷ []) = some (position_of s)
last_scored (s ∷ t ∷ ss) = last_scored (t ∷ ss)

abbrev pub is_behind : Position → Scored → Bool
is_behind cursor s = position_less (position_of s) cursor

-- The items behind the cursor.
abbrev pub behind : Option Position → List Scored → List Scored
behind none fused = fused
behind (some cursor) fused = select (is_behind cursor) fused

-- A page of the fused ranking, and the position to continue after.
unfoldable pub page_of : ℕ → List Scored → List Hit × Option Position
page_of limit fused =
    let page = take limit fused in
    (map (λ s. s.hit) page, if ltb limit (length fused) then last_scored page else none)

unfoldable pub near_hits : Option (List Hit → ℕ → ℕ → Option ℕ) → List Hit → ℕ → List Hit
unfolding semantic_ranking
near_hits none hits k = []
near_hits (some semantic) hits k =
    if is_empty hits then [] else semantic_ranking hits (semantic hits k) k

unfoldable pub hybrid_page :
    (String → List String)
    → Vocabulary
    → (Option Key → ℕ → List Product)
    → ParsedQuery
    → Option (List Hit → ℕ → ℕ → Option ℕ)
    → ℕ
    → Option Position
    → ℕ
    → ℕ
    → ℕ
    → ℕ
    → List Hit × Option Position
unfolding evaluate eligible_hits lexical_ranking near_hits fuse page_of
hybrid_page tokenize vocab fetch q semantic limit cursor k_lexical k_semantic max_scan batch =
    let hits =
      eligible_hits (evaluate tokenize vocab (record q { text = [] })) fetch batch max_scan in
    let lexical = lexical_ranking tokenize q hits k_lexical in
    let fused = fuse lexical (near_hits semantic hits k_semantic) in
    if is_empty q.unsupported
    then page_of (max 1 (min limit max_limit)) (behind cursor fused)
    else ([], none)
