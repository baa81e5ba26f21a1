-- ===== src/Search/Page.antt =====
-- `search_page` of apps/backend/catalog/search.py: a bounded scan in catalogue order. `fetch` is the
-- repository's batch read, and `eval` is `evaluate` at the query.
use elegance_shawls.Catalogue.Rows.{Product}
use elegance_shawls.Query.Parse.{ParsedQuery}
use elegance_shawls.Keyset.{Key, last_key, key_less}
use elegance_shawls.Search.Match.{Hit, is_empty, product_key}
use elegance_shawls.Base.{
  ◌+◌, ◌++◌, ◌-◌, List, Option, [], if◌then◌else◌, false, length, ltb, max, min, none, some, suc,
  take, true, zero, ℕ, ◌∷◌,
}

abbrev pub max_limit : ℕ
max_limit = 50

-- What the rows of one batch lead to: a full page, or the hits so far, the rows examined and the
-- position behind them.
pub data Scan : Type 0 where
  full : List Hit → Scan
  more : List Hit → ℕ → Option Key → Scan

unfoldable pub scan_rows :
    (Product → Option Hit) → ℕ → List Product → List Hit → ℕ → Option Key → Scan
scan_rows eval limit [] hits scanned last = more hits scanned last
scan_rows eval limit (p ∷ ps) hits scanned last = elim (eval p) [
  | none ↦ scan_rows eval limit ps hits (scanned + 1) (some (product_key p))
  | some h ↦ elim (ltb limit (length (hits ++ h ∷ []))) [
    | true ↦ full (hits ++ h ∷ [])
    | false ↦ scan_rows eval limit ps (hits ++ h ∷ []) (scanned + 1) (some (product_key p))
  ]
]

-- hits[:limit], and the key of the last of them.
unfoldable pub full_page : ℕ → List Hit → List Hit × Option Key
full_page limit hits =
    (take limit hits, last_key key_less (λ h. product_key h.product) (take limit hits))

-- What follows the scan of a batch of `count` rows, of which `n` were asked for.
unfoldable pub settle :
    ℕ → ℕ → ℕ → (List Hit → ℕ → Option Key → List Hit × Option Key) → Scan → List Hit × Option Key
settle limit n count continue (Scan.full found) = full_page limit found
settle limit n count continue (Scan.more found scanned last) = elim (ltb count n) [
  | true ↦ (found, none)
  | false ↦ continue found scanned last
]

module _ (eval : Product → Option Hit) (fetch : Option Key → ℕ → List Product)
    (limit batch max_scan : ℕ) where
  -- The loop, on fuel; each round with a positive batch examines a row or ends.
  unfoldable pub scan_from : ℕ → List Hit → ℕ → Option Key → List Hit × Option Key
  scan_from zero hits scanned last = (hits, last)
  scan_from (suc fuel) hits scanned last = elim (ltb scanned max_scan) [
    | false ↦ (hits, last)
    | true ↦
        let n = min batch (max_scan - scanned) in
        let rows = fetch last n in
        settle limit n (length rows) (scan_from fuel) (scan_rows eval limit rows hits scanned last)
  ]

-- The fuel is one round more than the rows to examine.
unfoldable pub search_page :
    (Product → Option Hit)
    → (Option Key → ℕ → List Product)
    → ParsedQuery
    → ℕ
    → Option Key
    → ℕ
    → ℕ
    → List Hit × Option Key
unfolding scan_from
search_page eval fetch q limit position batch max_scan =
    if is_empty q.unsupported
    then scan_from eval fetch (max 1 (min limit max_limit)) batch max_scan (max_scan + 1) [] 0
        position
    else ([], none)
