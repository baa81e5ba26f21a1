-- ===== src/Sitemaps/Discover.antt =====
-- `discover_products` of apps/backend/ingestion/sitemap.py. What is of other parts is an argument: the
-- fetched and parsed sitemap of a URL, the source policy's test of a URL, the canonical path of a
-- product's URL (`none` for other pages), and the date of a text.
use elegance_shawls.Sitemaps.Fetch.{DiscoveryError}
use elegance_shawls.Base.{
  ◌+◌, ◌++◌, Bool, List, Option, String, [], contains, if◌then◌else◌, false, inl, inr, leb, length,
  ltb, max, none, not, some, str_eq, suc, true, zero, ◌||◌, ℕ, ◌∷◌, ◌⊎◌, ◌==◌,
}

-- parse_sitemap: an index of sitemaps, or a set of URLs with the texts of their dates.
pub data SitemapKind : Type 0 where
  index urlset : SitemapKind

pub record Entry : Type 0 where
  pub loc : String
  pub lastmod : Option String

pub record Sitemap : Type 0 where
  pub kind : SitemapKind
  pub entries : List Entry

-- A product's path, and its newest date.
pub record Found : Type 0 where
  pub path : String
  pub lastmod : Option ℕ

-- The class Discovery; the products are its dict, in the order of insertion.
pub record Discovery : Type 0 where
  pub products : List Found
  pub duplicates : ℕ
  pub ignored : ℕ
  pub sitemaps_fetched : ℕ

pub record Waiting : Type 0 where
  pub url : String
  pub depth : ℕ

-- What canonical_product_path makes of a URL: it raises UnsafeURL, or returns None or a path.
pub data Page : Type 0 where
  unsafe other : Page
  product : (path : String) → Page

-- The parts of other files.
pub record Site : Type 0 where
  pub load : String → DiscoveryError ⊎ Sitemap
  pub is_allowed : String → Bool
  pub is_product_sitemap : String → Bool
  pub path_of : String → Page
  pub parse_lastmod : Option String → Option ℕ

-- MAX_SITEMAP_DEPTH
abbrev pub max_sitemap_depth : ℕ
max_sitemap_depth = 2

-- max((d for d in (known, when) if d), default=None)
abbrev pub newest : Option ℕ → Option ℕ → Option ℕ
newest none b = b
newest (some a) none = some a
newest (some a) (some b) = some (max a b)

abbrev pub has_path : String → List Found → Bool
has_path path [] = false
has_path path (f ∷ fs) = str_eq f.path path || has_path path fs

abbrev pub redated : String → Option ℕ → List Found → List Found
redated path when [] = []
redated path when (f ∷ fs) =
    let rest = redated path when fs in
    if str_eq f.path path then record f { lastmod = newest f.lastmod when } ∷ fs else f ∷ rest

abbrev pub State : Type 0
State = Discovery × List Waiting

module _ (site : Site) (max_urls : ℕ) where
  -- A product's path with its date.
  unfoldable pub add_product : String → Option ℕ → Discovery → DiscoveryError ⊎ Discovery
  add_product path when d =
      if has_path path d.products
      then inr (record d { products = redated path when d.products; duplicates = d.duplicates + 1 })
      else if leb max_urls (length d.products)
      then inl DiscoveryError.discovery_limit_exceeded
      else inr (record d { products = d.products ++ record { path = path; lastmod = when } ∷ [] })

  -- An entry of an index.
  unfoldable pub add_sitemap : ℕ → String → State → DiscoveryError ⊎ State
  add_sitemap depth loc (d, queue) =
      if not (site.is_allowed loc)
      then inl DiscoveryError.source_policy_violation
      else if ltb max_sitemap_depth (depth + 1)
      then inl DiscoveryError.sitemap_invalid
      else if site.is_product_sitemap loc
      then inr (d, queue ++ record { url = loc; depth = depth + 1 } ∷ [])
      else inr (record d { ignored = d.ignored + 1 }, queue)

  unfoldable pub add_page : Page → Option String → State → DiscoveryError ⊎ State
  unfolding add_product
  add_page Page.unsafe lastmod s = inl DiscoveryError.source_policy_violation
  add_page Page.other lastmod (d, queue) = inr (record d { ignored = d.ignored + 1 }, queue)
  add_page (Page.product path) lastmod (d, queue) =
      elim (add_product path (site.parse_lastmod lastmod) d) [
        | inl error ↦ inl error
        | inr d' ↦ inr (d', queue)
      ]

  -- An entry of a set of URLs.
  unfoldable pub add_url : Entry → State → DiscoveryError ⊎ State
  unfolding add_page
  add_url e s = add_page (site.path_of e.loc) e.lastmod s

  abbrev pub add_entry : SitemapKind → ℕ → Entry → State → DiscoveryError ⊎ State
  add_entry SitemapKind.index depth e s = add_sitemap depth e.loc s
  add_entry SitemapKind.urlset depth e s = add_url e s

  unfoldable pub add_entries : SitemapKind → ℕ → List Entry → State → DiscoveryError ⊎ State
  unfolding add_sitemap add_url
  add_entries kind depth [] s = inr s
  add_entries kind depth (e ∷ es) s = elim (add_entry kind depth e s) [
    | inl error ↦ inl error
    | inr s' ↦ add_entries kind depth es s'
  ]

  -- `queue.pop(0)` past the URLs that were seen: the next, and the queue behind it.
  unfoldable pub next_unseen : List String → List Waiting → Option (Waiting × List Waiting)
  next_unseen seen [] = none
  next_unseen seen (w ∷ ws) =
      let rest = next_unseen seen ws in if contains w.url seen then rest else some (w, ws)

  abbrev pub counted : Discovery → Discovery
  counted d = record d { sitemaps_fetched = d.sitemaps_fetched + 1 }

  -- The sitemap of a URL is fetched and read.
  unfoldable pub visit : Waiting → State → DiscoveryError ⊎ State
  unfolding add_entries
  visit w (d, queue) = elim (site.load w.url) [
    | inl error ↦ inl error
    | inr sitemap ↦ add_entries sitemap.kind w.depth sitemap.entries (counted d, queue)
  ]

  abbrev pub concluded : Discovery → DiscoveryError ⊎ Discovery
  concluded d = if length d.products == 0 then inl DiscoveryError.sitemap_empty else inr d

  -- The URLs whose sitemap was fetched, and what the loop returns or raises.
  abbrev pub Ended : Type 0
  Ended = List String × (DiscoveryError ⊎ Discovery)

  -- The loop, one unseen URL in each round; `none` when the fuel is out. All of `seen` was fetched.
  unfoldable pub discover_from : ℕ → ℕ → List String → State → Option Ended
  unfolding next_unseen visit
  discover_from max_sitemaps zero seen s = none
  discover_from max_sitemaps (suc fuel) seen (d, queue) = elim (next_unseen seen queue) [
    | none ↦ some (seen, concluded d)
    | some (w, later) ↦ elim (ltb max_sitemaps (length (w.url ∷ seen))) [
      | true ↦ some (seen, inl DiscoveryError.too_many_sitemaps)
      | false ↦ elim (visit w (d, later)) [
        | inl error ↦ some (w.url ∷ seen, inl error)
        | inr s' ↦ discover_from max_sitemaps fuel (w.url ∷ seen) s'
      ]
    ]
  ]

  abbrev pub nothing_found : Discovery
  nothing_found = record { products = []; duplicates = 0; ignored = 0; sitemaps_fetched = 0 }

  -- The fuel is one round more than the sitemaps that may be fetched.
  unfoldable pub discover_products : String → ℕ → Option Ended
  unfolding discover_from
  discover_products root max_sitemaps =
      discover_from max_sitemaps (max_sitemaps + 1) []
        (nothing_found, record { url = root; depth = 0 } ∷ [])
