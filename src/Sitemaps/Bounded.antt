-- ===== src/Sitemaps/Bounded.antt =====
-- apps/backend/ingestion/sitemap.py: the discovery ends, and what it returns is within its bounds.
use elegance_shawls.Sitemaps.Fetch.{DiscoveryError}
use mathlib.Core.Path.{subst}
use elegance_shawls.Sitemaps.Discover.{
  Discovery, Entry, Found, Site, SitemapKind, State, add_entries, add_entry, add_product,
  add_sitemap, add_url, has_path, redated, Page, Waiting, add_page, concluded, discover_from,
  discover_products, max_sitemap_depth, next_unseen, visit, Ended,
}
use elegance_shawls.Base.{
  ◌++◌, Bool-cases, List, Option, String, [], arith, eq_iff, false, inl, inr, leb, length, refl,
  str_eq, suc, sym, true-ne-false, ℕ, ◌∙◌, ◌∷◌, ◌≡◌, ◌≤◌, ap, ◌+◌, ◌<◌, Option-cases, inl-ne-inr,
  inr_inj, length-append, ltb, ltb-false→le, not, result-cases, some, zero, ◌⊎◌, ◌==◌,
}

-- No path is twice in the dict.
abbrev pub DistinctPaths : List Found → Type 0
DistinctPaths [] = Unit
DistinctPaths (f ∷ fs) = (has_path f.path fs ≡ false) × DistinctPaths fs

has_path-append :
    (p : String) (new : Found) (fs : List Found)
    → has_path p fs ≡ false
    → str_eq new.path p ≡ false
    → has_path p (fs ++ new ∷ []) ≡ false
has_path-append p new [] e h = ground arith
has_path-append p new (f ∷ fs) e h = ground (arith, has_path-append p new fs)

str_eq_flip : (a b : String) → str_eq a b ≡ false → str_eq b a ≡ false
str_eq_flip a b e = elim (Bool-cases (str_eq b a)) [
  | inl q ↦ absurd (true-ne-false (sym ((eq_iff a b).1 (sym ((eq_iff b a).0 q))) ∙ e))
  | inr q ↦ q
]

DistinctPaths-append :
    (new : Found) (fs : List Found)
    → has_path new.path fs ≡ false
    → DistinctPaths fs
    → DistinctPaths (fs ++ new ∷ [])
DistinctPaths-append new [] e d = (refl, tt)
DistinctPaths-append new (f ∷ fs) e d = (
  has_path-append f.path new fs d.0 (str_eq_flip f.path new.path (ground arith)),
  DistinctPaths-append new fs (ground arith) d.1,
)

has_path-redated :
    (p path : String) (when : Option ℕ) (fs : List Found)
    → has_path p (redated path when fs) ≡ has_path p fs
has_path-redated p path when [] = refl
has_path-redated p path when (f ∷ fs) = elim (Bool-cases (str_eq f.path path)) [
  | inl q ↦ rw q refl
  | inr q ↦ rw (q, has_path-redated p path when fs) refl
]

DistinctPaths-redated :
    (path : String) (when : Option ℕ) (fs : List Found)
    → DistinctPaths fs
    → DistinctPaths (redated path when fs)
DistinctPaths-redated path when [] d = tt
DistinctPaths-redated path when (f ∷ fs) d = elim (Bool-cases (str_eq f.path path)) [
  | inl q ↦ rw q d
  | inr q ↦
      rw q (has_path-redated f.path path when fs ∙ d.0, DistinctPaths-redated path when fs d.1)
]

length-redated :
    (path : String) (when : Option ℕ) (fs : List Found) → length (redated path when fs) ≡ length fs
length-redated path when [] = refl
length-redated path when (f ∷ fs) = elim (Bool-cases (str_eq f.path path)) [
  | inl q ↦ rw q refl
  | inr q ↦ rw q (ap suc (length-redated path when fs))
]

module _ (site : Site) (max_urls : ℕ) where
  -- The state of the loop after so many sitemaps.
  abbrev pub Within : ℕ → Discovery → Type 0
  Within n d = (length d.products ≤ max_urls) × DistinctPaths d.products × (d.sitemaps_fetched ≡ n)

  add_product-Within :
      (path : String) (when : Option ℕ) (n : ℕ) (d d' : Discovery)
      → add_product site max_urls path when d ≡ inr d'
      → Within n d
      → Within n d'
  unfolding add_product
  add_product-Within path when n d d' e (short, distinct, count) =
      elim (Bool-cases (has_path path d.products)) [
        | inl q ↦ subst (Within n) (inr_inj (rw q at e)) (
          omega (arith, short, length-redated path when d.products),
          DistinctPaths-redated path when d.products distinct,
          count,
        )
        | inr q ↦ elim (Bool-cases (leb max_urls (length d.products))) [
          | inl p ↦ absurd (inl-ne-inr (rw (q, p) at e))
          | inr p ↦ subst (Within n) (inr_inj (rw (q, p) at e)) (
            ground (arith, length-append d.products (record { path = path; lastmod = when } ∷ [])),
            DistinctPaths-append (record { path = path; lastmod = when }) d.products q distinct,
            count,
          )
        ]
      ]

  add_page-Within :
      (page : Page) (lastmod : Option String) (n : ℕ) (s s' : State)
      → add_page site max_urls page lastmod s ≡ inr s'
      → Within n s.0
      → Within n s'.0
  unfolding add_page
  add_page-Within Page.unsafe lastmod n s s' e w = absurd (inl-ne-inr e)
  add_page-Within Page.other lastmod n (d, queue) s' e w =
      subst (λ (t : State). Within n t.0) (inr_inj e) w
  add_page-Within (Page.product path) lastmod n (d, queue) s' e w =
      elim (result-cases (add_product site max_urls path (site.parse_lastmod lastmod) d)) [
        | inl (error, q) ↦ absurd (inl-ne-inr (rw (add_page, q) at e))
        | inr (d', q) ↦
            subst (λ (t : State). Within n t.0) (inr_inj (rw (add_page, q) at e))
              (add_product-Within path (site.parse_lastmod lastmod) n d d' q w)
      ]

  add_sitemap-Within :
      (depth : ℕ) (loc : String) (n : ℕ) (s s' : State)
      → add_sitemap site max_urls depth loc s ≡ inr s'
      → Within n s.0
      → Within n s'.0
  unfolding add_sitemap
  add_sitemap-Within depth loc n (d, queue) s' e w = elim (Bool-cases (not (site.is_allowed loc))) [
    | inl q ↦ absurd (inl-ne-inr (rw q at e))
    | inr q ↦ elim (Bool-cases (ltb max_sitemap_depth (depth + 1))) [
      | inl p ↦ absurd (inl-ne-inr (rw (q, p) at e))
      | inr p ↦ elim (Bool-cases (site.is_product_sitemap loc)) [
        | inl r ↦ subst (λ (t : State). Within n t.0) (inr_inj (rw (q, p, r) at e)) w
        | inr r ↦ subst (λ (t : State). Within n t.0) (inr_inj (rw (q, p, r) at e)) w
      ]
    ]
  ]

  add_entry-Within :
      (kind : SitemapKind) (depth : ℕ) (x : Entry) (n : ℕ) (s s' : State)
      → add_entry site max_urls kind depth x s ≡ inr s'
      → Within n s.0
      → Within n s'.0
  unfolding add_url
  add_entry-Within SitemapKind.index depth x n s s' e w = add_sitemap-Within depth x.loc n s s' e w
  add_entry-Within SitemapKind.urlset depth x n s s' e w =
      add_page-Within (site.path_of x.loc) x.lastmod n s s' e w

  add_entries-Within :
      (kind : SitemapKind) (depth : ℕ) (es : List Entry) (n : ℕ) (s s' : State)
      → add_entries site max_urls kind depth es s ≡ inr s'
      → Within n s.0
      → Within n s'.0
  unfolding add_entries
  add_entries-Within kind depth [] n s s' e w = subst (λ t. Within n t.0) (inr_inj e) w
  add_entries-Within kind depth (x ∷ xs) n s s' e w =
      elim (result-cases (add_entry site max_urls kind depth x s)) [
        | inl (error, q) ↦ absurd (inl-ne-inr (rw (add_entries, q) at e))
        | inr (t, q) ↦
            add_entries-Within kind depth xs n t s' (rw (add_entries, q) at e)
              (add_entry-Within kind depth x n s t q w)
      ]

  visit-Within :
      (x : Waiting) (n : ℕ) (s s' : State)
      → visit site max_urls x s ≡ inr s'
      → Within n s.0
      → Within (suc n) s'.0
  unfolding visit
  visit-Within x n (d, queue) s' e (short, distinct, count) =
      elim (result-cases (site.load x.url)) [
        | inl (error, q) ↦ absurd (inl-ne-inr (rw (visit, q) at e))
        | inr (sitemap, q) ↦
            add_entries-Within sitemap.kind x.depth sitemap.entries (suc n) _ s'
              (rw (visit, q) at e) (short, distinct, omega (arith, count))
      ]

  -- What the loop may return: an error or products, after so many fetched sitemaps.
  abbrev pub Yields : ℕ → DiscoveryError ⊎ Discovery → Type 0
  Yields n (inl error) = Unit
  Yields n (inr d) =
      (1 ≤ length d.products)
      × (length d.products ≤ max_urls)
      × DistinctPaths d.products
      × (d.sitemaps_fetched ≡ n)

  abbrev pub Concludes : ℕ → Ended site max_urls → Type 0
  Concludes max_sitemaps (fetched, r) = (length fetched ≤ max_sitemaps) × Yields (length fetched) r

  concluded-Yields : (n : ℕ) (d : Discovery) → Within n d → Yields n (concluded site max_urls d)
  concluded-Yields n d (short, distinct, count) = elim (Bool-cases (length d.products == 0)) [
    | inl q ↦ rw q tt
    | inr q ↦ rw q (ground arith, short, distinct, count)
  ]

  abbrev Outcome : ℕ → Option (Ended site max_urls) → Type 0
  Outcome max_sitemaps o = (r : Ended site max_urls) × (o ≡ some r) × Concludes max_sitemaps r

  discover_from-Outcome :
      (max_sitemaps fuel : ℕ) (seen : List String) (s : State)
      → length seen ≤ max_sitemaps
      → max_sitemaps < fuel + length seen
      → Within (length seen) s.0
      → Outcome max_sitemaps (discover_from site max_urls max_sitemaps fuel seen s)
  unfolding discover_from
  discover_from-Outcome max_sitemaps zero seen s le f w = absurd (omega arith)
  discover_from-Outcome max_sitemaps (suc fuel) seen (d, queue) le f w =
      elim (Option-cases (next_unseen site max_urls seen queue)) [
        | inl q ↦
            rw (discover_from, q)
              ((seen, concluded site max_urls d), refl, (le, concluded-Yields (length seen) d w))
        | inr ((x, later), q) ↦ elim (Bool-cases (ltb max_sitemaps (length (x.url ∷ seen)))) [
          | inl p ↦
              rw (discover_from, q, p)
                ((seen, inl DiscoveryError.too_many_sitemaps), refl, (le, tt))
          | inr p ↦
              let room = ltb-false→le max_sitemaps (length (x.url ∷ seen)) p in
              elim (result-cases (visit site max_urls x (d, later))) [
                | inl (error, r) ↦
                    rw (discover_from, q, p, r) ((x.url ∷ seen, inl error), refl, (room, tt))
                | inr (s', r) ↦
                    rw (discover_from, q, p, r)
                      (discover_from-Outcome max_sitemaps fuel (x.url ∷ seen) s' room (omega arith)
                        (visit-Within x (length seen) (d, later) s' r w))
              ]
        ]
      ]

-- Whatever a source's sitemaps are, cyclic ones included, its discovery ends, and fetched at most
-- `max_sitemaps` sitemaps, whether it ends with an error or not; where it does not, it returns at
-- least one and at most `max_urls` products, each under another path, and the number of the fetched
-- sitemaps.
pub discover_products_total :
    (site : Site) (max_urls : ℕ) (root : String) (max_sitemaps : ℕ)
    → (r : Ended site max_urls) × (discover_products site max_urls root max_sitemaps ≡ some r)
      × Concludes site max_urls max_sitemaps r
unfolding discover_products
discover_products_total site max_urls root max_sitemaps =
    discover_from-Outcome site max_urls max_sitemaps (max_sitemaps + 1) [] _ (omega arith)
      (omega arith) (omega arith, tt, refl)
