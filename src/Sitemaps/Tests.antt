-- ===== src/Sitemaps/Tests.antt =====
-- The discovery over two sitemaps that list each other's product.
use elegance_shawls.Sitemaps.Fetch.{DiscoveryError, FetchFailure, fetch_sitemap}
use elegance_shawls.Sitemaps.Discover.{
  Entry, Page, Site, Sitemap, SitemapKind, add_page, add_product, discover_products, Ended,
}
use elegance_shawls.Sitemaps.Bounded.{Concludes, discover_products_total}
use elegance_shawls.Base.{
  ◌==◌, String, [], if◌then◌else◌, inl, inr, none, not, refl, some, str_eq, true, ◌∷◌, ◌≡◌, ◌⊎◌,
}

abbrev entry : String → Entry
entry loc = record { loc = loc; lastmod = none }

abbrev load_site : String → DiscoveryError ⊎ Sitemap
load_site url =
    if str_eq url "root"
    then inr (record {
      kind = SitemapKind.index;
      entries = entry "products" ∷ entry "root" ∷ entry "blog" ∷ [];
    })
    else inr (record {
      kind = SitemapKind.urlset;
      entries = entry "shawl" ∷ entry "shawl" ∷ entry "about" ∷ [];
    })

abbrev site : Site
site = record {
  load = load_site;
  is_allowed = λ url. true;
  is_product_sitemap = λ url. not (str_eq url "blog");
  path_of = λ url. if str_eq url "shawl" then Page.product url else Page.other;
  parse_lastmod = λ t. none;
}

-- The root that lists itself is fetched once.
found_once :
    discover_products site 10 "root" 5
    ≡ some (
      "products" ∷ "root" ∷ [],
      inr (record {
        products = record { path = "shawl"; lastmod = none } ∷ [];
        duplicates = 1;
        ignored = 2;
        sitemaps_fetched = 2;
      }),
    )
unfolding discover_products add_product add_page
found_once = refl

too_many :
    discover_products site 10 "root" 1 ≡ some ("root" ∷ [], inl DiscoveryError.too_many_sitemaps)
unfolding discover_products
too_many = refl

discover_products_total_example :
    (r : Ended site 10) × (discover_products site 10 "root" 5 ≡ some r) × Concludes site 10 5 r
discover_products_total_example = discover_products_total site 10 "root" 5

retried :
    fetch_sitemap 3 (λ n. if n == 2 then inr "xml" else inl (FetchFailure.fetch_error true))
    ≡ inr "xml"
unfolding fetch_sitemap
retried = refl
