-- ===== src/Sitemaps/Fetch.antt =====
-- `_fetch_sitemap` of apps/backend/ingestion/sitemap.py: a sitemap is fetched with retries. What the
-- fetcher answers to each attempt is an argument; the pause between attempts is the caller's clock.
use elegance_shawls.Base.{
  ◌&&◌, ◌+◌, Bool, String, if◌then◌else◌, inl, inr, ltb, max, suc, zero, ℕ, ◌⊎◌,
}

-- The codes of the class DiscoveryError.
pub data DiscoveryError : Type 0 where
  source_policy_violation sitemap_unavailable sitemap_invalid too_many_sitemaps : DiscoveryError
  discovery_limit_exceeded sitemap_empty : DiscoveryError

-- What a fetch raises: UnsafeURL, or a FetchError that may be retryable.
pub data FetchFailure : Type 0 where
  unsafe_url : FetchFailure
  fetch_error : (retryable : Bool) → FetchFailure

abbrev pub Fetched : Type 0
Fetched = FetchFailure ⊎ String

-- The attempts from a number on; the fuel is the number of attempts that are left.
unfoldable pub fetch_from : (ℕ → Fetched) → ℕ → ℕ → DiscoveryError ⊎ String
fetch_from answer zero attempt = inl DiscoveryError.sitemap_unavailable
fetch_from answer (suc left) attempt =
    let rest = fetch_from answer left (attempt + 1) in
    elim (answer attempt) [
      | inr text ↦ inr text
      | inl (FetchFailure.unsafe_url) ↦ inl DiscoveryError.source_policy_violation
      | inl (FetchFailure.fetch_error retryable) ↦
          if retryable && ltb 0 left then rest else inl DiscoveryError.sitemap_unavailable
    ]

-- `_fetch_sitemap`, for so many attempts of a job.
unfoldable pub fetch_sitemap : ℕ → (ℕ → Fetched) → DiscoveryError ⊎ String
unfolding fetch_from
fetch_sitemap attempts_limit answer = fetch_from answer (max attempts_limit 1) 1
