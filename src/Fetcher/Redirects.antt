-- ===== src/Fetcher/Redirects.antt =====
-- `SafeFetcher.fetch` of apps/backend/ingestion/safe_fetch.py: the hops from a URL. The requests that
-- are sent are kept beside the result; the wait of the rate limiter is time only.

use elegance_shawls.Base.{
  ◌+◌, ◌==◌, List, String, [], if◌then◌else◌, false, inl, inr, is_text, leb, none, some, suc, true,
  zero, ◌||◌, ℕ, ◌∷◌, ◌⊎◌, ◌<>◌, has_colon,
}
use elegance_shawls.Fetcher.Policy.{FetchError, Network, SourcePolicy, validate_url, resolve_public}
use elegance_shawls.Fetcher.Transfer.{Answer, Sent, get_once, is_redirect}

-- A request: the URL of the hop, its host, the validated address, and the URL that is requested, in which
-- the address stands for the host; the Host header and the TLS name are the host.
pub record Request : Type 0 where
  pub url : String
  pub host : String
  pub address : String
  pub pinned_url : String

-- The page; its text is the body, decoded.
pub record FetchedPage : Type 0 where
  pub url : String
  pub status : ℕ
  pub body : List ℕ

-- A fetcher: its settings, and what the resolver and the client answer at each hop.
pub record SafeFetcher : Type 0 where
  pub network : Network
  pub policy : SourcePolicy
  pub max_bytes : ℕ
  pub content_types : List String
  pub resolver : ℕ → String → FetchError ⊎ List String
  pub send : ℕ → Request → Sent

abbrev pub Fetched : Type 0
Fetched = List Request × (FetchError ⊎ FetchedPage)

module _ (f : SafeFetcher) where
  -- What follows an answer; `onward` is the next hop.
  unfoldable pub settle : String → Answer → (String → Fetched) → Fetched
  settle current a onward =
      if is_redirect a.status
      then elim a.location [
        | none ↦ ([], inl (FetchError.fetch_error "Redirect without Location" false))
        | some location ↦
            if is_text location
            then elim (f.network.urljoin current location) [
              | none ↦ ([], inl FetchError.value_error)
              | some next ↦ onward next
            ]
            else ([], inl (FetchError.fetch_error "Redirect without Location" false))
      ]
      else if a.status == 429 || leb 500 a.status
      then ([], inl (FetchError.source_returned a.status true))
      else if leb 400 a.status
      then ([], inl (FetchError.source_returned a.status false))
      else ([], inr (record { url = current; status = a.status; body = a.body }))

  -- An IPv6 address stands in brackets.
  abbrev pub literal : String → String
  literal address = if has_colon address then "[" <> address <> "]" else address

  abbrev pub request_of : String → String → String → Request
  request_of current host address = record {
    url = current;
    host = host;
    address = address;
    pinned_url = f.network.pinned current (literal address);
  }

  -- A request that is sent, and what follows it.
  unfoldable pub request : ℕ → Request → (String → Fetched) → Fetched
  unfolding settle get_once
  request hop q onward =
      let after : Fetched = elim (get_once f.max_bytes f.content_types (f.send hop q)) [
        | inl e ↦ ([], inl e)
        | inr a ↦ settle q.url a onward
      ] in
      (q ∷ after.0, after.1)

  -- One hop, up to the request.
  unfoldable pub visit : ℕ → String → (String → Fetched) → Fetched
  unfolding request validate_url resolve_public
  visit hop current onward = elim (validate_url f.network current f.policy) [
    | inl e ↦ ([], inl e)
    | inr host ↦ elim (resolve_public f.network (f.resolver hop host)) [
      | inl e ↦ ([], inl e)
      | inr address ↦ request hop (request_of current host address) onward
    ]
  ]

  -- The loop, with the hops that are left.
  unfoldable pub fetch_from : ℕ → ℕ → String → Fetched
  unfolding visit
  fetch_from zero hop current = ([], inl (FetchError.fetch_error "Too many redirects" false))
  fetch_from (suc left) hop current = visit hop current (fetch_from left (hop + 1))

  unfoldable pub fetch : ℕ → String → Fetched
  unfolding fetch_from
  fetch max_redirects url = fetch_from (max_redirects + 1) 0 url
