-- ===== src/Fetcher/Guarded.antt =====
-- `SafeFetcher.fetch` of apps/backend/ingestion/safe_fetch.py: which requests are sent, and what a page
-- that is returned is like.
use mathlib.Core.Path.{subst}
use elegance_shawls.Search.Match.{given}
use elegance_shawls.Base.{
  List, String, [], arith, contains, false, inl, inr, is_some, length, some, str_eq, true, ℕ, ◌∷◌,
  ◌≡◌, ◌≤◌, ◌⊎◌, ◌++◌, Bool-cases, Option-cases, is_text, not, ◌||◌, ◌+◌, ◌<◌, ◌==◌, All,
  inl-ne-inr, inr_inj, leb, result-cases, suc, zero, joined, refl,
}
use elegance_shawls.Fetcher.Policy.{
  FetchError, Network, SourcePolicy, UrlParts, check_parts, validate_url, resolve_public, hosts,
  host_of, is_default_port, is_public_address,
}
use elegance_shawls.Fetcher.Transfer.{
  Answer, Response, Sent, Ending, get_once, is_redirect, read_chunks, read_body, read_response,
}
use elegance_shawls.Fetcher.Redirects.{
  Request, FetchedPage, SafeFetcher, Fetched, settle, request, visit, fetch_from, fetch, literal,
}

-- An https URL without credentials, on the default port of an allowed host.
pub record IsAllowed (net : Network) (policy : SourcePolicy) (url host : String) : Type 0 where
  pub authorized : policy.authorized ≡ true
  pub parts : UrlParts
  pub read : net.urlsplit url ≡ some parts
  pub secure : str_eq parts.scheme "https" ≡ true
  pub anonymous : is_some parts.username ≡ false
  pub unlocked : is_some parts.password ≡ false
  pub standard : is_default_port parts.port ≡ true
  pub named : host_of net parts ≡ host
  pub listed : contains host (hosts policy) ≡ true

check_parts-inr :
    (net : Network) (policy : SourcePolicy) (parts : UrlParts) (host : String)
    → check_parts net policy parts ≡ inr host
    → (str_eq parts.scheme "https" ≡ true)
      × (is_some parts.username ≡ false)
      × (is_some parts.password ≡ false)
      × (is_default_port parts.port ≡ true)
      × (host_of net parts ≡ host)
      × (contains host (hosts policy) ≡ true)
unfolding check_parts
check_parts-inr net policy parts host e = ground arith

validate_url-IsAllowed :
    (net : Network) (policy : SourcePolicy) (url host : String)
    → validate_url net url policy ≡ inr host
    → IsAllowed net policy url host
unfolding validate_url
validate_url-IsAllowed net policy url host e =
    elim (Bool-cases (not (is_text policy.domain) || not policy.authorized)) [
      | inl closed ↦ absurd (cc (rw (closed, validate_url) at e))
      | inr opened ↦ elim (Option-cases (net.urlsplit url)) [
        | inl nothing ↦ absurd (cc (rw (opened, nothing, validate_url) at e))
        | inr (parts, found) ↦
            let (secure, anonymous, unlocked, standard, named, listed) =
              check_parts-inr net policy parts host (rw (opened, found, validate_url) at e) in
            record {
              authorized = ground arith;
              parts = parts;
              read = found;
              secure = secure;
              anonymous = anonymous;
              unlocked = unlocked;
              standard = standard;
              named = named;
              listed = listed;
            }
      ]
    ]

resolve_public-public :
    (net : Network) (found : FetchError ⊎ List String) (address : String)
    → resolve_public net found ≡ inr address
    → is_public_address net address ≡ true
unfolding resolve_public
resolve_public-public net (inl x) address e = ground arith
resolve_public-public net (inr []) address e = ground arith
resolve_public-public net (inr (a ∷ others)) address e = ground arith

read_chunks-le :
    (bound : ℕ) (e : Ending) (cs : List (List ℕ)) (read body : List ℕ)
    → length read ≤ bound
    → read_chunks bound e cs read ≡ inr body
    → length body ≤ bound
unfolding read_chunks
read_chunks-le bound Ending.finished [] read body h q = ground arith
read_chunks-le bound Ending.read_timeout [] read body h q = ground arith
read_chunks-le bound (Ending.read_failed name) [] read body h q = ground arith
read_chunks-le bound Ending.finished (c ∷ cs) read body h q =
    ground (arith, read_chunks-le bound Ending.finished cs (read ++ c) body)
read_chunks-le bound Ending.read_timeout (c ∷ cs) read body h q =
    ground (arith, read_chunks-le bound Ending.read_timeout cs (read ++ c) body)
read_chunks-le bound (Ending.read_failed name) (c ∷ cs) read body h q =
    ground (arith, read_chunks-le bound (Ending.read_failed name) cs (read ++ c) body)

read_body-le :
    (bound : ℕ) (r : Response) (a : Answer) → read_body bound r ≡ inr a → length a.body ≤ bound
unfolding read_body
read_body-le bound r a q = elim (result-cases (read_chunks bound r.ending r.chunks [])) [
  | inl (e, same) ↦ absurd (inl-ne-inr (rw (same, read_body) at q))
  | inr (body, same) ↦
      let kept = inr_inj (rw (same, read_body) at q) in
      subst (λ (k : Answer). length k.body ≤ bound) kept
        (read_chunks-le bound r.ending r.chunks [] body (omega arith) same)
]

get_once-le :
    (bound : ℕ) (types : List String) (s : Sent) (a : Answer)
    → get_once bound types s ≡ inr a
    → length a.body ≤ bound
unfolding get_once read_response
get_once-le bound types Sent.timed_out a q = ground arith
get_once-le bound types (Sent.transport_error name) a q = ground arith
get_once-le bound types (Sent.answered r) a q = ground (arith, read_body-le bound r a)

-- A request that the policy lets pass, to an address that is public.
pub record IsGuarded (f : SafeFetcher) (q : Request) : Type 0 where
  pub allowed : IsAllowed f.network f.policy q.url q.host
  pub public : is_public_address f.network q.address ≡ true
  pub pinned : q.pinned_url ≡ f.network.pinned q.url (literal f q.address)

-- A page comes from an answer that is neither a redirect nor an error, and keeps the bound on its bytes.
abbrev pub IsWithin : ℕ → FetchError ⊎ FetchedPage → Type 0
IsWithin bound (inl e) = Unit {0}
IsWithin bound (inr p) = (length p.body ≤ bound) × (p.status < 400) × (is_redirect p.status ≡ false)

-- What a fetch with so many hops left comes to.
pub record Guarded (f : SafeFetcher) (left : ℕ) (r : Fetched) : Type 0 where
  pub each : All (IsGuarded f) r.0
  pub few : length r.0 ≤ left
  pub within : IsWithin f.max_bytes r.1

stopped : (f : SafeFetcher) (left : ℕ) (e : FetchError) → Guarded f left ([], inl e)
stopped f left e = record { each = tt; few = omega arith; within = tt }

settle-Guarded :
    (f : SafeFetcher) (left : ℕ) (current : String) (a : Answer) (onward : String → Fetched)
    → length a.body ≤ f.max_bytes
    → ((url : String) → Guarded f left (onward url))
    → Guarded f left (settle f current a onward)
unfolding settle
settle-Guarded f left current a onward small ih = elim (Bool-cases (is_redirect a.status)) [
  | inl moved ↦ elim (Option-cases a.location) [
    | inl nowhere ↦ rw (moved, nowhere, settle) (stopped f left _)
    | inr (location, there) ↦ elim (Bool-cases (is_text location)) [
      | inl given ↦ elim (Option-cases (f.network.urljoin current location)) [
        | inl malformed ↦ rw (moved, there, given, malformed, settle) (stopped f left _)
        | inr (next, joined) ↦ rw (moved, there, given, joined, settle) (ih next)
      ]
      | inr empty ↦ rw (moved, there, empty, settle) (stopped f left _)
    ]
  ]
  | inr stays ↦ elim (Bool-cases (a.status == 429 || leb 500 a.status)) [
    | inl later ↦ rw (stays, later, settle) (stopped f left _)
    | inr fine ↦ elim (Bool-cases (leb 400 a.status)) [
      | inl failed ↦ rw (stays, fine, failed, settle) (stopped f left _)
      | inr page ↦
          rw (stays, fine, page, settle)
            (record { each = tt; few = omega arith; within = (small, ground arith, stays) })
    ]
  ]
]

request-Guarded :
    (f : SafeFetcher) (left hop : ℕ) (q : Request) (onward : String → Fetched)
    → IsGuarded f q
    → ((url : String) → Guarded f left (onward url))
    → Guarded f (suc left) (request f hop q onward)
unfolding request
request-Guarded f left hop q onward g ih =
    elim (result-cases (get_once f.max_bytes f.content_types (f.send hop q))) [
      | inl (e, failed) ↦
          rw (failed, request) (record { each = (g, tt); few = omega arith; within = tt })
      | inr (a, answered) ↦
          let rest =
            settle-Guarded f left q.url a onward
              (get_once-le f.max_bytes f.content_types (f.send hop q) a answered) ih in
          rw (answered, request)
            (record { each = (g, rest.each); few = omega (arith, rest.few); within = rest.within })
    ]

visit-Guarded :
    (f : SafeFetcher) (left hop : ℕ) (current : String) (onward : String → Fetched)
    → ((url : String) → Guarded f left (onward url))
    → Guarded f (suc left) (visit f hop current onward)
unfolding visit
visit-Guarded f left hop current onward ih =
    elim (result-cases (validate_url f.network current f.policy)) [
      | inl (e, refused) ↦ rw (refused, visit) (stopped f (suc left) e)
      | inr (host, valid) ↦ elim (result-cases (resolve_public f.network (f.resolver hop host))) [
        | inl (e, unresolved) ↦ rw (valid, unresolved, visit) (stopped f (suc left) e)
        | inr (address, resolved) ↦
            rw (valid, resolved, visit)
              (request-Guarded f left hop _ onward
                (record {
                  allowed = validate_url-IsAllowed f.network f.policy current host valid;
                  public = resolve_public-public f.network (f.resolver hop host) address resolved;
                  pinned = refl;
                })
                ih)
      ]
    ]

fetch_from-Guarded :
    (f : SafeFetcher) (left hop : ℕ) (current : String)
    → Guarded f left (fetch_from f left hop current)
unfolding fetch_from
fetch_from-Guarded f zero hop current = stopped f 0 _
fetch_from-Guarded f (suc left) hop current =
    visit-Guarded f left hop current (fetch_from f left (hop + 1))
      (fetch_from-Guarded f left (hop + 1))

-- Whatever the resolver and the client answer, every request that a fetch sends, redirects included,
-- is for an https URL without credentials on the default port of a host of the authorized source's
-- allowlist, and goes to an address that
-- passes the public-address test, which stands for the host in the requested URL; at most max_redirects + 1
-- requests are sent; and a page that is returned has a status below 400 that is no redirect, and a body
-- of at most max_bytes bytes.
pub fetch-Guarded :
    (f : SafeFetcher) (max_redirects : ℕ) (url : String)
    → Guarded f (max_redirects + 1) (fetch f max_redirects url)
unfolding fetch
fetch-Guarded f max_redirects url = fetch_from-Guarded f (max_redirects + 1) 0 url
