-- ===== src/Fetcher/Policy.antt =====
-- apps/backend/ingestion/safe_fetch.py: the source policy, and the tests of a URL and of an address.
-- Python's urlsplit, ip_address, is_global and the canonical form of a host are arguments.
use elegance_shawls.Base.{
  ◌%◌, ◌&&◌, ◌*◌, ◌+◌, ◌/◌, ◌==◌, Bool, List, Option, String, [], ◌^◌, all, contains, if◌then◌else◌,
  false, inl, inr, is_some, is_text, none, not, some, str_eq, true, ◌||◌, ℕ, ◌∷◌, ◌⊎◌, ◌++◌,
}

-- What a fetch raises: a subclass, or a FetchError with its flag; the message of `source_returned` is
-- "Source returned HTTP" and the status. The ValueError of urljoin, which is no FetchError, passes too.
pub data FetchError : Type 0 where
  unsafe_url : (message : String) → FetchError
  response_too_large value_error : FetchError
  source_returned : (status : ℕ) → (retryable : Bool) → FetchError
  fetch_error : (message : String) → (retryable : Bool) → FetchError

pub record SourcePolicy : Type 0 where
  pub domain : String
  pub authorized : Bool
  pub image_hosts : List String
  pub extra_hosts : List String

abbrev given : List String → List String
given [] = []
given (h ∷ hs) = if is_text h then h ∷ given hs else given hs

-- The property `hosts`: the canonical host and the others, less the empty text.
unfoldable pub hosts : SourcePolicy → List String
hosts policy = given (policy.domain ∷ policy.extra_hosts)

-- What `urlsplit` gives, and the port that is read off it.
pub record UrlParts : Type 0 where
  pub scheme : String
  pub username : Option String
  pub password : Option String
  pub hostname : Option String
  pub port : Option ℕ

pub data IpAddress : Type 0 where
  v4 : (value : ℕ) → IpAddress
  v6 : (value : ℕ) → IpAddress

-- The standard library's part: none where urlsplit or its port, urljoin or ip_address raises ValueError;
-- `pinned` is the URL with another network location, `parts._replace(netloc=…).geturl()`;
-- `canonical` is `.lower().rstrip(".")`, and `is_global` is the property of an address.
pub record Network : Type 0 where
  pub urlsplit : String → Option UrlParts
  pub urljoin : String → String → Option String
  pub pinned : String → String → String
  pub canonical : String → String
  pub ip_address : String → Option IpAddress
  pub is_global : IpAddress → Bool

abbrev pub is_default_port : Option ℕ → Bool
is_default_port none = true
is_default_port (some p) = p == 443

abbrev pub or_empty : Option String → String
or_empty none = ""
or_empty (some t) = t

-- `ip.ipv4_mapped` of ::ffff:0:0/96, and the address itself where there is none.
abbrev pub unmapped : IpAddress → IpAddress
unmapped (v4 value) = v4 value
unmapped (v6 value) = if value / 4294967296 == 65535 then v4 (value % 4294967296) else v6 value

-- METADATA_ADDRESSES: 169.254.169.254 and fd00:ec2::254.
abbrev pub is_metadata : IpAddress → Bool
is_metadata (v4 value) = value == 2852039166
is_metadata (v6 value) = value == 64768 * 2 ^ 112 + 3778 * 2 ^ 96 + 596

-- 224.0.0.0/4 and ff00::/8.
abbrev pub is_multicast : IpAddress → Bool
is_multicast (v4 value) = value / 268435456 == 14
is_multicast (v6 value) = value / 2 ^ 120 == 255

module _ (net : Network) where
  abbrev pub host_of : UrlParts → String
  host_of parts = net.canonical (or_empty parts.hostname)

  -- The guards on the parts, in the source's order.
  unfoldable pub check_parts : SourcePolicy → UrlParts → FetchError ⊎ String
  unfolding hosts
  check_parts policy parts =
      if not (str_eq parts.scheme "https")
      then inl (FetchError.unsafe_url "Only https URLs are allowed")
      else if is_some parts.username || is_some parts.password
      then inl (FetchError.unsafe_url "Credentials in URLs are not allowed")
      else if not (is_default_port parts.port)
      then inl (FetchError.unsafe_url "Non-standard ports are not allowed")
      else if not (contains (host_of parts) (hosts policy))
      then inl (FetchError.unsafe_url "Host is not on the source allowlist")
      else inr (host_of parts)

  unfoldable pub validate_url : String → SourcePolicy → FetchError ⊎ String
  unfolding check_parts
  validate_url url policy =
      if not (is_text policy.domain) || not policy.authorized
      then inl (FetchError.unsafe_url "No authorized ingestion source is configured")
      else elim (net.urlsplit url) [
        | none ↦ inl (FetchError.unsafe_url "Malformed URL")
        | some parts ↦ check_parts policy parts
      ]

  unfoldable pub is_allowed_image_url : String → SourcePolicy → Bool
  unfolding hosts
  is_allowed_image_url url policy = elim (net.urlsplit url) [
    | none ↦ false
    | some parts ↦
        str_eq parts.scheme "https"
        && (not (is_some parts.username)
            && (is_default_port parts.port
                && contains (host_of parts) (hosts policy ++ policy.image_hosts)))
  ]

  abbrev pub is_public_ip : IpAddress → Bool
  is_public_ip ip = not (is_metadata ip) && (net.is_global ip && not (is_multicast ip))

  unfoldable pub is_public_address : String → Bool
  is_public_address address = elim (net.ip_address address) [
    | none ↦ false
    | some ip ↦ is_public_ip (unmapped ip)
  ]

  -- `resolve_public`, on what the resolver raises or answers.
  unfoldable pub resolve_public : FetchError ⊎ List String → FetchError ⊎ String
  unfolding is_public_address
  resolve_public (inl e) = inl e
  resolve_public (inr []) = inl (FetchError.fetch_error "Host did not resolve" true)
  resolve_public (inr (a ∷ others)) =
      if all is_public_address (a ∷ others)
      then inr a
      else inl (FetchError.unsafe_url "Host resolves to a non-public address")
