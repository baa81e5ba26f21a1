-- ===== src/Fetcher/Tests.antt =====
-- A fetch that is redirected once, and one that is sent to an internal address.

use elegance_shawls.Base.{
  String, [], if◌then◌else◌, false, inl, inr, none, refl, some, str_eq, suc, true, zero, ℕ, ◌∷◌,
  ◌≡◌, ◌<>◌,
}
use elegance_shawls.Fetcher.Policy.{
  FetchError, IpAddress, Network, UrlParts, is_metadata, unmapped, is_multicast,
  is_allowed_image_url,
}
use elegance_shawls.Fetcher.Transfer.{Ending, Sent}
use elegance_shawls.Fetcher.Redirects.{Request, SafeFetcher, fetch}
use elegance_shawls.Fetcher.Guarded.{Guarded, fetch-Guarded}

abbrev https : String → UrlParts
https host = record {
  scheme = "https";
  username = none;
  password = none;
  hostname = some host;
  port = none;
}

abbrev network : Network
network = record {
  urlsplit = λ url.
      if str_eq url "https://evil.com/" then some (https "evil.com") else some (https "shop.com");
  urljoin = λ base location. some location;
  pinned = λ url literal. "https://" <> literal <> "/";
  canonical = λ t. t;
  ip_address = λ t.
      if str_eq t "8.8.8.8"
      then some (IpAddress.v4 134744072)
      else some (IpAddress.v6 281473533782526);
  is_global = λ ip. true;
}

abbrev moved : String → Sent
moved location = Sent.answered (record {
  status = 302;
  location = some location;
  content_type = "";
  declared = none;
  chunks = [];
  ending = Ending.finished;
})

abbrev found : Sent
found = Sent.answered (record {
  status = 200;
  location = none;
  content_type = "text/html";
  declared = some 3;
  chunks = (60 ∷ 62 ∷ []) ∷ (10 ∷ []) ∷ [];
  ending = Ending.finished;
})

abbrev sent_to : String → ℕ → Request → Sent
sent_to location zero q = moved location
sent_to location (suc n) q = found

abbrev fetcher : String → String → SafeFetcher
fetcher location address = record {
  network = network;
  policy = record {
    domain = "shop.com";
    authorized = true;
    image_hosts = "images.com" ∷ [];
    extra_hosts = [];
  };
  max_bytes = 3;
  content_types = "text/html" ∷ [];
  resolver = λ hop host. inr (address ∷ []);
  send = sent_to location;
}

abbrev request_to : String → Request
request_to url = record {
  url = url;
  host = "shop.com";
  address = "8.8.8.8";
  pinned_url = "https://8.8.8.8/";
}

followed : fetch (fetcher "https://shop.com/b" "8.8.8.8") 1 "https://shop.com/a" ≡ (
  request_to "https://shop.com/a" ∷ request_to "https://shop.com/b" ∷ [],
  inr (record { url = "https://shop.com/b"; status = 200; body = 60 ∷ 62 ∷ 10 ∷ [] }),
)
unfolding fetch
followed = refl

-- A redirect to another host is not followed.
left_site : fetch (fetcher "https://evil.com/" "8.8.8.8") 1 "https://shop.com/a" ≡ (
  request_to "https://shop.com/a" ∷ [],
  inl (FetchError.unsafe_url "Host is not on the source allowlist"),
)
unfolding fetch
left_site = refl

too_many :
    (fetch (fetcher "https://shop.com/b" "8.8.8.8") 0 "https://shop.com/a").1
    ≡ inl (FetchError.fetch_error "Too many redirects" false)
unfolding fetch
too_many = refl

-- ::ffff:169.254.169.254 is the metadata service.
mapped_metadata : is_metadata (unmapped (IpAddress.v6 281473533782526)) ≡ true
mapped_metadata = refl

images : is_allowed_image_url network "https://evil.com/" (fetcher "" "").policy ≡ false
unfolding is_allowed_image_url
images = refl

multicast : is_multicast (IpAddress.v4 3758096385) ≡ true
multicast = refl

fetch-Guarded_example :
    Guarded
      (fetcher "https://shop.com/b" "8.8.8.8")
      2
      (fetch (fetcher "https://shop.com/b" "8.8.8.8") 1 "https://shop.com/a")
fetch-Guarded_example =
    fetch-Guarded (fetcher "https://shop.com/b" "8.8.8.8") 1 "https://shop.com/a"
