-- ===== src/Fx/Rates.antt =====
-- `parse_rate` and `get_pkr_rate` of apps/backend/ingestion/fx.py. A rate is in millionths, as a natural
-- number; the answers of the two hosts, the form of a date and of a code, and the cleaned code are
-- arguments.
use elegance_shawls.Base.{
  ◌&&◌, ◌*◌, ◌-◌, ◌==◌, Bool, List, Option, String, [], if◌then◌else◌, leb, ltb, none, not, some,
  str_eq, ℕ, ◌∷◌,
}

-- What a response holds in the place of the rate.
pub data RateField : Type 0 where
  missing_rate not_a_number not_finite not_positive : RateField
  number : (millionths : ℕ) → RateField

-- What it holds in the place of the date.
pub data DateField : Type 0 where
  missing_date not_a_text : DateField
  date_text : (date : String) → DateField

pub record Payload : Type 0 where
  pub rate : RateField
  pub date : DateField

pub record Rate : Type 0 where
  pub code : String
  pub rate : ℕ
  pub date : String

-- 1e7, in millionths.
abbrev pub rate_bound : ℕ
rate_bound = 10000000 * 1000000

-- MAX_BYTES, CACHE_SECONDS and TARGET.
abbrev pub max_bytes : ℕ
max_bytes = 500000

abbrev pub cache_seconds : ℕ
cache_seconds = 6 * 3600

abbrev pub target : String
target = "pkr"

-- The plausible rate of a field.
unfoldable pub plausible_rate : RateField → Option ℕ
plausible_rate (RateField.number n) = if ltb 0 n && ltb n rate_bound then some n else none
plausible_rate _ = none

-- The answer of a host: an error of the connection or of its JSON, or a response.
pub data Response : Type 0 where
  failed : Response
  response : (http_status : ℕ) → (bytes : ℕ) → (payload : Payload) → Response

-- An entry of `_cache`.
pub record Cached : Type 0 where
  pub code : String
  pub at : ℕ
  pub rate : Rate

abbrev pub Cache : Type 0
Cache = List Cached

unfoldable pub cached_rate : String → Cache → Option Cached
cached_rate code [] = none
cached_rate code (e ∷ es) = if str_eq e.code code then some e else cached_rate code es

unfoldable pub store : Cached → Cache → Cache
store new [] = new ∷ []
store new (e ∷ es) =
    let rest = store new es in if str_eq e.code new.code then new ∷ es else e ∷ rest

abbrev pub is_fresh : ℕ → Cached → Bool
is_fresh now e = ltb (now - e.at) cache_seconds

module _ (is_date : String → Bool) where
  -- A rate with its date.
  unfoldable pub dated : String → ℕ → DateField → Option Rate
  dated code n DateField.missing_date = none
  dated code n DateField.not_a_text = none
  dated code n (DateField.date_text date) =
      if is_date date then some (record { code = code; rate = n; date = date }) else none

  -- `parse_rate`; `none` is RateUnavailable.
  unfoldable pub parse_rate : String → Payload → Option Rate
  unfolding plausible_rate dated
  parse_rate code payload = elim (plausible_rate payload.rate) [
    | none ↦ none
    | some n ↦ dated code n payload.date
  ]

  -- One host.
  unfoldable pub rate_of : String → Response → Option Rate
  unfolding parse_rate
  rate_of code Response.failed = none
  rate_of code (Response.response http_status bytes payload) =
      if http_status == 200 && leb bytes max_bytes then parse_rate code payload else none

  -- The hosts, one after the other.
  unfoldable pub first_rate : String → List Response → Option Rate
  unfolding rate_of
  first_rate code [] = none
  first_rate code (r ∷ rs) = elim (rate_of code r) [
    | some rate ↦ some rate
    | none ↦ first_rate code rs
  ]

  unfoldable pub fetch_rate : String → List Response → ℕ → Cache → Cache × Option Rate
  unfolding first_rate store
  fetch_rate code responses later cache = elim (first_rate code responses) [
    | none ↦ (cache, none)
    | some rate ↦ (store (record { code = code; at = later; rate = rate }) cache, some rate)
  ]

  -- The cache, else the hosts.
  unfoldable pub look_up : String → List Response → ℕ → ℕ → Cache → Cache × Option Rate
  unfolding fetch_rate cached_rate
  look_up code responses now later cache = elim (cached_rate code cache) [
    | none ↦ fetch_rate code responses later cache
    | some e ↦
        if is_fresh now e then (cache, some e.rate) else fetch_rate code responses later cache
  ]

  -- `get_pkr_rate`; `tidy` strips and lowers, `is_code` is the form of a code, and `today` is the date.
  unfoldable pub get_pkr_rate :
      (String → String)
      → (String → Bool)
      → String
      → List Response
      → ℕ
      → ℕ
      → String
      → Cache
      → Cache × Option Rate
  unfolding look_up
  get_pkr_rate tidy is_code today responses now later currency cache =
      let code = tidy currency in
      if not (is_code code)
      then (cache, none)
      else if str_eq code target
      then (cache, some (record { code = code; rate = 1000000; date = today }))
      else look_up code responses now later cache
