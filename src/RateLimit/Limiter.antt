-- ===== src/RateLimit/Limiter.antt =====
-- class RateLimitMiddleware of apps/backend/security/rate_limit.py. Times are whole seconds of the
-- monotonic clock; what the Redis counter answers is an argument.
use elegance_shawls.Base.{
  ◌&&◌, ◌+◌, ◌++◌, ◌<>◌, Bool, List, Option, String, [], if◌then◌else◌, false, leb, length, none,
  not, some, str_eq, true, ◌||◌, ℕ, ◌∷◌,
}

-- What the limiter reads of a request: the tests of its path and method, and whether it carries the
-- internal token (`_is_internal`).
pub record Request : Type 0 where
  pub client : String
  pub is_events : Bool
  pub is_search : Bool
  pub admin_path : Bool
  pub is_get : Bool
  pub is_internal : Bool

pub record Limits : Type 0 where
  pub events_rate_limit_per_minute : ℕ
  pub admin_rate_limit_per_minute : ℕ
  pub public_rate_limit_per_minute : ℕ

abbrev pub is_admin : Request → Bool
is_admin r = not r.is_events && not r.is_search && (r.admin_path || not r.is_get)

abbrev pub limit_of : Limits → Request → ℕ
limit_of limits r =
    if r.is_events
    then limits.events_rate_limit_per_minute
    else if is_admin r
    then limits.admin_rate_limit_per_minute
    else limits.public_rate_limit_per_minute

abbrev pub key_of : Request → String
key_of r =
    r.client <> ":" <> (if r.is_events then "events" else if is_admin r then "admin" else "public")

abbrev pub is_exempt : Request → Bool
is_exempt r = not (is_admin r) && not r.is_events && r.is_internal

-- while bucket and bucket[0] <= now - 60: bucket.popleft()
unfoldable pub popleft_old : ℕ → List ℕ → List ℕ
popleft_old now [] = []
popleft_old now (t ∷ ts) = if leb (t + 60) now then popleft_old now ts else t ∷ ts

-- The bucket after a request, and whether it is allowed.
unfoldable pub hit_bucket : ℕ → ℕ → List ℕ → List ℕ × Bool
unfolding popleft_old
hit_bucket now limit bucket =
    let recent = popleft_old now bucket in
    if leb limit (length recent) then (recent, false) else (recent ++ now ∷ [], true)

-- The buckets, by key; a key that is not there has an empty one.
abbrev pub Buckets : Type 0
Buckets = String → List ℕ

-- `_hit_local`
unfoldable pub hit_local : String → ℕ → ℕ → Buckets → Buckets × Bool
unfolding hit_bucket
hit_local key limit now buckets =
    let after_hit = hit_bucket now limit (buckets key) in
    (λ k. if str_eq k key then after_hit.0 else buckets k, after_hit.1)

-- `__call__` on an HTTP request: `shared` is the answer of `_hit_redis`, none while Redis is unavailable.
unfoldable pub handle : Limits → Option Bool → ℕ → Request → Buckets → Buckets × Bool
unfolding hit_local
handle limits shared now r buckets = if is_exempt r then (buckets, true) else elim shared [
  | some allowed ↦ (buckets, allowed)
  | none ↦ hit_local (key_of r) (limit_of limits r) now buckets
]
