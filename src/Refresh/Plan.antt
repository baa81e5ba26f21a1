-- ===== src/Refresh/Plan.antt =====
-- The planning of apps/backend/ingestion/refresh.py: the explicit selection of products, which products
-- need a refresh, and their jobs.
use elegance_shawls.Query.Terms.{canonical}
use elegance_shawls.Base.{
  ◌&&◌, ◌++◌, Bool, List, Option, String, [], contains, if◌then◌else◌, false, inl, inr, leb, length,
  ltb, none, not, some, true, ℕ, ◌∷◌, ◌⊎◌,
}
use elegance_shawls.Jobs.Row.{IngestionJob, JobSettings, Jobs, is_claimable, is_finished}
use elegance_shawls.Jobs.Queue.{create_job, requeue_job}

-- MAX_EXPLICIT_PRODUCTS
abbrev pub max_explicit_products : ℕ
max_explicit_products = 5

-- The reasons of the class ProductSelectionError.
pub data ProductSelectionError : Type 0 where
  mixed_selection no_selection too_many_products duplicate_product : ProductSelectionError
  unsafe_product : (message : String) → ProductSelectionError

-- The loop over the values; `canonical` is `_canonical_explicit_product` at the source's policy, for
-- URLs or for paths.
unfoldable pub select_each :
    (String → ProductSelectionError ⊎ String)
    → List String
    → List String
    → ProductSelectionError ⊎ List String
select_each canonical selected [] = inr selected
select_each canonical selected (v ∷ vs) = elim (canonical v) [
  | inl error ↦ inl error
  | inr path ↦ elim (contains path selected) [
    | true ↦ inl ProductSelectionError.duplicate_product
    | false ↦ select_each canonical (selected ++ path ∷ []) vs
  ]
]

abbrev pub is_nil : List String → Bool
is_nil [] = true
is_nil (x ∷ xs) = false

-- `select_explicit_products`: the paths of the discovery.
unfoldable pub select_explicit_products :
    (Bool → String → ProductSelectionError ⊎ String)
    → List String
    → List String
    → ProductSelectionError ⊎ List String
unfolding select_each
select_explicit_products canonical paths urls =
    let is_url = not (is_nil urls) in
    let values = if is_url then urls else paths in
    if not (is_nil paths) && is_url
    then inl ProductSelectionError.mixed_selection
    else if is_nil values
    then inl ProductSelectionError.no_selection
    else if ltb max_explicit_products (length values)
    then inl ProductSelectionError.too_many_products
    else select_each (canonical is_url) [] values

-- `_needs_refresh`; a staged row has the time of its last fetch.
unfoldable pub needs_refresh : Option (Option ℕ) → Option ℕ → Bool
needs_refresh none lastmod = true
needs_refresh (some none) lastmod = true
needs_refresh (some (some fetched)) none = true
needs_refresh (some (some fetched)) (some lastmod) = not (leb lastmod fetched)

-- A job that is there and finished is requeued.
unfoldable pub reuse : ℕ → Jobs × IngestionJob × Bool → Jobs × Option IngestionJob
unfolding requeue_job
reuse now (jobs, job, created) =
    if not created && is_finished job.status then requeue_job job.id now jobs else (jobs, some job)

abbrev pub if_pending : Option IngestionJob → Option IngestionJob
if_pending none = none
if_pending (some job) = if is_claimable job.status then some job else none

-- `_queue`: the table, the pending job, and whether it is a new one.
unfoldable pub queue_product :
    (String → String)
    → JobSettings
    → ℕ
    → String
    → String
    → ℕ
    → Jobs
    → Jobs × Option IngestionJob × Bool
unfolding create_job reuse
queue_product sha256 settings new_id source_id path now jobs =
    let made = create_job sha256 settings new_id source_id path none none now jobs in
    let reused = reuse now made in (reused.0, if_pending reused.1, made.2)
