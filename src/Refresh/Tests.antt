-- ===== src/Refresh/Tests.antt =====
-- The planning and the tally of a run.
use elegance_shawls.Refresh.Tally.{blank, tally}
use elegance_shawls.Refresh.Plan.{ProductSelectionError, select_explicit_products}
use elegance_shawls.Refresh.Accounts.{Counted, IsConsistent, tally-IsConsistent}
use elegance_shawls.Base.{Bool, String, [], false, inl, inr, none, refl, some, true, ◌∷◌, ◌≡◌, ◌⊎◌}
use elegance_shawls.Jobs.Row.{IngestionJob, JobSettings, JobStatus, Jobs}
use elegance_shawls.Jobs.Queue.{new_job}

abbrev keep : Bool → String → ProductSelectionError ⊎ String
keep is_url value = inr value

two_selected :
    select_explicit_products keep ("/products/a" ∷ "/products/b" ∷ []) []
    ≡ inr ("/products/a" ∷ "/products/b" ∷ [])
unfolding select_explicit_products
two_selected = refl

same_twice :
    select_explicit_products keep ("/products/a" ∷ "/products/a" ∷ []) []
    ≡ inl ProductSelectionError.duplicate_product
unfolding select_explicit_products
same_twice = refl

abbrev settings : JobSettings
settings = record { job_max_attempts = 3; job_lease_seconds = 60; job_backoff_seconds = 5 }

abbrev failed_row : IngestionJob
failed_row = record (new_job settings 1 "src" "/products/a" "k" none 10) {
  status = JobStatus.failed;
  last_error = some "Category not allowed: rugs";
  last_error_retryable = some false;
}

abbrev two_jobs : Jobs
two_jobs = failed_row ∷ new_job settings 2 "src" "/products/b" "l" none 10 ∷ []

tally-IsConsistent_example :
    Counted (λ t. true) (λ t. t) two_jobs blank (tally (λ t. true) (λ t. t) two_jobs blank)
    × IsConsistent 2 (tally (λ t. true) (λ t. t) two_jobs blank)
tally-IsConsistent_example = tally-IsConsistent (λ t. true) (λ t. t) two_jobs
