-- ===== src/Jobs/Tests.antt =====
-- Runs of the job operations, and the theorems at concrete tables.

use elegance_shawls.Jobs.Leases.{
  complete_job, completed, fail_job, recover_expired_leases, is_owned,
}
use elegance_shawls.Jobs.Retries.{create_job_twice, Failed, fail_job-Failed}
use elegance_shawls.Jobs.Claiming.{Idle, Picked, claim_next_exact}
use elegance_shawls.Jobs.Queue.{
  claim_next, claimed, create_job, find_key, first_due, idempotency_key_for, new_job,
}
use elegance_shawls.Jobs.History.{Reach, Reach-IsValid, apply, Op}
use elegance_shawls.Jobs.Validity.{IsValidTable}
use elegance_shawls.Jobs.Row.{IngestionJob, JobSettings, Jobs, Outcome, find_job}
use elegance_shawls.Jobs.Protection.{Holds, finished_fixed, lease_protected}
use elegance_shawls.Base.{
  Distinct, String, [], arith, false, find, none, refl, replace, some, true, update_where, ◌∷◌, ◌≡◌,
  ◌⊎◌,
}

abbrev settings : JobSettings
settings = record { job_max_attempts = 3; job_lease_seconds = 120; job_backoff_seconds = 30 }

abbrev plain : String → String
plain text = text

abbrev waiting : IngestionJob
waiting = new_job settings 1 "primary" "/products/a" "k1" none 100

abbrev running : IngestionJob
running = claimed settings "w1" 100 (new_job settings 2 "primary" "/products/b" "k2" none 90)

abbrev done : IngestionJob
done =
    completed (record { staged_product_id = 7; outcome = Outcome.created }) 95
      (record (claimed settings "w2" 90 (new_job settings 3 "primary" "/products/c" "k3" none 80)) {
        attempts = 2;
      })

abbrev table : Jobs
table = waiting ∷ running ∷ done ∷ []

create_two :
    (create_job plain settings 5 "primary" "/products/a" none none 7 []).1
    ≡ new_job settings 5 "primary" "/products/a" "primary\n/products/a" none 7
unfolding create_job find_key idempotency_key_for
create_two = refl

claims_waiting :
    (claim_next settings "w3" 150 none (λ k. false) table).1
    ≡ some (claimed settings "w3" 150 waiting)
unfolding claim_next first_due update_where find replace
claims_waiting = refl

-- A lease that ran out is recovered, and the old holder's report is dropped.
late_report :
    (complete_job 2 "w1"
      (record { staged_product_id = 8; outcome = Outcome.updated })
      300
      (recover_expired_leases settings 221 (λ k. false) table).0).1
    ≡ none
unfolding complete_job recover_expired_leases update_where find replace
late_report = refl

Distinct-table : Distinct (λ j. j.id) table
unfolding find
Distinct-table = (refl, (refl, (refl, tt)))

Reach-IsValid_example :
    Distinct
      (λ j. j.id)
      (apply plain settings (Op.create 1 "primary" "/products/a" none none 100) [])
    × IsValidTable (apply plain settings (Op.create 1 "primary" "/products/a" none none 100) [])
unfolding find
Reach-IsValid_example =
    Reach-IsValid plain settings (omega arith)
      (Reach.next (Op.create 1 "primary" "/products/a" none none 100) Reach.start refl)

claim_next_exact_example :
    Idle settings "w3" 150 none (λ k. false) table
    ⊎ ((j : IngestionJob) × Picked settings "w3" 150 none (λ k. false) table j)
claim_next_exact_example = claim_next_exact settings "w3" 150 none (λ k. false) table Distinct-table

lease_protected_example :
    (j' : IngestionJob) × (find_job 2
        (apply plain settings (Op.fail 2 "w9" "timeout" true 130) table)
      ≡ some j')
    × Holds "w1" 220 running j'
unfolding find
lease_protected_example =
    lease_protected plain settings (Op.fail 2 "w9" "timeout" true 130) table 2 220 "w1"
      {j = running} Distinct-table refl
      (record { running = refl; owner = refl; lease = refl; attempts = refl; result = refl }) refl

finished_fixed_example : find_job 3 (apply plain settings (Op.cancel 3 130) table) ≡ some done
unfolding find
finished_fixed_example =
    finished_fixed plain settings (Op.cancel 3 130) table 3 {j = done} Distinct-table refl refl refl

fail_job-Failed_example :
    ((is_owned "w1" running ≡ false)
      × (fail_job settings 2 "w1" "timeout" true 130 table ≡ (table, none)))
    ⊎ ((is_owned "w1" running ≡ true)
        × (j' : IngestionJob) × (find_job 2 (fail_job settings 2 "w1" "timeout" true 130 table).0
            ≡ some j')
        × ((fail_job settings 2 "w1" "timeout" true 130 table).1 ≡ some j')
        × Failed settings "timeout" true 130 running j')
unfolding find
fail_job-Failed_example =
    fail_job-Failed settings 2 "w1" "timeout" true 130 table {j = running} refl

create_job_twice_example :
    create_job plain settings 9 "primary" "/products/z" none none 60
      (create_job plain settings 8 "primary" "/products/z" none (some 5) 50 table).0
    ≡ (
      (create_job plain settings 8 "primary" "/products/z" none (some 5) 50 table).0,
      (create_job plain settings 8 "primary" "/products/z" none (some 5) 50 table).1,
      false,
    )
create_job_twice_example =
    create_job_twice plain settings 8 9 "primary" "/products/z" (some 5) none 50 60 table
