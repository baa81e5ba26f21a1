-- ===== src/Worker/Settled.antt =====
-- apps/backend/ingestion/worker.py: every run ends its job, by what the run came to.
use mathlib.Core.Path.{subst}
use elegance_shawls.Jobs.History.{completed-id, failed_job-id}
use elegance_shawls.Worker.Process.{Outcome, Round, end_run, after_claim, process_next_job}
use elegance_shawls.Base.{
  ◌&&◌, Bool, Distinct, List, Option, Option-cases, String, if◌then◌else◌, false, inl, inr, ltb,
  none, select, some, some-ne-none, some_inj, sym, true, ℕ, ◌∙◌, ◌≡◌, ap, Distinct-map, arith,
  eq_refl, find-update_where_self, update_where_hit,
}
use elegance_shawls.Jobs.Row.{IngestionJob, JobSettings, JobStatus, Jobs, RunResult, clip, find_job}
use elegance_shawls.Jobs.Queue.{claim_next, claimed, first_due, is_due}
use elegance_shawls.Jobs.Leases.{
  complete_job, fail_job, is_owned, completed, failed_job, recover_expired_leases, is_expired,
  recovered,
}
use elegance_shawls.Jobs.Claiming.{claim_next_picks, claim_next_unchanged}

-- The row of a job after its run: succeeded with the result; or, after a failure, retrying if the
-- failure is retryable and attempts are left and else failed, with the error.
abbrev pub Reported : ℕ → Outcome → IngestionJob → IngestionJob → Type 0
Reported attempts_limit (Outcome.finished result) j r =
    (r.status ≡ JobStatus.succeeded) × (r.result ≡ some result)
Reported attempts_limit (Outcome.fetch_error error retryable) j r =
    (r.status ≡ (
      if retryable && ltb j.attempts attempts_limit then JobStatus.retrying else JobStatus.failed))
    × (r.last_error ≡ some (clip error))
Reported attempts_limit (Outcome.source_error error) j r =
    (r.status ≡ JobStatus.failed) × (r.last_error ≡ some (clip error))
Reported attempts_limit Outcome.unexpected j r =
    (r.status ≡ (if ltb j.attempts attempts_limit then JobStatus.retrying else JobStatus.failed))
    × (r.last_error ≡ some (clip "Unexpected internal error"))

-- The returned row is the table's, its lease is given up, and it reports the outcome.
abbrev pub Ended : Outcome → IngestionJob → Jobs × Option IngestionJob → Type 0
Ended outcome j done =
    (r : IngestionJob) × (done.1 ≡ some r)
    × (find_job j.id done.0 ≡ some r)
    × (r.lease_owner ≡ none)
    × (r.attempts ≡ j.attempts)
    × Reported j.max_attempts outcome j r

-- A claimed job is the worker's, and nobody asked to cancel it.
claim_next-owned :
    (settings : JobSettings) (worker_id : String) (now : ℕ) (only_ids : Option (List ℕ))
    (locked : ℕ → Bool) (jobs : Jobs) {j : IngestionJob}
    → Distinct (λ r. r.id) jobs
    → (claim_next settings worker_id now only_ids locked jobs).1 ≡ some j
    → (is_owned worker_id j ≡ true) × (j.cancel_requested ≡ false)
claim_next-owned settings worker_id now only_ids locked jobs {j = j} d e =
    elim (Option-cases (first_due (select (is_due now only_ids locked) jobs))) [
      | inl p ↦ absurd (
          some-ne-none (
            sym e
            ∙ ap (λ (x : Jobs × Option IngestionJob). x.1)
                (claim_next_unchanged settings worker_id now only_ids locked jobs p)))
      | inr (k, p) ↦
          let (whole, due, mem) =
            claim_next_picks settings worker_id now only_ids locked jobs p d in
          let same : claimed settings worker_id now k ≡ j =
            some_inj (sym (ap (λ (x : Jobs × Option IngestionJob). x.1) whole) ∙ e) in
          (
            subst (λ x. is_owned worker_id x ≡ true) same (eq_refl worker_id),
            subst (λ x. x.cancel_requested ≡ false) same (ground (arith, due)),
          )
    ]

module _ (w : Round) where
  fail_job-Ended :
      (j : IngestionJob) (error : String) (retryable : Bool) (jobs : Jobs)
      → find_job j.id jobs ≡ some j
      → is_owned w.worker_id j ≡ true
      → j.cancel_requested ≡ false
      → Ended
          (Outcome.fetch_error error retryable)
          j
          (fail_job w.settings j.id w.worker_id error retryable w.later jobs)
  unfolding fail_job
  fail_job-Ended j error retryable jobs found owned kept =
      let f = failed_job w.settings error retryable w.later in
      let key : IngestionJob → ℕ = λ r. r.id in
      (
        f j,
        ap (λ (x : Jobs × Option IngestionJob). x.1)
            (update_where_hit key j.id (is_owned w.worker_id) f jobs found owned),
        find-update_where_self key j.id (is_owned w.worker_id) f jobs
            (failed_job-id w.settings error retryable w.later) found owned,
        ground arith,
        ground arith,
        (ground arith, ground arith),
      )

  complete_job-Ended :
      (j : IngestionJob) (result : RunResult) (jobs : Jobs)
      → find_job j.id jobs ≡ some j
      → is_owned w.worker_id j ≡ true
      → j.cancel_requested ≡ false
      → Ended (Outcome.finished result) j (complete_job j.id w.worker_id result w.later jobs)
  unfolding complete_job
  complete_job-Ended j result jobs found owned kept =
      let f = completed result w.later in
      let key : IngestionJob → ℕ = λ r. r.id in
      (
        f j,
        ap (λ (x : Jobs × Option IngestionJob). x.1)
            (update_where_hit key j.id (is_owned w.worker_id) f jobs found owned),
        find-update_where_self key j.id (is_owned w.worker_id) f jobs (completed-id result w.later)
            found owned,
        ground arith,
        ground arith,
        (ground arith, ground arith),
      )

  end_run-Ended :
      (j : IngestionJob) (outcome : Outcome) (jobs : Jobs)
      → find_job j.id jobs ≡ some j
      → is_owned w.worker_id j ≡ true
      → j.cancel_requested ≡ false
      → Ended outcome j (end_run w j.id outcome jobs)
  unfolding end_run
  end_run-Ended j (Outcome.finished result) jobs found owned kept =
      complete_job-Ended j result jobs found owned kept
  end_run-Ended j (Outcome.fetch_error error retryable) jobs found owned kept =
      fail_job-Ended j error retryable jobs found owned kept
  end_run-Ended j (Outcome.source_error error) jobs found owned kept =
      fail_job-Ended j error false jobs found owned kept
  end_run-Ended j Outcome.unexpected jobs found owned kept =
      fail_job-Ended j "Unexpected internal error" true jobs found owned kept

  -- The table after the recovery, and what the claim makes of it.
  abbrev pub recovered_jobs : Jobs → Jobs
  recovered_jobs jobs = (recover_expired_leases w.settings w.now w.locked jobs).0

  abbrev pub after_claiming : Jobs → Jobs × Option IngestionJob
  after_claiming jobs =
      claim_next w.settings w.worker_id w.claimed_at w.only_ids w.locked (recovered_jobs jobs)

  recovered_jobs-Distinct :
      (jobs : Jobs) → Distinct (λ r. r.id) jobs → Distinct (λ r. r.id) (recovered_jobs jobs)
  unfolding recover_expired_leases
  recovered_jobs-Distinct jobs d =
      Distinct-map (λ (r : IngestionJob). r.id)
        (λ j. if is_expired w.now w.locked j then recovered w.settings w.now j else j) jobs
        (λ j. ground arith) d

  -- If a job is claimed, and the other sessions leave its row as it is during the run, then the run ends
  -- it, whatever the run returns or raises: the returned row is the table's, its lease is given up and its
  -- attempts are those of the claim; a result makes it succeeded, an error of the source's data makes it
  -- failed, and a fetch error that is retryable or an unexpected error makes it retrying while attempts
  -- are left and failed otherwise, with the error's text.
  pub process_next_job-Ended :
      (jobs : Jobs) (j : IngestionJob)
      → Distinct (λ r. r.id) jobs
      → (after_claiming jobs).1 ≡ some j
      → find_job j.id (w.others (after_claiming jobs).0) ≡ some j
      → Ended (w.run j) j (process_next_job w jobs)
  unfolding process_next_job after_claim
  process_next_job-Ended jobs j d claimed found =
      let own =
        claim_next-owned w.settings w.worker_id w.claimed_at w.only_ids w.locked
          (recovered_jobs jobs) (recovered_jobs-Distinct jobs d) claimed in
      go own (after_claiming jobs) claimed found
    where
      go :
          (is_owned w.worker_id j ≡ true) × (j.cancel_requested ≡ false)
          → (taken : Jobs × Option IngestionJob) → taken.1 ≡ some j
          → find_job j.id (w.others taken.0) ≡ some j
          → Ended (w.run j) j (after_claim w taken)
      go own (t, none) e q = absurd (some-ne-none (sym e))
      go own (t, some k) e q =
          subst (λ x. Ended (w.run j) j (end_run w x.id (w.run x) (w.others t))) (sym (some_inj e))
            (end_run-Ended j (w.run j) (w.others t) q own.0 own.1)
