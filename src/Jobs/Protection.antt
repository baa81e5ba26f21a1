-- ===== src/Jobs/Protection.antt =====
-- What an operation of apps/backend/repositories/jobs.py may do to one row, as a relation between
-- the row before and after, and what follows of leases and of finished jobs.
use mathlib.Core.Path.{subst}
use elegance_shawls.Jobs.Claiming.{claim_next_picks, claim_next_unchanged}
use elegance_shawls.Jobs.Queue.{
  claimed, create_job, is_due, requeue_job, requeued, claim_next, find_key, first_due, insert_job,
}
use elegance_shawls.Jobs.Leases.{
  cancel_job, cancel_marked, complete_job, completed, fail_job, failed_job, heartbeat, is_expired,
  is_owned, recover_expired_leases, recovered, renewed,
}
use elegance_shawls.Jobs.History.{
  apply, cancel_marked-id, completed-id, failed_job-id, Op, recovered_or_same-id,
}
use elegance_shawls.Jobs.Row.{
  IngestionJob, JobSettings, Jobs, RunResult, find_job, is_claimable, is_finished, is_running,
  JobStatus,
}
use elegance_shawls.Base.{
  ◌==◌, Bool, Bool-cases, Distinct, List, Option, String, find-update_where, inl, inr, refl, some,
  true, update_where, ◌||◌, ℕ, ◌≡◌, ==_iff, Option-cases, [], arith, eq_iff, false,
  find-append_some, find-map, find-member, find-replace, leb, not, select, some_inj, str_eq, sym,
  ◌∙◌, ◌∷◌, ap, if◌then◌else◌,
}

-- The moves of a row under an operation.
pub data RowStep (settings : JobSettings) (j j' : IngestionJob) : Op → Type 0 where
  stays : {op : Op} → j ≡ j' → RowStep settings j j' op
  requeues :
      {i now : ℕ}
      → is_finished j.status ≡ true
      → requeued now j ≡ j'
      → RowStep settings j j' (Op.requeue i now)
  claims :
      {w : String} {now : ℕ} {only_ids : Option (List ℕ)} {locked : ℕ → Bool}
      → is_due now only_ids locked j ≡ true
      → claimed settings w now j ≡ j'
      → RowStep settings j j' (Op.claim w now only_ids locked)
  renews :
      {i now : ℕ} {w : String}
      → is_owned w j ≡ true
      → renewed settings now j ≡ j'
      → RowStep settings j j' (Op.beat i w now)
  completes :
      {i now : ℕ} {w : String} {result : RunResult}
      → is_owned w j ≡ true
      → completed result now j ≡ j'
      → RowStep settings j j' (Op.complete i w result now)
  fails :
      {i now : ℕ} {w error : String} {retryable : Bool}
      → is_owned w j ≡ true
      → failed_job settings error retryable now j ≡ j'
      → RowStep settings j j' (Op.fail i w error retryable now)
  recovers :
      {now : ℕ} {locked : ℕ → Bool}
      → is_expired now locked j ≡ true
      → recovered settings now j ≡ j'
      → RowStep settings j j' (Op.recover now locked)
  cancels :
      {i now : ℕ}
      → (is_claimable j.status || is_running j.status) ≡ true
      → cancel_marked now j ≡ j'
      → RowStep settings j j' (Op.cancel i now)

-- A row under a conditional update either stays or is rewritten.
update_cases {ℓ} :
    {R : IngestionJob → Type ℓ} (k i : ℕ) (test : IngestionJob → Bool)
    (f : IngestionJob → IngestionJob) (jobs : Jobs) {j : IngestionJob}
    → ((r : IngestionJob) → (f r).id ≡ r.id)
    → find_job i jobs ≡ some j
    → R j
    → (test j ≡ true → R (f j))
    → (j' : IngestionJob) × (find_job i (update_where (λ r. r.id) k test f jobs).0 ≡ some j') × R j'
update_cases k i test f jobs {j} same e stay move =
    let read = find-update_where (λ r. r.id) k i test f jobs same e in
    elim (Bool-cases (k == i)) [
      | inl p ↦ elim (Bool-cases (test j)) [
        | inl q ↦ (f j, rw (p, q) at read, move q)
        | inr q ↦ (j, rw (p, q) at read, stay)
      ]
      | inr p ↦ (j, rw p at read, stay)
    ]

module _ (sha256 : String → String) (settings : JobSettings) where
  find_insert_job :
      (job : IngestionJob) (jobs : Jobs) (i : ℕ) {j : IngestionJob}
      → find_job i jobs ≡ some j
      → find_job i (insert_job job jobs).0 ≡ some j
  unfolding insert_job
  find_insert_job job jobs i e = elim (Option-cases (find_key job.idempotency_key jobs)) [
    | inl p ↦ rw (p, insert_job) (find-append_some (λ r. r.id) i jobs (job ∷ []) e)
    | inr (k, p) ↦ rw (p, insert_job) e
  ]

  claim_next-RowStep :
      (w : String) (now : ℕ) (only_ids : Option (List ℕ)) (locked : ℕ → Bool) (jobs : Jobs) (i : ℕ)
      {j : IngestionJob}
      → Distinct (λ r. r.id) jobs
      → find_job i jobs ≡ some j
      → (j' : IngestionJob) × (find_job i (claim_next settings w now only_ids locked jobs).0
          ≡ some j')
        × RowStep settings j j' (Op.claim w now only_ids locked)
  claim_next-RowStep w now only_ids locked jobs i {j} d e =
      elim (Option-cases (first_due (select (is_due now only_ids locked) jobs))) [
        | inl p ↦ (
          j,
          rw (claim_next_unchanged settings w now only_ids locked jobs p) e,
          RowStep.stays refl,
        )
        | inr (m, p) ↦
            let r = claim_next_picks settings w now only_ids locked jobs p d in
            let read = find-replace (λ k. k.id) m.id i (claimed settings w now m) jobs refl in
            let found : find_job m.id jobs ≡ some m = find-member (λ k. k.id) jobs d r.2 in
            elim (Bool-cases (m.id == i)) [
              | inl q ↦
                  let same : m ≡ j =
                    some_inj
                      (sym found ∙ ap (λ (n : ℕ). find_job n jobs) ((==_iff m.id i).0 q) ∙ e) in
                  (
                    claimed settings w now m,
                    rw r.0 (rw (q, found) at read),
                    RowStep.claims (subst (λ k. is_due now only_ids locked k ≡ true) same r.1)
                        (ap (claimed settings w now) (sym same)),
                  )
              | inr q ↦ (j, rw r.0 ((rw q at read) ∙ e), RowStep.stays refl)
            ]
      ]

  -- Every operation moves every row of the table along `RowStep`, and no row disappears.
  pub apply-RowStep :
      (op : Op) (jobs : Jobs) (i : ℕ) {j : IngestionJob}
      → Distinct (λ r. r.id) jobs
      → find_job i jobs ≡ some j
      → (j' : IngestionJob) × (find_job i (apply sha256 settings op jobs) ≡ some j')
        × RowStep settings j j' op
  unfolding apply create_job requeue_job heartbeat complete_job fail_job recover_expired_leases
      cancel_job
  apply-RowStep (Op.create new_id source_id path key max_attempts now) jobs i {j} d e =
      (j, find_insert_job _ jobs i e, RowStep.stays refl)
  apply-RowStep (Op.requeue k now) jobs i {j} d e =
      update_cases k i _ (requeued now) jobs (λ r. refl) e (RowStep.stays refl)
        (λ q. RowStep.requeues q refl)
  apply-RowStep (Op.claim w now only_ids locked) jobs i {j} d e =
      claim_next-RowStep w now only_ids locked jobs i d e
  apply-RowStep (Op.beat k w now) jobs i {j} d e =
      update_cases k i _ (renewed settings now) jobs (λ r. refl) e (RowStep.stays refl)
        (λ q. RowStep.renews q refl)
  apply-RowStep (Op.complete k w result now) jobs i {j} d e =
      update_cases k i _ (completed result now) jobs (completed-id result now) e
        (RowStep.stays refl) (λ q. RowStep.completes q refl)
  apply-RowStep (Op.fail k w error retryable now) jobs i {j} d e =
      update_cases k i _ (failed_job settings error retryable now) jobs
        (failed_job-id settings error retryable now) e (RowStep.stays refl)
        (λ q. RowStep.fails q refl)
  apply-RowStep (Op.recover now locked) jobs i {j} d e =
      let read =
        find-map (λ r. r.id) (λ r. if is_expired now locked r then recovered settings now r else r)
          i jobs (recovered_or_same-id settings now locked) e in
      elim (Bool-cases (is_expired now locked j)) [
        | inl q ↦ (recovered settings now j, rw q at read, RowStep.recovers q refl)
        | inr q ↦ (j, rw q at read, RowStep.stays refl)
      ]
  apply-RowStep (Op.cancel k now) jobs i {j} d e =
      update_cases k i _ (cancel_marked now) jobs (cancel_marked-id now) e (RowStep.stays refl)
        (λ q. RowStep.cancels q refl)

-- Another worker's operation, or one that does not end leases; the recovery of leases only at a time
-- by which the lease `t` has not expired.
abbrev pub is_foreign : String → ℕ → Op → Bool
is_foreign w t (Op.beat i v now) = not (str_eq v w)
is_foreign w t (Op.complete i v result now) = not (str_eq v w)
is_foreign w t (Op.fail i v error retryable now) = not (str_eq v w)
is_foreign w t (Op.recover now locked) = leb now t
is_foreign w t _ = true

-- The row still runs under the lease `t` of `w`, with the same attempts and result.
pub record Holds (w : String) (t : ℕ) (j j' : IngestionJob) : Type 0 where
  pub running : j'.status ≡ JobStatus.running
  pub owner : j'.lease_owner ≡ some w
  pub lease : j'.lease_expires_at ≡ some t
  pub attempts : j'.attempts ≡ j.attempts
  pub result : j'.result ≡ j.result

RowStep-Holds :
    (settings : JobSettings) (w : String) (t : ℕ) {op : Op} {j j' : IngestionJob}
    → RowStep settings j j' op
    → Holds w t j j
    → is_foreign w t op ≡ true
    → Holds w t j j'
RowStep-Holds settings w t (RowStep.stays e) h f = subst (Holds w t _) e h
RowStep-Holds settings w t (RowStep.requeues q e) h f = absurd (ground arith)
RowStep-Holds settings w t (RowStep.claims q e) h f = absurd (ground arith)
RowStep-Holds settings w t (RowStep.renews {w = v} q e) h f =
    absurd (ground (arith, eq_iff v w, eq_iff w v))
RowStep-Holds settings w t (RowStep.completes {w = v} q e) h f =
    absurd (ground (arith, eq_iff v w, eq_iff w v))
RowStep-Holds settings w t (RowStep.fails {w = v} q e) h f =
    absurd (ground (arith, eq_iff v w, eq_iff w v))
RowStep-Holds settings w t (RowStep.recovers q e) h f = absurd (ground arith)
RowStep-Holds settings w t (RowStep.cancels q e) h f = ground arith

-- While a worker holds a lease that has not expired, no operation of another worker, and no
-- recovery before the lease's end, ends the run: the row stays running under the same owner and lease, with
-- its attempts and result.
pub lease_protected :
    (sha256 : String → String) (settings : JobSettings) (op : Op) (jobs : Jobs) (i t : ℕ)
    (w : String) {j : IngestionJob}
    → Distinct (λ r. r.id) jobs
    → find_job i jobs ≡ some j
    → Holds w t j j
    → is_foreign w t op ≡ true
    → (j' : IngestionJob) × (find_job i (apply sha256 settings op jobs) ≡ some j') × Holds w t j j'
lease_protected sha256 settings op jobs i t w d e h f =
    let (j', read, step) = apply-RowStep sha256 settings op jobs i d e in
    (j', read, RowStep-Holds settings w t step h f)

abbrev pub is_requeue : Op → Bool
is_requeue (Op.requeue i now) = true
is_requeue _ = false

RowStep-finished :
    (settings : JobSettings) {op : Op} {j j' : IngestionJob}
    → RowStep settings j j' op
    → is_finished j.status ≡ true
    → is_requeue op ≡ false
    → j ≡ j'
RowStep-finished settings (RowStep.stays e) h f = e
RowStep-finished settings (RowStep.requeues q e) h f = absurd (ground arith)
RowStep-finished settings (RowStep.claims q e) h f = absurd (ground arith)
RowStep-finished settings (RowStep.renews q e) h f = absurd (ground arith)
RowStep-finished settings (RowStep.completes q e) h f = absurd (ground arith)
RowStep-finished settings (RowStep.fails q e) h f = absurd (ground arith)
RowStep-finished settings (RowStep.recovers q e) h f = absurd (ground arith)
RowStep-finished settings (RowStep.cancels q e) h f = absurd (ground arith)

-- A job that failed, was cancelled or succeeded is changed by no operation but an explicit requeue.
pub finished_fixed :
    (sha256 : String → String) (settings : JobSettings) (op : Op) (jobs : Jobs) (i : ℕ)
    {j : IngestionJob}
    → Distinct (λ r. r.id) jobs
    → find_job i jobs ≡ some j
    → is_finished j.status ≡ true
    → is_requeue op ≡ false
    → find_job i (apply sha256 settings op jobs) ≡ some j
finished_fixed sha256 settings op jobs i d e h f =
    let (j', read, step) = apply-RowStep sha256 settings op jobs i d e in
    rw read (ap some (sym (RowStep-finished settings step h f)))
