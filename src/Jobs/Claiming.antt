-- ===== src/Jobs/Claiming.antt =====
-- What `claim_next` of apps/backend/repositories/jobs.py claims.
use mathlib.Core.List.{Memᴰ}
use mathlib.Core.Path.{subst}
use elegance_shawls.Base.{
  ==_refl, ℕ, String, ◌≡◌, ◌≢◌, refl, sym, ap, ◌∙◌, Bool, true, false, Option, none, some, List, [],
  ◌∷◌, arith, inl, inr, Option-cases, Bool-cases, Distinct, find-member, find-replace, select,
  select_sound, select_complete, update_where_hit, replace, Distinct-update_where, ◌+◌, ◌==◌, ◌⊎◌,
}
use elegance_shawls.Jobs.Row.{IngestionJob, Jobs, JobSettings, find_job, JobStatus}
use elegance_shawls.Jobs.Queue.{first_due, earlier, is_due, claimed, claim_next}

first_due-mem : (jobs : Jobs) {j : IngestionJob} → first_due jobs ≡ some j → Memᴰ j jobs
unfolding first_due
first_due-mem [] e = ground arith
first_due-mem (k ∷ jobs) {j} e = elim (Option-cases (first_due jobs)) [
  | inl p ↦ Memᴰ.head (ground arith)
  | inr (m, p) ↦ elim (Bool-cases (earlier m k)) [
    | inl q ↦ Memᴰ.tail (first_due-mem jobs (ground arith))
    | inr q ↦ Memᴰ.head (ground arith)
  ]
]

none≢some : {j : IngestionJob} → none ≢ some j
none≢some e = cc e

not_mem_nil : {k : IngestionJob} → Memᴰ k [] → ⊥
not_mem_nil m = elim m [ ]

first_due-none : (jobs : Jobs) → first_due jobs ≡ none → jobs ≡ []
unfolding first_due
first_due-none [] e = refl
first_due-none (k ∷ jobs) e = ground arith

earlier_asym : (a b : IngestionJob) → earlier a b ≡ true → earlier b a ≡ false
earlier_asym a b p = ground arith

earlier_irrefl : (a : IngestionJob) → earlier a a ≡ false
earlier_irrefl a = ground arith

earlier_chain :
    (a b c : IngestionJob) → earlier a b ≡ false → earlier c a ≡ false → earlier c b ≡ false
earlier_chain a b c p q = ground arith

first_due_least :
    (jobs : Jobs) {j : IngestionJob} (k : IngestionJob)
    → first_due jobs ≡ some j
    → Memᴰ k jobs
    → earlier k j ≡ false
unfolding first_due
first_due_least [] k e m = elim m [ ]
first_due_least (x ∷ jobs) {j} k e (Memᴰ.head p) = elim (Option-cases (first_due jobs)) [
  | inl q ↦
      let same : x ≡ j = ground arith in
      subst (λ y. earlier k y ≡ false) (p ∙ same) (earlier_irrefl k)
  | inr (n, q) ↦ elim (Bool-cases (earlier n x)) [
    | inl s ↦
        let same : n ≡ j = ground arith in
        subst (λ y. earlier y j ≡ false) (sym p)
          (subst (λ y. earlier x y ≡ false) same (earlier_asym n x s))
    | inr s ↦
        let same : x ≡ j = ground arith in
        subst (λ y. earlier k y ≡ false) (p ∙ same) (earlier_irrefl k)
  ]
]
first_due_least (x ∷ jobs) {j} k e (Memᴰ.tail m) = elim (Option-cases (first_due jobs)) [
  | inl q ↦ absurd (not_mem_nil (subst (λ l. Memᴰ k l) (first_due-none jobs q) m))
  | inr (n, q) ↦
      let ih : earlier k n ≡ false = first_due_least jobs k q m in
      elim (Bool-cases (earlier n x)) [
        | inl s ↦ let same : n ≡ j = ground arith in subst (λ y. earlier k y ≡ false) same ih
        | inr s ↦
            let same : x ≡ j = ground arith in
            subst (λ y. earlier k y ≡ false) same (earlier_chain n x k s ih)
      ]
]

module _ (settings : JobSettings) (worker_id : String) (now : ℕ) (only_ids : Option (List ℕ))
    (locked : ℕ → Bool) (jobs : Jobs) where
  abbrev pub after_claim : Jobs × Option IngestionJob
  after_claim = claim_next settings worker_id now only_ids locked jobs

  -- The job that a claim picks: the first due one.
  pub claim_next_picks :
      {j : IngestionJob}
      → first_due (select (is_due now only_ids locked) jobs) ≡ some j
      → Distinct (λ r. r.id) jobs
      → (after_claim ≡ (
        replace (λ r. r.id) j.id (claimed settings worker_id now j) jobs,
        some (claimed settings worker_id now j),
      ))
        × (is_due now only_ids locked j ≡ true)
        × Memᴰ j jobs
  unfolding claim_next
  claim_next_picks {j} e d =
      let m = select_sound (is_due now only_ids locked) jobs (first_due-mem _ e) in
      (
        rw (e, claim_next)
            (update_where_hit (λ r. r.id) j.id _ _ jobs (find-member (λ r. r.id) jobs d m.1) refl),
        m.0,
        m.1,
      )

  pub claim_next_unchanged :
      first_due (select (is_due now only_ids locked) jobs) ≡ none → after_claim ≡ (jobs, none)
  unfolding claim_next
  claim_next_unchanged p = rw (p, claim_next) refl

  find_claimed :
      (j : IngestionJob)
      → Distinct (λ r. r.id) jobs
      → Memᴰ j jobs
      → find_job j.id (replace (λ r. r.id) j.id (claimed settings worker_id now j) jobs)
        ≡ some (claimed settings worker_id now j)
  find_claimed j d m =
      rw (find-replace (λ r. r.id) j.id j.id (claimed settings worker_id now j) jobs refl)
        (rw (==_refl j.id, find-member (λ r. r.id) jobs d m) refl)

  claim_next_idle :
      {k : IngestionJob}
      → first_due (select (is_due now only_ids locked) jobs) ≡ none
      → Memᴰ k jobs
      → is_due now only_ids locked k ≡ false
  claim_next_idle {k} e m = elim (Bool-cases (is_due now only_ids locked k)) [
    | inl p ↦ absurd (
        not_mem_nil (
          subst (λ l. Memᴰ k l) (first_due-none _ e)
            (select_complete (is_due now only_ids locked) jobs m p)))
    | inr p ↦ p
  ]

  -- The lease of a claimed job, and what the claim keeps of it.
  pub record Leased (j j' : IngestionJob) : Type 0 where
    pub running : j'.status ≡ JobStatus.running
    pub counted : j'.attempts ≡ j.attempts + 1
    pub owner : j'.lease_owner ≡ some worker_id
    pub lease : j'.lease_expires_at ≡ some (now + settings.job_lease_seconds)
    pub started : j'.started_at ≡ some now
    pub same_id : j'.id ≡ j.id
    pub same_limit : j'.max_attempts ≡ j.max_attempts
    pub not_cancelled : j'.cancel_requested ≡ false

  -- What a claim comes to where it takes the job `j`.
  pub record Picked (j : IngestionJob) : Type 0 where
    pub there : Memᴰ j jobs
    pub due : is_due now only_ids locked j ≡ true
    pub first :
        (k : IngestionJob) → Memᴰ k jobs → is_due now only_ids locked k ≡ true → earlier k j ≡ false
    pub taken : IngestionJob
    pub leased : Leased j taken
    pub returned : (claim_next settings worker_id now only_ids locked jobs).1 ≡ some taken
    pub stored :
        find_job j.id (claim_next settings worker_id now only_ids locked jobs).0 ≡ some taken
    pub others :
        (i : ℕ)
        → (j.id == i) ≡ false
        → find_job i (claim_next settings worker_id now only_ids locked jobs).0 ≡ find_job i jobs

  -- What it comes to where it takes none.
  pub record Idle : Type 0 where
    pub none_due : (k : IngestionJob) → Memᴰ k jobs → is_due now only_ids locked k ≡ false
    pub unchanged : claim_next settings worker_id now only_ids locked jobs ≡ (jobs, none)

  -- A claim is one of two: no job of the table is due, and it returns none and changes nothing; or it
  -- returns a due job that no other due job precedes in the order of the queue, stored running with
  -- one more attempt under a lease of the configured length of the worker, and every other row of the
  -- table is as it was.
  pub claim_next_exact : Distinct (λ r. r.id) jobs → Idle ⊎ ((j : IngestionJob) × Picked j)
  claim_next_exact d = elim (Option-cases (first_due (select (is_due now only_ids locked) jobs))) [
    | inl p ↦
        inl (record { none_due = λ k m. claim_next_idle p m; unchanged = claim_next_unchanged p })
    | inr (j, p) ↦
        let r = claim_next_picks p d in
        let due = r.1 in
        inr (
          j,
          record {
            there = r.2;
            due = r.1;
            first = λ k m q.
                first_due_least _ k p (select_complete (is_due now only_ids locked) jobs m q);
            taken = claimed settings worker_id now j;
            leased = record {
              running = refl;
              counted = refl;
              owner = refl;
              lease = refl;
              started = refl;
              same_id = refl;
              same_limit = refl;
              not_cancelled = ground arith;
            };
            returned = ap (λ (x : Jobs × Option IngestionJob). x.1) r.0;
            stored = rw r.0 (find_claimed j d r.2);
            others = λ i off. rw r.0 (
                rw off at
                  (find-replace (λ k. k.id) j.id i (claimed settings worker_id now j) jobs refl));
          },
        )
  ]

  pub claim_next-none :
      (k : IngestionJob)
      → Distinct (λ r. r.id) jobs
      → (claim_next settings worker_id now only_ids locked jobs).1 ≡ none
      → Memᴰ k jobs
      → (is_due now only_ids locked k ≡ false)
        × ((claim_next settings worker_id now only_ids locked jobs).0 ≡ jobs)
  unfolding claim_next
  claim_next-none k d e m =
      elim (Option-cases (first_due (select (is_due now only_ids locked) jobs))) [
        | inl p ↦ (claim_next_idle p m, rw (p, claim_next) refl)
        | inr (j, p) ↦ absurd (
            none≢some
              (sym e ∙ ap (λ (x : Jobs × Option IngestionJob). x.1) (claim_next_picks p d).0))
      ]

  pub claim_next-Distinct :
      Distinct (λ r. r.id) jobs
      → Distinct (λ r. r.id) (claim_next settings worker_id now only_ids locked jobs).0
  unfolding claim_next
  claim_next-Distinct d =
      elim (Option-cases (first_due (select (is_due now only_ids locked) jobs))) [
        | inl p ↦ rw (p, claim_next) d
        | inr (j, p) ↦
            rw (p, claim_next)
              (Distinct-update_where (λ r. r.id) j.id _ (claimed settings worker_id now) jobs
                (λ r. refl) d)
      ]
