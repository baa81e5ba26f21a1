-- ===== src/RateLimit/Window.antt =====
-- apps/backend/security/rate_limit.py: the local limiter is a sliding window of a minute.
use elegance_shawls.RateLimit.Limiter.{hit_bucket, popleft_old}
use elegance_shawls.Base.{
  ◌+◌, ◌++◌, All, All-append, Bool, Bool-cases, List, [], arith, if◌then◌else◌, false, inl, inr,
  leb, not, refl, select, sym, ℕ, ◌∷◌, ◌≡◌, ◌≤◌, length, ltb, suc, ◌∙◌, ap,
}

-- A request at `t` still counts at `now`: it is less than 60 seconds old.
abbrev pub counts : ℕ → ℕ → Bool
counts now t = not (leb (t + 60) now)

abbrev Ascending : List ℕ → Type 0
Ascending [] = Unit
Ascending (t ∷ ts) = All (λ u. t ≤ u) ts × Ascending ts

-- The requests for one key under one limit, in the order of the clock: the bucket, and the times of
-- all the requests that were allowed.
pub data Run (limit : ℕ) : ℕ → List ℕ → List ℕ → Type 0 where
  start : Run limit 0 [] []
  hit :
      {now : ℕ} {bucket log : List ℕ} (later : ℕ)
      → now ≤ later
      → Run limit now bucket log
      → Run limit later
          (hit_bucket later limit bucket).0
          (if (hit_bucket later limit bucket).1 then log ++ later ∷ [] else log)

select_every :
    (now t : ℕ) (ts : List ℕ)
    → All (λ u. t ≤ u) ts
    → leb (t + 60) now ≡ false
    → select (counts now) ts ≡ ts
select_every now t [] h e = refl
select_every now t (u ∷ us) (h, hs) e = ground (arith, select_every now t us hs e)

popleft_old-select :
    (now : ℕ) (ts : List ℕ) → Ascending ts → popleft_old now ts ≡ select (counts now) ts
unfolding popleft_old
popleft_old-select now [] a = refl
popleft_old-select now (t ∷ ts) (h, a) = elim (Bool-cases (leb (t + 60) now)) [
  | inl p ↦ rw p (popleft_old-select now ts a)
  | inr p ↦ rw p (ap (◌∷◌ t) (sym (select_every now t ts h p)))
]

-- What counts later counts now.
select-select :
    (now later : ℕ) (ts : List ℕ)
    → now ≤ later
    → select (counts later) (select (counts now) ts) ≡ select (counts later) ts
select-select now later [] h = refl
select-select now later (t ∷ ts) h = ground (arith, select-select now later ts h)

All-select : (P : ℕ → Type 0) (p : ℕ → Bool) (ts : List ℕ) → All P ts → All P (select p ts)
All-select P p [] h = tt
All-select P p (t ∷ ts) (h, hs) = elim (Bool-cases (p t)) [
  | inl e ↦ rw e (h, All-select P p ts hs)
  | inr e ↦ rw e (All-select P p ts hs)
]

select-Ascending : (p : ℕ → Bool) (ts : List ℕ) → Ascending ts → Ascending (select p ts)
select-Ascending p [] a = tt
select-Ascending p (t ∷ ts) (h, a) = elim (Bool-cases (p t)) [
  | inl e ↦ rw e (All-select (λ u. t ≤ u) p ts h, select-Ascending p ts a)
  | inr e ↦ rw e (select-Ascending p ts a)
]

append-Ascending :
    (t : ℕ) (ts : List ℕ) → Ascending ts → All (λ u. u ≤ t) ts → Ascending (ts ++ t ∷ [])
append-Ascending t [] a h = (tt, tt)
append-Ascending t (u ∷ us) (b, a) (h, hs) =
    (All-append (λ k. u ≤ k) us _ b (h, tt), append-Ascending t us a hs)

select-append_last :
    (later : ℕ) (ts : List ℕ)
    → select (counts later) (ts ++ later ∷ []) ≡ select (counts later) ts ++ later ∷ []
select-append_last later [] = ground arith
select-append_last later (t ∷ ts) = ground (arith, select-append_last later ts)

-- The invariant: the bucket holds exactly the allowed requests that count, within the limit.
record IsWindow (limit now : ℕ) (bucket log : List ℕ) : Type 0 where
  recent : bucket ≡ select (counts now) log
  bounded : length bucket ≤ limit
  ascending : Ascending log
  past : All (λ t. t ≤ now) log

past-later :
    (now later : ℕ) (ts : List ℕ) → now ≤ later → All (λ t. t ≤ now) ts → All (λ t. t ≤ later) ts
past-later now later [] h a = tt
past-later now later (t ∷ ts) h (a, as_) = (omega arith, past-later now later ts h as_)

popped-recent :
    (now later : ℕ) (bucket log : List ℕ)
    → now ≤ later
    → Ascending log
    → bucket ≡ select (counts now) log
    → popleft_old later bucket ≡ select (counts later) log
popped-recent now later bucket log h a e =
    ap (popleft_old later) e
    ∙ popleft_old-select later (select (counts now) log) (select-Ascending (counts now) log a)
    ∙ select-select now later log h

popped-le : (now : ℕ) (ts : List ℕ) → length (popleft_old now ts) ≤ length ts
unfolding popleft_old
popped-le now [] = omega arith
popped-le now (t ∷ ts) = ground (arith, popped-le now ts)

length-last : (t : ℕ) (ts : List ℕ) → length (ts ++ t ∷ []) ≡ suc (length ts)
length-last t [] = refl
length-last t (u ∷ us) = ap suc (length-last t us)

hit-IsWindow :
    (limit now later : ℕ) (bucket log : List ℕ)
    → now ≤ later
    → IsWindow limit now bucket log
    → IsWindow limit later
        (hit_bucket later limit bucket).0
        (if (hit_bucket later limit bucket).1 then log ++ later ∷ [] else log)
unfolding hit_bucket
hit-IsWindow limit now later bucket log h w =
    let popped = popped-recent now later bucket log h w.ascending w.recent in
    elim (Bool-cases (leb limit (length (popleft_old later bucket)))) [
      | inl p ↦ rw p (record {
        recent = popped;
        bounded = omega (arith, popped-le later bucket, w.bounded);
        ascending = w.ascending;
        past = past-later now later log h w.past;
      })
      | inr p ↦ rw p (record {
        recent = ap (λ (l : List ℕ). l ++ later ∷ []) popped ∙ sym (select-append_last later log);
        bounded = ground (arith, length-last later (popleft_old later bucket));
        ascending = append-Ascending later log w.ascending (past-later now later log h w.past);
        past =
            All-append (λ t. t ≤ later) log _ (past-later now later log h w.past) (omega arith, tt);
      })
    ]

Run-IsWindow :
    (limit : ℕ) {now : ℕ} {bucket log : List ℕ}
    → Run limit now bucket log
    → IsWindow limit now bucket log
Run-IsWindow limit Run.start = record {
  recent = refl;
  bounded = omega arith;
  ascending = tt;
  past = tt;
}
Run-IsWindow limit (Run.hit {now = now} {bucket = bucket} {log = log} later h r) =
    hit-IsWindow limit now later bucket log h (Run-IsWindow limit r)

-- After any requests for one key, in the order of the clock and under one limit: the bucket holds
-- exactly the times of the allowed requests less than 60 seconds old, and they are at most the limit.
-- A further request, not earlier, is allowed exactly if fewer than the limit of the allowed ones are
-- then less than 60 seconds old.
pub Run-window :
    (limit later : ℕ) {now : ℕ} {bucket log : List ℕ}
    → Run limit now bucket log
    → now ≤ later
    → (bucket ≡ select (counts now) log)
      × (length (select (counts now) log) ≤ limit)
      × ((hit_bucket later limit bucket).1 ≡ ltb (length (select (counts later) log)) limit)
unfolding hit_bucket
Run-window limit later {now = now} {bucket = bucket} {log = log} r h =
    let w = Run-IsWindow limit r in
    let popped = popped-recent now later bucket log h w.ascending w.recent in
    (w.recent, rw⁻¹ w.recent w.bounded, rw popped (ground arith))
