-- ===== src/Fx/Plausible.antt =====
-- apps/backend/ingestion/fx.py: every rate that is given out or cached is plausible.
use mathlib.Core.Path.{subst}
use elegance_shawls.Fx.Rates.{
  Cache, Cached, Payload, Rate, RateField, Response, cached_rate, first_rate, parse_rate,
  plausible_rate, rate_bound, rate_of, store, DateField, dated, fetch_rate, get_pkr_rate, is_fresh,
  look_up, max_bytes, target,
}
use elegance_shawls.Base.{
  ◌&&◌, ◌<◌, All, Bool, Bool-cases, List, Option, String, [], and_true, eq_iff, inl, inr, ltb,
  ltb→lt, none, some, some_inj, str_eq, ℕ, ◌∷◌, ◌≡◌, ◌==◌, Option-cases, arith, leb, not, refl, ◌∙◌,
}

-- A positive rate below the bound, of the asked code.
abbrev pub IsPlausible : String → Rate → Type 0
IsPlausible code r = (r.code ≡ code) × (0 < r.rate) × (r.rate < rate_bound)

abbrev pub IsSound : Cache → Type 0
IsSound cache = All (λ e. IsPlausible e.code e.rate) cache

-- The result of a call.
abbrev pub Answers : String → Cache × Option Rate → Type 0
Answers code (cache, none) = IsSound cache
Answers code (cache, some r) = IsSound cache × IsPlausible code r

plausible_rate-bounds :
    (f : RateField) (n : ℕ) → plausible_rate f ≡ some n → (0 < n) × (n < rate_bound)
unfolding plausible_rate
plausible_rate-bounds RateField.missing_rate n e = cc e
plausible_rate-bounds RateField.not_a_number n e = cc e
plausible_rate-bounds RateField.not_finite n e = cc e
plausible_rate-bounds RateField.not_positive n e = cc e
plausible_rate-bounds (RateField.number k) n e = elim (Bool-cases (ltb 0 k && ltb k rate_bound)) [
  | inr q ↦ cc (rw q at e)
  | inl q ↦
      let (low, high) = and_true (ltb 0 k) (ltb k rate_bound) q in
      subst (λ m. (0 < m) × (m < rate_bound)) (some_inj (rw q at e))
        (ltb→lt 0 k low, ltb→lt k rate_bound high)
]

store-IsSound :
    (new : Cached) (cache : Cache)
    → IsPlausible new.code new.rate
    → IsSound cache
    → IsSound (store new cache)
unfolding store
store-IsSound new [] p h = (p, tt)
store-IsSound new (e ∷ es) p h = elim (Bool-cases (str_eq e.code new.code)) [
  | inl q ↦ rw q (p, h.1)
  | inr q ↦ rw q (h.0, store-IsSound new es p h.1)
]

cached_rate-IsPlausible :
    (code : String) (cache : Cache) (e : Cached)
    → IsSound cache
    → cached_rate code cache ≡ some e
    → IsPlausible code e.rate
unfolding cached_rate
cached_rate-IsPlausible code [] e h q = cc q
cached_rate-IsPlausible code (x ∷ xs) e h q = elim (Bool-cases (str_eq x.code code)) [
  | inl p ↦
      let same : x ≡ e = some_inj (rw p at q) in
      subst (λ y. IsPlausible code y.rate) same
        (subst (λ c. IsPlausible c x.rate) ((eq_iff x.code code).0 p) h.0)
  | inr p ↦ cached_rate-IsPlausible code xs e h.1 (rw p at q)
]

module _ (is_date : String → Bool) where
  dated-IsPlausible :
      (code : String) (n : ℕ) (date : DateField) (r : Rate)
      → (0 < n) × (n < rate_bound)
      → dated is_date code n date ≡ some r
      → IsPlausible code r
  unfolding dated
  dated-IsPlausible code n DateField.missing_date r b e = cc e
  dated-IsPlausible code n DateField.not_a_text r b e = cc e
  dated-IsPlausible code n (DateField.date_text date) r b e = elim (Bool-cases (is_date date)) [
    | inl q ↦ subst (IsPlausible code) (some_inj (rw q at e)) (refl, b.0, b.1)
    | inr q ↦ cc (rw q at e)
  ]

  parse_rate-IsPlausible :
      (code : String) (payload : Payload) (r : Rate)
      → parse_rate is_date code payload ≡ some r
      → IsPlausible code r
  unfolding parse_rate
  parse_rate-IsPlausible code payload r e = elim (Option-cases (plausible_rate payload.rate)) [
    | inl q ↦ cc (rw (parse_rate, q) at e)
    | inr (n, q) ↦
        dated-IsPlausible code n payload.date r (plausible_rate-bounds payload.rate n q)
          (rw (parse_rate, q) at e)
  ]

  rate_of-IsPlausible :
      (code : String) (x : Response) (r : Rate)
      → rate_of is_date code x ≡ some r
      → IsPlausible code r
  unfolding rate_of
  rate_of-IsPlausible code Response.failed r e = cc e
  rate_of-IsPlausible code (Response.response http_status bytes payload) r e =
      elim (Bool-cases (http_status == 200 && leb bytes max_bytes)) [
        | inl q ↦ parse_rate-IsPlausible code payload r (rw q at e)
        | inr q ↦ cc (rw q at e)
      ]

  first_rate-IsPlausible :
      (code : String) (rs : List Response) (r : Rate)
      → first_rate is_date code rs ≡ some r
      → IsPlausible code r
  unfolding first_rate
  first_rate-IsPlausible code [] r e = cc e
  first_rate-IsPlausible code (x ∷ xs) r e = elim (Option-cases (rate_of is_date code x)) [
    | inl q ↦ first_rate-IsPlausible code xs r (rw (first_rate, q) at e)
    | inr (found, q) ↦ rate_of-IsPlausible code x r (q ∙ (rw (first_rate, q) at e))
  ]

  fetch_rate-Answers :
      (code : String) (rs : List Response) (later : ℕ) (cache : Cache)
      → IsSound cache
      → Answers code (fetch_rate is_date code rs later cache)
  unfolding fetch_rate
  fetch_rate-Answers code rs later cache h = elim (Option-cases (first_rate is_date code rs)) [
    | inl q ↦ rw (fetch_rate, q) h
    | inr (r, q) ↦
        let ok = first_rate-IsPlausible code rs r q in
        rw (fetch_rate, q)
          (store-IsSound (record { code = code; at = later; rate = r }) cache ok h, ok)
  ]

  look_up-Answers :
      (code : String) (rs : List Response) (now later : ℕ) (cache : Cache)
      → IsSound cache
      → Answers code (look_up is_date code rs now later cache)
  unfolding look_up
  look_up-Answers code rs now later cache h = elim (Option-cases (cached_rate code cache)) [
    | inl q ↦ rw (look_up, q) (fetch_rate-Answers code rs later cache h)
    | inr (e, q) ↦ elim (Bool-cases (is_fresh now e)) [
      | inl p ↦ rw (look_up, q, p) (h, cached_rate-IsPlausible code cache e h q)
      | inr p ↦ rw (look_up, q, p) (fetch_rate-Answers code rs later cache h)
    ]
  ]

-- Whatever the hosts answer: if the cached rates are positive, below 10,000,000 and of their code, then
-- they are so after a call too, and so is the rate that it returns, for the cleaned code.
pub get_pkr_rate-Answers :
    (is_date is_code : String → Bool) (tidy : String → String) (today : String)
    (responses : List Response) (now later : ℕ) (currency : String) (cache : Cache)
    → IsSound cache
    → Answers
        (tidy currency)
        (get_pkr_rate is_date tidy is_code today responses now later currency cache)
unfolding get_pkr_rate
get_pkr_rate-Answers is_date is_code tidy today responses now later currency cache h =
    let code = tidy currency in
    elim (Bool-cases (not (is_code code))) [
      | inl q ↦ rw q h
      | inr q ↦ elim (Bool-cases (str_eq code target)) [
        | inl p ↦ rw (q, p) (h, (refl, omega arith, omega arith))
        | inr p ↦ rw (q, p) (look_up-Answers is_date code responses now later cache h)
      ]
    ]
