-- ===== src/Embeddings/Checked.antt =====
-- apps/backend/search/providers.py: what a checked call of a provider returns.
use mathlib.Core.Path.{subst}
use elegance_shawls.Embeddings.Provider.{
  Component, EmbeddingLimits, EmbeddingProvider, Output, Raised, Vector, embed_checked,
  validate_components, validate_each, validate_inputs, validate_texts, validate_vector,
  validate_vectors,
}
use elegance_shawls.Base.{
  ◌==◌, ==_iff, All, Bool, Bool-cases, List, String, [], false, inl, inr, length, ltb, ltb-false→le,
  refl, suc, sym, text_length, ℕ, ◌∙◌, ◌∷◌, ◌≡◌, ◌≤◌, ◌⊎◌, ap, arith, ◌||◌, inl-ne-inr, inr_inj,
  result-cases,
}

module _ (is_blank : String → Bool) (decimal : ℕ → String) where
  -- One vector for each text, each of the provider's dimensions, for a batch within the provider's
  -- limits.
  abbrev pub IsChecked : EmbeddingProvider → List String → List (List String) → Type 0
  IsChecked provider texts result =
      (length result ≡ length texts)
      × All (λ v. length v ≡ provider.dimensions) result
      × (1 ≤ length texts)
      × (length texts ≤ provider.limits.max_batch)
      × All (λ t. (is_blank t ≡ false) × (text_length t ≤ provider.limits.max_chars)) texts

  components-length :
      (cs : List Component) (xs : List String)
      → validate_components is_blank decimal cs ≡ inr xs
      → length xs ≡ length cs
  unfolding validate_components
  components-length [] xs e = ap length (sym (inr_inj e))
  components-length (Component.finite x ∷ cs) xs e =
      elim (result-cases (validate_components is_blank decimal cs)) [
        | inl (error, q) ↦ absurd (inl-ne-inr (rw q at e))
        | inr (ys, q) ↦ ap length (sym (inr_inj (rw q at e))) ∙ ap suc (components-length cs ys q)
      ]
  components-length (Component.infinite ∷ cs) xs e = absurd (cc e)
  components-length (Component.not_a_number ∷ cs) xs e = absurd (cc e)

  vector-length :
      (dimensions : ℕ) (v : Vector) (xs : List String)
      → validate_vector is_blank decimal dimensions v ≡ inr xs
      → length xs ≡ dimensions
  unfolding validate_vector
  vector-length dimensions Vector.not_a_sequence xs e = absurd (cc e)
  vector-length dimensions (Vector.sequence cs) xs e = elim (Bool-cases (length cs == dimensions)) [
    | inl q ↦ components-length cs xs (rw q at e) ∙ (==_iff (length cs) dimensions).0 q
    | inr q ↦ absurd (inl-ne-inr (rw q at e))
  ]

  each-length :
      (dimensions : ℕ) (vs : List Vector) (result : List (List String))
      → validate_each is_blank decimal dimensions vs ≡ inr result
      → (length result ≡ length vs) × All (λ v. length v ≡ dimensions) result
  unfolding validate_each
  each-length dimensions [] result e =
      subst (λ (r : List (List String)). (length r ≡ 0) × All (λ v. length v ≡ dimensions) r)
        (inr_inj e) (refl, tt)
  each-length dimensions (v ∷ vs) result e =
      elim (result-cases (validate_vector is_blank decimal dimensions v)) [
        | inl (error, q) ↦ absurd (inl-ne-inr (rw (validate_each, q) at e))
        | inr (x, q) ↦ elim (result-cases (validate_each is_blank decimal dimensions vs)) [
          | inl (error, p) ↦ absurd (inl-ne-inr (rw (validate_each, q, p) at e))
          | inr (xs, p) ↦
              let rest = each-length dimensions vs xs p in
              subst
                (λ (r : List (List String)).
                  (length r ≡ suc (length vs)) × All (λ v. length v ≡ dimensions) r)
                (inr_inj (rw (validate_each, q, p) at e))
                (ap suc rest.0, (vector-length dimensions v x q, rest.1))
        ]
      ]

  texts-valid :
      (limits : EmbeddingLimits) (texts : List String) (ok : Unit)
      → validate_texts is_blank decimal limits texts ≡ inr ok
      → All (λ t. (is_blank t ≡ false) × (text_length t ≤ limits.max_chars)) texts
  unfolding validate_texts
  texts-valid limits [] ok e = tt
  texts-valid limits (t ∷ ts) ok e = elim (Bool-cases (is_blank t)) [
    | inl q ↦ absurd (inl-ne-inr (rw q at e))
    | inr q ↦ elim (Bool-cases (ltb limits.max_chars (text_length t))) [
      | inl p ↦ absurd (inl-ne-inr (rw (q, p) at e))
      | inr p ↦ (
        (q, ltb-false→le limits.max_chars (text_length t) p),
        texts-valid limits ts ok (rw (q, p) at e),
      )
    ]
  ]

  vectors-length :
      (output : Output) (count dimensions : ℕ) (result : List (List String))
      → validate_vectors is_blank decimal output count dimensions ≡ inr result
      → (length result ≡ count) × All (λ v. length v ≡ dimensions) result
  unfolding validate_vectors
  vectors-length Output.not_vectors count dimensions result e = absurd (inl-ne-inr e)
  vectors-length (Output.vectors vs) count dimensions result e =
      elim (Bool-cases (length vs == count)) [
        | inl q ↦
            let each = each-length dimensions vs result (rw q at e) in
            (each.0 ∙ (==_iff (length vs) count).0 q, each.1)
        | inr q ↦ absurd (inl-ne-inr (rw q at e))
      ]

  inputs-valid :
      (limits : EmbeddingLimits) (texts : List String) (ok : Unit)
      → validate_inputs is_blank decimal texts limits ≡ inr ok
      → (1 ≤ length texts)
        × (length texts ≤ limits.max_batch)
        × All (λ t. (is_blank t ≡ false) × (text_length t ≤ limits.max_chars)) texts
  unfolding validate_inputs
  inputs-valid limits texts ok e =
      elim (Bool-cases (length texts == 0 || ltb limits.max_batch (length texts))) [
        | inl q ↦ absurd (inl-ne-inr (rw q at e))
        | inr q ↦ (ground arith, ground arith, texts-valid limits texts ok (rw q at e))
      ]

  -- Whatever the provider raises or returns, a checked call that succeeds has, for a batch within the
  -- provider's limits and with no blank text in it, one vector for each text, each of the provider's
  -- dimensions; any other answer is an error.
  pub embed_checked-IsChecked :
      (provider : EmbeddingProvider) (embed : List String → Raised ⊎ Output) (texts : List String)
      (result : List (List String))
      → embed_checked is_blank decimal provider embed texts ≡ inr result
      → IsChecked provider texts result
  unfolding embed_checked
  embed_checked-IsChecked provider embed texts result e =
      elim (result-cases (validate_inputs is_blank decimal texts provider.limits)) [
        | inl (error, q) ↦ absurd (inl-ne-inr (rw (embed_checked, q) at e))
        | inr (ok, q) ↦ elim (result-cases (embed texts)) [
          | inl (raised, p) ↦ absurd (inl-ne-inr (rw (embed_checked, q, p) at e))
          | inr (output, p) ↦
              let lengths =
                vectors-length output (length texts) provider.dimensions result
                  (rw (embed_checked, q, p) at e) in
              let (some_texts, batch_fits, valid) = inputs-valid provider.limits texts ok q in
              (lengths.0, lengths.1, some_texts, batch_fits, valid)
        ]
      ]
