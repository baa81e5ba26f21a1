-- ===== src/Embeddings/Provider.antt =====
-- apps/backend/search/providers.py: the contract of an embedding provider. What the provider returns is
-- an argument, as are `is_blank` (the stripped text is empty) and `decimal` (the text of a number).
use elegance_shawls.Base.{
  ◌&&◌, ◌<>◌, ◌==◌, Bool, List, String, [], any, if◌then◌else◌, false, inl, inr, leb, length, ltb,
  text_length, true, ◌||◌, ℕ, ◌∷◌, ◌⊎◌,
}

pub record EmbeddingError : Type 0 where
  pub message : String
  pub retryable : Bool

abbrev pub retryable_error : String → EmbeddingError
retryable_error message = record { message = message; retryable = true }

abbrev pub non_retryable_error : String → EmbeddingError
non_retryable_error message = record { message = message; retryable = false }

-- _RETRYABLE_STATUS
abbrev pub retryable_statuses : List ℕ
retryable_statuses = 408 ∷ 409 ∷ 425 ∷ 429 ∷ 500 ∷ 502 ∷ 503 ∷ 504 ∷ []

-- What a call of the provider may raise.
pub data Raised : Type 0 where
  embedding_error : (error : EmbeddingError) → Raised
  timed_out connection_failed other : (type_name : String) → Raised

unfoldable pub classify : Raised → EmbeddingError
classify (Raised.embedding_error error) = error
classify (Raised.timed_out type_name) =
    retryable_error (type_name <> ": transient provider failure")
classify (Raised.connection_failed type_name) =
    retryable_error (type_name <> ": transient provider failure")
classify (Raised.other type_name) = non_retryable_error (type_name <> ": provider failure")

-- A timeout is in thousandths of a second.
pub record EmbeddingLimits : Type 0 where
  pub max_batch : ℕ
  pub max_chars : ℕ
  pub timeout_ms : ℕ

-- `__post_init__` raises otherwise.
unfoldable pub limits_ok : EmbeddingLimits → Bool
limits_ok limits =
    leb 1 limits.max_batch
    && leb 1 limits.max_chars
    && ltb 0 limits.timeout_ms
    && leb limits.timeout_ms 120000

-- A component of what a provider calls a vector; a finite number has its float's text.
pub data Component : Type 0 where
  finite : (float : String) → Component
  infinite not_a_number : Component

pub data Vector : Type 0 where
  not_a_sequence : Vector
  sequence : (components : List Component) → Vector

pub data Output : Type 0 where
  not_vectors : Output
  vectors : (items : List Vector) → Output

pub record EmbeddingProvider : Type 0 where
  pub name : String
  pub model : String
  pub model_revision : String
  pub dimensions : ℕ
  pub limits : EmbeddingLimits

-- A call's result: the error that it raises, or its value.
abbrev pub Checked : Type 0 → Type 0
Checked A = EmbeddingError ⊎ A

module _ (is_blank : String → Bool) (decimal : ℕ → String) where
  unfoldable pub classify_status : ℕ → EmbeddingError
  classify_status status =
      let message = "provider returned HTTP " <> decimal status in
      if any (λ s. s == status) retryable_statuses
      then retryable_error message
      else non_retryable_error message

  -- The loop over the texts.
  unfoldable pub validate_texts : EmbeddingLimits → List String → Checked Unit
  validate_texts limits [] = inr tt
  validate_texts limits (t ∷ ts) =
      let rest = validate_texts limits ts in
      if is_blank t
      then inl (non_retryable_error "every text must be a non-empty string")
      else if ltb limits.max_chars (text_length t)
      then inl (
          non_retryable_error (
            "text of "
            <> decimal (text_length t)
            <> " characters exceeds "
            <> decimal limits.max_chars))
      else rest

  unfoldable pub validate_inputs : List String → EmbeddingLimits → Checked Unit
  unfolding validate_texts
  validate_inputs texts limits =
      if length texts == 0 || ltb limits.max_batch (length texts)
      then inl (
          non_retryable_error (
            "batch must hold 1-"
            <> decimal limits.max_batch
            <> " texts, got "
            <> decimal (length texts)))
      else validate_texts limits texts

  unfoldable pub validate_components : List Component → Checked (List String)
  validate_components [] = inr []
  validate_components (Component.finite x ∷ cs) = elim (validate_components cs) [
    | inl e ↦ inl e
    | inr xs ↦ inr (x ∷ xs)
  ]
  validate_components (_ ∷ cs) = inl (non_retryable_error "vectors must hold finite numbers only")

  -- One vector of the given dimensions.
  unfoldable pub validate_vector : ℕ → Vector → Checked (List String)
  unfolding validate_components
  validate_vector dimensions Vector.not_a_sequence =
      inl (non_retryable_error ("expected vectors of " <> decimal dimensions <> " dimensions"))
  validate_vector dimensions (Vector.sequence cs) =
      if length cs == dimensions
      then validate_components cs
      else inl (non_retryable_error ("expected vectors of " <> decimal dimensions <> " dimensions"))

  unfoldable pub validate_each : ℕ → List Vector → Checked (List (List String))
  unfolding validate_vector
  validate_each dimensions [] = inr []
  validate_each dimensions (v ∷ vs) = elim (validate_vector dimensions v) [
    | inl e ↦ inl e
    | inr x ↦ elim (validate_each dimensions vs) [ inl e ↦ inl e | inr xs ↦ inr (x ∷ xs) ]
  ]

  unfoldable pub validate_vectors : Output → ℕ → ℕ → Checked (List (List String))
  unfolding validate_each
  validate_vectors Output.not_vectors count dimensions =
      inl (non_retryable_error ("expected " <> decimal count <> " vectors"))
  validate_vectors (Output.vectors vs) count dimensions =
      if length vs == count
      then validate_each dimensions vs
      else inl (non_retryable_error ("expected " <> decimal count <> " vectors"))

  -- `embed_checked`; `embed` is what `provider.embed` raises or returns within the timeout.
  unfoldable pub embed_checked :
      EmbeddingProvider
      → (List String → Raised ⊎ Output)
      → List String
      → Checked (List (List String))
  unfolding validate_inputs validate_vectors
  embed_checked provider embed texts = elim (validate_inputs texts provider.limits) [
    | inl e ↦ inl e
    | inr ok ↦ elim (embed texts) [
      | inl raised ↦ inl (classify raised)
      | inr output ↦ validate_vectors output (length texts) provider.dimensions
    ]
  ]
