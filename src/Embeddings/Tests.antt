-- ===== src/Embeddings/Tests.antt =====
-- Runs over the embedding rows, and the theorems at concrete tables.

use mathlib.Core.Path.{subst}
use elegance_shawls.Embeddings.Approved.{of_approved_source, representation-approved}
use elegance_shawls.Embeddings.Published.{Stored, process-Stored}
use elegance_shawls.Embeddings.Checked.{IsChecked, embed_checked-IsChecked}
use elegance_shawls.Attributes.Rows.{CatalogAttribute}
use elegance_shawls.Embeddings.Sources.{Source, is_match}
use elegance_shawls.Embeddings.Unpublished.{Tame, process-unpublished}
use elegance_shawls.Base.{
  List, [], find, inr, is_text, not, refl, some, suc, zero, ℕ, ◌∷◌, ◌≡◌, String, false, inl, none,
  replace, select, update_where, ◌==◌, if◌then◌else◌, inr_inj,
}
use elegance_shawls.Embeddings.Representation.{
  Kind, representation_version, product_representation, variant_representation,
}
use elegance_shawls.Embeddings.Provider.{
  Component, EmbeddingProvider, Output, Vector, embed_checked, non_retryable_error,
}
use elegance_shawls.Embeddings.Process.{Answer, Worker, process}
use elegance_shawls.Embeddings.Rows.{
  claim, complete, EmbeddingRows, Identity, new_row, upsert_pending, find_identity, EmbeddingRow,
  EmbeddingStatus,
}

abbrev identity : Identity
identity = record {
  source_revision = 1;
  representation_version = representation_version;
  representation_hash = "h1";
  provider = "fake";
  model = "fake-sha256-v1";
  model_revision = "";
  index_version = "v1";
}

abbrev newer : Identity
newer = record identity { source_revision = 2; representation_hash = "h2" }

abbrev two_rows : EmbeddingRows
two_rows = (upsert_pending 2 9 9 newer 3 10 (upsert_pending 1 9 9 identity 3 10 []).0).0

-- The newer row is completed, and the older vector is stale.
retired :
    (complete 2 "w" "[2]" 50
      (λ rows. rows)
      (claim 2 "w" 60 40
        (complete 1 "w" "[1]" 30 (λ rows. rows) (claim 1 "w" 60 20 two_rows).0).0).0).1
    ≡ some (record (new_row 2 9 9 newer 3 10) {
      status = EmbeddingStatus.succeeded;
      embedding = some "[2]";
      attempts = 1;
      started_at = some 40;
      updated_at = 50;
      finished_at = some 50;
    })
unfolding upsert_pending find find_identity complete claim update_where replace
retired = refl

abbrev fake : EmbeddingProvider
fake = record {
  name = "fake";
  model = "fake-sha256-v1";
  model_revision = "";
  dimensions = 768;
  limits = record { max_batch = 64; max_chars = 4000; timeout_ms = 30000 };
}

abbrev zeros : ℕ → List Component
zeros zero = []
zeros (suc n) = Component.finite "0.0" ∷ zeros n

abbrev zeros_text : ℕ → List String
zeros_text zero = []
zeros_text (suc n) = "0.0" ∷ zeros_text n

abbrev source : Source
source = record {
  product_id = 9;
  revision = 1;
  representation = record {
    kind = Kind.product;
    version = representation_version;
    text = "type: product\nname: shawl";
    sha256 = "h1";
  };
}

abbrev worker : Worker
worker = record {
  is_blank = λ t. not (is_text t);
  decimal = λ n. "n";
  unrepresentable = λ e. "e";
  load = λ n owner. inr (some source);
  others = λ n rows. rows;
  provider = fake;
  embed = λ texts. inr (Output.vectors (Vector.sequence (zeros 768) ∷ []));
  owner = "w";
  lease_seconds = 60;
  backoff_seconds = 2;
  now = 20;
}

abbrev one_row : EmbeddingRows
one_row = new_row 1 9 9 identity 3 10 ∷ []

was_published : (process worker 1 one_row).1 ≡ some Answer.succeeded
unfolding process find update_where replace
was_published = refl

process-Stored_example :
    (row : EmbeddingRow) × ((claim 1 "w" 60 20 one_row).1 ≡ some row)
    × Stored worker 1 row (process worker 1 one_row).0
unfolding process find update_where replace
process-Stored_example =
    process-Stored worker 1 one_row (process worker 1 one_row).0 (λ rows r e. e) refl

-- The source is archived during the call.
abbrev moved_on : Worker
moved_on = record worker { load = λ n owner. if n == 1 then worker.load 1 owner else inr none }

was_stale : (process moved_on 1 one_row).1 ≡ some Answer.stale
unfolding process find update_where replace
was_stale = refl

process-unpublished_example : Tame one_row (process moved_on 1 one_row).0
unfolding is_match
process-unpublished_example =
    process-unpublished moved_on (λ n rows i r e live. e) 1 one_row
      (λ row e current q. subst (λ c. is_match c row ≡ false) (inr_inj q) refl)

-- The provider that answers with too few vectors.
wrong_count :
    embed_checked
      (λ t. not (is_text t))
      (λ n. "n")
      fake
      (λ texts. inr (Output.vectors []))
      ("shawl" ∷ [])
    ≡ inl (non_retryable_error "expected n vectors")
unfolding embed_checked
wrong_count = refl

embed_checked-IsChecked_example :
    IsChecked (λ t. not (is_text t)) (λ n. "n") fake ("shawl" ∷ []) (zeros_text 768 ∷ [])
unfolding embed_checked
embed_checked-IsChecked_example =
    embed_checked-IsChecked (λ t. not (is_text t)) (λ n. "n") fake worker.embed ("shawl" ∷ [])
      (zeros_text 768 ∷ []) refl

abbrev seen_fabric : CatalogAttribute
seen_fabric = record {
  id = 1;
  product_id = 9;
  variant_id = none;
  key = "fabric";
  value = some "wool";
  source = "visual_suggestion";
  model_version = none;
  approved_by = none;
  approved_at = none;
  created_at = 1;
  updated_at = 1;
}

representation-approved_example :
    (product_representation
        (λ t. t)
        (λ c. false)
        (λ t. t ∷ [])
        (λ t. t)
        "shawl"
        none
        none
        none
        (select of_approved_source (seen_fabric ∷ []))
      ≡ product_representation
          (λ t. t)
          (λ c. false)
          (λ t. t ∷ [])
          (λ t. t)
          "shawl"
          none
          none
          none
          (seen_fabric ∷ []))
    × (variant_representation
          (λ t. t)
          (λ c. false)
          (λ t. t ∷ [])
          (λ t. t)
          "shawl"
          none
          none
          none
          none
          (select of_approved_source (seen_fabric ∷ []))
        ≡ variant_representation
            (λ t. t)
            (λ c. false)
            (λ t. t ∷ [])
            (λ t. t)
            "shawl"
            none
            none
            none
            none
            (seen_fabric ∷ []))
representation-approved_example =
    representation-approved (λ t. t) (λ c. false) (λ t. t ∷ []) (λ t. t) "shawl" none none none none
      none (seen_fabric ∷ []) refl
