-- ===== src/Lib.antt =====
-- A verification library of the Elegance Shawls backend (apps/backend): the job queue of the scraper,
-- the human review that turns a scraped product into a public one, the product repository, its
-- attributes, the suggestions of a model on staged products, the embedding of the public catalogue, and
-- the catalogue search with its deterministic query parser.
--
-- How the parts interact. A worker claims a job of the queue, fetches and normalises the product of the
-- job's path, and stages it. A reviewer approves a staged product, which creates a draft product of the
-- catalogue, and publishes it, which makes that product active. Meanwhile a model may suggest attributes
-- of a staged product, which nothing but a reviewer reads. The public products and variants are
-- represented as texts, with their attributes of approved sources, and embedded; the search parses a
-- query and scans the active products in pages, and the hybrid search fuses the ranking by words with
-- the ranking by vectors. A refresh discovers the products of a source in its sitemaps, queues a job for
-- each that is new or changed, lets a worker run them, and counts what became of them.
--
-- Files and code, where P is apps/backend:
--   Jobs        P/repositories/jobs.py over the table ingestion_jobs of P/models/relational_model.py.
--               Jobs/Row the row and the settings, Jobs/Queue create_job, requeue_job and claim_next,
--               Jobs/Leases heartbeat, complete_job, fail_job, recover_expired_leases and cancel_job,
--               Jobs/History any sequence of them.
--   Catalogue   P/repositories/products.py and the errors of P/repositories/__init__.py.
--               Catalogue/Rows the tables products and variants, Catalogue/Inputs the inputs and the
--               columns made of them, Catalogue/Products the operations.
--   Staged      P/repositories/staged.py and the workflow of P/schemas/ingestion_schema.py.
--               Staged/Staging stage_product and list_staged, Staged/Review transition and the review
--               actions, Staged/Steps any of them as one step of the database.
--   Query       P/catalog/query.py. Query/Terms the vocabulary and _segment, Query/Parse parse_query.
--   Search      P/catalog/search.py. Search/Match evaluate, Search/Page search_page.
--   Attributes  P/catalog/attributes.py and P/repositories/attributes.py. Attributes/Values validation
--               and derivation, Attributes/Rows upsert_attributes over catalog_attributes.
--   Enrichment  P/repositories/enrichment.py and P/enrichment/service.py. Enrichment/Suggestions the table
--               enrichment_suggestions and its operations, Enrichment/Generate generate,
--               Enrichment/Process process.
--   Embeddings  P/repositories/embeddings.py, P/search/embedding_service.py, P/search/representations.py
--               and P/search/providers.py. Embeddings/Rows the table and its operations,
--               Embeddings/Representation the embedded texts, Embeddings/Provider embed_checked,
--               Embeddings/Sources load_source, ensure_pending and active_embeddings, Embeddings/Process
--               process.
--   RateLimit   P/security/rate_limit.py. RateLimit/Limiter the decision on a request,
--               RateLimit/Window the runs of the local window.
--   Gateway     P/llm/gateway.py. Gateway/Budget the BudgetTracker, Gateway/Chain chain and complete
--               of the LLMGateway.
--   Hybrid      P/search/hybrid.py. Hybrid/Sorting Python's sort, Hybrid/Fusion the rankings and fuse,
--               Hybrid/Page eligible_hits and hybrid_page.
--   Sitemaps    P/ingestion/sitemap.py. Sitemaps/Fetch _fetch_sitemap, Sitemaps/Discover
--               discover_products.
--   Worker      process_next_job of P/ingestion/worker.py.
--   Refresh     P/ingestion/refresh.py. Refresh/Plan select_explicit_products, _needs_refresh and _queue,
--               Refresh/Tally _tally.
--   Cursors     P/utils/pagination.py. Cursors/Codec encode_cursor and decode_cursor.
--   Fx          P/ingestion/fx.py. Fx/Rates parse_rate and get_pkr_rate.
--   Fetcher     P/ingestion/safe_fetch.py. Fetcher/Policy validate_url and resolve_public, Fetcher/Transfer
--               _get_once, Fetcher/Redirects SafeFetcher.fetch.
--   Keyset      the keyset pagination of the listings and of the search.
--   Base        lists, tables by a primary key, texts.
--
-- Conventions. A table is a list of rows with a natural number for its UUID, and an operation maps the
-- tables before to the tables after; a transaction or savepoint under a row lock is one step, and an
-- error undoes it; the two statements of an embedding's completion lock no other row of its owner,
-- and what other sessions commit between them is an argument. Times are seconds and prices of the
-- source hundredths, as natural numbers. The clock, the drawn primary keys, the rows that other
-- transactions hold locked, SHA-256, the tokenizer, the regular expressions and the constraints'
-- patterns are arguments.
--
-- Fuel. _segment gets the number of tokens, since each round consumes one; search_page and
-- eligible_hits get one round more than the rows that they may examine, since each round examines one or
-- ends; discover_products gets one round more than the sitemaps that it may fetch, since each round
-- fetches another or ends, and _fetch_sitemap the attempts of a job; a fetch gets its
-- max_redirects + 1 hops; upsert_attributes gets the
-- number of attributes for its chunks, each of which takes at least one; generate gets MAX_ATTEMPTS,
-- since each attempt is counted.
--
-- Scores of the hybrid search are exact to 10 ^ -12, the places that the source rounds its floats to.
--
-- Not modelled: replace_product; errors that are no Exception, as the cancellation of a task; run_refresh
-- and its summary, run_job and the extraction of a page; the cursor of the hybrid search and its
-- distances, which are an argument; the enrichment's prompts and parse_response; the XML of sitemaps and
-- the test of a sitemap's URL, which are arguments; the spacing of a fetcher's requests; the LLM clients,
-- the gateway's spending warnings and shared ledger, and the limiter's Redis counter, which are
-- arguments or left out; the HTTP routes, network and database drivers, tracing, the frontend and
-- deployment, which are input and output.
pub mod Attributes
pub mod Base
pub mod Catalogue
pub mod Cursors
pub mod Embeddings
pub mod Enrichment
pub mod Fetcher
pub mod Fx
pub mod Gateway
pub mod Hybrid
pub mod Jobs
pub mod Keyset
pub mod Query
pub mod RateLimit
pub mod Refresh
pub mod Search
pub mod Sitemaps
pub mod Staged
pub mod Worker
