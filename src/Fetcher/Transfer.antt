-- ===== src/Fetcher/Transfer.antt =====
-- `_get_once` of apps/backend/ingestion/safe_fetch.py: one request and the bounded reading of its
-- response. The client's behaviour is an argument.
use elegance_shawls.Base.{
  ◌++◌, ◌<>◌, ◌==◌, Bool, List, Option, String, [], contains, if◌then◌else◌, false, inl, inr,
  is_text, leb, length, ltb, none, not, some, true, ◌||◌, ℕ, ◌∷◌, ◌⊎◌,
}
use elegance_shawls.Fetcher.Policy.{FetchError}

-- How the stream of a body ends.
pub data Ending : Type 0 where
  finished read_timeout : Ending
  read_failed : (name : String) → Ending

-- A response: `content_type` is what stands before the first semicolon, in lower case, and
-- `declared` the Content-Length, where it is a number.
pub record Response : Type 0 where
  pub status : ℕ
  pub location : Option String
  pub content_type : String
  pub declared : Option ℕ
  pub chunks : List (List ℕ)
  pub ending : Ending

pub data Sent : Type 0 where
  timed_out : Sent
  transport_error : (name : String) → Sent
  answered : Response → Sent

-- What `_get_once` returns beside the URL; the body is in bytes, and the caller decodes it.
pub record Answer : Type 0 where
  pub status : ℕ
  pub location : Option String
  pub body : List ℕ

abbrev pub is_redirect : ℕ → Bool
is_redirect status =
    status == 301 || (status == 302 || (status == 303 || (status == 307 || status == 308)))

-- The loop over the chunks, with the bytes that are read.
unfoldable pub read_chunks : ℕ → Ending → List (List ℕ) → List ℕ → FetchError ⊎ List ℕ
read_chunks bound Ending.finished [] read = inr read
read_chunks bound Ending.read_timeout [] read = inl (FetchError.fetch_error "Read timed out" true)
read_chunks bound (Ending.read_failed name) [] read =
    inl (FetchError.fetch_error ("Read failed: " <> name) true)
read_chunks bound e (c ∷ cs) read =
    let rest = read_chunks bound e cs (read ++ c) in
    if ltb bound (length (read ++ c)) then inl FetchError.response_too_large else rest

abbrev pub is_declared_too_large : ℕ → Option ℕ → Bool
is_declared_too_large bound none = false
is_declared_too_large bound (some n) = ltb bound n

abbrev pub or_missing : String → String
or_missing t = if is_text t then t else "missing"

unfoldable pub read_body : ℕ → Response → FetchError ⊎ Answer
unfolding read_chunks
read_body bound r = elim (read_chunks bound r.ending r.chunks []) [
  | inl e ↦ inl e
  | inr body ↦ inr (record { status = r.status; location = none; body = body })
]

unfoldable pub read_response : ℕ → List String → Response → FetchError ⊎ Answer
unfolding read_body
read_response bound content_types r =
    if is_redirect r.status || leb 400 r.status
    then inr (record { status = r.status; location = r.location; body = [] })
    else if not (contains r.content_type content_types)
    then inl
        (FetchError.fetch_error ("Unsupported content type: " <> or_missing r.content_type) false)
    else if is_declared_too_large bound r.declared
    then inl FetchError.response_too_large
    else read_body bound r

unfoldable pub get_once : ℕ → List String → Sent → FetchError ⊎ Answer
unfolding read_response
get_once bound content_types Sent.timed_out = inl (FetchError.fetch_error "Request timed out" true)
get_once bound content_types (Sent.transport_error name) =
    inl (FetchError.fetch_error ("Connection failed: " <> name) true)
get_once bound content_types (Sent.answered r) = read_response bound content_types r
