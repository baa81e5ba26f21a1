-- ===== src/Hybrid/Fusion.antt =====
-- The rankings and their fusion of apps/backend/search/hybrid.py.
use elegance_shawls.Hybrid.Sorting.{sort}
use elegance_shawls.Base.{
  ◌&&◌, ◌*◌, ◌+◌, ◌/◌, ◌==◌, Bool, List, Option, String, [], ◌^◌, contains, if◌then◌else◌,
  first_seen, is_some, length, ltb, map, none, select, some, take, ◌||◌, ℕ, ◌∷◌,
}
use elegance_shawls.Search.Match.{Hit, product_key, product_words, is_empty}
use elegance_shawls.Query.Parse.{ParsedQuery}
use elegance_shawls.Keyset.{Key, key_less}

-- RRF_K
abbrev pub rrf_k : ℕ
rrf_k = 60

-- n / d, to the nearest.
abbrev pub nearest : ℕ → ℕ → ℕ
nearest n d = (2 * n + d) / (2 * d)

-- `rrf_score` in units of 10 ^ -12, the places that the source rounds to. The sum is exact here, where
-- the source adds floats.
unfoldable pub rrf_score : Option ℕ → Option ℕ → ℕ
rrf_score none none = 0
rrf_score (some l) none = nearest (10 ^ 12) (rrf_k + l)
rrf_score none (some s) = nearest (10 ^ 12) (rrf_k + s)
rrf_score (some l) (some s) =
    nearest (10 ^ 12 * (rrf_k + l + (rrf_k + s))) ((rrf_k + l) * (rrf_k + s))

abbrev pub hit_id : Hit → ℕ
hit_id h = h.product.id

abbrev pub hit_key : Hit → Key
hit_key h = product_key h.product

-- Catalogue order: the larger key first.
abbrev pub newer_hit : Hit → Hit → Bool
newer_hit a b = key_less (hit_key b) (hit_key a)

-- How many of the query's words the product holds.
unfoldable pub overlap : (String → List String) → List String → Hit → ℕ
unfolding product_words first_seen
overlap tokenize text h =
    length (select (λ t. contains t (product_words tokenize h.product)) (first_seen [] text))

-- The score of a hit: 0 for all where the query has no free words.
unfoldable pub lexical_score : (String → List String) → ParsedQuery → Hit → ℕ
unfolding overlap
lexical_score tokenize q h = if is_empty q.text then 0 else overlap tokenize q.text h

unfoldable pub is_lexical : (String → List String) → ParsedQuery → Hit → Bool
unfolding lexical_score
is_lexical tokenize q h = is_empty q.text || ltb 0 (lexical_score tokenize q h)

unfoldable pub more_overlap : (String → List String) → ParsedQuery → Hit → Hit → Bool
unfolding lexical_score
more_overlap tokenize q a b = ltb (lexical_score tokenize q b) (lexical_score tokenize q a)

unfoldable pub lexical_ranking : (String → List String) → ParsedQuery → List Hit → ℕ → List Hit
unfolding is_lexical more_overlap sort
lexical_ranking tokenize q hits k =
    take k (sort (more_overlap tokenize q) (sort newer_hit (select (is_lexical tokenize q) hits)))

-- The distance of a hit that has one.
abbrev pub distance_of : (ℕ → Option ℕ) → Hit → ℕ
distance_of distances h = elim (distances (hit_id h)) [ none ↦ 0 | some d ↦ d ]

abbrev pub has_distance : (ℕ → Option ℕ) → Hit → Bool
has_distance distances h = is_some (distances (hit_id h))

abbrev pub nearer : (ℕ → Option ℕ) → Hit → Hit → Bool
nearer distances a b = ltb (distance_of distances a) (distance_of distances b)

unfoldable pub semantic_ranking : List Hit → (ℕ → Option ℕ) → ℕ → List Hit
unfolding sort
semantic_ranking hits distances k =
    take k (sort (nearer distances) (sort newer_hit (select (has_distance distances) hits)))

-- An entry of the dict `ranks`.
pub record Entry : Type 0 where
  pub hit : Hit
  pub lexical : Option ℕ
  pub semantic : Option ℕ

pub data Branch : Type 0 where
  of_words of_vectors : Branch

abbrev pub first_rank : Option ℕ → ℕ → Option ℕ
first_rank none rank = some rank
first_rank (some older) rank = some older

abbrev pub ranked : Branch → ℕ → Entry → Entry
ranked Branch.of_words rank e = record e { lexical = first_rank e.lexical rank }
ranked Branch.of_vectors rank e = record e { semantic = first_rank e.semantic rank }

abbrev pub new_entry : Hit → Entry
new_entry h = record { hit = h; lexical = none; semantic = none }

-- `setdefault`, and the rank in the branch's slot.
unfoldable pub enter : Branch → ℕ → Hit → List Entry → List Entry
enter branch rank h [] = ranked branch rank (new_entry h) ∷ []
enter branch rank h (e ∷ es) =
    let rest = enter branch rank h es in
    if hit_id e.hit == hit_id h then ranked branch rank e ∷ es else e ∷ rest

-- `enumerate(branch, 1)`
unfoldable pub enter_branch : Branch → ℕ → List Hit → List Entry → List Entry
unfolding enter
enter_branch branch rank [] entries = entries
enter_branch branch rank (h ∷ hs) entries =
    enter_branch branch (rank + 1) hs (enter branch rank h entries)

-- (score, created_at, id)
pub record Position : Type 0 where
  pub score : ℕ
  pub key : Key

abbrev pub position_less : Position → Position → Bool
position_less a b = ltb a.score b.score || (a.score == b.score && key_less a.key b.key)

pub record Scored : Type 0 where
  pub score : ℕ
  pub hit : Hit

abbrev pub position_of : Scored → Position
position_of s = record { score = s.score; key = hit_key s.hit }

abbrev pub scored_entry : Entry → Scored
scored_entry e = record { score = rrf_score e.lexical e.semantic; hit = e.hit }

-- The dict after both branches.
unfoldable pub entries_of : List Hit → List Hit → List Entry
unfolding enter_branch
entries_of words vectors =
    enter_branch Branch.of_vectors 1 vectors (enter_branch Branch.of_words 1 words [])

abbrev pub higher : Scored → Scored → Bool
higher a b = position_less (position_of b) (position_of a)

unfoldable pub fuse : List Hit → List Hit → List Scored
unfolding entries_of rrf_score sort
fuse words vectors = sort higher (map scored_entry (entries_of words vectors))
