-- ===== src/Hybrid/Eligible.antt =====
-- apps/backend/search/hybrid.py: a page of the hybrid search has eligible products only, each once.
use elegance_shawls.Hybrid.Page.{
  behind, eligible_from, eligible_hits, hybrid_page, last_row, near_hits, page_of, is_behind,
}
use elegance_shawls.Query.Terms.{Vocabulary}
use elegance_shawls.Catalogue.Rows.{Product}
use elegance_shawls.Hybrid.Fusion.{Position, Scored, fuse, lexical_ranking}
use elegance_shawls.Hybrid.Sorting.{
  Pairwise, select-Pairwise, select-every, take-Pairwise, take-every,
}
use elegance_shawls.Keyset.{Key}
use elegance_shawls.Hybrid.Ranked.{
  Apart, fuse-Pairwise, fuse-every, lexical_ranking-every, near_hits-every,
}
use elegance_shawls.Base.{
  ◌+◌, ◌++◌, ◌-◌, All, All-append, Bool-cases, List, Option, Option-cases, String, [], arith, inl,
  inr, length, length-take-le, ltb, map, max, min, none, refl, some, suc, take, zero, ℕ, ◌∷◌, ◌≡◌,
  ◌≤◌, ap,
}
use elegance_shawls.Search.Match.{Hit, evaluate, hits_of, is_empty}
use elegance_shawls.Search.Page.{max_limit}
use elegance_shawls.Query.Parse.{ParsedQuery}

-- The hit is what the exact filters make of a product.
abbrev pub IsEligible : (Product → Option Hit) → Hit → Type 0
IsEligible eval h = (p : Product) × (eval p ≡ some h)

hits_of-every :
    (eval : Product → Option Hit) (rows : List Product) → All (IsEligible eval) (hits_of eval rows)
unfolding hits_of
hits_of-every eval [] = tt
hits_of-every eval (p ∷ ps) = elim (Option-cases (eval p)) [
  | inl q ↦ rw (hits_of, q) (hits_of-every eval ps)
  | inr (h, q) ↦ rw (hits_of, q) ((p, q), hits_of-every eval ps)
]

eligible_from-every :
    (eval : Product → Option Hit) (fetch : Option Key → ℕ → List Product) (batch max_scan fuel : ℕ)
    (hits : List Hit) (scanned : ℕ) (last : Option Key)
    → All (IsEligible eval) hits
    → All (IsEligible eval) (eligible_from eval fetch batch max_scan fuel hits scanned last)
unfolding eligible_from
eligible_from-every eval fetch batch max_scan zero hits scanned last h = h
eligible_from-every eval fetch batch max_scan (suc fuel) hits scanned last h =
    let n = min batch (max_scan - scanned) in
    let rows = fetch last n in
    let found = hits ++ hits_of eval rows in
    let ok = All-append (IsEligible eval) hits (hits_of eval rows) h (hits_of-every eval rows) in
    elim (Bool-cases (ltb scanned max_scan)) [
      | inr q ↦ rw q h
      | inl q ↦ elim (Bool-cases (ltb (length rows) n)) [
        | inl p ↦ rw (q, p) ok
        | inr p ↦
            rw (q, p)
              (eligible_from-every eval fetch batch max_scan fuel found (scanned + length rows)
                (last_row last rows) ok)
      ]
    ]

map-hits {κ} :
    (P : Hit → Type κ) (ss : List Scored) → All (λ s. P s.hit) ss → All P (map (λ s. s.hit) ss)
map-hits P [] h = tt
map-hits P (s ∷ ss) h = (h.0, map-hits P ss h.1)

map-Apart :
    (ss : List Scored)
    → Pairwise (λ a b. Apart a.hit b.hit) ss
    → Pairwise Apart (map (λ s. s.hit) ss)
map-Apart [] d = tt
map-Apart (s ∷ ss) d = (map-hits (Apart s.hit) ss d.0, map-Apart ss d.1)

map-length : (ss : List Scored) → length (map (λ s. s.hit) ss) ≡ length ss
map-length [] = refl
map-length (s ∷ ss) = ap suc (map-length ss)

behind-every {κ} :
    (P : Hit → Type κ) (cursor : Option Position) (ss : List Scored)
    → All (λ s. P s.hit) ss
    → All (λ s. P s.hit) (behind cursor ss)
behind-every P none ss h = h
behind-every P (some cursor) ss h = select-every (λ (s : Scored). P s.hit) (is_behind cursor) ss h

behind-Pairwise :
    (cursor : Option Position) (ss : List Scored)
    → Pairwise (λ a b. Apart a.hit b.hit) ss
    → Pairwise (λ a b. Apart a.hit b.hit) (behind cursor ss)
behind-Pairwise none ss d = d
behind-Pairwise (some cursor) ss d =
    select-Pairwise (λ (a b : Scored). Apart a.hit b.hit) (is_behind cursor) ss d

-- Whatever the distances, the batches of rows, the cursor and the bounds: every hit of a page is what
-- the exact filters of the query, without its free words, make of some product; no product is twice on
-- the page; and the page has at most 50 hits. No overlap of words and no vector makes a product
-- eligible.
pub hybrid_page-IsEligible :
    (tokenize : String → List String) (vocab : Vocabulary) (fetch : Option Key → ℕ → List Product)
    (q : ParsedQuery) (semantic : Option (List Hit → ℕ → ℕ → Option ℕ)) (limit : ℕ)
    (cursor : Option Position) (k_lexical k_semantic max_scan batch : ℕ)
    → (let page =
          (hybrid_page tokenize vocab fetch q semantic limit cursor k_lexical k_semantic max_scan
            batch).0 in
        All (IsEligible (evaluate tokenize vocab (record q { text = [] }))) page
        × Pairwise Apart page
        × (length page ≤ 50))
unfolding hybrid_page page_of eligible_hits
hybrid_page-IsEligible tokenize vocab fetch q semantic limit cursor k_lexical k_semantic max_scan
      batch =
    elim (Bool-cases (is_empty q.unsupported)) [
      | inr p ↦ rw p (tt, tt, omega arith)
      | inl p ↦
          let eval = evaluate tokenize vocab (record q { text = [] }) in
          let hits = eligible_hits eval fetch batch max_scan in
          let words = lexical_ranking tokenize q hits k_lexical in
          let vectors = near_hits semantic hits k_semantic in
          let n = max 1 (min limit max_limit) in
          let ok : All (IsEligible eval) hits =
            eligible_from-every eval fetch batch max_scan (max_scan + 1) [] 0 none tt in
          let every = behind-every (IsEligible eval) cursor (fuse words vectors) (
            fuse-every (IsEligible eval) words vectors
              (lexical_ranking-every (IsEligible eval) tokenize q hits k_lexical ok)
              (near_hits-every (IsEligible eval) semantic hits k_semantic ok)) in
          let apart = behind-Pairwise cursor (fuse words vectors) (fuse-Pairwise words vectors) in
          let page = take n (behind cursor (fuse words vectors)) in
          rw p (
            map-hits (IsEligible eval) page (
                take-every (λ (s : Scored). IsEligible eval s.hit) n
                  (behind cursor (fuse words vectors)) every),
            map-Apart page (
                take-Pairwise (λ (a b : Scored). Apart a.hit b.hit) n
                  (behind cursor (fuse words vectors)) apart),
            omega (arith, map-length page, length-take-le n (behind cursor (fuse words vectors))),
          )
    ]
