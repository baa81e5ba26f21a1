-- ===== src/Hybrid/Ranked.antt =====
-- apps/backend/search/hybrid.py: the rankings and their fusion only order, cut and deduplicate the
-- eligible hits.
use mathlib.Core.Path.{subst}
use elegance_shawls.Hybrid.Page.{near_hits}
use elegance_shawls.Hybrid.Sorting.{
  Pairwise, select-every, sort-Pairwise, sort-every, take-every, sort,
}
use elegance_shawls.Hybrid.Fusion.{
  Branch, Entry, Scored, enter, enter_branch, fuse, hit_id, lexical_ranking, new_entry, newer_hit,
  ranked, scored_entry, semantic_ranking, entries_of, has_distance, higher, is_lexical,
  more_overlap, nearer,
}
use elegance_shawls.Base.{
  ◌+◌, ◌==◌, All, Bool-cases, List, Option, String, [], arith, inl, inr, map, none, refl, some, sym,
  ℕ, ◌∷◌, ◌≡◌, ◌≢◌, Bool, select, take,
}
use elegance_shawls.Search.Match.{Hit}
use elegance_shawls.Query.Parse.{ParsedQuery}

-- A cut of a twice sorted selection.
cut-every {κ} :
    (P : Hit → Type κ) (k : ℕ) (ahead first : Hit → Hit → Bool) (p : Hit → Bool) (hits : List Hit)
    → All P hits
    → All P (take k (sort ahead (sort first (select p hits))))
cut-every P k ahead first p hits h =
    let chosen = select-every P p hits h in
    take-every P k (sort ahead (sort first (select p hits)))
      (sort-every ahead P (sort first (select p hits)) (sort-every first P (select p hits) chosen))

pub lexical_ranking-every {κ} :
    (P : Hit → Type κ) (tokenize : String → List String) (q : ParsedQuery) (hits : List Hit) (k : ℕ)
    → All P hits
    → All P (lexical_ranking tokenize q hits k)
unfolding lexical_ranking
lexical_ranking-every P tokenize q hits k h =
    cut-every P k (more_overlap tokenize q) newer_hit (is_lexical tokenize q) hits h

pub near_hits-every {κ} :
    (P : Hit → Type κ) (semantic : Option (List Hit → ℕ → ℕ → Option ℕ)) (hits : List Hit) (k : ℕ)
    → All P hits
    → All P (near_hits semantic hits k)
unfolding near_hits semantic_ranking
near_hits-every P none hits k h = tt
near_hits-every P (some semantic) [] k h = tt
near_hits-every P (some semantic) (x ∷ xs) k h =
    let distances = semantic (x ∷ xs) k in
    cut-every P k (nearer distances) newer_hit (has_distance distances) (x ∷ xs) h

ranked-hit : (branch : Branch) (rank : ℕ) (e : Entry) → (ranked branch rank e).hit ≡ e.hit
ranked-hit Branch.of_words rank e = refl
ranked-hit Branch.of_vectors rank e = refl

enter-every {κ} :
    (P : Hit → Type κ) (branch : Branch) (rank : ℕ) (h : Hit) (es : List Entry)
    → P h
    → All (λ e. P e.hit) es
    → All (λ e. P e.hit) (enter branch rank h es)
unfolding enter
enter-every P branch rank h [] p ps = (subst P (sym (ranked-hit branch rank (new_entry h))) p, tt)
enter-every P branch rank h (e ∷ es) p ps = elim (Bool-cases (hit_id e.hit == hit_id h)) [
  | inl q ↦ rw q (subst P (sym (ranked-hit branch rank e)) ps.0, ps.1)
  | inr q ↦ rw q (ps.0, enter-every P branch rank h es p ps.1)
]

enter_branch-every {κ} :
    (P : Hit → Type κ) (branch : Branch) (rank : ℕ) (hits : List Hit) (es : List Entry)
    → All P hits
    → All (λ e. P e.hit) es
    → All (λ e. P e.hit) (enter_branch branch rank hits es)
unfolding enter_branch
enter_branch-every P branch rank [] es h ps = ps
enter_branch-every P branch rank (x ∷ xs) es h ps =
    enter_branch-every P branch (rank + 1) xs (enter branch rank x es) h.1
      (enter-every P branch rank x es h.0 ps)

-- Two different products.
abbrev pub Apart : Hit → Hit → Type 0
Apart a b = hit_id a ≢ hit_id b

enter-Pairwise :
    (branch : Branch) (rank : ℕ) (h : Hit) (es : List Entry)
    → Pairwise (λ a b. Apart a.hit b.hit) es
    → Pairwise (λ a b. Apart a.hit b.hit) (enter branch rank h es)
unfolding enter
enter-Pairwise branch rank h [] d = (tt, tt)
enter-Pairwise branch rank h (e ∷ es) d = elim (Bool-cases (hit_id e.hit == hit_id h)) [
  | inl q ↦
      rw q (subst (λ x. All (λ b. Apart x b.hit) es) (sym (ranked-hit branch rank e)) d.0, d.1)
  | inr q ↦ rw q (
    enter-every (Apart e.hit) branch rank h es (λ p. ground arith) d.0,
    enter-Pairwise branch rank h es d.1,
  )
]

enter_branch-Pairwise :
    (branch : Branch) (rank : ℕ) (hits : List Hit) (es : List Entry)
    → Pairwise (λ a b. Apart a.hit b.hit) es
    → Pairwise (λ a b. Apart a.hit b.hit) (enter_branch branch rank hits es)
unfolding enter_branch
enter_branch-Pairwise branch rank [] es d = d
enter_branch-Pairwise branch rank (x ∷ xs) es d =
    enter_branch-Pairwise branch (rank + 1) xs (enter branch rank x es)
      (enter-Pairwise branch rank x es d)

scored-every {κ} :
    (P : Hit → Type κ) (es : List Entry)
    → All (λ e. P e.hit) es
    → All (λ s. P s.hit) (map scored_entry es)
scored-every P [] h = tt
scored-every P (e ∷ es) h = (h.0, scored-every P es h.1)

scored-Pairwise :
    (es : List Entry)
    → Pairwise (λ a b. Apart a.hit b.hit) es
    → Pairwise (λ a b. Apart a.hit b.hit) (map scored_entry es)
scored-Pairwise [] d = tt
scored-Pairwise (e ∷ es) d = (scored-every (Apart e.hit) es d.0, scored-Pairwise es d.1)

pub fuse-every {κ} :
    (P : Hit → Type κ) (lexical semantic : List Hit)
    → All P lexical
    → All P semantic
    → All (λ s. P s.hit) (fuse lexical semantic)
unfolding fuse entries_of
fuse-every P words vectors h h' =
    let first = enter_branch Branch.of_words 1 words [] in
    let entered =
      enter_branch-every P Branch.of_vectors 1 vectors first h'
        (enter_branch-every P Branch.of_words 1 words [] h tt) in
    sort-every higher (λ (s : Scored). P s.hit) (map scored_entry (entries_of words vectors))
      (scored-every P (entries_of words vectors) entered)

-- The fusion has every product once.
pub fuse-Pairwise :
    (lexical semantic : List Hit) → Pairwise (λ a b. Apart a.hit b.hit) (fuse lexical semantic)
unfolding fuse entries_of
fuse-Pairwise words vectors =
    let first = enter_branch Branch.of_words 1 words [] in
    let entered =
      enter_branch-Pairwise Branch.of_vectors 1 vectors first
        (enter_branch-Pairwise Branch.of_words 1 words [] tt) in
    sort-Pairwise (λ (a b : Scored). Apart a.hit b.hit) (λ a b ne e. ne (sym e)) higher
      (map scored_entry (entries_of words vectors))
      (scored-Pairwise (entries_of words vectors) entered)
