-- ===== src/Enrichment/Open.antt =====
-- apps/backend/repositories/enrichment.py: the open suggestion of a staged product.
use elegance_shawls.Base.{
  ◌==◌, Bool-cases, [], arith, find, inl, inr, none, refl, replace, some, some_inj, sym, true, ℕ,
  ◌∙◌, ◌∷◌, ◌≡◌, ap, ◌++◌, ◌≢◌,
}
use elegance_shawls.Enrichment.Suggestions.{
  Suggestion, Suggestions, find_suggestion, is_open, find_open,
}

-- No two rows of a staged product are queued or running.
abbrev pub OneOpen : Suggestions → Type 0
OneOpen [] = Unit {0}
OneOpen (r ∷ rs) = (is_open r.status ≡ true → find_open r.staged_product_id rs ≡ none) × OneOpen rs

find_open-replace :
    (staged_id i : ℕ) (r r' : Suggestion) (rows : Suggestions)
    → find_suggestion i rows ≡ some r
    → r'.staged_product_id ≡ r.staged_product_id
    → is_open r.status ≡ true
    → find_open staged_id rows ≡ none
    → find_open staged_id (replace (λ k. k.id) i r' rows) ≡ none
unfolding find_open replace find
find_open-replace staged_id i r r' [] e s o h = refl
find_open-replace staged_id i r r' (x ∷ xs) e s o h =
    ground (arith, find_open-replace staged_id i r r' xs)

pub replace-OneOpen :
    (i : ℕ) (r r' : Suggestion) (rows : Suggestions)
    → find_suggestion i rows ≡ some r
    → r'.staged_product_id ≡ r.staged_product_id
    → is_open r.status ≡ true
    → OneOpen rows
    → OneOpen (replace (λ k. k.id) i r' rows)
unfolding find replace
replace-OneOpen i r r' [] e s o v = tt
replace-OneOpen i r r' (x ∷ xs) e s o (v, vs) = elim (Bool-cases (x.id == i)) [
  | inl p ↦
      let same : x ≡ r = some_inj (rw p at e) in
      rw p (
        (λ q. rw (s ∙ ap (λ (k : Suggestion). k.staged_product_id) (sym same)) (v (rw same o))),
        vs,
      )
  | inr p ↦ rw p (
    (λ q. find_open-replace x.staged_product_id i r r' xs (rw p at e) s o (v q)),
    replace-OneOpen i r r' xs (rw p at e) s o vs,
  )
]

find_open-append :
    (staged_id : ℕ) (r : Suggestion) (rows : Suggestions)
    → find_open staged_id rows ≡ none
    → r.staged_product_id ≢ staged_id
    → find_open staged_id (rows ++ r ∷ []) ≡ none
unfolding find_open
find_open-append staged_id r [] e h = ground arith
find_open-append staged_id r (x ∷ xs) e h = ground (arith, find_open-append staged_id r xs)

pub append-OneOpen :
    (r : Suggestion) (rows : Suggestions)
    → find_open r.staged_product_id rows ≡ none
    → is_open r.status ≡ true
    → OneOpen rows
    → OneOpen (rows ++ r ∷ [])
unfolding find_open
append-OneOpen r [] e o v = ((λ q. refl), tt)
append-OneOpen r (x ∷ xs) e o (v, vs) = (
  λ q. find_open-append x.staged_product_id r xs (v q) (λ s. ground arith),
  append-OneOpen r xs (ground arith) o vs,
)
