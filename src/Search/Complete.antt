-- ===== src/Search/Complete.antt =====
-- The scan loop of apps/backend/catalog/search.py, and the pages it gives.

use elegance_shawls.Query.Terms.{Vocabulary}
use elegance_shawls.Query.Parse.{ParsedQuery}
use mathlib.Core.Path.{subst}
use elegance_shawls.Search.Page.{Scan, scan_rows, scan_from, settle, max_limit, search_page}
use elegance_shawls.Catalogue.Rows.{Product}
use elegance_shawls.Search.Match.{Hit, hits_of, product_key, is_empty, evaluate}
use elegance_shawls.Keyset.{Descending, Key, after, key_less}
use elegance_shawls.Base.{
  ◌++◌, ◌<◌, List, Option, [], arith, inl, inr, length, none, some, suc, take, zero, ℕ, ◌∷◌, ◌≡◌,
  ◌+◌, ◌≤◌, ◌-◌, Bool-cases, drop, ltb, ltb-false→le, ltb→lt, sym, ◌∙◌, refl, ap, false, is_some,
  not, true, ◌||◌, min, take-append-drop, drop_short, true-ne-false, String, max,
}
use elegance_shawls.Search.Batches.{
  remaining, full_page-remaining, Accounts, scan_rows-Accounts, scan_rows-last,
}

module _ (eval : Product → Option Hit) (pool : List Product)
    (exact : (p : Product) (h : Hit) → eval p ≡ some h → h.product ≡ p)
    (descending : Descending key_less product_key pool) where
  module _ (fetch : Option Key → ℕ → List Product)
      (reads : (position : Option Key) (n : ℕ)
        → fetch position n ≡ take n (after key_less product_key position pool))
      (position : Option Key) (limit batch max_scan : ℕ) (pos : 0 < limit)
      (stride : 0 < batch) where
    -- The loop has examined as many rows as it may, and knows a position.
    ended :
        (total hits : List Hit) (last : Option Key)
        → total ≡ hits ++ hits_of eval (after key_less product_key last pool)
        → is_some last ≡ true
        → hits ++ remaining eval pool last ≡ total
    ended total hits none q h = cc
    ended total hits (some k) q h = sym q

    abbrev scanning : ℕ → List Hit → ℕ → Option Key → List Hit × Option Key
    scanning = scan_from eval fetch limit batch max_scan

    scan_from_stop :
        (fuel : ℕ) (hits : List Hit) (scanned : ℕ) (last : Option Key)
        → ltb scanned max_scan ≡ false
        → scanning (suc fuel) hits scanned last ≡ (hits, last)
    unfolding scan_from
    scan_from_stop fuel hits scanned last e = rw (e, scan_from) refl

    scan_from_go :
        (fuel : ℕ) (hits : List Hit) (scanned n : ℕ) (last : Option Key)
        → ltb scanned max_scan ≡ true
        → min batch (max_scan - scanned) ≡ n
        → scanning (suc fuel) hits scanned last
          ≡ settle limit n
              (length (fetch last n))
              (scanning fuel)
              (scan_rows eval limit (fetch last n) hits scanned last)
    unfolding scan_from
    scan_from_go fuel hits scanned n last e m = rw (e, scan_from, m) refl

    -- The page and what remains behind it are all hits.
    Covers : List Hit → List Hit × Option Key → Type 0
    Covers total r = r.0 ++ remaining eval pool r.1 ≡ total

    -- Which state of the loop is right.
    record IsRight (total hits : List Hit) (scanned fuel : ℕ) (last : Option Key) : Type 0 where
      whole : hits_of eval (after key_less product_key position pool) ≡ total
      accounts : total ≡ hits ++ hits_of eval (after key_less product_key last pool)
      fits : length hits ≤ limit
      fueled : max_scan < scanned + fuel
      begun : is_some last ≡ false → scanned < max_scan

    nonempty :
        (rows : List Product)
        → 0 < length rows
        → (start : Option Key) → (is_some start || not (is_empty rows)) ≡ true
    nonempty [] h start = absurd (omega arith)
    nonempty (p ∷ ps) h start = ground arith

    settle-Covers :
        (total : List Hit) (fuel n scanned : ℕ) (start : Option Key) (hits : List Hit)
        (rows behind : List Product) (s : Scan)
        → scan_rows eval limit rows hits scanned start ≡ s
        → behind ≡ drop n (after key_less product_key start pool)
        → rows ≡ take n (after key_less product_key start pool)
        → 0 < n
        → IsRight total hits scanned (suc fuel) start
        → Accounts eval pool exact descending total limit (scanned + length rows) behind s
        → ((found : List Hit) (seen : ℕ) (last : Option Key)
            → IsRight total found seen fuel last
            → Covers total (scanning fuel found seen last))
        → Covers total (settle limit n (length rows) (scanning fuel) s)
    unfolding settle Accounts Covers hits_of
    settle-Covers total fuel n scanned start hits rows behind (Scan.full found) e split cut p r
          (long, rest, q) ih =
        full_page-remaining eval pool exact descending position _ limit found rest refl
          (r.whole ∙ q) pos long
        ∙ sym q
    settle-Covers total fuel n scanned start hits rows behind (Scan.more found seen last) e split
          cut p r (count, q, fits, back) ih =
        elim (Bool-cases (ltb (length rows) n)) [
          | inl short ↦
              let none_left : behind ≡ [] =
                split ∙ drop_short n _ (subst (λ l. length l < n) cut (ltb→lt _ _ short)) in
              let no_hits : hits_of eval (after key_less product_key last pool) ≡ [] =
                ap (hits_of eval) (back ∙ none_left) in
              rw (short, settle) (ap (λ l. found ++ l) (sym no_hits) ∙ sym q)
          | inr long ↦
              rw (long, settle)
                (ih found seen last (record {
                  whole = r.whole;
                  accounts = q;
                  fits = fits;
                  fueled = omega (arith, count, r.fueled, ltb-false→le _ _ long);
                  begun = λ b. absurd (
                      true-ne-false (
                        sym (
                          scan_rows-last eval pool exact descending limit rows hits found scanned
                            seen start last e
                            (nonempty rows (omega (arith, ltb-false→le _ _ long)) start))
                        ∙ b));
                }))
        ]

    -- From a right state of the loop, the page and what remains are all hits.
    scan_from-Covers :
        (total : List Hit) (fuel : ℕ) (hits : List Hit) (scanned : ℕ) (last : Option Key)
        → IsRight total hits scanned fuel last
        → Covers total (scanning fuel hits scanned last)
    unfolding Covers
    scan_from-Covers total zero hits scanned last r =
        unfold scan_from in
        ended total hits last r.accounts (elim (Bool-cases (is_some last)) [
          | inl y ↦ y
          | inr n ↦ absurd (omega (arith, r.begun n, r.fueled))
        ])
    scan_from-Covers total (suc fuel) hits scanned last r =
        elim (Bool-cases (ltb scanned max_scan)) [
          | inr stop ↦ rw (scan_from_stop fuel hits scanned last stop) (
              ended total hits last r.accounts (elim (Bool-cases (is_some last)) [
                | inl y ↦ y
                | inr n ↦ absurd (omega (arith, r.begun n, ltb-false→le scanned max_scan stop))
              ]))
          | inl go ↦
              let n = min batch (max_scan - scanned) in
              let room : scanned < max_scan = ltb→lt scanned max_scan go in
              let rows = fetch last n in
              let cut : rows ≡ take n (after key_less product_key last pool) = reads last n in
              let split : after key_less product_key last pool
                  ≡ rows ++ drop n (after key_less product_key last pool) =
                rw cut (sym (take-append-drop n _)) in
              rw (scan_from_go fuel hits scanned n last go refl) (
                settle-Covers total fuel n scanned last hits rows
                  (drop n (after key_less product_key last pool))
                  (scan_rows eval limit rows hits scanned last) refl refl cut (omega arith) r
                  (scan_rows-Accounts eval pool exact descending total limit rows
                    (drop n (after key_less product_key last pool)) hits scanned
                    (scanned + length rows) last refl split
                    (r.accounts ∙ ap (λ l. hits ++ hits_of eval l) split) r.fits)
                  (scan_from-Covers total fuel))
        ]

-- The repository's batch read is the first rows of the catalogue order behind a position.
abbrev pub Reads : List Product → (Option Key → ℕ → List Product) → Type 0
Reads pool fetch =
    (position : Option Key) (n : ℕ)
    → fetch position n ≡ take n (after key_less product_key position pool)

evaluate-product :
    (tokenize : String → List String) (vocab : Vocabulary) (q : ParsedQuery) (p : Product) (h : Hit)
    → evaluate tokenize vocab q p ≡ some h
    → h.product ≡ p
unfolding evaluate
evaluate-product tokenize vocab q p h e = ground arith

-- If the listing is in strictly descending order of (created_at, id), the batches are read from it,
-- a batch and the scan budget are positive and the query has no unsupported part, then a page of the search
-- followed by all the hits behind its continuation (none if it reports exhaustion) is exactly the list of
-- matches behind the given position: no match is lost, repeated or reordered, whatever the limit, the
-- batch size and the budget.
pub search_page_complete :
    (tokenize : String → List String) (vocab : Vocabulary) (q : ParsedQuery) (pool : List Product)
    (fetch : Option Key → ℕ → List Product) (limit batch max_scan : ℕ) (position : Option Key)
    → Descending key_less product_key pool
    → Reads pool fetch
    → 0 < batch
    → 0 < max_scan
    → is_empty q.unsupported ≡ true
    → (search_page (evaluate tokenize vocab q) fetch q limit position batch max_scan).0
        ++ remaining
            (evaluate tokenize vocab q)
            pool
            (search_page (evaluate tokenize vocab q) fetch q limit position batch max_scan).1
      ≡ hits_of (evaluate tokenize vocab q) (after key_less product_key position pool)
unfolding search_page Covers
search_page_complete tokenize vocab q pool fetch limit batch max_scan position d reads b m u =
    rw (u, search_page)
      (scan_from-Covers (evaluate tokenize vocab q) pool (evaluate-product tokenize vocab q) d fetch
        reads position (max 1 (min limit max_limit)) batch max_scan (omega arith) b
        (hits_of (evaluate tokenize vocab q) (after key_less product_key position pool))
        (max_scan + 1) [] 0 position
        (record {
          whole = refl;
          accounts = refl;
          fits = omega arith;
          fueled = omega arith;
          begun = λ _. m;
        }))
