-- ===== src/Search/Batches.antt =====
-- Reading one batch in apps/backend/catalog/search.py, against the hits of the whole listing.

use elegance_shawls.Search.Page.{Scan, full_page, scan_rows}
use elegance_shawls.Keyset.Laws.{after-next, key_less_irrefl, key_less_trans}
use elegance_shawls.Catalogue.Rows.{Product}
use elegance_shawls.Search.Match.{Hit, hits_of, product_key, is_empty}
use elegance_shawls.Keyset.{Descending, Key, after, key_less, last_key}
use elegance_shawls.Base.{
  ◌++◌, ◌<◌, List, Option, Option-cases, [], arith, inl, inr, length, none, some, suc, take, zero,
  ℕ, ◌∷◌, ◌≡◌, ◌+◌, ◌≤◌, ◌-◌, Bool-cases, append_assoc, drop, ltb, ltb-false→le, ltb→lt, sym, ◌∙◌,
  refl, ap, is_some, not, true, ◌||◌,
}

-- The hits behind a continuation: none when the search says that it is exhausted.
abbrev pub remaining : (Product → Option Hit) → List Product → Option Key → List Hit
remaining eval pool none = []
remaining eval pool (some k) = hits_of eval (after key_less product_key (some k) pool)

take_all : (n : ℕ) (xs ys : List Product) → ys ≡ take n xs → length ys < n → ys ≡ xs
take_all zero xs ys e h = absurd (omega arith)
take_all (suc n) [] ys e h = e
take_all (suc n) (x ∷ xs) [] e h = cc
take_all (suc n) (x ∷ xs) (y ∷ ys) e h =
    let same : y ≡ x = cc in
    let tails : ys ≡ take n xs = cc in cc (same, take_all n xs ys tails (omega arith))

-- A nonempty prefix ends in an element, whose key is the last one.
take_last :
    (n : ℕ) (xs : List Hit)
    → n < length xs
    → (front : List Hit) × (h : Hit) × (take (suc n) xs ≡ front ++ h ∷ [])
      × (last_key key_less (λ x. product_key x.product) (take (suc n) xs)
          ≡ some (product_key h.product))
      × (xs ≡ front ++ h ∷ drop (suc n) xs)
take_last zero [] h = absurd (omega arith)
take_last zero (x ∷ xs) h = ([], x, refl, refl, refl)
take_last (suc n) [] h = absurd (omega arith)
take_last (suc n) (x ∷ []) h = absurd (omega arith)
take_last (suc n) (x ∷ y ∷ xs) h =
    let (front, z, same, key, whole) = take_last n (y ∷ xs) (omega arith) in
    (x ∷ front, z, ap (◌∷◌ x) same, key, ap (◌∷◌ x) whole)

module _ (eval : Product → Option Hit) (pool : List Product)
    (exact : (p : Product) (h : Hit) → eval p ≡ some h → h.product ≡ p)
    (descending : Descending key_less product_key pool) where
  -- Behind the position of a hit come the hits that follow it.
  hits_after :
      (position : Option Key) (rows : List Product) (front rest : List Hit) (h : Hit)
      → after key_less product_key position pool ≡ rows
      → hits_of eval rows ≡ front ++ h ∷ rest
      → hits_of eval (after key_less product_key (some (product_key h.product)) pool) ≡ rest
  unfolding hits_of
  hits_after position [] [] rest h e q = cc
  hits_after position [] (f ∷ front) rest h e q = cc
  hits_after position (p ∷ ps) [] rest h e q =
      let behind =
        after-next key_less product_key key_less_trans key_less_irrefl position p pool ps descending
          e in
      elim (Option-cases (eval p)) [
        | inl nothing ↦
            hits_after (some (product_key p)) ps [] rest h behind (rw (nothing, hits_of) at q)
        | inr (h', found) ↦
            let q' : h' ∷ hits_of eval ps ≡ h ∷ rest = rw (found, hits_of) at q in
            let same : h.product ≡ p = cc (exact p h' found) in rw (same, behind) (cc q')
      ]
  hits_after position (p ∷ ps) (f ∷ front) rest h e q =
      let behind =
        after-next key_less product_key key_less_trans key_less_irrefl position p pool ps descending
          e in
      elim (Option-cases (eval p)) [
        | inl nothing ↦
            hits_after (some (product_key p)) ps (f ∷ front) rest h behind
              (rw (nothing, hits_of) at q)
        | inr (h', found) ↦
            let q' : h' ∷ hits_of eval ps ≡ f ∷ (front ++ h ∷ rest) = rw (found, hits_of) at q in
            hits_after (some (product_key p)) ps front rest h behind (cc q')
      ]

  -- A page of `limit` hits and the position of its last one: what follows that position is the rest.
  pub full_page-remaining :
      (position : Option Key) (rows : List Product) (limit : ℕ) (page rest : List Hit)
      → after key_less product_key position pool ≡ rows
      → hits_of eval rows ≡ page ++ rest
      → 0 < limit
      → limit < length page
      → (full_page limit page).0 ++ remaining eval pool (full_page limit page).1 ≡ page ++ rest
  unfolding full_page
  full_page-remaining position rows limit page rest e q pos long =
      let at : limit ≡ suc (limit - 1) = omega arith in
      let (front, h, same, key, whole) = take_last (limit - 1) page (omega arith) in
      let spread : page ++ rest ≡ front ++ h ∷ (drop (suc (limit - 1)) page ++ rest) =
        ap (λ (l : List Hit). l ++ rest) whole
        ∙ append_assoc front (h ∷ drop (suc (limit - 1)) page) rest in
      let behind = hits_after position rows front _ h e (q ∙ spread) in
      rw (at, key, behind, same, spread) (append_assoc front (h ∷ []) _)

  -- What a scan of the next rows comes to, when `total` is the hits behind the start.
  unfoldable pub Accounts : List Hit → ℕ → ℕ → List Product → Scan → Type 0
  Accounts total limit seen behind (Scan.full found) =
      (limit < length found) × (rest : List Hit) × (total ≡ found ++ rest)
  Accounts total limit seen behind (Scan.more found scanned last) =
      (scanned ≡ seen)
      × (total ≡ found ++ hits_of eval (after key_less product_key last pool))
      × (length found ≤ limit)
      × (after key_less product_key last pool ≡ behind)

  pub scan_rows-Accounts :
      (total : List Hit) (limit : ℕ) (rows behind : List Product) (hits : List Hit)
      (scanned seen : ℕ) (last : Option Key)
      → seen ≡ scanned + length rows
      → after key_less product_key last pool ≡ rows ++ behind
      → total ≡ hits ++ hits_of eval (rows ++ behind)
      → length hits ≤ limit
      → Accounts total limit seen behind (scan_rows eval limit rows hits scanned last)
  unfolding scan_rows Accounts hits_of
  scan_rows-Accounts total limit [] behind hits scanned seen last n e q h =
      (omega arith, rw e q, h, e)
  scan_rows-Accounts total limit (p ∷ ps) behind hits scanned seen last n e q h =
      let next =
        after-next key_less product_key key_less_trans key_less_irrefl last p pool (ps ++ behind)
          descending e in
      elim (Option-cases (eval p)) [
        | inl nothing ↦
            rw (nothing, scan_rows)
              (scan_rows-Accounts total limit ps behind hits (scanned + 1) seen
                (some (product_key p)) (omega arith) next (rw (nothing, hits_of) at q) h)
        | inr (hit, found) ↦
            let q' : total ≡ hits ++ hit ∷ hits_of eval (ps ++ behind) = rw (found, hits_of) at q in
            let q'' : total ≡ (hits ++ hit ∷ []) ++ hits_of eval (ps ++ behind) =
              q' ∙ sym (append_assoc hits (hit ∷ []) (hits_of eval (ps ++ behind))) in
            rw (found, scan_rows)
              (elim (Bool-cases (ltb limit (length (hits ++ hit ∷ [])))) [
                | inl big ↦ rw big (ltb→lt _ _ big, hits_of eval (ps ++ behind), q'')
                | inr small ↦ rw small (
                    scan_rows-Accounts total limit ps behind (hits ++ hit ∷ []) (scanned + 1) seen
                      (some (product_key p)) (omega arith) next q'' (ltb-false→le _ _ small))
              ])
      ]

  -- Behind a row the position is known.
  pub scan_rows-last :
      (limit : ℕ) (rows : List Product) (hits found : List Hit) (scanned seen : ℕ)
      (start last : Option Key)
      → scan_rows eval limit rows hits scanned start ≡ Scan.more found seen last
      → (is_some start || not (is_empty rows)) ≡ true
      → is_some last ≡ true
  unfolding scan_rows
  scan_rows-last limit [] hits found scanned seen start last e h = ground arith
  scan_rows-last limit (p ∷ ps) hits found scanned seen start last e h =
      elim (Option-cases (eval p)) [
        | inl nothing ↦
            scan_rows-last limit ps hits found (scanned + 1) seen (some (product_key p)) last
              (rw (nothing, scan_rows) at e) refl
        | inr (hit, found_one) ↦
            let e' = rw (found_one, scan_rows) at e in
            elim (Bool-cases (ltb limit (length (hits ++ hit ∷ [])))) [
              | inl big ↦ absurd (cc (rw big at e'))
              | inr small ↦
                  scan_rows-last limit ps (hits ++ hit ∷ []) found (scanned + 1) seen
                    (some (product_key p)) last (rw small at e') refl
            ]
      ]
