-- ===== src/Hybrid/Scanned.antt =====
-- `eligible_hits` of apps/backend/search/hybrid.py against an independent description: the hits of the
-- first rows of the listing.

use mathlib.Core.Path.{subst}
use elegance_shawls.Hybrid.Page.{eligible_from, last_row, eligible_hits}
use elegance_shawls.Catalogue.Rows.{Product}
use elegance_shawls.Base.{
  ◌+◌, ◌++◌, ◌-◌, ◌<◌, Bool-cases, List, Option, Option-cases, [], arith, drop, inl, inr, length,
  ltb, min, refl, some, suc, take, zero, ℕ, ◌∷◌, ◌≡◌, ◌≤◌, ap, append-nil, append_assoc,
  length-take-le, ltb-false→le, ltb→lt, none, sym, take-append-drop, take_short, ◌∙◌,
}
use elegance_shawls.Search.Match.{Hit, hits_of, product_key}
use elegance_shawls.Search.Complete.{Reads}
use elegance_shawls.Keyset.{Key, key_less, Descending, after}
use elegance_shawls.Keyset.Laws.{after-next, key_less_irrefl, key_less_trans}

hits_of-append :
    (eval : Product → Option Hit) (xs ys : List Product)
    → hits_of eval (xs ++ ys) ≡ hits_of eval xs ++ hits_of eval ys
unfolding hits_of
hits_of-append eval [] ys = refl
hits_of-append eval (p ∷ ps) ys = elim (Option-cases (eval p)) [
  | inl q ↦ rw (hits_of, q) (hits_of-append eval ps ys)
  | inr (h, q) ↦ rw (hits_of, q) (ap (λ l. h ∷ l) (hits_of-append eval ps ys))
]

take_nil : (n : ℕ) → take {A = Product} n [] ≡ []
take_nil zero = refl
take_nil (suc n) = refl

take_none : (n : ℕ) (xs : List Product) → n ≡ 0 → take n xs ≡ []
take_none zero xs e = refl
take_none (suc n) xs e = absurd (omega arith)

take-split :
    (n m k : ℕ) (xs : List Product) → n + m ≡ k → take k xs ≡ take n xs ++ take m (drop n xs)
take-split zero m k xs e = ap (λ i. take i xs) (omega arith)
take-split (suc n) m zero xs e = absurd (omega arith)
take-split (suc n) m (suc k) [] e = sym (take_nil m)
take-split (suc n) m (suc k) (x ∷ xs) e = ap (◌∷◌ x) (take-split n m k xs (omega arith))

take_long : (n : ℕ) (xs : List Product) → length xs ≤ n → take n xs ≡ xs
take_long zero [] h = refl
take_long zero (x ∷ xs) h = absurd (omega arith)
take_long (suc n) [] h = refl
take_long (suc n) (x ∷ xs) h = ap (◌∷◌ x) (take_long n xs (omega arith))

module _ (eval : Product → Option Hit) (pool : List Product) (fetch : Option Key → ℕ → List Product)
    (batch max_scan : ℕ) (descending : Descending key_less product_key pool)
    (reads : Reads pool fetch) (positive : 0 < batch) where
  -- The rows behind the last of a batch.
  after-rows :
      (position : Option Key) (rows rest : List Product)
      → after key_less product_key position pool ≡ rows ++ rest
      → after key_less product_key (last_row position rows) pool ≡ rest
  after-rows position [] rest e = e
  after-rows position (p ∷ ps) rest e = after-rows (some (product_key p)) ps rest (
      after-next key_less product_key key_less_trans key_less_irrefl position p pool (ps ++ rest)
        descending e)

  eligible_from_exact :
      (fuel : ℕ) (hits : List Hit) (scanned : ℕ) (last : Option Key)
      → max_scan < scanned + fuel
      → eligible_from eval fetch batch max_scan fuel hits scanned last
        ≡ hits ++ hits_of eval (take (max_scan - scanned) (after key_less product_key last pool))
  unfolding eligible_from hits_of
  eligible_from_exact zero hits scanned last f =
      let listing = after key_less product_key last pool in
      sym (append-nil hits)
      ∙ ap (λ l. hits ++ hits_of eval l)
          (sym (take_none (max_scan - scanned) listing (omega arith)))
  eligible_from_exact (suc fuel) hits scanned last f =
      let listing = after key_less product_key last pool in
      let m = max_scan - scanned in
      let n = min batch m in
      let rows = fetch last n in
      let cut : rows ≡ take n listing = reads last n in
      elim (Bool-cases (ltb scanned max_scan)) [
        | inr q ↦ rw q (
            sym (append-nil hits)
            ∙ ap (λ l. hits ++ hits_of eval l)
                (sym (take_none m listing (omega (arith, ltb-false→le scanned max_scan q)))))
        | inl q ↦ elim (Bool-cases (ltb (length rows) n)) [
          | inl p ↦
              let fewer : length (take n listing) < n =
                subst (λ l. length l < n) cut (ltb→lt (length rows) n p) in
              let whole : rows ≡ listing = cut ∙ take_short n listing fewer in
              let all_of : take m listing ≡ listing =
                take_long m listing
                  (omega (arith, subst (λ l. length l < n) (take_short n listing fewer) fewer)) in
              rw (q, p) (ap (λ l. hits ++ hits_of eval l) (whole ∙ sym all_of))
          | inr p ↦
              let counted : length rows ≡ n = omega (
                arith,
                ltb-false→le (length rows) n p,
                subst (λ l. length l ≤ n) (sym cut) (length-take-le n listing),
              ) in
              let rest = drop n listing in
              let split : listing ≡ rows ++ rest =
                sym (take-append-drop n listing) ∙ ap (λ l. l ++ rest) (sym cut) in
              let next : after key_less product_key (last_row last rows) pool ≡ rest =
                after-rows last rows rest split in
              let left : n + (max_scan - (scanned + length rows)) ≡ m =
                omega (arith, counted, ltb→lt scanned max_scan q) in
              rw (q, p)
                (eligible_from_exact fuel (hits ++ hits_of eval rows) (scanned + length rows)
                    (last_row last rows) (omega (arith, counted, ltb→lt scanned max_scan q))
                  ∙ ap
                      (λ l.
                        (hits ++ hits_of eval rows)
                        ++ hits_of eval (take (max_scan - (scanned + length rows)) l))
                      next
                  ∙ append_assoc hits (hits_of eval rows)
                      (hits_of eval (take (max_scan - (scanned + length rows)) rest))
                  ∙ ap (λ l. hits ++ l)
                      (sym (
                          hits_of-append eval rows (take (max_scan - (scanned + length rows)) rest))
                        ∙ ap (hits_of eval) (
                            ap (λ l. l ++ take (max_scan - (scanned + length rows)) rest) cut
                            ∙ sym (
                                take-split n (max_scan - (scanned + length rows)) m listing left))))
        ]
      ]

-- If the listing is in strictly descending order of (created_at, id), the batches are read from it and a
-- batch is positive, then the candidates of the hybrid search are exactly the hits among the first
-- `max_scan` rows of the listing, in its order, whatever the batch size.
pub eligible_hits_exact :
    (eval : Product → Option Hit) (pool : List Product) (fetch : Option Key → ℕ → List Product)
    (batch max_scan : ℕ)
    → Descending key_less product_key pool
    → Reads pool fetch
    → 0 < batch
    → eligible_hits eval fetch batch max_scan ≡ hits_of eval (take max_scan pool)
unfolding eligible_hits after
eligible_hits_exact eval pool fetch batch max_scan descending reads positive =
    eligible_from_exact eval pool fetch batch max_scan descending reads positive (max_scan + 1) [] 0
      none (omega arith)
    ∙ ap (λ k. hits_of eval (take k pool)) (omega arith)
