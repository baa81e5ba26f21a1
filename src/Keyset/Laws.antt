-- ===== src/Keyset/Laws.antt =====
-- Following the positions of a keyset listing visits each row once, in order.
use mathlib.Core.Path.{subst}
use elegance_shawls.Keyset.{Descending, Key, after, key_less}
use elegance_shawls.Base.{
  All, Bool, Bool-cases, List, Option, [], arith, false, inl, inr, none, refl, select, some, sym,
  true, true-ne-false, ◌∙◌, ◌∷◌, ◌≡◌, ap,
}

pub key_less_trans : (a b c : Key) → key_less a b ≡ true → key_less b c ≡ true → key_less a c ≡ true
key_less_trans a b c p q = ground arith

pub key_less_irrefl : (a : Key) → key_less a a ≡ false
key_less_irrefl a = ground arith

module _ {A K : Type 0} (less : K → K → Bool) (key : A → K)
    (trans : (a b c : K) → less a b ≡ true → less b c ≡ true → less a c ≡ true)
    (irrefl : (a : K) → less a a ≡ false) where
  select_below :
      (k : K) (xs : List A)
      → All (λ y. less (key y) k ≡ true) xs
      → select (λ y. less (key y) k) xs ≡ xs
  select_below k [] h = refl
  select_below k (x ∷ xs) h = rw h.0 (ap (◌∷◌ x) (select_below k xs h.1))

  below_every :
      (j k : K) (xs : List A)
      → less j k ≡ true
      → All (λ y. less (key y) j ≡ true) xs
      → All (λ y. less (key y) k ≡ true) xs
  below_every j k [] lt h = tt
  below_every j k (x ∷ xs) lt h = (trans (key x) j k h.0 lt, below_every j k xs lt h.1)

  above_every :
      (x p : A) (xs t : List A) (k : K)
      → select (λ y. less (key y) k) xs ≡ p ∷ t
      → All (λ y. less (key y) (key x) ≡ true) xs
      → less (key p) (key x) ≡ true
  above_every x p [] t k e h = ground arith
  above_every x p (y ∷ xs) t k e h = elim (Bool-cases (less (key y) k)) [
    | inl q ↦ subst (λ z. less (key z) (key x) ≡ true) (ground arith) h.0
    | inr q ↦ above_every x p xs t k (rw q at e) h.1
  ]

  not_below : (p x : K) → less p x ≡ true → less x p ≡ false
  not_below p x h = elim (Bool-cases (less x p)) [
    | inl q ↦ absurd (true-ne-false (sym (trans x p x q h) ∙ irrefl x))
    | inr q ↦ q
  ]

  select_next :
      (k : K) (p : A) (rows t : List A)
      → Descending less key rows
      → select (λ x. less (key x) k) rows ≡ p ∷ t
      → select (λ x. less (key x) (key p)) rows ≡ t
  select_next k p [] t d e = ground arith
  select_next k p (x ∷ xs) t d e = elim (Bool-cases (less (key x) k)) [
    | inl q ↦
        let whole : x ∷ xs ≡ p ∷ t =
          ap (◌∷◌ x) (sym (select_below k xs (below_every (key x) k xs q d.0))) ∙ (rw q at e) in
        let same : x ≡ p = cc in
        let rest : xs ≡ t = cc in
        subst (λ y. select (λ x'. less (key x') (key y)) (x ∷ xs) ≡ t) same
          (rw (irrefl (key x)) (select_below (key x) xs d.0 ∙ rest))
    | inr q ↦
        let e' : select (λ y. less (key y) k) xs ≡ p ∷ t = rw q at e in
        rw (not_below (key p) (key x) (above_every x p xs t k e' d.0)) (select_next k p xs t d.1 e')
  ]

  -- After the first of the rows that follow a position come the others.
  pub after-next :
      (position : Option K) (p : A) (rows t : List A)
      → Descending less key rows
      → after less key position rows ≡ p ∷ t
      → after less key (some (key p)) rows ≡ t
  unfolding after
  after-next none p [] t d e = ground arith
  after-next none p (x ∷ xs) t d e =
      let same : x ≡ p = cc in
      let rest : xs ≡ t = cc in
      subst (λ y. select (λ x'. less (key x') (key y)) (x ∷ xs) ≡ t) same
        (rw (irrefl (key x)) (select_below (key x) xs d.0 ∙ rest))
  after-next (some k) p rows t d e = select_next k p rows t d e
