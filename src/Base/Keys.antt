-- ===== src/Base/Keys.antt =====
-- Tables whose primary keys are distinct: each row is what its key finds.
use mathlib.Core.Path.{◌≡◌, refl, subst, ◌∙◌, ap, sym}
use mathlib.Core.Logic.{inl, inr, ◌≢◌}
use mathlib.Core.Bool.{Bool}
use mathlib.Core.Option.{none, some}
use mathlib.Core.List.{List, [], ◌∷◌, ◌++◌, map, Memᴰ}
use native.Mathlib.Omega.{arith}
use Prim.Native.Nat.{ℕ}
use elegance_shawls.Base.Tests.{◌==◌, Bool-cases, Option-cases, ==_refl}
use elegance_shawls.Base.Table.{
  find, replace, find-key, update_where, update_where_absent, update_where_hit, update_where_miss,
}

module _ {ℓ} {A : Type ℓ} (key : A → ℕ) where
  -- No two rows have one key.
  abbrev pub Distinct : List A → Type ℓ
  Distinct [] = Unit
  Distinct (x ∷ xs) = (find key (key x) xs ≡ none) × Distinct xs

  find-none-ne : (i : ℕ) {a : A} (t : List A) → find key i t ≡ none → Memᴰ a t → key a ≢ i
  unfolding find
  find-none-ne i [] e m = elim m [ ]
  find-none-ne i (x ∷ xs) e (Memᴰ.head p) = λ q. ground (arith, ap key p)
  find-none-ne i (x ∷ xs) e (Memᴰ.tail m) = find-none-ne i xs (ground arith) m

  -- A row of such a table is found under its key.
  pub find-member : {a : A} (t : List A) → Distinct t → Memᴰ a t → find key (key a) t ≡ some a
  unfolding find
  find-member [] d m = elim m [ ]
  find-member (x ∷ xs) d (Memᴰ.head p) = rw (p, ==_refl (key x)) refl
  find-member {a} (x ∷ xs) d (Memᴰ.tail m) =
      let ne : key a ≢ key x = find-none-ne (key x) xs d.0 m in
      ground (arith, ne, find-member xs d.1 m)

  find-append-none :
      (i : ℕ) (r : A) (t : List A)
      → find key i t ≡ none
      → key r ≢ i
      → find key i (t ++ r ∷ []) ≡ none
  unfolding find
  find-append-none i r [] e h = ground arith
  find-append-none i r (x ∷ xs) e h = ground (arith, find-append-none i r xs)

  pub Distinct-append :
      (r : A) (t : List A) → Distinct t → find key (key r) t ≡ none → Distinct (t ++ r ∷ [])
  unfolding find
  Distinct-append r [] d h = (refl, tt)
  Distinct-append r (x ∷ xs) d h = (
    find-append-none (key x) r xs d.0 (λ p. ground arith),
    Distinct-append r xs d.1 (ground arith),
  )

  find-replace-none :
      (i j : ℕ) (r : A) (t : List A)
      → key r ≡ i
      → find key j t ≡ none
      → find key j (replace key i r t) ≡ none
  unfolding find replace
  find-replace-none i j r [] e h = refl
  find-replace-none i j r (x ∷ xs) e h = ground (arith, find-replace-none i j r xs e)

  pub Distinct-replace :
      (i : ℕ) (r : A) (t : List A) → key r ≡ i → Distinct t → Distinct (replace key i r t)
  unfolding replace
  Distinct-replace i r [] e d = tt
  Distinct-replace i r (x ∷ xs) e d = elim (Bool-cases (key x == i)) [
    | inl p ↦ rw p (subst (λ k. find key k xs ≡ none) (ground arith) d.0, d.1)
    | inr p ↦ rw p (find-replace-none i (key x) r xs e d.0, Distinct-replace i r xs e d.1)
  ]

  pub Distinct-update_where :
      (i : ℕ) (test : A → Bool) (f : A → A) (t : List A)
      → ((r : A) → key (f r) ≡ key r)
      → Distinct t
      → Distinct (update_where key i test f t).0
  Distinct-update_where i test f t same d = elim (Option-cases (find key i t)) [
    | inl e ↦ rw (update_where_absent key i test f t e) d
    | inr (r, e) ↦ elim (Bool-cases (test r)) [
      | inl p ↦
          rw (update_where_hit key i test f t e p)
            (Distinct-replace i (f r) t (same r ∙ find-key key i t e) d)
      | inr p ↦ rw (update_where_miss key i test f t e p) d
    ]
  ]

  find-map-none :
      (f : A → A) (i : ℕ) (t : List A)
      → ((r : A) → key (f r) ≡ key r)
      → find key i t ≡ none
      → find key i (map f t) ≡ none
  unfolding find
  find-map-none f i [] same e = refl
  find-map-none f i (x ∷ xs) same e = ground (arith, same x, find-map-none f i xs same)

  pub Distinct-map :
      (f : A → A) (t : List A) → ((r : A) → key (f r) ≡ key r) → Distinct t → Distinct (map f t)
  Distinct-map f [] same d = tt
  Distinct-map f (x ∷ xs) same d = (
    subst (λ k. find key k (map f xs) ≡ none) (sym (same x)) (find-map-none f (key x) xs same d.0),
    Distinct-map f xs same d.1,
  )

  -- A map that keeps the keys is read back row by row.
  pub find-map :
      (f : A → A) (i : ℕ) (t : List A) {r : A}
      → ((r : A) → key (f r) ≡ key r)
      → find key i t ≡ some r
      → find key i (map f t) ≡ some (f r)
  unfolding find
  find-map f i [] same e = ground arith
  find-map f i (x ∷ xs) {r} same e = ground (arith, same x, find-map f i xs {r = r} same)
