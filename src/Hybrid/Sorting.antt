-- ===== src/Hybrid/Sorting.antt =====
-- Python's stable sort, and what it keeps of a list.
use elegance_shawls.Base.{
  All, Bool, Bool-cases, List, [], if◌then◌else◌, inl, inr, select, suc, take, zero, ℕ, ◌∷◌,
}

module _ {ℓ} {A : Type ℓ} (ahead : A → A → Bool) where
  -- Behind the elements that are strictly ahead, before all others.
  unfoldable pub insert : A → List A → List A
  insert x [] = x ∷ []
  insert x (y ∷ ys) = let rest = insert x ys in if ahead y x then y ∷ rest else x ∷ y ∷ ys

  unfoldable pub sort : List A → List A
  unfolding insert
  sort [] = []
  sort (x ∷ xs) = insert x (sort xs)

  insert-every {κ} : (P : A → Type κ) (x : A) (xs : List A) → P x → All P xs → All P (insert x xs)
  unfolding insert
  insert-every P x [] p h = (p, tt)
  insert-every P x (y ∷ ys) p h = elim (Bool-cases (ahead y x)) [
    | inl e ↦ rw e (h.0, insert-every P x ys p h.1)
    | inr e ↦ rw e (p, h)
  ]

  pub sort-every {κ} : (P : A → Type κ) (xs : List A) → All P xs → All P (sort xs)
  unfolding sort
  sort-every P [] h = tt
  sort-every P (x ∷ xs) h = insert-every P x (sort xs) h.0 (sort-every P xs h.1)

-- A relation of every element with every one behind it.
abbrev pub Pairwise {ℓ κ} : {A : Type ℓ} → (A → A → Type κ) → List A → Type (ℓ ⊔ κ)
Pairwise R [] = Unit
Pairwise R (x ∷ xs) = All (R x) xs × Pairwise R xs

module _ {ℓ κ} {A : Type ℓ} (R : A → A → Type κ) (symmetric : (x y : A) → R x y → R y x)
    (ahead : A → A → Bool) where
  insert-Pairwise :
      (x : A) (xs : List A) → All (R x) xs → Pairwise R xs → Pairwise R (insert ahead x xs)
  unfolding insert
  insert-Pairwise x [] h d = (tt, tt)
  insert-Pairwise x (y ∷ ys) h d = elim (Bool-cases (ahead y x)) [
    | inl e ↦
        rw e (insert-every ahead (R y) x ys (symmetric x y h.0) d.0, insert-Pairwise x ys h.1 d.1)
    | inr e ↦ rw e (h, d)
  ]

  pub sort-Pairwise : (xs : List A) → Pairwise R xs → Pairwise R (sort ahead xs)
  unfolding sort
  sort-Pairwise [] d = tt
  sort-Pairwise (x ∷ xs) d =
      insert-Pairwise x (sort ahead xs) (sort-every ahead (R x) xs d.0) (sort-Pairwise xs d.1)

module _ {ℓ} {A : Type ℓ} where
  pub take-every {κ} : (P : A → Type κ) (n : ℕ) (xs : List A) → All P xs → All P (take n xs)
  take-every P zero xs h = tt
  take-every P (suc n) [] h = tt
  take-every P (suc n) (x ∷ xs) h = (h.0, take-every P n xs h.1)

  pub select-every {κ} :
      (P : A → Type κ) (p : A → Bool) (xs : List A) → All P xs → All P (select p xs)
  select-every P p [] h = tt
  select-every P p (x ∷ xs) h = elim (Bool-cases (p x)) [
    | inl e ↦ rw e (h.0, select-every P p xs h.1)
    | inr e ↦ rw e (select-every P p xs h.1)
  ]

  pub take-Pairwise {κ} :
      (R : A → A → Type κ) (n : ℕ) (xs : List A) → Pairwise R xs → Pairwise R (take n xs)
  take-Pairwise R zero xs d = tt
  take-Pairwise R (suc n) [] d = tt
  take-Pairwise R (suc n) (x ∷ xs) d = (take-every (R x) n xs d.0, take-Pairwise R n xs d.1)

  pub select-Pairwise {κ} :
      (R : A → A → Type κ) (p : A → Bool) (xs : List A) → Pairwise R xs → Pairwise R (select p xs)
  select-Pairwise R p [] d = tt
  select-Pairwise R p (x ∷ xs) d = elim (Bool-cases (p x)) [
    | inl e ↦ rw e (select-every (R x) p xs d.0, select-Pairwise R p xs d.1)
    | inr e ↦ rw e (select-Pairwise R p xs d.1)
  ]
