-- ===== src/Base/Table.antt =====
-- A database table: rows with a primary key, in insertion order. `find` is a read by the primary
-- key and `replace` writes the row of a key; both touch the first row of the key, and a primary key
-- has one row at most.
use Prim.Native.Nat.{ℕ}
use mathlib.Core.Path.{◌≡◌, refl, sym, subst, ◌∙◌}
use mathlib.Core.Logic.{inl, inr, ◌≢◌}
use mathlib.Core.Option.{Option, none, some}
use mathlib.Core.Bool.{Bool, true, false, ◌&&◌}
use mathlib.Core.List.{List, [], ◌∷◌, ◌++◌}
use native.Mathlib.Omega.{arith}
use elegance_shawls.Base.Tests.{◌==◌, if◌then◌else◌, is_some, Bool-cases, Option-cases, ==_iff}
use elegance_shawls.Base.Lists.{All, length}

module _ {ℓ} {A : Type ℓ} (key : A → ℕ) where
  unfoldable pub find : ℕ → List A → Option A
  find i [] = none
  find i (x ∷ xs) = if key x == i then some x else find i xs

  unfoldable pub replace : ℕ → A → List A → List A
  replace i r [] = []
  replace i r (x ∷ xs) = if key x == i then r ∷ xs else x ∷ replace i r xs

  -- A write of a row of key `i` is read back under `i`, if there was a row, and nowhere else.
  pub find-replace :
      (i j : ℕ) (r : A) (t : List A)
      → key r ≡ i
      → find j (replace i r t)
        ≡ (if i == j then (if is_some (find i t) then some r else none) else find j t)
  unfolding find replace
  find-replace i j r [] e = ground arith
  find-replace i j r (x ∷ xs) e = ground (arith, find-replace i j r xs e)

  pub find-key : (i : ℕ) (t : List A) {r : A} → find i t ≡ some r → key r ≡ i
  unfolding find
  find-key i [] e = ground arith
  find-key i (x ∷ xs) {r} e = ground (arith, find-key i xs {r = r})

  pub length-replace : (i : ℕ) (r : A) (t : List A) → length (replace i r t) ≡ length t
  unfolding replace
  length-replace i r [] = refl
  length-replace i r (x ∷ xs) = ground (arith, length-replace i r xs)

  pub All-find {κ} :
      (P : A → Type κ) (i : ℕ) (t : List A) {r : A} → All P t → find i t ≡ some r → P r
  unfolding find
  All-find P i [] h e = ground arith
  All-find P i (x ∷ xs) {r} h e = elim (Bool-cases (key x == i)) [
    | inl p ↦ subst P (ground arith) h.0
    | inr p ↦ All-find P i xs h.1 (rw p at e)
  ]

  pub All-replace {κ} :
      (P : A → Type κ) (i : ℕ) (r : A) (t : List A) → All P t → P r → All P (replace i r t)
  unfolding replace
  All-replace P i r [] h p = tt
  All-replace P i r (x ∷ xs) h p = elim (Bool-cases (key x == i)) [
    | inl q ↦ rw q (p, h.1)
    | inr q ↦ rw q (h.0, All-replace P i r xs h.1 p)
  ]

  -- `UPDATE … WHERE key = i AND test RETURNING`: the table after it, and the row that it wrote.
  unfoldable pub update_where : ℕ → (A → Bool) → (A → A) → List A → List A × Option A
  update_where i test f t = elim (find i t) [
    | none ↦ (t, none)
    | some r ↦ if test r then (replace i (f r) t, some (f r)) else (t, none)
  ]

  -- A row that passes the test is rewritten and returned.
  pub update_where_hit :
      (i : ℕ) (test : A → Bool) (f : A → A) (t : List A) {r : A}
      → find i t ≡ some r
      → test r ≡ true
      → update_where i test f t ≡ (replace i (f r) t, some (f r))
  unfolding update_where
  update_where_hit i test f t e h = rw (e, update_where) (rw h refl)

  -- Otherwise nothing changes.
  pub update_where_miss :
      (i : ℕ) (test : A → Bool) (f : A → A) (t : List A) {r : A}
      → find i t ≡ some r
      → test r ≡ false
      → update_where i test f t ≡ (t, none)
  unfolding update_where
  update_where_miss i test f t e h = rw (e, update_where) (rw h refl)

  pub update_where_absent :
      (i : ℕ) (test : A → Bool) (f : A → A) (t : List A)
      → find i t ≡ none
      → update_where i test f t ≡ (t, none)
  unfolding update_where
  update_where_absent i test f t e = rw (e, update_where) refl

  -- What an update returns is the rewritten row, which passed the test.
  pub update_where_returned :
      (i : ℕ) (test : A → Bool) (f : A → A) (t : List A) {r' : A}
      → (update_where i test f t).1 ≡ some r'
      → (r : A) × (find i t ≡ some r)
        × (test r ≡ true)
        × (f r ≡ r')
        × ((update_where i test f t).0 ≡ replace i (f r) t)
  unfolding update_where
  update_where_returned i test f t e = ground arith

  -- A property of all rows is kept by an update that keeps it of the rows that pass the test.
  pub All-update_where {κ} :
      (P : A → Type κ) (i : ℕ) (test : A → Bool) (f : A → A) (t : List A)
      → ((r : A) → P r → test r ≡ true → P (f r))
      → All P t
      → All P (update_where i test f t).0
  All-update_where P i test f t keep h = elim (Option-cases (find i t)) [
    | inl e ↦ rw (update_where_absent i test f t e) h
    | inr (r, e) ↦ elim (Bool-cases (test r)) [
      | inl p ↦
          rw (update_where_hit i test f t e p)
            (All-replace P i (f r) t h (keep r (All-find P i t h e) p))
      | inr p ↦ rw (update_where_miss i test f t e p) h
    ]
  ]

  -- An update of one key leaves the rows of the others.
  pub find-update_where_ne :
      (i j : ℕ) (test : A → Bool) (f : A → A) (t : List A)
      → ((r : A) → key (f r) ≡ key r)
      → i ≢ j
      → find j (update_where i test f t).0 ≡ find j t
  find-update_where_ne i j test f t same h = elim (Option-cases (find i t)) [
    | inl e ↦ rw (update_where_absent i test f t e) refl
    | inr (r, e) ↦ elim (Bool-cases (test r)) [
      | inl p ↦
          rw (update_where_hit i test f t e p)
            (ground (arith, find-replace i j (f r) t (same r ∙ find-key i t e)))
      | inr p ↦ rw (update_where_miss i test f t e p) refl
    ]
  ]

  -- After an update the key reads back the returned row.
  pub find-update_where_self :
      (i : ℕ) (test : A → Bool) (f : A → A) (t : List A) {r : A}
      → ((r : A) → key (f r) ≡ key r)
      → find i t ≡ some r
      → test r ≡ true
      → find i (update_where i test f t).0 ≡ some (f r)
  find-update_where_self i test f t {r} same e p =
      rw (update_where_hit i test f t e p)
        (ground (arith, find-replace i i (f r) t (same r ∙ find-key i t e)))

  -- A row after an update: rewritten if it has the key and passes the test, and else the same.
  pub find-update_where :
      (k i : ℕ) (test : A → Bool) (f : A → A) (t : List A) {r : A}
      → ((r : A) → key (f r) ≡ key r)
      → find i t ≡ some r
      → find i (update_where k test f t).0 ≡ some (if k == i && test r then f r else r)
  find-update_where k i test f t {r} same e = elim (Bool-cases (k == i)) [
    | inl p ↦
        let here : find k t ≡ some r = subst (λ n. find n t ≡ some r) (sym ((==_iff k i).0 p)) e in
        elim (Bool-cases (test r)) [
          | inl q ↦
              rw (update_where_hit k test f t here q, p, q)
                (ground (arith, find-replace k i (f r) t (same r ∙ find-key k t here)))
          | inr q ↦ rw (update_where_miss k test f t here q, p, q) e
        ]
    | inr p ↦ rw p (find-update_where_ne k i test f t same (λ q. ground arith) ∙ e)
  ]

  pub find-append_some :
      (i : ℕ) (t u : List A) {r : A} → find i t ≡ some r → find i (t ++ u) ≡ some r
  unfolding find
  find-append_some i [] u e = ground arith
  find-append_some i (x ∷ xs) u {r} e = ground (arith, find-append_some i xs u {r = r})
