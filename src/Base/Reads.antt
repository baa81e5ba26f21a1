-- ===== src/Base/Reads.antt =====
-- Reads of a table after a write, the other way round: where a row that is there has come from.
use Prim.Native.Nat.{ℕ}
use mathlib.Core.Path.{◌≡◌, refl, sym, ap, ◌∙◌}
use mathlib.Core.Logic.{inl, inr, ◌⊎◌}
use mathlib.Core.Option.{some}
use mathlib.Core.Bool.{Bool, true}
use mathlib.Core.List.{List, [], ◌∷◌, ◌++◌, map}
use native.Mathlib.Omega.{arith}
use elegance_shawls.Base.Tests.{◌==◌, Bool-cases, Option-cases, ==_iff, some_inj}
use elegance_shawls.Base.Table.{
  find, replace, find-replace, find-key, update_where, update_where_absent, update_where_hit,
  update_where_miss,
}

module _ {ℓ} {A : Type ℓ} (key : A → ℕ) where
  -- A row of a table with a row appended is an old one or the new one.
  pub find-append_cases :
      (i : ℕ) (last : A) (t : List A) {r : A}
      → find key i (t ++ last ∷ []) ≡ some r
      → (find key i t ≡ some r) ⊎ (last ≡ r)
  unfolding find
  find-append_cases i last [] e = inr (ground arith)
  find-append_cases i last (x ∷ xs) {r = r} e = elim (Bool-cases (key x == i)) [
    | inl q ↦ inl (rw q (rw q at e))
    | inr q ↦ rw q (find-append_cases i last xs (rw q at e))
  ]

  -- A row after an update was there before it, or is the rewritten row.
  pub find-update_where_cases :
      (k i : ℕ) (test : A → Bool) (f : A → A) (t : List A) {r' : A}
      → ((r : A) → key (f r) ≡ key r)
      → find key i (update_where key k test f t).0 ≡ some r'
      → (find key i t ≡ some r')
        ⊎ ((r : A) × (find key i t ≡ some r) × (test r ≡ true) × (f r ≡ r') × (k ≡ i))
  find-update_where_cases k i test f t {r' = r'} same e = elim (Option-cases (find key k t)) [
    | inl q ↦ inl (rw (update_where_absent key k test f t q) at e)
    | inr (p, q) ↦ elim (Bool-cases (test p)) [
      | inr s ↦ inl (rw (update_where_miss key k test f t q s) at e)
      | inl s ↦
          let read = find-replace key k i (f p) t (same p ∙ find-key key k t q) in
          let e1 = rw (update_where_hit key k test f t q s) at e in
          elim (Bool-cases (k == i)) [
            | inl at ↦
                let here : k ≡ i = (==_iff k i).0 at in
                inr (
                  p,
                  sym (ap (λ (n : ℕ). find key n t) here) ∙ q,
                  s,
                  some_inj (sym (rw (at, q) at read) ∙ e1),
                  here,
                )
            | inr off ↦ inl (sym (rw off at read) ∙ e1)
          ]
    ]
  ]

  -- A row after a write is an old one or the written one.
  pub find-replace_cases :
      (k i : ℕ) (new : A) (t : List A) {p r : A}
      → key new ≡ k
      → find key k t ≡ some p
      → find key i (replace key k new t) ≡ some r
      → (find key i t ≡ some r) ⊎ (new ≡ r)
  find-replace_cases k i new t {p = p} {r = r} same q e =
      let read = find-replace key k i new t same in
      elim (Bool-cases (k == i)) [
        | inl at ↦ inr (some_inj (sym (rw (at, q) at read) ∙ e))
        | inr off ↦ inl (sym (rw off at read) ∙ e)
      ]

  -- A row of a mapped table is a mapped row.
  pub find-map_cases :
      (f : A → A) (i : ℕ) (t : List A) {r' : A}
      → ((r : A) → key (f r) ≡ key r)
      → find key i (map f t) ≡ some r'
      → (r : A) × (find key i t ≡ some r) × (f r ≡ r')
  unfolding find
  find-map_cases f i [] same e = absurd (ground arith)
  find-map_cases f i (x ∷ xs) {r' = r'} same e = elim (Bool-cases (key x == i)) [
    | inl q ↦ (x, rw q refl, some_inj (rw (same x, q) at e))
    | inr q ↦ rw q (find-map_cases f i xs same (rw (same x, q) at e))
  ]
