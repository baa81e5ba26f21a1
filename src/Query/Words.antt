-- ===== src/Query/Words.antt =====
-- apps/backend/catalog/query.py: what the first loop of `parse_query` attaches, and what it keeps of
-- the words that are not in the vocabulary.
use elegance_shawls.Refresh.Accounts.{number}
use mathlib.Core.Path.{subst}
use elegance_shawls.Query.Terms.{Item, Kind}
use elegance_shawls.Query.Parse.{
  Found, bound_found, holds, is_between_joiner, is_between_start, is_num, is_prefix_operator,
  is_suffix_operator, kind_at, kind_before, range_found, amount, is_max, is_range, is_used,
  number_found, operator_of, value_at, collect, is_neg_after, is_neg_before, item_found,
}
use elegance_shawls.Base.{
  ◌&&◌, ◌+◌, ◌-◌, All, Bool, List, Option, String, arith, false, none, refl, some, suc, true, zero,
  ◌||◌, ℕ, ◌≡◌, ap, Bool-cases, Option-cases, inl, inr, ◌∷◌, ◌++◌, ◌==◌, ==_iff, [], any, contains,
  eq_iff, some_inj, str_eq, not,
}

-- The items that may be attached to another: numbers and joiners, the start of a whole range, an
-- operator before a number, and an operator behind a number that has none before it.
abbrev pub is_attachable : List Item → ℕ → Bool
is_attachable items u =
    holds is_num (kind_at items u)
    || holds is_between_joiner (kind_at items u)
    || (holds is_between_start (kind_at items u)
        && holds is_num (kind_at items (u + 1))
        && holds is_between_joiner (kind_at items (u + 2))
        && holds is_num (kind_at items (u + 3)))
    || holds is_prefix_operator (kind_at items u) && holds is_num (kind_at items (u + 1))
    || (holds is_suffix_operator (kind_at items u)
        && holds is_num (kind_before items u)
        && not (holds is_prefix_operator (kind_before items (u - 1))))

abbrev pub AllAttachable : List Item → Found → Type 0
AllAttachable items found = All (λ u. is_attachable items u ≡ true) found.used

and_parts : (a b : Bool) → a && b ≡ true → (a ≡ true) × (b ≡ true)
and_parts true b h = (refl, h)
and_parts false b h = absurd (ground arith)

contains-append :
    (t : String) (us vs : List String) → contains t us ≡ true → contains t (us ++ vs) ≡ true
contains-append t [] vs h = absurd (ground arith)
contains-append t (u ∷ us) vs h = elim (Bool-cases (str_eq u t)) [
  | inl p ↦ rw p refl
  | inr p ↦ rw p (contains-append t us vs (rw p at h))
]

pub contains-last : (t : String) (us : List String) → contains t (us ++ t ∷ []) ≡ true
contains-last t [] = ground (arith, eq_iff t t)
contains-last t (u ∷ us) = ground (arith, contains-last t us)

module _ (groups : String → ℕ × Bool) (items : List Item) where
  range_found-used :
      (low high : Option ℕ) (found : Found)
      → ((range_found low high found).used ≡ found.used)
        × ((range_found low high found).text ≡ found.text)
  unfolding range_found
  range_found-used none high found = (refl, refl)
  range_found-used (some a) none found = (refl, refl)
  range_found-used (some a) (some b) found = (refl, refl)

  bound_found-used :
      (upper : Bool) (n : Option ℕ) (found : Found)
      → ((bound_found upper n found).used ≡ found.used)
        × ((bound_found upper n found).text ≡ found.text)
  unfolding bound_found
  bound_found-used true none found = (refl, refl)
  bound_found-used false none found = (refl, refl)
  bound_found-used true (some n) found = (refl, refl)
  bound_found-used false (some n) found = (refl, refl)

  prefix-attachable :
      (i : ℕ)
      → holds is_num (kind_at items i) ≡ true
      → holds is_prefix_operator (kind_before items i) ≡ true
      → is_attachable items (i - 1) ≡ true
  prefix-attachable zero n h = absurd (ground arith)
  prefix-attachable (suc i) n h =
      let here : i ≡ suc i - 1 = omega arith in
      let next : kind_at items (suc i) ≡ kind_at items (i + 1) = ap (kind_at items) (omega arith) in
      subst (λ k. is_attachable items k ≡ true) here (ground (arith, next))

  start-attachable :
      (i : ℕ)
      → holds is_num (kind_at items i) ≡ true
      → is_range items i ≡ true
      → is_attachable items (i - 1) ≡ true
  start-attachable zero n h = absurd (ground arith)
  start-attachable (suc i) n h =
      let here : i ≡ suc i - 1 = omega arith in
      let one : kind_at items (suc i) ≡ kind_at items (i + 1) = ap (kind_at items) (omega arith) in
      let two : kind_at items (suc i + 1) ≡ kind_at items (i + 2) =
        ap (kind_at items) (omega arith) in
      let three : kind_at items (suc i + 2) ≡ kind_at items (i + 3) =
        ap (kind_at items) (omega arith) in
      subst (λ k. is_attachable items k ≡ true) here (ground (arith, one, two, three))

  suffix-attachable :
      (i : ℕ)
      → holds is_num (kind_at items i) ≡ true
      → holds is_prefix_operator (kind_before items i) ≡ false
      → holds is_suffix_operator (kind_at items (i + 1)) ≡ true
      → is_attachable items (i + 1) ≡ true
  suffix-attachable i n p h =
      let next : i + 1 ≡ suc i = omega arith in
      let here : i + 1 - 1 ≡ i = omega arith in
      let before : kind_before items (i + 1) ≡ kind_at items i = ap (kind_before items) next in
      let earlier : kind_before items (i + 1 - 1) ≡ kind_before items i =
        ap (kind_before items) here in
      ground (arith, before, earlier)

  operator_of-attachable :
      (i : ℕ) {op : ℕ}
      → holds is_num (kind_at items i) ≡ true
      → operator_of items i ≡ some op
      → is_attachable items op ≡ true
  operator_of-attachable i {op} n e =
      elim (Bool-cases (holds is_prefix_operator (kind_before items i))) [
        | inl p ↦
            let same : i - 1 ≡ op = some_inj (rw p at e) in rw⁻¹ same (prefix-attachable i n p)
        | inr p ↦ elim (Bool-cases (holds is_suffix_operator (kind_at items (i + 1)))) [
          | inl q ↦
              let same : i + 1 ≡ op = some_inj (rw (p, q) at e) in
              rw⁻¹ same (suffix-attachable i n p q)
          | inr q ↦ absurd (ground arith)
        ]
      ]

  range-attachable :
      (i : ℕ)
      → holds is_num (kind_at items i) ≡ true
      → is_range items i ≡ true
      → (is_attachable items (i - 1) ≡ true)
        × (is_attachable items (i + 1) ≡ true)
        × (is_attachable items (i + 2) ≡ true)
  range-attachable i n r =
      let (rest, number) =
        and_parts
          (holds is_between_start (kind_before items i)
            && holds is_between_joiner (kind_at items (i + 1)))
          (holds is_num (kind_at items (i + 2))) r in
      let (start, joiner) =
        and_parts (holds is_between_start (kind_before items i))
          (holds is_between_joiner (kind_at items (i + 1))) rest in
      (start-attachable i n r, ground arith, rw number refl)

  number_found-used :
      (i : ℕ) (value : String) (found : Found)
      → holds is_num (kind_at items i) ≡ true
      → AllAttachable items found
      → AllAttachable items (number_found groups items i value found)
  unfolding number_found
  number_found-used i value found n v = elim (Bool-cases (is_range items i)) [
    | inl p ↦
        let used =
          range_found-used (amount groups value) (amount groups (value_at items (i + 2)))
            (record found { used = (i - 1) ∷ (i + 1) ∷ (i + 2) ∷ found.used }) in
        rw p (rw used.0 (let (a, b, c) = range-attachable i n p in (a, (b, (c, v)))))
    | inr p ↦ elim (Option-cases (operator_of items i)) [
      | inl q ↦ rw (p, q, number_found) v
      | inr (op, q) ↦ elim (Bool-cases (is_used op found)) [
        | inl r ↦ rw (p, q, r, number_found) v
        | inr r ↦
            let used =
              bound_found-used (holds is_max (kind_at items op)) (amount groups value)
                (record found { used = op ∷ found.used }) in
            rw (p, q, r, number_found) (rw used.0 (operator_of-attachable i n q, v))
      ]
    ]
  ]

  pub item_found-used :
      (i : ℕ) (k : Kind) (value : String) (found : Found)
      → kind_at items i ≡ some k
      → AllAttachable items found
      → AllAttachable items (item_found groups items i k value found)
  unfolding item_found
  item_found-used i Kind.num value found e v = number_found-used i value found (rw e refl) v
  item_found-used i Kind.color value found e v =
      elim (Bool-cases
        (holds is_neg_before (kind_before items i) || holds is_neg_after (kind_at items (i + 1)))) [
          | inl p ↦ rw p v
          | inr p ↦ rw p v
        ]
  item_found-used i _ value found e v = v

  -- The text only grows.
  number_found-text :
      (i : ℕ) (value t : String) (found : Found)
      → contains t found.text ≡ true
      → contains t (number_found groups items i value found).text ≡ true
  unfolding number_found
  number_found-text i value t found h = elim (Bool-cases (is_range items i)) [
    | inl p ↦
        let used =
          range_found-used (amount groups value) (amount groups (value_at items (i + 2)))
            (record found { used = (i - 1) ∷ (i + 1) ∷ (i + 2) ∷ found.used }) in
        rw p (rw used.1 h)
    | inr p ↦ elim (Option-cases (operator_of items i)) [
      | inl q ↦ rw (p, q, number_found) (contains-append t found.text _ h)
      | inr (op, q) ↦ elim (Bool-cases (is_used op found)) [
        | inl r ↦ rw (p, q, r, number_found) (contains-append t found.text _ h)
        | inr r ↦
            let used =
              bound_found-used (holds is_max (kind_at items op)) (amount groups value)
                (record found { used = op ∷ found.used }) in
            rw (p, q, r, number_found) (rw used.1 h)
      ]
    ]
  ]

  pub item_found-text :
      (i : ℕ) (k : Kind) (value t : String) (found : Found)
      → contains t found.text ≡ true
      → contains t (item_found groups items i k value found).text ≡ true
  unfolding item_found
  item_found-text i Kind.num value t found h = number_found-text i value t found h
  item_found-text i Kind.word value t found h = contains-append t found.text _ h
  item_found-text i Kind.color value t found h =
      elim (Bool-cases
        (holds is_neg_before (kind_before items i) || holds is_neg_after (kind_at items (i + 1)))) [
          | inl p ↦ rw p h
          | inr p ↦ rw p h
        ]
  item_found-text i _ value t found h = h

  pub collect-text :
      (rest : List Item) (i : ℕ) (t : String) (found : Found)
      → contains t found.text ≡ true
      → contains t (collect groups items i rest found).text ≡ true
  unfolding collect
  collect-text [] i t found h = h
  collect-text (x ∷ xs) i t found h = elim (Bool-cases (is_used i found)) [
    | inl p ↦ rw (p, collect) (collect-text xs (suc i) t found h)
    | inr p ↦
        rw (p, collect) (collect-text xs (suc i) t _ (item_found-text i x.kind x.value t found h))
  ]

  pub is_used-attachable :
      (i : ℕ) (us : List ℕ)
      → All (λ u. is_attachable items u ≡ true) us
      → any (λ k. k == i) us ≡ true
      → is_attachable items i ≡ true
  is_used-attachable i [] v h = absurd (ground arith)
  is_used-attachable i (u ∷ us) v h = elim (Bool-cases (u == i)) [
    | inl p ↦ subst (λ k. is_attachable items k ≡ true) ((==_iff u i).0 p) v.0
    | inr p ↦ is_used-attachable i us v.1 (rw p at h)
  ]
