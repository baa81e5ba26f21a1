-- ===== src/Base/TextSets.antt =====
-- Lists of texts: membership, sorted sets, first occurrences, joining.
use Prim.Native.Nat.{Ordering}
use Prim.Native.String.{String, compare, ◌++◌}
use mathlib.Core.Bool.{Bool, true, false, ◌||◌}
use mathlib.Core.List.{List, [], ◌∷◌}
use text.Mathlib.Text.{◌==◌ as str_eq}

abbrev pub contains : String → List String → Bool
contains t [] = false
contains t (u ∷ us) = str_eq u t || contains t us

-- Into a sorted list with no repetition: the members of a set, in code-point order.
unfoldable pub insert_sorted : String → List String → List String
insert_sorted t [] = t ∷ []
insert_sorted t (u ∷ us) = elim (compare t u) [
  | Ordering.lt ↦ t ∷ u ∷ us
  | Ordering.eq ↦ u ∷ us
  | Ordering.gt ↦ u ∷ insert_sorted t us
]

-- `sorted(set(texts))`
unfoldable pub sorted_set : List String → List String
unfolding insert_sorted
sorted_set [] = []
sorted_set (t ∷ ts) = insert_sorted t (sorted_set ts)

-- `dict.fromkeys(texts)`: the first occurrence of each text, in order; `seen` are the texts before.
unfoldable pub first_seen : List String → List String → List String
first_seen seen [] = []
first_seen seen (t ∷ ts) = elim (contains t seen) [
  | true ↦ first_seen seen ts
  | false ↦ t ∷ first_seen (t ∷ seen) ts
]

abbrev pub joined : String → List String → String
joined separator [] = ""
joined separator (t ∷ []) = t
joined separator (t ∷ u ∷ us) = t ++ (separator ++ joined separator (u ∷ us))
