-- ===== src/Search/Refused.antt =====
-- apps/backend/catalog/query.py and search.py: an operator of a query that attaches to nothing makes
-- the search return nothing, where dropping the operator would widen the result.
use elegance_shawls.Query.Terms.{Item, is_color}
use elegance_shawls.Query.Parse.{
  holds, is_between_start, is_neg_after, is_neg_before, is_num, is_prefix_operator,
  is_suffix_operator, kind_at, kind_before, is_between_joiner,
}
use elegance_shawls.Base.{◌&&◌, ◌+◌, Bool, List, not, ◌||◌, ℕ, ◌-◌}

-- A negation with no colour at its side, an operator before no number or behind none, an operator behind
-- a number that has one before it, and the start of a range that is not whole.
abbrev pub is_dangling : List Item → ℕ → Bool
is_dangling items j =
    holds is_neg_before (kind_at items j) && not (holds is_color (kind_at items (j + 1)))
    || holds is_neg_after (kind_at items j) && not (holds is_color (kind_before items j))
    || holds is_prefix_operator (kind_at items j) && not (holds is_num (kind_at items (j + 1)))
    || (holds is_suffix_operator (kind_at items j)
        && (not (holds is_num (kind_before items j))
            || holds is_prefix_operator (kind_before items (j - 1))))
    || (holds is_between_start (kind_at items j)
        && not (
            holds is_num (kind_at items (j + 1))
            && holds is_between_joiner (kind_at items (j + 2))
            && holds is_num (kind_at items (j + 3))))
