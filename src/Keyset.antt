-- ===== src/Keyset.antt =====
-- Keyset pagination: the rows of a listing in descending order of a key, and the rows that come
-- after a position in it. It is shared by the listings of apps/backend/repositories/products.py and
-- staged.py and by apps/backend/catalog/search.py.
pub mod Laws
use elegance_shawls.Base.{
  Option, none, some, List, [], ◌∷◌, Bool, select, ◌≡◌, true, All, ℕ, leb, ltb, ◌==◌, ◌||◌, ◌&&◌,
  if◌then◌else◌, length, take, ◌+◌,
}

-- Positions compare by (created_at, id), as tuples do.
pub record Key : Type 0 where
  pub created_at : ℕ
  pub id : ℕ

abbrev pub key_less : Key → Key → Bool
key_less a b = ltb a.created_at b.created_at || (a.created_at == b.created_at && ltb a.id b.id)

module _ {A K : Type 0} (less : K → K → Bool) (key : A → K) where
  -- The rows behind a position: WHERE key < position, and all of them without one.
  unfoldable pub after : Option K → List A → List A
  after none rows = rows
  after (some k) rows = select (λ x. less (key x) k) rows

  -- The order of the listing: each row's key is above those of the rows behind it.
  abbrev pub Descending : List A → Type 0
  Descending [] = Unit
  Descending (x ∷ xs) = All (λ y. less (key y) (key x) ≡ true) xs × Descending xs

  -- ORDER BY key DESC LIMIT limit + 1: a page, and the key of its last row if more rows follow.
  abbrev pub last_key : List A → Option K
  last_key [] = none
  last_key (x ∷ []) = some (key x)
  last_key (x ∷ y ∷ xs) = last_key (y ∷ xs)

  unfoldable pub list_page : ℕ → Option K → List A → List A × Option K
  unfolding after
  list_page limit position rows =
      let found = take (limit + 1) (after position rows) in
      if leb (length found) limit
      then (found, none)
      else (take limit found, last_key (take limit found))
