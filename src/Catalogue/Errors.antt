-- ===== src/Catalogue/Errors.antt =====
-- The errors of apps/backend/repositories/__init__.py, and operations that may raise one. An
-- operation that raises inside its savepoint leaves the database as it was, so an error carries none.
use elegance_shawls.Base.{Bool, Option, false, none, some, true, arith, refl, ◌≡◌}

pub data ConflictCode : Type 0 where
  slug_exists review_required conflict : ConflictCode

pub data StagedStatus : Type 0 where
  pending_review approved rejected published unpublished archived : StagedStatus

pub data RepositoryError : Type 0 where
  not_found : RepositoryError
  conflict : ConflictCode → RepositoryError
  invalid_transition : StagedStatus → StagedStatus → RepositoryError
  invalid_draft : RepositoryError
  product_unavailable : RepositoryError
  data_error : RepositoryError

pub data Result {ℓ} (Row : Type ℓ) : Type ℓ where
  raised : RepositoryError → Result Row
  returned : Row → Result Row

abbrev pub or_raise {ℓ} : {Row : Type ℓ} → Option Row → RepositoryError → Result Row
or_raise read error = elim read [ none ↦ raised error | some row ↦ returned row ]

-- Raise an error unless the test holds.
abbrev pub require : Bool → RepositoryError → Result (Unit {0})
require test error = elim test [ false ↦ raised error | true ↦ returned tt ]

infixl 5 ◌>>=◌ ◌>>◌
abbrev pub ◌>>=◌ {ℓ κ} :
    {Row : Type ℓ} {Next : Type κ} → Result Row → (Row → Result Next) → Result Next
raised error >>= go = raised error
returned row >>= go = go row

abbrev pub ◌>>◌ {ℓ} : {Next : Type ℓ} → Result (Unit {0}) → Result Next → Result Next
test >> next = test >>= λ _. next

-- A chain that succeeds has a first step that succeeds.
pub bind-returned {ℓ κ} :
    {Row : Type ℓ} {Next : Type κ} (first : Result Row) (go : Row → Result Next) {end : Next}
    → first >>= go ≡ returned end
    → (row : Row) × (first ≡ returned row) × (go row ≡ returned end)
bind-returned (raised error) go done = absurd (ground arith)
bind-returned (returned row) go done = (row, refl, done)

pub require-returned {ℓ} :
    {B : Type ℓ} (test : Bool) (x : RepositoryError) (k : Result B) {b : B}
    → require test x >> k ≡ returned b
    → (test ≡ true) × (k ≡ returned b)
require-returned true x k e = (refl, e)
require-returned false x k e = absurd (ground arith)

pub or_raise-returned {ℓ κ} :
    {A : Type ℓ} {B : Type κ} (o : Option A) (x : RepositoryError) (f : A → Result B) {b : B}
    → or_raise o x >>= f ≡ returned b
    → (a : A) × (o ≡ some a) × (f a ≡ returned b)
or_raise-returned none x f e = absurd (ground arith)
or_raise-returned (some a) x f e = (a, refl, e)
