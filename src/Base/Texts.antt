-- ===== src/Base/Texts.antt =====
-- Texts: a prefix of so many characters, the truth test and the search for a colon of the source.
use Prim.Native.Char.{code}
use Prim.Native.Nat.{ℕ, zero, suc, ◌≤◌}
use Prim.Native.String.{String, [], ◌∷◌}
use mathlib.Core.Bool.{Bool, true, false, ◌||◌}
use elegance_shawls.Base.Tests.{◌==◌}
use native.Mathlib.Omega.{arith}

-- `text[:n]`.
pub clip_text : ℕ → String → String
clip_text zero t = []
clip_text (suc n) [] = []
clip_text (suc n) (c ∷ t) = c ∷ clip_text n t

-- The number of characters, `len(text)`.
abbrev pub text_length : String → ℕ
text_length [] = 0
text_length (c ∷ t) = suc (text_length t)

-- The empty text is false.
abbrev pub is_text : String → Bool
is_text [] = false
is_text (c ∷ t) = true

-- `":" in text`
abbrev pub has_colon : String → Bool
has_colon [] = false
has_colon (c ∷ t) = code c == 58 || has_colon t

pub text_length-clip_text-le : (n : ℕ) (t : String) → text_length (clip_text n t) ≤ n
unfolding clip_text
text_length-clip_text-le zero t = omega arith
text_length-clip_text-le (suc n) [] = omega arith
text_length-clip_text-le (suc n) (c ∷ t) = omega (arith, text_length-clip_text-le n t)
