-- ===== src/Text.antt =====
-- Texts: what the program keeps in strings, as lists of code units.
pub mod Decimal
pub mod Join
use Prim.Native.Char.{code}
use Prim.Native.String.{String}
use saros_dlmm_indexer.Base.{
  ℕ, ◌≡◌, refl, ◌↔◌, Bool, true, false, ◌&&◌, List, [], ◌∷◌, arith, ◌==◌, ap, leb, ◌+◌, map,
  if◌then◌else◌,
}

abbrev pub Text : Type 0
Text = List ℕ

-- A literal of the source.
abbrev pub codes : String → Text
codes String.[] = []
codes (String.◌∷◌ c s) = code c ∷ codes s

-- `===` on strings, and `Buffer.equals` on bytes.
unfoldable pub eq_text : Text → Text → Bool
eq_text [] [] = true
eq_text (a ∷ s) (b ∷ t) = a == b && eq_text s t
eq_text _ _ = false

pub eq_text_iff : (s t : Text) → (eq_text s t ≡ true) ↔ (s ≡ t)
unfolding eq_text
eq_text_iff [] [] = ground arith
eq_text_iff [] (b ∷ t) = ground arith
eq_text_iff (a ∷ s) [] = ground arith
eq_text_iff (a ∷ s) (b ∷ t) = ground (arith, eq_text_iff s t)

pub eq_text_refl : (s : Text) → eq_text s s ≡ true
eq_text_refl s = (eq_text_iff s s).1 refl

-- `toLowerCase` on ASCII letters.
unfoldable pub to_lower : ℕ → ℕ
to_lower c = if leb b'A' c && leb c b'Z' then c + 32 else c

unfoldable pub to_lower_case : Text → Text
unfolding to_lower
to_lower_case = map to_lower
