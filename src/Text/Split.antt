-- ===== src/Text/Split.antt =====
-- boost::split and boost::trim_if, which are not part of the repository: a parameter, with the
-- documented behaviour that the theorems rely on as laws.
use nestdaq.Base.{ℕ, ◌≡◌, true, List, [], ◌∷◌, All, ◌≢◌}
use nestdaq.Text.{Text, join}
use nestdaq.Text.Search.{has}
use nestdaq.Text.Search.Skip.{Clear}

pub record Algorithm : Type 0 where
  -- boost::split(_, text, boost::is_any_of(chars)), and the same with boost::token_compress_on
  pub split : Text → Text → List Text
  pub split_compress : Text → Text → List Text
  -- boost::trim_if(text, boost::is_space())
  pub trim : Text → Text

-- Pieces that were joined by one character that none of them has are found again.
pub record SplitLaws (A : Algorithm) : Type 0 where
  pub split-join :
      (c : ℕ) (t : Text) (ts : List Text)
      → All (Clear (c ∷ [])) (t ∷ ts)
      → A.split (join (t ∷ ts) (c ∷ [])) (c ∷ []) ≡ t ∷ ts

-- The characters of boost::is_space in the "C" locale.
abbrev pub spaces : Text
spaces = 32 ∷ 9 ∷ 10 ∷ 11 ∷ 12 ∷ 13 ∷ []

-- A piece that is not empty and has none of the characters.
abbrev pub Piece : Text → Text → Type 0
Piece chars t = (t ≢ []) × Clear chars t

-- The same with several characters to split at, for pieces that are not empty; and a text with no
-- space in it has nothing that is trimmed.
pub record CompressLaws (A : Algorithm) : Type 0 where
  pub split_compress-join :
      (chars : Text) (c : ℕ) (t : Text) (ts : List Text)
      → has chars c ≡ true
      → All (Piece chars) (t ∷ ts)
      → A.split_compress (join (t ∷ ts) (c ∷ [])) chars ≡ t ∷ ts
  pub trim-Clear : (t : Text) → Clear spaces t → A.trim t ≡ t
