-- ===== src/Text/Table.antt =====
-- std::map with std::string keys, as the list of its entries in the order of the keys.
pub mod Order
use nestdaq.Base.{List, [], ◌∷◌, Option, none, some, if◌then◌else◌}
use nestdaq.Text.{Text, text_eq}
use nestdaq.Text.Search.{text_lt}

abbrev pub Table {ℓ} : Type ℓ → Type ℓ
Table A = List (Text × A)

module _ {ℓ} {A : Type ℓ} where
  -- find
  unfoldable pub find : Text → Table A → Option A
  find k [] = none
  find k ((l, a) ∷ t) = let rest = find k t in if text_eq k l then some a else rest

  -- A change of the entry that operator[] gives, with the value that it makes of a missing one.
  unfoldable pub alter : Text → A → (A → A) → Table A → Table A
  alter k made f [] = (k, f made) ∷ []
  alter k made f ((l, a) ∷ t) =
      let rest = alter k made f t in
      if text_eq k l
      then (l, f a) ∷ t
      else if text_lt k l
      then (k, f made) ∷ (l, a) ∷ t
      else (l, a) ∷ rest

  unfoldable pub keys : Table A → List Text
  keys [] = []
  keys ((k, a) ∷ t) = k ∷ keys t
