-- ===== src/Text/Search.antt =====
-- The searches of std::string and std::string_view. A position is a 64-bit size.
pub mod Skip
use nestdaq.Base.{
  ℕ, suc, ◌+◌, ◌-◌, ◌%◌, Bool, true, false, ◌&&◌, List, [], ◌∷◌, Option, none, some, ltb, leb, ◌==◌,
  length, take, drop, if◌then◌else◌,
}
use nestdaq.Text.{Text}

abbrev pub size_bound : ℕ
size_bound = 18446744073709551616

abbrev pub npos : ℕ
npos = 18446744073709551615

-- Sums and differences of sizes wrap around.
unfoldable pub size_suc : ℕ → ℕ
size_suc n = (n + 1) % size_bound

unfoldable pub size_sub : ℕ → ℕ → ℕ
size_sub m n = (m + (size_bound - n)) % size_bound

unfoldable pub has : Text → ℕ → Bool
has [] c = false
has (d ∷ ds) c = let rest = has ds c in if c == d then true else rest

-- The first position, counted from `i`, of one of the characters.
unfoldable pub first_of : Text → ℕ → Text → ℕ
unfolding has
first_of chars i [] = npos
first_of chars i (c ∷ t) = let rest = first_of chars (suc i) t in if has chars c then i else rest

unfoldable pub find_first_of : Text → Text → ℕ
unfolding first_of
find_first_of t chars = first_of chars 0 t

-- The last one that is not behind `pos`, `best` if there is none.
unfoldable pub last_of : Text → ℕ → ℕ → ℕ → Text → ℕ
unfolding has
last_of chars pos i best [] = best
last_of chars pos i best (c ∷ t) =
    last_of chars pos (suc i) (if leb i pos && has chars c then i else best) t

unfoldable pub find_last_of : Text → Text → ℕ → ℕ
unfolding last_of
find_last_of t chars pos = last_of chars pos 0 npos t

-- `none` is std::out_of_range
unfoldable pub substr : Text → ℕ → ℕ → Option Text
substr t pos n = if ltb (length t) pos then none else some (take n (drop pos t))

-- operator< on std::string
unfoldable pub text_lt : Text → Text → Bool
text_lt s [] = false
text_lt [] (d ∷ t) = true
text_lt (c ∷ s) (d ∷ t) =
    let rest = text_lt s t in if ltb c d then true else if c == d then rest else false
