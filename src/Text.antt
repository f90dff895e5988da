-- ===== src/Text.antt =====
-- std::string as the list of its bytes: comparison, boost::to_lower_copy and boost::join
-- (plugins/Functions.h), with the searches and the numbers of its children.
pub mod Number
pub mod Search
pub mod Split
pub mod Names
pub mod Table
use Prim.Native.Char.{code}
use Prim.Native.String.{String}
use nestdaq.Base.{
  ℕ, ◌+◌, ◌≡◌, refl, ap, ◌↔◌, Bool, true, false, ◌&&◌, List, [], ◌∷◌, ◌++◌, map, arith, leb, ◌==◌,
  if◌then◌else◌,
}

abbrev pub Text : Type 0
Text = List ℕ

-- The bytes of a literal, which is ASCII everywhere in the source.
abbrev pub codes : String → Text
codes String.[] = []
codes (String.◌∷◌ c s) = code c ∷ codes s

-- operator== on std::string
unfoldable pub text_eq : Text → Text → Bool
text_eq [] [] = true
text_eq [] (d ∷ t) = false
text_eq (c ∷ s) [] = false
text_eq (c ∷ s) (d ∷ t) = (c == d) && text_eq s t

pub text_eq_refl : (s : Text) → text_eq s s ≡ true
unfolding text_eq
text_eq_refl [] = refl
text_eq_refl (c ∷ s) = ground (arith, text_eq_refl s)

pub text_eq_sound : (s t : Text) → text_eq s t ≡ true → s ≡ t
unfolding text_eq
text_eq_sound [] [] h = refl
text_eq_sound [] (d ∷ t) h = ground arith
text_eq_sound (c ∷ s) [] h = ground arith
text_eq_sound (c ∷ s) (d ∷ t) h = ground (arith, text_eq_sound s t)

pub text_eq_iff : (s t : Text) → (text_eq s t ≡ true) ↔ (s ≡ t)
text_eq_iff s t = (text_eq_sound s t, λ e. rw e (text_eq_refl t))

-- std::unordered_set<std::string>::count(s) > 0
unfoldable pub contains : List Text → Text → Bool
contains [] s = false
contains (x ∷ xs) s = let rest = contains xs s in if text_eq s x then true else rest

-- std::tolower in the "C" locale
lower : ℕ → ℕ
lower c = if leb b'A' c && leb c b'Z' then c + 32 else c

unfoldable pub to_lower : Text → Text
unfolding lower
to_lower s = map lower s

-- boost::join
unfoldable pub join : List Text → Text → Text
join [] sep = []
join (s ∷ []) sep = s
join (s ∷ t ∷ ts) sep = s ++ (sep ++ join (t ∷ ts) sep)

-- A flag is set by "1" or by "true" in any case.
unfoldable pub is_true : Text → Bool
unfolding to_lower text_eq
is_true v = let w = to_lower v in if text_eq w (codes "1") then true else text_eq w (codes "true")
