-- ===== src/Text/Number.antt =====
-- std::to_string of an int and std::stoi. An int has 32 bits.
pub mod RoundTrip
pub mod Wide
use nestdaq.Base.{
  ℕ, zero, suc, ◌+◌, ◌-◌, ◌*◌, ◌/◌, ◌%◌, ◌<◌, Bool, ◌&&◌, ◌||◌, List, [], ◌∷◌, ◌++◌, Option, none,
  some, ltb, leb, ◌==◌, if◌then◌else◌,
}
use nestdaq.Text.{Text}

pub data ℤ : Type 0 where
  pos : ℕ → ℤ
  negsuc : ℕ → ℤ

abbrev pub int_bound : ℕ
int_bound = 2147483648

-- The values of an int.
abbrev pub InInt : ℤ → Type 0
InInt (pos n) = n < int_bound
InInt (negsuc n) = n < int_bound

-- The decimal digits of `n`; `n` rounds are more than enough.
pub digits : ℕ → ℕ → Text
digits zero n = (b'0' + n % 10) ∷ []
digits (suc fuel) n =
    let more = digits fuel (n / 10) ++ ((b'0' + n % 10) ∷ []) in
    if ltb n 10 then (b'0' + n) ∷ [] else more

unfoldable pub to_string_nat : ℕ → Text
unfolding digits
to_string_nat n = digits n n

unfoldable pub to_string : ℤ → Text
unfolding to_string_nat
to_string (pos n) = to_string_nat n
to_string (negsuc n) = b'-' ∷ to_string_nat (suc n)

unfoldable pub is_digit : ℕ → Bool
is_digit c = leb b'0' c && leb c b'9'

-- std::isspace in the "C" locale
unfoldable pub is_space : ℕ → Bool
is_space c = c == 32 || (leb 9 c && leb c 13)

unfoldable pub skip_space : Text → Text
unfolding is_space
skip_space [] = []
skip_space (c ∷ s) = let rest = skip_space s in if is_space c then rest else c ∷ s

-- The number at the front, read behind `acc`; what follows the digits is ignored.
read_digits : ℕ → Text → ℕ
read_digits acc [] = acc
read_digits acc (c ∷ s) =
    let rest = read_digits (acc * 10 + (c - b'0')) s in if is_digit c then rest else acc

-- `none` is std::invalid_argument
pub number : Text → Option ℕ
unfolding read_digits is_digit
number [] = none
number (c ∷ s) = if is_digit c then some (read_digits 0 (c ∷ s)) else none

-- `none` is std::out_of_range
positive : Option ℕ → Option ℤ
positive none = none
positive (some n) = if ltb n int_bound then some (pos n) else none

negated : ℕ → ℤ
negated zero = pos 0
negated (suc n) = negsuc n

negative : Option ℕ → Option ℤ
unfolding negated
negative none = none
negative (some n) = if leb n int_bound then some (negated n) else none

signed : Text → Option ℤ
unfolding number positive negative
signed [] = none
signed (c ∷ s) =
    if c == b'-'
    then negative (number s)
    else if c == b'+'
    then positive (number s)
    else positive (number (c ∷ s))

-- `none` is an exception.
unfoldable pub stoi : Text → Option ℤ
unfolding skip_space signed
stoi s = signed (skip_space s)
