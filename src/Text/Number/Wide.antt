-- ===== src/Text/Number/Wide.antt =====
-- std::stoll and std::stoull on 64 bits, and the conversion of a long long to an int of 32 bits.
pub mod Casts
use nestdaq.Base.{
  ℕ, zero, suc, ◌-◌, ◌%◌, Bool, true, false, [], ◌∷◌, Option, none, some, ltb, leb, ◌==◌,
  if◌then◌else◌,
}
use nestdaq.Text.{Text}
use nestdaq.Text.Number.{ℤ, pos, negsuc, number, negated, skip_space}

abbrev pub long_bound : ℕ
long_bound = 9223372036854775808

abbrev pub unsigned_bound : ℕ
unsigned_bound = 18446744073709551616

-- `none` is an exception.
signed_long : Bool → Option ℕ → Option ℤ
unfolding negated
signed_long minus none = none
signed_long false (some n) = if ltb n long_bound then some (pos n) else none
signed_long true (some n) = if leb n long_bound then some (negated n) else none

-- A minus sign negates modulo 2 ^ 64.
unsigned_long : Bool → Option ℕ → Option ℕ
unsigned_long minus none = none
unsigned_long false (some n) = if ltb n unsigned_bound then some n else none
unsigned_long true (some n) =
    if ltb n unsigned_bound then some ((unsigned_bound - n) % unsigned_bound) else none

-- The sign, and the digits behind it.
sign : Text → Bool × Text
sign [] = (false, [])
sign (c ∷ s) = if c == b'-' then (true, s) else if c == b'+' then (false, s) else (false, c ∷ s)

unfoldable pub stoll : Text → Option ℤ
unfolding sign signed_long number skip_space
stoll t = let (minus, s) = sign (skip_space t) in signed_long minus (number s)

unfoldable pub stoull : Text → Option ℕ
unfolding sign unsigned_long number skip_space
stoull t = let (minus, s) = sign (skip_space t) in unsigned_long minus (number s)

abbrev word_bound : ℕ
word_bound = 4294967296

abbrev int_bound : ℕ
int_bound = 2147483648

-- static_cast<int>
unfoldable pub to_int : ℤ → ℤ
to_int (pos n) =
    let r = n % word_bound in if ltb r int_bound then pos r else negsuc ((word_bound - 1) - r)
to_int (negsuc n) =
    let r = n % word_bound in if ltb r int_bound then negsuc r else pos ((word_bound - 1) - r)
