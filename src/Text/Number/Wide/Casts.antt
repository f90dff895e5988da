-- ===== src/Text/Number/Wide/Casts.antt =====
-- std::stoll after std::to_string, and the range of an int.
use nestdaq.Base.{
  suc, ◌%◌, ◌<◌, ◌≡◌, refl, false, [], ◌∷◌, some, arith, All, ltb, Bool-cases, inl, inr,
}
use nestdaq.Text.{Text}
use nestdaq.Text.Number.{
  ℤ, pos, negsuc, InInt, digits, negated, skip_space, to_string_nat, to_string, is_space,
}
use nestdaq.Text.Number.RoundTrip.{IsDigit, digits-IsDigit, number-to_string_nat, skip_space-digits}
use nestdaq.Text.Number.Wide.{long_bound, sign, signed_long, stoll, to_int}

-- The values of a long long.
abbrev pub InLong : ℤ → Type 0
InLong (pos n) = n < long_bound
InLong (negsuc n) = n < long_bound

sign-digits : (s : Text) → All IsDigit s → sign s ≡ (false, s)
unfolding sign
sign-digits [] h = refl
sign-digits (c ∷ s) (d, h) = ground (arith, d)

pub stoll-to_string : (z : ℤ) → InLong z → stoll (to_string z) ≡ some z
unfolding stoll to_string to_string_nat signed_long negated sign skip_space is_space
stoll-to_string (pos n) h =
    rw
      (
        skip_space-digits (digits n n) (digits-IsDigit n n),
        sign-digits (digits n n) (digits-IsDigit n n),
        number-to_string_nat n,
      )
      (ground (arith, h))
stoll-to_string (negsuc n) h = rw (number-to_string_nat (suc n)) (ground (arith, h))

pub to_int-InInt : (z : ℤ) → InInt (to_int z)
unfolding to_int
to_int-InInt (pos n) = elim (Bool-cases (ltb (n % 4294967296) 2147483648)) [
  | inl y ↦ rw y (ground arith)
  | inr x ↦ rw x (ground arith)
]
to_int-InInt (negsuc n) = elim (Bool-cases (ltb (n % 4294967296) 2147483648)) [
  | inl y ↦ rw y (ground arith)
  | inr x ↦ rw x (ground arith)
]

pub to_int-same : (z : ℤ) → InInt z → to_int z ≡ z
unfolding to_int
to_int-same (pos n) h = ground arith
to_int-same (negsuc n) h = ground arith
