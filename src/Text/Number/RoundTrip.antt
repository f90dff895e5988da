-- ===== src/Text/Number/RoundTrip.antt =====
-- std::stoi after std::to_string.
use nestdaq.Base.{
  ℕ, zero, suc, ◌+◌, ◌-◌, ◌*◌, ◌/◌, ◌%◌, ◌≤◌, ◌<◌, ◌≡◌, ◌≢◌, true, false, refl, ap, ◌∙◌, [], ◌∷◌,
  ◌++◌, some, arith, ltb, All, All-append, Bool-cases, inl, inr,
}
use nestdaq.Text.{Text}
use nestdaq.Text.Search.{has}
use nestdaq.Text.Search.Skip.{Clear}
use nestdaq.Text.Number.{
  ℤ, pos, negsuc, InInt, int_bound, digits, to_string_nat, to_string, is_digit, read_digits, number,
  positive, negative, signed, stoi, skip_space,
}

abbrev pub IsDigit : ℕ → Type 0
IsDigit c = (b'0' ≤ c) × (c ≤ b'9')

pub digits-IsDigit : (fuel n : ℕ) → All IsDigit (digits fuel n)
unfolding digits
digits-IsDigit zero n = ((omega arith, omega arith), tt)
digits-IsDigit (suc fuel) n = elim (Bool-cases (ltb n 10)) [
  | inl e ↦ rw e ((omega arith, ground arith), tt)
  | inr e ↦ rw e (
      All-append IsDigit (digits fuel (n / 10)) _ (digits-IsDigit fuel (n / 10))
        ((omega arith, omega arith), tt))
]

-- No digit is one of the characters that are none.
pub to_string_nat-Clear :
    (chars : Text) (n : ℕ)
    → ((c : ℕ) → b'0' ≤ c → c ≤ b'9' → has chars c ≡ false)
    → Clear chars (to_string_nat n)
unfolding to_string_nat
to_string_nat-Clear chars n none_of = go (digits n n) (digits-IsDigit n n)
  where
    go : (s : Text) → All IsDigit s → Clear chars s
    go [] h = tt
    go (c ∷ s) ((a, b), h) = (none_of c a b, go s h)

pub to_string_nat-digits : (n : ℕ) → All (λ c. is_digit c ≡ true) (to_string_nat n)
unfolding to_string_nat is_digit
to_string_nat-digits n = go (digits n n) (digits-IsDigit n n)
  where
    go : (s : Text) → All IsDigit s → All (λ c. is_digit c ≡ true) s
    go [] h = tt
    go (c ∷ s) (d, h) = (ground (arith, d), go s h)

append-ne-nil : (s : Text) (c : ℕ) → s ++ (c ∷ []) ≢ []
append-ne-nil [] c e = cc
append-ne-nil (d ∷ s) c e = cc

digits-ne-nil : (fuel n : ℕ) → digits fuel n ≢ []
unfolding digits
digits-ne-nil zero n e = cc
digits-ne-nil (suc fuel) n e = elim (Bool-cases (ltb n 10)) [
  | inl t ↦ cc (rw t at e)
  | inr t ↦ append-ne-nil (digits fuel (n / 10)) (b'0' + n % 10) (rw t at e)
]

read_digits-append :
    (acc : ℕ) (s t : Text)
    → All IsDigit s
    → read_digits acc (s ++ t) ≡ read_digits (read_digits acc s) t
unfolding read_digits is_digit
read_digits-append acc [] t h = refl
read_digits-append acc (c ∷ s) t (d, h) =
    ground (arith, read_digits-append (acc * 10 + (c - b'0')) s t h)

read_digits-one : (acc d : ℕ) → d < 10 → read_digits acc ((b'0' + d) ∷ []) ≡ acc * 10 + d
unfolding read_digits is_digit
read_digits-one acc d h = ground arith

read_digits-digits : (fuel n : ℕ) → n ≤ fuel → read_digits 0 (digits fuel n) ≡ n
unfolding digits
read_digits-digits zero n h = read_digits-one 0 (n % 10) (omega arith) ∙ omega arith
read_digits-digits (suc fuel) n h = elim (Bool-cases (ltb n 10)) [
  | inl e ↦ rw e (read_digits-one 0 n (ground arith) ∙ omega arith)
  | inr e ↦
      rw
        (
          e,
          read_digits-append 0 (digits fuel (n / 10)) ((b'0' + n % 10) ∷ [])
              (digits-IsDigit fuel (n / 10)),
          read_digits-digits fuel (n / 10) (ground arith),
        )
        (read_digits-one (n / 10) (n % 10) (omega arith) ∙ omega arith)
]

number-read_digits : (s : Text) → s ≢ [] → All IsDigit s → number s ≡ some (read_digits 0 s)
unfolding number
number-read_digits [] ne h = absurd (ne refl)
number-read_digits (c ∷ s) ne (d, h) = ground arith

pub number-to_string_nat : (n : ℕ) → number (to_string_nat n) ≡ some n
unfolding to_string_nat
number-to_string_nat n =
    number-read_digits (digits n n) (digits-ne-nil n n) (digits-IsDigit n n)
    ∙ ap some (read_digits-digits n n (omega arith))

-- Two numbers that are printed alike are equal.
pub to_string_nat-injective : (m n : ℕ) → to_string_nat m ≡ to_string_nat n → m ≡ n
to_string_nat-injective m n e = cc (number-to_string_nat m, number-to_string_nat n, ap number e)

signed-positive : (s : Text) → All IsDigit s → s ≢ [] → signed s ≡ positive (number s)
unfolding signed
signed-positive [] h ne = absurd (ne refl)
signed-positive (c ∷ s) (d, h) ne = ground arith

pub skip_space-digits : (s : Text) → All IsDigit s → skip_space s ≡ s
unfolding skip_space
skip_space-digits [] h = refl
skip_space-digits (c ∷ s) (d, h) = ground arith

positive-stoi : (s : Text) → All IsDigit s → s ≢ [] → stoi s ≡ positive (number s)
unfolding stoi
positive-stoi s h ne = rw (skip_space-digits s h) (signed-positive s h ne)

stoi-minus : (s : Text) → stoi (b'-' ∷ s) ≡ negative (number s)
unfolding stoi
stoi-minus s = refl

positive-some : (n : ℕ) → n < int_bound → positive (some n) ≡ some (pos n)
unfolding positive
positive-some n h = ground arith

negative-some : (n : ℕ) → n < int_bound → negative (some (suc n)) ≡ some (negsuc n)
unfolding negative
negative-some n h = ground arith

-- Every int is read back from its print.
pub stoi-to_string : (z : ℤ) → InInt z → stoi (to_string z) ≡ some z
unfolding to_string
stoi-to_string (pos n) h =
    positive-stoi (digits n n) (digits-IsDigit n n) (digits-ne-nil n n)
    ∙ ap positive (number-to_string_nat n)
    ∙ positive-some n h
stoi-to_string (negsuc n) h =
    stoi-minus (digits (suc n) (suc n))
    ∙ ap negative (number-to_string_nat (suc n))
    ∙ negative-some n h
