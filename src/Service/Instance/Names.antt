-- ===== src/Service/Instance/Names.antt =====
-- The names of indices in the hash of SetId (plugins/DaqServicePlugin.cxx), counted.
use nestdaq.Base.{
  ℕ, zero, suc, ◌≤◌, ◌<◌, ◌≡◌, true, false, List, arith, length, Bool-cases, inl, inr,
}
use nestdaq.Text.{Text, text_eq, text_eq_sound, contains}
use nestdaq.Text.Names.{without, length-without-lt, contains-without}
use nestdaq.Text.Number.{to_string_nat}
use nestdaq.Text.Number.RoundTrip.{to_string_nat-injective}

text_eq-to_string_nat : (m n : ℕ) → m < n → text_eq (to_string_nat m) (to_string_nat n) ≡ false
text_eq-to_string_nat m n h = elim (Bool-cases (text_eq (to_string_nat m) (to_string_nat n))) [
  | inl e ↦
      let p : m ≡ n =
        to_string_nat-injective m n (text_eq_sound (to_string_nat m) (to_string_nat n) e) in
      absurd (omega arith)
  | inr e ↦ e
]

-- The pigeonhole principle for the names of the indices.
pub length-names :
    (n : ℕ) (xs : List Text)
    → ((m : ℕ) → m < n → contains xs (to_string_nat m) ≡ true)
    → n ≤ length xs
length-names zero xs h = omega arith
length-names (suc n) xs h = omega (
  arith,
  length-names n (without (to_string_nat n) xs) (λ m lt.
      contains-without (to_string_nat n) (to_string_nat m) xs (text_eq-to_string_nat m n lt)
        (h m (omega arith))),
  length-without-lt (to_string_nat n) xs (h n (omega arith)),
)
