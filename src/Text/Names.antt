-- ===== src/Text/Names.antt =====
-- Lists of texts as sets: the std::unordered_set<std::string> and the keys of a std::map.
use nestdaq.Base.{
  ◌||◌, ◌++◌, ◌≤◌, ◌<◌, ◌≡◌, refl, true, false, List, [], ◌∷◌, arith, length, if◌then◌else◌,
  Bool-cases, inl, inr,
}
use nestdaq.Text.{Text, text_eq, text_eq_refl, text_eq_sound, contains}

pub contains-append :
    (xs ys : List Text) (k : Text) → contains (xs ++ ys) k ≡ (contains xs k || contains ys k)
unfolding contains
contains-append [] ys k = refl
contains-append (x ∷ xs) ys k = ground (arith, contains-append xs ys k)

pub without : Text → List Text → List Text
without a [] = []
without a (x ∷ xs) = let rest = without a xs in if text_eq a x then rest else x ∷ rest

length-without-le : (a : Text) (xs : List Text) → length (without a xs) ≤ length xs
unfolding without
length-without-le a [] = omega arith
length-without-le a (x ∷ xs) = ground (arith, length-without-le a xs)

pub length-without-lt :
    (a : Text) (xs : List Text) → contains xs a ≡ true → length (without a xs) < length xs
unfolding without contains
length-without-lt a [] h = cc
length-without-lt a (x ∷ xs) h = ground (arith, length-without-le a xs, length-without-lt a xs)

pub contains-without :
    (a b : Text) (xs : List Text)
    → text_eq b a ≡ false
    → contains xs b ≡ true
    → contains (without a xs) b ≡ true
unfolding without contains
contains-without a b [] n h = cc
contains-without a b (x ∷ xs) n h = ground (arith, contains-without a b xs n, text_eq_sound a x)

contains-without-less :
    (a b : Text) (xs : List Text) → contains (without a xs) b ≡ true → contains xs b ≡ true
unfolding without contains
contains-without-less a b [] h = h
contains-without-less a b (x ∷ xs) h = ground (arith, contains-without-less a b xs)

-- No name stands twice.
abbrev pub Distinct : List Text → Type 0
Distinct [] = Unit
Distinct (x ∷ xs) = (contains xs x ≡ false) × Distinct xs

abbrev pub Within : List Text → List Text → Type 0
Within xs ys = (k : Text) → contains xs k ≡ true → contains ys k ≡ true

fewer :
    (x : Text) (xs ys : List Text)
    → contains xs x ≡ false
    → Within (x ∷ xs) ys
    → Within xs (without x ys)
unfolding contains
fewer x xs ys n w j m = elim (Bool-cases (text_eq j x)) [
  | inl e ↦ absurd (clash j (text_eq_sound j x e) m)
  | inr e ↦ contains-without x j ys e (w j (rw e m))
]
  where
    clash : (i : Text) → i ≡ x → contains xs i ≡ true → ⊥
    clash i e m' = cc

-- The pigeonhole principle: distinct names within no more names are all of them.
pub Within-back :
    (xs ys : List Text) → Distinct xs → Within xs ys → length ys ≤ length xs → Within ys xs
unfolding contains
Within-back [] [] d w le k h = h
Within-back [] (y ∷ ys) d w le k h = absurd (omega arith)
Within-back (x ∷ xs) ys (n, d) w le k h = elim (Bool-cases (text_eq k x)) [
  | inl e ↦ rw e refl
  | inr e ↦ rw e (
      Within-back xs (without x ys) d (fewer x xs ys n w)
        (omega (arith, length-without-lt x ys (w x (rw (text_eq_refl x) refl)))) k
        (contains-without x k ys e h))
]

-- Distinct names within others are no more than they.
pub Within-length : (xs ys : List Text) → Distinct xs → Within xs ys → length xs ≤ length ys
unfolding contains
Within-length [] ys d w = omega arith
Within-length (x ∷ xs) ys (n, d) w = omega (
  arith,
  Within-length xs (without x ys) d (fewer x xs ys n w),
  length-without-lt x ys (w x (rw (text_eq_refl x) refl)),
)
