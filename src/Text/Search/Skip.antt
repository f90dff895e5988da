-- ===== src/Text/Search/Skip.antt =====
-- The searches and cuts of texts that are put together.
use nestdaq.Base.{
  ℕ, suc, ◌+◌, ◌-◌, ◌<◌, ◌≤◌, ◌≡◌, refl, ap, ◌∙◌, true, false, [], ◌∷◌, ◌++◌, some, arith, ltb,
  length, take, length-append, take-append, take-all, drop-append, All,
}
use nestdaq.Text.{Text}
use nestdaq.Text.Search.{size_bound, npos, size_suc, size_sub, has, first_of, last_of, substr}

-- None of the characters stands in the text.
abbrev pub Clear : Text → Text → Type 0
Clear chars t = All (λ c. has chars c ≡ false) t

pub first_of-skip :
    (chars : Text) (i : ℕ) (xs t : Text)
    → Clear chars xs
    → first_of chars i (xs ++ t) ≡ first_of chars (i + length xs) t
unfolding first_of
first_of-skip chars i [] t h = ap (λ j. first_of chars j t) (omega arith)
first_of-skip chars i (c ∷ xs) t (e, h) =
    rw (e, first_of)
      (first_of-skip chars (suc i) xs t h ∙ ap (λ j. first_of chars j t) (omega arith))

pub first_of-other :
    (chars : Text) (i c : ℕ) (t : Text)
    → has chars c ≡ false
    → first_of chars i (c ∷ t) ≡ first_of chars (suc i) t
unfolding first_of
first_of-other chars i c t h = rw (h, first_of) refl

pub first_of-hit :
    (chars : Text) (i c : ℕ) (t : Text) → has chars c ≡ true → first_of chars i (c ∷ t) ≡ i
unfolding first_of
first_of-hit chars i c t h = rw (h, first_of) refl

pub last_of-skip :
    (chars : Text) (pos i best : ℕ) (xs t : Text)
    → Clear chars xs
    → last_of chars pos i best (xs ++ t) ≡ last_of chars pos (i + length xs) best t
unfolding last_of
last_of-skip chars pos i best [] t h = ap (λ j. last_of chars pos j best t) (omega arith)
last_of-skip chars pos i best (c ∷ xs) t (e, h) =
    ap (λ b. last_of chars pos (suc i) b (xs ++ t)) (ground (arith, e))
    ∙ last_of-skip chars pos (suc i) best xs t h
    ∙ ap (λ j. last_of chars pos j best t) (omega arith)

pub last_of-other :
    (chars : Text) (pos i best c : ℕ) (t : Text)
    → has chars c ≡ false
    → last_of chars pos i best (c ∷ t) ≡ last_of chars pos (suc i) best t
unfolding last_of
last_of-other chars pos i best c t h = ap (λ b. last_of chars pos (suc i) b t) (ground (arith, h))

pub last_of-hit :
    (chars : Text) (pos i best c : ℕ) (t : Text)
    → i ≤ pos
    → has chars c ≡ true
    → last_of chars pos i best (c ∷ t) ≡ last_of chars pos (suc i) i t
unfolding last_of
last_of-hit chars pos i best c t le h = ap (λ b. last_of chars pos (suc i) b t) (ground (arith, h))

pub last_of-past :
    (chars : Text) (pos i best : ℕ) (t : Text) → pos < i → last_of chars pos i best t ≡ best
unfolding last_of
last_of-past chars pos i best [] h = refl
last_of-past chars pos i best (c ∷ t) h =
    last_of-past chars pos (suc i) _ t (omega arith) ∙ ground (arith, h)

substr-drop : (xs ys : Text) (n : ℕ) → substr (xs ++ ys) (length xs) n ≡ some (take n ys)
unfolding substr
substr-drop xs ys n = rw (inside, drop-append xs ys) refl
  where
    inside : ltb (length (xs ++ ys)) (length xs) ≡ false
    inside = ground (arith, length-append xs ys)

pub substr-part :
    (xs ys t : Text) {u : Text} {pos n : ℕ}
    → u ≡ xs ++ (ys ++ t)
    → pos ≡ length xs
    → n ≡ length ys
    → substr u pos n ≡ some ys
substr-part xs ys t eu ep en =
    rw (eu, ep, en) (substr-drop xs (ys ++ t) (length ys) ∙ ap some (take-append ys t))

pub substr-rest :
    (xs ys : Text) {u : Text} {pos : ℕ}
    → u ≡ xs ++ ys
    → pos ≡ length xs
    → length ys ≤ npos
    → substr u pos npos ≡ some ys
substr-rest xs ys eu ep h = rw (eu, ep) (substr-drop xs ys npos ∙ ap some (take-all npos ys h))

pub size_suc-small : (n : ℕ) → n < npos → size_suc n ≡ suc n
unfolding size_suc
size_suc-small n h = omega arith

pub size_sub-small : (m n : ℕ) → n ≤ m → m < size_bound → size_sub m n ≡ m - n
unfolding size_sub
size_sub-small m n le lt = omega arith
