-- ===== src/Text/Table/Order.antt =====
-- The keys of a std::map: their order, and what a change of an entry does to them.
use nestdaq.Base.{
  ◌≡◌, refl, sym, ap, ◌∙◌, suc, length, true, false, ◌||◌, List, [], ◌∷◌, Option, none, some, arith,
  All, Bool-cases, inl, inr, subst, if◌then◌else◌,
}
use nestdaq.Text.{Text, text_eq, text_eq_refl, text_eq_sound, contains}
use nestdaq.Text.Search.{text_lt}
use nestdaq.Text.Names.{Distinct}
use nestdaq.Text.Table.{Table, find, alter, keys}

text_lt_self : (s : Text) → text_lt s s ≡ false
unfolding text_lt
text_lt_self [] = refl
text_lt_self (c ∷ s) = ground (arith, text_lt_self s)

text_lt_trans : (s t u : Text) → text_lt s t ≡ true → text_lt t u ≡ true → text_lt s u ≡ true
unfolding text_lt
text_lt_trans s t [] p q = cc
text_lt_trans s [] (e ∷ u) p q = cc
text_lt_trans [] (d ∷ t) (e ∷ u) p q = refl
text_lt_trans (c ∷ s) (d ∷ t) (e ∷ u) p q = ground (arith, text_lt_trans s t u)

text_lt_total : (s t : Text) → text_eq s t ≡ false → text_lt s t ≡ false → text_lt t s ≡ true
unfolding text_lt text_eq
text_lt_total [] [] p q = cc
text_lt_total [] (d ∷ t) p q = cc
text_lt_total (c ∷ s) [] p q = refl
text_lt_total (c ∷ s) (d ∷ t) p q = ground (arith, text_lt_total s t)

-- The names are in strictly ascending order.
abbrev pub Ascending : List Text → Type 0
Ascending [] = Unit
Ascending (x ∷ xs) = All (λ y. text_lt x y ≡ true) xs × Ascending xs

above :
    (x z : Text) (ys : List Text)
    → text_lt x z ≡ true
    → All (λ y. text_lt z y ≡ true) ys
    → All (λ y. text_lt x y ≡ true) ys
above x z [] p h = tt
above x z (y ∷ ys) p (q, h) = (text_lt_trans x z y p q, above x z ys p h)

no_smaller : (z : Text) (ys : List Text) → All (λ y. text_lt z y ≡ true) ys → contains ys z ≡ false
unfolding contains
no_smaller z [] b = refl
no_smaller z (y ∷ ys) (p, b) = elim (Bool-cases (text_eq z y)) [
  | inl e ↦ absurd (clash y (text_eq_sound z y e) p)
  | inr n ↦ rw n (no_smaller z ys b)
]
  where
    clash : (w : Text) → z ≡ w → text_lt z w ≡ true → ⊥
    clash w e q = cc (text_lt_self z)

pub Ascending-Distinct : (xs : List Text) → Ascending xs → Distinct xs
Ascending-Distinct [] h = tt
Ascending-Distinct (x ∷ xs) (a, h) = (no_smaller x xs a, Ascending-Distinct xs h)

pub length-keys : {A : Type 0} (t : Table A) → length (keys t) ≡ length t
unfolding keys
length-keys [] = refl
length-keys ((k, a) ∷ t) = ap suc (length-keys t)

module _ {ℓ} {A : Type ℓ} (k : Text) (made : A) (f : A → A) where
  pub contains-alter :
      (t : Table A) (j : Text)
      → contains (keys (alter k made f t)) j ≡ (text_eq j k || contains (keys t) j)
  unfolding contains keys alter
  contains-alter [] j = ground arith
  contains-alter ((l, a) ∷ t) j = elim (Bool-cases (text_eq k l)) [
    | inl e ↦ rw e (same (text_eq_sound k l e))
    | inr n ↦ elim (Bool-cases (text_lt k l)) [
      | inl e ↦ rw (n, e) (ground arith)
      | inr m ↦ rw (n, m) (ground (arith, contains-alter t j))
    ]
  ]
    where
      same : k ≡ l → contains (l ∷ keys t) j ≡ (text_eq j k || contains (l ∷ keys t) j)
      same e = rw e (ground arith)

  All-alter-keys :
      (P : Text → Type 0) (t : Table A) → P k → All P (keys t) → All P (keys (alter k made f t))
  unfolding keys alter
  All-alter-keys P [] p h = (p, tt)
  All-alter-keys P ((l, a) ∷ t) p (q, h) = elim (Bool-cases (text_eq k l)) [
    | inl e ↦ rw e (q, h)
    | inr n ↦ elim (Bool-cases (text_lt k l)) [
      | inl e ↦ rw (n, e) (p, (q, h))
      | inr m ↦ rw (n, m) (q, All-alter-keys P t p h)
    ]
  ]

  pub alter-Ascending : (t : Table A) → Ascending (keys t) → Ascending (keys (alter k made f t))
  unfolding keys alter
  alter-Ascending [] h = (tt, tt)
  alter-Ascending ((l, a) ∷ t) (b, h) = elim (Bool-cases (text_eq k l)) [
    | inl e ↦ rw e (b, h)
    | inr n ↦ elim (Bool-cases (text_lt k l)) [
      | inl e ↦ rw (n, e) ((e, above k l (keys t) e b), (b, h))
      | inr m ↦
          rw (n, m)
            (
              All-alter-keys (λ y. text_lt l y ≡ true) t (text_lt_total k l n m) b,
              alter-Ascending t h,
            )
    ]
  ]

  -- What holds of every entry, holds after the change.
  pub All-alter :
      (P : A → Type 0) (t : Table A)
      → P (f made)
      → ((a : A) → P a → P (f a))
      → All (λ e. P e.1) t
      → All (λ e. P e.1) (alter k made f t)
  unfolding alter
  All-alter P [] p g h = (p, tt)
  All-alter P ((l, a) ∷ t) p g (q, h) = elim (Bool-cases (text_eq k l)) [
    | inl e ↦ rw e (g a q, h)
    | inr n ↦ elim (Bool-cases (text_lt k l)) [
      | inl e ↦ rw (n, e) (p, (q, h))
      | inr m ↦ rw (n, m) (q, All-alter P t p g h)
    ]
  ]

-- What operator[] gives.
abbrev pub or_made {ℓ} : {A : Type ℓ} → A → Option A → A
or_made made none = made
or_made made (some a) = a

module _ {ℓ} {A : Type ℓ} where
  find-past : (k : Text) (t : Table A) → All (λ y. text_lt k y ≡ true) (keys t) → find k t ≡ none
  unfolding find keys
  find-past k [] h = refl
  find-past k ((l, a) ∷ t) (p, h) = elim (Bool-cases (text_eq k l)) [
    | inl e ↦ absurd (clash l (text_eq_sound k l e) p)
    | inr n ↦ rw n (find-past k t h)
  ]
    where
      clash : (w : Text) → k ≡ w → text_lt k w ≡ true → ⊥
      clash w e q = cc (text_lt_self k)

  -- What a change of an entry does to the search for another one, or for it.
  pub find-alter :
      (k : Text) (made : A) (f : A → A) (t : Table A) (j : Text)
      → Ascending (keys t)
      → find j (alter k made f t)
        ≡ (if text_eq j k then some (f (or_made made (find k t))) else find j t)
  unfolding find alter keys
  find-alter k made f [] j h = refl
  find-alter k made f ((l, a) ∷ t) j (b, h) = elim (Bool-cases (text_eq k l)) [
    | inl e ↦ rw e (same (text_eq_sound k l e))
    | inr n ↦ elim (Bool-cases (text_lt k l)) [
      | inl e ↦ rw (n, e) (rw (find-past k t (above k l (keys t) e b)) refl)
      | inr m ↦
          rw (n, m)
            (elim (Bool-cases (text_eq j l)) [
              | inl y ↦ rw y (rw (other (text_eq_sound j l y) n) refl)
              | inr y ↦ rw y (find-alter k made f t j h)
            ])
    ]
  ]
    where
      same :
          k ≡ l
          → (if text_eq j l then some (f a) else find j t)
            ≡ (if text_eq j k then some (f a) else if text_eq j l then some a else find j t)
      same e = rw e (elim (Bool-cases (text_eq j l)) [ inl y ↦ rw y refl | inr y ↦ rw y refl ])

      other : j ≡ l → text_eq k l ≡ false → text_eq j k ≡ false
      other e m = elim (Bool-cases (text_eq j k)) [
        | inl y ↦ absurd (clash (sym (text_eq_sound j k y) ∙ e) m)
        | inr y ↦ y
      ]
        where
          clash : k ≡ l → text_eq k l ≡ false → ⊥
          clash p q = cc (ap (text_eq k) p, text_eq_refl k)

  pub find-All :
      (P : A → Type 0) (k : Text) (t : Table A) (a : A)
      → All (λ e. P e.1) t
      → find k t ≡ some a
      → P a
  unfolding find
  find-All P k [] a h e = absurd (none_some e)
    where
      none_some : none ≡ some a → ⊥
      none_some p = cc
  find-All P k ((l, b) ∷ t) a (p, h) e = elim (Bool-cases (text_eq k l)) [
    | inl y ↦ subst P (some_injective b (rw y at e)) p
    | inr n ↦ find-All P k t a h (rw n at e)
  ]
    where
      some_injective : (c : A) → some c ≡ some a → c ≡ a
      some_injective c p = cc
