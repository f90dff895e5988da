-- ===== src/Service/Instance/Search.antt =====
-- The search of SetId (plugins/DaqServicePlugin.cxx) for a free index.
use nestdaq.Base.{
  ℕ, zero, suc, ◌+◌, ◌≤◌, ◌<◌, ◌≡◌, refl, ap, ◌⊎◌, true, List, [], ◌∷◌, Option, none, some, arith,
  length, Option-cases, inl, inr,
}
use nestdaq.Text.{Text, text_eq_refl, contains}
use nestdaq.Text.Number.{to_string_nat}
use nestdaq.Redis.{Redis, HashLaws, Listed}
use nestdaq.Service.Instance.{claim}
use nestdaq.Service.Instance.Names.{length-names}

abbrev pub fields : List (Text × Text) → List Text
fields [] = []
fields ((f, v) ∷ h) = f ∷ fields h

pub length-fields : (h : List (Text × Text)) → length (fields h) ≡ length h
length-fields [] = refl
length-fields ((f, v) ∷ h) = ap suc (length-fields h)

pub Listed-contains :
    (f v : Text) (h : List (Text × Text)) → Listed f v h → contains (fields h) f ≡ true
unfolding contains
Listed-contains f v [] l = absurd l
Listed-contains f v ((g, w) ∷ h) (inl (e, _)) = ground (arith, e, text_eq_refl f)
Listed-contains f v ((g, w) ∷ h) (inr l) = ground (arith, Listed-contains f v h l)

module _ {R : Redis} (H : HashLaws R) (key uuid : Text) (s : R.Store) where
  abbrev pub Taken : ℕ → Type 0
  Taken m = (v : Text) × (R.hget key (to_string_nat m) s ≡ some v)

  -- The index `n` is claimed: it was free, and those from `i` to it were not.
  abbrev pub Claims : ℕ → Option (ℕ × R.Store) → Type 0
  Claims i r =
      (n : ℕ) × (r ≡ some (n, R.hset key (to_string_nat n) uuid s))
      × (i ≤ n)
      × (R.hget key (to_string_nat n) s ≡ none)
      × ((m : ℕ) → i ≤ m → m < n → Taken m)

  m_cases : (i m : ℕ) → i ≤ m → (m ≡ i) ⊎ (suc i ≤ m)
  m_cases i m le = grind arith

  from : (i m : ℕ) → Taken i → i ≤ m → (suc i ≤ m → Taken m) → Taken m
  from i m t le later = elim (m_cases i m le) [ inl e ↦ rw e t | inr lt ↦ later lt ]

  claim_cases :
      (fuel i : ℕ)
      → Claims i (claim R fuel key uuid i s) ⊎ ((m : ℕ) → i ≤ m → m < i + fuel → Taken m)
  unfolding claim
  claim_cases zero i = inr (λ m a b. absurd (omega arith))
  claim_cases (suc fuel) i = elim (Option-cases (R.hget key (to_string_nat i) s)) [
    | inl e ↦ inl (i, rw (e, claim), omega arith, e, (λ m a b. absurd (omega arith)))
    | inr (v, e) ↦ elim (claim_cases fuel (suc i)) [
      | inl (n, p, le, free, taken) ↦
          inl
            (n, rw (e, claim) p, omega arith, free, λ m a b. from i m (v, e) a (λ lt. taken m lt b))
      | inr taken ↦ inr (λ m a b. from i m (v, e) a (λ lt. taken m lt (omega arith)))
    ]
  ]

  -- With more fuel than there are fields that the taken indices stand among, an index is found:
  -- the least free one.
  pub claim-Claims :
      (fuel : ℕ) (xs : List Text)
      → ((m : ℕ) → Taken m → contains xs (to_string_nat m) ≡ true)
      → length xs < fuel
      → Claims 0 (claim R fuel key uuid 0 s)
  claim-Claims fuel xs covers h = elim (claim_cases fuel 0) [
    | inl c ↦ c
    | inr taken ↦ absurd (
        omega
          (arith, length-names fuel xs (λ m lt. covers m (taken m (omega arith) (omega arith)))))
  ]
