-- ===== src/Topology/Address/Occurs.antt =====
-- std::string::find on texts that are put together.
use nestdaq.Base.{ℕ, ◌≡◌, refl, true, [], ◌∷◌, ◌++◌, arith, Bool-cases, inl, inr}
use nestdaq.Text.{Text}
use nestdaq.Topology.Address.{starts_with, occurs}

pub occurs-append : (p s t : Text) → occurs p t ≡ true → occurs p (s ++ t) ≡ true
unfolding occurs
occurs-append p [] t h = h
occurs-append p (c ∷ s) t h = elim (Bool-cases (starts_with p (c ∷ (s ++ t)))) [
  | inl y ↦ rw y refl
  | inr n ↦ rw n (occurs-append p s t h)
]

pub occurs-front : (c : ℕ) (t : Text) → occurs (c ∷ []) (c ∷ t) ≡ true
unfolding occurs starts_with
occurs-front c [] = ground arith
occurs-front c (d ∷ t) = ground arith
