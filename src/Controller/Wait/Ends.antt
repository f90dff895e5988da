-- ===== src/Controller/Wait/Ends.antt =====
-- When the polling of controller/WebGui.cxx ends.
use nestdaq.Base.{
  ◌≡◌, ◌∙◌, ◌⊎◌, ◌↔◌, refl, subst, Bool-cases, true, false, List, [], ◌∷◌, ◌++◌, none, some, arith,
  All, inl, inr,
}
use nestdaq.Text.{Text, text_eq, text_eq_refl, text_eq_sound, contains}
use nestdaq.Redis.{Redis}
use nestdaq.Service.Instance.{values}
use nestdaq.Controller.Wait.{all_are, reached, state_keys, wait_keys}

-- All states are the same one of the targets.
abbrev pub Agree : List Text → List Text → Type 0
Agree targets states = (w : Text) × (contains targets w ≡ true) × All (λ x. x ≡ w) states

all_are-All : (w : Text) (xs : List Text) → (all_are w xs ≡ true) ↔ All (λ x. x ≡ w) xs
unfolding all_are
all_are-All w [] = (λ h. tt, λ h. refl)
all_are-All w (x ∷ xs) = (
  λ h. ground (arith, text_eq_sound x w, (all_are-All w xs).0),
  λ h. rw (h.0, text_eq_refl w) ((all_are-All w xs).1 h.1),
)

pub reached-Agree :
    (targets states : List Text) → (reached targets states ≡ true) ↔ Agree targets states
unfolding reached contains
reached-Agree [] states = (λ h. absurd (clash h), λ h. h.1)
  where
    clash : false ≡ true → ⊥
    clash h = cc
reached-Agree (w ∷ ws) states = elim (Bool-cases (all_are w states)) [
  | inl y ↦ rw y (λ h. (w, rw (text_eq_refl w) refl, (all_are-All w states).0 y), λ h. refl)
  | inr n ↦ rw n (
    λ h. let (x, c, a) = (reached-Agree ws states).0 h in (x, ground (arith, c), a),
    λ h. elim (Bool-cases (text_eq h.0 w)) [
      | inl q ↦ absurd (clash h.0 (text_eq_sound h.0 w q) h.2 n)
      | inr q ↦ (reached-Agree ws states).1 (h.0, rw q at h.1, h.2)
    ],
  )
]
  where
    clash : (x : Text) → x ≡ w → All (λ y. y ≡ x) states → all_are w states ≡ false → ⊥
    clash x e a n =
        let y : all_are w states ≡ true =
          (all_are-All w states).1 (subst (λ v. All (λ z. z ≡ v) states) e a) in
        cc

module _ (R : Redis) (separator : Text) (keys targets : List Text) where
  -- No instance has a state, or all the states that are there agree.
  abbrev pub Settled : R.Store → Type 0
  Settled s =
      (state_keys R separator s [] keys ≡ [])
      ⊎ Agree targets (values R (state_keys R separator s [] keys) s)

  wait_keys_ends :
      (s : R.Store) (rounds : List R.Store)
      → Settled s
      → wait_keys R separator keys targets (s ∷ rounds) ≡ some rounds
  unfolding wait_keys
  wait_keys_ends s rounds h = elim h [
    | inl e ↦ rw (e, wait_keys) refl
    | inr a ↦ go (state_keys R separator s [] keys) refl ((reached-Agree targets _).1 a)
  ]
    where
      go :
          (ks : List Text)
          → state_keys R separator s [] keys ≡ ks
          → reached targets (values R (state_keys R separator s [] keys) s) ≡ true
          → wait_keys R separator keys targets (s ∷ rounds) ≡ some rounds
      go [] e r = rw (e, wait_keys) refl
      go (k ∷ ks) e r = rw (e, wait_keys) (rw (rw e at r, wait_keys) refl)

  wait_keys_goes_on :
      (s : R.Store) (rounds : List R.Store)
      → ¬ Settled s
      → wait_keys R separator keys targets (s ∷ rounds) ≡ wait_keys R separator keys targets rounds
  unfolding wait_keys
  wait_keys_goes_on s rounds h = go (state_keys R separator s [] keys) refl
    where
      go :
          (ks : List Text)
          → state_keys R separator s [] keys ≡ ks
          → wait_keys R separator keys targets (s ∷ rounds)
            ≡ wait_keys R separator keys targets rounds
      go [] e = absurd (h (inl e))
      go (k ∷ ks) e =
          elim (Bool-cases (reached targets (values R (state_keys R separator s [] keys) s))) [
            | inl y ↦ absurd (h (inr ((reached-Agree targets _).0 y)))
            | inr n ↦ rw (e, wait_keys) (rw (rw e at n, wait_keys) refl)
          ]

  -- As long as no round is settled the wait goes on, and the first settled round ends it, with the
  -- rounds behind it left.
  pub wait_keys-Settled :
      (before : List R.Store)
      → All (λ s. ¬ Settled s) before
      → (wait_keys R separator keys targets before ≡ none)
        × ((s : R.Store) (after : List R.Store)
            → Settled s
            → wait_keys R separator keys targets (before ++ (s ∷ after)) ≡ some after)
  unfolding wait_keys
  wait_keys-Settled [] h = (refl, wait_keys_ends)
  wait_keys-Settled (s ∷ before) (h, hs) =
      let (p, q) = wait_keys-Settled before hs in
      (wait_keys_goes_on s before h ∙ p, λ s' after d. wait_keys_goes_on s _ h ∙ q s' after d)
