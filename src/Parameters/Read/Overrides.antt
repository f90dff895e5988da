-- ===== src/Parameters/Read/Overrides.antt =====
-- What ReadParameters of plugins/ParameterConfigPlugin.cxx leaves of the hashes of a group and of an
-- instance.
use nestdaq.Base.{
  ◌≡◌, ◌⊎◌, ◌∙◌, refl, Option, none, some, List, [], ◌∷◌, true, false, Option-cases, Bool-cases,
  if◌then◌else◌, inl, inr,
}
use nestdaq.Text.{Text, codes, text_eq, text_eq_refl, text_eq_sound}
use nestdaq.Text.Split.{Algorithm}
use nestdaq.Redis.{Redis, HashLaws, Listed}
use nestdaq.Topology.Address.{occurs}
use nestdaq.Parameters.Property.{Floating, Host, HostLaws, string, Property}
use nestdaq.Parameters.Property.Settings.{Textual, set_property_from_string-get}
use nestdaq.Parameters.Reserved.{is_reserved_option, parse}
use nestdaq.Parameters.Read.{Names, parse_all, prefix_of, read_hash}

-- A field that is no reserved option, with a value that is one text.
abbrev pub Plain : Text → Text → Type 0
Plain f v = (is_reserved_option f ≡ false) × (occurs (codes ",") v ≡ false)

-- The value of a hash, if it has one, in place of what was there.
abbrev pub over :
    {F : Floating} {Score : Type 0}
    → Option Text
    → Option (Property F Score)
    → Option (Property F Score)
over (some v) o = some (string v)
over none o = o

module _ (R : Redis) {F : Floating} {H : Host F R.Score} (L : HostLaws F R.Score H)
    (A : Algorithm) where
  parse-Plain :
      (name v : Text) (st : H.State)
      → Plain name v
      → Textual L st name
      → (st' : H.State) × (parse F R.Score H A name v st ≡ some st')
        × ((k : Text) → H.get k st' ≡ (if text_eq k name then some (string v) else H.get k st))
  unfolding parse
  parse-Plain name v st (r, c) t =
      let (st', e, g) = set_property_from_string-get L name v st t in (st', rw (r, c) e, g)

  -- A field is not listed and kept, or listed and set.
  abbrev Outcome : Text → List (Text × Text) → H.State → H.State → Type 0
  Outcome k h st st' =
      (((v : Text) → ¬ Listed k v h) × (H.get k st' ≡ H.get k st))
      ⊎ ((v : Text) × Listed k v h × (H.get k st' ≡ some (string v)))

  parse_all-Plain :
      (n : Names) (h : List (Text × Text)) (st : H.State)
      → ((f v : Text) → Listed f v h → Plain f v × Textual L st f)
      → (st' : H.State) × (parse_all R F H A n [] h st ≡ some st')
        × ((k : Text) → Outcome k h st st')
  unfolding parse_all text_eq
  parse_all-Plain n [] st p = (st, refl, λ k. inl (λ v l. l, refl))
  parse_all-Plain n ((g, w) ∷ h) st p =
      let (st₁, e₁, g₁) =
        parse-Plain g w st (p g w (inl (refl, refl))).0 (p g w (inl (refl, refl))).1 in
      let (st₂, e₂, o₂) =
        parse_all-Plain n h st₁ (λ f v l. ((p f v (inr l)).0, still st₁ g₁ f (p f v (inr l)).1)) in
      (st₂, rw (e₁, parse_all) e₂, λ k. joined st₁ g₁ st₂ k (o₂ k))
    where
      After : H.State → Type 0
      After st₁ = (k : Text) → H.get k st₁ ≡ (if text_eq k g then some (string w) else H.get k st)

      still : (st₁ : H.State) → After st₁ → (f : Text) → Textual L st f → Textual L st₁ f
      still st₁ g₁ f t = elim (Bool-cases (text_eq f g)) [
        | inl y ↦ inr (w, g₁ f ∙ rw y refl)
        | inr x ↦ elim t [ inl e ↦ inl (g₁ f ∙ rw x e) | inr (u, e) ↦ inr (u, g₁ f ∙ rw x e) ]
      ]

      joined :
          (st₁ : H.State)
          → After st₁
          → (st₂ : H.State) (k : Text) → Outcome k h st₁ st₂
          → Outcome k ((g, w) ∷ h) st st₂
      joined st₁ g₁ st₂ k (inr (v, l, e)) = inr (v, inr l, e)
      joined st₁ g₁ st₂ k (inl (nl, e)) = elim (Bool-cases (text_eq k g)) [
        | inl y ↦ inr (w, inl (text_eq_sound k g y, refl), e ∙ (g₁ k ∙ rw y refl))
        | inr x ↦ inl (
          λ v l. elim l [ inl (q, _) ↦ differ q (text_eq_refl g) x | inr m ↦ nl v m ],
          e ∙ (g₁ k ∙ rw x refl),
        )
      ]
        where
          differ : k ≡ g → text_eq g g ≡ true → text_eq k g ≡ false → ⊥
          differ q a b = cc

  module _ (K : HashLaws R) (n : Names) (s : R.Store) where
    pub read_hash-Plain :
        (name : Text) (st : H.State)
        → prefix_of R F H A n name ≡ some []
        → ((f v : Text) → R.hget name f s ≡ some v → Plain f v × Textual L st f)
        → (st' : H.State) × (read_hash R F H A n name s st ≡ some st')
          × ((k : Text) → H.get k st' ≡ over (R.hget name k s) (H.get k st))
    unfolding read_hash
    read_hash-Plain name st none_prefix p =
        let (st', e, o) =
          parse_all-Plain n (R.hgetall name s) st
            (λ f v l. p f v ((K.hgetall_lem name f v s).0 l)) in
        (st', rw (none_prefix, read_hash) e, λ k. told k (o k))
      where
        told :
            {st' : H.State} (k : Text)
            → Outcome k (R.hgetall name s) st st'
            → H.get k st' ≡ over (R.hget name k s) (H.get k st)
        told k (inr (v, l, e)) = rw ((K.hgetall_lem name k v s).0 l) e
        told k (inl (nl, e)) = elim (Option-cases (R.hget name k s)) [
          | inl q ↦ rw q e
          | inr (v, q) ↦ absurd (nl v ((K.hgetall_lem name k v s).1 q))
        ]
