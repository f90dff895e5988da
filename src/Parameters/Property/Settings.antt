-- ===== src/Parameters/Property/Settings.antt =====
-- SetPropertyFromString (plugins/ParameterConfigPlugin.h) on texts.
use nestdaq.Base.{◌≡◌, ◌⊎◌, ◌∙◌, refl, ap, none, some, if◌then◌else◌, Bool-cases, inl, inr}
use nestdaq.Text.{Text, text_eq, text_eq_sound}
use nestdaq.Parameters.Property.{
  Floating, Host, HostLaws, string, of_string, convert, is_new_value, set_property_from_string,
}

module _ {F : Floating} {Score : Type 0} {H : Host F Score} (L : HostLaws F Score H) where
  -- The property is not there, or it is a text.
  abbrev pub Textual : H.State → Text → Type 0
  Textual st f = (H.get f st ≡ none) ⊎ ((v : Text) × (H.get f st ≡ some (string v)))

  pub set_property_from_string-get :
      (name v : Text) (st : H.State)
      → Textual st name
      → (st' : H.State) × (set_property_from_string F Score H of_string name v st ≡ some st')
        × ((k : Text) → H.get k st' ≡ (if text_eq k name then some (string v) else H.get k st))
  unfolding set_property_from_string convert is_new_value
  set_property_from_string-get name v st (inl e) = (
    H.set name (string v) st,
    rw (e, set_property_from_string) refl,
    λ k. L.get-set k name (string v) st,
  )
  set_property_from_string-get name v st (inr (u, e)) = elim (Bool-cases (text_eq u v)) [
    | inr n ↦ (
      H.set name (string v) st,
      rw (e, set_property_from_string) (rw n refl),
      λ k. L.get-set k name (string v) st,
    )
    | inl y ↦ (st, rw (e, set_property_from_string) (rw y refl), λ k. kept k (text_eq_sound u v y))
  ]
    where
      kept :
          (k : Text) → u ≡ v → H.get k st ≡ (if text_eq k name then some (string v) else H.get k st)
      kept k p = elim (Bool-cases (text_eq k name)) [
        | inr n ↦ rw n refl
        | inl y ↦
            rw y (ap (λ x. H.get x st) (text_eq_sound k name y) ∙ e ∙ ap (λ x. some (string x)) p)
      ]
