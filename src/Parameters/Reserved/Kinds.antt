-- ===== src/Parameters/Reserved/Kinds.antt =====
-- The reserved options of plugins/ParameterConfigPlugin.cxx, and what is set for each.
use nestdaq.Base.{
  ◌≡◌, ◌≢◌, ◌↔◌, ◌⊎◌, ◌∙◌, refl, sym, ap, true, false, List, Option, none, some, arith,
  Option-cases, Bool-cases, inl, inr,
}
use nestdaq.Text.{Text, codes, text_eq, text_eq_refl, text_eq_sound, contains}
use nestdaq.Text.Number.{ℤ, InInt, to_string}
use nestdaq.Text.Number.Wide.{to_int}
use nestdaq.Text.Number.Wide.Casts.{InLong, stoll-to_string, to_int-InInt, to_int-same}
use nestdaq.Text.Split.{Algorithm}
use nestdaq.Parameters.Property.{
  Floating, Host, HostLaws, Property, Kind, int, of_string, of_int, of_size, of_bool, of_float,
  convert, set_property_from_string,
}
use nestdaq.Parameters.Reserved.{
  reserved_options_string, reserved_options_int, reserved_options_bool, reserved_options_size,
  reserved_options_float, reserved_options_vector_string, is_reserved_option, to_array,
  set_property_of_reserved_option, parse,
}

abbrev pub shm_segment_id : Text
shm_segment_id = codes "shm-segment-id"

other_name :
    (xs : List Text) (name : Text)
    → contains xs name ≡ true
    → contains xs shm_segment_id ≡ false
    → name ≢ shm_segment_id
other_name xs name y n e = cc (ap (contains xs) e)

module _ {F : Floating} {Score : Type 0} {H : Host F Score} (L : HostLaws F Score H)
    (A : Algorithm) where
  -- An exception, or the property is set unless the name is that of the segment.
  abbrev pub Written : Text → Option H.State → Type 0
  Written name o =
      (o ≡ none)
      ⊎ ((st : H.State) × (o ≡ some st) × ((H.get name st ≡ none) ↔ (name ≡ shm_segment_id)))

  set-Written :
      (name : Text) (v : Property F Score) (st : H.State)
      → name ≢ shm_segment_id
      → Written name (some (H.set name v st))
  set-Written name v st other = inr (
    H.set name v st,
    refl,
    (
      λ e. absurd (clash (sym e ∙ (L.get-set name name v st ∙ rw (text_eq_refl name) refl))),
      λ e. absurd (other e),
    ),
  )
    where
      clash : none ≡ some v → ⊥
      clash p = cc

  set_fresh :
      (kind : Kind F Score) (name value : Text) (st : H.State)
      → H.get name st ≡ none
      → (set_property_from_string F Score H kind name value st ≡ none)
        ⊎ ((v : Property F Score) × (set_property_from_string F Score H kind name value st
              ≡ some (H.set name v st)))
  unfolding set_property_from_string
  set_fresh kind name value st fresh = elim (Option-cases (convert F Score kind value)) [
    | inl e ↦ inl (rw (e, set_property_from_string) refl)
    | inr (v, e) ↦
        inr (v, rw (e, set_property_from_string) (rw (fresh, set_property_from_string) refl))
  ]

  fresh-Written :
      (kind : Kind F Score) (name value : Text) (st : H.State)
      → H.get name st ≡ none
      → name ≢ shm_segment_id
      → Written name (set_property_from_string F Score H kind name value st)
  fresh-Written kind name value st fresh other = elim (set_fresh kind name value st fresh) [
    | inl e ↦ inl e
    | inr (v, e) ↦ rw e (set-Written name v st other)
  ]

  reserved-Written :
      (name value : Text) (st : H.State)
      → is_reserved_option name ≡ true
      → H.get name st ≡ none
      → Written name (set_property_of_reserved_option F Score H A name value st)
  unfolding set_property_of_reserved_option is_reserved_option contains text_eq to_array
  reserved-Written name value st r fresh =
      elim (Bool-cases (contains reserved_options_string name)) [
        | inl y ↦ rw y (
            fresh-Written of_string name value st fresh
              (other_name reserved_options_string name y refl))
        | inr a ↦ elim (Bool-cases (contains reserved_options_int name)) [
          | inl y ↦
              rw (a, y)
                (fresh-Written of_int name value st fresh
                  (other_name reserved_options_int name y refl))
          | inr b ↦ elim (Bool-cases (contains reserved_options_size name)) [
            | inl y ↦
                rw (a, b, y)
                  (fresh-Written of_size name value st fresh
                    (other_name reserved_options_size name y refl))
            | inr c ↦ elim (Bool-cases (contains reserved_options_bool name)) [
              | inl y ↦
                  rw (a, b, c, y)
                    (fresh-Written of_bool name value st fresh
                      (other_name reserved_options_bool name y refl))
              | inr d ↦ elim (Bool-cases (contains reserved_options_float name)) [
                | inl y ↦
                    rw (a, b, c, d, y)
                      (fresh-Written of_float name value st fresh
                        (other_name reserved_options_float name y refl))
                | inr e ↦ elim (Bool-cases (contains reserved_options_vector_string name)) [
                  | inl y ↦
                      rw (a, b, c, d, e, y)
                        (set-Written name _ st
                          (other_name reserved_options_vector_string name y refl))
                  | inr f ↦
                      rw (a, b, c, d, e, f) (inr (st, refl, (λ _. segment a b c d e f, λ _. fresh)))
                ]
              ]
            ]
          ]
        ]
      ]
    where
      segment :
          contains reserved_options_string name ≡ false
          → contains reserved_options_int name ≡ false
          → contains reserved_options_size name ≡ false
          → contains reserved_options_bool name ≡ false
          → contains reserved_options_float name ≡ false
          → contains reserved_options_vector_string name ≡ false
          → name ≡ shm_segment_id
      segment a b c d e f = text_eq_sound name shm_segment_id (ground (arith, r))

  -- For a reserved option that is no property yet, with whatever value: the value cannot be read, or
  -- the option is a property afterwards, but for the id of the shared memory segment, which is none.
  pub parse-Written :
      (name value : Text) (st : H.State)
      → is_reserved_option name ≡ true
      → H.get name st ≡ none
      → Written name (parse F Score H A name value st)
  unfolding parse
  parse-Written name value st r fresh = rw r (reserved-Written name value st r fresh)

  int_name :
      (name : Text)
      → contains reserved_options_int name ≡ true
      → (name ≡ codes "io-threads") ⊎ (name ≡ codes "init-timeout")
  unfolding contains
  int_name name h = elim (Bool-cases (text_eq name (codes "io-threads"))) [
    | inl y ↦ inl (text_eq_sound name (codes "io-threads") y)
    | inr x ↦ elim (Bool-cases (text_eq name (codes "init-timeout"))) [
      | inl y ↦ inr (text_eq_sound name (codes "init-timeout") y)
      | inr z ↦ absurd (neither (rw (x, z) at h))
    ]
  ]
    where
      neither : false ≡ true → ⊥
      neither p = cc

  parse_int :
      (name value : Text) (st : H.State)
      → contains reserved_options_int name ≡ true
      → parse F Score H A name value st ≡ set_property_from_string F Score H of_int name value st
  unfolding parse set_property_of_reserved_option is_reserved_option contains text_eq
  parse_int name value st h = elim (int_name name h) [ inl e ↦ rw e refl | inr e ↦ rw e refl ]

  -- For an option of type int that is no property yet, and a number in the range of a long long: the
  -- number that is set lies in the range of an int, and it is the number that was written if that
  -- lies in this range.
  pub parse-int :
      (name : Text) (z : ℤ) (st : H.State)
      → contains reserved_options_int name ≡ true
      → H.get name st ≡ none
      → InLong z
      → (y : ℤ) × (parse F Score H A name (to_string z) st ≡ some (H.set name (int y) st))
        × InInt y
        × (InInt z → y ≡ z)
  unfolding set_property_from_string convert
  parse-int name z st h fresh fits = (
    to_int z,
    parse_int name (to_string z) st h
        ∙ rw (stoll-to_string z fits, set_property_from_string)
            (rw (fresh, set_property_from_string) refl),
    to_int-InInt z,
    to_int-same z,
  )
