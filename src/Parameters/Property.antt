-- ===== src/Parameters/Property.antt =====
-- The properties of the device and SetPropertyFromString (plugins/ParameterConfigPlugin.h).
pub mod Settings
use nestdaq.Base.{
  ℕ, Bool, true, false, not, ◌&&◌, List, [], ◌∷◌, Option, none, some, ◌==◌, ◌≡◌, if◌then◌else◌,
}
use nestdaq.Text.{Text, codes, text_eq, contains}
use nestdaq.Text.Number.{ℤ, pos, negsuc}
use nestdaq.Text.Number.Wide.{stoll, stoull, to_int}

-- Numbers of type float: std::stod with the conversion to float, and the test on the distance of two
-- of them.
pub record Floating : Type 1 where
  pub Float : Type 0
  pub stod : Text → Option Float
  pub apart : Float → Float → Bool

module _ (F : Floating) (Score : Type 0) where
  pub data Property : Type 0 where
    string : Text → Property
    int : ℤ → Property
    size : ℕ → Property
    bool : Bool → Property
    float : F.Float → Property
    strings : List Text → Property
    pairs : List (Text × Text) → Property
    members : List Text → Property
    scores : List (Text × Score) → Property

  -- The property store of the device, which is FairMQ's.
  pub record Host : Type 1 where
    pub State : Type 0
    pub get : Text → State → Option Property
    pub set : Text → Property → State → State

  pub record HostLaws (H : Host) : Type 0 where
    pub get-set :
        (k name : Text) (v : Property) (st : H.State)
        → H.get k (H.set name v st) ≡ (if text_eq k name then some v else H.get k st)

  -- The type argument of SetPropertyFromString.
  pub data Kind : Type 0 where
    of_string of_int of_size of_bool of_float : Kind

  abbrev true_words : List Text
  true_words =
      codes "1"
      ∷ codes "true"
      ∷ codes "TRUE"
      ∷ codes "True"
      ∷ codes "on"
      ∷ codes "ON"
      ∷ codes "On"
      ∷ codes "yes"
      ∷ codes "YES"
      ∷ codes "Yes"
      ∷ []

  -- `none` is an exception.
  unfoldable pub convert : Kind → Text → Option Property
  unfolding contains
  convert of_string v = some (string v)
  convert of_int v = elim (stoll v) [ none ↦ none | some z ↦ some (int (to_int z)) ]
  convert of_size v = elim (stoull v) [ none ↦ none | some n ↦ some (size n) ]
  convert of_bool v = some (bool (contains true_words v))
  convert of_float v = elim (F.stod v) [ none ↦ none | some x ↦ some (float x) ]

  int_eq : ℤ → ℤ → Bool
  int_eq (pos m) (pos n) = m == n
  int_eq (negsuc m) (negsuc n) = m == n
  int_eq _ _ = false

  bool_eq : Bool → Bool → Bool
  bool_eq true b = b
  bool_eq false b = not b

  -- isNewValue for a property that exists; `none` is the exception of a property of another type.
  unfoldable pub is_new_value : Property → Property → Option Bool
  unfolding int_eq bool_eq
  is_new_value (string u) (string v) = some (not (text_eq u v))
  is_new_value (int u) (int v) = some (not (int_eq u v))
  is_new_value (size u) (size v) = some (not (u == v))
  is_new_value (bool u) (bool v) = some (not (bool_eq u v))
  is_new_value (float u) (float v) = some (F.apart u v)
  is_new_value _ _ = none

  module _ (H : Host) where
    unfoldable pub set_property_from_string : Kind → Text → Text → H.State → Option H.State
    unfolding convert is_new_value
    set_property_from_string kind name value st = elim (convert kind value) [
      | none ↦ none
      | some v ↦ elim (H.get name st) [
        | none ↦ some (H.set name v st)
        | some v₀ ↦ elim (is_new_value v₀ v) [
          | none ↦ none
          | some is_new ↦ some (if is_new then H.set name v st else st)
        ]
      ]
    ]
