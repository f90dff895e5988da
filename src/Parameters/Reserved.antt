-- ===== src/Parameters/Reserved.antt =====
-- IsReservedOption, SetPropertyOfReservedOption, Parse, ToArray and ToMap of
-- plugins/ParameterConfigPlugin.cxx.
pub mod Kinds
pub mod Maps
use nestdaq.Base.{Bool, true, false, ◌||◌, List, [], ◌∷◌, ◌++◌, Option, none, some, if◌then◌else◌}
use nestdaq.Text.{Text, codes, text_eq, contains}
use nestdaq.Text.Split.{Algorithm}
use nestdaq.Text.Table.{find}
use nestdaq.Topology.Address.{occurs}
use nestdaq.Parameters.Property.{
  Floating, Host, strings, pairs, of_string, of_int, of_size, of_bool, of_float,
  set_property_from_string,
}

-- reservedOptionsString and its neighbours
abbrev pub reserved_options_string : List Text
reserved_options_string =
    codes "id"
    ∷ codes "transport"
    ∷ codes "network-interface"
    ∷ codes "shm-allocation"
    ∷ codes "session"
    ∷ codes "config-key"
    ∷ codes "mq-config"
    ∷ codes "severity"
    ∷ codes "file-severity"
    ∷ codes "verbosity"
    ∷ codes "log-to-file"
    ∷ []

abbrev pub reserved_options_int : List Text
reserved_options_int = codes "io-threads" ∷ codes "init-timeout" ∷ []

abbrev pub reserved_options_bool : List Text
reserved_options_bool =
    codes "print-channels"
    ∷ codes "shm-mlock-segment"
    ∷ codes "shm-zero-segment"
    ∷ codes "shm-throw-bad-alloc"
    ∷ codes "shm-monitor"
    ∷ []

abbrev pub reserved_options_size : List Text
reserved_options_size = codes "shm-segment-size" ∷ codes "color" ∷ []

abbrev pub reserved_options_uint16 : List Text
reserved_options_uint16 = codes "shm-segment-id" ∷ []

abbrev pub reserved_options_float : List Text
reserved_options_float = codes "rate" ∷ []

abbrev pub reserved_options_vector_string : List Text
reserved_options_vector_string = codes "channel-config" ∷ []

unfoldable pub is_reserved_option : Text → Bool
unfolding contains
is_reserved_option name =
    if contains reserved_options_string name
    then true
    else if contains reserved_options_int name
    then true
    else if contains reserved_options_bool name
    then true
    else if contains reserved_options_size name
    then true
    else if contains reserved_options_uint16 name
    then true
    else if contains reserved_options_float name
    then true
    else if contains reserved_options_vector_string name
    then true
    else false

-- std::unordered_map::emplace: a key that is there stays
unfoldable pub emplace : Text → Text → List (Text × Text) → List (Text × Text)
emplace k v m = elim (find k m) [ none ↦ m ++ ((k, v) ∷ []) | some _ ↦ m ]

module _ (F : Floating) (Score : Type 0) (H : Host F Score) (A : Algorithm) where
  unfoldable pub to_array : Text → Text → H.State → H.State
  to_array name line st = H.set name (strings (A.split_compress (A.trim line) (codes ", "))) st

  -- The pair of two pieces, if there are two.
  unfoldable pub emplace_pair : List Text → List (Text × Text) → List (Text × Text)
  unfolding emplace
  emplace_pair (k ∷ v ∷ []) m = emplace k v m
  emplace_pair _ m = m

  unfoldable pub pairs_of : List Text → List (Text × Text) → List (Text × Text)
  unfolding emplace_pair
  pairs_of [] m = m
  pairs_of (x ∷ xs) m = pairs_of xs (emplace_pair (A.split_compress (A.trim x) (codes "= ")) m)

  unfoldable pub to_map : Text → Text → H.State → H.State
  unfolding pairs_of
  to_map name line st =
      H.set name (pairs (pairs_of (A.split_compress (A.trim line) (codes ",")) [])) st

  unfoldable pub set_property_of_reserved_option : Text → Text → H.State → Option H.State
  unfolding to_array contains
  set_property_of_reserved_option name value st =
      if contains reserved_options_string name
      then set_property_from_string F Score H of_string name value st
      else if contains reserved_options_int name
      then set_property_from_string F Score H of_int name value st
      else if contains reserved_options_size name
      then set_property_from_string F Score H of_size name value st
      else if contains reserved_options_bool name
      then set_property_from_string F Score H of_bool name value st
      else if contains reserved_options_float name
      then set_property_from_string F Score H of_float name value st
      else if contains reserved_options_vector_string name
      then some (to_array name value st)
      else some st

  unfoldable pub parse : Text → Text → H.State → Option H.State
  unfolding set_property_of_reserved_option to_map
  parse name line st =
      if is_reserved_option name
      then set_property_of_reserved_option name line st
      else if occurs (codes ",") line
      then if occurs (codes "=") line
        then some (to_map name line st)
        else some (to_array name line st)
      else set_property_from_string F Score H of_string name line st
