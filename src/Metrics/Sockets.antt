-- ===== src/Metrics/Sockets.antt =====
-- InitializeSocketProperties of plugins/MetricsPlugin.cxx, on the properties of the device that begin
-- with "chans." in the order of their keys. boost::split is a parameter.
pub mod First
use nestdaq.Base.{Bool, ◌||◌, List, [], ◌∷◌, ◌++◌, Option, none, some, if◌then◌else◌}
use nestdaq.Text.{Text, codes, text_eq}
use nestdaq.Text.Split.{Algorithm}
use nestdaq.Text.Table.{Table, find, alter}
use nestdaq.Topology.Property.{SocketProperty, default_property, with_int}

-- The branches behind the test of the name; a field that is not known is skipped, and `none` is the
-- exception of std::stoi.
unfoldable pub set_property : Text → Text → SocketProperty → Option SocketProperty
unfolding with_int
set_property field v p =
    if text_eq field (codes "type")
    then some (record p { socket_type = v })
    else if text_eq field (codes "method")
    then some (record p { method = v })
    else if text_eq field (codes "address")
    then some (record p { address = v })
    else if text_eq field (codes "transport")
    then some (record p { transport = v })
    else if text_eq field (codes "sndBufSize")
    then with_int v (λ n. record p { snd_buf_size = n })
    else if text_eq field (codes "rcvBufSize")
    then with_int v (λ n. record p { rcv_buf_size = n })
    else if text_eq field (codes "sndKernelSize")
    then with_int v (λ n. record p { snd_kernel_size = n })
    else if text_eq field (codes "rcvKernelSize")
    then with_int v (λ n. record p { rcv_kernel_size = n })
    else if text_eq field (codes "linger")
    then with_int v (λ n. record p { linger = n })
    else if text_eq field (codes "rateLogging")
    then with_int v (λ n. record p { rate_logging = n })
    else if text_eq field (codes "portRangeMin")
    then with_int v (λ n. record p { port_range_min = n })
    else if text_eq field (codes "portRangeMax")
    then with_int v (λ n. record p { port_range_max = n })
    else if text_eq field (codes "autoBind")
    then some (record p { auto_bind = text_eq v (codes "true") || text_eq v (codes "1") })
    else some p

-- A socket that has no name yet gets it; the property is used only after that.
unfoldable pub enter_property : Text → Text → Text → SocketProperty → Option SocketProperty
unfolding set_property
enter_property name field v p =
    if text_eq p.name [] then some (record p { name = name }) else set_property field v p

-- The name of the socket and the field in chans.<channel>.<index>.<field>; `none` for a key of fewer
-- pieces.
unfoldable pub socket_field : List Text → Option (Text × Text)
socket_field (_ ∷ channel ∷ index ∷ field ∷ _) =
    some (channel ++ (codes "[" ++ (index ++ codes "]")), field)
socket_field _ = none

-- fSocketProperties[name]
abbrev pub property_at : Text → Table SocketProperty → SocketProperty
property_at name t = elim (find name t) [ none ↦ default_property | some p ↦ p ]

module _ (A : Algorithm) where
  -- What a key says: the name of the socket and the field.
  abbrev pub pieces : Text → Option (Text × Text)
  pieces k = socket_field (A.split_compress k (codes "."))

  -- The loop over the properties.
  unfoldable pub read_properties :
      List (Text × Text) → Table SocketProperty → Option (Table SocketProperty)
  unfolding enter_property
  read_properties [] t = some t
  read_properties ((k, v) ∷ ps) t = elim (pieces k) [
    | none ↦ read_properties ps t
    | some (name, field) ↦ elim (enter_property name field v (property_at name t)) [
      | none ↦ none
      | some p ↦ read_properties ps (alter name default_property (λ _. p) t)
    ]
  ]

  unfoldable pub initialize_socket_properties : List (Text × Text) → Option (Table SocketProperty)
  unfolding read_properties
  initialize_socket_properties properties = read_properties properties []
