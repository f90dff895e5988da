-- ===== src/Topology/Property.antt =====
-- The struct SocketProperty (plugins/TopologyData.h) with its copy in a hash of the registry, as
-- ToSocketProperty and WriteChannel (plugins/TopologyConfig.cxx) read and write it.
pub mod Merge
use nestdaq.Base.{ℕ, Bool, true, false, List, [], ◌∷◌, Option, none, some, if◌then◌else◌}
use nestdaq.Text.{Text, codes, text_eq, is_true}
use nestdaq.Text.Number.{ℤ, pos, stoi, to_string}

pub record SocketProperty : Type 0 where
  pub name : Text
  pub socket_type : Text
  pub method : Text
  pub address : Text
  pub transport : Text
  pub snd_buf_size : ℤ
  pub rcv_buf_size : ℤ
  pub snd_kernel_size : ℤ
  pub rcv_kernel_size : ℤ
  pub linger : ℤ
  pub rate_logging : ℤ
  pub port_range_min : ℤ
  pub port_range_max : ℤ
  pub auto_bind : Bool
  pub num_sockets : ℤ
  pub auto_sub_channel : Bool
  pub bound : Bool
  pub wait_for_peer_connection : Bool

-- The default member initializers.
abbrev pub default_property : SocketProperty
default_property = record {
  name = [];
  socket_type = [];
  method = [];
  address = [];
  transport = codes "zeromq";
  snd_buf_size = pos 1000;
  rcv_buf_size = pos 1000;
  snd_kernel_size = pos 0;
  rcv_kernel_size = pos 0;
  linger = pos 500;
  rate_logging = pos 1;
  port_range_min = pos 22000;
  port_range_max = pos 32000;
  auto_bind = true;
  num_sockets = pos 0;
  auto_sub_channel = false;
  bound = false;
  wait_for_peer_connection = true;
}

-- std::stoi, whose exception leaves ToSocketProperty.
unfoldable pub with_int : Text → (ℤ → SocketProperty) → Option SocketProperty
with_int value set = elim (stoi value) [ none ↦ none | some n ↦ some (set n) ]

-- One round of the loop of ToSocketProperty; a field that is not known is skipped.
unfoldable pub set_field : Text → Text → SocketProperty → Option SocketProperty
unfolding with_int
set_field field value sp =
    if text_eq field (codes "name")
    then some (record sp { name = value })
    else if text_eq field (codes "type")
    then some (record sp { socket_type = value })
    else if text_eq field (codes "method")
    then some (record sp { method = value })
    else if text_eq field (codes "address")
    then some (record sp { address = value })
    else if text_eq field (codes "transport")
    then some (record sp { transport = value })
    else if text_eq field (codes "sndBufSize")
    then with_int value (λ n. record sp { snd_buf_size = n })
    else if text_eq field (codes "rcvBufSize")
    then with_int value (λ n. record sp { rcv_buf_size = n })
    else if text_eq field (codes "sndKernelSize")
    then with_int value (λ n. record sp { snd_kernel_size = n })
    else if text_eq field (codes "rcvKernelSize")
    then with_int value (λ n. record sp { rcv_kernel_size = n })
    else if text_eq field (codes "linger")
    then with_int value (λ n. record sp { linger = n })
    else if text_eq field (codes "rateLogging")
    then with_int value (λ n. record sp { rate_logging = n })
    else if text_eq field (codes "portRangeMin")
    then with_int value (λ n. record sp { port_range_min = n })
    else if text_eq field (codes "portRangeMax")
    then with_int value (λ n. record sp { port_range_max = n })
    else if text_eq field (codes "autoBind")
    then some (record sp { auto_bind = is_true value })
    else if text_eq field (codes "numSockets")
    then with_int value (λ n. record sp { num_sockets = n })
    else if text_eq field (codes "autoSubChannel")
    then some (record sp { auto_sub_channel = is_true value })
    else if text_eq field (codes "bound")
    then some (record sp { bound = is_true value })
    else if text_eq field (codes "waitForPeerConnection")
    then some (record sp { wait_for_peer_connection = is_true value })
    else some sp

-- The loop, over the entries in the order in which the container yields them.
unfoldable pub set_fields : List (Text × Text) → SocketProperty → Option SocketProperty
unfolding set_field
set_fields [] sp = some sp
set_fields ((field, value) ∷ h) sp = elim (set_field field value sp) [
  | none ↦ none
  | some sp' ↦ set_fields h sp'
]

unfoldable pub to_socket_property : List (Text × Text) → Option SocketProperty
unfolding set_fields
to_socket_property h = set_fields h default_property

-- std::to_string of a bool
unfoldable pub flag : Bool → Text
flag true = codes "1"
flag false = codes "0"

-- The fields that WriteChannel writes.
abbrev pub property_fields : SocketProperty → List (Text × Text)
property_fields sp =
    (codes "name", sp.name)
    ∷ (codes "type", sp.socket_type)
    ∷ (codes "method", sp.method)
    ∷ (codes "address", sp.address)
    ∷ (codes "transport", sp.transport)
    ∷ (codes "sndBufSize", to_string sp.snd_buf_size)
    ∷ (codes "rcvBufSize", to_string sp.rcv_buf_size)
    ∷ (codes "sndKernelSize", to_string sp.snd_kernel_size)
    ∷ (codes "rcvKernelSize", to_string sp.rcv_kernel_size)
    ∷ (codes "linger", to_string sp.linger)
    ∷ (codes "rateLogging", to_string sp.rate_logging)
    ∷ (codes "portRangeMin", to_string sp.port_range_min)
    ∷ (codes "portRangeMax", to_string sp.port_range_max)
    ∷ (codes "autoBind", flag sp.auto_bind)
    ∷ (codes "numSockets", to_string sp.num_sockets)
    ∷ (codes "autoSubChannel", flag sp.auto_sub_channel)
    ∷ (codes "bound", flag sp.bound)
    ∷ (codes "waitForPeerConnection", flag sp.wait_for_peer_connection)
    ∷ []
