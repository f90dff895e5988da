-- ===== src/Tests/Sockets.antt =====
-- The sockets of a channel on the server.
use nestdaq.Base.{◌≡◌, refl, List, [], ◌∷◌, some, none, arith, if◌then◌else◌}
use nestdaq.Text.{Text, codes, text_eq, contains}
use nestdaq.Text.Number.{to_string_nat}
use nestdaq.Topology.Property.{SocketProperty, default_property}
use nestdaq.Topology.Channel.{Config, Topology, channel_key, write_channel}
use nestdaq.Topology.Sockets.{local_key, write_bind_address, write_connect_address, unregister_keys}
use nestdaq.Topology.Sockets.Registered.{SocketsEnd, unregister_keys-write_connect_address}
use nestdaq.Topology.Sockets.Bound.{unregister_keys-write_bind_address}
use nestdaq.Tests.Server.{server, server-HashLaws, server-ListLaws, server-DelLaws, server-KeyLaws}

abbrev cfg : Config
cfg = record {
  top_prefix = codes "daq_service";
  service_name = codes "Sink";
  id = codes "Sink-0";
  separator = codes ":";
  max_ttl = 5;
}

abbrev socket : SocketProperty
socket = record default_property { name = codes "in"; socket_type = codes "pull" }

-- One socket of the channel.
abbrev chans : Text → List (Text × Text)
chans k =
    if text_eq k (local_key (codes "in") 0)
    then (codes "chans.in.0.address", codes "tcp://*:5555") ∷ []
    else []

one_socket : SocketsEnd server chans cfg 2 (codes "in")
unfolding text_eq to_string_nat
one_socket = (1, omega arith, refl)

abbrev nothing_yet : Topology server
nothing_yet = record {
  store = record { entries = (codes "k", codes "f", codes "v") ∷ []; strings = []; lists = [] };
  registered_keys = [];
  properties = [];
}

unregister_keys-write_connect_address_example :
    (t' : Topology server) × (write_connect_address server chans cfg 2
        ((codes "in", socket) ∷ [])
        (write_channel server cfg socket (codes "p" ∷ []) nothing_yet)
      ≡ some t')
    × ((k f : Text)
        → server.hget k f (unregister_keys server t').store
          ≡ (if contains t'.registered_keys k then none else server.hget k f nothing_yet.store))
unregister_keys-write_connect_address_example =
    unregister_keys-write_connect_address server chans cfg server-HashLaws server-ListLaws
      server-DelLaws server-KeyLaws (omega arith) 2 socket (codes "p" ∷ [])
      ((codes "in", socket) ∷ []) nothing_yet refl (one_socket, tt)

unregister_keys-write_bind_address_example :
    (t' : Topology server) × (write_bind_address server chans cfg 2
        ((codes "in", socket) ∷ [])
        (write_channel server cfg socket [] nothing_yet)
      ≡ some t')
    × (server.hget (channel_key cfg (codes "in")) (codes "bound") (unregister_keys server t').store
        ≡ some (codes "1"))
unregister_keys-write_bind_address_example =
    unregister_keys-write_bind_address server chans cfg server-HashLaws server-ListLaws
      server-DelLaws server-KeyLaws (omega arith) 2 socket nothing_yet refl one_socket
