-- ===== src/Tests/Topology.antt =====
-- A channel, a link, an address and two peers on a concrete server.
use nestdaq.Base.{All, if◌then◌else◌, ◌≡◌, ◌≢◌, refl, ap, true, false, [], ◌∷◌, ◌++◌, some, arith}
use nestdaq.Text.{codes, text_eq, join}
use nestdaq.Text.Search.{has}
use nestdaq.Topology.Property.{SocketProperty, default_property, to_socket_property}
use nestdaq.Topology.Property.Merge.{InRange}
use nestdaq.Topology.Channel.{Config, Topology, channel_key, list_key, write_channel}
use nestdaq.Topology.Channel.Entries.{write_channel-reads}
use nestdaq.Topology.Link.{Ends, link_prefix, read_link_property}
use nestdaq.Topology.Link.Parse.{pair, Plain, near_left, near_right, read_link_property-pair}
use nestdaq.Topology.Resolve.{Peer, resolve, my_index}
use nestdaq.Topology.Resolve.Pairing.{Ranked, resolve_one_to_one}
use nestdaq.Topology.Resolve.FanIn.{Single, gathered, soles, resolve_fan_in}
use nestdaq.Tests.Server.{server, server-HashLaws, server-ListLaws, look_up}

abbrev cfg : Config
cfg = record {
  top_prefix = codes "daq_service";
  service_name = codes "Sink";
  id = codes "Sink-0";
  separator = codes ":";
  max_ttl = 5;
}

abbrev socket : SocketProperty
socket = record default_property {
  name = codes "in";
  socket_type = codes "pull";
  method = codes "bind";
  address = codes "tcp://*:5555";
}

socket-InRange : InRange socket
socket-InRange = record {
  snd_buf_size_in = omega arith;
  rcv_buf_size_in = omega arith;
  snd_kernel_size_in = omega arith;
  rcv_kernel_size_in = omega arith;
  linger_in = omega arith;
  rate_logging_in = omega arith;
  port_range_min_in = omega arith;
  port_range_max_in = omega arith;
  num_sockets_in = omega arith;
}

abbrev before : Topology server
before = record {
  store = record {
    entries = (channel_key cfg (codes "in"), codes "name", codes "old") ∷ [];
    strings = (codes "daq_service:topology:link:Sampler:out,Sink:in", codes "verbose") ∷ [];
    lists = [];
  };
  registered_keys = codes "k" ∷ [];
  properties = [];
}

other_key : channel_key cfg (codes "in") ≢ list_key cfg (codes "in")
unfolding join text_eq
other_key e = true_false (ap (λ t. text_eq t (channel_key cfg (codes "in"))) e)
  where
    true_false : true ≡ false → ⊥
    true_false p = cc

write_channel-reads_example :
    let t' = write_channel server cfg socket (codes "a" ∷ codes "b" ∷ []) before in
    (to_socket_property (server.hgetall (channel_key cfg (codes "in")) t'.store) ≡ some socket)
    × (server.lrange (list_key cfg (codes "in")) t'.store
        ≡ server.lrange (list_key cfg (codes "in")) before.store ++ (codes "a" ∷ codes "b" ∷ []))
    × (t'.registered_keys
        ≡ before.registered_keys ++ (channel_key cfg (codes "in") ∷ list_key cfg (codes "in") ∷ []))
write_channel-reads_example =
    write_channel-reads server-HashLaws server-ListLaws cfg socket (omega arith) (codes "a")
      (codes "b" ∷ []) before socket-InRange other_key

abbrev link : Ends
link = record {
  service_l = codes "Sampler";
  channel_l = codes "out";
  service_r = codes "Sink";
  channel_r = codes "in";
}

link-Plain : Plain b':' link
unfolding has
link-Plain = record {
  service_l_sep = (refl, (refl, (refl, (refl, (refl, (refl, (refl, tt)))))));
  service_l_comma = (refl, (refl, (refl, (refl, (refl, (refl, (refl, tt)))))));
  channel_l_sep = (refl, (refl, (refl, tt)));
  channel_l_comma = (refl, (refl, (refl, tt)));
  service_r_sep = (refl, (refl, (refl, (refl, tt))));
  channel_r_sep = (refl, (refl, tt));
  apart = refl;
  fits = omega arith;
}

stored : look_up (link_prefix cfg ++ pair b':' link) before.store.strings ≡ some (codes "verbose")
unfolding look_up text_eq join
stored = refl

read_link_property-pair_example :
    read_link_property server cfg (link_prefix cfg ++ pair b':' link) before.store
    ≡ some (
        if text_eq (codes "Sampler") (codes "Sink")
        then near_left link (codes "verbose")
        else near_right link (codes "verbose"))
read_link_property-pair_example =
    read_link_property-pair server cfg b':' link before.store (codes "verbose") link-Plain refl
      stored

star_clear : All (λ c. has (codes ":") c ≡ false) (codes "*")
unfolding has
star_clear = (refl, tt)

port_clear : All (λ c. has (codes ":") c ≡ false) (codes "55")
unfolding has
port_clear = (refl, (refl, tt))

-- Two peers that both see the channel `me` as their second neighbour.
abbrev first_peer : Peer
first_peer = record {
  neighbors = codes "you" ∷ codes "me" ∷ [];
  single = true;
  addresses = codes "tcp://a:1" ∷ [];
}

abbrev second_peer : Peer
second_peer = record {
  neighbors = codes "you" ∷ codes "me" ∷ [];
  single = true;
  addresses = codes "tcp://b:2" ∷ [];
}

both_Ranked : Ranked (codes "me") 1 (first_peer ∷ second_peer ∷ [])
unfolding my_index text_eq
both_Ranked = (refl, refl, (refl, refl, tt))

resolve_one_to_one_example :
    resolve (codes "me") true (codes "unspecified") (first_peer ∷ second_peer ∷ [])
    ≡ some (codes "tcp://b:2")
resolve_one_to_one_example =
    resolve_one_to_one (codes "me") (codes "unspecified") 1 (first_peer ∷ second_peer ∷ [])
      second_peer (codes "tcp://b:2") both_Ranked refl refl

both_Single : Single (first_peer ∷ second_peer ∷ [])
both_Single = ((refl, ((λ e. cc), tt)), ((refl, ((λ e. cc), tt)), tt))

resolve_fan_in_example :
    resolve (codes "me") false (codes "unspecified") (first_peer ∷ second_peer ∷ [])
    ≡ gathered (codes "unspecified") (soles (first_peer ∷ second_peer ∷ []))
resolve_fan_in_example =
    resolve_fan_in (codes "me") (codes "unspecified") (first_peer ∷ second_peer ∷ []) both_Single

both_joined :
    gathered (codes "unspecified") (soles (first_peer ∷ second_peer ∷ []))
    ≡ some (codes "unspecified,tcp://a:1,tcp://b:2")
unfolding soles join
both_joined = refl
