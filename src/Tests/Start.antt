-- ===== src/Tests/Start.antt =====
-- Initialize and Reset on a concrete server.
use nestdaq.Base.{◌≡◌, refl, true, false, [], ◌∷◌, some, All}
use nestdaq.Text.{Text, codes, text_eq, contains, join}
use nestdaq.Text.Table.{keys}
use nestdaq.Text.Search.{find_last_of}
use nestdaq.Topology.Sockets.{unregister_keys}
use nestdaq.Topology.Property.{SocketProperty, default_property}
use nestdaq.Topology.Channel.{Config}
use nestdaq.Topology.Link.{LinkProperty}
use nestdaq.Topology.Waiting.{link_channels}
use nestdaq.Topology.Announcements.{read_endpoints, read_links}
use nestdaq.Topology.Peers.{channel_of, instances, find_peers}
use nestdaq.Topology.Start.{State, announced, initialize, reset}
use nestdaq.Topology.Start.Agree.{Outward, Elsewhere, announced-link_channels, announced-Elsewhere}
use nestdaq.Topology.Start.Again.{initialize-reset}
use nestdaq.Tests.Server.{Server, server, keys_of}
use nestdaq.Tests.Splitter.{splitter}

abbrev cfg : Config
cfg = record {
  top_prefix = codes "daq_service";
  service_name = codes "Sink";
  id = codes "Sink-0";
  separator = codes ":";
  max_ttl = 5;
}

abbrev channel : SocketProperty
channel = record default_property { name = codes "in" }

-- The link Sampler:out,Sink:in
abbrev outward : LinkProperty
outward = record {
  my_service = codes "Sink";
  my_channel = codes "in";
  peer_service = codes "Sampler";
  peer_channel = codes "out";
  options = [];
}

-- The link Sink:a,Sink:b
abbrev inward : LinkProperty
inward = record {
  my_service = codes "Sink";
  my_channel = codes "a";
  peer_service = codes "Sink";
  peer_channel = codes "b";
  options = [];
}

abbrev present : Text → Server
present k = record { entries = []; strings = (k, codes "u") ∷ []; lists = [] }

abbrev sampler : Text
sampler = codes "daq_service:Sampler:Sampler-0:presence"

abbrev sink : Text
sink = codes "daq_service:Sink:Sink-0:presence"

leads_out : All (Outward cfg) (outward ∷ [])
unfolding text_eq
leads_out = ((refl, refl), tt)

announced-link_channels_example :
    contains
      (announced server splitter cfg
        (codes "10.0.0.1")
        false
        (present sampler)
        (outward ∷ [])
        channel).1
      (codes "daq_service:Sampler:Sampler-0:channel:out")
    ≡ contains
        (link_channels server cfg (present sampler) channel [] (outward ∷ []))
        (codes "daq_service:Sampler:Sampler-0:channel:out")
announced-link_channels_example =
    announced-link_channels server cfg splitter (codes "10.0.0.1") false (present sampler) channel
      (outward ∷ []) (codes "daq_service:Sampler:Sampler-0:channel:out") leads_out

-- The sampler is a peer.
found :
    contains
      (find_peers server cfg (present sampler) channel (outward ∷ [])).0
      (codes "daq_service:Sampler:Sampler-0:channel:out")
    ≡ true
unfolding find_peers keys_of contains text_eq join find_last_of
found = refl

leads_in :
    All
      (Elsewhere server cfg splitter (codes "10.0.0.1") false (present sink) channel)
      (inward ∷ [])
unfolding text_eq
leads_in = ((refl, refl, refl), tt)

held : contains (instances server cfg (codes "Sink") (present sink)) sink ≡ true
unfolding keys_of contains text_eq
held = refl

announced-Elsewhere_example :
    (link_channels server cfg (present sink) channel [] (inward ∷ []) ≡ [])
    × (contains
          (announced server splitter cfg
            (codes "10.0.0.1")
            false
            (present sink)
            (inward ∷ [])
            channel).1
          (channel_of cfg (codes "b") sink)
        ≡ true)
announced-Elsewhere_example =
    announced-Elsewhere server cfg splitter (codes "10.0.0.1") false (present sink) channel inward
      [] sink leads_in held

abbrev empty : Server
empty = record { entries = []; strings = []; lists = [] }

abbrev linked : State server
linked = record {
  channels = record { bind = []; connect = [] };
  links = (codes "Sink:in,Sampler:out", outward) ∷ [];
  default_properties = [];
  custom_properties = [];
  topology = record { store = present sampler; registered_keys = []; properties = [] };
}

abbrev again : State server
again = record linked { topology = record { store = empty; registered_keys = []; properties = [] } }

initialized :
    initialize server splitter cfg
      (codes "10.0.0.1")
      false
      []
      (λ options name. some [])
      (let r = reset server linked in record r { topology = record r.topology { store = empty } })
    ≡ some again
unfolding initialize reset read_endpoints read_links keys keys_of unregister_keys
initialized = refl

known : contains (keys linked.links) (codes "Sink:in,Sampler:out") ≡ true
unfolding contains keys text_eq
known = refl

initialize-reset_example : contains (keys again.links) (codes "Sink:in,Sampler:out") ≡ true
initialize-reset_example =
    initialize-reset server splitter cfg (codes "10.0.0.1") false [] (λ options name. some [])
      linked again empty (codes "Sink:in,Sampler:out") initialized known
