-- ===== src/Topology/Announcements.antt =====
-- What Initialize of plugins/TopologyConfig.cxx reads: the channels of connect-config, ReadEndpoints,
-- ReadEndpointProperty and ReadLinks. The JSON of connect-config is a parameter.
use nestdaq.Base.{List, [], ◌∷◌, ◌++◌, Option, none, some, length, if◌then◌else◌}
use nestdaq.Text.{Text, codes, text_eq, join}
use nestdaq.Text.Search.{npos, substr}
use nestdaq.Text.Table.{Table, find, alter, keys}
use nestdaq.Redis.{Redis}
use nestdaq.Topology.Property.{SocketProperty, to_socket_property}
use nestdaq.Topology.Channel.{Config}
use nestdaq.Topology.Link.{LinkProperty, read_link_property}
use nestdaq.Topology.Lookup.{sorted}

-- An entry of connect-config: the name of the channel, and what get_optional finds for a word.
abbrev pub Child : Type 0
Child = Text × (Text → Option Text)

abbrev pub child_words : List Text
child_words =
    codes "type"
    ∷ codes "transport"
    ∷ codes "sndBufSize"
    ∷ codes "rcvBufSize"
    ∷ codes "sndKernelSize"
    ∷ codes "rcvKernelSize"
    ∷ codes "linger"
    ∷ codes "rateLogging"
    ∷ codes "numSockets"
    ∷ codes "autoSubChannel"
    ∷ []

unfoldable pub child_fields : (Text → Option Text) → List Text → List (Text × Text)
child_fields get [] = []
child_fields get (k ∷ ks) =
    let rest = child_fields get ks in elim (get k) [ none ↦ rest | some v ↦ (k, v) ∷ rest ]

-- std::map::emplace
abbrev pub emplace : {A : Type 0} → Text → A → Table A → Table A
emplace k a t = alter k a (λ b. b) t

-- The channels of connect-config; `none` is the exception of std::stoi.
unfoldable pub add_children : List Child → Table SocketProperty → Option (Table SocketProperty)
unfolding child_fields
add_children [] t = some t
add_children ((name, get) ∷ cs) t = elim (to_socket_property (child_fields get child_words)) [
  | none ↦ none
  | some sp ↦ add_children cs (emplace name (record sp { name = name; method = codes "connect" }) t)
]

-- fBindChannels and fConnectChannels
pub record Channels : Type 0 where
  pub bind : Table SocketProperty
  pub connect : Table SocketProperty

unfoldable pub add_endpoint : SocketProperty → Channels → Channels
add_endpoint sp cs =
    if text_eq sp.method (codes "bind")
    then record cs { bind = emplace sp.name sp cs.bind }
    else if text_eq sp.method (codes "connect")
    then record cs { connect = emplace sp.name sp cs.connect }
    else cs

-- The name of a link in fLinks
abbrev pub link_name : Config → LinkProperty → Text
link_name cfg lp =
    lp.my_service
    ++ (cfg.separator
        ++ (lp.my_channel
            ++ (codes "," ++ (lp.peer_service ++ (cfg.separator ++ lp.peer_channel)))))

-- A link that is there keeps its ends, and its options grow.
unfoldable pub add_link : Config → LinkProperty → Table LinkProperty → Table LinkProperty
add_link cfg lp t = elim (find (link_name cfg lp) t) [
  | none ↦ alter (link_name cfg lp) lp (λ _. lp) t
  | some _ ↦
      alter (link_name cfg lp) lp
        (λ l. record l { options = l.options ++ (codes "," ++ lp.options) }) t
]

module _ (R : Redis) (cfg : Config) where
  -- topology::EndpointPrefix
  abbrev pub endpoint_prefix : Text
  endpoint_prefix =
      join (cfg.top_prefix ∷ codes "topology" ∷ codes "endpoint" ∷ cfg.service_name ∷ [] ∷ [])
        cfg.separator

  unfoldable pub read_endpoints : R.Store → List Text
  read_endpoints s =
      R.scan
        (join
          (cfg.top_prefix ∷ codes "topology" ∷ codes "endpoint" ∷ cfg.service_name ∷ codes "*" ∷ [])
          cfg.separator)
        s

  -- `none` is an exception.
  unfoldable pub read_endpoint_property : Text → R.Store → Option SocketProperty
  read_endpoint_property key s = elim (substr key (length endpoint_prefix) npos) [
    | none ↦ none
    | some name ↦ elim (to_socket_property (R.hgetall key s)) [
      | none ↦ none
      | some sp ↦ some (record sp { name = name })
    ]
  ]

  unfoldable pub add_endpoints : R.Store → List Text → Channels → Option Channels
  unfolding add_endpoint read_endpoint_property
  add_endpoints s [] cs = some cs
  add_endpoints s (k ∷ ks) cs = elim (read_endpoint_property k s) [
    | none ↦ none
    | some sp ↦ add_endpoints s ks (add_endpoint sp cs)
  ]

  -- The keys of the links of this service, at the left end or at the right one.
  unfoldable pub read_links : R.Store → List Text
  unfolding sorted
  read_links s = keys (
      sorted
        (R.scan
            (join
              (cfg.top_prefix
                ∷ codes "topology"
                ∷ codes "link"
                ∷ (cfg.service_name ++ codes "*,*")
                ∷ codes "*"
                ∷ [])
              cfg.separator)
            s
          ++ R.scan
              (join
                (cfg.top_prefix
                  ∷ codes "topology"
                  ∷ codes "link"
                  ∷ codes "*"
                  ∷ (codes "*," ++ cfg.service_name)
                  ∷ codes "*"
                  ∷ [])
                cfg.separator)
              s)
        [])

  unfoldable pub add_links : R.Store → List Text → Table LinkProperty → Option (Table LinkProperty)
  unfolding add_link
  add_links s [] t = some t
  add_links s (k ∷ ks) t = elim (read_link_property R cfg k s) [
    | none ↦ none
    | some lp ↦ add_links s ks (add_link cfg lp t)
  ]
