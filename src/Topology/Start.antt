-- ===== src/Topology/Start.antt =====
-- Initialize and Reset of plugins/TopologyConfig.cxx. FairMQ's SuboptParser is a parameter.
pub mod Agree
pub mod Again
use nestdaq.Base.{◌>>=◌, ℕ, ◌-◌, Bool, ◌&&◌, List, [], ◌∷◌, ◌++◌, Option, none, some, if◌then◌else◌}
use nestdaq.Text.{Text, codes, text_eq}
use nestdaq.Text.Split.{Algorithm}
use nestdaq.Text.Table.{Table, find, alter, keys}
use nestdaq.Redis.{Redis}
use nestdaq.Topology.Property.{SocketProperty}
use nestdaq.Topology.Channel.{Config, Topology, write_channel}
use nestdaq.Topology.ChannelConfig.{to_channel_config, rounds}
use nestdaq.Topology.Link.{LinkProperty}
use nestdaq.Topology.Lookup.{sorted}
use nestdaq.Topology.Sockets.{unregister_keys}
use nestdaq.Topology.Announcements.{
  Child, Channels, add_children, add_endpoints, read_endpoints, add_links, read_links,
}
use nestdaq.Topology.Peers.{find_peers, is_uds_available, plus_nat, uds_address, uds_more}

-- The state of the plugin that Initialize and Reset change.
pub record State (R : Redis) : Type 0 where
  pub channels : Channels
  pub links : Table LinkProperty
  pub default_properties : Table Text
  pub custom_properties : Table Text
  pub topology : Topology R

-- The values of a map, in its order.
unfoldable pub values_of : Table LinkProperty → List LinkProperty
values_of [] = []
values_of ((_, l) ∷ t) = l ∷ values_of t

-- DeleteProperty
unfoldable pub delete_property : Text → List (Text × Text) → List (Text × Text)
delete_property k [] = []
delete_property k ((l, v) ∷ ps) =
    let rest = delete_property k ps in if text_eq k l then rest else (l, v) ∷ rest

unfoldable pub delete_properties : List Text → List (Text × Text) → List (Text × Text)
unfolding delete_property
delete_properties [] ps = ps
delete_properties (k ∷ ks) ps = delete_properties ks (delete_property k ps)

-- What the loop over the properties of the parser does with fDefaultChannelProperties and
-- fCustomChannelProperties, and the properties that remain.
unfoldable pub sift : Table Text → List (Text × Text) → Table Text → Table Text × List (Text × Text)
sift defaults [] custom = (custom, [])
sift defaults ((k, v) ∷ ps) custom = elim (find k defaults) [
  | some _ ↦ sift defaults ps custom
  | none ↦ let rest = sift defaults ps (alter k [] (λ _. v) custom) in (rest.0, (k, v) ∷ rest.1)
]

module _ (R : Redis) where
  unfoldable pub reset : State R → State R
  unfolding delete_properties
  reset st = record st {
    channels = record { bind = []; connect = [] };
    custom_properties = [];
    topology = unregister_keys R (record st.topology {
      properties = delete_properties (keys st.custom_properties) st.topology.properties;
    });
  }

module _ (R : Redis) (cfg : Config)
    (subopt_parser : List Text → Text → Option (List (Text × Text))) where
  -- SetProperties; an exception of the parser is logged.
  unfoldable pub set_properties : List Text → State R → State R
  unfolding sift
  set_properties options st = elim (subopt_parser options cfg.service_name) [
    | none ↦ st
    | some ps ↦
        let (custom, rest) = sift st.default_properties ps st.custom_properties in
        record st {
          custom_properties = custom;
          topology = record st.topology { properties = rest ++ st.topology.properties };
        }
  ]

module _ (R : Redis) (A : Algorithm) (cfg : Config) (my_ip : Text) (enable_uds : Bool) where
  -- The property of a channel as it is announced, with its peers.
  unfoldable pub announced :
      R.Store → List LinkProperty → SocketProperty → SocketProperty × List Text
  unfolding find_peers is_uds_available plus_nat uds_more sorted
  announced s links sp =
      let found = find_peers R cfg s sp links in
      let peers = keys (sorted found.0 []) in
      let sp' : SocketProperty =
        if sp.auto_sub_channel
        then record sp { num_sockets = plus_nat sp.num_sockets found.1 }
        else sp in
      (
        if is_uds_available R cfg my_ip s peers
              && (enable_uds
                  && (text_eq sp'.method (codes "bind") && text_eq sp'.transport (codes "zeromq")))
            then record sp' {
              address =
                  sp'.address
                  ++ (uds_address R cfg sp'.name 0
                      ++ uds_more R cfg sp'.name 1 (rounds sp'.num_sockets - 1));
            }
            else sp',
        peers,
      )

  -- The loop over the channels: each is announced in the registry, and gives an option; `none` is the
  -- loop of ToChannelConfig that does not end.
  unfoldable pub configure :
      List LinkProperty
      → Table SocketProperty
      → Topology R
      → Option (Table SocketProperty × List Text × Topology R)
  unfolding announced to_channel_config
  configure links [] t = some ([], [], t)
  configure links ((k, sp) ∷ cs) t =
      let (sp', peers) = announced t.store links sp in
      elim (to_channel_config A sp') [
        | none ↦ none
        | some option ↦ elim (configure links cs (write_channel R cfg sp' peers t)) [
          | none ↦ none
          | some (cs', options, t') ↦ some ((k, sp') ∷ cs', option ∷ options, t')
        ]
      ]

  module _ (children : List Child)
      (subopt_parser : List Text → Text → Option (List (Text × Text))) where
    -- `none` is an exception, or a loop that does not end.
    unfoldable pub initialize : State R → Option (State R)
    unfolding add_children add_endpoints add_links configure set_properties values_of
    initialize st = do
      connect ← add_children children st.channels.connect
      channels ←
          add_endpoints R cfg st.topology.store (read_endpoints R cfg st.topology.store)
            (record st.channels { connect = connect })
      links ← add_links R cfg st.topology.store (read_links R cfg st.topology.store) st.links
      (bind, options, t) ← configure (values_of links) channels.bind st.topology
      (connect', options', t') ← configure (values_of links) channels.connect t
      some (
          set_properties R cfg subopt_parser (options ++ options') (record st {
            channels = record { bind = bind; connect = connect' };
            links = links;
            topology = t';
          }))
