-- ===== src/Tests/Waiting.antt =====
-- The waits of the topology on the server.
use nestdaq.Base.{
  ◌≡◌, ◌≤◌, refl, Bool, true, false, List, [], ◌∷◌, ◌++◌, arith, length, inl, inr, ap,
}
use nestdaq.Text.{Text, codes, text_eq, contains, is_true, to_lower, join}
use nestdaq.Text.Search.{has, find_last_of, last_of}
use nestdaq.Service.Instance.{values}
use nestdaq.Controller.Wait.{merge}
use nestdaq.Topology.Property.{SocketProperty, default_property}
use nestdaq.Topology.Channel.{Config}
use nestdaq.Topology.Link.{LinkProperty}
use nestdaq.Topology.Waiting.{
  done, waiting, canceled, add, other_end, link_channels, add_channels, peer_channels, is_bound,
  wait_bind_address, link_keys, peer_keys, peer_state_keys, wait_for_peer_connection,
}
use nestdaq.Topology.Waiting.Marked.{AllBound, wait_bind_address-done}
use nestdaq.Topology.Waiting.Peers.{PeersSettled, wait_for_peer_connection-PeersSettled}
use nestdaq.Text.Table.{alter, keys}
use nestdaq.Topology.Lookup.{sorted, sub_socket_keys, read_peer_address}
use nestdaq.Topology.Lookup.Retries.{Within, lookups, read_peer_address-Within}
use nestdaq.Tests.Server.{Server, server, find, look_up, keys_of}

abbrev cfg : Config
cfg = record {
  top_prefix = codes "d";
  service_name = codes "B";
  id = codes "B-0";
  separator = codes ":";
  max_ttl = 5;
}

abbrev out : SocketProperty
out = record default_property { name = codes "out" }

-- From the channel `in` of A to the channel `out` of B.
abbrev link : LinkProperty
link = record {
  my_service = codes "A";
  my_channel = codes "in";
  peer_service = codes "B";
  peer_channel = codes "out";
  options = [];
}

-- The instance of A that is present, with its channel bound or not.
abbrev with_mark : Text → Server
with_mark mark = record {
  entries = (codes "d:A:A-0:channel:in", codes "bound", mark) ∷ [];
  strings = (codes "d:A:A-0:presence", codes "a1") ∷ [];
  lists = [];
}

bound_in_time :
    AllBound server cfg
      (peer_channels server cfg (with_mark (codes "0")) (link ∷ []) [] (out ∷ []))
      ((false, with_mark (codes "1")) ∷ [])
unfolding peer_channels link_channels add_channels add other_end contains text_eq keys_of join
    find_last_of last_of has is_bound find is_true to_lower
bound_in_time = ((refl, tt), tt)

one_channel :
    length (peer_channels server cfg (with_mark (codes "0")) (link ∷ []) [] (out ∷ [])) ≤ 1
unfolding peer_channels link_channels add_channels add other_end contains text_eq keys_of join
    find_last_of last_of has
one_channel = omega arith

wait_bind_address-done_example :
    (rest : List (Bool × Server)) × (wait_bind_address server cfg
        (with_mark (codes "0"))
        (link ∷ [])
        (out ∷ [])
        (((false, with_mark (codes "0")) ∷ []) ++ ((false, with_mark (codes "1")) ∷ []))
      ≡ done rest)
wait_bind_address-done_example =
    wait_bind_address-done server cfg (with_mark (codes "0")) (link ∷ []) (out ∷ [])
      ((false, with_mark (codes "0")) ∷ []) ((false, with_mark (codes "1")) ∷ []) (refl, tt)
      bound_in_time one_channel

abbrev in_state : Text → Server
in_state v = record { entries = []; strings = (codes "d:A:A-0:fair-mq-state", v) ∷ []; lists = [] }

abbrev targets : List Text
targets = codes "READY" ∷ codes "RUNNING" ∷ []

not_yet :
    ¬ PeersSettled server cfg targets
      (peer_keys server cfg (link ∷ []) [] (out ∷ []))
      (in_state (codes "IDLE"))
unfolding peer_keys link_keys peer_state_keys add other_end merge values look_up keys_of contains
    text_eq join
not_yet (inl e) = cc
not_yet (inr (w, c, (e, _))) = clash (ap (contains targets) e) c
  where
    clash : false ≡ contains targets w → contains targets w ≡ true → ⊥
    clash p q = cc

wait_for_peer_connection-PeersSettled_example :
    (wait_for_peer_connection server cfg targets
        (link ∷ [])
        (out ∷ [])
        ((false, in_state (codes "IDLE")) ∷ [])
      ≡ waiting)
    × ((s : Server) (after : List (Bool × Server))
        → PeersSettled server cfg targets (peer_keys server cfg (link ∷ []) [] (out ∷ [])) s
        → wait_for_peer_connection server cfg targets
            (link ∷ [])
            (out ∷ [])
            (((false, in_state (codes "IDLE")) ∷ []) ++ ((false, s) ∷ after))
          ≡ done after)
    × ((s : Server) (after : List (Bool × Server))
        → wait_for_peer_connection server cfg targets
            (link ∷ [])
            (out ∷ [])
            (((false, in_state (codes "IDLE")) ∷ []) ++ ((true, s) ∷ after))
          ≡ canceled)
wait_for_peer_connection-PeersSettled_example =
    wait_for_peer_connection-PeersSettled server cfg targets (link ∷ []) (out ∷ [])
      ((false, in_state (codes "IDLE")) ∷ []) ((refl, not_yet), tt)

-- Three rounds for the one socket, with one retry at most.
abbrev three_rounds : List (Bool × Server)
three_rounds =
    (false, with_mark (codes "0"))
    ∷ (false, with_mark (codes "0"))
    ∷ (false, with_mark (codes "0"))
    ∷ []

enough_rounds :
    lookups 1 (sub_socket_keys server 1 cfg (codes "d:A:A-0:channel:in") (with_mark (codes "0")))
    ≤ 3
unfolding sub_socket_keys sorted keys alter keys_of
enough_rounds = omega arith

read_peer_address-Within_example :
    Within
      (lookups 1
        (sub_socket_keys server 1 cfg (codes "d:A:A-0:channel:in") (with_mark (codes "0"))))
      three_rounds
      (read_peer_address server 1 cfg
        (codes "d:A:A-0:channel:in")
        (with_mark (codes "0"))
        three_rounds)
read_peer_address-Within_example =
    read_peer_address-Within server 1 cfg (codes "d:A:A-0:channel:in") (with_mark (codes "0"))
      three_rounds enough_rounds
