-- ===== src/Topology/Waiting.antt =====
-- WaitBindAddress and WaitForPeerConnection of plugins/TopologyConfig.cxx. The registry changes while
-- they poll: a round is what IsCanceled says then, and the store that is read.
pub mod Marked
pub mod Peers
use nestdaq.Base.{
  Bool, true, false, ◌&&◌, List, [], ◌∷◌, ◌++◌, map, Option, none, some, if◌then◌else◌, take,
}
use nestdaq.Text.{Text, codes, text_eq, contains, join, is_true}
use nestdaq.Text.Search.{npos, find_last_of}
use nestdaq.Redis.{Redis}
use nestdaq.Service.Instance.{presence_prefix, values}
use nestdaq.Controller.Wait.{fair_mq_state_prefix, merge, reached}
use nestdaq.Topology.Property.{SocketProperty}
use nestdaq.Topology.Channel.{Config}
use nestdaq.Topology.Link.{LinkProperty}

-- std::unordered_set::emplace
unfoldable pub add : List Text → Text → List Text
add keys k = if contains keys k then keys else keys ++ (k ∷ [])

-- The service and the channel at the other end of a link, if the channel is at one of its ends.
unfoldable pub other_end : Config → SocketProperty → LinkProperty → Option (Text × Text)
other_end cfg sp lp =
    if text_eq cfg.service_name lp.my_service && text_eq sp.name lp.my_channel
    then some (lp.peer_service, lp.peer_channel)
    else if text_eq cfg.service_name lp.peer_service && text_eq sp.name lp.peer_channel
    then some (lp.my_service, lp.my_channel)
    else none

-- How a wait ends: with the rounds that are left, by a cancellation, or not within the rounds.
pub data Waited (Store : Type 0) : Type 0 where
  done : List (Bool × Store) → Waited Store
  canceled : Waited Store
  waiting : Waited Store

module _ (R : Redis) (cfg : Config) where
  abbrev pub Rounds : Type 0
  Rounds = List (Bool × R.Store)

  -- the key of a channel of the instance that a presence key belongs to
  abbrev pub channel_of : Text → Text → Text
  channel_of a channel =
      join (take (find_last_of a cfg.separator npos) a ∷ codes "channel" ∷ channel ∷ [])
        cfg.separator

  unfoldable pub add_channels : Text → List Text → List Text → List Text
  unfolding add
  add_channels channel found [] = found
  add_channels channel found (a ∷ as') = add_channels channel (add found (channel_of a channel)) as'

  -- the loop over the links of one channel
  unfoldable pub link_channels :
      R.Store → SocketProperty → List Text → List LinkProperty → List Text
  unfolding other_end add_channels
  link_channels s sp found [] = found
  link_channels s sp found (lp ∷ links) = elim (other_end cfg sp lp) [
    | none ↦ link_channels s sp found links
    | some (service, channel) ↦
        link_channels s sp
          (add_channels channel found (
            R.scan
              (join (cfg.top_prefix ∷ service ∷ codes "*" ∷ presence_prefix ∷ []) cfg.separator) s))
          links
  ]

  unfoldable pub peer_channels :
      R.Store → List LinkProperty → List Text → List SocketProperty → List Text
  unfolding link_channels
  peer_channels s links found [] = found
  peer_channels s links found (sp ∷ sps) =
      peer_channels s links (link_channels s sp found links) sps

  unfoldable pub is_bound : Text → R.Store → Bool
  is_bound c s = elim (R.hget c (codes "bound") s) [ none ↦ false | some v ↦ is_true v ]

  unfoldable pub wait_bound : Text → Rounds → Waited R.Store
  unfolding is_bound
  wait_bound c [] = waiting
  wait_bound c ((cancel, s) ∷ rounds) =
      let rest = wait_bound c rounds in
      if is_bound c s then done rounds else if cancel then canceled else rest

  unfoldable pub wait_all_bound : List Text → Rounds → Waited R.Store
  unfolding wait_bound
  wait_all_bound [] rounds = done rounds
  wait_all_bound (c ∷ cs) rounds = elim (wait_bound c rounds) [
    | done rest ↦ wait_all_bound cs rest
    | canceled ↦ canceled
    | waiting ↦ waiting
  ]

  -- The peers are looked up in the store `s`.
  unfoldable pub wait_bind_address :
      R.Store → List LinkProperty → List SocketProperty → Rounds → Waited R.Store
  unfolding peer_channels wait_all_bound
  wait_bind_address s links [] rounds = done rounds
  wait_bind_address s links (sp ∷ sps) rounds =
      wait_all_bound (peer_channels s links [] (sp ∷ sps)) rounds

  unfoldable pub link_keys : SocketProperty → List Text → List LinkProperty → List Text
  unfolding other_end add
  link_keys sp found [] = found
  link_keys sp found (lp ∷ links) = elim (other_end cfg sp lp) [
    | none ↦ link_keys sp found links
    | some (service, channel) ↦
        link_keys sp (add found (join (cfg.top_prefix ∷ service ∷ codes "*" ∷ []) cfg.separator))
          links
  ]

  -- peerKeys
  unfoldable pub peer_keys : List LinkProperty → List Text → List SocketProperty → List Text
  unfolding link_keys
  peer_keys links found [] = found
  peer_keys links found (sp ∷ sps) =
      peer_keys links (if sp.wait_for_peer_connection then link_keys sp found links else found) sps

  unfoldable pub peer_state_keys : R.Store → List Text → List Text → List Text
  unfolding merge
  peer_state_keys s found [] = found
  peer_state_keys s found (k ∷ ks) =
      peer_state_keys s
        (merge found (R.scan (join (k ∷ fair_mq_state_prefix ∷ []) cfg.separator) s)) ks

  unfoldable pub wait_states : List Text → List Text → Rounds → Waited R.Store
  unfolding peer_state_keys reached values
  wait_states targets keys [] = waiting
  wait_states targets keys ((cancel, s) ∷ rounds) =
      let rest = wait_states targets keys rounds in
      if cancel then canceled else elim (peer_state_keys s [] keys) [
        | [] ↦ done rounds
        | k ∷ ks ↦ elim (reached targets (values R (k ∷ ks) s)) [
          | true ↦ done rounds
          | false ↦ rest
        ]
      ]

  unfoldable pub wait_for_peer_connection :
      List Text → List LinkProperty → List SocketProperty → Rounds → Waited R.Store
  unfolding peer_keys wait_states
  wait_for_peer_connection targets links channels rounds =
      wait_states targets (peer_keys links [] channels) rounds
