-- ===== src/Topology/Peers.antt =====
-- The peers of a channel in Initialize of plugins/TopologyConfig.cxx, with ReadPeerIP, IsUdsAvailable and
-- the addresses of Unix domain sockets.
use nestdaq.Base.{
  ℕ, zero, suc, ◌+◌, ◌-◌, Bool, true, false, not, ◌&&◌, List, [], ◌∷◌, ◌++◌, none, some, ltb,
  length, take, if◌then◌else◌,
}
use nestdaq.Text.{Text, codes, text_eq, join}
use nestdaq.Text.Number.{ℤ, pos, negsuc, to_string_nat}
use nestdaq.Text.Search.{npos, find_last_of}
use nestdaq.Redis.{Redis}
use nestdaq.Service.Instance.{presence_prefix}
use nestdaq.Topology.Property.{SocketProperty}
use nestdaq.Topology.Channel.{Config}
use nestdaq.Topology.Link.{LinkProperty}
use nestdaq.Topology.Lookup.{before_first}

-- numSockets += n
unfoldable pub plus_nat : ℤ → ℕ → ℤ
plus_nat (pos m) n = pos (m + n)
plus_nat (negsuc m) n = if ltb m n then pos (n - suc m) else negsuc (m - n)

-- What stands before the last separator of a presence key, with the key of a channel behind it.
abbrev pub channel_of : Config → Text → Text → Text
channel_of cfg channel a =
    join (take (find_last_of a cfg.separator npos) a ∷ codes "channel" ∷ channel ∷ []) cfg.separator

unfoldable pub channels_of : Config → Text → List Text → List Text
channels_of cfg channel [] = []
channels_of cfg channel (a ∷ as') = channel_of cfg channel a ∷ channels_of cfg channel as'

module _ (R : Redis) (cfg : Config) where
  abbrev pub instances : Text → R.Store → List Text
  instances service s =
      R.scan (join (cfg.top_prefix ∷ service ∷ codes "*" ∷ presence_prefix ∷ []) cfg.separator) s

  -- useL
  abbrev pub use_l : SocketProperty → LinkProperty → Bool
  use_l sp l = text_eq l.my_service l.peer_service && text_eq l.peer_channel sp.name

  -- the links that the loop does not skip
  abbrev pub skipped : SocketProperty → LinkProperty → Bool
  skipped sp l = not (text_eq l.my_service l.peer_service) && not (text_eq l.my_channel sp.name)

  -- The loop over the links of one channel: the peers, and how many instances there are.
  unfoldable pub find_peers : R.Store → SocketProperty → List LinkProperty → List Text × ℕ
  unfolding channels_of
  find_peers s sp [] = ([], 0)
  find_peers s sp (l ∷ ls) =
      let rest = find_peers s sp ls in
      let service = if use_l sp l then l.my_service else l.peer_service in
      let channel = if use_l sp l then l.my_channel else l.peer_channel in
      if skipped sp l then rest else (
        channels_of cfg channel (instances service s) ++ rest.0,
        length (instances service s) + rest.1,
      )

  -- ReadPeerIP; an IP that is not there is the empty text
  unfoldable pub read_peer_ip : R.Store → Text → Text
  read_peer_ip s peer =
      elim (R.hget
        (join (before_first (cfg.separator ++ codes "channel") peer ∷ codes "health" ∷ [])
          cfg.separator)
        (codes "hostIp") s) [ none ↦ [] | some ip ↦ ip ]

  unfoldable pub is_uds_available : Text → R.Store → List Text → Bool
  unfolding read_peer_ip
  is_uds_available my_ip s [] = true
  is_uds_available my_ip s (x ∷ xs) =
      let rest = is_uds_available my_ip s xs in
      if text_eq my_ip (read_peer_ip s x) then rest else false

  abbrev pub uds_address : Text → ℕ → Text
  uds_address name i =
      codes "ipc://@/tmp/nestdaq/"
      ++ (codes "/"
          ++ (cfg.service_name
              ++ (codes "/"
                  ++ (cfg.id
                      ++ (codes "/" ++ (name ++ (codes "[" ++ (to_string_nat i ++ codes "]"))))))))

  -- the addresses of the sockets behind the first one
  unfoldable pub uds_more : Text → ℕ → ℕ → Text
  uds_more name i zero = []
  uds_more name i (suc n) = codes "," ++ (uds_address name i ++ uds_more name (suc i) n)
