-- ===== src/Topology/Lookup.antt =====
-- ReadPeerAddress of plugins/TopologyConfig.cxx. A round is what IsCanceled says then, and the store in
-- which the address of a socket is looked up.
pub mod Retries
use nestdaq.Base.{
  ℕ, suc, Bool, true, false, ◌||◌, List, [], ◌∷◌, ◌++◌, Option, none, some, ltb, take, drop,
  if◌then◌else◌,
}
use nestdaq.Text.{Text, codes, join}
use nestdaq.Text.Search.{npos, size_suc, find_last_of}
use nestdaq.Text.Table.{Table, alter, keys}
use nestdaq.Redis.{Redis}
use nestdaq.Topology.Address.{starts_with, make_address}
use nestdaq.Topology.Channel.{Config}

-- peer.substr(0, peer.find(pattern)): what stands before the first occurrence, or the whole
unfoldable pub before_first : Text → Text → Text
before_first p [] = []
before_first p (c ∷ t) =
    let rest = before_first p t in if starts_with p (c ∷ t) then [] else c ∷ rest

-- std::set with its order
unfoldable pub sorted : List Text → Table (Unit {0}) → Table (Unit {0})
sorted [] set = set
sorted (k ∷ ks) set = sorted ks (alter k tt (λ u. u) set)

-- How the lookup of one address ends: with an address, which is empty if it was given up, by the
-- exception of MakeAddress, by the read of an address of a host that is not there, or not within the
-- rounds.
pub data AddressRead (Round A : Type 0) : Type 0 where
  found : A → List Round → AddressRead Round A
  threw : AddressRead Round A
  no_host : AddressRead Round A
  waiting : AddressRead Round A

module _ (R : Redis) (max_retry : ℕ) where
  abbrev pub Round : Type 0
  Round = Bool × R.Store

  -- MakeAddress(*a, peerIP->data())
  unfoldable pub made : Text → Option Text → List Round → AddressRead Round Text
  made a none rounds = no_host
  made a (some ip) rounds = elim (make_address a ip) [
    | none ↦ threw
    | some address ↦ found address rounds
  ]

  unfoldable pub read_address : Text → Option Text → ℕ → List Round → AddressRead Round Text
  unfolding made
  read_address k ip n_retry [] = waiting
  read_address k ip n_retry ((cancel, s) ∷ rounds) =
      let again = read_address k ip (suc n_retry) rounds in
      elim (R.hget k (codes "address") s) [
        | some a ↦ made a ip rounds
        | none ↦ if cancel || ltb max_retry n_retry then found [] rounds else again
      ]

  -- the loop over the sorted keys
  unfoldable pub read_addresses :
      Option Text → List Text → List Round → AddressRead Round (List Text)
  unfolding read_address
  read_addresses ip [] rounds = found [] rounds
  read_addresses ip (k ∷ ks) rounds = elim (read_address k ip 0 rounds) [
    | threw ↦ threw
    | no_host ↦ no_host
    | waiting ↦ waiting
    | found address rest ↦ elim (read_addresses ip ks rest) [
      | found addresses rest' ↦ found (address ∷ addresses) rest'
      | threw ↦ threw
      | no_host ↦ no_host
      | waiting ↦ waiting
    ]
  ]

  module _ (cfg : Config) where
    abbrev pub peer_instance_key : Text → Text
    peer_instance_key peer = before_first (cfg.separator ++ codes "channel") peer

    -- subSocketKeys, sorted
    unfoldable pub sub_socket_keys : Text → R.Store → List Text
    unfolding sorted keys
    sub_socket_keys peer s =
        let channel = drop (size_suc (find_last_of peer cfg.separator npos)) peer in
        keys (
          sorted
            (R.scan
              (join
                (peer_instance_key peer
                  ∷ codes "socket"
                  ∷ (codes "chans." ++ (channel ++ codes ".*"))
                  ∷ [])
                cfg.separator)
              s)
            [])

    -- The host and the sockets are looked up in the store `s`.
    unfoldable pub read_peer_address : Text → R.Store → List Round → AddressRead Round (List Text)
    unfolding read_addresses
    read_peer_address peer s rounds =
        read_addresses
          (R.hget (join (peer_instance_key peer ∷ codes "health" ∷ []) cfg.separator)
            (codes "hostIp") s)
          (sub_socket_keys peer s) rounds
