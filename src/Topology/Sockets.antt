-- ===== src/Topology/Sockets.antt =====
-- WriteAddress, WriteBindAddress, WriteConnectAddress and Unregister of plugins/TopologyConfig.cxx. The
-- properties of the device are FairMQ's: GetPropertiesAsStringStartingWith is a parameter.
pub mod Registered
pub mod Bound
use nestdaq.Base.{ℕ, zero, suc, List, [], ◌∷◌, ◌++◌, Option, none, some, drop}
use nestdaq.Text.{Text, codes, join}
use nestdaq.Text.Number.{to_string, to_string_nat}
use nestdaq.Text.Search.{npos, size_suc, find_last_of}
use nestdaq.Text.Table.{Table, alter}
use nestdaq.Redis.{Redis}
use nestdaq.Service.Unregister.{del_all}
use nestdaq.Topology.Property.{SocketProperty, flag}
use nestdaq.Topology.Channel.{Config, Topology, channel_key, hset_all}

-- localKey
abbrev pub local_key : Text → ℕ → Text
local_key name index = codes "chans." ++ (name ++ (codes "." ++ to_string_nat index))

abbrev pub socket_key : Config → Text → Text
socket_key cfg local =
    join (cfg.top_prefix ∷ cfg.service_name ∷ cfg.id ∷ codes "socket" ∷ local ∷ []) cfg.separator

-- h[k] = v
put : Text → Text → Table Text → Table Text
put k v h = alter k [] (λ _. v) h

-- what stands behind the last dot
behind_dot : Text → Text
behind_dot k = drop (size_suc (find_last_of k (codes ".") npos)) k

put_all : List (Text × Text) → Table Text → Table Text
unfolding put behind_dot
put_all [] h = h
put_all ((k, v) ∷ chans) h = put_all chans (put (behind_dot k) v h)

pub socket_fields : SocketProperty → List (Text × Text) → Table Text
unfolding put_all put
socket_fields sp chans =
    put (codes "autoSubChannel") (flag sp.auto_sub_channel)
      (put (codes "numSockets") (to_string sp.num_sockets) (put_all chans []))

module _ (R : Redis) (starting_with : Text → List (Text × Text)) (cfg : Config) where
  pub write_socket : SocketProperty → Text → List (Text × Text) → Topology R → Topology R
  unfolding socket_fields
  write_socket sp local chans t =
      let key = socket_key cfg local in
      record t {
        store = R.expire key cfg.max_ttl (hset_all R key (socket_fields sp chans) t.store);
        registered_keys = t.registered_keys ++ (key ∷ []);
      }

  -- The sockets from `index` on, until one has no properties; `none` when the fuel runs out.
  pub write_sockets : ℕ → SocketProperty → ℕ → Topology R → Option (Topology R)
  unfolding write_socket
  write_sockets zero sp index t = none
  write_sockets (suc fuel) sp index t = elim (starting_with (local_key sp.name index)) [
    | [] ↦ some t
    | c ∷ cs ↦
        write_sockets fuel sp (suc index) (write_socket sp (local_key sp.name index) (c ∷ cs) t)
  ]

  -- The loop over the channels, with what `f` does for each.
  write_address :
      ℕ → (Text → R.Store → R.Store) → Table SocketProperty → Topology R → Option (Topology R)
  unfolding write_sockets
  write_address fuel f [] t = some t
  write_address fuel f ((name, sp) ∷ channels) t = elim (write_sockets fuel sp 0 t) [
    | none ↦ none
    | some t' ↦ write_address fuel f channels (record t' { store = f name t'.store })
  ]

  -- WriteBindAddress marks each channel as bound.
  pub write_bind_address : ℕ → Table SocketProperty → Topology R → Option (Topology R)
  unfolding write_address
  write_bind_address fuel [] t = some t
  write_bind_address fuel (c ∷ channels) t =
      write_address fuel (λ name s. R.hset (channel_key cfg name) (codes "bound") (codes "1") s)
        (c ∷ channels) t

  pub write_connect_address : ℕ → Table SocketProperty → Topology R → Option (Topology R)
  unfolding write_address
  write_connect_address fuel [] t = some t
  write_connect_address fuel (c ∷ channels) t = write_address fuel (λ name s. s) (c ∷ channels) t

module _ (R : Redis) where
  -- Unregister
  unfoldable pub unregister_keys : Topology R → Topology R
  unregister_keys t = elim t.registered_keys [
    | [] ↦ t
    | k ∷ ks ↦ record t { store = del_all R (k ∷ ks) t.store; registered_keys = [] }
  ]
