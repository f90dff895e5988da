-- ===== src/Topology/Sockets/Bound.antt =====
-- WriteBindAddress of plugins/TopologyConfig.cxx for a channel that has no peers.
use nestdaq.Base.{ℕ, ◌<◌, ◌≡◌, ◌∙◌, refl, false, List, [], ◌∷◌, some, arith, Bool-cases, inl, inr}
use nestdaq.Text.{Text, codes, text_eq, text_eq_refl, text_eq_sound, contains}
use nestdaq.Text.Names.{contains-append}
use nestdaq.Redis.{Redis, HashLaws, ListLaws, DelLaws, KeyLaws}
use nestdaq.Topology.Property.{SocketProperty}
use nestdaq.Topology.Channel.{Config, Topology, channel_key, write_channel}
use nestdaq.Topology.Sockets.{
  socket_key, write_socket, write_address, write_bind_address, unregister_keys,
}
use nestdaq.Topology.Sockets.Registered.{
  SocketsEnd, write_sockets-keeps, hget-unregister_keys, channel_key-socket_key,
}

module _ (R : Redis) (starting_with : Text → List (Text × Text)) (cfg : Config) (H : HashLaws R)
    (Q : ListLaws R) (D : DelLaws R) (K : KeyLaws R) (positive : 0 < cfg.max_ttl) where
  -- The key of the channel is not registered.
  abbrev Unregistered : Text → Topology R → Type 0
  Unregistered name t = contains t.registered_keys (channel_key cfg name) ≡ false

  write_socket-Unregistered :
      (name : Text) (sp : SocketProperty) (local : Text) (chans : List (Text × Text))
      (t : Topology R)
      → Unregistered name t
      → Unregistered name (write_socket R starting_with cfg sp local chans t)
  unfolding write_socket contains
  write_socket-Unregistered name sp local chans t n =
      contains-append t.registered_keys (socket_key cfg local ∷ []) (channel_key cfg name)
      ∙ rw (n, other) refl
    where
      other : text_eq (channel_key cfg name) (socket_key cfg local) ≡ false
      other = elim (Bool-cases (text_eq (channel_key cfg name) (socket_key cfg local))) [
        | inr x ↦ x
        | inl y ↦ absurd (
            channel_key-socket_key cfg name local
              (text_eq_sound (channel_key cfg name) (socket_key cfg local) y))
      ]

  -- A bind channel without peers, of a topology with nothing registered, whose sockets end before
  -- the fuel: the mark that WriteBindAddress sets under the key of the channel is there after
  -- WriteChannel, WriteBindAddress and Unregister still.
  pub unregister_keys-write_bind_address :
      (fuel : ℕ) (sp : SocketProperty) (t : Topology R)
      → t.registered_keys ≡ []
      → SocketsEnd R starting_with cfg fuel sp.name
      → (t' : Topology R) × (write_bind_address R starting_with cfg fuel
            ((sp.name, sp) ∷ [])
            (write_channel R cfg sp [] t)
          ≡ some t')
        × (R.hget (channel_key cfg sp.name) (codes "bound") (unregister_keys R t').store
            ≡ some (codes "1"))
  unfolding write_bind_address write_address write_channel contains
  unregister_keys-write_bind_address fuel sp t e (n, lt, q) =
      let (t₁, p₁, u₁) =
        write_sockets-keeps R starting_with cfg (Unregistered sp.name) sp
          (write_socket-Unregistered sp.name sp) fuel 0 n t (omega arith) (omega arith) q
          (rw e refl) in
      let t₂ : Topology R = record t₁ {
        store = R.hset (channel_key cfg sp.name) (codes "bound") (codes "1") t₁.store;
      } in
      (
        t₂,
        rw (p₁, write_bind_address, write_address) refl,
        hget-unregister_keys R starting_with cfg H Q D K positive (channel_key cfg sp.name)
              (codes "bound") t₂
            ∙ rw u₁ (
                H.hget-hset (channel_key cfg sp.name) (codes "bound") (codes "1") (codes "bound")
                  t₁.store
                ∙ rw (text_eq_refl (codes "bound")) refl),
      )
