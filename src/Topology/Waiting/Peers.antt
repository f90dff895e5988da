-- ===== src/Topology/Waiting/Peers.antt =====
-- When WaitForPeerConnection of plugins/TopologyConfig.cxx ends.
use nestdaq.Base.{
  ◌≡◌, ◌∙◌, ◌⊎◌, refl, ap, sym, append_nil, true, false, List, [], ◌∷◌, ◌++◌, All, inl, inr, Bool,
  Bool-cases,
}
use nestdaq.Text.{Text}
use nestdaq.Redis.{Redis}
use nestdaq.Service.Instance.{values}
use nestdaq.Controller.Wait.{reached}
use nestdaq.Controller.Wait.Ends.{Agree, reached-Agree}
use nestdaq.Topology.Property.{SocketProperty}
use nestdaq.Topology.Channel.{Config}
use nestdaq.Topology.Link.{LinkProperty}
use nestdaq.Topology.Waiting.{
  Rounds, done, canceled, waiting, peer_keys, peer_state_keys, wait_states,
  wait_for_peer_connection,
}

module _ (R : Redis) (cfg : Config) (targets keys : List Text) where
  -- No peer has a state, or all the states that are there are the same target.
  abbrev pub PeersSettled : R.Store → Type 0
  PeersSettled s =
      (peer_state_keys R cfg s [] keys ≡ [])
      ⊎ Agree targets (values R (peer_state_keys R cfg s [] keys) s)

  settled :
      (s : R.Store) (rounds : Rounds R cfg)
      → PeersSettled s
      → wait_states R cfg targets keys ((false, s) ∷ rounds) ≡ done rounds
  unfolding wait_states
  settled s rounds h = elim h [
    | inl e ↦ rw (e, wait_states) refl
    | inr a ↦ go (peer_state_keys R cfg s [] keys) refl ((reached-Agree targets _).1 a)
  ]
    where
      go :
          (ks : List Text)
          → peer_state_keys R cfg s [] keys ≡ ks
          → reached targets (values R (peer_state_keys R cfg s [] keys) s) ≡ true
          → wait_states R cfg targets keys ((false, s) ∷ rounds) ≡ done rounds
      go [] e r = rw (e, wait_states) refl
      go (k ∷ ks) e r = rw (e, wait_states) (rw (rw e at r, wait_states) refl)

  unsettled :
      (s : R.Store) (rounds : Rounds R cfg)
      → ¬ PeersSettled s
      → wait_states R cfg targets keys ((false, s) ∷ rounds) ≡ wait_states R cfg targets keys rounds
  unfolding wait_states
  unsettled s rounds h = go (peer_state_keys R cfg s [] keys) refl
    where
      go :
          (ks : List Text)
          → peer_state_keys R cfg s [] keys ≡ ks
          → wait_states R cfg targets keys ((false, s) ∷ rounds)
            ≡ wait_states R cfg targets keys rounds
      go [] e = absurd (h (inl e))
      go (k ∷ ks) e =
          elim (Bool-cases (reached targets (values R (peer_state_keys R cfg s [] keys) s))) [
            | inl y ↦ absurd (h (inr ((reached-Agree targets _).0 y)))
            | inr n ↦ rw (e, wait_states) (rw (rw e at n, wait_states) refl)
          ]

  -- Rounds that go on: not canceled, and not settled.
  abbrev pub GoesOn : Bool × R.Store → Type 0
  GoesOn (cancel, s) = (cancel ≡ false) × ¬ PeersSettled s

  goes_on :
      (before after : Rounds R cfg)
      → All GoesOn before
      → wait_states R cfg targets keys (before ++ after) ≡ wait_states R cfg targets keys after
  goes_on [] after h = refl
  goes_on ((cancel, s) ∷ before) after ((c, n), h) =
      rw c (unsettled s (before ++ after) n ∙ goes_on before after h)

module _ (R : Redis) (cfg : Config) (targets : List Text) (links : List LinkProperty)
    (channels : List SocketProperty) where
  -- As long as a round is neither canceled nor settled for the peers of the channels, the wait goes
  -- on; the next round that is not canceled and settled ends it, and a cancellation ends it at once.
  pub wait_for_peer_connection-PeersSettled :
      (before : Rounds R cfg)
      → All (GoesOn R cfg targets (peer_keys R cfg links [] channels)) before
      → (wait_for_peer_connection R cfg targets links channels before ≡ waiting)
        × ((s : R.Store) (after : Rounds R cfg)
            → PeersSettled R cfg targets (peer_keys R cfg links [] channels) s
            → wait_for_peer_connection R cfg targets links channels (before ++ ((false, s) ∷ after))
              ≡ done after)
        × ((s : R.Store) (after : Rounds R cfg)
            → wait_for_peer_connection R cfg targets links channels (before ++ ((true, s) ∷ after))
              ≡ canceled)
  unfolding wait_for_peer_connection wait_states
  wait_for_peer_connection-PeersSettled before h =
      let ks = peer_keys R cfg links [] channels in
      (
        ap (wait_states R cfg targets ks) (sym (append_nil before))
            ∙ goes_on R cfg targets ks before [] h,
        λ s after d.
            goes_on R cfg targets ks before ((false, s) ∷ after) h
            ∙ settled R cfg targets ks s after d,
        λ s after. goes_on R cfg targets ks before ((true, s) ∷ after) h,
      )
