-- ===== src/Topology/Waiting/Marked.antt =====
-- When WaitBindAddress of plugins/TopologyConfig.cxx ends.
use nestdaq.Base.{
  suc, ◌≤◌, ◌≡◌, refl, true, false, List, [], ◌∷◌, ◌++◌, arith, length, All, Bool-cases, inl, inr,
}
use nestdaq.Text.{Text}
use nestdaq.Redis.{Redis}
use nestdaq.Topology.Property.{SocketProperty}
use nestdaq.Topology.Channel.{Config}
use nestdaq.Topology.Link.{LinkProperty}
use nestdaq.Topology.Waiting.{
  Rounds, Waited, done, is_bound, wait_bound, wait_all_bound, peer_channels, wait_bind_address,
}

module _ (R : Redis) (cfg : Config) where
  -- Rounds that are not canceled, and rounds in which all the channels are bound.
  abbrev pub Quiet : Rounds R cfg → Type 0
  Quiet rounds = All (λ r. r.0 ≡ false) rounds

  abbrev pub AllBound : List Text → Rounds R cfg → Type 0
  AllBound cs rounds = All (λ r. All (λ c. is_bound R cfg c r.1 ≡ true) cs) rounds

  later :
      (c : Text) (cs : List Text) (rounds : Rounds R cfg)
      → AllBound (c ∷ cs) rounds
      → AllBound cs rounds
  later c cs [] h = tt
  later c cs (r ∷ rounds) ((b, bs), h) = (bs, later c cs rounds h)

  -- What is left of the rounds is of the same kind, with at most one of the last ones used.
  Left : List Text → Rounds R cfg → Waited R.Store → Type 0
  Left cs after w =
      (before : Rounds R cfg) × (rest : Rounds R cfg) × (w ≡ done (before ++ rest))
      × Quiet before
      × AllBound cs rest
      × (length after ≤ suc (length rest))

  wait_bound-Left :
      (c : Text) (cs : List Text) (before after : Rounds R cfg)
      → Quiet before
      → AllBound (c ∷ cs) after
      → 1 ≤ length after
      → Left cs after (wait_bound R cfg c (before ++ after))
  unfolding Left wait_bound
  wait_bound-Left c cs [] [] q h le = absurd (omega arith)
  wait_bound-Left c cs [] ((cancel, s) ∷ after) q ((b, bs), h) le =
      ([], after, rw b refl, tt, later c cs after h, omega arith)
  wait_bound-Left c cs ((cancel, s) ∷ before) after (q, qs) h le =
      elim (Bool-cases (is_bound R cfg c s)) [
        | inl y ↦ (before, after, rw y refl, qs, later c cs after h, omega arith)
        | inr n ↦
            let (b', r', e, q', h', le') = wait_bound-Left c cs before after qs h le in
            (b', r', rw (n, q) e, q', h', le')
      ]

  wait_all_bound-done :
      (cs : List Text) (before after : Rounds R cfg)
      → Quiet before
      → AllBound cs after
      → length cs ≤ length after
      → (rest : Rounds R cfg) × (wait_all_bound R cfg cs (before ++ after) ≡ done rest)
  unfolding wait_all_bound Left
  wait_all_bound-done [] before after q h le = (before ++ after, refl)
  wait_all_bound-done (c ∷ cs) before after q h le =
      let (b', r', e, q', h', le') = wait_bound-Left c cs before after q h (omega arith) in
      let (rest, p) = wait_all_bound-done cs b' r' q' h' (omega arith) in
      (rest, rw (e, wait_all_bound) p)

  -- The wait ends, if no round is canceled until all the channels of the peers are bound, and they
  -- stay so for as many rounds as there are channels.
  pub wait_bind_address-done :
      (s : R.Store) (links : List LinkProperty) (channels : List SocketProperty)
      (before after : Rounds R cfg)
      → Quiet before
      → AllBound (peer_channels R cfg s links [] channels) after
      → length (peer_channels R cfg s links [] channels) ≤ length after
      → (rest : Rounds R cfg) × (wait_bind_address R cfg s links channels (before ++ after)
          ≡ done rest)
  unfolding wait_bind_address
  wait_bind_address-done s links [] before after q h le = (before ++ after, refl)
  wait_bind_address-done s links (sp ∷ sps) before after q h le =
      wait_all_bound-done (peer_channels R cfg s links [] (sp ∷ sps)) before after q h le
