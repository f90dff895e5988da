-- ===== src/Topology/Lookup/Retries.antt =====
-- The bound on the retries of ReadPeerAddress (plugins/TopologyConfig.cxx).
use nestdaq.Base.{
  ℕ, zero, suc, ◌+◌, ◌≤◌, ◌≡◌, ◌||◌, refl, List, [], ◌∷◌, Option, none, some, arith, ltb, length,
  Option-cases, Bool-cases, inl, inr,
}
use nestdaq.Text.{Text, codes}
use nestdaq.Redis.{Redis}
use nestdaq.Topology.Address.{make_address}
use nestdaq.Topology.Channel.{Config}
use nestdaq.Topology.Lookup.{
  AddressRead, found, threw, no_host, waiting, Round, made, read_address, read_addresses,
  sub_socket_keys, read_peer_address,
}

module _ {Round A : Type 0} where
  -- Ended, with at most `b` of the rounds used.
  abbrev pub Within : ℕ → List Round → AddressRead Round A → Type 0
  Within b rounds (found a rest) = length rounds ≤ length rest + b
  Within b rounds threw = Unit
  Within b rounds no_host = Unit
  Within b rounds waiting = ⊥

  Within-more :
      (b c : ℕ) (r : Round) (rounds : List Round) (w : AddressRead Round A)
      → suc b ≤ c
      → Within b rounds w
      → Within c (r ∷ rounds) w
  Within-more b c r rounds (found a rest) le h = omega arith
  Within-more b c r rounds threw le h = tt
  Within-more b c r rounds no_host le h = tt
  Within-more b c r rounds waiting le h = h

-- The lookups of the addresses of so many sockets.
abbrev pub lookups : ℕ → List Text → ℕ
lookups max_retry [] = 0
lookups max_retry (k ∷ ks) = (max_retry + 2) + lookups max_retry ks

module _ (R : Redis) (max_retry : ℕ) where
  made-Within :
      (a : Text) (ip : Option Text) (r : Round R max_retry) (rounds : List (Round R max_retry))
      (b : ℕ)
      → 1 ≤ b
      → Within b (r ∷ rounds) (made R max_retry a ip rounds)
  unfolding made
  made-Within a none r rounds b h = tt
  made-Within a (some ip) r rounds b h = elim (Option-cases (make_address a ip)) [
    | inl e ↦ rw (e, made) tt
    | inr (x, e) ↦ rw (e, made) (omega arith)
  ]

  read_address-Within :
      (k : Text) (ip : Option Text) (n b : ℕ) (rounds : List (Round R max_retry))
      → n ≤ max_retry + 1
      → max_retry + 2 ≤ n + b
      → b ≤ length rounds
      → Within b rounds (read_address R max_retry k ip n rounds)
  unfolding read_address
  read_address-Within k ip n b [] low high enough = absurd (omega arith)
  read_address-Within k ip n zero ((cancel, s) ∷ rounds) low high enough = absurd (omega arith)
  read_address-Within k ip n (suc b) ((cancel, s) ∷ rounds) low high enough =
      elim (Option-cases (R.hget k (codes "address") s)) [
        | inr (a, e) ↦
            rw (e, read_address) (made-Within a ip (cancel, s) rounds (suc b) (omega arith))
        | inl e ↦ elim (Bool-cases (cancel || ltb max_retry n)) [
          | inl y ↦ rw (e, read_address) (rw (y, read_address) (omega arith))
          | inr x ↦
              rw (e, read_address)
                (rw (x, read_address)
                  (Within-more b (suc b) (cancel, s) rounds _ (omega arith)
                    (read_address-Within k ip (suc n) b rounds (ground (arith, x)) (omega arith)
                      (omega arith))))
        ]
      ]

  read_addresses-Within :
      (ip : Option Text) (ks : List Text) (rounds : List (Round R max_retry))
      → lookups max_retry ks ≤ length rounds
      → Within (lookups max_retry ks) rounds (read_addresses R max_retry ip ks rounds)
  unfolding read_addresses
  read_addresses-Within ip [] rounds enough = omega arith
  read_addresses-Within ip (k ∷ ks) rounds enough =
      first (read_address R max_retry k ip 0 rounds) refl
        (read_address-Within k ip 0 (max_retry + 2) rounds (omega arith) (omega arith)
          (omega arith))
        (λ rest le. read_addresses-Within ip ks rest le)
    where
      Goal : Type 0
      Goal =
          Within (lookups max_retry (k ∷ ks)) rounds (read_addresses R max_retry ip (k ∷ ks) rounds)

      second :
          (address : Text) (rest : List (Round R max_retry))
          → read_address R max_retry k ip 0 rounds ≡ found address rest
          → length rounds ≤ length rest + (max_retry + 2)
          → (w : AddressRead (Round R max_retry) (List Text))
          → read_addresses R max_retry ip ks rest ≡ w
          → Within (lookups max_retry ks) rest w
          → Goal
      second address rest e le (found as' rest') p h =
          rw (e, read_addresses) (rw (p, read_addresses) (omega arith))
      second address rest e le threw p h = rw (e, read_addresses) (rw (p, read_addresses) tt)
      second address rest e le no_host p h = rw (e, read_addresses) (rw (p, read_addresses) tt)
      second address rest e le waiting p h = absurd h

      first :
          (w : AddressRead (Round R max_retry) Text)
          → read_address R max_retry k ip 0 rounds ≡ w
          → Within (max_retry + 2) rounds w
          → ((rest : List (Round R max_retry))
              → lookups max_retry ks ≤ length rest
              → Within (lookups max_retry ks) rest (read_addresses R max_retry ip ks rest))
          → Goal
      first (found address rest) e h again =
          second address rest e h (read_addresses R max_retry ip ks rest) refl
            (again rest (omega arith))
      first threw e h again = rw (e, read_addresses) tt
      first no_host e h again = rw (e, read_addresses) tt
      first waiting e h again = absurd h

  -- With a maximum of retries that is not negative, and, for each socket of the peer, two more rounds
  -- than the maximum: the lookup ends, by the addresses or by a fault, and where it ends by the
  -- addresses it has used no more rounds than these.
  pub read_peer_address-Within :
      (cfg : Config) (peer : Text) (s : R.Store) (rounds : List (Round R max_retry))
      → lookups max_retry (sub_socket_keys R max_retry cfg peer s) ≤ length rounds
      → Within
          (lookups max_retry (sub_socket_keys R max_retry cfg peer s))
          rounds
          (read_peer_address R max_retry cfg peer s rounds)
  unfolding read_peer_address
  read_peer_address-Within cfg peer s rounds enough =
      read_addresses-Within _ (sub_socket_keys R max_retry cfg peer s) rounds enough
