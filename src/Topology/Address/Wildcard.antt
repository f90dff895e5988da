-- ===== src/Topology/Address/Wildcard.antt =====
-- MakeAddress (plugins/TopologyConfig.cxx) on addresses of tcp.
use nestdaq.Base.{
  suc, ◌+◌, ◌<◌, ◌≡◌, refl, sym, ap, ◌∙◌, Bool, true, ◌||◌, [], ◌∷◌, ◌++◌, some, arith, length,
  length-append, append_assoc, append_nil, if◌then◌else◌, Bool-cases, inl, inr,
}
use nestdaq.Text.{Text, codes}
use nestdaq.Text.Search.{npos, has, last_of, find_last_of, substr}
use nestdaq.Text.Search.Skip.{Clear, last_of-skip, last_of-hit, substr-part, substr-rest}
use nestdaq.Topology.Address.{starts_with, occurs, make_address}

abbrev pub is_wildcard : Text → Bool
is_wildcard address = occurs (codes "*") address || occurs (codes "0.0.0.0") address

abbrev pub tcp_address : Text → Text → Text
tcp_address host port = codes "tcp://" ++ (host ++ (b':' ∷ port))

module _ (host port : Text) (host_clear : Clear (codes ":") host)
    (port_clear : Clear (codes ":") port) where
  colon : has (codes ":") b':' ≡ true
  unfolding has
  colon = refl

  port_at :
      length (tcp_address host port) < npos
      → find_last_of (tcp_address host port) (codes ":") npos ≡ 6 + length host
  unfolding find_last_of last_of has
  port_at fits =
      last_of-skip (codes ":") npos 6 3 host (b':' ∷ port) host_clear
      ∙ last_of-hit (codes ":") npos (6 + length host) 3 b':' port
          (omega (arith, fits, length-append host (b':' ∷ port))) colon
      ∙ ap (λ t. last_of (codes ":") npos (suc (6 + length host)) (6 + length host) t)
          (sym (append_nil port))
      ∙ last_of-skip (codes ":") npos (suc (6 + length host)) (6 + length host) port [] port_clear

  -- For an address `tcp://host:port` that fits into a string, with no further colon: a wildcard in
  -- it is replaced by the address of the peer, at the same port, and an address without a wildcard
  -- is kept.
  make_address-tcp :
      (peer_ip : Text)
      → length (tcp_address host port) < npos
      → make_address (tcp_address host port) peer_ip
        ≡ some (
            if is_wildcard (tcp_address host port)
            then tcp_address peer_ip port
            else tcp_address host port)
  unfolding make_address starts_with
  make_address-tcp peer_ip fits = elim (Bool-cases (is_wildcard (tcp_address host port))) [
    | inr n ↦ rw n refl
    | inl y ↦ rw (y, front) (rw (port_at fits) (rw rest refl))
  ]
    where
      front : substr (tcp_address host port) 0 6 ≡ some (codes "tcp://")
      front = substr-part [] (codes "tcp://") (host ++ (b':' ∷ port)) refl refl refl

      rest : substr (tcp_address host port) (6 + length host) npos ≡ some (b':' ∷ port)
      rest =
          substr-rest (codes "tcp://" ++ host) (b':' ∷ port)
            (sym (append_assoc (codes "tcp://") host (b':' ∷ port)))
            (sym (length-append (codes "tcp://") host))
            (omega (arith, fits, length-append host (b':' ∷ port)))
