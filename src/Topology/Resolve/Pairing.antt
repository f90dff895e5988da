-- ===== src/Topology/Resolve/Pairing.antt =====
-- The peers that ResolveConnectAddress (plugins/TopologyConfig.cxx) picks for a channel.
use nestdaq.Base.{
  ℕ, zero, suc, ◌+◌, ◌≡◌, ◌≢◌, refl, ap, true, false, List, [], ◌∷◌, none, some, arith, ◌==◌,
  length, get_elem?, Bool-cases, inl, inr,
}
use nestdaq.Text.{Text}
use nestdaq.Topology.Resolve.{
  Peer, Search, on, break, my_index, meet, with_address, visit, visit_all, resolve,
}

-- Every peer has one socket at most and sees the channel as its neighbour number `k`.
abbrev pub Ranked : Text → ℕ → List Peer → Type 0
Ranked key k [] = Unit
Ranked key k (p ∷ ps) = (p.single ≡ true) × (my_index key p.neighbors ≡ k) × Ranked key k ps

module _ (key : Text) (n k : ℕ) (q : Peer) (a : Text)
    (found : get_elem? q.addresses 0 ≡ some a) where
  abbrev Meets : List Peer → Search → Type 0
  Meets ps r = (r' : Search) × (visit_all key true n ps r ≡ some r') × (r'.address ≡ a)

  visit-here :
      (p : Peer) (r : Search)
      → p.single ≡ true
      → my_index key p.neighbors ≡ k
      → k ≡ r.peer_index
      → get_elem? p.addresses 0 ≡ some a
      → visit key true n p r ≡ some (break (record r { is_1to1 = true; address = a }))
  unfolding visit meet
  visit-here p r s m e f = elim (Bool-cases r.is_1to1) [
    | inl y ↦ rw (y, at) (rw (s, f, with_address) refl)
    | inr y ↦ rw y (rw (s, at, f, with_address) refl)
  ]
    where
      at : (my_index key p.neighbors == r.peer_index) ≡ true
      at = ground (arith, m, e)

  visit-past :
      (p : Peer) (r : Search)
      → p.single ≡ true
      → my_index key p.neighbors ≡ k
      → k ≢ r.peer_index
      → (n == 1) ≡ false
      → visit key true n p r
        ≡ some (on (record r { is_1to1 = true; peer_index = suc r.peer_index }))
  unfolding visit meet
  visit-past p r s m e f = elim (Bool-cases r.is_1to1) [
    | inl y ↦ rw (y, away) refl
    | inr y ↦ rw y (rw (s, away, f) refl)
  ]
    where
      away : (my_index key p.neighbors == r.peer_index) ≡ false
      away = ground (arith, m, e)

  meets :
      (d : ℕ) (ps : List Peer) (r : Search)
      → k ≡ r.peer_index + d
      → ((n == 1) ≡ true → d ≡ 0)
      → Ranked key k ps
      → get_elem? ps d ≡ some q
      → Meets ps r
  unfolding visit_all
  meets d [] r e one h g = absurd (none_some g)
    where
      none_some : none ≡ some q → ⊥
      none_some p = cc
  meets zero (p ∷ ps) r e one (s, m, h) g = (
    record r { is_1to1 = true; address = a },
    rw (visit-here p r s m (omega (arith, e)) (rw (same g) found), visit_all) refl,
    refl,
  )
    where
      same : some p ≡ some q → p ≡ q
      same x = cc
  meets (suc d) (p ∷ ps) r e one (s, m, h) g = elim (Bool-cases (n == 1)) [
    | inl y ↦ let z : suc d ≡ 0 = one y in absurd (omega arith)
    | inr y ↦
        let (r', v, w) =
          meets d ps (record r { is_1to1 = true; peer_index = suc r.peer_index }) (omega (arith, e))
            (λ t. absurd (clash t y)) h g in
        (r', rw (visit-past p r s m (λ t. omega (arith, e)) y, visit_all) v, w)
  ]
    where
      clash : (n == 1) ≡ true → (n == 1) ≡ false → ⊥
      clash t y = cc

-- A channel with one socket at most, whose peers all have one socket at most and all see it as
-- their neighbour number `k`: it is given the first address of the peer number `k`, if that peer has
-- one, whatever address it came with.
pub resolve_one_to_one :
    (key start : Text) (k : ℕ) (peers : List Peer) (q : Peer) (a : Text)
    → Ranked key k peers
    → get_elem? peers k ≡ some q
    → get_elem? q.addresses 0 ≡ some a
    → resolve key true start peers ≡ some a
unfolding resolve
resolve_one_to_one key start k peers q a h g found =
    let (r', v, w) =
      meets key (length peers) k q a found k peers
        (record { peer_index = 0; is_1to1 = false; address = start }) (omega arith)
        (alone peers k g) h g in
    rw (v, resolve) (ap some w)
  where
    alone : (ps : List Peer) (d : ℕ) → get_elem? ps d ≡ some q → (length ps == 1) ≡ true → d ≡ 0
    alone [] d x y = absurd (no x)
      where
        no : none ≡ some q → ⊥
        no p = cc
    alone (p ∷ ps) zero x y = refl
    alone (p ∷ []) (suc d) x y = absurd (no x)
      where
        no : none ≡ some q → ⊥
        no p = cc
    alone (p ∷ p' ∷ ps) (suc d) x y = absurd (ground (arith, y))
