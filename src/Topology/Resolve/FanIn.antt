-- ===== src/Topology/Resolve/FanIn.antt =====
-- The addresses that ResolveConnectAddress (plugins/TopologyConfig.cxx) gathers for a channel with
-- several sockets.
use nestdaq.Base.{
  ℕ, suc, ◌≡◌, ◌≢◌, refl, sym, ap, ◌∙◌, true, false, not, ◌&&◌, List, [], ◌∷◌, ◌++◌, Option, none,
  some, All, arith, ◌==◌, length, get_elem?, append_assoc, append_nil, Option-cases, inl, inr,
  subst, if◌then◌else◌,
}
use nestdaq.Text.{Text, codes, join}
use nestdaq.Topology.Resolve.{
  Peer, Search, Step, on, my_index, append_address, meet, with_address, next, visit, visit_all,
  resolve,
}

-- Peers with one socket at most, none of whose addresses is empty.
abbrev pub Single : List Peer → Type 0
Single ps = All (λ p. (p.single ≡ true) × All (λ a. a ≢ []) p.addresses) ps

-- The address of a peer that has just one.
abbrev pub sole : List Text → Option Text
sole (a ∷ []) = some a
sole _ = none

abbrev pub in_front : Text → Option (List Text) → Option (List Text)
in_front a none = none
in_front a (some as') = some (a ∷ as')

-- The addresses of peers that have just one each.
unfoldable pub soles : List Peer → Option (List Text)
soles [] = some []
soles (p ∷ ps) = elim (sole p.addresses) [ none ↦ none | some a ↦ in_front a (soles ps) ]

abbrev pub words : Text → List Text
words [] = []
words (c ∷ t) = (c ∷ t) ∷ []

words-append_address :
    (w a : Text) (hs : List Text)
    → a ≢ []
    → join (words (append_address w a) ++ hs) (codes ",") ≡ join (words w ++ (a ∷ hs)) (codes ",")
unfolding append_address join
words-append_address [] [] hs ne = absurd (ne refl)
words-append_address [] (d ∷ a) hs ne = refl
words-append_address (c ∷ w) a [] ne = refl
words-append_address (c ∷ w) a (h ∷ hs) ne =
    append_assoc (c ∷ w) (b',' ∷ a) (b',' ∷ join (h ∷ hs) (codes ","))

join-words : (t : Text) → join (words t) (codes ",") ≡ t
unfolding join
join-words [] = refl
join-words (c ∷ t) = refl

-- The addresses of the peers behind an address, if all peers have one.
abbrev pub gathered : Text → Option (List Text) → Option Text
gathered w none = none
gathered w (some as') = some (join (words w ++ as') (codes ","))

gathered-append_address :
    (w a : Text) (found : Option (List Text))
    → a ≢ []
    → gathered (append_address w a) found ≡ gathered w (in_front a found)
gathered-append_address w a none ne = refl
gathered-append_address w a (some as') ne = ap some (words-append_address w a as' ne)

sole-All : (P : Text → Type 0) (l : List Text) (a : Text) → All P l → sole l ≡ some a → P a
sole-All P [] a h e = absurd (no e)
  where
    no : none ≡ some a → ⊥
    no p = cc
sole-All P (b ∷ []) a (h, _) e = subst P (inj e) h
  where
    inj : some b ≡ some a → b ≡ a
    inj p = cc
sole-All P (b ∷ c ∷ l) a h e = absurd (no e)
  where
    no : none ≡ some a → ⊥
    no p = cc

abbrev address_of : Option Search → Option Text
address_of none = none
address_of (some r) = some r.address

one_address :
    (l : List Text) (f : Text → Step)
    → (if length l == 1 then with_address (get_elem? l 0) f else none)
      ≡ (elim (sole l) [ none ↦ none | some a ↦ some (f a) ])
unfolding with_address
one_address [] f = refl
one_address (a ∷ []) f = refl
one_address (a ∷ b ∷ l) f = ground arith

-- The search behind a peer with the address `a`.
abbrev behind : Search → Text → Search
behind r a = record r { peer_index = suc r.peer_index; address = append_address r.address a }

visit_fan :
    (key : Text) (n : ℕ) (p : Peer) (r : Search)
    → r.is_1to1 ≡ false
    → p.single ≡ true
    → visit key false n p r
      ≡ (elim (sole p.addresses) [ none ↦ none | some a ↦ some (on (behind r a)) ])
unfolding visit meet next
visit_fan key n p r e s =
    ap
      (λ b.
        if b && not (my_index key p.neighbors == r.peer_index)
        then some (on (record r { peer_index = suc r.peer_index }))
        else meet n false p (my_index key p.neighbors) r)
      e
    ∙ rw s (one_address p.addresses (λ a. on (behind r a)))

visit-sole :
    (key : Text) (n : ℕ) (p : Peer) (r : Search) (o : Option Text)
    → r.is_1to1 ≡ false
    → p.single ≡ true
    → sole p.addresses ≡ o
    → visit key false n p r ≡ (elim o [ none ↦ none | some a ↦ some (on (behind r a)) ])
visit-sole key n p r o e s x = rw (visit_fan key n p r e s, x) refl

gathers :
    (key : Text) (n : ℕ) (ps : List Peer) (r : Search)
    → r.is_1to1 ≡ false
    → Single ps
    → address_of (visit_all key false n ps r) ≡ gathered r.address (soles ps)
unfolding visit_all soles
gathers key n [] r e h =
    ap some (
      sym (join-words r.address)
      ∙ ap (λ l. join l (codes ",")) (sym (append_nil (words r.address))))
gathers key n (p ∷ ps) r e ((s, ne), h) = elim (Option-cases (sole p.addresses)) [
  | inl x ↦ rw (visit-sole key n p r none e s x, visit_all) (rw (x, soles) refl)
  | inr (a, x) ↦
      rw (visit-sole key n p r (some a) e s x, visit_all)
        (rw (x, soles)
          (gathers key n ps (behind r a) e h
            ∙ gathered-append_address r.address a (soles ps)
                (sole-All (λ b. b ≢ []) p.addresses a ne x)))
]

-- A channel with several sockets, whose peers all have one socket at most and no empty address: if
-- each peer has just one address, it is given these in the order of the peers, joined by commas,
-- behind the address that it came with, if that is not empty; otherwise an assert ends the process.
pub resolve_fan_in :
    (key start : Text) (peers : List Peer)
    → Single peers
    → resolve key false start peers ≡ gathered start (soles peers)
unfolding resolve
resolve_fan_in key start peers h =
    resolve_lem
    ∙ gathers key (length peers) peers (record { peer_index = 0; is_1to1 = false; address = start })
        refl h
  where
    resolve_lem :
        resolve key false start peers
        ≡ address_of (
            visit_all key false
              (length peers)
              peers
              (record { peer_index = 0; is_1to1 = false; address = start }))
    resolve_lem =
        elim (Option-cases (
          visit_all key false (length peers) peers
            (record { peer_index = 0; is_1to1 = false; address = start }))) [
              | inl x ↦ rw (x, resolve) refl
              | inr (r, x) ↦ rw (x, resolve) refl
            ]
