-- ===== src/Topology/Resolve.antt =====
-- The loop of TopologyConfig::ResolveConnectAddress (plugins/TopologyConfig.cxx) over the peers of one
-- channel, on what the registry holds for each peer. The asserts are on, as in a build with no build
-- type: NDEBUG is set for Release builds only (cmake/common.cmake).
pub mod Pairing
pub mod FanIn
use nestdaq.Base.{
  ℕ, suc, Bool, true, false, not, ◌&&◌, ◌||◌, List, [], ◌∷◌, ◌++◌, Option, none, some, ◌==◌, length,
  get_elem?, ltb, if◌then◌else◌,
}
use nestdaq.Text.{Text, codes, text_eq}

-- A peer: its list of neighbours, whether it has one socket at most, and the addresses that
-- ReadPeerAddress finds for it.
pub record Peer : Type 0 where
  pub neighbors : List Text
  pub single : Bool
  pub addresses : List Text

-- The index of the own channel in the view of the peer; the number of neighbours if it is not there.
unfoldable pub my_index : Text → List Text → ℕ
my_index mine [] = 0
my_index mine (n ∷ ns) = let rest = my_index mine ns in if text_eq n mine then 0 else suc rest

-- += with a comma in between
append_address : Text → Text → Text
append_address [] a = a
append_address (c ∷ t) a = (c ∷ t) ++ (b',' ∷ a)

-- What the loop keeps: peerIndex, is1to1 and res.address.
pub record Search : Type 0 where
  pub peer_index : ℕ
  pub is_1to1 : Bool
  pub address : Text

-- The loop goes on, or breaks.
pub data Step : Type 0 where
  on : Search → Step
  break : Search → Step

with_address : Option Text → (Text → Step) → Option Step
with_address none f = none
with_address (some a) f = some (f a)

next : Search → Text → Step
next r a = on (record r { peer_index = suc r.peer_index; address = a })

-- What the numbers of sockets ask for; `none` is a failed assert, or a read behind the end of the
-- addresses.
meet : ℕ → Bool → Peer → ℕ → Search → Option Step
unfolding with_address next append_address
meet n true p mine r =
    if p.single
    then (if (mine == r.peer_index) || (n == 1)
        then with_address (get_elem? p.addresses 0)
            (λ a. break (record r { is_1to1 = true; address = a }))
        else some (on (record r { is_1to1 = true; peer_index = suc r.peer_index })))
    else with_address (get_elem? p.addresses mine) (next r)
meet n false p mine r =
    if p.single
    then (if length p.addresses == 1
        then with_address (get_elem? p.addresses 0) (λ a. next r (append_address r.address a))
        else none)
    else if ltb mine (length p.addresses)
    then with_address (get_elem? p.addresses mine) (λ a. next r (append_address r.address a))
    else none

-- One round, for a channel with the key `key`, one socket at most or more, and `n` peers.
visit : Text → Bool → ℕ → Peer → Search → Option Step
unfolding meet my_index
visit key single n p r =
    let mine = my_index key p.neighbors in
    if r.is_1to1 && not (mine == r.peer_index)
    then some (on (record r { peer_index = suc r.peer_index }))
    else meet n single p mine r

pub visit_all : Text → Bool → ℕ → List Peer → Search → Option Search
unfolding visit
visit_all key single n [] r = some r
visit_all key single n (p ∷ ps) r = elim (visit key single n p r) [
  | none ↦ none
  | some (on r') ↦ visit_all key single n ps r'
  | some (break r') ↦ some r'
]

-- The address that the channel ends up with; it comes in as it was, empty or "unspecified".
pub resolve : Text → Bool → Text → List Peer → Option Text
unfolding visit_all
resolve key single address peers =
    elim (visit_all key single (length peers) peers
      (record { peer_index = 0; is_1to1 = false; address = address })) [
        | none ↦ none
        | some r ↦ some r.address
      ]
