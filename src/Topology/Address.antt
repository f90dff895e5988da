-- ===== src/Topology/Address.antt =====
-- MakeAddress (plugins/TopologyConfig.cxx).
pub mod Wildcard
pub mod Occurs
use nestdaq.Base.{
  Bool, true, false, ◌&&◌, ◌||◌, [], ◌∷◌, ◌++◌, Option, none, some, ◌==◌, if◌then◌else◌,
}
use nestdaq.Text.{Text, codes}
use nestdaq.Text.Search.{npos, find_last_of, substr}

-- find(pattern) == 0
unfoldable pub starts_with : Text → Text → Bool
starts_with [] t = true
starts_with (p ∷ ps) [] = false
starts_with (p ∷ ps) (c ∷ t) = let rest = starts_with ps t in (p == c) && rest

-- find(pattern) != npos
unfoldable pub occurs : Text → Text → Bool
unfolding starts_with
occurs p [] = starts_with p []
occurs p (c ∷ t) = let rest = occurs p t in if starts_with p (c ∷ t) then true else rest

-- `none` is std::out_of_range, of an address with no colon.
pub make_address : Text → Text → Option Text
unfolding starts_with occurs
make_address address peer_ip =
    if starts_with (codes "tcp://") address
      && (occurs (codes "*") address || occurs (codes "0.0.0.0") address)
    then elim (substr address 0 6) [
      | none ↦ none
      | some front ↦ elim (substr address (find_last_of address (codes ":") npos) npos) [
        | none ↦ none
        | some port ↦ some (front ++ (peer_ip ++ port))
      ]
    ]
    else some address
