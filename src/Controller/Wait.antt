-- ===== src/Controller/Wait.antt =====
-- The two functions Wait of controller/WebGui.cxx. The registry changes while they poll: what they see
-- is a list of stores, one for each round.
pub mod Ends
use nestdaq.Base.{Bool, true, false, List, [], ◌∷◌, ◌++◌, Option, none, some, if◌then◌else◌}
use nestdaq.Text.{Text, codes, text_eq, contains, join}
use nestdaq.Device.Constants.{DeviceState, device_ready, ready, running}
use nestdaq.Redis.{Redis}
use nestdaq.Service.Instance.{top_prefix, values}

-- FairMQStatePrefix of plugins/Constants.h
abbrev pub fair_mq_state_prefix : Text
fair_mq_state_prefix = codes "fair-mq-state"

-- waitDeviceReadyTargets and waitReadyTargets; GetStateName is FairMQ's.
module _ (get_state_name : DeviceState → Text) where
  abbrev pub wait_device_ready_targets : List Text
  wait_device_ready_targets =
      get_state_name device_ready ∷ get_state_name ready ∷ get_state_name running ∷ []

  abbrev pub wait_ready_targets : List Text
  wait_ready_targets = get_state_name ready ∷ get_state_name running ∷ []

-- std::unordered_set::merge
unfoldable pub merge : List Text → List Text → List Text
merge keys [] = keys
merge keys (k ∷ ks) = merge (if contains keys k then keys else keys ++ (k ∷ [])) ks

-- std::all_of with one target, and the loop over the targets
unfoldable pub all_are : Text → List Text → Bool
all_are w [] = true
all_are w (x ∷ xs) = let rest = all_are w xs in if text_eq x w then rest else false

unfoldable pub reached : List Text → List Text → Bool
unfolding all_are
reached [] states = false
reached (w ∷ ws) states = let rest = reached ws states in if all_are w states then true else rest

module _ (R : Redis) (separator : Text) where
  unfoldable pub state_keys : R.Store → List Text → List Text → List Text
  unfolding merge
  state_keys s found [] = found
  state_keys s found (k ∷ ks) =
      state_keys s
        (merge found (R.scan (join (top_prefix ∷ k ∷ fair_mq_state_prefix ∷ []) separator) s)) ks

  -- `none` if the last round still waits; else the rounds that are left.
  pub wait_keys : List Text → List Text → List R.Store → Option (List R.Store)
  unfolding state_keys reached values
  wait_keys keys targets [] = none
  wait_keys keys targets (s ∷ rounds) = elim (state_keys s [] keys) [
    | [] ↦ some rounds
    | k ∷ ks ↦ elim (reached targets (values R (k ∷ ks) s)) [
      | true ↦ some rounds
      | false ↦ wait_keys keys targets rounds
    ]
  ]

  -- the loop over the services
  wait_services : List Text → List Text → List R.Store → Option (List R.Store)
  unfolding wait_keys
  wait_services [] targets rounds = some rounds
  wait_services (x ∷ xs) targets rounds =
      elim (wait_keys (join (x ∷ codes "*" ∷ []) separator ∷ []) targets rounds) [
        | none ↦ none
        | some rest ↦ wait_services xs targets rest
      ]

  pub wait : List Text → List Text → List Text → List R.Store → Option (List R.Store)
  unfolding wait_services
  wait services instances targets rounds =
      if contains services (codes "all")
      then wait_keys (join (codes "*" ∷ codes "*" ∷ []) separator ∷ []) targets rounds
      else if contains instances (codes "all")
      then wait_services services targets rounds
      else wait_keys instances targets rounds
