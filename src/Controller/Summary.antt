-- ===== src/Controller/Summary.antt =====
-- One round of PollState of controller/WebGui.cxx and the flags of SendStateSummary. A state is counted
-- at the number that FairMQ's GetState gives it; GetState and the number of the states are parameters.
pub mod Counts
pub mod Changes
pub mod Instances
pub mod Stored
pub mod Polled
use nestdaq.Base.{
  ℕ, zero, suc, Bool, true, false, not, ◌||◌, List, [], ◌∷◌, ◌++◌, Option, none, some, leb, ◌==◌,
  length, take, if◌then◌else◌,
}
use nestdaq.Text.{Text, codes, text_eq, contains, join}
use nestdaq.Text.Search.{text_lt}
use nestdaq.Text.Split.{Algorithm}
use nestdaq.Text.Table.{Table, find, alter, keys}
use nestdaq.Redis.{Redis}
use nestdaq.Service.Instance.{top_prefix}
use nestdaq.Controller.Wait.{fair_mq_state_prefix}

-- UpdateTimePrefix of plugins/Constants.h
abbrev pub update_time_prefix : Text
update_time_prefix = codes "updatedTime"

pub record InstanceState : Type 0 where
  pub state : Text
  pub date : Text

pub record ServiceState : Type 0 where
  pub instances : Table InstanceState
  pub counts : List ℕ
  pub date : Text

-- What operator[] makes of a missing key.
abbrev pub no_instance : InstanceState
no_instance = record { state = []; date = [] }

abbrev pub no_service : ServiceState
no_service = record { instances = []; counts = []; date = [] }

abbrev pub with_state : Text → InstanceState → InstanceState
with_state v inst = record inst { state = v }

abbrev pub with_date : Text → InstanceState → InstanceState
with_date v inst = record inst { date = v }

abbrev pub in_service : Text → (InstanceState → InstanceState) → ServiceState → ServiceState
in_service inst_name f ss = record ss { instances = alter inst_name no_instance f ss.instances }

-- res[1] and res[2]
unfoldable pub names_of : List Text → Option (Text × Text)
names_of (_ ∷ service_name ∷ inst_name ∷ _) = some (service_name, inst_name)
names_of _ = none

-- std::vector::resize with the value 0
unfoldable pub zeros : ℕ → List ℕ
zeros zero = []
zeros (suc n) = 0 ∷ zeros n

unfoldable pub resize : ℕ → List ℕ → List ℕ
unfolding zeros
resize n counts = take n (counts ++ zeros n)

-- ++counts[i]
unfoldable pub bump : ℕ → List ℕ → List ℕ
bump i [] = []
bump zero (c ∷ cs) = suc c ∷ cs
bump (suc i) (c ∷ cs) = c ∷ bump i cs

-- the date of a service is the latest of its instances
unfoldable pub later : Text → Text → Text
later date new =
    if text_eq new [] then date else if text_eq date [] || text_lt date new then new else date

module _ (state_id : Text → Option ℕ) (n_states : ℕ) where
  -- One instance; `none` is the exception of GetState.
  unfoldable pub count_one : InstanceState → List ℕ × Text → Option (List ℕ × Text)
  unfolding bump later
  count_one inst (counts, date) =
      if text_eq inst.state []
      then some (counts, later date inst.date)
      else elim (state_id inst.state) [
        | none ↦ none
        | some i ↦
            if leb n_states i
            then some (counts, date)
            else some (bump i counts, later date inst.date)
      ]

  unfoldable pub count_all : Table InstanceState → List ℕ × Text → Option (List ℕ × Text)
  unfolding count_one
  count_all [] acc = some acc
  count_all ((_, inst) ∷ t) acc = elim (count_one inst acc) [
    | none ↦ none
    | some acc' ↦ count_all t acc'
  ]

  -- the loop over the services
  unfoldable pub summarize : Table ServiceState → Option (Table ServiceState)
  unfolding count_all resize
  summarize [] = some []
  summarize ((name, ss) ∷ t) = elim (count_all ss.instances (resize n_states ss.counts, ss.date)) [
    | none ↦ none
    | some (counts, date) ↦ elim (summarize t) [
      | none ↦ none
      | some t' ↦ some ((name, record ss { counts = counts; date = date }) ∷ t')
    ]
  ]

module _ (R : Redis) (A : Algorithm) (separator : Text) where
  -- The loop over the state keys, with GetStateName(Undefined) for a value that is gone; `none` is a
  -- read behind the end of `res`.
  unfoldable pub fill_states :
      Text → List Text → R.Store → Table ServiceState → Option (Table ServiceState)
  unfolding names_of
  fill_states undefined [] s table = some table
  fill_states undefined (k ∷ ks) s table = elim (names_of (A.split k separator)) [
    | none ↦ none
    | some (service_name, inst_name) ↦
        let v : Text = elim (R.get k s) [ none ↦ undefined | some w ↦ w ] in
        fill_states undefined ks s
          (alter service_name no_service (in_service inst_name (with_state v)) table)
  ]

  -- One update time, of an instance that the table has.
  unfoldable pub fill_date : Option Text → Text → Text → Table ServiceState → Table ServiceState
  fill_date value service_name inst_name table = elim (find service_name table) [
    | none ↦ table
    | some ss ↦ elim (find inst_name ss.instances) [
      | none ↦ table
      | some _ ↦ elim value [
        | none ↦ table
        | some v ↦ alter service_name no_service (in_service inst_name (with_date v)) table
      ]
    ]
  ]

  unfoldable pub fill_dates : List Text → R.Store → Table ServiceState → Option (Table ServiceState)
  unfolding names_of fill_date
  fill_dates [] s table = some table
  fill_dates (k ∷ ks) s table = elim (names_of (A.split k separator)) [
    | none ↦ none
    | some (service_name, inst_name) ↦
        fill_dates ks s (fill_date (R.get k s) service_name inst_name table)
  ]

  abbrev pub keys_for : Text → R.Store → List Text
  keys_for prefix s = R.scan (join (top_prefix ∷ codes "*" ∷ codes "*" ∷ prefix ∷ []) separator) s

  module _ (state_id : Text → Option ℕ) (n_states : ℕ) (undefined : Text) where
    -- The table of one round.
    unfoldable pub poll_state : R.Store → Option (Table ServiceState)
    unfolding fill_states fill_dates summarize
    poll_state s = elim (keys_for fair_mq_state_prefix s) [
      | [] ↦ some []
      | k ∷ ks ↦ elim (fill_states undefined (k ∷ ks) s []) [
        | none ↦ none
        | some table ↦ elim (fill_dates (keys_for update_time_prefix s) s table) [
          | none ↦ none
          | some table' ↦ summarize state_id n_states table'
        ]
      ]
    ]

-- serviceListChanged and instanceListChanged
pub record Changed : Type 0 where
  pub service_list_changed : Bool
  pub instance_list_changed : Bool

-- a key of the second list that the first one lacks
unfoldable pub lacks : List Text → List Text → Bool
lacks old [] = false
lacks old (k ∷ ks) = let rest = lacks old ks in if contains old k then rest else true

-- The instances of one service: their number, then their names. A service that the old table does
-- not have is made by operator[].
unfoldable pub instances_changed : Option ServiceState → ServiceState → Bool
unfolding lacks
instances_changed none ss = not (length ss.instances == 0)
instances_changed (some old) ss =
    if length old.instances == length ss.instances
    then lacks (keys old.instances) (keys ss.instances)
    else true

unfoldable pub some_changed : Table ServiceState → Table ServiceState → Bool
unfolding instances_changed
some_changed prev [] = false
some_changed prev ((k, ss) ∷ t) =
    let rest = some_changed prev t in if instances_changed (find k prev) ss then true else rest

unfoldable pub changes : Table ServiceState → Table ServiceState → Changed
unfolding some_changed
changes prev table =
    if length prev == length table
    then if lacks (keys prev) (keys table)
      then record { service_list_changed = true; instance_list_changed = true }
      else record { service_list_changed = false; instance_list_changed = some_changed prev table }
    else record { service_list_changed = true; instance_list_changed = true }
