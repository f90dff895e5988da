-- ===== src/Parameters/Change.antt =====
-- The constructor of plugins/ParameterConfigPlugin.cxx and SubscribeToParameterChange. The registry
-- that a message finds is part of the event.
pub mod Follows
use nestdaq.Base.{Bool, true, false, ◌||◌, List, [], ◌∷◌, ◌++◌, Option, none, some, if◌then◌else◌}
use nestdaq.Text.{Text, codes, text_eq}
use nestdaq.Text.Search.{npos, size_suc, find_last_of, substr}
use nestdaq.Text.Split.{Algorithm}
use nestdaq.Redis.{Redis}
use nestdaq.Parameters.Property.{Floating, Host}
use nestdaq.Parameters.Read.{Names, Looked, found, missing, wrong, look_for, read_parameters}

-- RedisKeySpacePrefix with the number of the database, and a key
abbrev pub notification_channel : Text → Text → Text
notification_channel db_number key = codes "__keyspace@" ++ (db_number ++ (codes "__:" ++ key))

abbrev pub server_uri : Text
server_uri = codes "parameter-config-uri"

abbrev pub service_registry_uri : Text
service_registry_uri = codes "registry-uri"

-- fId, fSeparator, fKey and fGroupKey before ReadParameters
abbrev pub no_names : Names
no_names = record { id = []; separator = []; key = []; group_key = [] }

module _ (R : Redis) (F : Floating) (H : Host F R.Score) (A : Algorithm) where
  -- What consume() meets: a message on a channel, a timeout, another error, or the shutdown of the
  -- device, which sets fPluginShutdownRequested.
  pub data Event : Type 0 where
    message : Text → R.Store → Event
    timeout : Event
    failure : Event
    shutdown : Event

  -- How the subscriber ends: after the loop, by an exception of the callback, which ends the loop
  -- too, or on a client that is not there. The constructor may throw before.
  pub data Ended : Type 0 where
    ended : Names → H.State → Ended
    broken : Ended
    no_client : Ended
    threw : Ended

  module _ (own group : Text) where
    unfoldable pub consume_all : List Event → Names → H.State → Ended
    consume_all [] n st = ended n st
    consume_all (message channel s ∷ es) n st =
        let same = consume_all es n st in
        if text_eq channel own || text_eq channel group
        then elim (read_parameters R F H A n s st) [
          | none ↦ broken
          | some (n', st') ↦ consume_all es n' st'
        ]
        else same
    consume_all (timeout ∷ es) n st = consume_all es n st
    consume_all (failure ∷ es) n st = ended n st
    consume_all (shutdown ∷ es) n st = ended n st

  -- An exception before the loop ends the thread.
  unfoldable pub subscribe_to_parameter_change : List Event → Names → H.State → Ended
  unfolding consume_all look_for
  subscribe_to_parameter_change es n st = elim (look_for R F H A [] server_uri st) [
    | found uri ↦ elim (substr uri (size_suc (find_last_of uri (codes "/") npos)) npos) [
      | none ↦ ended n st
      | some db_number ↦
          consume_all (notification_channel db_number n.key)
            (notification_channel db_number n.group_key) es n st
    ]
    | _ ↦ ended n st
  ]

  -- fClient: whether there is one; `none` is the exception of a property of another type.
  unfoldable pub has_client : H.State → Option Bool
  unfolding look_for text_eq
  has_client st = elim (look_for R F H A [] server_uri st) [
    | found uri ↦ some (if text_eq uri [] then false else true)
    | wrong ↦ none
    | missing ↦ elim (look_for R F H A [] service_registry_uri st) [
      | found uri ↦ some (if text_eq uri [] then false else true)
      | wrong ↦ none
      | missing ↦ some false
    ]
  ]

  -- The constructor and the thread that it starts.
  unfoldable pub construct : R.Store → List Event → H.State → Ended
  unfolding has_client subscribe_to_parameter_change
  construct s es st = elim (has_client st) [
    | none ↦ threw
    | some false ↦ no_client
    | some true ↦ elim (read_parameters R F H A no_names s st) [
      | none ↦ threw
      | some (n, st') ↦ subscribe_to_parameter_change es n st'
    ]
  ]
