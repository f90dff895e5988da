-- ===== src/Controller/Publish.antt =====
-- RedisPublishDaqCommand of controller/WebGui.cxx. What the controller does is a row of actions; each
-- acts on the world outside, in which the waits see a list of stores, one for each round.
pub mod Orders
pub mod Delivery
use nestdaq.Base.{ℕ, Bool, true, false, List, [], ◌∷◌, ◌++◌, Option, none, some, if◌then◌else◌}
use nestdaq.Text.{Text, codes, text_eq, to_lower, contains, is_true}
use nestdaq.Redis.{Redis}
use nestdaq.Device.Constants.{DeviceState, Command, word}
use nestdaq.Device.Message.{Json}
use nestdaq.Controller.RunNumber.{Gui, run_info_key, copy_latest_run_number}
use nestdaq.Controller.Wait.{wait_device_ready_targets, wait_ready_targets, wait}

-- knownCommandList
abbrev pub known_command_list : List Text
known_command_list =
    word Command.bind
    ∷ word Command.complete_init
    ∷ word Command.connect
    ∷ word Command.end
    ∷ word Command.init_device
    ∷ word Command.init_task
    ∷ word Command.reset_device
    ∷ word Command.reset_task
    ∷ word Command.run
    ∷ word Command.stop
    ∷ word Command.exit
    ∷ word Command.quit
    ∷ word Command.reset
    ∷ word Command.start
    ∷ []

-- fPreRunCommand, fPostRunCommand, fPreStopCommand and fPostStopCommand
pub data Script : Type 0 where
  pre_run post_run pre_stop post_stop : Script

pub data Action : Type 0 where
  publish : Text → Action
  wait_device_ready wait_ready : Action
  system : Script → Action

-- waitDeviceReadyFlag and waitReadyFlag
pub record Flags : Type 0 where
  pub device_ready : Bool
  pub ready : Bool

-- boost::iequals
iequals : Text → Text → Bool
iequals s t = text_eq (to_lower s) (to_lower t)

when : Bool → List Action → List Action
when true actions = actions
when false actions = []

-- the branches on the command
pub actions : Flags → Text → List Action
unfolding iequals when
actions f v =
    if iequals v (word Command.connect)
    then publish (word Command.connect) ∷ when f.device_ready (wait_device_ready ∷ [])
    else if iequals v (word Command.init_task)
    then when f.device_ready (publish (word Command.connect) ∷ wait_device_ready ∷ [])
      ++ (publish (word Command.init_task) ∷ when f.ready (wait_ready ∷ []))
    else if iequals v (word Command.run)
    then when f.device_ready (publish (word Command.connect) ∷ wait_device_ready ∷ [])
      ++ (when f.ready (publish (word Command.init_task) ∷ wait_ready ∷ [])
          ++ (system pre_run ∷ publish (word Command.run) ∷ system post_run ∷ []))
    else if iequals v (word Command.stop)
    then system pre_stop ∷ publish (word Command.stop) ∷ system post_stop ∷ []
    else publish v ∷ []

-- The message that toMessage makes.
pub record Order : Type 0 where
  pub value : Text
  pub services : List Text
  pub instances : List Text

module _ (R : Redis) where
  pub record World : Type 0 where
    pub gui : Gui R
    pub rounds : List R.Store
    pub published : List Order

  -- An action is done, throws, or waits in the last round still.
  pub data Did : Type 0 where
    done : World → Did
    threw : World → Did
    waiting : Did

  -- What the handler cannot do itself: FairMQ's names of states, and boost::process::system, which
  -- throws for a command that cannot be started.
  module _ (get_state_name : DeviceState → Text) (starts : Script → Bool) (separator : Text) where
    waited : World → Option (List R.Store) → Did
    waited w none = waiting
    waited w (some rest) = done (record w { rounds = rest })

    module _ (services instances : List Text) where
      perform : Action → World → Did
      unfolding waited
      perform (publish v) w = done (record w {
        published =
            w.published ++ (record { value = v; services = services; instances = instances } ∷ []);
      })
      perform wait_device_ready w =
          waited w (
            wait R separator services instances (wait_device_ready_targets get_state_name) w.rounds)
      perform wait_ready w =
          waited w
            (wait R separator services instances (wait_ready_targets get_state_name) w.rounds)
      perform (system x) w = if starts x then done w else threw w

      pub perform_all : List Action → World → Did
      unfolding perform
      perform_all [] w = done w
      perform_all (a ∷ as') w = elim (perform a w) [
        | done w' ↦ perform_all as' w'
        | threw w' ↦ threw w'
        | waiting ↦ waiting
      ]

    -- isWaitFlagSet
    pub is_wait_flag_set : Text → R.Store → Bool
    is_wait_flag_set name s = elim (R.get (run_info_key separator name) s) [
      | none ↦ false
      | some w ↦ is_true w
    ]

    -- the handlers of the exceptions
    caught : Did → Did
    caught (done w) = done w
    caught (threw w) = done w
    caught waiting = waiting

    module _ (J : Json) (arg : J.Tree) where
      -- the block in `try`
      guarded : Text → World → Did
      unfolding perform_all is_wait_flag_set
      guarded v w =
          let flags : Flags = record {
            device_ready = is_wait_flag_set (codes "wait-device-ready") w.gui.store;
            ready = is_wait_flag_set (codes "wait-ready") w.gui.store;
          } in
          elim (J.texts (codes "services") arg) [
            | none ↦ threw w
            | some services ↦ elim (J.texts (codes "instances") arg) [
              | none ↦ threw w
              | some instances ↦ perform_all services instances (actions flags v) w
            ]
          ]

      pub copied : ℕ → Text → World → World
      copied connid v w =
          if text_eq v (word Command.run)
          then record w { gui = copy_latest_run_number R separator connid w.gui }
          else w

      pub redis_publish_daq_command : ℕ → World → Did
      unfolding guarded copied caught
      redis_publish_daq_command connid w = elim (J.text (codes "value") arg) [
        | none ↦ done w
        | some v ↦
            if contains known_command_list v
            then caught (guarded v (copied connid v w))
            else done (copied connid v w)
      ]
