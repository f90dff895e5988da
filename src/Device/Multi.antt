-- ===== src/Device/Multi.antt =====
-- Plugin::ChangeDeviceStateByMultiCommand (plugins/DaqServicePlugin.cxx). Each branch makes a row of
-- calls of ChangeDeviceStateBySingleCommand; the row is a list here, and one function runs it.
pub mod Goals
pub mod Rest
use nestdaq.Base.{ℕ, List, [], ◌∷◌, Option, some, ◌||◌, if◌then◌else◌}
use nestdaq.Text.{Text, text_eq}
use nestdaq.Device.Constants.{
  DeviceState, idle, initializing_device, initialized, bound, device_ready, ready, running, Command,
  word,
}
use nestdaq.Device.Engine.{Engine}
use nestdaq.Device.Single.{is, Control, change_by_single_command, ◌>>=◌}

-- case DeviceState of `idle`
plan_idle : Text → List Command
plan_idle cmd =
    if is cmd Command.init_device || is cmd Command.complete_init
    then Command.init_device ∷ Command.complete_init ∷ []
    else if is cmd Command.bind
    then Command.init_device ∷ Command.complete_init ∷ Command.bind ∷ []
    else if is cmd Command.connect
    then Command.init_device ∷ Command.complete_init ∷ Command.bind ∷ Command.connect ∷ []
    else if is cmd Command.init_task
    then Command.init_device ∷ Command.complete_init ∷ Command.bind ∷ Command.connect
      ∷ Command.init_task ∷ []
    else if is cmd Command.run || is cmd Command.start
    then Command.init_device ∷ Command.complete_init ∷ Command.bind ∷ Command.connect
      ∷ Command.init_task ∷ Command.run ∷ []
    else []

-- case DeviceState of `initializing_device`
plan_initializing_device : Text → List Command
plan_initializing_device cmd =
    if is cmd Command.complete_init
    then Command.complete_init ∷ []
    else if is cmd Command.bind
    then Command.complete_init ∷ Command.bind ∷ []
    else if is cmd Command.connect
    then Command.complete_init ∷ Command.bind ∷ Command.connect ∷ []
    else if is cmd Command.init_task
    then Command.complete_init ∷ Command.bind ∷ Command.connect ∷ Command.init_task ∷ []
    else if is cmd Command.run || is cmd Command.start
    then Command.complete_init ∷ Command.bind ∷ Command.connect ∷ Command.init_task ∷ Command.run
      ∷ []
    else []

-- case DeviceState of `initialized`
plan_initialized : Text → List Command
plan_initialized cmd =
    if is cmd Command.bind
    then Command.bind ∷ []
    else if is cmd Command.connect
    then Command.bind ∷ Command.connect ∷ []
    else if is cmd Command.init_task
    then Command.bind ∷ Command.connect ∷ Command.init_task ∷ []
    else if is cmd Command.run || is cmd Command.start
    then Command.bind ∷ Command.connect ∷ Command.init_task ∷ Command.run ∷ []
    else if is cmd Command.reset_device || is cmd Command.reset
    then Command.reset_device ∷ []
    else []

-- case DeviceState of `bound`
plan_bound : Text → List Command
plan_bound cmd =
    if is cmd Command.connect
    then Command.connect ∷ []
    else if is cmd Command.init_task
    then Command.connect ∷ Command.init_task ∷ []
    else if is cmd Command.run || is cmd Command.start
    then Command.connect ∷ Command.init_task ∷ Command.run ∷ []
    else if is cmd Command.reset_device || is cmd Command.reset
    then Command.reset_device ∷ []
    else []

-- case DeviceState of `device_ready`
plan_device_ready : Text → List Command
plan_device_ready cmd =
    if is cmd Command.init_task
    then Command.init_task ∷ []
    else if is cmd Command.run || is cmd Command.start
    then Command.init_task ∷ Command.run ∷ []
    else if is cmd Command.reset_device || is cmd Command.reset
    then Command.reset_device ∷ []
    else []

-- case DeviceState of `ready`
plan_ready : Text → List Command
plan_ready cmd =
    if is cmd Command.run || is cmd Command.start
    then Command.run ∷ []
    else if is cmd Command.reset_task
    then Command.reset_task ∷ []
    else if is cmd Command.reset_device || is cmd Command.reset
    then Command.reset_task ∷ Command.reset_device ∷ []
    else []

-- case DeviceState of `running`
plan_running : Text → List Command
plan_running cmd =
    if is cmd Command.stop
    then Command.stop ∷ []
    else if is cmd Command.reset_task
    then Command.stop ∷ Command.reset_task ∷ []
    else if is cmd Command.reset_device || is cmd Command.reset
    then Command.stop ∷ Command.reset_task ∷ Command.reset_device ∷ []
    else []

-- the `switch`
plan_in : DeviceState → Text → List Command
unfolding plan_idle plan_initializing_device plan_initialized plan_bound plan_device_ready
    plan_ready plan_running text_eq
plan_in idle = plan_idle
plan_in initializing_device = plan_initializing_device
plan_in initialized = plan_initialized
plan_in bound = plan_bound
plan_in device_ready = plan_device_ready
plan_in ready = plan_ready
plan_in running = plan_running
plan_in _ = λ cmd. []

module _ (E : Engine) where
  -- one call after another
  pub run_all : ℕ → List Command → Control E → Option (Control E)
  run_all fuel [] c = some c
  run_all fuel (k ∷ ks) c = change_by_single_command E fuel (word k) c >>= run_all fuel ks

  pub change_by_multi_command : ℕ → Text → Control E → Option (Control E)
  unfolding plan_in
  change_by_multi_command fuel cmd c = run_all fuel (plan_in (E.current c.device) cmd) c
