-- ===== src/Device/Sequences/Startup.antt =====
-- RunStartupSequence (plugins/DaqServicePlugin.cxx) for the words of its option.
use nestdaq.Base.{ℕ, ◌≤◌, ◌≡◌, refl, subst, Bool, false, List, [], ◌∷◌, arith}
use nestdaq.Text.{Text, codes, text_eq, to_lower, contains}
use nestdaq.Device.Constants.{DeviceState, idle, running, Command}
use nestdaq.Device.Engine.{Engine, Documented}
use nestdaq.Device.Single.{Control, Mark}
use nestdaq.Device.Abstract.{View, Arrives, Shows, obey_all}
use nestdaq.Device.Multi.Goals.{run_all-Arrives, crossing, view}
use nestdaq.Device.Abstract.{with_stamp}
use nestdaq.Device.Sequences.{startup_plan, run_startup_sequence}

-- The startup states that the help text of the option lists.
pub data StartupState : Type 0 where
  at_idle at_initializing_device at_initialized at_bound at_device_ready at_ready at_running :
      StartupState

abbrev pub option_word : StartupState → Text
option_word at_idle = codes "idle"
option_word at_initializing_device = codes "initializing-device"
option_word at_initialized = codes "initialized"
option_word at_bound = codes "bound"
option_word at_device_ready = codes "device-ready"
option_word at_ready = codes "ready"
option_word at_running = codes "running"

abbrev pub meant : StartupState → DeviceState
meant at_idle = idle
meant at_initializing_device = DeviceState.initializing_device
meant at_initialized = DeviceState.initialized
meant at_bound = DeviceState.bound
meant at_device_ready = DeviceState.device_ready
meant at_ready = DeviceState.ready
meant at_running = DeviceState.running

abbrev pub started : DeviceState → View → View
started s v = record v { state = s; marks = with_stamp (crossing v.state s) v.marks }

module _ (b d : Bool) (ms : List Mark) where
  plan_meant :
      (n : StartupState)
      → obey_all (startup_plan (option_word n)) (view b d ms idle)
        ≡ started (meant n) (view b d ms idle)
  unfolding startup_plan text_eq
  plan_meant at_idle = refl
  plan_meant _ = refl

-- Every word that the sequence compares with.
abbrev pub accepted : List Text
accepted =
    codes "idle"
    ∷ codes "initialingdevice"
    ∷ codes "initializing-device"
    ∷ codes "initialized"
    ∷ codes "bound"
    ∷ codes "deviceready"
    ∷ codes "device-ready"
    ∷ codes "ready"
    ∷ []

all_commands : List Command
all_commands =
    Command.init_device ∷ Command.complete_init ∷ Command.bind ∷ Command.connect ∷ Command.init_task
    ∷ Command.run ∷ []

startup_plan-other : (s : Text) → contains accepted s ≡ false → startup_plan s ≡ all_commands
unfolding startup_plan contains all_commands
startup_plan-other s h = ground arith

module _ {E : Engine} (L : Documented E) (fuel : ℕ) (enough : 2 ≤ fuel) where
  module _ (s : Text) (c : Control E) (b d : Bool) (ms : List Mark) where
    -- With a fuel of two or more for each wait, a startup state that the help text lists, in any
    -- letter case, is where the sequence leaves a device that rested in Idle, with the start time
    -- written for Running alone.
    pub run_startup_sequence-Arrives :
        (n : StartupState)
        → to_lower s ≡ option_word n
        → Shows L c (view b d ms idle)
        → Arrives L (run_startup_sequence E fuel s c) (started (meant n) (view b d ms idle))
    unfolding run_startup_sequence
    run_startup_sequence-Arrives n e sh =
        subst (Arrives L (run_startup_sequence E fuel s c)) (plan_meant b d ms n)
          (rw e (run_all-Arrives L fuel (startup_plan (option_word n)) c _ enough sh))

    -- With a fuel of two or more for each wait, a word that the sequence does not compare with leaves
    -- a device that rested in Idle in Running.
    run_startup_sequence-other :
        contains accepted (to_lower s) ≡ false
        → Shows L c (view b d ms idle)
        → Arrives L (run_startup_sequence E fuel s c) (started running (view b d ms idle))
    unfolding run_startup_sequence all_commands
    run_startup_sequence-other o sh =
        rw (startup_plan-other (to_lower s) o) (run_all-Arrives L fuel all_commands c _ enough sh)
