-- ===== src/Device/Sequences.antt =====
-- Plugin::RunStartupSequence and Plugin::RunShutdownSequence (plugins/DaqServicePlugin.cxx).
pub mod Startup
pub mod Shutdown
use nestdaq.Base.{
  ℕ, zero, suc, Bool, true, false, List, [], ◌∷◌, ◌++◌, Option, none, some, ◌||◌, if◌then◌else◌,
}
use nestdaq.Text.{Text, codes, text_eq, to_lower}
use nestdaq.Device.Constants.{
  DeviceState, idle, initializing_device, initialized, bound, device_ready, ready, running, error,
  exiting, DeviceStateTransition, Command,
}
use nestdaq.Device.Engine.{Engine}
use nestdaq.Device.Single.{Control, stop_time, ◌>>=◌}
use nestdaq.Device.Multi.{run_all}

-- The calls up to the `return` that the (lower-cased) startup state picks.
startup_plan : Text → List Command
startup_plan s =
    if text_eq s (codes "idle")
    then []
    else Command.init_device
      ∷ (if text_eq s (codes "initialingdevice") || text_eq s (codes "initializing-device")
          then []
          else Command.complete_init
            ∷ (if text_eq s (codes "initialized")
                then []
                else Command.bind
                  ∷ (if text_eq s (codes "bound")
                      then []
                      else Command.connect
                        ∷ (if text_eq s (codes "deviceready") || text_eq s (codes "device-ready")
                            then []
                            else Command.init_task
                              ∷ (if text_eq s (codes "ready") then [] else Command.run ∷ [])))))

-- what one round of the loop asks of the device
abbrev asked : DeviceState → Option DeviceStateTransition
asked idle = some DeviceStateTransition.end
asked initializing_device = some DeviceStateTransition.complete_init
asked initialized = some DeviceStateTransition.reset_device
asked bound = some DeviceStateTransition.reset_device
asked device_ready = some DeviceStateTransition.reset_device
asked ready = some DeviceStateTransition.reset_task
asked running = some DeviceStateTransition.stop
asked _ = none

-- the condition of the loop
abbrev is_last : DeviceState → Bool
is_last exiting = true
is_last error = true
is_last _ = false

abbrev pub is_running : DeviceState → Bool
is_running running = true
is_running _ = false

abbrev is_error : DeviceState → Bool
is_error error = true
is_error _ = false

module _ (E : Engine) where
  pub run_startup_sequence : ℕ → Text → Control E → Option (Control E)
  unfolding startup_plan text_eq to_lower
  run_startup_sequence fuel startup_state = run_all E fuel (startup_plan (to_lower startup_state))

  abbrev ask : Option DeviceStateTransition → E.Device → E.Device
  ask none d = d
  ask (some t) d = E.change t d

  -- the body of the `switch` in the loop
  round : DeviceState → Control E → Control E
  round s c = record c {
    device = ask (asked s) c.device;
    marks = if is_running s then c.marks ++ (stop_time ∷ []) else c.marks;
  }

  shutdown_loop : ℕ → DeviceState → Control E → Option (Control E)
  unfolding round
  shutdown_loop zero s c = none
  shutdown_loop (suc fuel) s c = elim (is_last s) [
    | true ↦ some c
    | false ↦ do
      (s', d) ← E.next (round s c).device
      shutdown_loop fuel s' (record (round s c) { device = d })
  ]

  pub run_shutdown_sequence : ℕ → Control E → Option (Control E)
  unfolding shutdown_loop
  run_shutdown_sequence fuel c = do
    let s = E.current c.device
    let c₁ = if is_error s then c else record c { device = E.clear c.device }
    c₂ ← shutdown_loop fuel s c₁
    some (record c₂ { device = E.release c₂.device })
