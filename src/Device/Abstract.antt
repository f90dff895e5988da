-- ===== src/Device/Abstract.antt =====
-- The state diagram that the commands of plugins/DaqServicePlugin.cxx are meant to walk, without
-- the queue of state changes: one command is one step on a `View`.
use nestdaq.Base.{Bool, true, false, List, [], ◌∷◌, ◌++◌, Option, none, some, ◌≡◌, if◌then◌else◌}
use nestdaq.Device.Constants.{
  DeviceState, idle, initializing_device, initialized, bound, connecting, device_ready, ready,
  running, Command,
}
use nestdaq.Device.Engine.{Engine, Documented}
use nestdaq.Device.Single.{Control, Mark, start_time, stop_time}

pub record View : Type 0 where
  pub state : DeviceState
  pub reset_device_requested : Bool
  pub plugin_shutdown_requested : Bool
  pub marks : List Mark

-- Where the device rests after one command.
abbrev pub target : DeviceState → Command → DeviceState
target idle Command.init_device = initializing_device
target initializing_device Command.complete_init = initialized
target initialized Command.bind = bound
target initialized Command.reset_device = idle
target bound Command.connect = device_ready
target bound Command.reset_device = idle
target device_ready Command.init_task = ready
target device_ready Command.reset_device = idle
target ready Command.run = running
target ready Command.reset_task = device_ready
target running Command.stop = ready
target s _ = s

-- The commands that raise the flag which cancels waiting.
abbrev pub cancels : DeviceState → Command → Bool
cancels initialized Command.reset_device = true
cancels bound Command.reset_device = true
cancels connecting Command.reset_device = true
cancels device_ready Command.reset_device = true
cancels _ _ = false

-- The run times that are written.
abbrev pub stamp : DeviceState → Command → Option Mark
stamp ready Command.run = some start_time
stamp running Command.stop = some stop_time
stamp _ _ = none

abbrev pub with_stamp : Option Mark → List Mark → List Mark
with_stamp none ms = ms
with_stamp (some m) ms = ms ++ (m ∷ [])

abbrev pub obey : Command → View → View
obey k v = record {
  state = target v.state k;
  reset_device_requested = if cancels v.state k then true else v.reset_device_requested;
  plugin_shutdown_requested = v.plugin_shutdown_requested;
  marks = with_stamp (stamp v.state k) v.marks;
}

abbrev pub obey_all : List Command → View → View
obey_all [] v = v
obey_all (k ∷ ks) v = obey_all ks (obey k v)

module _ {E : Engine} (L : Documented E) where
  -- The plugin's control state shows this view, the device at rest.
  abbrev pub Shows : Control E → View → Type 0
  Shows c v =
      L.Settled c.device v.state
      × (c.reset_device_requested ≡ v.reset_device_requested)
      × (c.plugin_shutdown_requested ≡ v.plugin_shutdown_requested)
      × (c.marks ≡ v.marks)

  -- The call returns, and then shows this view.
  abbrev pub Arrives : Option (Control E) → View → Type 0
  Arrives r v = (c : Control E) × (r ≡ some c) × Shows c v
