-- ===== src/Device/Engine.antt =====
-- What plugins/DaqServicePlugin.cxx calls of FairMQ to drive the device: GetCurrentDeviceState,
-- ChangeDeviceState, ReleaseDeviceControl and fair::mq::StateQueue. FairMQ is not part of the
-- repository, so it is a parameter, with the documented transitions as hypotheses.
use nestdaq.Base.{◌≡◌, List, [], ◌∷◌, Option, some}
use nestdaq.Device.Constants.{
  DeviceState, idle, initializing_device, initialized, binding, bound, connecting, device_ready,
  initializing_task, ready, running, resetting_task, resetting_device, exiting,
  DeviceStateTransition,
}

pub record Engine : Type 1 where
  pub Device : Type 0
  pub current : Device → DeviceState
  pub change : DeviceStateTransition → Device → Device
  -- fStateQueue.WaitForNext(); `none`: no further state ever comes, so that the call blocks.
  pub next : Device → Option (DeviceState × Device)
  pub clear : Device → Device
  pub release : Device → Device

-- The state diagram of a FairMQ device: the states that a transition passes through, in order,
-- and the one in which the device comes to rest.
pub data Edge : DeviceStateTransition → DeviceState → List DeviceState → DeviceState → Type 0 where
  init_device :
      Edge DeviceStateTransition.init_device idle (initializing_device ∷ []) initializing_device
  complete_init :
      Edge DeviceStateTransition.complete_init initializing_device (initialized ∷ []) initialized
  bind : Edge DeviceStateTransition.bind initialized (binding ∷ bound ∷ []) bound
  connect : Edge DeviceStateTransition.connect bound (connecting ∷ device_ready ∷ []) device_ready
  init_task :
      Edge DeviceStateTransition.init_task device_ready (initializing_task ∷ ready ∷ []) ready
  run : Edge DeviceStateTransition.run ready (running ∷ []) running
  stop : Edge DeviceStateTransition.stop running (ready ∷ []) ready
  reset_task :
      Edge DeviceStateTransition.reset_task ready (resetting_task ∷ device_ready ∷ []) device_ready
  reset_device_initialized :
      Edge DeviceStateTransition.reset_device initialized (resetting_device ∷ idle ∷ []) idle
  reset_device_bound :
      Edge DeviceStateTransition.reset_device bound (resetting_device ∷ idle ∷ []) idle
  reset_device_ready :
      Edge DeviceStateTransition.reset_device device_ready (resetting_device ∷ idle ∷ []) idle
  end : Edge DeviceStateTransition.end idle (exiting ∷ []) exiting

module _ (E : Engine) (Settled : E.Device → DeviceState → Type 0) where
  -- The queue hands out exactly these states, and then the device rests in `s`.
  abbrev pub Reports : List DeviceState → E.Device → DeviceState → Type 0
  Reports [] d s = Settled d s
  Reports (x ∷ xs) d s = (d' : E.Device) × (E.next d ≡ some (x, d')) × Reports xs d' s

-- The documented behaviour that the plugin relies on.
pub record Documented (E : Engine) : Type 1 where
  -- The device rests in this state, and the queue is empty.
  pub Settled : E.Device → DeviceState → Type 0
  pub settled_current : (d : E.Device) (s : DeviceState) → Settled d s → E.current d ≡ s
  pub settled_clear : (d : E.Device) (s : DeviceState) → Settled d s → Settled (E.clear d) s
  pub settled_release : (d : E.Device) (s : DeviceState) → Settled d s → Settled (E.release d) s
  pub change_reports :
      (t : DeviceStateTransition) (s s' : DeviceState) (path : List DeviceState) (d : E.Device)
      → Edge t s path s'
      → Settled d s
      → Reports E Settled path (E.change t d) s'
