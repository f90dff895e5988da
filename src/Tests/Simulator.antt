-- ===== src/Tests/Simulator.antt =====
-- A device that walks the state diagram at once and queues the states that it passes.
use nestdaq.Base.{◌≡◌, refl, ap, false, List, [], ◌∷◌, ◌++◌, Option, none, some}
use nestdaq.Device.Constants.{
  DeviceState, idle, initializing_device, initialized, binding, bound, connecting, device_ready,
  initializing_task, ready, running, resetting_task, resetting_device, exiting,
  DeviceStateTransition,
}
use nestdaq.Device.Engine.{Engine, Documented, Edge, Reports}
use nestdaq.Device.Single.{Control}

pub record Machine : Type 0 where
  pub state : DeviceState
  pub queue : List DeviceState

abbrev moved : DeviceStateTransition → DeviceState → List DeviceState × DeviceState
moved DeviceStateTransition.init_device idle = (initializing_device ∷ [], initializing_device)
moved DeviceStateTransition.complete_init initializing_device = (initialized ∷ [], initialized)
moved DeviceStateTransition.bind initialized = (binding ∷ bound ∷ [], bound)
moved DeviceStateTransition.connect bound = (connecting ∷ device_ready ∷ [], device_ready)
moved DeviceStateTransition.init_task device_ready = (initializing_task ∷ ready ∷ [], ready)
moved DeviceStateTransition.run ready = (running ∷ [], running)
moved DeviceStateTransition.stop running = (ready ∷ [], ready)
moved DeviceStateTransition.reset_task ready = (resetting_task ∷ device_ready ∷ [], device_ready)
moved DeviceStateTransition.reset_device initialized = (resetting_device ∷ idle ∷ [], idle)
moved DeviceStateTransition.reset_device bound = (resetting_device ∷ idle ∷ [], idle)
moved DeviceStateTransition.reset_device device_ready = (resetting_device ∷ idle ∷ [], idle)
moved DeviceStateTransition.end idle = (exiting ∷ [], exiting)
moved _ s = ([], s)

abbrev machine_change : DeviceStateTransition → Machine → Machine
machine_change t m =
    let (path, s) = moved t m.state in record { state = s; queue = m.queue ++ path }

abbrev taken : DeviceState → List DeviceState → Option (DeviceState × Machine)
taken s [] = none
taken s (x ∷ xs) = some (x, record { state = s; queue = xs })

abbrev pub simulator : Engine
simulator = record {
  Device = Machine;
  current = λ m. m.state;
  change = machine_change;
  next = λ m. taken m.state m.queue;
  clear = λ m. record m { queue = [] };
  release = λ m. m;
}

abbrev at : DeviceState → Machine
at s = record { state = s; queue = [] }

abbrev IsAt : Machine → DeviceState → Type 0
IsAt m s = m ≡ at s

abbrev at_reports :
    (t : DeviceStateTransition) (s s' : DeviceState) (path : List DeviceState)
    → Edge t s path s'
    → Reports simulator IsAt path (machine_change t (at s)) s'
at_reports _ _ _ _ Edge.init_device = (_, refl, refl)
at_reports _ _ _ _ Edge.complete_init = (_, refl, refl)
at_reports _ _ _ _ Edge.bind = (_, refl, (_, refl, refl))
at_reports _ _ _ _ Edge.connect = (_, refl, (_, refl, refl))
at_reports _ _ _ _ Edge.init_task = (_, refl, (_, refl, refl))
at_reports _ _ _ _ Edge.run = (_, refl, refl)
at_reports _ _ _ _ Edge.stop = (_, refl, refl)
at_reports _ _ _ _ Edge.reset_task = (_, refl, (_, refl, refl))
at_reports _ _ _ _ Edge.reset_device_initialized = (_, refl, (_, refl, refl))
at_reports _ _ _ _ Edge.reset_device_bound = (_, refl, (_, refl, refl))
at_reports _ _ _ _ Edge.reset_device_ready = (_, refl, (_, refl, refl))
at_reports _ _ _ _ Edge.end = (_, refl, refl)

-- The simulator behaves as documented.
abbrev pub simulator_documented : Documented simulator
simulator_documented = record {
  Settled = IsAt;
  settled_current = λ d s h. ap (λ (m : Machine). m.state) h;
  settled_clear = λ d s h. rw h refl;
  settled_release = λ d s h. h;
  change_reports = λ t s s' path d e h. rw h (at_reports t s s' path e);
}

abbrev pub resting : DeviceState → Control simulator
resting s = record {
  device = at s;
  reset_device_requested = false;
  plugin_shutdown_requested = false;
  marks = [];
}
