-- ===== src/Device/Multi/Rest.antt =====
-- The goals of ChangeDeviceStateByMultiCommand (plugins/DaqServicePlugin.cxx) and the resting states.
use nestdaq.Base.{ℕ, refl, Bool, true, false, ltb, leb, if◌then◌else◌}
use nestdaq.Device.Constants.{
  DeviceState, idle, initialized, bound, device_ready, ready, running, Command,
}
use nestdaq.Device.Multi.Goals.{Resting, goal, up_to, back_from}

if-Resting : (b : Bool) (s t : DeviceState) → Resting s → Resting t → Resting (if b then s else t)
if-Resting true s t p q = p
if-Resting false s t p q = q

up_to-Resting : (n : ℕ) (s from : DeviceState) → Resting s → Resting from → Resting (up_to n s from)
up_to-Resting n s from p (m, e) = rw (e, up_to) (if-Resting (ltb m n) s from p (m, e))

back_from-Resting :
    (n : ℕ) (s from : DeviceState) → Resting s → Resting from → Resting (back_from n s from)
back_from-Resting n s from p (m, e) = rw (e, back_from) (if-Resting (leb n m) s from p (m, e))

-- A command keeps a resting device resting.
pub goal-Resting : (k : Command) (s : DeviceState) → Resting s → Resting (goal k s)
goal-Resting Command.init_device s r = up_to-Resting 1 initialized s (_, refl) r
goal-Resting Command.complete_init s r = up_to-Resting 2 initialized s (_, refl) r
goal-Resting Command.bind s r = up_to-Resting 3 bound s (_, refl) r
goal-Resting Command.connect s r = up_to-Resting 4 device_ready s (_, refl) r
goal-Resting Command.init_task s r = up_to-Resting 5 ready s (_, refl) r
goal-Resting Command.run s r = up_to-Resting 6 running s (_, refl) r
goal-Resting Command.start s r = up_to-Resting 6 running s (_, refl) r
goal-Resting Command.stop s r = back_from-Resting 6 ready s (_, refl) r
goal-Resting Command.reset_task s r = back_from-Resting 5 device_ready s (_, refl) r
goal-Resting Command.reset_device s r = back_from-Resting 2 idle s (_, refl) r
goal-Resting Command.reset s r = back_from-Resting 2 idle s (_, refl) r
goal-Resting _ s r = r
