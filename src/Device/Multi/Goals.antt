-- ===== src/Device/Multi/Goals.antt =====
-- The states that ChangeDeviceStateByMultiCommand (plugins/DaqServicePlugin.cxx) is to reach, against
-- its rows of calls.
use nestdaq.Base.{
  ℕ, ◌≤◌, ◌≡◌, refl, subst, true, false, List, [], ◌∷◌, Option, none, some, ltb, leb, if◌then◌else◌,
  Bool,
}
use nestdaq.Text.{Text, text_eq}
use nestdaq.Device.Constants.{
  DeviceState, idle, initializing_device, initialized, bound, device_ready, ready, running, Command,
  word,
}
use nestdaq.Device.Engine.{Engine, Documented}
use nestdaq.Device.Single.{Control, Mark, start_time, stop_time}
use nestdaq.Device.Single.Refines.{change_by_single_command-Arrives}
use nestdaq.Device.Abstract.{View, Arrives, Shows, obey, obey_all, with_stamp}
use nestdaq.Device.Multi.{plan_in, run_all, change_by_multi_command}

-- How far a resting state is on the way from Idle to Running.
abbrev pub level : DeviceState → Option ℕ
level idle = some 0
level initializing_device = some 1
level initialized = some 2
level bound = some 3
level device_ready = some 4
level ready = some 5
level running = some 6
level _ = none

-- The states in which a device rests until it is told to move on.
abbrev pub Resting : DeviceState → Type 0
Resting s = (n : ℕ) × (level s ≡ some n)

-- Forwards, to `s` at level `n`, from below it only.
abbrev pub up_to : ℕ → DeviceState → DeviceState → DeviceState
up_to n s from = elim (level from) [ some m ↦ if ltb m n then s else from | none ↦ from ]

-- Backwards, to `s`, from level `n` on only.
abbrev pub back_from : ℕ → DeviceState → DeviceState → DeviceState
back_from n s from = elim (level from) [ some m ↦ if leb n m then s else from | none ↦ from ]

-- Where each command leads, from every state.
abbrev pub goal : Command → DeviceState → DeviceState
goal Command.init_device s = up_to 1 initialized s
goal Command.complete_init s = up_to 2 initialized s
goal Command.bind s = up_to 3 bound s
goal Command.connect s = up_to 4 device_ready s
goal Command.init_task s = up_to 5 ready s
goal Command.run s = up_to 6 running s
goal Command.start s = up_to 6 running s
goal Command.stop s = back_from 6 ready s
goal Command.reset_task s = back_from 5 device_ready s
goal Command.reset_device s = back_from 2 idle s
goal Command.reset s = back_from 2 idle s
goal _ s = s

-- The flag that cancels waiting is raised by a reset of the device alone.
abbrev pub resets : Command → Bool
resets Command.reset_device = true
resets Command.reset = true
resets _ = false

abbrev pub reset_reaches : Command → DeviceState → Bool
reset_reaches k s = if resets k then elim (level s) [ some m ↦ leb 2 m | none ↦ false ] else false

abbrev is_running : DeviceState → Bool
is_running running = true
is_running _ = false

-- The start time is written on the way into Running, the stop time on the way out of it.
abbrev pub crossing : DeviceState → DeviceState → Option Mark
crossing s t =
    if is_running s
    then (if is_running t then none else some stop_time)
    else (if is_running t then some start_time else none)

abbrev pub arrived : Command → View → View
arrived k v = record {
  state = goal k v.state;
  reset_device_requested = if reset_reaches k v.state then true else v.reset_device_requested;
  plugin_shutdown_requested = v.plugin_shutdown_requested;
  marks = with_stamp (crossing v.state (goal k v.state)) v.marks;
}

module _ {E : Engine} (L : Documented E) where
  pub run_all-Arrives :
      (fuel : ℕ) (ks : List Command) (c : Control E) (v : View)
      → 2 ≤ fuel
      → Shows L c v
      → Arrives L (run_all E fuel ks c) (obey_all ks v)
  unfolding run_all
  run_all-Arrives fuel [] c v h sh = (c, refl, sh)
  run_all-Arrives fuel (k ∷ ks) c v h sh =
      let (c', p, sh') = change_by_single_command-Arrives L fuel k c v h sh in
      rw p (run_all-Arrives fuel ks c' (obey k v) h sh')

module _ (b d : Bool) (ms : List Mark) where
  abbrev pub view : DeviceState → View
  view s = record {
    state = s;
    reset_device_requested = b;
    plugin_shutdown_requested = d;
    marks = ms;
  }

  abbrev Fits : DeviceState → Command → Type 0
  Fits s k = obey_all (plan_in s (word k)) (view s) ≡ arrived k (view s)

  plan_in-Fits : (s : DeviceState) (k : Command) → Fits s k
  unfolding plan_in
  plan_in-Fits idle Command.run = refl
  plan_in-Fits initializing_device Command.run = refl
  plan_in-Fits initialized Command.run = refl
  plan_in-Fits bound Command.run = refl
  plan_in-Fits device_ready Command.run = refl
  plan_in-Fits ready Command.run = refl
  plan_in-Fits running Command.run = refl
  plan_in-Fits _ Command.run = refl
  plan_in-Fits _ _ = refl

module _ {E : Engine} (L : Documented E) where
  -- Every command of the command list, given at rest in any state with a fuel of two or more for
  -- each wait, returns with the device at rest in the goal of the command, the cancel flag raised by
  -- a reset that has something to reset, and the start or stop time written just when Running is
  -- entered or left.
  pub change_by_multi_command-Arrives :
      (fuel : ℕ) (k : Command) (c : Control E) (v : View)
      → 2 ≤ fuel
      → Shows L c v
      → Arrives L (change_by_multi_command E fuel (word k) c) (arrived k v)
  unfolding change_by_multi_command
  change_by_multi_command-Arrives fuel k c v h sh =
      subst (Arrives L (change_by_multi_command E fuel (word k) c))
        (plan_in-Fits v.reset_device_requested v.plugin_shutdown_requested v.marks v.state k)
        (rw (L.settled_current c.device v.state sh.0)
          (run_all-Arrives L fuel (plan_in v.state (word k)) c v h sh))

module _ (cmd : Text) (u : (k : Command) → text_eq cmd (word k) ≡ false) where
  plan_in-unknown : (s : DeviceState) → plan_in s cmd ≡ []
  unfolding plan_in
  plan_in-unknown idle = simp (
    u Command.init_device,
    u Command.complete_init,
    u Command.bind,
    u Command.connect,
    u Command.init_task,
    u Command.run,
    u Command.start,
  )
  plan_in-unknown initializing_device = simp (
    u Command.complete_init,
    u Command.bind,
    u Command.connect,
    u Command.init_task,
    u Command.run,
    u Command.start,
  )
  plan_in-unknown initialized = simp (
    u Command.bind,
    u Command.connect,
    u Command.init_task,
    u Command.run,
    u Command.start,
    u Command.reset_device,
    u Command.reset,
  )
  plan_in-unknown bound = simp (
    u Command.connect,
    u Command.init_task,
    u Command.run,
    u Command.start,
    u Command.reset_device,
    u Command.reset,
  )
  plan_in-unknown device_ready =
      simp (
        u Command.init_task,
        u Command.run,
        u Command.start,
        u Command.reset_device,
        u Command.reset,
      )
  plan_in-unknown ready = simp (
    u Command.run,
    u Command.start,
    u Command.reset_task,
    u Command.reset_device,
    u Command.reset,
  )
  plan_in-unknown running =
      simp (u Command.stop, u Command.reset_task, u Command.reset_device, u Command.reset)
  plan_in-unknown _ = refl

-- A word that is no command leaves everything as it is, in any state.
change_by_multi_command_unknown :
    {E : Engine} (fuel : ℕ) (cmd : Text) (c : Control E)
    → ((k : Command) → text_eq cmd (word k) ≡ false)
    → change_by_multi_command E fuel cmd c ≡ some c
unfolding change_by_multi_command run_all
change_by_multi_command_unknown {E} fuel cmd c u = rw plan_nil refl
  where
    plan_nil : plan_in (E.current c.device) cmd ≡ []
    plan_nil = plan_in-unknown cmd u (E.current c.device)
