-- ===== src/Device/Single.antt =====
-- Plugin::ChangeDeviceStateBySingleCommand (plugins/DaqServicePlugin.cxx), with the flags as the thread
-- that runs it writes them: the callback of the state changes, which lowers the cancel flag in Idle,
-- runs in another thread and is left out.
pub mod Refines
use nestdaq.Base.{ℕ, zero, suc, Bool, true, false, List, [], ◌∷◌, ◌++◌, Option, none, some}
use nestdaq.Text.{Text, text_eq}
use nestdaq.Device.Constants.{
  DeviceState, DeviceState-discrete, idle, initializing_device, initialized, bound, connecting,
  device_ready, ready, running, DeviceStateTransition, word, Command,
}
use nestdaq.Device.Engine.{Engine}

infixl 10 ◌>>=◌
abbrev pub ◌>>=◌ {ℓ κ} : {A : Type ℓ} {B : Type κ} → Option A → (A → Option B) → Option B
none >>= f = none
some a >>= f = f a

-- if (cmd==...)
abbrev pub is : Text → Command → Bool
is cmd k = text_eq cmd (word k)

abbrev pub when {ℓ} : {A : Type ℓ} → Bool → (A → Option A) → A → Option A
when true f a = f a
when false f a = some a

-- WriteStartTime and WriteStopTime
pub data Mark : Type 0 where
  start_time stop_time : Mark

module _ (E : Engine) where
  -- What the plugin's control thread reads and writes.
  pub record Control : Type 0 where
    pub device : E.Device
    pub reset_device_requested : Bool
    pub plugin_shutdown_requested : Bool
    pub marks : List Mark

  -- while (fStateQueue.WaitForNext() != target) {}; `none` if the queue blocks or the fuel runs out.
  pub await : ℕ → DeviceState → Control → Option Control
  await zero target c = none
  await (suc fuel) target c = do
    (s, d) ← E.next c.device
    elim (DeviceState-discrete s target) [
      | yes _ ↦ some (record c { device = d })
      | no _ ↦ await fuel target (record c { device = d })
    ]

  -- ChangeDeviceState(t) and the wait for the state that it ends in
  order : DeviceStateTransition → DeviceState → ℕ → Control → Option Control
  order t target fuel c = await fuel target (record c { device = E.change t c.device })

  -- fResetDeviceRequested = true and the same
  order_reset : ℕ → Control → Option Control
  unfolding order
  order_reset fuel c =
      order DeviceStateTransition.reset_device idle fuel
        (record c { reset_device_requested = true })

  write : Mark → Control → Option Control
  write m c = some (record c { marks = c.marks ++ (m ∷ []) })

  -- the `switch`
  single_in : DeviceState → Text → ℕ → Control → Option Control
  unfolding order order_reset write text_eq
  single_in idle cmd fuel c =
      when (is cmd Command.init_device)
        (order DeviceStateTransition.init_device initializing_device fuel) c
  single_in initializing_device cmd fuel c =
      when (is cmd Command.complete_init)
        (order DeviceStateTransition.complete_init initialized fuel) c
  single_in initialized cmd fuel c = do
    c' ← when (is cmd Command.bind) (order DeviceStateTransition.bind bound fuel) c
    when (is cmd Command.reset_device) (order_reset fuel) c'
  single_in bound cmd fuel c = do
    c' ← when (is cmd Command.connect) (order DeviceStateTransition.connect device_ready fuel) c
    when (is cmd Command.reset_device) (order_reset fuel) c'
  single_in connecting cmd fuel c =
      when (is cmd Command.reset_device) (λ d. some (record d { reset_device_requested = true })) c
  single_in device_ready cmd fuel c = do
    c' ← when (is cmd Command.init_task) (order DeviceStateTransition.init_task ready fuel) c
    when (is cmd Command.reset_device) (order_reset fuel) c'
  single_in ready cmd fuel c = do
    c' ←
        when (is cmd Command.run)
          (λ d. order DeviceStateTransition.run running fuel d >>= write start_time) c
    when (is cmd Command.reset_task) (order DeviceStateTransition.reset_task device_ready fuel) c'
  single_in running cmd fuel c =
      when (is cmd Command.stop)
        (λ d. order DeviceStateTransition.stop ready fuel d >>= write stop_time) c
  single_in _ cmd fuel c = some c

  pub change_by_single_command : ℕ → Text → Control → Option Control
  unfolding single_in
  change_by_single_command fuel cmd c = single_in (E.current c.device) cmd fuel c
