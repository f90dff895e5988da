-- ===== src/Device/Single/Refines.antt =====
-- ChangeDeviceStateBySingleCommand (plugins/DaqServicePlugin.cxx) against the state diagram.
use nestdaq.Base.{
  ℕ, zero, suc, true, if◌then◌else◌, ap, ◌≤◌, ◌≡◌, ◌≢◌, refl, List, [], ◌∷◌, Option, some, arith,
  length,
}
use nestdaq.Device.Constants.{
  DeviceState, idle, initializing_device, initialized, bound, connecting, device_ready, ready,
  running, DeviceStateTransition, Command, word,
}
use nestdaq.Device.Engine.{Engine, Documented, Edge, Reports}
use nestdaq.Device.Single.{Control, await, order, single_in, change_by_single_command}
use nestdaq.Device.Abstract.{View, Arrives, Shows, obey, target, stamp, cancels, with_stamp}

-- The last state of a path is `s`, and no earlier one is.
abbrev EndsAt : DeviceState → List DeviceState → Type 0
EndsAt s [] = ⊥
EndsAt s (x ∷ []) = x ≡ s
EndsAt s (x ∷ y ∷ path) = (x ≢ s) × EndsAt s (y ∷ path)

module _ {E : Engine} (L : Documented E) where
  -- The wait ends when as many states as the path has may be taken from the queue.
  await_lem :
      (fuel : ℕ) (s : DeviceState) (path : List DeviceState) (c : Control E)
      → EndsAt s path
      → length path ≤ fuel
      → Reports E L.Settled path c.device s
      → (d : E.Device) × (await E fuel s c ≡ some (record c { device = d })) × L.Settled d s
  unfolding await
  await_lem zero s [] c e h r = absurd e
  await_lem zero s (x ∷ path) c e h r = absurd (omega arith)
  await_lem (suc fuel) s [] c e h r = absurd e
  await_lem (suc fuel) s (x ∷ []) c e h (d, q, rest) = (d, ground (arith, q, e), rest)
  await_lem (suc fuel) s (x ∷ y ∷ path) c (ne, e) h (d, q, rest) =
      let (d', p, done) =
        await_lem fuel s (y ∷ path) (record c { device = d }) e (omega arith) rest in
      (d', ground (arith, q, p, ne), done)

  order_lem :
      (t : DeviceStateTransition) (s s' : DeviceState) (path : List DeviceState) (fuel : ℕ)
      (c : Control E)
      → Edge t s path s'
      → EndsAt s' path
      → length path ≤ fuel
      → L.Settled c.device s
      → (d : E.Device) × (order E t s' fuel c ≡ some (record c { device = d })) × L.Settled d s'
  unfolding order
  order_lem t s s' path fuel c edge e h st =
      await_lem fuel s' path (record c { device = E.change t c.device }) e h
        (L.change_reports t s s' path c.device edge st)

  -- The control state after a command given at rest in `s`.
  abbrev after : DeviceState → Command → Control E → E.Device → Control E
  after s k c d = record c {
    device = d;
    reset_device_requested = if cancels s k then true else c.reset_device_requested;
    marks = with_stamp (stamp s k) c.marks;
  }

  abbrev Lands : DeviceState → Command → Control E → Option (Control E) → Type 0
  Lands s k c r = (d : E.Device) × (r ≡ some (after s k c d)) × L.Settled d (target s k)

  module _ (fuel : ℕ) (enough : 2 ≤ fuel) (c : Control E) where
    single_in-Lands :
        (s : DeviceState) (k : Command)
        → L.Settled c.device s
        → Lands s k c (single_in E s (word k) fuel c)
    unfolding single_in
    single_in-Lands idle Command.init_device st =
        order_lem _ _ _ _ fuel c Edge.init_device refl (omega arith) st
    single_in-Lands initializing_device Command.complete_init st =
        order_lem _ _ _ _ fuel c Edge.complete_init refl (omega arith) st
    single_in-Lands initialized Command.bind st =
        let (d, p, st') = order_lem _ _ _ _ fuel c Edge.bind ((λ q. cc), refl) (omega arith) st in
        (d, rw p, st')
    single_in-Lands initialized Command.reset_device st =
        order_lem _ _ _ _ fuel (record c { reset_device_requested = true })
          Edge.reset_device_initialized ((λ q. cc), refl) (omega arith) st
    single_in-Lands bound Command.connect st =
        let (d, p, st') =
          order_lem _ _ _ _ fuel c Edge.connect ((λ q. cc), refl) (omega arith) st in
        (d, rw p, st')
    single_in-Lands bound Command.reset_device st =
        order_lem _ _ _ _ fuel (record c { reset_device_requested = true }) Edge.reset_device_bound
          ((λ q. cc), refl) (omega arith) st
    single_in-Lands device_ready Command.init_task st =
        let (d, p, st') =
          order_lem _ _ _ _ fuel c Edge.init_task ((λ q. cc), refl) (omega arith) st in
        (d, rw p, st')
    single_in-Lands device_ready Command.reset_device st =
        order_lem _ _ _ _ fuel (record c { reset_device_requested = true }) Edge.reset_device_ready
          ((λ q. cc), refl) (omega arith) st
    single_in-Lands ready Command.run st =
        let (d, p, st') = order_lem _ _ _ _ fuel c Edge.run refl (omega arith) st in (d, rw p, st')
    single_in-Lands ready Command.reset_task st =
        order_lem _ _ _ _ fuel c Edge.reset_task ((λ q. cc), refl) (omega arith) st
    single_in-Lands running Command.stop st =
        let (d, p, st') = order_lem _ _ _ _ fuel c Edge.stop refl (omega arith) st in (d, rw p, st')
    single_in-Lands connecting Command.reset_device st = (c.device, refl, st)
    single_in-Lands _ _ st = (c.device, refl, st)

  -- A single command given at rest, with a fuel of two or more for the wait, returns at rest in the
  -- state, with the flags and with the run time that `obey` says.
  pub change_by_single_command-Arrives :
      (fuel : ℕ) (k : Command) (c : Control E) (v : View)
      → 2 ≤ fuel
      → Shows L c v
      → Arrives L (change_by_single_command E fuel (word k) c) (obey k v)
  unfolding change_by_single_command
  change_by_single_command-Arrives fuel k c v h (st, r, q, m) =
      let (d, p, st') = single_in-Lands fuel h c v.state k st in
      (
        after v.state k c d,
        rw (L.settled_current c.device v.state st) p,
        (
          st',
          ap (λ b. if cancels v.state k then true else b) r,
          q,
          ap (with_stamp (stamp v.state k)) m,
        ),
      )
