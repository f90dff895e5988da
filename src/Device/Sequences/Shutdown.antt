-- ===== src/Device/Sequences/Shutdown.antt =====
-- RunShutdownSequence (plugins/DaqServicePlugin.cxx) from the resting states.
use nestdaq.Base.{
  ℕ, suc, ◌-◌, ◌≤◌, ◌≡◌, refl, subst, false, List, [], ◌∷◌, ◌++◌, some, arith, if◌then◌else◌,
}
use nestdaq.Device.Constants.{
  DeviceState, idle, initializing_device, initialized, bound, device_ready, ready, running, error,
  exiting,
}
use nestdaq.Device.Engine.{Engine, Documented, Edge}
use nestdaq.Device.Single.{Control, Mark, stop_time, ◌>>=◌}
use nestdaq.Device.Sequences.{shutdown_loop, run_shutdown_sequence, is_running, is_error}
use nestdaq.Device.Multi.Goals.{Resting}

module _ {E : Engine} (L : Documented E) where
  -- The loop returns with the device at rest in Exiting, and with these run times.
  abbrev Exits : ℕ → DeviceState → Control E → List Mark → Type 0
  Exits fuel s c ms =
      (d : E.Device) × (shutdown_loop E fuel s c ≡ some (record c { device = d; marks = ms }))
      × L.Settled d exiting

  Exits-idle :
      (fuel : ℕ) (c : Control E) → L.Settled c.device idle → Exits (suc (suc fuel)) idle c c.marks
  unfolding shutdown_loop
  Exits-idle fuel c st =
      let (d, q, st') = L.change_reports _ _ _ _ c.device Edge.end st in
      (d, rw (q, shutdown_loop), st')

  Exits-initialized :
      (fuel : ℕ) (c : Control E)
      → L.Settled c.device initialized
      → Exits (suc (suc (suc (suc fuel)))) initialized c c.marks
  unfolding shutdown_loop
  Exits-initialized fuel c st =
      let (d₁, q₁, (d₂, q₂, st₂)) =
        L.change_reports _ _ _ _ c.device Edge.reset_device_initialized st in
      let (d, p, done) = Exits-idle fuel (record c { device = d₂ }) st₂ in
      (d, rw (q₁, shutdown_loop) (rw (q₂, shutdown_loop) p), done)

  Exits-bound :
      (fuel : ℕ) (c : Control E)
      → L.Settled c.device bound
      → Exits (suc (suc (suc (suc fuel)))) bound c c.marks
  unfolding shutdown_loop
  Exits-bound fuel c st =
      let (d₁, q₁, (d₂, q₂, st₂)) = L.change_reports _ _ _ _ c.device Edge.reset_device_bound st in
      let (d, p, done) = Exits-idle fuel (record c { device = d₂ }) st₂ in
      (d, rw (q₁, shutdown_loop) (rw (q₂, shutdown_loop) p), done)

  Exits-device_ready :
      (fuel : ℕ) (c : Control E)
      → L.Settled c.device device_ready
      → Exits (suc (suc (suc (suc fuel)))) device_ready c c.marks
  unfolding shutdown_loop
  Exits-device_ready fuel c st =
      let (d₁, q₁, (d₂, q₂, st₂)) = L.change_reports _ _ _ _ c.device Edge.reset_device_ready st in
      let (d, p, done) = Exits-idle fuel (record c { device = d₂ }) st₂ in
      (d, rw (q₁, shutdown_loop) (rw (q₂, shutdown_loop) p), done)

  Exits-initializing_device :
      (fuel : ℕ) (c : Control E)
      → L.Settled c.device initializing_device
      → Exits (suc (suc (suc (suc (suc fuel))))) initializing_device c c.marks
  unfolding shutdown_loop
  Exits-initializing_device fuel c st =
      let (d₁, q₁, st₁) = L.change_reports _ _ _ _ c.device Edge.complete_init st in
      let (d, p, done) = Exits-initialized fuel (record c { device = d₁ }) st₁ in
      (d, rw (q₁, shutdown_loop) p, done)

  Exits-ready :
      (fuel : ℕ) (c : Control E)
      → L.Settled c.device ready
      → Exits (suc (suc (suc (suc (suc (suc fuel)))))) ready c c.marks
  unfolding shutdown_loop
  Exits-ready fuel c st =
      let (d₁, q₁, (d₂, q₂, st₂)) = L.change_reports _ _ _ _ c.device Edge.reset_task st in
      let (d, p, done) = Exits-device_ready fuel (record c { device = d₂ }) st₂ in
      (d, rw (q₁, shutdown_loop) (rw (q₂, shutdown_loop) p), done)

  Exits-running :
      (fuel : ℕ) (c : Control E)
      → L.Settled c.device running
      → Exits (suc (suc (suc (suc (suc (suc (suc fuel))))))) running c (c.marks ++ (stop_time ∷ []))
  unfolding shutdown_loop
  Exits-running fuel c st =
      let (d₁, q₁, st₁) = L.change_reports _ _ _ _ c.device Edge.stop st in
      let (d, p, done) =
        Exits-ready fuel (record c { device = d₁; marks = c.marks ++ (stop_time ∷ []) }) st₁ in
      (d, rw (q₁, shutdown_loop) p, done)

  not_error : (s : DeviceState) → Resting s → is_error s ≡ false
  not_error error (n, e) = cc
  not_error _ r = refl

  shutdown_loop-Exits :
      (fuel : ℕ) (s : DeviceState) (c : Control E)
      → Resting s
      → L.Settled c.device s
      → Exits
          (suc (suc (suc (suc (suc (suc (suc fuel)))))))
          s
          c
          (if is_running s then c.marks ++ (stop_time ∷ []) else c.marks)
  shutdown_loop-Exits fuel idle c r st = Exits-idle _ c st
  shutdown_loop-Exits fuel initializing_device c r st = Exits-initializing_device _ c st
  shutdown_loop-Exits fuel initialized c r st = Exits-initialized _ c st
  shutdown_loop-Exits fuel bound c r st = Exits-bound _ c st
  shutdown_loop-Exits fuel device_ready c r st = Exits-device_ready _ c st
  shutdown_loop-Exits fuel ready c r st = Exits-ready _ c st
  shutdown_loop-Exits fuel running c r st = Exits-running _ c st
  shutdown_loop-Exits fuel _ c (n, e) st = cc

  -- The whole sequence with this much fuel.
  abbrev pub Ends : ℕ → DeviceState → Control E → Type 0
  Ends fuel s c =
      (d : E.Device) × (run_shutdown_sequence E fuel c
        ≡ some (record c {
          device = E.release d;
          marks = if is_running s then c.marks ++ (stop_time ∷ []) else c.marks;
        }))
      × L.Settled (E.release d) exiting

  ends_with :
      (extra : ℕ) (s : DeviceState) (c : Control E)
      → Resting s
      → L.Settled c.device s
      → Ends (suc (suc (suc (suc (suc (suc (suc extra))))))) s c
  unfolding run_shutdown_sequence
  ends_with extra s c r st =
      let (d, p, done) =
        shutdown_loop-Exits extra s (record c { device = E.clear c.device }) r
          (L.settled_clear c.device s st) in
      (
        d,
        rw (L.settled_current c.device s st, not_error s r) (rw (p, ◌>>=◌)),
        L.settled_release d exiting done,
      )

  -- From every resting state from Idle to Running, with a fuel of seven or more, the shutdown ends
  -- with control of the device released in Exiting, and with the stop time written just if a run
  -- was going on.
  pub run_shutdown_sequence-ends :
      (fuel : ℕ) (s : DeviceState) (c : Control E)
      → 7 ≤ fuel
      → Resting s
      → L.Settled c.device s
      → Ends fuel s c
  run_shutdown_sequence-ends fuel s c h r st =
      subst (λ f. Ends f s c) (omega arith) (ends_with (fuel - 7) s c r st)
