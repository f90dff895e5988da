-- ===== src/Device/Message/Effects/Lifecycle.antt =====
-- The life of the state control thread (plugins/DaqServicePlugin.cxx): startup, any traffic on the
-- command channel, shutdown.
use nestdaq.Base.{
  ℕ, ◌≤◌, ◌≡◌, refl, ◌∙◌, Bool, true, false, List, [], ◌∷◌, ◌++◌, some, arith, All, if◌then◌else◌,
  Bool-cases, inl, inr,
}
use nestdaq.Text.{Text, text_eq, to_lower}
use nestdaq.Device.Constants.{idle, exiting, Command, word}
use nestdaq.Device.Engine.{Engine, Documented}
use nestdaq.Device.Single.{Control, Mark, stop_time, ◌>>=◌}
use nestdaq.Device.Sequences.{is_running}
use nestdaq.Device.Abstract.{View, Shows}
use nestdaq.Device.Multi.Goals.{Resting, view}
use nestdaq.Device.Multi.Rest.{goal-Resting}
use nestdaq.Device.Sequences.Shutdown.{run_shutdown_sequence-ends}
use nestdaq.Device.Sequences.Startup.{
  StartupState, at_idle, option_word, meant, started, run_startup_sequence-Arrives,
}
use nestdaq.Device.Message.{
  Json, Identity, Event, message, timeout, redis_error, left, returned, command_channel, addressed,
  is_empty, is_exit, on_message, listen, after_loop, control_thread,
}
use nestdaq.Device.Message.Effects.{Names, told, on_message-Shows, on_message_ignored}

meant-Resting : (n : StartupState) → Resting (meant n)
meant-Resting at_idle = (_, refl)
meant-Resting _ = (_, refl)

module _ {E : Engine} (J : Json) (me : Identity) (fuel : ℕ) (L : Documented E) where
  -- Events that leave the thread in good order: pauses, a lost connection, state changes of any
  -- kind that are spelled out in full, and traffic on other channels.
  pub data Tame : Event → Type 0 where
    pause : Tame timeout
    broken : Tame redis_error
    order :
        (msg : Text) (k : Command) (services instances : List Text)
        → Names J msg (word k) services instances
        → Tame (message command_channel msg)
    elsewhere :
        (channel msg : Text) → text_eq command_channel channel ≡ false → Tame (message channel msg)

  -- The control state shows a view with the device at rest.
  abbrev pub Rests : Control E → Type 0
  Rests c = (v : View) × Resting v.state × Shows L c v

  on_message-Rests :
      (channel msg : Text) (c : Control E)
      → 2 ≤ fuel
      → Tame (message channel msg)
      → Rests c
      → (c' : Control E) × (on_message E J me fuel channel msg c ≡ returned c') × Rests c'
  unfolding on_message
  on_message-Rests _ _ c h (order msg k services instances n) (v, r, sh) =
      elim (Bool-cases (addressed me services instances)) [
        | inr a ↦ (
          c,
          on_message_ignored J me fuel msg (word k) services instances c n (inl a),
          (v, r, sh),
        )
        | inl a ↦ elim (Bool-cases (is_empty instances)) [
          | inl i ↦ (
            c,
            on_message_ignored J me fuel msg (word k) services instances c n (inr i),
            (v, r, sh),
          )
          | inr i ↦
              (let (c', p, sh') =
                  on_message-Shows J me fuel L msg k services instances c v h n a i sh in
                (c', p, (told k v, goal-Resting k v.state r, sh')))
        ]
      ]
  on_message-Rests channel msg c h (elsewhere _ _ e) r = (c, rw (e, on_message), r)

  listen_requested :
      (es : List Event) (c : Control E)
      → c.plugin_shutdown_requested ≡ true
      → listen E J me fuel es c ≡ left c
  unfolding listen
  listen_requested [] c r = ground arith
  listen_requested (e ∷ es) c r = ground arith

  listen_returned :
      (channel msg : Text) (es : List Event) (c : Control E) {c' : Control E}
      → c.plugin_shutdown_requested ≡ false
      → on_message E J me fuel channel msg c ≡ returned c'
      → listen E J me fuel (message channel msg ∷ es) c ≡ listen E J me fuel es c'
  unfolding listen
  listen_returned channel msg es c r e = ground (arith, r, e)

  listen_paused :
      (es : List Event) (c : Control E)
      → c.plugin_shutdown_requested ≡ false
      → listen E J me fuel (timeout ∷ es) c ≡ listen E J me fuel es c
  unfolding listen
  listen_paused es c r = ground (arith, r)

  listen_broken :
      (es : List Event) (c : Control E)
      → c.plugin_shutdown_requested ≡ false
      → listen E J me fuel (redis_error ∷ es) c ≡ left c
  unfolding listen
  listen_broken es c r = ground (arith, r)

  -- A message that ends the device: `exit`, `quit` or END, addressed to this instance.
  pub record Farewell (msg : Text) : Type 0 where
    pub command : Command
    pub services : List Text
    pub instances : List Text
    pub names : Names J msg (word command) services instances
    pub exits : is_exit (word command) ≡ true
    pub for_me : addressed me services instances ≡ true
    pub some_instance : is_empty instances ≡ false

  abbrev pub Leaves : List Event → Control E → Type 0
  Leaves es c = (c' : Control E) × (listen E J me fuel es c ≡ left c') × Rests c'

  Leaves-if :
      (es : List Event) (c : Control E)
      → Rests c
      → (c.plugin_shutdown_requested ≡ false → Leaves es c)
      → Leaves es c
  Leaves-if es c r f = elim (Bool-cases c.plugin_shutdown_requested) [
    | inl e ↦ (c, listen_requested es c e, r)
    | inr e ↦ f e
  ]

  listen-Farewell :
      (msg : Text) (es : List Event) (c : Control E)
      → 2 ≤ fuel
      → Farewell msg
      → Rests c
      → Leaves (message command_channel msg ∷ es) c
  listen-Farewell msg es c h b (v, r, sh) =
      Leaves-if _ c (v, r, sh)
        λ e.
          let (c', p, sh') =
            on_message-Shows J me fuel L msg b.command b.services b.instances c v h b.names b.for_me
              b.some_instance sh in
          (
            c',
            listen_returned command_channel msg es c e p
                ∙ listen_requested es c' (sh'.2 ∙ rw b.exits),
            (told b.command v, goal-Resting b.command v.state r, sh'),
          )

  -- Whatever tame traffic comes first, the loop is left, with the device at rest.
  listen-Leaves :
      (before after : List Event) (msg : Text) (c : Control E)
      → 2 ≤ fuel
      → All Tame before
      → Farewell msg
      → Rests c
      → Leaves (before ++ (message command_channel msg ∷ after)) c
  listen-Leaves [] after msg c h t b r = listen-Farewell msg after c h b r
  listen-Leaves (timeout ∷ before) after msg c h (t, ts) b r = Leaves-if _ c r λ e.
      let (c', p, r') = listen-Leaves before after msg c h ts b r in
      (c', listen_paused _ c e ∙ p, r')
  listen-Leaves (redis_error ∷ before) after msg c h (t, ts) b r =
      Leaves-if _ c r λ e. (c, listen_broken _ c e, r)
  listen-Leaves (message channel m ∷ before) after msg c h (t, ts) b r = Leaves-if _ c r λ e.
      let (c₁, p₁, r₁) = on_message-Rests channel m c h t r in
      let (c', p, r') = listen-Leaves before after msg c₁ h ts b r₁ in
      (c', listen_returned channel m _ c e p₁ ∙ p, r')

  -- From a device at rest in Idle, with a startup state that the help text lists, tame events and a
  -- fuel of seven or more for each loop, a farewell to this instance ends the control thread with
  -- the device at rest in Exiting, whatever events follow.
  pub control_thread-ends :
      (n : StartupState) (s : Text) (before after : List Event) (msg : Text) (c : Control E)
      (b d : Bool) (ms : List Mark)
      → 7 ≤ fuel
      → to_lower s ≡ option_word n
      → All Tame before
      → Farewell msg
      → Shows L c (view b d ms idle)
      → (c' : Control E) × (control_thread E J me fuel s
            (before ++ (message command_channel msg ∷ after))
            c
          ≡ some c')
        × L.Settled c'.device exiting
  unfolding control_thread
  control_thread-ends n s before after msg c b d ms h low t bye sh =
      let (c₁, p₁, sh₁) = run_startup_sequence-Arrives L fuel (omega arith) s c b d ms n low sh in
      let r₁ : Resting (meant n) = meant-Resting n in
      let (c₂, p₂, (v₂, r₂, sh₂)) =
        listen-Leaves before after msg c₁ (omega arith) t bye
          (started (meant n) (view b d ms idle), r₁, sh₁) in
      let (d₃, p₃, st₃) = run_shutdown_sequence-ends L fuel v₂.state c₂ h r₂ sh₂.0 in
      (
        record c₂ {
          device = E.release d₃;
          marks = if is_running v₂.state then c₂.marks ++ (stop_time ∷ []) else c₂.marks;
        },
        rw (p₁, ◌>>=◌) (rw (p₂, after_loop) p₃),
        st₃,
      )
