-- ===== src/Controller/Publish/Delivery.antt =====
-- The orders of the web controller (controller/WebGui.cxx) at a device that they are addressed to
-- (plugins/DaqServicePlugin.cxx).
use nestdaq.Base.{
  ℕ, ◌≤◌, ◌≡◌, ◌⊎◌, ◌∙◌, refl, ap, subst, Bool, Bool-cases, true, false, ◌||◌, List, [], ◌∷◌, ◌++◌,
  map, some, inl, inr,
}
use nestdaq.Text.{Text, codes, text_eq, contains}
use nestdaq.Redis.{Redis}
use nestdaq.Device.Constants.{DeviceState, Command, word}
use nestdaq.Device.Engine.{Engine, Documented}
use nestdaq.Device.Single.{Control, Mark}
use nestdaq.Device.Abstract.{View, Shows}
use nestdaq.Device.Message.{
  Json, Identity, Handled, returned, threw, blocked, command_channel, addressed, is_empty,
  on_message,
}
use nestdaq.Device.Message.Effects.{Names, told, on_message-Shows}
use nestdaq.Controller.Publish.{
  Flags, Order, Script, World, done, waiting, actions, known_command_list, is_wait_flag_set, copied,
  guarded, caught, perform_all, redis_publish_daq_command,
}
use nestdaq.Controller.Publish.Orders.{chain, order, perform_all-actions}

abbrev told_all : List Command → View → View
told_all [] v = v
told_all (k ∷ ks) v = told_all ks (told k v)

module _ (b d : Bool) (ms : List Mark) where
  abbrev view : DeviceState → View
  view s = record {
    state = s;
    reset_device_requested = b;
    plugin_shutdown_requested = d;
    marks = ms;
  }

  init_task-connect :
      (s : DeviceState)
      → told Command.init_task (told Command.connect (view s)) ≡ told Command.init_task (view s)
  unfolding text_eq
  init_task-connect DeviceState.idle = refl
  init_task-connect _ = refl

  run-connect :
      (s : DeviceState)
      → told Command.run (told Command.connect (view s)) ≡ told Command.run (view s)
  unfolding text_eq
  run-connect DeviceState.idle = refl
  run-connect _ = refl

  run-init_task :
      (s : DeviceState)
      → told Command.run (told Command.init_task (view s)) ≡ told Command.run (view s)
  unfolding text_eq
  run-init_task DeviceState.idle = refl
  run-init_task _ = refl

-- The commands that go before change nothing about where a command leads.
told_all-chain_flags :
    (f r : Bool) (k : Command) (v : View)
    → told_all (chain (record { device_ready = f; ready = r }) k) v ≡ told k v
told_all-chain_flags true true Command.run v =
    ap (told Command.run)
      (init_task-connect v.reset_device_requested v.plugin_shutdown_requested v.marks v.state)
    ∙ run-init_task v.reset_device_requested v.plugin_shutdown_requested v.marks v.state
told_all-chain_flags true false Command.run v =
    run-connect v.reset_device_requested v.plugin_shutdown_requested v.marks v.state
told_all-chain_flags false true Command.run v =
    run-init_task v.reset_device_requested v.plugin_shutdown_requested v.marks v.state
told_all-chain_flags false false Command.run v = refl
told_all-chain_flags true _ Command.init_task v =
    init_task-connect v.reset_device_requested v.plugin_shutdown_requested v.marks v.state
told_all-chain_flags _ _ _ v = refl

module _ (E : Engine) (J : Json) (me : Identity) (fuel : ℕ) (message : Order → Text) where
  -- One order after another, as the device reads them from the command channel.
  pub deliver : List Order → Control E → Handled (Control E)
  deliver [] c = returned c
  deliver (o ∷ os) c = elim (on_message E J me fuel command_channel (message o) c) [
    | returned c' ↦ deliver os c'
    | threw c' ↦ threw c'
    | blocked ↦ blocked
  ]

  module _ (L : Documented E) (services instances : List Text) where
    abbrev orders : List Command → List Order
    orders ks = map (order services instances) (map word ks)

    deliver-Shows :
        2 ≤ fuel
        → ((o : Order) → Names J (message o) o.value o.services o.instances)
        → addressed me services instances ≡ true
        → is_empty instances ≡ false
        → (ks : List Command) (c : Control E) (v : View) → Shows L c v
        → (c' : Control E) × (deliver (orders ks) c ≡ returned c') × Shows L c' (told_all ks v)
    unfolding deliver
    deliver-Shows h n a i [] c v sh = (c, refl, sh)
    deliver-Shows h n a i (k ∷ ks) c v sh =
        let (c₁, p₁, sh₁) =
          on_message-Shows J me fuel L (message (order services instances (word k))) k services
            instances c v h (n (order services instances (word k))) a i sh in
        let (c', p, sh') = deliver-Shows h n a i ks c₁ (told k v) sh₁ in
        (c', rw (p₁, deliver) p, sh')

known_word : (k : Command) → contains known_command_list (word k) ≡ true
unfolding contains text_eq
known_word Command.bind = refl
known_word _ = refl

module _ (R : Redis) (get_state_name : DeviceState → Text) (starts : Script → Bool)
    (separator : Text) {E : Engine} (J : Json) (me : Identity) (fuel : ℕ) (message : Order → Text)
    (L : Documented E) where
  -- The flags that a command is handled with.
  abbrev pub flags_at : ℕ → J.Tree → Command → World R → Flags
  flags_at connid arg k w =
      let s = (copied R get_state_name starts separator J arg connid (word k) w).gui.store in
      record {
        device_ready =
            is_wait_flag_set R get_state_name starts separator (codes "wait-device-ready") s;
        ready = is_wait_flag_set R get_state_name starts separator (codes "wait-ready") s;
      }

  -- The orders `os` lead every device at rest to where the command leads.
  abbrev pub Leads : Command → List Order → Type 0
  Leads k os =
      (c : Control E) (v : View)
      → Shows L c v
      → (c' : Control E) × (deliver E J me fuel message os c ≡ returned c') × Shows L c' (told k v)

  handled :
      (connid : ℕ) (arg : J.Tree) (k : Command) (services instances : List Text) (w : World R)
      → J.text (codes "value") arg ≡ some (word k)
      → J.texts (codes "services") arg ≡ some services
      → J.texts (codes "instances") arg ≡ some instances
      → redis_publish_daq_command R get_state_name starts separator J arg connid w
        ≡ caught R get_state_name starts separator (
            perform_all R get_state_name starts separator services instances
              (actions (flags_at connid arg k w) (word k))
              (copied R get_state_name starts separator J arg connid (word k) w))
  unfolding redis_publish_daq_command
  handled connid arg k services instances w ev es ei =
      rw (ev, redis_publish_daq_command)
        (rw (known_word k) (rw (es, guarded) (rw (ei, guarded) refl)))

  published-copied :
      (connid : ℕ) (arg : J.Tree) (v : Text) (w : World R)
      → (copied R get_state_name starts separator J arg connid v w).published ≡ w.published
  unfolding copied
  published-copied connid arg v w = elim (Bool-cases (text_eq v (word Command.run))) [
    | inl y ↦ rw (y, copied) refl
    | inr n ↦ rw (n, copied) refl
  ]

  -- Every command word, requested for services and instances that a device belongs to, with scripts
  -- that start, messages that are read back and a fuel of two or more: either the handler waits in
  -- the last round still, which takes a wait flag that is set, or it ends, and the orders that it
  -- published lead every such device at rest to where the command itself leads.
  pub redis_publish_daq_command-Leads :
      (connid : ℕ) (arg : J.Tree) (k : Command) (services instances : List Text) (w : World R)
      → J.text (codes "value") arg ≡ some (word k)
      → J.texts (codes "services") arg ≡ some services
      → J.texts (codes "instances") arg ≡ some instances
      → ((x : Script) → starts x ≡ true)
      → 2 ≤ fuel
      → ((o : Order) → Names J (message o) o.value o.services o.instances)
      → addressed me services instances ≡ true
      → is_empty instances ≡ false
      → ((redis_publish_daq_command R get_state_name starts separator J arg connid w ≡ waiting)
          × ((flags_at connid arg k w).device_ready || (flags_at connid arg k w).ready ≡ true))
        ⊎ ((w' : World R) × (os : List Order) × (redis_publish_daq_command R get_state_name starts
                separator J arg connid w
              ≡ done w')
            × (w'.published ≡ w.published ++ os)
            × Leads k os)
  unfolding caught
  redis_publish_daq_command-Leads connid arg k services instances w ev es ei starting h n a i =
      let w₁ : World R = copied R get_state_name starts separator J arg connid (word k) w in
      let run = handled connid arg k services instances w ev es ei in
      elim (perform_all-actions R get_state_name starts separator services instances starting
        (flags_at connid arg k w) k w₁) [
          | inl (e, y) ↦ inl (run ∙ ap (caught R get_state_name starts separator) e, y)
          | inr (w', e, p) ↦ inr (
            w',
            map (order services instances) (map word (chain (flags_at connid arg k w) k)),
            run ∙ ap (caught R get_state_name starts separator) e,
            p ∙ rw (published-copied connid arg (word k) w) refl,
            λ c v sh.
                let (c', q, sh') =
                  deliver-Shows E J me fuel message L services instances h n a i
                    (chain (flags_at connid arg k w) k) c v sh in
                (
                  c',
                  q,
                  subst (Shows L c')
                      (told_all-chain_flags (flags_at connid arg k w).device_ready
                        (flags_at connid arg k w).ready k v)
                      sh',
                ),
          )
        ]
