-- ===== src/Device/Message/Effects.antt =====
-- The messages on the command channel (plugins/DaqServicePlugin.cxx) and the device.
pub mod Lifecycle
pub mod Others
use nestdaq.Base.{
  ℕ, ◌≤◌, ◌≡◌, ◌⊎◌, ◌∙◌, refl, ap, Bool, true, false, List, [], ◌∷◌, Option, none, some, arith,
  if◌then◌else◌, Bool-cases, inl, inr,
}
use nestdaq.Text.{Text, codes, text_eq, contains}
use nestdaq.Device.Constants.{Command, word}
use nestdaq.Device.Engine.{Engine, Documented}
use nestdaq.Device.Single.{Control, ◌>>=◌}
use nestdaq.Device.Abstract.{View, Shows}
use nestdaq.Device.Multi.{change_by_multi_command}
use nestdaq.Device.Multi.Goals.{arrived, change_by_multi_command-Arrives}
use nestdaq.Device.Message.{
  Json, Identity, Event, message, Loop, left, Handled, returned, threw, command_channel, addressed,
  is_empty, is_exit, obey_message, exit_if, dispatch, read_lists, change_state, on_message, listen,
}

-- A message that names a value and the services and instances that it is for.
pub record Names (J : Json) (msg val : Text) (services instances : List Text) : Type 0 where
  pub obj : J.Tree
  pub read_lem : J.read msg ≡ some obj
  pub command_lem : J.text (codes "command") obj ≡ some (codes "change_state")
  pub value_lem : J.text (codes "value") obj ≡ some val
  pub services_lem : J.texts (codes "services") obj ≡ some services
  pub instances_lem : J.texts (codes "instances") obj ≡ some instances

-- Not JSON, or a state change without one of its lists.
pub data Malformed (J : Json) (msg : Text) : Type 0 where
  unreadable : J.read msg ≡ none → Malformed J msg
  no_services :
      (obj : J.Tree)
      → J.read msg ≡ some obj
      → J.text (codes "command") obj ≡ some (codes "change_state")
      → J.texts (codes "services") obj ≡ none
      → Malformed J msg
  no_instances :
      (obj : J.Tree) (services : List Text)
      → J.read msg ≡ some obj
      → J.text (codes "command") obj ≡ some (codes "change_state")
      → J.texts (codes "services") obj ≡ some services
      → J.texts (codes "instances") obj ≡ none
      → Malformed J msg

-- The view after an addressed message.
abbrev pub told : Command → View → View
told k v = record (arrived k v) {
  plugin_shutdown_requested = if is_exit (word k) then true else v.plugin_shutdown_requested;
}

addressed-not_empty :
    (me : Identity) (services instances : List Text)
    → addressed me services instances ≡ true
    → is_empty services ≡ false
unfolding addressed contains
addressed-not_empty me [] instances h = cc
addressed-not_empty me (x ∷ xs) instances h = refl

module _ {E : Engine} (J : Json) (me : Identity) (fuel : ℕ) where
  on_message-Names :
      (msg val : Text) (services instances : List Text) (c : Control E)
      → Names J msg val services instances
      → on_message E J me fuel command_channel msg c
        ≡ change_state E J me fuel (some val) services instances c
  unfolding on_message text_eq
  on_message-Names msg val services instances c n = rw n.read_lem (
      rw (n.command_lem, dispatch)
        (rw (n.services_lem, read_lists) (rw (n.instances_lem, read_lists) (rw n.value_lem))))

  on_message-Malformed :
      (msg : Text) (c : Control E)
      → Malformed J msg
      → on_message E J me fuel command_channel msg c ≡ threw c
  unfolding on_message text_eq
  on_message-Malformed msg c (unreadable e) = rw e
  on_message-Malformed msg c (no_services obj e f g) = rw e (rw (f, dispatch) (rw (g, read_lists)))
  on_message-Malformed msg c (no_instances obj services e f g h) =
      rw e (rw (f, dispatch) (rw (g, read_lists) (rw (h, read_lists))))

  exit_if_lem :
      (b : Bool) (c : Control E)
      → exit_if E J me fuel b c
        ≡ record c { plugin_shutdown_requested = if b then true else c.plugin_shutdown_requested }
  unfolding exit_if
  exit_if_lem true c = refl
  exit_if_lem false c = refl

  module _ (L : Documented E) where
    obey_message-Shows :
        (k : Command) (c : Control E) (v : View)
        → 2 ≤ fuel
        → Shows L c v
        → (c' : Control E) × (obey_message E J me fuel (word k) c ≡ returned c')
          × Shows L c' (told k v)
    unfolding obey_message
    obey_message-Shows k c v h sh =
        let (c', p, (st, r, q, m)) = change_by_multi_command-Arrives L fuel k c v h sh in
        (
          record c' {
            plugin_shutdown_requested =
                if is_exit (word k) then true else c'.plugin_shutdown_requested;
          },
          rw (p, ◌>>=◌) (ap returned (exit_if_lem (is_exit (word k)) c')),
          (st, r, ap (λ b. if is_exit (word k) then true else b) q, m),
        )

    -- A message on the command channel that names a command, is addressed to this instance and has a
    -- list of instances that is not empty, read at rest with a fuel of two or more for each wait, is
    -- obeyed: the callback returns, the device rests in the goal of the command, and `exit`, `quit`
    -- and END request the shutdown.
    pub on_message-Shows :
        (msg : Text) (k : Command) (services instances : List Text) (c : Control E) (v : View)
        → 2 ≤ fuel
        → Names J msg (word k) services instances
        → addressed me services instances ≡ true
        → is_empty instances ≡ false
        → Shows L c v
        → (c' : Control E) × (on_message E J me fuel command_channel msg c ≡ returned c')
          × Shows L c' (told k v)
    unfolding change_state
    on_message-Shows msg k services instances c v h n a i sh =
        let (c', p, sh') = obey_message-Shows k c v h sh in
        (
          c',
          on_message-Names msg (word k) services instances c n
              ∙ rw (addressed-not_empty me services instances a, i) (rw a p),
          sh',
        )

  -- A state change that is spelled out in full, but is for others or names no instance, changes
  -- nothing.
  pub on_message_ignored :
      (msg val : Text) (services instances : List Text) (c : Control E)
      → Names J msg val services instances
      → (addressed me services instances ≡ false) ⊎ (is_empty instances ≡ true)
      → on_message E J me fuel command_channel msg c ≡ returned c
  unfolding change_state
  on_message_ignored msg val services instances c n why =
      on_message-Names msg val services instances c n ∙ ground arith

  -- A message on the command channel that is not JSON, or a state change that lacks one of its two
  -- lists, leaves the loop that listens for commands, although no shutdown was requested.
  listen-Malformed :
      (msg : Text) (es : List Event) (c : Control E)
      → c.plugin_shutdown_requested ≡ false
      → Malformed J msg
      → listen E J me fuel (message command_channel msg ∷ es) c ≡ left c
  unfolding listen
  listen-Malformed msg es c r m = ground (arith, r, on_message-Malformed msg c m)
