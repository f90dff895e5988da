-- ===== src/Device/Message/Effects/Others.antt =====
-- The traffic on the Redis channels (plugins/DaqServicePlugin.cxx) that is not for the instance.
use nestdaq.Base.{
  ℕ, ◌≡◌, ◌≢◌, refl, false, List, [], ◌∷◌, ◌++◌, some, none, arith, All, Bool-cases, inl, inr,
}
use nestdaq.Text.{Text, codes, text_eq, text_eq_sound, contains, join}
use nestdaq.Device.Engine.{Engine}
use nestdaq.Device.Single.{Control}
use nestdaq.Device.Message.{
  Json, Identity, Event, message, timeout, returned, command_channel, addressed, dispatch,
  read_lists, change_state, on_message, listen,
}
use nestdaq.Device.Message.Effects.{Names, on_message_ignored}

-- None of the names is `x`.
abbrev pub Without : Text → List Text → Type 0
Without x names = All (λ n. x ≢ n) names

Without-contains : (x : Text) (names : List Text) → Without x names → contains names x ≡ false
unfolding contains
Without-contains x [] h = refl
Without-contains x (n ∷ names) (p, h) = elim (Bool-cases (text_eq x n)) [
  | inl e ↦ absurd (p (text_eq_sound x n e))
  | inr e ↦ rw e (Without-contains x names h)
]

-- The services and instances of a message are others.
pub data Others (me : Identity) (services instances : List Text) : Type 0 where
  other_services :
      Without (codes "all") services
      → Without me.service_name services
      → Others me services instances
  other_instances :
      Without (codes "all") services
      → Without (codes "all") instances
      → Without (join (me.service_name ∷ me.id ∷ []) me.separator) instances
      → Others me services instances
  no_instances : instances ≡ [] → Others me services instances

-- An event that is not for the instance: a pause, traffic on another channel, another command, a
-- state change without a value, or a state change for others.
pub data Foreign (J : Json) (me : Identity) : Event → Type 0 where
  quiet : Foreign J me timeout
  other_channel :
      (channel msg : Text) → command_channel ≢ channel → Foreign J me (message channel msg)
  no_command :
      (msg : Text) (obj : J.Tree)
      → J.read msg ≡ some obj
      → J.text (codes "command") obj ≡ none
      → Foreign J me (message command_channel msg)
  other_command :
      (msg cmd : Text) (obj : J.Tree)
      → J.read msg ≡ some obj
      → J.text (codes "command") obj ≡ some cmd
      → cmd ≢ codes "change_state"
      → Foreign J me (message command_channel msg)
  no_value :
      (msg : Text) (obj : J.Tree) (services instances : List Text)
      → J.read msg ≡ some obj
      → J.text (codes "command") obj ≡ some (codes "change_state")
      → J.texts (codes "services") obj ≡ some services
      → J.texts (codes "instances") obj ≡ some instances
      → J.text (codes "value") obj ≡ none
      → Foreign J me (message command_channel msg)
  for_others :
      (msg val : Text) (services instances : List Text)
      → Names J msg val services instances
      → Others me services instances
      → Foreign J me (message command_channel msg)

ne-text_eq : (s t : Text) → s ≢ t → text_eq s t ≡ false
ne-text_eq s t ne = elim (Bool-cases (text_eq s t)) [
  | inl e ↦ absurd (ne (text_eq_sound s t e))
  | inr e ↦ e
]

module _ {E : Engine} (J : Json) (me : Identity) (fuel : ℕ) where
  on_message-Others :
      (msg val : Text) (services instances : List Text) (c : Control E)
      → Names J msg val services instances
      → Others me services instances
      → on_message E J me fuel command_channel msg c ≡ returned c
  unfolding addressed
  on_message-Others msg val services instances c n (other_services a b) =
      on_message_ignored J me fuel msg val services instances c n (
        inl (
          rw (Without-contains (codes "all") services a)
            (rw (Without-contains me.service_name services b) refl)))
  on_message-Others msg val services instances c n (other_instances a b d) =
      on_message_ignored J me fuel msg val services instances c n (
        inl (
          ground (
            arith,
            Without-contains (codes "all") services a,
            Without-contains (codes "all") instances b,
            Without-contains (join (me.service_name ∷ me.id ∷ []) me.separator) instances d,
          )))
  on_message-Others msg val services instances c n (no_instances e) =
      on_message_ignored J me fuel msg val services instances c n (inr (rw e refl))

  on_message-Foreign :
      (channel msg : Text) (c : Control E)
      → Foreign J me (message channel msg)
      → on_message E J me fuel channel msg c ≡ returned c
  unfolding on_message text_eq dispatch change_state
  on_message-Foreign channel msg c (other_channel _ _ ne) =
      rw (ne-text_eq command_channel channel ne) refl
  on_message-Foreign _ msg c (no_command _ obj e f) = rw e (rw (f, dispatch) refl)
  on_message-Foreign _ msg c (other_command _ cmd obj e f ne) =
      rw e (rw (f, dispatch) (rw (ne-text_eq cmd (codes "change_state") ne) refl))
  on_message-Foreign _ msg c (no_value _ obj services instances e f g h v) =
      rw e (rw (f, dispatch) (rw (g, read_lists) (rw (h, read_lists) (rw (v, change_state) refl))))
  on_message-Foreign _ msg c (for_others _ val services instances n o) =
      on_message-Others msg val services instances c n o

  -- While no shutdown is requested, any number of pauses, of messages on other channels, of other
  -- commands, of state changes without a value and of those for others leaves the thread that
  -- listens for commands as if they had not come. A state change is for others if it names neither
  -- `all` nor the service, or neither `all` as a service nor `all` or the instance among the
  -- instances, or no instance.
  pub listen-Foreign :
      (before after : List Event) (c : Control E)
      → c.plugin_shutdown_requested ≡ false
      → All (Foreign J me) before
      → listen E J me fuel (before ++ after) c ≡ listen E J me fuel after c
  unfolding listen
  listen-Foreign [] after c r h = refl
  listen-Foreign (timeout ∷ before) after c r (f, h) =
      ground (arith, r, listen-Foreign before after c r h)
  listen-Foreign (message channel msg ∷ before) after c r (f, h) =
      ground (arith, r, on_message-Foreign channel msg c f, listen-Foreign before after c r h)
  listen-Foreign (Event.redis_error ∷ before) after c r (f, h) = elim f [ ]
