-- ===== src/Device/Message.antt =====
-- Plugin::SubscribeToDaqCommand and the state control thread (plugins/DaqServicePlugin.cxx). JSON
-- is read by Boost.PropertyTree, which is not part of the repository: it is a parameter.
pub mod Effects
use nestdaq.Base.{
  ℕ, Bool, true, false, ◌&&◌, ◌||◌, List, [], ◌∷◌, Option, none, some, if◌then◌else◌,
}
use nestdaq.Text.{Text, codes, text_eq, contains, join}
use nestdaq.Device.Constants.{Command, word}
use nestdaq.Device.Engine.{Engine}
use nestdaq.Device.Single.{Control, ◌>>=◌}
use nestdaq.Device.Multi.{change_by_multi_command}
use nestdaq.Device.Sequences.{run_startup_sequence, run_shutdown_sequence}

-- to_json, get_optional<std::string>, and get_child with the get_value of each of its children;
-- `none` from `read` and `texts` stands for an exception.
pub record Json : Type 1 where
  pub Tree : Type 0
  pub read : Text → Option Tree
  pub text : Text → Tree → Option Text
  pub texts : Text → Tree → Option (List Text)

-- CommandChannelName
abbrev pub command_channel : Text
command_channel = codes "daqctl"

-- What the plugin knows of itself.
pub record Identity : Type 0 where
  pub service_name : Text
  pub id : Text
  pub separator : Text

-- How the callback of a message ends.
pub data Handled (A : Type 0) : Type 0 where
  returned : A → Handled A
  threw : A → Handled A
  blocked : Handled A

-- What the subscriber's `consume` meets.
pub data Event : Type 0 where
  message : Text → Text → Event
  timeout : Event
  redis_error : Event

-- The loop is left, still waits for events, or hangs in a callback.
pub data Loop (A : Type 0) : Type 0 where
  left : A → Loop A
  waiting : A → Loop A
  hung : Loop A

abbrev pub is_empty {ℓ} : {A : Type ℓ} → List A → Bool
is_empty [] = true
is_empty (x ∷ xs) = false

-- The test on the services and instances of a message.
unfoldable pub addressed : Identity → List Text → List Text → Bool
addressed me services instances =
    contains services (codes "all")
    || (contains services me.service_name
        && (contains instances (codes "all")
            || contains instances (join (me.service_name ∷ me.id ∷ []) me.separator)))

abbrev pub is_exit : Text → Bool
is_exit val =
    text_eq val (word Command.exit)
    || text_eq val (word Command.quit)
    || text_eq val (word Command.end)

module _ (E : Engine) (J : Json) (me : Identity) (fuel : ℕ) where
  exit_if : Bool → Control E → Control E
  exit_if exiting c = if exiting then record c { plugin_shutdown_requested = true } else c

  handled : Option (Control E) → Handled (Control E)
  handled none = blocked
  handled (some c) = returned c

  -- ChangeDeviceStateByMultiCommand(*val) and the exit words
  obey_message : Text → Control E → Handled (Control E)
  unfolding handled exit_if
  obey_message val c =
      handled do c' ← change_by_multi_command E fuel val c; some (exit_if (is_exit val) c')

  change_state : Option Text → List Text → List Text → Control E → Handled (Control E)
  change_state none services instances c = returned c
  change_state (some val) services instances c =
      if is_empty services || is_empty instances
      then returned c
      else if addressed me services instances
      then obey_message val c
      else returned c

  read_lists : J.Tree → Control E → Handled (Control E)
  unfolding change_state
  read_lists obj c = elim (J.texts (codes "services") obj) [
    | none ↦ threw c
    | some services ↦ elim (J.texts (codes "instances") obj) [
      | none ↦ threw c
      | some instances ↦ change_state (J.text (codes "value") obj) services instances c
    ]
  ]

  dispatch : Option Text → J.Tree → Control E → Handled (Control E)
  dispatch none obj c = returned c
  dispatch (some cmd) obj c =
      if text_eq cmd (codes "change_state") then read_lists obj c else returned c

  -- sub.on_message
  pub on_message : Text → Text → Control E → Handled (Control E)
  unfolding dispatch read_lists
  on_message channel msg c =
      if text_eq command_channel channel
      then elim (J.read msg) [
        | none ↦ threw c
        | some obj ↦ dispatch (J.text (codes "command") obj) obj c
      ]
      else returned c

  -- The loop around `consume`, over the events that come; an exception leaves it.
  pub listen : List Event → Control E → Loop (Control E)
  listen [] c = if c.plugin_shutdown_requested then left c else waiting c
  listen (e ∷ es) c = elim c.plugin_shutdown_requested [
    | true ↦ left c
    | false ↦ elim e [
      | timeout ↦ listen es c
      | redis_error ↦ left c
      | message channel msg ↦ elim (on_message channel msg c) [
        | returned c' ↦ listen es c'
        | threw c' ↦ left c'
        | blocked ↦ hung
      ]
    ]
  ]

  after_loop : Loop (Control E) → Option (Control E)
  after_loop (left c) = run_shutdown_sequence E fuel c
  after_loop (waiting c) = none
  after_loop hung = none

  -- The body of fStateControlThread; `none` while the thread has not come to its end.
  pub control_thread : Text → List Event → Control E → Option (Control E)
  unfolding after_loop
  control_thread startup_state es c = do
    c' ← run_startup_sequence E fuel startup_state c
    after_loop (listen es c')
