-- ===== src/Tests/Device.antt =====
-- The device commands on the simulator.
use nestdaq.Base.{◌≡◌, refl, true, false, [], ◌∷◌, ◌++◌, none, some, arith, if◌then◌else◌}
use nestdaq.Text.{Text, codes, text_eq, is_true, to_lower, contains, join}
use nestdaq.Device.Constants.{idle, ready, running, exiting, Command, word}
use nestdaq.Device.Single.{Control, change_by_single_command}
use nestdaq.Device.Single.Refines.{change_by_single_command-Arrives}
use nestdaq.Device.Abstract.{Arrives, Shows, obey}
use nestdaq.Device.Multi.{change_by_multi_command}
use nestdaq.Device.Multi.Goals.{arrived, view, change_by_multi_command-Arrives}
use nestdaq.Device.Sequences.{run_startup_sequence}
use nestdaq.Device.Sequences.Startup.{at_ready, started, run_startup_sequence-Arrives}
use nestdaq.Device.Sequences.Shutdown.{Ends, run_shutdown_sequence-ends}
use nestdaq.Device.Message.{
  Json, Identity, message, timeout, returned, command_channel, addressed, on_message, listen,
  control_thread,
}
use nestdaq.Device.Message.Effects.{Names, told, on_message-Shows}
use nestdaq.Device.Message.Effects.Others.{
  Others, other_instances, quiet, for_others, listen-Foreign,
}
use nestdaq.Device.Message.Effects.Lifecycle.{pause, Farewell, control_thread-ends}
use nestdaq.Tests.Simulator.{simulator, simulator_documented, resting}

abbrev shows_idle : Shows simulator_documented (resting idle) (view false false [] idle)
shows_idle = (refl, refl, refl, refl)

abbrev shows_running : Shows simulator_documented (resting running) (view false false [] running)
shows_running = (refl, refl, refl, refl)

change_by_single_command-Arrives_example :
    Arrives simulator_documented
      (change_by_single_command simulator 2 (word Command.stop) (resting running))
      (obey Command.stop (view false false [] running))
change_by_single_command-Arrives_example =
    change_by_single_command-Arrives simulator_documented 2 Command.stop (resting running)
      (view false false [] running) (omega arith) shows_running

change_by_multi_command-Arrives_example :
    Arrives simulator_documented
      (change_by_multi_command simulator 2 (word Command.reset) (resting running))
      (arrived Command.reset (view false false [] running))
change_by_multi_command-Arrives_example =
    change_by_multi_command-Arrives simulator_documented 2 Command.reset (resting running)
      (view false false [] running) (omega arith) shows_running

no_command : (k : Command) → text_eq (codes "run") (word k) ≡ false
unfolding text_eq
no_command Command.run = refl
no_command _ = refl

run_startup_sequence-Arrives_example :
    Arrives simulator_documented
      (run_startup_sequence simulator 2 (codes "Ready") (resting idle))
      (started ready (view false false [] idle))
unfolding to_lower
run_startup_sequence-Arrives_example =
    run_startup_sequence-Arrives simulator_documented 2 (omega arith) (codes "Ready") (resting idle)
      false false [] at_ready refl shows_idle

run_shutdown_sequence-ends_example : Ends simulator_documented 7 running (resting running)
run_shutdown_sequence-ends_example =
    run_shutdown_sequence-ends simulator_documented 7 running (resting running) (omega arith)
      (6, refl) refl

-- One message that can be read, to every instance of every service.
abbrev one_message : Json
one_message = record {
  Tree = Unit {0};
  read = λ msg. if text_eq msg (codes "bye") then some tt else none;
  text = λ key obj.
      if text_eq key (codes "command") then some (codes "change_state") else some (codes "exit");
  texts = λ key obj. some (codes "all" ∷ []);
}

abbrev pub me : Identity
me = record { service_name = codes "Sampler"; id = codes "Sampler-0"; separator = codes ":" }

abbrev bye : Text
bye = codes "bye"

bye_names : Names one_message bye (word Command.exit) (codes "all" ∷ []) (codes "all" ∷ [])
unfolding text_eq
bye_names = record {
  obj = tt;
  read_lem = refl;
  command_lem = refl;
  value_lem = refl;
  services_lem = refl;
  instances_lem = refl;
}

pub for_all : addressed me (codes "all" ∷ []) (codes "all" ∷ []) ≡ true
unfolding addressed contains text_eq
for_all = refl

on_message-Shows_example :
    (c' : Control simulator) × (on_message simulator one_message me 2 command_channel bye
        (resting running)
      ≡ returned c')
    × Shows simulator_documented c' (told Command.exit (view false false [] running))
on_message-Shows_example =
    on_message-Shows one_message me 2 simulator_documented bye Command.exit (codes "all" ∷ [])
      (codes "all" ∷ []) (resting running) (view false false [] running) (omega arith) bye_names
      for_all refl shows_running

-- The same message, for another instance of the service.
abbrev elsewhere : Json
elsewhere = record one_message {
  texts = λ key obj.
      if text_eq key (codes "instances")
      then some (codes "Sampler:Other" ∷ [])
      else some (codes "Sampler" ∷ []);
}

elsewhere-Names :
    Names elsewhere bye (codes "exit") (codes "Sampler" ∷ []) (codes "Sampler:Other" ∷ [])
unfolding text_eq
elsewhere-Names = record {
  obj = tt;
  read_lem = refl;
  command_lem = refl;
  value_lem = refl;
  services_lem = refl;
  instances_lem = refl;
}

elsewhere-Others : Others me (codes "Sampler" ∷ []) (codes "Sampler:Other" ∷ [])
unfolding join
elsewhere-Others = other_instances ((λ e. cc), tt) ((λ e. cc), tt) ((λ e. cc), tt)

listen-Foreign_example :
    listen simulator elsewhere me 2
      ((timeout ∷ message command_channel bye ∷ []) ++ (message command_channel bye ∷ []))
      (resting running)
    ≡ listen simulator elsewhere me 2 (message command_channel bye ∷ []) (resting running)
listen-Foreign_example =
    listen-Foreign {E = simulator} elsewhere me 2 (timeout ∷ message command_channel bye ∷ [])
      (message command_channel bye ∷ []) (resting running) refl
      (
        quiet,
        (
          for_others bye (codes "exit") (codes "Sampler" ∷ []) (codes "Sampler:Other" ∷ [])
              elsewhere-Names elsewhere-Others,
          tt,
        ),
      )

unreadable_message : one_message.read (codes "{") ≡ none
unfolding text_eq
unreadable_message = refl

bye-Farewell : Farewell {E = simulator} one_message me 7 simulator_documented bye
unfolding text_eq
bye-Farewell = record {
  command = Command.exit;
  services = codes "all" ∷ [];
  instances = codes "all" ∷ [];
  names = bye_names;
  exits = refl;
  for_me = for_all;
  some_instance = refl;
}

control_thread-ends_example :
    (c' : Control simulator) × (control_thread simulator one_message me 7
        (codes "Ready")
        (timeout ∷ message command_channel bye ∷ timeout ∷ [])
        (resting idle)
      ≡ some c')
    × simulator_documented.Settled c'.device exiting
unfolding to_lower
control_thread-ends_example =
    control_thread-ends one_message me 7 simulator_documented at_ready (codes "Ready")
      (timeout ∷ []) (timeout ∷ []) bye (resting idle) false false [] (omega arith) refl (pause, tt)
      bye-Farewell shows_idle

flag_words : (is_true (codes "TRUE") ≡ true) × (is_true (codes "yes") ≡ false)
unfolding is_true
flag_words = (refl, refl)
