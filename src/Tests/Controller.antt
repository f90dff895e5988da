-- ===== src/Tests/Controller.antt =====
-- The web controller on the server.
use nestdaq.Base.{
  Bool, length, ◌<◌, ◌≡◌, ◌⊎◌, ◌∷◌, ◌++◌, ◌||◌, refl, true, false, List, [], none, some, arith, inl,
  inr, ap, if◌then◌else◌,
}
use nestdaq.Text.{Text, codes, text_eq, contains}
use nestdaq.Device.Constants.{DeviceState, Command, word}
use nestdaq.Device.Message.{Json}
use nestdaq.Service.Instance.{values}
use nestdaq.Controller.RunNumber.{Gui, run_info_key, run_number}
use nestdaq.Controller.Wait.{merge, state_keys, wait_keys}
use nestdaq.Controller.Wait.Ends.{Settled, wait_keys-Settled}
use nestdaq.Controller.Publish.{Order, Script, World, done, waiting, redis_publish_daq_command}
use nestdaq.Controller.Publish.Delivery.{Leads, flags_at, redis_publish_daq_command-Leads}
use nestdaq.Text.Number.{to_string_nat}
use nestdaq.Text.Search.{npos, has}
use nestdaq.Text.Search.Skip.{Clear}
use nestdaq.Service.Instance.{Setting, index_key, instance_id, presence_key}
use nestdaq.Controller.Expired.{process_expired_key}
use nestdaq.Controller.Expired.Keys.{hget-process_expired_key, process_expired_key-hyphen}
use nestdaq.Tests.Splitter.{splitter, splitter-SplitLaws}
use nestdaq.Tests.Server.{server-HashLaws}
use nestdaq.Tests.Server.{Server, server, look_up, keys_of}
use nestdaq.Tests.Simulator.{simulator_documented}
use nestdaq.Tests.Messages.{written, readable, written-Names}
use nestdaq.Tests.Device.{me, for_all}

abbrev colon : Text
colon = codes ":"

-- A request that gives the same text for its name, and one for its value.
abbrev request : Text → Text → Json
request name value = record {
  Tree = Unit {0};
  read = λ msg. none;
  text = λ key obj. if text_eq key (codes "name") then some name else some value;
  texts = λ key obj. none;
}

abbrev at_seven : Gui server
at_seven = record {
  store = record {
    entries = [];
    strings = (codes "run_info:run_number", codes "7") ∷ [];
    lists = [];
  };
  sent = [];
}

stored_seven : server.get (run_info_key colon run_number) at_seven.store ≡ some (codes "7")
unfolding look_up text_eq
stored_seven = refl

asks : (request [] run_number).text (codes "value") tt ≡ some run_number
unfolding text_eq
asks = refl

abbrev wait_on : Json
wait_on = request (codes "wait-ready") (codes "1")

says_name : wait_on.text (codes "name") tt ≡ some (codes "wait-ready")
unfolding text_eq
says_name = refl

says_value : wait_on.text (codes "value") tt ≡ some (codes "1")
unfolding text_eq
says_value = refl

-- One instance, in the state `v`.
abbrev one_state : Text → Server
one_state v = record {
  entries = [];
  strings = (codes "daq_service:Sampler:Sampler-0:fair-mq-state", v) ∷ [];
  lists = [];
}

abbrev every : List Text
every = codes "*:*" ∷ []

abbrev targets : List Text
targets = codes "READY" ∷ codes "RUNNING" ∷ []

not_yet : ¬ Settled server colon every targets (one_state (codes "IDLE"))
unfolding state_keys merge values look_up keys_of contains text_eq
not_yet (inl e) = cc
not_yet (inr (w, c, (e, _))) = clash (ap (contains targets) e) c
  where
    clash : false ≡ contains targets w → contains targets w ≡ true → ⊥
    clash p q = cc

there : Settled server colon every targets (one_state (codes "READY"))
unfolding state_keys merge values look_up keys_of contains text_eq
there = inr (codes "READY", refl, (refl, tt))

wait_keys-Settled_example :
    (wait_keys server colon every targets (one_state (codes "IDLE") ∷ []) ≡ none)
    × ((s : Server) (after : List Server)
        → Settled server colon every targets s
        → wait_keys server colon every targets ((one_state (codes "IDLE") ∷ []) ++ (s ∷ after))
          ≡ some after)
wait_keys-Settled_example =
    wait_keys-Settled server colon every targets (one_state (codes "IDLE") ∷ []) (not_yet, tt)

-- It ends in the round that `there` shows.
it_ends :
    wait_keys server colon every targets (one_state (codes "IDLE") ∷ one_state (codes "READY") ∷ [])
    ≡ some []
it_ends = wait_keys-Settled_example.1 (one_state (codes "READY")) [] there

abbrev run_all : Order
run_all = record {
  value = word Command.run;
  services = codes "all" ∷ [];
  instances = codes "all" ∷ [];
}

abbrev before_run : World server
before_run = record { gui = at_seven; rounds = []; published = [] }

abbrev some_name : DeviceState → Text
some_name s = codes "READY"

abbrev starts : Script → Bool
starts x = true

reads_run : readable.text (codes "value") (written run_all) ≡ some (word Command.run)
unfolding text_eq
reads_run = refl

reads_services : readable.texts (codes "services") (written run_all) ≡ some (codes "all" ∷ [])
unfolding text_eq
reads_services = refl

reads_instances : readable.texts (codes "instances") (written run_all) ≡ some (codes "all" ∷ [])
unfolding text_eq
reads_instances = refl

redis_publish_daq_command-Leads_example :
    ((redis_publish_daq_command server some_name starts colon readable
          (written run_all)
          1
          before_run
        ≡ waiting)
      × ((flags_at server some_name starts colon readable me 2 written simulator_documented 1
              (written run_all)
              Command.run
              before_run).device_ready
            || (flags_at server some_name starts colon readable me 2 written simulator_documented 1
                (written run_all)
                Command.run
                before_run).ready
          ≡ true))
    ⊎ ((w' : World server) × (os : List Order) × (redis_publish_daq_command server some_name starts
            colon readable
            (written run_all)
            1
            before_run
          ≡ done w')
        × (w'.published ≡ [] ++ os)
        × Leads server some_name starts colon readable me 2 written simulator_documented Command.run
            os)
redis_publish_daq_command-Leads_example =
    redis_publish_daq_command-Leads server some_name starts colon readable me 2 written
      simulator_documented 1 (written run_all) Command.run (codes "all" ∷ []) (codes "all" ∷ [])
      before_run reads_run reads_services reads_instances (λ x. refl) (omega arith) written-Names
      for_all refl

-- A service, with the colon as separator.
abbrev service : Text → Setting
service name = record { service_name = name; uuid = codes "a1"; separator = codes ":"; max_ttl = 5 }

abbrev held : Server
held = record {
  entries =
      (index_key (service (codes "Sink")), codes "3", codes "a1")
      ∷ (index_key (service (codes "a-b")), codes "3", codes "b2")
      ∷ [];
  strings = [];
  lists = [];
}

in_string : length (instance_id (service (codes "Sink")) 3) < npos
unfolding to_string_nat
in_string = omega arith

plain : Clear (codes ":") (codes "Sink") × Clear (codes "-") (codes "Sink")
unfolding has
plain = ((refl, (refl, (refl, (refl, tt)))), (refl, (refl, (refl, (refl, tt)))))

hget-process_expired_key_example :
    (s' : Server) × (process_expired_key server splitter colon
        (presence_key (service (codes "Sink")) (instance_id (service (codes "Sink")) 3))
        held
      ≡ some s')
    × ((f : Text)
        → server.hget (index_key (service (codes "Sink"))) f s' ≡ (
            if text_eq f (to_string_nat 3)
            then none
            else server.hget (index_key (service (codes "Sink"))) f held))
hget-process_expired_key_example =
    hget-process_expired_key server splitter-SplitLaws (service (codes "Sink")) server-HashLaws 3
      held refl plain.0 plain.1 in_string

hyphen_in_string : length (instance_id (service (codes "a-b")) 3) < npos
unfolding to_string_nat
hyphen_in_string = omega arith

hyphen_plain : Clear (codes ":") (codes "a-b") × Clear (codes "-") (codes "a")
unfolding has
hyphen_plain = ((refl, (refl, (refl, tt))), (refl, tt))

process_expired_key-hyphen_example :
    (s' : Server) × (process_expired_key server splitter colon
        (presence_key (service (codes "a-b")) (instance_id (service (codes "a-b")) 3))
        held
      ≡ some s')
    × (server.hget (index_key (service (codes "a-b"))) (to_string_nat 3) s'
        ≡ server.hget (index_key (service (codes "a-b"))) (to_string_nat 3) held)
process_expired_key-hyphen_example =
    process_expired_key-hyphen server splitter-SplitLaws (service (codes "a-b")) server-HashLaws
      (codes "a") (codes "b") 3 held refl refl hyphen_plain.0 hyphen_plain.1 hyphen_in_string

abbrev slashed : Setting
slashed = record (service (codes "Sink")) { separator = codes "/" }

slash_plain : Clear (codes ":") (codes "/")
unfolding has
slash_plain = (refl, tt)
