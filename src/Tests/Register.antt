-- ===== src/Tests/Register.antt =====
-- Register and what follows it, on a concrete server.
use nestdaq.Base.{◌<◌, ◌≡◌, refl, true, false, [], ◌∷◌, arith}
use nestdaq.Text.{Text, codes, text_eq, contains, join}
use nestdaq.Topology.Channel.{Config}
use nestdaq.Service.Instance.{Setting, Claim, presence_prefix}
use nestdaq.Service.Register.{Health, Tick, key_of, registered}
use nestdaq.Service.Register.Alive.{Current, Healthy, lived, live-register}
use nestdaq.Tests.Server.{Server, server, server-HashLaws, server-ForeignLaws, server-SetexLaws}

abbrev cfg : Setting
cfg = record {
  service_name = codes "Sampler";
  uuid = codes "c3";
  separator = codes ":";
  max_ttl = 5;
}

abbrev claim : Claim
claim = record {
  id = codes "Sampler-0";
  presence_key = codes "daq_service:Sampler:Sampler-0:presence";
  registered_keys = codes "daq_service:Sampler:Sampler-0:presence" ∷ [];
  registered_hashes = [];
}

abbrev health : Health
health = record {
  host_name = codes "daq01";
  ip_address = codes "10.0.0.1";
  created_time = codes "t0";
}

abbrev topology : Config
topology = record {
  top_prefix = codes "daq_service";
  service_name = codes "Sampler";
  id = codes "Sampler-0";
  separator = codes ":";
  max_ttl = 5;
}

-- The registry holds a run number and the state of another instance.
abbrev registry : Server
registry = record {
  entries = (codes "daq_service:Sampler:Sampler-1:health", codes "uuid", codes "d4") ∷ [];
  strings = (codes "run_info:run_number", codes "7") ∷ [];
  lists = [];
}

abbrev tick : Text → Text → Tick
tick time state = record {
  last_checked = time;
  uptime = codes "12";
  state_name = state;
  topology_keys = codes "bound" ∷ [];
}

abbrev foreign : Text
foreign = codes "run_info:run_number"

present : contains claim.registered_keys claim.presence_key ≡ true
unfolding contains text_eq
present = refl

absent : contains (registered cfg claim).registered_keys foreign ≡ false
unfolding contains text_eq join
absent = refl

positive : 0 < 5
positive = omega arith

own_presence : claim.presence_key ≡ key_of cfg claim presence_prefix
unfolding join
own_presence = refl

abbrev later_registry : Server
later_registry =
    lived server-ForeignLaws server-HashLaws server-SetexLaws cfg positive topology positive claim
      own_presence health (codes "t1") (codes "3") (tick (codes "t2") (codes "IDLE") ∷ [])
      (tick (codes "t3") (codes "READY")) registry

live-register_example :
    Current server-ForeignLaws server-HashLaws server-SetexLaws cfg positive topology positive claim
      own_presence
      (tick (codes "t3") (codes "READY"))
      later_registry
    × Healthy server-ForeignLaws server-HashLaws server-SetexLaws cfg positive topology positive
        claim own_presence health
        (codes "t3")
        (codes "12")
        registry
        later_registry
    × (server.get foreign later_registry ≡ server.get foreign registry)
    × ((f : Text) → server.hget foreign f later_registry ≡ server.hget foreign f registry)
live-register_example =
    live-register server-ForeignLaws server-HashLaws server-SetexLaws cfg positive topology positive
      claim own_presence health (codes "t1") (codes "3") (tick (codes "t2") (codes "IDLE") ∷ [])
      (tick (codes "t3") (codes "READY")) registry foreign present absent
