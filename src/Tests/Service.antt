-- ===== src/Tests/Service.antt =====
-- SetId and Unregister on a concrete server.
use nestdaq.Base.{ℕ, ◌<◌, ◌≡◌, ◌≢◌, refl, true, false, [], ◌∷◌, none, some, arith, ap, length, take}
use nestdaq.Text.{Text, codes, text_eq, text_eq_refl, contains, join}
use nestdaq.Service.Instance.{
  Setting, Claim, initial, index_key, instance_id, presence_key, live_uuids, sort_out, sort_entry,
  values, set_id,
}
use nestdaq.Service.Instance.Fresh.{Registered, set_id-Registered}
use nestdaq.Service.Unregister.{unregister}
use nestdaq.Service.Unregister.Leaves.{Left, unregister-set_id}
use nestdaq.Tests.Server.{server-DelLaws}
use nestdaq.Tests.Server.{
  Server, server, server-HashLaws, find, entries_of, without, look_up, keys_of,
}

abbrev cfg : Setting
cfg = record {
  service_name = codes "Sampler";
  uuid = codes "c3";
  separator = codes ":";
  max_ttl = 5;
}

-- Index 0 is held by an instance that is present, index 1 by one that is gone.
abbrev occupied : Server
occupied = record {
  entries = (index_key cfg, codes "0", codes "a1") ∷ (index_key cfg, codes "1", codes "b2") ∷ [];
  strings = (codes "daq_service:Sampler:Sampler-0:presence", codes "a1") ∷ [];
  lists = [];
}

fresh : (f : Text) → server.hget (index_key cfg) f occupied ≢ some (codes "c3")
unfolding find
fresh f = ground (arith, text_eq_refl (index_key cfg))

apart : (n : ℕ) → index_key cfg ≢ presence_key cfg (instance_id cfg n)
unfolding join text_eq
apart n e = true_false (ap (λ t. text_eq (take 13 t) (codes "daq_service:s")) e)
  where
    true_false : true ≡ false → ⊥
    true_false p = cc

named : text_eq (codes "Sampler") [] ≡ false
unfolding text_eq
named = refl

enough : length (entries_of (index_key cfg) occupied.entries) < 3
unfolding entries_of join text_eq without
enough = omega arith

set_id-Registered_example :
    (n : ℕ) × (c : Claim) × (s' : Server) × (set_id server 3 cfg none initial occupied
      ≡ some (c, s'))
    × Registered server cfg occupied n c s'
set_id-Registered_example =
    set_id-Registered server-HashLaws cfg occupied 3 named fresh apart enough

abbrev again : Server
again = record {
  entries = (index_key cfg, codes "0", codes "c3") ∷ [];
  strings = (codes "daq_service:Sampler:Sampler-0:presence", codes "c3") ∷ [];
  lists = [];
}

holds :
    (sort_out
      (live_uuids server cfg again)
      (codes "c3")
      ([], [])
      (entries_of (index_key cfg) again.entries)).1
    ≡ 48 ∷ []
unfolding live_uuids values sort_out sort_entry contains entries_of join text_eq without look_up
    keys_of
holds = refl

unregister-set_id_example :
    (n : ℕ) × (c : Claim) × (s' : Server) × (set_id server 3 cfg none initial occupied
      ≡ some (c, s'))
    × Left server cfg occupied n (unregister server c s').0 (unregister server c s').1
unregister-set_id_example =
    unregister-set_id server-HashLaws server-DelLaws cfg occupied 3 named fresh apart enough
