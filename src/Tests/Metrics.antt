-- ===== src/Tests/Metrics.antt =====
-- DeleteExpiredFields on a concrete server, and rounds of SendSocketMetrics with whole numbers for
-- doubles.
use nestdaq.Base.{
  ap, sym, ◌∙◌, ℕ, ◌*◌, ◌≡◌, refl, true, false, List, [], ◌∷◌, none, some, arith, ltb,
  if◌then◌else◌,
}
use nestdaq.Text.{Text, codes, text_eq, contains, join}
use nestdaq.Text.Number.{pos, negsuc}
use nestdaq.Text.Number.Wide.{stoull}
use nestdaq.Topology.Address.{starts_with}
use nestdaq.Metrics.Keys.{Instance, registered_keys, registered_sock_keys, last_update_ns_key}
use nestdaq.Metrics.Expiry.{Test, TestLaws, expired_instances, delete_expired_fields, busy, free}
use nestdaq.Metrics.Expiry.Deleted.{has_prefix, of_expired, hget-delete_expired_fields}
use nestdaq.Metrics.Expiry.Ages.{hget-delete_expired_fields_ahead}
use nestdaq.Metrics.Sockets.{socket_field, pieces, initialize_socket_properties}
use nestdaq.Metrics.Sockets.First.{Other, initialize_socket_properties_first}
use nestdaq.Tests.Splitter.{splitter, cut_compress}
use nestdaq.Tests.Server.{
  Server, server, server-HashLaws, server-FieldLaws, find, entries_of, without,
}

over : Test
over n (pos ttl) = ltb (ttl * 1000000) n
over n (negsuc ttl) = true

over-TestLaws : TestLaws over
unfolding over
over-TestLaws = record {
  over_above = λ n ttl small bound h. ground arith;
  over_below = λ n ttl small h. ground arith;
}

abbrev pub sink : Instance
sink = record {
  id = codes "Sink-0";
  service_name = codes "Sink";
  separator = codes ":";
  retention_ms = codes "0";
  max_ttl = pos 3000;
}

-- Sampler-0 was last heard of at 1 s, Sink-1 at 9.5 s, and the clock of Sink-2 is ahead.
abbrev registry : Server
registry = record {
  entries =
      (codes "metrics:last-update-ns", codes "Sampler-0", codes "1000000000")
      ∷ (codes "metrics:last-update-ns", codes "Sink-1", codes "9500000000")
      ∷ (codes "metrics:last-update-ns", codes "Sink-2", codes "10000000001")
      ∷ (codes "metrics:state", codes "Sampler-0", codes "IDLE")
      ∷ (codes "metrics:state", codes "Sink-1", codes "IDLE")
      ∷ (codes "metrics:msg-in", codes "Sampler-0:data[0]", codes "7")
      ∷ [];
  strings = [];
  lists = [];
}

abbrev clock : ℕ → ℕ
clock _ = 10000000000

abbrev gone : List Text
gone = codes "Sampler-0" ∷ codes "Sink-2" ∷ []

found :
    expired_instances over (pos 3000) clock 0 (server.hgetall (last_update_ns_key sink) registry)
    ≡ some gone
unfolding expired_instances over stoull entries_of without text_eq join
found = refl

hget-delete_expired_fields_example :
    (s' : Server) × (delete_expired_fields server over sink (busy ∷ free clock registry ∷ [])
      ≡ some s')
    × ((key f : Text)
        → server.hget key f s'
          ≡ (if of_expired sink gone key f then none else server.hget key f registry))
hget-delete_expired_fields_example =
    hget-delete_expired_fields over sink server-HashLaws server-FieldLaws (busy ∷ []) [] clock
      registry gone (tt, tt) found

-- The state of Sampler-0 and its socket go, the state of Sink-1 stays.
expected :
    (of_expired sink gone (codes "metrics:state") (codes "Sampler-0") ≡ true)
    × (of_expired sink gone (codes "metrics:msg-in") (codes "Sampler-0:data[0]") ≡ true)
    × (of_expired sink gone (codes "metrics:state") (codes "Sink-1") ≡ false)
unfolding registered_keys registered_sock_keys contains has_prefix starts_with text_eq join
expected = (refl, refl, refl)

ahead : server.hget (last_update_ns_key sink) (codes "Sink-2") registry ≡ some (codes "10000000001")
unfolding find text_eq join
ahead = refl

ahead_number : stoull (codes "10000000001") ≡ some 10000000001
unfolding stoull
ahead_number = refl

hget-delete_expired_fields_ahead_example :
    (s' : Server) × (delete_expired_fields server over sink (busy ∷ free clock registry ∷ [])
      ≡ some s')
    × ((key : Text)
        → contains (registered_keys sink) key ≡ true
        → server.hget key (codes "Sink-2") s' ≡ none)
hget-delete_expired_fields_ahead_example =
    hget-delete_expired_fields_ahead server-HashLaws server-FieldLaws over-TestLaws sink (busy ∷ [])
      [] clock registry gone 3000 (omega arith) refl (tt, tt) found (codes "Sink-2")
      (codes "10000000001") 10000000001 ahead ahead_number (omega arith) (λ j. omega arith)
      (λ j. omega arith)

-- The sockets a[0] and data[0]; the address is the first property of each.
abbrev address_key : Text
address_key = codes "chans.data.0.address"

told : pieces splitter address_key ≡ some (codes "data[0]", codes "address")
unfolding socket_field cut_compress
told = refl

told_other : pieces splitter (codes "chans.a.0.address") ≡ some (codes "a[0]", codes "address")
unfolding socket_field cut_compress
told_other = refl

apart : text_eq (codes "data[0]") (codes "a[0]") ≡ false
unfolding text_eq
apart = refl

another :
    Other splitter
      (codes "data[0]")
      (codes "address")
      address_key
      told
      (codes "chans.a.0.address", codes "tcp://*:1")
another n f q = ap (text_eq (codes "data[0]")) (sym same) ∙ apart
  where
    same : codes "a[0]" ≡ n
    same = cc (told_other, q)

initialize_socket_properties_first_example :
    initialize_socket_properties splitter
      ((codes "chans.a.0.address", codes "tcp://*:1") ∷ (address_key, codes "tcp://*:2") ∷ [])
    ≡ initialize_socket_properties splitter
        ((codes "chans.a.0.address", codes "tcp://*:1") ∷ (address_key, []) ∷ [])
initialize_socket_properties_first_example =
    initialize_socket_properties_first splitter (codes "data[0]") (codes "address") address_key told
      (codes "tcp://*:2") [] ((codes "chans.a.0.address", codes "tcp://*:1") ∷ []) [] (another, tt)
