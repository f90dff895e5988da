-- ===== src/Tests/Parameters.antt =====
-- The parameters on the server.
use nestdaq.Base.{
  ℕ, ◌<◌, ◌≡◌, ◌≢◌, ◌||◌, ◌++◌, refl, sym, subst, true, false, List, [], ◌∷◌, map, Option, none,
  some, arith, length, All, if◌then◌else◌, Bool-cases, inl, inr,
}
use nestdaq.Text.{Text, codes, text_eq, text_eq_sound, contains, join}
use nestdaq.Text.Number.{ℤ, pos, InInt, to_string, to_string_nat}
use nestdaq.Text.Search.{npos, has}
use nestdaq.Text.Table.{keys}
use nestdaq.Text.Names.{Distinct}
use nestdaq.Topology.Address.{starts_with, occurs}
use nestdaq.Service.Instance.{Setting, instance_id}
use nestdaq.Parameters.Property.{Floating, Property, Host, HostLaws, string, int, pairs}
use nestdaq.Parameters.Property.Settings.{Textual}
use nestdaq.Parameters.Reserved.{reserved_options_int, is_reserved_option, parse}
use nestdaq.Parameters.Reserved.Kinds.{Written, parse-Written, parse-int, shm_segment_id}
use nestdaq.Parameters.Reserved.Maps.{written, Words, parse-written}
use nestdaq.Parameters.Read.{read_parameters}
use nestdaq.Parameters.Read.Overrides.{Plain, over}
use nestdaq.Parameters.Read.Instance.{
  group_key_of, own_key_of, names_at, PlainHash, read_parameters-over,
}
use nestdaq.Parameters.Change.{
  message, timeout, shutdown, ended, consume_all, construct, server_uri, service_registry_uri,
  no_names,
}
use nestdaq.Parameters.Change.Follows.{construct-registry_uri, consume_all-over}
use nestdaq.Tests.Splitter.{splitter, splitter-CompressLaws}
use nestdaq.Tests.Server.{Server, server, server-HashLaws, find, keys_of}

-- Numbers of type float do not matter here.
abbrev floating : Floating
floating = record { Float = ℕ; stod = λ t. some 0; apart = λ x y. false }

abbrev Values : Type 0
Values = List (Text × Property floating ℕ)

value_of : Text → Values → Option (Property floating ℕ)
value_of k [] = none
value_of k ((l, v) ∷ st) = let rest = value_of k st in if text_eq k l then some v else rest

abbrev host : Host floating ℕ
host = record { State = Values; get = value_of; set = λ k v st. (k, v) ∷ st }

host-HostLaws : HostLaws floating ℕ host
unfolding value_of
host-HostLaws = record { get-set = λ k name v st. refl }

abbrev cfg : Setting
cfg = record {
  service_name = codes "Sampler";
  uuid = codes "a1";
  separator = codes ":";
  max_ttl = 5;
}

-- A gain of the service and one of its first instance.
abbrev gains : Server
gains = record {
  entries =
      (codes "parameters:Sampler-0", codes "gain", codes "3")
      ∷ (codes "parameters:Sampler", codes "gain", codes "2")
      ∷ [];
  strings = [];
  lists = [];
}

abbrev options : Values
options =
    (codes "id", string (instance_id cfg 0))
    ∷ (codes "separator", string (codes ":"))
    ∷ (service_registry_uri, string (codes "tcp://localhost:6379/0"))
    ∷ []

has_id : host.get (codes "id") options ≡ some (string (instance_id cfg 0))
unfolding value_of text_eq
has_id = refl

has_separator : host.get (codes "separator") options ≡ some (string cfg.separator)
unfolding value_of text_eq
has_separator = refl

some_separator : text_eq cfg.separator [] ≡ false
unfolding text_eq
some_separator = refl

own_fits : length (own_key_of cfg 0) < npos
unfolding to_string_nat
own_fits = omega arith

none_below : (k : Text) → server.scan k gains ≡ []
unfolding keys_of
none_below k = refl

plain :
    (f v w : Text)
    → text_eq f (codes "gain") ≡ true
    → occurs (codes ",") w ≡ false
    → some w ≡ some v
    → Plain f v × Textual host-HostLaws options f
unfolding is_reserved_option contains text_eq value_of
plain f v w y c e =
    subst (λ g. Plain g v × Textual host-HostLaws options g)
      (sym (text_eq_sound f (codes "gain") y))
      ((refl, subst (λ u. occurs (codes ",") u ≡ false) (inj e) c), inl refl)
  where
    inj : some w ≡ some v → w ≡ v
    inj p = cc

group_plain :
    PlainHash server host-HostLaws splitter server-HashLaws cfg 0 gains (group_key_of cfg) options
unfolding find text_eq occurs starts_with
group_plain f v e = elim (Bool-cases (text_eq f (codes "gain"))) [
  | inl y ↦ plain f v (codes "2") y refl (rw y at e)
  | inr n ↦ absurd (clash (rw n at e))
]
  where
    clash : none ≡ some v → ⊥
    clash p = cc

own_plain :
    PlainHash server host-HostLaws splitter server-HashLaws cfg 0 gains (own_key_of cfg 0) options
unfolding find text_eq occurs starts_with to_string_nat
own_plain f v e = elim (Bool-cases (text_eq f (codes "gain"))) [
  | inl y ↦ plain f v (codes "3") y refl (rw y at e)
  | inr n ↦ absurd (clash (rw n at e))
]
  where
    clash : none ≡ some v → ⊥
    clash p = cc

read_parameters-over_example :
    (st' : Values) × (read_parameters server floating host splitter no_names gains options
      ≡ some (names_at cfg 0, st'))
    × ((k : Text)
        → host.get k st'
          ≡ over
              (server.hget (own_key_of cfg 0) k gains)
              (over (server.hget (group_key_of cfg) k gains) (host.get k options)))
read_parameters-over_example =
    read_parameters-over server host-HostLaws splitter server-HashLaws cfg 0 gains options has_id
      has_separator some_separator own_fits (none_below []) (none_below []) group_plain own_plain

abbrev own_channel : Text
own_channel = codes "__keyspace@0__:parameters:Sampler-0"

on_channel : (text_eq own_channel own_channel || text_eq own_channel (codes "g")) ≡ true
unfolding text_eq
on_channel = refl

consume_all-over_example :
    (st' : Values) × (consume_all server floating host splitter own_channel
        (codes "g")
        ((timeout ∷ []) ++ (message own_channel gains ∷ shutdown ∷ []))
        (names_at cfg 0)
        options
      ≡ ended (names_at cfg 0) st')
    × ((k : Text)
        → host.get k st'
          ≡ over
              (server.hget (own_key_of cfg 0) k gains)
              (over (server.hget (group_key_of cfg) k gains) (host.get k options)))
consume_all-over_example =
    consume_all-over server splitter host-HostLaws server-HashLaws cfg 0 gains own_channel
      (codes "g") own_channel (timeout ∷ []) options (tt, tt) on_channel some_separator
      (none_below []) (none_below []) group_plain own_plain

no_server_uri : host.get server_uri options ≡ none
unfolding value_of text_eq
no_server_uri = refl

registry_uri :
    host.get service_registry_uri options ≡ some (string (codes "tcp://localhost:6379/0"))
unfolding value_of text_eq
registry_uri = refl

is_some_uri : text_eq (codes "tcp://localhost:6379/0") [] ≡ false
unfolding text_eq
is_some_uri = refl

no_group_uri : server.hget (group_key_of cfg) server_uri gains ≡ none
unfolding find text_eq
no_group_uri = refl

no_own_uri : server.hget (own_key_of cfg 0) server_uri gains ≡ none
unfolding find text_eq to_string_nat
no_own_uri = refl

-- A change of the gain comes too late.
abbrev new_gains : Server
new_gains = record gains { entries = (codes "parameters:Sampler-0", codes "gain", codes "9") ∷ [] }

construct-registry_uri_example :
    (st' : Values) × (construct server floating host splitter gains
        (message own_channel new_gains ∷ [])
        options
      ≡ ended (names_at cfg 0) st')
    × ((k : Text)
        → host.get k st'
          ≡ over
              (server.hget (own_key_of cfg 0) k gains)
              (over (server.hget (group_key_of cfg) k gains) (host.get k options)))
construct-registry_uri_example =
    construct-registry_uri server splitter host-HostLaws server-HashLaws cfg 0 gains
      (message own_channel new_gains ∷ []) options (codes "tcp://localhost:6379/0") no_server_uri
      registry_uri is_some_uri has_id has_separator some_separator own_fits (none_below [])
      (none_below []) group_plain own_plain no_group_uri no_own_uri

is_reserved : is_reserved_option shm_segment_id ≡ true
unfolding is_reserved_option contains text_eq
is_reserved = refl

not_set : host.get shm_segment_id [] ≡ none
unfolding value_of
not_set = refl

parse-Written_example :
    Written host-HostLaws splitter shm_segment_id
      (parse floating ℕ host splitter shm_segment_id (codes "7") [])
parse-Written_example =
    parse-Written host-HostLaws splitter shm_segment_id (codes "7") [] is_reserved not_set

io_threads : contains reserved_options_int (codes "io-threads") ≡ true
unfolding contains text_eq
io_threads = refl

no_threads : host.get (codes "io-threads") [] ≡ none
unfolding value_of
no_threads = refl

parse-int_example :
    (y : ℤ) × (parse floating ℕ host splitter (codes "io-threads") (to_string (pos 4)) []
      ≡ some ((codes "io-threads", int y) ∷ []))
    × InInt y
    × (InInt (pos 4) → y ≡ pos 4)
parse-int_example =
    parse-int host-HostLaws splitter (codes "io-threads") (pos 4) [] io_threads no_threads
      (omega arith)

abbrev two_pairs : List (Text × Text)
two_pairs = (codes "a", codes "1") ∷ (codes "b", codes "2") ∷ []

not_nil : (c : ℕ) → c ∷ [] ≢ []
not_nil c e = cc

words : All Words two_pairs
unfolding has
words = (
  ((not_nil 97, (refl, tt)), (not_nil 49, (refl, tt))),
  (((not_nil 98, (refl, tt)), (not_nil 50, (refl, tt))), tt),
)

distinct : Distinct (keys two_pairs)
unfolding keys contains text_eq
distinct = (refl, (refl, tt))

unreserved : is_reserved_option (codes "gains") ≡ false
unfolding is_reserved_option contains text_eq
unreserved = refl

parse-written_example :
    parse floating ℕ host splitter (codes "gains") (join (map written two_pairs) (codes ",")) []
    ≡ some ((codes "gains", pairs two_pairs) ∷ [])
parse-written_example =
    parse-written host splitter-CompressLaws (codes "gains") (codes "a", codes "1")
      (codes "b", codes "2") [] [] unreserved words distinct
