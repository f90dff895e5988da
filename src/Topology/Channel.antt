-- ===== src/Topology/Channel.antt =====
-- TopologyConfig::WriteChannel and ResetTtl (plugins/TopologyConfig.cxx).
pub mod Entries
use nestdaq.Base.{ℕ, suc, List, [], ◌∷◌, ◌++◌, Option, length}
use nestdaq.Text.{Text, codes, join}
use nestdaq.Text.Number.{to_string_nat}
use nestdaq.Redis.{Redis}
use nestdaq.Topology.Property.{SocketProperty, property_fields}

-- The fields that the constructor reads from the options of the device.
pub record Config : Type 0 where
  pub top_prefix : Text
  pub service_name : Text
  pub id : Text
  pub separator : Text
  pub max_ttl : ℕ

abbrev pub channel_key : Config → Text → Text
channel_key cfg name =
    join (cfg.top_prefix ∷ cfg.service_name ∷ cfg.id ∷ codes "channel" ∷ name ∷ []) cfg.separator

abbrev pub list_key : Config → Text → Text
list_key cfg name = join (channel_key cfg name ∷ codes "peer" ∷ []) cfg.separator

module _ (R : Redis) where
  -- The state that WriteChannel changes: the registry, fRegisteredKeys and the properties of the
  -- device.
  pub record Topology : Type 0 where
    pub store : R.Store
    pub registered_keys : List Text
    pub properties : List (Text × Text)

  -- HSET key field value [field value ...]
  unfoldable pub hset_all : Text → List (Text × Text) → R.Store → R.Store
  hset_all key [] s = s
  hset_all key ((f, v) ∷ h) s = hset_all key h (R.hset key f v s)

  -- The commands of the pipeline, in their order.
  unfoldable pub channel_commands : Config → SocketProperty → List Text → R.Store → R.Store
  unfolding hset_all
  channel_commands cfg sp peers s =
      let key = channel_key cfg sp.name in
      let keys = list_key cfg sp.name in
      R.expire keys cfg.max_ttl
        (R.rpush keys peers (R.expire key cfg.max_ttl (hset_all key (property_fields sp) s)))

  unfoldable pub write_channel : Config → SocketProperty → List Text → Topology → Topology
  unfolding channel_commands
  write_channel cfg sp [] t = t
  write_channel cfg sp (p ∷ ps) t = record {
    store = channel_commands cfg sp (p ∷ ps) t.store;
    registered_keys = t.registered_keys ++ (channel_key cfg sp.name ∷ list_key cfg sp.name ∷ []);
    properties = (codes "n-peers:" ++ sp.name, to_string_nat (length (p ∷ ps))) ∷ t.properties;
  }

  -- ResetTtl
  unfoldable pub reset_ttl : Config → List Text → R.Store → R.Store
  reset_ttl cfg [] s = s
  reset_ttl cfg (k ∷ ks) s = reset_ttl cfg ks (R.expire k cfg.max_ttl s)
