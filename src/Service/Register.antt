-- ===== src/Service/Register.antt =====
-- Register behind SetId, and ResetTtl at each tick of the timer (plugins/DaqServicePlugin.cxx), on
-- the registry. The times are texts of the clock.
pub mod Foreign
pub mod Alive
use nestdaq.Base.{ℕ, List, [], ◌∷◌, ◌++◌}
use nestdaq.Text.{Text, codes, join}
use nestdaq.Redis.{Redis}
use nestdaq.Service.Instance.{Setting, Claim, top_prefix}
use nestdaq.Controller.Wait.{fair_mq_state_prefix}
use nestdaq.Controller.Summary.{update_time_prefix}
use nestdaq.Topology.Channel.{Config, hset_all, reset_ttl}

-- fHealth
pub record Health : Type 0 where
  pub host_name : Text
  pub ip_address : Text
  pub created_time : Text

abbrev pub key_of : Setting → Claim → Text → Text
key_of cfg c prefix = join (top_prefix ∷ cfg.service_name ∷ c.id ∷ prefix ∷ []) cfg.separator

abbrev pub prog_option_key : Setting → Claim → Text
prog_option_key cfg c = key_of cfg c (codes "option")

abbrev pub health_key : Setting → Claim → Text
health_key cfg c = key_of cfg c (codes "health")

abbrev pub fair_mq_state_key : Setting → Claim → Text
fair_mq_state_key cfg c = key_of cfg c fair_mq_state_prefix

abbrev pub update_time_key : Setting → Claim → Text
update_time_key cfg c = key_of cfg c update_time_prefix

-- The keys that Register inserts.
abbrev pub registered : Setting → Claim → Claim
registered cfg c = record c {
  registered_keys =
      prog_option_key cfg c
      ∷ health_key cfg c
      ∷ update_time_key cfg c
      ∷ fair_mq_state_key cfg c
      ∷ c.registered_keys;
}

abbrev pub health_fields : Setting → Claim → Health → Text → Text → List (Text × Text)
health_fields cfg c h updated_time uptime =
    (codes "instanceID", c.id)
    ∷ (codes "uuid", cfg.uuid)
    ∷ (codes "hostName", h.host_name)
    ∷ (codes "hostIp", h.ip_address)
    ∷ (codes "serviceName", cfg.service_name)
    ∷ (codes "createdTime", h.created_time)
    ∷ (codes "updatedTime", updated_time)
    ∷ (codes "uptime", uptime)
    ∷ []

-- What a tick of the timer finds: the date and the uptime, the state of the device, and the keys that
-- the topology has registered, none of them without a topology.
pub record Tick : Type 0 where
  pub last_checked : Text
  pub uptime : Text
  pub state_name : Text
  pub topology_keys : List Text

module _ (R : Redis) (cfg : Setting) where
  -- WriteProgOptions never executes its pipeline.
  unfoldable pub register : Health → Text → Text → Claim → R.Store → Claim × R.Store
  register h updated_time uptime c s = (
    registered cfg c,
    R.expire (health_key cfg c) cfg.max_ttl
        (hset_all R (health_key cfg c) (health_fields cfg c h updated_time uptime) s),
  )

module _ (R : Redis) (cfg : Setting) (topology : Config) where
  unfoldable pub refresh_ttl : Tick → Claim → R.Store → R.Store
  refresh_ttl t c s = reset_ttl R topology t.topology_keys (
      R.expire (prog_option_key cfg c) cfg.max_ttl (
        R.expire (health_key cfg c) cfg.max_ttl (
          R.setex (update_time_key cfg c) cfg.max_ttl t.last_checked (
            R.setex (fair_mq_state_key cfg c) cfg.max_ttl t.state_name (
              R.setex c.presence_key cfg.max_ttl cfg.uuid (
                hset_all R (health_key cfg c)
                  ((codes "updatedTime", t.last_checked) ∷ (codes "uptime", t.uptime) ∷ []) s))))))

  -- The ticks of the timer, which starts again after each.
  unfoldable pub live : List Tick → Claim → R.Store → R.Store
  unfolding refresh_ttl
  live [] c s = s
  live (t ∷ ts) c s = live ts c (refresh_ttl t c s)
