-- ===== src/Service/Unregister.antt =====
-- Plugin::Unregister (plugins/DaqServicePlugin.cxx).
pub mod Leaves
use nestdaq.Base.{List, [], ◌∷◌}
use nestdaq.Text.{Text}
use nestdaq.Redis.{Redis}
use nestdaq.Service.Instance.{Claim}

module _ (R : Redis) where
  -- DEL with all the keys
  unfoldable pub del_all : List Text → R.Store → R.Store
  del_all [] s = s
  del_all (k ∷ ks) s = del_all ks (R.del k s)

  -- the loop over fRegisteredHashes
  hdel_each : List (Text × Text) → R.Store → R.Store
  hdel_each [] s = s
  hdel_each ((key, field) ∷ h) s = hdel_each h (R.hdel key field s)

  pub unregister : Claim → R.Store → Claim × R.Store
  unfolding del_all hdel_each
  unregister c s = (
    record c { registered_keys = []; registered_hashes = [] },
    hdel_each c.registered_hashes (del_all c.registered_keys s),
  )
