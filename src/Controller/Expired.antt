-- ===== src/Controller/Expired.antt =====
-- ProcessExpiredKey of controller/WebGui.cxx.
pub mod Keys
use nestdaq.Base.{List, [], ◌∷◌, Option, none, some, if◌then◌else◌}
use nestdaq.Text.{Text, codes, join}
use nestdaq.Text.Search.{npos, size_suc, find_first_of, substr}
use nestdaq.Text.Split.{Algorithm}
use nestdaq.Redis.{Redis}
use nestdaq.Topology.Address.{occurs}
use nestdaq.Service.Instance.{top_prefix, service_instance_index_prefix}

module _ (R : Redis) (A : Algorithm) (separator : Text) where
  -- hdel of the part of the name behind its first hyphen; an exception is caught
  delete_index : Text → Text → R.Store → R.Store
  delete_index service_name inst_name s =
      elim (substr inst_name (size_suc (find_first_of inst_name (codes "-"))) npos) [
        | none ↦ s
        | some inst_index ↦
            R.hdel (join (top_prefix ∷ service_instance_index_prefix ∷ service_name ∷ []) separator)
              inst_index s
      ]

  -- prefix:service:instance:presence; `none` is a read behind the end of `v`
  delete_index_of : List Text → R.Store → Option R.Store
  unfolding delete_index
  delete_index_of (_ ∷ service_name ∷ inst_name ∷ _) s =
      some (delete_index service_name inst_name s)
  delete_index_of _ s = none

  pub process_expired_key : Text → R.Store → Option R.Store
  unfolding delete_index_of
  process_expired_key key s =
      if occurs (codes "presence") key then delete_index_of (A.split key (codes ":")) s else some s
