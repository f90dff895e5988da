-- ===== src/Service/Instance.antt =====
-- Plugin::SetId (plugins/DaqServicePlugin.cxx): the instance index is claimed in a hash of the
-- registry, under a lock that keeps other instances out of the section modelled here.
pub mod Names
pub mod Search
pub mod Sorting
pub mod Fresh
use nestdaq.Base.{ℕ, zero, suc, not, ◌&&◌, List, [], ◌∷◌, ◌++◌, Option, none, some, if◌then◌else◌}
use nestdaq.Text.{Text, codes, text_eq, contains, join}
use nestdaq.Text.Number.{to_string_nat}
use nestdaq.Redis.{Redis}

-- plugins/Constants.h
abbrev pub top_prefix : Text
top_prefix = codes "daq_service"

abbrev pub presence_prefix : Text
presence_prefix = codes "presence"

abbrev pub service_instance_index_prefix : Text
service_instance_index_prefix = codes "service-instance-index"

-- What SetId knows of the instance.
pub record Setting : Type 0 where
  pub service_name : Text
  pub uuid : Text
  pub separator : Text
  pub max_ttl : ℕ

-- What SetId leaves behind: fId, fPresence->key, fRegisteredKeys and fRegisteredHashes.
pub record Claim : Type 0 where
  pub id : Text
  pub presence_key : Text
  pub registered_keys : List Text
  pub registered_hashes : List (Text × Text)

abbrev pub index_key : Setting → Text
index_key cfg =
    join (top_prefix ∷ service_instance_index_prefix ∷ cfg.service_name ∷ []) cfg.separator

abbrev pub instance_id : Setting → ℕ → Text
instance_id cfg n = cfg.service_name ++ (codes "-" ++ to_string_nat n)

abbrev pub presence_key : Setting → Text → Text
presence_key cfg id = join (top_prefix ∷ cfg.service_name ∷ id ∷ presence_prefix ∷ []) cfg.separator

-- One entry of the hash: an index whose uuid has no presence has expired, and the own uuid keeps
-- its index.
unfoldable pub sort_entry : List Text → Text → List Text × Text → Text × Text → List Text × Text
sort_entry live mine (expired, my_index) (index, uuid) =
    if contains live uuid
    then (expired, if text_eq uuid mine then index else my_index)
    else (expired ++ (index ∷ []), my_index)

-- The loop over the hash.
unfoldable pub sort_out :
    List Text → Text → List Text × Text → List (Text × Text) → List Text × Text
unfolding sort_entry
sort_out live mine acc [] = acc
sort_out live mine acc (e ∷ h) = sort_out live mine (sort_entry live mine acc e) h

-- Before SetId.
abbrev pub initial : Claim
initial = record { id = []; presence_key = []; registered_keys = []; registered_hashes = [] }

-- fId once the section under the lock is left
or_uuid : Setting → Claim → Claim
or_uuid cfg c = if text_eq c.id [] then record c { id = cfg.uuid } else c

module _ (R : Redis) where
  -- MGET of the presence keys; what has expired in between is left out
  unfoldable pub values : List Text → R.Store → List Text
  values [] s = []
  values (k ∷ ks) s = elim (R.get k s) [ none ↦ values ks s | some v ↦ v ∷ values ks s ]

  unfoldable pub live_uuids : Setting → R.Store → List Text
  unfolding values
  live_uuids cfg s =
      values
        (R.scan
          (join (top_prefix ∷ cfg.service_name ∷ codes "*" ∷ presence_prefix ∷ []) cfg.separator) s)
        s

  pub hdel_all : Text → List Text → R.Store → R.Store
  hdel_all key [] s = s
  hdel_all key (f ∷ fs) s = hdel_all key fs (R.hdel key f s)

  -- HSETNX for index = 0, 1, …; `none` when the fuel runs out
  pub claim : ℕ → Text → Text → ℕ → R.Store → Option (ℕ × R.Store)
  claim zero key uuid index s = none
  claim (suc fuel) key uuid index s = elim (R.hget key (to_string_nat index) s) [
    | none ↦ some (index, R.hset key (to_string_nat index) uuid s)
    | some _ ↦ claim fuel key uuid (suc index) s
  ]

  -- The section under the lock. An index that the uuid holds already is kept, and then neither the
  -- id nor the presence key is set.
  pub under_lock : ℕ → Setting → Claim → R.Store → Option (Claim × R.Store)
  unfolding live_uuids sort_out hdel_all claim
  under_lock fuel cfg c s =
      let (expired, my_index) =
        sort_out (live_uuids cfg s) cfg.uuid ([], []) (R.hgetall (index_key cfg) s) in
      let s' = hdel_all (index_key cfg) expired s in
      elim my_index [
        | [] ↦ elim (claim fuel (index_key cfg) cfg.uuid 0 s') [
          | none ↦ none
          | some (n, s'') ↦
              let id = instance_id cfg n in
              some (
                record {
                  id = id;
                  presence_key = presence_key cfg id;
                  registered_keys = presence_key cfg id ∷ c.registered_keys;
                  registered_hashes = (index_key cfg, to_string_nat n) ∷ c.registered_hashes;
                },
                R.setex (presence_key cfg id) cfg.max_ttl cfg.uuid s'',
              )
        ]
        | d ∷ ds ↦ some (c, s')
      ]

  -- SetId, with the id that the options give, if they give one.
  pub set_id : ℕ → Setting → Option Text → Claim → R.Store → Option (Claim × R.Store)
  unfolding under_lock or_uuid
  set_id fuel cfg given c s =
      let c₁ : Claim = elim given [ none ↦ c | some id ↦ record c { id = id } ] in
      if text_eq c₁.id [] && not (text_eq cfg.service_name [])
      then elim (under_lock fuel cfg c₁ s) [
        | none ↦ none
        | some (c₂, s') ↦ some (or_uuid cfg c₂, s')
      ]
      else some (or_uuid cfg c₁, s)
