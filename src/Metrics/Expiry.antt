-- ===== src/Metrics/Expiry.antt =====
-- DeleteExpiredFields of plugins/MetricsPlugin.cxx. The comparison of doubles is a parameter.
pub mod Deleted
pub mod Ages
use nestdaq.Base.{
  ℕ, suc, ◌+◌, ◌-◌, ◌*◌, ◌%◌, ◌≤◌, ◌<◌, ◌≡◌, Bool, true, false, List, [], ◌∷◌, Option, none, some,
  if◌then◌else◌,
}
use nestdaq.Text.{Text, contains}
use nestdaq.Text.Number.{ℤ, pos}
use nestdaq.Text.Number.Wide.{stoull, unsigned_bound}
use nestdaq.Topology.Address.{starts_with}
use nestdaq.Redis.{Redis}
use nestdaq.Metrics.Keys.{Instance, last_update_ns_key, registered_keys, registered_sock_keys}

-- n / 1e6 > ttl, on doubles
abbrev pub Test : Type 0
Test = ℕ → ℤ → Bool

-- Rounding is monotone, and the whole numbers at hand are doubles.
pub record TestLaws (over : Test) : Type 0 where
  pub over_above :
      (n ttl : ℕ)
      → ttl < 4294967296
      → n < unsigned_bound
      → (ttl + 1) * 1000000 ≤ n
      → over n (pos ttl) ≡ true
  pub over_below : (n ttl : ℕ) → ttl < 4294967296 → n ≤ ttl * 1000000 → over n (pos ttl) ≡ false

-- tNow - tNS on 64 bits
abbrev pub elapsed : ℕ → ℕ → ℕ
elapsed t_now t_ns = (t_now + (unsigned_bound - t_ns)) % unsigned_bound

-- The loop over the hash of the last updates, with the readings of the clock from the `i`-th on;
-- `none` is the exception of std::stoull.
unfoldable pub expired_instances : Test → ℤ → (ℕ → ℕ) → ℕ → List (Text × Text) → Option (List Text)
expired_instances over ttl now i [] = some []
expired_instances over ttl now i ((k, v) ∷ h) = elim (stoull v) [
  | none ↦ none
  | some t_ns ↦ elim (expired_instances over ttl now (suc i) h) [
    | none ↦ none
    | some ks ↦ some (if over (elapsed (now i) t_ns) ttl then k ∷ ks else ks)
  ]
]

-- `sockets` after an insertion of the entries of one more hash, by their names
unfoldable pub insert_names : List (Text × Text) → List Text → List Text
insert_names [] names = names
insert_names ((f, v) ∷ h) names = insert_names h (if contains names f then names else f ∷ names)

module _ (R : Redis) where
  -- HDEL key fields
  unfoldable pub hdel_fields : Text → List Text → R.Store → R.Store
  hdel_fields k [] s = s
  hdel_fields k (f ∷ fs) s = hdel_fields k fs (R.hdel k f s)

  -- the loop over fRegisteredKeys
  unfoldable pub hdel_keys : List Text → List Text → R.Store → R.Store
  unfolding hdel_fields
  hdel_keys [] fs s = s
  hdel_keys (k ∷ ks) fs s = hdel_keys ks fs (hdel_fields k fs s)

  -- the loop over `sockets` for one instance
  unfoldable pub hdel_sockets : Text → Text → List Text → R.Store → R.Store
  hdel_sockets k inst_name [] s = s
  hdel_sockets k inst_name (f ∷ fs) s =
      hdel_sockets k inst_name fs (if starts_with inst_name f then R.hdel k f s else s)

  unfoldable pub hdel_instances : Text → List Text → List Text → R.Store → R.Store
  unfolding hdel_sockets
  hdel_instances k [] fs s = s
  hdel_instances k (inst_name ∷ insts) fs s =
      hdel_instances k insts fs (hdel_sockets k inst_name fs s)

  -- The loop over fRegisteredSockKeys. The hashes are read before the pipeline is executed: `seen` is
  -- the store that is read, the last argument the one that the pipeline makes.
  unfoldable pub hdel_sock_keys : List Text → List Text → List Text → R.Store → R.Store → R.Store
  unfolding insert_names hdel_instances
  hdel_sock_keys [] expired sockets seen s = s
  hdel_sock_keys (k ∷ ks) expired sockets seen s =
      let sockets' = insert_names (R.hgetall k seen) sockets in
      hdel_sock_keys ks expired sockets' seen (hdel_instances k expired sockets' s)

  module _ (over : Test) (p : Instance) where
    -- What is done under the lock; `none` is an exception.
    unfoldable pub delete_under_lock : (ℕ → ℕ) → R.Store → Option R.Store
    unfolding expired_instances hdel_keys hdel_sock_keys
    delete_under_lock now s =
        elim (expired_instances over p.max_ttl now 0 (R.hgetall (last_update_ns_key p) s)) [
          | none ↦ none
          | some [] ↦ some s
          | some (e ∷ es) ↦ some (
              hdel_sock_keys (registered_sock_keys p) (e ∷ es) [] s
                (hdel_keys (registered_keys p) (e ∷ es) s))
        ]

    -- What a round of the loop meets: the lock is held by another, or it is free at a state of the
    -- registry and at readings of the clock.
    pub data Round : Type 0 where
      busy : Round
      free : (ℕ → ℕ) → R.Store → Round

    -- The state after the rounds of the loop; `none` means that it goes on.
    unfoldable pub delete_expired_fields : List Round → Option R.Store
    unfolding delete_under_lock
    delete_expired_fields [] = none
    delete_expired_fields (busy ∷ rs) = delete_expired_fields rs
    delete_expired_fields (free now s ∷ rs) = elim (delete_under_lock now s) [
      | none ↦ delete_expired_fields rs
      | some s' ↦ some s'
    ]
