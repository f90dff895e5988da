-- ===== src/Service/Register/Foreign.antt =====
-- The keys that a registered instance (plugins/DaqServicePlugin.cxx) does not write.
use nestdaq.Base.{◌<◌, ◌≡◌, ◌≢◌, ◌∙◌, refl, ap, true, false, List, [], ◌∷◌, arith}
use nestdaq.Text.{Text, codes, text_eq_refl, contains}
use nestdaq.Redis.{Redis, ForeignLaws}
use nestdaq.Service.Instance.{Setting, Claim}
use nestdaq.Topology.Channel.{Config, hset_all, reset_ttl}
use nestdaq.Service.Register.{
  Health, Tick, prog_option_key, health_key, fair_mq_state_key, update_time_key, registered,
  health_fields, register, refresh_ttl, live,
}

module _ {R : Redis} (F : ForeignLaws R) (cfg : Setting) (positive : 0 < cfg.max_ttl)
    (topology : Config) (lasting : 0 < topology.max_ttl) (c : Claim)
    (presence : contains c.registered_keys c.presence_key ≡ true) (k : Text)
    (foreign : contains (registered cfg c).registered_keys k ≡ false) where
  -- The key holds the same string and the same fields.
  abbrev pub Kept : R.Store → R.Store → Type 0
  Kept s s' = (R.get k s' ≡ R.get k s) × ((f : Text) → R.hget k f s' ≡ R.hget k f s)

  also : (s s' s'' : R.Store) → Kept s s' → Kept s' s'' → Kept s s''
  also s s' s'' (p, q) (p', q') = (p' ∙ p, λ f. q' f ∙ q f)

  differs : (j : Text) → contains (registered cfg c).registered_keys j ≡ true → k ≢ j
  differs j y e = cc (ap (contains (registered cfg c).registered_keys) e)

  setex-Kept : (j v : Text) (s : R.Store) → k ≢ j → Kept s (R.setex j cfg.max_ttl v s)
  setex-Kept j v s ne =
      (F.get-setex k j cfg.max_ttl v s ne, λ f. F.hget-setex k j cfg.max_ttl v f s ne)

  expire-Kept : (j : Text) (s : R.Store) → Kept s (R.expire j cfg.max_ttl s)
  expire-Kept j s =
      (F.get-expire k j cfg.max_ttl s positive, λ f. F.hget-expire k j cfg.max_ttl f s positive)

  hset-Kept : (j g v : Text) (s : R.Store) → k ≢ j → Kept s (R.hset j g v s)
  hset-Kept j g v s ne = (F.get-hset k j g v s ne, λ f. F.hget-hset k j g v f s ne)

  hset_all-Kept :
      (j : Text) (h : List (Text × Text)) (s : R.Store) → k ≢ j → Kept s (hset_all R j h s)
  unfolding hset_all
  hset_all-Kept j [] s ne = (refl, λ f. refl)
  hset_all-Kept j ((g, v) ∷ h) s ne =
      also s (R.hset j g v s) _ (hset-Kept j g v s ne) (hset_all-Kept j h (R.hset j g v s) ne)

  reset_ttl-Kept : (ks : List Text) (s : R.Store) → Kept s (reset_ttl R topology ks s)
  unfolding reset_ttl
  reset_ttl-Kept [] s = (refl, λ f. refl)
  reset_ttl-Kept (j ∷ ks) s =
      also s (R.expire j topology.max_ttl s) _
        (
          F.get-expire k j topology.max_ttl s lasting,
          λ f. F.hget-expire k j topology.max_ttl f s lasting,
        )
        (reset_ttl-Kept ks (R.expire j topology.max_ttl s))

  not_health : k ≢ health_key cfg c
  unfolding contains
  not_health = differs (health_key cfg c) (ground (arith, text_eq_refl (health_key cfg c)))

  not_state : k ≢ fair_mq_state_key cfg c
  unfolding contains
  not_state =
      differs (fair_mq_state_key cfg c) (ground (arith, text_eq_refl (fair_mq_state_key cfg c)))

  not_update : k ≢ update_time_key cfg c
  unfolding contains
  not_update =
      differs (update_time_key cfg c) (ground (arith, text_eq_refl (update_time_key cfg c)))

  not_presence : k ≢ c.presence_key
  unfolding contains
  not_presence = differs c.presence_key (ground (arith, presence))

  refresh_ttl-Kept : (t : Tick) (s : R.Store) → Kept s (refresh_ttl R cfg topology t c s)
  unfolding refresh_ttl
  refresh_ttl-Kept t s =
      also s _ _
        (hset_all-Kept (health_key cfg c)
          ((codes "updatedTime", t.last_checked) ∷ (codes "uptime", t.uptime) ∷ []) s not_health)
        (also _ _ _ (setex-Kept c.presence_key cfg.uuid _ not_presence) (
          also _ _ _ (setex-Kept (fair_mq_state_key cfg c) t.state_name _ not_state) (
            also _ _ _ (setex-Kept (update_time_key cfg c) t.last_checked _ not_update) (
              also _ _ _ (expire-Kept (health_key cfg c) _) (
                also _ _ _ (expire-Kept (prog_option_key cfg c) _)
                  (reset_ttl-Kept t.topology_keys _))))))

  live-Kept : (ts : List Tick) (s : R.Store) → Kept s (live R cfg topology ts c s)
  unfolding live
  live-Kept [] s = (refl, λ f. refl)
  live-Kept (t ∷ ts) s = also s _ _ (refresh_ttl-Kept t s) (live-Kept ts _)

  register-Kept : (h : Health) (d u : Text) (s : R.Store) → Kept s (register R cfg h d u c s).1
  unfolding register
  register-Kept h d u s =
      also s _ _ (hset_all-Kept (health_key cfg c) (health_fields cfg c h d u) s not_health)
        (expire-Kept (health_key cfg c) _)

  -- Register and the ticks leave a key alone that Register does not leave registered.
  pub register-live-Kept :
      (h : Health) (d u : Text) (ts : List Tick) (s : R.Store)
      → Kept s (live R cfg topology ts c (register R cfg h d u c s).1)
  register-live-Kept h d u ts s = also s _ _ (register-Kept h d u s) (live-Kept ts _)
