-- ===== src/Service/Register/Alive.antt =====
-- What the registry says of an instance while the timer of plugins/DaqServicePlugin.cxx ticks.
use nestdaq.Base.{
  ◌<◌, ◌≡◌, ◌≢◌, ◌∙◌, refl, sym, ap, false, List, [], ◌∷◌, ◌++◌, some, Option, take, if◌then◌else◌,
  true, Bool-cases, inl, inr,
}
use nestdaq.Text.{Text, codes, text_eq, text_eq_refl, join, contains}
use nestdaq.Redis.{Redis, ForeignLaws, HashLaws, SetexLaws}
use nestdaq.Service.Instance.{Setting, Claim, top_prefix, presence_prefix}
use nestdaq.Controller.Wait.{fair_mq_state_prefix}
use nestdaq.Controller.Summary.{update_time_prefix}
use nestdaq.Topology.Channel.{Config, hset_all, reset_ttl}
use nestdaq.Service.Register.{
  Health, Tick, key_of, prog_option_key, health_key, fair_mq_state_key, update_time_key, registered,
  health_fields, register, refresh_ttl, live,
}
use nestdaq.Service.Register.Foreign.{register-live-Kept}

cancel_left : (xs : Text) {ys zs : Text} → xs ++ ys ≡ xs ++ zs → ys ≡ zs
cancel_left [] e = e
cancel_left (x ∷ xs) e = cancel_left xs (cc)

-- Keys of an instance with different last parts are different.
key_of-ne :
    (cfg : Setting) (c : Claim) (p q : Text) → text_eq p q ≡ false → key_of cfg c p ≢ key_of cfg c q
unfolding join
key_of-ne cfg c p q ne e = clash (
    cancel_left cfg.separator (
      cancel_left c.id (
        cancel_left cfg.separator
          (cancel_left cfg.service_name (cancel_left cfg.separator (cancel_left top_prefix e))))))
  where
    clash : p ≡ q → ⊥
    clash x = cc (ap (text_eq p) x, text_eq_refl p)

module _ {R : Redis} (F : ForeignLaws R) (K : HashLaws R) (X : SetexLaws R) (cfg : Setting)
    (positive : 0 < cfg.max_ttl) (topology : Config) (lasting : 0 < topology.max_ttl) (c : Claim)
    (own : c.presence_key ≡ key_of cfg c presence_prefix) where
  -- What the last tick has written.
  pub record Current (t : Tick) (s : R.Store) : Type 0 where
    pub presence_lem : R.get c.presence_key s ≡ some cfg.uuid
    pub state_lem : R.get (fair_mq_state_key cfg c) s ≡ some t.state_name
    pub update_lem : R.get (update_time_key cfg c) s ≡ some t.last_checked

  reset_ttl-get :
      (ks : List Text) (k : Text) (s : R.Store) → R.get k (reset_ttl R topology ks s) ≡ R.get k s
  unfolding reset_ttl
  reset_ttl-get [] k s = refl
  reset_ttl-get (j ∷ ks) k s =
      reset_ttl-get ks k (R.expire j topology.max_ttl s)
      ∙ F.get-expire k j topology.max_ttl s lasting

  reset_ttl-hget :
      (ks : List Text) (k f : Text) (s : R.Store)
      → R.hget k f (reset_ttl R topology ks s) ≡ R.hget k f s
  unfolding reset_ttl
  reset_ttl-hget [] k f s = refl
  reset_ttl-hget (j ∷ ks) k f s =
      reset_ttl-hget ks k f (R.expire j topology.max_ttl s)
      ∙ F.hget-expire k j topology.max_ttl f s lasting

  -- The two commands that only give a time to live, and the topology's.
  abbrev prolonged : List Text → R.Store → R.Store
  prolonged ks s =
      reset_ttl R topology ks
        (R.expire (prog_option_key cfg c) cfg.max_ttl (R.expire (health_key cfg c) cfg.max_ttl s))

  get-prolonged : (ks : List Text) (k : Text) (s : R.Store) → R.get k (prolonged ks s) ≡ R.get k s
  get-prolonged ks k s =
      reset_ttl-get ks k _
      ∙ F.get-expire k (prog_option_key cfg c) cfg.max_ttl _ positive
      ∙ F.get-expire k (health_key cfg c) cfg.max_ttl s positive

  hget-prolonged :
      (ks : List Text) (k f : Text) (s : R.Store) → R.hget k f (prolonged ks s) ≡ R.hget k f s
  hget-prolonged ks k f s =
      reset_ttl-hget ks k f _
      ∙ F.hget-expire k (prog_option_key cfg c) cfg.max_ttl f _ positive
      ∙ F.hget-expire k (health_key cfg c) cfg.max_ttl f s positive

  presence-ne-state : c.presence_key ≢ fair_mq_state_key cfg c
  unfolding text_eq
  presence-ne-state e = key_of-ne cfg c presence_prefix fair_mq_state_prefix refl (sym own ∙ e)

  presence-ne-update : c.presence_key ≢ update_time_key cfg c
  unfolding text_eq
  presence-ne-update e = key_of-ne cfg c presence_prefix update_time_prefix refl (sym own ∙ e)

  state-ne-update : fair_mq_state_key cfg c ≢ update_time_key cfg c
  unfolding text_eq
  state-ne-update = key_of-ne cfg c fair_mq_state_prefix update_time_prefix refl

  health-ne-presence : health_key cfg c ≢ c.presence_key
  unfolding text_eq
  health-ne-presence e = key_of-ne cfg c (codes "health") presence_prefix refl (e ∙ own)

  health-ne-state : health_key cfg c ≢ fair_mq_state_key cfg c
  unfolding text_eq
  health-ne-state = key_of-ne cfg c (codes "health") fair_mq_state_prefix refl

  health-ne-update : health_key cfg c ≢ update_time_key cfg c
  unfolding text_eq
  health-ne-update = key_of-ne cfg c (codes "health") update_time_prefix refl

  refresh_ttl-Current : (t : Tick) (s : R.Store) → Current t (refresh_ttl R cfg topology t c s)
  unfolding refresh_ttl
  refresh_ttl-Current t s = record {
    presence_lem =
        get-prolonged t.topology_keys c.presence_key _
        ∙ F.get-setex c.presence_key (update_time_key cfg c) cfg.max_ttl t.last_checked _
            presence-ne-update
        ∙ F.get-setex c.presence_key (fair_mq_state_key cfg c) cfg.max_ttl t.state_name _
            presence-ne-state
        ∙ X.get-setex_self c.presence_key cfg.max_ttl cfg.uuid _ positive;
    state_lem =
        get-prolonged t.topology_keys (fair_mq_state_key cfg c) _
        ∙ F.get-setex (fair_mq_state_key cfg c) (update_time_key cfg c) cfg.max_ttl t.last_checked _
            state-ne-update
        ∙ X.get-setex_self (fair_mq_state_key cfg c) cfg.max_ttl t.state_name _ positive;
    update_lem =
        get-prolonged t.topology_keys (update_time_key cfg c) _
        ∙ X.get-setex_self (update_time_key cfg c) cfg.max_ttl t.last_checked _ positive;
  }

  -- The hash of the instance reads as Register leaves it with the times of a tick.
  abbrev pub Healthy : Health → Text → Text → R.Store → R.Store → Type 0
  Healthy h d u s s' =
      (f : Text)
      → R.hget (health_key cfg c) f s' ≡ R.hget (health_key cfg c) f (register R cfg h d u c s).1

  refresh_ttl-hget :
      (t : Tick) (f : Text) (s : R.Store)
      → R.hget (health_key cfg c) f (refresh_ttl R cfg topology t c s) ≡ (
          if text_eq f (codes "uptime")
          then some t.uptime
          else if text_eq f (codes "updatedTime")
          then some t.last_checked
          else R.hget (health_key cfg c) f s)
  unfolding refresh_ttl hset_all
  refresh_ttl-hget t f s =
      hget-prolonged t.topology_keys (health_key cfg c) f _
      ∙ F.hget-setex (health_key cfg c) (update_time_key cfg c) cfg.max_ttl t.last_checked f _
          health-ne-update
      ∙ F.hget-setex (health_key cfg c) (fair_mq_state_key cfg c) cfg.max_ttl t.state_name f _
          health-ne-state
      ∙ F.hget-setex (health_key cfg c) c.presence_key cfg.max_ttl cfg.uuid f _ health-ne-presence
      ∙ rw
          (
            K.hget-hset (health_key cfg c) (codes "uptime") t.uptime f,
            K.hget-hset (health_key cfg c) (codes "updatedTime") t.last_checked f,
          )
          refl

  -- The hash has the two times and, for the other fields, what it had.
  abbrev Timed : (Text → Option Text) → Text → Text → R.Store → Type 0
  Timed base d u s =
      (f : Text)
      → R.hget (health_key cfg c) f s ≡ (
          if text_eq f (codes "uptime")
          then some u
          else if text_eq f (codes "updatedTime")
          then some d
          else base f)

  refresh_ttl-Timed :
      (base : Text → Option Text) (d u : Text) (t : Tick) (s : R.Store)
      → Timed base d u s
      → Timed base t.last_checked t.uptime (refresh_ttl R cfg topology t c s)
  refresh_ttl-Timed base d u t s h f =
      refresh_ttl-hget t f s
      ∙ rw (h f) (elim (Bool-cases (text_eq f (codes "uptime"))) [
        | inl y ↦ rw y refl
        | inr n ↦ elim (Bool-cases (text_eq f (codes "updatedTime"))) [
          | inl y ↦ rw (n, y) refl
          | inr m ↦ rw (n, m) refl
        ]
      ])

  live-Timed :
      (base : Text → Option Text) (d u : Text) (ts : List Tick) (t : Tick) (s : R.Store)
      → Timed base d u s
      → Timed base t.last_checked t.uptime (live R cfg topology (ts ++ (t ∷ [])) c s)
        × Current t (live R cfg topology (ts ++ (t ∷ [])) c s)
  unfolding live
  live-Timed base d u [] t s h = (refresh_ttl-Timed base d u t s h, refresh_ttl-Current t s)
  live-Timed base d u (t' ∷ ts) t s h =
      live-Timed base t'.last_checked t'.uptime ts t _ (refresh_ttl-Timed base d u t' s h)

  -- The fields that Register writes besides the two times.
  abbrev lasting_fields : Health → R.Store → Text → Option Text
  lasting_fields h s f =
      R.hget (health_key cfg c) f
        (hset_all R (health_key cfg c) (take 6 (health_fields cfg c h [] [])) s)

  register-Timed :
      (h : Health) (d u : Text) (s : R.Store)
      → Timed (lasting_fields h s) d u (register R cfg h d u c s).1
  unfolding register hset_all
  register-Timed h d u s f =
      F.hget-expire (health_key cfg c) (health_key cfg c) cfg.max_ttl f _ positive
      ∙ rw
          (
            K.hget-hset (health_key cfg c) (codes "uptime") u f,
            K.hget-hset (health_key cfg c) (codes "updatedTime") d f,
          )
          refl

  -- The registry after Register, some ticks and a last one.
  abbrev pub lived : Health → Text → Text → List Tick → Tick → R.Store → R.Store
  lived h d u ts t s = live R cfg topology (ts ++ (t ∷ [])) c (register R cfg h d u c s).1

  -- With positive times to live, and the presence key that SetId gives, registered: after Register
  -- and one tick of the timer or more, the presence key holds the own UUID, the keys of the state
  -- and of the update time hold what the last tick found, the hash of the instance reads as if
  -- Register had just written it with the times of the last tick, and each key that Register does
  -- not leave registered has the string and the fields that it had.
  pub live-register :
      (h : Health) (d u : Text) (ts : List Tick) (t : Tick) (s : R.Store) (k : Text)
      → contains c.registered_keys c.presence_key ≡ true
      → contains (registered cfg c).registered_keys k ≡ false
      → Current t (lived h d u ts t s)
        × Healthy h t.last_checked t.uptime s (lived h d u ts t s)
        × (R.get k (lived h d u ts t s) ≡ R.get k s)
        × ((f : Text) → R.hget k f (lived h d u ts t s) ≡ R.hget k f s)
  live-register h d u ts t s k presence foreign =
      let (timed, current) =
        live-Timed (lasting_fields h s) d u ts t (register R cfg h d u c s).1
          (register-Timed h d u s) in
      let (strings, fields) =
        register-live-Kept F cfg positive topology lasting c presence k foreign h d u
          (ts ++ (t ∷ [])) s in
      (current, λ f. timed f ∙ sym (register-Timed h t.last_checked t.uptime s f), strings, fields)
