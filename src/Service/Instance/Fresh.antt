-- ===== src/Service/Instance/Fresh.antt =====
-- SetId (plugins/DaqServicePlugin.cxx) as a whole.
use nestdaq.Base.{
  ℕ, ◌<◌, ◌≡◌, ◌≢◌, refl, ap, sym, ◌∙◌, true, false, List, [], ◌∷◌, ◌++◌, none, some, arith, length,
  if◌then◌else◌, Bool-cases, inl, inr,
}
use nestdaq.Text.{Text, codes, text_eq, text_eq_refl, text_eq_sound, contains}
use nestdaq.Text.Number.{to_string_nat}
use nestdaq.Redis.{Redis, HashLaws, Listed}
use nestdaq.Service.Instance.{
  Setting, Claim, initial, index_key, instance_id, presence_key, live_uuids, sort_out, hdel_all,
  claim, under_lock, set_id,
}
use nestdaq.Service.Instance.Search.{fields, length-fields, Listed-contains, claim-Claims}
use nestdaq.Service.Instance.Sorting.{
  sort_out-expired, sort_out_only_expired, sort_out-mine, hget-hdel_all,
}

pub instance_id-ne-nil : (cfg : Setting) (n : ℕ) → text_eq (instance_id cfg n) [] ≡ false
unfolding text_eq
instance_id-ne-nil cfg n = go cfg.service_name
  where
    go : (t : Text) → text_eq (t ++ (codes "-" ++ to_string_nat n)) [] ≡ false
    go [] = refl
    go (d ∷ t) = refl

nothing_in : (f : Text) → contains [] f ≡ true → ⊥
unfolding contains
nothing_in f k = cc

-- What a new instance has once it holds the index `n`.
pub record Registered (R : Redis) (cfg : Setting) (s : R.Store) (n : ℕ) (c : Claim) (s' : R.Store)
    : Type 0 where
  pub id_lem : c.id ≡ instance_id cfg n
  pub presence_lem : c.presence_key ≡ presence_key cfg (instance_id cfg n)
  pub keys_lem : c.registered_keys ≡ presence_key cfg (instance_id cfg n) ∷ []
  pub hashes_lem : c.registered_hashes ≡ (index_key cfg, to_string_nat n) ∷ []
  -- the index is its own
  pub owned : R.hget (index_key cfg) (to_string_nat n) s' ≡ some cfg.uuid
  -- an index of an instance that is present stays with it
  pub live_kept :
      (f v : Text)
      → R.hget (index_key cfg) f s ≡ some v
      → contains (live_uuids R cfg s) v ≡ true
      → R.hget (index_key cfg) f s' ≡ some v
  -- an index of an instance that is gone is free, unless it is the one that was claimed
  pub expired_freed :
      (f v : Text)
      → R.hget (index_key cfg) f s ≡ some v
      → contains (live_uuids R cfg s) v ≡ false
      → f ≢ to_string_nat n
      → R.hget (index_key cfg) f s' ≡ none
  -- every smaller index belongs to an instance that is present
  pub least :
      (m : ℕ)
      → m < n
      → (v : Text) × (R.hget (index_key cfg) (to_string_nat m) s ≡ some v)
        × (contains (live_uuids R cfg s) v ≡ true)

module _ {R : Redis} (H : HashLaws R) (cfg : Setting) (s : R.Store) where
  abbrev pub key : Text
  key = index_key cfg

  abbrev pub live : List Text
  live = live_uuids R cfg s

  abbrev pub expired : List Text
  expired = (sort_out live cfg.uuid ([], []) (R.hgetall key s)).0

  abbrev pub cleaned : R.Store
  cleaned = hdel_all R key expired s

  listed : (f v : Text) → R.hget key f s ≡ some v → Listed f v (R.hgetall key s)
  listed f v e = (H.hgetall_lem key f v s).1 e

  not_expired :
      (f v : Text) → R.hget key f s ≡ some v → contains live v ≡ true → contains expired f ≡ false
  not_expired f v e l = elim (Bool-cases (contains expired f)) [
    | inr n ↦ n
    | inl y ↦ elim (sort_out_only_expired live cfg.uuid ([], []) (R.hgetall key s) f y) [
      | inl k ↦ absurd (nothing_in f k)
      | inr (w, m, d) ↦ cc (e, (H.hgetall_lem key f w s).0 m, l, d)
    ]
  ]

  hget-cleaned :
      (f : Text) → R.hget key f cleaned ≡ (if contains expired f then none else R.hget key f s)
  hget-cleaned f = hget-hdel_all H key expired f s

  freed : (f : Text) → contains expired f ≡ true → R.hget key f cleaned ≡ none
  freed f y = hget-cleaned f ∙ rw y refl

  spared : (f : Text) → contains expired f ≡ false → R.hget key f cleaned ≡ R.hget key f s
  spared f n = hget-cleaned f ∙ rw n refl

  was_live :
      (f v : Text)
      → R.hget key f cleaned ≡ some v
      → (R.hget key f s ≡ some v) × (contains live v ≡ true)
  was_live f v e = elim (Bool-cases (contains expired f)) [
    | inl y ↦ absurd (none_some (sym (freed f y) ∙ e))
    | inr n ↦ (
      sym (spared f n) ∙ e,
      elim (Bool-cases (contains live v)) [
        | inl l ↦ l
        | inr d ↦ absurd (
            true_false (
              sym (
                sort_out-expired live cfg.uuid ([], []) (R.hgetall key s) f v
                  (listed f v (sym (spared f n) ∙ e)) d)
              ∙ n))
      ],
    )
  ]
    where
      none_some : none ≡ some v → ⊥
      none_some p = cc

      true_false : true ≡ false → ⊥
      true_false p = cc

  module _ (n : ℕ) where
    abbrev new_id : Text
    new_id = instance_id cfg n

    abbrev new_claim : Claim
    new_claim = record {
      id = new_id;
      presence_key = presence_key cfg new_id;
      registered_keys = presence_key cfg new_id ∷ [];
      registered_hashes = (key, to_string_nat n) ∷ [];
    }

    abbrev new_store : R.Store
    new_store =
        R.setex (presence_key cfg new_id) cfg.max_ttl cfg.uuid
          (R.hset key (to_string_nat n) cfg.uuid cleaned)

    under_lock-run :
        (fuel : ℕ)
        → (sort_out live cfg.uuid ([], []) (R.hgetall key s)).1 ≡ []
        → claim R fuel key cfg.uuid 0 cleaned
          ≡ some (n, R.hset key (to_string_nat n) cfg.uuid cleaned)
        → under_lock R fuel cfg initial s ≡ some (new_claim, new_store)
    unfolding under_lock
    under_lock-run fuel mine p = rw (mine, under_lock) (rw p refl)

    set_id-run :
        (fuel : ℕ)
        → text_eq cfg.service_name [] ≡ false
        → ((f : Text) → R.hget key f s ≢ some cfg.uuid)
        → claim R fuel key cfg.uuid 0 cleaned
          ≡ some (n, R.hset key (to_string_nat n) cfg.uuid cleaned)
        → set_id R fuel cfg none initial s ≡ some (new_claim, new_store)
    unfolding set_id
    set_id-run fuel named fresh p =
        rw
          (
            text_eq_refl [],
            named,
            under_lock-run fuel
                (sort_out-mine live cfg.uuid ([], []) (R.hgetall key s)
                  (λ f l. fresh f ((H.hgetall_lem key f cfg.uuid s).0 l)))
                p,
            instance_id-ne-nil cfg n,
          )
          refl

    seen :
        key ≢ presence_key cfg new_id
        → (f : Text)
        → R.hget key f new_store
          ≡ (if text_eq f (to_string_nat n) then some cfg.uuid else R.hget key f cleaned)
    seen apart f =
        H.hget-setex key (presence_key cfg new_id) cfg.max_ttl cfg.uuid f _ apart
        ∙ H.hget-hset key (to_string_nat n) cfg.uuid f cleaned

    new-Registered :
        key ≢ presence_key cfg new_id
        → R.hget key (to_string_nat n) cleaned ≡ none
        → ((m : ℕ) → m < n → (v : Text) × (R.hget key (to_string_nat m) cleaned ≡ some v))
        → Registered R cfg s n new_claim new_store
    new-Registered apart free taken = record {
      id_lem = refl;
      presence_lem = refl;
      keys_lem = refl;
      hashes_lem = refl;
      owned = seen apart (to_string_nat n) ∙ rw (text_eq_refl (to_string_nat n)) refl;
      live_kept = λ f v e l. elim (Bool-cases (text_eq f (to_string_nat n))) [
        | inl same ↦ absurd (clash f v e l (text_eq_sound f (to_string_nat n) same))
        | inr other ↦ seen apart f ∙ rw other (spared f (not_expired f v e l) ∙ e)
      ];
      expired_freed = λ f v e d ne. elim (Bool-cases (text_eq f (to_string_nat n))) [
        | inl same ↦ absurd (ne (text_eq_sound f (to_string_nat n) same))
        | inr other ↦
            seen apart f
            ∙ rw other (
                freed f
                  (sort_out-expired live cfg.uuid ([], []) (R.hgetall key s) f v (listed f v e) d))
      ];
      least = λ m lt.
          let (v, e) = taken m lt in let (e', l) = was_live (to_string_nat m) v e in (v, e', l);
    }
      where
        clash :
            (f v : Text)
            → R.hget key f s ≡ some v
            → contains live v ≡ true
            → f ≡ to_string_nat n
            → ⊥
        clash f v e l same =
            cc (free, spared f (not_expired f v e l), e, ap (λ g. R.hget key g cleaned) same)

  -- A service with a name, an instance whose uuid is not in the hash, a presence key that is never
  -- the key of the hash, and more fuel than the hash has entries: the instance gets the least index
  -- that no present instance has, its id and its presence key are set, indices of present instances
  -- stay, and all others are freed.
  pub set_id-Registered :
      (fuel : ℕ)
      → text_eq cfg.service_name [] ≡ false
      → ((f : Text) → R.hget key f s ≢ some cfg.uuid)
      → ((n : ℕ) → key ≢ presence_key cfg (instance_id cfg n))
      → length (R.hgetall key s) < fuel
      → (n : ℕ) × (c : Claim) × (s' : R.Store) × (set_id R fuel cfg none initial s ≡ some (c, s'))
        × Registered R cfg s n c s'
  set_id-Registered fuel named fresh apart enough =
      let (n, p, _, free, taken) =
        claim-Claims H key cfg.uuid cleaned fuel (fields (R.hgetall key s)) covers
          (omega (arith, length-fields (R.hgetall key s))) in
      (
        n,
        new_claim n,
        new_store n,
        set_id-run n fuel named fresh p,
        new-Registered n (apart n) free (λ m lt. taken m (omega arith) lt),
      )
    where
      covers :
          (m : ℕ)
          → (v : Text) × (R.hget key (to_string_nat m) cleaned ≡ some v)
          → contains (fields (R.hgetall key s)) (to_string_nat m) ≡ true
      covers m (v, e) =
          Listed-contains (to_string_nat m) v (R.hgetall key s)
            (listed (to_string_nat m) v (was_live (to_string_nat m) v e).0)

  -- An instance for whose uuid the loop over the hash finds an index, of a service with a name, is
  -- given no instance id and no presence key: its id is its uuid.
  set_id-reused :
      (fuel : ℕ) (d : ℕ) (ds : Text)
      → text_eq cfg.service_name [] ≡ false
      → (sort_out live cfg.uuid ([], []) (R.hgetall key s)).1 ≡ d ∷ ds
      → set_id R fuel cfg none initial s ≡ some (record initial { id = cfg.uuid }, cleaned)
  unfolding set_id text_eq
  set_id-reused fuel d ds named mine = rw (named, mine)
