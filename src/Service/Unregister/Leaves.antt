-- ===== src/Service/Unregister/Leaves.antt =====
-- Unregister (plugins/DaqServicePlugin.cxx) after SetId.
use nestdaq.Base.{
  ℕ, ◌<◌, ◌≡◌, ◌≢◌, refl, ap, ◌∙◌, true, false, [], none, some, length, if◌then◌else◌, Bool-cases,
  inl, inr,
}
use nestdaq.Text.{Text, text_eq, text_eq_refl, text_eq_sound, contains}
use nestdaq.Text.Number.{to_string_nat}
use nestdaq.Redis.{Redis, HashLaws, DelLaws}
use nestdaq.Service.Instance.{
  Setting, Claim, initial, index_key, instance_id, presence_key, live_uuids, set_id,
}
use nestdaq.Service.Instance.Fresh.{Registered, set_id-Registered}
use nestdaq.Service.Unregister.{unregister}

-- What is left in the registry after an instance with the index `n` was there.
pub record Left (R : Redis) (cfg : Setting) (s : R.Store) (n : ℕ) (c : Claim) (s' : R.Store)
    : Type 0 where
  pub nothing_registered : (c.registered_keys ≡ []) × (c.registered_hashes ≡ [])
  pub index_free : R.hget (index_key cfg) (to_string_nat n) s' ≡ none
  pub absent : R.get (presence_key cfg (instance_id cfg n)) s' ≡ none
  -- the instances that were present keep their indices
  pub live_kept :
      (f v : Text)
      → R.hget (index_key cfg) f s ≡ some v
      → contains (live_uuids R cfg s) v ≡ true
      → f ≢ to_string_nat n
      → R.hget (index_key cfg) f s' ≡ some v

module _ {R : Redis} (H : HashLaws R) (D : DelLaws R) (cfg : Setting) (s : R.Store) where
  module _ (n : ℕ) (c : Claim) (s' : R.Store) (g : Registered R cfg s n c s') where
    abbrev id : Text
    id = presence_key cfg (instance_id cfg n)

    store_after : (unregister R c s').1 ≡ R.hdel (index_key cfg) (to_string_nat n) (R.del id s')
    unfolding unregister
    store_after = rw (g.keys_lem, g.hashes_lem) refl

    hget-after :
        index_key cfg ≢ id
        → (f : Text)
        → R.hget (index_key cfg) f (unregister R c s').1
          ≡ (if text_eq f (to_string_nat n) then none else R.hget (index_key cfg) f s')
    hget-after apart f =
        ap (λ t. R.hget (index_key cfg) f t) store_after
        ∙ H.hget-hdel (index_key cfg) (to_string_nat n) f (R.del id s')
        ∙ ap (λ o. if text_eq f (to_string_nat n) then none else o)
            (D.hget-del (index_key cfg) id f s' apart)

    unregister-Left :
        index_key cfg ≢ id → Left R cfg s n (unregister R c s').0 (unregister R c s').1
    unfolding unregister
    unregister-Left apart = record {
      nothing_registered = (refl, refl);
      index_free = hget-after apart (to_string_nat n) ∙ rw (text_eq_refl (to_string_nat n)) refl;
      absent =
          ap (λ t. R.get id t) store_after
          ∙ D.get-hdel id (index_key cfg) (to_string_nat n) (R.del id s') apart
          ∙ D.get-del id s';
      live_kept = λ f v e l ne. elim (Bool-cases (text_eq f (to_string_nat n))) [
        | inl same ↦ absurd (ne (text_eq_sound f (to_string_nat n) same))
        | inr other ↦ hget-after apart f ∙ rw other (g.live_kept f v e l)
      ];
    }

  -- A service with a name, an instance whose uuid is not in the hash, a presence key that is never
  -- the key of the hash, and more fuel than the hash has entries: SetId gives the instance an index,
  -- and Unregister right after it frees that index, deletes the presence key, leaves nothing
  -- registered, and leaves other indices of present instances as they were.
  pub unregister-set_id :
      (fuel : ℕ)
      → text_eq cfg.service_name [] ≡ false
      → ((f : Text) → R.hget (index_key cfg) f s ≢ some cfg.uuid)
      → ((n : ℕ) → index_key cfg ≢ presence_key cfg (instance_id cfg n))
      → length (R.hgetall (index_key cfg) s) < fuel
      → (n : ℕ) × (c : Claim) × (s' : R.Store) × (set_id R fuel cfg none initial s ≡ some (c, s'))
        × Left R cfg s n (unregister R c s').0 (unregister R c s').1
  unregister-set_id fuel named fresh apart enough =
      let (n, c, s', p, g) = set_id-Registered H cfg s fuel named fresh apart enough in
      (n, c, s', p, unregister-Left n c s' g (apart n))
