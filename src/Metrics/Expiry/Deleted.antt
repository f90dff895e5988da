-- ===== src/Metrics/Expiry/Deleted.antt =====
-- The fields that DeleteExpiredFields of plugins/MetricsPlugin.cxx deletes.
use nestdaq.Base.{
  ℕ, ◌≡◌, refl, subst, ◌∙◌, Bool, true, false, ◌&&◌, ◌||◌, List, [], ◌∷◌, ◌++◌, none, some, arith,
  if◌then◌else◌, All, Bool-cases, Option-cases, inl, inr,
}
use nestdaq.Text.{Text, text_eq, text_eq_refl, text_eq_sound, contains}
use nestdaq.Topology.Address.{starts_with}
use nestdaq.Redis.{Redis, HashLaws, FieldLaws, Listed}
use nestdaq.Metrics.Keys.{Instance, last_update_ns_key, registered_keys, registered_sock_keys}
use nestdaq.Metrics.Expiry.{
  Test, expired_instances, insert_names, hdel_fields, hdel_keys, hdel_sockets, hdel_instances,
  hdel_sock_keys, delete_under_lock, delete_expired_fields, Round, busy, free,
}

-- One of the names stands at the front of the text.
unfoldable pub has_prefix : List Text → Text → Bool
has_prefix [] f = false
has_prefix (x ∷ xs) f = let rest = has_prefix xs f in if starts_with x f then true else rest

-- The fields of the instances of `es`, and of their sockets.
abbrev pub of_expired : Instance → List Text → Text → Text → Bool
of_expired p es key f =
    contains (registered_keys p) key && contains es f
    || contains (registered_sock_keys p) key && has_prefix es f

contains-insert_names_kept :
    (h : List (Text × Text)) (names : List Text) (f : Text)
    → contains names f ≡ true
    → contains (insert_names h names) f ≡ true
unfolding insert_names contains
contains-insert_names_kept [] names f c = c
contains-insert_names_kept ((g, v) ∷ h) names f c =
    contains-insert_names_kept h (if contains names g then names else g ∷ names) f
      (ground (arith, c))

contains-insert_names :
    (h : List (Text × Text)) (names : List Text) (f v : Text)
    → Listed f v h
    → contains (insert_names h names) f ≡ true
unfolding insert_names contains
contains-insert_names [] names f v l = elim l [ ]
contains-insert_names ((g, w) ∷ h) names f v (inr l) =
    contains-insert_names h (if contains names g then names else g ∷ names) f v l
contains-insert_names ((g, w) ∷ h) names f v (inl (e, _)) =
    contains-insert_names_kept h (if contains names g then names else g ∷ names) f
      (rw e (ground (arith, text_eq_refl g)))

module _ {R : Redis} (H : HashLaws R) (F : FieldLaws R) (key f : Text) where
  hget-hdel :
      (k g : Text) (s : R.Store)
      → R.hget key f (R.hdel k g s)
        ≡ (if text_eq key k && text_eq f g then none else R.hget key f s)
  hget-hdel k g s = elim (Bool-cases (text_eq key k)) [
    | inl e ↦ rw (e, text_eq_sound key k e) (H.hget-hdel k g f s)
    | inr n ↦ rw n (F.hget-hdel_other key k g f s (λ e. other e n))
  ]
    where
      other : key ≡ k → text_eq key k ≡ false → ⊥
      other e n = cc (text_eq_refl key)

  hget-hdel_fields :
      (k : Text) (fs : List Text) (s : R.Store)
      → R.hget key f (hdel_fields R k fs s)
        ≡ (if text_eq key k && contains fs f then none else R.hget key f s)
  unfolding hdel_fields contains
  hget-hdel_fields k [] s = ground arith
  hget-hdel_fields k (g ∷ fs) s =
      ground (arith, hget-hdel_fields k fs (R.hdel k g s), hget-hdel k g s)

  hget-hdel_keys :
      (ks fs : List Text) (s : R.Store)
      → R.hget key f (hdel_keys R ks fs s)
        ≡ (if contains ks key && contains fs f then none else R.hget key f s)
  unfolding hdel_keys contains
  hget-hdel_keys [] fs s = refl
  hget-hdel_keys (k ∷ ks) fs s =
      ground (arith, hget-hdel_keys ks fs (hdel_fields R k fs s), hget-hdel_fields k fs s)

  hget-hdel_sockets :
      (k inst : Text) (fs : List Text) (s : R.Store)
      → R.hget key f (hdel_sockets R k inst fs s)
        ≡ (if text_eq key k && (starts_with inst f && contains fs f) then none else R.hget key f s)
  unfolding hdel_sockets contains
  hget-hdel_sockets k inst [] s = ground arith
  hget-hdel_sockets k inst (g ∷ fs) s = elim (Bool-cases (starts_with inst g)) [
    | inl e ↦
        ground
          (arith, hget-hdel_sockets k inst fs (R.hdel k g s), hget-hdel k g s, text_eq_sound f g)
    | inr n ↦ ground (arith, hget-hdel_sockets k inst fs s, text_eq_sound f g)
  ]

  hget-hdel_instances :
      (k : Text) (insts fs : List Text) (s : R.Store)
      → R.hget key f (hdel_instances R k insts fs s)
        ≡ (if text_eq key k && (has_prefix insts f && contains fs f) then none else R.hget key f s)
  unfolding hdel_instances has_prefix
  hget-hdel_instances k [] fs s = ground arith
  hget-hdel_instances k (x ∷ xs) fs s =
      ground
        (arith, hget-hdel_instances k xs fs (hdel_sockets R k x fs s), hget-hdel_sockets k x fs s)

  -- What is not in the store that is read is not in the other one.
  abbrev Less : R.Store → R.Store → Type 0
  Less seen s = R.hget key f seen ≡ none → R.hget key f s ≡ none

  seen_contained :
      (k : Text) (so : List Text) (seen : R.Store) (v : Text)
      → R.hget key f seen ≡ some v
      → text_eq key k ≡ true
      → contains (insert_names (R.hgetall k seen) so) f ≡ true
  seen_contained k so seen v e q = contains-insert_names (R.hgetall k seen) so f v (
      (H.hgetall_lem k f v seen).1
        (subst (λ j. R.hget j f seen ≡ some v) (text_eq_sound key k q) e))

  one_key :
      (k : Text) (ks ex so : List Text) (seen s : R.Store)
      → Less seen s
      → (if contains ks key && has_prefix ex f
          then none
          else R.hget key f (hdel_instances R k ex (insert_names (R.hgetall k seen) so) s))
        ≡ (if contains (k ∷ ks) key && has_prefix ex f then none else R.hget key f s)
  unfolding contains
  one_key k ks ex so seen s less = elim (Option-cases (R.hget key f seen)) [
    | inl e ↦
        ground (arith, hget-hdel_instances k ex (insert_names (R.hgetall k seen) so) s, less e)
    | inr (v, e) ↦ ground (
      arith,
      hget-hdel_instances k ex (insert_names (R.hgetall k seen) so) s,
      seen_contained k so seen v e,
    )
  ]

  hget-hdel_sock_keys :
      (ks expired sockets : List Text) (seen s : R.Store)
      → Less seen s
      → R.hget key f (hdel_sock_keys R ks expired sockets seen s)
        ≡ (if contains ks key && has_prefix expired f then none else R.hget key f s)
  unfolding hdel_sock_keys contains
  hget-hdel_sock_keys [] ex so seen s less = refl
  hget-hdel_sock_keys (k ∷ ks) ex so seen s less =
      hget-hdel_sock_keys ks ex (insert_names (R.hgetall k seen) so) seen
        (hdel_instances R k ex (insert_names (R.hgetall k seen) so) s)
        (λ e.
          ground (arith, hget-hdel_instances k ex (insert_names (R.hgetall k seen) so) s, less e))
      ∙ one_key k ks ex so seen s less

  hget-both :
      (p : Instance) (es : List Text) (s : R.Store)
      → R.hget key f
          (hdel_sock_keys R (registered_sock_keys p) es [] s (hdel_keys R (registered_keys p) es s))
        ≡ (if of_expired p es key f then none else R.hget key f s)
  hget-both p es s = ground (
    arith,
    hget-hdel_keys (registered_keys p) es s,
    hget-hdel_sock_keys (registered_sock_keys p) es [] s (hdel_keys R (registered_keys p) es s)
        (λ n. ground (arith, hget-hdel_keys (registered_keys p) es s, n)),
  )

module _ {R : Redis} (over : Test) (p : Instance) where
  -- A round that does not end the loop: the lock is held by another, or there is an exception.
  abbrev pub Fruitless : Round R over p → Type 0
  Fruitless busy = Unit
  Fruitless (free now s) = delete_under_lock R over p now s ≡ none

  delete_expired_fields_skip :
      (rs more : List (Round R over p))
      → All Fruitless rs
      → delete_expired_fields R over p (rs ++ more) ≡ delete_expired_fields R over p more
  unfolding delete_expired_fields
  delete_expired_fields_skip [] more h = refl
  delete_expired_fields_skip (busy ∷ rs) more (_, h) = delete_expired_fields_skip rs more h
  delete_expired_fields_skip (free now s ∷ rs) more (e, h) =
      rw (e, delete_expired_fields) (delete_expired_fields_skip rs more h)

  delete_under_lock_lem :
      HashLaws R
      → FieldLaws R
      → (now : ℕ → ℕ) (s : R.Store) (es : List Text)
      → expired_instances over p.max_ttl now 0 (R.hgetall (last_update_ns_key p) s) ≡ some es
      → (s' : R.Store) × (delete_under_lock R over p now s ≡ some s')
        × ((key f : Text)
            → R.hget key f s' ≡ (if of_expired p es key f then none else R.hget key f s))
  unfolding delete_under_lock contains has_prefix
  delete_under_lock_lem H F now s [] e = (s, rw (e, delete_under_lock) refl, λ key f. ground arith)
  delete_under_lock_lem H F now s (x ∷ xs) e = (
    hdel_sock_keys R (registered_sock_keys p) (x ∷ xs) [] s
        (hdel_keys R (registered_keys p) (x ∷ xs) s),
    rw (e, delete_under_lock) refl,
    λ key f. hget-both H F key f p (x ∷ xs) s,
  )

  -- After any number of rounds that the lock or an exception made fruitless, the first round that
  -- can read the hash of the last updates ends the loop. Of the fields of any key it then deletes just those
  -- that are the name of an expired instance, under a registered key, and those that begin with the
  -- name of an expired instance, under a registered key of sockets; it keeps all others.
  pub hget-delete_expired_fields :
      HashLaws R
      → FieldLaws R
      → (rs more : List (Round R over p)) (now : ℕ → ℕ) (s : R.Store) (es : List Text)
      → All Fruitless rs
      → expired_instances over p.max_ttl now 0 (R.hgetall (last_update_ns_key p) s) ≡ some es
      → (s' : R.Store) × (delete_expired_fields R over p (rs ++ (free now s ∷ more)) ≡ some s')
        × ((key f : Text)
            → R.hget key f s' ≡ (if of_expired p es key f then none else R.hget key f s))
  unfolding delete_expired_fields
  hget-delete_expired_fields H F rs more now s es h e =
      let (s', q, kept) = delete_under_lock_lem H F now s es e in
      (
        s',
        delete_expired_fields_skip rs (free now s ∷ more) h ∙ rw (q, delete_expired_fields) refl,
        kept,
      )
