-- ===== src/Metrics/Expiry/Ages.antt =====
-- The instances that DeleteExpiredFields of plugins/MetricsPlugin.cxx takes for gone.
use nestdaq.Base.{
  ℕ, suc, ◌+◌, ◌*◌, ◌≤◌, ◌<◌, ◌≡◌, subst, true, List, [], ◌∷◌, ◌++◌, none, some, arith,
  if◌then◌else◌, All, Option-cases, inl, inr,
}
use nestdaq.Text.{Text, text_eq_refl, contains}
use nestdaq.Text.Number.{ℤ, pos}
use nestdaq.Text.Number.Wide.{stoull, unsigned_bound}
use nestdaq.Redis.{Redis, HashLaws, FieldLaws, Listed}
use nestdaq.Metrics.Keys.{Instance, last_update_ns_key, registered_keys}
use nestdaq.Metrics.Expiry.{
  Test, TestLaws, elapsed, expired_instances, delete_expired_fields, Round, free,
}
use nestdaq.Metrics.Expiry.Deleted.{Fruitless, hget-delete_expired_fields}

module _ (over : Test) (ttl : ℤ) (now : ℕ → ℕ) where
  expired_cons :
      (i : ℕ) (k v : Text) (h : List (Text × Text)) (es : List Text)
      → expired_instances over ttl now i ((k, v) ∷ h) ≡ some es
      → (t : ℕ) × (ks : List Text) × (stoull v ≡ some t)
        × (expired_instances over ttl now (suc i) h ≡ some ks)
        × (es ≡ (if over (elapsed (now i) t) ttl then k ∷ ks else ks))
  unfolding expired_instances
  expired_cons i k v h es e = elim (Option-cases (stoull v)) [
    | inl n ↦ absurd (failed n)
    | inr (t, q) ↦ elim (Option-cases (expired_instances over ttl now (suc i) h)) [
      | inl n ↦ absurd (failed_later t q n)
      | inr (ks, r) ↦ (t, ks, q, r, ground (arith, e, q, r))
    ]
  ]
    where
      failed : stoull v ≡ none → ⊥
      failed n = ground (arith, e, n)

      failed_later :
          (t : ℕ) → stoull v ≡ some t → expired_instances over ttl now (suc i) h ≡ none → ⊥
      failed_later t q n = ground (arith, e, n, q)

  expired_in :
      (i : ℕ) (h : List (Text × Text)) (es : List Text) (k v : Text) (t : ℕ)
      → expired_instances over ttl now i h ≡ some es
      → Listed k v h
      → stoull v ≡ some t
      → ((j : ℕ) → over (elapsed (now j) t) ttl ≡ true)
      → contains es k ≡ true
  unfolding contains
  expired_in i [] es k v t e l q o = absurd l
  expired_in i ((g, w) ∷ h) es k v t e l q o =
      let (t', ks, q', r, a) = expired_cons i g w h es e in
      elim l [
        | inl (p, p') ↦ ground (arith, a, p, p', q, q', o i, text_eq_refl g)
        | inr m ↦ ground (arith, a, expired_in (suc i) h ks k v t r m q o)
      ]

module _ {R : Redis} {over : Test} (H : HashLaws R) (T : TestLaws over) (key : Text) (s : R.Store)
    (ttl : ℕ) (small : ttl < 4294967296) (now : ℕ → ℕ) (es : List Text)
    (e : expired_instances over (pos ttl) now 0 (R.hgetall key s) ≡ some es) (inst v : Text) (t : ℕ)
    (stored : R.hget key inst s ≡ some v) (read : stoull v ≡ some t) (bounded : t < unsigned_bound)
    (clock : (j : ℕ) → now j < unsigned_bound) where
  pub expired_instances_ahead :
      ((j : ℕ) → now j < t)
      → ((j : ℕ) → t + (ttl + 1) * 1000000 ≤ now j + unsigned_bound)
      → contains es inst ≡ true
  expired_instances_ahead ahead near =
      expired_in over (pos ttl) now 0 (R.hgetall key s) es inst v t e
        ((H.hgetall_lem key inst v s).1 stored) read
        (λ j.
          T.over_above (elapsed (now j) t) ttl small (omega (arith, ahead j, clock j))
            (omega (arith, ahead j, near j, bounded)))

-- With a time to live of less than 2 ^ 32: if the last update of an instance lies ahead of each reading of the
-- clock, by whatever less than the time that 64 bits leave, then the first round that can read the hash of
-- the last updates deletes the fields of this instance under every registered key.
pub hget-delete_expired_fields_ahead :
    {R : Redis} {over : Test}
    → HashLaws R
    → FieldLaws R
    → TestLaws over
    → (p : Instance) (rs more : List (Round R over p)) (now : ℕ → ℕ) (s : R.Store) (es : List Text)
    → (ttl : ℕ) → ttl < 4294967296
    → p.max_ttl ≡ pos ttl
    → All (Fruitless over p) rs
    → expired_instances over p.max_ttl now 0 (R.hgetall (last_update_ns_key p) s) ≡ some es
    → (inst v : Text) (t : ℕ) → R.hget (last_update_ns_key p) inst s ≡ some v
    → stoull v ≡ some t
    → t < unsigned_bound
    → ((j : ℕ) → now j < t)
    → ((j : ℕ) → t + (ttl + 1) * 1000000 ≤ now j + unsigned_bound)
    → (s' : R.Store) × (delete_expired_fields R over p (rs ++ (free now s ∷ more)) ≡ some s')
      × ((key : Text) → contains (registered_keys p) key ≡ true → R.hget key inst s' ≡ none)
hget-delete_expired_fields_ahead {R} {over} H F T p rs more now s es ttl small m fruitless e inst v
      t stored read bounded ahead near =
    let (s', q, kept) = hget-delete_expired_fields over p H F rs more now s es fruitless e in
    let gone : contains es inst ≡ true =
      expired_instances_ahead H T (last_update_ns_key p) s ttl small now es
        (subst (λ z. expired_instances over z now 0 (R.hgetall (last_update_ns_key p) s) ≡ some es)
          m e)
        inst v t stored read bounded (λ j. omega (arith, ahead j)) ahead near in
    (s', q, λ key c. ground (arith, kept key inst, gone, c))
