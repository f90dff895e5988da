-- ===== src/Service/Instance/Sorting.antt =====
-- The loop of SetId (plugins/DaqServicePlugin.cxx) over the hash of indices, and the deletion of the
-- expired ones.
use nestdaq.Base.{
  ◌≡◌, refl, ◌∙◌, ◌⊎◌, true, false, List, [], ◌∷◌, ◌++◌, none, arith, if◌then◌else◌, Bool-cases,
  inl, inr,
}
use nestdaq.Text.{Text, text_eq, text_eq_refl, text_eq_sound, contains}
use nestdaq.Redis.{Redis, HashLaws, Listed}
use nestdaq.Service.Instance.{sort_entry, sort_out, hdel_all}

contains-append :
    (xs : List Text) (a f : Text)
    → contains (xs ++ (a ∷ [])) f ≡ (if contains xs f then true else text_eq f a)
unfolding contains
contains-append [] a f = ground arith
contains-append (x ∷ xs) a f = ground (arith, contains-append xs a f)

module _ (live : List Text) (mine : Text) where
  -- What is sorted out stays so.
  kept :
      (acc : List Text × Text) (h : List (Text × Text)) (f : Text)
      → contains acc.0 f ≡ true
      → contains (sort_out live mine acc h).0 f ≡ true
  unfolding sort_out
  kept acc [] f c = c
  kept (expired, my) ((g, w) ∷ h) f c =
      kept (sort_entry live mine (expired, my) (g, w)) h f
        (ground (arith, contains-append expired g f))

  -- An index whose uuid is not live is sorted out.
  pub sort_out-expired :
      (acc : List Text × Text) (h : List (Text × Text)) (f v : Text)
      → Listed f v h
      → contains live v ≡ false
      → contains (sort_out live mine acc h).0 f ≡ true
  unfolding sort_out
  sort_out-expired acc [] f v l d = absurd l
  sort_out-expired (expired, my) ((g, w) ∷ h) f v (inl (e, e')) d =
      kept (sort_entry live mine (expired, my) (g, w)) h f
        (ground (arith, d, e, e', contains-append expired g f, text_eq_refl f))
  sort_out-expired (expired, my) ((g, w) ∷ h) f v (inr l) d =
      sort_out-expired (sort_entry live mine (expired, my) (g, w)) h f v l d

  -- Only such an index is.
  pub sort_out_only_expired :
      (acc : List Text × Text) (h : List (Text × Text)) (f : Text)
      → contains (sort_out live mine acc h).0 f ≡ true
      → (contains acc.0 f ≡ true) ⊎ ((v : Text) × Listed f v h × (contains live v ≡ false))
  unfolding sort_out
  sort_out_only_expired acc [] f c = inl c
  sort_out_only_expired (expired, my) ((g, w) ∷ h) f c =
      elim (sort_out_only_expired (sort_entry live mine (expired, my) (g, w)) h f c) [
        | inr (v, l, d) ↦ inr (v, inr l, d)
        | inl k ↦ entry k
      ]
    where
      entry :
          contains (sort_entry live mine (expired, my) (g, w)).0 f ≡ true
          → (contains expired f ≡ true)
            ⊎ ((v : Text) × Listed f v ((g, w) ∷ h) × (contains live v ≡ false))
      entry k = elim (Bool-cases (contains live w)) [
        | inl a ↦ inl (ground (arith, a, k))
        | inr a ↦ elim (Bool-cases (contains expired f)) [
          | inl b ↦ inl b
          | inr b ↦ inr (
            w,
            inl (text_eq_sound f g (ground (arith, a, b, k, contains-append expired g f)), refl),
            a,
          )
        ]
      ]

  -- A uuid that has no index is not found.
  pub sort_out-mine :
      (acc : List Text × Text) (h : List (Text × Text))
      → ((f : Text) → ¬ Listed f mine h)
      → (sort_out live mine acc h).1 ≡ acc.1
  unfolding sort_out
  sort_out-mine acc [] n = refl
  sort_out-mine (expired, my) ((g, w) ∷ h) n = elim (Bool-cases (text_eq w mine)) [
    | inl e ↦
        absurd
          (n g (inl (refl, text_eq_sound mine w (rw (text_eq_sound w mine e) (text_eq_refl mine)))))
    | inr e ↦
        sort_out-mine (sort_entry live mine (expired, my) (g, w)) h (λ f l. n f (inr l))
        ∙ ground (arith, e)
  ]

pub hget-hdel_all :
    {R : Redis} (H : HashLaws R) (key : Text) (fs : List Text) (f : Text) (s : R.Store)
    → R.hget key f (hdel_all R key fs s) ≡ (if contains fs f then none else R.hget key f s)
unfolding hdel_all contains
hget-hdel_all H key [] f s = refl
hget-hdel_all {R} H key (g ∷ fs) f s =
    hget-hdel_all H key fs f (R.hdel key g s) ∙ ground (arith, H.hget-hdel key g f s)
