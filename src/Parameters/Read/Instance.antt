-- ===== src/Parameters/Read/Instance.antt =====
-- ReadParameters of plugins/ParameterConfigPlugin.cxx for an instance whose id has a number
-- (plugins/DaqServicePlugin.cxx).
use nestdaq.Base.{
  ℕ, suc, ◌+◌, ◌<◌, ◌≤◌, ◌≡◌, ◌∙◌, refl, sym, ap, subst, some, [], ◌∷◌, ◌++◌, true, false, arith,
  length, length-append, append_assoc, Option-cases, Bool-cases, inl, inr, append_nil, All,
}
use nestdaq.Text.{Text, codes, text_eq, text_eq_refl}
use nestdaq.Text.Number.{to_string_nat, is_digit}
use nestdaq.Text.Number.RoundTrip.{to_string_nat-Clear, to_string_nat-digits}
use nestdaq.Text.Search.{npos, has, last_of, find_last_of, substr}
use nestdaq.Text.Search.Skip.{
  Clear, last_of-skip, last_of-hit, substr-part, substr-rest, size_suc-small,
}
use nestdaq.Text.Split.{Algorithm}
use nestdaq.Redis.{Redis, HashLaws}
use nestdaq.Service.Instance.{Setting, instance_id}
use nestdaq.Parameters.Property.{Floating, Host, HostLaws, string}
use nestdaq.Parameters.Property.Settings.{Textual}
use nestdaq.Parameters.Read.{
  Names, parameters_prefix, all_digits, group_of, with_keys, prefix_of, read_keys, read_below,
  read_all, look_for, read_parameters,
}
use nestdaq.Parameters.Read.Overrides.{Plain, over, read_hash-Plain}

-- The last hit counts, whatever stands before it.
last_of-last :
    (chars : Text) (pos i best c : ℕ) (xs ys : Text)
    → has chars c ≡ true
    → Clear chars ys
    → i + length xs ≤ pos
    → last_of chars pos i best (xs ++ (c ∷ ys)) ≡ i + length xs
unfolding last_of
last_of-last chars pos i best c [] ys h clear le =
    last_of-hit chars pos i best c ys (omega arith) h
    ∙ ap (last_of chars pos (suc i) i) (sym (append_nil ys))
    ∙ last_of-skip chars pos (suc i) i ys [] clear
    ∙ omega arith
last_of-last chars pos i best c (x ∷ xs) ys h clear le =
    last_of-last chars pos (suc i) _ c xs ys h clear (omega arith) ∙ omega arith

digits-all_digits : (n : ℕ) → all_digits (to_string_nat n) ≡ true
unfolding all_digits
digits-all_digits n = go (to_string_nat n) (to_string_nat-digits n)
  where
    go : (t : Text) → All (λ c. is_digit c ≡ true) t → all_digits t ≡ true
    go [] h = refl
    go (c ∷ t) (d, h) = rw d (go t h)

hyphen : has (codes "-") b'-' ≡ true
unfolding has
hyphen = refl

no_hyphen : (c : ℕ) → b'0' ≤ c → c ≤ b'9' → has (codes "-") c ≡ false
unfolding has
no_hyphen c a b = ground arith

-- The key without the hyphen and the number.
group_of-number :
    (front : Text) (n : ℕ)
    → length (front ++ (b'-' ∷ to_string_nat n)) < npos
    → group_of (front ++ (b'-' ∷ to_string_nat n)) ≡ some front
unfolding group_of find_last_of
group_of-number front n fits =
    rw (at, group_of)
      (rw (size_suc-small (length front) (omega (arith, total, fits)), group_of)
        (rw (back, group_of)
          (rw (digits-all_digits n) (substr-part [] front (b'-' ∷ to_string_nat n) refl refl at))))
  where
    total :
        length (front ++ (b'-' ∷ to_string_nat n)) ≡ length front + suc (length (to_string_nat n))
    total = length-append front (b'-' ∷ to_string_nat n)

    at : last_of (codes "-") npos 0 npos (front ++ (b'-' ∷ to_string_nat n)) ≡ length front
    at =
        last_of-last (codes "-") npos 0 npos b'-' front (to_string_nat n) hyphen
          (to_string_nat-Clear (codes "-") n no_hyphen) (omega (arith, total, fits))
        ∙ omega arith

    back :
        substr (front ++ (b'-' ∷ to_string_nat n)) (suc (length front)) npos
        ≡ some (to_string_nat n)
    back =
        substr-rest (front ++ codes "-") (to_string_nat n)
          (sym (append_assoc front (codes "-") (to_string_nat n)))
          (omega (arith, length-append front (codes "-"))) (omega (arith, total, fits))

abbrev pub group_key_of : Setting → Text
group_key_of cfg = parameters_prefix ++ (cfg.separator ++ cfg.service_name)

abbrev pub own_key_of : Setting → ℕ → Text
own_key_of cfg m = parameters_prefix ++ (cfg.separator ++ instance_id cfg m)

-- The names of the instance with the number `m`.
abbrev pub names_at : Setting → ℕ → Names
names_at cfg m = record {
  id = instance_id cfg m;
  separator = cfg.separator;
  key = own_key_of cfg m;
  group_key = group_key_of cfg;
}

module _ (R : Redis) {F : Floating} {H : Host F R.Score} (L : HostLaws F R.Score H) (A : Algorithm)
    (K : HashLaws R) (cfg : Setting) (m : ℕ) (s : R.Store) where
  own_key-parts : (own_key_of cfg m) ≡ (group_key_of cfg) ++ (b'-' ∷ to_string_nat m)
  own_key-parts =
      ap (λ t. parameters_prefix ++ t)
        (sym (append_assoc cfg.separator cfg.service_name (b'-' ∷ to_string_nat m)))

  none_below :
      (k : Text) (st : H.State)
      → R.scan (k ++ (cfg.separator ++ codes "*")) s ≡ []
      → read_below R F H A (names_at cfg m) k s st ≡ some st
  unfolding read_below read_keys
  none_below k st e = elim (Bool-cases (text_eq k [])) [
    | inl y ↦ rw y refl
    | inr x ↦ rw (x, e) refl
  ]

  own_prefix : prefix_of R F H A (names_at cfg m) (own_key_of cfg m) ≡ some []
  unfolding prefix_of
  own_prefix = rw (text_eq_refl (own_key_of cfg m)) refl

  group_prefix : prefix_of R F H A (names_at cfg m) (group_key_of cfg) ≡ some []
  unfolding prefix_of
  group_prefix = elim (Bool-cases (text_eq (own_key_of cfg m) (group_key_of cfg))) [
    | inl y ↦ rw y refl
    | inr x ↦ rw (x, text_eq_refl (group_key_of cfg)) refl
  ]

  -- The hashes hold plain parameters, of which none is a property that is no text.
  abbrev pub PlainHash : Text → H.State → Type 0
  PlainHash name st = (f v : Text) → R.hget name f s ≡ some v → Plain f v × Textual L st f

  Textual-over :
      (st st₁ : H.State)
      → ((k : Text) → H.get k st₁ ≡ over (R.hget (group_key_of cfg) k s) (H.get k st))
      → (f : Text) → Textual L st f
      → Textual L st₁ f
  Textual-over st st₁ g f t = elim (Option-cases (R.hget (group_key_of cfg) f s)) [
    | inr (v, e) ↦ inr (v, g f ∙ rw e refl)
    | inl e ↦ elim t [ inl q ↦ inl (g f ∙ rw e q) | inr (v, q) ↦ inr (v, g f ∙ rw e q) ]
  ]

  pub read_all-over :
      (st : H.State)
      → R.scan (group_key_of cfg ++ (cfg.separator ++ codes "*")) s ≡ []
      → R.scan (own_key_of cfg m ++ (cfg.separator ++ codes "*")) s ≡ []
      → PlainHash (group_key_of cfg) st
      → PlainHash (own_key_of cfg m) st
      → (st' : H.State) × (read_all R F H A (names_at cfg m) s st ≡ some st')
        × ((k : Text)
            → H.get k st'
              ≡ over
                  (R.hget (own_key_of cfg m) k s)
                  (over (R.hget (group_key_of cfg) k s) (H.get k st)))
  unfolding read_all
  read_all-over st sg so pg po =
      let (st₁, e₁, g₁) =
        read_hash-Plain R L A K (names_at cfg m) s (group_key_of cfg) st group_prefix pg in
      let (st₂, e₂, g₂) =
        read_hash-Plain R L A K (names_at cfg m) s (own_key_of cfg m) st₁ own_prefix
          (λ f v q. ((po f v q).0, Textual-over st st₁ g₁ f (po f v q).1)) in
      (
        st₂,
        rw (e₁, read_all)
            (rw (e₂, read_all)
              (rw (none_below (group_key_of cfg) st₂ sg, read_all)
                (none_below (own_key_of cfg m) st₂ so))),
        λ k. g₂ k ∙ ap (over (R.hget (own_key_of cfg m) k s)) (g₁ k),
      )

  keys_set :
      length (own_key_of cfg m) < npos
      → with_keys
          (record { id = instance_id cfg m; separator = cfg.separator; key = []; group_key = [] })
        ≡ some (names_at cfg m)
  unfolding with_keys text_eq
  keys_set fits =
      rw
        (
          ap group_of own_key-parts
              ∙ group_of-number (group_key_of cfg) m
                  (subst (λ t. length t < npos) own_key-parts fits),
          with_keys,
        )
        refl

  -- For an instance with a number, whose id and separator are properties and whose key fits into a
  -- string, with only plain parameters in its hash and in that of its group and no additional keys:
  -- the group is its service, and each property is the parameter of the instance, else that of the
  -- service, else what it was.
  pub read_parameters-over :
      (st : H.State)
      → H.get (codes "id") st ≡ some (string (instance_id cfg m))
      → H.get (codes "separator") st ≡ some (string cfg.separator)
      → text_eq cfg.separator [] ≡ false
      → length (own_key_of cfg m) < npos
      → R.scan (group_key_of cfg ++ (cfg.separator ++ codes "*")) s ≡ []
      → R.scan (own_key_of cfg m ++ (cfg.separator ++ codes "*")) s ≡ []
      → PlainHash (group_key_of cfg) st
      → PlainHash (own_key_of cfg m) st
      → (st' : H.State) × (read_parameters R F H A
            (record { id = []; separator = []; key = []; group_key = [] })
            s
            st
          ≡ some (names_at cfg m, st'))
        × ((k : Text)
            → H.get k st'
              ≡ over
                  (R.hget (own_key_of cfg m) k s)
                  (over (R.hget (group_key_of cfg) k s) (H.get k st)))
  unfolding read_parameters look_for text_eq
  read_parameters-over st ei es named fits sg so pg po =
      let (st', e, g) = read_all-over st sg so pg po in
      (
        st',
        rw (ei, look_for)
            (rw (es, look_for)
              (rw (keys_set fits, read_parameters) (rw (e, read_parameters) refl))),
        g,
      )
