-- ===== src/Controller/Summary/Stored.antt =====
-- What the table of PollState of controller/WebGui.cxx says of each instance, by the keys of the
-- registry.
use nestdaq.Base.{
  ◌≡◌, ◌∙◌, refl, ap, sym, subst, Bool, true, false, ◌&&◌, List, [], ◌∷◌, Option, none, some, All,
  Option-cases, if◌then◌else◌, inl, inr, arith,
}
use nestdaq.Text.{Text, text_eq, text_eq_sound}
use nestdaq.Text.Split.{Algorithm}
use nestdaq.Text.Table.{Table, find, alter, keys}
use nestdaq.Text.Table.Order.{or_made}
use nestdaq.Redis.{Redis}
use nestdaq.Controller.Wait.{fair_mq_state_prefix}
use nestdaq.Controller.Summary.{
  InstanceState, ServiceState, no_instance, no_service, with_state, with_date, in_service, names_of,
  fill_states, fill_date, fill_dates, keys_for, update_time_prefix,
}
use nestdaq.Controller.Summary.Counts.{instance_of}
use nestdaq.Controller.Summary.Changes.{Ordered}
use nestdaq.Controller.Summary.Instances.{
  instance_of_lem, instance_of-alter, alter-Ordered, stated, dated,
}

are_parts : Text → Text → List Text → Bool
are_parts a b (_ ∷ x ∷ y ∷ _) = text_eq a x && text_eq b y
are_parts a b _ = false

are_parts-names_of :
    (parts : List Text) (a b x y : Text)
    → names_of parts ≡ some (a, b)
    → are_parts x y parts ≡ (text_eq x a && text_eq y b)
unfolding are_parts names_of
are_parts-names_of [] a b x y e = cc
are_parts-names_of (t ∷ []) a b x y e = cc
are_parts-names_of (t ∷ v ∷ []) a b x y e = cc
are_parts-names_of (t ∷ v ∷ w ∷ parts) a b x y e = cc

module _ (R : Redis) (A : Algorithm) (separator : Text) where
  -- A key that has a service and an instance in it.
  abbrev pub Named : Text → Type 0
  Named k =
      (service_name : Text) × (inst_name : Text) × (names_of (A.split k separator)
        ≡ some (service_name, inst_name))

  -- The second part of the key is the service `a`, and the third the instance `b`.
  is_of : Text → Text → Text → Bool
  unfolding are_parts
  is_of a b k = are_parts a b (A.split k separator)

  -- What the last of the keys of an instance gives that gives anything.
  unfoldable pub latest : (Text → Option Text) → List Text → Text → Text → Option Text
  unfolding is_of
  latest value [] a b = none
  latest value (k ∷ ks) a b = elim (latest value ks a b) [
    | some v ↦ some v
    | none ↦ if is_of a b k then value k else none
  ]

  is_of-Named :
      (k a b x y : Text)
      → names_of (A.split k separator) ≡ some (a, b)
      → is_of x y k ≡ (text_eq x a && text_eq y b)
  unfolding is_of
  is_of-Named k a b x y e = are_parts-names_of (A.split k separator) a b x y e

  -- With one more key in front.
  abbrev before : Option Text → Bool → Option Text → Option Text
  before l hit v = elim l [ some w ↦ some w | none ↦ if hit then v else none ]

  latest-cons :
      (value : Text → Option Text) (k : Text) (ks : List Text) (a b x y : Text)
      → names_of (A.split k separator) ≡ some (a, b)
      → latest value (k ∷ ks) x y
        ≡ before (latest value ks x y) (text_eq x a && text_eq y b) (value k)
  unfolding latest
  latest-cons value k ks a b x y e =
      ap (λ hit. before (latest value ks x y) hit (value k)) (is_of-Named k a b x y e)

  stated-before :
      (l : Option Text) (hit : Bool) (v : Text) (o' o : Option InstanceState)
      → (hit ≡ true → o' ≡ o)
      → stated l (if hit then some (with_state v (or_made no_instance o')) else o)
        ≡ stated (before l hit (some v)) o
  stated-before none true v o' o h = rw (h refl) refl
  stated-before none false v o' o h = refl
  stated-before (some w) true v o' o h = rw (h refl) refl
  stated-before (some w) false v o' o h = refl

  dated-before :
      (l : Option Text) (hit : Bool) (v : Option Text) (o : Option InstanceState)
      → dated l (dated (if hit then v else none) o) ≡ dated (before l hit v) o
  dated-before none hit v o = refl
  dated-before (some w) true none o = refl
  dated-before (some w) true (some v) none = refl
  dated-before (some w) true (some v) (some i) = refl
  dated-before (some w) false v o = refl

  same_instance :
      (t : Table ServiceState) (a b x y : Text)
      → (text_eq x a && text_eq y b) ≡ true
      → instance_of a b t ≡ instance_of x y t
  same_instance t a b x y h =
      cc (text_eq_sound x a (ground (arith, h)), text_eq_sound y b (ground (arith, h)))

  module _ (s : R.Store) (undefined : Text) where
    abbrev pub state_at : Text → Option Text
    state_at k = some (elim (R.get k s) [ none ↦ undefined | some w ↦ w ])

    fill_states-stated :
        (ks : List Text) (t t' : Table ServiceState) (x y : Text)
        → All Named ks
        → Ordered t
        → fill_states R A separator undefined ks s t ≡ some t'
        → Ordered t' × (instance_of x y t' ≡ stated (latest state_at ks x y) (instance_of x y t))
    unfolding fill_states latest
    fill_states-stated [] t t' x y h o e =
        subst (λ w. Ordered w × (instance_of x y w ≡ instance_of x y t)) (inj e) (o, refl)
      where
        inj : some t ≡ some t' → t ≡ t'
        inj p = cc
    fill_states-stated (k ∷ ks) t t' x y ((a, b, q), h) o e =
        let v : Text = elim (R.get k s) [ none ↦ undefined | some w ↦ w ] in
        let (o', i) =
          fill_states-stated ks (alter a no_service (in_service b (with_state v)) t) t' x y h
            (alter-Ordered a b (with_state v) t o) (rw (q, fill_states) at e) in
        (
          o',
          i
              ∙ ap (stated (latest state_at ks x y))
                  (instance_of-alter t a b (with_state v) x y o.0 o.1)
              ∙ stated-before (latest state_at ks x y) (text_eq x a && text_eq y b) v
                  (instance_of a b t) (instance_of x y t) (same_instance t a b x y)
              ∙ ap (λ l. stated l (instance_of x y t)) (sym (latest-cons state_at k ks a b x y q)),
        )

    -- One update time.
    fill_date-Ordered :
        (value : Option Text) (a b : Text) (t : Table ServiceState)
        → Ordered t
        → Ordered (fill_date R A separator value a b t)
    unfolding fill_date
    fill_date-Ordered value a b t o = elim (Option-cases (find a t)) [
      | inl n ↦ rw (n, fill_date) o
      | inr (ss, p) ↦ elim (Option-cases (find b ss.instances)) [
        | inl n ↦ rw (p, fill_date) (rw (n, fill_date) o)
        | inr (i, q) ↦ elim value as (λ w. Ordered (fill_date R A separator w a b t)) [
          | none ↦ rw (p, fill_date) (rw (q, fill_date) o)
          | some v ↦ rw (p, fill_date) (rw (q, fill_date) (alter-Ordered a b (with_date v) t o))
        ]
      ]
    ]

    abbrev redated :
        Option Text → Bool → Option InstanceState → Option InstanceState → Option InstanceState
    redated value hit o' o = elim o' [
      | none ↦ o
      | some i ↦ elim value [ none ↦ o | some v ↦ if hit then some (with_date v i) else o ]
    ]

    redated_lem :
        (value : Option Text) (hit : Bool) (o' o : Option InstanceState)
        → (hit ≡ true → o' ≡ o)
        → redated value hit o' o ≡ dated (if hit then value else none) o
    redated_lem none true none o h = refl
    redated_lem none true (some i) o h = refl
    redated_lem none false none o h = refl
    redated_lem none false (some i) o h = refl
    redated_lem (some v) true none o h = rw (← h refl) refl
    redated_lem (some v) true (some i) o h = rw (← h refl) refl
    redated_lem (some v) false none o h = refl
    redated_lem (some v) false (some i) o h = refl

    fill_date-redated :
        (value : Option Text) (a b x y : Text) (t : Table ServiceState)
        → Ordered t
        → instance_of x y (fill_date R A separator value a b t)
          ≡ redated value (text_eq x a && text_eq y b) (instance_of a b t) (instance_of x y t)
    unfolding fill_date
    fill_date-redated value a b x y t o = elim (Option-cases (find a t)) [
      | inl n ↦ rw (n, fill_date) (rw (opened none n) refl)
      | inr (ss, p) ↦ elim (Option-cases (find b ss.instances)) [
        | inl n ↦ rw (p, fill_date) (rw (n, fill_date) (rw (opened (some ss) p ∙ n) refl))
        | inr (i, q) ↦
            elim value
              as (λ w.
                instance_of x y (fill_date R A separator w a b t)
                ≡ redated w (text_eq x a && text_eq y b) (instance_of a b t) (instance_of x y t)) [
                  | none ↦ rw (p, fill_date) (rw (q, fill_date) (rw (opened (some ss) p ∙ q) refl))
                  | some v ↦
                      rw (p, fill_date)
                        (rw (q, fill_date)
                          (instance_of-alter t a b (with_date v) x y o.0 o.1
                            ∙ rw (opened (some ss) p ∙ q) refl))
                ]
      ]
    ]
      where
        opened :
            (f : Option ServiceState)
            → find a t ≡ f
            → instance_of a b t ≡ (elim f [ none ↦ none | some ss ↦ find b ss.instances ])
        opened f e =
            instance_of_lem a b t
            ∙ ap
                (λ (g : Option ServiceState). elim g as (λ _. Option InstanceState) [
                  | none ↦ none
                  | some ss ↦ find b ss.instances
                ])
                e

    fill_dates-dated :
        (ks : List Text) (t t' : Table ServiceState) (x y : Text)
        → All Named ks
        → Ordered t
        → fill_dates R A separator ks s t ≡ some t'
        → Ordered t'
          × (instance_of x y t' ≡ dated (latest (λ k. R.get k s) ks x y) (instance_of x y t))
    unfolding fill_dates latest
    fill_dates-dated [] t t' x y h o e =
        subst (λ w. Ordered w × (instance_of x y w ≡ instance_of x y t)) (inj e) (o, refl)
      where
        inj : some t ≡ some t' → t ≡ t'
        inj p = cc
    fill_dates-dated (k ∷ ks) t t' x y ((a, b, q), h) o e =
        let (o', i) =
          fill_dates-dated ks (fill_date R A separator (R.get k s) a b t) t' x y h
            (fill_date-Ordered (R.get k s) a b t o) (rw (q, fill_dates) at e) in
        (
          o',
          i
              ∙ ap (dated (latest (λ j. R.get j s) ks x y)) (
                  fill_date-redated (R.get k s) a b x y t o
                  ∙ redated_lem (R.get k s) (text_eq x a && text_eq y b) (instance_of a b t)
                      (instance_of x y t) (same_instance t a b x y))
              ∙ dated-before (latest (λ j. R.get j s) ks x y) (text_eq x a && text_eq y b)
                  (R.get k s) (instance_of x y t)
              ∙ ap (λ l. dated l (instance_of x y t))
                  (sym (latest-cons (λ j. R.get j s) k ks a b x y q)),
        )

    -- What the registry says of an instance: the state of the last of its state keys, the undefined
    -- one for a value that is gone, and the last of its update times that has a value.
    abbrev pub stored : Text → Text → Option InstanceState
    stored a b = elim (latest state_at (keys_for R A separator fair_mq_state_prefix s) a b) [
      | none ↦ none
      | some v ↦ some (record {
        state = v;
        date =
            or_made [] (latest (λ k. R.get k s) (keys_for R A separator update_time_prefix s) a b);
      })
    ]

    dated-stated :
        (d l : Option Text)
        → dated d (stated l none)
          ≡ (elim l [ none ↦ none | some v ↦ some (record { state = v; date = or_made [] d }) ])
    dated-stated none none = refl
    dated-stated none (some v) = refl
    dated-stated (some d) none = refl
    dated-stated (some d) (some v) = refl

    none-Ordered : Ordered []
    unfolding keys
    none-Ordered = (tt, tt)

    -- The two loops together, from an empty table.
    pub filled-stored :
        (t t' : Table ServiceState) (x y : Text)
        → All Named (keys_for R A separator fair_mq_state_prefix s)
        → All Named (keys_for R A separator update_time_prefix s)
        → fill_states R A separator undefined (keys_for R A separator fair_mq_state_prefix s) s []
          ≡ some t
        → fill_dates R A separator (keys_for R A separator update_time_prefix s) s t ≡ some t'
        → instance_of x y t' ≡ stored x y
    unfolding instance_of find
    filled-stored t t' x y hs hd es ed =
        let (o, i) = fill_states-stated _ [] t x y hs none-Ordered es in
        let (o', j) = fill_dates-dated _ t t' x y hd o ed in
        j
        ∙ ap (dated (latest (λ k. R.get k s) (keys_for R A separator update_time_prefix s) x y)) i
        ∙ dated-stated _ _
