-- ===== src/Controller/Summary/Instances.antt =====
-- Changes of one instance in the table of PollState of controller/WebGui.cxx.
use nestdaq.Base.{
  ◌≡◌, ◌∙◌, refl, ◌&&◌, Option, none, some, All, Bool-cases, Option-cases, if◌then◌else◌, inl, inr,
}
use nestdaq.Text.{Text, text_eq, text_eq_sound}
use nestdaq.Text.Table.{Table, find, alter, keys}
use nestdaq.Text.Table.Order.{Ascending, alter-Ascending, All-alter, find-alter, find-All, or_made}
use nestdaq.Controller.Summary.{
  InstanceState, ServiceState, no_instance, no_service, with_state, with_date, in_service,
}
use nestdaq.Controller.Summary.Counts.{instance_of}
use nestdaq.Controller.Summary.Changes.{Ordered}

pub instance_of_lem :
    (a b : Text) (t : Table ServiceState)
    → instance_of a b t ≡ (elim (find a t) [ none ↦ none | some ss ↦ find b ss.instances ])
unfolding instance_of
instance_of_lem a b t = refl

module _ (t : Table ServiceState) (a : Text) where
  in_service-find :
      (b : Text) → find b (or_made no_service (find a t)).instances ≡ instance_of a b t
  unfolding instance_of find
  in_service-find b = elim (Option-cases (find a t)) [
    | inl n ↦ rw (n, instance_of) refl
    | inr (ss, e) ↦ rw (e, instance_of) refl
  ]

  in_service-Ascending :
      All (λ e. Ascending (keys e.1.instances)) t
      → Ascending (keys (or_made no_service (find a t)).instances)
  unfolding keys
  in_service-Ascending h = elim (Option-cases (find a t)) [
    | inl n ↦ rw n tt
    | inr (ss, e) ↦ rw e (find-All (λ x. Ascending (keys x.instances)) a t ss h e)
  ]

  -- A change of one instance is seen there and nowhere else.
  pub instance_of-alter :
      (b : Text) (f : InstanceState → InstanceState) (x y : Text)
      → Ascending (keys t)
      → All (λ e. Ascending (keys e.1.instances)) t
      → instance_of x y (alter a no_service (in_service b f) t) ≡ (
          if text_eq x a && text_eq y b
          then some (f (or_made no_instance (instance_of a b t)))
          else instance_of x y t)
  unfolding instance_of
  instance_of-alter b f x y o h = elim (Bool-cases (text_eq x a)) [
    | inr n ↦ rw (find-alter a no_service (in_service b f) t x o, instance_of) (rw n refl)
    | inl e ↦
        rw (find-alter a no_service (in_service b f) t x o, instance_of)
          (rw e (
            find-alter b no_instance f (or_made no_service (find a t)).instances y
              (in_service-Ascending h)
            ∙ here (text_eq_sound x a e)))
  ]
    where
      here :
          x ≡ a
          → (if text_eq y b
              then some (f (or_made no_instance (find b (or_made no_service (find a t)).instances)))
              else find y (or_made no_service (find a t)).instances)
            ≡ (if text_eq y b
                then some (f (or_made no_instance (instance_of a b t)))
                else instance_of x y t)
      here e = rw (in_service-find b, in_service-find y, e) refl

pub alter-Ordered :
    (a b : Text) (f : InstanceState → InstanceState) (t : Table ServiceState)
    → Ordered t
    → Ordered (alter a no_service (in_service b f) t)
unfolding keys alter
alter-Ordered a b f t (o, h) = (
  alter-Ascending a no_service (in_service b f) t o,
  All-alter a no_service (in_service b f) (λ ss. Ascending (keys ss.instances)) t (tt, tt)
      (λ ss q. alter-Ascending b no_instance f ss.instances q) h,
)

-- What a state or a date of an instance makes of what the table says of it.
abbrev pub stated : Option Text → Option InstanceState → Option InstanceState
stated none o = o
stated (some v) o = some (with_state v (or_made no_instance o))

abbrev pub dated : Option Text → Option InstanceState → Option InstanceState
dated none o = o
dated (some v) none = none
dated (some v) (some i) = some (with_date v i)
