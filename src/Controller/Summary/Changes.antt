-- ===== src/Controller/Summary/Changes.antt =====
-- The flags of SendStateSummary of controller/WebGui.cxx.
use nestdaq.Base.{
  ◌≡◌, ◌↔◌, refl, subst, Bool, true, false, List, [], ◌∷◌, Option, some, arith, ◌==◌, ==_iff,
  length, All, if◌then◌else◌, Bool-cases, inl, inr,
}
use nestdaq.Text.{Text, text_eq, text_eq_refl, text_eq_sound, contains}
use nestdaq.Text.Names.{Distinct, Within, Within-back, Within-length}
use nestdaq.Text.Table.{Table, find, keys}
use nestdaq.Text.Table.Order.{Ascending, Ascending-Distinct, find-All, length-keys}
use nestdaq.Controller.Summary.{ServiceState, lacks, instances_changed, some_changed, changes}

-- The same names.
abbrev pub Same : List Text → List Text → Type 0
Same xs ys = Within xs ys × Within ys xs

lacks-Within : (old ks : List Text) → lacks old ks ≡ false → Within ks old
unfolding lacks contains
lacks-Within old [] h j c = cc
lacks-Within old (k ∷ ks) h j c = elim (Bool-cases (text_eq j k)) [
  | inl e ↦ here (text_eq_sound j k e)
  | inr n ↦ lacks-Within old ks (ground (arith, h)) j (rw n at c)
]
  where
    here : j ≡ k → contains old j ≡ true
    here e = rw e (ground (arith, h))

Within-lacks : (old ks : List Text) → Within ks old → lacks old ks ≡ false
unfolding lacks contains
Within-lacks old [] w = refl
Within-lacks old (k ∷ ks) w =
    rw (w k (rw (text_eq_refl k) refl)) (Within-lacks old ks (λ j c. w j (ground (arith, c))))

-- The comparison of the sizes and then of the names.
names_changed : List Text → List Text → Bool
names_changed old new = if length old == length new then lacks old new else true

names_changed-Same :
    (old new : List Text)
    → Distinct old
    → Distinct new
    → (names_changed old new ≡ false) ↔ Same old new
unfolding names_changed
names_changed-Same old new d d' = elim (Bool-cases (length old == length new)) [
  | inl e ↦ rw e (
    λ h.
        let w = lacks-Within old new h in
        (Within-back new old d' w (omega (arith, (==_iff (length old) (length new)).0 e)), w),
    λ s. Within-lacks old new s.1,
  )
  | inr n ↦ rw n (
    λ h. absurd (clash h),
    λ s. absurd (
        differ n (
          (==_iff (length old) (length new)).1
            (omega (arith, Within-length old new d s.0, Within-length new old d' s.1)))),
  )
]
  where
    clash : true ≡ false → ⊥
    clash h = cc

    differ : {b : Bool} → b ≡ false → b ≡ true → ⊥
    differ p q = cc

module _ {A : Type 0} where
  find-contains :
      (k : Text) (t : Table A) → contains (keys t) k ≡ true → (a : A) × (find k t ≡ some a)
  unfolding find keys contains
  find-contains k [] h = cc
  find-contains k ((l, a) ∷ t) h = elim (Bool-cases (text_eq k l)) [
    | inl e ↦ (a, rw e refl)
    | inr n ↦ let (b, p) = find-contains k t (rw n at h) in (b, rw n p)
  ]

-- The old table has the service, with the same instances.
abbrev pub SameInstances : Option ServiceState → ServiceState → Type 0
SameInstances o ss =
    (old : ServiceState) × (o ≡ some old) × Same (keys old.instances) (keys ss.instances)

-- Services in order, each with its instances in order.
abbrev pub Ordered : Table ServiceState → Type 0
Ordered t = Ascending (keys t) × All (λ e. Ascending (keys e.1.instances)) t

instances_changed-Same :
    (old ss : ServiceState)
    → Ascending (keys old.instances)
    → Ascending (keys ss.instances)
    → (instances_changed (some old) ss ≡ false) ↔ Same (keys old.instances) (keys ss.instances)
unfolding instances_changed names_changed
instances_changed-Same old ss o o' =
    subst (λ b. (b ≡ false) ↔ Same (keys old.instances) (keys ss.instances))
      (rw (length-keys old.instances, length-keys ss.instances) refl)
      (names_changed-Same (keys old.instances) (keys ss.instances)
        (Ascending-Distinct (keys old.instances) o) (Ascending-Distinct (keys ss.instances) o'))

some_changed-Same :
    (prev t : Table ServiceState)
    → All (λ e. Ascending (keys e.1.instances)) prev
    → All (λ e. Ascending (keys e.1.instances)) t
    → Within (keys t) (keys prev)
    → (some_changed prev t ≡ false) ↔ All (λ e. SameInstances (find e.0 prev) e.1) t
unfolding some_changed keys contains
some_changed-Same prev [] hp ht w = (λ h. tt, λ h. refl)
some_changed-Same prev ((k, ss) ∷ t) hp (o, ht) w =
    let (old, p) = find-contains k prev (w k (rw (text_eq_refl k) refl)) in
    let here =
      instances_changed-Same old ss (find-All (λ x. Ascending (keys x.instances)) k prev old hp p)
        o in
    let rest = some_changed-Same prev t hp ht (λ j c. w j (ground (arith, c))) in
    rw p (
      λ h. ((old, refl, here.0 (ground (arith, h))), rest.0 (ground (arith, h))),
      λ h. rw (here.1 (same old h.0)) (rest.1 h.1),
    )
  where
    same :
        (old : ServiceState)
        → SameInstances (some old) ss
        → Same (keys old.instances) (keys ss.instances)
    same old (x, e, s) = subst (λ y. Same (keys y.instances) (keys ss.instances)) (inj e) s
      where
        inj : some old ≡ some x → x ≡ old
        inj p = cc

changes-names :
    (prev table : Table ServiceState)
    → changes prev table ≡ (
        if names_changed (keys prev) (keys table)
        then record { service_list_changed = true; instance_list_changed = true }
        else record {
          service_list_changed = false;
          instance_list_changed = some_changed prev table;
        })
unfolding changes names_changed
changes-names prev table = elim (Bool-cases (length prev == length table)) [
  | inr n ↦ rw (length-keys prev, length-keys table, n) refl
  | inl e ↦ elim (Bool-cases (lacks (keys prev) (keys table))) [
    | inl y ↦ rw (length-keys prev, length-keys table, e, y) refl
    | inr n ↦ rw (length-keys prev, length-keys table, e, n) refl
  ]
]

-- For tables whose services and instances stand in order, each once: the flag of the services is
-- down exactly if the services are the same as before, and the flag of the instances exactly if the
-- services and the instances of each are.
pub changes-Same :
    (prev table : Table ServiceState)
    → Ordered prev
    → Ordered table
    → (((changes prev table).service_list_changed ≡ false) ↔ Same (keys prev) (keys table))
      × (((changes prev table).instance_list_changed ≡ false)
          ↔ (Same (keys prev) (keys table) × All (λ e. SameInstances (find e.0 prev) e.1) table))
changes-Same prev table (op, ip) (ot, it) =
    elim (Bool-cases (names_changed (keys prev) (keys table))) [
      | inl y ↦
          rw (changes-names prev table, y)
            (
              (λ h. absurd (differ refl h), λ s. absurd (differ y (named.1 s))),
              (λ h. absurd (differ refl h), λ s. absurd (differ y (named.1 s.0))),
            )
      | inr n ↦
          let instances = some_changed-Same prev table ip it (named.0 n).1 in
          rw (changes-names prev table, n)
            ((λ h. named.0 n, λ s. refl), (λ h. (named.0 n, instances.0 h), λ h. instances.1 h.1))
    ]
  where
    named : (names_changed (keys prev) (keys table) ≡ false) ↔ Same (keys prev) (keys table)
    named =
        names_changed-Same (keys prev) (keys table) (Ascending-Distinct (keys prev) op)
          (Ascending-Distinct (keys table) ot)

    differ : {b : Bool} → b ≡ true → b ≡ false → ⊥
    differ p q = cc
