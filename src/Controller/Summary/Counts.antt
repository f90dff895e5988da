-- ===== src/Controller/Summary/Counts.antt =====
-- The counts that PollState of controller/WebGui.cxx makes of the states of the instances.
use nestdaq.Base.{
  ℕ, zero, suc, ◌+◌, ◌<◌, ◌≡◌, ◌⊎◌, ◌∙◌, refl, sym, ap, Bool, true, false, not, ◌&&◌, List, [], ◌∷◌,
  Option, none, some, arith, leb, ◌==◌, length, take-all, get_elem?, All, if◌then◌else◌, Bool-cases,
  inl, inr,
}
use nestdaq.Text.{Text, text_eq}
use nestdaq.Text.Table.{Table, find, keys}
use nestdaq.Text.Table.Order.{Ascending}
use nestdaq.Controller.Summary.{
  InstanceState, ServiceState, zeros, resize, bump, later, count_one, count_all, summarize,
}

-- What the table says of an instance of a service.
unfoldable pub instance_of : Text → Text → Table ServiceState → Option InstanceState
instance_of a b t = elim (find a t) [ none ↦ none | some ss ↦ find b ss.instances ]

instance_of-cons :
    (a b name : Text) (ss : ServiceState) (t : Table ServiceState)
    → instance_of a b ((name, ss) ∷ t)
      ≡ (if text_eq a name then find b ss.instances else instance_of a b t)
unfolding instance_of find
instance_of-cons a b name ss t = elim (Bool-cases (text_eq a name)) [
  | inl y ↦ rw (y, instance_of) refl
  | inr n ↦ rw (n, instance_of) refl
]

length-zeros : (n : ℕ) → length (zeros n) ≡ n
unfolding zeros
length-zeros zero = refl
length-zeros (suc n) = ap suc (length-zeros n)

get-zeros : (n i : ℕ) → i < n → get_elem? (zeros n) i ≡ some 0
unfolding zeros
get-zeros zero i h = absurd (omega arith)
get-zeros (suc n) zero h = refl
get-zeros (suc n) (suc i) h = get-zeros n i (omega arith)

resize-nil : (n : ℕ) → resize n [] ≡ zeros n
unfolding resize
resize-nil n = take-all n (zeros n) (omega (arith, length-zeros n))

get-bump :
    (j i a : ℕ) (cs : List ℕ)
    → get_elem? cs i ≡ some a
    → get_elem? (bump j cs) i ≡ some (if j == i then suc a else a)
unfolding bump
get-bump j i a [] e = cc
get-bump zero zero a (c ∷ cs) e = ground (arith, e)
get-bump zero (suc i) a (c ∷ cs) e = e ∙ ground arith
get-bump (suc j) zero a (c ∷ cs) e = e ∙ ground arith
get-bump (suc j) (suc i) a (c ∷ cs) e = get-bump j i a cs e ∙ ground arith

module _ (state_id : Text → Option ℕ) where
  -- A state that GetState knows; an empty one is not looked up.
  abbrev pub Known : Text → Type 0
  Known v = (text_eq v [] ≡ true) ⊎ ((i : ℕ) × (state_id v ≡ some i))

  pub counted : ℕ → Text → Bool
  counted i v = elim (state_id v) [ none ↦ false | some j ↦ not (text_eq v []) && (j == i) ]

  -- The number of instances in the state `i`.
  unfoldable pub how_many : ℕ → Table InstanceState → ℕ
  unfolding counted
  how_many i [] = 0
  how_many i ((_, inst) ∷ t) =
      let rest = how_many i t in if counted i inst.state then suc rest else rest

  -- The entry at `i` went up by one exactly if the state counts for `i`.
  abbrev Up : ℕ → InstanceState → List ℕ → List ℕ → Type 0
  Up i inst counts counts' =
      (a : ℕ)
      → get_elem? counts i ≡ some a
      → get_elem? counts' i ≡ some (if counted i inst.state then suc a else a)

  module _ (n_states : ℕ) where
    count_one-Up :
        (inst : InstanceState) (counts : List ℕ) (date : Text)
        → Known inst.state
        → (counts' : List ℕ) × (date' : Text) × (count_one state_id n_states inst (counts, date)
            ≡ some (counts', date'))
          × ((i : ℕ) → i < n_states → Up i inst counts counts')
    unfolding count_one counted
    count_one-Up inst counts date (inl y) =
        (counts, later date inst.date, rw y refl, λ i h a e. go i a e (state_id inst.state))
      where
        go :
            (i a : ℕ)
            → get_elem? counts i ≡ some a
            → (o : Option ℕ)
            → get_elem? counts i
              ≡ some (
                  if elim o [ none ↦ false | some j ↦ not (text_eq inst.state []) && (j == i) ]
                  then suc a
                  else a)
        go i a e none = e
        go i a e (some j) = rw y e
    count_one-Up inst counts date (inr (j, known)) = elim (Bool-cases (text_eq inst.state [])) [
      | inl y ↦ (counts, later date inst.date, rw y refl, λ i h a e. rw (known, counted) (rw y e))
      | inr n ↦ elim (Bool-cases (leb n_states j)) [
        | inl big ↦ (
          counts,
          date,
          rw (n, count_one) (rw (known, count_one) (rw big refl)),
          λ i h a e. rw (known, counted) (rw n (e ∙ ground (arith, big, h))),
        )
        | inr small ↦ (
          bump j counts,
          later date inst.date,
          rw (n, count_one) (rw (known, count_one) (rw small refl)),
          λ i h a e. rw (known, counted) (rw n (get-bump j i a counts e)),
        )
      ]
    ]

    count_all-counts :
        (t : Table InstanceState) (counts : List ℕ) (date : Text)
        → All (λ e. Known e.1.state) t
        → (counts' : List ℕ) × (date' : Text) × (count_all state_id n_states t (counts, date)
            ≡ some (counts', date'))
          × ((i : ℕ)
              → i < n_states
              → (a : ℕ) → get_elem? counts i ≡ some a
              → get_elem? counts' i ≡ some (a + how_many i t))
    unfolding count_all how_many
    count_all-counts [] counts date h = (counts, date, refl, λ i lt a e. e ∙ ap some (omega arith))
    count_all-counts ((name, inst) ∷ t) counts date (k, h) =
        let (c₁, d₁, p₁, up) = count_one-Up inst counts date k in
        let (c₂, d₂, p₂, rest) = count_all-counts t c₁ d₁ h in
        (
          c₂,
          d₂,
          rw (p₁, count_all) p₂,
          λ i lt a e. rest i lt _ (up i lt a e) ∙ ap some (ground arith),
        )

    -- Every state of the service has its number of instances, and these are in order.
    pub record Counted (ss : ServiceState) : Type 0 where
      pub in_order : Ascending (keys ss.instances)
      pub counts_lem :
          (i : ℕ) → i < n_states → get_elem? ss.counts i ≡ some (how_many i ss.instances)

    -- A service before the counting.
    pub record Filled (ss : ServiceState) : Type 0 where
      pub no_counts : ss.counts ≡ []
      pub in_order : Ascending (keys ss.instances)
      pub known : All (λ e. Known e.1.state) ss.instances

    pub summarize-Counted :
        (t : Table ServiceState)
        → All (λ e. Filled e.1) t
        → (t' : Table ServiceState) × (summarize state_id n_states t ≡ some t')
          × (keys t' ≡ keys t)
          × ((a b : Text) → instance_of a b t' ≡ instance_of a b t)
          × All (λ e. Counted e.1) t'
    unfolding summarize keys
    summarize-Counted [] h = ([], refl, refl, λ a b. refl, tt)
    summarize-Counted ((name, ss) ∷ t) (f, h) =
        let (c, d, p, count) =
          count_all-counts ss.instances (resize n_states ss.counts) ss.date f.known in
        let (t', q, e, same, hs) = summarize-Counted t h in
        (
          (name, record ss { counts = c; date = d }) ∷ t',
          rw (p, summarize) (rw (q, summarize) refl),
          ap (λ x. name ∷ x) e,
          λ a b.
              instance_of-cons a b name (record ss { counts = c; date = d }) t'
              ∙ ap (λ o. if text_eq a name then find b ss.instances else o) (same a b)
              ∙ sym (instance_of-cons a b name ss t),
          (
            record {
              in_order = f.in_order;
              counts_lem = λ i lt.
                  count i lt 0 (rw (f.no_counts, resize-nil n_states) (get-zeros n_states i lt))
                  ∙ ap some (omega arith);
            },
            hs,
          ),
        )
