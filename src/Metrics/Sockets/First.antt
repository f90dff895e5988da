-- ===== src/Metrics/Sockets/First.antt =====
-- The first property of a socket in InitializeSocketProperties (plugins/MetricsPlugin.cxx).
use nestdaq.Base.{
  ◌≡◌, refl, sym, ap, ◌∙◌, true, false, List, [], ◌∷◌, ◌++◌, none, some, All, if◌then◌else◌,
  Bool-cases, Option-cases, inl, inr,
}
use nestdaq.Text.{Text, text_eq, text_eq_sound}
use nestdaq.Text.Search.{text_lt}
use nestdaq.Text.Split.{Algorithm}
use nestdaq.Text.Table.{Table, find, alter}
use nestdaq.Topology.Property.{SocketProperty, default_property}
use nestdaq.Metrics.Sockets.{
  enter_property, pieces, property_at, read_properties, initialize_socket_properties,
}

find-alter :
    {A : Type 0} (k j : Text) (made : A) (f : A → A) (t : Table A)
    → text_eq j k ≡ false
    → find j (alter k made f t) ≡ find j t
unfolding find alter
find-alter k j made f [] n = rw n refl
find-alter k j made f ((l, a) ∷ t) n = elim (Bool-cases (text_eq k l)) [
  | inl e ↦ rw e (
      ap (λ b. if b then some (f a) else find j t) (here e)
      ∙ sym (ap (λ b. if b then some a else find j t) (here e)))
  | inr m ↦ elim (Bool-cases (text_lt k l)) [
    | inl e ↦ rw (m, e) (rw (n, find) refl)
    | inr e ↦ rw (m, e) (ap (λ r. if text_eq j l then some a else r) (find-alter k j made f t n))
  ]
]
  where
    here : text_eq k l ≡ true → text_eq j l ≡ false
    here e = sym (ap (text_eq j) (text_eq_sound k l e)) ∙ n

module _ (A : Algorithm) (name field k : Text) (key : pieces A k ≡ some (name, field)) where
  -- A property of another socket, or of none.
  abbrev pub Other : Text × Text → Type 0
  Other e = (n f : Text) → pieces A e.0 ≡ some (n, f) → text_eq name n ≡ false

  first_read :
      (v w : Text) (post : List (Text × Text)) (t : Table SocketProperty)
      → find name t ≡ none
      → read_properties A ((k, v) ∷ post) t ≡ read_properties A ((k, w) ∷ post) t
  unfolding read_properties enter_property text_eq
  first_read v w post t e = rw (key, read_properties) (rw (e, enter_property) refl)

  read_first :
      (v w : Text) (pre post : List (Text × Text)) (t : Table SocketProperty)
      → All Other pre
      → find name t ≡ none
      → read_properties A (pre ++ ((k, v) ∷ post)) t ≡ read_properties A (pre ++ ((k, w) ∷ post)) t
  unfolding read_properties
  read_first v w [] post t h e = first_read v w post t e
  read_first v w ((j, u) ∷ pre) post t (o, h) e = elim (Option-cases (pieces A j)) [
    | inl q ↦ rw (q, read_properties) (read_first v w pre post t h e)
    | inr ((n, f), q) ↦ elim (Option-cases (enter_property n f u (property_at n t))) [
      | inl r ↦ rw (q, read_properties) (rw (r, read_properties) refl)
      | inr (p, r) ↦
          rw (q, read_properties)
            (rw (r, read_properties)
              (read_first v w pre post (alter n default_property (λ _. p) t) h
                (find-alter n name default_property (λ _. p) t (o n f q) ∙ e)))
    ]
  ]

  -- The first property of a socket, in the order of the keys, has no effect but that the socket is there: whatever its
  -- value, the socket properties come out the same, or the same exception leaves.
  pub initialize_socket_properties_first :
      (v w : Text) (pre post : List (Text × Text))
      → All Other pre
      → initialize_socket_properties A (pre ++ ((k, v) ∷ post))
        ≡ initialize_socket_properties A (pre ++ ((k, w) ∷ post))
  unfolding initialize_socket_properties find
  initialize_socket_properties_first v w pre post h = read_first v w pre post [] h refl
