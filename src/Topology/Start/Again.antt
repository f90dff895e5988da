-- ===== src/Topology/Start/Again.antt =====
-- Initialize after Reset (plugins/TopologyConfig.cxx).
use nestdaq.Base.{
  ◌>>=◌, ◌≡◌, refl, Bool, sym, ap, ◌∙◌, true, List, [], ◌∷◌, ◌++◌, Option, some, none, arith,
  Option-cases, inl, inr,
}
use nestdaq.Text.{Text, codes, contains}
use nestdaq.Text.Split.{Algorithm}
use nestdaq.Text.Table.{Table, find, keys}
use nestdaq.Text.Table.Order.{contains-alter}
use nestdaq.Redis.{Redis}
use nestdaq.Topology.Channel.{Config}
use nestdaq.Topology.Link.{LinkProperty, read_link_property}
use nestdaq.Topology.Announcements.{
  Child, link_name, add_link, add_links, read_links, add_children, add_endpoints, read_endpoints,
}
use nestdaq.Topology.Start.{State, configure, values_of, set_properties, initialize, reset}

bind_some :
    {A B : Type 0} (m : Option A) (f : A → Option B) {b : B}
    → (m >>= f) ≡ some b
    → (a : A) × (m ≡ some a) × (f a ≡ some b)
bind_some none f e = cc
bind_some (some a) f e = (a, refl, e)

some_inj : {A : Type 0} {a b : A} → some a ≡ some b → a ≡ b
some_inj e = cc

module _ (R : Redis) (A : Algorithm) (cfg : Config) (my_ip : Text) (enable_uds : Bool)
    (children : List Child) (subopt_parser : List Text → Text → Option (List (Text × Text))) where
  set_properties_links :
      (options : List Text) (st : State R)
      → (set_properties R cfg subopt_parser options st).links ≡ st.links
  unfolding set_properties
  set_properties_links options st = elim (Option-cases (subopt_parser options cfg.service_name)) [
    | inl e ↦ rw (e, set_properties) refl
    | inr (ps, e) ↦ rw (e, set_properties) refl
  ]

  initialize_links :
      (st st' : State R)
      → initialize R A cfg my_ip enable_uds children subopt_parser st ≡ some st'
      → add_links R cfg st.topology.store (read_links R cfg st.topology.store) st.links
        ≡ some st'.links
  unfolding initialize
  initialize_links st st' e =
      let (connect, _, e1) = bind_some (add_children children st.channels.connect) _ e in
      let (channels, _, e2) =
        bind_some
          (add_endpoints R cfg st.topology.store (read_endpoints R cfg st.topology.store)
            (record st.channels { connect = connect }))
          _ e1 in
      let (links, q, e3) =
        bind_some (add_links R cfg st.topology.store (read_links R cfg st.topology.store) st.links)
          _ e2 in
      let (first, _, e4) =
        bind_some (configure R A cfg my_ip enable_uds (values_of links) channels.bind st.topology) _
          e3 in
      let (second, _, e5) =
        bind_some (configure R A cfg my_ip enable_uds (values_of links) channels.connect first.2) _
          e4 in
      q
      ∙ ap some (
          sym (
            set_properties_links (first.1 ++ second.1) (record st {
              channels = record { bind = first.0; connect = second.0 };
              links = links;
              topology = second.2;
            }))
          ∙ ap (λ (u : State R). u.links) (some_inj e5))

  add_link-keeps :
      (lp : LinkProperty) (t : Table LinkProperty) (n : Text)
      → contains (keys t) n ≡ true
      → contains (keys (add_link cfg lp t)) n ≡ true
  unfolding add_link
  add_link-keeps lp t n h = elim (Option-cases (find (link_name cfg lp) t)) [
    | inl e ↦
        rw (e, add_link) (ground (arith, h, contains-alter (link_name cfg lp) lp (λ _. lp) t n))
    | inr (l, e) ↦
        rw (e, add_link)
          (ground (
            arith,
            h,
            contains-alter (link_name cfg lp) lp
                (λ (m : LinkProperty). record m {
                  options = m.options ++ (codes "," ++ lp.options);
                })
                t n,
          ))
  ]

  add_links-keeps :
      (s : R.Store) (ks : List Text) (t t' : Table LinkProperty) (n : Text)
      → add_links R cfg s ks t ≡ some t'
      → contains (keys t) n ≡ true
      → contains (keys t') n ≡ true
  unfolding add_links
  add_links-keeps s [] t t' n e h = ap (λ u. contains (keys u) n) (sym (some_inj e)) ∙ h
  add_links-keeps s (k ∷ ks) t t' n e h = elim (Option-cases (read_link_property R cfg k s)) [
    | inl q ↦ absurd (failed q)
    | inr (lp, q) ↦
        add_links-keeps s ks (add_link cfg lp t) t' n (read lp q) (add_link-keeps lp t n h)
  ]
    where
      failed : read_link_property R cfg k s ≡ none → ⊥
      failed q = ground (arith, e, q)

      read :
          (lp : LinkProperty)
          → read_link_property R cfg k s ≡ some lp
          → add_links R cfg s ks (add_link cfg lp t) ≡ some t'
      read lp q = ground (arith, e, q)

  -- After Reset, whatever the registry and the links in it are by then: if Initialize returns, every link that was
  -- known before Reset is known still, also one that the registry no longer has.
  pub initialize-reset :
      (st st' : State R) (store : R.Store) (n : Text)
      → initialize R A cfg my_ip enable_uds children subopt_parser (
          let again = reset R st in
          record again { topology = record again.topology { store = store } })
        ≡ some st'
      → contains (keys st.links) n ≡ true
      → contains (keys st'.links) n ≡ true
  unfolding reset
  initialize-reset st st' store n e h =
      add_links-keeps store (read_links R cfg store) st.links st'.links n
        (initialize_links
          (let again = reset R st in
            record again { topology = record again.topology { store = store } })
          st' e)
        h
