-- ===== src/Topology/Sockets/Registered.antt =====
-- What WriteChannel, WriteConnectAddress and WriteBindAddress of plugins/TopologyConfig.cxx leave in the
-- registry once the keys are unregistered.
use nestdaq.Base.{
  ℕ, zero, suc, ◌+◌, ◌<◌, ◌≤◌, ◌≡◌, ◌≢◌, ◌∙◌, refl, sym, ap, true, false, List, [], ◌∷◌, ◌++◌, none,
  some, arith, ◌==◌, ==_iff, All, drop, take, if◌then◌else◌, Bool-cases, inl, inr,
}
use nestdaq.Text.{Text, codes, text_eq, text_eq_refl, text_eq_sound, contains, join}
use nestdaq.Text.Table.{Table}
use nestdaq.Text.Names.{contains-append}
use nestdaq.Redis.{Redis, HashLaws, ListLaws, DelLaws, KeyLaws}
use nestdaq.Service.Unregister.{del_all}
use nestdaq.Topology.Property.{SocketProperty, property_fields}
use nestdaq.Topology.Channel.{
  Config, Topology, channel_key, list_key, hset_all, channel_commands, write_channel,
}
use nestdaq.Topology.Sockets.{
  local_key, socket_key, socket_fields, write_socket, write_sockets, write_address,
  write_connect_address, unregister_keys,
}

contains-ne : (ks : List Text) (k j : Text) → contains ks k ≡ false → contains ks j ≡ true → k ≢ j
contains-ne ks k j n y e = cc (ap (contains ks) e)

append_cancel : (xs ys zs : Text) → xs ++ ys ≡ xs ++ zs → ys ≡ zs
append_cancel [] ys zs e = e
append_cancel (x ∷ xs) ys zs e = append_cancel xs ys zs (ap (drop 1) e)

-- A channel and a socket never have the same key.
pub channel_key-socket_key :
    (cfg : Config) (name local : Text) → channel_key cfg name ≢ socket_key cfg local
unfolding join text_eq
channel_key-socket_key cfg name local e = true_false (
    ap (λ t. text_eq (take 1 t) (codes "c"))
      (append_cancel cfg.separator _ _ (
        append_cancel cfg.id _ _ (
          append_cancel cfg.separator _ _ (
            append_cancel cfg.service_name _ _
              (append_cancel cfg.separator _ _ (append_cancel cfg.top_prefix _ _ e)))))))
  where
    true_false : true ≡ false → ⊥
    true_false p = cc

module _ (R : Redis) (starting_with : Text → List (Text × Text)) (cfg : Config) where
  -- The sockets of the channel end before the fuel does.
  abbrev pub SocketsEnd : ℕ → Text → Type 0
  SocketsEnd fuel name = (n : ℕ) × (n < fuel) × (starting_with (local_key name n) ≡ [])

  -- What each socket keeps, all keep.
  pub write_sockets-keeps :
      (I : Topology R → Type 0) (sp : SocketProperty)
      → ((local : Text) (chans : List (Text × Text)) (t : Topology R)
          → I t
          → I (write_socket R starting_with cfg sp local chans t))
      → (fuel index n : ℕ) (t : Topology R) → index ≤ n
      → n < index + fuel
      → starting_with (local_key sp.name n) ≡ []
      → I t
      → (t' : Topology R) × (write_sockets R starting_with cfg fuel sp index t ≡ some t') × I t'
  unfolding write_sockets
  write_sockets-keeps I sp kept zero index n t le lt e i = absurd (omega arith)
  write_sockets-keeps I sp kept (suc fuel) index n t le lt e i = elim (Bool-cases (index == n)) [
    | inl y ↦ (
      t,
      rw (ap (λ j. starting_with (local_key sp.name j)) ((==_iff index n).0 y) ∙ e, write_sockets)
          refl,
      i,
    )
    | inr x ↦ go (starting_with (local_key sp.name index)) refl (λ chans.
        write_sockets-keeps I sp kept fuel (suc index) n
          (write_socket R starting_with cfg sp (local_key sp.name index) chans t)
          (ground (arith, x)) (omega arith) e (kept (local_key sp.name index) chans t i))
  ]
    where
      go :
          (chans : List (Text × Text))
          → starting_with (local_key sp.name index) ≡ chans
          → ((cs : List (Text × Text))
              → (t' : Topology R) × (write_sockets R starting_with cfg fuel sp
                    (suc index)
                    (write_socket R starting_with cfg sp (local_key sp.name index) cs t)
                  ≡ some t')
                × I t')
          → (t' : Topology R) × (write_sockets R starting_with cfg (suc fuel) sp index t ≡ some t')
            × I t'
      go [] p f = (t, rw (p, write_sockets) refl, i)
      go (c ∷ cs) p f = let (t', q, i') = f (c ∷ cs) in (t', rw (p, write_sockets) q, i')

  write_address-keeps :
      (I : Topology R → Type 0) (fuel : ℕ) (f : Text → R.Store → R.Store)
      → ((sp : SocketProperty) (local : Text) (chans : List (Text × Text)) (t : Topology R)
          → I t
          → I (write_socket R starting_with cfg sp local chans t))
      → ((name : Text) (t : Topology R) → I t → I (record t { store = f name t.store }))
      → (channels : Table SocketProperty) (t : Topology R)
      → All (λ c. SocketsEnd fuel c.1.name) channels
      → I t
      → (t' : Topology R) × (write_address R starting_with cfg fuel f channels t ≡ some t') × I t'
  unfolding write_address
  write_address-keeps I fuel f kept marked [] t h i = (t, refl, i)
  write_address-keeps I fuel f kept marked ((name, sp) ∷ channels) t ((n, lt, e), h) i =
      let (t₁, p₁, i₁) =
        write_sockets-keeps I sp (kept sp) fuel 0 n t (omega arith) (omega arith) e i in
      let (t₂, p₂, i₂) =
        write_address-keeps I fuel f kept marked channels _ h (marked name t₁ i₁) in
      (t₂, rw (p₁, write_address) p₂, i₂)

  module _ (H : HashLaws R) (Q : ListLaws R) (D : DelLaws R) (K : KeyLaws R)
      (positive : 0 < cfg.max_ttl) where
    hget-hset_all :
        (key k f : Text) (h : List (Text × Text)) (s : R.Store)
        → key ≢ k
        → R.hget key f (hset_all R k h s) ≡ R.hget key f s
    unfolding hset_all
    hget-hset_all key k f [] s ne = refl
    hget-hset_all key k f ((g, v) ∷ h) s ne =
        hget-hset_all key k f h (R.hset k g v s) ne ∙ K.hget-hset_other key k g v f s ne

    -- Only keys that are registered differ from the store `s`.
    abbrev pub Covered : R.Store → Topology R → Type 0
    Covered s t =
        (k f : Text) → contains t.registered_keys k ≡ false → R.hget k f t.store ≡ R.hget k f s

    write_socket-Covered :
        (s : R.Store) (sp : SocketProperty) (local : Text) (chans : List (Text × Text))
        (t : Topology R)
        → Covered s t
        → Covered s (write_socket R starting_with cfg sp local chans t)
    unfolding write_socket contains
    write_socket-Covered s sp local chans t c k f n =
        let key = socket_key cfg local in
        let split = sym (contains-append t.registered_keys (key ∷ []) k) ∙ n in
        Q.hget-expire k key cfg.max_ttl f _ positive
        ∙ hget-hset_all k key f (socket_fields sp chans) t.store
            (contains-ne (key ∷ []) k key (ground (arith, split)) (rw (text_eq_refl key) refl))
        ∙ c k f (ground (arith, split))

    write_channel-Covered :
        (s : R.Store) (sp : SocketProperty) (peers : List Text) (t : Topology R)
        → Covered s t
        → Covered s (write_channel R cfg sp peers t)
    unfolding write_channel channel_commands contains
    write_channel-Covered s sp [] t c k f n = c k f n
    write_channel-Covered s sp (p ∷ ps) t c k f n =
        let key = channel_key cfg sp.name in
        let keys = list_key cfg sp.name in
        let split = sym (contains-append t.registered_keys (key ∷ keys ∷ []) k) ∙ n in
        let not_keys =
          contains-ne (key ∷ keys ∷ []) k keys (ground (arith, split))
            (ground (arith, text_eq_refl keys)) in
        let not_key =
          contains-ne (key ∷ keys ∷ []) k key (ground (arith, split))
            (ground (arith, text_eq_refl key)) in
        Q.hget-expire k keys cfg.max_ttl f _ positive
        ∙ Q.hget-rpush k keys (p ∷ ps) f _ not_keys
        ∙ Q.hget-expire k key cfg.max_ttl f _ positive
        ∙ hget-hset_all k key f (property_fields sp) t.store not_key
        ∙ c k f (ground (arith, split))

    hget-del_all :
        (k f : Text) (ks : List Text) (s : R.Store)
        → R.hget k f (del_all R ks s) ≡ (if contains ks k then none else R.hget k f s)
    unfolding del_all contains
    hget-del_all k f [] s = refl
    hget-del_all k f (j ∷ ks) s = elim (Bool-cases (text_eq k j)) [
      | inl y ↦ rw y (hget-del_all k f ks (R.del j s) ∙ gone (text_eq_sound k j y))
      | inr n ↦ rw n (
          hget-del_all k f ks (R.del j s)
          ∙ ap (λ o. if contains ks k then none else o) (D.hget-del k j f s (other n)))
    ]
      where
        gone : k ≡ j → (if contains ks k then none else R.hget k f (R.del j s)) ≡ none
        gone e =
            rw (sym (ap (λ i. R.hget k f (R.del i s)) e) ∙ K.hget-del_self k f s) (ground arith)

        other : text_eq k j ≡ false → k ≢ j
        other n e = cc (text_eq_refl j)

    pub hget-unregister_keys :
        (k f : Text) (t : Topology R)
        → R.hget k f (unregister_keys R t).store
          ≡ (if contains t.registered_keys k then none else R.hget k f t.store)
    unfolding unregister_keys contains
    hget-unregister_keys k f t = go t.registered_keys refl
      where
        go :
            (ks : List Text)
            → t.registered_keys ≡ ks
            → R.hget k f (unregister_keys R t).store
              ≡ (if contains t.registered_keys k then none else R.hget k f t.store)
        go [] e = rw (e, unregister_keys) refl
        go (j ∷ ks) e = rw (e, unregister_keys) (hget-del_all k f (j ∷ ks) t.store)

    -- With a positive time to live, from a topology with nothing registered, a channel with whatever
    -- peers and connecting channels whose sockets end before the fuel: WriteChannel and
    -- WriteConnectAddress, followed by Unregister, leave no field under a registered key and every
    -- other field of a hash as it was.
    pub unregister_keys-write_connect_address :
        (fuel : ℕ) (sp : SocketProperty) (peers : List Text) (channels : Table SocketProperty)
        (t : Topology R)
        → t.registered_keys ≡ []
        → All (λ c. SocketsEnd fuel c.1.name) channels
        → (t' : Topology R) × (write_connect_address R starting_with cfg fuel channels
              (write_channel R cfg sp peers t)
            ≡ some t')
          × ((k f : Text)
              → R.hget k f (unregister_keys R t').store
                ≡ (if contains t'.registered_keys k then none else R.hget k f t.store))
    unfolding write_connect_address
    unregister_keys-write_connect_address fuel sp peers channels t e h =
        let (t', p, c) = written channels h in
        (t', p, λ k f. hget-unregister_keys k f t' ∙ unregistered k f t' c)
      where
        start : Topology R
        start = write_channel R cfg sp peers t

        written :
            (channels : Table SocketProperty)
            → All (λ c. SocketsEnd fuel c.1.name) channels
            → (t' : Topology R) × (write_connect_address R starting_with cfg fuel channels start
                ≡ some t')
              × Covered t.store t'
        written [] h = (start, refl, write_channel-Covered t.store sp peers t (λ k f n. refl))
        written (c ∷ cs) h =
            write_address-keeps (Covered t.store) fuel (λ name s. s) (write_socket-Covered t.store)
              (λ name t₁ i. i) (c ∷ cs) start h
              (write_channel-Covered t.store sp peers t (λ k f n. refl))

        unregistered :
            (k f : Text) (t' : Topology R)
            → Covered t.store t'
            → (if contains t'.registered_keys k then none else R.hget k f t'.store)
              ≡ (if contains t'.registered_keys k then none else R.hget k f t.store)
        unregistered k f t' c = elim (Bool-cases (contains t'.registered_keys k)) [
          | inl y ↦ rw y refl
          | inr n ↦ rw n (c k f n)
        ]
