-- ===== src/Topology/Channel/Entries.antt =====
-- WriteChannel and ToSocketProperty (plugins/TopologyConfig.cxx) together.
use nestdaq.Base.{
  ◌<◌, ◌≡◌, ◌≢◌, refl, sym, ap, subst, ◌∙◌, ◌⊎◌, Bool-cases, true, false, List, [], ◌∷◌, ◌++◌, some,
  arith, inl, inr,
}
use nestdaq.Text.{Text, text_eq, text_eq_sound, contains}
use nestdaq.Redis.{Redis, HashLaws, ListLaws, Listed}
use nestdaq.Topology.Property.{SocketProperty, property_fields, to_socket_property}
use nestdaq.Topology.Property.Merge.{InRange, Holds, names, to_socket_property-Holds}
use nestdaq.Topology.Channel.{
  Config, Topology, channel_key, list_key, hset_all, channel_commands, write_channel,
}

abbrev fields : List (Text × Text) → List Text
fields [] = []
fields ((f, v) ∷ h) = f ∷ fields h

fields-property : (sp : SocketProperty) → fields (property_fields sp) ≡ names
fields-property sp = refl

module _ {R : Redis} (H : HashLaws R) (L : ListLaws R) where
  -- A field is written, or it is as before.
  hget-hset_all :
      (key : Text) (h : List (Text × Text)) (f : Text) (s : R.Store)
      → ((v : Text) × Listed f v h × (R.hget key f (hset_all R key h s) ≡ some v))
        ⊎ ((contains (fields h) f ≡ false) × (R.hget key f (hset_all R key h s) ≡ R.hget key f s))
  unfolding hset_all contains
  hget-hset_all key [] f s = inr (refl, refl)
  hget-hset_all key ((g, w) ∷ h) f s = elim (hget-hset_all key h f (R.hset key g w s)) [
    | inl (v, l, e) ↦ inl (v, inr l, e)
    | inr (n, e) ↦ elim (Bool-cases (text_eq f g)) [
      | inl q ↦ inl (w, inl (text_eq_sound f g q, refl), e ∙ H.hget-hset key g w f s ∙ rw q refl)
      | inr q ↦ inr (ground (arith, n, q), e ∙ H.hget-hset key g w f s ∙ rw q refl)
    ]
  ]

  lrange-hset_all :
      (key k : Text) (h : List (Text × Text)) (s : R.Store)
      → key ≢ k
      → R.lrange key (hset_all R k h s) ≡ R.lrange key s
  unfolding hset_all
  lrange-hset_all key k [] s ne = refl
  lrange-hset_all key k ((f, v) ∷ h) s ne =
      lrange-hset_all key k h (R.hset k f v s) ne ∙ L.lrange-hset key k f v s ne

  module _ (cfg : Config) (sp : SocketProperty) (positive : 0 < cfg.max_ttl) where
    abbrev key : Text
    key = channel_key cfg sp.name

    abbrev keys : Text
    keys = list_key cfg sp.name

    hget-channel_commands :
        (peers : List Text) (f : Text) (s : R.Store)
        → key ≢ keys
        → R.hget key f (channel_commands R cfg sp peers s)
          ≡ R.hget key f (hset_all R key (property_fields sp) s)
    unfolding channel_commands
    hget-channel_commands peers f s ne =
        L.hget-expire key keys cfg.max_ttl f _ positive
        ∙ L.hget-rpush key keys peers f _ ne
        ∙ L.hget-expire key key cfg.max_ttl f _ positive

    lrange-channel_commands :
        (peers : List Text) (s : R.Store)
        → keys ≢ key
        → R.lrange keys (channel_commands R cfg sp peers s) ≡ R.lrange keys s ++ peers
    unfolding channel_commands
    lrange-channel_commands peers s ne =
        L.lrange-expire keys keys cfg.max_ttl _ positive
        ∙ L.lrange-rpush keys peers _
        ∙ ap (λ l. l ++ peers)
            (L.lrange-expire keys key cfg.max_ttl _ positive
              ∙ lrange-hset_all keys key (property_fields sp) s ne)

    written-Holds :
        (peers : List Text) (s : R.Store)
        → key ≢ keys
        → Holds sp (R.hgetall key (channel_commands R cfg sp peers s))
    written-Holds peers s ne = (
      (λ f v l. elim (hget-hset_all key (property_fields sp) f s) [
        | inl (w, m, e) ↦ inl (subst (λ x. Listed f x (property_fields sp)) (same f v w l e) m)
        | inr (n, _) ↦ inr n
      ]),
      (λ f k. elim (hget-hset_all key (property_fields sp) f s) [
        | inl (w, m, e) ↦ (w, (H.hgetall_lem key f w _).1 (hget-channel_commands peers f s ne ∙ e))
        | inr (n, _) ↦ absurd (clash f k n)
      ]),
    )
      where
        same :
            (f v w : Text)
            → Listed f v (R.hgetall key (channel_commands R cfg sp peers s))
            → R.hget key f (hset_all R key (property_fields sp) s) ≡ some w
            → w ≡ v
        same f v w l e = cc (
          e,
          hget-channel_commands peers f s ne,
          (H.hgetall_lem key f v (channel_commands R cfg sp peers s)).0 l,
        )

        clash : (f : Text) → contains names f ≡ true → contains names f ≡ false → ⊥
        clash f a b = cc

    -- With peers, a positive time to live, numbers that are ints, and a key of the peer list that is
    -- not that of the channel: the hash of the channel is read back as the property, whatever it
    -- held before, the peers are appended to the peer list in their order, and both keys are
    -- registered at the end.
    pub write_channel-reads :
        (p : Text) (ps : List Text) (t : Topology R)
        → InRange sp
        → key ≢ keys
        → let t' = write_channel R cfg sp (p ∷ ps) t in
          (to_socket_property (R.hgetall key t'.store) ≡ some sp)
          × (R.lrange keys t'.store ≡ R.lrange keys t.store ++ (p ∷ ps))
          × (t'.registered_keys ≡ t.registered_keys ++ (key ∷ keys ∷ []))
    unfolding write_channel
    write_channel-reads p ps t r ne = (
      to_socket_property-Holds r _ (written-Holds (p ∷ ps) t.store ne),
      lrange-channel_commands (p ∷ ps) t.store (λ e. ne (sym e)),
      refl,
    )
