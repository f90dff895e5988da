-- ===== src/Topology/Start/Agree.antt =====
-- The peers that Initialize finds (plugins/TopologyConfig.cxx), and those that WaitBindAddress waits for.
use nestdaq.Base.{
  ◌≡◌, refl, sym, ◌∙◌, Bool, true, false, ◌||◌, List, [], ◌∷◌, some, none, arith, All,
  if◌then◌else◌, Bool-cases, inl, inr,
}
use nestdaq.Text.{Text, text_eq, text_eq_refl, text_eq_sound, contains}
use nestdaq.Text.Names.{contains-append}
use nestdaq.Text.Split.{Algorithm}
use nestdaq.Text.Table.{Table, alter, keys}
use nestdaq.Text.Table.Order.{contains-alter}
use nestdaq.Topology.Lookup.{sorted}
use nestdaq.Redis.{Redis}
use nestdaq.Topology.Property.{SocketProperty}
use nestdaq.Topology.Channel.{Config}
use nestdaq.Topology.Link.{LinkProperty}
use nestdaq.Topology.Waiting.{add, add_channels, link_channels, other_end}
use nestdaq.Topology.Peers.{channel_of, channels_of, find_peers, instances}
use nestdaq.Topology.Start.{announced}

text_eq_sym : (s t : Text) → text_eq s t ≡ text_eq t s
unfolding text_eq
text_eq_sym [] [] = refl
text_eq_sym [] (d ∷ t) = refl
text_eq_sym (c ∷ s) [] = refl
text_eq_sym (c ∷ s) (d ∷ t) = ground (arith, text_eq_sym s t)

contains-add :
    (xs : List Text) (k j : Text) → contains (add xs k) j ≡ (contains xs j || text_eq j k)
unfolding add contains
contains-add xs k j = elim (Bool-cases (contains xs k)) [
  | inl y ↦ rw y (elim (Bool-cases (text_eq j k)) [
    | inl e ↦ rw (e, text_eq_sound j k e, y) refl
    | inr n ↦ ground (arith, n)
  ])
  | inr n ↦ rw n (contains-append xs (k ∷ []) j ∙ single)
]
  where
    single : (contains xs j || contains (k ∷ []) j) ≡ (contains xs j || text_eq j k)
    single = ground (arith)

module _ (cfg : Config) where
  -- A link of this service with another one, as ReadLinkProperty turns it.
  abbrev pub Outward : LinkProperty → Type 0
  Outward l =
      (text_eq cfg.service_name l.my_service ≡ true) × (text_eq l.my_service l.peer_service ≡ false)

  Outward-other_end :
      (sp : SocketProperty) (l : LinkProperty)
      → Outward l
      → other_end cfg sp l
        ≡ (if text_eq sp.name l.my_channel then some (l.peer_service, l.peer_channel) else none)
  unfolding other_end
  Outward-other_end sp l (m, n) = ground (arith, m, n, text_eq_sound cfg.service_name l.my_service)

module _ (R : Redis) (cfg : Config) where
  contains-add_channels :
      (channel : Text) (found as' : List Text) (j : Text)
      → contains (add_channels R cfg channel found as') j
        ≡ (contains found j || contains (channels_of cfg channel as') j)
  unfolding add_channels channels_of contains
  contains-add_channels channel found [] j = ground arith
  contains-add_channels channel found (a ∷ as') j = ground (
    arith,
    contains-add_channels channel (add found (channel_of cfg channel a)) as' j,
    contains-add found (channel_of cfg channel a) j,
  )

  contains-link_channels :
      (s : R.Store) (sp : SocketProperty) (found : List Text) (links : List LinkProperty) (j : Text)
      → All (Outward cfg) links
      → contains (link_channels R cfg s sp found links) j
        ≡ (contains found j || contains (find_peers R cfg s sp links).0 j)
  unfolding link_channels find_peers contains
  contains-link_channels s sp found [] j h = ground arith
  contains-link_channels s sp found (l ∷ links) j (o, h) =
      elim (Bool-cases (text_eq sp.name l.my_channel)) [
        | inl y ↦
            let e : other_end cfg sp l ≡ some (l.peer_service, l.peer_channel) =
              Outward-other_end cfg sp l o ∙ rw y refl in
            rw (e, link_channels)
              (ground (
                arith,
                o,
                y,
                text_eq_sym sp.name l.my_channel,
                contains-link_channels s sp
                    (add_channels R cfg l.peer_channel found (instances R cfg l.peer_service s))
                    links j h,
                contains-add_channels l.peer_channel found (instances R cfg l.peer_service s) j,
                contains-append (channels_of cfg l.peer_channel (instances R cfg l.peer_service s))
                    (find_peers R cfg s sp links).0 j,
              ))
        | inr n ↦
            let e : other_end cfg sp l ≡ none = Outward-other_end cfg sp l o ∙ rw n refl in
            rw (e, link_channels)
              (ground (
                arith,
                o,
                n,
                text_eq_sym sp.name l.my_channel,
                contains-link_channels s sp found links j h,
              ))
      ]

  contains-sorted :
      (ks : List Text) (set : Table (Unit {0})) (j : Text)
      → contains (keys (sorted ks set)) j ≡ (contains ks j || contains (keys set) j)
  unfolding sorted contains
  contains-sorted [] set j = refl
  contains-sorted (k ∷ ks) set j =
      ground
        (arith, contains-sorted ks (alter k tt (λ u. u) set) j, contains-alter k tt (λ u. u) set j)

  module _ (A : Algorithm) (my_ip : Text) (enable_uds : Bool) (s : R.Store)
      (sp : SocketProperty) where
    contains-announced :
        (links : List LinkProperty) (j : Text)
        → contains (announced R A cfg my_ip enable_uds s links sp).1 j
          ≡ contains (find_peers R cfg s sp links).0 j
    unfolding announced keys contains
    contains-announced links j = contains-sorted (find_peers R cfg s sp links).0 [] j ∙ ground arith

    -- If every link leads from this service to another one: the peers with which Initialize announces a channel
    -- are those for which WaitBindAddress waits, if both see the same registry.
    pub announced-link_channels :
        (links : List LinkProperty) (j : Text)
        → All (Outward cfg) links
        → contains (announced R A cfg my_ip enable_uds s links sp).1 j
          ≡ contains (link_channels R cfg s sp [] links) j
    unfolding contains
    announced-link_channels links j h =
        contains-announced links j ∙ sym (contains-link_channels s sp [] links j h)

    -- A link within this service that has the channel at neither end.
    abbrev pub Elsewhere : LinkProperty → Type 0
    Elsewhere l =
        (text_eq l.my_service l.peer_service ≡ true)
        × (text_eq l.my_channel sp.name ≡ false)
        × (text_eq l.peer_channel sp.name ≡ false)

    no_end :
        (l : LinkProperty)
        → text_eq l.my_channel sp.name ≡ false
        → text_eq l.peer_channel sp.name ≡ false
        → other_end cfg sp l ≡ none
    unfolding other_end
    no_end l m p =
        ground (arith, m, p, text_eq_sym sp.name l.my_channel, text_eq_sym sp.name l.peer_channel)

    link_channels-Elsewhere :
        (found : List Text) (links : List LinkProperty)
        → All Elsewhere links
        → link_channels R cfg s sp found links ≡ found
    unfolding link_channels
    link_channels-Elsewhere found [] h = refl
    link_channels-Elsewhere found (l ∷ links) ((_, m, p), h) =
        rw (no_end l m p, link_channels) (link_channels-Elsewhere found links h)

    contains-channels_of :
        (channel : Text) (as' : List Text) (a : Text)
        → contains as' a ≡ true
        → contains (channels_of cfg channel as') (channel_of cfg channel a) ≡ true
    unfolding channels_of contains
    contains-channels_of channel [] a h = cc
    contains-channels_of channel (b ∷ as') a h = elim (Bool-cases (text_eq a b)) [
      | inl e ↦ rw (text_eq_sound a b e) (rw (text_eq_refl (channel_of cfg channel b)) refl)
      | inr n ↦ ground (arith, contains-channels_of channel as' a, h, n)
    ]

    -- If every link is within this service and has the channel at neither end: WaitBindAddress waits for no peer of
    -- the channel, but Initialize announces it with the other channel of the first link, of every
    -- instance that is present.
    pub announced-Elsewhere :
        (l : LinkProperty) (links : List LinkProperty) (a : Text)
        → All Elsewhere (l ∷ links)
        → contains (instances R cfg l.peer_service s) a ≡ true
        → (link_channels R cfg s sp [] (l ∷ links) ≡ [])
          × (contains
                (announced R A cfg my_ip enable_uds s (l ∷ links) sp).1
                (channel_of cfg l.peer_channel a)
              ≡ true)
    unfolding find_peers
    announced-Elsewhere l links a ((e, m, p), h) i = (
      link_channels-Elsewhere [] (l ∷ links) ((e, m, p), h),
      contains-announced (l ∷ links) (channel_of cfg l.peer_channel a)
          ∙ ground (
            arith,
            e,
            m,
            p,
            contains-channels_of l.peer_channel (instances R cfg l.peer_service s) a i,
            contains-append (channels_of cfg l.peer_channel (instances R cfg l.peer_service s))
                (find_peers R cfg s sp links).0 (channel_of cfg l.peer_channel a),
          ),
    )
