-- ===== src/Topology/Property/Merge.antt =====
-- ToSocketProperty (plugins/TopologyConfig.cxx) on a hash with the fields of a property.
use nestdaq.Base.{
  ◌≡◌, refl, ap, ◌∙◌, ◌⊎◌, Bool, true, false, List, [], ◌∷◌, some, arith, if◌then◌else◌, inl, inr,
}
use nestdaq.Text.{Text, codes, text_eq, text_eq_refl, contains, is_true}
use nestdaq.Text.Number.{ℤ, InInt, to_string}
use nestdaq.Text.Number.RoundTrip.{stoi-to_string}
use nestdaq.Redis.{Listed}
use nestdaq.Topology.Property.{
  SocketProperty, default_property, with_int, set_field, set_fields, to_socket_property, flag,
  property_fields,
}

-- Every number of a property is an int.
pub record InRange (sp : SocketProperty) : Type 0 where
  pub snd_buf_size_in : InInt sp.snd_buf_size
  pub rcv_buf_size_in : InInt sp.rcv_buf_size
  pub snd_kernel_size_in : InInt sp.snd_kernel_size
  pub rcv_kernel_size_in : InInt sp.rcv_kernel_size
  pub linger_in : InInt sp.linger
  pub rate_logging_in : InInt sp.rate_logging
  pub port_range_min_in : InInt sp.port_range_min
  pub port_range_max_in : InInt sp.port_range_max
  pub num_sockets_in : InInt sp.num_sockets

-- The fields that `b` names are those of `sp`, the others those of `d`.
abbrev merge : (Text → Bool) → SocketProperty → SocketProperty → SocketProperty
merge b d sp = record {
  name = if b (codes "name") then sp.name else d.name;
  socket_type = if b (codes "type") then sp.socket_type else d.socket_type;
  method = if b (codes "method") then sp.method else d.method;
  address = if b (codes "address") then sp.address else d.address;
  transport = if b (codes "transport") then sp.transport else d.transport;
  snd_buf_size = if b (codes "sndBufSize") then sp.snd_buf_size else d.snd_buf_size;
  rcv_buf_size = if b (codes "rcvBufSize") then sp.rcv_buf_size else d.rcv_buf_size;
  snd_kernel_size = if b (codes "sndKernelSize") then sp.snd_kernel_size else d.snd_kernel_size;
  rcv_kernel_size = if b (codes "rcvKernelSize") then sp.rcv_kernel_size else d.rcv_kernel_size;
  linger = if b (codes "linger") then sp.linger else d.linger;
  rate_logging = if b (codes "rateLogging") then sp.rate_logging else d.rate_logging;
  port_range_min = if b (codes "portRangeMin") then sp.port_range_min else d.port_range_min;
  port_range_max = if b (codes "portRangeMax") then sp.port_range_max else d.port_range_max;
  auto_bind = if b (codes "autoBind") then sp.auto_bind else d.auto_bind;
  num_sockets = if b (codes "numSockets") then sp.num_sockets else d.num_sockets;
  auto_sub_channel = if b (codes "autoSubChannel") then sp.auto_sub_channel else d.auto_sub_channel;
  bound = if b (codes "bound") then sp.bound else d.bound;
  wait_for_peer_connection =
      if b (codes "waitForPeerConnection")
      then sp.wait_for_peer_connection
      else d.wait_for_peer_connection;
}

abbrev pub names : List Text
names =
    codes "name"
    ∷ codes "type"
    ∷ codes "method"
    ∷ codes "address"
    ∷ codes "transport"
    ∷ codes "sndBufSize"
    ∷ codes "rcvBufSize"
    ∷ codes "sndKernelSize"
    ∷ codes "rcvKernelSize"
    ∷ codes "linger"
    ∷ codes "rateLogging"
    ∷ codes "portRangeMin"
    ∷ codes "portRangeMax"
    ∷ codes "autoBind"
    ∷ codes "numSockets"
    ∷ codes "autoSubChannel"
    ∷ codes "bound"
    ∷ codes "waitForPeerConnection"
    ∷ []

abbrev add : Text → (Text → Bool) → Text → Bool
add f b g = if text_eq g f then true else b g

is_true-flag : (b : Bool) → is_true (flag b) ≡ b
unfolding is_true flag
is_true-flag true = refl
is_true-flag false = refl

with_int-to_string :
    (z : ℤ) → InInt z → (set : ℤ → SocketProperty) → with_int (to_string z) set ≡ some (set z)
unfolding with_int
with_int-to_string z h set = rw (stoi-to_string z h, with_int) refl

-- A field of `sp` is taken over.
set_field-merge :
    {sp : SocketProperty} (r : InRange sp) (b : Text → Bool) (d : SocketProperty) (f v : Text)
    → Listed f v (property_fields sp)
    → set_field f v (merge b d sp) ≡ some (merge (add f b) d sp)
unfolding set_field text_eq
set_field-merge {sp} r b d f v (inl (e, e')) = rw (e, e') refl
set_field-merge {sp} r b d f v (inr (inl (e, e'))) = rw (e, e') refl
set_field-merge {sp} r b d f v (inr (inr (inl (e, e')))) = rw (e, e') refl
set_field-merge {sp} r b d f v (inr (inr (inr (inl (e, e'))))) = rw (e, e') refl
set_field-merge {sp} r b d f v (inr (inr (inr (inr (inl (e, e')))))) = rw (e, e') refl
set_field-merge {sp} r b d f v (inr (inr (inr (inr (inr (inl (e, e'))))))) =
    rw (e, e') (with_int-to_string sp.snd_buf_size r.snd_buf_size_in _)
set_field-merge {sp} r b d f v (inr (inr (inr (inr (inr (inr (inl (e, e')))))))) =
    rw (e, e') (with_int-to_string sp.rcv_buf_size r.rcv_buf_size_in _)
set_field-merge {sp} r b d f v (inr (inr (inr (inr (inr (inr (inr (inl (e, e'))))))))) =
    rw (e, e') (with_int-to_string sp.snd_kernel_size r.snd_kernel_size_in _)
set_field-merge {sp} r b d f v (inr (inr (inr (inr (inr (inr (inr (inr (inl (e, e')))))))))) =
    rw (e, e') (with_int-to_string sp.rcv_kernel_size r.rcv_kernel_size_in _)
set_field-merge {sp} r b d f v (inr (inr (inr (inr (inr (inr (inr (inr (inr (inl (e, e'))))))))))) =
    rw (e, e') (with_int-to_string sp.linger r.linger_in _)
set_field-merge {sp} r b d f v
      (inr (inr (inr (inr (inr (inr (inr (inr (inr (inr (inl (e, e')))))))))))) =
    rw (e, e') (with_int-to_string sp.rate_logging r.rate_logging_in _)
set_field-merge {sp} r b d f v
      (inr (inr (inr (inr (inr (inr (inr (inr (inr (inr (inr (inl (e, e'))))))))))))) =
    rw (e, e') (with_int-to_string sp.port_range_min r.port_range_min_in _)
set_field-merge {sp} r b d f v
      (inr (inr (inr (inr (inr (inr (inr (inr (inr (inr (inr (inr (inl (e, e')))))))))))))) =
    rw (e, e') (with_int-to_string sp.port_range_max r.port_range_max_in _)
set_field-merge {sp} r b d f v
      (inr (inr (inr (inr (inr (inr (inr (inr (inr (inr (inr (inr (inr (inl (e, e'))))))))))))))) =
    rw (e, e', is_true-flag sp.auto_bind) refl
set_field-merge {sp} r b d f v
      (inr (
        inr
          (inr (inr (inr (inr (inr (inr (inr (inr (inr (inr (inr (inr (inl (e, e')))))))))))))))) =
    rw (e, e') (with_int-to_string sp.num_sockets r.num_sockets_in _)
set_field-merge {sp} r b d f v
      (inr (
        inr (
          inr (
            inr
              (inr (inr (inr (inr (inr (inr (inr (inr (inr (inr (inr (inl (e, e'))))))))))))))))) =
    rw (e, e', is_true-flag sp.auto_sub_channel) refl
set_field-merge {sp} r b d f v
      (inr (
        inr (
          inr (
            inr (
              inr (
                inr
                  (inr (inr (inr (inr (inr (inr (inr (inr (inr (inr (inl (e, e')))))))))))))))))) =
    rw (e, e', is_true-flag sp.bound) refl
set_field-merge {sp} r b d f v
      (inr (
        inr (
          inr (
            inr (
              inr (
                inr (
                  inr (
                    inr
                      (inr (inr (inr (inr (inr (inr (inr (inr (inr (inl (e, e'))))))))))))))))))) =
    rw (e, e', is_true-flag sp.wait_for_peer_connection) refl
set_field-merge r b d f v
      (inr (
        inr (
          inr (
            inr (
              inr (
                inr
                  (inr (inr (inr (inr (inr (inr (inr (inr (inr (inr (inr (inr l)))))))))))))))))) =
    absurd l

-- Any other field is skipped.
set_field-other :
    (f v : Text) (sp : SocketProperty) → contains names f ≡ false → set_field f v sp ≡ some sp
unfolding set_field contains
set_field-other f v sp n = ground (arith, n)

-- The entries of a hash that holds `sp`: its fields, and fields that no property has.
abbrev pub Holds : SocketProperty → List (Text × Text) → Type 0
Holds sp h =
    ((f v : Text) → Listed f v h → Listed f v (property_fields sp) ⊎ (contains names f ≡ false))
    × ((f : Text) → contains names f ≡ true → (v : Text) × Listed f v h)

set_fields-merge :
    {sp : SocketProperty} (r : InRange sp) (d : SocketProperty) (h : List (Text × Text))
    → ((f v : Text) → Listed f v h → Listed f v (property_fields sp) ⊎ (contains names f ≡ false))
    → (b : Text → Bool)
    → (b' : Text → Bool) × (set_fields h (merge b d sp) ≡ some (merge b' d sp))
      × ((g : Text) → b g ≡ true → b' g ≡ true)
      × ((g v : Text) → Listed g v h → contains names g ≡ true → b' g ≡ true)
unfolding set_fields
set_fields-merge r d [] H b = (b, refl, (λ g e. e), λ g v l. absurd l)
set_fields-merge {sp} r d ((f, v) ∷ h) H b = elim (H f v (inl (refl, refl))) [
  | inl l ↦
      let (b', p, keep, all) = set_fields-merge r d h (λ g w m. H g w (inr m)) (add f b) in
      (
        b',
        rw (set_field-merge r b d f v l, set_fields) p,
        (λ g e. keep g (ground (arith, e))),
        (λ g w m k. elim m [
          | inl (e, _) ↦ keep g (rw e (rw (text_eq_refl f) refl))
          | inr m' ↦ all g w m' k
        ]),
      )
  | inr n ↦
      let (b', p, keep, all) = set_fields-merge r d h (λ g w m. H g w (inr m)) b in
      (
        b',
        rw (set_field-other f v (merge b d sp) n, set_fields) p,
        keep,
        (λ g w m k. elim m [ inl (e, _) ↦ absurd (clash g e k n) | inr m' ↦ all g w m' k ]),
      )
]
  where
    clash : (g : Text) → g ≡ f → contains names g ≡ true → contains names f ≡ false → ⊥
    clash g e k n = cc

merge-all :
    (b : Text → Bool) (d sp : SocketProperty)
    → ((g : Text) → contains names g ≡ true → b g ≡ true)
    → merge b d sp ≡ sp
unfolding contains text_eq
merge-all b d sp c =
    rw
      (
        c (codes "name") refl,
        c (codes "type") refl,
        c (codes "method") refl,
        c (codes "address") refl,
        c (codes "transport") refl,
        c (codes "sndBufSize") refl,
        c (codes "rcvBufSize") refl,
        c (codes "sndKernelSize") refl,
        c (codes "rcvKernelSize") refl,
        c (codes "linger") refl,
        c (codes "rateLogging") refl,
        c (codes "portRangeMin") refl,
        c (codes "portRangeMax") refl,
        c (codes "autoBind") refl,
        c (codes "numSockets") refl,
        c (codes "autoSubChannel") refl,
        c (codes "bound") refl,
        c (codes "waitForPeerConnection") refl,
      )
      refl

-- A hash that holds the fields of a property, each once, with numbers that are ints, is read back
-- as that property, whatever the order of its entries and whatever other fields it has.
pub to_socket_property-Holds :
    {sp : SocketProperty}
    → InRange sp
    → (h : List (Text × Text)) → Holds sp h
    → to_socket_property h ≡ some sp
unfolding to_socket_property
to_socket_property-Holds {sp} r h (only, all) =
    let (b, p, _, c) = set_fields-merge r default_property h only (λ g. false) in
    p ∙ ap some (merge-all b default_property sp (λ g k. let (v, l) = all g k in c g v l k))
