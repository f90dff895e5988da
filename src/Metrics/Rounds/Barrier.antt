-- ===== src/Metrics/Rounds/Barrier.antt =====
-- A round of SendSocketMetrics (plugins/MetricsPlugin.cxx) as a barrier: the pipeline is executed when
-- each channel has reported.
use nestdaq.Base.{
  ℕ, suc, ◌≤◌, ◌≡◌, refl, sym, ◌∙◌, Bool, true, false, not, ◌&&◌, ◌||◌, List, [], ◌∷◌, ◌++◌, arith,
  ◌==◌, ==_iff, length, if◌then◌else◌, All, Bool-cases, inl, inr,
}
use nestdaq.Text.{Text, text_eq, text_eq_sound, contains}
use nestdaq.Text.Names.{Within, Within-back, Within-length}
use nestdaq.Text.Table.{Table, alter, keys}
use nestdaq.Text.Table.Order.{
  Ascending, Ascending-Distinct, alter-Ascending, All-alter, contains-alter, length-keys,
}
use nestdaq.Metrics.Keys.{Instance}
use nestdaq.Metrics.Commands.{Doubles, Command}
use nestdaq.Metrics.Rounds.{
  Plugin, Reading, count_all, count_channel, has_input, has_output, send_process_metrics,
}

-- The counts of the channels that have reported are one.
abbrev pub Ones : Table ℕ → Type 0
Ones t = All (λ e. e.1 ≡ 1) t

-- The counters of a round: each table in order, and who is counted is known.
pub record Balanced {D : Doubles} (m : Plugin D) : Type 0 where
  pub in_order : Ascending (keys m.socket_metrics)
  pub counted : Ascending (keys m.num_channels)
  pub ones : Ones m.num_channels
  pub within : Within (keys m.num_channels) (keys m.socket_metrics)

counts_up : ℕ → ℕ
counts_up n = if n == 0 then suc n else n

count_all_lem : (t : Table ℕ) → Ones t → count_all t ≡ length t
unfolding count_all
count_all_lem [] h = refl
count_all_lem ((k, n) ∷ t) (e, h) = omega (arith, e, count_all_lem t h)

-- A type that sends or receives.
abbrev pub Directed : Text → Type 0
Directed t = (not (has_input t) && not (has_output t)) ≡ false

module _ {D : Doubles} where
  -- The counters once a channel that is known has reported.
  abbrev reported : Text → Plugin D → Plugin D
  reported name m = record m {
    num_channels = alter name 0 (λ n. if n == 0 then suc n else n) m.num_channels;
  }

  reported-Balanced :
      (name : Text) (m : Plugin D)
      → Balanced m
      → contains (keys m.socket_metrics) name ≡ true
      → Balanced (reported name m)
  reported-Balanced name m b known = record {
    in_order = b.in_order;
    counted = alter-Ascending name 0 (λ n. if n == 0 then suc n else n) m.num_channels b.counted;
    ones =
        All-alter name 0 (λ n. if n == 0 then suc n else n) (λ n. n ≡ 1) m.num_channels refl
          (λ n e. rw e refl) b.ones;
    within = λ k h. elim (Bool-cases (text_eq k name)) [
      | inl e ↦ rw (text_eq_sound k name e) known
      | inr n ↦ b.within k (
          ground (
            arith,
            h,
            n,
            contains-alter name 0 (λ n. if n == 0 then suc n else n) m.num_channels k,
          ))
    ];
  }

  module _ (m : Plugin D) (b : Balanced m) where
    counted_length : count_all m.num_channels ≡ length (keys m.num_channels)
    counted_length = count_all_lem m.num_channels b.ones ∙ sym (length-keys m.num_channels)

    counted-le : length (keys m.num_channels) ≤ length (keys m.socket_metrics)
    counted-le =
        Within-length (keys m.num_channels) (keys m.socket_metrics)
          (Ascending-Distinct (keys m.num_channels) b.counted) b.within

    complete :
        Within (keys m.socket_metrics) (keys m.num_channels)
        → (count_all m.num_channels == length m.socket_metrics) ≡ true
    complete w = (==_iff (count_all m.num_channels) (length m.socket_metrics)).1 (
        omega (
          arith,
          counted_length,
          counted-le,
          length-keys m.socket_metrics,
          Within-length (keys m.socket_metrics) (keys m.num_channels)
              (Ascending-Distinct (keys m.socket_metrics) b.in_order) w,
        ))

    incomplete :
        (c : Text)
        → contains (keys m.socket_metrics) c ≡ true
        → contains (keys m.num_channels) c ≡ false
        → (count_all m.num_channels == length m.socket_metrics) ≡ false
    incomplete c k n = elim (Bool-cases (count_all m.num_channels == length m.socket_metrics)) [
      | inr e ↦ e
      | inl e ↦ absurd (
          clash (
            Within-back (keys m.num_channels) (keys m.socket_metrics)
              (Ascending-Distinct (keys m.num_channels) b.counted) b.within
              (omega (
                arith,
                counted_length,
                length-keys m.socket_metrics,
                (==_iff (count_all m.num_channels) (length m.socket_metrics)).0 e,
              ))
              c k))
    ]
      where
        clash : contains (keys m.num_channels) c ≡ true → ⊥
        clash y = cc

module _ {D : Doubles} (ra : Text → Text → Text → Text) (p : Instance) where
  -- The channel `c` is among those that have reported once `name` reports.
  abbrev pub reports : Text → Plugin D → Text → Bool
  reports name m c = text_eq c name || contains (keys m.num_channels) c

  -- The pipeline is executed with all that is in it, and a new round begins.
  abbrev pub Executes : Plugin D → Plugin D → Type 0
  Executes m m' =
      (m'.num_channels ≡ [])
      × (m'.queued ≡ [])
      × ((more : List Command) × (m'.executed ≡ m.executed ++ ((m.queued ++ more) ∷ [])))

  -- Nothing is executed, and who has reported is known.
  abbrev pub Waits : Text → Plugin D → Plugin D → Type 0
  Waits name m m' =
      (m'.executed ≡ m.executed)
      × ((c : Text) → contains (keys m'.num_channels) c ≡ reports name m c)

  module _ (name : Text) (r : Reading D) (m : Plugin D) (b : Balanced m)
      (known : contains (keys m.socket_metrics) name ≡ true) where
    pub count_channel-Executes :
        ((c : Text) → contains (keys m.socket_metrics) c ≡ true → reports name m c ≡ true)
        → Executes m (count_channel D ra p name r m)
    unfolding count_channel send_process_metrics
    count_channel-Executes all =
        rw
          (complete (reported name m) (reported-Balanced name m b known) (λ c k.
            contains-alter name 0 (λ n. if n == 0 then suc n else n) m.num_channels c ∙ all c k))
          (refl, refl, (_, refl))

    pub count_channel-Waits :
        (c : Text)
        → contains (keys m.socket_metrics) c ≡ true
        → reports name m c ≡ false
        → Waits name m (count_channel D ra p name r m)
    unfolding count_channel
    count_channel-Waits c k n =
        rw
          (incomplete (reported name m) (reported-Balanced name m b known) c k
            (contains-alter name 0 (λ n. if n == 0 then suc n else n) m.num_channels c ∙ n))
          (refl, λ j. contains-alter name 0 (λ n. if n == 0 then suc n else n) m.num_channels j)

    pub count_channel_sockets : (count_channel D ra p name r m).socket_metrics ≡ m.socket_metrics
    unfolding count_channel send_process_metrics
    count_channel_sockets =
        elim (Bool-cases (count_all (reported name m).num_channels == length m.socket_metrics)) [
          | inl e ↦ rw e refl
          | inr n ↦ rw n refl
        ]

    pub count_channel-Balanced : Balanced (count_channel D ra p name r m)
    unfolding count_channel send_process_metrics contains keys
    count_channel-Balanced =
        elim (Bool-cases (count_all (reported name m).num_channels == length m.socket_metrics)) [
          | inl e ↦
              rw e (record { in_order = b.in_order; counted = tt; ones = tt; within = λ k h. cc })
          | inr n ↦ rw n (reported-Balanced name m b known)
        ]
