-- ===== src/Metrics/Rounds/Sent.antt =====
-- When SendSocketMetrics (plugins/MetricsPlugin.cxx) executes the pipeline.
use nestdaq.Base.{
  ◌≡◌, refl, sym, ap, ◌∙◌, true, false, not, ◌&&◌, ◌||◌, List, [], ◌∷◌, ◌++◌, Option, none, some,
  arith, append_assoc, Bool-cases, Option-cases, inl, inr, ◌⊎◌,
}
use nestdaq.Text.{Text, text_eq, text_eq_sound, contains}
use nestdaq.Text.Split.{Algorithm}
use nestdaq.Text.Table.{keys}
use nestdaq.Metrics.Keys.{Instance}
use nestdaq.Metrics.Line.{Line, regex_search}
use nestdaq.Metrics.Commands.{Doubles, Command, SocketMetrics, metrics_of}
use nestdaq.Metrics.Rounds.{
  Plugin, Reading, has_input, has_output, queue_socket, send_line, send_socket_metrics, send_all,
  sub_channel_name, type_key, passes,
}
use nestdaq.Metrics.Rounds.Barrier.{
  Balanced, Directed, reports, Executes, Waits, count_channel_sockets, count_channel-Executes,
  count_channel-Waits,
}
use nestdaq.Metrics.Rounds.Lines.{
  started, queued_line, contains-started, started-Balanced, started_known, queued_line-Balanced,
  queued_line_more, send_line_typed, send_line-started, send_line-Balanced,
}

contradiction : true ≡ false → ⊥
contradiction e = cc

module _ {D : Doubles} (ra : Text → Text → Text → Text) (p : Instance) (A : Algorithm)
    (property : Text → Option Text) where
  module _ (l : Line) (now : SocketMetrics D) (r : Reading D) (m : Plugin D) (b : Balanced m) where
    -- From counters that are in order, for a line of a channel whose type sends or receives: the
    -- channel is known then. If each channel that was known has reported by now, the pipeline is executed with all that
    -- was in it, and a new round begins with an empty pipeline. If one has not, nothing is executed, and
    -- those who have reported are those before and the channel of the line.
    pub send_line-Rounds :
        (t : Text)
        → property (type_key A l) ≡ some t
        → Directed t
        → let m' = send_line D ra p A property l now r m in
          ((c : Text)
            → contains (keys m'.socket_metrics) c
              ≡ (text_eq c (sub_channel_name A l) || contains (keys m.socket_metrics) c))
          × (((c : Text)
                → contains (keys m.socket_metrics) c ≡ true
                → reports ra p (sub_channel_name A l) m c ≡ true)
              → Executes ra p m m')
          × ((c : Text)
              → contains (keys m.socket_metrics) c ≡ true
              → reports ra p (sub_channel_name A l) m c ≡ false
              → Waits ra p (sub_channel_name A l) m m')
    unfolding queue_socket
    send_line-Rounds t e d = rw (send_line_typed ra p A property l now r m t e d) (
      λ c.
          ap (λ s. contains (keys s) c)
            (count_channel_sockets ra p (sub_channel_name A l) r
              (queued_line ra p A property t l now m)
              (queued_line-Balanced ra p A property t l now m b)
              (started_known ra p A property l now m))
          ∙ contains-started ra p A property l now m c,
      λ all.
          let (n, q, (more, ex)) =
            count_channel-Executes ra p (sub_channel_name A l) r
              (queued_line ra p A property t l now m)
              (queued_line-Balanced ra p A property t l now m b)
              (started_known ra p A property l now m) (λ c k. everyone all c k) in
          let (mine, qe) = queued_line_more ra p A property t l now m in
          (n, q, (mine ++ more, rest m.executed m.queued mine more ex qe)),
      λ c k n.
          count_channel-Waits ra p (sub_channel_name A l) r (queued_line ra p A property t l now m)
            (queued_line-Balanced ra p A property t l now m b)
            (started_known ra p A property l now m) c
            (ground (arith, contains-started ra p A property l now m c, k)) n,
    )
      where
        everyone :
            ((c : Text)
              → contains (keys m.socket_metrics) c ≡ true
              → reports ra p (sub_channel_name A l) m c ≡ true)
            → (c : Text) → contains (keys (started ra p A property l now m).socket_metrics) c ≡ true
            → reports ra p (sub_channel_name A l) m c ≡ true
        everyone all c k = elim (Bool-cases (text_eq c (sub_channel_name A l))) [
          | inl y ↦ rw y refl
          | inr n ↦ all c (ground (arith, contains-started ra p A property l now m c, k, n))
        ]

        rest :
            (done : List (List Command)) (queued mine more : List Command)
            → {whole : List (List Command)} → {front : List Command}
            → whole ≡ done ++ ((front ++ more) ∷ [])
            → front ≡ queued ++ mine
            → whole ≡ done ++ ((queued ++ (mine ++ more)) ∷ [])
        rest done queued mine more e q =
            e ∙ ap (λ f. done ++ (f ∷ [])) (rw q (append_assoc queued mine more))

  -- A line throws, has no effect, or is one that the expression fits.
  send_socket_metrics_cases :
      (content : Text) (r : Reading D) (m : Plugin D)
      → (send_socket_metrics D ra p A property content r m ≡ none)
        ⊎ (send_socket_metrics D ra p A property content r m ≡ some m)
        ⊎ ((l : Line) × (now : SocketMetrics D) × (send_socket_metrics D ra p A property content r m
              ≡ some (send_line D ra p A property l now r m)))
  unfolding send_socket_metrics
  send_socket_metrics_cases content r m = elim (Bool-cases (passes content)) [
    | inr n ↦ inr (inl (rw n refl))
    | inl y ↦ elim (Option-cases (regex_search content)) [
      | inl e ↦ inr (inl (ground (arith, y, e)))
      | inr (l, e) ↦ elim (Option-cases (metrics_of D l)) [
        | inl q ↦ inl (ground (arith, y, e, q))
        | inr (now, q) ↦ inr (inr (l, now, ground (arith, y, e, q)))
      ]
    ]
  ]

  -- What every fitting line keeps, the lines of the log keep.
  send_all_keep :
      (P : Plugin D → Type 0)
      → ((l : Line) (now : SocketMetrics D) (r : Reading D) (m : Plugin D)
          → P m
          → P (send_line D ra p A property l now r m))
      → (ls : List (Text × Reading D)) (m : Plugin D) → P m
      → P (send_all D ra p A property ls m)
  unfolding send_all
  send_all_keep P step [] m h = h
  send_all_keep P step ((content, r) ∷ ls) m h = elim (send_socket_metrics_cases content r m) [
    | inl e ↦ rw (e, send_all) (send_all_keep P step ls m h)
    | inr (inl e) ↦ rw (e, send_all) (send_all_keep P step ls m h)
    | inr (inr (l, now, e)) ↦
        rw (e, send_all)
          (send_all_keep P step ls (send_line D ra p A property l now r m) (step l now r m h))
  ]

  -- If the counters are in order, they stay so whatever lines come: the channels that have reported are distinct
  -- and known, and each is counted once.
  pub send_all-Balanced :
      (ls : List (Text × Reading D)) (m : Plugin D)
      → Balanced m
      → Balanced (send_all D ra p A property ls m)
  send_all-Balanced = send_all_keep Balanced (send_line-Balanced ra p A property)

  module _ (c : Text) (done : List (List Command))
      (untyped : (l : Line) → sub_channel_name A l ≡ c → property (type_key A l) ≡ none) where
    record Stuck (m : Plugin D) : Type 0 where
      balanced : Balanced m
      known : contains (keys m.socket_metrics) c ≡ true
      silent : contains (keys m.num_channels) c ≡ false
      nothing : m.executed ≡ done

    started-Stuck :
        (l : Line) (now : SocketMetrics D) (m : Plugin D)
        → Stuck m
        → Stuck (started ra p A property l now m)
    started-Stuck l now m h = record {
      balanced = started-Balanced ra p A property l now m h.balanced;
      known = ground (arith, contains-started ra p A property l now m c, h.known);
      silent = h.silent;
      nothing = h.nothing;
    }

    send_line-Stuck :
        (l : Line) (now : SocketMetrics D) (r : Reading D) (m : Plugin D)
        → Stuck m
        → Stuck (send_line D ra p A property l now r m)
    send_line-Stuck l now r m h = elim (Option-cases (property (type_key A l))) [
      | inl e ↦
          rw (send_line-started ra p A property l now r m (λ t q d. none_some q e))
            (started-Stuck l now m h)
      | inr (t, e) ↦ elim (Bool-cases (not (has_input t) && not (has_output t))) [
        | inl y ↦
            rw (send_line-started ra p A property l now r m (λ u q d. undirected e y q d))
              (started-Stuck l now m h)
        | inr d ↦
            let (grown, _, wait) = send_line-Rounds l now r m h.balanced t e d in
            let (ex, who) = wait c h.known (other e) in
            record {
              balanced = send_line-Balanced ra p A property l now r m h.balanced;
              known = grown c ∙ ground (arith, h.known);
              silent = who c ∙ other e;
              nothing = ex ∙ h.nothing;
            }
      ]
    ]
      where
        none_some :
            {t : Text} → property (type_key A l) ≡ some t → property (type_key A l) ≡ none → ⊥
        none_some q e = cc

        undirected :
            {t u : Text}
            → property (type_key A l) ≡ some t
            → (not (has_input t) && not (has_output t)) ≡ true
            → property (type_key A l) ≡ some u
            → Directed u
            → ⊥
        undirected {t} {u} e y q d = clash (same e q) y d
          where
            same : property (type_key A l) ≡ some t → property (type_key A l) ≡ some u → t ≡ u
            same e' q' = cc

            clash : t ≡ u → (not (has_input t) && not (has_output t)) ≡ true → Directed u → ⊥
            clash f y' d' =
                contradiction (sym y' ∙ (ap (λ w. not (has_input w) && not (has_output w)) f ∙ d'))

        other :
            {t : Text}
            → property (type_key A l) ≡ some t
            → reports ra p (sub_channel_name A l) m c ≡ false
        other e = elim (Bool-cases (text_eq c (sub_channel_name A l))) [
          | inl y ↦
              absurd (none_some e (untyped l (sym (text_eq_sound c (sub_channel_name A l) y))))
          | inr n ↦ rw n h.silent
        ]

  -- If the device has no type for a channel that is known and has not reported, then nothing is
  -- executed any more, whatever lines come.
  pub send_all_untyped :
      (c : Text)
      → ((l : Line) → sub_channel_name A l ≡ c → property (type_key A l) ≡ none)
      → (ls : List (Text × Reading D)) (m : Plugin D) → Balanced m
      → contains (keys m.socket_metrics) c ≡ true
      → contains (keys m.num_channels) c ≡ false
      → (send_all D ra p A property ls m).executed ≡ m.executed
  send_all_untyped c untyped ls m b k n =
      (send_all_keep (Stuck c m.executed untyped) (send_line-Stuck c m.executed untyped) ls m
        (record { balanced = b; known = k; silent = n; nothing = refl })).nothing
