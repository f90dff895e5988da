-- ===== src/Metrics/Rounds/Lines.antt =====
-- What one line of a channel does to the counters and to the queue of SendSocketMetrics
-- (plugins/MetricsPlugin.cxx).
use nestdaq.Base.{
  ◌≡◌, refl, true, not, ◌&&◌, ◌||◌, List, [], ◌∷◌, ◌++◌, Option, some, arith, Bool-cases,
  Option-cases, inl, inr,
}
use nestdaq.Text.{Text, text_eq, text_eq_refl, contains, join}
use nestdaq.Text.Split.{Algorithm}
use nestdaq.Text.Table.{alter, keys}
use nestdaq.Text.Table.Order.{alter-Ascending, contains-alter}
use nestdaq.Metrics.Keys.{Instance}
use nestdaq.Metrics.Line.{Line}
use nestdaq.Metrics.Commands.{Doubles, Command, SocketMetrics, no_metrics, sum_with}
use nestdaq.Metrics.Rounds.{
  Plugin, Reading, count_channel, queue_socket, send_line, sub_channel_name, type_key, has_input,
  has_output, metrics_at,
}
use nestdaq.Metrics.Rounds.Barrier.{Balanced, Directed, count_channel-Balanced}

module _ {D : Doubles} (ra : Text → Text → Text → Text) (p : Instance) (A : Algorithm)
    (property : Text → Option Text) where
  -- The state once the sums of the channel have grown.
  abbrev pub started : Line → SocketMetrics D → Plugin D → Plugin D
  started l now m = record m {
    socket_metrics = alter (sub_channel_name A l) (no_metrics D) (sum_with D now) m.socket_metrics;
  }

  pub contains-started :
      (l : Line) (now : SocketMetrics D) (m : Plugin D) (c : Text)
      → contains (keys (started l now m).socket_metrics) c
        ≡ (text_eq c (sub_channel_name A l) || contains (keys m.socket_metrics) c)
  contains-started l now m c =
      contains-alter (sub_channel_name A l) (no_metrics D) (sum_with D now) m.socket_metrics c

  pub started-Balanced :
      (l : Line) (now : SocketMetrics D) (m : Plugin D) → Balanced m → Balanced (started l now m)
  started-Balanced l now m b = record {
    in_order =
        alter-Ascending (sub_channel_name A l) (no_metrics D) (sum_with D now) m.socket_metrics
          b.in_order;
    counted = b.counted;
    ones = b.ones;
    within = λ k h. ground (arith, contains-started l now m k, b.within k h);
  }

  pub started_known :
      (l : Line) (now : SocketMetrics D) (m : Plugin D)
      → contains (keys (started l now m).socket_metrics) (sub_channel_name A l) ≡ true
  started_known l now m =
      ground (
        arith,
        contains-started l now m (sub_channel_name A l),
        text_eq_refl (sub_channel_name A l),
      )

  pub queue_socket-Balanced :
      (t name id : Text) (now sum : SocketMetrics D) (m : Plugin D)
      → Balanced m
      → Balanced (queue_socket D ra p t name id now sum m)
  unfolding queue_socket
  queue_socket-Balanced t name id now sum m b = record {
    in_order = b.in_order;
    counted = b.counted;
    ones = b.ones;
    within = b.within;
  }

  -- What is queued for a line of a channel of a type.
  abbrev pub queued_line : Text → Line → SocketMetrics D → Plugin D → Plugin D
  queued_line t l now m =
      queue_socket D ra p t (sub_channel_name A l)
        (join (p.id ∷ sub_channel_name A l ∷ []) p.separator) now
        (metrics_at D ra p (sub_channel_name A l) (started l now m).socket_metrics)
        (started l now m)

  pub queued_line_more :
      (t : Text) (l : Line) (now : SocketMetrics D) (m : Plugin D)
      → (more : List Command) × ((queued_line t l now m).queued ≡ m.queued ++ more)
  unfolding queue_socket
  queued_line_more t l now m = (_, refl)

  pub queued_line-Balanced :
      (t : Text) (l : Line) (now : SocketMetrics D) (m : Plugin D)
      → Balanced m
      → Balanced (queued_line t l now m)
  queued_line-Balanced t l now m b =
      queue_socket-Balanced t (sub_channel_name A l) _ now _ (started l now m)
        (started-Balanced l now m b)

  pub send_line_typed :
      (l : Line) (now : SocketMetrics D) (r : Reading D) (m : Plugin D) (t : Text)
      → property (type_key A l) ≡ some t
      → Directed t
      → send_line D ra p A property l now r m
        ≡ count_channel D ra p (sub_channel_name A l) r (queued_line t l now m)
  unfolding send_line
  send_line_typed l now r m t e d = rw (e, send_line) (rw d refl)

  pub send_line-started :
      (l : Line) (now : SocketMetrics D) (r : Reading D) (m : Plugin D)
      → ((t : Text) → property (type_key A l) ≡ some t → Directed t → ⊥)
      → send_line D ra p A property l now r m ≡ started l now m
  unfolding send_line
  send_line-started l now r m no_type = elim (Option-cases (property (type_key A l))) [
    | inl e ↦ rw (e, send_line) refl
    | inr (t, e) ↦ elim (Bool-cases (not (has_input t) && not (has_output t))) [
      | inl y ↦ rw (e, send_line) (rw y refl)
      | inr n ↦ absurd (no_type t e n)
    ]
  ]

  -- The counters stay in order and count each channel once, whatever line comes.
  pub send_line-Balanced :
      (l : Line) (now : SocketMetrics D) (r : Reading D) (m : Plugin D)
      → Balanced m
      → Balanced (send_line D ra p A property l now r m)
  unfolding send_line queue_socket
  send_line-Balanced l now r m b = elim (Option-cases (property (type_key A l))) [
    | inl e ↦ rw (e, send_line) (started-Balanced l now m b)
    | inr (t, e) ↦ elim (Bool-cases (not (has_input t) && not (has_output t))) [
      | inl y ↦ rw (e, send_line) (rw y (started-Balanced l now m b))
      | inr n ↦ rw (send_line_typed l now r m t e n) (
          count_channel-Balanced ra p (sub_channel_name A l) r (queued_line t l now m)
            (queued_line-Balanced t l now m b) (started_known l now m))
    ]
  ]
