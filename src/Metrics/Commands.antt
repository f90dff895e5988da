-- ===== src/Metrics/Commands.antt =====
-- What the metrics plugin (plugins/MetricsPlugin.cxx) queues for one socket, and the numbers of /proc. Doubles are a
-- parameter.
use nestdaq.Base.{ℕ, ◌+◌, ◌-◌, ◌%◌, List, [], ◌∷◌, ◌++◌, Option, none, some}
use nestdaq.Text.{Text, codes}
use nestdaq.Text.Number.{to_string_nat}
use nestdaq.Text.Number.Wide.{unsigned_bound}
use nestdaq.Metrics.Keys
use nestdaq.Metrics.Keys.{
  Instance, SocketMetricsKey, sock_key, sock_sum_key, num_message_key, num_message_sum_key,
}
use nestdaq.Metrics.Line.{Line}

-- The operations on doubles that the metrics need.
pub record Doubles : Type 1 where
  pub Double : Type 0
  pub zero_point : Double
  -- std::stod, with `none` for an exception, + and std::to_string
  pub stod : Text → Option Double
  pub plus : Double → Double → Double
  pub show : Double → Text
  -- static_cast<uint64_t>(std::nearbyint(x))
  pub rounded : Double → ℕ
  -- static_cast<double>(diffSelf) / diffAll * fNCpuCores * fClockTick
  pub usage : ℕ → ℕ → Double
  -- static_cast<double>(rss) * fPageSize / 1024 / 1024
  pub mebibytes : ℕ → Double

pub data Command : Type 0 where
  hset : Text → Text → Text → Command
  ts_add : Text → Text → Command

pub record ProcStat : Type 0 where
  pub user : ℕ
  pub nice : ℕ
  pub system : ℕ
  pub idle : ℕ

pub record ProcSelfStat : Type 0 where
  pub utime : ℕ
  pub stime : ℕ
  pub vsize : ℕ
  pub rss : ℕ

abbrev pub wrapped : ℕ → ℕ
wrapped n = n % unsigned_bound

unfoldable pub proc_sum : ProcStat → ℕ
proc_sum s = wrapped (s.user + s.nice + s.system + s.idle)

unfoldable pub self_sum : ProcSelfStat → ℕ
self_sum s = wrapped (s.utime + s.stime)

-- now - before on 64 bits
unfoldable pub diff : ℕ → ℕ → ℕ
diff now before = wrapped (now + (unsigned_bound - before))

module _ (D : Doubles) where
  pub record SocketMetrics : Type 0 where
    pub msg_in : D.Double
    pub msg_out : D.Double
    pub bytes_in : D.Double
    pub bytes_out : D.Double

  -- What operator[] makes of a missing key.
  abbrev pub no_metrics : SocketMetrics
  no_metrics = record {
    msg_in = D.zero_point;
    msg_out = D.zero_point;
    bytes_in = D.zero_point;
    bytes_out = D.zero_point;
  }

  abbrev pub sum_with : SocketMetrics → SocketMetrics → SocketMetrics
  sum_with now sum = record {
    msg_in = D.plus sum.msg_in now.msg_in;
    msg_out = D.plus sum.msg_out now.msg_out;
    bytes_in = D.plus sum.bytes_in now.bytes_in;
    bytes_out = D.plus sum.bytes_out now.bytes_out;
  }

  -- The four calls of std::stod; `none` is an exception.
  unfoldable pub metrics_of : Line → Option SocketMetrics
  metrics_of l = elim (D.stod l.num_message_in) [
    | none ↦ none
    | some msg_in ↦ elim (D.stod l.num_message_out) [
      | none ↦ none
      | some msg_out ↦ elim (D.stod l.bytes_in) [
        | none ↦ none
        | some bytes_in ↦ elim (D.stod l.bytes_out) [
          | none ↦ none
          | some bytes_out ↦ some (record {
            msg_in = msg_in;
            msg_out = msg_out;
            bytes_in = bytes_in;
            bytes_out = bytes_out;
          })
        ]
      ]
    ]
  ]

module _ (D : Doubles) (p : Instance) where
  -- What is queued for one direction: the keys of the metrics and of their sums, the ending of the
  -- name, and the numbers.
  unfoldable pub commands_of :
      Text × Text × Text × Text
      → Text × Text × Text × Text
      → Text
      → Text
      → Text × Text × Text × Text
      → List Command
  commands_of (msg_key, bytes_key', sum_key, bytes_sum_key')
        (ts_msg, ts_bytes, ts_sum, ts_bytes_sum) channel_id ending
        (msg, bytes, msg_sum, bytes_sum) =
      hset msg_key channel_id msg
      ∷ hset bytes_key' channel_id bytes
      ∷ hset sum_key channel_id msg_sum
      ∷ hset bytes_sum_key' channel_id bytes_sum
      ∷ hset (num_message_key p) (channel_id ++ ending) msg
      ∷ hset (Keys.bytes_key p) (channel_id ++ ending) bytes
      ∷ hset (num_message_sum_key p) (channel_id ++ ending) msg_sum
      ∷ hset (Keys.bytes_sum_key p) (channel_id ++ ending) bytes_sum
      ∷ ts_add ts_msg msg
      ∷ ts_add ts_bytes bytes
      ∷ ts_add ts_sum msg_sum
      ∷ ts_add ts_bytes_sum bytes_sum
      ∷ []

  abbrev pub count_text : D.Double → Text
  count_text x = to_string_nat (D.rounded x)

  unfoldable pub commands_in :
      Text → SocketMetricsKey → SocketMetricsKey → SocketMetrics D → SocketMetrics D → List Command
  unfolding commands_of
  commands_in channel_id ts_key ts_sum_key now sum =
      commands_of
        (
          (sock_key p).msg_in,
          (sock_key p).bytes_in,
          (sock_sum_key p).msg_in,
          (sock_sum_key p).bytes_in,
        )
        (ts_key.msg_in, ts_key.bytes_in, ts_sum_key.msg_in, ts_sum_key.bytes_in) channel_id
        (codes ".in")
        (count_text now.msg_in, D.show now.bytes_in, count_text sum.msg_in, D.show sum.bytes_in)

  unfoldable pub commands_out :
      Text → SocketMetricsKey → SocketMetricsKey → SocketMetrics D → SocketMetrics D → List Command
  unfolding commands_of
  commands_out channel_id ts_key ts_sum_key now sum =
      commands_of
        (
          (sock_key p).msg_out,
          (sock_key p).bytes_out,
          (sock_sum_key p).msg_out,
          (sock_sum_key p).bytes_out,
        )
        (ts_key.msg_out, ts_key.bytes_out, ts_sum_key.msg_out, ts_sum_key.bytes_out) channel_id
        (codes ".out")
        (count_text now.msg_out, D.show now.bytes_out, count_text sum.msg_out, D.show sum.bytes_out)
