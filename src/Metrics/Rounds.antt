-- ===== src/Metrics/Rounds.antt =====
-- SendSocketMetrics and SendProcessMetrics of plugins/MetricsPlugin.cxx. Doubles, /proc and the clock
-- are parameters; what the pipeline holds is a list of commands.
pub mod Barrier
pub mod Lines
pub mod Sent
use nestdaq.Base.{
  ℕ, suc, ◌+◌, Bool, not, ◌&&◌, List, [], ◌∷◌, ◌++◌, Option, none, some, ◌==◌, length,
  if◌then◌else◌,
}
use nestdaq.Text.{Text, codes, text_eq, join}
use nestdaq.Text.Number.{to_string_nat}
use nestdaq.Text.Split.{Algorithm}
use nestdaq.Text.Table.{Table, find, alter}
use nestdaq.Topology.Address.{occurs}
use nestdaq.Metrics.Keys.{
  Instance, SocketMetricsKey, proc_key, last_update_key, last_update_ns_key, ts_proc_key,
}
use nestdaq.Metrics.Line.{Line, regex_search}
use nestdaq.Metrics.Commands.{
  Doubles, Command, hset, ts_add, ProcStat, ProcSelfStat, proc_sum, self_sum, diff, SocketMetrics,
  no_metrics, sum_with, metrics_of, commands_in, commands_out,
}

-- countAll
unfoldable pub count_all : Table ℕ → ℕ
count_all [] = 0
count_all ((_, n) ∷ t) = n + count_all t

abbrev pub has_input : Text → Bool
has_input t = not (text_eq t (codes "push")) && not (text_eq t (codes "pub"))

abbrev pub has_output : Text → Bool
has_output t = not (text_eq t (codes "pull")) && not (text_eq t (codes "sub"))

unfoldable pub passes : Text → Bool
passes content =
    occurs (codes " in: ") content
    && (occurs (codes " out: ") content
        && (occurs (codes "[") content && occurs (codes "]:") content))

module _ (A : Algorithm) where
  abbrev pub sub_channel_name : Line → Text
  sub_channel_name l = A.trim l.channel ++ (codes "[" ++ (A.trim l.index ++ codes "]"))

  abbrev pub type_key : Line → Text
  type_key l =
      join (codes "chans" ∷ A.trim l.channel ∷ A.trim l.index ∷ codes "type" ∷ []) (codes ".")

module _ (D : Doubles) where
  -- What SendProcessMetrics reads: /proc/self/stat, /proc/stat, the number of the state, and the clock.
  pub record Reading : Type 0 where
    pub self_stat : ProcSelfStat
    pub all_stat : ProcStat
    pub state_id : ℕ
    pub last_update : Text
    pub last_update_ns : Text

  pub record Plugin : Type 0 where
    pub socket_metrics : Table (SocketMetrics D)
    pub num_channels : Table ℕ
    pub ts_sock_key : Table SocketMetricsKey
    pub ts_sock_sum_key : Table SocketMetricsKey
    pub proc_self_stat : ProcSelfStat
    pub proc_stat : ProcStat
    -- the commands of the pipeline, and those that were executed
    pub queued : List Command
    pub executed : List (List Command)

  abbrev pub no_key : SocketMetricsKey
  no_key = record { msg_in = []; msg_out = []; bytes_in = []; bytes_out = [] }

  -- operator[] of a map of keys, which stays as it is but for an entry of empty keys
  abbrev pub key_at : Text → Table SocketMetricsKey → SocketMetricsKey
  key_at name t = elim (find name t) [ none ↦ no_key | some k ↦ k ]

  abbrev pub touched : Text → Table SocketMetricsKey → Table SocketMetricsKey
  touched name t = alter name no_key (λ k. k) t

  module _ (replace_all : Text → Text → Text → Text) (p : Instance) where
    unfoldable pub send_process_metrics : Reading → Plugin → Plugin
    unfolding self_sum proc_sum diff
    send_process_metrics r m =
        let diff_self = diff (self_sum r.self_stat) (self_sum m.proc_self_stat) in
        let diff_all = diff (proc_sum r.all_stat) (proc_sum m.proc_stat) in
        let cpu_usage = D.usage diff_self diff_all in
        let ram_usage = D.mebibytes r.self_stat.rss in
        let ts = ts_proc_key replace_all p in
        record m {
          proc_self_stat = r.self_stat;
          proc_stat = r.all_stat;
          queued =
              m.queued
              ++ (hset (proc_key p).cpu p.id (D.show cpu_usage)
                  ∷ hset (proc_key p).ram p.id (D.show ram_usage)
                  ∷ hset (last_update_key p) p.id r.last_update
                  ∷ hset (last_update_ns_key p) p.id r.last_update_ns
                  ∷ ts_add ts.cpu (D.show cpu_usage)
                  ∷ ts_add ts.ram (D.show ram_usage)
                  ∷ ts_add ts.state_id (to_string_nat r.state_id)
                  ∷ []);
        }

    abbrev pub metrics_at : Text → Table (SocketMetrics D) → SocketMetrics D
    metrics_at name t = elim (find name t) [ none ↦ no_metrics D | some x ↦ x ]

    -- fPipe->exec() and the end of the round
    abbrev pub executed_round : Plugin → Plugin
    executed_round m = record m {
      queued = [];
      executed = m.executed ++ (m.queued ∷ []);
      num_channels = [];
    }

    -- A channel that has reported is counted; the round ends when all have.
    unfoldable pub count_channel : Text → Reading → Plugin → Plugin
    unfolding count_all
    count_channel name r m =
        let m' : Plugin = record m {
          num_channels = alter name 0 (λ n. if n == 0 then suc n else n) m.num_channels;
        } in
        if count_all m'.num_channels == length m'.socket_metrics
        then executed_round (send_process_metrics r m')
        else m'

    unfoldable pub queue_socket :
        Text → Text → Text → SocketMetrics D → SocketMetrics D → Plugin → Plugin
    unfolding commands_in commands_out
    queue_socket socket_type name channel_id now sum m =
        let ts_key = key_at name m.ts_sock_key in
        let ts_sum_key = key_at name m.ts_sock_sum_key in
        record m {
          ts_sock_key = touched name m.ts_sock_key;
          ts_sock_sum_key = touched name m.ts_sock_sum_key;
          queued =
              m.queued
              ++ ((if has_input socket_type
                    then commands_in D p channel_id ts_key ts_sum_key now sum
                    else [])
                  ++ (if has_output socket_type
                      then commands_out D p channel_id ts_key ts_sum_key now sum
                      else []));
        }

    -- The properties of the device, and boost::trim_if
    module _ (A : Algorithm) (property : Text → Option Text) where
      -- What is done with a line that the expression fits.
      unfoldable pub send_line : Line → SocketMetrics D → Reading → Plugin → Plugin
      unfolding queue_socket count_channel
      send_line l now r m =
          let name = sub_channel_name A l in
          let m' : Plugin = record m {
            socket_metrics = alter name (no_metrics D) (sum_with D now) m.socket_metrics;
          } in
          elim (property (type_key A l)) [
            | none ↦ m'
            | some socket_type ↦
                if not (has_input socket_type) && not (has_output socket_type)
                then m'
                else count_channel name r (
                    queue_socket socket_type name (join (p.id ∷ name ∷ []) p.separator) now
                      (metrics_at name m'.socket_metrics) m')
          ]

      -- `none` is an exception of std::stod.
      unfoldable pub send_socket_metrics : Text → Reading → Plugin → Option Plugin
      unfolding passes metrics_of send_line
      send_socket_metrics content r m =
          if passes content
          then elim (regex_search content) [
            | none ↦ some m
            | some l ↦ elim (metrics_of D l) [ none ↦ none | some now ↦ some (send_line l now r m) ]
          ]
          else some m

      -- The lines of the log, each with what is read of /proc and the clock then; a line whose
      -- number throws changes nothing.
      unfoldable pub send_all : List (Text × Reading) → Plugin → Plugin
      unfolding send_socket_metrics
      send_all [] m = m
      send_all ((content, r) ∷ ls) m = elim (send_socket_metrics content r m) [
        | none ↦ send_all ls m
        | some m' ↦ send_all ls m'
      ]
