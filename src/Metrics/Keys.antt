-- ===== src/Metrics/Keys.antt =====
-- The keys of plugins/MetricsPlugin.h as the constructor of MetricsPlugin sets them, with Append,
-- Prepend and ReplaceAll. boost::replace_all_copy is a parameter.
use nestdaq.Base.{List, [], ◌∷◌, ◌++◌}
use nestdaq.Text.{Text, codes, join}
use nestdaq.Text.Number.{ℤ}

pub record ProcessStatKey : Type 0 where
  pub cpu : Text
  pub ram : Text
  pub state_id : Text

pub record SocketMetricsKey : Type 0 where
  pub msg_in : Text
  pub msg_out : Text
  pub bytes_in : Text
  pub bytes_out : Text

-- The four keys, each changed by `f`.
abbrev pub each : (Text → Text) → SocketMetricsKey → SocketMetricsKey
each f k = record {
  msg_in = f k.msg_in;
  msg_out = f k.msg_out;
  bytes_in = f k.bytes_in;
  bytes_out = f k.bytes_out;
}

abbrev pub each_process : (Text → Text) → ProcessStatKey → ProcessStatKey
each_process f k = record { cpu = f k.cpu; ram = f k.ram; state_id = f k.state_id }

abbrev pub append : SocketMetricsKey → Text → Text → SocketMetricsKey
append k s separator = each (λ t. join (t ∷ s ∷ []) separator) k

abbrev pub prepend : SocketMetricsKey → Text → Text → SocketMetricsKey
prepend k s separator = each (λ t. join (s ∷ t ∷ []) separator) k

abbrev pub prepend_process : ProcessStatKey → Text → Text → ProcessStatKey
prepend_process k s separator = each_process (λ t. join (s ∷ t ∷ []) separator) k

-- The fields of the plugin that its keys are made of.
pub record Instance : Type 0 where
  pub id : Text
  pub service_name : Text
  pub separator : Text
  pub retention_ms : Text
  pub max_ttl : ℤ

-- MetricsPrefix
abbrev pub top_prefix : Text
top_prefix = codes "metrics"

abbrev pub key : Instance → Text → Text
key p prefix = join (top_prefix ∷ prefix ∷ []) p.separator

abbrev pub state_key : Instance → Text
state_key p = key p (codes "state")

abbrev pub last_update_key : Instance → Text
last_update_key p = key p (codes "last-update")

abbrev pub last_update_ns_key : Instance → Text
last_update_ns_key p = key p (codes "last-update-ns")

abbrev pub proc_key : Instance → ProcessStatKey
proc_key p = record {
  cpu = key p (codes "cpu-stat");
  ram = key p (codes "ram-stat");
  state_id = key p (codes "state-id");
}

abbrev pub sock_key : Instance → SocketMetricsKey
sock_key p = record {
  msg_in = key p (codes "msg-in");
  msg_out = key p (codes "msg-out");
  bytes_in = key p (codes "mb-in");
  bytes_out = key p (codes "mb-out");
}

abbrev pub sock_sum_key : Instance → SocketMetricsKey
sock_sum_key p = append (sock_key p) (codes "sum") (codes "-")

abbrev pub num_message_key : Instance → Text
num_message_key p = key p (codes "num-msg")

abbrev pub bytes_key : Instance → Text
bytes_key p = key p (codes "mb")

abbrev pub num_message_sum_key : Instance → Text
num_message_sum_key p = key p (codes "num-msg-sum")

abbrev pub bytes_sum_key : Instance → Text
bytes_sum_key p = key p (codes "mb-sum")

-- fRegisteredKeys; the set has no order
unfoldable pub registered_keys : Instance → List Text
registered_keys p =
    state_key p
    ∷ last_update_key p
    ∷ last_update_ns_key p
    ∷ key p (codes "start_time")
    ∷ key p (codes "start_time_ns")
    ∷ key p (codes "stop_time")
    ∷ key p (codes "stop_time_ns")
    ∷ key p (codes "run_number")
    ∷ (proc_key p).state_id
    ∷ (proc_key p).cpu
    ∷ (proc_key p).ram
    ∷ key p (codes "created-time")
    ∷ key p (codes "hostname")
    ∷ key p (codes "host-ip")
    ∷ []

abbrev four : SocketMetricsKey → List Text
four k = k.msg_in ∷ k.bytes_in ∷ k.msg_out ∷ k.bytes_out ∷ []

-- fRegisteredSockKeys
unfoldable pub registered_sock_keys : Instance → List Text
registered_sock_keys p =
    four (sock_key p)
    ++ (four (sock_sum_key p)
        ++ (num_message_key p ∷ bytes_key p ∷ num_message_sum_key p ∷ bytes_sum_key p ∷ []))

module _ (replace_all : Text → Text → Text → Text) where
  abbrev pub replace_keys : SocketMetricsKey → Text → Text → SocketMetricsKey
  replace_keys k search format = each (λ t. replace_all t search format) k

  abbrev pub replace_process : ProcessStatKey → Text → Text → ProcessStatKey
  replace_process k search format = each_process (λ t. replace_all t search format) k

  -- fTsProcKey
  abbrev pub ts_proc_key : Instance → ProcessStatKey
  ts_proc_key p =
      prepend_process (replace_process (proc_key p) (top_prefix ++ p.separator) [])
        (join (codes "ts" ∷ p.id ∷ []) p.separator) p.separator
