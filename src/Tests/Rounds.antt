-- ===== src/Tests/Rounds.antt =====
-- Rounds of SendSocketMetrics with whole numbers for doubles, and lines of the log.
use nestdaq.Base.{
  ℕ, ◌+◌, ◌*◌, ◌/◌, ◌≡◌, refl, ap, true, false, List, [], ◌∷◌, ◌++◌, Option, none, some, arith,
  ◌||◌, if◌then◌else◌,
}
use nestdaq.Text.{Text, codes, text_eq, contains, join}
use nestdaq.Text.Number.{number, is_digit, to_string_nat}
use nestdaq.Text.Search.{text_lt, has}
use nestdaq.Text.Table.{keys}
use nestdaq.Metrics.Line.{Line, regex_search, match_here, fit, is_float}
use nestdaq.Metrics.Commands.{Doubles, SocketMetrics}
use nestdaq.Metrics.Rounds.{Plugin, Reading, sub_channel_name, type_key, send_line, send_all}
use nestdaq.Metrics.Rounds.Barrier.{Balanced, reports, Executes, Waits, Directed}
use nestdaq.Metrics.Rounds.Sent.{send_line-Rounds, send_all_untyped}
use nestdaq.Tests.Metrics.{sink}
use nestdaq.Tests.Splitter.{splitter, trim_both}

abbrev whole : Doubles
whole = record {
  Double = ℕ;
  zero_point = 0;
  stod = number;
  plus = λ x y. x + y;
  show = to_string_nat;
  rounded = λ x. x;
  usage = λ a b. a * 100 / b;
  mebibytes = λ n. n;
}

abbrev keep : Text → Text → Text → Text
keep t search format = t

abbrev data_line : Line
data_line = record {
  channel = codes "data";
  index = codes "0";
  num_message_in = codes "3";
  bytes_in = codes "1";
  num_message_out = codes "0";
  bytes_out = codes "0";
}

-- The greedy channel, the last match of the line.
fits : regex_search (codes "data[0]: in: 3 (1 MB) out: 0 (0 MB)") ≡ some data_line
unfolding regex_search match_here fit is_digit is_float
fits = refl

unfit : regex_search (codes "data[x]: in: 3 (1 MB) out: 0 (0 MB)") ≡ none
unfolding regex_search match_here fit is_digit is_float
unfit = refl

-- Channels have a type, but those with a digit 1.
property : Text → Option Text
property k = if has k b'1' then none else some (codes "push")

has-append : (s t : Text) (c : ℕ) → has (s ++ t) c ≡ (has s c || has t c)
unfolding has
has-append [] t c = refl
has-append (d ∷ s) t c = ground (arith, has-append s t c)

untyped :
    (l : Line)
    → sub_channel_name splitter l ≡ codes "data[1]"
    → property (type_key splitter l) ≡ none
unfolding property join has
untyped l e = rw (one (splitter.trim l.channel) (splitter.trim l.index) e) refl
  where
    one :
        (a i : Text)
        → a ++ (codes "[" ++ (i ++ codes "]")) ≡ codes "data[1]"
        → has (join (codes "chans" ∷ a ∷ i ∷ codes "type" ∷ []) (codes ".")) b'1' ≡ true
    one a i q = ground (
      arith,
      ap (λ t. has t b'1') q,
      has-append a (codes "[" ++ (i ++ codes "]")) b'1',
      has-append i (codes "]") b'1',
      has-append a (codes "." ++ (i ++ (codes "." ++ codes "type"))) b'1',
      has-append i (codes "." ++ codes "type") b'1',
    )

abbrev totals : SocketMetrics whole
totals = record { msg_in = 0; msg_out = 0; bytes_in = 0; bytes_out = 0 }

-- Two channels, of which data[1] has reported or not.
abbrev state : List (Text × ℕ) → Plugin whole
state counts = record {
  socket_metrics = (codes "data[0]", totals) ∷ (codes "data[1]", totals) ∷ [];
  num_channels = counts;
  ts_sock_key = [];
  ts_sock_sum_key = [];
  proc_self_stat = record { utime = 0; stime = 0; vsize = 0; rss = 0 };
  proc_stat = record { user = 0; nice = 0; system = 0; idle = 0 };
  queued = [];
  executed = [];
}

abbrev reading : Reading whole
reading = record {
  self_stat = record { utime = 2; stime = 1; vsize = 0; rss = 9 };
  all_stat = record { user = 10; nice = 0; system = 5; idle = 5 };
  state_id = 9;
  last_update = codes "t";
  last_update_ns = codes "1";
}

one_reported : Balanced (state ((codes "data[1]", 1) ∷ []))
unfolding keys contains text_lt text_eq
one_reported = record {
  in_order = ((refl, tt), (tt, tt));
  counted = (tt, tt);
  ones = (refl, tt);
  within = λ k h. ground (arith, h);
}

none_reported : Balanced (state [])
unfolding keys contains text_lt text_eq
none_reported = record {
  in_order = ((refl, tt), (tt, tt));
  counted = tt;
  ones = tt;
  within = λ k h. ground (arith, h);
}

abbrev before : Plugin whole
before = state ((codes "data[1]", 1) ∷ [])

typed : property (type_key splitter data_line) ≡ some (codes "push")
unfolding property has join trim_both
typed = refl

pushes : Directed (codes "push")
unfolding text_eq
pushes = refl

send_line-Rounds_example :
    let m' = send_line whole keep sink splitter property data_line totals reading before in
    ((c : Text)
      → contains (keys m'.socket_metrics) c ≡ (
          text_eq c (sub_channel_name splitter data_line)
          || contains (keys before.socket_metrics) c))
    × (((c : Text)
          → contains (keys before.socket_metrics) c ≡ true
          → reports keep sink (sub_channel_name splitter data_line) before c ≡ true)
        → Executes keep sink before m')
    × ((c : Text)
        → contains (keys before.socket_metrics) c ≡ true
        → reports keep sink (sub_channel_name splitter data_line) before c ≡ false
        → Waits keep sink (sub_channel_name splitter data_line) before m')
send_line-Rounds_example =
    send_line-Rounds keep sink splitter property data_line totals reading before one_reported
      (codes "push") typed pushes

abbrev log : List (Text × Reading whole)
log =
    (codes "data[0]: in: 3 (1 MB) out: 0 (0 MB)", reading)
    ∷ (codes "data[1]: in: 3 (1 MB) out: 0 (0 MB)", reading)
    ∷ []

known :
    (contains (keys (state []).socket_metrics) (codes "data[1]") ≡ true)
    × (contains (keys (state []).num_channels) (codes "data[1]") ≡ false)
unfolding contains keys text_eq
known = (refl, refl)

send_all_untyped_example : (send_all whole keep sink splitter property log (state [])).executed ≡ []
send_all_untyped_example =
    send_all_untyped keep sink splitter property (codes "data[1]") untyped log (state [])
      none_reported known.0 known.1
