-- ===== src/Tests/Summary.antt =====
-- The state summary of the web controller on the server.
use nestdaq.Base.{ℕ, ◌≡◌, ◌↔◌, refl, false, [], ◌∷◌, Option, some, All, if◌then◌else◌}
use nestdaq.Text.{Text, codes, text_eq}
use nestdaq.Text.Search.{text_lt}
use nestdaq.Text.Table.{Table, find, keys}
use nestdaq.Controller.Summary.{ServiceState, changes}
use nestdaq.Controller.Summary.Changes.{Same, SameInstances, Ordered, changes-Same}
use nestdaq.Tests.Server.{Server}

abbrev colon : Text
colon = codes ":"

-- Every state that is not READY has the number 3.
abbrev state_id : Text → Option ℕ
state_id v = if text_eq v (codes "READY") then some 1 else some 3

abbrev two_sinks : Server
two_sinks = record {
  entries = [];
  strings =
      (codes "daq_service:Sink:Sink-0:fair-mq-state", codes "READY")
      ∷ (codes "daq_service:Sink:Sink-1:fair-mq-state", codes "READY")
      ∷ [];
  lists = [];
}

abbrev empty_sink : ServiceState
empty_sink = record { instances = []; counts = []; date = [] }

abbrev one : Table ServiceState
one = (codes "Sampler", empty_sink) ∷ []

abbrev two : Table ServiceState
two = (codes "Sampler", empty_sink) ∷ (codes "Sink", empty_sink) ∷ []

one-Ordered : Ordered one
unfolding keys
one-Ordered = ((tt, tt), (tt, tt))

two-Ordered : Ordered two
unfolding keys text_lt
two-Ordered = (((refl, tt), (tt, tt)), (tt, (tt, tt)))

changes-Same_example :
    (((changes one two).service_list_changed ≡ false) ↔ Same (keys one) (keys two))
    × (((changes one two).instance_list_changed ≡ false)
        ↔ (Same (keys one) (keys two) × All (λ e. SameInstances (find e.0 one) e.1) two))
changes-Same_example = changes-Same one two one-Ordered two-Ordered
