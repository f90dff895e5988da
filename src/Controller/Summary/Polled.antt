-- ===== src/Controller/Summary/Polled.antt =====
-- The table of PollState of controller/WebGui.cxx as a whole.
use nestdaq.Base.{ℕ, Option, All}
use nestdaq.Text.{Text}
use nestdaq.Text.Split.{Algorithm}
use nestdaq.Text.Table.{Table, keys}
use nestdaq.Text.Table.Order.{Ascending}
use nestdaq.Redis.{Redis}
use nestdaq.Controller.Summary.{ServiceState}
use nestdaq.Controller.Summary.Counts.{Filled}

module _ (R : Redis) (A : Algorithm) (separator : Text) (state_id : Text → Option ℕ) (n_states : ℕ)
    (undefined : Text) where
  -- Services in order, and ready to be counted.
  abbrev Ready : Table ServiceState → Type 0
  Ready t = Ascending (keys t) × All (λ e. Filled state_id n_states e.1) t
