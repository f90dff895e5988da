-- ===== src/Controller/RunNumber.antt =====
-- CopyLatestRunNumber, IncrementRunNumber, ReadLatestRunNumber, ReadRunNumber, RedisGet, RedisIncr and
-- RedisSet of controller/WebGui.cxx. A reply is kept as its type and value; the JSON text that is made
-- of it is Boost.PropertyTree's.
pub mod Replies
use nestdaq.Base.{ℕ, List, [], ◌∷◌, ◌++◌, Option, none, some, if◌then◌else◌}
use nestdaq.Text.{Text, codes, text_eq, contains}
use nestdaq.Text.Number.{to_string}
use nestdaq.Redis.{Redis}
use nestdaq.Device.Message.{Json}

pub data Reply : Type 0 where
  error : Text → Reply
  set_run_number : Text → Reply
  set_latest_run_number : Text → Reply

-- run_info::Prefix and a name
abbrev pub run_info_key : Text → Text → Text
run_info_key separator name = codes "run_info" ++ (separator ++ name)

abbrev pub run_number : Text
run_number = codes "run_number"

abbrev pub latest_run_number : Text
latest_run_number = codes "latest_run_number"

abbrev pub known_run_info_list : List Text
known_run_info_list = run_number ∷ codes "wait-device-ready" ∷ codes "wait-ready" ∷ []

module _ (R : Redis) where
  -- The registry, and what was sent to which connection.
  pub record Gui : Type 0 where
    pub store : R.Store
    pub sent : List (ℕ × Reply)

  pub send : ℕ → Reply → Gui → Gui
  send connid reply g = record g { sent = g.sent ++ ((connid, reply) ∷ []) }

module _ (R : Redis) (separator : Text) where
  pub copy_latest_run_number : ℕ → Gui R → Gui R
  unfolding send
  copy_latest_run_number connid g = elim (R.get (run_info_key separator run_number) g.store) [
    | none ↦ send R connid (error (codes "could not get run number from redis.")) g
    | some v ↦
        send R connid (set_latest_run_number v)
          (record g { store = R.set (run_info_key separator latest_run_number) v g.store })
  ]

  -- `none` is the exception of INCR, which nothing here catches.
  pub increment_run_number : ℕ → Gui R → Option (Gui R)
  unfolding send
  increment_run_number connid g = elim (R.incr (run_info_key separator run_number) g.store) [
    | none ↦ none
    | some (n, s) ↦ some (send R connid (set_run_number (to_string n)) (record g { store = s }))
  ]

  pub read_latest_run_number : ℕ → Gui R → Gui R
  unfolding send
  read_latest_run_number connid g =
      elim (R.get (run_info_key separator latest_run_number) g.store) [
        | none ↦ send R connid (error (codes "could not get latest run number from redis.")) g
        | some v ↦ send R connid (set_latest_run_number v) g
      ]

  pub read_run_number : ℕ → Gui R → Gui R
  unfolding send
  read_run_number connid g = elim (R.get (run_info_key separator run_number) g.store) [
    | none ↦ send R connid (error (codes "could not get run number from redis.")) g
    | some v ↦ send R connid (set_run_number v) g
  ]

  module _ (J : Json) where
    pub redis_get : ℕ → J.Tree → Gui R → Gui R
    unfolding read_latest_run_number read_run_number
    redis_get connid arg g = elim (J.text (codes "value") arg) [
      | none ↦ g
      | some val ↦
          if text_eq val run_number
          then read_latest_run_number connid (read_run_number connid g)
          else g
    ]

    pub redis_incr : ℕ → J.Tree → Gui R → Option (Gui R)
    unfolding increment_run_number
    redis_incr connid arg g = elim (J.text (codes "value") arg) [
      | none ↦ some g
      | some val ↦ if text_eq val run_number then increment_run_number connid g else some g
    ]

    pub redis_set : ℕ → J.Tree → Gui R → Gui R
    redis_set connid arg g = elim (J.text (codes "name") arg) [
      | none ↦ g
      | some name ↦
          if contains known_run_info_list name
          then elim (J.text (codes "value") arg) [
            | none ↦ g
            | some val ↦ record g { store = R.set (run_info_key separator name) val g.store }
          ]
          else g
    ]
