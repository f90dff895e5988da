-- ===== src/Controller/RunNumber/Replies.antt =====
-- What the run number operations of controller/WebGui.cxx leave in the registry and send.
use nestdaq.Base.{
  ℕ, ◌≡◌, refl, ap, ◌∙◌, Bool-cases, false, ◌&&◌, [], ◌∷◌, ◌++◌, some, arith, length, length-append,
  append_assoc, if◌then◌else◌, inl, inr,
}
use nestdaq.Text.{Text, codes, text_eq, text_eq_refl, text_eq_sound, contains}
use nestdaq.Redis.{Redis, StringLaws}
use nestdaq.Device.Message.{Json}
use nestdaq.Controller.RunNumber.{
  set_run_number, set_latest_run_number, run_info_key, run_number, latest_run_number,
  known_run_info_list, Gui, send, copy_latest_run_number, read_latest_run_number, read_run_number,
  redis_get, redis_set,
}

keys_differ :
    (separator : Text)
    → text_eq (run_info_key separator run_number) (run_info_key separator latest_run_number) ≡ false
keys_differ separator =
    elim (Bool-cases
      (text_eq (run_info_key separator run_number) (run_info_key separator latest_run_number))) [
        | inr n ↦ n
        | inl y ↦
            let e : length (run_info_key separator run_number)
                ≡ length (run_info_key separator latest_run_number) =
              ap length (
                text_eq_sound (run_info_key separator run_number)
                  (run_info_key separator latest_run_number) y) in
            absurd (
              omega (
                arith,
                e,
                length-append (codes "run_info") (separator ++ run_number),
                length-append (codes "run_info") (separator ++ latest_run_number),
                length-append separator run_number,
                length-append separator latest_run_number,
              ))
      ]

module _ {R : Redis} (L : StringLaws R) (separator : Text) (J : Json) where
  copied :
      (connid : ℕ) (g : Gui R) (v : Text)
      → R.get (run_info_key separator run_number) g.store ≡ some v
      → copy_latest_run_number R separator connid g
        ≡ send R connid
            (set_latest_run_number v)
            (record g { store = R.set (run_info_key separator latest_run_number) v g.store })
  unfolding copy_latest_run_number
  copied connid g v e = rw (e, copy_latest_run_number) refl

  read_run :
      (connid : ℕ) (g : Gui R) (v : Text)
      → R.get (run_info_key separator run_number) g.store ≡ some v
      → read_run_number R separator connid g ≡ send R connid (set_run_number v) g
  unfolding read_run_number
  read_run connid g v e = rw (e, read_run_number) refl

  read_latest :
      (connid : ℕ) (g : Gui R) (v : Text)
      → R.get (run_info_key separator latest_run_number) g.store ≡ some v
      → read_latest_run_number R separator connid g ≡ send R connid (set_latest_run_number v) g
  unfolding read_latest_run_number
  read_latest connid g v e = rw (e, read_latest_run_number) refl

  -- With a run number in the registry, a request for it that follows its copy is answered with that
  -- number twice, as the run number and as the latest one, after what was sent before.
  redis_get-copy_latest_run_number :
      (connid client : ℕ) (arg : J.Tree) (g : Gui R) (v : Text)
      → J.text (codes "value") arg ≡ some run_number
      → R.get (run_info_key separator run_number) g.store ≡ some v
      → (redis_get R separator J client arg (copy_latest_run_number R separator connid g)).sent
        ≡ g.sent
          ++ ((connid, set_latest_run_number v)
              ∷ (client, set_run_number v)
              ∷ (client, set_latest_run_number v)
              ∷ [])
  unfolding redis_get send text_eq
  redis_get-copy_latest_run_number connid client arg g v named stored =
      let s' = R.set (run_info_key separator latest_run_number) v g.store in
      let g₁ : Gui R = send R connid (set_latest_run_number v) (record g { store = s' }) in
      let here =
        L.get-set (run_info_key separator run_number) (run_info_key separator latest_run_number) v
          g.store
        ∙ rw (keys_differ separator) stored in
      let there =
        L.get-set (run_info_key separator latest_run_number)
          (run_info_key separator latest_run_number) v g.store
        ∙ rw (text_eq_refl (run_info_key separator latest_run_number)) refl in
      rw (copied connid g v stored) (
        rw (named, redis_get)
          (rw (read_run client g₁ v here) (
            rw (read_latest client (send R client (set_run_number v) g₁) v there) (
              append_assoc (g.sent ++ ((connid, set_latest_run_number v) ∷ []))
                ((client, set_run_number v) ∷ []) ((client, set_latest_run_number v) ∷ [])
              ∙ append_assoc g.sent ((connid, set_latest_run_number v) ∷ [])
                  ((client, set_run_number v) ∷ (client, set_latest_run_number v) ∷ [])))))

  -- Whatever the request, RedisSet changes no key but that of a known name with a value, which it
  -- sets to that value.
  get-redis_set :
      (connid : ℕ) (arg : J.Tree) (g : Gui R) (name val k : Text)
      → J.text (codes "name") arg ≡ some name
      → J.text (codes "value") arg ≡ some val
      → R.get k (redis_set R separator J connid arg g).store ≡ (
          if contains known_run_info_list name && text_eq k (run_info_key separator name)
          then some val
          else R.get k g.store)
  unfolding redis_set
  get-redis_set connid arg g name val k e f =
      elim (Bool-cases (contains known_run_info_list name)) [
        | inl y ↦
            rw (e, redis_set)
              (rw y (rw (f, redis_set) (L.get-set k (run_info_key separator name) val g.store)))
        | inr n ↦ rw (e, redis_set) (rw n refl)
      ]
