-- ===== src/Controller/Expired/Keys.antt =====
-- ProcessExpiredKey of controller/WebGui.cxx on the presence keys of plugins/DaqServicePlugin.cxx.
use nestdaq.Base.{
  ℕ, ◌+◌, ◌<◌, ◌≤◌, ◌≡◌, refl, sym, ap, ◌∙◌, true, false, Bool-cases, inl, inr, [], ◌∷◌, ◌++◌, none,
  some, arith, length, length-append, append_assoc, All-append, if◌then◌else◌,
}
use nestdaq.Text.{Text, codes, text_eq, text_eq_sound, join}
use nestdaq.Text.Number.{to_string_nat}
use nestdaq.Text.Number.RoundTrip.{to_string_nat-Clear}
use nestdaq.Text.Search.{npos, has, size_suc, find_first_of, substr}
use nestdaq.Text.Search.Skip.{Clear, first_of-skip, first_of-hit, substr-rest, size_suc-small}
use nestdaq.Text.Split.{Algorithm, SplitLaws}
use nestdaq.Redis.{Redis, HashLaws}
use nestdaq.Topology.Address.{starts_with, occurs}
use nestdaq.Topology.Address.Occurs.{occurs-append}
use nestdaq.Service.Instance.{
  Setting, top_prefix, presence_prefix, index_key, instance_id, presence_key,
}
use nestdaq.Controller.Expired.{delete_index, delete_index_of, process_expired_key}

occurs_self : occurs (codes "presence") (codes "presence") ≡ true
unfolding occurs starts_with
occurs_self = refl

occurs-presence_key :
    (cfg : Setting) (id : Text) → occurs (codes "presence") (presence_key cfg id) ≡ true
unfolding join
occurs-presence_key cfg id = occurs-append (codes "presence") top_prefix _ (
    occurs-append (codes "presence") cfg.separator _ (
      occurs-append (codes "presence") cfg.service_name _ (
        occurs-append (codes "presence") cfg.separator _ (
          occurs-append (codes "presence") id _
            (occurs-append (codes "presence") cfg.separator (codes "presence") occurs_self)))))

-- The part behind the first hyphen.
behind_hyphen :
    (a rest : Text)
    → Clear (codes "-") a
    → length (a ++ (b'-' ∷ rest)) < npos
    → substr (a ++ (b'-' ∷ rest)) (size_suc (find_first_of (a ++ (b'-' ∷ rest)) (codes "-"))) npos
      ≡ some rest
unfolding find_first_of
behind_hyphen a rest h fits =
    let at : find_first_of (a ++ (b'-' ∷ rest)) (codes "-") ≡ length a =
      first_of-skip (codes "-") 0 a (b'-' ∷ rest) h
      ∙ first_of-hit (codes "-") (0 + length a) b'-' rest hyphen
      ∙ omega arith in
    rw (at, size_suc-small (length a) (omega (arith, length-append a (b'-' ∷ rest))))
      (substr-rest (a ++ codes "-") rest (sym (append_assoc a (codes "-") rest))
        (omega (arith, length-append a (codes "-"))) (omega (arith, length-append a (b'-' ∷ rest))))
  where
    hyphen : has (codes "-") b'-' ≡ true
    hyphen = ground arith

no_digit : (c : ℕ) → b'0' ≤ c → c ≤ b'9' → has (codes ":") c ≡ false
unfolding has
no_digit c a b = ground arith

Clear-instance_id :
    (cfg : Setting) (n : ℕ)
    → Clear (codes ":") cfg.service_name
    → Clear (codes ":") (instance_id cfg n)
unfolding has
Clear-instance_id cfg n h =
    All-append (λ x. has (codes ":") x ≡ false) cfg.service_name (b'-' ∷ to_string_nat n) h
      (refl, to_string_nat-Clear (codes ":") n no_digit)

prefixes-Clear : Clear (codes ":") top_prefix × Clear (codes ":") presence_prefix
unfolding has
prefixes-Clear = (
  (refl, (refl, (refl, (refl, (refl, (refl, (refl, (refl, (refl, (refl, (refl, tt))))))))))),
  (refl, (refl, (refl, (refl, (refl, (refl, (refl, (refl, tt)))))))),
)

module _ (R : Redis) {A : Algorithm} (S : SplitLaws A) (cfg : Setting) where
  -- The handler on a presence key whose separator is the colon.
  on_presence :
      (n : ℕ) (rest : Text) (s : R.Store)
      → cfg.separator ≡ codes ":"
      → Clear (codes ":") cfg.service_name
      → substr (instance_id cfg n) (size_suc (find_first_of (instance_id cfg n) (codes "-"))) npos
        ≡ some rest
      → process_expired_key R A cfg.separator (presence_key cfg (instance_id cfg n)) s
        ≡ some (R.hdel (index_key cfg) rest s)
  unfolding process_expired_key delete_index_of delete_index
  on_presence n rest s e h cut =
      rw (occurs-presence_key cfg (instance_id cfg n))
        (rw (pieces, delete_index_of) (rw (cut, delete_index) refl))
    where
      pieces :
          A.split (presence_key cfg (instance_id cfg n)) (codes ":")
          ≡ top_prefix ∷ cfg.service_name ∷ instance_id cfg n ∷ presence_prefix ∷ []
      pieces = rw e (
          S.split-join b':' top_prefix (cfg.service_name ∷ instance_id cfg n ∷ presence_prefix ∷ [])
            (prefixes-Clear.0, (h, (Clear-instance_id cfg n h, (prefixes-Clear.1, tt)))))

  -- For a service with neither a colon nor a hyphen in its name, the colon as separator and an id
  -- that fits into a string, the handler of the expired presence key of the instance with the index
  -- `n` frees that index of the service and no other.
  pub hget-process_expired_key :
      HashLaws R
      → (n : ℕ) (s : R.Store) → cfg.separator ≡ codes ":"
      → Clear (codes ":") cfg.service_name
      → Clear (codes "-") cfg.service_name
      → length (instance_id cfg n) < npos
      → (s' : R.Store) × (process_expired_key R A cfg.separator
            (presence_key cfg (instance_id cfg n))
            s
          ≡ some s')
        × ((f : Text)
            → R.hget (index_key cfg) f s'
              ≡ (if text_eq f (to_string_nat n) then none else R.hget (index_key cfg) f s))
  hget-process_expired_key H n s e no_colon no_hyphen fits = (
    R.hdel (index_key cfg) (to_string_nat n) s,
    on_presence n (to_string_nat n) s e no_colon
        (behind_hyphen cfg.service_name (to_string_nat n) no_hyphen fits),
    λ f. H.hget-hdel (index_key cfg) (to_string_nat n) f s,
  )

  -- With a hyphen in the name of the service the index is not freed: under the same conditions else,
  -- what the hash of the service holds at the index `n` stays.
  pub process_expired_key-hyphen :
      HashLaws R
      → (a b : Text) (n : ℕ) (s : R.Store) → cfg.separator ≡ codes ":"
      → cfg.service_name ≡ a ++ (b'-' ∷ b)
      → Clear (codes ":") cfg.service_name
      → Clear (codes "-") a
      → length (instance_id cfg n) < npos
      → (s' : R.Store) × (process_expired_key R A cfg.separator
            (presence_key cfg (instance_id cfg n))
            s
          ≡ some s')
        × (R.hget (index_key cfg) (to_string_nat n) s' ≡ R.hget (index_key cfg) (to_string_nat n) s)
  process_expired_key-hyphen H a b n s e named no_colon no_hyphen fits = (
    R.hdel (index_key cfg) rest s,
    on_presence n rest s e no_colon (rw parts (behind_hyphen a rest no_hyphen (rw parts at fits))),
    H.hget-hdel (index_key cfg) rest (to_string_nat n) s ∙ rw other refl,
  )
    where
      rest : Text
      rest = b ++ (b'-' ∷ to_string_nat n)

      parts : instance_id cfg n ≡ a ++ (b'-' ∷ rest)
      parts = rw named (append_assoc a (b'-' ∷ b) (b'-' ∷ to_string_nat n))

      other : text_eq (to_string_nat n) rest ≡ false
      other = elim (Bool-cases (text_eq (to_string_nat n) rest)) [
        | inr q ↦ q
        | inl q ↦
            let same : length (to_string_nat n) ≡ length rest =
              ap length (text_eq_sound (to_string_nat n) rest q) in
            absurd (omega (arith, same, length-append b (b'-' ∷ to_string_nat n)))
      ]

  -- With another separator, when neither it nor the name of the service has a colon in it, the
  -- handler of an expired presence key reads behind the end of the vector.
  process_expired_key-separator :
      (n : ℕ) (s : R.Store)
      → Clear (codes ":") cfg.separator
      → Clear (codes ":") cfg.service_name
      → process_expired_key R A cfg.separator (presence_key cfg (instance_id cfg n)) s ≡ none
  unfolding process_expired_key delete_index_of join
  process_expired_key-separator n s hs h =
      rw (occurs-presence_key cfg (instance_id cfg n)) (rw (one_piece, delete_index_of) refl)
    where
      glue : (t u : Text) → Clear (codes ":") t → Clear (codes ":") u → Clear (codes ":") (t ++ u)
      glue t u ht hu = All-append (λ x. has (codes ":") x ≡ false) t u ht hu

      one_piece :
          A.split (presence_key cfg (instance_id cfg n)) (codes ":")
          ≡ presence_key cfg (instance_id cfg n) ∷ []
      one_piece = S.split-join b':' (presence_key cfg (instance_id cfg n)) [] (
        glue top_prefix _ prefixes-Clear.0 (
            glue cfg.separator _ hs (
              glue cfg.service_name _ h (
                glue cfg.separator _ hs (
                  glue (instance_id cfg n) _ (Clear-instance_id cfg n h)
                    (glue cfg.separator _ hs prefixes-Clear.1))))),
        tt,
      )
