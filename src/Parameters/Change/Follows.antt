-- ===== src/Parameters/Change/Follows.antt =====
-- The changes of parameters that the subscriber of plugins/ParameterConfigPlugin.cxx follows.
use nestdaq.Base.{
  ℕ, ◌<◌, ◌≡◌, ◌∙◌, ◌||◌, refl, true, false, List, [], ◌∷◌, ◌++◌, none, some, All, length,
}
use nestdaq.Text.{Text, codes, text_eq}
use nestdaq.Text.Search.{npos}
use nestdaq.Text.Split.{Algorithm}
use nestdaq.Redis.{Redis, HashLaws}
use nestdaq.Service.Instance.{Setting, instance_id}
use nestdaq.Service.Instance.Fresh.{instance_id-ne-nil}
use nestdaq.Parameters.Property.{Floating, Host, HostLaws, string}
use nestdaq.Parameters.Read.{Names, found, look_for, with_keys, read_all, read_parameters}
use nestdaq.Parameters.Read.Overrides.{over}
use nestdaq.Parameters.Read.Instance.{
  group_key_of, own_key_of, names_at, PlainHash, read_all-over, read_parameters-over,
}
use nestdaq.Parameters.Change.{
  Event, message, timeout, shutdown, ended, consume_all, server_uri, service_registry_uri, no_names,
  has_client, subscribe_to_parameter_change, construct,
}

with_keys-known : (cfg : Setting) (m : ℕ) → with_keys (names_at cfg m) ≡ some (names_at cfg m)
unfolding with_keys text_eq
with_keys-known cfg m = refl

module _ (R : Redis) {F : Floating} {H : Host F R.Score} (A : Algorithm) where
  -- The client is made from the registry's URI, and the subscriber ends at once.
  construct-unsubscribed :
      (s : R.Store) (es : List (Event R F H A)) (st st' : H.State) (n : Names) (uri : Text)
      → H.get server_uri st ≡ none
      → H.get service_registry_uri st ≡ some (string uri)
      → text_eq uri [] ≡ false
      → read_parameters R F H A no_names s st ≡ some (n, st')
      → H.get server_uri st' ≡ none
      → construct R F H A s es st ≡ ended n st'
  unfolding construct has_client subscribe_to_parameter_change look_for text_eq
  construct-unsubscribed s es st st' n uri e₁ e₂ ne p e₃ =
      rw (e₁, construct, has_client, look_for)
        (rw (e₂, has_client, look_for)
          (rw (ne, construct)
            (rw (p, construct) (rw (e₃, subscribe_to_parameter_change, look_for) refl))))

  -- Timeouts, and messages on other channels.
  abbrev pub Quiet : Text → Text → Event R F H A → Type 0
  Quiet own group (message channel s) = (text_eq channel own || text_eq channel group) ≡ false
  Quiet own group timeout = Unit
  Quiet own group _ = ⊥

  consume_all-Quiet :
      (own group : Text) (before after : List (Event R F H A)) (n : Names) (st : H.State)
      → All (Quiet own group) before
      → consume_all R F H A own group (before ++ after) n st
        ≡ consume_all R F H A own group after n st
  unfolding consume_all
  consume_all-Quiet own group [] after n st h = refl
  consume_all-Quiet own group (message channel s ∷ before) after n st (q, h) =
      rw q (consume_all-Quiet own group before after n st h)
  consume_all-Quiet own group (timeout ∷ before) after n st (_, h) =
      consume_all-Quiet own group before after n st h
  consume_all-Quiet own group (Event.failure ∷ before) after n st (q, h) = absurd q
  consume_all-Quiet own group (shutdown ∷ before) after n st (q, h) = absurd q

  look_for-known :
      (field name : Text) (st : H.State)
      → text_eq field [] ≡ false
      → look_for R F H A field name st ≡ found field
  unfolding look_for
  look_for-known field name st ne = rw (ne, look_for) refl

  module _ (L : HostLaws F R.Score H) (K : HashLaws R) (cfg : Setting) (m : ℕ) (s : R.Store) where
    read_again :
        (st st' : H.State)
        → text_eq cfg.separator [] ≡ false
        → read_all R F H A (names_at cfg m) s st ≡ some st'
        → read_parameters R F H A (names_at cfg m) s st ≡ some (names_at cfg m, st')
    unfolding read_parameters
    read_again st st' ne e =
        rw
          (
            look_for-known (instance_id cfg m) (codes "id") st (instance_id-ne-nil cfg m),
            read_parameters,
          )
          (rw (look_for-known cfg.separator (codes "separator") st ne, read_parameters)
            (rw (with_keys-known cfg m, read_parameters) (rw (e, read_parameters) refl)))

    -- Once the names of an instance with a number are known, timeouts and messages on other channels
    -- change nothing, and a message on the channel of its key or of its group, in a registry with
    -- only plain parameters in the two hashes and no additional keys, leaves each property as the
    -- parameter of the instance, else that of the service, else what it was.
    pub consume_all-over :
        (own group channel : Text) (before : List (Event R F H A)) (st : H.State)
        → All (Quiet own group) before
        → (text_eq channel own || text_eq channel group) ≡ true
        → text_eq cfg.separator [] ≡ false
        → R.scan (group_key_of cfg ++ (cfg.separator ++ codes "*")) s ≡ []
        → R.scan (own_key_of cfg m ++ (cfg.separator ++ codes "*")) s ≡ []
        → PlainHash R L A K cfg m s (group_key_of cfg) st
        → PlainHash R L A K cfg m s (own_key_of cfg m) st
        → (st' : H.State) × (consume_all R F H A own group
              (before ++ (message channel s ∷ shutdown ∷ []))
              (names_at cfg m)
              st
            ≡ ended (names_at cfg m) st')
          × ((k : Text)
              → H.get k st'
                ≡ over
                    (R.hget (own_key_of cfg m) k s)
                    (over (R.hget (group_key_of cfg) k s) (H.get k st)))
    unfolding consume_all
    consume_all-over own group channel before st q here ne sg so pg po =
        let (st', e, g) = read_all-over R L A K cfg m s st sg so pg po in
        (
          st',
          consume_all-Quiet own group before (message channel s ∷ shutdown ∷ []) _ st q
              ∙ rw here (rw (read_again st st' ne e, consume_all) refl),
          g,
        )

    -- An instance with a number, whose id and separator are properties and whose key fits into a
    -- string, with only plain parameters in its hash and in that of its group, no URI of a server
    -- for the parameters among them, and no additional keys. If the registry's URI is an option, not
    -- empty, and that of a server for the parameters is none, then whatever messages come, and
    -- whatever the registry holds then, each property ends as the parameter that the instance had
    -- when the plugin was made, else that of the service, else what it was.
    pub construct-registry_uri :
        (es : List (Event R F H A)) (st : H.State) (uri : Text)
        → H.get server_uri st ≡ none
        → H.get service_registry_uri st ≡ some (string uri)
        → text_eq uri [] ≡ false
        → H.get (codes "id") st ≡ some (string (instance_id cfg m))
        → H.get (codes "separator") st ≡ some (string cfg.separator)
        → text_eq cfg.separator [] ≡ false
        → length (own_key_of cfg m) < npos
        → R.scan (group_key_of cfg ++ (cfg.separator ++ codes "*")) s ≡ []
        → R.scan (own_key_of cfg m ++ (cfg.separator ++ codes "*")) s ≡ []
        → PlainHash R L A K cfg m s (group_key_of cfg) st
        → PlainHash R L A K cfg m s (own_key_of cfg m) st
        → R.hget (group_key_of cfg) server_uri s ≡ none
        → R.hget (own_key_of cfg m) server_uri s ≡ none
        → (st' : H.State) × (construct R F H A s es st ≡ ended (names_at cfg m) st')
          × ((k : Text)
              → H.get k st'
                ≡ over
                    (R.hget (own_key_of cfg m) k s)
                    (over (R.hget (group_key_of cfg) k s) (H.get k st)))
    construct-registry_uri es st uri ep er ne ei ec named fits sg so pg po ng no_own =
        let (st', e, g) = read_parameters-over R L A K cfg m s st ei ec named fits sg so pg po in
        (
          st',
          construct-unsubscribed s es st st' (names_at cfg m) uri ep er ne e
              (g server_uri ∙ rw (no_own, ng) ep),
          g,
        )
