-- ===== src/Controller/Publish/Orders.antt =====
-- The orders that RedisPublishDaqCommand (controller/WebGui.cxx) publishes for each command.
use nestdaq.Base.{
  ◌≡◌, ◌⊎◌, ◌∙◌, refl, sym, Bool, true, false, ◌||◌, List, [], ◌∷◌, ◌++◌, map, Option, none, some,
  append_assoc, append_nil, if◌then◌else◌, inl, inr,
}
use nestdaq.Text.{Text, text_eq, to_lower}
use nestdaq.Redis.{Redis}
use nestdaq.Device.Constants.{DeviceState, Command, word}
use nestdaq.Controller.Publish.{
  Script, Action, publish, wait_device_ready, wait_ready, system, Flags, Order, World, Did, done,
  waiting, waited, actions, perform, perform_all,
}

-- Up to which state a command needs the others before it, by the flags.
abbrev pub chain : Flags → Command → List Command
chain f Command.init_task =
    if f.device_ready then Command.connect ∷ Command.init_task ∷ [] else Command.init_task ∷ []
chain f Command.run =
    if f.device_ready
    then (if f.ready
        then Command.connect ∷ Command.init_task ∷ Command.run ∷ []
        else Command.connect ∷ Command.run ∷ [])
    else (if f.ready then Command.init_task ∷ Command.run ∷ [] else Command.run ∷ [])
chain f k = k ∷ []

values_of : List Action → List Text
values_of [] = []
values_of (publish v ∷ rest) = v ∷ values_of rest
values_of (_ ∷ rest) = values_of rest

waits : List Action → Bool
waits [] = false
waits (wait_device_ready ∷ rest) = true
waits (wait_ready ∷ rest) = true
waits (_ ∷ rest) = waits rest

module _ (b r : Bool) where
  abbrev flags : Flags
  flags = record { device_ready = b; ready = r }

values_of-actions-flags :
    (b r : Bool) (k : Command)
    → values_of (actions (flags b r) (word k)) ≡ map word (chain (flags b r) k)
unfolding values_of actions text_eq to_lower
values_of-actions-flags true true Command.run = refl
values_of-actions-flags true false Command.run = refl
values_of-actions-flags false true Command.run = refl
values_of-actions-flags false false Command.run = refl
values_of-actions-flags true _ Command.init_task = refl
values_of-actions-flags _ _ _ = refl

waits-actions-flags :
    (b r : Bool) (k : Command) → waits (actions (flags b r) (word k)) ≡ true → b || r ≡ true
unfolding waits actions text_eq to_lower
waits-actions-flags true _ k h = refl
waits-actions-flags false true k h = refl
waits-actions-flags false false Command.run h = absurd (clash h)
  where
    clash : false ≡ true → ⊥
    clash h = cc
waits-actions-flags false false _ h = absurd (clash h)
  where
    clash : false ≡ true → ⊥
    clash h = cc

abbrev pub order : List Text → List Text → Text → Order
order services instances v = record { value = v; services = services; instances = instances }

module _ (R : Redis) (get_state_name : DeviceState → Text) (starts : Script → Bool)
    (separator : Text) (services instances : List Text) where
  abbrev perform_here : Action → World R → Did R
  perform_here = perform R get_state_name starts separator services instances

  abbrev perform_all_here : List Action → World R → Did R
  perform_all_here = perform_all R get_state_name starts separator services instances

  -- An action is done, with its orders published, or is a wait that goes on.
  abbrev Goes : List Action → World R → Did R → Type 0
  Goes as' w r =
      ((r ≡ waiting) × (waits as' ≡ true))
      ⊎ ((w' : World R) × (r ≡ done w')
          × (w'.published ≡ w.published ++ map (order services instances) (values_of as')))

  waited_cases :
      (w : World R) (o : Option (List R.Store))
      → (waited R get_state_name starts separator w o ≡ waiting)
        ⊎ ((w' : World R) × (waited R get_state_name starts separator w o ≡ done w')
            × (w'.published ≡ w.published))
  unfolding waited
  waited_cases w none = inl refl
  waited_cases w (some rest) = inr (record w { rounds = rest }, refl, refl)

  after_wait :
      (a : Action) (as' : List Action) (w : World R)
      → waits (a ∷ as') ≡ true
      → values_of (a ∷ as') ≡ values_of as'
      → ((w' : World R) → Goes as' w' (perform_all_here as' w'))
      → (perform_here a w ≡ waiting)
        ⊎ ((w' : World R) × (perform_here a w ≡ done w') × (w'.published ≡ w.published))
      → Goes (a ∷ as') w (perform_all_here (a ∷ as') w)
  unfolding perform_all
  after_wait a as' w y v rest (inl e) = inl (rw (e, perform_all) refl, y)
  after_wait a as' w y v rest (inr (w', e, p)) = elim (rest w') [
    | inl (q, _) ↦ inl (rw (e, perform_all) q, y)
    | inr (w₂, q, p₂) ↦ inr (w₂, rw (e, perform_all) q, p₂ ∙ rw (p, v) refl)
  ]

  -- When every script starts, the row is done, or one of its waits goes on.
  perform_all-Goes :
      ((x : Script) → starts x ≡ true)
      → (as' : List Action) (w : World R) → Goes as' w (perform_all_here as' w)
  unfolding perform_all perform waits values_of
  perform_all-Goes s [] w = inr (w, refl, sym (append_nil w.published))
  perform_all-Goes s (publish v ∷ as') w =
      elim (perform_all-Goes s as'
        (record w { published = w.published ++ (order services instances v ∷ []) })) [
          | inl h ↦ inl h
          | inr (w', e, p) ↦ inr (
            w',
            e,
            p
                ∙ append_assoc w.published (order services instances v ∷ [])
                    (map (order services instances) (values_of as')),
          )
        ]
  perform_all-Goes s (wait_device_ready ∷ as') w =
      after_wait wait_device_ready as' w refl refl (perform_all-Goes s as') (waited_cases w _)
  perform_all-Goes s (wait_ready ∷ as') w =
      after_wait wait_ready as' w refl refl (perform_all-Goes s as') (waited_cases w _)
  perform_all-Goes s (system x ∷ as') w = rw (s x, perform_all) (perform_all-Goes s as' w)

  -- For a command word.
  pub perform_all-actions :
      ((x : Script) → starts x ≡ true)
      → (f : Flags) (k : Command) (w : World R)
      → ((perform_all_here (actions f (word k)) w ≡ waiting) × (f.device_ready || f.ready ≡ true))
        ⊎ ((w' : World R) × (perform_all_here (actions f (word k)) w ≡ done w')
            × (w'.published ≡ w.published ++ map (order services instances) (map word (chain f k))))
  perform_all-actions s f k w = elim (perform_all-Goes s (actions f (word k)) w) [
    | inl (e, y) ↦ inl (e, waits-actions-flags f.device_ready f.ready k y)
    | inr (w', e, p) ↦ inr (w', e, p ∙ rw (values_of-actions-flags f.device_ready f.ready k) refl)
  ]
