-- ===== src/Tests/Server.antt =====
-- A Redis server that keeps the entries of all hashes in one list, the newest first.
use nestdaq.Base.{
  ℕ, suc, ◌≡◌, refl, sym, ap, ◌↔◌, ◌∙◌, ◌≢◌, true, false, ◌&&◌, List, [], ◌∷◌, ◌++◌, Option, none,
  some, arith, if◌then◌else◌, Bool-cases, inl, inr,
}
use nestdaq.Text.Number.{pos, stoi, to_string_nat}
use nestdaq.Text.{codes, Text, text_eq, text_eq_refl, text_eq_sound}
use nestdaq.Redis.{
  Redis, HashLaws, ListLaws, DelLaws, KeyLaws, StringLaws, ForeignLaws, FieldLaws, SetexLaws,
  Listed,
}

pub record Server : Type 0 where
  pub entries : List (Text × Text × Text)
  pub strings : List (Text × Text)
  pub lists : List (Text × Text)

unfoldable pub find : Text → Text → List (Text × Text × Text) → Option Text
find key f [] = none
find key f ((k, g, v) ∷ s) =
    let rest = find key f s in if text_eq key k && text_eq f g then some v else rest

unfoldable pub without : Text → List (Text × Text) → List (Text × Text)
without g [] = []
without g ((f, v) ∷ h) = let rest = without g h in if text_eq f g then rest else (f, v) ∷ rest

unfoldable pub entries_of : Text → List (Text × Text × Text) → List (Text × Text)
unfolding without
entries_of key [] = []
entries_of key ((k, g, v) ∷ s) =
    let rest = entries_of key s in if text_eq key k then (g, v) ∷ without g rest else rest

unfoldable pub remove : Text → Text → List (Text × Text × Text) → List (Text × Text × Text)
remove key f [] = []
remove key f ((k, g, v) ∷ s) =
    let rest = remove key f s in if text_eq k key && text_eq g f then rest else (k, g, v) ∷ rest

unfoldable pub without_key : Text → List (Text × Text × Text) → List (Text × Text × Text)
without_key key [] = []
without_key key ((k, g, v) ∷ s) =
    let rest = without_key key s in if text_eq key k then rest else (k, g, v) ∷ rest

unfoldable pub look_up : Text → List (Text × Text) → Option Text
look_up k [] = none
look_up k ((l, v) ∷ s) = let rest = look_up k s in if text_eq k l then some v else rest

unfoldable pub all_of : Text → List (Text × Text) → List Text
all_of k [] = []
all_of k ((l, v) ∷ s) = let rest = all_of k s in if text_eq k l then v ∷ rest else rest

unfoldable pub pushed : Text → List Text → List (Text × Text)
pushed k [] = []
pushed k (v ∷ vs) = (k, v) ∷ pushed k vs

unfoldable pub keys_of : List (Text × Text) → List Text
keys_of [] = []
keys_of ((k, v) ∷ s) = k ∷ keys_of s

-- Its strings are the presence keys of one service, so that every key is found.
abbrev pub server : Redis
server = record {
  Store = Server;
  get = λ k s. look_up k s.strings;
  hget = λ k f s. find k f s.entries;
  hgetall = λ k s. entries_of k s.entries;
  hset = λ k f v s. record s { entries = (k, f, v) ∷ s.entries };
  hdel = λ k f s. record s { entries = remove k f s.entries };
  set = λ k v s. record s { strings = (k, v) ∷ s.strings };
  incr = λ k s. elim (look_up k s.strings) [
    | none ↦ some (pos 1, record s { strings = (k, codes "1") ∷ s.strings })
    | some v ↦ elim (stoi v) [
      | some (pos n) ↦
          some (pos (suc n), record s { strings = (k, to_string_nat (suc n)) ∷ s.strings })
      | _ ↦ none
    ]
  ];
  setex = λ k ttl v s. record s { strings = (k, v) ∷ s.strings };
  expire = λ k ttl s. s;
  del = λ k s. record s { strings = without k s.strings; entries = without_key k s.entries };
  rpush = λ k vs s. record s { lists = s.lists ++ pushed k vs };
  lrange = λ k s. all_of k s.lists;
  type_of = λ k s. codes "string";
  smembers = λ k s. [];
  Score = ℕ;
  zrange = λ k s. [];
  scan = λ p s. keys_of s.strings;
}

Listed-without :
    (f v g : Text) (h : List (Text × Text))
    → Listed f v (without g h) ↔ ((text_eq f g ≡ false) × Listed f v h)
unfolding without
Listed-without f v g [] = (λ l. absurd l, λ l. absurd l.1)
Listed-without f v g ((k, w) ∷ h) = elim (Bool-cases (text_eq k g)) [
  | inl e ↦
      rw (e, without)
        (
          λ l. let (n, m) = (Listed-without f v g h).0 l in (n, inr m),
          λ p. elim p.1 [
            | inl (q, _) ↦ absurd (same q e p.0)
            | inr m ↦ (Listed-without f v g h).1 (p.0, m)
          ],
        )
  | inr n ↦
      rw (n, without)
        (
          λ l. elim l [
            | inl (q, r) ↦ (rw q n, inl (q, r))
            | inr m ↦ let (d, m') = (Listed-without f v g h).0 m in (d, inr m')
          ],
          λ p. elim p.1 [ inl q ↦ inl q | inr m ↦ inr ((Listed-without f v g h).1 (p.0, m)) ],
        )
]
  where
    same : f ≡ k → text_eq k g ≡ true → text_eq f g ≡ false → ⊥
    same q e n = cc

find-entries_of :
    (key f v : Text) (s : List (Text × Text × Text))
    → Listed f v (entries_of key s) ↔ (find key f s ≡ some v)
unfolding entries_of find
find-entries_of key f v [] = (λ l. absurd l, λ e. cc)
find-entries_of key f v ((k, g, w) ∷ s) = elim (Bool-cases (text_eq key k)) [
  | inr n ↦ rw (n, entries_of) (find-entries_of key f v s)
  | inl e ↦ elim (Bool-cases (text_eq f g)) [
    | inl q ↦
        rw (e, q)
          (
            λ l. elim l [
              | inl (_, r) ↦ ap some (sym r)
              | inr m ↦ absurd (differ q ((Listed-without f v g (entries_of key s)).0 m).0)
            ],
            λ p. inl (text_eq_sound f g q, cc),
          )
    | inr q ↦
        rw (e, q)
          (
            λ l. elim l [
              | inl (r, _) ↦ absurd (differ (rw r (text_eq_refl g)) q)
              | inr m ↦
                  (find-entries_of key f v s).0 ((Listed-without f v g (entries_of key s)).0 m).1
            ],
            λ p.
                inr (
                  (Listed-without f v g (entries_of key s)).1 (q, (find-entries_of key f v s).1 p)),
          )
  ]
]
  where
    differ : text_eq f g ≡ true → text_eq f g ≡ false → ⊥
    differ a b = cc

find-remove :
    (key g f : Text) (s : List (Text × Text × Text))
    → find key f (remove key g s) ≡ (if text_eq f g then none else find key f s)
unfolding find remove
find-remove key g f [] = ground arith
find-remove key g f ((k, h, v) ∷ s) = ground (
  arith,
  find-remove key g f s,
  text_eq_sound f g,
  text_eq_sound key k,
  text_eq_sound h g,
  text_eq_sound k key,
  text_eq_sound f h,
  text_eq_refl key,
  text_eq_refl f,
)

find-cons :
    (key field value f : Text) (s : List (Text × Text × Text))
    → find key f ((key, field, value) ∷ s) ≡ (if text_eq f field then some value else find key f s)
unfolding find
find-cons key field value f s = rw (text_eq_refl key) refl

pub server-HashLaws : HashLaws server
server-HashLaws = record {
  hgetall_lem = λ key f v s. find-entries_of key f v s.entries;
  hget-hset = λ key field value f s. find-cons key field value f s.entries;
  hget-hdel = λ key field f s. find-remove key field f s.entries;
  hget-setex = λ key k ttl value f s ne. refl;
}

all_of-pushed :
    (key : Text) (vs : List Text) (ls : List (Text × Text))
    → all_of key (ls ++ pushed key vs) ≡ all_of key ls ++ vs
unfolding all_of pushed
all_of-pushed key [] [] = refl
all_of-pushed key (v ∷ vs) [] = rw (text_eq_refl key) (ap (λ l. v ∷ l) (all_of-pushed key vs []))
all_of-pushed key vs ((k, w) ∷ ls) = elim (Bool-cases (text_eq key k)) [
  | inl e ↦ rw (e, all_of) (ap (λ l. w ∷ l) (all_of-pushed key vs ls))
  | inr n ↦ rw (n, all_of) (all_of-pushed key vs ls)
]

pub server-ListLaws : ListLaws server
server-ListLaws = record {
  hget-expire = λ key k ttl f s lt. refl;
  hget-rpush = λ key k values f s ne. refl;
  lrange-rpush = λ key values s. all_of-pushed key values s.lists;
  lrange-expire = λ key k ttl s lt. refl;
  lrange-hset = λ key k field value s ne. refl;
}

look_up-without : (k : Text) (s : List (Text × Text)) → look_up k (without k s) ≡ none
unfolding look_up without
look_up-without k [] = refl
look_up-without k ((l, v) ∷ s) = elim (Bool-cases (text_eq l k)) [
  | inl e ↦ rw (e, without) (look_up-without k s)
  | inr n ↦ rw (n, without) (rw (other n, look_up) (look_up-without k s))
]
  where
    clash : text_eq l k ≡ false → text_eq l k ≡ true → ⊥
    clash a b = cc

    other : text_eq l k ≡ false → text_eq k l ≡ false
    other n = elim (Bool-cases (text_eq k l)) [
      | inr m ↦ m
      | inl m ↦ absurd (clash n (rw (text_eq_sound k l m) (text_eq_refl l)))
    ]

find-without_key :
    (key f : Text) (s : List (Text × Text × Text)) → find key f (without_key key s) ≡ none
unfolding find without_key
find-without_key key f [] = refl
find-without_key key f ((k, g, v) ∷ s) = elim (Bool-cases (text_eq key k)) [
  | inl e ↦ rw (e, without_key) (find-without_key key f s)
  | inr n ↦ rw (n, without_key) (rw (n, find) (find-without_key key f s))
]

find-without_key_other :
    (key k f : Text) (s : List (Text × Text × Text))
    → key ≢ k
    → find key f (without_key k s) ≡ find key f s
unfolding find without_key
find-without_key_other key k f [] ne = refl
find-without_key_other key k f ((l, g, v) ∷ s) ne = elim (Bool-cases (text_eq k l)) [
  | inr n ↦
      rw (n, without_key)
        (ap (λ rest. if text_eq key l && text_eq f g then some v else rest)
          (find-without_key_other key k f s ne))
  | inl e ↦
      rw (e, without_key)
        (find-without_key_other key k f s ne ∙ rw (other (text_eq_sound k l e), find) refl)
]
  where
    other : k ≡ l → text_eq key l ≡ false
    other q = elim (Bool-cases (text_eq key l)) [
      | inr n ↦ n
      | inl y ↦ absurd (ne (text_eq_sound key l y ∙ sym q))
    ]

unequal : (key k : Text) → key ≢ k → text_eq key k ≡ false
unequal key k ne = elim (Bool-cases (text_eq key k)) [
  | inr n ↦ n
  | inl y ↦ absurd (ne (text_eq_sound key k y))
]

pub server-KeyLaws : KeyLaws server
unfolding find
server-KeyLaws = record {
  hget-hset_other = λ key k field value f s ne. rw (unequal key k ne, find) refl;
  hget-del_self = λ key f s. find-without_key key f s.entries;
}

pub server-ForeignLaws : ForeignLaws server
unfolding find look_up
server-ForeignLaws = record {
  get-setex = λ key k ttl value s ne. rw (unequal key k ne, look_up) refl;
  hget-setex = λ key k ttl value f s ne. refl;
  get-hset = λ key k field value s ne. refl;
  hget-hset = λ key k field value f s ne. rw (unequal key k ne, find) refl;
  get-expire = λ key k ttl s lt. refl;
  hget-expire = λ key k ttl f s lt. refl;
}

pub server-SetexLaws : SetexLaws server
unfolding look_up
server-SetexLaws = record { get-setex_self = λ key ttl value s lt. rw (text_eq_refl key) refl }

pub server-DelLaws : DelLaws server
server-DelLaws = record {
  get-del = λ k s. look_up-without k s.strings;
  hget-del = λ key k f s ne. find-without_key_other key k f s.entries ne;
  get-hdel = λ k key field s ne. refl;
}

pub server-StringLaws : StringLaws server
unfolding look_up
server-StringLaws = record { get-set = λ k key value s. refl }

find-remove_other :
    (key k g f : Text) (s : List (Text × Text × Text))
    → key ≢ k
    → find key f (remove k g s) ≡ find key f s
unfolding find remove
find-remove_other key k g f [] ne = refl
find-remove_other key k g f ((l, h, v) ∷ s) ne = elim (Bool-cases (text_eq l k)) [
  | inr n ↦ ground (arith, find-remove_other key k g f s ne, n)
  | inl e ↦ ground (
    arith,
    find-remove_other key k g f s ne,
    e,
    unequal key k ne,
    ap (text_eq key) (text_eq_sound l k e),
  )
]

pub server-FieldLaws : FieldLaws server
server-FieldLaws = record {
  hget-hdel_other = λ key k field f s ne. find-remove_other key k field f s.entries ne;
}
