-- ===== src/Parameters/Reserved/Maps.antt =====
-- ToMap of plugins/ParameterConfigPlugin.cxx on a line of pairs.
use nestdaq.Base.{
  ℕ, ◌≡◌, ◌≢◌, ◌∙◌, ◌||◌, refl, sym, ap, subst, true, false, List, [], ◌∷◌, ◌++◌, map, none, some,
  arith, All, All-append, append_assoc, append_nil, Bool-cases, inl, inr,
}
use nestdaq.Text.{Text, codes, text_eq, text_eq_refl, text_eq_sound, contains, join}
use nestdaq.Text.Search.{has}
use nestdaq.Text.Search.Skip.{Clear}
use nestdaq.Text.Split.{Algorithm, CompressLaws, Piece, spaces}
use nestdaq.Text.Table.{find, keys}
use nestdaq.Text.Names.{Distinct}
use nestdaq.Topology.Address.{occurs}
use nestdaq.Topology.Address.Occurs.{occurs-append, occurs-front}
use nestdaq.Parameters.Property.{Floating, Host, pairs}
use nestdaq.Parameters.Reserved.{is_reserved_option, emplace, emplace_pair, pairs_of, to_map, parse}

-- The pair as it is written.
abbrev pub written : Text × Text → Text
written (k, v) = join (k ∷ v ∷ []) (codes "=")

-- What separates pairs, keys and values.
abbrev pub marks : Text
marks = b',' ∷ b'=' ∷ spaces

-- Keys and values are not empty and have no separator in them.
abbrev pub Word : Text → Type 0
Word t = Piece marks t

abbrev pub Words : Text × Text → Type 0
Words (k, v) = Word k × Word v

-- Fewer characters are missed too.
Clear-fewer :
    (chars more t : Text)
    → ((c : ℕ) → has more c ≡ false → has chars c ≡ false)
    → Clear more t
    → Clear chars t
Clear-fewer chars more [] f h = tt
Clear-fewer chars more (c ∷ t) f (e, h) = (f c e, Clear-fewer chars more t f h)

no_comma : (c : ℕ) → has marks c ≡ false → has (codes ",") c ≡ false
unfolding has
no_comma c h = ground (arith, h)

no_space : (c : ℕ) → has marks c ≡ false → has spaces c ≡ false
unfolding has
no_space c h = ground (arith, h)

no_mark : (c : ℕ) → has marks c ≡ false → has (codes "= ") c ≡ false
unfolding has
no_mark c h = ground (arith, h)

Clear-written :
    (chars : Text) (p : Text × Text)
    → ((c : ℕ) → has marks c ≡ false → has chars c ≡ false)
    → has chars b'=' ≡ false
    → Words p
    → Clear chars (written p)
unfolding join
Clear-written chars (k, v) f e (hk, hv) =
    All-append (λ c. has chars c ≡ false) k (b'=' ∷ v) (Clear-fewer chars marks k f hk.1)
      (e, Clear-fewer chars marks v f hv.1)

Clear-join :
    (chars : Text) (ps : List (Text × Text))
    → has chars b',' ≡ false
    → All (λ p. Clear chars (written p)) ps
    → Clear chars (join (map written ps) (codes ","))
unfolding join
Clear-join chars [] e h = tt
Clear-join chars (p ∷ []) e (h, _) = h
Clear-join chars (p ∷ q ∷ ps) e (h, hs) =
    All-append (λ c. has chars c ≡ false) (written p)
      (b',' ∷ join (map written (q ∷ ps)) (codes ",")) h (e, Clear-join chars (q ∷ ps) e hs)

ne-nil : (t u : Text) → t ≢ [] → t ++ u ≢ []
ne-nil [] u n e = n refl
ne-nil (c ∷ t) u n e = cc

All-map :
    (P : Text × Text → Type 0) (Q : Text × Text → Type 0) (ps : List (Text × Text))
    → ((p : Text × Text) → P p → Q p)
    → All P ps
    → All Q ps
All-map P Q [] f h = tt
All-map P Q (p ∷ ps) f (x, h) = (f p x, All-map P Q ps f h)

All-written :
    (Q : Text → Type 0) (ps : List (Text × Text))
    → All (λ p. Q (written p)) ps
    → All Q (map written ps)
All-written Q [] h = tt
All-written Q (p ∷ ps) (x, h) = (x, All-written Q ps h)

find-missing : (k : Text) (m : List (Text × Text)) → contains (keys m) k ≡ false → find k m ≡ none
unfolding find keys contains
find-missing k [] h = refl
find-missing k ((l, v) ∷ m) h = ground (arith, h, find-missing k m)

contains-keys :
    (j k v : Text) (m : List (Text × Text))
    → contains (keys (m ++ ((k, v) ∷ []))) j ≡ (contains (keys m) j || text_eq j k)
unfolding keys contains
contains-keys j k v [] = ground arith
contains-keys j k v ((l, w) ∷ m) = ground (arith, contains-keys j k v m)

equals : has marks b'=' ≡ true
unfolding has
equals = refl

nothing : (j : Text) → contains (keys {A = Text} []) j ≡ false
unfolding contains keys
nothing j = refl

module _ {F : Floating} {Score : Type 0} (H : Host F Score) {A : Algorithm}
    (C : CompressLaws A) where
  abbrev pieces : Text → List Text
  pieces x = A.split_compress (A.trim x) (codes "= ")

  pieces-written : (p : Text × Text) → Words p → pieces (written p) ≡ p.0 ∷ p.1 ∷ []
  unfolding has
  pieces-written (k, v) (hk, hv) =
      ap (λ t. A.split_compress t (codes "= "))
        (C.trim-Clear (written (k, v)) (Clear-written spaces (k, v) no_space refl (hk, hv)))
      ∙ (C.split_compress-join (codes "= ") b'=' k (v ∷ []) refl (
        (hk.0, Clear-fewer (codes "= ") marks k no_mark hk.1),
        ((hv.0, Clear-fewer (codes "= ") marks v no_mark hv.1), tt),
      ))

  pairs_of-written :
      (ps m : List (Text × Text))
      → All Words ps
      → Distinct (keys ps)
      → ((j : Text) → contains (keys ps) j ≡ true → contains (keys m) j ≡ false)
      → pairs_of F Score H A (map written ps) m ≡ m ++ ps
  unfolding pairs_of emplace_pair emplace keys contains
  pairs_of-written [] m h d f = sym (append_nil m)
  pairs_of-written ((k, v) ∷ ps) m (w, h) (n, d) f =
      rw (pieces-written (k, v) w, pairs_of)
        (rw (find-missing k m (f k (rw (text_eq_refl k) refl)), emplace_pair, emplace)
          (pairs_of-written ps (m ++ ((k, v) ∷ [])) h d later ∙ append_assoc m ((k, v) ∷ []) ps))
    where
      clash : (j : Text) → j ≡ k → contains (keys ps) j ≡ true → ⊥
      clash j e y = cc

      later :
          (j : Text) → contains (keys ps) j ≡ true → contains (keys (m ++ ((k, v) ∷ []))) j ≡ false
      later j y = elim (Bool-cases (text_eq j k)) [
        | inl e ↦ absurd (clash j (text_eq_sound j k e) y)
        | inr x ↦ contains-keys j k v m ∙ rw (x, f j (rw x y)) refl
      ]

  -- For a name that is no reserved option and two or more pairs, of keys and values that are not
  -- empty and have no comma, equals sign or space in them, with no key twice: the line with the pairs
  -- `key=value`, joined by commas, sets the property to these pairs.
  pub parse-written :
      (name : Text) (p q : Text × Text) (ps : List (Text × Text)) (st : H.State)
      → is_reserved_option name ≡ false
      → All Words (p ∷ q ∷ ps)
      → Distinct (keys (p ∷ q ∷ ps))
      → parse F Score H A name (join (map written (p ∷ q ∷ ps)) (codes ",")) st
        ≡ some (H.set name (pairs (p ∷ q ∷ ps)) st)
  unfolding parse to_map join has
  parse-written name p q ps st r h d =
      rw (r, comma, equal) (ap (λ m. some (H.set name (pairs m) st)) read)
    where
      line : Text
      line = join (map written (p ∷ q ∷ ps)) (codes ",")

      comma : occurs (codes ",") line ≡ true
      comma =
          occurs-append (codes ",") (written p) (b',' ∷ join (map written (q ∷ ps)) (codes ","))
            (occurs-front b',' (join (map written (q ∷ ps)) (codes ",")))

      equal : occurs (codes "=") line ≡ true
      equal =
          subst (λ t. occurs (codes "=") t ≡ true)
            (sym (append_assoc p.0 (b'=' ∷ p.1) (b',' ∷ join (map written (q ∷ ps)) (codes ","))))
            (occurs-append (codes "=") p.0
              (b'=' ∷ (p.1 ++ (b',' ∷ join (map written (q ∷ ps)) (codes ","))))
              (occurs-front b'=' (p.1 ++ (b',' ∷ join (map written (q ∷ ps)) (codes ",")))))

      clear : Clear spaces line
      clear = Clear-join spaces (p ∷ q ∷ ps) refl (
          All-map Words (λ x. Clear spaces (written x)) (p ∷ q ∷ ps)
            (λ x w. Clear-written spaces x no_space refl w) h)

      whole : A.split_compress (A.trim line) (codes ",") ≡ map written (p ∷ q ∷ ps)
      whole = rw (C.trim-Clear line clear) (
          C.split_compress-join (codes ",") b',' (written p) (map written (q ∷ ps)) refl (
            All-written (Piece (codes ",")) (p ∷ q ∷ ps) (
              All-map Words (λ x. Piece (codes ",") (written x)) (p ∷ q ∷ ps)
                (λ x w.
                  (ne-nil x.0 (b'=' ∷ x.1) w.0.0, Clear-written (codes ",") x no_comma refl w))
                h)))

      read : pairs_of F Score H A (A.split_compress (A.trim line) (codes ",")) [] ≡ p ∷ q ∷ ps
      read = rw whole (pairs_of-written (p ∷ q ∷ ps) [] h d (λ j y. nothing j))
