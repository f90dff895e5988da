-- ===== src/Tests/Messages.antt =====
-- Messages of the web controller that can be read back: a code is shifted by 3, which leaves 0 for the
-- end of the value, 1 for the end of the services and 2 for the end of a name.
use nestdaq.Base.{
  ℕ, zero, suc, ◌≡◌, refl, ap, List, [], ◌∷◌, ◌++◌, some, append_assoc, if◌then◌else◌,
}
use nestdaq.Text.{Text, codes, text_eq}
use nestdaq.Device.Message.{Json}
use nestdaq.Device.Message.Effects.{Names}
use nestdaq.Controller.Publish.{Order}

abbrev shift : Text → Text
shift [] = []
shift (c ∷ t) = suc (suc (suc c)) ∷ shift t

abbrev items : List Text → Text
items [] = []
items (t ∷ ts) = shift t ++ (2 ∷ items ts)

abbrev pub written : Order → Text
written o = shift o.value ++ (0 ∷ (items o.services ++ (1 ∷ items o.instances)))

abbrev push : ℕ → List Text → List Text
push c [] = []
push c (t ∷ ts) = (c ∷ t) ∷ ts

abbrev pieces : Text → List Text
pieces [] = []
pieces (suc (suc (suc c)) ∷ s) = push c (pieces s)
pieces (_ ∷ s) = [] ∷ pieces s

-- What stands before the first 0, what stands behind it, and the same for the first 1.
abbrev value_of : Text → Text
value_of (suc (suc (suc c)) ∷ s) = c ∷ value_of s
value_of _ = []

abbrev behind : Text → Text
behind (zero ∷ s) = s
behind (_ ∷ s) = behind s
behind [] = []

abbrev before_one : Text → Text
before_one [] = []
before_one (suc zero ∷ s) = []
before_one (c ∷ s) = c ∷ before_one s

abbrev behind_one : Text → Text
behind_one [] = []
behind_one (suc zero ∷ s) = s
behind_one (_ ∷ s) = behind_one s

abbrev pub readable : Json
readable = record {
  Tree = Text;
  read = λ msg. some msg;
  text = λ key obj.
      if text_eq key (codes "command") then some (codes "change_state") else some (value_of obj);
  texts = λ key obj.
      if text_eq key (codes "services")
      then some (pieces (before_one (behind obj)))
      else some (pieces (behind_one (behind obj)));
}

value_of-shift : (t r : Text) → value_of (shift t ++ (0 ∷ r)) ≡ t
value_of-shift [] r = refl
value_of-shift (c ∷ t) r = ap (λ x. c ∷ x) (value_of-shift t r)

behind-shift : (t r : Text) → behind (shift t ++ (0 ∷ r)) ≡ r
behind-shift [] r = refl
behind-shift (c ∷ t) r = behind-shift t r

pieces-shift : (t r : Text) → pieces (shift t ++ (2 ∷ r)) ≡ t ∷ pieces r
pieces-shift [] r = refl
pieces-shift (c ∷ t) r = ap (push c) (pieces-shift t r)

pieces-items : (ts : List Text) → pieces (items ts) ≡ ts
pieces-items [] = refl
pieces-items (t ∷ ts) = rw (pieces-shift t (items ts)) (ap (λ x. t ∷ x) (pieces-items ts))

before_one-shift : (t r : Text) → before_one (shift t ++ (2 ∷ r)) ≡ shift t ++ (2 ∷ before_one r)
before_one-shift [] r = refl
before_one-shift (c ∷ t) r = ap (λ x. suc (suc (suc c)) ∷ x) (before_one-shift t r)

behind_one-shift : (t r : Text) → behind_one (shift t ++ (2 ∷ r)) ≡ behind_one r
behind_one-shift [] r = refl
behind_one-shift (c ∷ t) r = behind_one-shift t r

before_one-items : (ts : List Text) (r : Text) → before_one (items ts ++ (1 ∷ r)) ≡ items ts
before_one-items [] r = refl
before_one-items (t ∷ ts) r =
    rw (append_assoc (shift t) (2 ∷ items ts) (1 ∷ r), before_one-shift t (items ts ++ (1 ∷ r)))
      (ap (λ x. shift t ++ (2 ∷ x)) (before_one-items ts r))

behind_one-items : (ts : List Text) (r : Text) → behind_one (items ts ++ (1 ∷ r)) ≡ r
behind_one-items [] r = refl
behind_one-items (t ∷ ts) r =
    rw (append_assoc (shift t) (2 ∷ items ts) (1 ∷ r), behind_one-shift t (items ts ++ (1 ∷ r)))
      (behind_one-items ts r)

pub written-Names : (o : Order) → Names readable (written o) o.value o.services o.instances
unfolding text_eq
written-Names o = record {
  obj = written o;
  read_lem = refl;
  command_lem = refl;
  value_lem = ap some (value_of-shift o.value (items o.services ++ (1 ∷ items o.instances)));
  services_lem =
      rw
        (
          behind-shift o.value (items o.services ++ (1 ∷ items o.instances)),
          before_one-items o.services (items o.instances),
          pieces-items o.services,
        )
        refl;
  instances_lem =
      rw
        (
          behind-shift o.value (items o.services ++ (1 ∷ items o.instances)),
          behind_one-items o.services (items o.instances),
          pieces-items o.instances,
        )
        refl;
}
