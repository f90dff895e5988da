-- ===== src/Parameters/Read.antt =====
-- ReadParameters of plugins/ParameterConfigPlugin.cxx and the readers it calls. A hash and a set are
-- walked in the order in which the registry lists them.
pub mod Overrides
pub mod Instance
use nestdaq.Base.{Bool, true, false, List, [], ◌∷◌, ◌++◌, Option, none, some, if◌then◌else◌}
use nestdaq.Text.{Text, codes, text_eq}
use nestdaq.Text.Number.{is_digit}
use nestdaq.Text.Search.{npos, size_suc, find_last_of, substr}
use nestdaq.Text.Split.{Algorithm}
use nestdaq.Redis.{Redis}
use nestdaq.Parameters.Property.{
  Floating, Host, string, int, size, bool, float, strings, pairs, members, scores,
}
use nestdaq.Parameters.Reserved.{parse}

-- ParametersPrefix
abbrev pub parameters_prefix : Text
parameters_prefix = codes "parameters"

unfoldable pub all_digits : Text → Bool
unfolding is_digit
all_digits [] = true
all_digits (c ∷ t) = let rest = all_digits t in if is_digit c then rest else false

-- fId, fSeparator, fKey and fGroupKey
pub record Names : Type 0 where
  pub id : Text
  pub separator : Text
  pub key : Text
  pub group_key : Text

-- The group of an instance with a number, `none` is std::out_of_range.
unfoldable pub group_of : Text → Option Text
unfolding all_digits
group_of key =
    let last_hyphen = find_last_of key (codes "-") npos in
    elim (substr key (size_suc last_hyphen) npos) [
      | none ↦ none
      | some idx ↦ if all_digits idx then substr key 0 last_hyphen else some []
    ]

-- fKey and fGroupKey, if they are not set yet
unfoldable pub with_keys : Names → Option Names
unfolding group_of
with_keys n =
    let key = if text_eq n.key [] then parameters_prefix ++ (n.separator ++ n.id) else n.key in
    if text_eq n.group_key []
    then elim (group_of key) [
      | none ↦ none
      | some group_key ↦ some (record n { key = key; group_key = group_key })
    ]
    else some (record n { key = key })

-- What stands behind the last separator.
unfoldable pub last_part : Text → Text → Option Text
last_part separator name = substr name (size_suc (find_last_of name separator npos)) npos

module _ (R : Redis) (F : Floating) (H : Host F R.Score) (A : Algorithm) where
  module _ (n : Names) where
    abbrev pub with_prefix : Text → Text → Text
    with_prefix prefix field = if text_eq prefix [] then field else prefix ++ (n.separator ++ field)

    unfoldable pub parse_all : Text → List (Text × Text) → H.State → Option H.State
    parse_all prefix [] st = some st
    parse_all prefix ((field, value) ∷ h) st =
        elim (parse F R.Score H A (with_prefix prefix field) value st) [
          | none ↦ none
          | some st' ↦ parse_all prefix h st'
        ]

    unfoldable pub prefix_of : Text → Option Text
    unfolding last_part
    prefix_of name =
        if text_eq n.key name
        then some []
        else if text_eq n.group_key name
        then some []
        else last_part n.separator name

    unfoldable pub read_hash : Text → R.Store → H.State → Option H.State
    unfolding parse_all prefix_of
    read_hash name s st = elim (prefix_of name) [
      | none ↦ none
      | some prefix ↦ parse_all prefix (R.hgetall name s) st
    ]

    read_list : Text → R.Store → H.State → H.State
    read_list name s st = elim (R.lrange name s) [
      | [] ↦ st
      | x ∷ xs ↦ H.set name (strings (x ∷ xs)) st
    ]

    read_set : Text → R.Store → H.State → H.State
    read_set name s st = elim (R.smembers name s) [
      | [] ↦ st
      | x ∷ xs ↦ H.set name (members (x ∷ xs)) st
    ]

    read_zset : Text → R.Store → H.State → H.State
    read_zset name s st = elim (R.zrange name s) [
      | [] ↦ st
      | x ∷ xs ↦ H.set name (scores (x ∷ xs)) st
    ]

    read_string : Text → R.Store → H.State → Option H.State
    unfolding last_part
    read_string name s st = elim (R.get name s) [
      | none ↦ some st
      | some value ↦ elim (last_part n.separator name) [
        | none ↦ none
        | some field ↦ parse F R.Score H A field value st
      ]
    ]

    -- one of the additional keys
    read_key : Text → R.Store → H.State → Option H.State
    unfolding read_hash read_list read_set read_zset read_string
    read_key x s st =
        let t = R.type_of x s in
        if text_eq t (codes "string")
        then read_string x s st
        else if text_eq t (codes "list")
        then some (read_list x s st)
        else if text_eq t (codes "hash")
        then read_hash x s st
        else if text_eq t (codes "set")
        then some (read_set x s st)
        else if text_eq t (codes "zset")
        then some (read_zset x s st)
        else some st

    unfoldable pub read_keys : List Text → R.Store → H.State → Option H.State
    unfolding read_key
    read_keys [] s st = some st
    read_keys (x ∷ xs) s st = elim (read_key x s st) [ none ↦ none | some st' ↦ read_keys xs s st' ]

    -- the scan for additional keys below one key
    unfoldable pub read_below : Text → R.Store → H.State → Option H.State
    unfolding read_keys
    read_below k s st =
        if text_eq k []
        then some st
        else read_keys (R.scan (k ++ (n.separator ++ codes "*")) s) s st

    unfoldable pub read_all : R.Store → H.State → Option H.State
    unfolding read_hash read_below
    read_all s st = elim (read_hash n.group_key s st) [
      | none ↦ none
      | some st₁ ↦ elim (read_hash n.key s st₁) [
        | none ↦ none
        | some st₂ ↦ elim (read_below n.group_key s st₂) [
          | none ↦ none
          | some st₃ ↦ read_below n.key s st₃
        ]
      ]
    ]

  -- PropertyExists and GetProperty<std::string>: the value, none, or the
  -- exception of a property of another type.
  pub data Looked : Type 0 where
    found : Text → Looked
    missing wrong : Looked

  unfoldable pub look_for : Text → Text → H.State → Looked
  look_for field name st =
      if text_eq field []
      then elim (H.get name st) [ none ↦ missing | some (string v) ↦ found v | some _ ↦ wrong ]
      else found field

  -- The names that are left in the plugin's fields, and the properties; `none` is an exception.
  unfoldable pub read_parameters : Names → R.Store → H.State → Option (Names × H.State)
  unfolding look_for with_keys read_all
  read_parameters n s st = elim (look_for n.id (codes "id") st) [
    | wrong ↦ none
    | missing ↦ some (n, st)
    | found id ↦ elim (look_for n.separator (codes "separator") st) [
      | wrong ↦ none
      | missing ↦ some (record n { id = id }, st)
      | found separator ↦ elim (with_keys (record n { id = id; separator = separator })) [
        | none ↦ none
        | some n' ↦ elim (read_all n' s st) [ none ↦ none | some st' ↦ some (n', st') ]
      ]
    ]
  ]
