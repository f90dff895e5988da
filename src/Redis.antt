-- ===== src/Redis.antt =====
-- The commands of the Redis server that the source sends through redis-plus-plus. Neither is part of
-- the repository: the store and the commands are a parameter, with the documented behaviour that
-- the theorems rely on as laws.
use nestdaq.Base.{
  ℕ, ◌≡◌, ◌≢◌, ◌↔◌, ◌⊎◌, ◌<◌, ◌++◌, List, [], ◌∷◌, Option, none, some, if◌then◌else◌,
}
use nestdaq.Text.{Text, text_eq}
use nestdaq.Text.Number.{ℤ}

pub record Redis : Type 1 where
  pub Store : Type 0
  -- GET
  pub get : Text → Store → Option Text
  -- HGET key field, HGETALL key
  pub hget : Text → Text → Store → Option Text
  pub hgetall : Text → Store → List (Text × Text)
  -- HSET key field value, HDEL key field
  pub hset : Text → Text → Text → Store → Store
  pub hdel : Text → Text → Store → Store
  -- SET key value, and INCR key, which gives the new number; `none` is the error of a value that is
  -- not a number
  pub set : Text → Text → Store → Store
  pub incr : Text → Store → Option (ℤ × Store)
  -- SETEX key ttl value, EXPIRE key ttl, DEL key
  pub setex : Text → ℕ → Text → Store → Store
  pub expire : Text → ℕ → Store → Store
  pub del : Text → Store → Store
  -- RPUSH key values, LRANGE key 0 -1
  pub rpush : Text → List Text → Store → Store
  pub lrange : Text → Store → List Text
  -- TYPE key, SMEMBERS key, and ZRANGE key 0 -1 with the scores, which are floating-point numbers
  pub type_of : Text → Store → Text
  pub smembers : Text → Store → List Text
  pub Score : Type 0
  pub zrange : Text → Store → List (Text × Score)
  -- all the keys that SCAN finds for a pattern, in the order in which they are handed out
  pub scan : Text → Store → List Text

-- An entry of a hash, as HGETALL lists it.
abbrev pub Listed : Text → Text → List (Text × Text) → Type 0
Listed f v [] = ⊥
Listed f v ((g, w) ∷ h) = ((f ≡ g) × (v ≡ w)) ⊎ Listed f v h

-- What the theorems on hashes rely on.
pub record HashLaws (R : Redis) : Type 0 where
  pub hgetall_lem :
      (key field value : Text) (s : R.Store)
      → Listed field value (R.hgetall key s) ↔ (R.hget key field s ≡ some value)
  pub hget-hset :
      (key field value f : Text) (s : R.Store)
      → R.hget key f (R.hset key field value s)
        ≡ (if text_eq f field then some value else R.hget key f s)
  pub hget-hdel :
      (key field f : Text) (s : R.Store)
      → R.hget key f (R.hdel key field s) ≡ (if text_eq f field then none else R.hget key f s)
  -- a string key is another key than that of the hash
  pub hget-setex :
      (key k : Text) (ttl : ℕ) (value f : Text) (s : R.Store)
      → key ≢ k
      → R.hget key f (R.setex k ttl value s) ≡ R.hget key f s

-- What the theorems on lists and on their neighbours rely on; a key has one kind of value.
pub record ListLaws (R : Redis) : Type 0 where
  pub hget-expire :
      (key k : Text) (ttl : ℕ) (f : Text) (s : R.Store)
      → 0 < ttl
      → R.hget key f (R.expire k ttl s) ≡ R.hget key f s
  pub hget-rpush :
      (key k : Text) (values : List Text) (f : Text) (s : R.Store)
      → key ≢ k
      → R.hget key f (R.rpush k values s) ≡ R.hget key f s
  pub lrange-rpush :
      (key : Text) (values : List Text) (s : R.Store)
      → R.lrange key (R.rpush key values s) ≡ R.lrange key s ++ values
  pub lrange-expire :
      (key k : Text) (ttl : ℕ) (s : R.Store)
      → 0 < ttl
      → R.lrange key (R.expire k ttl s) ≡ R.lrange key s
  pub lrange-hset :
      (key k field value : Text) (s : R.Store)
      → key ≢ k
      → R.lrange key (R.hset k field value s) ≡ R.lrange key s

-- What the theorems on deleted keys rely on.
pub record DelLaws (R : Redis) : Type 0 where
  pub get-del : (k : Text) (s : R.Store) → R.get k (R.del k s) ≡ none
  pub hget-del :
      (key k f : Text) (s : R.Store) → key ≢ k → R.hget key f (R.del k s) ≡ R.hget key f s
  pub get-hdel :
      (k key field : Text) (s : R.Store) → key ≢ k → R.get k (R.hdel key field s) ≡ R.get k s

-- What the theorems on all keys of the registry rely on.
pub record KeyLaws (R : Redis) : Type 0 where
  pub hget-hset_other :
      (key k field value f : Text) (s : R.Store)
      → key ≢ k
      → R.hget key f (R.hset k field value s) ≡ R.hget key f s
  pub hget-del_self : (key f : Text) (s : R.Store) → R.hget key f (R.del key s) ≡ none

-- What the theorems on the keys of others rely on: a command on one key leaves another one alone.
pub record ForeignLaws (R : Redis) : Type 0 where
  pub get-setex :
      (key k : Text) (ttl : ℕ) (value : Text) (s : R.Store)
      → key ≢ k
      → R.get key (R.setex k ttl value s) ≡ R.get key s
  pub hget-setex :
      (key k : Text) (ttl : ℕ) (value f : Text) (s : R.Store)
      → key ≢ k
      → R.hget key f (R.setex k ttl value s) ≡ R.hget key f s
  pub get-hset :
      (key k field value : Text) (s : R.Store)
      → key ≢ k
      → R.get key (R.hset k field value s) ≡ R.get key s
  pub hget-hset :
      (key k field value f : Text) (s : R.Store)
      → key ≢ k
      → R.hget key f (R.hset k field value s) ≡ R.hget key f s
  pub get-expire :
      (key k : Text) (ttl : ℕ) (s : R.Store) → 0 < ttl → R.get key (R.expire k ttl s) ≡ R.get key s
  pub hget-expire :
      (key k : Text) (ttl : ℕ) (f : Text) (s : R.Store)
      → 0 < ttl
      → R.hget key f (R.expire k ttl s) ≡ R.hget key f s

-- What the theorems on strings rely on.
pub record StringLaws (R : Redis) : Type 0 where
  pub get-set :
      (k key value : Text) (s : R.Store)
      → R.get k (R.set key value s) ≡ (if text_eq k key then some value else R.get k s)

-- What the theorems on the fields of other hashes rely on.
pub record FieldLaws (R : Redis) : Type 0 where
  pub hget-hdel_other :
      (key k field f : Text) (s : R.Store)
      → key ≢ k
      → R.hget key f (R.hdel k field s) ≡ R.hget key f s

-- What the theorems on keys with a time to live rely on: such a key can be read at once.
pub record SetexLaws (R : Redis) : Type 0 where
  pub get-setex_self :
      (key : Text) (ttl : ℕ) (value : Text) (s : R.Store)
      → 0 < ttl
      → R.get key (R.setex key ttl value s) ≡ some value
