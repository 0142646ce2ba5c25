-- ===== src/Redis.antt =====
-- What driftd uses of its Redis server: a parameter of the development. Each record is one kind of
-- Redis value with the commands that internal/queue sends, and states what their documentation
-- says. A `Rep` holds the values of all keys with one prefix; an expiry is a deletion that the
-- server makes at some time of its own, and the times that a command names have no law.
pub mod Memory
use driftd.Prelude.{
  ℕ, String, ◌≡◌, Bool, true, false, ◌&&◌, Option, none, some, List, [], ◌∷◌, ◌++◌, ℤ, pos, leb_ℤ,
  ◌+ℤ◌, ◌==◌, if◌then◌else◌, is_some, or_else, elem, Result, ok, err, redis_error,
}

-- Strings: GET, SET (with EX or PX), SETNX and SET NX, DEL, PEXPIRE.
pub record Strings (V : Type 0) : Type 1 where
  pub Rep : Type 0
  pub get : Rep → String → Option V
  pub set : Rep → String → V → ℕ → Rep
  pub setnx : Rep → String → V → ℕ → Bool × Rep
  pub del : Rep → String → Rep
  pub pexpire : Rep → String → ℕ → Rep
  pub get-set :
      (s : Rep) (k : String) (v : V) (t : ℕ) (j : String)
      → get (set s k v t) j ≡ (if k == j then some v else get s j)
  pub get-del :
      (s : Rep) (k : String) (j : String) → get (del s k) j ≡ (if k == j then none else get s j)
  pub get-pexpire : (s : Rep) (k : String) (t : ℕ) (j : String) → get (pexpire s k t) j ≡ get s j
  pub setnx_lem :
      (s : Rep) (k : String) (v : V) (t : ℕ)
      → setnx s k v t ≡ (if is_some (get s k) then (false, s) else (true, set s k v t))

-- A field of a hash. Redis keeps each as text; driftd writes and reads the numbers in decimal and
-- the maps as JSON, and the model keeps what was written.
pub data Cell : Type 0 where
  text : String → Cell
  num : ℤ → Cell
  versions : List (String × String) → Cell

abbrev pub field : String → List (String × Cell) → Option Cell
field f [] = none
field f ((g, c) ∷ r) = if g == f then some c else field f r

-- What HINCRBY starts from: 0 at a missing field, an error at a field that is no number.
abbrev pub counter : Option Cell → Result ℤ
counter none = ok (pos 0)
counter (some (num z)) = ok z
counter (some (text t)) = err redis_error
counter (some (versions m)) = err redis_error

-- Hashes: HGET, HGETALL, HSET, HINCRBY.
pub record Hashes : Type 1 where
  pub Rep : Type 0
  pub hget : Rep → String → String → Option Cell
  pub hgetall : Rep → String → List (String × Cell)
  pub hset : Rep → String → List (String × Cell) → Rep
  pub hincrby : Rep → String → String → ℤ → Result ℤ × Rep
  pub field-hgetall : (s : Rep) (k f : String) → field f (hgetall s k) ≡ hget s k f
  pub hget-hset :
      (s : Rep) (k : String) (fs : List (String × Cell)) (j f : String)
      → hget (hset s k fs) j f ≡ (if k == j then or_else (field f fs) (hget s j f) else hget s j f)
  pub hincrby_ok :
      (s : Rep) (k f : String) (d z : ℤ)
      → counter (hget s k f) ≡ ok z
      → hincrby s k f d ≡ (ok (z +ℤ d), hset s k ((f, num (z +ℤ d)) ∷ []))
  pub hincrby_err :
      (s : Rep) (k f : String) (d : ℤ)
      → counter (hget s k f) ≡ err redis_error
      → hincrby s k f d ≡ (err redis_error, s)

-- Sets: SADD, SREM, SISMEMBER, SMEMBERS (and SSCAN, which lists the members too).
pub record Sets : Type 1 where
  pub Rep : Type 0
  pub sismember : Rep → String → String → Bool
  pub sadd : Rep → String → String → Rep
  pub srem : Rep → String → String → Rep
  pub smembers : Rep → String → List String
  pub sismember-sadd :
      (s : Rep) (k x j y : String)
      → sismember (sadd s k x) j y ≡ (if k == j && x == y then true else sismember s j y)
  pub sismember-srem :
      (s : Rep) (k x j y : String)
      → sismember (srem s k x) j y ≡ (if k == j && x == y then false else sismember s j y)
  pub elem-smembers : (s : Rep) (k x : String) → elem x (smembers s k) ≡ sismember s k x

abbrev pub at_most : Option ℤ → ℤ → Bool
at_most none z = false
at_most (some s) z = leb_ℤ s z

-- Sorted sets: ZADD, ZADD NX, ZREM, ZSCORE, ZRANGEBYSCORE from -inf to a bound.
pub record SortedSets : Type 1 where
  pub Rep : Type 0
  pub zscore : Rep → String → String → Option ℤ
  pub zadd : Rep → String → String → ℤ → Rep
  pub zrem : Rep → String → String → Rep
  pub zrangebyscore : Rep → String → ℤ → List String
  pub zscore-zadd :
      (s : Rep) (k x : String) (z : ℤ) (j y : String)
      → zscore (zadd s k x z) j y ≡ (if k == j && x == y then some z else zscore s j y)
  pub zscore-zrem :
      (s : Rep) (k x j y : String)
      → zscore (zrem s k x) j y ≡ (if k == j && x == y then none else zscore s j y)
  pub elem-zrangebyscore :
      (s : Rep) (k x : String) (z : ℤ) → elem x (zrangebyscore s k z) ≡ at_most (zscore s k x) z

-- The work list: LPUSH, RPOP (what BRPOP answers when it does not wait), LREM 0, LRANGE 0 -1.
pub record Lists : Type 1 where
  pub Rep : Type 0
  pub lrange : Rep → List String
  pub lpush : Rep → String → Rep
  pub rpop : Rep → Option (String × Rep)
  pub lrange-lpush : (s : Rep) (x : String) → lrange (lpush s x) ≡ x ∷ lrange s
  pub rpop_empty : (s : Rep) → lrange s ≡ [] → rpop s ≡ none
  pub rpop_last :
      (s : Rep) (xs : List String) (x : String)
      → lrange s ≡ xs ++ x ∷ []
      → (s' : Rep) × (rpop s ≡ some (x, s')) × (lrange s' ≡ xs)

-- The server. `V` is what the queue keeps as JSON documents.
pub record Redis (V : Type 0) : Type 1 where
  pub ids : Strings String
  pub docs : Strings V
  pub hashes : Hashes
  pub sets : Sets
  pub sorted_sets : SortedSets
  pub lists : Lists
