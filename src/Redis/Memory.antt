-- ===== src/Redis/Memory.antt =====
-- A server held in memory: it shows that the laws of `Redis` can be met, and runs the tests.
use driftd.Prelude.{
  String, ◌≡◌, refl, Bool, true, false, ◌&&◌, Option, none, some, List, [], ◌∷◌, ◌++◌, ℤ, ◌+ℤ◌,
  ◌==◌, eq_iff, if◌then◌else◌, is_some, or_else, elem, Result, ok, err, redis_error, arith, ap,
  Bool-cases, eq_refl, inl, inr, pos,
}
use driftd.Redis.{
  Redis, Strings, Hashes, Sets, SortedSets, Lists, Cell, num, field, counter, at_most,
}

abbrev write : {V : Type 0} → (String → Option V) → String → Option V → String → Option V
write s k v j = if k == j then v else s j

abbrev pub strings : (V : Type 0) → Strings V
strings V = record {
  Rep = String → Option V;
  get = λ s k. s k;
  set = λ s k v t. write s k (some v);
  setnx = λ s k v t. if is_some (s k) then (false, s) else (true, write s k (some v));
  del = λ s k. write s k none;
  pexpire = λ s k t. s;
  get-set = λ s k v t j. refl;
  get-del = λ s k j. refl;
  get-pexpire = λ s k t j. refl;
  setnx_lem = λ s k v t. refl;
}

-- The fields of all hashes, each beside its key; a later write stands before an earlier one.
abbrev Table : Type 0
Table = List (String × String × Cell)

abbrev hget : Table → String → String → Option Cell
hget [] j f = none
hget ((k, g, c) ∷ s) j f = if k == j && g == f then some c else hget s j f

abbrev hgetall : Table → String → List (String × Cell)
hgetall [] j = []
hgetall ((k, g, c) ∷ s) j = let rest = hgetall s j in if k == j then (g, c) ∷ rest else rest

abbrev hset : Table → String → List (String × Cell) → Table
hset s k [] = s
hset s k ((f, c) ∷ fs) = (k, f, c) ∷ hset s k fs

pub field-hgetall : (s : Table) (k f : String) → field f (hgetall s k) ≡ hget s k f
field-hgetall [] k f = refl
field-hgetall ((j, g, c) ∷ s) k f = ground (arith, field-hgetall s k f)

pub hget-hset :
    (s : Table) (k : String) (fs : List (String × Cell)) (j f : String)
    → hget (hset s k fs) j f ≡ (if k == j then or_else (field f fs) (hget s j f) else hget s j f)
hget-hset s k [] j f = ground arith
hget-hset s k ((g, c) ∷ fs) j f = ground (arith, hget-hset s k fs j f)

abbrev added : Table → String → String → ℤ → Result ℤ → Result ℤ × Table
added s k f d (ok z) = (ok (z +ℤ d), hset s k ((f, num (z +ℤ d)) ∷ []))
added s k f d (err e) = (err e, s)

abbrev hincrby : Table → String → String → ℤ → Result ℤ × Table
hincrby s k f d = added s k f d (counter (hget s k f))

pub hincrby_ok :
    (s : Table) (k f : String) (d z : ℤ)
    → counter (hget s k f) ≡ ok z
    → hincrby s k f d ≡ (ok (z +ℤ d), hset s k ((f, num (z +ℤ d)) ∷ []))
hincrby_ok s k f d z h = ap (added s k f d) h

pub hincrby_err :
    (s : Table) (k f : String) (d : ℤ)
    → counter (hget s k f) ≡ err redis_error
    → hincrby s k f d ≡ (err redis_error, s)
hincrby_err s k f d h = ap (added s k f d) h

abbrev pub hashes : Hashes
hashes = record {
  Rep = Table;
  hget = hget;
  hgetall = hgetall;
  hset = hset;
  hincrby = hincrby;
  field-hgetall = field-hgetall;
  hget-hset = hget-hset;
  hincrby_ok = hincrby_ok;
  hincrby_err = hincrby_err;
}

-- The members of all sets, each beside its key and a score.
abbrev Entries : Type 0
Entries = List (String × String × ℤ)

abbrev zscore : Entries → String → String → Option ℤ
zscore [] j y = none
zscore ((k, x, z) ∷ s) j y = if k == j && x == y then some z else zscore s j y

abbrev zrem : Entries → String → String → Entries
zrem [] k x = []
zrem ((j, y, z) ∷ s) k x =
    let rest = zrem s k x in if k == j && x == y then rest else (j, y, z) ∷ rest

-- The members under a key that pass a test.
abbrev names : Entries → String → (String → Bool) → List String
names [] k p = []
names ((j, y, z) ∷ s) k p = let rest = names s k p in if j == k && p y then y ∷ rest else rest

pub zscore-zrem :
    (s : Entries) (k x j y : String)
    → zscore (zrem s k x) j y ≡ (if k == j && x == y then none else zscore s j y)
zscore-zrem [] k x j y = ground arith
zscore-zrem ((i, w, z) ∷ s) k x j y = ground (
  arith,
  zscore-zrem s k x j y,
  eq_iff k i,
  eq_iff k j,
  eq_iff i j,
  eq_iff i k,
  eq_iff x w,
  eq_iff x y,
  eq_iff w y,
  eq_iff w x,
)

pub zscore-zadd :
    (s : Entries) (k x : String) (z : ℤ) (j y : String)
    → zscore ((k, x, z) ∷ zrem s k x) j y ≡ (if k == j && x == y then some z else zscore s j y)
zscore-zadd s k x z j y = ground (arith, zscore-zrem s k x j y)

pub elem-names :
    (s : Entries) (k : String) (p : String → Bool) (x : String)
    → elem x (names s k p) ≡ (is_some (zscore s k x) && p x)
elem-names [] k p x = refl
elem-names ((j, y, z) ∷ s) k p x = elim (Bool-cases (y == x)) [
  | inl e ↦ rw ((eq_iff y x).0 e) (ground (arith, elem-names s k p x, eq_refl x))
  | inr e ↦ rw e (ground (arith, elem-names s k p x))
]

abbrev zrangebyscore : Entries → String → ℤ → List String
zrangebyscore s k b = names s k (λ x. at_most (zscore s k x) b)

pub elem-zrangebyscore :
    (s : Entries) (k x : String) (b : ℤ) → elem x (zrangebyscore s k b) ≡ at_most (zscore s k x) b
elem-zrangebyscore s k x b = rw elem-names (ground arith)

abbrev pub sorted_sets : SortedSets
sorted_sets = record {
  Rep = Entries;
  zscore = zscore;
  zadd = λ s k x z. (k, x, z) ∷ zrem s k x;
  zrem = zrem;
  zrangebyscore = zrangebyscore;
  zscore-zadd = zscore-zadd;
  zscore-zrem = zscore-zrem;
  elem-zrangebyscore = elem-zrangebyscore;
}

pub sismember-sadd :
    (s : Entries) (k x j y : String)
    → is_some (zscore ((k, x, pos 0) ∷ zrem s k x) j y)
      ≡ (if k == j && x == y then true else is_some (zscore s j y))
sismember-sadd s k x j y = ground (arith, zscore-zrem s k x j y)

pub sismember-srem :
    (s : Entries) (k x j y : String)
    → is_some (zscore (zrem s k x) j y)
      ≡ (if k == j && x == y then false else is_some (zscore s j y))
sismember-srem s k x j y = ground (arith, zscore-zrem s k x j y)

pub elem-smembers :
    (s : Entries) (k x : String) → elem x (names s k (λ _. true)) ≡ is_some (zscore s k x)
elem-smembers s k x = rw elem-names (ground arith)

abbrev pub sets : Sets
sets = record {
  Rep = Entries;
  sismember = λ s k x. is_some (zscore s k x);
  sadd = λ s k x. (k, x, pos 0) ∷ zrem s k x;
  srem = zrem;
  smembers = λ s k. names s k (λ _. true);
  sismember-sadd = sismember-sadd;
  sismember-srem = sismember-srem;
  elem-smembers = elem-smembers;
}

-- The last entry of a non-empty list, and what stands before it.
abbrev last_of : String → List String → String × List String
last_of x [] = (x, [])
last_of x (y ∷ s) = let (z, r) = last_of y s in (z, x ∷ r)

abbrev pub rpop : List String → Option (String × List String)
rpop [] = none
rpop (x ∷ s) = some (last_of x s)

last_of-snoc : (y : String) (xs : List String) (x : String) → last_of y (xs ++ x ∷ []) ≡ (x, y ∷ xs)
last_of-snoc y [] x = refl
last_of-snoc y (z ∷ xs) x = rw (last_of-snoc z xs x)

pub rpop_empty : (s : List String) → s ≡ [] → rpop s ≡ none
rpop_empty s h = rw h

rpop-snoc : (xs : List String) (x : String) → rpop (xs ++ x ∷ []) ≡ some (x, xs)
rpop-snoc [] x = refl
rpop-snoc (y ∷ xs) x = rw (last_of-snoc y xs x)

pub rpop_last :
    (s xs : List String) (x : String)
    → s ≡ xs ++ x ∷ []
    → (s' : List String) × (rpop s ≡ some (x, s')) × (s' ≡ xs)
rpop_last s xs x h = (xs, rw h (rpop-snoc xs x), refl)

abbrev pub lists : Lists
lists = record {
  Rep = List String;
  lrange = λ s. s;
  lpush = λ s x. x ∷ s;
  rpop = rpop;
  lrange-lpush = λ s x. refl;
  rpop_empty = rpop_empty;
  rpop_last = rpop_last;
}

-- A server in memory, over any type of documents.
abbrev pub memory : (V : Type 0) → Redis V
memory V = record {
  ids = strings String;
  docs = strings V;
  hashes = hashes;
  sets = sets;
  sorted_sets = sorted_sets;
  lists = lists;
}
